-- ===== src/Callbacks/Delivered.antt =====
-- The callbacks of rmw_cyclonedds_cpp/src/rmw_node.cpp over any sequence of steps, and the single calls
-- that set one.
use rmw_cyclonedds.Base.{
  ℕ, ◌+◌, ◌<◌, ◌≤◌, ◌^◌, ◌≡◌, refl, arith, false, none, some, List, [], ◌∷◌, ◌==◌, ltb, Bool-cases,
  inl, inr, ◌⊎◌, ret_ok,
}
use rmw_cyclonedds.Qos.{QosProfile}
use rmw_cyclonedds.Callbacks.{
  CallbackId, messages, UserCallbackData, clip, assign_clipped,
  rmw_subscription_set_on_new_message_callback,
}
use rmw_cyclonedds.Callbacks.Steps.{
  Step, step, put-same, run, arrived, reported, reported-append, arrived-step, dropped,
}
use rmw_cyclonedds.Callbacks.Reported.{step-count}
use rmw_cyclonedds.Callbacks.Drained.{step-Drained, Drained}
use rmw_cyclonedds.Callbacks.Addressed.{AllTo, addressees, steps-AllTo}

run-count :
    (x : CallbackId) (steps : List Step) (ucd : UserCallbackData)
    → (ucd.slot x).unread_count + arrived x steps < 2 ^ 64
    → reported x (run steps ucd).1 + ((run steps ucd).0.slot x).unread_count + dropped x steps ucd
      ≡ (ucd.slot x).unread_count + arrived x steps
unfolding run arrived reported dropped
run-count x [] ucd small = omega arith
run-count x (s ∷ steps) ucd small =
    let small' = rw (arrived-step x s steps) at small in
    let ucd₁ = (step s ucd).0 in
    let one = step-count x s ucd (omega (arith, small')) in
    let rest = run-count x steps ucd₁ (omega (arith, small', one)) in
    rw (reported-append x (step s ucd).1 (run steps ucd₁).1, arrived-step x s steps)
      (omega (arith, one, rest))

run-Drained :
    (x : CallbackId) (steps : List Step) (ucd : UserCallbackData)
    → Drained x ucd
    → Drained x (run steps ucd).0
unfolding run
run-Drained x [] ucd drained = drained
run-Drained x (s ∷ steps) ucd drained =
    run-Drained x steps (step s ucd).0 (step-Drained x s ucd drained)

-- From a `user_callback_data_t` in which nothing of an id is unread, after any sequence of events and
-- of calls that set a callback, that of a subscription included where its QoS can be read, in which
-- less than 2 ^ 64 events of the id arrive: what was reported, what is unread and what was dropped are
-- together what has arrived, and where a callback is set, nothing is unread. Dropped are only the
-- messages beyond the depth of a subscription's history when its callback is set. Every call is one of
-- the callback that was set last for its id, with the user data that was set with it.
pub run-delivers :
    (x : CallbackId) (steps : List Step) (ucd : UserCallbackData)
    → (ucd.slot x).unread_count ≡ 0
    → arrived x steps < 2 ^ 64
    → (reported x (run steps ucd).1 + ((run steps ucd).0.slot x).unread_count + dropped x steps ucd
        ≡ arrived x steps)
      × ((((run steps ucd).0.slot x).callback ≡ none)
          ⊎ (reported x (run steps ucd).1 + dropped x steps ucd ≡ arrived x steps))
      × AllTo (addressees ucd) steps ucd
run-delivers x steps ucd fresh small =
    let counted = run-count x steps ucd (omega (arith, fresh, small)) in
    (
      omega (arith, counted, fresh),
      elim (run-Drained x steps ucd (inr fresh)) [
        | inl unset ↦ inl unset
        | inr drained ↦ inr (omega (arith, counted, fresh, drained))
      ],
      steps-AllTo (addressees ucd) steps ucd (λ y. refl),
    )

clip-bounds :
    (depth unread : ℕ)
    → ((depth ≡ 0) × (clip depth unread ≡ unread))
      ⊎ (((depth == 0) ≡ false)
          × (clip depth unread ≤ depth)
          × (clip depth unread ≤ unread)
          × ((clip depth unread ≡ unread) ⊎ (clip depth unread ≡ depth)))
unfolding clip
clip-bounds depth unread = elim (Bool-cases (depth == 0)) [
  | inl unlimited ↦ inl (ground arith, ground arith)
  | inr limited ↦ elim (Bool-cases (ltb depth unread)) [
    | inl more ↦ inr (limited, ground arith, ground arith, inr (ground arith))
    | inr fits ↦ inr (limited, ground arith, ground arith, inl (ground arith))
  ]
]

-- Where messages are unread and the QoS of the subscription can be read,
-- rmw_subscription_set_on_new_message_callback returns OK, leaves nothing unread, and calls the
-- callback once, with its user data and the number that was unread: all of it for a depth of 0, and
-- else the smaller of it and the depth.
pub rmw_subscription_set_on_new_message_callback-bounds :
    (qos : QosProfile) (cb user_data : ℕ) (ucd : UserCallbackData)
    → ((ucd.slot messages).unread_count == 0) ≡ false
    → (n : ℕ) × ((rmw_subscription_set_on_new_message_callback (some qos) (some cb) user_data ucd).0
        ≡ ret_ok)
      × (((rmw_subscription_set_on_new_message_callback (some qos) (some cb) user_data ucd).1.slot
            messages).unread_count
          ≡ 0)
      × ((rmw_subscription_set_on_new_message_callback (some qos) (some cb) user_data ucd).2
          ≡ record { id = messages; callback = cb; user_data = user_data; events = n } ∷ [])
      × (((qos.depth ≡ 0) × (n ≡ (ucd.slot messages).unread_count))
          ⊎ (((qos.depth == 0) ≡ false)
              × (n ≤ qos.depth)
              × (n ≤ (ucd.slot messages).unread_count)
              × ((n ≡ (ucd.slot messages).unread_count) ⊎ (n ≡ qos.depth))))
unfolding rmw_subscription_set_on_new_message_callback assign_clipped
rmw_subscription_set_on_new_message_callback-bounds qos cb user_data ucd unread = (
  clip qos.depth (ucd.slot messages).unread_count,
  refl,
  rw (put-same messages _ ucd) refl,
  rw unread refl,
  clip-bounds qos.depth (ucd.slot messages).unread_count,
)
