-- ===== src/Callbacks/Steps.antt =====
-- Sequences of events and of calls that set a callback, in rmw_cyclonedds_cpp/src/rmw_node.cpp, and the
-- events that arrive, are reported and are dropped in them.
use rmw_cyclonedds.Base.{
  ℕ, ◌+◌, ◌≡◌, ◌≢◌, refl, arith, Option, none, some, List, [], ◌∷◌, ◌++◌, ◌-◌, ◌==◌, if◌then◌else◌,
}
use rmw_cyclonedds.Qos.{QosProfile}
use mathlib.Core.Logic.{ite}
use rmw_cyclonedds.Callbacks.{
  CallbackId, CallbackId-discrete, Slot, UserCallbackData, Call, put, notify, assign, messages,
  rmw_subscription_set_on_new_message_callback,
}

-- What happens to a `user_callback_data_t`: an event, or a call that sets a callback, for a
-- subscription with the QoS that `get_readwrite_qos` gives.
pub data Step : Type 0 where
  event : CallbackId → Step
  set : CallbackId → Option ℕ → ℕ → Step
  subscribe : QosProfile → Option ℕ → ℕ → Step

unfoldable pub step : Step → UserCallbackData → UserCallbackData × List Call
step (event id) ucd = notify id ucd
step (set id callback user_data) ucd = assign id callback user_data ucd
step (subscribe qos callback user_data) ucd =
    let (ret, ucd', calls) =
      rmw_subscription_set_on_new_message_callback (some qos) callback user_data ucd in
    (ucd', calls)

unfoldable pub run : List Step → UserCallbackData → UserCallbackData × List Call
run [] ucd = (ucd, [])
run (x ∷ xs) ucd =
    let (ucd₁, calls₁) = step x ucd in let (ucd₂, calls₂) = run xs ucd₁ in (ucd₂, calls₁ ++ calls₂)

-- The events for an id in a sequence, and the events for it in the calls.
unfoldable pub one_of : CallbackId → CallbackId → ℕ → ℕ
one_of x id n = ite (CallbackId-discrete x id) n 0

unfoldable pub arrived : CallbackId → List Step → ℕ
arrived x [] = 0
arrived x (event id ∷ steps) = one_of x id 1 + arrived x steps
arrived x (set id callback user_data ∷ steps) = arrived x steps
arrived x (subscribe qos callback user_data ∷ steps) = arrived x steps

unfoldable pub reported : CallbackId → List Call → ℕ
reported x [] = 0
reported x (c ∷ cs) = one_of x c.id c.events + reported x cs

pub reported-append :
    (x : CallbackId) (cs ds : List Call) → reported x (cs ++ ds) ≡ reported x cs + reported x ds
unfolding reported
reported-append x [] ds = omega arith
reported-append x (c ∷ cs) ds = omega (arith, reported-append x cs ds)

-- The number of events that a step brings for an id.
abbrev pub arrives : CallbackId → Step → ℕ
arrives x (event id) = one_of x id 1
arrives x (set id callback user_data) = 0
arrives x (subscribe qos callback user_data) = 0

-- The unread messages beyond the depth of the history, where it has one.
abbrev pub beyond : (depth unread : ℕ) → ℕ
beyond depth unread = if depth == 0 then 0 else unread - depth

-- What a step drops for an id: a callback of a subscription is told of no more than the depth.
unfoldable pub drops : CallbackId → Step → UserCallbackData → ℕ
drops x (event id) ucd = 0
drops x (set id callback user_data) ucd = 0
drops x (subscribe qos none user_data) ucd = 0
drops x (subscribe qos (some cb) user_data) ucd =
    one_of x messages (beyond qos.depth (ucd.slot messages).unread_count)

unfoldable pub dropped : CallbackId → List Step → UserCallbackData → ℕ
dropped x [] ucd = 0
dropped x (s ∷ steps) ucd = drops x s ucd + dropped x steps (step s ucd).0

pub arrived-step :
    (x : CallbackId) (s : Step) (steps : List Step)
    → arrived x (s ∷ steps) ≡ arrives x s + arrived x steps
unfolding arrived
arrived-step x (event id) steps = refl
arrived-step x (set id callback user_data) steps = omega arith
arrived-step x (subscribe qos callback user_data) steps = omega arith

pub ite_yes : {A B : Type 0} → (x : Dec A) (a b : B) → A → ite x a b ≡ a
ite_yes (yes p) a b q = refl
ite_yes (no n) a b q = elim (n q) [ ]

pub ite_no : {A B : Type 0} → (x : Dec A) (a b : B) → ¬ A → ite x a b ≡ b
ite_no (yes p) a b n = elim (n p) [ ]
ite_no (no m) a b n = refl

pub one_of-same : (id : CallbackId) (n : ℕ) → one_of id id n ≡ n
unfolding one_of
one_of-same id n = ite_yes (CallbackId-discrete id id) n 0 refl

pub one_of-other : (x id : CallbackId) (n : ℕ) → x ≢ id → one_of x id n ≡ 0
unfolding one_of
one_of-other x id n other = ite_no (CallbackId-discrete x id) n 0 other

pub put-same : (id : CallbackId) (s : Slot) (ucd : UserCallbackData) → (put id s ucd).slot id ≡ s
unfolding put
put-same id s ucd = ite_yes (CallbackId-discrete id id) s (ucd.slot id) refl

pub put-other :
    (x id : CallbackId) (s : Slot) (ucd : UserCallbackData)
    → x ≢ id
    → (put id s ucd).slot x ≡ ucd.slot x
unfolding put
put-other x id s ucd other = ite_no (CallbackId-discrete x id) s (ucd.slot x) other
