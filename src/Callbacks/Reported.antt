-- ===== src/Callbacks/Reported.antt =====
-- Every event is reported, kept or dropped, one step at a time: the callbacks of
-- rmw_cyclonedds_cpp/src/rmw_node.cpp.
use rmw_cyclonedds.Base.{
  ℕ, ◌+◌, ◌<◌, ◌^◌, ◌≡◌, ◌≢◌, refl, ◌∙◌, arith, Option, none, some, ◌==◌, Bool-cases, inl, inr,
}
use rmw_cyclonedds.Qos.{QosProfile}
use rmw_cyclonedds.Callbacks.{
  CallbackId, CallbackId-discrete, messages, UserCallbackData, notify_slot, notify, assign_slot,
  assign, clip, assign_clipped, rmw_subscription_set_on_new_message_callback,
}
use rmw_cyclonedds.Callbacks.Steps.{
  Step, event, set, subscribe, step, reported, arrives, beyond, drops, one_of-same, one_of-other,
  put-same, put-other,
}

-- One slot: nothing is lost.
notify_slot-count :
    (id : CallbackId) (cb : Option ℕ) (user_data unread : ℕ)
    → unread + 1 < 2 ^ 64
    → reported id
          (notify_slot id
            (record { callback = cb; user_data = user_data; unread_count = unread })).1
        + (notify_slot id
            (record { callback = cb; user_data = user_data; unread_count = unread })).0.unread_count
      ≡ unread + 1
unfolding notify_slot reported
notify_slot-count id none user_data unread small = omega (arith, small)
notify_slot-count id (some cb) user_data unread small = rw (one_of-same id 1) (omega arith)

assign_slot-count :
    (id : CallbackId) (cb : Option ℕ) (user_data unread : ℕ)
    → reported id (assign_slot id cb user_data unread).1
        + (assign_slot id cb user_data unread).0.unread_count
      ≡ unread
unfolding assign_slot reported
assign_slot-count id none user_data unread = omega arith
assign_slot-count id (some cb) user_data unread = elim (Bool-cases (unread == 0)) [
  | inl zero_unread ↦ ground arith
  | inr some_unread ↦ rw (some_unread, one_of-same id unread) (omega arith)
]

clip-beyond : (depth unread : ℕ) → clip depth unread + beyond depth unread ≡ unread
unfolding clip
clip-beyond depth unread = ground arith

assign_clipped-count :
    (qos : QosProfile) (cb : Option ℕ) (user_data : ℕ) (ucd : UserCallbackData)
    → reported messages (assign_clipped (some qos) cb user_data (ucd.slot messages).unread_count).2
        + (assign_clipped (some qos) cb user_data (ucd.slot messages).unread_count).1.unread_count
        + drops messages (subscribe qos cb user_data) ucd
      ≡ (ucd.slot messages).unread_count
unfolding assign_clipped reported drops
assign_clipped-count qos none user_data ucd = omega arith
assign_clipped-count qos (some cb) user_data ucd =
    let n = (ucd.slot messages).unread_count in
    let all = clip-beyond qos.depth n in
    rw (one_of-same messages (beyond qos.depth n)) (elim (Bool-cases (n == 0)) [
      | inl zero_unread ↦ rw zero_unread (ground (arith, all))
      | inr some_unread ↦
          rw (some_unread, one_of-same messages (clip qos.depth n)) (omega (arith, all))
    ])

-- A slot's calls are for its id.
notify_slot-other :
    (x id : CallbackId) (cb : Option ℕ) (user_data unread : ℕ)
    → x ≢ id
    → reported x
        (notify_slot id (record { callback = cb; user_data = user_data; unread_count = unread })).1
      ≡ 0
unfolding notify_slot reported
notify_slot-other x id none user_data unread other = refl
notify_slot-other x id (some cb) user_data unread other = rw (one_of-other x id 1 other) refl

assign_slot-other :
    (x id : CallbackId) (cb : Option ℕ) (user_data unread : ℕ)
    → x ≢ id
    → reported x (assign_slot id cb user_data unread).1 ≡ 0
unfolding assign_slot reported
assign_slot-other x id none user_data unread other = refl
assign_slot-other x id (some cb) user_data unread other = elim (Bool-cases (unread == 0)) [
  | inl zero_unread ↦ rw zero_unread refl
  | inr some_unread ↦ rw (some_unread, one_of-other x id unread other) refl
]

assign_clipped-other :
    (x : CallbackId) (qos : QosProfile) (cb : Option ℕ) (user_data : ℕ) (ucd : UserCallbackData)
    → x ≢ messages
    → (reported x (assign_clipped (some qos) cb user_data (ucd.slot messages).unread_count).2 ≡ 0)
      × (drops x (subscribe qos cb user_data) ucd ≡ 0)
unfolding assign_clipped reported drops
assign_clipped-other x qos none user_data ucd other = (refl, refl)
assign_clipped-other x qos (some cb) user_data ucd other =
    let n = (ucd.slot messages).unread_count in
    (
      elim (Bool-cases (n == 0)) [
        | inl zero_unread ↦ rw zero_unread refl
        | inr some_unread ↦ rw (some_unread, one_of-other x messages (clip qos.depth n) other) refl
      ],
      one_of-other x messages (beyond qos.depth n) other,
    )

subscribe-count :
    (x : CallbackId) (qos : QosProfile) (cb : Option ℕ) (user_data : ℕ) (ucd : UserCallbackData)
    → reported x (step (subscribe qos cb user_data) ucd).1
        + ((step (subscribe qos cb user_data) ucd).0.slot x).unread_count
        + drops x (subscribe qos cb user_data) ucd
      ≡ (ucd.slot x).unread_count
unfolding step rmw_subscription_set_on_new_message_callback
subscribe-count x qos cb user_data ucd = elim (CallbackId-discrete x messages) [
  | yes same ↦
      rw
        (
          same,
          put-same messages
              (assign_clipped (some qos) cb user_data (ucd.slot messages).unread_count).1 ucd,
        )
        (omega (arith, assign_clipped-count qos cb user_data ucd))
  | no other ↦
      rw
        (
          put-other x messages
              (assign_clipped (some qos) cb user_data (ucd.slot messages).unread_count).1 ucd other,
          (assign_clipped-other x qos cb user_data ucd other).0,
          (assign_clipped-other x qos cb user_data ucd other).1,
        )
        (omega arith)
]

-- One step, for one id.
pub step-count :
    (x : CallbackId) (s : Step) (ucd : UserCallbackData)
    → (ucd.slot x).unread_count + arrives x s < 2 ^ 64
    → reported x (step s ucd).1 + ((step s ucd).0.slot x).unread_count + drops x s ucd
      ≡ (ucd.slot x).unread_count + arrives x s
unfolding step notify assign drops
step-count x (event id) ucd small = elim (CallbackId-discrete x id) [
  | yes same ↦
      rw (same, put-same id (notify_slot id (ucd.slot id)).0 ucd, one_of-same id 1)
        (omega (
          arith,
          notify_slot-count id (ucd.slot id).callback (ucd.slot id).user_data
              (ucd.slot id).unread_count (rw (same, one_of-same id 1) at small),
        ))
  | no other ↦
      rw
        (
          put-other x id (notify_slot id (ucd.slot id)).0 ucd other,
          one_of-other x id 1 other,
          notify_slot-other x id (ucd.slot id).callback (ucd.slot id).user_data
              (ucd.slot id).unread_count other,
        )
        (omega arith)
]
step-count x (set id cb user_data) ucd small = elim (CallbackId-discrete x id) [
  | yes same ↦
      rw (same, put-same id (assign_slot id cb user_data (ucd.slot id).unread_count).0 ucd)
        (omega (arith, assign_slot-count id cb user_data (ucd.slot id).unread_count))
  | no other ↦
      rw
        (
          put-other x id (assign_slot id cb user_data (ucd.slot id).unread_count).0 ucd other,
          assign_slot-other x id cb user_data (ucd.slot id).unread_count other,
        )
        (omega arith)
]
step-count x (subscribe qos cb user_data) ucd small =
    subscribe-count x qos cb user_data ucd ∙ omega arith
