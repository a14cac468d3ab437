-- ===== src/Callbacks/Drained.antt =====
-- Where a callback of rmw_cyclonedds_cpp/src/rmw_node.cpp is set, nothing is unread.
use rmw_cyclonedds.Base.{ℕ, ◌≡◌, refl, Option, none, some, ◌⊎◌, inl, inr}
use rmw_cyclonedds.Qos.{QosProfile}
use rmw_cyclonedds.Callbacks.{
  CallbackId, CallbackId-discrete, messages, UserCallbackData, notify_slot, notify, assign_slot,
  assign, assign_clipped, rmw_subscription_set_on_new_message_callback,
}
use rmw_cyclonedds.Callbacks.Steps.{Step, event, set, subscribe, step, put-same, put-other}

-- A callback that is set leaves nothing unread.
abbrev pub Drained : CallbackId → UserCallbackData → Type 0
Drained x ucd = ((ucd.slot x).callback ≡ none) ⊎ ((ucd.slot x).unread_count ≡ 0)

notify_slot-Drained :
    (id : CallbackId) (cb : Option ℕ) (user_data unread : ℕ)
    → (cb ≡ none) ⊎ (unread ≡ 0)
    → ((notify_slot id
          (record { callback = cb; user_data = user_data; unread_count = unread })).0.callback
        ≡ none)
      ⊎ ((notify_slot id
            (record { callback = cb; user_data = user_data; unread_count = unread })).0.unread_count
          ≡ 0)
unfolding notify_slot
notify_slot-Drained id none user_data unread drained = inl refl
notify_slot-Drained id (some cb) user_data unread drained = drained

assign_slot-Drained :
    (id : CallbackId) (cb : Option ℕ) (user_data unread : ℕ)
    → ((assign_slot id cb user_data unread).0.callback ≡ none)
      ⊎ ((assign_slot id cb user_data unread).0.unread_count ≡ 0)
unfolding assign_slot
assign_slot-Drained id none user_data unread = inl refl
assign_slot-Drained id (some cb) user_data unread = inr refl

assign_clipped-Drained :
    (qos : QosProfile) (cb : Option ℕ) (user_data unread : ℕ)
    → ((assign_clipped (some qos) cb user_data unread).1.callback ≡ none)
      ⊎ ((assign_clipped (some qos) cb user_data unread).1.unread_count ≡ 0)
unfolding assign_clipped
assign_clipped-Drained qos none user_data unread = inl refl
assign_clipped-Drained qos (some cb) user_data unread = inr refl

pub step-Drained :
    (x : CallbackId) (s : Step) (ucd : UserCallbackData) → Drained x ucd → Drained x (step s ucd).0
unfolding step notify assign rmw_subscription_set_on_new_message_callback
step-Drained x (event id) ucd drained = elim (CallbackId-discrete x id) [
  | yes same ↦
      rw (same, put-same id (notify_slot id (ucd.slot id)).0 ucd)
        (notify_slot-Drained id (ucd.slot id).callback (ucd.slot id).user_data
          (ucd.slot id).unread_count (rw same at drained))
  | no other ↦ rw (put-other x id (notify_slot id (ucd.slot id)).0 ucd other) drained
]
step-Drained x (set id cb user_data) ucd drained = elim (CallbackId-discrete x id) [
  | yes same ↦
      rw (same, put-same id (assign_slot id cb user_data (ucd.slot id).unread_count).0 ucd)
        (assign_slot-Drained id cb user_data (ucd.slot id).unread_count)
  | no other ↦
      rw (put-other x id (assign_slot id cb user_data (ucd.slot id).unread_count).0 ucd other)
        drained
]
step-Drained x (subscribe qos cb user_data) ucd drained = elim (CallbackId-discrete x messages) [
  | yes same ↦
      rw
        (
          same,
          put-same messages
              (assign_clipped (some qos) cb user_data (ucd.slot messages).unread_count).1 ucd,
        )
        (assign_clipped-Drained qos cb user_data (ucd.slot messages).unread_count)
  | no other ↦
      rw
        (put-other x messages
          (assign_clipped (some qos) cb user_data (ucd.slot messages).unread_count).1 ucd other)
        drained
]
