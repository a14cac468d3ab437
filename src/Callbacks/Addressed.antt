-- ===== src/Callbacks/Addressed.antt =====
-- Every call of a callback in rmw_cyclonedds_cpp/src/rmw_node.cpp is one of the callback that was set
-- last for its id, with the user data that was set with it.
use rmw_cyclonedds.Base.{
  ℕ, ◌≡◌, ◌≢◌, refl, sym, ◌∙◌, Option, none, some, List, [], ◌∷◌, ◌==◌, Bool-cases, inl, inr,
}
use mathlib.Core.Logic.{ite}
use rmw_cyclonedds.Qos.{QosProfile}
use rmw_cyclonedds.Callbacks.{
  CallbackId, CallbackId-discrete, messages, Slot, UserCallbackData, Call, put, notify_slot, notify,
  assign_slot, assign, assign_clipped, rmw_subscription_set_on_new_message_callback,
}
use rmw_cyclonedds.Callbacks.Steps.{
  Step, event, set, subscribe, step, put-same, put-other, ite_yes, ite_no,
}

-- The callback and the user data of an id.
abbrev pub Addressee : Type 0
Addressee = Option ℕ × ℕ

unfoldable pub install : CallbackId → Addressee → (CallbackId → Addressee) → CallbackId → Addressee
install id a to x = ite (CallbackId-discrete x id) a (to x)

-- What is set for each id after a step.
abbrev pub set_by : Step → (CallbackId → Addressee) → CallbackId → Addressee
set_by (event id) to = to
set_by (set id callback user_data) to = install id (callback, user_data) to
set_by (subscribe qos callback user_data) to = install messages (callback, user_data) to

unfoldable pub EachTo : (CallbackId → Addressee) → List Call → Type 0
EachTo to [] = Unit
EachTo to (c ∷ cs) = (to c.id ≡ (some c.callback, c.user_data)) × EachTo to cs

-- The calls of every step go where the steps up to it have set.
unfoldable pub AllTo : (CallbackId → Addressee) → List Step → UserCallbackData → Type 0
AllTo to [] ucd = Unit
AllTo to (s ∷ steps) ucd =
    EachTo (set_by s to) (step s ucd).1 × AllTo (set_by s to) steps (step s ucd).0

abbrev pub addressee : Slot → Addressee
addressee s = (s.callback, s.user_data)

-- What the data have for each id.
abbrev pub addressees : UserCallbackData → CallbackId → Addressee
addressees ucd x = addressee (ucd.slot x)

abbrev pub Installed : (CallbackId → Addressee) → UserCallbackData → Type 0
Installed to ucd = (x : CallbackId) → addressees ucd x ≡ to x

install-same :
    (id : CallbackId) (a : Addressee) (to : CallbackId → Addressee) → install id a to id ≡ a
unfolding install
install-same id a to = ite_yes (CallbackId-discrete id id) a (to id) refl

install-other :
    (x id : CallbackId) (a : Addressee) (to : CallbackId → Addressee)
    → x ≢ id
    → install id a to x ≡ to x
unfolding install
install-other x id a to other = ite_no (CallbackId-discrete x id) a (to x) other

put-Installed :
    (id : CallbackId) (s : Slot) (to : CallbackId → Addressee) (ucd : UserCallbackData)
    → Installed to ucd
    → Installed (install id (addressee s) to) (put id s ucd)
put-Installed id s to ucd h x = elim (CallbackId-discrete x id) [
  | yes same ↦ rw (same, put-same id s ucd, install-same id (addressee s) to) refl
  | no other ↦ rw (put-other x id s ucd other, install-other x id (addressee s) to other) (h x)
]

-- A slot that keeps its callback and user data.
put_back-Installed :
    (id : CallbackId) (s : Slot) (to : CallbackId → Addressee) (ucd : UserCallbackData)
    → addressee s ≡ to id
    → Installed to ucd
    → Installed to (put id s ucd)
put_back-Installed id s to ucd same_one h x = elim (CallbackId-discrete x id) [
  | yes same ↦ rw (same, put-same id s ucd) same_one
  | no other ↦ rw (put-other x id s ucd other) (h x)
]

notify_slot-addressee :
    (id : CallbackId) (cb : Option ℕ) (user_data unread : ℕ)
    → addressee
        (notify_slot id (record { callback = cb; user_data = user_data; unread_count = unread })).0
      ≡ (cb, user_data)
unfolding notify_slot
notify_slot-addressee id none user_data unread = refl
notify_slot-addressee id (some cb) user_data unread = refl

notify_slot-EachTo :
    (to : CallbackId → Addressee) (id : CallbackId) (cb : Option ℕ) (user_data unread : ℕ)
    → (cb, user_data) ≡ to id
    → EachTo to
        (notify_slot id (record { callback = cb; user_data = user_data; unread_count = unread })).1
unfolding notify_slot EachTo
notify_slot-EachTo to id none user_data unread h = tt
notify_slot-EachTo to id (some cb) user_data unread h = (sym h, tt)

assign_slot-addressee :
    (id : CallbackId) (cb : Option ℕ) (user_data unread : ℕ)
    → addressee (assign_slot id cb user_data unread).0 ≡ (cb, user_data)
unfolding assign_slot
assign_slot-addressee id none user_data unread = refl
assign_slot-addressee id (some cb) user_data unread = refl

assign_slot-EachTo :
    (to : CallbackId → Addressee) (id : CallbackId) (cb : Option ℕ) (user_data unread : ℕ)
    → to id ≡ (cb, user_data)
    → EachTo to (assign_slot id cb user_data unread).1
unfolding assign_slot EachTo
assign_slot-EachTo to id none user_data unread h = tt
assign_slot-EachTo to id (some cb) user_data unread h = elim (Bool-cases (unread == 0)) [
  | inl zero_unread ↦ rw zero_unread tt
  | inr some_unread ↦ rw some_unread (h, tt)
]

assign_clipped-addressee :
    (qos : QosProfile) (cb : Option ℕ) (user_data unread : ℕ)
    → addressee (assign_clipped (some qos) cb user_data unread).1 ≡ (cb, user_data)
unfolding assign_clipped
assign_clipped-addressee qos none user_data unread = refl
assign_clipped-addressee qos (some cb) user_data unread = refl

assign_clipped-EachTo :
    (to : CallbackId → Addressee) (qos : QosProfile) (cb : Option ℕ) (user_data unread : ℕ)
    → to messages ≡ (cb, user_data)
    → EachTo to (assign_clipped (some qos) cb user_data unread).2
unfolding assign_clipped EachTo
assign_clipped-EachTo to qos none user_data unread h = tt
assign_clipped-EachTo to qos (some cb) user_data unread h = elim (Bool-cases (unread == 0)) [
  | inl zero_unread ↦ rw zero_unread tt
  | inr some_unread ↦ rw some_unread (h, tt)
]

-- One step.
pub step-Installed :
    (s : Step) (to : CallbackId → Addressee) (ucd : UserCallbackData)
    → Installed to ucd
    → Installed (set_by s to) (step s ucd).0 × EachTo (set_by s to) (step s ucd).1
unfolding step notify assign rmw_subscription_set_on_new_message_callback
step-Installed (event id) to ucd h =
    let s = ucd.slot id in
    let kept = notify_slot-addressee id s.callback s.user_data s.unread_count in
    (
      put_back-Installed id (notify_slot id s).0 to ucd (kept ∙ h id) h,
      notify_slot-EachTo to id s.callback s.user_data s.unread_count (h id),
    )
step-Installed (set id cb user_data) to ucd h =
    let n = (ucd.slot id).unread_count in
    (
      rw (← assign_slot-addressee id cb user_data n)
          (put-Installed id (assign_slot id cb user_data n).0 to ucd h),
      assign_slot-EachTo (install id (cb, user_data) to) id cb user_data n
          (install-same id (cb, user_data) to),
    )
step-Installed (subscribe qos cb user_data) to ucd h =
    let n = (ucd.slot messages).unread_count in
    (
      rw (← assign_clipped-addressee qos cb user_data n)
          (put-Installed messages (assign_clipped (some qos) cb user_data n).1 to ucd h),
      assign_clipped-EachTo (install messages (cb, user_data) to) qos cb user_data n
          (install-same messages (cb, user_data) to),
    )

pub steps-AllTo :
    (to : CallbackId → Addressee) (steps : List Step) (ucd : UserCallbackData)
    → Installed to ucd
    → AllTo to steps ucd
unfolding AllTo
steps-AllTo to [] ucd h = tt
steps-AllTo to (s ∷ steps) ucd h =
    let (installed, each) = step-Installed s to ucd h in
    (each, steps-AllTo (set_by s to) steps (step s ucd).0 installed)
