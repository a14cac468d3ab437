-- ===== src/Callbacks.antt =====
-- The callbacks for new messages, requests, responses and events in rmw_cyclonedds_cpp/src/rmw_node.cpp.
pub mod Steps
pub mod Reported
pub mod Drained
pub mod Addressed
pub mod Delivered
use rmw_cyclonedds.Base.{
  ℕ, ◌+◌, ◌%◌, ◌^◌, ◌≡◌, Bool, true, false, ◌&&◌, not, Option, none, some, List, [], ◌∷◌, ◌==◌, ltb,
  if◌then◌else◌, RmwRet, ret_ok, ret_error, ret_invalid_argument,
}
use mathlib.Core.Logic.{ite}
use rmw_cyclonedds.Events.{
  EventType, StatusKind, requested_incompatible_qos, offered_incompatible_qos, sample_lost,
  inconsistent_topic,
}
use rmw_cyclonedds.Qos.{QosProfile}

-- What a callback is for: new messages (requests, responses), or a status.
pub data CallbackId : Type 0 where
  messages : CallbackId
  status : StatusKind → CallbackId

unfoldable pub CallbackId-discrete : Discrete CallbackId
CallbackId-discrete = hlevel

-- `callback`, `user_data` and `unread_count` of `user_callback_data_t`, or the elements of its arrays
-- at a status id. A callback that is not null is a number.
pub record Slot : Type 0 where
  pub callback : Option ℕ
  pub user_data : ℕ
  pub unread_count : ℕ

-- `user_callback_data_t`.
pub record UserCallbackData : Type 0 where
  pub slot : CallbackId → Slot

-- A call of a callback with `user_data` and a number of events.
pub record Call : Type 0 where
  pub id : CallbackId
  pub callback : ℕ
  pub user_data : ℕ
  pub events : ℕ

unfoldable pub put : CallbackId → Slot → UserCallbackData → UserCallbackData
put id s ucd = record { slot = λ x. ite (CallbackId-discrete x id) s (ucd.slot x) }

unfoldable pub notify_slot : CallbackId → Slot → Slot × List Call
notify_slot id s = elim s.callback [
  | some cb ↦ (s, record { id = id; callback = cb; user_data = s.user_data; events = 1 } ∷ [])
  | none ↦ (record s { unread_count = (s.unread_count + 1) % 2 ^ 64 }, [])
]

-- `dds_listener_callback`, and each `on_..._fn` of `MAKE_DDS_EVENT_CALLBACK_FN`.
unfoldable pub notify : CallbackId → UserCallbackData → UserCallbackData × List Call
notify id ucd = let (s, calls) = notify_slot id (ucd.slot id) in (put id s ucd, calls)

abbrev pub dds_listener_callback : UserCallbackData → UserCallbackData × List Call
dds_listener_callback ucd = notify messages ucd

abbrev pub on_event : StatusKind → UserCallbackData → UserCallbackData × List Call
on_event kind ucd = notify (status kind) ucd

-- `callback && unread_count`: what is unread is reported.
unfoldable pub assign_slot : CallbackId → Option ℕ → ℕ → ℕ → Slot × List Call
assign_slot id none user_data unread =
    (record { callback = none; user_data = user_data; unread_count = unread }, [])
assign_slot id (some cb) user_data unread = (
  record { callback = some cb; user_data = user_data; unread_count = 0 },
  if unread == 0
      then []
      else record { id = id; callback = cb; user_data = user_data; events = unread } ∷ [],
)

-- `rmw_service_set_on_new_request_callback` and `rmw_client_set_on_new_response_callback`, for
-- `messages`, and `event_set_callback`.
unfoldable pub assign : CallbackId → Option ℕ → ℕ → UserCallbackData → UserCallbackData × List Call
assign id callback user_data ucd =
    let (s, calls) = assign_slot id callback user_data (ucd.slot id).unread_count in
    (put id s ucd, calls)

abbrev pub event_set_callback :
    StatusKind → Option ℕ → ℕ → UserCallbackData → UserCallbackData × List Call
event_set_callback kind callback user_data ucd = assign (status kind) callback user_data ucd

-- The number that a subscription reports: at most the depth of its history, if it has one.
unfoldable pub clip : ℕ → ℕ → ℕ
clip depth unread = if depth == 0 then unread else (if ltb depth unread then depth else unread)

unfoldable pub assign_clipped : Option QosProfile → Option ℕ → ℕ → ℕ → RmwRet × Slot × List Call
assign_clipped sub_qos none user_data unread =
    (ret_ok, record { callback = none; user_data = user_data; unread_count = unread }, [])
assign_clipped none (some cb) user_data unread = (
  if unread == 0 then ret_ok else ret_error,
  record { callback = some cb; user_data = user_data; unread_count = unread },
  [],
)
assign_clipped (some qos) (some cb) user_data unread = (
  ret_ok,
  record { callback = some cb; user_data = user_data; unread_count = 0 },
  if unread == 0
      then []
      else record {
        id = messages;
        callback = cb;
        user_data = user_data;
        events = clip qos.depth unread;
      }
        ∷ [],
)

-- `rmw_subscription_set_on_new_message_callback`; `sub_qos` is what `get_readwrite_qos` gives.
unfoldable pub rmw_subscription_set_on_new_message_callback :
    Option QosProfile → Option ℕ → ℕ → UserCallbackData → RmwRet × UserCallbackData × List Call
rmw_subscription_set_on_new_message_callback sub_qos callback user_data ucd =
    let (ret, s, calls) =
      assign_clipped sub_qos callback user_data (ucd.slot messages).unread_count in
    (ret, put messages s ucd, calls)

unfoldable pub event_set :
    StatusKind → Option ℕ → ℕ → UserCallbackData → RmwRet × UserCallbackData × List Call
event_set kind callback user_data ucd =
    let (ucd', calls) = event_set_callback kind callback user_data ucd in (ret_ok, ucd', calls)

-- `rmw_event_set_callback`: the `switch`.
unfoldable pub rmw_event_set_callback :
    EventType → Option ℕ → ℕ → UserCallbackData → RmwRet × UserCallbackData × List Call
rmw_event_set_callback EventType.liveliness_changed cb ud ucd =
    event_set StatusKind.liveliness_changed cb ud ucd
rmw_event_set_callback EventType.requested_deadline_missed cb ud ucd =
    event_set StatusKind.requested_deadline_missed cb ud ucd
rmw_event_set_callback EventType.requested_qos_incompatible cb ud ucd =
    event_set requested_incompatible_qos cb ud ucd
rmw_event_set_callback EventType.message_lost cb ud ucd = event_set sample_lost cb ud ucd
rmw_event_set_callback EventType.subscription_matched cb ud ucd =
    event_set StatusKind.subscription_matched cb ud ucd
rmw_event_set_callback EventType.liveliness_lost cb ud ucd =
    event_set StatusKind.liveliness_lost cb ud ucd
rmw_event_set_callback EventType.offered_deadline_missed cb ud ucd =
    event_set StatusKind.offered_deadline_missed cb ud ucd
rmw_event_set_callback EventType.offered_qos_incompatible cb ud ucd =
    event_set offered_incompatible_qos cb ud ucd
rmw_event_set_callback EventType.publisher_incompatible_type cb ud ucd =
    event_set inconsistent_topic cb ud ucd
rmw_event_set_callback EventType.subscription_incompatible_type cb ud ucd =
    event_set inconsistent_topic cb ud ucd
rmw_event_set_callback EventType.publication_matched cb ud ucd =
    event_set StatusKind.publication_matched cb ud ucd
rmw_event_set_callback EventType.invalid cb ud ucd = (ret_invalid_argument, ucd, [])
rmw_event_set_callback EventType.type_max cb ud ucd = (ret_invalid_argument, ucd, [])
