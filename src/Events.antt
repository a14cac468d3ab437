-- ===== src/Events.antt =====
-- Events and statuses of rmw_cyclonedds_cpp/src/rmw_node.cpp: `mask_map` and what asks it.
pub mod Take
pub mod Taken
use rmw_cyclonedds.Base.{Bool, true, false, Option, none, some, Result, ok, throw, out_of_range}

-- `rmw_event_type_t`.
pub data EventType : Type 0 where
  liveliness_changed requested_deadline_missed requested_qos_incompatible message_lost : EventType
  subscription_incompatible_type subscription_matched liveliness_lost : EventType
  offered_deadline_missed offered_qos_incompatible publisher_incompatible_type : EventType
  publication_matched invalid type_max : EventType

-- The communication statuses of DDS that have an event. Each is one bit of a status mask and one
-- index of a table of callbacks.
pub data StatusKind : Type 0 where
  liveliness_changed requested_deadline_missed requested_incompatible_qos sample_lost : StatusKind
  inconsistent_topic subscription_matched liveliness_lost offered_deadline_missed : StatusKind
  offered_incompatible_qos publication_matched : StatusKind

unfoldable pub StatusKind-discrete : Discrete StatusKind
StatusKind-discrete = hlevel

unfoldable pub EventType-discrete : Discrete EventType
EventType-discrete = hlevel

-- `mask_map`.
unfoldable pub mask_map : EventType → Option StatusKind
mask_map EventType.liveliness_changed = some StatusKind.liveliness_changed
mask_map EventType.requested_deadline_missed = some StatusKind.requested_deadline_missed
mask_map EventType.liveliness_lost = some StatusKind.liveliness_lost
mask_map EventType.offered_deadline_missed = some StatusKind.offered_deadline_missed
mask_map EventType.requested_qos_incompatible = some requested_incompatible_qos
mask_map EventType.offered_qos_incompatible = some offered_incompatible_qos
mask_map EventType.message_lost = some sample_lost
mask_map EventType.publisher_incompatible_type = some inconsistent_topic
mask_map EventType.subscription_incompatible_type = some inconsistent_topic
mask_map EventType.subscription_matched = some StatusKind.subscription_matched
mask_map EventType.publication_matched = some StatusKind.publication_matched
mask_map EventType.invalid = none
mask_map EventType.type_max = none

unfoldable pub is_event_supported : EventType → Bool
is_event_supported event_t = elim (mask_map event_t) [ some _ ↦ true | none ↦ false ]

-- `mask_map.at` throws where there is no entry.
unfoldable pub get_status_kind_from_rmw : EventType → Result StatusKind
get_status_kind_from_rmw event_t = elim (mask_map event_t) [
  | some kind ↦ ok kind
  | none ↦ throw out_of_range
]
