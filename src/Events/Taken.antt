-- ===== src/Events/Taken.antt =====
-- `rmw_take_event` of rmw_cyclonedds_cpp/src/rmw_node.cpp reads the status that `mask_map` names.
use rmw_cyclonedds.Base.{
  ℤ, pos, ℕ, ◌^◌, ◌≡◌, refl, arith, Option, none, some, ltb, ◌≤◌, ◌⊎◌, inl, inr, Bool-cases, RmwRet,
  ret_ok, ret_error,
}
use rmw_cyclonedds.Events.{EventType, StatusKind, mask_map}
use rmw_cyclonedds.Events.Take.{
  to_int32, CountStatus, IncompatibleQosStatus, MatchedStatus, LivelinessStatus, Statuses,
  EventInfo, liveliness_info, count_info, incompatible_info, lost_info, matched_info,
  take_liveliness, take_count, take_incompatible, take_lost, take_matched, rmw_take_event,
}

abbrev count_of : Option CountStatus → Option ℕ
count_of none = none
count_of (some st) = some st.total_count

abbrev incompatible_of : Option IncompatibleQosStatus → Option ℕ
incompatible_of none = none
incompatible_of (some st) = some st.total_count

abbrev matched_of : Option MatchedStatus → Option ℕ
matched_of none = none
matched_of (some st) = some st.total_count

abbrev alive_of : Option LivelinessStatus → Option ℕ
alive_of none = none
alive_of (some st) = some st.alive_count

-- The count that Cyclone DDS has for a status: of the endpoints that are alive for a change of
-- liveliness, and the total count for the others.
unfoldable pub status_count : StatusKind → Statuses → Option ℕ
status_count StatusKind.liveliness_changed s = alive_of s.liveliness_changed
status_count StatusKind.requested_deadline_missed s = count_of s.requested_deadline_missed
status_count StatusKind.requested_incompatible_qos s = incompatible_of s.requested_incompatible_qos
status_count StatusKind.sample_lost s = count_of s.sample_lost
status_count StatusKind.inconsistent_topic s = count_of s.inconsistent_topic
status_count StatusKind.subscription_matched s = matched_of s.subscription_matched
status_count StatusKind.liveliness_lost s = count_of s.liveliness_lost
status_count StatusKind.offered_deadline_missed s = count_of s.offered_deadline_missed
status_count StatusKind.offered_incompatible_qos s = incompatible_of s.offered_incompatible_qos
status_count StatusKind.publication_matched s = matched_of s.publication_matched

unfoldable pub masked_count : EventType → Statuses → Option ℕ
masked_count event_type s = elim (mask_map event_type) [
  | some kind ↦ status_count kind s
  | none ↦ none
]

-- The count in an event info.
unfoldable pub info_count : EventInfo → ℤ
info_count (liveliness_info alive not_alive c d) = alive
info_count (count_info total change) = total
info_count (incompatible_info total change kind) = total
info_count (lost_info total change) = pos total
info_count (matched_info total change current d) = pos total

-- A result is what a count says: an event info with it, where it is an `int32_t`, or an error.
abbrev pub Tells : RmwRet × Option EventInfo → Option ℕ → Type 0
Tells r none = r ≡ (ret_error, none)
Tells r (some n) =
    (info : EventInfo) × (r ≡ (ret_ok, some info)) × ((info_count info ≡ pos n) ⊎ (2 ^ 31 ≤ n))

cast_count : (n : ℕ) → (to_int32 n ≡ pos n) ⊎ (2 ^ 31 ≤ n)
unfolding to_int32
cast_count n = elim (Bool-cases (ltb n (2 ^ 31))) [
  | inl small ↦ inl (rw small refl)
  | inr large ↦ inr (ground arith)
]

take_liveliness-Tells : (o : Option LivelinessStatus) → Tells (take_liveliness o) (alive_of o)
unfolding take_liveliness info_count
take_liveliness-Tells none = refl
take_liveliness-Tells (some st) = (_, refl, cast_count st.alive_count)

take_count-Tells : (o : Option CountStatus) → Tells (take_count o) (count_of o)
unfolding take_count info_count
take_count-Tells none = refl
take_count-Tells (some st) = (_, refl, cast_count st.total_count)

take_incompatible-Tells :
    (o : Option IncompatibleQosStatus) → Tells (take_incompatible o) (incompatible_of o)
unfolding take_incompatible info_count
take_incompatible-Tells none = refl
take_incompatible-Tells (some st) = (_, refl, cast_count st.total_count)

take_lost-Tells : (o : Option CountStatus) → Tells (take_lost o) (count_of o)
unfolding take_lost info_count
take_lost-Tells none = refl
take_lost-Tells (some st) = (_, refl, inl refl)

take_matched-Tells : (o : Option MatchedStatus) → Tells (take_matched o) (matched_of o)
unfolding take_matched info_count
take_matched-Tells none = refl
take_matched-Tells (some st) = (_, refl, inl refl)

-- For every event type, rmw_take_event reads the status that mask_map names for it: where Cyclone DDS
-- gives that status, it returns OK and an event info with the count of the status, unless the count
-- is no `int32_t`; where Cyclone DDS does not, or mask_map has no entry, it returns an error and takes
-- nothing.
pub rmw_take_event-mask_map :
    (event_type : EventType) (s : Statuses)
    → Tells (rmw_take_event event_type s) (masked_count event_type s)
unfolding rmw_take_event masked_count mask_map status_count
rmw_take_event-mask_map EventType.liveliness_changed s = take_liveliness-Tells s.liveliness_changed
rmw_take_event-mask_map EventType.requested_deadline_missed s =
    take_count-Tells s.requested_deadline_missed
rmw_take_event-mask_map EventType.requested_qos_incompatible s =
    take_incompatible-Tells s.requested_incompatible_qos
rmw_take_event-mask_map EventType.message_lost s = take_lost-Tells s.sample_lost
rmw_take_event-mask_map EventType.subscription_incompatible_type s =
    take_count-Tells s.inconsistent_topic
rmw_take_event-mask_map EventType.subscription_matched s = take_matched-Tells s.subscription_matched
rmw_take_event-mask_map EventType.liveliness_lost s = take_count-Tells s.liveliness_lost
rmw_take_event-mask_map EventType.offered_deadline_missed s =
    take_count-Tells s.offered_deadline_missed
rmw_take_event-mask_map EventType.offered_qos_incompatible s =
    take_incompatible-Tells s.offered_incompatible_qos
rmw_take_event-mask_map EventType.publisher_incompatible_type s =
    take_count-Tells s.inconsistent_topic
rmw_take_event-mask_map EventType.publication_matched s = take_matched-Tells s.publication_matched
rmw_take_event-mask_map EventType.invalid s = refl
rmw_take_event-mask_map EventType.type_max s = refl
