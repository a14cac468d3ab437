-- ===== src/Events/Take.antt =====
-- `rmw_take_event` of rmw_cyclonedds_cpp/src/rmw_node.cpp, and the policies of a QoS that was not met.
use rmw_cyclonedds.Base.{
  ℤ, pos, negsuc, ℕ, ◌+◌, ◌-◌, ◌^◌, Option, none, some, ltb, if◌then◌else◌, RmwRet, ret_ok,
  ret_error, ret_unsupported,
}
use rmw_cyclonedds.Events.{EventType, is_event_supported}

-- The casts of `uint32_t` to `int32_t`, and of `int32_t` to `size_t`.
unfoldable pub to_int32 : ℕ → ℤ
to_int32 n = if ltb n (2 ^ 31) then pos n else negsuc (2 ^ 32 - (n + 1))

unfoldable pub to_size : ℤ → ℕ
to_size (pos n) = n
to_size (negsuc n) = 2 ^ 64 - (n + 1)

-- `dds_qos_policy_id_t`.
pub data DdsPolicy : Type 0 where
  dds_invalid dds_userdata dds_durability dds_presentation dds_deadline dds_latencybudget :
      DdsPolicy
  dds_ownership dds_ownershipstrength dds_liveliness dds_timebasedfilter dds_partition : DdsPolicy
  dds_reliability dds_destinationorder dds_history dds_resourcelimits dds_entityfactory : DdsPolicy
  dds_writerdatalifecycle dds_readerdatalifecycle dds_topicdata dds_groupdata : DdsPolicy
  dds_transportpriority dds_lifespan dds_durabilityservice dds_property : DdsPolicy
  dds_type_consistency_enforcement dds_data_representation : DdsPolicy

-- `rmw_qos_policy_kind_t`.
pub data RmwPolicy : Type 0 where
  rmw_invalid rmw_durability rmw_deadline rmw_liveliness rmw_reliability rmw_history : RmwPolicy
  rmw_lifespan : RmwPolicy

unfoldable pub dds_qos_policy_to_rmw_qos_policy : DdsPolicy → RmwPolicy
dds_qos_policy_to_rmw_qos_policy dds_durability = rmw_durability
dds_qos_policy_to_rmw_qos_policy dds_deadline = rmw_deadline
dds_qos_policy_to_rmw_qos_policy dds_liveliness = rmw_liveliness
dds_qos_policy_to_rmw_qos_policy dds_reliability = rmw_reliability
dds_qos_policy_to_rmw_qos_policy dds_history = rmw_history
dds_qos_policy_to_rmw_qos_policy dds_lifespan = rmw_lifespan
dds_qos_policy_to_rmw_qos_policy _ = rmw_invalid

-- The statuses of Cyclone DDS, as far as they are read.
pub record CountStatus : Type 0 where
  pub total_count : ℕ
  pub total_count_change : ℤ

pub record IncompatibleQosStatus : Type 0 where
  pub total_count : ℕ
  pub total_count_change : ℤ
  pub last_policy_id : DdsPolicy

pub record MatchedStatus : Type 0 where
  pub total_count : ℕ
  pub total_count_change : ℤ
  pub current_count : ℕ
  pub current_count_change : ℤ

pub record LivelinessStatus : Type 0 where
  pub alive_count : ℕ
  pub not_alive_count : ℕ
  pub alive_count_change : ℤ
  pub not_alive_count_change : ℤ

-- What the calls `dds_get_..._status` give for the endpoint, `none` where they fail; the inconsistent
-- topic status is that of the endpoint's topic.
pub record Statuses : Type 0 where
  pub liveliness_changed : Option LivelinessStatus
  pub requested_deadline_missed : Option CountStatus
  pub requested_incompatible_qos : Option IncompatibleQosStatus
  pub sample_lost : Option CountStatus
  pub subscription_matched : Option MatchedStatus
  pub liveliness_lost : Option CountStatus
  pub offered_deadline_missed : Option CountStatus
  pub offered_incompatible_qos : Option IncompatibleQosStatus
  pub inconsistent_topic : Option CountStatus
  pub publication_matched : Option MatchedStatus

-- What is stored in `event_info`.
pub data EventInfo : Type 0 where
  liveliness_info : (alive not_alive alive_change not_alive_change : ℤ) → EventInfo
  count_info : (total change : ℤ) → EventInfo
  incompatible_info : (total change : ℤ) (last_policy_kind : RmwPolicy) → EventInfo
  lost_info : (total change : ℕ) → EventInfo
  matched_info : (total change current : ℕ) (current_change : ℤ) → EventInfo

-- The cases of `rmw_take_event`; `*taken` is true where there is an event info.
unfoldable pub take_liveliness : Option LivelinessStatus → RmwRet × Option EventInfo
take_liveliness none = (ret_error, none)
take_liveliness (some st) = (
  ret_ok,
  some (
      liveliness_info (to_int32 st.alive_count) (to_int32 st.not_alive_count) st.alive_count_change
        st.not_alive_count_change),
)

unfoldable pub take_count : Option CountStatus → RmwRet × Option EventInfo
take_count none = (ret_error, none)
take_count (some st) = (ret_ok, some (count_info (to_int32 st.total_count) st.total_count_change))

unfoldable pub take_incompatible : Option IncompatibleQosStatus → RmwRet × Option EventInfo
take_incompatible none = (ret_error, none)
take_incompatible (some st) = (
  ret_ok,
  some (
      incompatible_info (to_int32 st.total_count) st.total_count_change
        (dds_qos_policy_to_rmw_qos_policy st.last_policy_id)),
)

unfoldable pub take_lost : Option CountStatus → RmwRet × Option EventInfo
take_lost none = (ret_error, none)
take_lost (some st) = (ret_ok, some (lost_info st.total_count (to_size st.total_count_change)))

unfoldable pub take_matched : Option MatchedStatus → RmwRet × Option EventInfo
take_matched none = (ret_error, none)
take_matched (some st) = (
  ret_ok,
  some (
      matched_info st.total_count (to_size st.total_count_change) st.current_count
        st.current_count_change),
)

unfoldable pub rmw_take_event : EventType → Statuses → RmwRet × Option EventInfo
rmw_take_event EventType.liveliness_changed s = take_liveliness s.liveliness_changed
rmw_take_event EventType.requested_deadline_missed s = take_count s.requested_deadline_missed
rmw_take_event EventType.requested_qos_incompatible s =
    take_incompatible s.requested_incompatible_qos
rmw_take_event EventType.message_lost s = take_lost s.sample_lost
rmw_take_event EventType.subscription_matched s = take_matched s.subscription_matched
rmw_take_event EventType.liveliness_lost s = take_count s.liveliness_lost
rmw_take_event EventType.offered_deadline_missed s = take_count s.offered_deadline_missed
rmw_take_event EventType.offered_qos_incompatible s = take_incompatible s.offered_incompatible_qos
rmw_take_event EventType.publisher_incompatible_type s = take_count s.inconsistent_topic
rmw_take_event EventType.subscription_incompatible_type s = take_count s.inconsistent_topic
rmw_take_event EventType.publication_matched s = take_matched s.publication_matched
rmw_take_event EventType.invalid s = (ret_error, none)
rmw_take_event EventType.type_max s = (ret_error, none)

-- `init_rmw_event`, for arguments that are not null: the result.
unfoldable pub init_rmw_event : EventType → RmwRet
init_rmw_event event_type = if is_event_supported event_type then ret_ok else ret_unsupported
