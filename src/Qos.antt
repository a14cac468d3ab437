-- ===== src/Qos.antt =====
-- Quality of service in rmw_cyclonedds_cpp/src/rmw_node.cpp: the policies of rmw and of Cyclone DDS.
pub mod Create
pub mod Settings
pub mod RoundTrip
pub mod Fails
use rmw_cyclonedds.Base.{◌||◌, ℤ, ℕ, ◌≡◌, Bool, true, false, Option, none, some, List}

-- `rmw_time_t`.
pub record RmwTime : Type 0 where
  pub sec : ℕ
  pub nsec : ℕ

pub data HistoryPolicy : Type 0 where
  history_system_default history_keep_last history_keep_all history_unknown : HistoryPolicy

pub data ReliabilityPolicy : Type 0 where
  reliability_system_default reliability_reliable reliability_best_effort : ReliabilityPolicy
  reliability_unknown reliability_best_available : ReliabilityPolicy

pub data DurabilityPolicy : Type 0 where
  durability_system_default durability_transient_local durability_volatile : DurabilityPolicy
  durability_unknown durability_best_available : DurabilityPolicy

pub data LivelinessPolicy : Type 0 where
  liveliness_system_default liveliness_automatic liveliness_manual_by_topic : LivelinessPolicy
  liveliness_unknown liveliness_best_available : LivelinessPolicy

-- `rmw_qos_profile_t`.
pub record QosProfile : Type 0 where
  pub history : HistoryPolicy
  pub depth : ℕ
  pub reliability : ReliabilityPolicy
  pub durability : DurabilityPolicy
  pub deadline : RmwTime
  pub lifespan : RmwTime
  pub liveliness : LivelinessPolicy
  pub liveliness_lease_duration : RmwTime

pub data DdsHistory : Type 0 where
  dds_keep_last dds_keep_all : DdsHistory

pub data DdsReliability : Type 0 where
  dds_best_effort dds_reliable : DdsReliability

pub data DdsDurability : Type 0 where
  dds_volatile dds_transient_local dds_transient dds_persistent : DdsDurability

pub data DdsLiveliness : Type 0 where
  dds_automatic dds_manual_by_participant dds_manual_by_topic : DdsLiveliness

-- The calls `dds_qset_...` with their arguments.
pub data Setting : Type 0 where
  set_writer_data_lifecycle : Bool → Setting
  set_history : DdsHistory → ℤ → Setting
  set_reliability : DdsReliability → ℕ → Setting
  set_durability : DdsDurability → Setting
  set_durability_service : ℕ → DdsHistory → ℤ → Setting
  set_lifespan : ℕ → Setting
  set_deadline : ℕ → Setting
  set_liveliness : DdsLiveliness → ℕ → Setting
  set_ignorelocal_participant : Setting
  set_userdata : List ℕ → Setting

-- What the calls `dds_qget_...` return; `none` is a policy that is not set.
pub record Readings : Type 0 where
  pub history : Option (DdsHistory × ℤ)
  pub reliability : Option (DdsReliability × ℕ)
  pub durability : Option DdsDurability
  pub lifespan : Option ℕ
  pub deadline : Option ℕ
  pub liveliness : Option (DdsLiveliness × ℕ)
  -- The service cleanup delay, the history and its depth.
  pub durability_service : Option (ℕ × DdsHistory × ℤ)
  -- `DDS_IGNORELOCAL_PARTICIPANT`.
  pub ignorelocal_participant : Bool
  pub userdata : Option (List ℕ)
  pub writer_data_lifecycle : Option Bool

-- A call sets its own policy and no other.
abbrev pub after : Setting → Readings → Readings
after (set_history k d) v = record v { history = some (k, d) }
after (set_reliability k t) v = record v { reliability = some (k, t) }
after (set_durability k) v = record v { durability = some k }
after (set_lifespan t) v = record v { lifespan = some t }
after (set_deadline t) v = record v { deadline = some t }
after (set_liveliness k t) v = record v { liveliness = some (k, t) }
after (set_writer_data_lifecycle b) v = record v { writer_data_lifecycle = some b }
after (set_durability_service t k d) v = record v { durability_service = some (t, k, d) }
after set_ignorelocal_participant v = record v { ignorelocal_participant = true }
after (set_userdata xs) v = record v { userdata = some xs }

abbrev pub or_default {ℓ} : {A : Type ℓ} → Option A → Option A → Option A
or_default (some a) o = some a
or_default none o = o

-- What is set, and otherwise the default.
abbrev pub with_defaults : (defaults v : Readings) → Readings
with_defaults defaults v = record {
  history = or_default v.history defaults.history;
  reliability = or_default v.reliability defaults.reliability;
  durability = or_default v.durability defaults.durability;
  lifespan = or_default v.lifespan defaults.lifespan;
  deadline = or_default v.deadline defaults.deadline;
  liveliness = or_default v.liveliness defaults.liveliness;
  durability_service = or_default v.durability_service defaults.durability_service;
  ignorelocal_participant = v.ignorelocal_participant || defaults.ignorelocal_participant;
  userdata = or_default v.userdata defaults.userdata;
  writer_data_lifecycle = or_default v.writer_data_lifecycle defaults.writer_data_lifecycle;
}

-- What the code asks of Cyclone DDS and of the rmw library.
pub record QosLibrary : Type 1 where
  pub Qos : Type 0
  pub create_qos : Qos
  pub qset : Setting → Qos → Qos
  pub qget : Qos → Readings
  pub qget-qset : (x : Setting) (q : Qos) → qget (qset x q) ≡ after x (qget q)
  pub lifespan-create_qos : (qget create_qos).lifespan ≡ none
  pub deadline-create_qos : (qget create_qos).deadline ≡ none
  pub durability_service-create_qos : (qget create_qos).durability_service ≡ none
  pub ignorelocal-create_qos : (qget create_qos).ignorelocal_participant ≡ false
  -- `DDS_INFINITY`, `RMW_DURATION_INFINITE` and `RMW_DURATION_UNSPECIFIED`.
  pub dds_infinity : ℕ
  pub rmw_infinite : RmwTime
  pub rmw_unspecified : RmwTime
  -- The functions of rmw on times.
  pub rmw_time_equal : RmwTime → RmwTime → Bool
  pub rmw_time_total_nsec : RmwTime → ℕ
  pub rmw_time_from_nsec : ℕ → RmwTime
  pub total_nsec-infinite : rmw_time_total_nsec rmw_infinite ≡ dds_infinity
  pub total_nsec-from_nsec :
      (t : RmwTime)
      → rmw_time_total_nsec (rmw_time_from_nsec (rmw_time_total_nsec t)) ≡ rmw_time_total_nsec t
  pub rmw_time_equal-total_nsec :
      (t t' : RmwTime) → rmw_time_equal t t' ≡ true → rmw_time_total_nsec t ≡ rmw_time_total_nsec t'
  -- The QoS of a writer that is made with a QoS.
  pub writer_qos : Qos → Qos
  pub writer_defaults : Readings
  pub qget-writer_qos : (q : Qos) → qget (writer_qos q) ≡ with_defaults writer_defaults (qget q)
  pub lifespan-writer_defaults : writer_defaults.lifespan ≡ some dds_infinity
  pub deadline-writer_defaults : writer_defaults.deadline ≡ some dds_infinity
