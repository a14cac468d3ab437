-- ===== src/Qos/Create.antt =====
-- `create_readwrite_qos` and `dds_qos_to_rmw_qos` of rmw_cyclonedds_cpp/src/rmw_node.cpp.
use rmw_cyclonedds.Base.{
  ℤ, pos, negsuc, ℕ, ◌+◌, ◌-◌, ◌^◌, ◌||◌, Bool, false, Option, none, some, List, ◌++◌, ◌==◌, ltb,
  if◌then◌else◌,
}
use rmw_cyclonedds.Qos.{
  RmwTime, HistoryPolicy, history_system_default, history_keep_last, history_keep_all,
  history_unknown, ReliabilityPolicy, reliability_reliable, reliability_best_effort,
  reliability_unknown, DurabilityPolicy, durability_transient_local, durability_volatile,
  durability_unknown, LivelinessPolicy, liveliness_automatic, liveliness_manual_by_topic,
  liveliness_unknown, QosProfile, DdsHistory, dds_keep_last, dds_keep_all, DdsReliability,
  dds_best_effort, dds_reliable, DdsDurability, dds_volatile, dds_transient_local, dds_transient,
  dds_persistent, DdsLiveliness, dds_automatic, dds_manual_by_participant, dds_manual_by_topic,
  set_writer_data_lifecycle, set_history, set_reliability, set_durability, set_durability_service,
  set_lifespan, set_deadline, set_liveliness, set_ignorelocal_participant, set_userdata, QosLibrary,
}

-- A call that returns false ends the computation.
infixl 5 ◌>>=◌
abbrev ◌>>=◌ {ℓ κ} : {A : Type ℓ} {B : Type κ} → Option A → (A → Option B) → Option B
none >>= next = none
some a >>= next = next a

-- What `create_readwrite_qos` returns: the QoS, or a null pointer, with the QoS that it made deleted
-- or not.
pub data Created (A : Type 0) : Type 0 where
  made : A → Created A
  deleted leaked : Created A

unfoldable pub and_then : {A : Type 0} → Created A → (A → Created A) → Created A
and_then (made q) f = f q
and_then deleted f = deleted
and_then leaked f = leaked

-- A cast to `uint32_t`.
unfoldable pub to_u32 : ℤ → ℕ
to_u32 (pos n) = n
to_u32 (negsuc n) = 2 ^ 32 - (n + 1)

-- The `switch` statements of `dds_qos_to_rmw_qos`.
unfoldable pub history_to_rmw : DdsHistory × ℤ → HistoryPolicy × ℕ
history_to_rmw (dds_keep_last, depth) = (history_keep_last, to_u32 depth)
history_to_rmw (dds_keep_all, depth) = (history_keep_all, 0)

unfoldable pub reliability_to_rmw : DdsReliability → ReliabilityPolicy
reliability_to_rmw dds_best_effort = reliability_best_effort
reliability_to_rmw dds_reliable = reliability_reliable

unfoldable pub durability_to_rmw : DdsDurability → DurabilityPolicy
durability_to_rmw dds_volatile = durability_volatile
durability_to_rmw dds_transient_local = durability_transient_local
durability_to_rmw dds_transient = durability_unknown
durability_to_rmw dds_persistent = durability_unknown

unfoldable pub liveliness_to_rmw : DdsLiveliness → LivelinessPolicy
liveliness_to_rmw dds_automatic = liveliness_automatic
liveliness_to_rmw dds_manual_by_participant = liveliness_unknown
liveliness_to_rmw dds_manual_by_topic = liveliness_manual_by_topic

module _ (l : QosLibrary) where
  open l use {Qos, qset}

  unfoldable pub is_rmw_duration_unspecified : RmwTime → Bool
  is_rmw_duration_unspecified duration = l.rmw_time_equal duration l.rmw_unspecified

  unfoldable pub rmw_duration_to_dds : RmwTime → ℕ
  rmw_duration_to_dds duration =
      if l.rmw_time_equal duration l.rmw_infinite
      then l.dds_infinity
      else l.rmw_time_total_nsec duration

  unfoldable pub dds_duration_to_rmw : ℕ → RmwTime
  dds_duration_to_rmw duration =
      if duration == l.dds_infinity then l.rmw_infinite else l.rmw_time_from_nsec duration

  -- The `switch` statements of `create_readwrite_qos`.
  unfoldable pub keep_last : ℕ → Qos → Created Qos
  keep_last depth q =
      if depth == 0
      then made (qset (set_history dds_keep_last (pos 1)) q)
      else if ltb depth 1 || ltb (2 ^ 31 - 1) depth
      then deleted
      else made (qset (set_history dds_keep_last (pos depth)) q)

  unfoldable pub create_history : HistoryPolicy → ℕ → Qos → Created Qos
  create_history history_system_default depth q = keep_last depth q
  create_history history_keep_last depth q = keep_last depth q
  create_history history_keep_all depth q = made (qset (set_history dds_keep_all (negsuc 0)) q)
  create_history history_unknown depth q = leaked

  unfoldable pub create_reliability : ReliabilityPolicy → Qos → Created Qos
  create_reliability reliability_best_effort q = made (qset (set_reliability dds_best_effort 0) q)
  create_reliability reliability_unknown q = leaked
  create_reliability _ q = made (qset (set_reliability dds_reliable l.dds_infinity) q)

  -- The history is set by then, so that the call that reads it succeeds.
  unfoldable pub create_durability : DurabilityPolicy → Qos → Created Qos
  create_durability durability_transient_local q = elim ((l.qget q).history) [
    | some (hk, hd) ↦
        made (qset (set_durability_service 0 hk hd) (qset (set_durability dds_transient_local) q))
    | none ↦ made (qset (set_durability dds_transient_local) q)
  ]
  create_durability durability_unknown q = leaked
  create_durability _ q = made (qset (set_durability dds_volatile) q)

  unfoldable pub create_lifespan : RmwTime → Qos → Qos
  create_lifespan t q =
      if is_rmw_duration_unspecified t then q else qset (set_lifespan (rmw_duration_to_dds t)) q

  unfoldable pub create_deadline : RmwTime → Qos → Qos
  create_deadline t q =
      if is_rmw_duration_unspecified t then q else qset (set_deadline (rmw_duration_to_dds t)) q

  unfoldable pub lease_of : RmwTime → ℕ
  lease_of t = if is_rmw_duration_unspecified t then l.dds_infinity else rmw_duration_to_dds t

  unfoldable pub create_liveliness : LivelinessPolicy → ℕ → Qos → Created Qos
  create_liveliness liveliness_manual_by_topic ldur q =
      made (qset (set_liveliness dds_manual_by_topic ldur) q)
  create_liveliness liveliness_unknown ldur q = leaked
  create_liveliness _ ldur q = made (qset (set_liveliness dds_automatic ldur) q)

  -- Its end; `type_hash` is the encoded type hash, `none` where the encoding fails.
  unfoldable pub create_rest : Option (List ℕ) → Bool → List ℕ → Qos → Qos
  create_rest type_hash ignore_local_publications extra_user_data q =
      let q' = if ignore_local_publications then qset set_ignorelocal_participant q else q in
      elim type_hash [
        | none ↦ qset (set_userdata extra_user_data) q'
        | some typehash_str ↦ qset (set_userdata (extra_user_data ++ typehash_str)) q'
      ]

  unfoldable pub create_readwrite_qos : QosProfile → Option (List ℕ) → Bool → List ℕ → Created Qos
  create_readwrite_qos p type_hash ignore_local_publications extra_user_data =
      let q₀ = qset (set_writer_data_lifecycle false) l.create_qos in
      and_then (create_history p.history p.depth q₀) (λ q₁.
        and_then (create_reliability p.reliability q₁) (λ q₂.
          and_then (create_durability p.durability q₂) (λ q₃.
            and_then
              (create_liveliness p.liveliness (lease_of p.liveliness_lease_duration)
                (create_deadline p.deadline (create_lifespan p.lifespan q₃)))
              (λ q₄. made (create_rest type_hash ignore_local_publications extra_user_data q₄)))))

  unfoldable pub lifespan_or_infinity : Option ℕ → ℕ
  lifespan_or_infinity none = l.dds_infinity
  lifespan_or_infinity (some t) = t

  -- `none` where it returns false; what it has stored by then is left out.
  unfoldable pub dds_qos_to_rmw_qos : Qos → Option QosProfile
  dds_qos_to_rmw_qos q = do
    h ← (l.qget q).history
    (kind, _) ← (l.qget q).reliability
    durability ← (l.qget q).durability
    deadline ← (l.qget q).deadline
    (liveliness, lease) ← (l.qget q).liveliness
    some (record {
      history = (history_to_rmw h).0;
      depth = (history_to_rmw h).1;
      reliability = reliability_to_rmw kind;
      durability = durability_to_rmw durability;
      deadline = dds_duration_to_rmw deadline;
      lifespan = dds_duration_to_rmw (lifespan_or_infinity (l.qget q).lifespan);
      liveliness = liveliness_to_rmw liveliness;
      liveliness_lease_duration = dds_duration_to_rmw lease;
    })

  -- `get_readwrite_qos`: `qos` is what Cyclone DDS says of the entity, `none` for an invalid handle.
  unfoldable pub get_readwrite_qos : Option Qos → Option QosProfile
  get_readwrite_qos none = none
  get_readwrite_qos (some q) = dds_qos_to_rmw_qos q
