-- ===== src/Qos/Settings.antt =====
-- What `create_readwrite_qos` of rmw_cyclonedds_cpp/src/rmw_node.cpp has set, policy by policy.
use rmw_cyclonedds.Base.{
  ◌||◌, ◌++◌, ap, ℤ, pos, negsuc, ℕ, ◌-◌, ◌^◌, ◌≡◌, refl, ◌∙◌, arith, Bool, true, false, Option,
  none, some, List, ◌==◌, ltb, if◌then◌else◌, Bool-cases, inl, inr,
}
use rmw_cyclonedds.Qos.{
  set_userdata, after, RmwTime, HistoryPolicy, history_system_default, history_keep_last,
  history_keep_all, history_unknown, ReliabilityPolicy, reliability_system_default,
  reliability_best_available, reliability_reliable, reliability_best_effort, reliability_unknown,
  DurabilityPolicy, durability_system_default, durability_best_available,
  durability_transient_local, durability_volatile, durability_unknown, LivelinessPolicy,
  liveliness_system_default, liveliness_best_available, liveliness_automatic,
  liveliness_manual_by_topic, liveliness_unknown, DdsHistory, dds_keep_last, dds_keep_all,
  DdsReliability, dds_best_effort, dds_reliable, DdsDurability, dds_volatile, dds_transient_local,
  DdsLiveliness, dds_automatic, dds_manual_by_topic, Setting, set_history, set_durability,
  set_durability_service, QosLibrary,
}
use rmw_cyclonedds.Qos.Create.{
  made, deleted, is_rmw_duration_unspecified, rmw_duration_to_dds, keep_last, create_history,
  create_reliability, create_durability, create_lifespan, create_deadline, create_liveliness,
  create_rest,
}

-- The policies of a profile that have a meaning to Cyclone DDS.
abbrev pub too_deep : HistoryPolicy → ℕ → Bool
too_deep history_system_default depth = ltb (2 ^ 31 - 1) depth
too_deep history_keep_last depth = ltb (2 ^ 31 - 1) depth
too_deep history_keep_all depth = false
too_deep history_unknown depth = false

abbrev pub knows_history : HistoryPolicy → Bool
knows_history history_unknown = false
knows_history _ = true

abbrev pub knows_reliability : ReliabilityPolicy → Bool
knows_reliability reliability_unknown = false
knows_reliability _ = true

abbrev pub knows_durability : DurabilityPolicy → Bool
knows_durability durability_unknown = false
knows_durability _ = true

abbrev pub knows_liveliness : LivelinessPolicy → Bool
knows_liveliness liveliness_unknown = false
knows_liveliness _ = true

-- What they are to Cyclone DDS.
abbrev pub dds_history : HistoryPolicy → ℕ → DdsHistory × ℤ
dds_history history_keep_all depth = (dds_keep_all, negsuc 0)
dds_history _ depth = (dds_keep_last, pos (if depth == 0 then 1 else depth))

abbrev pub dds_reliability : (infinity : ℕ) → ReliabilityPolicy → DdsReliability × ℕ
dds_reliability infinity reliability_best_effort = (dds_best_effort, 0)
dds_reliability infinity _ = (dds_reliable, infinity)

abbrev pub dds_durability : DurabilityPolicy → DdsDurability
dds_durability durability_transient_local = dds_transient_local
dds_durability _ = dds_volatile

abbrev pub dds_liveliness : LivelinessPolicy → DdsLiveliness
dds_liveliness liveliness_manual_by_topic = dds_manual_by_topic
dds_liveliness _ = dds_automatic

-- The history that is kept for late joiners is that of the profile.
abbrev pub dds_durability_service :
    DurabilityPolicy → DdsHistory × ℤ → Option (ℕ × DdsHistory × ℤ) → Option (ℕ × DdsHistory × ℤ)
dds_durability_service durability_transient_local h before = some (0, h.0, h.1)
dds_durability_service _ h before = before

-- The type hash follows the user data of the caller.
abbrev pub dds_userdata : Option (List ℕ) → List ℕ → List ℕ
dds_userdata none extra = extra
dds_userdata (some typehash_str) extra = extra ++ typehash_str

module _ (l : QosLibrary) where
  abbrev last : ℕ → Setting
  last depth = set_history dds_keep_last (pos (if depth == 0 then 1 else depth))

  pub keep_last-too_deep :
      (depth : ℕ) (q : l.Qos) → ltb (2 ^ 31 - 1) depth ≡ true → keep_last l depth q ≡ deleted
  unfolding keep_last
  keep_last-too_deep depth q deep = ground arith

  keep_last-made :
      (depth : ℕ) (q : l.Qos)
      → ltb (2 ^ 31 - 1) depth ≡ false
      → keep_last l depth q ≡ made (l.qset (last depth) q)
  unfolding keep_last
  keep_last-made depth q fits = ground arith

  pub create_history-made :
      (hp : HistoryPolicy) (depth : ℕ) (q : l.Qos)
      → knows_history hp ≡ true
      → too_deep hp depth ≡ false
      → (q' : l.Qos) × (create_history l hp depth q ≡ made q')
        × (l.qget q' ≡ record (l.qget q) { history = some (dds_history hp depth) })
  unfolding create_history
  create_history-made history_system_default depth q known fits =
      (l.qset (last depth) q, keep_last-made depth q fits, l.qget-qset (last depth) q)
  create_history-made history_keep_last depth q known fits =
      (l.qset (last depth) q, keep_last-made depth q fits, l.qget-qset (last depth) q)
  create_history-made history_keep_all depth q known fits = (_, refl, l.qget-qset _ q)
  create_history-made history_unknown depth q known fits = cc

  pub create_reliability-made :
      (rp : ReliabilityPolicy) (q : l.Qos)
      → knows_reliability rp ≡ true
      → (q' : l.Qos) × (create_reliability l rp q ≡ made q')
        × (l.qget q' ≡ record (l.qget q) { reliability = some (dds_reliability l.dds_infinity rp) })
  unfolding create_reliability
  create_reliability-made reliability_system_default q known = (_, refl, l.qget-qset _ q)
  create_reliability-made reliability_reliable q known = (_, refl, l.qget-qset _ q)
  create_reliability-made reliability_best_effort q known = (_, refl, l.qget-qset _ q)
  create_reliability-made reliability_unknown q known = cc
  create_reliability-made reliability_best_available q known = (_, refl, l.qget-qset _ q)

  transient_local :
      (h : DdsHistory × ℤ) (o : Option (DdsHistory × ℤ)) (q : l.Qos)
      → o ≡ some h
      → (q' : l.Qos) × ((elim o [
        | some (hk, hd) ↦ made (
            l.qset (set_durability_service 0 hk hd) (l.qset (set_durability dds_transient_local) q))
        | none ↦ made (l.qset (set_durability dds_transient_local) q)
      ])
          ≡ made q')
        × (l.qget q' ≡ record (l.qget q) {
          durability = some dds_transient_local;
          durability_service = some (0, h.0, h.1);
        })
  transient_local (hk, hd) o q known = (
    l.qset (set_durability_service 0 hk hd) (l.qset (set_durability dds_transient_local) q),
    rw known refl,
    l.qget-qset _ _ ∙ ap (after (set_durability_service 0 hk hd)) (l.qget-qset _ q),
  )

  pub create_durability-made :
      (dp : DurabilityPolicy) (h : DdsHistory × ℤ) (q : l.Qos)
      → knows_durability dp ≡ true
      → (l.qget q).history ≡ some h
      → (q' : l.Qos) × (create_durability l dp q ≡ made q')
        × (l.qget q' ≡ record (l.qget q) {
          durability = some (dds_durability dp);
          durability_service = dds_durability_service dp h (l.qget q).durability_service;
        })
  unfolding create_durability
  create_durability-made durability_system_default h q known kept = (_, refl, l.qget-qset _ q)
  create_durability-made durability_transient_local h q known kept =
      transient_local h (l.qget q).history q kept
  create_durability-made durability_volatile h q known kept = (_, refl, l.qget-qset _ q)
  create_durability-made durability_unknown h q known kept = cc
  create_durability-made durability_best_available h q known kept = (_, refl, l.qget-qset _ q)

  pub create_liveliness-made :
      (lp : LivelinessPolicy) (ldur : ℕ) (q : l.Qos)
      → knows_liveliness lp ≡ true
      → (q' : l.Qos) × (create_liveliness l lp ldur q ≡ made q')
        × (l.qget q' ≡ record (l.qget q) { liveliness = some (dds_liveliness lp, ldur) })
  unfolding create_liveliness
  create_liveliness-made liveliness_system_default ldur q known = (_, refl, l.qget-qset _ q)
  create_liveliness-made liveliness_automatic ldur q known = (_, refl, l.qget-qset _ q)
  create_liveliness-made liveliness_manual_by_topic ldur q known = (_, refl, l.qget-qset _ q)
  create_liveliness-made liveliness_unknown ldur q known = cc
  create_liveliness-made liveliness_best_available ldur q known = (_, refl, l.qget-qset _ q)

  -- A time that is not given is left out.
  abbrev pub given : RmwTime → Option ℕ → Option ℕ
  given t o = if is_rmw_duration_unspecified l t then o else some (rmw_duration_to_dds l t)

  pub create_lifespan-qget :
      (t : RmwTime) (q : l.Qos)
      → l.qget (create_lifespan l t q)
        ≡ record (l.qget q) { lifespan = given t (l.qget q).lifespan }
  unfolding create_lifespan
  create_lifespan-qget t q = elim (Bool-cases (is_rmw_duration_unspecified l t)) [
    | inl unspecified ↦ rw unspecified refl
    | inr specified ↦ rw specified (l.qget-qset _ q)
  ]

  pub create_deadline-qget :
      (t : RmwTime) (q : l.Qos)
      → l.qget (create_deadline l t q)
        ≡ record (l.qget q) { deadline = given t (l.qget q).deadline }
  unfolding create_deadline
  create_deadline-qget t q = elim (Bool-cases (is_rmw_duration_unspecified l t)) [
    | inl unspecified ↦ rw unspecified refl
    | inr specified ↦ rw specified (l.qget-qset _ q)
  ]

  pub create_rest-qget :
      (type_hash : Option (List ℕ)) (ignore : Bool) (extra : List ℕ) (q : l.Qos)
      → l.qget (create_rest l type_hash ignore extra q) ≡ record (l.qget q) {
        ignorelocal_participant = ignore || (l.qget q).ignorelocal_participant;
        userdata = some (dds_userdata type_hash extra);
      }
  unfolding create_rest
  create_rest-qget none false extra q = l.qget-qset _ q
  create_rest-qget none true extra q =
      l.qget-qset _ _ ∙ ap (after (set_userdata extra)) (l.qget-qset _ q)
  create_rest-qget (some xs) false extra q = l.qget-qset _ q
  create_rest-qget (some xs) true extra q =
      l.qget-qset _ _ ∙ ap (after (set_userdata (extra ++ xs))) (l.qget-qset _ q)
