-- ===== src/Qos/Fails.antt =====
-- When `create_readwrite_qos` of rmw_cyclonedds_cpp/src/rmw_node.cpp returns a null pointer, and what
-- becomes of the QoS then.
use rmw_cyclonedds.Base.{
  ℕ, ◌≡◌, refl, ◌∙◌, Bool, true, false, Option, List, Bool-cases, inl, inr, ◌⊎◌,
}
use rmw_cyclonedds.Qos.{
  QosProfile, HistoryPolicy, history_system_default, history_keep_last, history_keep_all,
  history_unknown, ReliabilityPolicy, reliability_system_default, reliability_reliable,
  reliability_best_effort, reliability_unknown, reliability_best_available, DurabilityPolicy,
  durability_system_default, durability_transient_local, durability_volatile, durability_unknown,
  durability_best_available, LivelinessPolicy, liveliness_system_default, liveliness_automatic,
  liveliness_manual_by_topic, liveliness_unknown, liveliness_best_available, QosLibrary,
  set_writer_data_lifecycle,
}
use rmw_cyclonedds.Qos.Create.{
  Created, made, deleted, leaked, and_then, create_history, create_reliability, create_durability,
  create_lifespan, create_deadline, lease_of, create_liveliness, create_readwrite_qos,
}
use rmw_cyclonedds.Qos.Settings.{
  too_deep, knows_history, knows_reliability, knows_durability, knows_liveliness,
  keep_last-too_deep, dds_history, create_history-made, create_reliability-made,
  create_durability-made,
}
use rmw_cyclonedds.Qos.RoundTrip.{IsSupported, step, create_readwrite_qos-settings}

-- A policy is one that the switch statements have no case for.
abbrev pub HasUnknown : QosProfile → Type 0
HasUnknown p =
    (knows_history p.history ≡ false)
    ⊎ ((knows_reliability p.reliability ≡ false)
        ⊎ ((knows_durability p.durability ≡ false) ⊎ (knows_liveliness p.liveliness ≡ false)))

module _ (l : QosLibrary) where
  stop_deleted :
      {A : Type 0} → (x : Created A) (f : A → Created A) → x ≡ deleted → and_then x f ≡ deleted
  unfolding and_then
  stop_deleted x f h = rw h refl

  stop_leaked :
      {A : Type 0} → (x : Created A) (f : A → Created A) → x ≡ leaked → and_then x f ≡ leaked
  unfolding and_then
  stop_leaked x f h = rw h refl

  deep_history :
      (hp : HistoryPolicy) (depth : ℕ) (q : l.Qos)
      → too_deep hp depth ≡ true
      → create_history l hp depth q ≡ deleted
  unfolding create_history
  deep_history history_system_default depth q deep = keep_last-too_deep l depth q deep
  deep_history history_keep_last depth q deep = keep_last-too_deep l depth q deep
  deep_history history_keep_all depth q deep = cc
  deep_history history_unknown depth q deep = cc

  unknown_history :
      (hp : HistoryPolicy) (depth : ℕ) (q : l.Qos)
      → knows_history hp ≡ false
      → create_history l hp depth q ≡ leaked
  unfolding create_history
  unknown_history history_unknown depth q h = refl
  unknown_history history_system_default depth q h = cc
  unknown_history history_keep_last depth q h = cc
  unknown_history history_keep_all depth q h = cc

  unknown_reliability :
      (rp : ReliabilityPolicy) (q : l.Qos)
      → knows_reliability rp ≡ false
      → create_reliability l rp q ≡ leaked
  unfolding create_reliability
  unknown_reliability reliability_unknown q h = refl
  unknown_reliability reliability_system_default q h = cc
  unknown_reliability reliability_reliable q h = cc
  unknown_reliability reliability_best_effort q h = cc
  unknown_reliability reliability_best_available q h = cc

  unknown_durability :
      (dp : DurabilityPolicy) (q : l.Qos)
      → knows_durability dp ≡ false
      → create_durability l dp q ≡ leaked
  unfolding create_durability
  unknown_durability durability_unknown q h = refl
  unknown_durability durability_system_default q h = cc
  unknown_durability durability_transient_local q h = cc
  unknown_durability durability_volatile q h = cc
  unknown_durability durability_best_available q h = cc

  unknown_liveliness :
      (lp : LivelinessPolicy) (ldur : ℕ) (q : l.Qos)
      → knows_liveliness lp ≡ false
      → create_liveliness l lp ldur q ≡ leaked
  unfolding create_liveliness
  unknown_liveliness liveliness_unknown ldur q h = refl
  unknown_liveliness liveliness_system_default ldur q h = cc
  unknown_liveliness liveliness_automatic ldur q h = cc
  unknown_liveliness liveliness_manual_by_topic ldur q h = cc
  unknown_liveliness liveliness_best_available ldur q h = cc

  -- create_readwrite_qos makes a QoS for every supported profile. A depth of KEEP_LAST that is no
  -- `int32_t` gives a null pointer, with the QoS deleted; where the depth is not too deep and the history, the
  -- reliability, the durability or the liveliness is unknown, it gives a null pointer too, but the QoS
  -- is not deleted.
  pub create_readwrite_qos-outcome :
      (p : QosProfile) (type_hash : Option (List ℕ)) (ignore : Bool) (extra : List ℕ)
      → (IsSupported p × ((q : l.Qos) × (create_readwrite_qos l p type_hash ignore extra ≡ made q)))
        ⊎ (((too_deep p.history p.depth ≡ true)
              × (create_readwrite_qos l p type_hash ignore extra ≡ deleted))
            ⊎ ((too_deep p.history p.depth ≡ false)
                × HasUnknown p
                × (create_readwrite_qos l p type_hash ignore extra ≡ leaked)))
  unfolding create_readwrite_qos
  create_readwrite_qos-outcome p type_hash ignore extra =
      let q₀ = l.qset (set_writer_data_lifecycle false) l.create_qos in
      elim (Bool-cases (too_deep p.history p.depth)) [
        | inl deep ↦ inr (inl (deep, stop_deleted _ _ (deep_history p.history p.depth q₀ deep)))
        | inr fits ↦ elim (Bool-cases (knows_history p.history)) [
          | inr h ↦
              inr (inr (fits, inl h, stop_leaked _ _ (unknown_history p.history p.depth q₀ h)))
          | inl h ↦
              (let (q₁, made₁, reads₁) = create_history-made l p.history p.depth q₀ h fits in
                elim (Bool-cases (knows_reliability p.reliability)) [
                  | inr r ↦ inr (
                      inr (
                        fits,
                        inr (inl r),
                        step l _ _ q₁ made₁
                            ∙ stop_leaked _ _ (unknown_reliability p.reliability q₁ r),
                      ))
                  | inl r ↦
                      (let (q₂, made₂, reads₂) = create_reliability-made l p.reliability q₁ r in
                        elim (Bool-cases (knows_durability p.durability)) [
                          | inr d ↦ inr (
                              inr (
                                fits,
                                inr (inr (inl d)),
                                step l _ _ q₁ made₁
                                    ∙ step l _ _ q₂ made₂
                                    ∙ stop_leaked _ _ (unknown_durability p.durability q₂ d),
                              ))
                          | inl d ↦
                              (let (q₃, made₃, reads₃) =
                                  create_durability-made l p.durability
                                    (dds_history p.history p.depth) q₂ d
                                    (rw (reads₂, reads₁) refl) in
                                let q₄ =
                                  create_deadline l p.deadline (create_lifespan l p.lifespan q₃) in
                                let lease = lease_of l p.liveliness_lease_duration in
                                elim (Bool-cases (knows_liveliness p.liveliness)) [
                                  | inr lv ↦ inr (
                                      inr (
                                        fits,
                                        inr (inr (inr lv)),
                                        step l _ _ q₁ made₁
                                            ∙ step l _ _ q₂ made₂
                                            ∙ step l _ _ q₃ made₃
                                            ∙ stop_leaked _ _
                                                (unknown_liveliness p.liveliness lease q₄ lv),
                                      ))
                                  | inl lv ↦
                                      (let ok : IsSupported p = record {
                                        history = h;
                                        depth = fits;
                                        reliability = r;
                                        durability = d;
                                        liveliness = lv;
                                      } in
                                        let (q, success, reads) =
                                          create_readwrite_qos-settings l p type_hash ignore extra
                                            ok in
                                        inl (ok, (q, success)))
                                ])
                        ])
                ])
        ]
      ]
