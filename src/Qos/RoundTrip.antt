-- ===== src/Qos/RoundTrip.antt =====
-- `create_readwrite_qos` and `dds_qos_to_rmw_qos` of rmw_cyclonedds_cpp/src/rmw_node.cpp against the
-- profile: what is made, what fails, and what is read back.
use rmw_cyclonedds.Base.{
  ◌||◌, ℕ, ◌≡◌, refl, sym, ap, ◌∙◌, Bool, true, false, Option, none, some, List, ◌==◌,
  if◌then◌else◌, Bool-cases, inl, inr, ==→eq, eq→==,
}
use rmw_cyclonedds.Qos.{
  RmwTime, QosProfile, HistoryPolicy, history_keep_last, history_keep_all, ReliabilityPolicy,
  reliability_reliable, reliability_best_effort, DurabilityPolicy, durability_volatile,
  durability_transient_local, LivelinessPolicy, liveliness_automatic, liveliness_manual_by_topic,
  QosLibrary, Readings, or_default, with_defaults, history_system_default, history_unknown,
  reliability_system_default, reliability_unknown, reliability_best_available,
  durability_system_default, durability_unknown, durability_best_available,
  liveliness_system_default, liveliness_unknown, liveliness_best_available,
  set_writer_data_lifecycle,
}
use rmw_cyclonedds.Qos.Create.{
  Created, made, and_then, is_rmw_duration_unspecified, rmw_duration_to_dds, create_lifespan,
  create_deadline, lease_of, create_rest, create_readwrite_qos, history_to_rmw, reliability_to_rmw,
  durability_to_rmw, liveliness_to_rmw, to_u32, lifespan_or_infinity, dds_duration_to_rmw,
  dds_qos_to_rmw_qos, get_readwrite_qos,
}
use rmw_cyclonedds.Qos.Settings.{
  too_deep, knows_history, knows_reliability, knows_durability, knows_liveliness, dds_history,
  dds_reliability, dds_durability, dds_liveliness, dds_durability_service, dds_userdata, given,
  create_history-made, create_reliability-made, create_durability-made, create_liveliness-made,
  create_lifespan-qget, create_deadline-qget, create_rest-qget,
}

-- A profile that Cyclone DDS can have.
pub record IsSupported (p : QosProfile) : Type 0 where
  pub history : knows_history p.history ≡ true
  pub depth : too_deep p.history p.depth ≡ false
  pub reliability : knows_reliability p.reliability ≡ true
  pub durability : knows_durability p.durability ≡ true
  pub liveliness : knows_liveliness p.liveliness ≡ true

-- What such a profile is read back as.
abbrev pub settled_history : HistoryPolicy → HistoryPolicy
settled_history history_keep_all = history_keep_all
settled_history _ = history_keep_last

abbrev pub settled_depth : HistoryPolicy → ℕ → ℕ
settled_depth history_keep_all depth = 0
settled_depth _ depth = if depth == 0 then 1 else depth

abbrev pub settled_reliability : ReliabilityPolicy → ReliabilityPolicy
settled_reliability reliability_best_effort = reliability_best_effort
settled_reliability _ = reliability_reliable

abbrev pub settled_durability : DurabilityPolicy → DurabilityPolicy
settled_durability durability_transient_local = durability_transient_local
settled_durability _ = durability_volatile

abbrev pub settled_liveliness : LivelinessPolicy → LivelinessPolicy
settled_liveliness liveliness_manual_by_topic = liveliness_manual_by_topic
settled_liveliness _ = liveliness_automatic

history_back :
    (hp : HistoryPolicy) (depth : ℕ)
    → history_to_rmw (dds_history hp depth) ≡ (settled_history hp, settled_depth hp depth)
unfolding history_to_rmw to_u32
history_back history_system_default depth = refl
history_back history_keep_last depth = refl
history_back history_keep_all depth = refl
history_back history_unknown depth = refl

reliability_back :
    (infinity : ℕ) (rp : ReliabilityPolicy)
    → reliability_to_rmw (dds_reliability infinity rp).0 ≡ settled_reliability rp
unfolding reliability_to_rmw
reliability_back infinity reliability_system_default = refl
reliability_back infinity reliability_reliable = refl
reliability_back infinity reliability_best_effort = refl
reliability_back infinity reliability_unknown = refl
reliability_back infinity reliability_best_available = refl

durability_back :
    (dp : DurabilityPolicy) → durability_to_rmw (dds_durability dp) ≡ settled_durability dp
unfolding durability_to_rmw
durability_back durability_system_default = refl
durability_back durability_transient_local = refl
durability_back durability_volatile = refl
durability_back durability_unknown = refl
durability_back durability_best_available = refl

liveliness_back :
    (lp : LivelinessPolicy) → liveliness_to_rmw (dds_liveliness lp) ≡ settled_liveliness lp
unfolding liveliness_to_rmw
liveliness_back liveliness_system_default = refl
liveliness_back liveliness_automatic = refl
liveliness_back liveliness_manual_by_topic = refl
liveliness_back liveliness_unknown = refl
liveliness_back liveliness_best_available = refl

module _ (l : QosLibrary) where
  -- The policies of Cyclone DDS that a profile means.
  abbrev pub settings : QosProfile → Option (List ℕ) → Bool → List ℕ → Readings
  settings p type_hash ignore extra = record {
    history = some (dds_history p.history p.depth);
    reliability = some (dds_reliability l.dds_infinity p.reliability);
    durability = some (dds_durability p.durability);
    lifespan = given l p.lifespan none;
    deadline = given l p.deadline none;
    liveliness = some (dds_liveliness p.liveliness, lease_of l p.liveliness_lease_duration);
    durability_service = dds_durability_service p.durability (dds_history p.history p.depth) none;
    ignorelocal_participant = ignore || false;
    userdata = some (dds_userdata type_hash extra);
    writer_data_lifecycle = some false;
  }

  pub step :
      {A : Type 0} → (x : Created A) (f : A → Created A) (a : A) → x ≡ made a → and_then x f ≡ f a
  unfolding and_then
  step x f a h = rw h refl

  -- For every supported profile create_readwrite_qos makes a QoS, and what it has set is exactly what
  -- the profile means: the six policies of the profile, the durability service of TRANSIENT_LOCAL, with
  -- the history and depth of the profile, whether local publications are ignored, the user data, with
  -- the type hash at its end where it can be encoded, and that unregistered instances are not disposed.
  pub create_readwrite_qos-settings :
      (p : QosProfile) (type_hash : Option (List ℕ)) (ignore : Bool) (extra : List ℕ)
      → IsSupported p
      → (q : l.Qos) × (create_readwrite_qos l p type_hash ignore extra ≡ made q)
        × (l.qget q ≡ settings p type_hash ignore extra)
  unfolding create_readwrite_qos
  create_readwrite_qos-settings p type_hash ignore extra ok =
      let q₀ = l.qset (set_writer_data_lifecycle false) l.create_qos in
      let (q₁, made₁, reads₁) = create_history-made l p.history p.depth q₀ ok.history ok.depth in
      let (q₂, made₂, reads₂) = create_reliability-made l p.reliability q₁ ok.reliability in
      let (q₃, made₃, reads₃) =
        create_durability-made l p.durability (dds_history p.history p.depth) q₂ ok.durability
          (rw (reads₂, reads₁) refl) in
      let q₄ = create_deadline l p.deadline (create_lifespan l p.lifespan q₃) in
      let (q₅, made₅, reads₅) =
        create_liveliness-made l p.liveliness (lease_of l p.liveliness_lease_duration) q₄
          ok.liveliness in
      (
        create_rest l type_hash ignore extra q₅,
        step _ _ q₁ made₁ ∙ step _ _ q₂ made₂ ∙ step _ _ q₃ made₃ ∙ step _ _ q₅ made₅,
        rw
            (
              create_rest-qget l type_hash ignore extra q₅,
              reads₅,
              create_deadline-qget l p.deadline (create_lifespan l p.lifespan q₃),
              create_lifespan-qget l p.lifespan q₃,
              reads₃,
              reads₂,
              reads₁,
              l.qget-qset (set_writer_data_lifecycle false) l.create_qos,
              l.lifespan-create_qos,
              l.deadline-create_qos,
              l.durability_service-create_qos,
              l.ignorelocal-create_qos,
            )
            refl,
      )

  -- The length of a time, where an unspecified one is infinite.
  abbrev pub total : RmwTime → ℕ
  total t = if is_rmw_duration_unspecified l t then l.dds_infinity else l.rmw_time_total_nsec t

  time_back : (t : RmwTime) → l.rmw_time_total_nsec (dds_duration_to_rmw l (lease_of l t)) ≡ total t
  unfolding dds_duration_to_rmw lease_of rmw_duration_to_dds
  time_back t = elim (Bool-cases (is_rmw_duration_unspecified l t)) [
    | inl unspecified ↦
        rw (unspecified, eq→== l.dds_infinity l.dds_infinity refl) l.total_nsec-infinite
    | inr specified ↦ rw specified (elim (Bool-cases (l.rmw_time_equal t l.rmw_infinite)) [
      | inl infinite ↦
          rw (infinite, eq→== l.dds_infinity l.dds_infinity refl)
            (sym (l.rmw_time_equal-total_nsec t l.rmw_infinite infinite))
      | inr finite ↦ rw finite (elim (Bool-cases (l.rmw_time_total_nsec t == l.dds_infinity)) [
        | inl longest ↦
            rw longest
              (l.total_nsec-infinite ∙ sym (==→eq (l.rmw_time_total_nsec t) l.dds_infinity longest))
        | inr shorter ↦ rw shorter (l.total_nsec-from_nsec t)
      ])
    ])
  ]

  given_infinity :
      (t : RmwTime) → or_default (given l t none) (some l.dds_infinity) ≡ some (lease_of l t)
  unfolding lease_of
  given_infinity t = elim (Bool-cases (is_rmw_duration_unspecified l t)) [
    | inl unspecified ↦ rw unspecified refl
    | inr specified ↦ rw specified refl
  ]

  -- The profile `p` is read back as `p'`: system defaults are replaced, a depth of 0 is 1 for
  -- KEEP_LAST, the depth of KEEP_ALL is 0, times are as long as they were, and a time that was not
  -- given is infinite.
  pub record Settles (p p' : QosProfile) : Type 0 where
    pub history : p'.history ≡ settled_history p.history
    pub depth : p'.depth ≡ settled_depth p.history p.depth
    pub reliability : p'.reliability ≡ settled_reliability p.reliability
    pub durability : p'.durability ≡ settled_durability p.durability
    pub liveliness : p'.liveliness ≡ settled_liveliness p.liveliness
    pub deadline : l.rmw_time_total_nsec p'.deadline ≡ total p.deadline
    pub lifespan : l.rmw_time_total_nsec p'.lifespan ≡ total p.lifespan
    pub lease :
        l.rmw_time_total_nsec p'.liveliness_lease_duration ≡ total p.liveliness_lease_duration

  abbrev settled : QosProfile → QosProfile
  settled p = record {
    history = (history_to_rmw (dds_history p.history p.depth)).0;
    depth = (history_to_rmw (dds_history p.history p.depth)).1;
    reliability = reliability_to_rmw (dds_reliability l.dds_infinity p.reliability).0;
    durability = durability_to_rmw (dds_durability p.durability);
    deadline = dds_duration_to_rmw l (lease_of l p.deadline);
    lifespan = dds_duration_to_rmw l (lease_of l p.lifespan);
    liveliness = liveliness_to_rmw (dds_liveliness p.liveliness);
    liveliness_lease_duration = dds_duration_to_rmw l (lease_of l p.liveliness_lease_duration);
  }

  settled-Settles : (p : QosProfile) → Settles p (settled p)
  settled-Settles p = record {
    history = rw (history_back p.history p.depth) refl;
    depth = rw (history_back p.history p.depth) refl;
    reliability = reliability_back l.dds_infinity p.reliability;
    durability = durability_back p.durability;
    liveliness = liveliness_back p.liveliness;
    deadline = time_back p.deadline;
    lifespan = time_back p.lifespan;
    lease = time_back p.liveliness_lease_duration;
  }

  -- The QoS of a writer has the defaults for what was not set.
  abbrev writer_settings : QosProfile → Option (List ℕ) → Bool → List ℕ → Readings
  writer_settings p type_hash ignore extra =
      record (with_defaults l.writer_defaults (settings p type_hash ignore extra)) {
        lifespan = some (lease_of l p.lifespan);
        deadline = some (lease_of l p.deadline);
      }

  writer_qos-settings :
      (p : QosProfile) (type_hash : Option (List ℕ)) (ignore : Bool) (extra : List ℕ) (q : l.Qos)
      → l.qget q ≡ settings p type_hash ignore extra
      → l.qget (l.writer_qos q) ≡ writer_settings p type_hash ignore extra
  writer_qos-settings p type_hash ignore extra q reads =
      l.qget-writer_qos q ∙ ap (with_defaults l.writer_defaults) reads ∙ λ i.
      record (with_defaults l.writer_defaults (settings p type_hash ignore extra)) {
        lifespan =
            (ap (or_default (given l p.lifespan none)) l.lifespan-writer_defaults
                ∙ given_infinity p.lifespan)
              i;
        deadline =
            (ap (or_default (given l p.deadline none)) l.deadline-writer_defaults
                ∙ given_infinity p.deadline)
              i;
      }

  read_back :
      (p : QosProfile) (type_hash : Option (List ℕ)) (ignore : Bool) (extra : List ℕ) (q : l.Qos)
      → l.qget q ≡ writer_settings p type_hash ignore extra
      → dds_qos_to_rmw_qos l q ≡ some (settled p)
  unfolding dds_qos_to_rmw_qos lifespan_or_infinity
  read_back p type_hash ignore extra q reads = rw reads refl

  -- For every supported profile create_readwrite_qos makes a QoS, and for a writer with it
  -- get_readwrite_qos succeeds and gives the profile back: with what a system default, a best
  -- available policy, a depth of 0 or the depth of KEEP_ALL stand for in their place, and every time
  -- as long as it was.
  pub create_readwrite_qos-get_readwrite_qos :
      (p : QosProfile) (type_hash : Option (List ℕ)) (ignore : Bool) (extra : List ℕ)
      → IsSupported p
      → (q : l.Qos) × (create_readwrite_qos l p type_hash ignore extra ≡ made q)
        × (p' : QosProfile) × (get_readwrite_qos l (some (l.writer_qos q)) ≡ some p')
        × Settles p p'
  unfolding get_readwrite_qos
  create_readwrite_qos-get_readwrite_qos p type_hash ignore extra ok =
      let (q, success, reads) = create_readwrite_qos-settings p type_hash ignore extra ok in
      (
        q,
        success,
        settled p,
        read_back p type_hash ignore extra (l.writer_qos q)
            (writer_qos-settings p type_hash ignore extra q reads),
        settled-Settles p,
      )
