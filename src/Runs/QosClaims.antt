-- ===== src/Runs/QosClaims.antt =====
-- Quality of service with a small Cyclone DDS.
use rmw_cyclonedds.Base.{
  ℕ, ◌+◌, ◌*◌, ◌/◌, ◌%◌, ◌≡◌, refl, arith, true, false, none, some, [], ◌∷◌, ◌==◌, ==→eq, ◌⊎◌,
}
use rmw_cyclonedds.Qos.{
  RmwTime, QosProfile, history_system_default, reliability_best_available,
  durability_transient_local, liveliness_unknown, liveliness_system_default, Readings, after,
  with_defaults, QosLibrary,
}
use rmw_cyclonedds.Qos.Create.{made, deleted, leaked, create_readwrite_qos, get_readwrite_qos}
use rmw_cyclonedds.Qos.Settings.{too_deep}
use rmw_cyclonedds.Qos.RoundTrip.{
  IsSupported, settings, Settles, create_readwrite_qos-settings,
  create_readwrite_qos-get_readwrite_qos,
}
use rmw_cyclonedds.Qos.Fails.{HasUnknown, create_readwrite_qos-outcome}

abbrev nsecs : RmwTime → ℕ
nsecs t = t.sec * 1000000000 + t.nsec

abbrev infinity : ℕ
infinity = 9223372036854775807

abbrev nothing_set : Readings
nothing_set = record {
  history = none;
  reliability = none;
  durability = none;
  lifespan = none;
  deadline = none;
  liveliness = none;
  durability_service = none;
  ignorelocal_participant = false;
  userdata = none;
  writer_data_lifecycle = none;
}

abbrev small : QosLibrary
small = record {
  Qos = Readings;
  create_qos = nothing_set;
  qset = after;
  qget = λ q. q;
  qget-qset = λ x q. refl;
  lifespan-create_qos = refl;
  deadline-create_qos = refl;
  durability_service-create_qos = refl;
  ignorelocal-create_qos = refl;
  dds_infinity = infinity;
  rmw_infinite = record { sec = 9223372036; nsec = 854775807 };
  rmw_unspecified = record { sec = 0; nsec = 0 };
  rmw_time_equal = λ t t'. nsecs t == nsecs t';
  rmw_time_total_nsec = nsecs;
  rmw_time_from_nsec = λ n. record { sec = n / 1000000000; nsec = n % 1000000000 };
  total_nsec-infinite = refl;
  total_nsec-from_nsec = λ t. omega arith;
  rmw_time_equal-total_nsec = λ t t' h. ==→eq (nsecs t) (nsecs t') h;
  writer_qos =
      with_defaults (record nothing_set { lifespan = some infinity; deadline = some infinity });
  writer_defaults = record nothing_set { lifespan = some infinity; deadline = some infinity };
  qget-writer_qos = λ q. refl;
  lifespan-writer_defaults = refl;
  deadline-writer_defaults = refl;
}

-- Ten milliseconds of deadline; the other times are not given.
abbrev pub profile : QosProfile
profile = record {
  history = history_system_default;
  depth = 0;
  reliability = reliability_best_available;
  durability = durability_transient_local;
  deadline = record { sec = 0; nsec = 10000000 };
  lifespan = record { sec = 0; nsec = 0 };
  liveliness = liveliness_system_default;
  liveliness_lease_duration = record { sec = 0; nsec = 0 };
}

profile-IsSupported : IsSupported profile
profile-IsSupported = record {
  history = refl;
  depth = refl;
  reliability = refl;
  durability = refl;
  liveliness = refl;
}

create_readwrite_qos-settings_example :
    (q : Readings) × (create_readwrite_qos small profile (some (1 ∷ 2 ∷ [])) true (3 ∷ []) ≡ made q)
    × (q ≡ settings small profile (some (1 ∷ 2 ∷ [])) true (3 ∷ []))
create_readwrite_qos-settings_example =
    create_readwrite_qos-settings small profile (some (1 ∷ 2 ∷ [])) true (3 ∷ [])
      profile-IsSupported

create_readwrite_qos-get_readwrite_qos_example :
    (q : Readings) × (create_readwrite_qos small profile none false [] ≡ made q)
    × (p' : QosProfile) × (get_readwrite_qos small (some (small.writer_qos q)) ≡ some p')
    × Settles small profile p'
create_readwrite_qos-get_readwrite_qos_example =
    create_readwrite_qos-get_readwrite_qos small profile none false [] profile-IsSupported

abbrev unknown : QosProfile
unknown = record profile { liveliness = liveliness_unknown }

create_readwrite_qos-outcome_example :
    (IsSupported unknown
      × ((q : Readings) × (create_readwrite_qos small unknown none false [] ≡ made q)))
    ⊎ (((too_deep history_system_default 0 ≡ true)
          × (create_readwrite_qos small unknown none false [] ≡ deleted))
        ⊎ ((too_deep history_system_default 0 ≡ false)
            × HasUnknown unknown
            × (create_readwrite_qos small unknown none false [] ≡ leaked)))
create_readwrite_qos-outcome_example = create_readwrite_qos-outcome small unknown none false []
