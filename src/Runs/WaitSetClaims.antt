-- ===== src/Runs/WaitSetClaims.antt =====
-- Wait sets over a small Cyclone DDS.
use rmw_cyclonedds.Base.{
  ℕ, ◌+◌, ◌≡◌, ◌≢◌, refl, sym, ap, arith, Bool, true, false, ◌&&◌, ◌||◌, Option, none, some, List,
  [], ◌∷◌, ◌++◌, ◌==◌, if◌then◌else◌, ◌⊎◌, ret_ok, ret_error, ok, throw, length_error,
}
use rmw_cyclonedds.Events.{mask_map, message_lost}
use rmw_cyclonedds.Dds.{Dds, Distinct}
use rmw_cyclonedds.WaitSet.{
  Objects, CddsWaitset, WaitArrays, items, require_reattach, member, add_entity, add_event, mask_of,
  gather_masks,
}
use rmw_cyclonedds.WaitSet.Wait.{
  Outcome, reattach, needs_reattach, waitset_detach, detach_cached, detach_all, detach_events,
  attach_conditions, attach_events, attach_gathered, attach_all, gather_event_entities, set_masks,
  clean_waitset_caches, rmw_wait,
}
use rmw_cyclonedds.WaitSet.Attached.{index_from}
use rmw_cyclonedds.WaitSet.Gather.{watched}
use rmw_cyclonedds.WaitSet.Ready.{slots, slots_of}
use rmw_cyclonedds.WaitSet.Report.{rmw_wait-slots}
use rmw_cyclonedds.WaitSet.Cache.{Cached}
use rmw_cyclonedds.WaitSet.Invariant.{rmw_wait-Cached, reattach-agrees}
use rmw_cyclonedds.WaitSet.Busy.{refused, rmw_wait-stays_in_use}
use rmw_cyclonedds.WaitSet.Clean.{AllCached, AllClean, clean_waitset_caches-AllClean}

-- The attachments, and what is triggered: nothing, or the numbers 2 and 0.
abbrev Table : Type 0
Table = ℕ → ℕ → Option ℕ

abbrev first_of : Option ℕ → Option ℕ → Option ℕ
first_of (some y) o = some y
first_of none o = o

abbrev with : ℕ → ℕ → ℕ → Table → Table
with ws e x t = λ ws' e'. elim (t ws' e') [
  | some y ↦ some y
  | none ↦ if ws == ws' && e == e' then some x else none
]

abbrev without : ℕ → ℕ → Table → Table
without ws e t = λ ws' e'. if ws == ws' && e == e' then none else t ws' e'

abbrev triggered : Bool → Option (List ℕ)
triggered true = some (2 ∷ 0 ∷ [])
triggered false = some []

abbrev get : {A : Type 0} → A → Option A → A
get a none = a
get a (some b) = b

triggered-Distinct : (b : Bool) (xs : List ℕ) → triggered b ≡ some xs → Distinct xs
triggered-Distinct true xs h = rw (sym (ap (get []) h)) (((λ e. ground arith), tt), (tt, tt))
triggered-Distinct false xs h = rw (sym (ap (get []) h)) tt

abbrev small : Dds
small = record {
  State = Table × Bool;
  attached = λ s. s.0;
  attach = λ ws e x s. (with ws e x s.0, s.1);
  attached-attach = λ s ws e x ws' e'. refl;
  detach = λ ws e s. (without ws e s.0, s.1);
  attached-detach = λ s ws e ws' e'. refl;
  set_status_mask = λ e mask s. some s;
  attached-set_status_mask = λ s s' e ws' e' mask h. ap (λ t. t.0 ws' e') (sym (ap (get s) h));
  get_status_changes = λ e s. [];
  take_guardcondition = λ e s. s;
  attached-take_guardcondition = λ s e ws' e'. refl;
  waitset_wait = λ ws n timeout s. (triggered s.1, s);
  attached-waitset_wait = λ s ws n timeout ws' e'. refl;
  waitset_wait-Distinct = λ s ws n timeout xs h. triggered-Distinct s.1 xs h;
}

abbrev objects : Objects
objects = record {
  sub_rdcondh = λ p. 10 + p;
  gcondh = λ p. 20 + p;
  srv_rdcondh = λ p. 30 + p;
  cl_rdcondh = λ p. 40 + p;
  event_of = λ p. record { enth = p; event_type = message_lost };
}

-- Two subscriptions, a guard condition, a client and the events with the numbers `evs`.
abbrev arrays : List ℕ → WaitArrays ℕ
arrays evs = record {
  subscribers = some (1 ∷ 2 ∷ []);
  guard_conditions = some (3 ∷ []);
  services = none;
  clients = some (4 ∷ []);
  events = some evs;
}

abbrev wait_set : CddsWaitset
wait_set = record {
  waitseth = 7;
  trigs = [];
  nelems = 0;
  inuse = false;
  subs = [];
  gcs = [];
  srvs = [];
  cls = [];
  evs = [];
}

-- The guard condition 9 is attached to the wait set 7.
abbrev with_dummy : Bool → Table × Bool
with_dummy b = ((λ ws e. if ws == 7 && e == 9 then some 1000 else none), b)

new_wait_set-Cached : Cached small objects 9 wait_set (with_dummy true)
unfolding watched member index_from
new_wait_set-Cached = ([], record { complete = λ e. refl; agrees = λ e other. ground arith })

reattached : (reattach small objects (arrays (50 ∷ [])) wait_set (with_dummy true)).0 ≡ ret_ok
unfolding reattach needs_reattach require_reattach waitset_detach attach_conditions attach_events
    attach_gathered gather_event_entities gather_masks add_event add_entity mask_of mask_map
    set_masks items
reattached = refl

reattach-agrees_example :
    (es : List ℕ) × ((e : ℕ)
      → member e es ≡ member e (watched (record { enth = 50; event_type = message_lost } ∷ [])))
    × ((e : ℕ)
        → e ≢ 9
        → small.attached
            (reattach small objects (arrays (50 ∷ [])) wait_set (with_dummy true)).2
            (reattach small objects (arrays (50 ∷ [])) wait_set (with_dummy true)).1.waitseth
            e
          ≡ index_from 0 ((11 ∷ 12 ∷ 23 ∷ 44 ∷ []) ++ es) e)
unfolding items
reattach-agrees_example =
    reattach-agrees small objects 9 (arrays (50 ∷ [])) wait_set (with_dummy true)
      new_wait_set-Cached reattached

abbrev Waited : Type 0
Waited = Outcome small objects

rmw_wait-slots_example :
    (o : Waited) × (rmw_wait small objects (arrays (50 ∷ [])) none wait_set (with_dummy true)
      ≡ ok o)
    × (o.ret ≡ ret_ok)
    × (o.ws.inuse ≡ false)
    × (o.arrays.subscribers ≡ slots_of (some (1 ∷ 2 ∷ [])) (2 ∷ 0 ∷ []) 0)
    × (o.arrays.guard_conditions ≡ slots_of (some (3 ∷ [])) (2 ∷ 0 ∷ []) 2)
    × (o.arrays.services ≡ slots_of none (2 ∷ 0 ∷ []) 3)
    × (o.arrays.clients ≡ slots_of (some (4 ∷ [])) (2 ∷ 0 ∷ []) 3)
unfolding reattach needs_reattach require_reattach waitset_detach attach_conditions attach_events
    attach_gathered gather_event_entities gather_masks add_event add_entity mask_of mask_map
    set_masks items attach_all detach_cached detach_events detach_all
rmw_wait-slots_example =
    rmw_wait-slots small objects (arrays (50 ∷ [])) none wait_set
      (reattach small objects (arrays (50 ∷ [])) (record wait_set { inuse = true })
        (with_dummy true)).1
      (with_dummy true)
      (reattach small objects (arrays (50 ∷ [])) (record wait_set { inuse = true })
        (with_dummy true)).2
      (2 ∷ 0 ∷ []) refl refl refl

-- What is left in the arrays: the first subscription and the guard condition.
slots_run :
    (slots_of (some (1 ∷ 2 ∷ [])) (2 ∷ 0 ∷ []) 0 ≡ some (some 1 ∷ none ∷ []))
    × (slots_of (some (3 ∷ [])) (2 ∷ 0 ∷ []) 2 ≡ some (some 3 ∷ []))
unfolding slots_of slots member
slots_run = (refl, refl)

rmw_wait-Cached_example :
    ((o : Waited) × (rmw_wait small objects (arrays (50 ∷ [])) (some 5) wait_set (with_dummy true)
        ≡ ok o)
      × Cached small objects 9 o.ws o.dds)
    ⊎ (rmw_wait small objects (arrays (50 ∷ [])) (some 5) wait_set (with_dummy true)
        ≡ throw length_error)
rmw_wait-Cached_example =
    rmw_wait-Cached small objects 9 (arrays (50 ∷ [])) (some 5) wait_set (with_dummy true)
      new_wait_set-Cached

-- The event has no valid entity.
rmw_wait-stays_in_use_example :
    (o : Waited) × (rmw_wait small objects (arrays (0 ∷ [])) none wait_set (with_dummy true) ≡ ok o)
    × (o.ret ≡ ret_error)
    × ((a' : WaitArrays ℕ) (timeout' : Option ℕ) (s' : Table × Bool)
        → rmw_wait small objects a' timeout' o.ws s' ≡ ok (refused small objects a' o.ws s'))
unfolding reattach needs_reattach require_reattach waitset_detach attach_conditions attach_events
    attach_gathered gather_event_entities gather_masks
rmw_wait-stays_in_use_example =
    rmw_wait-stays_in_use small objects (arrays (0 ∷ [])) none wait_set (with_dummy true) refl refl

-- A free wait set with a subscription, and one that is in use with a guard condition.
abbrev two_wait_sets : List CddsWaitset
two_wait_sets =
    record wait_set { subs = 1 ∷ []; nelems = 1 }
    ∷ record wait_set { waitseth = 8; gcs = 3 ∷ []; nelems = 1; inuse = true }
    ∷ []

abbrev both_attached : Table × Bool
both_attached = (
  (λ ws e.
      if (ws == 7 || ws == 8) && e == 9
      then some 1000
      else if (ws == 7 && e == 11) || (ws == 8 && e == 23)
      then some 0
      else none),
  false,
)

both_attached-AllCached : AllCached small objects 9 two_wait_sets both_attached
unfolding watched member index_from
both_attached-AllCached = (
  ([], record { complete = λ e. refl; agrees = λ e other. ground arith }),
  (([], record { complete = λ e. refl; agrees = λ e other. ground arith }), tt),
)

clean_waitset_caches-AllClean_example :
    AllClean small objects 9
      (clean_waitset_caches small objects two_wait_sets both_attached).0
      (clean_waitset_caches small objects two_wait_sets both_attached).1
clean_waitset_caches-AllClean_example =
    clean_waitset_caches-AllClean small objects 9 two_wait_sets both_attached
      (((λ e. ground arith), tt), (tt, tt)) both_attached-AllCached
