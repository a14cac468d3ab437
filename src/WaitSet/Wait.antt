-- ===== src/WaitSet/Wait.antt =====
-- `rmw_wait` and `clean_waitset_caches` of rmw_cyclonedds_cpp/src/rmw_node.cpp, over the Cyclone DDS
-- library.
use rmw_cyclonedds.Base.{
  ℕ, ◌+◌, Bool, true, false, ◌||◌, Option, none, some, List, [], ◌∷◌, ◌++◌, map, length, ◌==◌,
  if◌then◌else◌, Result, ok, throw, length_error, RmwRet, ret_ok, ret_error, ret_timeout,
}
use rmw_cyclonedds.Events.{mask_map}
use rmw_cyclonedds.Dds.{Dds}
use rmw_cyclonedds.WaitSet.{
  CddsEvent, Objects, CddsWaitset, WaitArrays, items, require_reattach, require_reattach_events,
  member, has_status, sort, Masks, gather_masks, collect_array,
}

module _ (d : Dds) (m : Objects) where
  open d use {
    State, attach, detach, set_status_mask, get_status_changes, take_guardcondition, waitset_wait,
  }

  -- The loops of `waitset_detach`.
  unfoldable pub detach_all : ℕ → List ℕ → State → State
  detach_all ws [] s = s
  detach_all ws (e ∷ es) s = detach_all ws es (detach ws e s)

  -- Its last loop detaches the entity of each event once; `seen` is `event_entities`.
  unfoldable pub detach_events : ℕ → List ℕ → List CddsEvent → State → State
  detach_events ws seen [] s = s
  detach_events ws seen (c ∷ cs) s =
      if member c.enth seen
      then detach_events ws seen cs s
      else detach_events ws (c.enth ∷ seen) cs (detach ws c.enth s)

  unfoldable pub detach_cached : CddsWaitset → State → State
  detach_cached ws s = detach_events ws.waitseth [] ws.evs (
      detach_all ws.waitseth (map m.cl_rdcondh ws.cls) (
        detach_all ws.waitseth (map m.srv_rdcondh ws.srvs) (
          detach_all ws.waitseth (map m.gcondh ws.gcs)
            (detach_all ws.waitseth (map m.sub_rdcondh ws.subs) s))))

  abbrev pub no_cache : CddsWaitset → CddsWaitset
  no_cache ws = record ws { subs = []; gcs = []; srvs = []; cls = []; evs = []; nelems = 0 }

  -- `waitset_detach`.
  unfoldable pub waitset_detach : CddsWaitset × State → CddsWaitset × State
  waitset_detach (ws, s) = (no_cache ws, detach_cached ws s)

  -- `clean_waitset_caches`, over the wait sets of the process.
  unfoldable pub clean_waitset_caches : List CddsWaitset → State → List CddsWaitset × State
  clean_waitset_caches [] s = ([], s)
  clean_waitset_caches (ws ∷ wss) s = elim ws.inuse [
    | true ↦ (let (wss', s') = clean_waitset_caches wss s in (ws ∷ wss', s'))
    | false ↦
        (let (wss', s') = clean_waitset_caches wss (detach_cached ws s) in (no_cache ws ∷ wss', s'))
  ]

  -- The loops that attach: each entity with the next number.
  unfoldable pub attach_all : ℕ → List ℕ → ℕ → State → State
  attach_all ws [] n s = s
  attach_all ws (e ∷ es) n s = attach_all ws es (n + 1) (attach ws e n s)

  -- The second loop of `gather_event_entities`.
  unfoldable pub set_masks : Masks → State → RmwRet × List ℕ × State
  set_masks [] s = (ret_ok, [], s)
  set_masks ((e, mask) ∷ masks) s = elim (set_status_mask e mask s) [
    | none ↦ (ret_error, [], s)
    | some s' ↦ (let (ret, es, s'') = set_masks masks s' in (ret, e ∷ es, s''))
  ]

  -- `gather_event_entities`.
  unfoldable pub gather_event_entities : List CddsEvent → State → RmwRet × List ℕ × State
  gather_event_entities evs s = elim (gather_masks evs []) [
    | none ↦ (ret_error, [], s)
    | some masks ↦ set_masks masks s
  ]

  -- The part of `rmw_wait` that fills the cache, for an empty one, up to the events.
  unfoldable pub attach_conditions : WaitArrays ℕ → CddsWaitset × State → CddsWaitset × State
  attach_conditions a (ws, s) =
      let handles =
        map m.sub_rdcondh (items a.subscribers)
        ++ (map m.gcondh (items a.guard_conditions)
            ++ (map m.srv_rdcondh (items a.services) ++ map m.cl_rdcondh (items a.clients))) in
      (
        record ws {
          subs = items a.subscribers;
          gcs = items a.guard_conditions;
          srvs = items a.services;
          cls = items a.clients;
        },
        attach_all ws.waitseth handles 0 s,
      )

  abbrev pub conditions : CddsWaitset → ℕ
  conditions ws = length ws.subs + (length ws.gcs + (length ws.srvs + length ws.cls))

  -- The events: where `gather_event_entities` fails, `rmw_wait` returns at once.
  unfoldable pub attach_gathered :
      List CddsEvent → CddsWaitset → RmwRet × List ℕ × State → RmwRet × CddsWaitset × State
  attach_gathered cs ws (ret_ok, es, s) = (
    ret_ok,
    record ws { evs = cs; nelems = conditions ws + length es },
    attach_all ws.waitseth es (conditions ws) s,
  )
  attach_gathered cs ws (ret, es, s) = (ret, ws, s)

  unfoldable pub attach_events :
      Option (List ℕ) → CddsWaitset × State → RmwRet × CddsWaitset × State
  attach_events none (ws, s) = (ret_ok, record ws { nelems = conditions ws }, s)
  attach_events (some ps) (ws, s) =
      attach_gathered (map m.event_of ps) ws (gather_event_entities (map m.event_of ps) s)

  unfoldable pub needs_reattach : WaitArrays ℕ → CddsWaitset → Bool
  needs_reattach a ws =
      require_reattach ws.subs a.subscribers
      || (require_reattach ws.gcs a.guard_conditions
          || (require_reattach ws.srvs a.services
              || (require_reattach ws.cls a.clients || require_reattach_events m ws.evs a.events)))

  -- The `if` of `rmw_wait`.
  unfoldable pub reattach : WaitArrays ℕ → CddsWaitset → State → RmwRet × CddsWaitset × State
  reattach a ws s = elim (needs_reattach a ws) [
    | true ↦ attach_events a.events (attach_conditions a (waitset_detach (ws, s)))
    | false ↦ (ret_ok, ws, s)
  ]

  -- The loop over the guard conditions resets those that were triggered.
  unfoldable pub take_triggered : List ℕ → List ℕ → ℕ → State → State
  take_triggered [] trigs n s = s
  take_triggered (p ∷ ps) [] n s = s
  take_triggered (p ∷ ps) (t ∷ trigs) n s = elim (t == n) [
    | true ↦ take_triggered ps trigs (n + 1) (take_guardcondition (m.gcondh p) s)
    | false ↦ take_triggered ps (t ∷ trigs) (n + 1) s
  ]

  -- `handle_active_events`: an invalid handle ends it, and its result is not looked at.
  unfoldable pub is_active : CddsEvent → State → Bool
  is_active c s = elim (mask_map c.event_type) [
    | none ↦ false
    | some kind ↦ has_status kind (get_status_changes c.enth s)
  ]

  unfoldable pub handle_active_events : List ℕ → State → List (Option ℕ)
  handle_active_events [] s = []
  handle_active_events (p ∷ ps) s =
      let rest = handle_active_events ps s in
      let c = m.event_of p in
      if c.enth == 0 then map some (p ∷ ps) else (if is_active c s then some p else none) ∷ rest

  unfoldable pub handle_events_array : Option (List ℕ) → State → Option (List (Option ℕ))
  handle_events_array none s = none
  handle_events_array (some ps) s = some (handle_active_events ps s)

  pub record Outcome : Type 0 where
    pub ret : RmwRet
    pub ws : CddsWaitset
    pub arrays : WaitArrays (Option ℕ)
    pub dds : State

  abbrev pub untouched : WaitArrays ℕ → WaitArrays (Option ℕ)
  untouched a = record {
    subscribers = all a.subscribers;
    guard_conditions = all a.guard_conditions;
    services = all a.services;
    clients = all a.clients;
    events = all a.events;
  }
    where
      all : Option (List ℕ) → Option (List (Option ℕ))
      all none = none
      all (some ps) = some (map some ps)

  -- `rmw_wait` behind `dds_waitset_wait`, for what is triggered in ascending order.
  unfoldable pub report : WaitArrays ℕ → CddsWaitset → List ℕ → State → Outcome
  report a ws trigs s =
      let (subscribers, trigs₁, n₁) = collect_array a.subscribers trigs 0 in
      let (guard_conditions, trigs₂, n₂) = collect_array a.guard_conditions trigs₁ n₁ in
      let s' = take_triggered (items a.guard_conditions) trigs₁ n₁ s in
      let (services, trigs₃, n₃) = collect_array a.services trigs₂ n₂ in
      let (clients, trigs₄, n₄) = collect_array a.clients trigs₃ n₃ in
      record {
        ret = if length trigs == 0 then ret_timeout else ret_ok;
        ws = record ws { inuse = false; trigs = trigs };
        arrays = record {
          subscribers = subscribers;
          guard_conditions = guard_conditions;
          services = services;
          clients = clients;
          events = handle_events_array a.events s';
        };
        dds = s';
      }

  -- The call of `dds_waitset_wait`: resizing `trigs` to a negative number throws.
  unfoldable pub wait_and_report : WaitArrays ℕ → Option ℕ → CddsWaitset → State → Result Outcome
  wait_and_report a timeout ws s =
      let (triggered, s') = waitset_wait ws.waitseth (ws.nelems + 1) timeout s in
      elim triggered [ none ↦ throw length_error | some xs ↦ ok (report a ws (sort xs) s') ]

  -- What follows the `if`.
  unfoldable pub finish_wait :
      WaitArrays ℕ → Option ℕ → RmwRet × CddsWaitset × State → Result Outcome
  finish_wait a timeout (ret_ok, ws, s) = wait_and_report a timeout ws s
  finish_wait a timeout (ret, ws, s) =
      ok (record { ret = ret; ws = ws; arrays = untouched a; dds = s })

  -- `rmw_wait`; `timeout` is in nanoseconds, `none` for a null pointer.
  unfoldable pub rmw_wait : WaitArrays ℕ → Option ℕ → CddsWaitset → State → Result Outcome
  rmw_wait a timeout ws s = elim ws.inuse [
    | true ↦ ok (record { ret = ret_error; ws = ws; arrays = untouched a; dds = s })
    | false ↦ finish_wait a timeout (reattach a (record ws { inuse = true }) s)
  ]
