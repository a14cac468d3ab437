-- ===== src/WaitSet/Invariant.antt =====
-- `rmw_wait` and `clean_waitset_caches` of rmw_cyclonedds_cpp/src/rmw_node.cpp keep the cache of a wait
-- set true.
use rmw_cyclonedds.Base.{
  ℕ, ◌+◌, ◌≡◌, ◌≢◌, refl, ◌∙◌, true, false, Option, List, [], ◌∷◌, ◌++◌, map, ◌==◌, Bool-cases, inl,
  inr, ◌⊎◌, Option-cases, RmwRet, ret_ok, ret_error, ret_timeout, ret_unsupported,
  ret_invalid_argument, Result, ok, throw, length_error,
}
use rmw_cyclonedds.Dds.{Dds}
use rmw_cyclonedds.WaitSet.{Objects, CddsWaitset, WaitArrays, items, sort, collect_array, member}
use rmw_cyclonedds.WaitSet.Wait.{
  Outcome, take_triggered, report, wait_and_report, finish_wait, reattach, rmw_wait,
}
use rmw_cyclonedds.WaitSet.Cache.{Cached, reattach-Cached}
use rmw_cyclonedds.WaitSet.Attached.{index_from}
use rmw_cyclonedds.WaitSet.Gather.{handles, watched}
use rmw_cyclonedds.WaitSet.Same.{Holds, reattach-Holds}
use rmw_cyclonedds.WaitSet.Report.{free_wait, choose_true}

module _ (d : Dds) (m : Objects) where
  -- An invariant says nothing of the rest of the library's state.
  same-IsCached :
      (dummy : ℕ) (ws : CddsWaitset) (s s' : d.State)
      → Cached d m dummy ws s
      → ((e : ℕ) → d.attached s' ws.waitseth e ≡ d.attached s ws.waitseth e)
      → Cached d m dummy ws s'
  same-IsCached dummy ws s s' (es, cached) same = (
    es,
    record { complete = cached.complete; agrees = λ e other. same e ∙ cached.agrees e other },
  )

  attached-take_triggered :
      (ps trigs : List ℕ) (n : ℕ) (s : d.State) (ws e : ℕ)
      → d.attached (take_triggered d m ps trigs n s) ws e ≡ d.attached s ws e
  unfolding take_triggered
  attached-take_triggered [] trigs n s ws e = refl
  attached-take_triggered (p ∷ ps) [] n s ws e = refl
  attached-take_triggered (p ∷ ps) (t ∷ trigs) n s ws e = elim (Bool-cases (t == n)) [
    | inl hit ↦
        rw (take_triggered, hit)
          (attached-take_triggered ps trigs (n + 1) (d.take_guardcondition (m.gcondh p) s) ws e
            ∙ d.attached-take_guardcondition s (m.gcondh p) ws e)
    | inr miss ↦ rw (take_triggered, miss) (attached-take_triggered ps (t ∷ trigs) (n + 1) s ws e)
  ]

  report-Cached :
      (dummy : ℕ) (a : WaitArrays ℕ) (ws : CddsWaitset) (xs : List ℕ) (s : d.State)
      → Cached d m dummy ws s
      → Cached d m dummy (report d m a ws xs s).ws (report d m a ws xs s).dds
  unfolding report
  report-Cached dummy a ws xs s (es, cached) =
      same-IsCached dummy (record ws { trigs = xs; inuse = false }) s
        (take_triggered d m (items a.guard_conditions) (collect_array a.subscribers xs 0).1
          (collect_array a.subscribers xs 0).2 s)
        (es, record { complete = cached.complete; agrees = cached.agrees })
        (attached-take_triggered (items a.guard_conditions) (collect_array a.subscribers xs 0).1
          (collect_array a.subscribers xs 0).2 s ws.waitseth)

  -- What a call leaves: the invariant, unless it throws.
  abbrev Leaves : ℕ → Result (Outcome d m) → Type 0
  Leaves dummy r =
      ((o : Outcome d m) × (r ≡ ok o) × Cached d m dummy o.ws o.dds) ⊎ (r ≡ throw length_error)

  wait_and_report-Cached :
      (dummy : ℕ) (a : WaitArrays ℕ) (timeout : Option ℕ) (ws : CddsWaitset) (s : d.State)
      → Cached d m dummy ws s
      → Leaves dummy (wait_and_report d m a timeout ws s)
  unfolding wait_and_report
  wait_and_report-Cached dummy a timeout ws s cached =
      let s' = (d.waitset_wait ws.waitseth (ws.nelems + 1) timeout s).1 in
      elim (Option-cases (d.waitset_wait ws.waitseth (ws.nelems + 1) timeout s).0) [
        | inl failed ↦ inr (rw (wait_and_report, failed) refl)
        | inr (xs, triggered) ↦ inl (
          report d m a ws (sort xs) s',
          rw (wait_and_report, triggered) refl,
          report-Cached dummy a ws (sort xs) s' (
              same-IsCached dummy ws s s' cached
                (d.attached-waitset_wait s ws.waitseth (ws.nelems + 1) timeout ws.waitseth)),
        )
      ]

  finish_wait-Cached :
      (dummy : ℕ) (a : WaitArrays ℕ) (timeout : Option ℕ) (ret : RmwRet) (ws : CddsWaitset)
      (s : d.State)
      → Cached d m dummy ws s
      → Leaves dummy (finish_wait d m a timeout (ret, ws, s))
  unfolding finish_wait
  finish_wait-Cached dummy a timeout ret_ok ws s cached =
      wait_and_report-Cached dummy a timeout ws s cached
  finish_wait-Cached dummy a timeout ret_error ws s cached = inl (_, refl, cached)
  finish_wait-Cached dummy a timeout ret_timeout ws s cached = inl (_, refl, cached)
  finish_wait-Cached dummy a timeout ret_unsupported ws s cached = inl (_, refl, cached)
  finish_wait-Cached dummy a timeout ret_invalid_argument ws s cached = inl (_, refl, cached)

  -- Where the entities that Cyclone DDS has attached to a wait set are those of its cache, each with
  -- the number of its place, that holds after `rmw_wait` too, whether the wait set was in use or not,
  -- whether the cache served or was filled anew, and whether the events could be attached or not;
  -- the one other end is the exception for a negative result of `dds_waitset_wait`.
  pub rmw_wait-Cached :
      (dummy : ℕ) (a : WaitArrays ℕ) (timeout : Option ℕ) (ws : CddsWaitset) (s : d.State)
      → Cached d m dummy ws s
      → ((o : Outcome d m) × (rmw_wait d m a timeout ws s ≡ ok o) × Cached d m dummy o.ws o.dds)
        ⊎ (rmw_wait d m a timeout ws s ≡ throw length_error)
  unfolding rmw_wait
  rmw_wait-Cached dummy a timeout ws s (es, cached) = elim (Bool-cases ws.inuse) [
    | inl busy ↦ inl (_, choose_true ws.inuse _ _ busy, (es, cached))
    | inr free ↦
        (let ws' = record ws { inuse = true } in
          let before : Cached d m dummy ws' s =
            (es, record { complete = cached.complete; agrees = cached.agrees }) in
          rw (free_wait d m a timeout ws s free) (
            finish_wait-Cached dummy a timeout (reattach d m a ws' s).0 (reattach d m a ws' s).1
              (reattach d m a ws' s).2 (reattach-Cached d m dummy a ws' s before)))
  ]

-- The entities of the conditions in the arrays, in the order of their numbers.
abbrev pub array_handles : Objects → WaitArrays ℕ → List ℕ
array_handles m a =
    map m.sub_rdcondh (items a.subscribers)
    ++ (map m.gcondh (items a.guard_conditions)
        ++ (map m.srv_rdcondh (items a.services) ++ map m.cl_rdcondh (items a.clients)))

Holds-handles :
    (m : Objects) (a : WaitArrays ℕ) (ws : CddsWaitset)
    → Holds m a ws
    → handles m ws ≡ array_handles m a
Holds-handles m a ws h = rw (h.subs, h.gcs, h.srvs, h.cls) refl

-- Where the cache of a wait set is what Cyclone DDS has attached to it and the arrays can be attached,
-- Cyclone DDS has attached, besides the dummy, exactly the conditions of the arrays, each with its
-- number counted through the four arrays, and behind them the entities of those events that have
-- a status; that holds where the arrays are compared equal to the cache as well.
pub reattach-agrees :
    (d : Dds) (m : Objects) (dummy : ℕ) (a : WaitArrays ℕ) (ws : CddsWaitset) (s : d.State)
    → Cached d m dummy ws s
    → (reattach d m a ws s).0 ≡ ret_ok
    → (es : List ℕ) × ((e : ℕ) → member e es ≡ member e (watched (map m.event_of (items a.events))))
      × ((e : ℕ)
          → e ≢ dummy
          → d.attached (reattach d m a ws s).2 (reattach d m a ws s).1.waitseth e
            ≡ index_from 0 (array_handles m a ++ es) e)
reattach-agrees d m dummy a ws s cached success =
    let (es, cached') = reattach-Cached d m dummy a ws s cached in
    let holds = reattach-Holds d m a ws s success in
    (
      es,
      λ e. cached'.complete e ∙ rw holds.evs refl,
      λ e other. cached'.agrees e other ∙ rw (Holds-handles m a (reattach d m a ws s).1 holds) refl,
    )
