-- ===== src/WaitSet/Busy.antt =====
-- A wait set of rmw_cyclonedds_cpp/src/rmw_node.cpp that is in use, and the `inuse` flag on the error
-- path of `rmw_wait`.
use rmw_cyclonedds.Base.{
  ℕ, ◌≡◌, refl, ◌∙◌, true, false, Option, none, some, List, map, Bool-cases, inl, inr, RmwRet,
  ret_ok, ret_error, ret_timeout, ret_unsupported, ret_invalid_argument, ok,
}
use rmw_cyclonedds.Dds.{Dds}
use rmw_cyclonedds.WaitSet.{CddsEvent, Objects, CddsWaitset, WaitArrays}
use rmw_cyclonedds.WaitSet.Wait.{
  Outcome, untouched, needs_reattach, attach_conditions, attach_events, attach_gathered,
  waitset_detach, gather_event_entities, finish_wait, reattach, rmw_wait,
}
use rmw_cyclonedds.WaitSet.Report.{free_wait, choose_true}

module _ (d : Dds) (m : Objects) where
  attach_gathered-inuse :
      (cs : List CddsEvent) (ws : CddsWaitset) (ret : RmwRet) (es : List ℕ) (s : d.State)
      → (attach_gathered d m cs ws (ret, es, s)).1.inuse ≡ ws.inuse
  unfolding attach_gathered
  attach_gathered-inuse cs ws ret_ok es s = refl
  attach_gathered-inuse cs ws ret_error es s = refl
  attach_gathered-inuse cs ws ret_timeout es s = refl
  attach_gathered-inuse cs ws ret_unsupported es s = refl
  attach_gathered-inuse cs ws ret_invalid_argument es s = refl

  attach_events-inuse :
      (ps : Option (List ℕ)) (ws : CddsWaitset) (s : d.State)
      → (attach_events d m ps (ws, s)).1.inuse ≡ ws.inuse
  unfolding attach_events
  attach_events-inuse none ws s = refl
  attach_events-inuse (some ps) ws s =
      let (ret, es, s') = gather_event_entities d m (map m.event_of ps) s in
      attach_gathered-inuse (map m.event_of ps) ws ret es s'

  reattach-inuse :
      (a : WaitArrays ℕ) (ws : CddsWaitset) (s : d.State) → (reattach d m a ws s).1.inuse ≡ ws.inuse
  unfolding reattach waitset_detach attach_conditions
  reattach-inuse a ws s = elim (Bool-cases (needs_reattach d m a ws)) [
    | inl needed ↦
        rw (reattach, needed)
          (attach_events-inuse a.events (attach_conditions d m a (waitset_detach d m (ws, s))).0
            (attach_conditions d m a (waitset_detach d m (ws, s))).1)
    | inr up_to_date ↦ rw (reattach, up_to_date) refl
  ]

  -- The outcome of a call that leaves everything as it is.
  abbrev pub refused : WaitArrays ℕ → CddsWaitset → d.State → Outcome d m
  refused a ws s = record { ret = ret_error; ws = ws; arrays = untouched d m a; dds = s }

  busy :
      (a : WaitArrays ℕ) (timeout : Option ℕ) (ws : CddsWaitset) (s : d.State)
      → ws.inuse ≡ true
      → rmw_wait d m a timeout ws s ≡ ok (refused a ws s)
  unfolding rmw_wait
  busy a timeout ws s h = choose_true ws.inuse _ _ h

  finish_wait-error :
      (a : WaitArrays ℕ) (timeout : Option ℕ) (ret : RmwRet) (ws : CddsWaitset) (s : d.State)
      → ret ≡ ret_error
      → finish_wait d m a timeout (ret, ws, s) ≡ ok (refused a ws s)
  unfolding finish_wait
  finish_wait-error a timeout ret_error ws s h = refl
  finish_wait-error a timeout ret_ok ws s h = cc
  finish_wait-error a timeout ret_timeout ws s h = cc
  finish_wait-error a timeout ret_unsupported ws s h = cc
  finish_wait-error a timeout ret_invalid_argument ws s h = cc

  -- Where a free wait set cannot attach the events, `rmw_wait` returns an error and the wait set stays
  -- in use: every later call of `rmw_wait` on it, with any arrays and at any state of Cyclone DDS,
  -- returns an error and changes nothing.
  pub rmw_wait-stays_in_use :
      (a : WaitArrays ℕ) (timeout : Option ℕ) (ws : CddsWaitset) (s : d.State)
      → ws.inuse ≡ false
      → (reattach d m a (record ws { inuse = true }) s).0 ≡ ret_error
      → (o : Outcome d m) × (rmw_wait d m a timeout ws s ≡ ok o)
        × (o.ret ≡ ret_error)
        × ((a' : WaitArrays ℕ) (timeout' : Option ℕ) (s' : d.State)
            → rmw_wait d m a' timeout' o.ws s' ≡ ok (refused a' o.ws s'))
  rmw_wait-stays_in_use a timeout ws s free failed =
      let (ret, ws', s') = reattach d m a (record ws { inuse = true }) s in
      (
        refused a ws' s',
        free_wait d m a timeout ws s free ∙ finish_wait-error a timeout ret ws' s' failed,
        refl,
        λ a' timeout' s''.
            busy a' timeout' ws' s'' (reattach-inuse a (record ws { inuse = true }) s),
      )
