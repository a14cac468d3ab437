-- ===== src/WaitSet/Cache.antt =====
-- The invariant of a wait set of rmw_cyclonedds_cpp/src/rmw_node.cpp: its cache is what Cyclone DDS has
-- attached to it.
use rmw_cyclonedds.Base.{
  ℕ, ◌+◌, ◌≡◌, ◌≢◌, refl, sym, ◌∙◌, arith, false, Option, none, some, List, [], ◌++◌, map, length,
  append-nil, Bool-cases, inl, inr, RmwRet, ret_ok, ret_error, ret_timeout, ret_unsupported,
  ret_invalid_argument,
}
use rmw_cyclonedds.Dds.{Dds}
use rmw_cyclonedds.WaitSet.{CddsEvent, Objects, CddsWaitset, WaitArrays, member}
use rmw_cyclonedds.WaitSet.Wait.{
  attach_all, detach_cached, no_cache, waitset_detach, gather_event_entities, attach_conditions,
  attach_gathered, attach_events, needs_reattach, reattach,
}
use rmw_cyclonedds.WaitSet.Attached.{
  index_from, event_entities, member-append, index_from-none, index_from_append,
  attached-attach_all,
}
use rmw_cyclonedds.WaitSet.Gather.{
  handles, attached-detach_cached, length-handles, attached-gather, watched, watched-event_entities,
  member-gather,
}

-- `dummy` is the guard condition that is attached to every wait set; `es` are the entities that are
-- attached for their events: those of the cached events that have a status. Every other entity is attached exactly where the cache has it, with the
-- number of its place.
pub record IsCached (d : Dds) (m : Objects) (dummy : ℕ) (ws : CddsWaitset) (es : List ℕ)
    (s : d.State) : Type 0 where
  pub complete : (e : ℕ) → member e es ≡ member e (watched ws.evs)
  pub agrees :
      (e : ℕ) → e ≢ dummy → d.attached s ws.waitseth e ≡ index_from 0 (handles m ws ++ es) e

-- A wait set with some entities attached for their events.
abbrev pub Cached : (d : Dds) → Objects → ℕ → CddsWaitset → d.State → Type 0
Cached d m dummy ws s = (es : List ℕ) × IsCached d m dummy ws es s

zero_plus : (n : ℕ) → 0 + n ≡ n
zero_plus n = omega arith

module _ (d : Dds) (m : Objects) (dummy : ℕ) where
  nothing_of :
      (ws : CddsWaitset) (es : List ℕ) (s : d.State)
      → IsCached d m dummy ws es s
      → (e : ℕ) → member e (handles m ws ++ event_entities ws.evs) ≡ false
      → member e (handles m ws ++ es) ≡ false
  nothing_of ws es s cached e miss =
      let within = watched-event_entities e ws.evs in
      let miss' = rw (member-append e (handles m ws) (event_entities ws.evs)) at miss in
      rw (member-append e (handles m ws) es) (elim (Bool-cases (member e es)) [
        | inl hit ↦ ground (arith, within (sym (cached.complete e) ∙ hit))
        | inr free ↦ ground arith
      ])

  -- `waitset_detach` leaves nothing but the dummy.
  pub detached :
      (ws : CddsWaitset) (es : List ℕ) (s : d.State)
      → IsCached d m dummy ws es s
      → (e : ℕ) → e ≢ dummy
      → d.attached (detach_cached d m ws s) ws.waitseth e ≡ none
  detached ws es s cached e other =
      attached-detach_cached d m ws e s
      ∙ elim (Bool-cases (member e (handles m ws ++ event_entities ws.evs))) [
        | inl hit ↦ rw hit refl
        | inr miss ↦ rw miss (
            cached.agrees e other
            ∙ index_from-none 0 e (handles m ws ++ es) (nothing_of ws es s cached e miss))
      ]

  pub detached-IsCached :
      (ws : CddsWaitset) (s : d.State)
      → Cached d m dummy ws s
      → IsCached d m dummy (no_cache d m ws) [] (detach_cached d m ws s)
  unfolding member index_from watched
  detached-IsCached ws s (es, cached) = record {
    complete = λ e. refl;
    agrees = λ e other. detached ws es s cached e other;
  }

  -- Attaching to an invariant that has no events yet.
  attach_all-IsCached :
      (ws : CddsWaitset) (hs es : List ℕ) (s : d.State) (e : ℕ)
      → d.attached s ws.waitseth e ≡ index_from 0 hs e
      → d.attached (attach_all d m ws.waitseth es (length hs) s) ws.waitseth e
        ≡ index_from 0 (hs ++ es) e
  attach_all-IsCached ws hs es s e agrees =
      attached-attach_all d m ws.waitseth es (length hs) e s
      ∙ rw (agrees, index_from_append 0 e hs es, zero_plus (length hs)) refl

  -- The invariant between the conditions and the events: a cache without events.
  attach_conditions-IsCached :
      (a : WaitArrays ℕ) (ws : CddsWaitset) (s : d.State)
      → IsCached d m dummy (no_cache d m ws) [] s
      → IsCached d m dummy
          (attach_conditions d m a (no_cache d m ws, s)).0
          []
          (attach_conditions d m a (no_cache d m ws, s)).1
  unfolding attach_conditions index_from
  attach_conditions-IsCached a ws s empty =
      let hs = handles m (attach_conditions d m a (no_cache d m ws, s)).0 in
      record {
        complete = empty.complete;
        agrees = λ e other.
            attached-attach_all d m ws.waitseth hs 0 e s
            ∙ rw (empty.agrees e other, append-nil hs) refl;
      }

  -- The events, with their entities where all of them could be gathered.
  attach_gathered-IsCached :
      (cs : List CddsEvent) (ws : CddsWaitset) (ret : RmwRet) (es : List ℕ) (s : d.State)
      → ((e : ℕ) → ret ≡ ret_ok → member e es ≡ member e (watched cs))
      → IsCached d m dummy ws [] s
      → Cached d m dummy
          (attach_gathered d m cs ws (ret, es, s)).1
          (attach_gathered d m cs ws (ret, es, s)).2
  unfolding attach_gathered
  attach_gathered-IsCached cs ws ret_ok es s complete before = (
    es,
    record {
      complete = λ e. complete e refl;
      agrees = λ e other. rw (sym (length-handles d m ws)) (
          attach_all-IsCached ws (handles m ws) es s e
            (rw (append-nil (handles m ws)) at (before.agrees e other)));
    },
  )
  attach_gathered-IsCached cs ws ret_error es s complete before = ([], before)
  attach_gathered-IsCached cs ws ret_timeout es s complete before = ([], before)
  attach_gathered-IsCached cs ws ret_unsupported es s complete before = ([], before)
  attach_gathered-IsCached cs ws ret_invalid_argument es s complete before = ([], before)

  attach_events-Cached :
      (ps : Option (List ℕ)) (ws : CddsWaitset) (s : d.State)
      → IsCached d m dummy ws [] s
      → Cached d m dummy (attach_events d m ps (ws, s)).1 (attach_events d m ps (ws, s)).2
  unfolding attach_events
  attach_events-Cached none ws s before =
      ([], record { complete = before.complete; agrees = before.agrees })
  attach_events-Cached (some ps) ws s before =
      let cs : List CddsEvent = map m.event_of ps in
      let (ret, es, s') = gather_event_entities d m cs s in
      attach_gathered-IsCached cs ws ret es s' (member-gather d m cs s) (record {
        complete = before.complete;
        agrees = λ e other. attached-gather d m cs s ws.waitseth e ∙ before.agrees e other;
      })

  pub reattach-Cached :
      (a : WaitArrays ℕ) (ws : CddsWaitset) (s : d.State)
      → Cached d m dummy ws s
      → Cached d m dummy (reattach d m a ws s).1 (reattach d m a ws s).2
  unfolding reattach waitset_detach
  reattach-Cached a ws s cached = elim (Bool-cases (needs_reattach d m a ws)) [
    | inl needed ↦
        rw (reattach, needed)
          (attach_events-Cached a.events
            (attach_conditions d m a (no_cache d m ws, detach_cached d m ws s)).0
            (attach_conditions d m a (no_cache d m ws, detach_cached d m ws s)).1
            (attach_conditions-IsCached a ws (detach_cached d m ws s)
              (detached-IsCached ws s cached)))
    | inr up_to_date ↦ rw (reattach, up_to_date) cached
  ]
