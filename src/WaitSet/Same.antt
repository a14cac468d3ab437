-- ===== src/WaitSet/Same.antt =====
-- The test `require_reattach` of rmw_cyclonedds_cpp/src/rmw_node.cpp: where it is false, the cache of a
-- wait set is the arrays that `rmw_wait` is given.
use rmw_cyclonedds.Base.{
  ℕ, ◌≡◌, refl, sym, ◌∙◌, arith, Bool, true, false, ◌&&◌, ◌||◌, not, Option, none, some, List, [],
  ◌∷◌, map, length, ◌==◌, length-map, RmwRet, ret_ok, ret_error, ret_timeout, ret_unsupported,
  ret_invalid_argument, Bool-cases, inl, inr, ==→eq,
}
use mathlib.Core.Logic.{ite}
use rmw_cyclonedds.Dds.{Dds}
use rmw_cyclonedds.WaitSet.{
  CddsEvent, Objects, CddsWaitset, WaitArrays, items, same_pointers, require_reattach, same_event,
  same_events, require_reattach_events,
}
use rmw_cyclonedds.WaitSet.Wait.{
  gather_event_entities, waitset_detach, attach_conditions, attach_events, attach_gathered,
  reattach, needs_reattach,
}

empty : {A : Type 0} → (xs : List A) → not (length xs == 0) ≡ false → xs ≡ []
empty [] h = refl
empty (x ∷ xs) h = ground arith

pub same_pointers_sound :
    (xs ys : List ℕ) → length xs ≡ length ys → same_pointers xs ys ≡ true → xs ≡ ys
unfolding same_pointers
same_pointers_sound [] [] len h = refl
same_pointers_sound [] (y ∷ ys) len h = ground arith
same_pointers_sound (x ∷ xs) [] len h = ground arith
same_pointers_sound (x ∷ xs) (y ∷ ys) len h =
    (let both : ((x == y) ≡ true) × (same_pointers xs ys ≡ true) = ground arith in
      rw (==→eq x y both.0, same_pointers_sound xs ys (omega (arith, len)) both.1) refl)

pub require_reattach_sound :
    (cached : List ℕ) (ps : Option (List ℕ))
    → require_reattach cached ps ≡ false
    → cached ≡ items ps
unfolding require_reattach items
require_reattach_sound cached none h = empty cached h
require_reattach_sound cached (some []) h = empty cached h
require_reattach_sound cached (some (p ∷ ps)) h =
    elim (Bool-cases (length (p ∷ ps) == length cached)) [
      | inl same ↦
          same_pointers_sound cached (p ∷ ps) (sym (==→eq (length (p ∷ ps)) (length cached) same))
            (ground arith)
      | inr other ↦ ground arith
    ]

both_true : (a b : Bool) → (a && b) ≡ true → (a ≡ true) × (b ≡ true)
both_true true b h = (refl, h)
both_true false b h = cc

decided : {A : Type 0} → (x : Dec A) → ite x true false ≡ true → A
decided (yes a) h = a
decided (no n) h = ground arith

CddsEvent-ext : (c e : CddsEvent) → c.enth ≡ e.enth → c.event_type ≡ e.event_type → c ≡ e
CddsEvent-ext c e p q = λ i. record { enth = p i; event_type = q i }

same_event_sound : (c e : CddsEvent) → same_event c e ≡ true → c ≡ e
unfolding same_event
same_event_sound c e h =
    let (handles, types) = both_true _ _ h in
    CddsEvent-ext c e (==→eq c.enth e.enth handles) (decided _ types)

same_events_sound :
    (xs ys : List CddsEvent) → length xs ≡ length ys → same_events xs ys ≡ true → xs ≡ ys
unfolding same_events
same_events_sound [] [] len h = refl
same_events_sound [] (y ∷ ys) len h = ground arith
same_events_sound (x ∷ xs) [] len h = ground arith
same_events_sound (x ∷ xs) (y ∷ ys) len h =
    let (first, others) = both_true _ _ h in
    rw (same_event_sound x y first, same_events_sound xs ys (omega (arith, len)) others) refl

pub require_reattach_events_sound :
    (m : Objects) (cached : List CddsEvent) (ps : Option (List ℕ))
    → require_reattach_events m cached ps ≡ false
    → cached ≡ map m.event_of (items ps)
unfolding require_reattach_events items
require_reattach_events_sound m cached none h = empty cached h
require_reattach_events_sound m cached (some []) h = empty cached h
require_reattach_events_sound m cached (some (p ∷ ps)) h =
    elim (Bool-cases (length (p ∷ ps) == length cached)) [
      | inl same ↦
          same_events_sound cached (map m.event_of (p ∷ ps))
            (sym (==→eq (length (p ∷ ps)) (length cached) same)
              ∙ sym (length-map (p ∷ ps) m.event_of))
            (ground arith)
      | inr other ↦ ground arith
    ]

-- A wait set whose cache is the arrays.
pub record Holds (m : Objects) (a : WaitArrays ℕ) (ws : CddsWaitset) : Type 0 where
  pub subs : ws.subs ≡ items a.subscribers
  pub gcs : ws.gcs ≡ items a.guard_conditions
  pub srvs : ws.srvs ≡ items a.services
  pub cls : ws.cls ≡ items a.clients
  pub evs : ws.evs ≡ map m.event_of (items a.events)

none_of : (a b : Bool) → (a || b) ≡ false → (a ≡ false) × (b ≡ false)
none_of true b h = cc
none_of false b h = (refl, h)

pub needs_reattach-Holds :
    (d : Dds) (m : Objects) (a : WaitArrays ℕ) (ws : CddsWaitset)
    → needs_reattach d m a ws ≡ false
    → Holds m a ws
unfolding needs_reattach
needs_reattach-Holds d m a ws h =
    let (subs, h₁) = none_of _ _ h in
    let (gcs, h₂) = none_of _ _ h₁ in
    let (srvs, h₃) = none_of _ _ h₂ in
    let (cls, evs) = none_of _ _ h₃ in
    record {
      subs = require_reattach_sound ws.subs a.subscribers subs;
      gcs = require_reattach_sound ws.gcs a.guard_conditions gcs;
      srvs = require_reattach_sound ws.srvs a.services srvs;
      cls = require_reattach_sound ws.cls a.clients cls;
      evs = require_reattach_events_sound m ws.evs a.events evs;
    }

-- The events fill the cache of the events, and nothing else.
abbrev Fills : (ws ws' : CddsWaitset) → List CddsEvent → Type 0
Fills ws ws' cs =
    (ws'.subs ≡ ws.subs)
    × (ws'.gcs ≡ ws.gcs)
    × (ws'.srvs ≡ ws.srvs)
    × (ws'.cls ≡ ws.cls)
    × (ws'.evs ≡ cs)

module _ (d : Dds) (m : Objects) where
  attach_gathered-Fills :
      (cs : List CddsEvent) (ws : CddsWaitset) (ret : RmwRet) (es : List ℕ) (s : d.State)
      → (attach_gathered d m cs ws (ret, es, s)).0 ≡ ret_ok
      → Fills ws (attach_gathered d m cs ws (ret, es, s)).1 cs
  unfolding attach_gathered
  attach_gathered-Fills cs ws ret_ok es s h = (refl, refl, refl, refl, refl)
  attach_gathered-Fills cs ws ret_error es s h = cc
  attach_gathered-Fills cs ws ret_timeout es s h = cc
  attach_gathered-Fills cs ws ret_unsupported es s h = cc
  attach_gathered-Fills cs ws ret_invalid_argument es s h = cc

  attach_events-Fills :
      (ps : Option (List ℕ)) (ws : CddsWaitset) (s : d.State)
      → ws.evs ≡ []
      → (attach_events d m ps (ws, s)).0 ≡ ret_ok
      → Fills ws (attach_events d m ps (ws, s)).1 (map m.event_of (items ps))
  unfolding attach_events items
  attach_events-Fills none ws s free h = (refl, refl, refl, refl, free)
  attach_events-Fills (some ps) ws s free h =
      let (ret, es, s') = gather_event_entities d m (map m.event_of ps) s in
      attach_gathered-Fills (map m.event_of ps) ws ret es s' h

  -- Where the `if` of `rmw_wait` succeeds, the cache is the arrays.
  pub reattach-Holds :
      (a : WaitArrays ℕ) (ws : CddsWaitset) (s : d.State)
      → (reattach d m a ws s).0 ≡ ret_ok
      → Holds m a (reattach d m a ws s).1
  unfolding reattach waitset_detach attach_conditions
  reattach-Holds a ws s h = elim (Bool-cases (needs_reattach d m a ws)) [
    | inl needed ↦
        (let h' = rw (reattach, needed) at h in
          let w : CddsWaitset × d.State = attach_conditions d m a (waitset_detach d m (ws, s)) in
          let filled = attach_events-Fills a.events w.0 w.1 refl h' in
          rw (reattach, needed)
            (record {
              subs = filled.0;
              gcs = filled.1;
              srvs = filled.2;
              cls = filled.3;
              evs = filled.4;
            }))
    | inr up_to_date ↦ rw (reattach, up_to_date) (needs_reattach-Holds d m a ws up_to_date)
  ]
