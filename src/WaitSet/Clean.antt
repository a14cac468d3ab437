-- ===== src/WaitSet/Clean.antt =====
-- `clean_waitset_caches` of rmw_cyclonedds_cpp/src/rmw_node.cpp, over all wait sets.
use rmw_cyclonedds.Base.{
  ℕ, ◌≡◌, ◌≢◌, refl, sym, ◌∙◌, arith, true, none, List, [], ◌∷◌, map, Bool-cases, inl, inr, ◌⊎◌,
}
use rmw_cyclonedds.Dds.{Dds, NotIn, Distinct}
use rmw_cyclonedds.WaitSet.{CddsEvent, Objects, CddsWaitset, member}
use rmw_cyclonedds.WaitSet.Wait.{
  detach_all, detach_events, detach_cached, no_cache, clean_waitset_caches,
}
use rmw_cyclonedds.WaitSet.Attached.{index_from}
use rmw_cyclonedds.WaitSet.Cache.{Cached, detached-IsCached}

abbrev pub waitset_handles : List CddsWaitset → List ℕ
waitset_handles [] = []
waitset_handles (ws ∷ wss) = ws.waitseth ∷ waitset_handles wss

module _ (d : Dds) (m : Objects) where
  -- Detaching from one wait set leaves the others.
  other_all :
      (es : List ℕ) (ws ws' e : ℕ) (s : d.State)
      → ws' ≢ ws
      → d.attached (detach_all d m ws es s) ws' e ≡ d.attached s ws' e
  unfolding detach_all
  other_all [] ws ws' e s other = refl
  other_all (x ∷ es) ws ws' e s other =
      other_all es ws ws' e (d.detach ws x s) other
      ∙ rw (d.attached-detach s ws x ws' e) (ground arith)

  other_events :
      (cs : List CddsEvent) (seen : List ℕ) (ws ws' e : ℕ) (s : d.State)
      → ws' ≢ ws
      → d.attached (detach_events d m ws seen cs s) ws' e ≡ d.attached s ws' e
  unfolding detach_events
  other_events [] seen ws ws' e s other = refl
  other_events (c ∷ cs) seen ws ws' e s other = elim (Bool-cases (member c.enth seen)) [
    | inl again ↦ rw again (other_events cs seen ws ws' e s other)
    | inr first ↦ rw first (
        other_events cs (c.enth ∷ seen) ws ws' e (d.detach ws c.enth s) other
        ∙ rw (d.attached-detach s ws c.enth ws' e) (ground arith))
  ]

  other_cached :
      (ws : CddsWaitset) (ws' e : ℕ) (s : d.State)
      → ws' ≢ ws.waitseth
      → d.attached (detach_cached d m ws s) ws' e ≡ d.attached s ws' e
  unfolding detach_cached
  other_cached ws ws' e s other =
      other_events ws.evs [] ws.waitseth ws' e _ other
      ∙ other_all (map m.cl_rdcondh ws.cls) ws.waitseth ws' e _ other
      ∙ other_all (map m.srv_rdcondh ws.srvs) ws.waitseth ws' e _ other
      ∙ other_all (map m.gcondh ws.gcs) ws.waitseth ws' e _ other
      ∙ other_all (map m.sub_rdcondh ws.subs) ws.waitseth ws' e s other

  other_clean :
      (wss : List CddsWaitset) (ws' e : ℕ) (s : d.State)
      → NotIn ws' (waitset_handles wss)
      → d.attached (clean_waitset_caches d m wss s).1 ws' e ≡ d.attached s ws' e
  unfolding clean_waitset_caches
  other_clean [] ws' e s other = refl
  other_clean (ws ∷ wss) ws' e s other = elim (Bool-cases ws.inuse) [
    | inl busy ↦ rw (clean_waitset_caches, busy) (other_clean wss ws' e s other.1)
    | inr free ↦
        rw (clean_waitset_caches, free)
          (other_clean wss ws' e (detach_cached d m ws s) other.1 ∙ other_cached ws ws' e s other.0)
  ]

  moved :
      (dummy : ℕ) (ws : CddsWaitset) (s s' : d.State)
      → Cached d m dummy ws s
      → ((e : ℕ) → d.attached s' ws.waitseth e ≡ d.attached s ws.waitseth e)
      → Cached d m dummy ws s'
  moved dummy ws s s' (es, cached) same = (
    es,
    record { complete = cached.complete; agrees = λ e other. same e ∙ cached.agrees e other },
  )

  abbrev pub AllCached : ℕ → List CddsWaitset → d.State → Type 0
  AllCached dummy [] s = Unit {0}
  AllCached dummy (ws ∷ wss) s = Cached d m dummy ws s × AllCached dummy wss s

  -- A wait set that is in use is as it was, and any other has nothing but the dummy.
  abbrev pub AllClean : ℕ → List CddsWaitset → d.State → Type 0
  AllClean dummy [] s = Unit {0}
  AllClean dummy (ws ∷ wss) s =
      (Cached d m dummy ws s
        × ((ws.inuse ≡ true)
            ⊎ ((ws.subs ≡ [])
                × (ws.evs ≡ [])
                × ((e : ℕ) → e ≢ dummy → d.attached s ws.waitseth e ≡ none))))
      × AllClean dummy wss s

  all_moved :
      (dummy x : ℕ) (wss : List CddsWaitset) (s s' : d.State)
      → NotIn x (waitset_handles wss)
      → ((ws e : ℕ) → ws ≢ x → d.attached s' ws e ≡ d.attached s ws e)
      → AllCached dummy wss s
      → AllCached dummy wss s'
  all_moved dummy x [] s s' other same all = all
  all_moved dummy x (ws ∷ wss) s s' other same all = (
    moved dummy ws s s' all.0 (λ e. same ws.waitseth e (λ p. other.0 (sym p))),
    all_moved dummy x wss s s' other.1 same all.1,
  )

  -- For wait sets with different handles, each with a true cache: after `clean_waitset_caches` each
  -- cache is true, and a wait set that is not in use has nothing attached but the dummy.
  pub clean_waitset_caches-AllClean :
      (dummy : ℕ) (wss : List CddsWaitset) (s : d.State)
      → Distinct (waitset_handles wss)
      → AllCached dummy wss s
      → AllClean dummy (clean_waitset_caches d m wss s).0 (clean_waitset_caches d m wss s).1
  unfolding clean_waitset_caches index_from
  clean_waitset_caches-AllClean dummy [] s distinct all = all
  clean_waitset_caches-AllClean dummy (ws ∷ wss) s distinct all = elim (Bool-cases ws.inuse) [
    | inl busy ↦
        rw (clean_waitset_caches, busy)
          (
            (
              moved dummy ws s (clean_waitset_caches d m wss s).1 all.0
                  (λ e. other_clean wss ws.waitseth e s distinct.0),
              inl busy,
            ),
            clean_waitset_caches-AllClean dummy wss s distinct.1 all.1,
          )
    | inr free ↦
        (let s₁ = detach_cached d m ws s in
          let s₂ = (clean_waitset_caches d m wss s₁).1 in
          let emptied = detached-IsCached d m dummy ws s all.0 in
          rw (clean_waitset_caches, free)
            (
              (
                moved dummy (no_cache d m ws) s₁ s₂ ([], emptied)
                    (λ e. other_clean wss ws.waitseth e s₁ distinct.0),
                inr (
                  refl,
                  refl,
                  λ e other. other_clean wss ws.waitseth e s₁ distinct.0 ∙ emptied.agrees e other,
                ),
              ),
              clean_waitset_caches-AllClean dummy wss s₁ distinct.1 (
                  all_moved dummy ws.waitseth wss s s₁ distinct.0
                    (λ ws' e other. other_cached ws ws' e s other) all.1),
            ))
  ]
