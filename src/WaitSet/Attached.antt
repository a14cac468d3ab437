-- ===== src/WaitSet/Attached.antt =====
-- What is attached to the wait set that Cyclone DDS keeps, against the cache of rmw_wait in
-- rmw_cyclonedds_cpp/src/rmw_node.cpp.
use rmw_cyclonedds.Base.{
  ℕ, suc, ◌+◌, ◌≡◌, refl, ap, ◌∙◌, arith, false, ◌&&◌, ◌||◌, not, Option, none, some, List, [], ◌∷◌,
  ◌++◌, length, ◌==◌, if◌then◌else◌, Bool-cases, inl, inr,
}
use rmw_cyclonedds.Dds.{Dds}
use rmw_cyclonedds.WaitSet.{CddsEvent, Objects, member}
use rmw_cyclonedds.WaitSet.Wait.{detach_all, detach_events, attach_all}

-- The number of the first place at which an entity stands, from `n` on.
unfoldable pub index_from : ℕ → List ℕ → ℕ → Option ℕ
index_from n [] e = none
index_from n (x ∷ xs) e = if x == e then some n else index_from (n + 1) xs e

abbrev pub or_else : Option ℕ → Option ℕ → Option ℕ
or_else (some y) o = some y
or_else none o = o

-- The entities of the cached events.
abbrev pub event_entities : List CddsEvent → List ℕ
event_entities [] = []
event_entities (c ∷ cs) = c.enth ∷ event_entities cs

shift : (n k : ℕ) → n + 1 + k ≡ n + suc k
shift n k = omega arith

pub member-append : (e : ℕ) (xs ys : List ℕ) → member e (xs ++ ys) ≡ (member e xs || member e ys)
unfolding member
member-append e [] ys = refl
member-append e (x ∷ xs) ys = ground (arith, member-append e xs ys)

pub index_from-none : (n e : ℕ) (xs : List ℕ) → member e xs ≡ false → index_from n xs e ≡ none
unfolding member index_from
index_from-none n e [] h = refl
index_from-none n e (x ∷ xs) h = ground (arith, index_from-none (n + 1) e xs)

pub index_from_append :
    (n e : ℕ) (xs ys : List ℕ)
    → index_from n (xs ++ ys) e ≡ or_else (index_from n xs e) (index_from (n + length xs) ys e)
unfolding index_from
index_from_append n e [] ys = ap (λ k. index_from k ys e) (omega arith)
index_from_append n e (x ∷ xs) ys =
    rw (index_from_append (n + 1) e xs ys, shift n (length xs)) (ground arith)

module _ (d : Dds) (m : Objects) (ws : ℕ) where
  pub attached-attach_all :
      (es : List ℕ) (n e : ℕ) (s : d.State)
      → d.attached (attach_all d m ws es n s) ws e ≡ or_else (d.attached s ws e) (index_from n es e)
  unfolding attach_all index_from
  attached-attach_all [] n e s = ground arith
  attached-attach_all (x ∷ es) n e s =
      attached-attach_all es (n + 1) e (d.attach ws x n s)
      ∙ rw (d.attached-attach s ws x n ws e) (ground arith)

  pub attached-detach_all :
      (es : List ℕ) (e : ℕ) (s : d.State)
      → d.attached (detach_all d m ws es s) ws e ≡ (if member e es then none else d.attached s ws e)
  unfolding detach_all member
  attached-detach_all [] e s = refl
  attached-detach_all (x ∷ es) e s =
      attached-detach_all es e (d.detach ws x s) ∙ rw (d.attached-detach s ws x ws e) (ground arith)

  pub attached-detach_events :
      (cs : List CddsEvent) (seen : List ℕ) (e : ℕ) (s : d.State)
      → d.attached (detach_events d m ws seen cs s) ws e
        ≡ (if member e (event_entities cs) && not (member e seen) then none else d.attached s ws e)
  unfolding detach_events member
  attached-detach_events [] seen e s = refl
  attached-detach_events (c ∷ cs) seen e s = elim (Bool-cases (member c.enth seen)) [
    | inl again ↦ rw again (ground (arith, attached-detach_events cs seen e s))
    | inr first ↦ rw first (
        attached-detach_events cs (c.enth ∷ seen) e (d.detach ws c.enth s)
        ∙ rw (d.attached-detach s ws c.enth ws e) (ground arith))
  ]
