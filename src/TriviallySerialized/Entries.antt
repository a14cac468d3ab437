-- ===== src/TriviallySerialized/Entries.antt =====
-- The map `cache_` of trivsercache.hpp under insertion and assignment. `same` is the comparison of
-- two type pointers: pointers that are equal point to one type.
use rmw_cyclonedds.Base.{
  ◌≡◌, refl, Bool, true, false, some, [], ◌∷◌, arith, Bool-cases, inl, inr, ==→eq,
}
use rmw_cyclonedds.TypeSupport.{AnyValueType}
use rmw_cyclonedds.TriviallySerialized.{CacheKey, Cache, key_eq, find, assign}
use rmw_cyclonedds.TriviallySerialized.Dense.{and_parts}

module _ (same : AnyValueType → AnyValueType → Bool)
    (sound : (a b : AnyValueType) → same a b ≡ true → a ≡ b)
    (reflexive : (a : AnyValueType) → same a a ≡ true) where
  pub key_eq_refl : (k : CacheKey) → key_eq same k k ≡ true
  unfolding key_eq
  key_eq_refl k = rw (reflexive k.value_type) (ground arith)

  pub key_eq→eq : (k k' : CacheKey) → key_eq same k k' ≡ true → k ≡ k'
  unfolding key_eq
  key_eq→eq k k' h =
      let (h₁, h₂) = and_parts _ _ h in
      let p : k.align ≡ k'.align = ==→eq _ _ h₁ in
      let q : k.value_type ≡ k'.value_type = sound _ _ h₂ in
      λ i. record { align = p i; value_type = q i }

  pub find-assign_self :
      (k : CacheKey) (r b : Bool) (c : Cache)
      → find same k c ≡ some b
      → find same k (assign same k r c) ≡ some r
  unfolding find assign
  find-assign_self k r b [] h = cc
  find-assign_self k r b ((k', old) ∷ c) h = elim (Bool-cases (key_eq same k' k)) [
    | inl e ↦ rw e (rw e)
    | inr e ↦ rw e (rw e (find-assign_self k r b c (rw e at h)))
  ]

  pub find-assign_other :
      (k k' : CacheKey) (r : Bool) (c : Cache)
      → key_eq same k' k ≡ false
      → find same k (assign same k' r c) ≡ find same k c
  unfolding find assign
  find-assign_other k k' r [] h = refl
  find-assign_other k k' r ((k'', old) ∷ c) h = elim (Bool-cases (key_eq same k'' k')) [
    | inl e ↦ let other : key_eq same k'' k ≡ false = rw (key_eq→eq k'' k' e) h in rw e (rw other)
    | inr e ↦ rw (e, find-assign_other k k' r c h)
  ]
