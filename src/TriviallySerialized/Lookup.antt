-- ===== src/TriviallySerialized/Lookup.antt =====
-- The lookups of trivsercache.hpp, where the cache has the answers.
use rmw_cyclonedds.Base.{ℕ, ◌+◌, ◌%◌, ◌≡◌, refl, ◌∙◌, Bool, ◌&&◌, arith, ok}
use rmw_cyclonedds.TypeSupport.{AnyValueType}
use rmw_cyclonedds.TriviallySerialized.{
  Cache, cache_at, lookup_trivially_serialized, lookup_many_trivially_serialized,
}
use rmw_cyclonedds.TriviallySerialized.Dense.{dense, size_of, dense_mod}
use rmw_cyclonedds.TriviallySerialized.Compute.{at_two_elements-dense}
use rmw_cyclonedds.TriviallySerialized.Covers.{Answers}

module _ (same : AnyValueType → AnyValueType → Bool) (cache : Cache) where
  pub lookup-dense :
      (vt : AnyValueType) (o : ℕ)
      → Answers same cache vt
      → lookup_trivially_serialized same cache o vt ≡ ok (dense vt (o % 8))
  unfolding lookup_trivially_serialized cache_at
  lookup-dense vt o h = rw (h (o % 8) (omega arith), cache_at)

  pub lookup_many-dense :
      (vt : AnyValueType) (o : ℕ)
      → Answers same cache vt
      → lookup_many_trivially_serialized same cache o vt
        ≡ ok (dense vt (o % 8) && dense vt (o % 8 + size_of vt))
  unfolding lookup_many_trivially_serialized
  lookup_many-dense vt o answers =
      at_two_elements-dense (λ a. lookup_trivially_serialized same cache a vt) vt o
        (λ b h. lookup-dense vt b answers ∙ rw (dense_mod vt (b % 8) b (omega arith)) refl)
      ∙ rw
          (
            dense_mod vt (o % 8) o (omega arith),
            dense_mod vt (o % 8 + size_of vt) (o + size_of vt) (omega arith),
          )
          refl
