-- ===== src/TriviallySerialized/Covers.antt =====
-- When the cache of trivsercache.hpp can be trusted for a type.
use rmw_cyclonedds.Base.{ℕ, ◌<◌, ◌≡◌, Bool, some}
use rmw_cyclonedds.TypeSupport.{
  AnyValueType, primitive_value_type, u8_string_value_type, u16_string_value_type,
  struct_value_type, array_value_type, span_sequence_value_type, bool_vector_value_type, Members,
  end, member,
}
use rmw_cyclonedds.TriviallySerialized.{Cache, find}
use rmw_cyclonedds.TriviallySerialized.Dense.{dense}

-- The cache has the answer of `compute_trivially_serialized` for a type, at each alignment.
abbrev pub Answers : (AnyValueType → AnyValueType → Bool) → Cache → AnyValueType → Type 0
Answers same cache vt =
    (a : ℕ) → a < 8 → find same (record { align = a; value_type = vt }) cache ≡ some (dense vt a)

-- The same for all types below a type.
unfoldable mutual
  pub Parts : (AnyValueType → AnyValueType → Bool) → Cache → AnyValueType → Type 0
  Parts same cache (primitive_value_type k) = Unit {0}
  Parts same cache (u8_string_value_type size bound) = Unit {0}
  Parts same cache (u16_string_value_type size bound) = Unit {0}
  Parts same cache (struct_value_type size members) = CoversMembers same cache members
  Parts same cache (array_value_type element n) =
      Answers same cache element × Parts same cache element
  Parts same cache (span_sequence_value_type size element bound) =
      Answers same cache element × Parts same cache element
  Parts same cache (bool_vector_value_type size bound) = Unit {0}

  pub CoversMembers : (AnyValueType → AnyValueType → Bool) → Cache → Members → Type 0
  CoversMembers same cache end = Unit {0}
  CoversMembers same cache (member vt offset is_key rest) =
      (Answers same cache vt × Parts same cache vt) × CoversMembers same cache rest

-- The cache has the answers for a type and for all types below it.
abbrev pub Covers : (AnyValueType → AnyValueType → Bool) → Cache → AnyValueType → Type 0
Covers same cache vt = Answers same cache vt × Parts same cache vt
