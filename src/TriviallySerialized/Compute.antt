-- ===== src/TriviallySerialized/Compute.antt =====
-- `compute_trivially_serialized` of trivsercache.hpp against the predicate `dense`.
use rmw_cyclonedds.Base.{
  ℕ, ◌+◌, ◌-◌, ◌%◌, ◌<◌, ◌≡◌, refl, ◌∙◌, Bool, true, false, ◌&&◌, ◌==◌, if◌then◌else◌, Result, ok,
  ◌>>=◌, arith, inl, inr, Bool-cases,
}
use rmw_cyclonedds.TypeSupport.{
  PrimitiveTypeKind, AnyValueType, primitive_value_type, u8_string_value_type,
  u16_string_value_type, struct_value_type, array_value_type, span_sequence_value_type,
  bool_vector_value_type, Members, end, member, sizeof_type, sizeof_primitive, cdrsizeof_primitive,
  cdralignof_primitive,
}
use rmw_cyclonedds.TriviallySerialized.Dense.{
  dense, dense_members, size_of, dense_mod, sizeof_type-dense,
}
use rmw_cyclonedds.TriviallySerialized.{
  is_trivially_serialized, at_two_elements, compute_trivially_serialized,
  members_trivially_serialized,
}

pub is_trivially_serialized-dense :
    (k : PrimitiveTypeKind) (a : ℕ) → is_trivially_serialized a k ≡ dense (primitive_value_type k) a
unfolding is_trivially_serialized dense sizeof_primitive cdrsizeof_primitive cdralignof_primitive
is_trivially_serialized-dense PrimitiveTypeKind.float a = ground arith
is_trivially_serialized-dense _ a = ground arith

-- Two questions at a type whose answer is known to be `dense`.
pub at_two_elements-dense :
    (f : ℕ → Result Bool) (vt : AnyValueType) (a : ℕ)
    → ((b : ℕ) → b < 8 → f b ≡ ok (dense vt b))
    → at_two_elements f (sizeof_type vt) (a % 8) ≡ ok (dense vt a && dense vt (a + size_of vt))
at_two_elements-dense f vt a h = elim (Bool-cases (dense vt (a % 8))) [
  | inl e ↦ rw (
    h (a % 8) (omega arith),
    e,
    sizeof_type-dense vt (a % 8) e,
    h ((a % 8 + size_of vt) % 8) (omega arith),
    dense_mod vt a (a % 8) (omega arith),
    e,
    dense_mod vt (a + size_of vt) ((a % 8 + size_of vt) % 8) (omega arith),
  )
  | inr e ↦ rw (h (a % 8) (omega arith), e, dense_mod vt a (a % 8) (omega arith), e)
]

same_offset : (off at align offset : ℕ) → offset ≡ align + at → offset - align ≡ at
same_offset off at align offset e = omega arith

member_step :
    (vt : AnyValueType) (off at align offset : ℕ) (inner : Result Bool) (next : ℕ → Result Bool)
    (rest : Bool)
    → offset ≡ align + at
    → inner ≡ ok (dense vt (align + at))
    → next (size_of vt) ≡ ok rest
    → (if off == offset - align
        then (do
          trivially ← inner
          elim trivially [ true ↦ sizeof_type vt >>= next | false ↦ ok false ])
        else ok false)
      ≡ ok (off == at && (dense vt (align + at) && rest))
member_step vt off at align offset inner next rest e h hn =
    rw (same_offset off at align offset e, h)
      (elim (Bool-cases (dense vt (align + at))) [
        | inl d ↦ rw (d, sizeof_type-dense vt (align + at) d, hn) (ground arith)
        | inr d ↦ rw d (ground arith)
      ])

mutual
  unfolding compute_trivially_serialized members_trivially_serialized dense dense_members

  compute-dense_any :
      (vt : AnyValueType) (a : ℕ) → compute_trivially_serialized vt a ≡ ok (dense vt a)
  compute-dense_any (primitive_value_type k) a = rw (
    is_trivially_serialized-dense k (a % 8),
    dense_mod (primitive_value_type k) (a % 8) a (omega arith),
  )
  compute-dense_any (u8_string_value_type size bound) a = refl
  compute-dense_any (u16_string_value_type size bound) a = refl
  compute-dense_any (struct_value_type size members) a =
      compute-dense_members members size (a % 8) 0 (a % 8) (omega arith)
      ∙ rw (dense_mod (struct_value_type size members) (a % 8) a (omega arith)) refl
  compute-dense_any (array_value_type element n) a =
      at_two_elements-dense (compute_trivially_serialized element) element a
        (λ b h. compute-dense_any element b)
  compute-dense_any (span_sequence_value_type size element bound) a = refl
  compute-dense_any (bool_vector_value_type size bound) a = refl

  compute-dense_members :
      (ms : Members) (size align at offset : ℕ)
      → offset ≡ align + at
      → members_trivially_serialized ms size align offset ≡ ok (dense_members ms size align at)
  compute-dense_members end size align at offset e = ground arith
  compute-dense_members (member vt member_offset is_key rest) size align at offset e =
      member_step vt member_offset at align offset (compute_trivially_serialized vt (offset % 8))
        (λ n. members_trivially_serialized rest size align (offset + n))
        (dense_members rest size align (at + size_of vt)) e
        (compute-dense_any vt (offset % 8)
          ∙ rw (dense_mod vt (offset % 8) (align + at) (omega arith)) refl)
        (compute-dense_members rest size align (at + size_of vt) (offset + size_of vt)
          (omega arith))

-- `compute_trivially_serialized` throws on no type and at no alignment, and answers what `dense` does.
pub compute_trivially_serialized-dense :
    (vt : AnyValueType) (align : ℕ) → compute_trivially_serialized vt align ≡ ok (dense vt align)
compute_trivially_serialized-dense vt align = compute-dense_any vt align
