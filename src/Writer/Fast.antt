-- ===== src/Writer/Fast.antt =====
-- Where `memcpy` is all it takes: a dense object in memory is its own CDR form.
use rmw_cyclonedds.Base.{
  ℕ, zero, suc, ◌+◌, ◌-◌, ◌*◌, ◌%◌, ◌≤◌, ◌≡◌, sym, ◌∙◌, true, false, ok, [], ◌++◌, arith, ==→eq,
  ◌⊎◌, inl, inr, Bool-cases,
}
use rmw_cyclonedds.TypeSupport.{
  AnyValueType, primitive_value_type, u8_string_value_type, u16_string_value_type,
  struct_value_type, array_value_type, span_sequence_value_type, bool_vector_value_type, Members,
  end, member, cdrsizeof_primitive, PrimitiveTypeKind,
}
use rmw_cyclonedds.Memory.{Memory, Endian, bytes, length-bytes, bytes_none, bytes_split}
use native.Mathlib.Nat.{add_assoc}
use rmw_cyclonedds.TriviallySerialized.Dense.{
  dense, dense_members, size_of, dense_mod, dense_step, and_parts, primitive_size,
}
use rmw_cyclonedds.TriviallySerialized.{compute_trivially_serialized}
use rmw_cyclonedds.TriviallySerialized.Compute.{compute_trivially_serialized-dense}
use rmw_cyclonedds.Writer.Cdr.{padding, cdr, cdr_members, cdr_many}

pub padding_aligned :
    (k : PrimitiveTypeKind) (p : ℕ)
    → p % cdrsizeof_primitive k ≡ 0
    → padding p (cdrsizeof_primitive k) ≡ []
unfolding padding cdrsizeof_primitive
padding_aligned PrimitiveTypeKind.float p h = rw h
padding_aligned _ p h = rw h

module _ (e : Endian) (m : Memory) where
  -- A run of elements, from what holds of one.
  pub cdr_many-bytes :
      (vt : AnyValueType)
      → ((p src : ℕ) → dense vt p ≡ true → cdr e m vt p src ≡ bytes m src (size_of vt))
      → (n p src : ℕ) → dense vt p ≡ true
      → dense vt (p + size_of vt) ≡ true
      → cdr_many e m (cdr e m vt) (size_of vt) n p src ≡ bytes m src (n * size_of vt)
  unfolding cdr_many
  cdr_many-bytes vt one zero p src h i = sym (bytes_none m src (0 * size_of vt) (omega arith))
  cdr_many-bytes vt one (suc n) p src h i =
      let s = size_of vt in
      let rest =
        cdr_many-bytes vt one n ((p + s) % 8) (src + s)
          (rw (dense_mod vt ((p + s) % 8) (p + s) (omega arith)) i)
          (rw (dense_mod vt ((p + s) % 8 + s) (p + s + s) (omega arith)) (dense_step vt p s h i)) in
      rw (one p src h, length-bytes m src s, rest)
        (bytes_split m src s (n * s) (suc n * s) (omega arith))

  zero_at : (src size : ℕ) → bytes m (src + 0) (size - 0) ≡ bytes m src size
  zero_at src size = ground arith

  member_bytes :
      (src at n size : ℕ)
      → at + n ≤ size
      → bytes m (src + at) n ++ bytes m (src + (at + n)) (size - (at + n))
        ≡ bytes m (src + at) (size - at)
  member_bytes src at n size h =
      rw (← add_assoc src at n)
        (bytes_split m (src + at) n (size - (at + n)) (size - at) (omega arith))

  mutual
    unfolding dense dense_members size_of cdr cdr_members

    cdr-bytes_any :
        (vt : AnyValueType) (p src : ℕ)
        → dense vt p ≡ true
        → cdr e m vt p src ≡ bytes m src (size_of vt)
    cdr-bytes_any (primitive_value_type k) p src h =
        rw (padding_aligned k p (==→eq _ 0 h), primitive_size k)
    cdr-bytes_any (u8_string_value_type size bound) p src h = cc
    cdr-bytes_any (u16_string_value_type size bound) p src h = cc
    cdr-bytes_any (struct_value_type size members) p src h =
        (cdr-bytes_members members size p 0 p src (omega arith) h).1 ∙ zero_at src size
    cdr-bytes_any (array_value_type element n) p src h =
        let (h₁, h₂) = and_parts _ _ h in
        cdr_many-bytes element (λ q s k. cdr-bytes_any element q s k) n p src h₁ h₂
    cdr-bytes_any (span_sequence_value_type size element bound) p src h = cc
    cdr-bytes_any (bool_vector_value_type size bound) p src h = cc

    cdr-bytes_members :
        (ms : Members) (size a at p src : ℕ)
        → p % 8 ≡ (a + at) % 8
        → dense_members ms size a at ≡ true
        → (at ≤ size) × (cdr_members e m ms p src ≡ bytes m (src + at) (size - at))
    cdr-bytes_members end size a at p src hp h =
        let here = ==→eq at size h in
        (omega arith, sym (bytes_none m (src + at) (size - at) (omega arith)))
    cdr-bytes_members (member vt offset is_key rest) size a at p src hp h =
        let (h₁, h') = and_parts _ _ h in
        let (h₂, h₃) = and_parts _ _ h' in
        let here = ==→eq offset at h₁ in
        let one = cdr-bytes_any vt p (src + offset) (rw (dense_mod vt p (a + at) hp) h₂) in
        let (fits, more) =
          cdr-bytes_members rest size a (at + size_of vt) ((p + size_of vt) % 8) src (omega arith)
            h₃ in
        (
          omega arith,
          rw (one, length-bytes m (src + offset) (size_of vt), more, here)
              (member_bytes src at (size_of vt) size fits),
        )

-- Where an object is dense, its bytes are its CDR form: `memcpy` and the member by member encoding
-- agree.
pub cdr-bytes :
    (e : Endian) (m : Memory) (vt : AnyValueType) (p src : ℕ)
    → dense vt p ≡ true
    → cdr e m vt p src ≡ bytes m src (size_of vt)
cdr-bytes e m vt p src h = cdr-bytes_any e m vt p src h

-- compute_trivially_serialized throws on no type and at no alignment. Where it answers true, the bytes
-- of an object are its CDR form, in either byte order, at every position of that alignment; it answers
-- false exactly where the object is not dense.
pub compute_trivially_serialized-bytes :
    (vt : AnyValueType) (align : ℕ) (e : Endian) (m : Memory) (p src : ℕ)
    → p % 8 ≡ align % 8
    → ((compute_trivially_serialized vt align ≡ ok true)
        × (cdr e m vt p src ≡ bytes m src (size_of vt)))
      ⊎ ((compute_trivially_serialized vt align ≡ ok false) × (dense vt align ≡ false))
compute_trivially_serialized-bytes vt align e m p src here =
    let answer = compute_trivially_serialized-dense vt align in
    elim (Bool-cases (dense vt align)) [
      | inl d ↦ inl (rw d at answer, cdr-bytes e m vt p src (rw (dense_mod vt p align here) d))
      | inr d ↦ inr (rw d at answer, d)
    ]
