-- ===== src/TriviallySerialized/Dense.antt =====
-- The answer of `compute_trivially_serialized` as a predicate of the type and the alignment.
use rmw_cyclonedds.Base.{
  ℕ, ◌+◌, ◌%◌, ◌*◌, ◌≡◌, refl, Bool, true, false, ◌&&◌, none, some, ◌==◌, ok, arith,
}
use rmw_cyclonedds.TypeSupport.{
  PrimitiveTypeKind, AnyValueType, primitive_value_type, u8_string_value_type,
  u16_string_value_type, struct_value_type, array_value_type, span_sequence_value_type,
  bool_vector_value_type, Members, end, member, sizeof_type, sizeof_primitive, cdrsizeof_primitive,
}

-- The size of an object, where `sizeof_type` gives one.
unfoldable pub size_of : AnyValueType → ℕ
unfolding sizeof_primitive
size_of (primitive_value_type k) = sizeof_primitive k
size_of (u8_string_value_type size bound) = size
size_of (u16_string_value_type size bound) = size
size_of (struct_value_type size members) = size
size_of (array_value_type element n) = n * size_of element
size_of (span_sequence_value_type none element bound) = 0
size_of (span_sequence_value_type (some size) element bound) = size
size_of (bool_vector_value_type size bound) = size

-- No padding: an object at an address with this remainder modulo 8 is its own CDR form. Of the element
-- of an array the same is asked one element further on, also where the array has but one.
unfoldable mutual
  pub dense : AnyValueType → ℕ → Bool
  dense (primitive_value_type k) a = a % cdrsizeof_primitive k == 0
  dense (u8_string_value_type size bound) a = false
  dense (u16_string_value_type size bound) a = false
  dense (struct_value_type size members) a = dense_members members size a 0
  dense (array_value_type element n) a = dense element a && dense element (a + size_of element)
  dense (span_sequence_value_type size element bound) a = false
  dense (bool_vector_value_type size bound) a = false

  pub dense_members : Members → ℕ → ℕ → ℕ → Bool
  dense_members end size a at = at == size
  dense_members (member vt offset is_key rest) size a at =
      offset == at && (dense vt (a + at) && dense_members rest size a (at + size_of vt))

primitive_mod :
    (k : PrimitiveTypeKind) (a b : ℕ)
    → a % 8 ≡ b % 8
    → (a % cdrsizeof_primitive k == 0) ≡ (b % cdrsizeof_primitive k == 0)
unfolding cdrsizeof_primitive
primitive_mod PrimitiveTypeKind.float a b h = ground arith
primitive_mod _ a b h = ground arith

mutual
  unfolding dense dense_members

  dense_mod_any : (vt : AnyValueType) (a b : ℕ) → a % 8 ≡ b % 8 → dense vt a ≡ dense vt b
  dense_mod_any (primitive_value_type k) a b h = primitive_mod k a b h
  dense_mod_any (u8_string_value_type size bound) a b h = refl
  dense_mod_any (u16_string_value_type size bound) a b h = refl
  dense_mod_any (struct_value_type size members) a b h = dense_mod_members members size a b 0 h
  dense_mod_any (array_value_type element n) a b h = rw (
    dense_mod_any element a b h,
    dense_mod_any element (a + size_of element) (b + size_of element) (omega arith),
  )
  dense_mod_any (span_sequence_value_type size element bound) a b h = refl
  dense_mod_any (bool_vector_value_type size bound) a b h = refl

  dense_mod_members :
      (ms : Members) (size a b at : ℕ)
      → a % 8 ≡ b % 8
      → dense_members ms size a at ≡ dense_members ms size b at
  dense_mod_members end size a b at h = refl
  dense_mod_members (member vt offset is_key rest) size a b at h = rw (
    dense_mod_any vt (a + at) (b + at) (omega arith),
    dense_mod_members rest size a b (at + size_of vt) h,
  )

-- Only the remainder modulo 8 counts.
pub dense_mod : (vt : AnyValueType) (a b : ℕ) → a % 8 ≡ b % 8 → dense vt a ≡ dense vt b
dense_mod vt a b h = dense_mod_any vt a b h

primitive_step :
    (k : PrimitiveTypeKind) (a n : ℕ)
    → (a % cdrsizeof_primitive k == 0) ≡ true
    → ((a + n) % cdrsizeof_primitive k == 0) ≡ true
    → ((a + n + n) % cdrsizeof_primitive k == 0) ≡ true
unfolding cdrsizeof_primitive
primitive_step PrimitiveTypeKind.float a n h i = ground arith
primitive_step _ a n h i = ground arith

pub and_parts : (a b : Bool) → (a && b) ≡ true → (a ≡ true) × (b ≡ true)
and_parts true b h = (refl, h)
and_parts false b h = cc

pub and_intro : (a b : Bool) → a ≡ true → b ≡ true → (a && b) ≡ true
and_intro a b h i = rw (h, i)

swap_add : (a s n : ℕ) → a + s + n ≡ a + n + s
swap_add a s n = omega arith

shift : (a n s : ℕ) → a + n + n + s ≡ a + s + n + n
shift a n s = omega arith

mutual
  unfolding dense dense_members

  dense_step_any :
      (vt : AnyValueType) (a n : ℕ)
      → dense vt a ≡ true
      → dense vt (a + n) ≡ true
      → dense vt (a + n + n) ≡ true
  dense_step_any (primitive_value_type k) a n h i = primitive_step k a n h i
  dense_step_any (u8_string_value_type size bound) a n h i = h
  dense_step_any (u16_string_value_type size bound) a n h i = h
  dense_step_any (struct_value_type size members) a n h i =
      dense_step_members members size a n 0 h i
  dense_step_any (array_value_type element m) a n h i =
      let (h₁, h₂) = and_parts _ _ h in
      let (i₁, i₂) = and_parts _ _ i in
      and_intro _ _ (dense_step_any element a n h₁ i₁) (
        rw (shift a n (size_of element)) (
          dense_step_any element (a + size_of element) n h₂
            (rw (swap_add a (size_of element) n) i₂)))
  dense_step_any (span_sequence_value_type size element bound) a n h i = h
  dense_step_any (bool_vector_value_type size bound) a n h i = h

  dense_step_members :
      (ms : Members) (size a n at : ℕ)
      → dense_members ms size a at ≡ true
      → dense_members ms size (a + n) at ≡ true
      → dense_members ms size (a + n + n) at ≡ true
  dense_step_members end size a n at h i = h
  dense_step_members (member vt offset is_key rest) size a n at h i =
      let (h₁, h') = and_parts _ _ h in
      let (h₂, h₃) = and_parts _ _ h' in
      let (i₁, i') = and_parts _ _ i in
      let (i₂, i₃) = and_parts _ _ i' in
      and_intro _ _ h₁ (
        and_intro _ _
          (rw (shift a n at) (dense_step_any vt (a + at) n h₂ (rw (swap_add a at n) i₂)))
          (dense_step_members rest size a n (at + size_of vt) h₃ i₃))

-- What holds at two elements in a row holds at the next one: the "CLEVERNESS ALERT".
pub dense_step :
    (vt : AnyValueType) (a n : ℕ)
    → dense vt a ≡ true
    → dense vt (a + n) ≡ true
    → dense vt (a + n + n) ≡ true
dense_step vt a n h i = dense_step_any vt a n h i

pub primitive_size : (k : PrimitiveTypeKind) → sizeof_primitive k ≡ cdrsizeof_primitive k
unfolding sizeof_primitive cdrsizeof_primitive
primitive_size PrimitiveTypeKind.float = refl
primitive_size _ = refl

-- Where an object is dense, `sizeof_type` does not throw.
pub sizeof_type-dense :
    (vt : AnyValueType) (a : ℕ) → dense vt a ≡ true → sizeof_type vt ≡ ok (size_of vt)
unfolding sizeof_type dense size_of
sizeof_type-dense (primitive_value_type k) a h = refl
sizeof_type-dense (u8_string_value_type size bound) a h = refl
sizeof_type-dense (u16_string_value_type size bound) a h = refl
sizeof_type-dense (struct_value_type size members) a h = refl
sizeof_type-dense (array_value_type element n) a h =
    rw (sizeof_type-dense element a (and_parts _ _ h).0)
sizeof_type-dense (span_sequence_value_type none element bound) a h = cc
sizeof_type-dense (span_sequence_value_type (some size) element bound) a h = refl
sizeof_type-dense (bool_vector_value_type size bound) a h = refl
