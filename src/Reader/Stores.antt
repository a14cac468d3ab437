-- ===== src/Reader/Stores.antt =====
-- What a reader should store for an object that a sender had in memory, and which objects the CDR
-- form can hold.
use rmw_cyclonedds.Base.{
  ℕ, zero, suc, ◌+◌, ◌-◌, ◌*◌, ◌^◌, ◌<◌, ◌≤◌, ◌≡◌, refl, sym, ◌∙◌, arith, Bool, true, false, List,
  [], ◌∷◌, ◌++◌, length, ==→eq,
}
use rmw_cyclonedds.TypeSupport.{
  AnyValueType, primitive_value_type, u8_string_value_type, u16_string_value_type,
  struct_value_type, array_value_type, span_sequence_value_type, bool_vector_value_type, Members,
  end, member, cdrsizeof_primitive,
}
use rmw_cyclonedds.Memory.{Memory, bytes, bytes-add, length-bytes, bytes_none}
use native.Mathlib.Nat.{add_assoc}
use rmw_cyclonedds.TriviallySerialized.Dense.{
  dense, dense_members, size_of, dense_step, and_parts, primitive_size,
}
use rmw_cyclonedds.Reader.{
  Store, assign_u8, assign_u16, assign_bools, resize, store_bytes, swap_bytes,
}

-- All the code units of a string have 16 bits.
unfoldable pub Are16Bit : List ℕ → Type 0
Are16Bit [] = Unit {0}
Are16Bit (u ∷ us) = (u < 2 ^ 16) × Are16Bit us

module _ (m : Memory) where
  -- A property of the addresses of `n` elements.
  unfoldable pub AllAt : (ℕ → Type 0) → ℕ → ℕ → ℕ → Type 0
  AllAt P size zero src = Unit {0}
  AllAt P size (suc n) src = P src × AllAt P size n (src + size)

  -- Every length fits in the 32 bits that stand before it.
  unfoldable mutual
    pub Fits : AnyValueType → ℕ → Type 0
    Fits (primitive_value_type k) src = Unit {0}
    Fits (u8_string_value_type size bound) src = length (m.u8_data src) + 1 < 2 ^ 32
    Fits (u16_string_value_type size bound) src =
        (2 * length (m.u16_data src) < 2 ^ 32) × Are16Bit (m.u16_data src)
    Fits (struct_value_type size members) src = FitMembers members src
    Fits (array_value_type element n) src = AllAt (Fits element) (size_of element) n src
    Fits (span_sequence_value_type size element bound) src =
        (m.sequence_size src < 2 ^ 32)
        × AllAt (Fits element) (size_of element) (m.sequence_size src) (m.sequence_contents src)
    Fits (bool_vector_value_type size bound) src = length (m.bool_vector src) < 2 ^ 32

    pub FitMembers : Members → ℕ → Type 0
    FitMembers end src = Unit {0}
    FitMembers (member vt offset is_key rest) src = Fits vt (src + offset) × FitMembers rest src

  -- `contents` is where the contents of a sequence object stand in the receiver's memory, `swap`
  -- whether sender and receiver differ in byte order.
  module _ (contents : ℕ → ℕ) (swap : Bool) where
    unfoldable pub stored_many : (ℕ → ℕ → List Store) → ℕ → ℕ → ℕ → ℕ → List Store
    stored_many f size zero src dst = []
    stored_many f size (suc n) src dst = f src dst ++ stored_many f size n (src + size) (dst + size)

    -- The object, member by member: the bytes of a primitive object in the receiver's order,
    -- strings by their characters, sequences by their elements.
    unfoldable mutual
      pub stored : AnyValueType → ℕ → ℕ → List Store
      stored (primitive_value_type k) src dst =
          store_bytes dst (swap_bytes swap (bytes m src (cdrsizeof_primitive k)))
      stored (u8_string_value_type size bound) src dst = assign_u8 dst (m.u8_data src) ∷ []
      stored (u16_string_value_type size bound) src dst = assign_u16 dst (m.u16_data src) ∷ []
      stored (struct_value_type size members) src dst = stored_members members src dst
      stored (array_value_type element n) src dst =
          stored_many (stored element) (size_of element) n src dst
      stored (span_sequence_value_type size element bound) src dst =
          (resize dst (m.sequence_size src) ∷ [])
          ++ stored_many (stored element) (size_of element) (m.sequence_size src)
              (m.sequence_contents src) (contents dst)
      stored (bool_vector_value_type size bound) src dst = assign_bools dst (m.bool_vector src) ∷ []

      pub stored_members : Members → ℕ → ℕ → List Store
      stored_members end src dst = []
      stored_members (member vt offset is_key rest) src dst =
          stored vt (src + offset) (dst + offset) ++ stored_members rest src dst

shift : (dst n : ℕ) → dst + 1 + n ≡ dst + suc n
shift dst n = omega arith

store_bytes_append :
    (dst : ℕ) (xs ys : List ℕ)
    → store_bytes dst (xs ++ ys) ≡ store_bytes dst xs ++ store_bytes (dst + length xs) ys
unfolding store_bytes
store_bytes_append dst [] ys = ground arith
store_bytes_append dst (x ∷ xs) ys =
    rw (store_bytes_append (dst + 1) xs ys, shift dst (length xs)) refl

module _ (m : Memory) (contents : ℕ → ℕ) where
  abbrev copied : ℕ → ℕ → ℕ → List Store
  copied src dst n = store_bytes dst (bytes m src n)

  copied_split :
      (src dst i n k : ℕ)
      → k ≡ i + n
      → copied src dst i ++ copied (src + i) (dst + i) n ≡ copied src dst k
  copied_split src dst i n k h =
      rw
        (
          h,
          bytes-add m src i n,
          store_bytes_append dst (bytes m src i) (bytes m (src + i) n),
          length-bytes m src i,
        )
        refl

  copied_none : (src dst n : ℕ) → n ≡ 0 → copied src dst n ≡ []
  unfolding store_bytes
  copied_none src dst n h = rw (bytes_none m src n h) refl

  pub stored_many-copied :
      (vt : AnyValueType)
      → ((p src dst : ℕ)
          → dense vt p ≡ true
          → stored m contents false vt src dst ≡ copied src dst (size_of vt))
      → (n p src dst : ℕ) → dense vt p ≡ true
      → dense vt (p + size_of vt) ≡ true
      → stored_many m contents false (stored m contents false vt) (size_of vt) n src dst
        ≡ copied src dst (n * size_of vt)
  unfolding stored_many
  stored_many-copied vt one zero p src dst h i =
      sym (copied_none src dst (0 * size_of vt) (omega arith))
  stored_many-copied vt one (suc n) p src dst h i =
      let s = size_of vt in
      rw
        (
          one p src dst h,
          stored_many-copied vt one n (p + s) (src + s) (dst + s) i (dense_step vt p s h i),
        )
        (copied_split src dst s (n * s) (suc n * s) (omega arith))

  zero_at : (src dst size : ℕ) → copied (src + 0) (dst + 0) (size - 0) ≡ copied src dst size
  zero_at src dst size = ground arith

  member_copied :
      (src dst at n size : ℕ)
      → at + n ≤ size
      → copied (src + at) (dst + at) n ++ copied (src + (at + n)) (dst + (at + n)) (size - (at + n))
        ≡ copied (src + at) (dst + at) (size - at)
  member_copied src dst at n size h =
      rw (← add_assoc src at n, ← add_assoc dst at n)
        (copied_split (src + at) (dst + at) n (size - (at + n)) (size - at) (omega arith))

  mutual
    unfolding dense dense_members size_of stored stored_members swap_bytes

    stored-copied_any :
        (vt : AnyValueType) (p src dst : ℕ)
        → dense vt p ≡ true
        → stored m contents false vt src dst ≡ copied src dst (size_of vt)
    stored-copied_any (primitive_value_type k) p src dst h = rw (primitive_size k) refl
    stored-copied_any (u8_string_value_type size bound) p src dst h = cc
    stored-copied_any (u16_string_value_type size bound) p src dst h = cc
    stored-copied_any (struct_value_type size members) p src dst h =
        (stored-copied_members members size p 0 src dst h).1 ∙ zero_at src dst size
    stored-copied_any (array_value_type element n) p src dst h =
        let (h₁, h₂) = and_parts _ _ h in
        stored_many-copied element (λ q s d k. stored-copied_any element q s d k) n p src dst h₁ h₂
    stored-copied_any (span_sequence_value_type size element bound) p src dst h = cc
    stored-copied_any (bool_vector_value_type size bound) p src dst h = cc

    stored-copied_members :
        (ms : Members) (size a at src dst : ℕ)
        → dense_members ms size a at ≡ true
        → (at ≤ size)
          × (stored_members m contents false ms src dst ≡ copied (src + at) (dst + at) (size - at))
    stored-copied_members end size a at src dst h =
        let here = ==→eq at size h in
        (omega arith, sym (copied_none (src + at) (dst + at) (size - at) (omega arith)))
    stored-copied_members (member vt offset is_key rest) size a at src dst h =
        let (h₁, h') = and_parts _ _ h in
        let (h₂, h₃) = and_parts _ _ h' in
        let here = ==→eq offset at h₁ in
        let one = stored-copied_any vt (a + at) (src + offset) (dst + offset) h₂ in
        let (fits, more) = stored-copied_members rest size a (at + size_of vt) src dst h₃ in
        (omega arith, rw (one, more, here) (member_copied src dst at (size_of vt) size fits))

-- Where `compute_trivially_serialized` holds and the byte orders agree, one `memcpy` makes the
-- stores that reading member by member makes, in the same order.
pub stored-copied :
    (m : Memory) (contents : ℕ → ℕ) (vt : AnyValueType) (p src dst : ℕ)
    → dense vt p ≡ true
    → stored m contents false vt src dst ≡ store_bytes dst (bytes m src (size_of vt))
stored-copied m contents vt p src dst h = stored-copied_any m contents vt p src dst h
