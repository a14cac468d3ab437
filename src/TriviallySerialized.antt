-- ===== src/TriviallySerialized.antt =====
-- rmw_cyclonedds_cpp/src/trivsercache.hpp: which values are serialized by one `memcpy`, for each
-- alignment of the first byte modulo 8.
pub mod Dense
pub mod Compute
pub mod Covers
pub mod Entries
pub mod Lookup
pub mod Register
use rmw_cyclonedds.Base.{
  ℕ, ◌+◌, ◌-◌, ◌%◌, ◌*◌, Bool, true, false, ◌&&◌, Option, none, some, List, [], ◌∷◌, ◌==◌,
  if◌then◌else◌, Result, ok, throw, out_of_range, ◌>>=◌,
}
use rmw_cyclonedds.TypeSupport.{
  PrimitiveTypeKind, AnyValueType, primitive_value_type, u8_string_value_type,
  u16_string_value_type, struct_value_type, array_value_type, span_sequence_value_type,
  bool_vector_value_type, Members, end, member, sizeof_type, sizeof_primitive, cdrsizeof_primitive,
  cdralignof_primitive,
}

abbrev pub max_align : ℕ
max_align = 8

-- `is_trivially_serialized(size_t, const PrimitiveValueType &)`.
unfoldable pub is_trivially_serialized : ℕ → PrimitiveTypeKind → Bool
is_trivially_serialized align k =
    if align % max_align % cdralignof_primitive k == 0
    then sizeof_primitive k == cdrsizeof_primitive k
    else false

-- The body of the two functions under "CLEVERNESS ALERT": `at` is asked at `align`, and if that
-- holds one element further on.
abbrev pub at_two_elements : (ℕ → Result Bool) → Result ℕ → ℕ → Result Bool
at_two_elements at size align = do
  first ← at align
  elim first [ true ↦ do n ← size; at ((align + n) % max_align) | false ↦ ok false ]

-- `compute_trivially_serialized`, with `is_trivially_serialized(size_t, const StructValueType &)` as
-- the loop over the members. `align` and `offset` are the source's local variables.
unfoldable mutual
  pub compute_trivially_serialized : AnyValueType → ℕ → Result Bool
  compute_trivially_serialized (primitive_value_type k) align =
      ok (is_trivially_serialized (align % max_align) k)
  compute_trivially_serialized (u8_string_value_type size bound) align = ok false
  compute_trivially_serialized (u16_string_value_type size bound) align = ok false
  compute_trivially_serialized (struct_value_type size members) align =
      members_trivially_serialized members size (align % max_align) (align % max_align)
  compute_trivially_serialized (array_value_type element n) align =
      at_two_elements (compute_trivially_serialized element) (sizeof_type element)
        (align % max_align)
  compute_trivially_serialized (span_sequence_value_type size element bound) align = ok false
  compute_trivially_serialized (bool_vector_value_type size bound) align = ok false

  pub members_trivially_serialized : Members → ℕ → ℕ → ℕ → Result Bool
  members_trivially_serialized end size align offset = ok (offset == align + size)
  members_trivially_serialized (member vt member_offset is_key rest) size align offset =
      let inner = compute_trivially_serialized vt (offset % max_align) in
      let next = λ (n : ℕ). members_trivially_serialized rest size align (offset + n) in
      if member_offset == offset - align
      then (do
        trivially ← inner
        elim trivially [ true ↦ sizeof_type vt >>= next | false ↦ ok false ])
      else ok false

-- The map `cache_`. A key holds an alignment and a type, which the source compares by its address.
pub record CacheKey : Type 0 where
  pub align : ℕ
  pub value_type : AnyValueType

abbrev pub Cache : Type 0
Cache = List (CacheKey × Bool)

-- `same` is the comparison of two `const AnyValueType *`.
module _ (same : AnyValueType → AnyValueType → Bool) where
  -- `CacheKey::operator==`.
  unfoldable pub key_eq : CacheKey → CacheKey → Bool
  key_eq k other = k.align == other.align && same k.value_type other.value_type

  unfoldable pub find : CacheKey → Cache → Option Bool
  find k [] = none
  find k ((k', result) ∷ cache) = if key_eq k' k then some result else find k cache

  -- The assignment to `result`, a reference to the entry of a key that is there.
  unfoldable pub assign : CacheKey → Bool → Cache → Cache
  assign k result [] = []
  assign k result ((k', old) ∷ cache) =
      if key_eq k' k then (k', result) ∷ cache else (k', old) ∷ assign k result cache

  -- `cache_.at(key)` throws where there is no entry.
  unfoldable pub cache_at : Cache → CacheKey → Result Bool
  cache_at cache k = elim (find k cache) [ some result ↦ ok result | none ↦ throw out_of_range ]

  unfoldable pub lookup_trivially_serialized : Cache → ℕ → AnyValueType → Result Bool
  lookup_trivially_serialized cache align vt =
      cache_at cache (record { align = align % max_align; value_type = vt })

  -- `lookup_many_trivially_serialized`.
  unfoldable pub lookup_many_trivially_serialized : Cache → ℕ → AnyValueType → Result Bool
  lookup_many_trivially_serialized cache align evt =
      at_two_elements (λ a. lookup_trivially_serialized cache a evt) (sizeof_type evt)
        (align % max_align)

  -- The loop of `register_serializable_type` over the alignments: a key that is there is passed
  -- over, any other is entered with `false`, and `body` goes on from there.
  unfoldable pub register_aligns :
      AnyValueType → (ℕ → Cache → Result Cache) → List ℕ → Cache → Result Cache
  register_aligns t body [] cache = ok cache
  register_aligns t body (align ∷ aligns) cache =
      let key : CacheKey = record { align = align; value_type = t } in
      do
        cache' ← elim (find key cache) [
          | some _ ↦ ok cache
          | none ↦ body align ((key, false) ∷ cache)
        ]
        register_aligns t body aligns cache'

  abbrev aligns : List ℕ
  aligns = 0 ∷ 1 ∷ 2 ∷ 3 ∷ 4 ∷ 5 ∷ 6 ∷ 7 ∷ []

  abbrev set : AnyValueType → ℕ → Bool → Cache → Cache
  set t align result = assign (record { align = align; value_type = t }) result

  -- `register_serializable_type`.
  unfoldable mutual
    pub register_serializable_type : AnyValueType → Cache → Result Cache
    register_serializable_type (primitive_value_type k) =
        register_aligns (primitive_value_type k)
          (λ a c. ok (set (primitive_value_type k) a (is_trivially_serialized a k) c)) aligns
    register_serializable_type (u8_string_value_type size bound) =
        register_aligns (u8_string_value_type size bound)
          (λ a c. ok (set (u8_string_value_type size bound) a false c)) aligns
    register_serializable_type (u16_string_value_type size bound) =
        register_aligns (u16_string_value_type size bound)
          (λ a c. ok (set (u16_string_value_type size bound) a false c)) aligns
    register_serializable_type (struct_value_type size members) =
        register_aligns (struct_value_type size members)
          (λ a c. do
            c' ← register_members members c
            result ← compute_trivially_serialized (struct_value_type size members) a
            ok (set (struct_value_type size members) a result c'))
          aligns
    register_serializable_type (array_value_type element n) =
        register_aligns (array_value_type element n)
          (λ a c. do
            result ← compute_trivially_serialized (array_value_type element n) a
            register_serializable_type element (set (array_value_type element n) a result c))
          aligns
    register_serializable_type (span_sequence_value_type size element bound) =
        register_aligns (span_sequence_value_type size element bound)
          (λ a c. do
            c' ← register_serializable_type element c
            ok (set (span_sequence_value_type size element bound) a false c'))
          aligns
    register_serializable_type (bool_vector_value_type size bound) =
        register_aligns (bool_vector_value_type size bound)
          (λ a c. ok (set (bool_vector_value_type size bound) a false c)) aligns

    pub register_members : Members → Cache → Result Cache
    register_members end c = ok c
    register_members (member vt offset is_key rest) c = do
      c' ← register_serializable_type vt c
      register_members rest c'

  -- The constructor `TriviallySerializedCache`.
  unfoldable pub make_cache : AnyValueType → Result Cache
  make_cache t = register_serializable_type t []
