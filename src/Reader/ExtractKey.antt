-- ===== src/Reader/ExtractKey.antt =====
-- `extractkey` of `CDRReader` in rmw_cyclonedds_cpp/src/Serialization.cpp: from the CDR form of a
-- sample or of a key to that of the key.
pub mod Skip
pub mod WideStrings
use rmw_cyclonedds.Base.{
  ℕ, zero, suc, ◌+◌, ◌-◌, ◌*◌, ◌%◌, Bool, true, false, ◌||◌, ◌&&◌, not, List, [], ◌∷◌, map, get_or,
  ◌==◌, if◌then◌else◌, Result, ok, throw, size_0_string, unterminated_string, odd_wstring,
  unrecognized_header, ◌>>=◌,
}
use rmw_cyclonedds.TypeSupport.{
  PrimitiveTypeKind, AnyValueType, primitive_value_type, u8_string_value_type,
  u16_string_value_type, struct_value_type, array_value_type, span_sequence_value_type,
  bool_vector_value_type, Members, end, member, has_keys, sizeof_type, cdrsizeof_primitive,
}
use rmw_cyclonedds.Memory.{Endian, little, big, u32_bytes, u16s_bytes, u16s_value}
use rmw_cyclonedds.Cursor.{word, WriteCursor, align, ByteVectorCursor, byte_vector_cursor}
use rmw_cyclonedds.TriviallySerialized.{
  lookup_trivially_serialized, lookup_many_trivially_serialized,
}
use rmw_cyclonedds.Writer.{SampleOrKey, SampleOrRequest, message, request, is_little}
use rmw_cyclonedds.Reader.{
  CdrReader, DeserializeCursor, bswap16, swap_bytes, byte_at, offset, advance, rebase, align_read,
  deserialize_u32, needs_swap, recognized,
}

-- The name of each alternative keeps it apart from those of `SampleOrKey`.
pub data ExtractKeyMode : Type 0 where
  sample_mode key_mode skip_mode : ExtractKeyMode

-- `bswap_src != bswap_dst`.
abbrev pub differ : Bool → Bool → Bool
differ true b = not b
differ false b = b

module _ (r : CdrReader) (bswap_src bswap_dst : Bool) {S : Type 0} (w : WriteCursor S) where
  abbrev pub Extract : Type 0
  Extract = DeserializeCursor → S → Result (DeserializeCursor × S)

  -- `if (mode != ExtractKeyMode::Skip)`.
  unfoldable pub unless_skip : ExtractKeyMode → (S → S) → S → S
  unless_skip skip_mode put s = s
  unless_skip sample_mode put s = put s
  unless_skip key_mode put s = put s

  -- A number of 32 bits, aligned and in the byte order of the destination.
  unfoldable pub put_u32 : ℕ → S → S
  put_u32 value s =
      w.put_bytes (swap_bytes bswap_dst (u32_bytes r.native_endian value)) (align w 4 s)

  unfoldable pub extractkey_primitive : ℕ → ExtractKeyMode → Extract
  extractkey_primitive n mode c s = do
    c' ← align_read n c
    (bs, c'') ← advance n c'
    ok (
      c'',
      unless_skip mode
          (λ s'. w.put_bytes (swap_bytes (differ bswap_src bswap_dst) bs) (align w n s')) s,
    )

  unfoldable pub extract_u8_body : ExtractKeyMode → ℕ → Extract
  extract_u8_body mode size c s = if size == 0 then throw size_0_string else (do
    (bs, c') ← advance size c
    last ← byte_at bs (size - 1)
    (if last == 0
        then ok (c', unless_skip mode (λ s'. w.put_bytes bs (put_u32 size s')) s)
        else throw unterminated_string))

  unfoldable pub extractkey_u8_string : ExtractKeyMode → Extract
  extractkey_u8_string mode c s = do
    (size, c') ← deserialize_u32 r bswap_src c
    extract_u8_body mode size c' s

  -- The loop over the code units asks for `bswap_src`, whatever `bswap_dst` is.
  unfoldable pub extracted_units : List ℕ → List ℕ
  extracted_units bs =
      if bswap_src
      then u16s_bytes r.native_endian (map bswap16 (u16s_value r.native_endian bs))
      else bs

  unfoldable pub extract_u16_body : ExtractKeyMode → ℕ → Extract
  extract_u16_body mode size c s =
      if size % 2 == 0
      then (do
        (bs, c') ← advance size c
        ok (c', unless_skip mode (λ s'. w.put_bytes (extracted_units bs) (put_u32 size s')) s))
      else throw odd_wstring

  unfoldable pub extractkey_u16_string : ExtractKeyMode → Extract
  extractkey_u16_string mode c s = do
    (size, c') ← deserialize_u32 r bswap_src c
    extract_u16_body mode size c' s

  unfoldable pub extract_bools_body : ExtractKeyMode → ℕ → Extract
  extract_bools_body mode count c s = do
    (bs, c') ← advance count c
    ok (c', unless_skip mode (λ s'. w.put_bytes bs (put_u32 count s')) s)

  unfoldable pub extractkey_bool_vector : ExtractKeyMode → Extract
  extractkey_bool_vector mode c s = do
    (count, c') ← deserialize_u32 r bswap_src c
    extract_bools_body mode count c' s

  -- The last loop of `extractkey_many`.
  unfoldable pub extract_elements : Extract → ℕ → Extract
  extract_elements f zero c s = ok (c, s)
  extract_elements f (suc n) c s = do (c', s') ← f c s; extract_elements f n c' s'

  -- The `if` of `extractkey_many`; the cache is not asked where bytes are swapped.
  unfoldable pub extract_block : Extract → AnyValueType → ExtractKeyMode → ℕ → ℕ → Extract
  extract_block f vt mode size n c s = do
    trivially ← elim (bswap_src || bswap_dst) [
      | true ↦ ok false
      | false ↦ lookup_many_trivially_serialized r.same_type r.tsc (offset c) vt
    ]
    elim trivially [
      | true ↦ do (bs, c') ← advance (n * size) c; ok (c', unless_skip mode (w.put_bytes bs) s)
      | false ↦ extract_elements f n c s
    ]

  unfoldable pub extract_rest : Extract → AnyValueType → ExtractKeyMode → ℕ → Extract
  extract_rest f vt mode zero c s = ok (c, s)
  extract_rest f vt mode (suc n) c s = do
    size ← sizeof_type vt
    extract_block f vt mode size (suc n) c s

  -- `extractkey_many`; `f` is `extractkey` at the element type `vt`.
  unfoldable pub extractkey_many : Extract → AnyValueType → ExtractKeyMode → ℕ → Extract
  extractkey_many f vt mode zero c s = ok (c, s)
  extractkey_many f vt mode (suc n) c s = do (c', s') ← f c s; extract_rest f vt mode n c' s'

  -- `extractkey` for a `const AnyValueType *`; `apply` is its second branch.
  unfoldable pub skip_or_apply : AnyValueType → ExtractKeyMode → Extract → Extract
  skip_or_apply vt sample_mode apply c s = apply c s
  skip_or_apply vt key_mode apply c s = apply c s
  skip_or_apply vt skip_mode apply c s = do
    trivially ← lookup_trivially_serialized r.same_type r.tsc (offset c) vt
    elim trivially [
      | true ↦ do size ← sizeof_type vt; (bs, c') ← advance size c; ok (c', s)
      | false ↦ apply c s
    ]

  -- What the `switch` over the mode does to a member, which belongs to the key or not: the mode in
  -- which `extractkey` goes on, or nothing.
  unfoldable pub extract_member : (ExtractKeyMode → Extract) → ExtractKeyMode → Bool → Extract
  extract_member f skip_mode is_key c s = f skip_mode c s
  extract_member f key_mode true c s = f key_mode c s
  extract_member f key_mode false c s = ok (c, s)
  extract_member f sample_mode true c s = f sample_mode c s
  extract_member f sample_mode false c s = f skip_mode c s

  -- The overloads of `extractkey` for the classes of value types, and the loop over the members of
  -- a struct.
  unfoldable mutual
    pub extractkey : AnyValueType → ExtractKeyMode → Extract
    extractkey (primitive_value_type k) mode =
        skip_or_apply (primitive_value_type k) mode
          (extractkey_primitive (cdrsizeof_primitive k) mode)
    extractkey (u8_string_value_type size bound) mode =
        skip_or_apply (u8_string_value_type size bound) mode (extractkey_u8_string mode)
    extractkey (u16_string_value_type size bound) mode =
        skip_or_apply (u16_string_value_type size bound) mode (extractkey_u16_string mode)
    extractkey (struct_value_type size members) mode =
        skip_or_apply (struct_value_type size members) mode
          (extractkey_members members (not (has_keys members)) mode)
    extractkey (array_value_type element n) mode =
        skip_or_apply (array_value_type element n) mode
          (extractkey_many (extractkey element mode) element mode n)
    extractkey (span_sequence_value_type size element bound) mode =
        skip_or_apply (span_sequence_value_type size element bound) mode λ c s. do
          (count, c') ← deserialize_u32 r bswap_src c
          extractkey_many (extractkey element mode) element mode count c'
              (unless_skip mode (put_u32 count) s)
    extractkey (bool_vector_value_type size bound) mode =
        skip_or_apply (bool_vector_value_type size bound) mode (extractkey_bool_vector mode)

    pub extractkey_members : Members → Bool → ExtractKeyMode → Extract
    extractkey_members end all_fields_are_key mode c s = ok (c, s)
    extractkey_members (member vt at is_key rest) all_fields_are_key mode c s = do
      (c', s') ← extract_member (extractkey vt) mode (is_key || all_fields_are_key) c s
      extractkey_members rest all_fields_are_key mode c' s'

-- The test for the byte of the destination's encoding header.
unfoldable pub dst_encoding : Endian → Bool → ℕ
dst_encoding e bswap_dst = if differ (is_little e) bswap_dst then 1 else 0

-- The encoding header of the destination, and `rebase(+4)`.
abbrev pub put_key_header : Endian → Bool → ByteVectorCursor → ByteVectorCursor
put_key_header e bswap_dst s =
    byte_vector_cursor.rebase 4
      (byte_vector_cursor.put_bytes (0 ∷ dst_encoding e bswap_dst ∷ 0 ∷ 0 ∷ []) s)

-- A request's header is passed over by eight bytes.
unfoldable pub skip_header :
    SampleOrKey → SampleOrRequest → DeserializeCursor → Result DeserializeCursor
skip_header SampleOrKey.sample request c = do (bs, c') ← advance 8 c; ok c'
skip_header SampleOrKey.sample message c = ok c
skip_header SampleOrKey.key v c = ok c

abbrev pub mode_of : SampleOrKey → ExtractKeyMode
mode_of SampleOrKey.sample = sample_mode
mode_of SampleOrKey.key = key_mode

-- The part of `extractkey_top_level` behind the test for keys.
unfoldable pub extractkey_body :
    CdrReader → DeserializeCursor → ByteVectorCursor → SampleOrKey → Bool → Result ByteVectorCursor
extractkey_body r c s what bswap_dst = do
  (header, c₁) ← advance 4 c
  (if recognized header
      then (do
        c₂ ← skip_header what r.m_variant (rebase 4 c₁)
        (c₃, s₁) ←
            extractkey r (needs_swap r.native_endian (get_or header 1 0)) bswap_dst
              byte_vector_cursor (struct_value_type r.root_size r.root_members) (mode_of what) c₂
              (put_key_header r.native_endian bswap_dst s)
        ok (byte_vector_cursor.rebase (word - 4) s₁))
      else throw unrecognized_header)

-- `extractkey_top_level`, for the input `cdr`, with what is in the vector behind it.
unfoldable pub extractkey_top_level :
    CdrReader → List ℕ → List ℕ → SampleOrKey → Bool → Result (List ℕ)
extractkey_top_level r dst cdr what bswap_dst = elim (has_keys r.root_members) [
  | false ↦ ok dst
  | true ↦ do
    s ←
        extractkey_body r (record { origin = 0; position = 0; rest = cdr })
          (record { pos = 0; contents = dst }) what bswap_dst
    ok s.contents
]

-- `CDRReader::extractkey` and `CDRReader::extractkey_be`.
unfoldable pub extractkey_native : CdrReader → List ℕ → List ℕ → SampleOrKey → Result (List ℕ)
extractkey_native r dst cdr what = extractkey_top_level r dst cdr what false

unfoldable pub extractkey_be : CdrReader → List ℕ → List ℕ → SampleOrKey → Result (List ℕ)
extractkey_be r dst cdr what = extractkey_top_level r dst cdr what (is_little r.native_endian)
