-- ===== src/Writer.antt =====
-- `CDRWriter` of rmw_cyclonedds_cpp/src/Serialization.cpp, as far as it writes messages. Its size
-- bounds are in Writer/Bound.
pub mod Cdr
pub mod Fast
pub mod Put
pub mod Supported
pub mod Encode
pub mod TopLevel
pub mod Correct
pub mod Bound
pub mod OverReport
use rmw_cyclonedds.Base.{
  ℕ, zero, suc, ◌+◌, ◌-◌, ◌*◌, ◌%◌, ◌^◌, Bool, true, false, ◌||◌, not, List, [], ◌∷◌, ◌++◌, length,
  ◌==◌, if◌then◌else◌, Result, ok, ◌>>=◌,
}
use rmw_cyclonedds.TypeSupport.{
  PrimitiveTypeKind, AnyValueType, primitive_value_type, u8_string_value_type,
  u16_string_value_type, struct_value_type, array_value_type, span_sequence_value_type,
  bool_vector_value_type, Members, end, member, has_keys, sizeof_type, sizeof_primitive,
  cdrsizeof_primitive, cdralignof_primitive,
}
use rmw_cyclonedds.Memory.{Memory, Endian, little, big, bytes, u32_bytes, u16s_bytes, bool_byte}
use rmw_cyclonedds.Cursor.{
  word, WriteCursor, align, SizeCursor, size_cursor, SerializeCursor, serialize_cursor,
}
use rmw_cyclonedds.TriviallySerialized.{
  Cache, make_cache, lookup_trivially_serialized, lookup_many_trivially_serialized,
}

-- `SampleOrKey` and `SampleOrRequest` of Serialization.hpp.
pub data SampleOrKey : Type 0 where
  sample key : SampleOrKey

pub data SampleOrRequest : Type 0 where
  message request : SampleOrRequest

-- `CDRWriter`: the cache, the root type (a struct: its size and members) and the variant, beside the
-- byte order of the machine and the comparison of type pointers.
pub record CdrWriter : Type 0 where
  pub native_endian : Endian
  pub same_type : AnyValueType → AnyValueType → Bool
  pub tsc : Cache
  pub root_size : ℕ
  pub root_members : Members
  pub m_variant : SampleOrRequest

abbrev pub root_value_type : CdrWriter → AnyValueType
root_value_type w = struct_value_type w.root_size w.root_members

-- `what != SampleOrKey::Key || !struct_info.has_keys()`.
unfoldable pub all_fields : SampleOrKey → Members → Bool
all_fields sample ms = true
all_fields key ms = not (has_keys ms)

abbrev pub is_little : Endian → Bool
is_little little = true
is_little big = false

module _ (w : CdrWriter) (m : Memory) {S : Type 0} (c : WriteCursor S) where
  -- `put_rtps_header`: the encoding XCDR1 in the machine's byte order, and no options.
  unfoldable pub put_rtps_header : S → S
  put_rtps_header s = c.put_bytes (0 ∷ (if is_little w.native_endian then 1 else 0) ∷ 0 ∷ 0 ∷ []) s

  -- The assertion that the value fits in 32 bits is left out: the value wraps, as in a release build.
  unfoldable pub serialize_u32 : ℕ → S → S
  serialize_u32 value s = c.put_bytes (u32_bytes w.native_endian (value % 2 ^ 32)) (align c 4 s)

  -- The `switch` of `serialize` for a `PrimitiveValueType`: where the object is larger than its CDR
  -- form on a big-endian machine, the bytes at its end.
  unfoldable pub put_primitive : PrimitiveTypeKind → ℕ → S → S
  put_primitive PrimitiveTypeKind.float src s =
      c.put_bytes (bytes m src (cdrsizeof_primitive PrimitiveTypeKind.float)) s
  put_primitive PrimitiveTypeKind.double src s =
      c.put_bytes (bytes m src (cdrsizeof_primitive PrimitiveTypeKind.double)) s
  put_primitive k src s =
      let n_bytes = cdrsizeof_primitive k in
      if sizeof_primitive k == n_bytes || is_little w.native_endian
      then c.put_bytes (bytes m src n_bytes) s
      else c.put_bytes (bytes m (src + (sizeof_primitive k - n_bytes)) n_bytes) s

  unfoldable pub serialize_primitive : PrimitiveTypeKind → ℕ → S → S
  serialize_primitive k src s = put_primitive k src (align c (cdralignof_primitive k) s)

  unfoldable pub serialize_u8_string : ℕ → S → S
  serialize_u8_string src s =
      let str = m.u8_data src in
      c.put_bytes (0 ∷ []) (c.put_bytes str (serialize_u32 (length str + 1) s))

  unfoldable pub serialize_u16_string : ℕ → S → S
  serialize_u16_string src s =
      let str = m.u16_data src in
      let s' = serialize_u32 (2 * length str) s in
      if c.ignores_data
      then c.advance (2 * length str) s'
      else c.put_bytes (u16s_bytes w.native_endian str) s'

  -- The loop over a `std::vector<bool>`, one byte at a time.
  unfoldable pub put_bools : List Bool → S → S
  put_bools [] s = s
  put_bools (b ∷ bs) s = put_bools bs (c.put_bytes (bool_byte b ∷ []) s)

  unfoldable pub serialize_bool_vector : ℕ → S → S
  serialize_bool_vector src s =
      let bs = m.bool_vector src in
      let s' = serialize_u32 (length bs) s in
      if c.ignores_data then c.advance (length bs) s' else put_bools bs s'

  -- The last loop of `serialize_many`, from element `i` on, with `n` elements to go.
  unfoldable pub serialize_elements : (ℕ → S → Result S) → ℕ → ℕ → ℕ → ℕ → S → Result S
  serialize_elements f size src i zero s = ok s
  serialize_elements f size src i (suc n) s = do
    s' ← f (src + i * size) s
    serialize_elements f size src (i + 1) n s'

  -- The rest of `serialize_many`, after the first element.
  unfoldable pub serialize_rest : (ℕ → S → Result S) → AnyValueType → ℕ → ℕ → ℕ → S → Result S
  serialize_rest f vt size src zero s = ok s
  serialize_rest f vt size src (suc n) s = do
    trivially ← lookup_many_trivially_serialized w.same_type w.tsc (c.offset s) vt
    elim trivially [
      | true ↦ ok (c.put_bytes (bytes m src (suc n * size)) s)
      | false ↦ serialize_elements f size src 0 (suc n) s
    ]

  -- `serialize_many`; `f` is `serialize` at the element type `vt`.
  unfoldable pub serialize_many : (ℕ → S → Result S) → AnyValueType → ℕ → ℕ → S → Result S
  serialize_many f vt zero src s = ok s
  serialize_many f vt (suc n) src s = do
    s' ← f src s
    size ← sizeof_type vt
    serialize_rest f vt size (src + size) n s'

  -- `serialize` for a `const AnyValueType *`; `apply` is its second branch.
  unfoldable pub memcpy_or_apply : AnyValueType → SampleOrKey → ℕ → (S → Result S) → S → Result S
  memcpy_or_apply vt key src apply s = apply s
  memcpy_or_apply vt sample src apply s = do
    trivially ← lookup_trivially_serialized w.same_type w.tsc (c.offset s) vt
    elim trivially [
      | true ↦ do size ← sizeof_type vt; ok (c.put_bytes (bytes m src size) s)
      | false ↦ apply s
    ]

  -- The overloads of `serialize` for the classes of value types, and the loop over the members of a
  -- struct.
  unfoldable mutual
    pub serialize : AnyValueType → SampleOrKey → ℕ → S → Result S
    serialize (primitive_value_type k) what src =
        memcpy_or_apply (primitive_value_type k) what src λ s. ok (serialize_primitive k src s)
    serialize (u8_string_value_type size bound) what src =
        memcpy_or_apply (u8_string_value_type size bound) what src
          λ s. ok (serialize_u8_string src s)
    serialize (u16_string_value_type size bound) what src =
        memcpy_or_apply (u16_string_value_type size bound) what src
          λ s. ok (serialize_u16_string src s)
    serialize (struct_value_type size members) what src =
        memcpy_or_apply (struct_value_type size members) what src
          λ s. serialize_members members (all_fields what members) what src s
    serialize (array_value_type element n) what src =
        memcpy_or_apply (array_value_type element n) what src
          λ s. serialize_many (serialize element what) element n src s
    serialize (span_sequence_value_type size element bound) what src =
        memcpy_or_apply (span_sequence_value_type size element bound) what src λ s.
          serialize_many (serialize element what) element (m.sequence_size src)
            (m.sequence_contents src) (serialize_u32 (m.sequence_size src) s)
    serialize (bool_vector_value_type size bound) what src =
        memcpy_or_apply (bool_vector_value_type size bound) what src
          λ s. ok (serialize_bool_vector src s)

    pub serialize_members : Members → Bool → SampleOrKey → ℕ → S → Result S
    serialize_members end all what struct_src s = ok s
    serialize_members (member vt offset is_key rest) all what struct_src s = elim (all || is_key) [
      | true ↦ do
        s' ← serialize vt what (struct_src + offset) s
        serialize_members rest all what struct_src s'
      | false ↦ serialize_members rest all what struct_src s
    ]

  -- The branch of `serialize_top_level` for a sample: a request is its header (two 8-byte words),
  -- then the message that it points to.
  unfoldable pub serialize_sample : SampleOrRequest → ℕ → S → Result S
  serialize_sample request src s =
      serialize (root_value_type w) sample (m.request_data src)
        (c.put_bytes (bytes m (src + 8) 8) (c.put_bytes (bytes m src 8) s))
  serialize_sample message src s = serialize (root_value_type w) sample src s

  -- Its branch for a key.
  unfoldable pub serialize_key : ℕ → S → Result S
  serialize_key src s = elim (has_keys w.root_members) [
    | true ↦ serialize (root_value_type w) key src s
    | false ↦ ok s
  ]

  -- `rebase(+4)` and `rebase(-4)` stand round the body.
  unfoldable pub serialize_top_level : ℕ → SampleOrKey → S → Result S
  serialize_top_level src sample s = do
    s' ← serialize_sample w.m_variant src (c.rebase 4 (put_rtps_header s))
    ok (c.rebase (word - 4) s')
  serialize_top_level src key s = do
    s' ← serialize_key src (c.rebase 4 (put_rtps_header s))
    ok (c.rebase (word - 4) s')

-- `CDRWriter::serialize(void *, ...)`: what is in the buffer from `dst` on.
unfoldable pub serialize_to : CdrWriter → Memory → ℕ → SampleOrKey → Result (List ℕ)
serialize_to w m src what = do
  s ← serialize_top_level w m serialize_cursor src what (record { origin = 0; written = [] })
  ok s.written

-- The part of `get_serialized_size` that goes over the message.
unfoldable pub count_size : CdrWriter → Memory → ℕ → SampleOrKey → Result ℕ
count_size w m src what = do
  s ← serialize_top_level w m size_cursor src what (record { m_offset = 0 })
  ok s.m_offset

-- `make_cdr_writer` and the constructor of `CDRWriter`, for a root type given by its size and its
-- members. The four bounds on the size that the constructor computes as well are left to
-- `compute_serialized_size_bound`, which divides by zero for an array of two or more structs without
-- members.
unfoldable pub make_cdr_writer :
    Endian → (AnyValueType → AnyValueType → Bool) → ℕ → Members → SampleOrRequest → Result CdrWriter
make_cdr_writer e same size members variant = do
  tsc ← make_cache same (struct_value_type size members)
  ok (record {
    native_endian = e;
    same_type = same;
    tsc = tsc;
    root_size = size;
    root_members = members;
    m_variant = variant;
  })
