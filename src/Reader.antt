-- ===== src/Reader.antt =====
-- `CDRReader` of rmw_cyclonedds_cpp/src/Serialization.cpp, as far as it deserializes. What it does
-- to the destination is the list of its stores, in their order.
pub mod Swap
pub mod Stores
pub mod Cursors
pub mod Pieces
pub mod Decode
pub mod RoundTrip
pub mod Within
pub mod Bounds
pub mod ExtractKey
use rmw_cyclonedds.Base.{
  ℕ, zero, suc, ◌+◌, ◌-◌, ◌*◌, ◌/◌, ◌%◌, ◌^◌, Bool, true, false, ◌||◌, ◌&&◌, not, List, [], ◌∷◌,
  ◌++◌, map, length, take, drop, get_or, ltb, ◌==◌, if◌then◌else◌, Result, ok, throw, read_past_end,
  truncated_input, unrecognized_header, size_0_string, unterminated_string, odd_wstring, ◌>>=◌,
}
use mathlib.Core.List.{reverse}
use rmw_cyclonedds.TypeSupport.{
  PrimitiveTypeKind, AnyValueType, primitive_value_type, u8_string_value_type,
  u16_string_value_type, struct_value_type, array_value_type, span_sequence_value_type,
  bool_vector_value_type, Members, end, member, has_keys, sizeof_type, cdrsizeof_primitive,
}
use rmw_cyclonedds.Memory.{Endian, little, big, u32_value, u16s_value}
use rmw_cyclonedds.Cursor.{word}
use rmw_cyclonedds.TriviallySerialized.{
  Cache, make_cache, lookup_trivially_serialized, lookup_many_trivially_serialized,
}
use rmw_cyclonedds.Writer.{
  SampleOrKey, sample, key, SampleOrRequest, message, request, all_fields, is_little,
}

-- `bswap<uint16_t>`, `bswap<uint32_t>` and `bswap<uint64_t>`. A mask and a shift take one byte of
-- the number to its place; the places are different, so `|` is the sum.
pub bswap16 : ℕ → ℕ
bswap16 u = u / 2 ^ 8 + u * 2 ^ 8 % 2 ^ 16

pub bswap32 : ℕ → ℕ
bswap32 u =
    u / 2 ^ 24 + u / 2 ^ 16 % 2 ^ 8 * 2 ^ 8 + u / 2 ^ 8 % 2 ^ 8 * 2 ^ 16 + u * 2 ^ 24 % 2 ^ 32

pub bswap64 : ℕ → ℕ
bswap64 u =
    u / 2 ^ 56
    + u / 2 ^ 48 % 2 ^ 8 * 2 ^ 8
    + u / 2 ^ 40 % 2 ^ 8 * 2 ^ 16
    + u / 2 ^ 32 % 2 ^ 8 * 2 ^ 24
    + u / 2 ^ 24 % 2 ^ 8 * 2 ^ 32
    + u / 2 ^ 16 % 2 ^ 8 * 2 ^ 40
    + u / 2 ^ 8 % 2 ^ 8 * 2 ^ 48
    + u * 2 ^ 56 % 2 ^ 64

-- `bswapN`, as what `bswap` does to the bytes of a number in memory, where `swap` holds.
unfoldable pub swap_bytes : Bool → List ℕ → List ℕ
swap_bytes true bs = reverse bs
swap_bytes false bs = bs

-- The byte at an index of a buffer, and the first bytes of one.
unfoldable pub byte_at : List ℕ → ℕ → Result ℕ
byte_at [] i = throw read_past_end
byte_at (b ∷ bs) zero = ok b
byte_at (b ∷ bs) (suc i) = byte_at bs i

unfoldable pub first_bytes : ℕ → List ℕ → Result (List ℕ)
first_bytes n bs = if ltb (length bs) n then throw read_past_end else ok (take n bs)

-- `DeserializeCursor`. `rest` is the input from `position` to `end`; `origin` and `position` are
-- counted from the start of the input.
pub record DeserializeCursor : Type 0 where
  pub origin : ℕ
  pub position : ℕ
  pub rest : List ℕ

unfoldable pub offset : DeserializeCursor → ℕ
offset c = (c.position + word - c.origin % word) % word

-- `advance` returns the pointer to the bytes that it passes.
unfoldable pub advance : ℕ → DeserializeCursor → Result (List ℕ × DeserializeCursor)
advance n_bytes c =
    if ltb (length c.rest) n_bytes
    then throw truncated_input
    else ok (
      take n_bytes c.rest,
      record c { position = c.position + n_bytes; rest = drop n_bytes c.rest },
    )

unfoldable pub rebase : ℕ → DeserializeCursor → DeserializeCursor
rebase r c = record c { origin = (c.origin + r) % word }

unfoldable pub align_read : ℕ → DeserializeCursor → Result DeserializeCursor
align_read n_bytes c =
    if n_bytes == 1 || offset c % n_bytes == 0
    then ok c
    else (do (skipped, c') ← advance (n_bytes - offset c % n_bytes) c; ok c')

-- A store to the destination: a byte at an address, or a call of the container at an address.
pub data Store : Type 0 where
  store_byte : ℕ → ℕ → Store
  assign_u8 : ℕ → List ℕ → Store
  assign_u16 : ℕ → List ℕ → Store
  assign_bools : ℕ → List Bool → Store
  resize : ℕ → ℕ → Store

-- `memcpy` to an address.
unfoldable pub store_bytes : ℕ → List ℕ → List Store
store_bytes dst [] = []
store_bytes dst (b ∷ bs) = store_byte dst b ∷ store_bytes (dst + 1) bs

abbrev pub Read : Type 0
Read = DeserializeCursor → Result (DeserializeCursor × List Store)

-- One step behind another.
infixl 6 ◌>>>◌
unfoldable pub ◌>>>◌ : Read → Read → Read
◌>>>◌ f g c = do (c', stores) ← f c; (c'', more) ← g c'; ok (c'', stores ++ more)

-- `CDRReader`. `contents` is where `sequence_contents` points after a sequence object has been
-- resized, and `request_data` is the pointer in a request wrapper.
pub record CdrReader : Type 0 where
  pub native_endian : Endian
  pub same_type : AnyValueType → AnyValueType → Bool
  pub tsc : Cache
  pub root_size : ℕ
  pub root_members : Members
  pub m_variant : SampleOrRequest
  pub contents : ℕ → ℕ
  pub request_data : ℕ → ℕ

module _ (r : CdrReader) (bswap_src : Bool) where
  -- `get_bytes`, and `bswapN` where `swap` holds.
  unfoldable pub get_bytes : Bool → ℕ → ℕ → Read
  get_bytes swap n dst c = do (bs, c') ← advance n c; ok (c', store_bytes dst (swap_bytes swap bs))

  unfoldable pub deserialize_primitive : ℕ → ℕ → Read
  deserialize_primitive n dst c = do c' ← align_read n c; get_bytes bswap_src n dst c'

  unfoldable pub deserialize_u32 : DeserializeCursor → Result (ℕ × DeserializeCursor)
  deserialize_u32 c = do
    c' ← align_read 4 c
    (bs, c'') ← advance 4 c'
    ok (u32_value r.native_endian (swap_bytes bswap_src bs), c'')

  unfoldable pub u8_string_body : ℕ → ℕ → Read
  u8_string_body dst size c = if size == 0 then throw size_0_string else (do
    (bs, c') ← advance size c
    last ← byte_at bs (size - 1)
    (if last == 0
        then (do s ← first_bytes (size - 1) bs; ok (c', assign_u8 dst s ∷ []))
        else throw unterminated_string))

  unfoldable pub deserialize_u8_string : ℕ → Read
  deserialize_u8_string dst c = do (size, c') ← deserialize_u32 c; u8_string_body dst size c'

  -- The code units of a string, each swapped in place after `assign` where `bswap_src` holds.
  unfoldable pub u16_units : List ℕ → List ℕ
  u16_units bs =
      if bswap_src
      then map bswap16 (u16s_value r.native_endian bs)
      else u16s_value r.native_endian bs

  unfoldable pub u16_string_body : ℕ → ℕ → Read
  u16_string_body dst size c =
      if size % 2 == 0
      then (do (bs, c') ← advance size c; ok (c', assign_u16 dst (u16_units bs) ∷ []))
      else throw odd_wstring

  unfoldable pub deserialize_u16_string : ℕ → Read
  deserialize_u16_string dst c = do (size, c') ← deserialize_u32 c; u16_string_body dst size c'

  unfoldable pub deserialize_bool_vector : ℕ → Read
  deserialize_bool_vector dst c = do
    (count, c') ← deserialize_u32 c
    (bs, c'') ← advance count c'
    ok (c'', assign_bools dst (map (λ b. not (b == 0)) bs) ∷ [])

  -- The last loop of `deserialize_many`, from element `i` on, with `n` elements to go.
  unfoldable pub deserialize_elements : (ℕ → Read) → ℕ → ℕ → ℕ → ℕ → Read
  deserialize_elements f size dst i zero c = ok (c, [])
  deserialize_elements f size dst i (suc n) c =
      (f (dst + i * size) >>> deserialize_elements f size dst (i + 1) n) c

  -- The `if` of `deserialize_many`; the cache is not asked where bytes are swapped.
  unfoldable pub deserialize_block : (ℕ → Read) → AnyValueType → ℕ → ℕ → ℕ → Read
  deserialize_block f vt size dst n c = do
    trivially ← elim bswap_src [
      | true ↦ ok false
      | false ↦ lookup_many_trivially_serialized r.same_type r.tsc (offset c) vt
    ]
    elim trivially [
      | true ↦ get_bytes false (n * size) dst c
      | false ↦ deserialize_elements f size dst 0 n c
    ]

  unfoldable pub deserialize_rest : (ℕ → Read) → AnyValueType → ℕ → ℕ → Read
  deserialize_rest f vt dst zero c = ok (c, [])
  deserialize_rest f vt dst (suc n) c = do
    size ← sizeof_type vt
    deserialize_block f vt size (dst + size) (suc n) c

  -- `deserialize_many`; `f` is `deserialize` at the element type `vt`.
  unfoldable pub deserialize_many : (ℕ → Read) → AnyValueType → ℕ → ℕ → Read
  deserialize_many f vt dst zero c = ok (c, [])
  deserialize_many f vt dst (suc n) c = (f dst >>> deserialize_rest f vt dst n) c

  -- `deserialize` for a `const AnyValueType *`; `apply` is its second branch.
  unfoldable pub copy_or_apply : AnyValueType → SampleOrKey → ℕ → Read → Read
  copy_or_apply vt key dst apply c = apply c
  copy_or_apply vt sample dst apply c = do
    trivially ← elim bswap_src [
      | true ↦ ok false
      | false ↦ lookup_trivially_serialized r.same_type r.tsc (offset c) vt
    ]
    elim trivially [ true ↦ do size ← sizeof_type vt; get_bytes false size dst c | false ↦ apply c ]

  unfoldable pub resize_to : ℕ → ℕ → Read
  resize_to dst count c = ok (c, resize dst count ∷ [])

  -- The overloads of `deserialize` for the classes of value types, and the loop over the members of
  -- a struct.
  unfoldable mutual
    pub deserialize : AnyValueType → SampleOrKey → ℕ → Read
    deserialize (primitive_value_type k) what dst =
        copy_or_apply (primitive_value_type k) what dst
          (deserialize_primitive (cdrsizeof_primitive k) dst)
    deserialize (u8_string_value_type size bound) what dst =
        copy_or_apply (u8_string_value_type size bound) what dst (deserialize_u8_string dst)
    deserialize (u16_string_value_type size bound) what dst =
        copy_or_apply (u16_string_value_type size bound) what dst (deserialize_u16_string dst)
    deserialize (struct_value_type size members) what dst =
        copy_or_apply (struct_value_type size members) what dst
          (deserialize_members members (all_fields what members) what dst)
    deserialize (array_value_type element n) what dst =
        copy_or_apply (array_value_type element n) what dst
          (deserialize_many (deserialize element what) element dst n)
    deserialize (span_sequence_value_type size element bound) what dst =
        copy_or_apply (span_sequence_value_type size element bound) what dst λ c. do
          (count, c') ← deserialize_u32 c
          (resize_to dst count
                >>> deserialize_many (deserialize element what) element (r.contents dst) count)
              c'
    deserialize (bool_vector_value_type size bound) what dst =
        copy_or_apply (bool_vector_value_type size bound) what dst (deserialize_bool_vector dst)

    pub deserialize_members : Members → Bool → SampleOrKey → ℕ → Read
    deserialize_members end all what struct_dst c = ok (c, [])
    deserialize_members (member vt member_offset is_key rest) all what struct_dst c =
        elim (all || is_key) [
          | true ↦
              (deserialize vt what (struct_dst + member_offset)
                  >>> deserialize_members rest all what struct_dst)
                c
          | false ↦ deserialize_members rest all what struct_dst c
        ]

-- Whether the bytes of the input are to be swapped: the test of `deserialize_top_level`, on the
-- second byte of the encoding header.
unfoldable pub needs_swap : Endian → ℕ → Bool
needs_swap little encoding = encoding == 0
needs_swap big encoding = not (encoding == 0)

-- The destination of a sample: for a request its header is filled in, then the message that it
-- points to. `bswap(&request->header.guid)` is `bswap<uint64_t>`, but `seq` is an `int64_t`, for
-- which `bswap` is the template that does nothing. The source swaps once both are read.
unfoldable pub deserialize_sample : CdrReader → Bool → SampleOrRequest → ℕ → Read
deserialize_sample r bswap_src message dst =
    deserialize r bswap_src (struct_value_type r.root_size r.root_members) sample dst
deserialize_sample r bswap_src request dst =
    get_bytes r bswap_src bswap_src 8 dst
    >>> (get_bytes r bswap_src false 8 (dst + 8)
        >>> deserialize r bswap_src (struct_value_type r.root_size r.root_members) sample
            (r.request_data dst))

unfoldable pub deserialize_what : CdrReader → Bool → SampleOrKey → ℕ → Read
deserialize_what r bswap_src sample dst c = deserialize_sample r bswap_src r.m_variant dst c
deserialize_what r bswap_src key dst c = elim (has_keys r.root_members) [
  | true ↦ deserialize r bswap_src (struct_value_type r.root_size r.root_members) key dst c
  | false ↦ ok (c, [])
]

-- The test of the encoding header: only CDR_BE and CDR_LE are taken.
unfoldable pub recognized : List ℕ → Bool
recognized header = get_or header 0 0 == 0 && not (ltb 1 (get_or header 1 0))

-- `deserialize_top_level`.
unfoldable pub deserialize_top_level : CdrReader → ℕ → SampleOrKey → Read
deserialize_top_level r dst what c = do
  (header, c') ← advance 4 c
  (if recognized header
      then (do
        (c'', stores) ←
            deserialize_what r (needs_swap r.native_endian (get_or header 1 0)) what dst
              (rebase 4 c')
        ok (rebase (word - 4) c'', stores))
      else throw unrecognized_header)

-- `CDRReader::deserialize`: the stores that it makes. For a key of a type that has none it does
-- nothing.
unfoldable pub deserialize_from : CdrReader → ℕ → List ℕ → SampleOrKey → Result (List Store)
deserialize_from r dst cdr what =
    let run = (do
      (c, stores) ←
          deserialize_top_level r dst what (record { origin = 0; position = 0; rest = cdr })
      ok stores) in
    elim what [ sample ↦ run | key ↦ elim (has_keys r.root_members) [ true ↦ run | false ↦ ok [] ] ]

-- `make_cdr_reader` and the constructor of `CDRReader`.
unfoldable pub make_cdr_reader :
    Endian
    → (AnyValueType → AnyValueType → Bool)
    → ℕ
    → Members
    → SampleOrRequest
    → (ℕ → ℕ)
    → (ℕ → ℕ)
    → Result CdrReader
make_cdr_reader e same size members variant contents request_data = do
  tsc ← make_cache same (struct_value_type size members)
  ok (record {
    native_endian = e;
    same_type = same;
    tsc = tsc;
    root_size = size;
    root_members = members;
    m_variant = variant;
    contents = contents;
    request_data = request_data;
  })
