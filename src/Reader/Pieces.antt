-- ===== src/Reader/Pieces.antt =====
-- The parts of a value, as `CDRReader` reads them from the CDR form that a writer made on a machine
-- of either byte order.
use rmw_cyclonedds.Base.{
  ok, ltb, ℕ, ◌+◌, ◌-◌, ◌*◌, ◌/◌, ◌%◌, ◌^◌, ◌<◌, ◌≡◌, refl, ap, arith, Bool, true, false, not, List,
  [], ◌∷◌, ◌++◌, length, map, length-append, length-map, append_assoc, ◌==◌, if◌then◌else◌,
}
use rmw_cyclonedds.TypeSupport.{PrimitiveTypeKind, cdrsizeof_primitive}
use rmw_cyclonedds.Memory.{
  Memory, Endian, little, big, bytes, length-bytes, u16_bytes, u32_bytes, length-u32_bytes,
  u16s_bytes, length-u16s_bytes, u32_value, u16s_value, bool_byte,
}
use rmw_cyclonedds.Writer.Cdr.{padding, cdr_u32}
use rmw_cyclonedds.Writer.{is_little}
use rmw_cyclonedds.Reader.{
  byte_at, first_bytes, CdrReader, bswap16, swap_bytes, needs_swap, offset, store_bytes, assign_u8,
  assign_u16, assign_bools, deserialize_primitive, get_bytes, deserialize_u32, u8_string_body,
  deserialize_u8_string, u16_units, u16_string_body, deserialize_u16_string,
  deserialize_bool_vector,
}
use rmw_cyclonedds.Reader.Cursors.{
  at_position, phase, Reads, Gives, give_then, advance-front, align_read-padding, take_front,
}
use rmw_cyclonedds.Reader.Stores.{Are16Bit}

-- The byte of the encoding header that names a byte order.
abbrev pub encoding : Endian → ℕ
encoding e = if is_little e then 1 else 0

u32_value-swap :
    (n e : Endian) (v : ℕ)
    → v < 2 ^ 32
    → u32_value n (swap_bytes (needs_swap n (encoding e)) (u32_bytes e v)) ≡ v
unfolding u32_value swap_bytes needs_swap u32_bytes
u32_value-swap little little v h = omega arith
u32_value-swap little big v h = omega arith
u32_value-swap big little v h = omega arith
u32_value-swap big big v h = omega arith

byte_parts : (u : ℕ) → u < 2 ^ 16 → u % 256 + 256 * (u / 256 % 256) ≡ u
byte_parts u h = omega arith

swapped_parts : (u : ℕ) → u < 2 ^ 16 → bswap16 (u / 256 % 256 + 256 * (u % 256)) ≡ u
unfolding bswap16
swapped_parts u h = omega arith

u16s_value-same : (e : Endian) (us : List ℕ) → Are16Bit us → u16s_value e (u16s_bytes e us) ≡ us
unfolding u16s_value u16s_bytes u16_bytes Are16Bit
u16s_value-same little [] h = refl
u16s_value-same big [] h = refl
u16s_value-same little (u ∷ us) h =
    rw (u16s_value-same little us h.1) (ap (λ v. v ∷ us) (byte_parts u h.0))
u16s_value-same big (u ∷ us) h =
    rw (u16s_value-same big us h.1) (ap (λ v. v ∷ us) (byte_parts u h.0))

pub u16s_value-little :
    (us : List ℕ) → Are16Bit us → map bswap16 (u16s_value little (u16s_bytes big us)) ≡ us
unfolding u16s_value u16s_bytes u16_bytes Are16Bit
u16s_value-little [] h = refl
u16s_value-little (u ∷ us) h =
    rw (u16s_value-little us h.1) (ap (λ v. v ∷ us) (swapped_parts u h.0))

pub u16s_value-big :
    (us : List ℕ) → Are16Bit us → map bswap16 (u16s_value big (u16s_bytes little us)) ≡ us
unfolding u16s_value u16s_bytes u16_bytes Are16Bit
u16s_value-big [] h = refl
u16s_value-big (u ∷ us) h = rw (u16s_value-big us h.1) (ap (λ v. v ∷ us) (swapped_parts u h.0))

units_lem :
    (n e : Endian) (us : List ℕ)
    → Are16Bit us
    → (if needs_swap n (encoding e)
        then map bswap16 (u16s_value n (u16s_bytes e us))
        else u16s_value n (u16s_bytes e us))
      ≡ us
unfolding needs_swap
units_lem little little us h = u16s_value-same little us h
units_lem little big us h = u16s_value-little us h
units_lem big little us h = u16s_value-big us h
units_lem big big us h = u16s_value-same big us h

pub last_unit : (xs : List ℕ) → byte_at (xs ++ (0 ∷ [])) (length xs) ≡ ok 0
unfolding byte_at
last_unit [] = refl
last_unit (x ∷ xs) = last_unit xs

all_but_last : (xs : List ℕ) → first_bytes (length xs) (xs ++ (0 ∷ [])) ≡ ok xs
unfolding first_bytes
all_but_last xs =
    let longer : ltb (length (xs ++ (0 ∷ []))) (length xs) ≡ false =
      rw (length-append xs (0 ∷ [])) (ground arith) in
    rw (longer, take_front xs (0 ∷ [])) refl

pub terminated : (s : List ℕ) → length s + 1 - 1 ≡ length s
terminated s = omega arith

pub not_empty : (n : ℕ) → (n + 1 == 0) ≡ false
not_empty n = ground arith

pub with_terminator : (s : List ℕ) → length (s ++ (0 ∷ [])) ≡ length s + 1
with_terminator s = length-append s (0 ∷ [])

pub even : (n : ℕ) → (2 * n % 2 == 0) ≡ true
even n = ground arith

bools : (bs : List Bool) → map (λ b. not (b == 0)) (map bool_byte bs) ≡ bs
bools [] = refl
bools (false ∷ bs) = ap (λ cs. false ∷ cs) (bools bs)
bools (true ∷ bs) = ap (λ cs. true ∷ cs) (bools bs)

pub further : (pos : ℕ) (xs ys : List ℕ) → pos + length xs + length ys ≡ pos + length (xs ++ ys)
further pos xs ys = omega (arith, length-append xs ys)

pub aligned :
    (k : PrimitiveTypeKind) (o pos : ℕ)
    → phase o pos % cdrsizeof_primitive k ≡ offset (at_position o pos []) % cdrsizeof_primitive k
unfolding cdrsizeof_primitive offset
aligned PrimitiveTypeKind.float o pos = omega arith
aligned _ o pos = omega arith

pub some_bytes : (k : PrimitiveTypeKind) → 0 < cdrsizeof_primitive k
unfolding cdrsizeof_primitive
some_bytes PrimitiveTypeKind.float = omega arith
some_bytes _ = omega arith

module _ (r : CdrReader) (m : Memory) (e : Endian) (sw : Bool)
    (agrees : sw ≡ needs_swap r.native_endian (encoding e)) where
  u32_read : (v : ℕ) → v < 2 ^ 32 → u32_value r.native_endian (swap_bytes sw (u32_bytes e v)) ≡ v
  u32_read v h = rw agrees (u32_value-swap r.native_endian e v h)

  pub deserialize_u32-Gives :
      (o pos v : ℕ)
      → v < 2 ^ 32
      → Gives o pos (cdr_u32 e m (phase o pos) v) v (deserialize_u32 r sw)
  unfolding deserialize_u32 cdr_u32 offset
  deserialize_u32-Gives o pos v h rest =
      let gap = padding (phase o pos) 4 in
      rw
        (
          append_assoc gap (u32_bytes e v) rest,
          align_read-padding 4 o pos (u32_bytes e v ++ rest) (omega arith) (omega arith),
          advance-front 4 o (pos + length gap) (u32_bytes e v) rest (length-u32_bytes e v),
          u32_read v h,
          ← further pos gap (u32_bytes e v),
          length-u32_bytes e v,
        )
        refl

  pub deserialize_primitive-Reads :
      (k : PrimitiveTypeKind) (src dst o pos : ℕ)
      → Reads o pos
          (padding (phase o pos) (cdrsizeof_primitive k) ++ bytes m src (cdrsizeof_primitive k))
          (store_bytes dst (swap_bytes sw (bytes m src (cdrsizeof_primitive k))))
          (deserialize_primitive r sw (cdrsizeof_primitive k) dst)
  unfolding deserialize_primitive get_bytes
  deserialize_primitive-Reads k src dst o pos rest =
      let n = cdrsizeof_primitive k in
      let gap = padding (phase o pos) n in
      let xs = bytes m src n in
      rw
        (
          append_assoc gap xs rest,
          align_read-padding n o pos (xs ++ rest) (some_bytes k) (aligned k o pos),
          advance-front n o (pos + length gap) xs rest (length-bytes m src n),
          ← further pos gap xs,
          length-bytes m src n,
        )
        refl

  u8_string_body-Reads :
      (s : List ℕ) (dst o pos : ℕ)
      → Reads o pos (s ++ (0 ∷ [])) (assign_u8 dst s ∷ []) (u8_string_body r sw dst (length s + 1))
  unfolding u8_string_body
  u8_string_body-Reads s dst o pos rest =
      rw
        (
          not_empty (length s),
          advance-front (length s + 1) o pos (s ++ (0 ∷ [])) rest (with_terminator s),
          terminated s,
          last_unit s,
          all_but_last s,
          with_terminator s,
        )
        refl

  pub deserialize_u8_string-Reads :
      (src dst o pos : ℕ)
      → length (m.u8_data src) + 1 < 2 ^ 32
      → Reads o pos
          (cdr_u32 e m (phase o pos) (length (m.u8_data src) + 1) ++ (m.u8_data src ++ (0 ∷ [])))
          (assign_u8 dst (m.u8_data src) ∷ [])
          (deserialize_u8_string r sw dst)
  unfolding deserialize_u8_string
  deserialize_u8_string-Reads src dst o pos h =
      let n = length (m.u8_data src) + 1 in
      give_then o pos _ _ n _ (deserialize_u32 r sw) (u8_string_body r sw dst)
        (deserialize_u32-Gives o pos n h) (u8_string_body-Reads (m.u8_data src) dst o _)

  u16_string_body-Reads :
      (s : List ℕ) (dst o pos : ℕ)
      → Are16Bit s
      → Reads o pos
          (u16s_bytes e s)
          (assign_u16 dst s ∷ [])
          (u16_string_body r sw dst (2 * length s))
  unfolding u16_string_body u16_units
  u16_string_body-Reads s dst o pos h rest =
      rw
        (
          even (length s),
          advance-front (2 * length s) o pos (u16s_bytes e s) rest (length-u16s_bytes e s),
          agrees,
          units_lem r.native_endian e s h,
          length-u16s_bytes e s,
        )
        refl

  pub deserialize_u16_string-Reads :
      (src dst o pos : ℕ)
      → 2 * length (m.u16_data src) < 2 ^ 32
      → Are16Bit (m.u16_data src)
      → Reads o pos
          (cdr_u32 e m (phase o pos) (2 * length (m.u16_data src)) ++ u16s_bytes e (m.u16_data src))
          (assign_u16 dst (m.u16_data src) ∷ [])
          (deserialize_u16_string r sw dst)
  unfolding deserialize_u16_string
  deserialize_u16_string-Reads src dst o pos h units =
      let n = 2 * length (m.u16_data src) in
      give_then o pos _ _ n _ (deserialize_u32 r sw) (u16_string_body r sw dst)
        (deserialize_u32-Gives o pos n h) (u16_string_body-Reads (m.u16_data src) dst o _ units)

  pub deserialize_bool_vector-Reads :
      (src dst o pos : ℕ)
      → length (m.bool_vector src) < 2 ^ 32
      → Reads o pos
          (cdr_u32 e m (phase o pos) (length (m.bool_vector src))
            ++ map bool_byte (m.bool_vector src))
          (assign_bools dst (m.bool_vector src) ∷ [])
          (deserialize_bool_vector r sw dst)
  unfolding deserialize_bool_vector
  deserialize_bool_vector-Reads src dst o pos h =
      let bs = m.bool_vector src in
      give_then o pos _ _ (length bs) _ (deserialize_u32 r sw) _
        (deserialize_u32-Gives o pos (length bs) h)
        (λ rest.
          rw
            (
              advance-front (length bs) o _ (map bool_byte bs) rest (length-map bs bool_byte),
              bools bs,
              length-map bs bool_byte,
            )
            refl)
