-- ===== src/Reader/ExtractKey/WideStrings.antt =====
-- `extractkey` of Serialization.cpp on wide strings that belong to the key.
use rmw_cyclonedds.Base.{
  ℕ, ◌+◌, ◌*◌, ◌^◌, ◌<◌, ◌≡◌, refl, Bool, List, ◌++◌, length, map, if◌then◌else◌, ok,
}
use rmw_cyclonedds.Memory.{
  Memory, Endian, little, big, u32_bytes, u16s_bytes, length-u16s_bytes, u16s_value,
}
use rmw_cyclonedds.Cursor.{WriteCursor, align}
use rmw_cyclonedds.Writer.Cdr.{cdr_u32}
use rmw_cyclonedds.Reader.{CdrReader, bswap16, swap_bytes, needs_swap}
use rmw_cyclonedds.Reader.Cursors.{at_position, phase, advance-front}
use rmw_cyclonedds.Reader.Stores.{Are16Bit}
use rmw_cyclonedds.Reader.Pieces.{
  encoding, deserialize_u32-Gives, even, u16s_value-little, u16s_value-big,
}
use rmw_cyclonedds.Reader.ExtractKey.{
  key_mode, unless_skip, put_u32, extracted_units, extract_u16_body, extractkey_u16_string,
}

extracted_lem :
    (n e : Endian) (us : List ℕ)
    → Are16Bit us
    → (if needs_swap n (encoding e)
        then u16s_bytes n (map bswap16 (u16s_value n (u16s_bytes e us)))
        else u16s_bytes e us)
      ≡ u16s_bytes n us
unfolding needs_swap
extracted_lem little little us h = refl
extracted_lem little big us h = rw (u16s_value-little us h) refl
extracted_lem big little us h = rw (u16s_value-big us h) refl
extracted_lem big big us h = refl

-- For a wide string of the key, from a sender of either byte order: what `extractkey` puts is the
-- length in the byte order that is asked for, but the code units always in the byte order of the
-- machine.
pub extractkey_u16_string-native :
    (r : CdrReader) (m : Memory) (e : Endian) (bswap_dst : Bool) {S : Type 0} (w : WriteCursor S)
    (us : List ℕ)
    → 2 * length us < 2 ^ 32
    → Are16Bit us
    → (o pos : ℕ) (rest : List ℕ) (s : S)
    → extractkey_u16_string r
        (needs_swap r.native_endian (encoding e))
        bswap_dst
        w
        key_mode
        (at_position o pos (cdr_u32 e m (phase o pos) (2 * length us) ++ (u16s_bytes e us ++ rest)))
        s
      ≡ ok (
        at_position o
            (pos + length (cdr_u32 e m (phase o pos) (2 * length us)) + 2 * length us)
            rest,
        w.put_bytes (u16s_bytes r.native_endian us) (
            w.put_bytes
              (swap_bytes bswap_dst (u32_bytes r.native_endian (2 * length us)))
              (align w 4 s)),
      )
unfolding extractkey_u16_string extract_u16_body unless_skip put_u32 extracted_units
extractkey_u16_string-native r m e bswap_dst w us short units o pos rest s =
    let size = cdr_u32 e m (phase o pos) (2 * length us) in
    rw
      (
        deserialize_u32-Gives r m e (needs_swap r.native_endian (encoding e)) refl o pos
            (2 * length us) short (u16s_bytes e us ++ rest),
        even (length us),
        advance-front (2 * length us) o (pos + length size) (u16s_bytes e us) rest
            (length-u16s_bytes e us),
        extracted_lem r.native_endian e us units,
      )
      refl
