-- ===== src/Runs/ReaderClaims.antt =====
-- The theorems about the reader at concrete inputs.
use rmw_cyclonedds.Base.{◌+◌, ℕ, ◌≡◌, refl, true, false, List, [], ◌∷◌, length, ◌++◌, ok, arith}
use rmw_cyclonedds.TypeSupport.{
  PrimitiveTypeKind, AnyValueType, primitive_value_type, u8_string_value_type, struct_value_type,
  sizeof_type,
}
use rmw_cyclonedds.Cursor.{ByteVectorCursor, byte_vector_cursor}
use rmw_cyclonedds.TriviallySerialized.{Cache, make_cache}
use rmw_cyclonedds.TriviallySerialized.Covers.{Covers}
use rmw_cyclonedds.TriviallySerialized.Register.{make_cache-Covers}
use rmw_cyclonedds.Writer.Cdr.{cdr}
use rmw_cyclonedds.Reader.Cursors.{at_position, phase}
use rmw_cyclonedds.Reader.ExtractKey.{skip_mode, extractkey}
use rmw_cyclonedds.Reader.ExtractKey.Skip.{extractkey-skip_mode}
use rmw_cyclonedds.Memory.{little, big, bytes}
use rmw_cyclonedds.TriviallySerialized.Dense.{size_of}
use rmw_cyclonedds.Writer.{CdrWriter, sample, message, request, make_cdr_writer, serialize_to}
use rmw_cyclonedds.Writer.Supported.{IsSupported}
use rmw_cyclonedds.Reader.{
  DeserializeCursor, deserialize, CdrReader, store_bytes, swap_bytes, needs_swap, make_cdr_reader,
  deserialize_from,
}
use rmw_cyclonedds.Reader.Stores.{Fits, FitMembers, AllAt, stored}
use rmw_cyclonedds.Reader.Within.{Holds, Within}
use rmw_cyclonedds.Reader.Bounds.{deserialize-Within}
use rmw_cyclonedds.Reader.ExtractKey.{key_mode, extractkey_u16_string}
use rmw_cyclonedds.Reader.ExtractKey.WideStrings.{extractkey_u16_string-native}
use rmw_cyclonedds.Reader.Stores.{Are16Bit}
use rmw_cyclonedds.Writer.Cdr.{cdr_u32}
use rmw_cyclonedds.Memory.{u16s_bytes, u32_bytes}
use rmw_cyclonedds.Cursor.{align}
use rmw_cyclonedds.Reader.RoundTrip.{deserialize-serialize, deserialize-serialize_request}
use rmw_cyclonedds.Runs.Samples.{members, memory, same_type, same_type_sound, same_type_refl}

supported : IsSupported (struct_value_type 48 members)
unfolding IsSupported sizeof_type size_of
supported = (tt, (tt, (tt, ((refl, tt), tt))))

fits : (src : ℕ) → Fits memory (struct_value_type 48 members) src
unfolding Fits FitMembers AllAt
fits src = (tt, (tt, (omega arith, ((tt, (tt, (tt, tt))), tt))))

abbrev nowhere : ℕ → ℕ
nowhere a = 0

deserialize-serialize_example :
    (w : CdrWriter) × (r : CdrReader) × (bs : List ℕ) × (make_cdr_writer little same_type 48 members
        message
      ≡ ok w)
    × (make_cdr_reader big same_type 48 members message nowhere nowhere ≡ ok r)
    × (serialize_to w memory 0 sample ≡ ok bs)
    × (deserialize_from r 1000 bs sample
        ≡ ok (stored memory nowhere true (struct_value_type 48 members) 0 1000))
unfolding needs_swap
deserialize-serialize_example =
    deserialize-serialize same_type same_type_sound same_type_refl little big 48 members nowhere
      nowhere supported memory 0 1000 (fits 0)

deserialize-serialize_request_example :
    (w : CdrWriter) × (r : CdrReader) × (bs : List ℕ) × (make_cdr_writer little same_type 48 members
        request
      ≡ ok w)
    × (make_cdr_reader big same_type 48 members request nowhere nowhere ≡ ok r)
    × (serialize_to w memory 100 sample ≡ ok bs)
    × (deserialize_from r 1000 bs sample
        ≡ ok (
            store_bytes 1000 (swap_bytes true (bytes memory 100 8))
            ++ (store_bytes 1008 (bytes memory 108 8)
                ++ stored memory nowhere true (struct_value_type 48 members) 0 0)))
unfolding needs_swap
deserialize-serialize_request_example =
    deserialize-serialize_request same_type same_type_sound same_type_refl little big 48 members
      nowhere nowhere supported memory 100 1000 (fits 0)

abbrev uint32 : AnyValueType
uint32 = primitive_value_type PrimitiveTypeKind.uint32

IsSupported-uint32 : IsSupported uint32
unfolding IsSupported
IsSupported-uint32 = tt

Fits-uint32 : Fits memory uint32 7
unfolding Fits
Fits-uint32 = tt

-- The cache that is filled for the type.
cached : (c : Cache) × (make_cache same_type uint32 ≡ ok c) × Covers same_type c uint32
cached = make_cache-Covers same_type same_type_sound same_type_refl uint32

abbrev reader : CdrReader
reader = record {
  native_endian = little;
  same_type = same_type;
  tsc = cached.0;
  root_size = 48;
  root_members = members;
  m_variant = message;
  contents = nowhere;
  request_data = nowhere;
}

abbrev empty_vector : ByteVectorCursor
empty_vector = record { pos = 0; contents = [] }

extractkey-skip_mode_example :
    extractkey reader false true byte_vector_cursor uint32 skip_mode
      (at_position 4 9 (cdr little memory uint32 (phase 4 9) 7 ++ (1 ∷ 2 ∷ [])))
      empty_vector
    ≡ ok (
      at_position 4 (9 + length (cdr little memory uint32 (phase 4 9) 7)) (1 ∷ 2 ∷ []),
      empty_vector,
    )
unfolding needs_swap
extractkey-skip_mode_example =
    extractkey-skip_mode reader memory little true byte_vector_cursor uint32 IsSupported-uint32
      cached.2 7 4 9 (1 ∷ 2 ∷ []) empty_vector Fits-uint32

-- A string of five characters that ends after one, from a machine of the other byte order.
abbrev truncated : DeserializeCursor
truncated = at_position 4 4 (0 ∷ 0 ∷ 0 ∷ 5 ∷ b'h' ∷ [])

deserialize-Within_example :
    Holds
      (λ (c', stores). Within truncated c')
      (deserialize reader true (u8_string_value_type 32 4294967294) sample 1000 truncated)
deserialize-Within_example =
    deserialize-Within reader true (u8_string_value_type 32 4294967294) sample 1000 truncated

Are16Bit-accented : Are16Bit (233 ∷ [])
unfolding Are16Bit
Are16Bit-accented = (omega arith, tt)

-- The character U+00E9 in a key from a machine of the other byte order, for a key of the other byte order.
extractkey_u16_string-native_example :
    extractkey_u16_string reader true true byte_vector_cursor key_mode
      (at_position 4 4
        (cdr_u32 big memory (phase 4 4) 2 ++ (u16s_bytes big (233 ∷ []) ++ (7 ∷ []))))
      empty_vector
    ≡ ok (
      at_position 4 (4 + length (cdr_u32 big memory (phase 4 4) 2) + 2) (7 ∷ []),
      byte_vector_cursor.put_bytes (u16s_bytes little (233 ∷ [])) (
          byte_vector_cursor.put_bytes
            (swap_bytes true (u32_bytes little 2))
            (align byte_vector_cursor 4 empty_vector)),
    )
unfolding needs_swap
extractkey_u16_string-native_example =
    extractkey_u16_string-native reader memory big true byte_vector_cursor (233 ∷ []) (omega arith)
      Are16Bit-accented 4 4 (7 ∷ []) empty_vector
