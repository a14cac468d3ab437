-- ===== src/Runs/Samples.antt =====
-- A message type, a memory that holds messages, and the writers and readers for them.
use rmw_cyclonedds.Base.{◌%◌, ◌≡◌, refl, Bool, true, false, [], ◌∷◌, Result, ok, throw}
use rmw_cyclonedds.TypeSupport.{
  PrimitiveTypeKind, AnyValueType, primitive_value_type, u8_string_value_type, struct_value_type,
  array_value_type, Members, end, member, sizeof_type, sizeof_primitive, cdralignof_primitive,
  cdrsizeof_primitive,
}
use rmw_cyclonedds.Memory.{Memory, little}
use rmw_cyclonedds.TriviallySerialized.{
  Cache, make_cache, register_serializable_type, register_aligns, assign, find, key_eq,
  compute_trivially_serialized, is_trivially_serialized,
}
use rmw_cyclonedds.Writer.{CdrWriter, message}
use native.Mathlib.Decide.{ℕ_discrete}

unfoldable pub PrimitiveTypeKind-discrete : Discrete PrimitiveTypeKind
PrimitiveTypeKind-discrete = hlevel

unfoldable pub AnyValueType-discrete : Discrete AnyValueType
AnyValueType-discrete = hlevel (ℕ_discrete)

-- Types at one address are one type.
unfoldable pub same_type : AnyValueType → AnyValueType → Bool
unfolding AnyValueType-discrete ℕ_discrete
same_type a b = elim (AnyValueType-discrete a b) [ yes _ ↦ true | no _ ↦ false ]

abbrev pub uint16 : AnyValueType
uint16 = primitive_value_type PrimitiveTypeKind.uint16

-- struct { uint8 flag; uint32 id; string name; uint16[3] levels; }, with `id` for its key.
abbrev pub members : Members
members = member (primitive_value_type PrimitiveTypeKind.uint8) 0 false (
    member (primitive_value_type PrimitiveTypeKind.uint32) 4 true (
      member (u8_string_value_type 32 4294967294) 8 false
        (member (array_value_type uint16 3) 40 false end)))

-- Each address holds its own last byte, and every string is "hi".
abbrev pub memory : Memory
memory = record {
  byte_at = λ a. a % 256;
  u8_data = λ a. b'h' ∷ b'i' ∷ [];
  u16_data = λ a. [];
  sequence_size = λ a. 0;
  sequence_contents = λ a. 0;
  bool_vector = λ a. [];
  request_data = λ a. 0;
}

abbrev cache_of : Result Cache → Cache
cache_of (ok c) = c
cache_of (throw e) = []

unfoldable pub writer : CdrWriter
unfolding make_cache same_type register_serializable_type register_aligns assign find key_eq
    compute_trivially_serialized sizeof_type sizeof_primitive is_trivially_serialized
    cdralignof_primitive cdrsizeof_primitive
writer = record {
  native_endian = little;
  same_type = same_type;
  tsc = cache_of (make_cache same_type (struct_value_type 48 members));
  root_size = 48;
  root_members = members;
  m_variant = message;
}

pub same_type_sound : (a b : AnyValueType) → same_type a b ≡ true → a ≡ b
unfolding same_type
same_type_sound a b h =
    elim (AnyValueType-discrete a b)
        as (λ d. (elim d [ yes _ ↦ true | no _ ↦ false ]) ≡ true → a ≡ b) [
          | yes e ↦ λ _. e
          | no n ↦ λ k. cc
        ]
      h

pub same_type_refl : (a : AnyValueType) → same_type a a ≡ true
unfolding same_type
same_type_refl a =
    elim (AnyValueType-discrete a a) as (λ d. (elim d [ yes _ ↦ true | no _ ↦ false ]) ≡ true) [
      | yes e ↦ refl
      | no n ↦ absurd (n refl)
    ]
