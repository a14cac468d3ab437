-- ===== src/TypeSupport.antt =====
-- rmw_cyclonedds_cpp/src/TypeSupport2.hpp: the descriptions of message types that the CDR writer
-- and reader walk. A type is a finite tree, so an `AnyValueType *` is the tree below it.
use rmw_cyclonedds.Base.{
  ℕ, ◌*◌, Bool, false, ◌||◌, Option, none, some, Result, ok, throw, not_implemented, ◌>>=◌,
}

-- The kinds that the constructor of `PrimitiveValueType` lets through.
pub data PrimitiveTypeKind : Type 0 where
  float double char wchar boolean octet : PrimitiveTypeKind
  uint8 int8 uint16 int16 uint32 int32 uint64 int64 : PrimitiveTypeKind

-- `PrimitiveValueType::sizeof_type`, on the usual platforms.
unfoldable pub sizeof_primitive : PrimitiveTypeKind → ℕ
sizeof_primitive float = 4
sizeof_primitive double = 8
sizeof_primitive char = 1
sizeof_primitive wchar = 2
sizeof_primitive boolean = 1
sizeof_primitive octet = 1
sizeof_primitive uint8 = 1
sizeof_primitive int8 = 1
sizeof_primitive uint16 = 2
sizeof_primitive int16 = 2
sizeof_primitive uint32 = 4
sizeof_primitive int32 = 4
sizeof_primitive uint64 = 8
sizeof_primitive int64 = 8

-- `PrimitiveValueType::cdrsizeof_type`.
unfoldable pub cdrsizeof_primitive : PrimitiveTypeKind → ℕ
cdrsizeof_primitive boolean = 1
cdrsizeof_primitive octet = 1
cdrsizeof_primitive uint8 = 1
cdrsizeof_primitive int8 = 1
cdrsizeof_primitive char = 1
cdrsizeof_primitive uint16 = 2
cdrsizeof_primitive int16 = 2
cdrsizeof_primitive wchar = 2
cdrsizeof_primitive uint32 = 4
cdrsizeof_primitive int32 = 4
cdrsizeof_primitive float = 4
cdrsizeof_primitive uint64 = 8
cdrsizeof_primitive int64 = 8
cdrsizeof_primitive double = 8

-- `PrimitiveValueType::cdralignof_type`.
unfoldable pub cdralignof_primitive : PrimitiveTypeKind → ℕ
unfolding cdrsizeof_primitive
cdralignof_primitive k = cdrsizeof_primitive k

-- The class hierarchy under `AnyValueType`. A string type has the size of its C or C++ object and
-- its bound; a sequence type has the size of its object, which `CallbackSpanSequenceValueType` does
-- not know (`none`), its element type and its bound.
mutual
  pub data AnyValueType : Type 0 where
    primitive_value_type : PrimitiveTypeKind → AnyValueType
    u8_string_value_type : ℕ → ℕ → AnyValueType
    u16_string_value_type : ℕ → ℕ → AnyValueType
    struct_value_type : ℕ → Members → AnyValueType
    array_value_type : AnyValueType → ℕ → AnyValueType
    span_sequence_value_type : Option ℕ → AnyValueType → ℕ → AnyValueType
    bool_vector_value_type : ℕ → ℕ → AnyValueType

  -- The `Member`s of a struct in their order: type, offset in the struct, and whether it is a key.
  pub data Members : Type 0 where
    end : Members
    member : AnyValueType → ℕ → Bool → Members → Members

-- `m_has_keys`, as the constructors of the struct types compute it.
unfoldable pub has_keys : Members → Bool
has_keys end = false
has_keys (member vt offset is_key rest) = is_key || has_keys rest

-- The virtual function `sizeof_type`: how many bytes an object of the type takes in memory.
unfoldable pub sizeof_type : AnyValueType → Result ℕ
unfolding sizeof_primitive
sizeof_type (primitive_value_type k) = ok (sizeof_primitive k)
sizeof_type (u8_string_value_type size bound) = ok size
sizeof_type (u16_string_value_type size bound) = ok size
sizeof_type (struct_value_type size members) = ok size
sizeof_type (array_value_type element n) = do size ← sizeof_type element; ok (n * size)
sizeof_type (span_sequence_value_type none element bound) = throw not_implemented
sizeof_type (span_sequence_value_type (some size) element bound) = ok size
sizeof_type (bool_vector_value_type size bound) = ok size
