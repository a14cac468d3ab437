-- ===== src/Writer/Supported.antt =====
-- The types that the writer can walk.
use rmw_cyclonedds.Base.{◌≡◌, ok}
use rmw_cyclonedds.TypeSupport.{
  AnyValueType, primitive_value_type, u8_string_value_type, u16_string_value_type,
  struct_value_type, array_value_type, span_sequence_value_type, bool_vector_value_type, Members,
  end, member, sizeof_type,
}
use rmw_cyclonedds.TriviallySerialized.Dense.{size_of}

-- The size of an element is known wherever elements stand in a row. The type support only makes
-- such types: no element is itself a sequence.
unfoldable mutual
  pub IsSupported : AnyValueType → Type 0
  IsSupported (primitive_value_type k) = Unit {0}
  IsSupported (u8_string_value_type size bound) = Unit {0}
  IsSupported (u16_string_value_type size bound) = Unit {0}
  IsSupported (struct_value_type size members) = AreSupported members
  IsSupported (array_value_type element n) =
      (sizeof_type element ≡ ok (size_of element)) × IsSupported element
  IsSupported (span_sequence_value_type size element bound) =
      (sizeof_type element ≡ ok (size_of element)) × IsSupported element
  IsSupported (bool_vector_value_type size bound) = Unit {0}

  pub AreSupported : Members → Type 0
  AreSupported end = Unit {0}
  AreSupported (member vt offset is_key rest) = IsSupported vt × AreSupported rest
