-- ===== src/Runs/WriterClaims.antt =====
-- The theorems about the writer at concrete inputs.
use rmw_cyclonedds.Base.{ℕ, ◌+◌, ◌*◌, ◌%◌, ◌≡◌, refl, true, false, ◌⊎◌, List, length, ok, arith}
use rmw_cyclonedds.TypeSupport.{
  PrimitiveTypeKind, struct_value_type, array_value_type, cdrsizeof_primitive, sizeof_type,
}
use rmw_cyclonedds.Memory.{little}
use rmw_cyclonedds.Cursor.{word}
use rmw_cyclonedds.TriviallySerialized.{Cache, make_cache, compute_trivially_serialized}
use rmw_cyclonedds.TriviallySerialized.Covers.{Covers}
use rmw_cyclonedds.TriviallySerialized.Dense.{dense, size_of}
use rmw_cyclonedds.TriviallySerialized.Register.{make_cache-Covers}
use rmw_cyclonedds.Writer.Cdr.{cdr}
use rmw_cyclonedds.Writer.Fast.{compute_trivially_serialized-bytes}
use rmw_cyclonedds.Memory.{bytes}
use rmw_cyclonedds.Writer.Supported.{IsSupported}
use rmw_cyclonedds.Writer.{CdrWriter, sample, message, make_cdr_writer, serialize_to, count_size}
use rmw_cyclonedds.Writer.Bound.{get_serialized_size}
use rmw_cyclonedds.Writer.TopLevel.{sample_form}
use rmw_cyclonedds.Writer.Correct.{make_cdr_writer-serialize, make_cdr_writer-count_size}
use rmw_cyclonedds.Writer.OverReport.{one_array, get_serialized_size-one_array}
use rmw_cyclonedds.Runs.Samples.{
  members, memory, same_type, same_type_sound, same_type_refl, uint16,
}

supported : IsSupported (struct_value_type 48 members)
unfolding IsSupported sizeof_type size_of
supported = (tt, (tt, (tt, ((refl, tt), tt))))

make_cdr_writer-serialize_example :
    (w : CdrWriter) × (make_cdr_writer little same_type 48 members message ≡ ok w)
    × (serialize_to w memory 0 sample ≡ ok (sample_form w memory 0))
make_cdr_writer-serialize_example =
    make_cdr_writer-serialize same_type same_type_sound same_type_refl little 48 members message
      supported memory 0

make_cdr_writer-count_size_example :
    (w : CdrWriter) × (bs : List ℕ) × (make_cdr_writer little same_type 48 members message ≡ ok w)
    × (serialize_to w memory 0 sample ≡ ok bs)
    × (count_size w memory 0 sample ≡ ok (length bs % word))
make_cdr_writer-count_size_example =
    make_cdr_writer-count_size same_type same_type_sound same_type_refl little 48 members message
      supported memory 0

get_serialized_size-one_array_example :
    (w : CdrWriter) × (bs : List ℕ) × (make_cdr_writer little same_type 6
        (one_array PrimitiveTypeKind.uint16 3 false)
        message
      ≡ ok w)
    × (serialize_to w memory 0 sample ≡ ok bs)
    × (length bs ≡ 4 + 3 * cdrsizeof_primitive PrimitiveTypeKind.uint16)
    × (get_serialized_size w memory 0 sample
        ≡ ok (length bs + 2 * cdrsizeof_primitive PrimitiveTypeKind.uint16))
unfolding cdrsizeof_primitive
get_serialized_size-one_array_example =
    get_serialized_size-one_array same_type same_type_sound same_type_refl little 6
      PrimitiveTypeKind.uint16 1 false (omega arith) (omega arith) memory 0

make_cache-Covers_example :
    (c : Cache) × (make_cache same_type (struct_value_type 48 members) ≡ ok c)
    × Covers same_type c (struct_value_type 48 members)
make_cache-Covers_example =
    make_cache-Covers same_type same_type_sound same_type_refl (struct_value_type 48 members)

compute_trivially_serialized-bytes_example :
    ((compute_trivially_serialized (array_value_type uint16 3) 4 ≡ ok true)
      × (cdr little memory (array_value_type uint16 3) 12 40
          ≡ bytes memory 40 (size_of (array_value_type uint16 3))))
    ⊎ ((compute_trivially_serialized (array_value_type uint16 3) 4 ≡ ok false)
        × (dense (array_value_type uint16 3) 4 ≡ false))
compute_trivially_serialized-bytes_example =
    compute_trivially_serialized-bytes (array_value_type uint16 3) 4 little memory 12 40 refl
