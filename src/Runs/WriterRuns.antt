-- ===== src/Runs/WriterRuns.antt =====
-- Runs of the writer.
use rmw_cyclonedds.Base.{◌≡◌, refl, [], ◌∷◌, ok}
use rmw_cyclonedds.Memory.{bytes, u32_bytes}
use rmw_cyclonedds.Cursor.{serialize_cursor, align}
use rmw_cyclonedds.TriviallySerialized.{
  lookup_trivially_serialized, lookup_many_trivially_serialized, cache_at,
}
use rmw_cyclonedds.TypeSupport.{sizeof_type, cdrsizeof_primitive, cdralignof_primitive}
use rmw_cyclonedds.Writer.{
  sample, serialize_to, serialize_top_level, serialize_sample, put_rtps_header, serialize,
  memcpy_or_apply, serialize_primitive, put_primitive, serialize_u8_string, serialize_u32,
  serialize_many, serialize_rest, serialize_elements, all_fields,
}
use rmw_cyclonedds.Runs.Samples.{writer, memory}

serialize_to_run :
    serialize_to writer memory 0 sample
    ≡ ok (
        0 ∷ 1 ∷ 0 ∷ 0 ∷ 0 ∷ 0 ∷ 0 ∷ 0 ∷ 4 ∷ 5 ∷ 6 ∷ 7 ∷ 3 ∷ 0 ∷ 0 ∷ 0 ∷ b'h' ∷ b'i' ∷ 0 ∷ 0 ∷ 40
        ∷ 41 ∷ 42 ∷ 43 ∷ 44 ∷ 45 ∷ [])
unfolding serialize_to serialize_top_level serialize_sample put_rtps_header serialize
    memcpy_or_apply serialize_primitive put_primitive serialize_u8_string serialize_u32
    serialize_many serialize_rest serialize_elements all_fields writer bytes u32_bytes
    serialize_cursor align lookup_trivially_serialized lookup_many_trivially_serialized cache_at
    sizeof_type cdrsizeof_primitive cdralignof_primitive
serialize_to_run = refl
