-- ===== src/Writer/TopLevel.antt =====
-- `serialize_top_level` with the two cursors that the writer is used with.
use rmw_cyclonedds.Base.{
  ℕ, ◌+◌, ◌%◌, ◌≡◌, refl, ap, ◌∙◌, List, [], ◌∷◌, ◌++◌, length, arith, ok, if◌then◌else◌,
}
use rmw_cyclonedds.Memory.{Memory, Endian, bytes, length-bytes}
use rmw_cyclonedds.Cursor.{
  word, WriteCursor, IsWriteCursor, size_cursor, size_cursor-IsWriteCursor, serialize_cursor,
  serialize_cursor-IsWriteCursor,
}
use rmw_cyclonedds.TriviallySerialized.Covers.{Covers}
use rmw_cyclonedds.Writer.Supported.{IsSupported}
use rmw_cyclonedds.Writer.Cdr.{cdr}
use rmw_cyclonedds.Writer.Encode.{serialize-put}
use rmw_cyclonedds.Writer.{
  CdrWriter, SampleOrRequest, message, request, sample, is_little, root_value_type,
  serialize_sample, serialize_top_level, serialize_to, count_size, put_rtps_header,
}

-- The four bytes of the encoding header.
abbrev pub rtps_header : Endian → List ℕ
rtps_header e = 0 ∷ (if is_little e then 1 else 0) ∷ 0 ∷ 0 ∷ []

-- What follows the encoding header of a sample. Offsets count from its start, and the 16 bytes of a
-- request header leave the phase at 0.
unfoldable pub body_form : CdrWriter → Memory → SampleOrRequest → ℕ → List ℕ
body_form w m message src = cdr w.native_endian m (root_value_type w) 0 src
body_form w m request src =
    bytes m src 8
    ++ (bytes m (src + 8) 8 ++ cdr w.native_endian m (root_value_type w) 0 (m.request_data src))

-- The whole sample.
unfoldable pub sample_form : CdrWriter → Memory → ℕ → List ℕ
sample_form w m src = rtps_header w.native_endian ++ body_form w m w.m_variant src

module _ (w : CdrWriter) (m : Memory) (i : IsSupported (root_value_type w))
    (h : Covers w.same_type w.tsc (root_value_type w)) where
  serialize_sample-put :
      {S : Type 0} (c : WriteCursor S)
      → IsWriteCursor c
      → (v : SampleOrRequest) (src : ℕ) (s : S) → c.offset s ≡ 0
      → serialize_sample w m c v src s ≡ ok (c.put_bytes (body_form w m v src) s)
  unfolding serialize_sample body_form
  serialize_sample-put c laws message src s start =
      rw start at (serialize-put w m c laws (root_value_type w) i h src s (omega arith))
  serialize_sample-put c laws request src s start =
      let xs = bytes m src 8 in
      let ys = bytes m (src + 8) 8 in
      let s' = c.put_bytes ys (c.put_bytes xs s) in
      let start' : c.offset s' ≡ 16 = omega (
        arith,
        laws.offset_put ys (c.put_bytes xs s),
        laws.offset_put xs s,
        length-bytes m src 8,
        length-bytes m (src + 8) 8,
      ) in
      rw start' at
        (serialize-put w m c laws (root_value_type w) i h (m.request_data src) s' (omega arith))
      ∙ ap ok (laws.put_append ys _ _ ∙ laws.put_append xs _ s)

  -- `serialize` fills the buffer with exactly the encoding header and the CDR form of the sample.
  pub serialize_to-sample : (src : ℕ) → serialize_to w m src sample ≡ ok (sample_form w m src)
  unfolding serialize_to serialize_top_level sample_form put_rtps_header serialize_cursor
  serialize_to-sample src =
      rw (
        serialize_sample-put serialize_cursor serialize_cursor-IsWriteCursor w.m_variant src _ refl)

  -- The size that is counted for a sample is the number of bytes that `serialize` writes.
  pub count_size-serialize_to :
      (src : ℕ)
      → (bs : List ℕ) × (serialize_to w m src sample ≡ ok bs)
        × (count_size w m src sample ≡ ok (length bs % word))
  unfolding count_size serialize_top_level sample_form put_rtps_header size_cursor
  count_size-serialize_to src = (
    sample_form w m src,
    serialize_to-sample src,
    rw (serialize_sample-put size_cursor size_cursor-IsWriteCursor w.m_variant src _ refl)
        (ground arith),
  )
