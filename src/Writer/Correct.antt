-- ===== src/Writer/Correct.antt =====
-- The writer that `make_cdr_writer` makes.
use rmw_cyclonedds.Base.{ℕ, ◌%◌, ◌≡◌, Bool, true, List, length, ok}
use rmw_cyclonedds.TypeSupport.{AnyValueType, struct_value_type, Members}
use rmw_cyclonedds.Memory.{Memory, Endian}
use rmw_cyclonedds.Cursor.{word}
use rmw_cyclonedds.TriviallySerialized.Register.{make_cache-Covers}
use rmw_cyclonedds.Writer.Supported.{IsSupported}
use rmw_cyclonedds.Writer.TopLevel.{sample_form, serialize_to-sample, count_size-serialize_to}
use rmw_cyclonedds.Writer.{
  CdrWriter, SampleOrRequest, sample, make_cdr_writer, serialize_to, count_size,
}

module _ (same : AnyValueType → AnyValueType → Bool)
    (sound : (a b : AnyValueType) → same a b ≡ true → a ≡ b)
    (reflexive : (a : AnyValueType) → same a a ≡ true) where
  -- For every supported type, either byte order, message or request: `make_cdr_writer` makes a
  -- writer, and for every message in memory `serialize` throws nothing and leaves in the buffer
  -- exactly the encoding header, the request header if there is one, and the CDR form of the
  -- message, member by member with zeros for padding. So the `memcpy` that the cache allows is
  -- never seen.
  pub make_cdr_writer-serialize :
      (e : Endian) (size : ℕ) (members : Members) (v : SampleOrRequest)
      → IsSupported (struct_value_type size members)
      → (m : Memory) (src : ℕ)
      → (w : CdrWriter) × (make_cdr_writer e same size members v ≡ ok w)
        × (serialize_to w m src sample ≡ ok (sample_form w m src))
  unfolding make_cdr_writer
  make_cdr_writer-serialize e size members v i m src =
      let (c, made, covers) =
        make_cache-Covers same sound reflexive (struct_value_type size members) in
      let w : CdrWriter = record {
        native_endian = e;
        same_type = same;
        tsc = c;
        root_size = size;
        root_members = members;
        m_variant = v;
      } in
      (w, rw made, serialize_to-sample w m i covers src)

  -- For the same writers and messages: the size that the writer counts by going over the message
  -- is, modulo 2 ^ 64, the number of bytes that `serialize` writes.
  pub make_cdr_writer-count_size :
      (e : Endian) (size : ℕ) (members : Members) (v : SampleOrRequest)
      → IsSupported (struct_value_type size members)
      → (m : Memory) (src : ℕ)
      → (w : CdrWriter) × (bs : List ℕ) × (make_cdr_writer e same size members v ≡ ok w)
        × (serialize_to w m src sample ≡ ok bs)
        × (count_size w m src sample ≡ ok (length bs % word))
  unfolding make_cdr_writer
  make_cdr_writer-count_size e size members v i m src =
      let (c, made, covers) =
        make_cache-Covers same sound reflexive (struct_value_type size members) in
      let w : CdrWriter = record {
        native_endian = e;
        same_type = same;
        tsc = c;
        root_size = size;
        root_members = members;
        m_variant = v;
      } in
      let (bs, written, counted) = count_size-serialize_to w m i covers src in
      (w, bs, rw made, written, counted)
