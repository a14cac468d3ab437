-- ===== src/Reader/RoundTrip.antt =====
-- Writer and reader together: what `CDRReader::deserialize` stores of what `CDRWriter::serialize`
-- wrote, between machines of the same or of different byte order.
use rmw_cyclonedds.Base.{
  ℕ, ◌+◌, ◌≡◌, refl, Bool, true, false, List, [], ◌++◌, length, ok, append-nil,
}
use rmw_cyclonedds.TypeSupport.{AnyValueType, struct_value_type, Members}
use rmw_cyclonedds.Memory.{Memory, Endian, little, big, bytes, length-bytes}
use rmw_cyclonedds.TriviallySerialized.Covers.{Covers}
use rmw_cyclonedds.TriviallySerialized.Register.{make_cache-Covers}
use rmw_cyclonedds.Writer.{CdrWriter, message, request, sample, make_cdr_writer, serialize_to}
use rmw_cyclonedds.Writer.Supported.{IsSupported}
use rmw_cyclonedds.Writer.Cdr.{cdr}
use rmw_cyclonedds.Writer.TopLevel.{rtps_header, body_form, sample_form, serialize_to-sample}
use rmw_cyclonedds.Reader.{
  CdrReader, Store, store_bytes, swap_bytes, needs_swap, get_bytes, rebase, recognized,
  deserialize_sample, deserialize_what, deserialize_top_level, deserialize_from, make_cdr_reader,
}
use rmw_cyclonedds.Reader.Cursors.{Reads, read_then, advance-front, phase}
use rmw_cyclonedds.Reader.Stores.{Fits, stored}
use rmw_cyclonedds.Reader.Pieces.{encoding}
use rmw_cyclonedds.Reader.Decode.{deserialize-Reads}

recognized_own : (e : Endian) → recognized (rtps_header e) ≡ true
unfolding recognized
recognized_own little = refl
recognized_own big = refl

module _ (r : CdrReader) (m : Memory) (e : Endian) where
  abbrev swap : Bool
  swap = needs_swap r.native_endian (encoding e)

  abbrev root : AnyValueType
  root = struct_value_type r.root_size r.root_members

  get_bytes-Reads :
      (b : Bool) (n src dst o pos : ℕ)
      → Reads o pos
          (bytes m src n)
          (store_bytes dst (swap_bytes b (bytes m src n)))
          (get_bytes r swap b n dst)
  unfolding get_bytes
  get_bytes-Reads b n src dst o pos rest =
      rw (advance-front n o pos (bytes m src n) rest (length-bytes m src n), length-bytes m src n)
        refl

  header_phase : (src : ℕ) → phase 4 (4 + length (bytes m src 8) + length (bytes m (src + 8) 8)) ≡ 0
  header_phase src = rw (length-bytes m src 8, length-bytes m (src + 8) 8) refl

  module _ (i : IsSupported root) (h : Covers r.same_type r.tsc root) where
    message-Reads :
        (src dst : ℕ)
        → Fits m root src
        → Reads 4 4
            (cdr e m root 0 src)
            (stored m r.contents swap root src dst)
            (deserialize_sample r swap message dst)
    unfolding deserialize_sample
    message-Reads src dst fits = deserialize-Reads r m e swap refl root i h src dst 4 4 fits

    request-Reads :
        (src dst : ℕ)
        → Fits m root (m.request_data src)
        → Reads 4 4
            (bytes m src 8 ++ (bytes m (src + 8) 8 ++ cdr e m root 0 (m.request_data src)))
            (store_bytes dst (swap_bytes swap (bytes m src 8))
              ++ (store_bytes (dst + 8) (bytes m (src + 8) 8)
                  ++ stored m r.contents swap root (m.request_data src) (r.request_data dst)))
            (deserialize_sample r swap request dst)
    unfolding deserialize_sample swap_bytes
    request-Reads src dst fits =
        let xs = bytes m src 8 in
        let ys = bytes m (src + 8) 8 in
        read_then 4 4 xs _ _ _ _ _ (get_bytes-Reads swap 8 src dst 4 4) (
          read_then 4 (4 + length xs) ys _ _ _ _ _
            (get_bytes-Reads false 8 (src + 8) (dst + 8) 4 (4 + length xs))
            (rw (header_phase src) at (
              deserialize-Reads r m e swap refl root i h (m.request_data src) (r.request_data dst) 4
                (4 + length xs + length ys) fits)))

  -- From the steps behind the encoding header to all of `deserialize`.
  from_sample :
      (dst : ℕ) (body : List ℕ) (stores : List Store)
      → Reads 4 4 body stores (deserialize_sample r swap r.m_variant dst)
      → deserialize_from r dst (rtps_header e ++ body) sample ≡ ok stores
  unfolding deserialize_from deserialize_top_level deserialize_what rebase
  from_sample dst body stores h =
      rw (advance-front 4 0 0 (rtps_header e) body refl, recognized_own e)
        (rw (← append-nil body) (rw (h []) refl))

module _ (same : AnyValueType → AnyValueType → Bool)
    (sound : (a b : AnyValueType) → same a b ≡ true → a ≡ b)
    (reflexive : (a : AnyValueType) → same a a ≡ true) where
  -- For every supported type, every message in a sender's memory whose lengths fit in 32 bits and
  -- every pair of byte orders: the writer of the sender and the reader of the receiver can be made,
  -- `serialize` throws nothing, and on what it wrote `deserialize` throws nothing and makes exactly
  -- the stores of the message, with the bytes of each primitive object reversed if and only if the
  -- byte orders differ.
  pub deserialize-serialize :
      (e n : Endian) (size : ℕ) (members : Members) (contents request_data : ℕ → ℕ)
      → IsSupported (struct_value_type size members)
      → (m : Memory) (src dst : ℕ) → Fits m (struct_value_type size members) src
      → (w : CdrWriter) × (r : CdrReader) × (bs : List ℕ) × (make_cdr_writer e same size members
            message
          ≡ ok w)
        × (make_cdr_reader n same size members message contents request_data ≡ ok r)
        × (serialize_to w m src sample ≡ ok bs)
        × (deserialize_from r dst bs sample
            ≡ ok (
                stored m contents
                  (needs_swap n (encoding e))
                  (struct_value_type size members)
                  src
                  dst))
  unfolding make_cdr_writer make_cdr_reader sample_form body_form
  deserialize-serialize e n size members contents request_data i m src dst fits =
      let (c, made, covers) =
        make_cache-Covers same sound reflexive (struct_value_type size members) in
      let w : CdrWriter = record {
        native_endian = e;
        same_type = same;
        tsc = c;
        root_size = size;
        root_members = members;
        m_variant = message;
      } in
      let r : CdrReader = record {
        native_endian = n;
        same_type = same;
        tsc = c;
        root_size = size;
        root_members = members;
        m_variant = message;
        contents = contents;
        request_data = request_data;
      } in
      (
        w,
        r,
        sample_form w m src,
        rw made refl,
        rw made refl,
        serialize_to-sample w m i covers src,
        from_sample r m e dst _ _ (message-Reads r m e i covers src dst fits),
      )

  -- The same for a request: its header is stored before its message, the first word of eight bytes
  -- reversed if and only if the byte orders differ, the second word (the sequence number) never
  -- reversed.
  pub deserialize-serialize_request :
      (e n : Endian) (size : ℕ) (members : Members) (contents request_data : ℕ → ℕ)
      → IsSupported (struct_value_type size members)
      → (m : Memory) (src dst : ℕ) → Fits m (struct_value_type size members) (m.request_data src)
      → (w : CdrWriter) × (r : CdrReader) × (bs : List ℕ) × (make_cdr_writer e same size members
            request
          ≡ ok w)
        × (make_cdr_reader n same size members request contents request_data ≡ ok r)
        × (serialize_to w m src sample ≡ ok bs)
        × (deserialize_from r dst bs sample
            ≡ ok (
                store_bytes dst (swap_bytes (needs_swap n (encoding e)) (bytes m src 8))
                ++ (store_bytes (dst + 8) (bytes m (src + 8) 8)
                    ++ stored m contents
                        (needs_swap n (encoding e))
                        (struct_value_type size members)
                        (m.request_data src)
                        (request_data dst))))
  unfolding make_cdr_writer make_cdr_reader sample_form body_form
  deserialize-serialize_request e n size members contents request_data i m src dst fits =
      let (c, made, covers) =
        make_cache-Covers same sound reflexive (struct_value_type size members) in
      let w : CdrWriter = record {
        native_endian = e;
        same_type = same;
        tsc = c;
        root_size = size;
        root_members = members;
        m_variant = request;
      } in
      let r : CdrReader = record {
        native_endian = n;
        same_type = same;
        tsc = c;
        root_size = size;
        root_members = members;
        m_variant = request;
        contents = contents;
        request_data = request_data;
      } in
      (
        w,
        r,
        sample_form w m src,
        rw made refl,
        rw made refl,
        serialize_to-sample w m i covers src,
        from_sample r m e dst _ _ (request-Reads r m e i covers src dst fits),
      )
