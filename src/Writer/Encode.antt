-- ===== src/Writer/Encode.antt =====
-- `CDRWriter::serialize` against the plain CDR form, for every write cursor.
use rmw_cyclonedds.Base.{
  ℕ, zero, suc, ◌+◌, ◌*◌, ◌%◌, ◌<◌, ◌≡◌, refl, sym, ap, ◌∙◌, true, ◌&&◌, List, ◌++◌, arith,
  Bool-cases, inl, inr, Result, ok,
}
use rmw_cyclonedds.TypeSupport.{
  AnyValueType, primitive_value_type, u8_string_value_type, u16_string_value_type,
  struct_value_type, array_value_type, span_sequence_value_type, bool_vector_value_type, Members,
  end, member, sizeof_type,
}
use rmw_cyclonedds.Memory.{Memory}
use rmw_cyclonedds.Cursor.{word, WriteCursor, IsWriteCursor}
use rmw_cyclonedds.TriviallySerialized.Dense.{dense, size_of, sizeof_type-dense, and_parts}
use rmw_cyclonedds.TriviallySerialized.Lookup.{lookup-dense, lookup_many-dense}
use rmw_cyclonedds.TriviallySerialized.Covers.{Answers, Parts, Covers, CoversMembers}
use rmw_cyclonedds.Writer.Supported.{IsSupported, AreSupported}
use rmw_cyclonedds.Writer.Cdr.{cdr, cdr_members, cdr_many, cdr_u32}
use rmw_cyclonedds.Writer.Fast.{cdr-bytes, cdr_many-bytes}
use rmw_cyclonedds.Writer.Put.{
  offset_put_phase, offset_put_lt, serialize_primitive-put, serialize_u32-put,
  serialize_u8_string-put, serialize_u16_string-put, serialize_bool_vector-put,
}
use rmw_cyclonedds.Writer.{
  CdrWriter, sample, all_fields, memcpy_or_apply, serialize_elements, serialize_rest,
  serialize_many, serialize, serialize_members,
}

pub first_element : (src size : ℕ) → src + 0 * size ≡ src
first_element src size = omega arith

pub next_element : (src i size : ℕ) → src + (i + 1) * size ≡ src + i * size + size
next_element src i size = omega arith

module _ (w : CdrWriter) (m : Memory) {S : Type 0} (c : WriteCursor S)
    (laws : IsWriteCursor c) where
  abbrev form : AnyValueType → ℕ → ℕ → List ℕ
  form = cdr w.native_endian m

  -- What `serialize` should do: put the CDR form for the phase of the cursor.
  abbrev Puts : (ℕ → ℕ → List ℕ) → (ℕ → S → Result S) → Type 0
  Puts x f =
      (src : ℕ) (s : S) → c.offset s < word → f src s ≡ ok (c.put_bytes (x (c.offset s % 8) src) s)

  -- Two steps, one behind the other.
  put_then :
      (xs ys : List ℕ) (s : S) (f : S → Result S)
      → f (c.put_bytes xs s) ≡ ok (c.put_bytes ys (c.put_bytes xs s))
      → f (c.put_bytes xs s) ≡ ok (c.put_bytes (xs ++ ys) s)
  put_then xs ys s f h = h ∙ ap ok (laws.put_append xs ys s)

  memcpy_or_apply-put :
      (vt : AnyValueType) (src : ℕ) (apply : S → Result S) (s : S)
      → Answers w.same_type w.tsc vt
      → apply s ≡ ok (c.put_bytes (form vt (c.offset s % 8) src) s)
      → memcpy_or_apply w m c vt sample src apply s
        ≡ ok (c.put_bytes (form vt (c.offset s % 8) src) s)
  unfolding memcpy_or_apply
  memcpy_or_apply-put vt src apply s answers h =
      rw (lookup-dense w.same_type w.tsc vt (c.offset s) answers)
        (elim (Bool-cases (dense vt (c.offset s % 8))) [
          | inl d ↦ rw (
            d,
            sizeof_type-dense vt (c.offset s % 8) d,
            cdr-bytes w.native_endian m vt (c.offset s % 8) src d,
          )
          | inr d ↦ rw d h
        ])

  serialize_elements-put :
      (f : ℕ → S → Result S) (x : ℕ → ℕ → List ℕ) (size : ℕ)
      → Puts x f
      → (src i n : ℕ) (s : S) → c.offset s < word
      → serialize_elements w m c f size src i n s
        ≡ ok (c.put_bytes (cdr_many w.native_endian m x size n (c.offset s % 8) (src + i * size)) s)
  unfolding serialize_elements cdr_many
  serialize_elements-put f x size one src i zero s fits = ap ok (sym (laws.put_nil s fits))
  serialize_elements-put f x size one src i (suc n) s fits =
      let xs = x (c.offset s % 8) (src + i * size) in
      rw (one (src + i * size) s fits) (
        put_then xs _ s (serialize_elements w m c f size src (i + 1) n) (
          serialize_elements-put f x size one src (i + 1) n (c.put_bytes xs s)
            (offset_put_lt w m c laws xs s)
          ∙ rw (offset_put_phase w m c laws xs s, next_element src i size) refl))

  serialize_rest-put :
      (f : ℕ → S → Result S) (vt : AnyValueType)
      → Puts (form vt) f
      → Answers w.same_type w.tsc vt
      → (src n : ℕ) (s : S) → c.offset s < word
      → serialize_rest w m c f vt (size_of vt) src n s
        ≡ ok (
            c.put_bytes
              (cdr_many w.native_endian m (form vt) (size_of vt) n (c.offset s % 8) src)
              s)
  unfolding serialize_rest cdr_many
  serialize_rest-put f vt one answers src zero s fits = ap ok (sym (laws.put_nil s fits))
  serialize_rest-put f vt one answers src (suc n) s fits =
      rw (lookup_many-dense w.same_type w.tsc vt (c.offset s) answers)
        (elim (Bool-cases (dense vt (c.offset s % 8) && dense vt (c.offset s % 8 + size_of vt))) [
          | inl d ↦
              let (d₁, d₂) = and_parts _ _ d in
              rw d (
                ap (λ (bs : List ℕ). ok (c.put_bytes bs s))
                  (sym (
                    cdr_many-bytes w.native_endian m vt (cdr-bytes w.native_endian m vt) (suc n)
                      (c.offset s % 8) src d₁ d₂)))
          | inr d ↦ rw d (
              rw (first_element src (size_of vt)) at
                (serialize_elements-put f (form vt) (size_of vt) one src 0 (suc n) s fits))
        ])

  serialize_many-put :
      (f : ℕ → S → Result S) (vt : AnyValueType)
      → Puts (form vt) f
      → Answers w.same_type w.tsc vt
      → sizeof_type vt ≡ ok (size_of vt)
      → (n src : ℕ) (s : S) → c.offset s < word
      → serialize_many w m c f vt n src s
        ≡ ok (
            c.put_bytes
              (cdr_many w.native_endian m (form vt) (size_of vt) n (c.offset s % 8) src)
              s)
  unfolding serialize_many cdr_many
  serialize_many-put f vt one answers size zero src s fits = ap ok (sym (laws.put_nil s fits))
  serialize_many-put f vt one answers size (suc n) src s fits =
      let xs = form vt (c.offset s % 8) src in
      rw (one src s fits, size)
        (put_then xs _ s (serialize_rest w m c f vt (size_of vt) (src + size_of vt) n) (
          serialize_rest-put f vt one answers (src + size_of vt) n (c.put_bytes xs s)
            (offset_put_lt w m c laws xs s)
          ∙ rw (offset_put_phase w m c laws xs s) refl))

  mutual
    unfolding serialize serialize_members cdr cdr_members Parts IsSupported AreSupported all_fields

    serialize-put_any :
        (vt : AnyValueType)
        → IsSupported vt
        → Covers w.same_type w.tsc vt
        → Puts (form vt) (serialize w m c vt sample)
    serialize-put_any (primitive_value_type k) i h src s fits =
        memcpy_or_apply-put (primitive_value_type k) src _ s h.0
          (ap ok (serialize_primitive-put w m c laws k src s fits))
    serialize-put_any (u8_string_value_type size bound) i h src s fits =
        memcpy_or_apply-put (u8_string_value_type size bound) src _ s h.0
          (ap ok (serialize_u8_string-put w m c laws src s fits))
    serialize-put_any (u16_string_value_type size bound) i h src s fits =
        memcpy_or_apply-put (u16_string_value_type size bound) src _ s h.0
          (ap ok (serialize_u16_string-put w m c laws src s fits))
    serialize-put_any (struct_value_type size members) i h src s fits =
        memcpy_or_apply-put (struct_value_type size members) src _ s h.0
          (serialize-put_members members i h.1 src s fits)
    serialize-put_any (array_value_type element n) i h src s fits =
        memcpy_or_apply-put (array_value_type element n) src _ s h.0 (
          serialize_many-put (serialize w m c element sample) element
            (serialize-put_any element i.1 h.1) h.1.0 i.0 n src s fits)
    serialize-put_any (span_sequence_value_type size element bound) i h src s fits =
        let count = m.sequence_size src in
        let xs = cdr_u32 w.native_endian m (c.offset s % 8) count in
        memcpy_or_apply-put (span_sequence_value_type size element bound) src _ s h.0 (
          rw (serialize_u32-put w m c laws count s fits) (
            put_then xs _ s
              (serialize_many w m c (serialize w m c element sample) element count
                (m.sequence_contents src))
              (serialize_many-put (serialize w m c element sample) element
                  (serialize-put_any element i.1 h.1) h.1.0 i.0 count (m.sequence_contents src)
                  (c.put_bytes xs s) (offset_put_lt w m c laws xs s)
                ∙ rw (offset_put_phase w m c laws xs s) refl)))
    serialize-put_any (bool_vector_value_type size bound) i h src s fits =
        memcpy_or_apply-put (bool_vector_value_type size bound) src _ s h.0
          (ap ok (serialize_bool_vector-put w m c laws src s fits))

    serialize-put_members :
        (ms : Members)
        → AreSupported ms
        → CoversMembers w.same_type w.tsc ms
        → Puts (cdr_members w.native_endian m ms) (serialize_members w m c ms true sample)
    serialize-put_members end i h src s fits = ap ok (sym (laws.put_nil s fits))
    serialize-put_members (member vt offset is_key rest) i h src s fits =
        let xs = form vt (c.offset s % 8) (src + offset) in
        rw (serialize-put_any vt i.0 h.0 (src + offset) s fits) (
          put_then xs _ s (serialize_members w m c rest true sample src) (
            serialize-put_members rest i.1 h.1 src (c.put_bytes xs s)
              (offset_put_lt w m c laws xs s)
            ∙ rw (offset_put_phase w m c laws xs s) refl))

  -- For a sample, `serialize` throws nothing and puts the CDR form of the object, whatever the
  -- cursor, for every supported type that the cache covers: taking `memcpy` for an object, or for
  -- the elements of an array or sequence behind the first, changes no byte.
  pub serialize-put :
      (vt : AnyValueType)
      → IsSupported vt
      → Covers w.same_type w.tsc vt
      → (src : ℕ) (s : S) → c.offset s < word
      → serialize w m c vt sample src s
        ≡ ok (c.put_bytes (cdr w.native_endian m vt (c.offset s % 8) src) s)
  serialize-put vt i h src s fits = serialize-put_any vt i h src s fits
