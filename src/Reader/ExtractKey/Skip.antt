-- ===== src/Reader/ExtractKey/Skip.antt =====
-- `extractkey` of Serialization.cpp on the parts of a sample that do not belong to its key.
use rmw_cyclonedds.Base.{
  ℕ, zero, suc, ◌+◌, ◌*◌, ◌≡◌, refl, arith, Bool, ◌||◌, ◌&&◌, List, [], ◌∷◌, ◌++◌, length, map,
  append_assoc, length-map, Bool-cases, inl, inr, Result, ok, ◌>>=◌,
}
use rmw_cyclonedds.TypeSupport.{
  PrimitiveTypeKind, AnyValueType, primitive_value_type, u8_string_value_type,
  u16_string_value_type, struct_value_type, array_value_type, span_sequence_value_type,
  bool_vector_value_type, Members, end, member, sizeof_type, cdrsizeof_primitive,
}
use rmw_cyclonedds.Memory.{
  Memory, Endian, bytes, length-bytes, u16s_bytes, length-u16s_bytes, bool_byte,
}
use rmw_cyclonedds.Cursor.{WriteCursor}
use rmw_cyclonedds.TriviallySerialized.Dense.{dense, size_of, sizeof_type-dense, and_parts}
use rmw_cyclonedds.TriviallySerialized.Lookup.{lookup-dense, lookup_many-dense}
use rmw_cyclonedds.TriviallySerialized.Covers.{Answers, Parts, Covers, CoversMembers}
use rmw_cyclonedds.Writer.Supported.{IsSupported, AreSupported}
use rmw_cyclonedds.Writer.Cdr.{padding, cdr, cdr_members, cdr_many, cdr_u32}
use rmw_cyclonedds.Writer.Fast.{cdr-bytes, cdr_many-bytes}
use rmw_cyclonedds.Reader.{CdrReader, DeserializeCursor, offset, needs_swap, deserialize_u32}
use rmw_cyclonedds.Reader.Cursors.{
  at_position, phase, phase-after, offset-phase, Gives, advance-front, align_read-padding,
}
use rmw_cyclonedds.Reader.Stores.{AllAt, Fits, FitMembers}
use rmw_cyclonedds.Reader.Pieces.{
  encoding, deserialize_u32-Gives, aligned, some_bytes, not_empty, with_terminator, terminated,
  last_unit, even, further,
}
use rmw_cyclonedds.Reader.ExtractKey.{
  skip_mode, unless_skip, extractkey_primitive, extract_u8_body, extractkey_u8_string,
  extract_u16_body, extractkey_u16_string, extract_bools_body, extractkey_bool_vector,
  extract_elements, extract_block, extract_rest, extractkey_many, skip_or_apply, extract_member,
  extractkey, extractkey_members,
}

module _ (r : CdrReader) (m : Memory) (e : Endian) (sw dw : Bool) {S : Type 0}
    (w : WriteCursor S) where
  abbrev Step : Type 0
  Step = DeserializeCursor → S → Result (DeserializeCursor × S)

  -- A step that reads `xs` and puts nothing.
  abbrev Skips : ℕ → ℕ → List ℕ → Step → Type 0
  Skips o pos xs f =
      (rest : List ℕ) (s : S)
      → f (at_position o pos (xs ++ rest)) s ≡ ok (at_position o (pos + length xs) rest, s)

  nothing : (o pos : ℕ) → Skips o pos [] (λ c s. ok (c, s))
  nothing o pos rest s = ground arith

  skip_then :
      (o pos : ℕ) (xs ys : List ℕ) (f g : Step)
      → Skips o pos xs f
      → Skips o (pos + length xs) ys g
      → Skips o pos (xs ++ ys) (λ c s. f c s >>= λ (c', s'). g c' s')
  skip_then o pos xs ys f g hf hg rest s =
      rw (append_assoc xs ys rest, hf (ys ++ rest) s, hg rest s, further pos xs ys) refl

  give_skip :
      (o pos : ℕ) (xs ys : List ℕ) (v : ℕ) (f : DeserializeCursor → Result (ℕ × DeserializeCursor))
      (g : ℕ → Step)
      → Gives o pos xs v f
      → Skips o (pos + length xs) ys (g v)
      → Skips o pos (xs ++ ys) (λ c s. f c >>= λ (n, c'). g n c' s)
  give_skip o pos xs ys v f g hf hg rest s =
      rw (append_assoc xs ys rest, hf (ys ++ rest), hg rest s, further pos xs ys) refl

  extractkey_primitive-Skips :
      (k : PrimitiveTypeKind) (src o pos : ℕ)
      → Skips o pos
          (padding (phase o pos) (cdrsizeof_primitive k) ++ bytes m src (cdrsizeof_primitive k))
          (extractkey_primitive r sw dw w (cdrsizeof_primitive k) skip_mode)
  unfolding extractkey_primitive unless_skip
  extractkey_primitive-Skips k src o pos rest s =
      let n = cdrsizeof_primitive k in
      let gap = padding (phase o pos) n in
      let xs = bytes m src n in
      rw
        (
          append_assoc gap xs rest,
          align_read-padding n o pos (xs ++ rest) (some_bytes k) (aligned k o pos),
          advance-front n o (pos + length gap) xs rest (length-bytes m src n),
          ← further pos gap xs,
          length-bytes m src n,
        )
        refl

  extract_u8_body-Skips :
      (str : List ℕ) (o pos : ℕ)
      → Skips o pos (str ++ (0 ∷ [])) (extract_u8_body r sw dw w skip_mode (length str + 1))
  unfolding extract_u8_body unless_skip
  extract_u8_body-Skips str o pos rest s =
      rw
        (
          not_empty (length str),
          advance-front (length str + 1) o pos (str ++ (0 ∷ [])) rest (with_terminator str),
          terminated str,
          last_unit str,
          with_terminator str,
        )
        refl

  extract_u16_body-Skips :
      (str : List ℕ) (o pos : ℕ)
      → Skips o pos (u16s_bytes e str) (extract_u16_body r sw dw w skip_mode (2 * length str))
  unfolding extract_u16_body unless_skip
  extract_u16_body-Skips str o pos rest s =
      rw
        (
          even (length str),
          advance-front (2 * length str) o pos (u16s_bytes e str) rest (length-u16s_bytes e str),
          length-u16s_bytes e str,
        )
        refl

  extract_bools_body-Skips :
      (bs : List Bool) (o pos : ℕ)
      → Skips o pos (map bool_byte bs) (extract_bools_body r sw dw w skip_mode (length bs))
  unfolding extract_bools_body unless_skip
  extract_bools_body-Skips bs o pos rest s =
      rw
        (
          advance-front (length bs) o pos (map bool_byte bs) rest (length-map bs bool_byte),
          length-map bs bool_byte,
        )
        refl

  -- The optimised skip and the one by parts pass over the same bytes.
  skip_or_apply-Skips :
      (vt : AnyValueType) (src o pos : ℕ) (apply : Step)
      → Answers r.same_type r.tsc vt
      → Skips o pos (cdr e m vt (phase o pos) src) apply
      → Skips o pos (cdr e m vt (phase o pos) src) (skip_or_apply r sw dw w vt skip_mode apply)
  unfolding skip_or_apply
  skip_or_apply-Skips vt src o pos apply answers h rest s =
      let xs = cdr e m vt (phase o pos) src in
      rw
        (
          lookup-dense r.same_type r.tsc vt (offset (at_position o pos (xs ++ rest))) answers,
          offset-phase o pos (xs ++ rest),
        )
        (elim (Bool-cases (dense vt (phase o pos))) [
          | inl d ↦
              rw
                (
                  d,
                  sizeof_type-dense vt (phase o pos) d,
                  cdr-bytes e m vt (phase o pos) src d,
                  advance-front (size_of vt) o pos (bytes m src (size_of vt)) rest
                      (length-bytes m src (size_of vt)),
                  length-bytes m src (size_of vt),
                )
                refl
          | inr d ↦ rw d (h rest s)
        ])

  abbrev Element : (ℕ → Type 0) → AnyValueType → Step → Type 0
  Element P vt f = (src o pos : ℕ) → P src → Skips o pos (cdr e m vt (phase o pos) src) f

  abbrev many : AnyValueType → ℕ → ℕ → ℕ → List ℕ
  many vt n p src = cdr_many e m (cdr e m vt) (size_of vt) n p src

  extract_elements-Skips :
      (P : ℕ → Type 0) (vt : AnyValueType) (f : Step)
      → Element P vt f
      → (n src o pos : ℕ) → AllAt m P (size_of vt) n src
      → Skips o pos (many vt n (phase o pos) src) (extract_elements r sw dw w f n)
  unfolding extract_elements cdr_many AllAt
  extract_elements-Skips P vt f one zero src o pos h = nothing o pos
  extract_elements-Skips P vt f one (suc n) src o pos h =
      let xs = cdr e m vt (phase o pos) src in
      skip_then o pos xs _ f (extract_elements r sw dw w f n) (one src o pos h.0) (
        rw (phase-after o pos xs) at
          (extract_elements-Skips P vt f one n (src + size_of vt) o (pos + length xs) h.1))

  extract_block-Skips :
      (P : ℕ → Type 0) (vt : AnyValueType) (f : Step)
      → Element P vt f
      → Answers r.same_type r.tsc vt
      → (n src o pos : ℕ) → AllAt m P (size_of vt) n src
      → Skips o pos
          (many vt n (phase o pos) src)
          (extract_block r sw dw w f vt skip_mode (size_of vt) n)
  unfolding extract_block unless_skip
  extract_block-Skips P vt f one answers n src o pos h rest s =
      let xs = many vt n (phase o pos) src in
      let by_parts = extract_elements-Skips P vt f one n src o pos h rest s in
      elim (Bool-cases (sw || dw)) [
        | inl swaps ↦ rw swaps by_parts
        | inr same ↦
            rw
              (
                same,
                lookup_many-dense r.same_type r.tsc vt (offset (at_position o pos (xs ++ rest)))
                    answers,
                offset-phase o pos (xs ++ rest),
              )
              (elim (Bool-cases (dense vt (phase o pos) && dense vt (phase o pos + size_of vt))) [
                | inl d ↦
                    let (d₁, d₂) = and_parts _ _ d in
                    rw
                      (
                        d,
                        cdr_many-bytes e m vt (cdr-bytes e m vt) n (phase o pos) src d₁ d₂,
                        advance-front (n * size_of vt) o pos (bytes m src (n * size_of vt)) rest
                            (length-bytes m src (n * size_of vt)),
                        length-bytes m src (n * size_of vt),
                      )
                      refl
                | inr d ↦ rw d by_parts
              ])
      ]

  extract_rest-Skips :
      (P : ℕ → Type 0) (vt : AnyValueType) (f : Step)
      → Element P vt f
      → Answers r.same_type r.tsc vt
      → sizeof_type vt ≡ ok (size_of vt)
      → (n src o pos : ℕ) → AllAt m P (size_of vt) n src
      → Skips o pos (many vt n (phase o pos) src) (extract_rest r sw dw w f vt skip_mode n)
  unfolding extract_rest cdr_many
  extract_rest-Skips P vt f one answers size zero src o pos h rest s = nothing o pos rest s
  extract_rest-Skips P vt f one answers size (suc n) src o pos h rest s =
      rw size (extract_block-Skips P vt f one answers (suc n) src o pos h rest s)

  extractkey_many-Skips :
      (P : ℕ → Type 0) (vt : AnyValueType) (f : Step)
      → Element P vt f
      → Answers r.same_type r.tsc vt
      → sizeof_type vt ≡ ok (size_of vt)
      → (n src o pos : ℕ) → AllAt m P (size_of vt) n src
      → Skips o pos (many vt n (phase o pos) src) (extractkey_many r sw dw w f vt skip_mode n)
  unfolding extractkey_many cdr_many AllAt
  extractkey_many-Skips P vt f one answers size zero src o pos h = nothing o pos
  extractkey_many-Skips P vt f one answers size (suc n) src o pos h =
      let xs = cdr e m vt (phase o pos) src in
      skip_then o pos xs _ f (extract_rest r sw dw w f vt skip_mode n) (one src o pos h.0) (
        rw (phase-after o pos xs) at
          (extract_rest-Skips P vt f one answers size n (src + size_of vt) o (pos + length xs) h.1))

  member_skip :
      (f : Step) (b : Bool) (o pos : ℕ) (xs : List ℕ)
      → Skips o pos xs f
      → Skips o pos xs (extract_member r sw dw w (λ _. f) skip_mode b)
  unfolding extract_member
  member_skip f b o pos xs h = h

  module _ (agrees : sw ≡ needs_swap r.native_endian (encoding e)) where
    mutual
      unfolding extractkey extractkey_members cdr cdr_members Parts IsSupported AreSupported Fits
          FitMembers extractkey_u8_string extractkey_u16_string extractkey_bool_vector
          extract_member unless_skip

      extractkey-Skips_any :
          (vt : AnyValueType)
          → IsSupported vt
          → Covers r.same_type r.tsc vt
          → Element (Fits m vt) vt (extractkey r sw dw w vt skip_mode)
      extractkey-Skips_any (primitive_value_type k) i h src o pos fits =
          skip_or_apply-Skips (primitive_value_type k) src o pos _ h.0
            (extractkey_primitive-Skips k src o pos)
      extractkey-Skips_any (u8_string_value_type size bound) i h src o pos fits =
          let n = length (m.u8_data src) + 1 in
          skip_or_apply-Skips (u8_string_value_type size bound) src o pos _ h.0 (
            give_skip o pos _ _ n (deserialize_u32 r sw) (extract_u8_body r sw dw w skip_mode)
              (deserialize_u32-Gives r m e sw agrees o pos n fits)
              (extract_u8_body-Skips (m.u8_data src) o _))
      extractkey-Skips_any (u16_string_value_type size bound) i h src o pos fits =
          let n = 2 * length (m.u16_data src) in
          skip_or_apply-Skips (u16_string_value_type size bound) src o pos _ h.0 (
            give_skip o pos _ _ n (deserialize_u32 r sw) (extract_u16_body r sw dw w skip_mode)
              (deserialize_u32-Gives r m e sw agrees o pos n fits.0)
              (extract_u16_body-Skips (m.u16_data src) o _))
      extractkey-Skips_any (struct_value_type size members) i h src o pos fits =
          skip_or_apply-Skips (struct_value_type size members) src o pos _ h.0
            (extractkey-Skips_members members _ i h.1 src o pos fits)
      extractkey-Skips_any (array_value_type element n) i h src o pos fits =
          skip_or_apply-Skips (array_value_type element n) src o pos _ h.0 (
            extractkey_many-Skips (Fits m element) element (extractkey r sw dw w element skip_mode)
              (extractkey-Skips_any element i.1 h.1) h.1.0 i.0 n src o pos fits)
      extractkey-Skips_any (span_sequence_value_type size element bound) i h src o pos fits =
          let count = m.sequence_size src in
          let xs = cdr_u32 e m (phase o pos) count in
          skip_or_apply-Skips (span_sequence_value_type size element bound) src o pos _ h.0 (
            give_skip o pos xs _ count (deserialize_u32 r sw)
              (extractkey_many r sw dw w (extractkey r sw dw w element skip_mode) element skip_mode)
              (deserialize_u32-Gives r m e sw agrees o pos count fits.0)
              (rw (phase-after o pos xs) at (
                extractkey_many-Skips (Fits m element) element
                  (extractkey r sw dw w element skip_mode) (extractkey-Skips_any element i.1 h.1)
                  h.1.0 i.0 count (m.sequence_contents src) o (pos + length xs) fits.1)))
      extractkey-Skips_any (bool_vector_value_type size bound) i h src o pos fits =
          let n = length (m.bool_vector src) in
          skip_or_apply-Skips (bool_vector_value_type size bound) src o pos _ h.0 (
            give_skip o pos _ _ n (deserialize_u32 r sw) (extract_bools_body r sw dw w skip_mode)
              (deserialize_u32-Gives r m e sw agrees o pos n fits)
              (extract_bools_body-Skips (m.bool_vector src) o _))

      extractkey-Skips_members :
          (ms : Members) (all : Bool)
          → AreSupported ms
          → CoversMembers r.same_type r.tsc ms
          → (src o pos : ℕ) → FitMembers m ms src
          → Skips o pos
              (cdr_members e m ms (phase o pos) src)
              (extractkey_members r sw dw w ms all skip_mode)
      extractkey-Skips_members end all i h src o pos fits = nothing o pos
      extractkey-Skips_members (member vt at is_key rest) all i h src o pos fits =
          let xs = cdr e m vt (phase o pos) (src + at) in
          skip_then o pos xs _ (extractkey r sw dw w vt skip_mode)
            (extractkey_members r sw dw w rest all skip_mode)
            (extractkey-Skips_any vt i.0 h.0 (src + at) o pos fits.0)
            (rw (phase-after o pos xs) at
              (extractkey-Skips_members rest all i.1 h.1 src o (pos + length xs) fits.1))

-- A part of a sample that does not belong to the key: `extractkey` passes over exactly its CDR form
-- and puts nothing, whether or not it takes the short cut of the cache, for every supported type
-- that the cache covers, either byte order of the sender and of the destination and every write
-- cursor, where the lengths fit in 32 bits.
pub extractkey-skip_mode :
    (r : CdrReader) (m : Memory) (e : Endian) (bswap_dst : Bool) {S : Type 0} (w : WriteCursor S)
    (vt : AnyValueType)
    → IsSupported vt
    → Covers r.same_type r.tsc vt
    → (src o pos : ℕ) (rest : List ℕ) (s : S) → Fits m vt src
    → extractkey r
        (needs_swap r.native_endian (encoding e))
        bswap_dst
        w
        vt
        skip_mode
        (at_position o pos (cdr e m vt (phase o pos) src ++ rest))
        s
      ≡ ok (at_position o (pos + length (cdr e m vt (phase o pos) src)) rest, s)
extractkey-skip_mode r m e bswap_dst w vt i h src o pos rest s fits =
    extractkey-Skips_any r m e (needs_swap r.native_endian (encoding e)) bswap_dst w refl vt i h src
      o pos fits rest s
