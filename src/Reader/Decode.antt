-- ===== src/Reader/Decode.antt =====
-- `CDRReader::deserialize` on the CDR form of an object.
use rmw_cyclonedds.Base.{
  ℕ, zero, suc, ◌+◌, ◌*◌, ◌≡◌, refl, arith, Bool, true, false, ◌&&◌, List, [], ◌∷◌, ◌++◌, length,
  Bool-cases, inl, inr, ok,
}
use rmw_cyclonedds.TypeSupport.{
  AnyValueType, primitive_value_type, u8_string_value_type, u16_string_value_type,
  struct_value_type, array_value_type, span_sequence_value_type, bool_vector_value_type, Members,
  end, member, sizeof_type,
}
use rmw_cyclonedds.Memory.{Memory, Endian, bytes, length-bytes}
use rmw_cyclonedds.TriviallySerialized.Dense.{dense, size_of, sizeof_type-dense, and_parts}
use rmw_cyclonedds.TriviallySerialized.Lookup.{lookup-dense, lookup_many-dense}
use rmw_cyclonedds.TriviallySerialized.Covers.{Answers, Parts, Covers, CoversMembers}
use rmw_cyclonedds.Writer.{sample, all_fields}
use rmw_cyclonedds.Writer.Supported.{IsSupported, AreSupported}
use rmw_cyclonedds.Writer.Cdr.{cdr, cdr_members, cdr_many, cdr_u32}
use rmw_cyclonedds.Writer.Fast.{cdr-bytes, cdr_many-bytes}
use rmw_cyclonedds.Writer.Encode.{first_element, next_element}
use rmw_cyclonedds.Reader.{
  CdrReader, Store, Read, ◌>>>◌, offset, needs_swap, swap_bytes, store_bytes, resize, resize_to,
  get_bytes, copy_or_apply, deserialize_u32, deserialize_elements, deserialize_block,
  deserialize_rest, deserialize_many, deserialize, deserialize_members,
}
use rmw_cyclonedds.Reader.Cursors.{
  at_position, phase, phase-after, offset-phase, Reads, read_then, give_then, advance-front,
}
use rmw_cyclonedds.Reader.Stores.{
  AllAt, Fits, FitMembers, stored, stored_many, stored_members, stored-copied, stored_many-copied,
}
use rmw_cyclonedds.Reader.Pieces.{
  encoding, deserialize_u32-Gives, deserialize_primitive-Reads, deserialize_u8_string-Reads,
  deserialize_u16_string-Reads, deserialize_bool_vector-Reads,
}

module _ (r : CdrReader) (m : Memory) (e : Endian) where
  nothing : (o pos : ℕ) → Reads o pos [] [] (λ c. ok (c, []))
  nothing o pos rest = ground arith

  memcpy-Reads :
      (n src dst o pos : ℕ)
      → Reads o pos
          (bytes m src n)
          (store_bytes dst (bytes m src n))
          (get_bytes r false false n dst)
  unfolding get_bytes swap_bytes
  memcpy-Reads n src dst o pos rest =
      rw (advance-front n o pos (bytes m src n) rest (length-bytes m src n), length-bytes m src n)
        refl

  -- `memcpy` in place of reading member by member.
  copy_or_apply-Reads :
      (sw : Bool) (vt : AnyValueType) (src dst o pos : ℕ) (apply : Read)
      → Answers r.same_type r.tsc vt
      → Reads o pos (cdr e m vt (phase o pos) src) (stored m r.contents sw vt src dst) apply
      → Reads o pos
          (cdr e m vt (phase o pos) src)
          (stored m r.contents sw vt src dst)
          (copy_or_apply r sw vt sample dst apply)
  unfolding copy_or_apply
  copy_or_apply-Reads true vt src dst o pos apply answers h rest = h rest
  copy_or_apply-Reads false vt src dst o pos apply answers h rest =
      let xs = cdr e m vt (phase o pos) src in
      rw
        (
          lookup-dense r.same_type r.tsc vt (offset (at_position o pos (xs ++ rest))) answers,
          offset-phase o pos (xs ++ rest),
        )
        (elim (Bool-cases (dense vt (phase o pos))) [
          | inl d ↦
              rw
                (
                  d,
                  sizeof_type-dense vt (phase o pos) d,
                  cdr-bytes e m vt (phase o pos) src d,
                  stored-copied m r.contents vt (phase o pos) src dst d,
                )
                (memcpy-Reads (size_of vt) src dst o pos rest)
          | inr d ↦ rw d (h rest)
        ])

  -- A step that reads one element of a type, at the addresses where `P` holds.
  abbrev Element : Bool → (ℕ → Type 0) → AnyValueType → (ℕ → Read) → Type 0
  Element sw P vt f =
      (src dst o pos : ℕ)
      → P src
      → Reads o pos (cdr e m vt (phase o pos) src) (stored m r.contents sw vt src dst) (f dst)

  deserialize_elements-Reads :
      (sw : Bool) (P : ℕ → Type 0) (vt : AnyValueType) (f : ℕ → Read)
      → Element sw P vt f
      → (n i src dst o pos : ℕ) → AllAt m P (size_of vt) n src
      → Reads o pos
          (cdr_many e m (cdr e m vt) (size_of vt) n (phase o pos) src)
          (stored_many m r.contents sw
            (stored m r.contents sw vt)
            (size_of vt)
            n
            src
            (dst + i * size_of vt))
          (deserialize_elements r sw f (size_of vt) dst i n)
  unfolding deserialize_elements cdr_many stored_many AllAt
  deserialize_elements-Reads sw P vt f one zero i src dst o pos h = nothing o pos
  deserialize_elements-Reads sw P vt f one (suc n) i src dst o pos h =
      let xs = cdr e m vt (phase o pos) src in
      read_then o pos xs _ _ _ (f (dst + i * size_of vt))
        (deserialize_elements r sw f (size_of vt) dst (i + 1) n)
        (one src (dst + i * size_of vt) o pos h.0)
        (rw (phase-after o pos xs, next_element dst i (size_of vt)) at
          (deserialize_elements-Reads sw P vt f one n (i + 1) (src + size_of vt) dst o
            (pos + length xs) h.1))

  -- The form and the stores of a run of elements.
  abbrev many : AnyValueType → ℕ → ℕ → ℕ → List ℕ
  many vt n p src = cdr_many e m (cdr e m vt) (size_of vt) n p src

  abbrev many_stored : Bool → AnyValueType → ℕ → ℕ → ℕ → List Store
  many_stored sw vt n src dst =
      stored_many m r.contents sw (stored m r.contents sw vt) (size_of vt) n src dst

  deserialize_block-Reads :
      (sw : Bool) (P : ℕ → Type 0) (vt : AnyValueType) (f : ℕ → Read)
      → Element sw P vt f
      → Answers r.same_type r.tsc vt
      → (n src dst o pos : ℕ) → AllAt m P (size_of vt) n src
      → Reads o pos
          (many vt n (phase o pos) src)
          (many_stored sw vt n src dst)
          (deserialize_block r sw f vt (size_of vt) dst n)
  unfolding deserialize_block
  deserialize_block-Reads true P vt f one answers n src dst o pos h rest =
      (rw (first_element dst (size_of vt)) at
          (deserialize_elements-Reads true P vt f one n 0 src dst o pos h))
        rest
  deserialize_block-Reads false P vt f one answers n src dst o pos h rest =
      let xs = many vt n (phase o pos) src in
      rw
        (
          lookup_many-dense r.same_type r.tsc vt (offset (at_position o pos (xs ++ rest))) answers,
          offset-phase o pos (xs ++ rest),
        )
        (elim (Bool-cases (dense vt (phase o pos) && dense vt (phase o pos + size_of vt))) [
          | inl d ↦
              let (d₁, d₂) = and_parts _ _ d in
              rw
                (
                  d,
                  cdr_many-bytes e m vt (cdr-bytes e m vt) n (phase o pos) src d₁ d₂,
                  stored_many-copied m r.contents vt (stored-copied m r.contents vt) n (phase o pos)
                      src dst d₁ d₂,
                )
                (memcpy-Reads (n * size_of vt) src dst o pos rest)
          | inr d ↦ rw d (
              (rw (first_element dst (size_of vt)) at
                  (deserialize_elements-Reads false P vt f one n 0 src dst o pos h))
                rest)
        ])

  deserialize_rest-Reads :
      (sw : Bool) (P : ℕ → Type 0) (vt : AnyValueType) (f : ℕ → Read)
      → Element sw P vt f
      → Answers r.same_type r.tsc vt
      → sizeof_type vt ≡ ok (size_of vt)
      → (n src dst o pos : ℕ) → AllAt m P (size_of vt) n src
      → Reads o pos
          (many vt n (phase o pos) src)
          (many_stored sw vt n src (dst + size_of vt))
          (deserialize_rest r sw f vt dst n)
  unfolding deserialize_rest cdr_many stored_many
  deserialize_rest-Reads sw P vt f one answers size zero src dst o pos h rest = nothing o pos rest
  deserialize_rest-Reads sw P vt f one answers size (suc n) src dst o pos h rest =
      rw size
        (deserialize_block-Reads sw P vt f one answers (suc n) src (dst + size_of vt) o pos h rest)

  deserialize_many-Reads :
      (sw : Bool) (P : ℕ → Type 0) (vt : AnyValueType) (f : ℕ → Read)
      → Element sw P vt f
      → Answers r.same_type r.tsc vt
      → sizeof_type vt ≡ ok (size_of vt)
      → (n src dst o pos : ℕ) → AllAt m P (size_of vt) n src
      → Reads o pos
          (many vt n (phase o pos) src)
          (many_stored sw vt n src dst)
          (deserialize_many r sw f vt dst n)
  unfolding deserialize_many cdr_many stored_many AllAt
  deserialize_many-Reads sw P vt f one answers size zero src dst o pos h = nothing o pos
  deserialize_many-Reads sw P vt f one answers size (suc n) src dst o pos h =
      let xs = cdr e m vt (phase o pos) src in
      read_then o pos xs _ _ _ (f dst) (deserialize_rest r sw f vt dst n) (one src dst o pos h.0) (
        rw (phase-after o pos xs) at (
          deserialize_rest-Reads sw P vt f one answers size n (src + size_of vt) dst o
            (pos + length xs) h.1))

  resize_then :
      (sw : Bool) (count dst o pos : ℕ) (ys : List ℕ) (l : List Store) (g : Read)
      → Reads o pos ys l g
      → Reads o pos ys ((resize dst count ∷ []) ++ l) (resize_to r sw dst count >>> g)
  unfolding resize_to ◌>>>◌
  resize_then sw count dst o pos ys l g h rest = rw (h rest) refl

  module _ (sw : Bool) (agrees : sw ≡ needs_swap r.native_endian (encoding e)) where
    mutual
      unfolding deserialize deserialize_members cdr cdr_members stored stored_members Parts
          IsSupported AreSupported Fits FitMembers all_fields

      deserialize-Reads_any :
          (vt : AnyValueType)
          → IsSupported vt
          → Covers r.same_type r.tsc vt
          → Element sw (Fits m vt) vt (deserialize r sw vt sample)
      deserialize-Reads_any (primitive_value_type k) i h src dst o pos fits =
          copy_or_apply-Reads sw (primitive_value_type k) src dst o pos _ h.0
            (deserialize_primitive-Reads r m e sw agrees k src dst o pos)
      deserialize-Reads_any (u8_string_value_type size bound) i h src dst o pos fits =
          copy_or_apply-Reads sw (u8_string_value_type size bound) src dst o pos _ h.0
            (deserialize_u8_string-Reads r m e sw agrees src dst o pos fits)
      deserialize-Reads_any (u16_string_value_type size bound) i h src dst o pos fits =
          copy_or_apply-Reads sw (u16_string_value_type size bound) src dst o pos _ h.0
            (deserialize_u16_string-Reads r m e sw agrees src dst o pos fits.0 fits.1)
      deserialize-Reads_any (struct_value_type size members) i h src dst o pos fits =
          copy_or_apply-Reads sw (struct_value_type size members) src dst o pos _ h.0
            (deserialize-Reads_members members i h.1 src dst o pos fits)
      deserialize-Reads_any (array_value_type element n) i h src dst o pos fits =
          copy_or_apply-Reads sw (array_value_type element n) src dst o pos _ h.0 (
            deserialize_many-Reads sw (Fits m element) element (deserialize r sw element sample)
              (deserialize-Reads_any element i.1 h.1) h.1.0 i.0 n src dst o pos fits)
      deserialize-Reads_any (span_sequence_value_type size element bound) i h src dst o pos fits =
          let count = m.sequence_size src in
          let xs = cdr_u32 e m (phase o pos) count in
          copy_or_apply-Reads sw (span_sequence_value_type size element bound) src dst o pos _ h.0 (
            give_then o pos xs _ count _ (deserialize_u32 r sw)
              (λ n.
                resize_to r sw dst n
                >>> deserialize_many r sw (deserialize r sw element sample) element (r.contents dst)
                    n)
              (deserialize_u32-Gives r m e sw agrees o pos count fits.0)
              (resize_then sw count dst o (pos + length xs) _ _ _ (
                rw (phase-after o pos xs) at (
                  deserialize_many-Reads sw (Fits m element) element
                    (deserialize r sw element sample) (deserialize-Reads_any element i.1 h.1) h.1.0
                    i.0 count (m.sequence_contents src) (r.contents dst) o (pos + length xs)
                    fits.1))))
      deserialize-Reads_any (bool_vector_value_type size bound) i h src dst o pos fits =
          copy_or_apply-Reads sw (bool_vector_value_type size bound) src dst o pos _ h.0
            (deserialize_bool_vector-Reads r m e sw agrees src dst o pos fits)

      deserialize-Reads_members :
          (ms : Members)
          → AreSupported ms
          → CoversMembers r.same_type r.tsc ms
          → (src dst o pos : ℕ) → FitMembers m ms src
          → Reads o pos
              (cdr_members e m ms (phase o pos) src)
              (stored_members m r.contents sw ms src dst)
              (deserialize_members r sw ms true sample dst)
      deserialize-Reads_members end i h src dst o pos fits = nothing o pos
      deserialize-Reads_members (member vt at is_key rest) i h src dst o pos fits =
          let xs = cdr e m vt (phase o pos) (src + at) in
          read_then o pos xs _ _ _ (deserialize r sw vt sample (dst + at))
            (deserialize_members r sw rest true sample dst)
            (deserialize-Reads_any vt i.0 h.0 (src + at) (dst + at) o pos fits.0)
            (rw (phase-after o pos xs) at
              (deserialize-Reads_members rest i.1 h.1 src dst o (pos + length xs) fits.1))

    -- Whatever the byte order of the sender, `deserialize` reads exactly the CDR form of a sample and
    -- makes the stores of the sender's object, for every supported type that the cache covers, where
    -- the lengths fit in 32 bits.
    pub deserialize-Reads :
        (vt : AnyValueType)
        → IsSupported vt
        → Covers r.same_type r.tsc vt
        → (src dst o pos : ℕ) → Fits m vt src
        → Reads o pos
            (cdr e m vt (phase o pos) src)
            (stored m r.contents sw vt src dst)
            (deserialize r sw vt sample dst)
    deserialize-Reads vt i h src dst o pos fits = deserialize-Reads_any vt i h src dst o pos fits
