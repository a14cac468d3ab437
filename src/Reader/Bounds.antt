-- ===== src/Reader/Bounds.antt =====
-- `CDRReader::deserialize` on any input, malformed ones included.
use rmw_cyclonedds.Base.{
  ◌≢◌, read_past_end, Bool-cases, inl, inr, arith, ℕ, zero, suc, ◌+◌, ◌-◌, ◌*◌, ◌%◌, ◌||◌, Bool,
  true, false, List, [], ◌==◌, Exception, Result, ok, throw, ◌>>=◌,
}
use rmw_cyclonedds.TypeSupport.{
  AnyValueType, primitive_value_type, u8_string_value_type, u16_string_value_type,
  struct_value_type, array_value_type, span_sequence_value_type, bool_vector_value_type, Members,
  end, member, sizeof_type, cdrsizeof_primitive,
}
use rmw_cyclonedds.Writer.{SampleOrKey, sample, key, all_fields}
use rmw_cyclonedds.Reader.{
  byte_at, first_bytes, offset, CdrReader, DeserializeCursor, Store, Read, ◌>>>◌, advance,
  align_read, get_bytes, deserialize_primitive, deserialize_u32, u8_string_body,
  deserialize_u8_string, u16_string_body, deserialize_u16_string, deserialize_bool_vector,
  deserialize_elements, deserialize_block, deserialize_rest, deserialize_many, copy_or_apply,
  resize_to, deserialize, deserialize_members,
}
use rmw_cyclonedds.Reader.Within.{
  Sound, advance-Passes, byte_at-Sound, first_bytes-Sound, sizeof_type-Sound, lookup-Sound,
  lookup_many-Sound, Holds, Within, Moves, Reaches, Within-trans, bind-Holds, advance-Within,
  if-Holds, weaken, continue_with, continue_from, done, align_read-Within,
}

module _ (r : CdrReader) (sw : Bool) where
  get_bytes-Within :
      (b : Bool) (n dst : ℕ) (c : DeserializeCursor) → Moves c (get_bytes r sw b n dst c)
  unfolding get_bytes
  get_bytes-Within b n dst c =
      continue_from c (advance n c) _ (advance-Within n c) (λ bs c'. done c' _)

  deserialize_primitive-Within :
      (n dst : ℕ) (c : DeserializeCursor) → Moves c (deserialize_primitive r sw n dst c)
  unfolding deserialize_primitive
  deserialize_primitive-Within n dst c =
      bind-Holds _ _ (align_read n c) _ (align_read-Within n c)
        (λ c' w. weaken c c' _ w (get_bytes-Within sw n dst c'))

  deserialize_u32-Within : (c : DeserializeCursor) → Reaches c (deserialize_u32 r sw c)
  unfolding deserialize_u32 Holds
  deserialize_u32-Within c = bind-Holds _ _ (align_read 4 c) _ (align_read-Within 4 c) (λ c' w.
      bind-Holds _ _ (advance 4 c') _ (advance-Within 4 c')
        (λ (bs, c'') w'. Within-trans c c' c'' w w'))

  throws :
      (c : DeserializeCursor) (e : Exception)
      → e ≢ read_past_end
      → Moves {A = List Store} c (throw e)
  unfolding Holds
  throws c e h = h

  u8_string_body-Within :
      (dst size : ℕ) (c : DeserializeCursor) → Moves c (u8_string_body r sw dst size c)
  unfolding u8_string_body
  u8_string_body-Within dst size c = elim (Bool-cases (size == 0)) [
    | inl empty ↦ rw empty (throws c _ (λ e. cc))
    | inr some_bytes ↦ rw some_bytes (
        bind-Holds _ _ (advance size c) _ (advance-Passes size c) (λ (bs, c') (all, w).
          weaken c c' _ w (
            bind-Holds _ _ (byte_at bs (size - 1)) _ (byte_at-Sound bs (size - 1) (ground arith))
              (λ last u.
                if-Holds _ (last == 0) _ _
                  (bind-Holds _ _ (first_bytes (size - 1) bs) _
                    (first_bytes-Sound (size - 1) bs (omega arith)) (λ s v. done c' _))
                  (throws c' _ (λ e. cc))))))
  ]

  deserialize_u8_string-Within :
      (dst : ℕ) (c : DeserializeCursor) → Moves c (deserialize_u8_string r sw dst c)
  unfolding deserialize_u8_string
  deserialize_u8_string-Within dst c =
      continue_from c (deserialize_u32 r sw c) _ (deserialize_u32-Within c)
        (λ size c'. u8_string_body-Within dst size c')

  deserialize_u16_string-Within :
      (dst : ℕ) (c : DeserializeCursor) → Moves c (deserialize_u16_string r sw dst c)
  unfolding deserialize_u16_string u16_string_body
  deserialize_u16_string-Within dst c =
      continue_from c (deserialize_u32 r sw c) _ (deserialize_u32-Within c) (λ size c'.
        if-Holds _ (size % 2 == 0) _ _
          (continue_from c' (advance size c') _ (advance-Within size c') (λ bs c''. done c'' _))
          (throws c' _ (λ e. cc)))

  deserialize_bool_vector-Within :
      (dst : ℕ) (c : DeserializeCursor) → Moves c (deserialize_bool_vector r sw dst c)
  unfolding deserialize_bool_vector
  deserialize_bool_vector-Within dst c =
      continue_from c (deserialize_u32 r sw c) _ (deserialize_u32-Within c) (λ size c'.
        continue_from c' (advance size c') _ (advance-Within size c') (λ bs c''. done c'' _))

  abbrev Safe : Read → Type 0
  Safe f = (c : DeserializeCursor) → Moves c (f c)

  both-Safe : (f g : Read) → Safe f → Safe g → Safe (f >>> g)
  unfolding ◌>>>◌
  both-Safe f g hf hg c =
      continue_with c (f c) _ (hf c)
        (λ c' k. continue_with c' (g c') _ (hg c') (λ c'' l. done c'' _))

  deserialize_elements-Safe :
      (f : ℕ → Read)
      → ((dst : ℕ) → Safe (f dst))
      → (size dst i n : ℕ) → Safe (deserialize_elements r sw f size dst i n)
  unfolding deserialize_elements
  deserialize_elements-Safe f h size dst i zero c = done c []
  deserialize_elements-Safe f h size dst i (suc n) c =
      both-Safe (f (dst + i * size)) (deserialize_elements r sw f size dst (i + 1) n)
        (h (dst + i * size)) (deserialize_elements-Safe f h size dst (i + 1) n) c

  -- Whatever the answer of the cache is, an exception included.
  choose-Moves :
      (c : DeserializeCursor) (answer : Result Bool) (x y : Result (DeserializeCursor × List Store))
      → Sound answer
      → Moves c x
      → Moves c y
      → Moves c (answer >>= λ b. elim b [ true ↦ x | false ↦ y ])
  unfolding Holds
  choose-Moves c (throw e) x y s h k = s
  choose-Moves c (ok true) x y s h k = h
  choose-Moves c (ok false) x y s h k = k

  if-Moves :
      (c : DeserializeCursor) (b : Bool) (x y : Result (DeserializeCursor × List Store))
      → Moves c x
      → Moves c y
      → Moves c (elim b [ true ↦ x | false ↦ y ])
  if-Moves c true x y h k = h
  if-Moves c false x y h k = k

  size_then :
      (c : DeserializeCursor) (size : Result ℕ) (f : ℕ → Result (DeserializeCursor × List Store))
      → Sound size
      → ((n : ℕ) → Moves c (f n))
      → Moves c (size >>= f)
  unfolding Holds
  size_then c (throw e) f s h = s
  size_then c (ok n) f s h = h n

  -- The cache is asked only where nothing is swapped.
  asked :
      (swap : Bool) (answer : Result Bool)
      → Sound answer
      → Sound (elim swap [ true ↦ ok false | false ↦ answer ])
  unfolding Holds
  asked true answer h = tt
  asked false answer h = h

  deserialize_block-Safe :
      (f : ℕ → Read)
      → ((dst : ℕ) → Safe (f dst))
      → (vt : AnyValueType) (size dst n : ℕ) → Safe (deserialize_block r sw f vt size dst n)
  unfolding deserialize_block
  deserialize_block-Safe f h vt size dst n c =
      choose-Moves c _ _ _ (asked sw _ (lookup_many-Sound r.same_type r.tsc (offset c) vt))
        (get_bytes-Within false (n * size) dst c) (deserialize_elements-Safe f h size dst 0 n c)

  deserialize_many-Safe :
      (f : ℕ → Read)
      → ((dst : ℕ) → Safe (f dst))
      → (vt : AnyValueType) (dst n : ℕ) → Safe (deserialize_many r sw f vt dst n)
  unfolding deserialize_many deserialize_rest
  deserialize_many-Safe f h vt dst zero c = done c []
  deserialize_many-Safe f h vt dst (suc zero) c = both-Safe (f dst) _ (h dst) (λ c'. done c' []) c
  deserialize_many-Safe f h vt dst (suc (suc n)) c =
      both-Safe (f dst) _ (h dst)
        (λ c'.
          size_then c' (sizeof_type vt) _ (sizeof_type-Sound vt)
            (λ size. deserialize_block-Safe f h vt size (dst + size) (suc n) c'))
        c

  copy_or_apply-Safe :
      (vt : AnyValueType) (what : SampleOrKey) (dst : ℕ) (apply : Read)
      → Safe apply
      → Safe (copy_or_apply r sw vt what dst apply)
  unfolding copy_or_apply
  copy_or_apply-Safe vt key dst apply h c = h c
  copy_or_apply-Safe vt sample dst apply h c =
      choose-Moves c _ _ _ (asked sw _ (lookup-Sound r.same_type r.tsc (offset c) vt))
        (size_then c (sizeof_type vt) _ (sizeof_type-Sound vt)
          (λ size. get_bytes-Within false size dst c))
        (h c)

  resize_to-Safe : (dst count : ℕ) → Safe (resize_to r sw dst count)
  unfolding resize_to
  resize_to-Safe dst count c = done c _

  mutual
    unfolding deserialize deserialize_members

    deserialize-Safe :
        (vt : AnyValueType) (what : SampleOrKey) (dst : ℕ) → Safe (deserialize r sw vt what dst)
    deserialize-Safe (primitive_value_type k) what dst =
        copy_or_apply-Safe (primitive_value_type k) what dst _
          (deserialize_primitive-Within (cdrsizeof_primitive k) dst)
    deserialize-Safe (u8_string_value_type size bound) what dst =
        copy_or_apply-Safe (u8_string_value_type size bound) what dst _
          (deserialize_u8_string-Within dst)
    deserialize-Safe (u16_string_value_type size bound) what dst =
        copy_or_apply-Safe (u16_string_value_type size bound) what dst _
          (deserialize_u16_string-Within dst)
    deserialize-Safe (struct_value_type size members) what dst =
        copy_or_apply-Safe (struct_value_type size members) what dst _
          (deserialize_members-Safe members (all_fields what members) what dst)
    deserialize-Safe (array_value_type element n) what dst =
        copy_or_apply-Safe (array_value_type element n) what dst _ (
          deserialize_many-Safe (deserialize r sw element what) (deserialize-Safe element what)
            element dst n)
    deserialize-Safe (span_sequence_value_type size element bound) what dst =
        copy_or_apply-Safe (span_sequence_value_type size element bound) what dst _ λ c.
          continue_from c (deserialize_u32 r sw c) _ (deserialize_u32-Within c) (λ count c'.
            both-Safe (resize_to r sw dst count) _ (resize_to-Safe dst count)
              (deserialize_many-Safe (deserialize r sw element what) (deserialize-Safe element what)
                element (r.contents dst) count)
              c')
    deserialize-Safe (bool_vector_value_type size bound) what dst =
        copy_or_apply-Safe (bool_vector_value_type size bound) what dst _
          (deserialize_bool_vector-Within dst)

    deserialize_members-Safe :
        (ms : Members) (all : Bool) (what : SampleOrKey) (dst : ℕ)
        → Safe (deserialize_members r sw ms all what dst)
    deserialize_members-Safe end all what dst c = done c []
    deserialize_members-Safe (member vt at is_key rest) all what dst c =
        if-Moves c (all || is_key) _ _
          (both-Safe (deserialize r sw vt what (dst + at))
            (deserialize_members r sw rest all what dst) (deserialize-Safe vt what (dst + at))
            (deserialize_members-Safe rest all what dst) c)
          (deserialize_members-Safe rest all what dst c)

-- On any input, well-formed or not, and for every type, sample or key, with or without swapping:
-- `deserialize` reads no byte of a string behind the buffer that `advance` gave it, and where it throws
-- nothing, the cursor keeps its origin and its end and has not gone back, and so is not past the end of
-- the input.
pub deserialize-Within :
    (r : CdrReader) (bswap_src : Bool) (vt : AnyValueType) (what : SampleOrKey) (dst : ℕ)
    (c : DeserializeCursor)
    → Holds (λ (c', stores). Within c c') (deserialize r bswap_src vt what dst c)
deserialize-Within r bswap_src vt what dst c = deserialize-Safe r bswap_src vt what dst c
