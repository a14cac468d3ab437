-- ===== src/Writer/Put.antt =====
-- The helpers of `CDRWriter`, each as one `put_bytes` of a list of bytes.
use rmw_cyclonedds.Base.{
  ℕ, ◌+◌, ◌-◌, ◌*◌, ◌%◌, ◌^◌, ◌<◌, ◌≡◌, refl, sym, ◌∙◌, Bool, true, false, ◌||◌, ◌==◌, List, [],
  ◌∷◌, ◌++◌, length, map, replicate, arith, Bool-cases, inl, inr, if◌then◌else◌, length-map,
  length-replicate,
}
use rmw_cyclonedds.TypeSupport.{
  PrimitiveTypeKind, cdrsizeof_primitive, sizeof_primitive, cdralignof_primitive,
}
use rmw_cyclonedds.Memory.{
  Memory, Endian, little, big, bytes, u32_bytes, u16s_bytes, length-u16s_bytes, bool_byte,
}
use rmw_cyclonedds.Cursor.{word, WriteCursor, IsWriteCursor, align}
use rmw_cyclonedds.Writer.Cdr.{padding, after, cdr_u32}
use rmw_cyclonedds.Writer.{
  CdrWriter, serialize_u32, put_primitive, serialize_primitive, serialize_u8_string,
  serialize_u16_string, put_bools, serialize_bool_vector,
}
use native.Mathlib.Nat.{mod_self, mod-eq_of_lt, mod-one, sub-zero}

u32_bytes-mod : (e : Endian) (v : ℕ) → u32_bytes e (v % 2 ^ 32) ≡ u32_bytes e v
unfolding u32_bytes
u32_bytes-mod little v = ground arith
u32_bytes-mod big v = ground arith

pub no_gap : (n o : ℕ) → (n == 1 || o % n == 0) ≡ true → o % n ≡ 0
no_gap n o h = ground (arith, mod-one o)

pub no_padding : (n x : ℕ) → x ≡ 0 → (n - x) % n ≡ 0
no_padding n x h = rw (h, sub-zero n, mod_self n)

pub gap : (n o : ℕ) → (n == 1 || o % n == 0) ≡ false → 0 < o % n
gap n o h = ground arith

pub some_padding : (n x : ℕ) → 0 < x → 0 < n → (n - x) % n ≡ n - x
some_padding n x h k = mod-eq_of_lt (omega arith)

choose {ℓ} :
    {A : Type ℓ} (b : Bool) (x y z : A) → (b ≡ true → x ≡ z) → y ≡ z → (if b then x else y) ≡ z
choose true x y z h k = h refl
choose false x y z h k = k

module _ (w : CdrWriter) (m : Memory) {S : Type 0} (c : WriteCursor S)
    (laws : IsWriteCursor c) where
  -- The offset modulo 8, behind some bytes.
  pub offset_put_phase :
      (xs : List ℕ) (s : S) → c.offset (c.put_bytes xs s) % 8 ≡ after (c.offset s % 8) xs
  offset_put_phase xs s = omega (arith, laws.offset_put xs s)

  pub offset_put_lt : (xs : List ℕ) (s : S) → c.offset (c.put_bytes xs s) < word
  offset_put_lt xs s = omega (arith, laws.offset_put xs s)

  align_put :
      (n : ℕ) (s : S)
      → 0 < n
      → c.offset s % 8 % n ≡ c.offset s % n
      → c.offset s < word
      → align c n s ≡ c.put_bytes (padding (c.offset s % 8) n) s
  unfolding align padding
  align_put n s h e fits = elim (Bool-cases (n == 1 || c.offset s % n == 0)) [
    | inl skip ↦
        rw (skip, e, no_padding n (c.offset s % n) (no_gap n (c.offset s) skip))
          (sym (laws.put_nil s fits))
    | inr move ↦
        rw (move, e, some_padding n (c.offset s % n) (gap n (c.offset s) move) h)
          (laws.advance_zeros (n - c.offset s % n) s)
  ]

  align_primitive :
      (k : PrimitiveTypeKind) (s : S)
      → c.offset s < word
      → align c (cdralignof_primitive k) s
        ≡ c.put_bytes (padding (c.offset s % 8) (cdrsizeof_primitive k)) s
  unfolding cdralignof_primitive cdrsizeof_primitive
  align_primitive PrimitiveTypeKind.float s fits = align_put 4 s (omega arith) (omega arith) fits
  align_primitive PrimitiveTypeKind.double s fits = align_put 8 s (omega arith) (omega arith) fits
  align_primitive PrimitiveTypeKind.uint64 s fits = align_put 8 s (omega arith) (omega arith) fits
  align_primitive PrimitiveTypeKind.int64 s fits = align_put 8 s (omega arith) (omega arith) fits
  align_primitive PrimitiveTypeKind.uint32 s fits = align_put 4 s (omega arith) (omega arith) fits
  align_primitive PrimitiveTypeKind.int32 s fits = align_put 4 s (omega arith) (omega arith) fits
  align_primitive PrimitiveTypeKind.uint16 s fits = align_put 2 s (omega arith) (omega arith) fits
  align_primitive PrimitiveTypeKind.int16 s fits = align_put 2 s (omega arith) (omega arith) fits
  align_primitive PrimitiveTypeKind.wchar s fits = align_put 2 s (omega arith) (omega arith) fits
  align_primitive _ s fits = align_put 1 s (omega arith) (omega arith) fits

  -- No primitive object is larger than its CDR form, so the last branch is never taken.
  put_primitive-bytes :
      (k : PrimitiveTypeKind) (src : ℕ) (s : S)
      → put_primitive w m c k src s ≡ c.put_bytes (bytes m src (cdrsizeof_primitive k)) s
  unfolding put_primitive sizeof_primitive cdrsizeof_primitive
  put_primitive-bytes PrimitiveTypeKind.float src s = refl
  put_primitive-bytes PrimitiveTypeKind.double src s = refl
  put_primitive-bytes _ src s = refl

  pub serialize_primitive-put :
      (k : PrimitiveTypeKind) (src : ℕ) (s : S)
      → c.offset s < word
      → serialize_primitive w m c k src s
        ≡ c.put_bytes
            (padding (c.offset s % 8) (cdrsizeof_primitive k)
              ++ bytes m src (cdrsizeof_primitive k))
            s
  unfolding serialize_primitive
  serialize_primitive-put k src s fits =
      rw (put_primitive-bytes, align_primitive k s fits, laws.put_append)

  pub serialize_u32-put :
      (v : ℕ) (s : S)
      → c.offset s < word
      → serialize_u32 w m c v s ≡ c.put_bytes (cdr_u32 w.native_endian m (c.offset s % 8) v) s
  unfolding serialize_u32 cdr_u32
  serialize_u32-put v s fits = rw (
    u32_bytes-mod w.native_endian v,
    align_put 4 s (omega arith) (omega arith) fits,
    laws.put_append,
    serialize_u32,
  )

  pub serialize_u8_string-put :
      (src : ℕ) (s : S)
      → c.offset s < word
      → serialize_u8_string w m c src s
        ≡ c.put_bytes
            (cdr_u32 w.native_endian m (c.offset s % 8) (length (m.u8_data src) + 1)
              ++ (m.u8_data src ++ (0 ∷ [])))
            s
  unfolding serialize_u8_string
  serialize_u8_string-put src s fits = rw (
    serialize_u32-put (length (m.u8_data src) + 1) s fits,
    laws.put_append,
    laws.put_append,
    serialize_u8_string,
  )

  -- Where data is ignored, `advance` stands for a `put_bytes` of as many bytes.
  advance_or_put :
      (n : ℕ) (xs : List ℕ) (s x : S)
      → length xs ≡ n
      → x ≡ c.put_bytes xs s
      → (if c.ignores_data then c.advance n s else x) ≡ c.put_bytes xs s
  advance_or_put n xs s x e h =
      choose c.ignores_data _ _ _
        (λ ignores.
          laws.advance_zeros n s
          ∙ laws.ignore_data (replicate n 0) xs s ignores (length-replicate n 0 ∙ sym e))
        h

  pub serialize_u16_string-put :
      (src : ℕ) (s : S)
      → c.offset s < word
      → serialize_u16_string w m c src s
        ≡ c.put_bytes
            (cdr_u32 w.native_endian m (c.offset s % 8) (2 * length (m.u16_data src))
              ++ u16s_bytes w.native_endian (m.u16_data src))
            s
  unfolding serialize_u16_string
  serialize_u16_string-put src s fits =
      rw (serialize_u32-put (2 * length (m.u16_data src)) s fits, serialize_u16_string)
        (advance_or_put (2 * length (m.u16_data src)) (u16s_bytes w.native_endian (m.u16_data src))
            _ _ (length-u16s_bytes w.native_endian (m.u16_data src)) refl
          ∙ laws.put_append _ _ s)

  put_bools-put :
      (bs : List Bool) (s : S)
      → c.offset s < word
      → put_bools w m c bs s ≡ c.put_bytes (map bool_byte bs) s
  unfolding put_bools
  put_bools-put [] s fits = sym (laws.put_nil s fits)
  put_bools-put (b ∷ bs) s fits =
      put_bools-put bs (c.put_bytes (bool_byte b ∷ []) s) (offset_put_lt (bool_byte b ∷ []) s)
      ∙ laws.put_append (bool_byte b ∷ []) (map bool_byte bs) s

  pub serialize_bool_vector-put :
      (src : ℕ) (s : S)
      → c.offset s < word
      → serialize_bool_vector w m c src s
        ≡ c.put_bytes
            (cdr_u32 w.native_endian m (c.offset s % 8) (length (m.bool_vector src))
              ++ map bool_byte (m.bool_vector src))
            s
  unfolding serialize_bool_vector
  serialize_bool_vector-put src s fits =
      let size = cdr_u32 w.native_endian m (c.offset s % 8) (length (m.bool_vector src)) in
      rw (serialize_u32-put (length (m.bool_vector src)) s fits, serialize_bool_vector)
        (advance_or_put (length (m.bool_vector src)) (map bool_byte (m.bool_vector src)) _ _
            (length-map (m.bool_vector src) bool_byte)
            (put_bools-put (m.bool_vector src) (c.put_bytes size s) (offset_put_lt size s))
          ∙ laws.put_append size _ s)
