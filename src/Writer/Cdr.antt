-- ===== src/Writer/Cdr.antt =====
-- The CDR form of a message, as plain lists of bytes: what the writer should write.
use rmw_cyclonedds.Base.{
  ℕ, zero, suc, ◌+◌, ◌-◌, ◌*◌, ◌%◌, List, [], ◌∷◌, ◌++◌, length, map, replicate,
}
use rmw_cyclonedds.TypeSupport.{
  AnyValueType, primitive_value_type, u8_string_value_type, u16_string_value_type,
  struct_value_type, array_value_type, span_sequence_value_type, bool_vector_value_type, Members,
  end, member, cdrsizeof_primitive,
}
use rmw_cyclonedds.Memory.{Memory, Endian, bytes, u32_bytes, u16s_bytes, bool_byte}
use rmw_cyclonedds.TriviallySerialized.Dense.{size_of}

-- Zeros up to the next multiple of `n`. The phase `p` is the offset modulo 8.
unfoldable pub padding : ℕ → ℕ → List ℕ
padding p n = replicate ((n - p % n) % n) 0

-- The phase behind `xs`.
abbrev pub after : ℕ → List ℕ → ℕ
after p xs = (p + length xs) % 8

module _ (e : Endian) (m : Memory) where
  unfoldable pub cdr_u32 : ℕ → ℕ → List ℕ
  unfolding padding
  cdr_u32 p value = padding p 4 ++ u32_bytes e value

  -- `n` elements one after the other, `size` bytes apart in memory.
  unfoldable pub cdr_many : (ℕ → ℕ → List ℕ) → ℕ → ℕ → ℕ → ℕ → List ℕ
  cdr_many f size zero p src = []
  cdr_many f size (suc n) p src = f p src ++ cdr_many f size n (after p (f p src)) (src + size)

  unfoldable mutual
    unfolding cdr_u32 cdr_many

    pub cdr : AnyValueType → ℕ → ℕ → List ℕ
    cdr (primitive_value_type k) p src =
        padding p (cdrsizeof_primitive k) ++ bytes m src (cdrsizeof_primitive k)
    cdr (u8_string_value_type size bound) p src =
        cdr_u32 p (length (m.u8_data src) + 1) ++ (m.u8_data src ++ (0 ∷ []))
    cdr (u16_string_value_type size bound) p src =
        cdr_u32 p (2 * length (m.u16_data src)) ++ u16s_bytes e (m.u16_data src)
    cdr (struct_value_type size members) p src = cdr_members members p src
    cdr (array_value_type element n) p src = cdr_many (cdr element) (size_of element) n p src
    cdr (span_sequence_value_type size element bound) p src =
        cdr_u32 p (m.sequence_size src)
        ++ cdr_many (cdr element) (size_of element) (m.sequence_size src)
            (after p (cdr_u32 p (m.sequence_size src))) (m.sequence_contents src)
    cdr (bool_vector_value_type size bound) p src =
        cdr_u32 p (length (m.bool_vector src)) ++ map bool_byte (m.bool_vector src)

    pub cdr_members : Members → ℕ → ℕ → List ℕ
    cdr_members end p src = []
    cdr_members (member vt offset is_key rest) p src =
        cdr vt p (src + offset) ++ cdr_members rest (after p (cdr vt p (src + offset))) src
