-- ===== src/Memory.antt =====
-- The memory that holds messages, as the serialization code reads it. Addresses are numbers.
-- An object's own bytes are read directly; what a string or a sequence object refers to belongs to
-- the C++ and rosidl C libraries, so their accessors are functions of the object's address.
use rmw_cyclonedds.Base.{
  ℕ, zero, suc, ◌+◌, ◌*◌, ◌/◌, ◌%◌, ◌≡◌, refl, sym, ap, arith, Bool, true, false, List, [], ◌∷◌,
  ◌++◌, length,
}
use native.Mathlib.Nat.{suc-add}

-- `enum class endian` of bytewise.hpp.
pub data Endian : Type 0 where
  little big : Endian

pub record Memory : Type 0 where
  -- The byte at an address.
  pub byte_at : ℕ → ℕ
  -- `U8StringValueType::data`: the characters of the string object at an address.
  pub u8_data : ℕ → List ℕ
  -- `U16StringValueType::data`: the 16-bit code units of the string object at an address.
  pub u16_data : ℕ → List ℕ
  -- `SpanSequenceValueType::sequence_size` and `sequence_contents`.
  pub sequence_size : ℕ → ℕ
  pub sequence_contents : ℕ → ℕ
  -- The elements of the `std::vector<bool>` at an address.
  pub bool_vector : ℕ → List Bool
  -- The pointer `data` of the `cdds_request_wrapper_t` at an address.
  pub request_data : ℕ → ℕ

-- What `memcpy` reads: `n` bytes from an address on.
unfoldable pub bytes : Memory → ℕ → ℕ → List ℕ
bytes m a zero = []
bytes m a (suc n) = m.byte_at a ∷ bytes m (a + 1) n

pub length-bytes : (m : Memory) (a n : ℕ) → length (bytes m a n) ≡ n
unfolding bytes
length-bytes m a zero = refl
length-bytes m a (suc n) = ap suc (length-bytes m (a + 1) n)

a_shift : (a i : ℕ) → a + 1 + i ≡ a + suc i
a_shift a i = omega arith

pub bytes-add : (m : Memory) (a i n : ℕ) → bytes m a (i + n) ≡ bytes m a i ++ bytes m (a + i) n
unfolding bytes
bytes-add m a zero n = ground arith
bytes-add m a (suc i) n = rw (suc-add i n, bytes-add m (a + 1) i n, a_shift a i) refl

-- The bytes of a `uint16_t` and of a `uint32_t` as they stand in memory.
unfoldable pub u16_bytes : Endian → ℕ → List ℕ
u16_bytes little u = (u % 256) ∷ (u / 256 % 256) ∷ []
u16_bytes big u = (u / 256 % 256) ∷ (u % 256) ∷ []

unfoldable pub u32_bytes : Endian → ℕ → List ℕ
u32_bytes little u = (u % 256) ∷ (u / 256 % 256) ∷ (u / 65536 % 256) ∷ (u / 16777216 % 256) ∷ []
u32_bytes big u = (u / 16777216 % 256) ∷ (u / 65536 % 256) ∷ (u / 256 % 256) ∷ (u % 256) ∷ []

pub length-u32_bytes : (e : Endian) (u : ℕ) → length (u32_bytes e u) ≡ 4
unfolding u32_bytes
length-u32_bytes little u = refl
length-u32_bytes big u = refl

-- The bytes of a `char16_t` string as they stand in memory.
unfoldable pub u16s_bytes : Endian → List ℕ → List ℕ
unfolding u16_bytes
u16s_bytes e [] = []
u16s_bytes e (u ∷ us) = u16_bytes e u ++ u16s_bytes e us

pub length-u16s_bytes : (e : Endian) (us : List ℕ) → length (u16s_bytes e us) ≡ 2 * length us
unfolding u16s_bytes u16_bytes
length-u16s_bytes e [] = omega arith
length-u16s_bytes little (u ∷ us) = omega (arith, length-u16s_bytes little us)
length-u16s_bytes big (u ∷ us) = omega (arith, length-u16s_bytes big us)

-- A `bool` in memory.
abbrev pub bool_byte : Bool → ℕ
bool_byte false = 0
bool_byte true = 1

pub bytes_none : (m : Memory) (a n : ℕ) → n ≡ 0 → bytes m a n ≡ []
unfolding bytes
bytes_none m a zero h = refl
bytes_none m a (suc n) h = absurd (omega arith)

pub bytes_split :
    (m : Memory) (a i n k : ℕ) → k ≡ i + n → bytes m a i ++ bytes m (a + i) n ≡ bytes m a k
bytes_split m a i n k h = rw h (sym (bytes-add m a i n))

-- The numbers that stand in memory as such bytes.
unfoldable pub u32_value : Endian → List ℕ → ℕ
u32_value little (a ∷ b ∷ c ∷ d ∷ []) = a + 256 * b + 65536 * c + 16777216 * d
u32_value big (a ∷ b ∷ c ∷ d ∷ []) = d + 256 * c + 65536 * b + 16777216 * a
u32_value e bs = 0

unfoldable pub u16s_value : Endian → List ℕ → List ℕ
u16s_value little (a ∷ b ∷ bs) = (a + 256 * b) ∷ u16s_value little bs
u16s_value big (a ∷ b ∷ bs) = (b + 256 * a) ∷ u16s_value big bs
u16s_value e bs = []
