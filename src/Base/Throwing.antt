-- ===== src/Base/Throwing.antt =====
-- C++ code that may throw: a value, or the exception that left it.

-- The exceptions of the serialization code, each by its class and, where there are several of one
-- class, by its message.
pub data Exception : Type 0 where
  oversize_cdr : Exception
  -- Division by zero is a fault of the machine, which no handler of the source catches.
  division_by_zero : Exception
  -- So is a read behind the end of a buffer, which C++ does not define.
  read_past_end : Exception
  not_implemented : Exception
  out_of_range : Exception
  truncated_input : Exception
  unrecognized_header : Exception
  size_0_string : Exception
  unterminated_string : Exception
  odd_wstring : Exception
  length_error : Exception

pub data Result {ℓ} (V : Type ℓ) : Type ℓ where
  throw : Exception → Result V
  ok : V → Result V

-- An exception ends the computation.
infixl 5 ◌>>=◌
abbrev pub ◌>>=◌ {ℓ κ} : {V : Type ℓ} {W : Type κ} → Result V → (V → Result W) → Result W
throw exception >>= next = throw exception
ok value >>= next = next value
