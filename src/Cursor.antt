-- ===== src/Cursor.antt =====
-- The write cursors of rmw_cyclonedds_cpp/src/Serialization.cpp. `size_t` and `ptrdiff_t` are
-- numbers modulo 2 ^ 64, so that `rebase(-4)` is `rebase` of 2 ^ 64 - 4.
use rmw_cyclonedds.Base.{
  ℕ, ◌+◌, ◌-◌, ◌%◌, ◌^◌, ◌<◌, ◌≡◌, refl, arith, Bool, true, false, ◌||◌, List, [], ◌++◌, length,
  length-append, append-nil, append_assoc, replicate, length-replicate, ltb, ◌==◌, if◌then◌else◌,
  Result, ok, throw, oversize_cdr,
}

abbrev pub word : ℕ
word = 2 ^ 64

abbrev pub uint32_max : ℕ
uint32_max = 2 ^ 32 - 1

abbrev pub size_max : ℕ
size_max = 2 ^ 64 - 1

-- What the templates of `CDRWriter` ask of their parameter `WriteCursor`.
pub record WriteCursor (S : Type 0) : Type 0 where
  pub offset : S → ℕ
  pub advance : ℕ → S → S
  pub put_bytes : List ℕ → S → S
  pub ignores_data : Bool
  pub rebase : ℕ → S → S

-- `CursorBase::align`.
unfoldable pub align : {S : Type 0} → WriteCursor S → ℕ → S → S
align c n_bytes s =
    let start_offset = c.offset s in
    if n_bytes == 1 || start_offset % n_bytes == 0
    then s
    else c.advance (n_bytes - start_offset % n_bytes) s

-- `SizeCursor` counts.
pub record SizeCursor : Type 0 where
  pub m_offset : ℕ

unfoldable pub size_cursor : WriteCursor SizeCursor
size_cursor = record {
  offset = λ s. s.m_offset;
  advance = λ n s. record { m_offset = (s.m_offset + n) % word };
  put_bytes = λ bs s. record { m_offset = (s.m_offset + length bs) % word };
  ignores_data = true;
  rebase = λ r s. record { m_offset = (s.m_offset + word - r) % word };
}

-- `SerializeCursor` writes to a buffer. `written` is the buffer from its start up to `position`, and
-- `origin` is counted from the start of the buffer.
pub record SerializeCursor : Type 0 where
  pub origin : ℕ
  pub written : List ℕ

unfoldable pub serialize_cursor : WriteCursor SerializeCursor
serialize_cursor = record {
  offset = λ s. (length s.written + word - s.origin % word) % word;
  advance = λ n s. record s { written = s.written ++ replicate n 0 };
  put_bytes = λ bs s. record s { written = s.written ++ bs };
  ignores_data = false;
  rebase = λ r s. record s { origin = (s.origin + r) % word };
}

-- `ByteVectorCursor` appends to a vector.
pub record ByteVectorCursor : Type 0 where
  pub pos : ℕ
  pub contents : List ℕ

unfoldable pub byte_vector_cursor : WriteCursor ByteVectorCursor
byte_vector_cursor = record {
  offset = λ s. s.pos;
  advance = λ n s. record { pos = (s.pos + n) % word; contents = s.contents ++ replicate n 0 };
  put_bytes = λ bs s. record { pos = (s.pos + length bs) % word; contents = s.contents ++ bs };
  ignores_data = false;
  rebase = λ r s. record s { pos = (s.pos + word - r) % word };
}

-- `CheckingSizeCursor::advance`, and `put_bytes`, which only advances.
unfoldable pub checking_advance : ℕ → ℕ → Result ℕ
checking_advance n_bytes m_offset =
    if ltb ((uint32_max + word - m_offset) % word) n_bytes
    then throw oversize_cdr
    else ok ((m_offset + n_bytes) % word)

-- `CheckingSizeCursor::rebase`.
unfoldable pub checking_rebase : ℕ → ℕ → ℕ
checking_rebase r m_offset = (m_offset + word - r) % word

-- The laws that the writer relies on: putting bytes is an action of lists, `advance` puts zeros, the
-- offset counts them, and a cursor that ignores data sees their number only.
pub record IsWriteCursor {S : Type 0} (c : WriteCursor S) : Type 0 where
  pub put_nil : (s : S) → c.offset s < word → c.put_bytes [] s ≡ s
  pub put_append :
      (xs ys : List ℕ) (s : S) → c.put_bytes ys (c.put_bytes xs s) ≡ c.put_bytes (xs ++ ys) s
  pub advance_zeros : (n : ℕ) (s : S) → c.advance n s ≡ c.put_bytes (replicate n 0) s
  pub offset_put :
      (xs : List ℕ) (s : S) → c.offset (c.put_bytes xs s) ≡ (c.offset s + length xs) % word
  pub ignore_data :
      (xs ys : List ℕ) (s : S)
      → c.ignores_data ≡ true
      → length xs ≡ length ys
      → c.put_bytes xs s ≡ c.put_bytes ys s

size_cursor_put_append :
    (xs ys : List ℕ) (s : SizeCursor)
    → size_cursor.put_bytes ys (size_cursor.put_bytes xs s) ≡ size_cursor.put_bytes (xs ++ ys) s
unfolding size_cursor
size_cursor_put_append xs ys s = ground (arith, length-append xs ys)

pub size_cursor-IsWriteCursor : IsWriteCursor size_cursor
unfolding size_cursor
size_cursor-IsWriteCursor = record {
  put_nil = λ s h. ground arith;
  put_append = size_cursor_put_append;
  advance_zeros = λ n s. ground (arith, length-replicate {A = ℕ} n 0);
  offset_put = λ xs s. refl;
  ignore_data = λ xs ys s ignores e. rw e;
}

pub serialize_cursor-IsWriteCursor : IsWriteCursor serialize_cursor
unfolding serialize_cursor
serialize_cursor-IsWriteCursor = record {
  put_nil = λ s h. ground (arith, append-nil s.written);
  put_append = λ xs ys s. ground (arith, append_assoc s.written xs ys);
  advance_zeros = λ n s. refl;
  offset_put = λ xs s. ground (arith, length-append s.written xs);
  ignore_data = λ xs ys s ignores e. cc;
}

byte_vector_put_append :
    (xs ys : List ℕ) (s : ByteVectorCursor)
    → byte_vector_cursor.put_bytes ys (byte_vector_cursor.put_bytes xs s)
      ≡ byte_vector_cursor.put_bytes (xs ++ ys) s
unfolding byte_vector_cursor
byte_vector_put_append xs ys s = ground (arith, length-append xs ys, append_assoc s.contents xs ys)

pub byte_vector_cursor-IsWriteCursor : IsWriteCursor byte_vector_cursor
unfolding byte_vector_cursor
byte_vector_cursor-IsWriteCursor = record {
  put_nil = λ s h. ground (arith, append-nil s.contents);
  put_append = byte_vector_put_append;
  advance_zeros = λ n s. ground (arith, length-replicate {A = ℕ} n 0);
  offset_put = λ xs s. refl;
  ignore_data = λ xs ys s ignores e. cc;
}
