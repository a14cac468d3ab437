-- ===== src/Writer/Bound.antt =====
-- The size bounds of `CDRWriter` (rmw_cyclonedds_cpp/src/Serialization.cpp) and what uses them. The
-- cursor is a `CheckingSizeCursor`, that is, its offset; `none` stands for the result `false`.
use rmw_cyclonedds.Base.{
  ℕ, zero, suc, ◌+◌, ◌-◌, ◌*◌, ◌/◌, ◌%◌, ◌^◌, Bool, true, false, ◌||◌, ◌&&◌, Option, none, some,
  leb, ltb, ◌==◌, if◌then◌else◌, Result, ok, throw, oversize_cdr, division_by_zero, ◌>>=◌,
}
use rmw_cyclonedds.TypeSupport.{
  AnyValueType, primitive_value_type, u8_string_value_type, u16_string_value_type,
  struct_value_type, array_value_type, span_sequence_value_type, bool_vector_value_type, Members,
  end, member, has_keys, cdrsizeof_primitive, cdralignof_primitive,
}
use rmw_cyclonedds.Memory.{Memory}
use rmw_cyclonedds.Cursor.{word, uint32_max, size_max, checking_advance, checking_rebase}
use rmw_cyclonedds.Writer.{
  CdrWriter, root_value_type, SampleOrKey, sample, key, SampleOrRequest, request, all_fields,
  count_size,
}

pub data MinOrMax : Type 0 where
  min max : MinOrMax

-- `CursorBase::align` at a `CheckingSizeCursor`.
unfoldable pub checking_align : ℕ → ℕ → Result ℕ
checking_align n_bytes offset =
    if n_bytes == 1 || offset % n_bytes == 0
    then ok offset
    else checking_advance (n_bytes - offset % n_bytes) offset

-- `serialize_u32` at a `CheckingSizeCursor`.
unfoldable pub bound_u32 : ℕ → Result ℕ
bound_u32 offset = do o ← checking_align 4 offset; checking_advance 4 o

abbrev pub at_most : MinOrMax → ℕ → ℕ
at_most min bound = 0
at_most max bound = bound

unfoldable pub bound_primitive : ℕ → ℕ → ℕ → Result (Option ℕ)
bound_primitive alignment size offset = do
  o ← checking_align alignment offset
  o' ← checking_advance size o
  ok (some o')

-- A string: its length, `bytes` bytes, and a terminator of `terminator` bytes.
unfoldable pub bound_string : ℕ → ℕ → ℕ → Result (Option ℕ)
bound_string bytes terminator offset = do
  o ← bound_u32 offset
  o' ← checking_advance bytes o
  o'' ← checking_advance terminator o'
  ok (some o'')

-- The part of `serialize_size_bound_many` behind the second element.
unfoldable pub bound_others : ℕ → ℕ → ℕ → Result (Option ℕ)
bound_others count offset end_offset =
    let elt_size = (end_offset + word - offset) % word in
    let rest = (do o ← checking_advance (count * elt_size % word) end_offset; ok (some o)) in
    if elt_size == 0
    then throw division_by_zero
    else (if ltb (size_max / elt_size) count then ok none else rest)

-- The part of `serialize_size_bound_many` behind the first element; `more` elements follow it.
unfoldable pub bound_second : (ℕ → Result (Option ℕ)) → ℕ → ℕ → ℕ → Result (Option ℕ)
bound_second f count zero offset = ok (some offset)
bound_second f count (suc more) offset = do
  second ← f offset
  elim second [ none ↦ ok none | some end_offset ↦ bound_others count offset end_offset ]

-- `serialize_size_bound_many`; `f` is `serialize_size_bound` at the element type.
unfoldable pub serialize_size_bound_many : (ℕ → Result (Option ℕ)) → ℕ → ℕ → Result (Option ℕ)
serialize_size_bound_many f zero offset = ok (some offset)
serialize_size_bound_many f (suc n) offset = if leb uint32_max (suc n) then ok none else (do
  first ← f offset
  elim first [ none ↦ ok none | some offset' ↦ bound_second f (suc n) n offset' ])

-- The overloads of `serialize_size_bound`, and the loop over the members of a struct.
unfoldable mutual
  pub serialize_size_bound : AnyValueType → SampleOrKey → MinOrMax → ℕ → Result (Option ℕ)
  serialize_size_bound (primitive_value_type k) what mm offset =
      bound_primitive (cdralignof_primitive k) (cdrsizeof_primitive k) offset
  serialize_size_bound (u8_string_value_type size bound) what mm offset =
      bound_string (at_most mm bound) 1 offset
  serialize_size_bound (u16_string_value_type size bound) what mm offset =
      bound_string (2 * at_most mm bound % 2 ^ 32) 0 offset
  serialize_size_bound (struct_value_type size members) what mm offset =
      bound_members members (all_fields what members) what mm offset
  serialize_size_bound (array_value_type element n) what mm offset =
      serialize_size_bound_many (serialize_size_bound element what mm) n offset
  serialize_size_bound (span_sequence_value_type size element bound) what mm offset = do
    o ← bound_u32 offset
    serialize_size_bound_many (serialize_size_bound element what mm) (at_most mm bound) o
  serialize_size_bound (bool_vector_value_type size bound) what mm offset =
      bound_string (at_most mm bound) 0 offset

  pub bound_members : Members → Bool → SampleOrKey → MinOrMax → ℕ → Result (Option ℕ)
  bound_members end all what mm offset = ok (some offset)
  bound_members (member vt member_offset is_key rest) all what mm offset = elim (all || is_key) [
    | true ↦ do
      r ← serialize_size_bound vt what mm offset
      elim r [ none ↦ ok none | some o ↦ bound_members rest all what mm o ]
    | false ↦ bound_members rest all what mm offset
  ]

-- The two `put_bytes(nullptr, 8)` for the header of a request.
unfoldable pub bound_request_header : SampleOrRequest → SampleOrKey → ℕ → Result ℕ
bound_request_header request sample offset = do o ← checking_advance 8 offset; checking_advance 8 o
bound_request_header _ _ offset = ok offset

unfoldable pub bound_root : CdrWriter → SampleOrKey → MinOrMax → ℕ → Result (Option ℕ)
bound_root w sample mm offset = serialize_size_bound (root_value_type w) sample mm offset
bound_root w key mm offset = elim (has_keys w.root_members) [
  | true ↦ serialize_size_bound (root_value_type w) key mm offset
  | false ↦ ok (some offset)
]

-- `serialize_size_bound_top_level`. The encoding header takes 4 bytes.
unfoldable pub serialize_size_bound_top_level :
    CdrWriter → SampleOrKey → MinOrMax → ℕ → Result (Option ℕ)
serialize_size_bound_top_level w what mm offset = do
  o ← checking_advance 4 offset
  o' ← bound_request_header w.m_variant what (checking_rebase 4 o)
  fixed ← bound_root w what mm o'
  ok (elim fixed [ none ↦ none | some end_offset ↦ some (checking_rebase (word - 4) end_offset) ])

-- The handler of `compute_serialized_size_bound`.
unfoldable pub or_unbounded : Result (Option ℕ) → Result ℕ
or_unbounded (ok (some size)) = ok size
or_unbounded (ok none) = ok size_max
or_unbounded (throw oversize_cdr) = ok size_max
or_unbounded (throw e) = throw e

-- `compute_serialized_size_bound`: what the constructor stores in `min_serialized_data_size` and
-- the three fields beside it, and `get_min_serialized_size` and `get_max_serialized_size` return.
unfoldable pub compute_serialized_size_bound : CdrWriter → SampleOrKey → MinOrMax → Result ℕ
compute_serialized_size_bound w what mm = or_unbounded (serialize_size_bound_top_level w what mm 0)

-- `get_serialized_size`.
unfoldable pub get_serialized_size : CdrWriter → Memory → ℕ → SampleOrKey → Result ℕ
get_serialized_size w m src what = do
  low ← compute_serialized_size_bound w what min
  high ← compute_serialized_size_bound w what max
  if low == high then ok high else count_size w m src what

-- `get_serialized_size_estimate`.
unfoldable pub get_serialized_size_estimate : CdrWriter → Memory → ℕ → SampleOrKey → Result ℕ
get_serialized_size_estimate w m src what = do
  low ← compute_serialized_size_bound w what min
  high ← compute_serialized_size_bound w what max
  if leb high 1024 || (ltb 0 low && high / low == 1) then ok high else count_size w m src what
