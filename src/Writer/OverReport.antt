-- ===== src/Writer/OverReport.antt =====
-- `get_serialized_size` for a message that is one array of primitive elements: the size bounds
-- count two elements twice.
use rmw_cyclonedds.Base.{
  ℕ, suc, ◌+◌, ◌-◌, ◌*◌, ◌/◌, ◌%◌, ◌≤◌, ◌<◌, ◌≡◌, refl, ap, ◌∙◌, Bool, true, false, some, List,
  length, leb, ok, arith, append-nil,
}
use native.Mathlib.Nat.{add-zero}
use rmw_cyclonedds.TypeSupport.{
  PrimitiveTypeKind, AnyValueType, primitive_value_type, struct_value_type, array_value_type,
  Members, end, member, cdrsizeof_primitive, cdralignof_primitive, sizeof_primitive, sizeof_type,
}
use rmw_cyclonedds.Memory.{Memory, Endian, length-bytes}
use rmw_cyclonedds.TriviallySerialized.Dense.{dense, size_of}
use rmw_cyclonedds.TriviallySerialized.Register.{make_cache-Covers}
use rmw_cyclonedds.Writer.Cdr.{cdr}
use rmw_cyclonedds.Writer.Fast.{cdr-bytes}
use rmw_cyclonedds.Writer.Supported.{IsSupported}
use rmw_cyclonedds.Writer.TopLevel.{body_form, sample_form, serialize_to-sample}
use rmw_cyclonedds.Cursor.{word, uint32_max, size_max, checking_advance, checking_rebase}
use rmw_cyclonedds.TriviallySerialized.{Cache}
use rmw_cyclonedds.Writer.{CdrWriter, sample, message, all_fields, make_cdr_writer, serialize_to}
use rmw_cyclonedds.Writer.Bound.{
  MinOrMax, min, max, checking_align, bound_primitive, bound_others, bound_second,
  serialize_size_bound_many, serialize_size_bound, bound_request_header, bound_root,
  serialize_size_bound_top_level, or_unbounded, compute_serialized_size_bound, get_serialized_size,
}

pub checking_advance_fits : (n o : ℕ) → o + n ≤ uint32_max → checking_advance n o ≡ ok (o + n)
unfolding checking_advance
checking_advance_fits n o h = ground arith

-- The sizes of primitive types in CDR.
data IsPrimitiveSize (s : ℕ) : Type 0 where
  is_1 : s ≡ 1 → IsPrimitiveSize s
  is_2 : s ≡ 2 → IsPrimitiveSize s
  is_4 : s ≡ 4 → IsPrimitiveSize s
  is_8 : s ≡ 8 → IsPrimitiveSize s

primitive_size : (k : PrimitiveTypeKind) → IsPrimitiveSize (cdrsizeof_primitive k)
unfolding cdrsizeof_primitive
primitive_size PrimitiveTypeKind.float = is_4 refl
primitive_size PrimitiveTypeKind.uint32 = is_4 refl
primitive_size PrimitiveTypeKind.int32 = is_4 refl
primitive_size PrimitiveTypeKind.uint16 = is_2 refl
primitive_size PrimitiveTypeKind.int16 = is_2 refl
primitive_size PrimitiveTypeKind.wchar = is_2 refl
primitive_size PrimitiveTypeKind.double = is_8 refl
primitive_size PrimitiveTypeKind.uint64 = is_8 refl
primitive_size PrimitiveTypeKind.int64 = is_8 refl
primitive_size _ = is_1 refl

bound_primitive_aligned :
    (s o t : ℕ) → o % s ≡ 0 → t ≡ o + s → t ≤ uint32_max → bound_primitive s s o ≡ ok (some t)
unfolding bound_primitive checking_align
bound_primitive_aligned s o t h e fits = ground (arith, checking_advance_fits s o)

bound_others_lem :
    (s n : ℕ)
    → 0 < s
    → n ≤ size_max / s
    → s + s + n * s ≤ uint32_max
    → bound_others n s (s + s) ≡ ok (some (s + s + n * s))
unfolding bound_others
bound_others_lem s n pos fits all_fit =
    let elt : (s + s + word - s) % word ≡ s = omega arith in
    let total : n * s % word ≡ n * s = omega arith in
    rw (elt, total, checking_advance_fits (n * s) (s + s) all_fit) (ground arith)

-- What the sizes 1, 2, 4 and 8 have in common.
record IsSmall (s : ℕ) : Type 0 where
  pos : 0 < s
  zero_mod : 0 % s ≡ 0
  self_mod : s % s ≡ 0
  quotient : (n : ℕ) → n * s ≤ uint32_max → n ≤ size_max / s

IsPrimitiveSize-IsSmall : (s : ℕ) → IsPrimitiveSize s → IsSmall s
IsPrimitiveSize-IsSmall s (is_1 e) =
    rw e (record {
      pos = omega arith;
      zero_mod = refl;
      self_mod = refl;
      quotient = λ n h. omega arith;
    })
IsPrimitiveSize-IsSmall s (is_2 e) =
    rw e (record {
      pos = omega arith;
      zero_mod = refl;
      self_mod = refl;
      quotient = λ n h. omega arith;
    })
IsPrimitiveSize-IsSmall s (is_4 e) =
    rw e (record {
      pos = omega arith;
      zero_mod = refl;
      self_mod = refl;
      quotient = λ n h. omega arith;
    })
IsPrimitiveSize-IsSmall s (is_8 e) =
    rw e (record {
      pos = omega arith;
      zero_mod = refl;
      self_mod = refl;
      quotient = λ n h. omega arith;
    })

few_elements : (n : ℕ) → n < uint32_max → leb uint32_max n ≡ false
few_elements n h = ground arith

bound_array :
    (s n : ℕ)
    → IsSmall s
    → suc (suc n) < uint32_max
    → s + s + suc (suc n) * s ≤ uint32_max
    → serialize_size_bound_many (bound_primitive s s) (suc (suc n)) 0
      ≡ ok (some (s + s + suc (suc n) * s))
unfolding serialize_size_bound_many bound_second
bound_array s n small few fits = rw (
  few_elements (suc (suc n)) few,
  bound_primitive_aligned s 0 s small.zero_mod (omega arith) (omega arith),
  bound_primitive_aligned s s (s + s) small.self_mod refl (omega arith),
  bound_others_lem s (suc (suc n)) small.pos (small.quotient (suc (suc n)) (omega arith)) fits,
)

array_dense :
    (k : PrimitiveTypeKind) (n : ℕ) → dense (array_value_type (primitive_value_type k) n) 0 ≡ true
unfolding dense size_of cdrsizeof_primitive sizeof_primitive
array_dense PrimitiveTypeKind.float n = refl
array_dense _ n = refl

array_size :
    (k : PrimitiveTypeKind) (n : ℕ)
    → size_of (array_value_type (primitive_value_type k) n) ≡ n * cdrsizeof_primitive k
unfolding size_of cdrsizeof_primitive sizeof_primitive
array_size PrimitiveTypeKind.float n = refl
array_size _ n = refl

-- A message with one array of `n` elements of the kind `k`.
abbrev pub one_array : PrimitiveTypeKind → ℕ → Bool → Members
one_array k n is_key = member (array_value_type (primitive_value_type k) n) 0 is_key end

-- The writer for such a message.
abbrev array_writer :
    Endian → (AnyValueType → AnyValueType → Bool) → Cache → ℕ → Members → CdrWriter
array_writer e same c size members = record {
  native_endian = e;
  same_type = same;
  tsc = c;
  root_size = size;
  root_members = members;
  m_variant = message;
}

module _ (e : Endian) (same : AnyValueType → AnyValueType → Bool) (c : Cache) (size : ℕ) where
  bound_root_array :
      (k : PrimitiveTypeKind) (n : ℕ) (is_key : Bool) (mm : MinOrMax)
      → suc (suc n) < uint32_max
      → (suc (suc n) + 2) * cdrsizeof_primitive k ≤ uint32_max
      → bound_root (array_writer e same c size (one_array k (suc (suc n)) is_key)) sample mm 0
        ≡ ok (some ((suc (suc n) + 2) * cdrsizeof_primitive k))
  unfolding bound_root serialize_size_bound all_fields cdralignof_primitive
  bound_root_array k n is_key mm few fits =
      rw
        (bound_array (cdrsizeof_primitive k) n (IsPrimitiveSize-IsSmall _ (primitive_size k)) few
          (omega arith))
        (ap (λ (t : ℕ). ok (some t)) (omega arith))

  bound_one_array :
      (k : PrimitiveTypeKind) (n : ℕ) (is_key : Bool) (mm : MinOrMax)
      → suc (suc n) < uint32_max
      → (suc (suc n) + 2) * cdrsizeof_primitive k ≤ uint32_max
      → compute_serialized_size_bound
          (array_writer e same c size (one_array k (suc (suc n)) is_key))
          sample
          mm
        ≡ ok (4 + (suc (suc n) + 2) * cdrsizeof_primitive k)
  unfolding compute_serialized_size_bound serialize_size_bound_top_level bound_request_header
      checking_advance checking_rebase or_unbounded cdrsizeof_primitive
  bound_one_array k n is_key mm few fits =
      rw (bound_root_array k n is_key mm few fits, or_unbounded)
        (ap (λ (t : ℕ). ok t) (omega arith))

  bound_size_array :
      (k : PrimitiveTypeKind) (n : ℕ) (is_key : Bool) (m : Memory) (src : ℕ)
      → suc (suc n) < uint32_max
      → (suc (suc n) + 2) * cdrsizeof_primitive k ≤ uint32_max
      → get_serialized_size
          (array_writer e same c size (one_array k (suc (suc n)) is_key))
          m
          src
          sample
        ≡ ok (4 + (suc (suc n) + 2) * cdrsizeof_primitive k)
  unfolding get_serialized_size
  bound_size_array k n is_key m src few fits =
      rw (bound_one_array k n is_key min few fits, bound_one_array k n is_key max few fits)
        (ground arith)

length-cdr_array :
    (e : Endian) (m : Memory) (k : PrimitiveTypeKind) (n src : ℕ)
    → length (cdr e m (array_value_type (primitive_value_type k) n) 0 src)
      ≡ n * cdrsizeof_primitive k
length-cdr_array e m k n src =
    rw
      (
        cdr-bytes e m (array_value_type (primitive_value_type k) n) 0 src (array_dense k n),
        length-bytes,
      )
      (array_size k n)

cdr-one_array :
    (e : Endian) (m : Memory) (size : ℕ) (k : PrimitiveTypeKind) (n : ℕ) (is_key : Bool) (src : ℕ)
    → cdr e m (struct_value_type size (one_array k n is_key)) 0 src
      ≡ cdr e m (array_value_type (primitive_value_type k) n) 0 src
unfolding cdr
cdr-one_array e m size k n is_key src = rw (add-zero src) (append-nil _)

length-sample_form :
    (e : Endian) (same : AnyValueType → AnyValueType → Bool) (c : Cache) (size : ℕ)
    (k : PrimitiveTypeKind) (n : ℕ) (is_key : Bool) (m : Memory) (src : ℕ)
    → length (sample_form (array_writer e same c size (one_array k n is_key)) m src)
      ≡ 4 + n * cdrsizeof_primitive k
unfolding sample_form body_form
length-sample_form e same c size k n is_key m src =
    rw (cdr-one_array e m size k n is_key src) (omega (arith, length-cdr_array e m k n src))

one_array-IsSupported :
    (size : ℕ) (k : PrimitiveTypeKind) (n : ℕ) (is_key : Bool)
    → IsSupported (struct_value_type size (one_array k n is_key))
unfolding IsSupported sizeof_type size_of
one_array-IsSupported size k n is_key = ((refl, tt), tt)

module _ (same : AnyValueType → AnyValueType → Bool)
    (sound : (a b : AnyValueType) → same a b ≡ true → a ≡ b)
    (reflexive : (a : AnyValueType) → same a a ≡ true) where
  -- A message that is one array of two or more primitive elements, whose bounds stay below 2 ^ 32:
  -- `serialize` writes 4 bytes and the elements, and `get_serialized_size` reports two elements
  -- more than that.
  pub get_serialized_size-one_array :
      (e : Endian) (size : ℕ) (k : PrimitiveTypeKind) (n : ℕ) (is_key : Bool)
      → suc (suc n) < uint32_max
      → (suc (suc n) + 2) * cdrsizeof_primitive k ≤ uint32_max
      → (m : Memory) (src : ℕ)
      → (w : CdrWriter) × (bs : List ℕ) × (make_cdr_writer e same size
            (one_array k (suc (suc n)) is_key)
            message
          ≡ ok w)
        × (serialize_to w m src sample ≡ ok bs)
        × (length bs ≡ 4 + suc (suc n) * cdrsizeof_primitive k)
        × (get_serialized_size w m src sample ≡ ok (length bs + 2 * cdrsizeof_primitive k))
  unfolding make_cdr_writer
  get_serialized_size-one_array e size k n is_key few fits m src =
      let members = one_array k (suc (suc n)) is_key in
      let (c, made, covers) =
        make_cache-Covers same sound reflexive (struct_value_type size members) in
      let w = array_writer e same c size members in
      let len = length-sample_form e same c size k (suc (suc n)) is_key m src in
      (
        w,
        sample_form w m src,
        rw made,
        serialize_to-sample w m (one_array-IsSupported size k (suc (suc n)) is_key) covers src,
        len,
        bound_size_array e same c size k n is_key m src few fits
            ∙ ap (λ (t : ℕ). ok t) (omega (arith, len)),
      )
