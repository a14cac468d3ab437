-- ===== src/Reader/Within.antt =====
-- Steps of `CDRReader` that stay within their input, and read no byte behind a buffer.
use rmw_cyclonedds.Base.{
  ◌≢◌, ◌<◌, ◌*◌, take, read_past_end, out_of_range, Option, none, some, ℕ, zero, suc, ◌+◌, ◌-◌, ◌%◌,
  ◌||◌, ◌≤◌, ◌≡◌, refl, ◌∙◌, arith, Bool, true, false, List, [], ◌∷◌, length, drop, ltb, ◌==◌,
  Bool-cases, inl, inr, if◌then◌else◌, Result, ok, throw, ◌>>=◌,
}
use rmw_cyclonedds.TypeSupport.{
  AnyValueType, primitive_value_type, u8_string_value_type, u16_string_value_type,
  struct_value_type, array_value_type, span_sequence_value_type, bool_vector_value_type,
  sizeof_type,
}
use rmw_cyclonedds.TriviallySerialized.{
  Cache, cache_at, find, max_align, lookup_trivially_serialized, lookup_many_trivially_serialized,
}
use rmw_cyclonedds.Reader.{byte_at, first_bytes, DeserializeCursor, offset, advance, align_read}

-- What holds of the value, if there is one; an exception is no read behind the end of a buffer.
unfoldable pub Holds : {V : Type 0} → (V → Type 0) → Result V → Type 0
Holds P (throw e) = e ≢ read_past_end
Holds P (ok v) = P v

-- A cursor after a step: its end and its origin are those of the cursor before, and it has not gone
-- back.
abbrev pub Within : DeserializeCursor → DeserializeCursor → Type 0
Within c c' =
    (c'.origin ≡ c.origin)
    × (c'.position + length c'.rest ≡ c.position + length c.rest)
    × (c.position ≤ c'.position)

pub Within-refl : (c : DeserializeCursor) → Within c c
Within-refl c = (refl, refl, omega arith)

pub Within-trans : (a b c : DeserializeCursor) → Within a b → Within b c → Within a c
Within-trans a b c (o, e, p) (o', e', p') = (o' ∙ o, e' ∙ e, omega arith)

pub bind-Holds :
    {V W : Type 0}
    → (P : V → Type 0) (Q : W → Type 0) (x : Result V) (f : V → Result W) → Holds P x
    → ((v : V) → P v → Holds Q (f v))
    → Holds Q (x >>= f)
unfolding Holds
bind-Holds P Q (throw e) f h k = h
bind-Holds P Q (ok v) f h k = k v h

drop_rest : (n : ℕ) (xs : List ℕ) → ltb (length xs) n ≡ false → n + length (drop n xs) ≡ length xs
drop_rest zero xs h = omega arith
drop_rest (suc n) [] h = ground arith
drop_rest (suc n) (x ∷ xs) h = omega (arith, drop_rest n xs (ground arith))

passed : (n : ℕ) (xs : List ℕ) → ltb (length xs) n ≡ false → length (take n xs) ≡ n
passed zero xs h = refl
passed (suc n) [] h = ground arith
passed (suc n) (x ∷ xs) h = omega (arith, passed n xs (ground arith))

-- A step that reads nothing of the input.
abbrev pub Sound : {V : Type 0} → Result V → Type 0
Sound x = Holds (λ v. Unit {0}) x

pub byte_at-Sound : (bs : List ℕ) (i : ℕ) → i < length bs → Sound (byte_at bs i)
unfolding Holds byte_at
byte_at-Sound [] i h = ground arith
byte_at-Sound (b ∷ bs) zero h = tt
byte_at-Sound (b ∷ bs) (suc i) h = byte_at-Sound bs i (omega arith)

pub first_bytes-Sound : (n : ℕ) (bs : List ℕ) → n ≤ length bs → Sound (first_bytes n bs)
unfolding Holds first_bytes
first_bytes-Sound n bs h = elim (Bool-cases (ltb (length bs) n)) [
  | inl short ↦ ground arith
  | inr enough ↦ rw enough tt
]

pub sizeof_type-Sound : (vt : AnyValueType) → Sound (sizeof_type vt)
unfolding Holds sizeof_type
sizeof_type-Sound (primitive_value_type k) = tt
sizeof_type-Sound (u8_string_value_type size bound) = tt
sizeof_type-Sound (u16_string_value_type size bound) = tt
sizeof_type-Sound (struct_value_type size members) = tt
sizeof_type-Sound (array_value_type element n) =
    bind-Holds (λ s. Unit) (λ s. Unit) (sizeof_type element) (λ s. ok (n * s))
      (sizeof_type-Sound element) (λ s u. tt)
sizeof_type-Sound (span_sequence_value_type none element bound) = λ e. cc
sizeof_type-Sound (span_sequence_value_type (some size) element bound) = tt
sizeof_type-Sound (bool_vector_value_type size bound) = tt

if_first : (b : Bool) (x : Result Bool) → Sound x → Sound (elim b [ true ↦ x | false ↦ ok false ])
unfolding Holds
if_first true x h = h
if_first false x h = tt

module _ (same : AnyValueType → AnyValueType → Bool) (cache : Cache) where
  pub lookup-Sound :
      (a : ℕ) (vt : AnyValueType) → Sound (lookup_trivially_serialized same cache a vt)
  unfolding lookup_trivially_serialized cache_at Holds
  lookup-Sound a vt = found (find same (record { align = a % max_align; value_type = vt }) cache)
    where
      found :
          (o : Option Bool) → Sound (elim o [ some result ↦ ok result | none ↦ throw out_of_range ])
      found (some result) = tt
      found none = λ e. cc

  pub lookup_many-Sound :
      (a : ℕ) (vt : AnyValueType) → Sound (lookup_many_trivially_serialized same cache a vt)
  unfolding lookup_many_trivially_serialized
  lookup_many-Sound a vt =
      bind-Holds (λ b. Unit) (λ b. Unit) (lookup_trivially_serialized same cache (a % max_align) vt)
        _ (lookup-Sound (a % max_align) vt)
        (λ first u. if_first first _ (
          bind-Holds (λ n. Unit) (λ b. Unit) (sizeof_type vt) _ (sizeof_type-Sound vt)
            (λ n v. lookup-Sound ((a % max_align + n) % max_align) vt)))

-- The cursor in the value of a step, which stands first or second.
abbrev pub Moves : {A : Type 0} → DeserializeCursor → Result (DeserializeCursor × A) → Type 0
Moves c x = Holds (λ (c', a). Within c c') x

abbrev pub Reaches : {A : Type 0} → DeserializeCursor → Result (A × DeserializeCursor) → Type 0
Reaches c x = Holds (λ (a, c'). Within c c') x

-- `advance` passes as many bytes as it is asked to.
pub advance-Passes :
    (n : ℕ) (c : DeserializeCursor)
    → Holds (λ (bs, c'). (length bs ≡ n) × Within c c') (advance n c)
unfolding Holds advance
advance-Passes n c = elim (Bool-cases (ltb (length c.rest) n)) [
  | inl short ↦ rw short (λ e. cc)
  | inr enough ↦
      rw enough
        (passed n c.rest enough, (refl, omega (arith, drop_rest n c.rest enough), omega arith))
]

pub advance-Within : (n : ℕ) (c : DeserializeCursor) → Reaches c (advance n c)
unfolding Holds advance
advance-Within n c = elim (Bool-cases (ltb (length c.rest) n)) [
  | inl short ↦ rw short (λ e. cc)
  | inr enough ↦ rw enough (refl, omega (arith, drop_rest n c.rest enough), omega arith)
]

pub if-Holds :
    {V : Type 0}
    → (P : V → Type 0) (b : Bool) (x y : Result V) → Holds P x
    → Holds P y
    → Holds P (if b then x else y)
if-Holds P true x y h k = h
if-Holds P false x y h k = k

pub weaken :
    {A : Type 0}
    → (a b : DeserializeCursor) (x : Result (DeserializeCursor × A)) → Within a b
    → Moves b x
    → Moves a x
unfolding Holds
weaken a b (throw e) h k = k
weaken a b (ok (c, v)) h k = Within-trans a b c h k

-- A step behind one whose value comes first, or second, or that only moves the cursor.
pub continue_with :
    {A B : Type 0}
    → (c : DeserializeCursor) (x : Result (DeserializeCursor × A))
      (f : DeserializeCursor × A → Result (DeserializeCursor × B))
    → Moves c x
    → ((c' : DeserializeCursor) (a : A) → Moves c' (f (c', a)))
    → Moves c (x >>= f)
continue_with c x f h k = bind-Holds _ _ x f h λ (c', a) w. weaken c c' (f (c', a)) w (k c' a)

pub continue_from :
    {A B : Type 0}
    → (c : DeserializeCursor) (x : Result (A × DeserializeCursor))
      (f : A × DeserializeCursor → Result (DeserializeCursor × B))
    → Reaches c x
    → ((a : A) (c' : DeserializeCursor) → Moves c' (f (a, c')))
    → Moves c (x >>= f)
continue_from c x f h k = bind-Holds _ _ x f h λ (a, c') w. weaken c c' (f (a, c')) w (k a c')

pub done : {A : Type 0} → (c : DeserializeCursor) (a : A) → Moves c (ok (c, a))
unfolding Holds
done c a = Within-refl c

pub align_read-Within : (n : ℕ) (c : DeserializeCursor) → Holds (λ c'. Within c c') (align_read n c)
unfolding align_read Holds
align_read-Within n c = if-Holds _ (n == 1 || offset c % n == 0) (ok c) _ (Within-refl c) (
    bind-Holds _ _ (advance (n - offset c % n) c) _ (advance-Within (n - offset c % n) c)
      (λ (bs, c') h. h))
