-- ===== src/Reader/Cursors.antt =====
-- The steps of `CDRReader` on input that has all the bytes they ask for.
use rmw_cyclonedds.Base.{
  ℕ, ◌+◌, ◌-◌, ◌%◌, ◌<◌, ◌≡◌, refl, ap, arith, false, ◌||◌, List, [], ◌∷◌, ◌++◌, length, take, drop,
  replicate, length-append, length-replicate, append_assoc, ltb, ◌==◌, Bool-cases, inl, inr, Result,
  ok, ◌>>=◌,
}
use rmw_cyclonedds.Cursor.{word}
use rmw_cyclonedds.Writer.Cdr.{padding, after}
use rmw_cyclonedds.Reader.{DeserializeCursor, offset, advance, align_read, Store, Read, ◌>>>◌}
use rmw_cyclonedds.Writer.Put.{no_padding, some_padding, no_gap, gap}

-- The cursor at a position, with `rest` to come.
abbrev pub at_position : ℕ → ℕ → List ℕ → DeserializeCursor
at_position o pos rest = record { origin = o; position = pos; rest = rest }

-- Its offset modulo 8.
abbrev pub phase : ℕ → ℕ → ℕ
phase o pos = (pos + word - o % word) % 8

pub phase-after : (o pos : ℕ) (xs : List ℕ) → phase o (pos + length xs) ≡ after (phase o pos) xs
phase-after o pos xs = omega arith

pub offset-phase : (o pos : ℕ) (rest : List ℕ) → offset (at_position o pos rest) % 8 ≡ phase o pos
unfolding offset
offset-phase o pos rest = omega arith

pub take_front {ℓ} : {A : Type ℓ} (xs ys : List A) → take (length xs) (xs ++ ys) ≡ xs
take_front [] ys = refl
take_front (x ∷ xs) ys = ap (λ zs. x ∷ zs) (take_front xs ys)

pub drop_front {ℓ} : {A : Type ℓ} (xs ys : List A) → drop (length xs) (xs ++ ys) ≡ ys
drop_front [] ys = refl
drop_front (x ∷ xs) ys = drop_front xs ys

has_room : (xs ys : List ℕ) → ltb (length (xs ++ ys)) (length xs) ≡ false
has_room xs ys = ground (arith, length-append xs ys)

pub advance-front :
    (n o pos : ℕ) (xs rest : List ℕ)
    → length xs ≡ n
    → advance n (at_position o pos (xs ++ rest)) ≡ ok (xs, at_position o (pos + n) rest)
unfolding advance
advance-front n o pos xs rest h =
    rw (← h, has_room xs rest, take_front xs rest, drop_front xs rest) refl

-- A step that reads `xs` makes the stores `stores`.
abbrev pub Reads : ℕ → ℕ → List ℕ → List Store → Read → Type 0
Reads o pos xs stores f =
    (rest : List ℕ)
    → f (at_position o pos (xs ++ rest)) ≡ ok (at_position o (pos + length xs) rest, stores)

-- A step that reads `xs` gives a value.
abbrev pub Gives :
    {A : Type 0}
    → ℕ
    → ℕ
    → List ℕ
    → A
    → (DeserializeCursor → Result (A × DeserializeCursor))
    → Type 0
Gives o pos xs a f =
    (rest : List ℕ)
    → f (at_position o pos (xs ++ rest)) ≡ ok (a, at_position o (pos + length xs) rest)

further : (pos : ℕ) (xs ys : List ℕ) → pos + length xs + length ys ≡ pos + length (xs ++ ys)
further pos xs ys = omega (arith, length-append xs ys)

pub read_then :
    (o pos : ℕ) (xs ys : List ℕ) (k l : List Store) (f g : Read)
    → Reads o pos xs k f
    → Reads o (pos + length xs) ys l g
    → Reads o pos (xs ++ ys) (k ++ l) (f >>> g)
unfolding ◌>>>◌
read_then o pos xs ys k l f g hf hg rest =
    rw (append_assoc xs ys rest, hf (ys ++ rest), hg rest, further pos xs ys) refl

pub give_then :
    {A : Type 0}
    → (o pos : ℕ) (xs ys : List ℕ) (a : A) (l : List Store)
      (f : DeserializeCursor → Result (A × DeserializeCursor)) (g : A → Read)
    → Gives o pos xs a f
    → Reads o (pos + length xs) ys l (g a)
    → Reads o pos (xs ++ ys) l (λ c. f c >>= λ (b, c'). g b c')
give_then o pos xs ys a l f g hf hg rest =
    rw (append_assoc xs ys rest, hf (ys ++ rest), hg rest, further pos xs ys) refl

pub align_read-padding :
    (n o pos : ℕ) (rest : List ℕ)
    → 0 < n
    → phase o pos % n ≡ offset (at_position o pos []) % n
    → align_read n (at_position o pos (padding (phase o pos) n ++ rest))
      ≡ ok (at_position o (pos + length (padding (phase o pos) n)) rest)
unfolding align_read padding offset
align_read-padding n o pos rest h e =
    let x = (pos + word - o % word) % word in
    elim (Bool-cases (n == 1 || x % n == 0)) [
      | inl skip ↦ rw (skip, e, no_padding n (x % n) (no_gap n x skip)) (ground arith)
      | inr move ↦
          rw
            (
              move,
              e,
              some_padding n (x % n) (gap n x move) h,
              advance-front (n - x % n) o pos (replicate (n - x % n) 0) rest
                  (length-replicate {A = ℕ} (n - x % n) 0),
              length-replicate {A = ℕ} (n - x % n) 0,
            )
            refl
    ]
