-- ===== src/WaitSet/Ready.antt =====
-- What `rmw_wait` of rmw_cyclonedds_cpp/src/rmw_node.cpp leaves in the arrays, against the plain
-- description: a pointer stays where its number was triggered.
use rmw_cyclonedds.Base.{
  ℕ, suc, ◌+◌, ◌<◌, ◌≤◌, ◌≡◌, ◌≢◌, refl, sym, ap, ◌∙◌, arith, Bool, true, false, ◌||◌, Option, none,
  some, List, [], ◌∷◌, length, ltb, ◌==◌, if◌then◌else◌, Bool-cases, inl, inr, ==→eq,
}
use rmw_cyclonedds.Dds.{NotIn, Distinct}
use rmw_cyclonedds.WaitSet.{items, member, insert_sorted, sort, put_slot, collect, collect_array}

-- The slots of an array whose first pointer has number `n`.
unfoldable pub slots : List ℕ → List ℕ → ℕ → List (Option ℕ)
slots [] trigs n = []
slots (p ∷ ps) trigs n = (if member n trigs then some p else none) ∷ slots ps trigs (n + 1)

unfoldable pub slots_of : Option (List ℕ) → List ℕ → ℕ → Option (List (Option ℕ))
slots_of none trigs n = none
slots_of (some ps) trigs n = some (slots ps trigs n)

-- Strictly ascending, from `n` on.
unfoldable pub Ascending : ℕ → List ℕ → Type 0
Ascending n [] = Unit {0}
Ascending n (x ∷ xs) = (n ≤ x) × Ascending (x + 1) xs

-- What is left of an ascending list from `n` on.
unfoldable pub from : ℕ → List ℕ → List ℕ
from n [] = []
from n (x ∷ xs) = if ltb x n then from n xs else x ∷ xs

Ascending-le : (k n : ℕ) (xs : List ℕ) → k ≤ n → Ascending n xs → Ascending k xs
unfolding Ascending
Ascending-le k n [] h a = tt
Ascending-le k n (x ∷ xs) h (b, c) = (omega arith, c)

member_below : (k n : ℕ) (xs : List ℕ) → k < n → Ascending n xs → member k xs ≡ false
unfolding member Ascending
member_below k n [] h a = refl
member_below k n (x ∷ xs) h (b, c) = rw (member_below k (x + 1) xs (omega arith) c) (ground arith)

from-Ascending : (n k : ℕ) (xs : List ℕ) → Ascending k xs → Ascending n (from n xs)
unfolding from Ascending
from-Ascending n k [] a = tt
from-Ascending n k (x ∷ xs) (b, c) = elim (Bool-cases (ltb x n)) [
  | inl below ↦ rw below (from-Ascending n (x + 1) xs c)
  | inr here ↦ rw here ((ground arith, c))
]

pub from_all : (n : ℕ) (xs : List ℕ) → Ascending n xs → from n xs ≡ xs
unfolding from Ascending
from_all n [] a = refl
from_all n (x ∷ xs) (b, c) = ground arith

from_step : (n k : ℕ) (xs : List ℕ) → n ≤ k → from k (from n xs) ≡ from k xs
unfolding from
from_step n k [] h = refl
from_step n k (x ∷ xs) h = elim (Bool-cases (ltb x n)) [
  | inl below ↦
      let below_k : ltb x k ≡ true = ground arith in rw (below, below_k) (from_step n k xs h)
  | inr here ↦ rw here refl
]

member-from : (n k : ℕ) (xs : List ℕ) → n ≤ k → member k (from n xs) ≡ member k xs
unfolding member from
member-from n k [] h = refl
member-from n k (x ∷ xs) h = elim (Bool-cases (ltb x n)) [
  | inl below ↦
      let other : (k == x) ≡ false = ground arith in rw (below, other) (member-from n k xs h)
  | inr here ↦ rw here refl
]

slots-from : (ps xs : List ℕ) (n k : ℕ) → n ≤ k → slots ps (from n xs) k ≡ slots ps xs k
unfolding slots
slots-from [] xs n k h = refl
slots-from (p ∷ ps) xs n k h =
    rw (member-from n k xs h, slots-from ps xs n (k + 1) (omega arith)) refl

plus_none : (n : ℕ) → n + 0 ≡ n
plus_none n = omega arith

shift : (n k : ℕ) → n + 1 + k ≡ n + suc k
shift n k = omega arith

member_nil : (n : ℕ) → member n [] ≡ false
unfolding member
member_nil n = refl

-- Behind a number that was triggered, it can be forgotten.
from_head : (n t : ℕ) (ts : List ℕ) → t < n → from n (t ∷ ts) ≡ from n ts
unfolding from
from_head n t ts h = let below : ltb t n ≡ true = ground arith in rw below refl

slots_head : (ps ts : List ℕ) (n t : ℕ) → t < n → slots ps (t ∷ ts) n ≡ slots ps ts n
slots_head ps ts n t h =
    sym (slots-from ps (t ∷ ts) n n (omega arith))
    ∙ rw (from_head n t ts h) (slots-from ps ts n n (omega arith))

member_head : (n t : ℕ) (ts : List ℕ) → (t == n) ≡ true → member n (t ∷ ts) ≡ true
unfolding member
member_head n t ts h = ground arith

-- `collect` on an ascending list of numbers, of which those below `n` are gone.
collect-Ascending :
    (ps xs : List ℕ) (n : ℕ)
    → Ascending n xs
    → collect ps xs n ≡ (slots ps xs n, from (n + length ps) xs, n + length ps)
unfolding collect slots put_slot Ascending
collect-Ascending [] xs n a = rw (plus_none n, from_all n xs a) refl
collect-Ascending (p ∷ ps) [] n a =
    rw (collect-Ascending ps [] (n + 1) tt, shift n (length ps), member_nil n) refl
collect-Ascending (p ∷ ps) (t ∷ ts) n (b, c) = elim (Bool-cases (t == n)) [
  | inl hit ↦
      let here = ==→eq t n hit in
      rw
        (
          collect,
          hit,
          member_head n t ts hit,
          slots_head ps ts (n + 1) t (omega arith),
          from_head (n + suc (length ps)) t ts (omega arith),
          collect-Ascending ps ts (n + 1) (Ascending-le (n + 1) (t + 1) ts (omega arith) c),
          shift n (length ps),
        )
        refl
  | inr miss ↦
      let later : n + 1 ≤ t = ground arith in
      rw
        (
          collect,
          miss,
          member_below n (n + 1) (t ∷ ts) (omega arith) (later, c),
          collect-Ascending ps (t ∷ ts) (n + 1) (later, c),
          shift n (length ps),
        )
        refl
]

pub collect_array_lem :
    (a : Option (List ℕ)) (xs : List ℕ) (n : ℕ)
    → Ascending 0 xs
    → collect_array a (from n xs) n
      ≡ (slots_of a xs n, from (n + length (items a)) xs, n + length (items a))
unfolding collect_array slots_of items
collect_array_lem none xs n a = rw (plus_none n) refl
collect_array_lem (some ps) xs n a =
    rw
      (
        collect-Ascending ps (from n xs) n (from-Ascending n 0 xs a),
        slots-from ps xs n n (omega arith),
        from_step n (n + length ps) xs (omega arith),
      )
      refl

-- Sorting.
insert_sorted-Ascending :
    (k x : ℕ) (xs : List ℕ) → k ≤ x → NotIn x xs → Ascending k xs → Ascending k (insert_sorted x xs)
unfolding insert_sorted Ascending
insert_sorted-Ascending k x [] h fresh a = (h, tt)
insert_sorted-Ascending k x (y ∷ ys) h (other, fresh) (b, c) = elim (Bool-cases (ltb y x)) [
  | inl after ↦ rw after (b, insert_sorted-Ascending (y + 1) x ys (ground arith) fresh c)
  | inr before ↦ let le : x + 1 ≤ y = ground arith in rw before (h, (le, c))
]

member-insert_sorted :
    (k x : ℕ) (xs : List ℕ) → member k (insert_sorted x xs) ≡ (k == x || member k xs)
unfolding member insert_sorted
member-insert_sorted k x [] = refl
member-insert_sorted k x (y ∷ ys) = elim (Bool-cases (ltb y x)) [
  | inl after ↦ rw (after, member-insert_sorted k x ys) (swap (k == y) (k == x) (member k ys))
  | inr before ↦ rw before refl
]
  where
    swap : (a b c : Bool) → (a || (b || c)) ≡ (b || (a || c))
    swap true true c = refl
    swap true false c = refl
    swap false b c = refl

pub member-sort : (k : ℕ) (xs : List ℕ) → member k (sort xs) ≡ member k xs
unfolding sort member
member-sort k [] = refl
member-sort k (x ∷ xs) = member-insert_sorted k x (sort xs) ∙ rw (member-sort k xs) refl

NotIn-insert_sorted : (a x : ℕ) (xs : List ℕ) → a ≢ x → NotIn a xs → NotIn a (insert_sorted x xs)
unfolding insert_sorted
NotIn-insert_sorted a x [] h fresh = (h, tt)
NotIn-insert_sorted a x (y ∷ ys) h (other, fresh) = elim (Bool-cases (ltb y x)) [
  | inl after ↦ rw after (other, NotIn-insert_sorted a x ys h fresh)
  | inr before ↦ rw before (h, (other, fresh))
]

NotIn-sort : (a : ℕ) (xs : List ℕ) → NotIn a xs → NotIn a (sort xs)
unfolding sort
NotIn-sort a [] h = tt
NotIn-sort a (x ∷ xs) (h, fresh) = NotIn-insert_sorted a x (sort xs) h (NotIn-sort a xs fresh)

pub sort-Ascending : (xs : List ℕ) → Distinct xs → Ascending 0 (sort xs)
unfolding sort Ascending
sort-Ascending [] h = tt
sort-Ascending (x ∷ xs) (fresh, h) =
    insert_sorted-Ascending 0 x (sort xs) (omega arith) (NotIn-sort x xs fresh)
      (sort-Ascending xs h)

pub slots-sort : (ps xs : List ℕ) (n : ℕ) → slots ps (sort xs) n ≡ slots ps xs n
unfolding slots
slots-sort [] xs n = refl
slots-sort (p ∷ ps) xs n = rw (member-sort n xs, slots-sort ps xs (n + 1)) refl

pub slots_of-sort :
    (a : Option (List ℕ)) (xs : List ℕ) (n : ℕ) → slots_of a (sort xs) n ≡ slots_of a xs n
unfolding slots_of
slots_of-sort none xs n = refl
slots_of-sort (some ps) xs n = rw (slots-sort ps xs n) refl

length-insert_sorted : (x : ℕ) (xs : List ℕ) → length (insert_sorted x xs) ≡ suc (length xs)
unfolding insert_sorted
length-insert_sorted x [] = refl
length-insert_sorted x (y ∷ ys) = elim (Bool-cases (ltb y x)) [
  | inl after ↦ rw after (ap suc (length-insert_sorted x ys))
  | inr before ↦ rw before refl
]

pub length-sort : (xs : List ℕ) → length (sort xs) ≡ length xs
unfolding sort
length-sort [] = refl
length-sort (x ∷ xs) = length-insert_sorted x (sort xs) ∙ ap suc (length-sort xs)
