-- ===== src/Services/TopicName.antt =====
-- `get_topic_name` of rmw_cyclonedds_cpp/src/rmw_node.cpp.
use rmw_cyclonedds.Base.{
  ℕ, zero, suc, ◌+◌, ◌-◌, ◌≤◌, ◌<◌, ◌≡◌, refl, ap, arith, Option, none, some, List, [], ◌∷◌, ◌++◌,
  length, take, ltb, if◌then◌else◌, Bool-cases, inl, inr, RmwRet, ret_ok, ret_error,
}

-- What `dds_get_name` writes to a buffer of `size` characters: as much of the name as fits, and a NUL.
unfoldable pub written : List ℕ → ℕ → List ℕ
written name size = take (size - 1) name ++ 0 ∷ []

-- Its end, after the last call.
unfoldable pub name_in : Option (List ℕ) → ℕ → RmwRet × List ℕ
name_in none size = (ret_error, [])
name_in (some name) size =
    if ltb (length name) size
    then (ret_ok, take (length name) (written name size))
    else (ret_error, [])

-- `get_topic_name`: the names that the topic has at the two calls, `none` for an error; the call
-- returns the length of the name.
unfoldable pub get_topic_name : Option (List ℕ) → Option (List ℕ) → RmwRet × List ℕ
get_topic_name none second = name_in none 128
get_topic_name (some name) second =
    if ltb (length name) 128 then name_in (some name) 128 else name_in second (length name + 1)

take-written :
    (name : List ℕ) (n : ℕ) → length name ≤ n → take (length name) (take n name ++ 0 ∷ []) ≡ name
take-written [] n fits = refl
take-written (c ∷ name) zero fits = ground (arith, fits)
take-written (c ∷ name) (suc n) fits = ap (λ cs. c ∷ cs) (take-written name n (omega (arith, fits)))

name_in-whole :
    (name : List ℕ) (size : ℕ) → length name < size → name_in (some name) size ≡ (ret_ok, name)
unfolding name_in written
name_in-whole name size fits = elim (Bool-cases (ltb (length name) size)) [
  | inl small ↦ rw (small, take-written name (size - 1) (omega (arith, fits))) refl
  | inr large ↦ ground (arith, large, fits)
]

-- For a topic whose name does not change between the calls, get_topic_name returns OK and the whole
-- name, whatever its length.
pub get_topic_name-whole : (name : List ℕ) → get_topic_name (some name) (some name) ≡ (ret_ok, name)
unfolding get_topic_name
get_topic_name-whole name = elim (Bool-cases (ltb (length name) 128)) [
  | inl short ↦ rw short (name_in-whole name 128 (ground (arith, short)))
  | inr long ↦ rw long (name_in-whole name (length name + 1) (omega arith))
]
