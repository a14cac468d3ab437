-- ===== src/Services/Matched.antt =====
-- `get_matched_endpoints` of rmw_cyclonedds_cpp/src/rmw_node.cpp ends with the answer of one call.
use rmw_cyclonedds.Base.{
  ℕ, zero, suc, ◌+◌, ◌-◌, ◌*◌, ◌<◌, ◌≤◌, ◌≡◌, refl, ap, arith, true, Option, none, some, List, [],
  ◌∷◌, ◌++◌, length, take, drop, length-replicate, ltb, Bool-cases, Option-cases, inl, inr, ◌⊎◌,
  RmwRet, ret_ok, ret_error,
}
use rmw_cyclonedds.Services.{resize, write_over, matched_loop, get_matched_endpoints}

zero_minus : (n : ℕ) → 0 - n ≡ 0
zero_minus n = omega arith

minus_zero : (n : ℕ) → n - 0 ≡ n
minus_zero n = omega arith

suc_minus : (a b : ℕ) → suc a - suc b ≡ a - b
suc_minus a b = omega arith

pub length-resize : (n : ℕ) (xs : List ℕ) → length (resize n xs) ≡ n
unfolding resize
length-resize zero [] = refl
length-resize zero (x ∷ xs) = rw (zero_minus (suc (length xs))) refl
length-resize (suc n) [] = rw (minus_zero (suc n)) (length-replicate (suc n) 0)
length-resize (suc n) (x ∷ xs) = rw (suc_minus n (length xs)) (ap suc (length-resize n xs))

length-write_over : (ys buffer : List ℕ) → length (write_over ys buffer) ≡ length buffer
unfolding write_over
length-write_over [] [] = refl
length-write_over [] (b ∷ buffer) = refl
length-write_over (y ∷ ys) [] = refl
length-write_over (y ∷ ys) (b ∷ buffer) = ap suc (length-write_over ys buffer)

-- What fits is read back.
resize-write_over :
    (ys buffer : List ℕ)
    → length ys ≤ length buffer
    → resize (length ys) (write_over ys buffer) ≡ ys
unfolding resize write_over
resize-write_over [] buffer fits = rw (zero_minus (length (write_over [] buffer))) refl
resize-write_over (y ∷ ys) [] fits = ground (arith, fits)
resize-write_over (y ∷ ys) (b ∷ buffer) fits =
    rw (suc_minus (length ys) (length (take (length buffer) ys ++ drop (length ys) buffer)))
      (ap (λ zs. y ∷ zs) (resize-write_over ys buffer (omega (arith, fits))))

-- What the loop can end with.
abbrev Answers : (ℕ → Option (List ℕ)) → Option (RmwRet × List ℕ) → Type 0
Answers endpoints r =
    ((k : ℕ) × (ys : List ℕ) × (endpoints k ≡ some ys) × (r ≡ some (ret_ok, ys)))
    ⊎ ((k : ℕ) × (res : List ℕ) × (endpoints k ≡ none) × (r ≡ some (ret_error, res)))

-- An answer that fits ends the loop.
stops :
    (endpoints : ℕ → Option (List ℕ)) (fuel k j : ℕ) (ys buffer : List ℕ)
    → endpoints j ≡ some ys
    → ltb (length ys) (length buffer) ≡ true
    → Answers endpoints (matched_loop endpoints (suc fuel) k (length ys) (write_over ys buffer))
unfolding matched_loop
stops endpoints fuel k j ys buffer found fits = inl (
  j,
  ys,
  found,
  rw
      (
        matched_loop,
        length-write_over ys buffer,
        fits,
        resize-write_over ys buffer (ground (arith, fits)),
      )
      refl,
)

matched_loop-Answers :
    (endpoints : ℕ → Option (List ℕ)) (bound fuel k j : ℕ) (ys buffer : List ℕ)
    → ((i : ℕ) (xs : List ℕ) → endpoints i ≡ some xs → length xs ≤ bound)
    → endpoints j ≡ some ys
    → bound < length buffer + 128 * fuel
    → Answers endpoints (matched_loop endpoints (suc fuel) k (length ys) (write_over ys buffer))
unfolding matched_loop
matched_loop-Answers endpoints bound zero k j ys buffer bounded found enough =
    stops endpoints zero k j ys buffer found (ground (arith, bounded j ys found, enough))
matched_loop-Answers endpoints bound (suc fuel) k j ys buffer bounded found enough =
    elim (Bool-cases (ltb (length ys) (length buffer))) [
      | inl fits ↦ stops endpoints (suc fuel) k j ys buffer found fits
      | inr full ↦ elim (Option-cases (endpoints k)) [
        | inl failed ↦ inr (
          k,
          resize (length ys + 128) (write_over ys buffer),
          failed,
          rw (matched_loop, length-write_over ys buffer, full, failed) refl,
        )
        | inr (zs, next) ↦
            (let more = length-resize (length ys + 128) (write_over ys buffer) in
              let room : bound
                  < length (resize (length ys + 128) (write_over ys buffer)) + 128 * fuel =
                ground (arith, more, full, enough) in
              rw (matched_loop, length-write_over ys buffer, full, next)
                (matched_loop-Answers endpoints bound fuel (k + 1) k zs
                  (resize (length ys + 128) (write_over ys buffer)) bounded next room))
      ]
    ]

-- Where no call finds more than `bound` endpoints and the fuel is more than a 128th of that,
-- get_matched_endpoints ends, whatever the calls find one after the other: with OK and all endpoints
-- that one of the calls found, or with an error where a call failed.
pub get_matched_endpoints-answer :
    (endpoints : ℕ → Option (List ℕ)) (bound fuel : ℕ) (res : List ℕ)
    → ((i : ℕ) (xs : List ℕ) → endpoints i ≡ some xs → length xs ≤ bound)
    → bound < length res + 128 * fuel
    → ((k : ℕ) × (ys : List ℕ) × (endpoints k ≡ some ys)
        × (get_matched_endpoints endpoints (suc fuel) res ≡ some (ret_ok, ys)))
      ⊎ ((k : ℕ) × (res' : List ℕ) × (endpoints k ≡ none)
          × (get_matched_endpoints endpoints (suc fuel) res ≡ some (ret_error, res')))
unfolding get_matched_endpoints
get_matched_endpoints-answer endpoints bound fuel res bounded enough =
    elim (Option-cases (endpoints 0)) [
      | inl failed ↦ inr (0, res, failed, rw (get_matched_endpoints, failed) refl)
      | inr (ys, found) ↦
          rw (get_matched_endpoints, found)
            (matched_loop-Answers endpoints bound fuel 1 0 ys res bounded found enough)
    ]
