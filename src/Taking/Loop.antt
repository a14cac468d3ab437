-- ===== src/Taking/Loop.antt =====
-- The loops over `dds_take` of rmw_cyclonedds_cpp/src/rmw_node.cpp end, at the first sample that is
-- wanted.
use rmw_cyclonedds.Base.{
  ℕ, zero, suc, ◌<◌, ◌≡◌, refl, arith, Bool, true, false, Option, none, some, List, [], ◌∷◌, length,
  Bool-cases, Option-cases, inl, inr,
}
use rmw_cyclonedds.Taking.{Sample, Reader, take_until, message_info_from_sample_info, rmw_take_int}

-- The first sample that is wanted, and what comes after it.
unfoldable pub first_wanted : (Sample → Bool) → List Sample → Option Sample
first_wanted wanted [] = none
first_wanted wanted (x ∷ xs) = elim (wanted x) [ true ↦ some x | false ↦ first_wanted wanted xs ]

unfoldable pub after_wanted : (Sample → Bool) → List Sample → List Sample
after_wanted wanted [] = []
after_wanted wanted (x ∷ xs) = elim (wanted x) [ true ↦ xs | false ↦ after_wanted wanted xs ]

pub take_until-first_wanted :
    (r : Reader) (wanted : Sample → Bool) (xs : List Sample) (fuel : ℕ) (s : r.State)
    → r.pending s ≡ xs
    → length xs < fuel
    → (s' : r.State) × (take_until r wanted fuel s ≡ some (first_wanted wanted xs, s'))
      × (r.pending s' ≡ after_wanted wanted xs)
unfolding take_until first_wanted after_wanted
take_until-first_wanted r wanted [] zero s h enough = ground arith
take_until-first_wanted r wanted [] (suc fuel) s h enough =
    (s, rw (take_until, r.take_one-empty s h) refl, h)
take_until-first_wanted r wanted (x ∷ xs) zero s h enough = ground arith
take_until-first_wanted r wanted (x ∷ xs) (suc fuel) s h enough =
    let (s₁, taken, left) = r.take_one-next s x xs h in
    elim (Bool-cases (wanted x)) [
      | inl yes_wanted ↦ (
        s₁,
        rw (take_until, taken, first_wanted, yes_wanted) refl,
        rw (after_wanted, yes_wanted) left,
      )
      | inr not_wanted ↦
          (let (s', found, rest) =
              take_until-first_wanted r wanted xs fuel s₁ left (omega (arith, enough)) in
            (
              s',
              rw (take_until, taken, first_wanted, not_wanted) found,
              rw (after_wanted, not_wanted) rest,
            ))
    ]

-- rmw_take_int ends for as much fuel as there are samples and one more. It takes the samples up to
-- the first one with valid data, and stores the message and the message info of that one; where no
-- sample has valid data it takes all of them and `*taken` is false.
pub rmw_take_int-first_valid :
    (r : Reader) (fuel : ℕ) (s : r.State)
    → length (r.pending s) < fuel
    → (s' : r.State) × (rmw_take_int r fuel s
        ≡ some (
          elim (first_wanted (λ x. x.valid_data) (r.pending s)) [
            | some x ↦ some (x.message, message_info_from_sample_info x)
            | none ↦ none
          ],
          s',
        ))
      × (r.pending s' ≡ after_wanted (λ x. x.valid_data) (r.pending s))
unfolding rmw_take_int
rmw_take_int-first_valid r fuel s enough =
    let (s', found, left) =
      take_until-first_wanted r (λ x. x.valid_data) (r.pending s) fuel s refl enough in
    elim (Option-cases (first_wanted (λ x. x.valid_data) (r.pending s))) [
      | inl nothing ↦ (s', rw (rmw_take_int, found, nothing) refl, left)
      | inr (x, one) ↦ (s', rw (rmw_take_int, found, one) refl, left)
    ]
