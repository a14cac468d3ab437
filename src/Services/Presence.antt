-- ===== src/Services/Presence.antt =====
-- The check for the reader of a response in rmw_cyclonedds_cpp/src/rmw_node.cpp, and the loop of
-- `rmw_send_response` that waits for it.
use rmw_cyclonedds.Base.{
  ℕ, zero, suc, ◌+◌, ◌<◌, ◌≤◌, ◌≡◌, ◌≢◌, refl, sym, ap, ◌∙◌, arith, Bool, true, false, Option, none,
  some, List, [], ltb, if◌then◌else◌, Bool-cases, Option-cases, inl, inr, ◌⊎◌, ◌==◌, ==→eq, RmwRet,
  ret_ok, ret_error, ret_timeout, ret_unsupported, ret_invalid_argument,
}
use rmw_cyclonedds.Services.{
  get_matched_endpoints, ClientPresent, failure, maybe, yes_present, gone, is_negative, any_reader,
  look_for_reader, check_for_response_reader, wait_for_reader, respond, rmw_send_response,
}

is_failure : Option ClientPresent → Bool
is_failure (some failure) = true
is_failure _ = false

pub not_negative : (ret : RmwRet) → is_negative ret ≡ false
unfolding is_negative
not_negative ret_ok = refl
not_negative ret_error = refl
not_negative ret_timeout = refl
not_negative ret_unsupported = refl
not_negative ret_invalid_argument = refl

looked_for : (b : Bool) → is_failure (some (if b then yes_present else maybe)) ≡ false
unfolding is_failure
looked_for true = refl
looked_for false = refl

check_is_no_failure :
    (writer : Option (Option ℕ)) (reader_of : ℕ → Option (Option ℕ))
    (endpoints : ℕ → Option (List ℕ)) (fuel : ℕ)
    → is_failure (check_for_response_reader writer reader_of endpoints fuel) ≡ false
unfolding check_for_response_reader look_for_reader is_failure
check_is_no_failure none reader_of endpoints fuel = refl
check_is_no_failure (some none) reader_of endpoints fuel = refl
check_is_no_failure (some (some clientid)) reader_of endpoints fuel =
    elim (Option-cases (get_matched_endpoints endpoints fuel [])) [
      | inl out_of_fuel ↦ rw (check_for_response_reader, out_of_fuel) refl
      | inr ((ret, rds), found) ↦
          rw (check_for_response_reader, found, not_negative ret)
            (looked_for (any_reader reader_of rds clientid))
    ]

-- check_for_response_reader never finds FAILURE, whatever Cyclone DDS says of the endpoints, and
-- where asking for them fails as well.
pub check_for_response_reader-no_failure :
    (writer : Option (Option ℕ)) (reader_of : ℕ → Option (Option ℕ))
    (endpoints : ℕ → Option (List ℕ)) (fuel : ℕ)
    → ¬ (check_for_response_reader writer reader_of endpoints fuel ≡ some failure)
unfolding is_failure
check_for_response_reader-no_failure writer reader_of endpoints fuel h =
    ground (arith, sym (ap is_failure h) ∙ check_is_no_failure writer reader_of endpoints fuel)

-- The first check, from `k` on, that is not MAYBE or comes too late.
pub record EndsAt (present : ℕ → ClientPresent) (clock : ℕ → ℕ) (tend k j : ℕ) : Type 0 where
  pub from : k ≤ j
  pub waited : (i : ℕ) → k ≤ i → i < j → (present i ≡ maybe) × (clock i < tend)
  pub stopped : (present j ≢ maybe) ⊎ (tend ≤ clock j)

abbrev Ends : (ℕ → ClientPresent) → (ℕ → ℕ) → ℕ → ℕ → Option ClientPresent → Type 0
Ends present clock tend k r = (j : ℕ) × EndsAt present clock tend k j × (r ≡ some (present j))

at_once :
    (present : ℕ → ClientPresent) (clock : ℕ → ℕ) (tend k : ℕ)
    → (present k ≢ maybe) ⊎ (tend ≤ clock k)
    → EndsAt present clock tend k k
at_once present clock tend k stop = record {
  from = omega arith;
  waited = λ i low high. ground (arith, low, high);
  stopped = stop;
}

one_later :
    (present : ℕ → ClientPresent) (clock : ℕ → ℕ) (tend k j : ℕ)
    → present k ≡ maybe
    → clock k < tend
    → EndsAt present clock tend (k + 1) j
    → EndsAt present clock tend k j
one_later present clock tend k j unsure early ends = record {
  from = omega (arith, ends.from);
  waited = λ i low high. elim (Bool-cases (k == i)) [
    | inl here ↦ rw (sym (==→eq k i here)) (unsure, early)
    | inr later ↦ ends.waited i (ground (arith, low, later)) high
  ];
  stopped = ends.stopped;
}

not_yet :
    (clock : ℕ → ℕ) (tend k last : ℕ) → tend ≤ clock last → k ≤ last → clock k < tend → k + 1 ≤ last
not_yet clock tend k last late before early = elim (Bool-cases (k == last)) [
  | inl here ↦ (let late' = rw (sym (==→eq k last here)) at late in ground (arith, late', early))
  | inr earlier ↦ ground (arith, before, earlier)
]

-- One check, with what follows a MAYBE in time.
one_check :
    (present : ℕ → ClientPresent) (clock : ℕ → ℕ) (tend fuel k : ℕ) (st : ClientPresent)
    → present k ≡ st
    → (clock k < tend
        → Ends present clock tend (k + 1) (wait_for_reader present clock tend fuel (k + 1)))
    → Ends present clock tend k (wait_for_reader present clock tend (suc fuel) k)
unfolding wait_for_reader
one_check present clock tend fuel k failure h rest =
    (k, at_once present clock tend k (inl (λ e. cc)), rw (wait_for_reader, h) refl)
one_check present clock tend fuel k yes_present h rest =
    (k, at_once present clock tend k (inl (λ e. cc)), rw (wait_for_reader, h) refl)
one_check present clock tend fuel k gone h rest =
    (k, at_once present clock tend k (inl (λ e. cc)), rw (wait_for_reader, h) refl)
one_check present clock tend fuel k maybe h rest = elim (Bool-cases (ltb (clock k) tend)) [
  | inr too_late ↦
      (k, at_once present clock tend k (inr (ground arith)), rw (wait_for_reader, h, too_late) refl)
  | inl early ↦
      (let in_time : clock k < tend = ground arith in
        let (j, ends, found) = rest in_time in
        (j, one_later present clock tend k j h in_time ends, rw (wait_for_reader, h, early) found))
]

wait_for_reader-Ends :
    (present : ℕ → ClientPresent) (clock : ℕ → ℕ) (tend fuel k last : ℕ)
    → tend ≤ clock last
    → k ≤ last
    → last < k + fuel
    → Ends present clock tend k (wait_for_reader present clock tend fuel k)
unfolding wait_for_reader
wait_for_reader-Ends present clock tend zero k last late before enough =
    ground (arith, before, enough)
wait_for_reader-Ends present clock tend (suc fuel) k last late before enough =
    one_check present clock tend fuel k (present k) refl (λ in_time.
      wait_for_reader-Ends present clock tend fuel (k + 1) last late
        (not_yet clock tend k last late before in_time) (omega (arith, enough)))

respond-cases :
    (write : RmwRet) (st : ClientPresent)
    → ((st ≡ yes_present) × (respond write st ≡ write))
      ⊎ (((st ≡ maybe) × (respond write st ≡ ret_timeout))
          ⊎ (((st ≡ gone) × (respond write st ≡ ret_ok))
              ⊎ ((st ≡ failure) × (respond write st ≡ ret_error))))
unfolding respond
respond-cases write yes_present = inl (refl, refl)
respond-cases write maybe = inr (inl (refl, refl))
respond-cases write gone = inr (inr (inl (refl, refl)))
respond-cases write failure = inr (inr (inr (refl, refl)))

-- Where the clock has passed the 100 ms at some check and the fuel is more than its number,
-- rmw_send_response ends, at the first check that is not MAYBE or is as late: it returns what writing
-- the response returns where that check is YES, TIMEOUT for MAYBE, OK for GONE and ERROR for FAILURE.
pub rmw_send_response-ends :
    (write : RmwRet) (present : ℕ → ClientPresent) (clock : ℕ → ℕ) (fuel last : ℕ)
    → clock 0 + 100 ≤ clock last
    → last < fuel
    → (j : ℕ) × EndsAt present clock (clock 0 + 100) 0 j
      × (ret : RmwRet) × (rmw_send_response write present clock fuel ≡ some ret)
      × (((present j ≡ yes_present) × (ret ≡ write))
          ⊎ (((present j ≡ maybe) × (ret ≡ ret_timeout))
              ⊎ (((present j ≡ gone) × (ret ≡ ret_ok))
                  ⊎ ((present j ≡ failure) × (ret ≡ ret_error)))))
unfolding rmw_send_response
rmw_send_response-ends write present clock fuel last late enough =
    let (j, ends, found) =
      wait_for_reader-Ends present clock (clock 0 + 100) fuel 0 last late (omega arith)
        (omega (arith, enough)) in
    (
      j,
      ends,
      respond write (present j),
      rw (rmw_send_response, found) refl,
      respond-cases write (present j),
    )
