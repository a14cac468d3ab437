-- ===== src/Taking/Sequence.antt =====
-- `rmw_take_seq` of rmw_cyclonedds_cpp/src/rmw_node.cpp: what it leaves in the two sequences.
use rmw_cyclonedds.Base.{
  ℕ, suc, ◌+◌, ◌^◌, ◌<◌, ◌≤◌, ◌≡◌, refl, ap, ◌∙◌, arith, true, false, some, List, [], ◌∷◌, ◌++◌,
  map, length, length-map, drop, Bool-cases, inl, inr, ret_ok,
}
use rmw_cyclonedds.Taking.{
  Sample, message_info_from_sample_info, MessageSequence, slot_address, sort_taken, TakenSequence,
  reorder, rmw_take_seq,
}

-- The numbers, from `n` on, of the samples with valid data, and of the others.
unfoldable pub valid_from : ℕ → List Sample → List ℕ
valid_from n [] = []
valid_from n (x ∷ xs) = elim x.valid_data [
  | true ↦ n ∷ valid_from (n + 1) xs
  | false ↦ valid_from (n + 1) xs
]

unfoldable pub invalid_from : ℕ → List Sample → List ℕ
invalid_from n [] = []
invalid_from n (x ∷ xs) = elim x.valid_data [
  | true ↦ invalid_from (n + 1) xs
  | false ↦ n ∷ invalid_from (n + 1) xs
]

unfoldable pub valid_samples : List Sample → List Sample
valid_samples [] = []
valid_samples (x ∷ xs) = elim x.valid_data [
  | true ↦ x ∷ valid_samples xs
  | false ↦ valid_samples xs
]

sort_taken-valid :
    (base n : ℕ) (xs : List Sample)
    → ((sort_taken base n xs).0 ≡ map (slot_address base) (valid_from n xs))
      × ((sort_taken base n xs).1 ≡ map (slot_address base) (invalid_from n xs))
      × ((sort_taken base n xs).2 ≡ map message_info_from_sample_info (valid_samples xs))
unfolding sort_taken valid_from invalid_from valid_samples
sort_taken-valid base n [] = (refl, refl, refl)
sort_taken-valid base n (x ∷ xs) =
    let (first, second, third) = sort_taken-valid base (n + 1) xs in
    elim (Bool-cases x.valid_data) [
      | inl valid ↦
          rw (sort_taken, valid_from, invalid_from, valid_samples, valid)
            (
              ap (λ ys. slot_address base n ∷ ys) first,
              second,
              ap (λ ys. message_info_from_sample_info x ∷ ys) third,
            )
      | inr invalid ↦
          rw (sort_taken, valid_from, invalid_from, valid_samples, invalid)
            (first, ap (λ ys. slot_address base n ∷ ys) second, third)
    ]

length-valid_from :
    (n : ℕ) (xs : List Sample) → length (valid_from n xs) ≡ length (valid_samples xs)
unfolding valid_from valid_samples
length-valid_from n [] = refl
length-valid_from n (x ∷ xs) = elim (Bool-cases x.valid_data) [
  | inl valid ↦ rw (valid_from, valid_samples, valid) (ap suc (length-valid_from (n + 1) xs))
  | inr invalid ↦ rw (valid_from, valid_samples, invalid) (length-valid_from (n + 1) xs)
]

accepted :
    (count capacity info_capacity : ℕ) (messages : MessageSequence) (samples : List Sample)
    → 0 < count
    → count ≤ capacity
    → count ≤ info_capacity
    → count < 2 ^ 32
    → rmw_take_seq count capacity info_capacity messages (some samples) ≡ reorder messages samples
unfolding rmw_take_seq
accepted count capacity info_capacity messages samples some_count fits info_fits small =
    ground arith

-- Where `count` is not 0, fits in both sequences and in 32 bits, and dds_take returns some samples,
-- rmw_take_seq returns OK; the taken number and both sizes are the number of the samples with valid
-- data, and the message infos are those of these samples in their order. The pointers of the message
-- sequence are overwritten: by the addresses of the elements themselves, first those of the samples
-- with valid data and then those of the others.
pub rmw_take_seq-slots :
    (count capacity info_capacity : ℕ) (messages : MessageSequence) (samples : List Sample)
    → 0 < count
    → count ≤ capacity
    → count ≤ info_capacity
    → count < 2 ^ 32
    → (t : TakenSequence) × (rmw_take_seq count capacity info_capacity messages (some samples) ≡ t)
      × (t.ret ≡ ret_ok)
      × (t.taken ≡ some (length (valid_samples samples)))
      × (t.messages.size ≡ length (valid_samples samples))
      × (t.infos ≡ some (map message_info_from_sample_info (valid_samples samples)))
      × (t.messages.slots
          ≡ map (slot_address messages.base) (valid_from 0 samples)
            ++ (map (slot_address messages.base) (invalid_from 0 samples)
                ++ drop (length samples) messages.slots))
unfolding reorder
rmw_take_seq-slots count capacity info_capacity messages samples some_count fits info_fits small =
    let (first, second, third) = sort_taken-valid messages.base 0 samples in
    let counted =
      ap length first
      ∙ length-map (valid_from 0 samples) (slot_address messages.base)
      ∙ length-valid_from 0 samples in
    (
      reorder messages samples,
      accepted count capacity info_capacity messages samples some_count fits info_fits small,
      refl,
      ap (λ n. some n) counted,
      counted,
      ap (λ infos. some infos) third,
      rw (first, second) refl,
    )
