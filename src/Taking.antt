-- ===== src/Taking.antt =====
-- Taking samples in rmw_cyclonedds_cpp/src/rmw_node.cpp: `rmw_take_int`, `rmw_take_seq` and the loop
-- of `rmw_take_response_request`. The null checks of the arguments and the tracepoints are left out.
pub mod Loop
pub mod Sequence
use rmw_cyclonedds.Base.{
  ℕ, zero, suc, ◌+◌, ◌*◌, ◌-◌, ◌^◌, ◌≡◌, Bool, true, false, ◌&&◌, ◌||◌, Option, none, some, List,
  [], ◌∷◌, ◌++◌, length, drop, ◌==◌, ltb, if◌then◌else◌, RmwRet, ret_ok, ret_error,
  ret_invalid_argument,
}

-- What the code reads of `dds_sample_info_t`, and what was taken: for a request or a response the
-- header `cdds_request_header_t`, and the message.
pub record Sample : Type 0 where
  pub valid_data : Bool
  pub publication_handle : ℕ
  pub source_timestamp : ℕ
  pub guid : ℕ
  pub seq : ℕ
  pub message : ℕ

-- A reader of Cyclone DDS as a sequence of samples. `dds_take` with room for one sample takes the
-- next; it returns another number than 1 where there is none.
pub record Reader : Type 1 where
  pub State : Type 0
  pub pending : State → List Sample
  pub take_one : State → Option (Sample × State)
  pub take_one-empty : (s : State) → pending s ≡ [] → take_one s ≡ none
  pub take_one-next :
      (s : State) (x : Sample) (xs : List Sample)
      → pending s ≡ x ∷ xs
      → (s' : State) × (take_one s ≡ some (x, s')) × (pending s' ≡ xs)

-- The loops over `dds_take`: they end at the first sample that is wanted. No sample is left in `none`
-- of the inner option, no fuel in the outer one.
unfoldable pub take_until :
    (r : Reader) → (Sample → Bool) → ℕ → r.State → Option (Option Sample × r.State)
take_until r wanted zero s = none
take_until r wanted (suc fuel) s = elim (r.take_one s) [
  | none ↦ some (none, s)
  | some (x, s') ↦ elim (wanted x) [
    | true ↦ some (some x, s')
    | false ↦ take_until r wanted fuel s'
  ]
]

-- `rmw_message_info_t`, as far as it comes from the sample.
pub record MessageInfo : Type 0 where
  pub publisher_gid : ℕ
  pub source_timestamp : ℕ

unfoldable pub message_info_from_sample_info : Sample → MessageInfo
message_info_from_sample_info info = record {
  publisher_gid = info.publication_handle;
  source_timestamp = info.source_timestamp;
}

-- `rmw_take_int`: the message and its information where `*taken` is true.
unfoldable pub rmw_take_int :
    (r : Reader) → ℕ → r.State → Option (Option (ℕ × MessageInfo) × r.State)
rmw_take_int r fuel s = elim (take_until r (λ x. x.valid_data) fuel s) [
  | none ↦ none
  | some (none, s') ↦ some (none, s')
  | some (some x, s') ↦ some (some (x.message, message_info_from_sample_info x), s')
]

-- `rmw_message_sequence_t`: `base` is the address of the array `data`.
pub record MessageSequence : Type 0 where
  pub base : ℕ
  pub slots : List ℕ
  pub size : ℕ

-- The address of the element `ii`, `&message_sequence->data[ii]`.
unfoldable pub slot_address : ℕ → ℕ → ℕ
slot_address base ii = base + 8 * ii

-- The loop over the samples: `taken_msg`, `not_taken_msg` and the message infos.
unfoldable pub sort_taken : ℕ → ℕ → List Sample → List ℕ × List ℕ × List MessageInfo
sort_taken base ii [] = ([], [], [])
sort_taken base ii (info ∷ infos) =
    let (taken_msg, not_taken_msg, message_infos) = sort_taken base (ii + 1) infos in
    elim info.valid_data [
      | true ↦ (
        slot_address base ii ∷ taken_msg,
        not_taken_msg,
        message_info_from_sample_info info ∷ message_infos,
      )
      | false ↦ (taken_msg, slot_address base ii ∷ not_taken_msg, message_infos)
    ]

-- What `rmw_take_seq` leaves: `none` for what it does not write.
pub record TakenSequence : Type 0 where
  pub ret : RmwRet
  pub messages : MessageSequence
  pub infos : Option (List MessageInfo)
  pub taken : Option ℕ

-- `rmw_take_seq`: `capacity` and `info_capacity` are those of the two sequences, `samples` is what
-- `dds_take` returns, `none` for an error.
unfoldable pub reorder : MessageSequence → List Sample → TakenSequence
reorder messages samples =
    let (taken_msg, not_taken_msg, message_infos) = sort_taken messages.base 0 samples in
    record {
      ret = ret_ok;
      messages = record messages {
        slots = taken_msg ++ (not_taken_msg ++ drop (length samples) messages.slots);
        size = length taken_msg;
      };
      infos = some message_infos;
      taken = some (length taken_msg);
    }

abbrev pub refuse : RmwRet → MessageSequence → TakenSequence
refuse ret messages = record { ret = ret; messages = messages; infos = none; taken = none }

unfoldable pub rmw_take_seq :
    ℕ → (capacity info_capacity : ℕ) → MessageSequence → Option (List Sample) → TakenSequence
rmw_take_seq count capacity info_capacity messages samples =
    if count == 0
    then refuse ret_invalid_argument messages
    else if ltb capacity count
    then refuse ret_invalid_argument messages
    else if ltb info_capacity count
    then refuse ret_invalid_argument messages
    else if ltb (2 ^ 32 - 1) count
    then refuse ret_error messages
    else elim samples [ none ↦ refuse ret_error messages | some xs ↦ reorder messages xs ]
