-- ===== src/Runs/ServiceClaims.antt =====
-- Taking samples, requests and responses at concrete inputs.
use rmw_cyclonedds.Base.{
  ℕ, zero, suc, ◌+◌, ◌*◌, ◌≤◌, ◌≡◌, refl, sym, ap, arith, Bool, true, false, Option, none, some,
  List, [], ◌∷◌, length, ltb, ◌⊎◌, if◌then◌else◌, RmwRet, ret_ok, ret_error, ret_timeout, inl, inr,
  ◌==◌,
}
use rmw_cyclonedds.Taking.{
  Sample, Reader, message_info_from_sample_info, rmw_take_int, TakenSequence, slot_address,
  rmw_take_seq,
}
use rmw_cyclonedds.Taking.Loop.{first_wanted, after_wanted, rmw_take_int-first_valid}
use rmw_cyclonedds.Taking.Sequence.{valid_from, invalid_from, valid_samples, rmw_take_seq-slots}
use rmw_cyclonedds.Services.{
  service_info, rmw_take_request, rmw_take_response, request_header, response_header,
  get_matched_endpoints, ClientPresent, failure, maybe, yes_present, check_for_response_reader,
  rmw_send_response, gone,
}
use rmw_cyclonedds.Services.Requests.{rmw_send_request-rmw_take_response}
use rmw_cyclonedds.Services.Matched.{get_matched_endpoints-answer}
use rmw_cyclonedds.Services.Availability.{
  HasId, check_for_service_reader_writer, rmw_service_server_is_available,
  rmw_service_server_is_available-true,
}
use rmw_cyclonedds.Services.TopicName.{get_topic_name, get_topic_name-whole}
use rmw_cyclonedds.Services.Presence.{
  EndsAt, check_for_response_reader-no_failure, rmw_send_response-ends,
}

-- A reader that is a list of samples.
abbrev next_of : List Sample → Option (Sample × List Sample)
next_of [] = none
next_of (x ∷ xs) = some (x, xs)

abbrev listed : Reader
listed = record {
  State = List Sample;
  pending = λ s. s;
  take_one = next_of;
  take_one-empty = λ s h. rw h refl;
  take_one-next = λ s x xs h. (xs, rw h refl, refl);
}

abbrev sample : Bool → ℕ → ℕ → ℕ → Sample
sample valid guid seq message = record {
  valid_data = valid;
  publication_handle = 77;
  source_timestamp = 1000;
  guid = guid;
  seq = seq;
  message = message;
}

abbrev received : List Sample
received = sample false 1 1 10 ∷ sample true 2 2 20 ∷ sample false 3 3 30 ∷ []

rmw_take_int-first_valid_example :
    (s' : List Sample) × (rmw_take_int listed 4 received
      ≡ some (some (20, message_info_from_sample_info (sample true 2 2 20)), s'))
    × (s' ≡ sample false 3 3 30 ∷ [])
unfolding first_wanted after_wanted
rmw_take_int-first_valid_example = rmw_take_int-first_valid listed 4 received (omega arith)

-- Three messages at the addresses 500, 600 and 700, in an array at 4096.
rmw_take_seq-slots_example :
    (t : TakenSequence) × (rmw_take_seq 3 3 3
        (record { base = 4096; slots = 500 ∷ 600 ∷ 700 ∷ []; size = 0 })
        (some received)
      ≡ t)
    × (t.ret ≡ ret_ok)
    × (t.taken ≡ some 1)
    × (t.messages.size ≡ 1)
    × (t.infos ≡ some (message_info_from_sample_info (sample true 2 2 20) ∷ []))
    × (t.messages.slots ≡ 4104 ∷ 4096 ∷ 4112 ∷ [])
unfolding valid_samples valid_from invalid_from slot_address
rmw_take_seq-slots_example =
    rmw_take_seq-slots 3 3 3 (record { base = 4096; slots = 500 ∷ 600 ∷ 700 ∷ []; size = 0 })
      received (omega arith) (omega arith) (omega arith) (omega arith)

rmw_send_request-rmw_take_response_example :
    (sq' : List Sample) × (sc' : List Sample) × (rmw_take_request listed 5
        (sample true 9 42 100 ∷ [])
      ≡ some (some (service_info (sample true 9 42 100)), sq'))
    × (rmw_take_response listed 9 5 (sample true 8 42 5 ∷ sample true 9 42 200 ∷ [])
        ≡ some (some (service_info (sample true 9 42 200)), sc'))
    × ((service_info (sample true 9 42 200)).sequence_number ≡ (request_header 9 41).seq)
unfolding service_info response_header request_header
rmw_send_request-rmw_take_response_example =
    rmw_send_request-rmw_take_response listed listed (sample true 9 42 100 ∷ [])
      (sample true 8 42 5 ∷ sample true 9 42 200 ∷ []) 9 41 5 (sample true 9 42 100)
      (sample true 9 42 200) [] (sample true 8 42 5 ∷ []) [] (omega arith) refl
      (record { valid = refl; guid = refl; seq = refl }) refl ((λ e. ground arith), tt)
      (record { valid = refl; guid = refl; seq = refl }) (omega arith) (omega arith)

-- One endpoint at the first call, two at the later ones.
abbrev endpoints : ℕ → Option (List ℕ)
endpoints zero = some (31 ∷ [])
endpoints (suc k) = some (31 ∷ 32 ∷ [])

endpoints-bounded : (i : ℕ) (xs : List ℕ) → endpoints i ≡ some xs → length xs ≤ 2
endpoints-bounded zero xs h = rw (sym (ap list_of h)) (omega arith)
  where
    list_of : Option (List ℕ) → List ℕ
    list_of none = []
    list_of (some ys) = ys
endpoints-bounded (suc i) xs h = rw (sym (ap list_of h)) (omega arith)
  where
    list_of : Option (List ℕ) → List ℕ
    list_of none = []
    list_of (some ys) = ys

get_matched_endpoints-answer_example :
    ((k : ℕ) × (ys : List ℕ) × (endpoints k ≡ some ys)
      × (get_matched_endpoints endpoints 2 [] ≡ some (ret_ok, ys)))
    ⊎ ((k : ℕ) × (res' : List ℕ) × (endpoints k ≡ none)
        × (get_matched_endpoints endpoints 2 [] ≡ some (ret_error, res')))
get_matched_endpoints-answer_example =
    get_matched_endpoints-answer endpoints 2 1 [] endpoints-bounded (omega arith)

-- Cyclone DDS fails to list the readers.
check_for_response_reader-no_failure_example :
    ¬ (check_for_response_reader (some (some 5)) (λ rd. none) (λ k. none) 2 ≡ some failure)
check_for_response_reader-no_failure_example =
    check_for_response_reader-no_failure (some (some 5)) (λ rd. none) (λ k. none) 2

-- The reader is matched at the third check.
abbrev third : ℕ → ClientPresent
third k = if ltb k 2 then maybe else yes_present

rmw_send_response-ends_example :
    (j : ℕ) × EndsAt third (λ k. 7 + 11 * k) 107 0 j
    × (ret : RmwRet) × (rmw_send_response ret_ok third (λ k. 7 + 11 * k) 20 ≡ some ret)
    × (((third j ≡ yes_present) × (ret ≡ ret_ok))
        ⊎ (((third j ≡ maybe) × (ret ≡ ret_timeout))
            ⊎ (((third j ≡ gone) × (ret ≡ ret_ok)) ⊎ ((third j ≡ failure) × (ret ≡ ret_error)))))
rmw_send_response-ends_example =
    rmw_send_response-ends ret_ok third (λ k. 7 + 11 * k) 20 10 (omega arith) (omega arith)

-- The reader 31 and the writer 42 have the service id 5; the reader 30 has none.
abbrev reader_id : ℕ → Option ℕ
reader_id e = if e == 31 then some 5 else none

abbrev writer_id : ℕ → Option ℕ
writer_id e = if e == 42 then some 5 else some 6

rmw_service_server_is_available-true_example :
    rmw_service_server_is_available
      (ret_ok, ret_ok)
      (ret_ok, 2)
      (ret_ok, 2)
      (check_for_service_reader_writer reader_id writer_id
        (ret_ok, 30 ∷ 31 ∷ [])
        (ret_ok, 41 ∷ 42 ∷ []))
    ≡ (ret_ok, true)
unfolding HasId
rmw_service_server_is_available-true_example =
    rmw_service_server_is_available-true (ret_ok, ret_ok) 2 2 reader_id writer_id ret_ok ret_ok
      (30 ∷ 31 ∷ []) (41 ∷ 42 ∷ []) 5 refl refl (inr (inl refl)) (inr (inl refl))

get_topic_name-whole_example :
    get_topic_name (some (114 ∷ 113 ∷ [])) (some (114 ∷ 113 ∷ [])) ≡ (ret_ok, 114 ∷ 113 ∷ [])
get_topic_name-whole_example = get_topic_name-whole (114 ∷ 113 ∷ [])
