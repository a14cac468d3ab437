-- ===== src/Services.antt =====
-- Requests and responses in rmw_cyclonedds_cpp/src/rmw_node.cpp, and the check for the reader of a
-- response. The null checks of the arguments, the tracepoints and received timestamps are left out.
pub mod Requests
pub mod Matched
pub mod Presence
pub mod Availability
pub mod TopicName
use rmw_cyclonedds.Base.{
  ℕ, zero, suc, ◌+◌, ◌%◌, ◌-◌, ◌^◌, Bool, true, false, ◌&&◌, ◌||◌, Option, none, some, List, [],
  ◌∷◌, ◌++◌, length, take, drop, replicate, ◌==◌, ltb, if◌then◌else◌, RmwRet, ret_ok, ret_error,
  ret_timeout, ret_unsupported, ret_invalid_argument,
}
use rmw_cyclonedds.Taking.{Sample, Reader, take_until}

-- `cdds_request_header_t`.
pub record RequestHeader : Type 0 where
  pub guid : ℕ
  pub seq : ℕ

-- `rmw_service_info_t`, and the message that is taken with it. The 16 bytes of `writer_guid` are two
-- numbers of 64 bits.
pub record ServiceInfo : Type 0 where
  pub writer_guid : ℕ × ℕ
  pub sequence_number : ℕ
  pub source_timestamp : ℕ
  pub message : ℕ

unfoldable pub service_info : Sample → ServiceInfo
service_info x = record {
  writer_guid = (x.guid, x.publication_handle);
  sequence_number = x.seq;
  source_timestamp = x.source_timestamp;
  message = x.message;
}

unfoldable pub passes : ℕ → Sample → Bool
passes srcfilter x = x.valid_data && (srcfilter == 0 || srcfilter == x.guid)

-- `rmw_take_response_request`. What it stores of samples that do not pass the filter, and `*taken` is
-- false in the end, is left out.
unfoldable pub rmw_take_response_request :
    (r : Reader) → ℕ → ℕ → r.State → Option (Option ServiceInfo × r.State)
rmw_take_response_request r srcfilter fuel s = elim (take_until r (passes srcfilter) fuel s) [
  | none ↦ none
  | some (none, s') ↦ some (none, s')
  | some (some x, s') ↦ some (some (service_info x), s')
]

-- `rmw_take_response` for the client whose writer is `pubiid`, and `rmw_take_request`.
unfoldable pub rmw_take_response :
    (r : Reader) → ℕ → ℕ → r.State → Option (Option ServiceInfo × r.State)
rmw_take_response r pubiid fuel s = rmw_take_response_request r pubiid fuel s

unfoldable pub rmw_take_request : (r : Reader) → ℕ → r.State → Option (Option ServiceInfo × r.State)
rmw_take_request r fuel s = rmw_take_response_request r 0 fuel s

-- `rmw_send_request`: the header that is written; its number is also `*sequence_id` and the next value
-- of the counter, an `unsigned int`.
unfoldable pub request_header : ℕ → ℕ → RequestHeader
request_header pubiid next_request_id = record {
  guid = pubiid;
  seq = (next_request_id + 1) % 2 ^ 32;
}

-- The header that `rmw_send_response` writes, and the writer that it answers.
unfoldable pub response_header : ServiceInfo → RequestHeader × ℕ
response_header info =
    (record { guid = info.writer_guid.0; seq = info.sequence_number }, info.writer_guid.1)

-- `std::vector::resize`, and what a call with a buffer and its size writes.
unfoldable pub resize : ℕ → List ℕ → List ℕ
resize n xs = take n xs ++ replicate (n - length xs) 0

unfoldable pub write_over : List ℕ → List ℕ → List ℕ
write_over ys buffer = take (length buffer) ys ++ drop (length ys) buffer

-- `get_matched_endpoints`: the call number `k` of `fn` finds the handles `endpoints k`, of which it
-- writes as many as fit, and returns their number; `none` is an error. The loop has `res` and the
-- number that the last call returned.
unfoldable pub matched_loop : (ℕ → Option (List ℕ)) → ℕ → ℕ → ℕ → List ℕ → Option (RmwRet × List ℕ)
matched_loop endpoints zero k ret res = none
matched_loop endpoints (suc fuel) k ret res = elim (ltb ret (length res)) [
  | true ↦ some (ret_ok, resize ret res)
  | false ↦ elim (endpoints k) [
    | none ↦ some (ret_error, resize (ret + 128) res)
    | some ys ↦
        matched_loop endpoints fuel (k + 1) (length ys) (write_over ys (resize (ret + 128) res))
  ]
]

unfoldable pub get_matched_endpoints : (ℕ → Option (List ℕ)) → ℕ → List ℕ → Option (RmwRet × List ℕ)
get_matched_endpoints endpoints fuel res = elim (endpoints 0) [
  | none ↦ some (ret_error, res)
  | some ys ↦ matched_loop endpoints fuel 1 (length ys) (write_over ys res)
]

-- `client_present_t`.
pub data ClientPresent : Type 0 where
  failure maybe yes_present gone : ClientPresent

-- The value of a `rmw_ret_t`, an `int`, which `< 0` tests.
unfoldable pub is_negative : RmwRet → Bool
is_negative ret_ok = false
is_negative ret_error = ltb 1 0
is_negative ret_timeout = ltb 2 0
is_negative ret_unsupported = ltb 3 0
is_negative ret_invalid_argument = ltb 11 0

-- `check_client_service_endpoint`: `clientid` is the value of the key of the user data, 0 is the empty
-- string; `none` is an endpoint that is gone.
unfoldable pub check_client_service_endpoint : Option (Option ℕ) → ℕ → Bool
check_client_service_endpoint none needle = false
check_client_service_endpoint (some none) needle = 0 == needle
check_client_service_endpoint (some (some clientid)) needle = clientid == needle

unfoldable pub any_reader : (ℕ → Option (Option ℕ)) → List ℕ → ℕ → Bool
any_reader reader_of [] clientid = false
any_reader reader_of (rdih ∷ rds) clientid =
    check_client_service_endpoint (reader_of rdih) clientid || any_reader reader_of rds clientid

-- The end of `check_for_response_reader`, on the result of `get_matched_endpoints`.
unfoldable pub look_for_reader : (ℕ → Option (Option ℕ)) → ℕ → RmwRet × List ℕ → ClientPresent
look_for_reader reader_of clientid (ret, rds) =
    if is_negative ret
    then failure
    else if any_reader reader_of rds clientid
    then yes_present
    else maybe

-- `check_for_response_reader`: `writer` is what Cyclone DDS says of the writer of the request, with its
-- client id if it has one; `reader_of` is what it says of a reader.
unfoldable pub check_for_response_reader :
    Option (Option ℕ) → (ℕ → Option (Option ℕ)) → (ℕ → Option (List ℕ)) → ℕ → Option ClientPresent
check_for_response_reader none reader_of endpoints fuel = some gone
check_for_response_reader (some none) reader_of endpoints fuel = some yes_present
check_for_response_reader (some (some clientid)) reader_of endpoints fuel =
    elim (get_matched_endpoints endpoints fuel []) [
      | none ↦ none
      | some result ↦ some (look_for_reader reader_of clientid result)
    ]

-- The loop of `rmw_send_response`: `present k` is the check number `k`, `clock k` is `tnow` at it.
unfoldable pub wait_for_reader : (ℕ → ClientPresent) → (ℕ → ℕ) → ℕ → ℕ → ℕ → Option ClientPresent
wait_for_reader present clock tend zero k = none
wait_for_reader present clock tend (suc fuel) k = elim (present k) [
  | maybe ↦ elim (ltb (clock k) tend) [
    | true ↦ wait_for_reader present clock tend fuel (k + 1)
    | false ↦ some maybe
  ]
  | failure ↦ some failure
  | yes_present ↦ some yes_present
  | gone ↦ some gone
]

-- The `switch` of `rmw_send_response`: `write` is the result of `rmw_send_response_request`.
unfoldable pub respond : RmwRet → ClientPresent → RmwRet
respond write failure = ret_error
respond write maybe = ret_timeout
respond write yes_present = write
respond write gone = ret_ok

unfoldable pub rmw_send_response : RmwRet → (ℕ → ClientPresent) → (ℕ → ℕ) → ℕ → Option RmwRet
rmw_send_response write present clock fuel =
    elim (wait_for_reader present clock (clock 0 + 100) fuel 0) [
      | none ↦ none
      | some st ↦ some (respond write st)
    ]
