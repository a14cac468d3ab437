-- ===== src/Services/Requests.antt =====
-- A request and its response in rmw_cyclonedds_cpp/src/rmw_node.cpp: the client takes its own response.
use rmw_cyclonedds.Base.{
  ℕ, ◌<◌, ◌≡◌, ◌≢◌, refl, sym, ◌∙◌, arith, true, false, some, List, [], ◌∷◌, ◌++◌, length, eq→==,
  Bool-cases, inl, inr,
}
use rmw_cyclonedds.Taking.{Sample, Reader}
use rmw_cyclonedds.Taking.Loop.{first_wanted, take_until-first_wanted}
use rmw_cyclonedds.Services.{
  RequestHeader, service_info, passes, rmw_take_response_request, rmw_take_response,
  rmw_take_request, request_header, response_header,
}

-- A sample with data and the header `h`.
pub record Carries (x : Sample) (h : RequestHeader) : Type 0 where
  pub valid : x.valid_data ≡ true
  pub guid : x.guid ≡ h.guid
  pub seq : x.seq ≡ h.seq

-- Samples with other clients' guids.
abbrev pub Foreign : ℕ → List Sample → Type 0
Foreign g [] = Unit {0}
Foreign g (x ∷ xs) = (x.guid ≢ g) × Foreign g xs

takes_own : (g : ℕ) (y : Sample) → y.valid_data ≡ true → y.guid ≡ g → passes g y ≡ true
unfolding passes
takes_own g y valid own = rw (valid, eq→== g y.guid (sym own)) (ground arith)

takes_any : (x : Sample) → x.valid_data ≡ true → passes 0 x ≡ true
unfolding passes
takes_any x valid = rw valid refl

drops_foreign : (g : ℕ) (x : Sample) → 0 < g → x.guid ≢ g → passes g x ≡ false
unfolding passes
drops_foreign g x nonzero other = elim (Bool-cases (passes g x)) [
  | inr h ↦ h
  | inl h ↦ ground (arith, h, nonzero, other)
]

first_own :
    (g : ℕ) (others ys : List Sample) (y : Sample)
    → 0 < g
    → Foreign g others
    → passes g y ≡ true
    → first_wanted (passes g) (others ++ y ∷ ys) ≡ some y
unfolding first_wanted
first_own g [] ys y nonzero foreign own = rw (first_wanted, own) refl
first_own g (x ∷ others) ys y nonzero foreign own =
    rw (first_wanted, drops_foreign g x nonzero foreign.0)
      (first_own g others ys y nonzero foreign.1 own)

-- A client with the id `g`, not 0, sends a request; the service takes the next valid sample, which
-- carries the request's header, and answers it, and the answer stands among the samples of the
-- client behind any number of answers to other clients. Then, with enough fuel, the service takes
-- that request, and the client takes exactly that answer, with the sequence number of its request.
pub rmw_send_request-rmw_take_response :
    (service client : Reader) (sq : service.State) (sc : client.State) (g next fuel : ℕ)
    (x y : Sample) (xs others ys : List Sample)
    → 0 < g
    → service.pending sq ≡ x ∷ xs
    → Carries x (request_header g next)
    → client.pending sc ≡ others ++ y ∷ ys
    → Foreign g others
    → Carries y (response_header (service_info x)).0
    → length (x ∷ xs) < fuel
    → length (others ++ y ∷ ys) < fuel
    → (sq' : service.State) × (sc' : client.State) × (rmw_take_request service fuel sq
        ≡ some (some (service_info x), sq'))
      × (rmw_take_response client g fuel sc ≡ some (some (service_info y), sc'))
      × ((service_info y).sequence_number ≡ (request_header g next).seq)
unfolding rmw_take_request rmw_take_response rmw_take_response_request service_info response_header
    request_header first_wanted
rmw_send_request-rmw_take_response service client sq sc g next fuel x y xs others ys nonzero arrives
      request answers foreign response enough enough' =
    let (sq', taken, left) =
      take_until-first_wanted service (passes 0) (x ∷ xs) fuel sq arrives enough in
    let (sc', found, rest) =
      take_until-first_wanted client (passes g) (others ++ y ∷ ys) fuel sc answers enough' in
    let own = takes_own g y response.valid (response.guid ∙ request.guid) in
    (
      sq',
      sc',
      rw
          (
            rmw_take_request,
            rmw_take_response_request,
            taken,
            first_wanted,
            takes_any x request.valid,
          )
          refl,
      rw
          (
            rmw_take_response,
            rmw_take_response_request,
            found,
            first_own g others ys y nonzero foreign own,
          )
          refl,
      response.seq ∙ request.seq,
    )
