-- ===== src/Services/Availability.antt =====
-- `rmw_service_server_is_available` of rmw_cyclonedds_cpp/src/rmw_node.cpp: when a client sees its
-- service.
use rmw_cyclonedds.Base.{
  ℕ, ◌≡◌, refl, arith, Bool, true, false, ◌&&◌, ◌||◌, not, Option, none, some, List, [], ◌∷◌,
  length, ◌==◌, if◌then◌else◌, Option-cases, inl, inr, ◌⊎◌, RmwRet, ret_ok, ret_error,
}
use rmw_cyclonedds.Services.{is_negative}
use rmw_cyclonedds.Services.Presence.{not_negative}

-- `get_user_data_key` with "serviceid" for an endpoint that Cyclone DDS still knows; `none` also for
-- one that it does not.
abbrev pub ServiceIds : Type 0
ServiceIds = ℕ → Option ℕ

unfoldable pub add_needle : Option ℕ → List ℕ → List ℕ
add_needle none needles = needles
add_needle (some serviceid) needles = serviceid ∷ needles

-- The loop over the matched readers.
unfoldable pub needles_of : ServiceIds → List ℕ → List ℕ
needles_of reader_id [] = []
needles_of reader_id (rdih ∷ rds) = add_needle (reader_id rdih) (needles_of reader_id rds)

unfoldable pub find_needle : ℕ → List ℕ → Bool
find_needle serviceid [] = false
find_needle serviceid (x ∷ needles) = serviceid == x || find_needle serviceid needles

unfoldable pub has_needle : Option ℕ → List ℕ → Bool
has_needle none needles = false
has_needle (some serviceid) needles = find_needle serviceid needles

-- The loop over the matched writers.
unfoldable pub scan_writers : ServiceIds → List ℕ → List ℕ → Bool
scan_writers writer_id needles [] = false
scan_writers writer_id needles (wrih ∷ wrs) =
    has_needle (writer_id wrih) needles || scan_writers writer_id needles wrs

unfoldable pub matches : ServiceIds → ServiceIds → List ℕ → List ℕ → Bool
matches reader_id writer_id rds wrs = elim (needles_of reader_id rds) [
  | [] ↦ not (length rds == 0) && not (length wrs == 0)
  | x ∷ needles ↦ scan_writers writer_id (x ∷ needles) wrs
]

-- `check_for_service_reader_writer`, for the results of its two calls of `get_matched_endpoints`.
unfoldable pub check_for_service_reader_writer :
    ServiceIds → ServiceIds → RmwRet × List ℕ → RmwRet × List ℕ → RmwRet × Bool
check_for_service_reader_writer reader_id writer_id (ret, rds) (ret', wrs) =
    if is_negative ret || is_negative ret'
    then (ret_error, false)
    else (ret_ok, matches reader_id writer_id rds wrs)

-- `rmw_service_server_is_available`: `names` are the results of `get_topic_name`, `readers` and
-- `writers` those of the graph cache, `checked` that of `check_for_service_reader_writer`.
unfoldable pub when_some : RmwRet × ℕ → RmwRet × Bool → RmwRet × Bool
when_some (ret_ok, n) next = if n == 0 then (ret_ok, false) else next
when_some (ret, n) next = (ret, false)

unfoldable pub rmw_service_server_is_available :
    RmwRet × RmwRet → (readers writers : RmwRet × ℕ) → RmwRet × Bool → RmwRet × Bool
rmw_service_server_is_available (pub_name, sub_name) readers writers checked =
    if is_negative pub_name || is_negative sub_name
    then (ret_error, false)
    else when_some readers (when_some writers checked)

-- An endpoint of a list, with its id.
unfoldable pub HasId : ServiceIds → ℕ → List ℕ → Type 0
HasId id_of x [] = ⊥
HasId id_of x (e ∷ es) = (id_of e ≡ some x) ⊎ HasId id_of x es

HasId-find_needle :
    (reader_id : ServiceIds) (x : ℕ) (rds : List ℕ)
    → HasId reader_id x rds
    → find_needle x (needles_of reader_id rds) ≡ true
unfolding find_needle needles_of add_needle HasId
HasId-find_needle reader_id x [] h = elim h [ ]
HasId-find_needle reader_id x (rd ∷ rds) (inl known) = rw (needles_of, known) (ground arith)
HasId-find_needle reader_id x (rd ∷ rds) (inr later) = elim (Option-cases (reader_id rd)) [
  | inl unknown ↦ rw (needles_of, unknown) (HasId-find_needle reader_id x rds later)
  | inr (id, known) ↦
      (let found = HasId-find_needle reader_id x rds later in
        rw (needles_of, known) (ground (arith, found)))
]

or_true : (b : Bool) → (b || true) ≡ true
or_true true = refl
or_true false = refl

HasId-scan_writers :
    (writer_id : ServiceIds) (x : ℕ) (needles wrs : List ℕ)
    → find_needle x needles ≡ true
    → HasId writer_id x wrs
    → scan_writers writer_id needles wrs ≡ true
unfolding scan_writers has_needle HasId
HasId-scan_writers writer_id x needles [] found h = elim h [ ]
HasId-scan_writers writer_id x needles (wr ∷ wrs) found (inl known) =
    rw (scan_writers, known, found) refl
HasId-scan_writers writer_id x needles (wr ∷ wrs) found (inr later) =
    let rest = HasId-scan_writers writer_id x needles wrs found later in
    rw (scan_writers, rest) (or_true (has_needle (writer_id wr) needles))

matches-of :
    (reader_id writer_id : ServiceIds) (rds wrs needles : List ℕ)
    → needles_of reader_id rds ≡ needles
    → matches reader_id writer_id rds wrs ≡ (
        if length needles == 0
        then not (length rds == 0) && not (length wrs == 0)
        else scan_writers writer_id needles wrs)
unfolding matches
matches-of reader_id writer_id rds wrs [] h = rw (matches, h) refl
matches-of reader_id writer_id rds wrs (x ∷ needles) h = rw (matches, h) (ground arith)

nonempty : (needles : List ℕ) (x : ℕ) → find_needle x needles ≡ true → (length needles == 0) ≡ false
unfolding find_needle
nonempty [] x h = ground (arith, h)
nonempty (y ∷ needles) x h = ground arith

checked :
    (reader_id writer_id : ServiceIds) (ret ret' : RmwRet) (rds wrs : List ℕ)
    → check_for_service_reader_writer reader_id writer_id (ret, rds) (ret', wrs)
      ≡ (ret_ok, matches reader_id writer_id rds wrs)
unfolding check_for_service_reader_writer
checked reader_id writer_id ret ret' rds wrs = rw (not_negative ret, not_negative ret') refl

-- Where the graph has a reader of the request topic and a writer of the response topic, and a matched
-- reader and a matched writer have the same service id, rmw_service_server_is_available returns OK
-- and true.
pub rmw_service_server_is_available-true :
    (names : RmwRet × RmwRet) (n k : ℕ) (reader_id writer_id : ServiceIds) (ret ret' : RmwRet)
    (rds wrs : List ℕ) (x : ℕ)
    → (n == 0) ≡ false
    → (k == 0) ≡ false
    → HasId reader_id x rds
    → HasId writer_id x wrs
    → rmw_service_server_is_available names
        (ret_ok, n)
        (ret_ok, k)
        (check_for_service_reader_writer reader_id writer_id (ret, rds) (ret', wrs))
      ≡ (ret_ok, true)
unfolding rmw_service_server_is_available when_some
rmw_service_server_is_available-true (pub_name, sub_name) n k reader_id writer_id ret ret' rds wrs x
      some_reader some_writer has has' =
    let found = HasId-find_needle reader_id x rds has in
    rw
      (
        not_negative pub_name,
        not_negative sub_name,
        some_reader,
        some_writer,
        checked reader_id writer_id ret ret' rds wrs,
        matches-of reader_id writer_id rds wrs (needles_of reader_id rds) refl,
        nonempty (needles_of reader_id rds) x found,
        HasId-scan_writers writer_id x (needles_of reader_id rds) wrs found has',
      )
      refl
