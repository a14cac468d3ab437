-- ===== src/WaitSet.antt =====
-- Wait sets of rmw_cyclonedds_cpp/src/rmw_node.cpp: the parts of `rmw_wait`, with its cache of what is
-- attached, that do not ask Cyclone DDS. The mutexes of the source make each operation one step.
pub mod Wait
pub mod Ready
pub mod Report
pub mod Attached
pub mod Gather
pub mod Cache
pub mod Same
pub mod Invariant
pub mod Busy
pub mod Clean
use rmw_cyclonedds.Base.{
  ℕ, zero, suc, ◌+◌, Bool, true, false, ◌&&◌, ◌||◌, not, Option, none, some, List, [], ◌∷◌, ◌++◌,
  map, length, ltb, ◌==◌, if◌then◌else◌, Result, ok, throw, length_error, RmwRet, ret_ok, ret_error,
  ret_timeout,
}
use mathlib.Core.Logic.{ite}
use rmw_cyclonedds.Events.{
  EventType, StatusKind, inconsistent_topic, EventType-discrete, StatusKind-discrete, mask_map,
}

-- `CddsEvent`.
pub record CddsEvent : Type 0 where
  pub enth : ℕ
  pub event_type : EventType

-- The objects that the pointers in the arrays point to, as far as a wait set reads them: the read
-- conditions of subscriptions, of services and of clients, guard conditions, and events.
pub record Objects : Type 0 where
  pub sub_rdcondh : ℕ → ℕ
  pub gcondh : ℕ → ℕ
  pub srv_rdcondh : ℕ → ℕ
  pub cl_rdcondh : ℕ → ℕ
  pub event_of : ℕ → CddsEvent

-- `CddsWaitset`. `trigs` is without the last element, -1, which is no argument of an attachment.
pub record CddsWaitset : Type 0 where
  pub waitseth : ℕ
  pub trigs : List ℕ
  pub nelems : ℕ
  pub inuse : Bool
  pub subs : List ℕ
  pub gcs : List ℕ
  pub srvs : List ℕ
  pub cls : List ℕ
  pub evs : List CddsEvent

-- The arrays that `rmw_wait` is given and changes; `none` is a null pointer.
pub record WaitArrays (A : Type 0) : Type 0 where
  pub subscribers : Option (List A)
  pub guard_conditions : Option (List A)
  pub services : Option (List A)
  pub clients : Option (List A)
  pub events : Option (List A)

unfoldable pub items {ℓ} : {A : Type ℓ} → Option (List A) → List A
items none = []
items (some xs) = xs

-- `memcmp` of two arrays of pointers of one length.
unfoldable pub same_pointers : List ℕ → List ℕ → Bool
same_pointers [] ys = true
same_pointers (x ∷ xs) [] = false
same_pointers (x ∷ xs) (y ∷ ys) = x == y && same_pointers xs ys

-- `require_reattach` for pointers.
unfoldable pub require_reattach : List ℕ → Option (List ℕ) → Bool
require_reattach cached none = not (length cached == 0)
require_reattach cached (some []) = not (length cached == 0)
require_reattach cached (some (p ∷ ps)) =
    if length (p ∷ ps) == length cached then not (same_pointers cached (p ∷ ps)) else true

unfoldable pub same_event : CddsEvent → CddsEvent → Bool
unfolding EventType-discrete
same_event c d = c.enth == d.enth && ite (EventType-discrete c.event_type d.event_type) true false

unfoldable pub same_events : List CddsEvent → List CddsEvent → Bool
same_events [] ys = true
same_events (x ∷ xs) [] = false
same_events (x ∷ xs) (y ∷ ys) = same_event x y && same_events xs ys

-- `require_reattach` for events.
unfoldable pub require_reattach_events : Objects → List CddsEvent → Option (List ℕ) → Bool
require_reattach_events m cached none = not (length cached == 0)
require_reattach_events m cached (some []) = not (length cached == 0)
require_reattach_events m cached (some (p ∷ ps)) =
    if length (p ∷ ps) == length cached
    then not (same_events cached (map m.event_of (p ∷ ps)))
    else true

unfoldable pub member : ℕ → List ℕ → Bool
member e [] = false
member e (x ∷ xs) = e == x || member e xs

unfoldable pub has_status : StatusKind → List StatusKind → Bool
unfolding StatusKind-discrete
has_status k [] = false
has_status k (x ∷ xs) = ite (StatusKind-discrete k x) true false || has_status k xs

-- `std::sort`.
unfoldable pub insert_sorted : ℕ → List ℕ → List ℕ
insert_sorted x [] = x ∷ []
insert_sorted x (y ∷ ys) = if ltb y x then y ∷ insert_sorted x ys else x ∷ y ∷ ys

unfoldable pub sort : List ℕ → List ℕ
sort [] = []
sort (x ∷ xs) = insert_sorted x (sort xs)

-- The mask of an entity with one more status; `status_mask_map` is in the order of its first keys.
abbrev pub Masks : Type 0
Masks = List (ℕ × List StatusKind)

unfoldable pub add_entity : ℕ → List StatusKind → Masks → Masks
add_entity e kinds [] = (e, kinds) ∷ []
add_entity e kinds ((e', kinds') ∷ masks) =
    if e == e' then (e', kinds ++ kinds') ∷ masks else (e', kinds') ∷ add_entity e kinds masks

-- What an event adds to the mask of its entity: `DDS_INCONSISTENT_TOPIC_STATUS` adds nothing.
unfoldable pub mask_of : StatusKind → List StatusKind
mask_of inconsistent_topic = []
mask_of kind = kind ∷ []

unfoldable pub add_event : CddsEvent → Masks → Masks
add_event c masks = elim (mask_map c.event_type) [
  | some kind ↦ add_entity c.enth (mask_of kind) masks
  | none ↦ masks
]

-- The first loop of `gather_event_entities`; `none` where a handle is not valid.
unfoldable pub gather_masks : List CddsEvent → Masks → Option Masks
gather_masks [] masks = some masks
gather_masks (c ∷ cs) masks =
    let rest = gather_masks cs (add_event c masks) in if c.enth == 0 then none else rest

-- The slots of an array: each pointer whose index is the next triggered one stays, any other is set
-- to null. What is left of `trigs` and the next index are returned too.
abbrev pub Collected : Type 0
Collected = List (Option ℕ) × List ℕ × ℕ

unfoldable pub put_slot : Option ℕ → Collected → Collected
put_slot slot (slots, left, n) = (slot ∷ slots, left, n)

unfoldable pub collect : List ℕ → List ℕ → ℕ → Collected
collect [] trigs n = ([], trigs, n)
collect (p ∷ ps) [] n = put_slot none (collect ps [] (n + 1))
collect (p ∷ ps) (t ∷ trigs) n = elim (t == n) [
  | true ↦ put_slot (some p) (collect ps trigs (n + 1))
  | false ↦ put_slot none (collect ps (t ∷ trigs) (n + 1))
]

-- An array that may be null.
unfoldable pub collect_array : Option (List ℕ) → List ℕ → ℕ → Option (List (Option ℕ)) × List ℕ × ℕ
collect_array none trigs n = (none, trigs, n)
collect_array (some ps) trigs n =
    let (slots, left, n') = collect ps trigs n in (some slots, left, n')
