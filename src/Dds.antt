-- ===== src/Dds.antt =====
-- What rmw_cyclonedds_cpp/src/rmw_node.cpp asks of the Cyclone DDS library for its wait sets: the
-- operations, as functions on the library's state, and what their documentation says of them. An
-- entity and a wait set is a handle; a handle that is not positive is 0.
use rmw_cyclonedds.Base.{ℕ, ◌≡◌, ◌≢◌, ◌&&◌, List, [], ◌∷◌, Option, none, some, ◌==◌, if◌then◌else◌}
use rmw_cyclonedds.Events.{StatusKind}

-- No number stands twice in a list.
abbrev pub NotIn : ℕ → List ℕ → Type 0
NotIn a [] = Unit {0}
NotIn a (x ∷ xs) = (a ≢ x) × NotIn a xs

abbrev pub Distinct : List ℕ → Type 0
Distinct [] = Unit {0}
Distinct (x ∷ xs) = NotIn x xs × Distinct xs

pub record Dds : Type 1 where
  pub State : Type 0
  -- The argument with which an entity is attached to a wait set.
  pub attached : State → ℕ → ℕ → Option ℕ
  -- `dds_waitset_attach(ws, e, x)`: an entity that is attached already is left as it is.
  pub attach : ℕ → ℕ → ℕ → State → State
  pub attached-attach :
      (s : State) (ws e x ws' e' : ℕ)
      → attached (attach ws e x s) ws' e' ≡ (elim (attached s ws' e') [
        | some y ↦ some y
        | none ↦ if ws == ws' && e == e' then some x else none
      ])
  -- `dds_waitset_detach(ws, e)`.
  pub detach : ℕ → ℕ → State → State
  pub attached-detach :
      (s : State) (ws e ws' e' : ℕ)
      → attached (detach ws e s) ws' e' ≡ (if ws == ws' && e == e' then none else attached s ws' e')
  -- `dds_set_status_mask`: `none` where it fails.
  pub set_status_mask : ℕ → List StatusKind → State → Option State
  pub attached-set_status_mask :
      (s s' : State) (e ws' e' : ℕ) (mask : List StatusKind)
      → set_status_mask e mask s ≡ some s'
      → attached s' ws' e' ≡ attached s ws' e'
  -- `dds_get_status_changes`.
  pub get_status_changes : ℕ → State → List StatusKind
  -- `dds_take_guardcondition`.
  pub take_guardcondition : ℕ → State → State
  pub attached-take_guardcondition :
      (s : State) (e ws' e' : ℕ) → attached (take_guardcondition e s) ws' e' ≡ attached s ws' e'
  -- `dds_waitset_wait(ws, xs, nxs, timeout)`: the arguments of the triggered entities, or `none` for
  -- an error. The state is that of the library when the call returns.
  pub waitset_wait : ℕ → ℕ → Option ℕ → State → Option (List ℕ) × State
  pub attached-waitset_wait :
      (s : State) (ws n : ℕ) (timeout : Option ℕ) (ws' e' : ℕ)
      → attached (waitset_wait ws n timeout s).1 ws' e' ≡ attached s ws' e'
  -- It reports each argument once.
  pub waitset_wait-Distinct :
      (s : State) (ws n : ℕ) (timeout : Option ℕ) (xs : List ℕ)
      → (waitset_wait ws n timeout s).0 ≡ some xs
      → Distinct xs
