-- ===== src/WaitSet/Report.antt =====
-- `rmw_wait` of rmw_cyclonedds_cpp/src/rmw_node.cpp: what the caller is told.
use rmw_cyclonedds.Base.{
  ℕ, ◌+◌, ◌≡◌, refl, ◌∙◌, arith, Bool, false, true, Option, some, List, length, ◌==◌, if◌then◌else◌,
  ok, ret_ok, ret_timeout,
}
use rmw_cyclonedds.Dds.{Dds}
use rmw_cyclonedds.WaitSet.{Objects, CddsWaitset, WaitArrays, items, sort}
use rmw_cyclonedds.WaitSet.Wait.{Outcome, reattach, report, wait_and_report, finish_wait, rmw_wait}
use rmw_cyclonedds.WaitSet.Ready.{
  slots_of, from_all, Ascending, collect_array_lem, sort-Ascending, slots_of-sort, length-sort,
}

zero_plus : (n : ℕ) → 0 + n ≡ n
zero_plus n = omega arith

choose_false :
    {A : Type 0} → (b : Bool) (x y : A) → b ≡ false → (elim b [ true ↦ x | false ↦ y ]) ≡ y
choose_false true x y h = cc
choose_false false x y h = refl

pub choose_true :
    {A : Type 0} → (b : Bool) (x y : A) → b ≡ true → (elim b [ true ↦ x | false ↦ y ]) ≡ x
choose_true true x y h = refl
choose_true false x y h = cc

pub free_wait :
    (d : Dds) (m : Objects) (a : WaitArrays ℕ) (timeout : Option ℕ) (ws : CddsWaitset) (s : d.State)
    → ws.inuse ≡ false
    → rmw_wait d m a timeout ws s
      ≡ finish_wait d m a timeout (reattach d m a (record ws { inuse = true }) s)
unfolding rmw_wait
free_wait d m a timeout ws s free = choose_false ws.inuse _ _ free

module _ (d : Dds) (m : Objects) (a : WaitArrays ℕ) where
  abbrev subs_count : ℕ
  subs_count = length (items a.subscribers)

  abbrev gcs_count : ℕ
  gcs_count = length (items a.guard_conditions)

  abbrev srvs_count : ℕ
  srvs_count = length (items a.services)

  -- The arrays of `report`, for a sorted list.
  report_arrays :
      (ws : CddsWaitset) (xs : List ℕ) (s : d.State)
      → Ascending 0 xs
      → ((report d m a ws xs s).arrays.subscribers ≡ slots_of a.subscribers xs 0)
        × ((report d m a ws xs s).arrays.guard_conditions
            ≡ slots_of a.guard_conditions xs subs_count)
        × ((report d m a ws xs s).arrays.services ≡ slots_of a.services xs (subs_count + gcs_count))
        × ((report d m a ws xs s).arrays.clients
            ≡ slots_of a.clients xs (subs_count + gcs_count + srvs_count))
  unfolding report
  report_arrays ws xs s h =
      let first =
        rw (from_all 0 xs h, zero_plus (length (items a.subscribers))) at
          (collect_array_lem a.subscribers xs 0 h) in
      rw
        (
          first,
          collect_array_lem a.guard_conditions xs subs_count h,
          collect_array_lem a.services xs (subs_count + gcs_count) h,
          collect_array_lem a.clients xs (subs_count + gcs_count + srvs_count) h,
        )
        (refl, refl, refl, refl)

  report_ret :
      (ws : CddsWaitset) (xs : List ℕ) (s : d.State)
      → ((report d m a ws (sort xs) s).ret ≡ (if length xs == 0 then ret_timeout else ret_ok))
        × ((report d m a ws (sort xs) s).ws.inuse ≡ false)
  unfolding report
  report_ret ws xs s = (rw (length-sort xs) refl, refl)

  -- For a wait set that is not in use, where the events can be attached and `dds_waitset_wait`
  -- reports the numbers `xs`, in any order: `rmw_wait` returns TIMEOUT exactly where `xs` is empty and
  -- OK otherwise, the wait set is free again, and each pointer to a subscription, guard condition,
  -- service or client stays where its number, counted through the four arrays, is in `xs`, and is
  -- set to null where it is not.
  pub rmw_wait-slots :
      (timeout : Option ℕ) (ws ws' : CddsWaitset) (s s' : d.State) (xs : List ℕ)
      → ws.inuse ≡ false
      → reattach d m a (record ws { inuse = true }) s ≡ (ret_ok, ws', s')
      → (d.waitset_wait ws'.waitseth (ws'.nelems + 1) timeout s').0 ≡ some xs
      → (o : Outcome d m) × (rmw_wait d m a timeout ws s ≡ ok o)
        × (o.ret ≡ (if length xs == 0 then ret_timeout else ret_ok))
        × (o.ws.inuse ≡ false)
        × (o.arrays.subscribers ≡ slots_of a.subscribers xs 0)
        × (o.arrays.guard_conditions ≡ slots_of a.guard_conditions xs subs_count)
        × (o.arrays.services ≡ slots_of a.services xs (subs_count + gcs_count))
        × (o.arrays.clients ≡ slots_of a.clients xs (subs_count + gcs_count + srvs_count))
  unfolding finish_wait wait_and_report
  rmw_wait-slots timeout ws ws' s s' xs free attached triggered =
      let s'' = (d.waitset_wait ws'.waitseth (ws'.nelems + 1) timeout s').1 in
      let distinct =
        d.waitset_wait-Distinct s' ws'.waitseth (ws'.nelems + 1) timeout xs triggered in
      let (e₁, e₂, e₃, e₄) = report_arrays ws' (sort xs) s'' (sort-Ascending xs distinct) in
      (
        report d m a ws' (sort xs) s'',
        free_wait d m a timeout ws s free
            ∙ rw (attached, finish_wait) (rw (triggered, wait_and_report) refl),
        (report_ret ws' xs s'').0,
        (report_ret ws' xs s'').1,
        e₁ ∙ slots_of-sort a.subscribers xs 0,
        e₂ ∙ slots_of-sort a.guard_conditions xs subs_count,
        e₃ ∙ slots_of-sort a.services xs (subs_count + gcs_count),
        e₄ ∙ slots_of-sort a.clients xs (subs_count + gcs_count + srvs_count),
      )
