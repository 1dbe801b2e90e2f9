-- ===== src/Mother/Update/Bounded.antt =====
-- mother/selfupdate/updater.go: how often a target is tried.
use feast_watch.Prelude.{
  ℕ, suc, ◌+◌, ◌-◌, ◌≤◌, ◌≡◌, String, Bool, none, some, List, [], ◌∷◌, arith, is_empty,
  if◌then◌else◌, eq_iff,
}
use feast_watch.Mother.Update.{
  MotherUpdate, Table, mother_update, World, reconcile, tick, place_and_stage,
  record_mother_update_error, clear_mother_update,
}

-- What the process goes through: a boot that runs some version, or a tick of the running one.
pub data Event : Type 0 where
  boot : String → World → Event
  ticks : World → Event

-- The table and how many transfers were started, over the life of the deployment.
unfoldable pub live : ℕ → String → Table → List Event → Table × ℕ
live max running t [] = (t, 0)
live max running t (boot version w ∷ rest) = live max version (reconcile w version t).table rest
live max running t (ticks w ∷ rest) =
    let done = tick max w running t in
    let (t', count) = live max running done.table rest in
    (t', if done.transferred then suc count else count)

-- How many transfers the row still allows.
abbrev left : ℕ → MotherUpdate → ℕ
left max row = if is_empty row.desired_version then 0 else max - row.attempts

abbrev budget : ℕ → Table → ℕ
budget max none = 0
budget max (some row) = left max row

abbrev count_of : Bool → ℕ
count_of b = if b then 1 else 0

reconcile-budget :
    (max : ℕ) (w : World) (running : String) (t : Table)
    → budget max (reconcile w running t).table ≤ budget max t
unfolding reconcile mother_update clear_mother_update record_mother_update_error
reconcile-budget max w running none = ground (arith, eq_iff "" "")
reconcile-budget max w running (some row) = ground (arith, eq_iff "" "")

place_and_stage-budget :
    (max : ℕ) (w : World) (desired : String) (row : MotherUpdate)
    → budget max (place_and_stage w desired (some row)).table ≡ left max row
unfolding place_and_stage record_mother_update_error
place_and_stage-budget max w desired row = ground arith

-- A transfer is paid for by an attempt.
tick-budget :
    (max : ℕ) (w : World) (running : String) (t : Table)
    → count_of (tick max w running t).transferred + budget max (tick max w running t).table
      ≤ budget max t
unfolding tick
tick-budget max w running none = ground (arith, eq_iff "" "")
tick-budget max w running (some row) = ground (
  arith,
  eq_iff "" "",
  place_and_stage-budget max w row.desired_version
      (record row { attempts = row.attempts + 1; error = "" }),
)

live-budget :
    (max : ℕ) (running : String) (t : Table) (events : List Event)
    → (live max running t events).1 ≤ budget max t
unfolding live
live-budget max running t [] = omega arith
live-budget max running t (boot version w ∷ rest) = omega (
  arith,
  live-budget max version (reconcile w version t).table rest,
  reconcile-budget max w version t,
)
live-budget max running t (ticks w ∷ rest) =
    ground (
      arith,
      live-budget max running (tick max w running t).table rest,
      tick-budget max w running t,
    )

budget-le : (max : ℕ) (t : Table) → budget max t ≤ max
budget-le max none = omega arith
budget-le max (some row) = ground arith

-- Until an operator sets a new target, no more transfers are started than the bound on attempts,
-- over any sequence of ticks and restarts, at whatever versions the process comes back.
pub transfers_bounded :
    (max : ℕ) (running : String) (t : Table) (events : List Event)
    → (live max running t events).1 ≤ max
transfers_bounded max running t events =
    omega (arith, live-budget max running t events, budget-le max t)
