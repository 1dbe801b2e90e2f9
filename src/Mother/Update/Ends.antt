-- ===== src/Mother/Update/Ends.antt =====
-- mother/selfupdate/updater.go with mother/api/mother.go: how a target ends, and what is shown then.
use feast_watch.Prelude.{
  ℕ, ◌+◌, ◌≤◌, ◌<◌, ◌≡◌, ◌≢◌, refl, String, true, false, none, some, List, [], ◌∷◌, inl, inr, arith,
  leb, str_eq, Bool-cases, eq_iff, All,
}
use feast_watch.Prelude.Text.{concat-ne-empty}
use feast_watch.Mother.Update.{
  MotherUpdate, Table, mother_update, World, reconcile, tick, place_and_stage, gave_up_message,
  record_mother_update_error, clear_mother_update, set_mother_desired_version, mother_update_state,
  failed, pending, idle,
}
use feast_watch.Mother.Update.Bounded.{Event, boot, ticks, live}

-- The database answers and the helper is there.
abbrev pub IsWorking : World → Type 0
IsWorking w =
    (w.can_promote ≡ true)
    × (w.read_fails ≡ false)
    × (w.write_fails ≡ false)
    × (w.reread_fails ≡ false)

abbrev pub GaveUp : Table → Type 0
GaveUp none = ⊥
GaveUp (some row) = (row.desired_version ≡ "") × (row.staged_version ≡ "") × (row.error ≢ "")

-- The ticks work; a boot answers as it likes, but does not run the version.
abbrev pub MissesTarget : String → Event → Type 0
MissesTarget v (boot version w) = v ≢ version
MissesTarget v (ticks w) = IsWorking w

abbrev pub ticks_in : List Event → ℕ
ticks_in [] = 0
ticks_in (boot version w ∷ events) = ticks_in events
ticks_in (ticks w ∷ events) = ticks_in events + 1

gave_up-ne-empty : (row : MotherUpdate) → gave_up_message row ≢ ""
gave_up-ne-empty row =
    concat-ne-empty "gave up on " _ (λ e. ground (arith, eq_iff "gave up on " ""))

tick-GaveUp :
    (max : ℕ) (w : World) (running : String) (t : Table)
    → GaveUp t
    → GaveUp (tick max w running t).table
unfolding tick
tick-GaveUp max w running none g = absurd g
tick-GaveUp max w running (some row) g = ground (arith, eq_iff row.desired_version "")

tick_at_bound :
    (max : ℕ) (w : World) (running : String) (row : MotherUpdate)
    → IsWorking w
    → row.desired_version ≢ ""
    → row.desired_version ≢ running
    → max ≤ row.attempts
    → GaveUp (tick max w running (some row)).table
unfolding tick
tick_at_bound max w running row works wanted other spent =
    ground (
      arith,
      eq_iff row.desired_version "",
      eq_iff row.desired_version running,
      gave_up-ne-empty row,
    )

abbrev pub IsAimed : String → ℕ → Table → Type 0
IsAimed v n none = ⊥
IsAimed v n (some row) = (row.desired_version ≡ v) × (row.attempts ≡ n)

place_and_stage-IsAimed :
    (w : World) (desired v : String) (n : ℕ) (row : MotherUpdate)
    → IsAimed v n (some row)
    → IsAimed v n (place_and_stage w desired (some row)).table
unfolding place_and_stage record_mother_update_error
place_and_stage-IsAimed w desired v n row h = ground arith

-- One more attempt is counted, and the target stands.
tick_below_bound :
    (max : ℕ) (w : World) (running v : String) (n : ℕ) (row : MotherUpdate)
    → IsWorking w
    → v ≢ ""
    → v ≢ running
    → n < max
    → IsAimed v n (some row)
    → IsAimed v (n + 1) (tick max w running (some row)).table
unfolding tick
tick_below_bound max w running v n row works wanted other room h = ground (
  arith,
  eq_iff v "",
  eq_iff v running,
  place_and_stage-IsAimed w row.desired_version v (n + 1)
      (record row { attempts = row.attempts + 1; error = "" }),
)

reconcile-GaveUp :
    (w : World) (running : String) (t : Table) → GaveUp t → GaveUp (reconcile w running t).table
unfolding reconcile mother_update
reconcile-GaveUp w running none g = absurd g
reconcile-GaveUp w running (some row) g = ground (arith, eq_iff row.desired_version "")

-- A restart at another version leaves the target and the count of attempts.
reconcile-IsAimed :
    (w : World) (running v : String) (n : ℕ) (t : Table)
    → v ≢ running
    → IsAimed v n t
    → IsAimed v n (reconcile w running t).table
unfolding reconcile mother_update record_mother_update_error
reconcile-IsAimed w running v n none other h = absurd h
reconcile-IsAimed w running v n (some row) other h =
    ground (arith, eq_iff row.desired_version running)

live-GaveUp :
    (max : ℕ) (running : String) (t : Table) (events : List Event)
    → GaveUp t
    → GaveUp (live max running t events).0
unfolding live
live-GaveUp max running t [] g = g
live-GaveUp max running t (boot version w ∷ events) g =
    live-GaveUp max version (reconcile w version t).table events (reconcile-GaveUp w version t g)
live-GaveUp max running t (ticks w ∷ events) g =
    live-GaveUp max running (tick max w running t).table events (tick-GaveUp max w running t g)

-- Over any sequence of ticks and restarts, where the ticks find the database answering and the
-- helper there and no version that the process runs is the target: once there were as many ticks
-- as attempts were left and one more, the target is given up, whatever each transfer, each
-- promotion and each restart came to. It is dropped, nothing is staged and a reason is left.
pub hopeless_target_ends :
    (max : ℕ) (running v : String) (n : ℕ) (t : Table) (events : List Event)
    → All (MissesTarget v) events
    → v ≢ ""
    → v ≢ running
    → IsAimed v n t
    → max + 1 ≤ ticks_in events + n
    → 1 ≤ ticks_in events
    → GaveUp (live max running t events).0
unfolding live
hopeless_target_ends max running v n none events misses wanted other aim enough one = absurd aim
hopeless_target_ends max running v n (some row) [] misses wanted other aim enough one =
    absurd (omega arith)
hopeless_target_ends max running v n (some row) (boot version w ∷ events) misses wanted other aim
      enough one =
    hopeless_target_ends max version v n (reconcile w version (some row)).table events misses.1
      wanted misses.0 (reconcile-IsAimed w version v n (some row) misses.0 aim) enough one
hopeless_target_ends max running v n (some row) (ticks w ∷ events) misses wanted other aim enough
      one =
    elim (Bool-cases (leb max n)) [
      | inl spent ↦ live-GaveUp max running (tick max w running (some row)).table events (
          tick_at_bound max w running row misses.0 (rw aim.0 wanted) (rw aim.0 other)
            (ground arith))
      | inr room ↦
          hopeless_target_ends max running v (n + 1) (tick max w running (some row)).table events
            misses.1 wanted other
            (tick_below_bound max w running v n row misses.0 wanted other (ground arith) aim)
            (omega arith) (ground arith)
    ]

-- A step asks the process to stop only when a verified binary of the wanted version is staged, the
-- transfer was counted as an attempt, and the row says so.
pub tick_shutdown_staged :
    (max : ℕ) (w : World) (running : String) (row : MotherUpdate)
    → (tick max w running (some row)).shutdown ≡ true
    → (w.can_promote ≡ true)
      × (w.place ≡ none)
      × (row.desired_version ≢ running)
      × (row.attempts < max)
      × ((tick max w running (some row)).table
          ≡ some (record row {
            attempts = row.attempts + 1;
            error = "";
            staged_version = row.desired_version;
          }))
unfolding tick
tick_shutdown_staged max w running row h = ground (arith, eq_iff row.desired_version running)

reconcile_landed :
    (w : World) (v : String) (row : MotherUpdate)
    → row.desired_version ≡ v
    → v ≢ ""
    → w.read_fails ≡ false
    → w.write_fails ≡ false
    → (reconcile w v (some row)).table ≡ clear_mother_update (some row) w.now
unfolding reconcile mother_update
reconcile_landed w v row wanted some_v reads writes =
    rw (reads, writes, wanted) (rw (not_eq v "" some_v, (eq_iff v v).1 refl) refl)
  where
    not_eq : (a b : String) → a ≢ b → str_eq a b ≡ false
    not_eq a b ne = ground (arith, eq_iff a b)

cleared_is_idle :
    (max : ℕ) (w : World) (v : String) (row : MotherUpdate) (now : ℕ)
    → let t = clear_mother_update (some row) now in
      (mother_update_state (mother_update t) v true ≡ idle)
      × ((tick max w v t).table ≡ t)
      × ((tick max w v t).transferred ≡ false)
unfolding tick mother_update clear_mother_update mother_update_state
cleared_is_idle max w v row now = ground (arith, eq_iff "" "")

-- A boot that runs the wanted version, with the database answering, ends the update: on a
-- deployment that can update itself the panel shows it idle, and the next tick does nothing.
pub landed_is_idle :
    (max : ℕ) (w w' : World) (v : String) (row : MotherUpdate)
    → row.desired_version ≡ v
    → v ≢ ""
    → w.read_fails ≡ false
    → w.write_fails ≡ false
    → let t = (reconcile w v (some row)).table in
      (mother_update_state (mother_update t) v true ≡ idle)
      × ((tick max w' v t).table ≡ t)
      × ((tick max w' v t).transferred ≡ false)
landed_is_idle max w w' v row wanted some_v reads writes =
    rw (reconcile_landed w v row wanted some_v reads writes) (cleared_is_idle max w' v row w.now)

-- Giving up shows as failed, on a deployment that can update itself, until a new target is set: a
-- new target that is not the running version shows as pending, with every attempt available again.
pub failure_shown_until_retargeted :
    (running v : String) (now : ℕ) (t : Table)
    → GaveUp t
    → v ≢ ""
    → v ≢ running
    → (mother_update_state (mother_update t) running true ≡ failed)
      × (mother_update_state (mother_update (set_mother_desired_version t v now)) running true
          ≡ pending)
      × (IsAimed v 0 (set_mother_desired_version t v now))
unfolding mother_update mother_update_state set_mother_desired_version
failure_shown_until_retargeted running v now none g wanted other = absurd g
failure_shown_until_retargeted running v now (some row) g wanted other =
    ground (arith, eq_iff row.error "", eq_iff v "", eq_iff v running, eq_iff "" "")
