-- ===== src/Examples/OfUpdates.antt =====
-- mother/selfupdate/updater.go and mother/store/motherupdate.go at a target that does not take.
use feast_watch.Prelude.{List, ◌≤◌, refl, none, some, [], ◌∷◌, true, false, str_neq, arith}
use feast_watch.Mother.Update.{MotherUpdate, no_update, Table, World, mother_update_max_attempts}
use feast_watch.Mother.Update.Bounded.{Event, boot, ticks, live, transfers_bounded}
use feast_watch.Mother.Update.Ends.{IsWorking, GaveUp, hopeless_target_ends}

abbrev calm : World
calm = record {
  now = 1000;
  can_promote = true;
  read_fails = false;
  write_fails = false;
  reread_fails = false;
  mkdir = none;
  place = none;
  record_fails = false;
  stage_fails = false;
}

abbrev aimed : MotherUpdate
aimed = record no_update { desired_version = "2"; requested_at = 900 }

transfers_bounded_example :
    (live mother_update_max_attempts "1"
      (some aimed)
      (ticks calm ∷ boot "1" calm ∷ ticks calm ∷ [])).1
    ≤ mother_update_max_attempts
transfers_bounded_example =
    transfers_bounded mother_update_max_attempts "1" (some aimed)
      (ticks calm ∷ boot "1" calm ∷ ticks calm ∷ [])

working : IsWorking calm
working = (refl, refl, refl, refl)

-- Each staged binary is booted into, and the old version comes back.
abbrev restarts : List Event
restarts =
    ticks calm
    ∷ boot "1" calm
    ∷ ticks calm
    ∷ boot "1.1" calm
    ∷ ticks calm
    ∷ boot "1" calm
    ∷ ticks calm
    ∷ []

hopeless_target_ends_example : GaveUp (live 3 "1" (some aimed) restarts).0
hopeless_target_ends_example =
    hopeless_target_ends 3 "1" "2" 0 (some aimed) restarts
      (
        working,
        (
          str_neq "2" "1" refl,
          (working, (str_neq "2" "1.1" refl, (working, (str_neq "2" "1" refl, (working, tt))))),
        ),
      )
      (str_neq "2" "" refl) (str_neq "2" "1" refl) (refl, refl) (omega arith) (omega arith)

abbrev given_up : Table
given_up = some (record no_update { error = "gave up on 2" })
