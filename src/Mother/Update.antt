-- ===== src/Mother/Update.antt =====
-- mother/store/motherupdate.go and mother/selfupdate/updater.go: the mother's own rollout, its one
-- row in the database and the steps that converge on it.
pub mod Bounded
pub mod Ends
use feast_watch.Prelude.{
  ℕ, ◌+◌, String, Bool, true, false, Option, none, some, List, [], ◌∷◌, leb, str_eq, is_empty,
  if◌then◌else◌, ◌&&◌, ◌||◌, not,
}
use feast_watch.Prelude.Text.{concat, itoa}

pub record MotherUpdate : Type 0 where
  pub desired_version : String
  pub staged_version : String
  pub attempts : ℕ
  pub error : String
  pub requested_at : ℕ
  pub applied_at : ℕ

abbrev pub no_update : MotherUpdate
no_update = record {
  desired_version = "";
  staged_version = "";
  attempts = 0;
  error = "";
  requested_at = 0;
  applied_at = 0;
}

-- The table holds the one row or none.
abbrev pub Table : Type 0
Table = Option MotherUpdate

pub mother_update : Table → MotherUpdate
mother_update none = no_update
mother_update (some row) = row

unfoldable pub set_mother_desired_version : Table → String → ℕ → Table
set_mother_desired_version none version now =
    some (record no_update { desired_version = version; requested_at = now })
set_mother_desired_version (some row) version now = some (record row {
  desired_version = version;
  staged_version = "";
  attempts = 0;
  error = "";
  requested_at = now;
})

-- An UPDATE with no row to match changes nothing.
abbrev change : (MotherUpdate → MotherUpdate) → Table → Table
change f none = none
change f (some row) = some (f row)

pub begin_mother_attempt : Table → Table
begin_mother_attempt = change (λ row. record row { attempts = row.attempts + 1; error = "" })

pub stage_mother_update : Table → String → Table
stage_mother_update t version = change (λ row. record row { staged_version = version }) t

pub record_mother_update_error : Table → String → Table
record_mother_update_error t msg = change (λ row. record row { error = msg }) t

pub fail_mother_update : Table → String → Table
fail_mother_update t msg =
    change (λ row. record row { desired_version = ""; staged_version = ""; error = msg }) t

pub clear_mother_update : Table → ℕ → Table
clear_mother_update none applied_at = some (record no_update { applied_at = applied_at })
clear_mother_update (some row) applied_at = some (record row {
  desired_version = "";
  staged_version = "";
  attempts = 0;
  error = "";
  applied_at = applied_at;
})

-- What the promote path is: os.Stat fails, or it answers whether the file is a directory.
pub supported : String → Option Bool → Bool
supported promote_path none = false
supported promote_path (some is_dir) = not (is_empty promote_path) && not is_dir

pub last_reason : String → String
last_reason msg = if is_empty msg then "no reason recorded" else msg

abbrev pub gave_up_message : MotherUpdate → String
gave_up_message row = concat (
    "gave up on "
    ∷ row.desired_version
    ∷ " after "
    ∷ itoa row.attempts
    ∷ " attempts: "
    ∷ last_reason row.error
    ∷ [])

abbrev pub not_promoted_message : String → String → String
not_promoted_message staged running = concat (
    "staged " ∷ staged ∷ " but " ∷ running ∷ " is still running: the promote step did not take"
    ∷ [])

-- What the world answers during a step. A failing statement leaves the table as it was.
pub record World : Type 0 where
  pub now : ℕ
  pub can_promote : Bool
  pub read_fails : Bool
  pub write_fails : Bool
  pub reread_fails : Bool
  -- os.MkdirAll and then `Place`: `none` is nil.
  pub mkdir : Option String
  pub place : Option String
  pub record_fails : Bool
  pub stage_fails : Bool

-- What a step did: the table, whether it asked the process to shut down, whether it started a
-- transfer, and whether it returned an error.
pub record Outcome : Type 0 where
  pub table : Table
  pub shutdown : Bool
  pub transferred : Bool
  pub failed : Bool

abbrev settled : Table → Outcome
settled t = record { table = t; shutdown = false; transferred = false; failed = false }

abbrev refused : Table → Outcome
refused t = record { table = t; shutdown = false; transferred = false; failed = true }

-- A write that may fail, as the last thing of a step.
abbrev written : Bool → Table → Table → Outcome
written fails before after = if fails then refused before else settled after

pub reconcile : World → String → Table → Outcome
reconcile w running t =
    let row = mother_update t in
    if w.read_fails
    then refused t
    else (if is_empty row.desired_version
        then settled t
        else (if str_eq row.desired_version running
            then written w.write_fails t (clear_mother_update t w.now)
            else (if is_empty row.staged_version
                then settled t
                else written w.write_fails t (
                    record_mother_update_error t
                      (not_promoted_message row.staged_version running)))))

-- `record`: the reason is stored if that works, and the error is returned in any case.
pub record_failure : World → Table → String → Table
unfolding record_mother_update_error
record_failure w t msg = if w.record_fails then t else record_mother_update_error t msg

-- The part of `Tick` after the attempt has been counted.
pub place_and_stage : World → String → Table → Outcome
unfolding record_failure stage_mother_update
place_and_stage w desired t = elim w.mkdir [
  | some e ↦ refused (record_failure w t e)
  | none ↦ elim w.place [
    | some e ↦ record (refused (record_failure w t e)) { transferred = true }
    | none ↦
        if w.stage_fails
        then record (refused t) { transferred = true }
        else record (settled (stage_mother_update t desired)) {
          transferred = true;
          shutdown = true;
        }
  ]
]

unfoldable pub tick : ℕ → World → String → Table → Outcome
unfolding mother_update fail_mother_update begin_mother_attempt place_and_stage
tick max_attempts w running t =
    let row = mother_update t in
    if w.read_fails
    then refused t
    else (if is_empty row.desired_version || str_eq row.desired_version running
        then settled t
        else (if not w.can_promote
            then settled t
            else (if leb max_attempts row.attempts
                then written w.write_fails t (fail_mother_update t (gave_up_message row))
                else (if w.write_fails
                    then refused t
                    else (if w.reread_fails
                        then refused (begin_mother_attempt t)
                        else place_and_stage w row.desired_version (begin_mother_attempt t))))))

-- mother/cmd/feast-watch/main.go: the bound that the process runs with.
abbrev pub mother_update_max_attempts : ℕ
mother_update_max_attempts = 3

-- mother/api/mother.go: what the panel is shown.
pub data UpdateState : Type 0 where
  unsupported failed idle pending : UpdateState

pub mother_update_state : MotherUpdate → String → Bool → UpdateState
mother_update_state row running can_promote =
    if not can_promote
    then unsupported
    else (if not (is_empty row.error)
        then failed
        else (if is_empty row.desired_version || str_eq row.desired_version running
            then idle
            else pending))
