-- ===== src/Mother/Api/Rollout.antt =====
-- mother/api/versions.go and groups.go: setting the version that servers are to run.
pub mod Groups
use feast_watch.Prelude.{
  ℕ, String, Bool, true, false, Option, none, some, List, [], ◌∷◌, ◌==◌, is_empty, if◌then◌else◌,
  any, find_if, ◌&&◌,
}
use feast_watch.Prelude.Text.{trim_space}
use feast_watch.Mother.Release.{Build, Rejection, platform, reject_version, version_level_fault}
use feast_watch.Mother.Store.Tables.{
  Server, Group, Tables, Result, ok, err, StoreError, not_found, storage_failure,
}
use feast_watch.Mother.Store.Servers.{server_by_id, set_desired_version}
use feast_watch.Mother.Store.Groups.{servers_in_group, has_group}

-- Why a member was left out: its platform has no build, or the write failed.
pub data Reason : Type 0 where
  rejected : Rejection → Reason
  write_failed : Reason

pub record Skipped : Type 0 where
  pub id : ℕ
  pub name : String
  pub reason : Reason

pub record GroupRef : Type 0 where
  pub id : ℕ
  pub name : String

-- The end of a rollout over a group: refused as a whole, or split.
pub data Rolled : Type 0 where
  refused : Rejection → Rolled
  split : List GroupRef → List Skipped → Rolled

abbrev pub also_applied : Server → Rolled → Rolled
also_applied s (refused r) = refused r
also_applied s (split applied skipped) =
    split (record { id = s.id; name = s.name } ∷ applied) skipped

abbrev pub also_skipped : Server → Reason → Rolled → Rolled
also_skipped s why (refused r) = refused r
also_skipped s why (split applied skipped) =
    split applied (record { id = s.id; name = s.name; reason = why } ∷ skipped)

-- How a handler answers: an error's status, or 200 with a split.
pub data GroupAnswer : Type 0 where
  status : ℕ → GroupAnswer
  answered : List GroupRef → List Skipped → GroupAnswer

abbrev store_status : StoreError → ℕ
store_status not_found = 404
store_status e = 500

unfoldable pub group_answer : Rolled → GroupAnswer
group_answer (refused r) = status 400
group_answer (split applied skipped) = answered applied skipped

-- What stands in the way of a member; an empty version clears the target and is never checked.
abbrev pub obstacle : String → List Build → Server → Option Rejection
obstacle version builds s =
    if is_empty version then none else reject_version (platform s.os s.arch) version builds

module _ {V : Type 0} where
  -- The outcome of a write: whether it landed, and the tables.
  abbrev pub written : Tables V → Result (Tables V) → Bool × Tables V
  written t (ok t') = (true, t')
  written t (err e) = (false, t)

  -- The loop of `handleSetGroupVersion`; `fails` says for which servers the write fails.
  unfoldable pub roll_members :
      String → List Build → (ℕ → Bool) → List Server → Tables V → Rolled × Tables V
  roll_members version builds fails [] t = (split [] [], t)
  roll_members version builds fails (s ∷ members) t = elim (obstacle version builds s) [
    | some r ↦
        if version_level_fault version builds
        then (refused r, t)
        else (let (rest, t') = roll_members version builds fails members t in
            (also_skipped s (rejected r) rest, t'))
    | none ↦
        let (landed, t') = written t (set_desired_version (fails s.id) s.id version t) in
        let (rest, t'') = roll_members version builds fails members t' in
        (if landed then also_applied s rest else also_skipped s write_failed rest, t'')
  ]

  -- `groupMembers` behind the handler: the group must be there.
  unfoldable pub group_members :
      (list_fails members_fail : Bool) → ℕ → Tables V → Result (List Server)
  group_members list_fails members_fail id t =
      if list_fails
      then err storage_failure
      else (if has_group id t then servers_in_group members_fail id t else err not_found)

  unfoldable pub roll_group :
      String → List Build → (ℕ → Bool) → Result (List Server) → Tables V → GroupAnswer × Tables V
  unfolding roll_members group_answer
  roll_group version builds fails (err e) t = (status (store_status e), t)
  roll_group version builds fails (ok members) t =
      let (rolled, t') = roll_members version builds fails members t in (group_answer rolled, t')

  -- `handleSetGroupVersion`, for a body that decoded to `raw`.
  unfoldable pub handle_set_group_version :
      (list_fails members_fail : Bool)
      → (ℕ → Bool)
      → ℕ
      → String
      → List Build
      → Tables V
      → GroupAnswer × Tables V
  unfolding roll_group group_members
  handle_set_group_version list_fails members_fail fails id raw builds t =
      roll_group (trim_space raw) builds fails (group_members list_fails members_fail id t) t

  set_found : Bool → ℕ → String → List Build → Result Server → Tables V → ℕ × Tables V
  set_found fails id version builds (err e) t = (store_status e, t)
  set_found fails id version builds (ok s) t = elim (obstacle version builds s) [
    | some r ↦ (400, t)
    | none ↦
        let (landed, t') = written t (set_desired_version fails id version t) in
        (if landed then 200 else 500, t')
  ]

  -- `handleSetServerVersion`, for an id that parsed and a body that decoded to `raw`.
  unfoldable pub handle_set_server_version :
      (read_fails write_fails : Bool) → ℕ → String → List Build → Tables V → ℕ × Tables V
  unfolding set_found
  handle_set_server_version read_fails write_fails id raw builds t =
      set_found write_fails id (trim_space raw) builds (server_by_id read_fails id t) t
