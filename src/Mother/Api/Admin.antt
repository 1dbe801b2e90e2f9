-- ===== src/Mother/Api/Admin.antt =====
-- mother/api/settings.go, admin.go, groups.go and mother.go: what the panel asks for. A body that
-- does not decode is `none`; `fails` stands for the statement that a handler makes.
pub mod Effects
pub mod Target
use feast_watch.Prelude.{
  ℕ, ◌*◌, String, Bool, true, false, Option, none, some, List, [], ◌∷◌, is_empty, str_eq,
  if◌then◌else◌, not, length, ◌==◌,
}
use feast_watch.Prelude.Int.{ℤ, pos_part}
use feast_watch.Prelude.Text.{trim_space}
use feast_watch.Live.{set_window, minute}
use feast_watch.Mother.Settings.{Settings, SettingsPayload, Validated, valid, refused, validate}
use feast_watch.Mother.Settings.Storage.{Key, save_fields}
use feast_watch.Mother.Release.{Build, Rejection, reject_mother_version}
use feast_watch.Mother.Update.{Table, set_mother_desired_version}
use feast_watch.Mother.Store.Tables.{
  Server, Group, Tables, Result, ok, err, StoreError, not_found, invalid_name, invalid_group_name,
  duplicate_group_name,
}
use feast_watch.Mother.Store.Servers.{add_server, set_collectors}
use feast_watch.Mother.Store.Groups.{create_group, rename_group, delete_group, set_group_servers}
use feast_watch.Mother.Api.State.{Api}

-- The statuses of `writeGroupErr`.
unfoldable pub group_error : StoreError → ℕ
group_error not_found = 404
group_error duplicate_group_name = 409
group_error invalid_group_name = 400
group_error e = 500

-- The rollout state that the panel shows of a server.
pub data RolloutState : Type 0 where
  settled rollout_failed outstanding : RolloutState

unfoldable pub update_state : Server → RolloutState
update_state srv =
    if is_empty srv.desired_version
    then settled
    else (if str_eq srv.desired_version srv.agent_version
        then settled
        else (if is_empty srv.update_error then outstanding else rollout_failed))

module _ {V : Type 0} where
  unfoldable pub apply_settings : ℕ → Settings → Api V → Api V
  apply_settings now s a = record a {
    live = set_window a.live now (pos_part s.live_window_minutes * minute);
  }

  -- The settings are those that the table is read as, which Mother.Settings.Storage.Partial relates to
  -- the rows. The window is applied when every write of `SaveSettings` has worked; when one fails, the ones
  -- before it stand.
  abbrev pub after_save : ℕ → Settings → Bool × Settings → Api V → ℕ × Api V
  after_save now s (false, stored) a = (500, record a { settings = stored })
  after_save now s (true, stored) a = (200, apply_settings now s (record a { settings = stored }))

  unfoldable pub save_valid : (Key → Bool) → List Key → ℕ → Validated → Api V → ℕ × Api V
  unfolding apply_settings
  save_valid fails order now (refused why) a = (400, a)
  save_valid fails order now (valid s) a = after_save now s (save_fields fails order s a.settings) a

  -- `handlePutSettings`. The keys are written in the order in which the map of pairs is visited, and
  -- `fails` says which of the writes fail.
  unfoldable pub handle_put_settings :
      (read_fails : Bool) → (Key → Bool) → List Key → ℕ → Option SettingsPayload → Api V → ℕ × Api V
  unfolding save_valid
  handle_put_settings read_fails fails order now none a = (400, a)
  handle_put_settings read_fails fails order now (some p) a =
      if read_fails then (500, a) else save_valid fails order now (validate p a.settings) a

  added : Result (Server × Tables V) → Tables V → ℕ × Tables V
  added (ok (srv, t')) t = (200, t')
  added (err invalid_name) t = (400, t)
  added (err e) t = (409, t)

  -- `handleAddServer`: any failure that is not the name's is told as a name that exists.
  unfoldable pub handle_add_server : Bool → ℕ → String → ℕ → Option String → Tables V → ℕ × Tables V
  unfolding added
  handle_add_server fails id token now none t = (400, t)
  handle_add_server fails id token now (some name) t =
      if is_empty name then (400, t) else added (add_server fails id token now name t) t

  abbrev group_written : Result (Tables V) → Tables V → ℕ × Tables V
  group_written (ok t') t = (200, t')
  group_written (err e) t = (group_error e, t)

  abbrev group_created : Result (Group × Tables V) → Tables V → ℕ × Tables V
  group_created (ok (g, t')) t = (200, t')
  group_created (err e) t = (group_error e, t)

  unfoldable pub handle_create_group : Bool → ℕ → ℕ → Option String → Tables V → ℕ × Tables V
  handle_create_group fails id now none t = (400, t)
  handle_create_group fails id now (some name) t =
      group_created (create_group fails id now name t) t

  unfoldable pub handle_rename_group : Bool → ℕ → Option String → Tables V → ℕ × Tables V
  handle_rename_group fails id none t = (400, t)
  handle_rename_group fails id (some name) t = group_written (rename_group fails id name t) t

  unfoldable pub handle_delete_group : Bool → ℕ → Tables V → ℕ × Tables V
  handle_delete_group fails id t = group_written (delete_group fails id t) t

  unfoldable pub handle_set_group_servers :
      (lookup_fails fails : Bool) → ℕ → Option (List ℕ) → Tables V → ℕ × Tables V
  handle_set_group_servers lookup_fails fails id none t = (400, t)
  handle_set_group_servers lookup_fails fails id (some ids) t =
      group_written (set_group_servers lookup_fails fails id ids t) t

  collectors_written : Result (Tables V) → Tables V → ℕ × Tables V
  collectors_written (ok t') t = (200, t')
  collectors_written (err e) t = (500, t)

  unfoldable pub handle_set_collectors : Bool → ℕ → Option (List String) → Tables V → ℕ × Tables V
  unfolding collectors_written
  handle_set_collectors fails id none t = (400, t)
  handle_set_collectors fails id (some []) t = (400, t)
  handle_set_collectors fails id (some (c ∷ cs)) t =
      collectors_written (set_collectors fails id (c ∷ cs) t) t

-- What stands in the way of a version for the mother; an empty one cancels and is never checked.
abbrev pub mother_obstacle : (can_promote : Bool) → String → String → List Build → Bool
mother_obstacle can_promote version platform builds =
    if is_empty version
    then false
    else (if not can_promote then true else elim (reject_mother_version platform version builds) [
      | some why ↦ true
      | none ↦ false
    ])

-- `handleSetMotherVersion`
unfoldable pub handle_set_mother_version :
    (fails can_promote : Bool) → ℕ → String → List Build → Option String → Table → ℕ × Table
handle_set_mother_version fails can_promote now platform builds none t = (400, t)
handle_set_mother_version fails can_promote now platform builds (some raw) t =
    let version = trim_space raw in
    if mother_obstacle can_promote version platform builds
    then (400, t)
    else (if fails then (500, t) else (200, set_mother_desired_version t version now))
