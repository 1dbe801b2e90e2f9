-- ===== src/Mother/Api/Removal.antt =====
-- mother/api/uninstall.go and admin.go: taking a server off the fleet, in two phases.
pub mod Clean
pub mod Reach
use feast_watch.Prelude.{
  ℕ, String, Bool, true, false, Option, none, some, ◌==◌, str_eq, if◌then◌else◌, ◌&&◌, not, ltb,
}
use feast_watch.Prelude.Int.{ℤ, pos, ltb_ℤ, ◌*ℤ◌, ◌-ℤ◌}
use feast_watch.Live
use feast_watch.Mother.Settings.{Settings}
use feast_watch.Mother.Store.Tables.{Server, Tables, Result, ok, err, not_found}
use feast_watch.Mother.Store.Servers.{server_by_id, request_uninstall, delete_server}
use feast_watch.Mother.Api.State.{Api, Authenticated, refused, as_server, bearer_server}

module _ {V : Type 0} where
  -- `deleteServer`: the live store forgets only what the database has deleted. The flag says
  -- whether it did.
  deleted : Api V → ℕ → Result (Tables V) → Bool × Api V
  deleted a id (err e) = (false, a)
  deleted a id (ok t) = (true, record a { tables = t; live = Live.forget a.live id })

  unfoldable pub delete_everywhere : Bool → ℕ → Api V → Bool × Api V
  unfolding deleted
  delete_everywhere fails id a = deleted a id (delete_server fails id a.tables)

  -- The statuses of the two answers of a removal.
  abbrev pub answered : Bool × Api V → ℕ × Api V
  answered (true, a) = (200, a)
  answered (false, a) = (500, a)

  uninstalled_by : Bool → Authenticated → Api V → ℕ × Api V
  unfolding delete_everywhere
  uninstalled_by fails (refused status) a = (status, a)
  uninstalled_by fails (as_server srv) a =
      if srv.uninstall_requested_at == 0
      then (409, a)
      else answered (delete_everywhere fails srv.id a)

  -- `handleUninstalled`: the confirmation of the uninstaller.
  unfoldable pub handle_uninstalled : (lookup_fails fails : Bool) → String → Api V → ℕ × Api V
  unfolding uninstalled_by
  handle_uninstalled lookup_fails fails authorization a =
      uninstalled_by fails (bearer_server lookup_fails authorization a.tables) a

  abbrev pub scheduled : Api V → Result (Tables V) → ℕ × Api V
  scheduled a (ok t) = (200, record a { tables = t })
  scheduled a (err e) = (500, a)

  delete_found : Bool → ℕ → String → Result Server → ℕ → Api V → ℕ × Api V
  unfolding delete_everywhere
  delete_found fails now force (err not_found) id a = (404, a)
  delete_found fails now force (err e) id a = (500, a)
  delete_found fails now force (ok srv) id a =
      if not (str_eq force "true") && not (srv.last_push == 0)
      then scheduled a (request_uninstall fails now id a.tables)
      else answered (delete_everywhere fails id a)

  -- `handleDeleteServer`, for an id that parsed; `fails` is for the write that it makes.
  unfoldable pub handle_delete_server :
      (read_fails fails : Bool) → ℕ → String → ℕ → Api V → ℕ × Api V
  unfolding delete_found
  handle_delete_server read_fails fails now force id a =
      delete_found fails now force (server_by_id read_fails id a.tables) id a

pub data Status : Type 0 where
  uninstalling pending down online : Status

-- What the panel shows of a server. The distance in time is an int64.
pub status : Server → Settings → ℕ → Status
status srv s now =
    if not (srv.uninstall_requested_at == 0)
    then uninstalling
    else (if srv.last_push == 0
        then pending
        else (if ltb_ℤ (s.heartbeat_miss_threshold *ℤ s.interval) (pos now -ℤ pos srv.last_push)
            then down
            else online))
