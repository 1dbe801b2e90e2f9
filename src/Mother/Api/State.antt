-- ===== src/Mother/Api/State.antt =====
-- mother/api/middleware.go: what the API holds, and who may push.
use feast_watch.Prelude.{
  ℕ, String, Bool, true, false, Option, none, some, ◌-◌, ltb, is_empty, if◌then◌else◌, str_eq, ◌||◌,
  not,
}
use feast_watch.Prelude.Map.{Map, get, put, nat_eq}
use feast_watch.Prelude.Text.{cut_prefix}
use feast_watch.Live.{Store}
use feast_watch.Mother.Settings.{Settings}
use feast_watch.Mother.Store.Tables.{Server, Tables, not_found, Result, ok, err}
use feast_watch.Mother.Store.Servers.{server_by_token}

-- The settings stand for what GetSettings reads; `last_push` is the state of the rate limit.
pub record Api (V : Type 0) : Type 0 where
  pub tables : Tables V
  pub live : Store V
  pub settings : Settings
  pub last_push : Map ℕ ℕ

abbrev pub min_push_gap : ℕ
min_push_gap = 2000000000

-- A status, or what was asked for.
pub data Authenticated : Type 0 where
  refused : ℕ → Authenticated
  as_server : Server → Authenticated

found_server : Result Server → Authenticated
found_server (ok s) = as_server s
found_server (err not_found) = refused 401
found_server (err e) = refused 500

abbrev pub is_too_soon : ℕ → Option ℕ → Bool
is_too_soon now none = false
is_too_soon now (some last) = ltb (now - last) min_push_gap

module _ {V : Type 0} where
  with_token : Bool → Option String → Tables V → Authenticated
  unfolding found_server
  with_token fails none t = refused 401
  with_token fails (some token) t =
      if is_empty token then refused 401 else found_server (server_by_token fails token t)

  -- `fails` says that the query for the token fails.
  unfoldable pub bearer_server : Bool → String → Tables V → Authenticated
  unfolding with_token
  bearer_server fails authorization t = with_token fails (cut_prefix "Bearer " authorization) t

  unfoldable pub allow_push : ℕ → ℕ → Api V → Bool × Api V
  allow_push now server_id a =
      if is_too_soon now (get server_id a.last_push)
      then (false, a)
      else (true, record a { last_push = put server_id now a.last_push })

-- The guard of the backend's surface: whether the handler behind it runs.
pub api_key_passes : (header api_key : String) → Bool
api_key_passes header api_key = not (not (str_eq header api_key) || is_empty api_key)
