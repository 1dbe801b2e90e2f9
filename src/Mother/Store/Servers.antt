-- ===== src/Mother/Store/Servers.antt =====
-- mother/store/servers.go and uninstall.go: the rows of the servers.
-- SQLite picks the id of a new row and crypto/rand its token: both are arguments. `fails` says that
-- a statement, or the commit, fails.
pub mod Lookup
use feast_watch.Prelude.{
  ℕ, ◌+◌, ◌-◌, ◌*◌, String, Bool, true, false, Option, none, some, List, [], ◌∷◌, ◌++◌, ltb, leb,
  ◌==◌, str_eq, is_empty, if◌then◌else◌, ◌&&◌, ◌||◌, not, length, any, find_if, keep_if, map,
}
use feast_watch.Prelude.Int.{ℤ, pos, ◌-ℤ◌, ◌*ℤ◌, ltb_ℤ}
use feast_watch.Prelude.Map.{delete_where}
use feast_watch.Prelude.Text.{codes}
use feast_watch.Mother.Store.Tables.{
  Server, Member, RollupKey, Tables, Result, ok, err, not_found, invalid_name, storage_failure,
  rollup_key_eq,
}

abbrev pub default_collectors : List String
default_collectors = "cpu" ∷ "memory" ∷ "uptime" ∷ "disk" ∷ []

-- The charset of `validName`: letters, digits, and ". _ -".
is_name_char : ℕ → Bool
is_name_char c =
    (leb b'A' c && leb c b'Z')
    || (leb b'a' c && leb c b'z')
    || (leb b'0' c && leb c b'9')
    || c == b'.'
    || c == b'_'
    || c == b'-'

unfoldable pub valid_name : String → Bool
unfolding is_name_char
valid_name name =
    let cs = codes name in
    leb 1 (length cs) && leb (length cs) 64 && not (any (λ c. not (is_name_char c)) cs)

abbrev or_not_found : Option Server → Result Server
or_not_found none = err not_found
or_not_found (some s) = ok s

-- UPDATE servers SET … WHERE id = ?
unfoldable pub update_server : ℕ → (Server → Server) → List Server → List Server
update_server id f [] = []
update_server id f (s ∷ servers) = (if s.id == id then f s else s) ∷ update_server id f servers

-- CASE WHEN uninstall_requested_at = 0 THEN ? ELSE uninstall_requested_at END
abbrev pub ask_to_leave : ℕ → Server → Server
ask_to_leave now s = record s {
  uninstall_requested_at = if s.uninstall_requested_at == 0 then now else s.uninstall_requested_at;
}

module _ {V : Type 0} where
  unfoldable pub find_server : ℕ → Tables V → Option Server
  find_server id t = find_if (λ s. s.id == id) t.servers

  unfoldable pub server_by_token : Bool → String → Tables V → Result Server
  server_by_token fails token t =
      if fails
      then err storage_failure
      else or_not_found (find_if (λ s. str_eq s.token token) t.servers)

  unfoldable pub server_by_id : Bool → ℕ → Tables V → Result Server
  unfolding find_server
  server_by_id fails id t = if fails then err storage_failure else or_not_found (find_server id t)

  -- The UNIQUE constraints on name and token make the INSERT fail.
  unfoldable pub add_server : Bool → ℕ → String → ℕ → String → Tables V → Result (Server × Tables V)
  unfolding valid_name
  add_server fails id token now name t =
      if not (valid_name name)
      then err invalid_name
      else (if fails || any (λ s. str_eq s.name name || str_eq s.token token) t.servers
          then err storage_failure
          else ok (row, record t { servers = t.servers ++ row ∷ [] }))
    where
      row : Server
      row = record {
        id = id;
        name = name;
        token = token;
        collectors = default_collectors;
        hostname = "";
        ip = "";
        os = "";
        arch = "";
        agent_version = "";
        last_push = 0;
        capabilities = [];
        desired_version = "";
        update_error = "";
        uninstall_requested_at = 0;
        uninstall_error = "";
        created_at = now;
      }

  abbrev pub has_server : ℕ → Tables V → Bool
  has_server id t = any (λ s. s.id == id) t.servers

  unfoldable pub update_row : Bool → ℕ → (Server → Server) → Tables V → Result (Tables V)
  unfolding update_server
  update_row fails id f t =
      if fails
      then err storage_failure
      else ok (record t { servers = update_server id f t.servers })

  -- The same, with the check of `RowsAffected`.
  unfoldable pub update_one_row : Bool → ℕ → (Server → Server) → Tables V → Result (Tables V)
  unfolding update_row
  update_one_row fails id f t =
      if not fails && not (has_server id t) then err not_found else update_row fails id f t

  unfoldable pub set_desired_version : Bool → ℕ → String → Tables V → Result (Tables V)
  unfolding update_one_row
  set_desired_version fails id version =
      update_one_row fails id (λ s. record s { desired_version = version; update_error = "" })

  unfoldable pub set_capabilities : Bool → ℕ → List String → Tables V → Result (Tables V)
  unfolding update_row
  set_capabilities fails id [] t = ok t
  set_capabilities fails id (c ∷ cs) t =
      update_row fails id (λ s. record s { capabilities = c ∷ cs }) t

  unfoldable pub set_collectors : Bool → ℕ → List String → Tables V → Result (Tables V)
  unfolding update_row
  set_collectors fails id collectors =
      update_row fails id (λ s. record s { collectors = collectors })

  unfoldable pub request_uninstall : Bool → ℕ → ℕ → Tables V → Result (Tables V)
  unfolding update_one_row
  request_uninstall fails now id = update_one_row fails id (ask_to_leave now)

  -- What a push reports of the agent itself.
  unfoldable pub touch_server :
      Bool
      → ℕ
      → (agent_version hostname ip os arch update_error uninstall_error : String) → ℕ
      → Tables V
      → Result (Tables V)
  unfolding update_row
  touch_server fails id agent_version hostname ip os arch update_error uninstall_error now =
      update_row fails id (λ s. record s {
        agent_version = agent_version;
        last_push = now;
        update_error = update_error;
        uninstall_error = uninstall_error;
        hostname = if is_empty hostname then s.hostname else hostname;
        ip = if is_empty ip then s.ip else ip;
        os = if is_empty os then s.os else os;
        arch = if is_empty arch then s.arch else arch;
      })

  -- One transaction: the row and everything that is keyed on its id.
  unfoldable pub delete_server : Bool → ℕ → Tables V → Result (Tables V)
  delete_server fails id t =
      if fails
      then err storage_failure
      else ok (record t {
        servers = keep_if (λ s. not (s.id == id)) t.servers;
        rollup_1m = delete_where (λ k. k.server_id == id) t.rollup_1m;
        rollup_1h = delete_where (λ k. k.server_id == id) t.rollup_1h;
        server_group_members = keep_if (λ m. not (m.server_id == id)) t.server_group_members;
      })
