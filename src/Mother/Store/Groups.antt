-- ===== src/Mother/Store/Groups.antt =====
-- mother/store/groups.go: named sets of servers.
pub mod Members
use feast_watch.Prelude.{
  ℕ, String, Bool, List, [], ◌∷◌, ◌++◌, ltb, leb, ◌==◌, str_eq, is_empty, if◌then◌else◌, ◌&&◌, ◌||◌,
  not, length, any, keep_if,
}
use feast_watch.Prelude.Text.{codes, trim_space}
use feast_watch.Mother.Store.Tables.{
  Server, Group, Member, Tables, Result, ok, err, not_found, invalid_group_name,
  duplicate_group_name, storage_failure,
}

abbrev pub max_group_name_runes : ℕ
max_group_name_runes = 64

-- unicode.IsControl
is_control : ℕ → Bool
is_control c = ltb c 0x20 || (leb 0x7f c && leb c 0x9f)

unfoldable pub valid_group_name : String → Result String
unfolding is_control
valid_group_name name =
    let trimmed = trim_space name in
    if is_empty trimmed
      || ltb max_group_name_runes (length (codes trimmed))
      || any is_control (codes trimmed)
    then err invalid_group_name
    else ok trimmed

-- The members of one INSERT OR IGNORE: a pair that is there is skipped.
unfoldable pub insert_members : ℕ → List ℕ → List Member → List Member
insert_members group_id [] members = members
insert_members group_id (id ∷ ids) members = insert_members group_id ids (
    if any (λ m. m.group_id == group_id && m.server_id == id) members
    then members
    else members ++ record { group_id = group_id; server_id = id } ∷ [])

-- How many rows of the membership table name the group: the COUNT of `ListGroups`.
unfoldable pub count_members : ℕ → List Member → ℕ
count_members group_id members = length (keep_if (λ m. m.group_id == group_id) members)

rename : ℕ → String → List Group → List Group
rename id name [] = []
rename id name (g ∷ groups) =
    (if g.id == id then record g { name = name } else g) ∷ rename id name groups

module _ {V : Type 0} where
  abbrev pub has_group : ℕ → Tables V → Bool
  has_group id t = any (λ g. g.id == id) t.server_groups

  create_valid : Bool → ℕ → ℕ → Tables V → Result String → Result (Group × Tables V)
  create_valid fails id now t (err e) = err e
  create_valid fails id now t (ok name) =
      if fails
      then err storage_failure
      else (if any (λ g. str_eq g.name name) t.server_groups
          then err duplicate_group_name
          else (let g : Group = record { id = id; name = name; created_at = now } in
              ok (g, record t { server_groups = t.server_groups ++ g ∷ [] })))

  unfoldable pub create_group : Bool → ℕ → ℕ → String → Tables V → Result (Group × Tables V)
  unfolding create_valid
  create_group fails id now name t = create_valid fails id now t (valid_group_name name)

  rename_valid : Bool → ℕ → Tables V → Result String → Result (Tables V)
  unfolding rename
  rename_valid fails id t (err e) = err e
  rename_valid fails id t (ok name) =
      if fails
      then err storage_failure
      else (if any (λ g. str_eq g.name name && not (g.id == id)) t.server_groups && has_group id t
          then err duplicate_group_name
          else (if has_group id t
              then ok (record t { server_groups = rename id name t.server_groups })
              else err not_found))

  unfoldable pub rename_group : Bool → ℕ → String → Tables V → Result (Tables V)
  unfolding rename_valid
  rename_group fails id name t = rename_valid fails id t (valid_group_name name)

  -- One transaction, rolled back where the group is not there.
  unfoldable pub delete_group : Bool → ℕ → Tables V → Result (Tables V)
  delete_group fails id t =
      if fails
      then err storage_failure
      else (if has_group id t
          then ok (record t {
            server_groups = keep_if (λ g. not (g.id == id)) t.server_groups;
            server_group_members = keep_if (λ m. not (m.group_id == id)) t.server_group_members;
          })
          else err not_found)

  -- The check that the group exists, and the transaction that replaces its members.
  unfoldable pub set_group_servers : Bool → Bool → ℕ → List ℕ → Tables V → Result (Tables V)
  unfolding insert_members
  set_group_servers lookup_fails fails id server_ids t =
      if lookup_fails
      then err storage_failure
      else (if not (has_group id t)
          then err not_found
          else (if fails
              then err storage_failure
              else ok (record t {
                server_group_members =
                    insert_members id server_ids
                      (keep_if (λ m. not (m.group_id == id)) t.server_group_members);
              })))

  abbrev pub is_member : ℕ → Tables V → ℕ → Bool
  is_member group_id t server_id =
      any (λ m. m.group_id == group_id && m.server_id == server_id) t.server_group_members

  -- The rows of the join, in the order of the servers' table: the code sorts them by name.
  unfoldable pub servers_in_group : Bool → ℕ → Tables V → Result (List Server)
  servers_in_group fails group_id t =
      if fails then err storage_failure else ok (keep_if (λ s. is_member group_id t s.id) t.servers)
