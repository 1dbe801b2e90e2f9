-- ===== src/Mother/Api/Removal/Clean.antt =====
-- mother/api/uninstall.go with mother/store/servers.go and mother/live/live.go: what is left of a
-- server that was taken off the fleet, and when the row goes.
use feast_watch.Prelude.{
  ℕ, ◌≡◌, refl, ap, ◌∙◌, String, Bool, true, false, none, some, List, [], ◌∷◌, ◌==◌, ==_iff, str_eq,
  if◌then◌else◌, ◌&&◌, not, find_if, any, keep_if, arith, Bool-cases, inl, inr,
}
use feast_watch.Prelude.Map.{get, get-delete_where}
use feast_watch.Live.{points_of}
use feast_watch.Live.Reads.{points_of-forget}
use feast_watch.Mother.Store.Tables.{Server, Member, RollupKey, rollup_key_eq}
use feast_watch.Mother.Store.Servers.{
  find_server, update_row, update_one_row, request_uninstall, ask_to_leave, delete_server,
  server_by_id,
}
use feast_watch.Mother.Store.Servers.Lookup.{map_option, find-update_server}
use feast_watch.Mother.Store.Groups.{is_member}
use feast_watch.Mother.Api.State.{Api, as_server, bearer_server}
use feast_watch.Mother.Api.Removal.{
  delete_everywhere, deleted, handle_uninstalled, uninstalled_by, handle_delete_server,
  delete_found, scheduled, answered,
}

find-keep_other :
    (k id : ℕ) (servers : List Server)
    → find_if (λ s. s.id == k) (keep_if (λ s. not (s.id == id)) servers)
      ≡ (if id == k then none else find_if (λ s. s.id == k) servers)
find-keep_other k id [] = ground arith
find-keep_other k id (s ∷ servers) = ground (arith, find-keep_other k id servers)

any-keep_other :
    (g k id : ℕ) (members : List Member)
    → any
        (λ m. m.group_id == g && m.server_id == k)
        (keep_if (λ m. not (m.server_id == id)) members)
      ≡ (if id == k then false else any (λ m. m.group_id == g && m.server_id == k) members)
any-keep_other g k id [] = ground arith
any-keep_other g k id (m ∷ members) = ground (arith, any-keep_other g k id members)

find-any :
    (k : ℕ) (servers : List Server) (srv : Server)
    → find_if (λ s. s.id == k) servers ≡ some srv
    → any (λ s. s.id == k) servers ≡ true
find-any k [] srv h = ground arith
find-any k (s ∷ servers) srv h = ground (arith, find-any k servers srv)

module _ {V : Type 0} where
  -- The state after, which holds nothing of the id if it was removed, and of every other id, or if
  -- it was not removed, what the state before held.
  pub record IsRemovedIf (removed : Bool) (id : ℕ) (a b : Api V) : Type 0 where
    pub server :
        (k : ℕ)
        → find_server k b.tables ≡ (if removed && id == k then none else find_server k a.tables)
    pub rollup_1m :
        (key : RollupKey)
        → get key b.tables.rollup_1m
          ≡ (if removed && key.server_id == id then none else get key a.tables.rollup_1m)
    pub rollup_1h :
        (key : RollupKey)
        → get key b.tables.rollup_1h
          ≡ (if removed && key.server_id == id then none else get key a.tables.rollup_1h)
    pub groups :
        (g k : ℕ)
        → is_member g b.tables k ≡ (if removed && id == k then false else is_member g a.tables k)
    pub live :
        (k : ℕ) (metric : String)
        → points_of b.live k metric ≡ (if removed && id == k then [] else points_of a.live k metric)

  -- A deletion that succeeds leaves no row, bucket, membership or live point of the id, and leaves
  -- those of every other id as they were.
  pub deletion_is_complete :
      (id : ℕ) (a : Api V)
      → let (done, a') = delete_everywhere false id a in (done ≡ true) × IsRemovedIf true id a a'
  unfolding delete_everywhere deleted delete_server find_server
  deletion_is_complete id a = (
    refl,
    record {
      server = λ k. find-keep_other k id a.tables.servers;
      rollup_1m = λ key. get-delete_where (λ k. k.server_id == id) key a.tables.rollup_1m;
      rollup_1h = λ key. get-delete_where (λ k. k.server_id == id) key a.tables.rollup_1h;
      groups = λ g k. any-keep_other g k id a.tables.server_group_members;
      live = λ k metric. points_of-forget a.live id k metric;
    },
  )

  untouched : (id : ℕ) (a : Api V) → IsRemovedIf false id a a
  untouched id a = record {
    server = λ k. refl;
    rollup_1m = λ key. refl;
    rollup_1h = λ key. refl;
    groups = λ g k. refl;
    live = λ k metric. refl;
  }

  -- A confirmation by a known agent, where no statement fails: a server whose removal was asked
  -- for is answered with 200 and nothing of it is left; one that was not asked to leave is refused
  -- with 409 and nothing changes.
  pub confirmation_needs_a_request :
      (lookup_fails : Bool) (authorization : String) (a : Api V) (srv : Server)
      → bearer_server lookup_fails authorization a.tables ≡ as_server srv
      → let (code, a') = handle_uninstalled lookup_fails false authorization a in
        let asked = not (srv.uninstall_requested_at == 0) in
        (code ≡ (if asked then 200 else 409)) × IsRemovedIf asked srv.id a a'
  unfolding handle_uninstalled uninstalled_by delete_everywhere deleted delete_server
  confirmation_needs_a_request lookup_fails authorization a srv known =
      elim (Bool-cases (srv.uninstall_requested_at == 0)) [
        | inl idle ↦ rw (known, idle) (refl, untouched srv.id a)
        | inr asked ↦ rw (known, asked) (refl, (deletion_is_complete srv.id a).1)
      ]

  -- The state after, in which a removal that waits has left the row of the id with the time at
  -- which it was asked for and its data as they were, and one that does not wait has left nothing.
  pub record IsTakenOff (waits : Bool) (now id : ℕ) (srv : Server) (a b : Api V) : Type 0 where
    pub row :
        (k : ℕ)
        → find_server k b.tables ≡ (
            if id == k
            then (if waits
                then some (record srv {
                  uninstall_requested_at =
                      if srv.uninstall_requested_at == 0 then now else srv.uninstall_requested_at;
                })
                else none)
            else find_server k a.tables)
    pub rollup_1m :
        (key : RollupKey)
        → get key b.tables.rollup_1m
          ≡ (if not waits && key.server_id == id then none else get key a.tables.rollup_1m)
    pub rollup_1h :
        (key : RollupKey)
        → get key b.tables.rollup_1h
          ≡ (if not waits && key.server_id == id then none else get key a.tables.rollup_1h)
    pub groups :
        (g k : ℕ)
        → is_member g b.tables k ≡ (if not waits && id == k then false else is_member g a.tables k)
    pub live :
        (k : ℕ) (metric : String)
        → points_of b.live k metric
          ≡ (if not waits && id == k then [] else points_of a.live k metric)

  asked-IsTakenOff :
      (now id : ℕ) (srv : Server) (a : Api V)
      → find_server id a.tables ≡ some srv
      → let (code, a') = scheduled a (request_uninstall false now id a.tables) in
        (code ≡ 200) × IsTakenOff true now id srv a a'
  unfolding request_uninstall update_one_row update_row find_server
  asked-IsTakenOff now id srv a found = rw (find-any id a.tables.servers srv found) (
    refl,
    record {
      row = λ k.
          find-update_server k id (ask_to_leave now) a.tables.servers (λ s. refl)
          ∙ elim (Bool-cases (id == k)) [
            | inl same ↦
                rw same (ap (map_option (ask_to_leave now)) (rw ((==_iff id k).0 same) at found))
            | inr other ↦ rw other refl
          ];
      rollup_1m = λ key. refl;
      rollup_1h = λ key. refl;
      groups = λ g k. refl;
      live = λ k metric. refl;
    },
  )

  deleted-IsTakenOff :
      (now id : ℕ) (srv : Server) (a : Api V)
      → let (code, a') = answered (delete_everywhere false id a) in
        (code ≡ 200) × IsTakenOff false now id srv a a'
  unfolding delete_everywhere deleted delete_server
  deleted-IsTakenOff now id srv a =
      let clean = (deletion_is_complete id a).1 in
      (
        refl,
        record {
          row = clean.server;
          rollup_1m = clean.rollup_1m;
          rollup_1h = clean.rollup_1h;
          groups = clean.groups;
          live = clean.live;
        },
      )

  -- Deleting a known server, where no statement fails, is answered with 200. Without force, a
  -- server that has pushed keeps its row, as it was but for the time at which the removal was asked
  -- for, which is now unless it was set already, and its buckets, memberships and live points. With
  -- force, or where it never pushed, none of these is left. Those of every other id are as they were.
  pub deletion_waits_for_the_agent :
      (now : ℕ) (force : String) (id : ℕ) (a : Api V) (srv : Server)
      → find_server id a.tables ≡ some srv
      → let (code, a') = handle_delete_server false false now force id a in
        let waits = not (str_eq force "true") && not (srv.last_push == 0) in
        (code ≡ 200) × IsTakenOff waits now id srv a a'
  unfolding handle_delete_server delete_found server_by_id
  deletion_waits_for_the_agent now force id a srv found =
      elim (Bool-cases (not (str_eq force "true") && not (srv.last_push == 0))) [
        | inl waits ↦ rw (found, waits) (asked-IsTakenOff now id srv a found)
        | inr gone ↦ rw (found, gone) (deleted-IsTakenOff now id srv a)
      ]
