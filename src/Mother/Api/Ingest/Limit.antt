-- ===== src/Mother/Api/Ingest/Limit.antt =====
-- mother/api/middleware.go and ingest.go: how often the sender of a push is let through.
use feast_watch.Prelude.{
  ℕ, ◌-◌, ◌≤◌, ◌<◌, ◌≡◌, ◌↔◌, refl, sym, ap, ◌∙◌, String, Bool, true, false, some, List, [], ◌∷◌,
  ltb, ◌==◌, ==_iff, if◌then◌else◌, length, All, arith, Bool-cases, inl, inr,
}
use feast_watch.Prelude.Map.{get, get-put, nat_eq}
use feast_watch.Protocol.{IngestRequest}
use feast_watch.Mother.Store.Tables.{Server, Arithmetic}
use feast_watch.Mother.Api.State.{
  Api, as_server, bearer_server, allow_push, is_too_soon, min_push_gap,
}
use feast_watch.Mother.Api.Ingest.{
  Request, rejected, ingest_body, handle_ingest, invalid_metric, max_samples_per_push,
}

-- A request of a server, at a time.
pub record Knock : Type 0 where
  pub at : ℕ
  pub server : ℕ

module _ {V : Type 0} where
  -- The rate limit, asked by several servers in turn.
  unfoldable pub knocks : List Knock → Api V → Api V
  knocks [] a = a
  knocks (k ∷ ks) a = knocks ks (allow_push k.at k.server a).1

  let_in :
      (now id : ℕ) (a : Api V)
      → (allow_push now id a).0 ≡ true
      → get id (allow_push now id a).1.last_push ≡ some now
  unfolding allow_push
  let_in now id a passed = elim (Bool-cases (is_too_soon now (get id a.last_push))) [
    | inl soon ↦ absurd (ground (arith, rw soon at passed))
    | inr late ↦ rw (late, get-put id id now a.last_push, (==_iff id id).1 refl) refl
  ]

  -- A request that another server sends, or that comes too soon, does not move the time.
  knock-kept :
      (now id : ℕ) (k : Knock) (a : Api V)
      → get id a.last_push ≡ some now
      → (k.server ≡ id → k.at - now < min_push_gap)
      → get id (allow_push k.at k.server a).1.last_push ≡ some now
  unfolding allow_push
  knock-kept now id k a last soon =
      elim (Bool-cases (is_too_soon k.at (get k.server a.last_push))) [
        | inl early ↦ rw early last
        | inr late ↦ elim (Bool-cases (k.server == id)) [
          | inl own ↦
              let same : k.server ≡ id = ground arith in
              let gap = soon same in
              let read : get k.server a.last_push ≡ some now =
                ap (λ i. get i a.last_push) same ∙ last in
              absurd (ground (arith, gap, rw read at late))
          | inr other ↦ rw (late, get-put k.server id k.at a.last_push, other) last
        ]
      ]

  knocks-kept :
      (now id : ℕ) (ks : List Knock) (a : Api V)
      → get id a.last_push ≡ some now
      → All (λ k. k.server ≡ id → k.at - now < min_push_gap) ks
      → get id (knocks ks a).last_push ≡ some now
  unfolding knocks
  knocks-kept now id [] a last soon = last
  knocks-kept now id (k ∷ ks) a last soon =
      knocks-kept now id ks _ (knock-kept now id k a last soon.0) soon.1

  passes :
      (now next : ℕ) (x y : Api V)
      → let answer : Bool × Api V = if is_too_soon next (some now) then (false, x) else (true, y) in
        (answer.0 ≡ true) ↔ (min_push_gap ≤ next - now)
  passes now next x y = ground arith

  -- After a server was let through, and whatever requests of others and too early ones of its own
  -- came between, its next request passes exactly when two seconds have gone by.
  pub limit_spaces_pushes :
      (now next id : ℕ) (ks : List Knock) (a : Api V)
      → (allow_push now id a).0 ≡ true
      → All (λ k. k.server ≡ id → k.at - now < min_push_gap) ks
      → ((allow_push next id (knocks ks (allow_push now id a).1)).0 ≡ true)
        ↔ (min_push_gap ≤ next - now)
  unfolding allow_push
  limit_spaces_pushes now next id ks a passed soon =
      let last = knocks-kept now id ks (allow_push now id a).1 (let_in now id a passed) soon in
      rw last (passes now next _ _)

  too_soon :
      (now next id : ℕ) (a : Api V)
      → get id a.last_push ≡ some now
      → next - now < min_push_gap
      → allow_push next id a ≡ (false, a)
  unfolding allow_push
  too_soon now next id a last early =
      let test : is_too_soon next (some now) ≡ true = ground arith in rw (last, test) refl

module _ {V : Type 0} (f : Arithmetic V) where
  -- A known agent's request that fits and that the limit lets through, but that has a metric name
  -- which is not acceptable, is answered with 400 and still spends the slot: a request of the same
  -- agent that fits and follows within two seconds is answered with 429.
  pub bad_names_spend_the_slot :
      (r r' : Request V) (req req' : IngestRequest V) (srv : Server) (bad : String) (a b : Api V)
      → bearer_server r.lookup_fails r.authorization a.tables ≡ as_server srv
      → r.body ≡ some req
      → length req.samples ≤ max_samples_per_push
      → allow_push r.now srv.id a ≡ (true, b)
      → invalid_metric req.samples ≡ some bad
      → bearer_server r'.lookup_fails r'.authorization b.tables ≡ as_server srv
      → r'.body ≡ some req'
      → length req'.samples ≤ max_samples_per_push
      → r'.now - r.now < min_push_gap
      → (handle_ingest f r a ≡ (rejected 400, b)) × (handle_ingest f r' b ≡ (rejected 429, b))
  unfolding handle_ingest ingest_body
  bad_names_spend_the_slot r r' req req' srv bad a b sender body fits allowed named sender' body'
        fits' early =
      let few : ltb max_samples_per_push (length req.samples) ≡ false = ground (arith, fits) in
      let few' : ltb max_samples_per_push (length req'.samples) ≡ false = ground (arith, fits') in
      let last : get srv.id b.last_push ≡ some r.now =
        ap (λ x. get srv.id x.1.last_push) (sym allowed)
        ∙ let_in r.now srv.id a (ap (λ x. x.0) allowed) in
      (
        rw (sender, body, few, allowed, named) refl,
        rw (sender', body', few', too_soon r.now r'.now srv.id b last early) refl,
      )
