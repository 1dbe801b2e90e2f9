-- ===== src/Mother/Api/Ingest/Rejection.antt =====
-- mother/api/ingest.go: what a push that is turned away leaves behind.
use feast_watch.Prelude.{
  ℕ, ◌/◌, ◌≡◌, refl, String, false, Option, none, some, ltb, length, arith, Bool-cases, inl, inr,
}
use feast_watch.Protocol.{IngestRequest}
use feast_watch.Live.{second}
use feast_watch.Mother.Store.Tables.{Server, Tables, Arithmetic, Result, ok, err}
use feast_watch.Mother.Api.State.{Api, Authenticated, refused, as_server, bearer_server, allow_push}
use feast_watch.Mother.Api.Ingest.{
  Request, Answer, rejected, accepted, acknowledge, fold_in, store_push, ingest_body, handle_ingest,
  invalid_metric, max_samples_per_push, check_names, ingest_from,
}

module _ {V : Type 0} where
  -- The database and the memory are those of another state.
  abbrev pub HasSameData : Api V → Api V → Type 0
  HasSameData a b = (b.tables ≡ a.tables) × (b.live ≡ a.live)

  -- A rejection comes with the data of the state before.
  RejectsCleanly : Api V → Answer × Api V → Type 0
  RejectsCleanly a (rejected code, b) = HasSameData a b
  RejectsCleanly a (accepted response, b) = Unit

  pub slot-HasSameData : (now id : ℕ) (a : Api V) → HasSameData a (allow_push now id a).1
  unfolding allow_push
  slot-HasSameData now id a = ground arith

module _ {V : Type 0} (f : Arithmetic V) where
  fold_in-RejectsCleanly :
      (r : Request V) (req : IngestRequest V) (srv : Server) (a b : Api V) (o : Result (Tables V))
      → r.settings_fail ≡ false
      → HasSameData a b
      → RejectsCleanly a (fold_in f r req srv b o)
  unfolding fold_in acknowledge RejectsCleanly
  fold_in-RejectsCleanly r req srv a b (ok t) settings same = rw settings tt
  fold_in-RejectsCleanly r req srv a b (err e) settings same = same

  store_push-RejectsCleanly :
      (r : Request V) (req : IngestRequest V) (srv : Server) (a b : Api V)
      → r.settings_fail ≡ false
      → HasSameData a b
      → RejectsCleanly a (store_push f r req srv b)
  unfolding store_push acknowledge RejectsCleanly
  store_push-RejectsCleanly r req srv a b settings same =
      elim (Bool-cases (ltb srv.last_push (r.later / second))) [
        | inl newer ↦ rw newer (fold_in-RejectsCleanly r req srv a b _ settings same)
        | inr stale ↦ rw (stale, settings) tt
      ]

  check_names-RejectsCleanly :
      (bad : Option String) (r : Request V) (req : IngestRequest V) (srv : Server) (a b : Api V)
      → r.settings_fail ≡ false
      → HasSameData a b
      → RejectsCleanly a (check_names f bad (store_push f r req srv b) b)
  unfolding RejectsCleanly
  check_names-RejectsCleanly none r req srv a b settings same =
      store_push-RejectsCleanly r req srv a b settings same
  check_names-RejectsCleanly (some bad) r req srv a b settings same = same

  ingest_body-RejectsCleanly :
      (r : Request V) (srv : Server) (req : IngestRequest V) (a : Api V)
      → r.settings_fail ≡ false
      → RejectsCleanly a (ingest_body f r srv req a)
  unfolding ingest_body RejectsCleanly
  ingest_body-RejectsCleanly r srv req a settings =
      elim (Bool-cases (ltb max_samples_per_push (length req.samples))) [
        | inl many ↦ rw many (refl, refl)
        | inr few ↦ elim (Bool-cases (allow_push r.now srv.id a).0) [
          | inl passes ↦
              rw (few, passes)
                (check_names-RejectsCleanly (invalid_metric req.samples) r req srv a
                  (allow_push r.now srv.id a).1 settings (slot-HasSameData r.now srv.id a))
          | inr blocked ↦ rw (few, blocked) (slot-HasSameData r.now srv.id a)
        ]
      ]

  ingest_from-RejectsCleanly :
      (r : Request V) (body : Option (IngestRequest V)) (who : Authenticated) (a : Api V)
      → r.settings_fail ≡ false
      → RejectsCleanly a (ingest_from f r body who a)
  unfolding RejectsCleanly
  ingest_from-RejectsCleanly r body (refused status) a settings = (refl, refl)
  ingest_from-RejectsCleanly r none (as_server srv) a settings = (refl, refl)
  ingest_from-RejectsCleanly r (some req) (as_server srv) a settings =
      ingest_body-RejectsCleanly r srv req a settings

  -- As long as the settings can be read, a request that is rejected, for whatever reason, leaves the
  -- database and the live store as they were.
  pub rejected_push_stores_nothing :
      (r : Request V) (a b : Api V) (code : ℕ)
      → r.settings_fail ≡ false
      → handle_ingest f r a ≡ (rejected code, b)
      → (b.tables ≡ a.tables) × (b.live ≡ a.live)
  unfolding handle_ingest RejectsCleanly
  rejected_push_stores_nothing r a b code settings answer =
      let clean =
        ingest_from-RejectsCleanly r r.body (bearer_server r.lookup_fails r.authorization a.tables)
          a settings in
      rw answer at clean
