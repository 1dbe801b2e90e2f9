-- ===== src/Mother/Api/Ingest/Folding.antt =====
-- mother/api/ingest.go: what a push that is let through leaves in the database, in memory and in the answer.
use feast_watch.Prelude.{
  ◌==◌, not, if◌then◌else◌, ℕ, ◌/◌, ◌≤◌, ◌<◌, ◌≡◌, refl, ap, ◌∙◌, String, Bool, ltb→lt, true, false,
  none, some, List, [], ◌∷◌, ltb, length, arith, Bool-cases, inl, inr,
}
use feast_watch.Prelude.Map.{Map}
use feast_watch.Protocol.{IngestRequest}
use feast_watch.Live
use feast_watch.Live.{second}
use feast_watch.Mother.Store.Tables.{Server, Tables, Arithmetic, ok}
use feast_watch.Mother.Store.Rollups.{
  apply_samples, apply_tier, upsert_all, minute_width, hour_width,
}
use feast_watch.Mother.Store.Servers.{touch_server, set_capabilities, update_row}
use feast_watch.Mother.Api.State.{Api, as_server, bearer_server, allow_push}
use feast_watch.Mother.Api.Ingest.{
  Request, accepted, acknowledge, fold_in, store_push, ingest_body, handle_ingest, invalid_metric,
  max_samples_per_push, report_in, or_same,
}
use feast_watch.Mother.Api.Ingest.Rejection.{slot-HasSameData}

module _ {V : Type 0} where
  -- The same buckets.
  pub HasSameBuckets : Tables V → Tables V → Type 0
  HasSameBuckets t u = (u.rollup_1m ≡ t.rollup_1m) × (u.rollup_1h ≡ t.rollup_1h)

  touch-HasSameBuckets :
      (fails : Bool) (id : ℕ)
      (agent_version hostname ip os arch update_error uninstall_error : String) (now : ℕ)
      (t : Tables V)
      → HasSameBuckets t (
          or_same t (
            touch_server fails id agent_version hostname ip os arch update_error uninstall_error now
              t))
  unfolding touch_server update_row HasSameBuckets
  touch-HasSameBuckets true id agent_version hostname ip os arch update_error uninstall_error now
        t =
      (refl, refl)
  touch-HasSameBuckets false id agent_version hostname ip os arch update_error uninstall_error now
        t =
      (refl, refl)

  capabilities-HasSameBuckets :
      (fails : Bool) (id : ℕ) (capabilities : List String) (t : Tables V)
      → HasSameBuckets t (or_same t (set_capabilities fails id capabilities t))
  unfolding set_capabilities update_row HasSameBuckets
  capabilities-HasSameBuckets fails id [] t = (refl, refl)
  capabilities-HasSameBuckets true id (c ∷ cs) t = (refl, refl)
  capabilities-HasSameBuckets false id (c ∷ cs) t = (refl, refl)

  report_in-HasSameBuckets :
      (r : Request V) (req : IngestRequest V) (srv : Server) (t : Tables V)
      → HasSameBuckets t (report_in r req srv t)
  unfolding report_in HasSameBuckets
  report_in-HasSameBuckets r req srv t =
      let touched =
        touch-HasSameBuckets r.touch_fails srv.id req.agent_version req.hostname req.ip req.os
          req.arch req.update_error req.uninstall_error (r.later / second) t in
      let told = capabilities-HasSameBuckets r.capabilities_fail srv.id req.capabilities _ in
      (told.0 ∙ touched.0, told.1 ∙ touched.1)

  -- What the writes of the sender's row leave alone.
  pub HasSameSeries : Api V → Api V → Type 0
  HasSameSeries a b = HasSameBuckets a.tables b.tables × (b.live ≡ a.live)

  acknowledge-HasSameSeries :
      (r : Request V) (req : IngestRequest V) (srv : Server) (a : Api V)
      → r.settings_fail ≡ false
      → HasSameSeries a (acknowledge r req srv a).1
  unfolding acknowledge HasSameSeries
  acknowledge-HasSameSeries r req srv a settings =
      rw settings (report_in-HasSameBuckets r req srv a.tables, refl)

  -- A request that reaches the store: its sender is known, its body fits, the rate limit lets it
  -- through and no metric name is bad; neither the rollups' transaction nor the read of the settings
  -- fails.
  pub record IsGoodPush (r : Request V) (req : IngestRequest V) (srv : Server) (a b : Api V)
      : Type 0 where
    pub sender : bearer_server r.lookup_fails r.authorization a.tables ≡ as_server srv
    pub body : r.body ≡ some req
    pub fits : length req.samples ≤ max_samples_per_push
    pub allowed : allow_push r.now srv.id a ≡ (true, b)
    pub names : invalid_metric req.samples ≡ none
    pub applies : r.apply_fails ≡ false
    pub settings : r.settings_fail ≡ false

module _ {V : Type 0} (f : Arithmetic V) where
  good_push-stores :
      (r : Request V) (req : IngestRequest V) (srv : Server) (a b : Api V)
      → IsGoodPush r req srv a b
      → handle_ingest f r a ≡ store_push f r req srv b
  unfolding handle_ingest ingest_body
  good_push-stores r req srv a b g =
      let few : ltb max_samples_per_push (length req.samples) ≡ false = ground (arith, g.fits) in
      rw (g.sender, g.body, few, g.allowed, g.names) refl

  apply_samples-ok :
      (id ts : ℕ) (samples : Map String V) (t : Tables V)
      → apply_samples f false id ts samples t
        ≡ ok (record t {
          rollup_1m = apply_tier f minute_width id ts samples t.rollup_1m;
          rollup_1h = apply_tier f hour_width id ts samples t.rollup_1h;
        })
  unfolding apply_samples apply_tier upsert_all
  apply_samples-ok id ts [] t = refl
  apply_samples-ok id ts (x ∷ samples) t = refl

  -- What a push leaves if it is folded in.
  pub IsFolded : ℕ → ℕ → Map String V → Api V → Api V → Type 0
  IsFolded id later samples a c =
      (c.tables.rollup_1m
        ≡ apply_tier f minute_width id (later / second) samples a.tables.rollup_1m)
      × (c.tables.rollup_1h
          ≡ apply_tier f hour_width id (later / second) samples a.tables.rollup_1h)
      × (c.live ≡ Live.add a.live later id (later / second) samples)

  store_push-newer :
      (r : Request V) (req : IngestRequest V) (srv : Server) (a : Api V)
      → r.apply_fails ≡ false
      → r.settings_fail ≡ false
      → srv.last_push < r.later / second
      → IsFolded srv.id r.later req.samples a (store_push f r req srv a).1
  unfolding store_push fold_in HasSameSeries HasSameBuckets IsFolded
  store_push-newer r req srv a applies settings newer =
      let test : ltb srv.last_push (r.later / second) ≡ true = ground arith in
      let written = apply_samples-ok srv.id (r.later / second) req.samples a.tables in
      rw (test, applies, written)
        (let kept = acknowledge-HasSameSeries r req srv _ settings in (kept.0.0, kept.0.1, kept.1))

  store_push-older :
      (r : Request V) (req : IngestRequest V) (srv : Server) (a : Api V)
      → r.settings_fail ≡ false
      → r.later / second ≤ srv.last_push
      → HasSameSeries a (store_push f r req srv a).1
  unfolding store_push
  store_push-older r req srv a settings older =
      let test : ltb srv.last_push (r.later / second) ≡ false = ground arith in
      rw test (acknowledge-HasSameSeries r req srv a settings)

  -- Of a push of a known sender that fits, that the rate limit lets through and whose metric names
  -- are good, where neither the rollups' transaction nor the read of the settings fails, every
  -- sample is folded into the buckets of the minute and of the hour of its stamp and put into the
  -- live store if the stamp is newer than the sender's last one, and otherwise none is.
  pub good_push_is_folded_once :
      (r : Request V) (req : IngestRequest V) (srv : Server) (a b : Api V)
      → IsGoodPush r req srv a b
      → let c = (handle_ingest f r a).1 in
        let stamp = r.later / second in
        let newer = ltb srv.last_push stamp in
        (c.tables.rollup_1m ≡ (
          if newer
          then apply_tier f minute_width srv.id stamp req.samples a.tables.rollup_1m
          else a.tables.rollup_1m))
        × (c.tables.rollup_1h ≡ (
            if newer
            then apply_tier f hour_width srv.id stamp req.samples a.tables.rollup_1h
            else a.tables.rollup_1h))
        × (c.live ≡ (if newer then Live.add a.live r.later srv.id stamp req.samples else a.live))
  unfolding HasSameSeries HasSameBuckets IsFolded
  good_push_is_folded_once r req srv a b g =
      let slot = slot-HasSameData r.now srv.id a in
      let tables : b.tables ≡ a.tables = rw g.allowed at slot.0 in
      let live : b.live ≡ a.live = rw g.allowed at slot.1 in
      let stamp = r.later / second in
      rw (good_push-stores r req srv a b g)
        (elim (Bool-cases (ltb srv.last_push (r.later / second))) [
          | inl newer ↦
              let (minutes, hours, points) =
                store_push-newer r req srv b g.applies g.settings (ltb→lt _ _ newer) in
              rw newer (
                minutes
                    ∙ ap (λ t. apply_tier f minute_width srv.id stamp req.samples t.rollup_1m)
                        tables,
                hours
                    ∙ ap (λ t. apply_tier f hour_width srv.id stamp req.samples t.rollup_1h) tables,
                points ∙ ap (λ l. Live.add l r.later srv.id stamp req.samples) live,
              )
          | inr older ↦
              let (buckets, points) =
                store_push-older r req srv b g.settings (ground (arith, older)) in
              rw older (
                buckets.0 ∙ ap (λ t. t.rollup_1m) tables,
                buckets.1 ∙ ap (λ t. t.rollup_1h) tables,
                points ∙ live,
              )
        ])

  -- What the sender of a good push is told.
  pub good_push-answer :
      (r : Request V) (req : IngestRequest V) (srv : Server) (a b : Api V)
      → IsGoodPush r req srv a b
      → (handle_ingest f r a).0
        ≡ accepted (record {
          collectors = srv.collectors;
          interval = b.settings.interval;
          desired_version = srv.desired_version;
          uninstall = not (srv.uninstall_requested_at == 0);
        })
  unfolding store_push fold_in acknowledge
  good_push-answer r req srv a b g =
      rw (good_push-stores r req srv a b g)
        (elim (Bool-cases (ltb srv.last_push (r.later / second))) [
          | inl newer ↦
              rw
                (
                  newer,
                  g.applies,
                  apply_samples-ok srv.id (r.later / second) req.samples b.tables,
                  g.settings,
                )
                refl
          | inr older ↦ rw (older, g.settings) refl
        ])
