-- ===== src/Mother/Store/Retention/Safety.antt =====
-- mother/store/retention.go behind mother/api/settings.go: what the hourly
-- sweep deletes.
use feast_watch.Prelude.{ℕ, ◌+◌, ◌≤◌, ◌≡◌, refl, ◌∙◌, Bool, true, false, none, arith}
use feast_watch.Prelude.Int.{ℤ, pos, negsuc, ◌≤ℤ◌, ltb_ℤ}
use feast_watch.Prelude.Map.{get, delete_where, get-delete_where}
use feast_watch.Mother.Settings.{Settings}
use feast_watch.Mother.Settings.Bounds.{IsBounded}
use feast_watch.Mother.Store.Tables.{RollupKey, Rollup, Tables, rollup_key_eq}
use feast_watch.Mother.Store.Retention.{retention_limit, enforce_retention}

abbrev pub day : ℕ
day = 86400

within_limit :
    (now start : ℕ) (days : ℤ)
    → pos 1 ≤ℤ days
    → now ≤ start + day
    → ltb_ℤ (pos start) (retention_limit now days) ≡ false
within_limit now start (pos d) positive recent = ground arith
within_limit now start (negsuc d) positive recent = absurd (omega arith)

module _ {V : Type 0} where
  kept :
      (now : ℕ) (days : ℤ) (key : RollupKey) (table : Rollup V)
      → pos 1 ≤ℤ days
      → now ≤ key.window_start + day
      → get key (delete_where (λ k. ltb_ℤ (pos k.window_start) (retention_limit now days)) table)
        ≡ get key table
  kept now days key table positive recent =
      get-delete_where _ key table
      ∙ rw (within_limit now key.window_start days positive recent) refl

  -- With bounded settings a sweep, whichever of its statements fail, leaves every bucket of either
  -- tier whose window started within the last day as it was.
  pub retention_keeps_last_day :
      (fails_1m fails_1h : Bool) (now : ℕ) (s : Settings) (t : Tables V) (key : RollupKey)
      → IsBounded s
      → now ≤ key.window_start + day
      → let t' =
          (enforce_retention fails_1m fails_1h now s.retention_1m_days s.retention_1h_days t).1 in
        (get key t'.rollup_1m ≡ get key t.rollup_1m) × (get key t'.rollup_1h ≡ get key t.rollup_1h)
  unfolding enforce_retention
  retention_keeps_last_day true fails_1h now s t key b recent = (refl, refl)
  retention_keeps_last_day false true now s t key b recent =
      (kept now s.retention_1m_days key t.rollup_1m b.retention_1m_days.0 recent, refl)
  retention_keeps_last_day false false now s t key b recent = (
    kept now s.retention_1m_days key t.rollup_1m b.retention_1m_days.0 recent,
    kept now s.retention_1h_days key t.rollup_1h b.retention_1h_days.0 recent,
  )

  -- Where neither statement fails, retentions that are not positive wipe both tiers: of what started
  -- before now nothing is left.
  pub retention_not_positive_wipes :
      (now : ℕ) (days_1m days_1h : ℤ) (t : Tables V) (key : RollupKey)
      → days_1m ≤ℤ pos 0
      → days_1h ≤ℤ pos 0
      → key.window_start + 1 ≤ now
      → let t' = (enforce_retention false false now days_1m days_1h t).1 in
        (get key t'.rollup_1m ≡ none) × (get key t'.rollup_1h ≡ none)
  unfolding enforce_retention
  retention_not_positive_wipes now days_1m days_1h t key small_1m small_1h past =
      (wiped days_1m t.rollup_1m small_1m, wiped days_1h t.rollup_1h small_1h)
    where
      beyond :
          (days : ℤ)
          → days ≤ℤ pos 0
          → ltb_ℤ (pos key.window_start) (retention_limit now days) ≡ true
      beyond (pos d) small = ground arith
      beyond (negsuc d) small = ground arith

      wiped :
          (days : ℤ) (table : Rollup V)
          → days ≤ℤ pos 0
          → get key
              (delete_where (λ k. ltb_ℤ (pos k.window_start) (retention_limit now days)) table)
            ≡ none
      wiped days table small =
          get-delete_where (λ k. ltb_ℤ (pos k.window_start) (retention_limit now days)) key table
          ∙ rw (beyond days small) refl
