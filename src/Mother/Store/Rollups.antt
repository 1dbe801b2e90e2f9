-- ===== src/Mother/Store/Rollups.antt =====
-- mother/store/rollup.go: each push is folded into a bucket of a minute and one of an hour.
pub mod Summary
use feast_watch.Prelude.{
  ℕ, ◌+◌, ◌*◌, ◌/◌, String, Option, none, some, List, [], ◌∷◌, Bool, true, false, if◌then◌else◌,
}
use feast_watch.Prelude.Map.{Map, get, put}
use feast_watch.Mother.Store.Tables.{
  RollupKey, Bucket, Rollup, Tables, Arithmetic, Result, ok, err, storage_failure, rollup_key_eq,
}

abbrev pub minute_width : ℕ
minute_width = 60

abbrev pub hour_width : ℕ
hour_width = 3600

module _ {V : Type 0} (f : Arithmetic V) where
  -- The row after INSERT … ON CONFLICT DO UPDATE.
  unfoldable pub fold_value : Option (Bucket V) → V → Bucket V
  fold_value none v = record { min = v; max = v; sum = v; cnt = 1 }
  fold_value (some b) v = record {
    min = f.min b.min v;
    max = f.max b.max v;
    sum = f.add b.sum v;
    cnt = b.cnt + 1;
  }

  unfoldable pub upsert : RollupKey → V → Rollup V → Rollup V
  unfolding fold_value
  upsert key v table = put key (fold_value (get key table) v) table

  -- The rows of one multi-row statement.
  unfoldable pub upsert_all : ℕ → ℕ → Map String V → Rollup V → Rollup V
  unfolding upsert
  upsert_all server_id window_start [] table = table
  upsert_all server_id window_start ((metric, v) ∷ samples) table =
      upsert_all server_id window_start samples (
        upsert (record { server_id = server_id; metric = metric; window_start = window_start }) v
          table)

  unfoldable pub apply_tier : ℕ → ℕ → ℕ → Map String V → Rollup V → Rollup V
  unfolding upsert_all
  apply_tier width server_id ts samples table =
      upsert_all server_id (ts / width * width) samples table

  -- The transaction over both tiers; a failure anywhere rolls it back.
  unfoldable pub apply_samples : Bool → ℕ → ℕ → Map String V → Tables V → Result (Tables V)
  unfolding apply_tier
  apply_samples fails server_id ts [] t = ok t
  apply_samples fails server_id ts (x ∷ samples) t =
      if fails
      then err storage_failure
      else ok (record t {
        rollup_1m = apply_tier minute_width server_id ts (x ∷ samples) t.rollup_1m;
        rollup_1h = apply_tier hour_width server_id ts (x ∷ samples) t.rollup_1h;
      })
