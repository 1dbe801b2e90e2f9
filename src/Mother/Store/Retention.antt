-- ===== src/Mother/Store/Retention.antt =====
-- mother/store/retention.go: what is deleted with time, and what an operator deletes.
pub mod Safety
use feast_watch.Prelude.{ℕ, Bool, true, false, ◌==◌, leb, if◌then◌else◌, ◌&&◌, ◌||◌}
use feast_watch.Prelude.Int.{ℤ, pos, ◌-ℤ◌, ◌*ℤ◌, ltb_ℤ}
use feast_watch.Prelude.Map.{delete_where}
use feast_watch.Mother.Store.Tables.{RollupKey, Tables, rollup_key_eq}

-- now - days*86400, which a day count that is not positive moves to `now` or past it.
abbrev pub retention_limit : ℕ → ℤ → ℤ
retention_limit now days = pos now -ℤ days *ℤ pos 86400

-- A server id of 0 means all.
abbrev is_in_history : ℕ → ℕ → ℕ → RollupKey → Bool
is_in_history server_id from to k =
    leb from k.window_start && leb k.window_start to && (server_id == 0 || k.server_id == server_id)

module _ {V : Type 0} where
  -- Two statements: the second runs if the first did not fail.
  unfoldable pub enforce_retention : Bool → Bool → ℕ → ℤ → ℤ → Tables V → Bool × Tables V
  enforce_retention fails_1m fails_1h now days_1m days_1h t =
      if fails_1m
      then (true, t)
      else (let t' = record t {
        rollup_1m =
            delete_where (λ k. ltb_ℤ (pos k.window_start) (retention_limit now days_1m))
              t.rollup_1m;
      } in
          if fails_1h then (true, t') else (
            false,
            record t' {
              rollup_1h =
                  delete_where (λ k. ltb_ℤ (pos k.window_start) (retention_limit now days_1h))
                    t.rollup_1h;
            },
          ))

  unfoldable pub delete_history : Bool → Bool → ℕ → ℕ → ℕ → Tables V → Bool × Tables V
  delete_history fails_1m fails_1h server_id from to t =
      if fails_1m
      then (true, t)
      else (let t' = record t {
        rollup_1m = delete_where (is_in_history server_id from to) t.rollup_1m;
      } in
          if fails_1h then (true, t') else (
            false,
            record t' { rollup_1h = delete_where (is_in_history server_id from to) t.rollup_1h },
          ))
