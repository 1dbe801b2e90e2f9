-- ===== src/Mother/Api/Chart.antt =====
-- mother/api/chart.go: the chart of one metric of one server. The query parameters are as
-- strconv.ParseInt reads them; the division of SQLite reals is a parameter.
pub mod Bound
use feast_watch.Prelude.{
  ℕ, ◌+◌, ◌-◌, ◌*◌, ◌/◌, String, Bool, true, false, Option, none, some, List, [], ◌∷◌, map, ltb,
  leb, ◌==◌, str_eq, is_empty, if◌then◌else◌, ◌&&◌, ◌||◌, not,
}
use feast_watch.Prelude.Int.{ℤ, pos, negsuc, pos_part, neg_part, ltb_ℤ, ◌-ℤ◌}
use feast_watch.Mother.Store.Tables.{RollupKey, Bucket, Rollup, Tables, Arithmetic}

abbrev pub max_chart_points : ℕ
max_chart_points = 500

abbrev pub min_chart_interval : ℕ
min_chart_interval = 60

abbrev pub hourly_tier_threshold : ℕ
hourly_tier_threshold = 3600

pub record ChartPoint (V : Type 0) : Type 0 where
  pub ts : ℕ
  pub min : V
  pub max : V
  pub avg : V

pub data Chart (V : Type 0) : Type 0 where
  missing_parameter too_many_points storage_failure : Chart V
  points : List (ChartPoint V) → Chart V

-- `(to-from)/interval > maxChartPoints` on int64: a difference from 2^63 on is negative.
abbrev pub exceeds : ℤ → ℤ → ℕ → Bool
exceeds from to interval =
    let span = pos_part (to -ℤ from) in
    if ltb span 9223372036854775808 then ltb max_chart_points (span / interval) else false

abbrev pub effective : ℤ → ℕ
effective interval =
    if ltb (pos_part interval) min_chart_interval then min_chart_interval else pos_part interval

-- The WHERE clause.
abbrev pub is_selected : ℕ → String → ℤ → ℤ → RollupKey → Bool
is_selected server_id metric from to k =
    (k.server_id == server_id)
    && str_eq k.metric metric
    && not (ltb_ℤ (pos k.window_start) from)
    && not (ltb_ℤ to (pos k.window_start))

module _ {V : Type 0} (f : Arithmetic V) where
  -- One row more in a group: MIN, MAX, SUM and SUM of the columns.
  abbrev pub grouped : Bucket V → Bucket V → Bucket V
  grouped a b = record {
    min = f.min a.min b.min;
    max = f.max a.max b.max;
    sum = f.add a.sum b.sum;
    cnt = a.cnt + b.cnt;
  }

  -- GROUP BY and ORDER BY: the groups in the order of `window_start / interval`, which is theirs.
  unfoldable pub group_row : ℕ → Bucket V → List (ℕ × Bucket V) → List (ℕ × Bucket V)
  group_row j b [] = (j, b) ∷ []
  group_row j b ((k, c) ∷ groups) =
      let rest = group_row j b groups in
      if ltb j k
      then (j, b) ∷ (k, c) ∷ groups
      else (if j == k then (k, grouped c b) ∷ groups else (k, c) ∷ rest)

  unfoldable pub group_rows : (RollupKey → Bool) → ℕ → Rollup V → List (ℕ × Bucket V)
  unfolding group_row
  group_rows selected interval [] = []
  group_rows selected interval ((k, b) ∷ rows) =
      let groups = group_rows selected interval rows in
      if selected k then group_row (k.window_start / interval) b groups else groups

abbrev pub tier_of : {V : Type 0} → Tables V → ℕ → Rollup V
tier_of t interval = if ltb interval hourly_tier_threshold then t.rollup_1m else t.rollup_1h

module _ {V : Type 0} (f : Arithmetic V) (div : V → ℕ → V) where
  abbrev pub point_of : ℕ → ℕ × Bucket V → ChartPoint V
  point_of interval (j, b) = record {
    ts = j * interval;
    min = b.min;
    max = b.max;
    avg = div b.sum b.cnt;
  }

  -- The query, which may fail, on parameters that are all there.
  unfoldable pub chart_of : Bool → Tables V → ℕ → String → ℤ → ℤ → ℕ → Chart V
  unfolding group_rows
  chart_of fails t server_id metric from to interval =
      if exceeds from to interval
      then too_many_points
      else (if fails
          then storage_failure
          else points (
              map (point_of interval) (
                group_rows f (is_selected server_id metric from to) interval (tier_of t interval))))

  -- The four numbers, if all are there.
  unfoldable pub handle_chart :
      Bool → Tables V → (server_id : Option ℕ) → (from to interval : Option ℤ) → String → Chart V
  unfolding chart_of
  handle_chart fails t (some server_id) (some from) (some to) (some interval) metric =
      if is_empty metric || not (ltb_ℤ from to)
      then missing_parameter
      else chart_of fails t server_id metric from to (effective interval)
  handle_chart fails t none from to interval metric = missing_parameter
  handle_chart fails t (some server_id) none to interval metric = missing_parameter
  handle_chart fails t (some server_id) (some from) none interval metric = missing_parameter
  handle_chart fails t (some server_id) (some from) (some to) none metric = missing_parameter
