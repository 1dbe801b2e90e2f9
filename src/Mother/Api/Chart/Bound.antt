-- ===== src/Mother/Api/Chart/Bound.antt =====
-- mother/api/chart.go: how many points an answer has.
use native.Mathlib.Nat.{div-lt_iff_lt-mul, lt-div-mul-add, le-div_iff_mul-le, div-mul-le_self}
use feast_watch.Prelude.{
  ℕ, suc, ◌+◌, ◌-◌, ◌*◌, ◌/◌, ◌≤◌, ◌<◌, ◌≡◌, refl, sym, ap, ◌∙◌, String, Bool, true, false, Option,
  none, some, List, [], ◌∷◌, map, ltb, ◌==◌, is_empty, if◌then◌else◌, ◌||◌, not, length, arith,
  Bool-cases, inl, inr,
}
use feast_watch.Prelude.Int.{ℤ, pos, negsuc, pos_part, ltb_ℤ, ◌-ℤ◌}
use feast_watch.Mother.Store.Tables.{RollupKey, Bucket, Rollup, Tables, Arithmetic}
use feast_watch.Mother.Api.Chart.{
  ChartPoint, Chart, points, too_many_points, missing_parameter, storage_failure, exceeds,
  effective, group_row, is_selected, group_rows, point_of, tier_of, chart_of, handle_chart,
}

-- The groups ascend strictly, from the first bound to the second.
abbrev Ascends {ℓ} : {A : Type ℓ} → ℕ → ℕ → List (ℕ × A) → Type 0
Ascends lo hi [] = Unit
Ascends lo hi ((j, a) ∷ groups) = (lo ≤ j) × (j ≤ hi) × Ascends (j + 1) hi groups

length-Ascends {ℓ} :
    {A : Type ℓ} (lo hi : ℕ) (groups : List (ℕ × A))
    → Ascends lo hi groups
    → lo ≤ hi + 1
    → length groups + lo ≤ hi + 1
length-Ascends lo hi [] h le = omega (arith, le)
length-Ascends lo hi ((j, a) ∷ groups) h le =
    omega (arith, length-Ascends (j + 1) hi groups h.2 (omega (arith, h.1)), h.0)

count-Ascends {ℓ} :
    {A : Type ℓ} (lo hi : ℕ) (groups : List (ℕ × A))
    → Ascends lo hi groups
    → length groups ≤ hi + 1 - lo
count-Ascends lo hi [] h = omega arith
count-Ascends lo hi ((j, a) ∷ groups) h =
    omega (arith, length-Ascends lo hi ((j, a) ∷ groups) h (omega (arith, h.0, h.1)))

module _ {V : Type 0} (f : Arithmetic V) where
  group_row-Ascends :
      (lo hi j : ℕ) (b : Bucket V) (groups : List (ℕ × Bucket V))
      → lo ≤ j
      → j ≤ hi
      → Ascends lo hi groups
      → Ascends lo hi (group_row f j b groups)
  unfolding group_row
  group_row-Ascends lo hi j b [] low high h = (low, high, tt)
  group_row-Ascends lo hi j b ((k, c) ∷ groups) low high h = elim (Bool-cases (ltb j k)) [
    | inl below ↦ rw below (low, high, (ground (arith, below), h.1, h.2))
    | inr above ↦ elim (Bool-cases (j == k)) [
      | inl same ↦ rw (above, same) h
      | inr other ↦
          rw (above, other)
            (
              h.0,
              h.1,
              group_row-Ascends (k + 1) hi j b groups (ground (arith, above, other)) high h.2,
            )
    ]
  ]

  group_rows-Ascends :
      (selected : RollupKey → Bool) (interval lo hi : ℕ) (rows : Rollup V)
      → ((k : RollupKey)
          → selected k ≡ true
          → (lo ≤ k.window_start / interval) × (k.window_start / interval ≤ hi))
      → Ascends lo hi (group_rows f selected interval rows)
  unfolding group_rows
  group_rows-Ascends selected interval lo hi [] within = tt
  group_rows-Ascends selected interval lo hi ((k, b) ∷ rows) within =
      let groups = group_rows-Ascends selected interval lo hi rows within in
      elim (Bool-cases (selected k)) [
        | inl chosen ↦ rw chosen (
            group_row-Ascends lo hi (k.window_start / interval) b
              (group_rows f selected interval rows) (within k chosen).0 (within k chosen).1 groups)
        | inr skipped ↦ rw skipped groups
      ]

-- The windows that are selected lie between the two times.
selected_within :
    (server_id : ℕ) (metric : String) (from to : ℤ) (k : RollupKey)
    → is_selected server_id metric from to k ≡ true
    → (pos_part from ≤ k.window_start) × (k.window_start ≤ pos_part to)
selected_within server_id metric (pos a) (pos b) k h = ground (arith, h)
selected_within server_id metric (pos a) (negsuc b) k h = ground (arith, h)
selected_within server_id metric (negsuc a) (pos b) k h = ground (arith, h)
selected_within server_id metric (negsuc a) (negsuc b) k h = ground (arith, h)

-- Two times a span apart, and how many intervals lie between them.
span_le : (from to : ℤ) → pos_part to ≤ pos_part from + pos_part (to -ℤ from)
span_le (pos a) (pos b) = ground arith
span_le (pos a) (negsuc b) = ground arith
span_le (negsuc a) (pos b) = ground arith
span_le (negsuc a) (negsuc b) = ground arith

intervals_le :
    (low high span interval most : ℕ)
    → 0 < interval
    → high ≤ low + span
    → span / interval ≤ most
    → high / interval ≤ low / interval + most + 1
intervals_le low high span interval most p h le =
    let low_end : low < low / interval * interval + interval = lt-div-mul-add p in
    let span_end : span < (most + 1) * interval = (div-lt_iff_lt-mul p).0 (omega (arith, le)) in
    let high_end : high < (low / interval + most + 2) * interval =
      omega (arith, low_end, span_end, h) in
    omega (arith, (div-lt_iff_lt-mul p).1 high_end)

div_mono : (x y interval : ℕ) → 0 < interval → x ≤ y → x / interval ≤ y / interval
div_mono x y interval p h = (le-div_iff_mul-le p).1 (omega (arith, div-mul-le_self x interval, h))

length-map {ℓ κ} :
    {A : Type ℓ} {B : Type κ} (g : A → B) (xs : List A) → length (map g xs) ≡ length xs
length-map g [] = refl
length-map g (x ∷ xs) = ap suc (length-map g xs)

listed : {V : Type 0} → Chart V → List (ChartPoint V)
listed missing_parameter = []
listed too_many_points = []
listed storage_failure = []
listed (points ps) = ps

answered :
    {V : Type 0} (over fails : Bool) (xs ps : List (ChartPoint V))
    → (if over then too_many_points else (if fails then storage_failure else points xs)) ≡ points ps
    → (over ≡ false) × (xs ≡ ps)
unfolding listed
answered true fails xs ps h = cc
answered false true xs ps h = cc
answered false false xs ps h = (refl, ap listed h)

effective_positive : (interval : ℤ) → 0 < effective interval
effective_positive interval = ground arith

allowed :
    (from to : ℤ) (interval : ℕ)
    → pos_part (to -ℤ from) < 9223372036854775808
    → exceeds from to interval ≡ false
    → pos_part (to -ℤ from) / interval ≤ 500
allowed from to interval fits h =
    elim (Bool-cases (ltb (pos_part (to -ℤ from)) 9223372036854775808)) [
      | inl small ↦ ground (arith, rw small at h)
      | inr large ↦ absurd (ground (arith, fits, large))
    ]

module _ {V : Type 0} (f : Arithmetic V) (div : V → ℕ → V) where
  chart_of-length :
      (fails : Bool) (t : Tables V) (server_id : ℕ) (metric : String) (from to : ℤ) (interval : ℕ)
      (ps : List (ChartPoint V))
      → 0 < interval
      → pos_part (to -ℤ from) < 9223372036854775808
      → chart_of f div fails t server_id metric from to interval ≡ points ps
      → length ps ≤ 502
  unfolding chart_of
  chart_of-length fails t server_id metric from to interval ps p fits h =
      let selected = is_selected server_id metric from to in
      let groups = group_rows f selected interval (tier_of t interval) in
      let (within_bound, same) =
        answered (exceeds from to interval) fails (map (point_of f div interval) groups) ps h in
      let lo = pos_part from / interval in
      let hi = pos_part to / interval in
      let near : hi ≤ lo + 500 + 1 =
        intervals_le (pos_part from) (pos_part to) (pos_part (to -ℤ from)) interval 500 p
          (span_le from to) (allowed from to interval fits within_bound) in
      let inside = group_rows-Ascends f selected interval lo hi (tier_of t interval) (λ k chosen. (
        div_mono (pos_part from) k.window_start interval p
            (selected_within server_id metric from to k chosen).0,
        div_mono k.window_start (pos_part to) interval p
            (selected_within server_id metric from to k chosen).1,
      )) in
      omega (
        arith,
        sym (ap length same) ∙ length-map (point_of f div interval) groups,
        count-Ascends lo hi groups inside,
        near,
      )

  -- Where the two times of a request lie less than 2^63 seconds apart, so that their difference does
  -- not wrap around: an answer has at most 502 points, whatever the tables hold.
  pub chart_bounded :
      (fails : Bool) (t : Tables V) (server_id : Option ℕ) (from to : ℤ) (interval : Option ℤ)
      (metric : String) (ps : List (ChartPoint V))
      → pos_part (to -ℤ from) < 9223372036854775808
      → handle_chart f div fails t server_id (some from) (some to) interval metric ≡ points ps
      → length ps ≤ 502
  unfolding handle_chart
  chart_bounded fails t none from to interval metric ps fits h = cc
  chart_bounded fails t (some server_id) from to none metric ps fits h = cc
  chart_bounded fails t (some server_id) from to (some interval) metric ps fits h =
      elim (Bool-cases (is_empty metric || not (ltb_ℤ from to))) [
        | inl missing ↦ cc (rw missing at h)
        | inr given ↦
            chart_of-length fails t server_id metric from to (effective interval) ps
              (effective_positive interval) fits (rw given at h)
      ]
