-- ===== src/Live.antt =====
-- mother/live/live.go: the last samples of every server, in memory.
-- The mutex makes each method one step, so each method is a function of the store. `now` is an
-- argument where the code calls `s.now()`. Times of the clock and windows are nanoseconds, the
-- stamps of points are seconds. A Go map that is ranged over is a list: its order is the order in
-- which the range happens to visit it.
pub mod Search
pub mod Invariant
pub mod Updates
pub mod Upkeep
pub mod Reads
pub mod Newest
pub mod Recording
pub mod Adds
use feast_watch.Prelude.{
  ℕ, zero, suc, ◌+◌, ◌-◌, ◌/◌, ◌≡◌, String, Bool, true, false, Option, none, some, List, [], ◌∷◌,
  ◌++◌, ltb, ◌==◌, if◌then◌else◌, length, drop, get_last_or, ◌||◌,
}
use feast_watch.Prelude.Map.{Map, get, put, delete, nat_eq, string_eq}
use Search.{search}

abbrev pub max_metrics_per_server : ℕ
max_metrics_per_server = 256

abbrev pub second : ℕ
second = 1000000000

abbrev pub minute : ℕ
minute = 60000000000

-- `s.now().Add(-s.window).Unix()`; the clock is past the length of any window.
abbrev pub cutoff_at : ℕ → ℕ → ℕ
cutoff_at now window = (now - window) / second

-- `V` stands for float64: the store never computes with a value.
pub record Point (V : Type 0) : Type 0 where
  pub ts : ℕ
  pub value : V

pub record Store (V : Type 0) : Type 0 where
  pub window : ℕ
  pub series : Map ℕ (Map String (List (Point V)))

module _ {V : Type 0} where
  -- A window that is not positive is 0 here.
  unfoldable pub new : ℕ → Store V
  new window = record { window = if window == 0 then minute else window; series = [] }

  -- The scan of `evictLocked`: how many points at the front are older than the cutoff.
  unfoldable pub count_expired : ℕ → List (Point V) → ℕ
  count_expired cutoff [] = 0
  count_expired cutoff (p ∷ ps) =
      let more = suc (count_expired cutoff ps) in if ltb p.ts cutoff then more else 0

  -- The switch of `evictLocked` for one metric, before the metrics that follow it.
  unfoldable pub keep_metric :
      ℕ → String → List (Point V) → Map String (List (Point V)) → Map String (List (Point V))
  unfolding count_expired
  keep_metric cutoff metric points rest =
      let keep = count_expired cutoff points in
      if keep == 0
      then (metric, points) ∷ rest
      else (if keep == length points then rest else (metric, drop keep points) ∷ rest)

  unfoldable pub evict_metrics : ℕ → Map String (List (Point V)) → Map String (List (Point V))
  evict_metrics cutoff [] = []
  evict_metrics cutoff ((metric, points) ∷ m) =
      keep_metric cutoff metric points (evict_metrics cutoff m)

  -- The end of `evictLocked`: a server that holds nothing is dropped.
  unfoldable pub store_metrics : Store V → ℕ → Map String (List (Point V)) → Store V
  store_metrics s id [] = record s { series = delete id s.series }
  store_metrics s id (x ∷ m) = record s { series = put id (x ∷ m) s.series }

  unfoldable pub evict_found : Store V → ℕ → ℕ → Option (Map String (List (Point V))) → Store V
  unfolding store_metrics
  evict_found s now id none = s
  evict_found s now id (some m) = store_metrics s id (evict_metrics (cutoff_at now s.window) m)

  unfoldable pub evict : Store V → ℕ → ℕ → Store V
  unfolding evict_found
  evict s now id = evict_found s now id (get id s.series)

  -- `series[serverID][metric]`, with the empty list for a missing key.
  abbrev pub points_or_nil : Option (List (Point V)) → List (Point V)
  points_or_nil none = []
  points_or_nil (some ps) = ps

  abbrev pub metrics_or_nil : Option (Map String (List (Point V))) → Map String (List (Point V))
  metrics_or_nil none = []
  metrics_or_nil (some m) = m

  unfoldable pub metrics_of : Store V → ℕ → Map String (List (Point V))
  metrics_of s id = metrics_or_nil (get id s.series)

  unfoldable pub points_of : Store V → ℕ → String → List (Point V)
  unfolding metrics_of
  points_of s id metric = points_or_nil (get metric (metrics_of s id))

  abbrev pub is_known : Option (List (Point V)) → Bool
  is_known none = false
  is_known (some ps) = true

  -- One turn of the loop of `Add`.
  unfoldable pub add_sample :
      ℕ → String → V → Map String (List (Point V)) → Map String (List (Point V))
  add_sample ts metric value m =
      let held = get metric m in
      if is_known held || ltb (length m) max_metrics_per_server
      then put metric (points_or_nil held ++ record { ts = ts; value = value } ∷ []) m
      else m

  unfoldable pub add_samples :
      ℕ → Map String V → Map String (List (Point V)) → Map String (List (Point V))
  add_samples ts [] m = m
  add_samples ts ((metric, value) ∷ rest) m = add_samples ts rest (add_sample ts metric value m)

  unfoldable pub add : Store V → ℕ → ℕ → ℕ → Map String V → Store V
  unfolding evict metrics_of
  add s now id ts [] = s
  add s now id ts (x ∷ samples) =
      evict (record s { series = put id (add_samples ts (x ∷ samples) (metrics_of s id)) s.series })
        now id

  -- The answer of `SeriesSince`, and the store after the eviction that it makes.
  unfoldable pub series_since : Store V → ℕ → ℕ → String → ℕ → List (Point V) × Store V
  unfolding points_of
  series_since s now id metric since =
      let s' = evict s now id in
      let src = points_of s' id metric in (drop (search (λ p. ltb since p.ts) src) src, s')

  pub series : Store V → ℕ → ℕ → String → List (Point V) × Store V
  unfolding series_since
  series s now id metric = series_since s now id metric 0

  -- The loop of `Latest`. `points[len(points)-1]` panics on an empty list, which is
  -- skipped here; the invariant of the store excludes it.
  unfoldable pub latest_of : Map String (List (Point V)) → ℕ → Map String V × ℕ
  latest_of [] newest = ([], newest)
  latest_of ((metric, []) ∷ m) newest = latest_of m newest
  latest_of ((metric, p ∷ ps) ∷ m) newest =
      let last = get_last_or p ps in
      let (out, ts) = latest_of m (if ltb newest last.ts then last.ts else newest) in
      ((metric, last.value) ∷ out, ts)

  unfoldable pub latest : Store V → ℕ → ℕ → (Map String V × ℕ) × Store V
  unfolding latest_of metrics_of
  latest s now id = let s' = evict s now id in (latest_of (metrics_of s' id) 0, s')

  unfoldable pub metric_count : Store V → ℕ → ℕ → ℕ × Store V
  unfolding metrics_of
  metric_count s now id = let s' = evict s now id in (length (metrics_of s' id), s')

  unfoldable pub forget : Store V → ℕ → Store V
  forget s id = record s { series = delete id s.series }

  -- `for serverID := range s.series`, over the ids that the map has when the loop starts.
  unfoldable pub evict_all : Store V → ℕ → Map ℕ (Map String (List (Point V))) → Store V
  evict_all s now [] = s
  evict_all s now ((id, m) ∷ rest) = evict_all (evict s now id) now rest

  unfoldable pub set_window : Store V → ℕ → ℕ → Store V
  unfolding evict_all
  set_window s now window =
      if window == 0 then s else evict_all (record s { window = window }) now s.series
