-- ===== src/Live/Newest.antt =====
-- mother/live/live.go: the last value of every metric of a server.
use feast_watch.Prelude.{
  ℕ, ◌<◌, ◌≡◌, refl, ap, ◌∙◌, String, Option, none, some, List, [], ◌∷◌, str_eq, length, keep_if,
  get_last_or, All, All-map, arith, Bool-cases, Option-cases, inl, inr,
}
use feast_watch.Prelude.Map.{Map, get, All-get, nat_eq, string_eq}
use feast_watch.Live.{
  Point, Store, points_of, metrics_of, points_or_nil, latest_of, latest, evict, cutoff_at,
}
use feast_watch.Live.Invariant.{MetricIsValid, ServerIsValid, IsValid, evict-IsValid}
use feast_watch.Live.Reads.{is_fresh, points_of-evict}

module _ {V : Type 0} where
  abbrev pub last_value : List (Point V) → Option V
  last_value [] = none
  last_value (p ∷ ps) = some (get_last_or p ps).value

  latest_of-get :
      (metric : String) (m : Map String (List (Point V))) (newest : ℕ)
      → All (λ e. 0 < length e.1) m
      → get metric (latest_of m newest).0 ≡ last_value (points_or_nil (get metric m))
  unfolding latest_of get
  latest_of-get metric [] newest h = refl
  latest_of-get metric ((k, []) ∷ m) newest h = absurd (omega (arith, h.0))
  latest_of-get metric ((k, p ∷ ps) ∷ m) newest h = elim (Bool-cases (str_eq k metric)) [
    | inl same ↦ rw same refl
    | inr other ↦ rw other (latest_of-get metric m _ h.1)
  ]

  metrics_of-valid :
      (hi : ℕ → ℕ) (s : Store V) (id : ℕ)
      → IsValid hi s
      → All (MetricIsValid (hi id)) (metrics_of s id)
  unfolding metrics_of
  metrics_of-valid hi s id v = elim (Option-cases (get id s.series)) [
    | inl nothing ↦ rw nothing tt
    | inr (m, held) ↦ rw held (All-get (ServerIsValid hi) id m s.series v.servers held).metrics
  ]

  -- Of a valid store, the panel is given for each metric the value of the newest point that is held
  -- inside the window, and nothing for a metric that has none there.
  pub latest_lem :
      (hi : ℕ → ℕ) (s : Store V) (now id : ℕ) (metric : String)
      → IsValid hi s
      → get metric (latest s now id).0.0
        ≡ last_value (keep_if (is_fresh (cutoff_at now s.window)) (points_of s id metric))
  unfolding latest points_of
  latest_lem hi s now id metric v =
      let held = metrics_of-valid hi (evict s now id) id (evict-IsValid hi s now id v) in
      latest_of-get metric (metrics_of (evict s now id) id) 0
        (All-map (MetricIsValid (hi id)) (λ e. 0 < length e.1) (λ e h. h.some_point) _ held)
      ∙ ap last_value (points_of-evict hi s now id metric v)
