-- ===== src/Live/Reads.antt =====
-- mother/live/live.go: what a reader of the live store is given.
use feast_watch.Prelude.{
  ℕ, ◌≤◌, ◌<◌, ◌≡◌, ap, ◌∙◌, refl, sym, String, Bool, true, false, not, none, some, List, [], ◌∷◌,
  inl, inr, arith, ltb, ltb→lt, lt→ltb, ◌==◌, ==_iff, str_eq, str_eq_iff, if◌then◌else◌, length,
  drop, keep_if, All, Bool-cases, Option-cases, All-map,
}
use feast_watch.Prelude.Map.{
  Map, get, nat_eq, string_eq, All-get, get-put, get-delete, get-absent, HasDistinctKeys,
}
use feast_watch.Live.{
  Point, Store, count_expired, keep_metric, evict_metrics, cutoff_at, store_metrics, evict_found,
  evict, points_or_nil, points_of, series_since, forget,
}
use feast_watch.Live.Search.{IsUpward, drop-search}
use feast_watch.Live.Invariant.{
  IsAscending, MetricIsValid, ServerIsValid, IsValid, evict-IsValid, evict_metrics-IsAbsent,
}

module _ {V : Type 0} where
  -- A point that is no older than the cutoff.
  abbrev pub is_fresh : ℕ → Point V → Bool
  is_fresh cutoff p = not (ltb p.ts cutoff)

  keep_if_ascending :
      (cutoff lo : ℕ) (ps : List (Point V))
      → cutoff ≤ lo
      → IsAscending lo ps
      → keep_if (is_fresh cutoff) ps ≡ ps
  keep_if_ascending cutoff lo [] le h = refl
  keep_if_ascending cutoff lo (p ∷ ps) le h =
      ground (arith, h.0, keep_if_ascending cutoff p.ts ps (omega (arith, h.0)) h.1)

  -- The scan from the front drops what a filter drops.
  drop-count_expired :
      (cutoff lo : ℕ) (ps : List (Point V))
      → IsAscending lo ps
      → drop (count_expired cutoff ps) ps ≡ keep_if (is_fresh cutoff) ps
  unfolding count_expired
  drop-count_expired cutoff lo [] h = refl
  drop-count_expired cutoff lo (p ∷ ps) h = elim (Bool-cases (ltb p.ts cutoff)) [
    | inl old ↦ rw old (drop-count_expired cutoff p.ts ps h.1)
    | inr fresh ↦ rw fresh (rw (keep_if_ascending cutoff p.ts ps (ground arith) h.1))
  ]

  drop-length : (ps : List (Point V)) → drop (length ps) ps ≡ []
  drop-length [] = refl
  drop-length (p ∷ ps) = drop-length ps

  get-cons_self :
      (metric : String) (ps : List (Point V)) (rest : Map String (List (Point V)))
      → get metric ((metric, ps) ∷ rest) ≡ some ps
  unfolding get
  get-cons_self metric ps rest = rw ((str_eq_iff metric metric).1 refl)

  keep_metric-get_self :
      (cutoff : ℕ) (metric : String) (ps : List (Point V)) (rest : Map String (List (Point V)))
      → IsAscending 0 ps
      → get metric rest ≡ none
      → points_or_nil (get metric (keep_metric cutoff metric ps rest))
        ≡ keep_if (is_fresh cutoff) ps
  unfolding keep_metric
  keep_metric-get_self cutoff metric ps rest a h =
      let kept = drop-count_expired cutoff 0 ps a in
      elim (Bool-cases (count_expired cutoff ps == 0)) [
        | inl fresh ↦
            rw (fresh, get-cons_self metric ps rest)
              (rw ((==_iff (count_expired cutoff ps) 0).0 fresh) at kept)
        | inr old ↦ elim (Bool-cases (count_expired cutoff ps == length ps)) [
          | inl gone ↦
              rw (old, gone, h)
                (sym (drop-length ps)
                  ∙ (rw ((==_iff (count_expired cutoff ps) (length ps)).0 gone) at kept))
          | inr some_left ↦ rw (old, some_left, get-cons_self metric _ rest) kept
        ]
      ]

  keep_metric-get_other :
      (cutoff : ℕ) (metric k : String) (ps : List (Point V)) (rest : Map String (List (Point V)))
      → str_eq k metric ≡ false
      → get metric (keep_metric cutoff k ps rest) ≡ get metric rest
  unfolding keep_metric get
  keep_metric-get_other cutoff metric k ps rest other =
      elim (Bool-cases (count_expired cutoff ps == 0)) [
        | inl fresh ↦ rw (fresh, other)
        | inr old ↦ elim (Bool-cases (count_expired cutoff ps == length ps)) [
          | inl gone ↦ rw (old, gone)
          | inr some_left ↦ rw (old, some_left, other)
        ]
      ]

  -- Eviction filters the points of every metric.
  evict_metrics-get :
      (cutoff : ℕ) (metric : String) (m : Map String (List (Point V)))
      → HasDistinctKeys m
      → All (λ e. IsAscending 0 e.1) m
      → points_or_nil (get metric (evict_metrics cutoff m))
        ≡ keep_if (is_fresh cutoff) (points_or_nil (get metric m))
  unfolding evict_metrics get
  evict_metrics-get cutoff metric [] d a = refl
  evict_metrics-get cutoff metric ((k, ps) ∷ m) d a = elim (Bool-cases (str_eq k metric)) [
    | inl same ↦
        let here : k ≡ metric = (str_eq_iff k metric).0 same in
        rw (same, here)
          (keep_metric-get_self cutoff metric ps (evict_metrics cutoff m) a.0
            (get-absent metric _ (rw here at (evict_metrics-IsAbsent k cutoff m d.0))))
    | inr other ↦
        rw (other, keep_metric-get_other cutoff metric k ps (evict_metrics cutoff m) other)
          (evict_metrics-get cutoff metric m d.1 a.1)
  ]

  store_metrics-points :
      (s : Store V) (id : ℕ) (metric : String) (m : Map String (List (Point V)))
      → points_of (store_metrics s id m) id metric ≡ points_or_nil (get metric m)
  unfolding store_metrics points_of get
  store_metrics-points s id metric [] = rw (get-delete id id s.series, (==_iff id id).1 refl)
  store_metrics-points s id metric (x ∷ m) =
      rw (get-put id id (x ∷ m) s.series, (==_iff id id).1 refl)

  pub points_of-evict :
      (hi : ℕ → ℕ) (s : Store V) (now id : ℕ) (metric : String)
      → IsValid hi s
      → points_of (evict s now id) id metric
        ≡ keep_if (is_fresh (cutoff_at now s.window)) (points_of s id metric)
  unfolding evict points_of get
  points_of-evict hi s now id metric v = elim (Option-cases (get id s.series)) [
    | inl nothing ↦ rw (nothing, evict_found, nothing)
    | inr (m, held) ↦
        let server = All-get (ServerIsValid hi) id m s.series v.servers held in
        let ascending =
          All-map (MetricIsValid (hi id)) (λ e. IsAscending 0 e.1) (λ e w. w.ascending) m
            server.metrics in
        rw (held, evict_found)
          (store_metrics-points s id metric (evict_metrics (cutoff_at now s.window) m)
            ∙ evict_metrics-get (cutoff_at now s.window) metric m server.distinct ascending)
  ]

  IsUpward-newer :
      (since lo : ℕ) (ps : List (Point V)) → IsAscending lo ps → IsUpward (λ p. ltb since p.ts) ps
  IsUpward-newer since lo [] h = tt
  IsUpward-newer since lo (p ∷ ps) h = (
    λ pass. all_newer since p.ts ps (ltb→lt since p.ts pass) h.1,
    IsUpward-newer since p.ts ps h.1,
  )
    where
      all_newer :
          (since lo : ℕ) (ps : List (Point V))
          → since < lo
          → IsAscending lo ps
          → All (λ p. ltb since p.ts ≡ true) ps
      all_newer since lo [] lt h = tt
      all_newer since lo (p ∷ ps) lt h =
          (lt→ltb since p.ts (omega (arith, h.0)), all_newer since p.ts ps (omega (arith, h.0)) h.1)

  points_of-IsAscending :
      (hi : ℕ → ℕ) (s : Store V) (id : ℕ) (metric : String)
      → IsValid hi s
      → IsAscending 0 (points_of s id metric)
  unfolding points_of get
  points_of-IsAscending hi s id metric v = elim (Option-cases (get id s.series)) [
    | inl nothing ↦ rw nothing tt
    | inr (m, held) ↦
        let server = All-get (ServerIsValid hi) id m s.series v.servers held in
        elim (Option-cases (get metric m)) [
          | inl nothing ↦ rw (held, nothing) tt
          | inr (ps, found) ↦
              rw (held, found)
                (All-get (MetricIsValid (hi id)) metric ps m server.metrics found).ascending
        ]
  ]

  -- A reader of a valid store is given exactly the points held for the metric that are inside the
  -- window and strictly newer than `since`, in their order.
  pub series_since_lem :
      (hi : ℕ → ℕ) (s : Store V) (now id : ℕ) (metric : String) (since : ℕ)
      → IsValid hi s
      → (series_since s now id metric since).0
        ≡ keep_if
            (λ p. ltb since p.ts)
            (keep_if (is_fresh (cutoff_at now s.window)) (points_of s id metric))
  unfolding series_since
  series_since_lem hi s now id metric since v =
      drop-search (λ p. ltb since p.ts) (points_of (evict s now id) id metric)
        (IsUpward-newer since 0 _
          (points_of-IsAscending hi (evict s now id) id metric (evict-IsValid hi s now id v)))
      ∙ ap (keep_if (λ p. ltb since p.ts)) (points_of-evict hi s now id metric v)

  -- After a server is forgotten no point of it is left, and those of the others are as they were.
  pub points_of-forget :
      (s : Store V) (id k : ℕ) (metric : String)
      → points_of (forget s id) k metric ≡ (if id == k then [] else points_of s k metric)
  unfolding forget points_of get
  points_of-forget s id k metric = elim (Bool-cases (id == k)) [
    | inl same ↦ rw (get-delete id k s.series, same)
    | inr other ↦ rw (get-delete id k s.series, other)
  ]
