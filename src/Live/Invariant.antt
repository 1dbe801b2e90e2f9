-- ===== src/Live/Invariant.antt =====
-- mother/live/live.go: what holds of the live store between two calls.
use feast_watch.Prelude.{
  str_eq, false, All-if, ℕ, zero, suc, ◌-◌, ◌≤◌, ◌<◌, ◌≡◌, String, List, [], ◌∷◌, ◌++◌, inl, inr,
  arith, ◌==◌, length, drop, All, All-drop, Bool-cases, Option-cases,
}
use feast_watch.Prelude.Map.{
  IsAbsent, HasDistinctKeys, Map, get, nat_eq, string_eq, All-put, All-delete, All-get,
}
use feast_watch.Live.{
  Point, Store, max_metrics_per_server, count_expired, keep_metric, evict_metrics, cutoff_at,
  store_metrics, evict_found, evict, new,
}

module _ {V : Type 0} where
  -- Stamps do not fall along the list, and start at `lo` or later.
  abbrev pub IsAscending : ℕ → List (Point V) → Type 0
  IsAscending lo [] = Unit
  IsAscending lo (p ∷ ps) = (lo ≤ p.ts) × IsAscending p.ts ps

  -- What is held for one metric: something, in order, nothing newer than `hi`.
  pub record MetricIsValid (hi : ℕ) (e : String × List (Point V)) : Type 0 where
    pub some_point : 0 < length e.1
    pub ascending : IsAscending 0 e.1
    pub at_most : All (λ p. p.ts ≤ hi) e.1

  -- What is held for one server: at least one metric and at most the cap.
  pub record ServerIsValid (hi : ℕ → ℕ) (e : ℕ × Map String (List (Point V))) : Type 0 where
    pub some_metric : 0 < length e.1
    pub capped : length e.1 ≤ max_metrics_per_server
    pub distinct : HasDistinctKeys e.1
    pub metrics : All (MetricIsValid (hi e.0)) e.1

  pub record IsValid (hi : ℕ → ℕ) (s : Store V) : Type 0 where
    pub servers : All (ServerIsValid hi) s.series

  pub IsAscending-lower :
      (lo lo' : ℕ) (ps : List (Point V)) → lo ≤ lo' → IsAscending lo' ps → IsAscending lo ps
  IsAscending-lower lo lo' [] le h = tt
  IsAscending-lower lo lo' (p ∷ ps) le h = (omega arith, h.1)

  IsAscending-drop :
      (n lo : ℕ) (ps : List (Point V)) → IsAscending lo ps → IsAscending lo (drop n ps)
  IsAscending-drop zero lo ps h = h
  IsAscending-drop (suc n) lo [] h = h
  IsAscending-drop (suc n) lo (p ∷ ps) h =
      IsAscending-drop n lo ps (IsAscending-lower lo p.ts ps h.0 h.1)

  pub IsAscending-append :
      (lo hi : ℕ) (ps : List (Point V)) (p : Point V)
      → lo ≤ hi
      → IsAscending lo ps
      → All (λ q. q.ts ≤ hi) ps
      → hi ≤ p.ts
      → IsAscending lo (ps ++ p ∷ [])
  IsAscending-append lo hi [] p le h b new = (omega arith, tt)
  IsAscending-append lo hi (q ∷ ps) p le h b new =
      (h.0, IsAscending-append q.ts hi ps p b.0 h.1 b.1 new)

  length-drop : (n : ℕ) (ps : List (Point V)) → length (drop n ps) ≡ length ps - n
  length-drop zero ps = omega arith
  length-drop (suc n) [] = omega arith
  length-drop (suc n) (p ∷ ps) = omega (arith, length-drop n ps)

  count_expired-le : (cutoff : ℕ) (ps : List (Point V)) → count_expired cutoff ps ≤ length ps
  unfolding count_expired
  count_expired-le cutoff [] = omega arith
  count_expired-le cutoff (p ∷ ps) = ground (arith, count_expired-le cutoff ps)

  MetricIsValid-drop :
      (hi n : ℕ) (metric : String) (ps : List (Point V))
      → MetricIsValid hi (metric, ps)
      → n < length ps
      → MetricIsValid hi (metric, drop n ps)
  MetricIsValid-drop hi n metric ps v lt = record {
    some_point = omega (arith, length-drop n ps);
    ascending = IsAscending-drop n 0 ps v.ascending;
    at_most = All-drop (λ p. p.ts ≤ hi) n ps v.at_most;
  }

  keep_metric-valid :
      (hi cutoff : ℕ) (metric : String) (ps : List (Point V)) (rest : Map String (List (Point V)))
      → MetricIsValid hi (metric, ps)
      → All (MetricIsValid hi) rest
      → All (MetricIsValid hi) (keep_metric cutoff metric ps rest)
  unfolding keep_metric
  keep_metric-valid hi cutoff metric ps rest v h =
      elim (Bool-cases (count_expired cutoff ps == 0)) [
        | inl fresh ↦ rw fresh (v, h)
        | inr old ↦ elim (Bool-cases (count_expired cutoff ps == length ps)) [
          | inl gone ↦ rw (old, gone) h
          | inr kept ↦
              rw (old, kept)
                (
                  MetricIsValid-drop hi (count_expired cutoff ps) metric ps v
                      (ground (arith, count_expired-le cutoff ps)),
                  h,
                )
        ]
      ]

  keep_metric-IsAbsent :
      (k : String) (cutoff : ℕ) (metric : String) (ps : List (Point V))
      → (rest : Map String (List (Point V))) → str_eq metric k ≡ false
      → IsAbsent k rest
      → IsAbsent k (keep_metric cutoff metric ps rest)
  unfolding keep_metric
  keep_metric-IsAbsent k cutoff metric ps rest other h =
      All-if _ (count_expired cutoff ps == 0) _ _ (other, h)
        (All-if _ (count_expired cutoff ps == length ps) _ _ h (other, h))

  pub evict_metrics-IsAbsent :
      (k : String) (cutoff : ℕ) (m : Map String (List (Point V)))
      → IsAbsent k m
      → IsAbsent k (evict_metrics cutoff m)
  unfolding evict_metrics
  evict_metrics-IsAbsent k cutoff [] h = h
  evict_metrics-IsAbsent k cutoff ((metric, ps) ∷ m) h =
      keep_metric-IsAbsent k cutoff metric ps (evict_metrics cutoff m) h.0
        (evict_metrics-IsAbsent k cutoff m h.1)

  keep_metric-distinct :
      (cutoff : ℕ) (metric : String) (ps : List (Point V)) (rest : Map String (List (Point V)))
      → IsAbsent metric rest
      → HasDistinctKeys rest
      → HasDistinctKeys (keep_metric cutoff metric ps rest)
  unfolding keep_metric
  keep_metric-distinct cutoff metric ps rest h d =
      elim (Bool-cases (count_expired cutoff ps == 0)) [
        | inl fresh ↦ rw fresh (h, d)
        | inr old ↦ elim (Bool-cases (count_expired cutoff ps == length ps)) [
          | inl gone ↦ rw (old, gone) d
          | inr kept ↦ rw (old, kept) (h, d)
        ]
      ]

  evict_metrics-distinct :
      (cutoff : ℕ) (m : Map String (List (Point V)))
      → HasDistinctKeys m
      → HasDistinctKeys (evict_metrics cutoff m)
  unfolding evict_metrics
  evict_metrics-distinct cutoff [] d = d
  evict_metrics-distinct cutoff ((metric, ps) ∷ m) d =
      keep_metric-distinct cutoff metric ps (evict_metrics cutoff m)
        (evict_metrics-IsAbsent metric cutoff m d.0) (evict_metrics-distinct cutoff m d.1)

  length-keep_metric :
      (cutoff : ℕ) (metric : String) (ps : List (Point V)) (rest : Map String (List (Point V)))
      → length (keep_metric cutoff metric ps rest) ≤ suc (length rest)
  unfolding keep_metric
  length-keep_metric cutoff metric ps rest = ground arith

  evict_metrics-valid :
      (hi cutoff : ℕ) (m : Map String (List (Point V)))
      → All (MetricIsValid hi) m
      → All (MetricIsValid hi) (evict_metrics cutoff m)
  unfolding evict_metrics
  evict_metrics-valid hi cutoff [] h = h
  evict_metrics-valid hi cutoff ((metric, ps) ∷ m) h =
      keep_metric-valid hi cutoff metric ps _ h.0 (evict_metrics-valid hi cutoff m h.1)

  length-evict_metrics :
      (cutoff : ℕ) (m : Map String (List (Point V))) → length (evict_metrics cutoff m) ≤ length m
  unfolding evict_metrics
  length-evict_metrics cutoff [] = omega arith
  length-evict_metrics cutoff ((metric, ps) ∷ m) = omega (
    arith,
    length-keep_metric cutoff metric ps (evict_metrics cutoff m),
    length-evict_metrics cutoff m,
  )

  -- Storing what is left of a server's metrics: valid ones, at most the cap, if any.
  store_metrics-IsValid :
      (hi : ℕ → ℕ) (s : Store V) (id : ℕ) (m : Map String (List (Point V)))
      → IsValid hi s
      → All (MetricIsValid (hi id)) m
      → length m ≤ max_metrics_per_server
      → HasDistinctKeys m
      → IsValid hi (store_metrics s id m)
  unfolding store_metrics
  store_metrics-IsValid hi s id [] v h c d = record {
    servers = All-delete (ServerIsValid hi) id s.series v.servers;
  }
  store_metrics-IsValid hi s id (x ∷ m) v h c d = record {
    servers =
        All-put (ServerIsValid hi) id (x ∷ m) s.series
          (record { some_metric = omega arith; capped = c; distinct = d; metrics = h }) v.servers;
  }

  -- Eviction keeps the store valid, whatever the clock says.
  pub evict-IsValid :
      (hi : ℕ → ℕ) (s : Store V) (now id : ℕ) → IsValid hi s → IsValid hi (evict s now id)
  unfolding evict
  evict-IsValid hi s now id v = elim (Option-cases (get id s.series)) [
    | inl none_held ↦ rw (none_held, evict_found) v
    | inr (m, held) ↦
        let server = All-get (ServerIsValid hi) id m s.series v.servers held in
        rw (held, evict_found)
          (store_metrics-IsValid hi s id (evict_metrics (cutoff_at now s.window) m) v
            (evict_metrics-valid (hi id) (cutoff_at now s.window) m server.metrics)
            (omega (arith, length-evict_metrics (cutoff_at now s.window) m, server.capped))
            (evict_metrics-distinct (cutoff_at now s.window) m server.distinct))
  ]
