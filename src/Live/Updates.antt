-- ===== src/Live/Updates.antt =====
-- mother/live/live.go: what a push leaves.
use feast_watch.Prelude.{
  ℕ, ◌≤◌, ◌<◌, ◌≡◌, refl, String, true, Option, none, some, List, [], ◌∷◌, ◌++◌, inl, inr, arith,
  ltb, ◌==◌, ==_iff, if◌then◌else◌, length, All, All-map, All-append, Bool-cases, Option-cases,
  length-append, ◌||◌,
}
use feast_watch.Prelude.Map.{
  HasDistinctKeys, HasDistinctKeys-put, Map, get, put, nat_eq, string_eq, All-put, All-get,
  length-put_le, length-put_known,
}
use feast_watch.Live.{
  Point, Store, max_metrics_per_server, points_or_nil, metrics_of, is_known, add_sample,
  add_samples, add,
}
use feast_watch.Live.Invariant.{
  IsAscending-append, MetricIsValid, ServerIsValid, IsValid, evict-IsValid,
}

-- The newest stamp of each server, after one more for `id`.
abbrev pub stamp_at : (ℕ → ℕ) → ℕ → ℕ → ℕ → ℕ
stamp_at hi id ts k = if id == k then ts else hi k

stamp_at-le : (hi : ℕ → ℕ) (id ts k : ℕ) → hi id ≤ ts → hi k ≤ stamp_at hi id ts k
stamp_at-le hi id ts k le = elim (Bool-cases (id == k)) [
  | inl same ↦ rw same (rw ((==_iff id k).0 same) at le)
  | inr other ↦ rw other (omega arith)
]

stamp_at_self : (hi : ℕ → ℕ) (id ts : ℕ) → stamp_at hi id ts id ≡ ts
stamp_at_self hi id ts = rw ((==_iff id id).1 refl)

module _ {V : Type 0} where
  -- What `Add` keeps of one server's metrics.
  record Holds (ts : ℕ) (m : Map String (List (Point V))) : Type 0 where
    capped : length m ≤ max_metrics_per_server
    distinct : HasDistinctKeys m
    metrics : All (MetricIsValid ts) m

  append_point-valid :
      (ts : ℕ) (metric : String) (value : V) (held : Option (List (Point V)))
      → ((ps : List (Point V)) → held ≡ some ps → MetricIsValid ts (metric, ps))
      → MetricIsValid ts (metric, points_or_nil held ++ record { ts = ts; value = value } ∷ [])
  append_point-valid ts metric value none h = record {
    some_point = omega arith;
    ascending = omega arith;
    at_most = (omega arith, tt);
  }
  append_point-valid ts metric value (some ps) h = record {
    some_point =
        omega (
          arith,
          length-append ps (record { ts = ts; value = value } ∷ []),
          (h ps refl).some_point,
        );
    ascending =
        IsAscending-append 0 ts ps (record { ts = ts; value = value }) (omega arith)
          (h ps refl).ascending (h ps refl).at_most (omega arith);
    at_most = All-append (λ p. p.ts ≤ ts) ps _ (h ps refl).at_most (omega arith, tt);
  }

  length-put-held :
      (metric : String) (points : List (Point V)) (m : Map String (List (Point V)))
      → length m ≤ max_metrics_per_server
      → (is_known (get metric m) || ltb (length m) max_metrics_per_server) ≡ true
      → length (put metric points m) ≤ max_metrics_per_server
  length-put-held metric points m c h = elim (Option-cases (get metric m)) [
    | inl new ↦ ground (arith, length-put_le metric points m)
    | inr (ps, held) ↦ omega (arith, length-put_known metric points ps m held)
  ]

  add_sample-Holds :
      (ts : ℕ) (metric : String) (value : V) (m : Map String (List (Point V)))
      → Holds ts m
      → Holds ts (add_sample ts metric value m)
  unfolding add_sample
  add_sample-Holds ts metric value m v =
      elim (Bool-cases (is_known (get metric m) || ltb (length m) max_metrics_per_server)) [
        | inr full ↦ rw full v
        | inl room ↦ rw room (record {
          capped = length-put-held metric _ m v.capped room;
          distinct = HasDistinctKeys-put metric _ m v.distinct;
          metrics =
              All-put (MetricIsValid ts) metric _ m
                (append_point-valid ts metric value (get metric m)
                  λ ps held. All-get (MetricIsValid ts) metric ps m v.metrics held)
                v.metrics;
        })
      ]

  add_samples-Holds :
      (ts : ℕ) (samples : Map String V) (m : Map String (List (Point V)))
      → Holds ts m
      → Holds ts (add_samples ts samples m)
  unfolding add_samples
  add_samples-Holds ts [] m v = v
  add_samples-Holds ts ((metric, value) ∷ rest) m v =
      add_samples-Holds ts rest _ (add_sample-Holds ts metric value m v)

  length-put_pos :
      (metric : String) (points : List (Point V)) (m : Map String (List (Point V)))
      → 0 < length (put metric points m)
  unfolding put
  length-put_pos metric points [] = omega arith
  length-put_pos metric points (x ∷ m) = ground arith

  length-add_sample_pos :
      (ts : ℕ) (metric : String) (value : V) (m : Map String (List (Point V)))
      → 0 < length (add_sample ts metric value m)
  unfolding add_sample
  length-add_sample_pos ts metric value m =
      elim (Bool-cases (is_known (get metric m) || ltb (length m) max_metrics_per_server)) [
        | inl room ↦ rw room (length-put_pos metric _ m)
        | inr full ↦ rw full (ground arith)
      ]

  length-add_samples_pos :
      (ts : ℕ) (samples : Map String V) (m : Map String (List (Point V)))
      → 0 < length m
      → 0 < length (add_samples ts samples m)
  unfolding add_samples
  length-add_samples_pos ts [] m h = h
  length-add_samples_pos ts ((metric, value) ∷ rest) m h =
      length-add_samples_pos ts rest _ (length-add_sample_pos ts metric value m)

  length-add_samples-cons :
      (ts : ℕ) (metric : String) (value : V) (rest : Map String V) (m : Map String (List (Point V)))
      → 0 < length (add_samples ts ((metric, value) ∷ rest) m)
  unfolding add_samples
  length-add_samples-cons ts metric value rest m =
      length-add_samples_pos ts rest _ (length-add_sample_pos ts metric value m)

  MetricIsValid-le :
      (hi hi' : ℕ)
      → hi ≤ hi'
      → (e : String × List (Point V)) → MetricIsValid hi e
      → MetricIsValid hi' e
  MetricIsValid-le hi hi' le (metric, ps) v = record {
    some_point = v.some_point;
    ascending = v.ascending;
    at_most = All-map (λ p. p.ts ≤ hi) (λ p. p.ts ≤ hi') (λ p h. omega arith) ps v.at_most;
  }

  ServerIsValid-stamp_at :
      (hi : ℕ → ℕ) (id ts : ℕ)
      → hi id ≤ ts
      → (e : ℕ × Map String (List (Point V))) → ServerIsValid hi e
      → ServerIsValid (stamp_at hi id ts) e
  ServerIsValid-stamp_at hi id ts le (k, m) v = record {
    some_metric = v.some_metric;
    capped = v.capped;
    distinct = v.distinct;
    metrics =
        All-map (MetricIsValid (hi k)) (MetricIsValid (stamp_at hi id ts k))
          (MetricIsValid-le (hi k) (stamp_at hi id ts k) (stamp_at-le hi id ts k le)) m v.metrics;
  }

  held-Holds :
      (hi : ℕ → ℕ) (s : Store V) (id ts : ℕ)
      → hi id ≤ ts
      → IsValid hi s
      → Holds ts (metrics_of s id)
  unfolding metrics_of
  held-Holds hi s id ts le v = elim (Option-cases (get id s.series)) [
    | inl new ↦ rw new (record { capped = omega arith; distinct = tt; metrics = tt })
    | inr (m, held) ↦
        let server = All-get (ServerIsValid hi) id m s.series v.servers held in
        rw held (record {
          capped = server.capped;
          distinct = server.distinct;
          metrics =
              All-map (MetricIsValid (hi id)) (MetricIsValid ts) (MetricIsValid-le (hi id) ts le) m
                server.metrics;
        })
  ]

  -- The store before `Add` evicts.
  pub put-IsValid :
      (hi : ℕ → ℕ) (s : Store V) (id ts : ℕ) (metric : String) (value : V) (rest : Map String V)
      → hi id ≤ ts
      → IsValid hi s
      → IsValid (stamp_at hi id ts) (record s {
        series = put id (add_samples ts ((metric, value) ∷ rest) (metrics_of s id)) s.series;
      })
  put-IsValid hi s id ts metric value rest le v =
      let held = held-Holds hi s id ts le v in
      let after = add_samples-Holds ts ((metric, value) ∷ rest) (metrics_of s id) held in
      let kept =
        All-map (ServerIsValid hi) _ (ServerIsValid-stamp_at hi id ts le) s.series v.servers in
      record {
        servers =
            All-put (ServerIsValid (stamp_at hi id ts)) id
              (add_samples ts ((metric, value) ∷ rest) (metrics_of s id)) s.series
              (record {
                some_metric = length-add_samples-cons ts metric value rest (metrics_of s id);
                capped = after.capped;
                distinct = after.distinct;
                metrics = rw (stamp_at_self hi id ts) after.metrics;
              })
              kept;
      }

  -- A push stamped no earlier than the server's newest point keeps the store valid: every metric
  -- that is held has a point and its points in order of time, no server exceeds the cap of metrics,
  -- and no point of the server is newer than the push.
  pub add-IsValid :
      (hi : ℕ → ℕ) (s : Store V) (now id ts : ℕ) (samples : Map String V)
      → hi id ≤ ts
      → IsValid hi s
      → IsValid (stamp_at hi id ts) (add s now id ts samples)
  unfolding add
  add-IsValid hi s now id ts [] le v = record {
    servers = All-map (ServerIsValid hi) _ (ServerIsValid-stamp_at hi id ts le) s.series v.servers;
  }
  add-IsValid hi s now id ts ((metric, value) ∷ rest) le v =
      evict-IsValid (stamp_at hi id ts) _ now id (put-IsValid hi s id ts metric value rest le v)
