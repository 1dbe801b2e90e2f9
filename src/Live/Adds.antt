-- ===== src/Live/Adds.antt =====
-- mother/live/live.go: what `Add` records.
use feast_watch.Prelude.{
  ℕ, ◌≤◌, ◌<◌, ◌≡◌, refl, sym, ap, ◌∙◌, String, false, List, [], ◌∷◌, ◌++◌, inl, inr, arith, ◌==◌,
  ==_iff, if◌then◌else◌, length, keep_if, Bool-cases, Option-cases,
}
use feast_watch.Prelude.Map.{Map, get, put, nat_eq, string_eq, get-put, get-delete, HasDistinctKeys}
use feast_watch.Live.{
  Point, Store, cutoff_at, points_or_nil, metrics_of, points_of, add_samples, store_metrics,
  evict_metrics, evict_found, evict, add,
}
use feast_watch.Live.Invariant.{IsValid}
use feast_watch.Live.Updates.{stamp_at, put-IsValid, add-IsValid}
use feast_watch.Live.Reads.{is_fresh, points_of-evict}
use feast_watch.Live.Recording.{has_room, recorded_if, add_samples-points}

module _ {V : Type 0} where
  points_of-evict_other :
      (s : Store V) (now id k : ℕ) (metric : String)
      → (id == k) ≡ false
      → points_of (evict s now id) k metric ≡ points_of s k metric
  unfolding evict evict_found store_metrics points_of metrics_of
  points_of-evict_other s now id k metric other = elim (Option-cases (get id s.series)) [
    | inl nothing ↦ rw nothing refl
    | inr (m, held) ↦ rw held (left (evict_metrics (cutoff_at now s.window) m))
  ]
    where
      left :
          (m : Map String (List (Point V)))
          → points_of (store_metrics s id m) k metric ≡ points_of s k metric
      left [] = rw (get-delete id k s.series, other) refl
      left (x ∷ m) = rw (get-put id k (x ∷ m) s.series, other) refl

  put_other :
      (s : Store V) (id k : ℕ) (metric : String) (m : Map String (List (Point V)))
      → (id == k) ≡ false
      → points_of (record s { series = put id m s.series }) k metric ≡ points_of s k metric
  unfolding points_of metrics_of
  put_other s id k metric m other = rw (get-put id k m s.series, other) refl

  put_self :
      (s : Store V) (id : ℕ) (metric : String) (m : Map String (List (Point V)))
      → points_of (record s { series = put id m s.series }) id metric ≡ points_or_nil (get metric m)
  unfolding points_of metrics_of
  put_self s id metric m = rw (get-put id id m s.series, (==_iff id id).1 refl) refl

  -- A push stamped no earlier than the server's newest point, with at least one sample and no metric
  -- twice, keeps the store valid: every metric that is held has a point and its points in order of
  -- time, no server exceeds the cap of metrics, and no point of the server is newer than the push.
  -- Of every metric of the server it leaves what was held and the sample that the push brings for
  -- it, as far as they are inside the window; the sample is left out only where the metric is new
  -- and the metrics that were held and the new ones before it fill the cap. The metrics of the other
  -- servers are left as they were.
  pub add_lem :
      (hi : ℕ → ℕ) (s : Store V) (now id ts : ℕ) (samples : Map String V) (k : ℕ) (metric : String)
      → hi id ≤ ts
      → IsValid hi s
      → 0 < length samples
      → HasDistinctKeys samples
      → IsValid (stamp_at hi id ts) (add s now id ts samples)
        × (points_of (add s now id ts samples) k metric ≡ (
            if id == k
            then keep_if (is_fresh (cutoff_at now s.window)) (
                points_of s id metric
                ++ recorded_if (has_room (metrics_of s id) metric samples) ts (get metric samples))
            else points_of s k metric))
  unfolding add points_of
  add_lem hi s now id ts [] k metric le v some_sample d = absurd (omega arith)
  add_lem hi s now id ts ((name, value) ∷ rest) k metric le v some_sample d =
      let m = add_samples ts ((name, value) ∷ rest) (metrics_of s id) in
      let before : Store V = record s { series = put id m s.series } in
      (
        add-IsValid hi s now id ts ((name, value) ∷ rest) le v,
        elim (Bool-cases (id == k)) [
          | inr other ↦
              rw other (
                points_of-evict_other before now id k metric other
                ∙ put_other s id k metric m other)
          | inl same ↦ rw same (
              ap (λ j. points_of (evict before now id) j metric) (sym ((==_iff id k).0 same))
              ∙ points_of-evict (stamp_at hi id ts) before now id metric
                  (put-IsValid hi s id ts name value rest le v)
              ∙ ap (keep_if (is_fresh (cutoff_at now s.window))) (
                  put_self s id metric m
                  ∙ add_samples-points ts metric ((name, value) ∷ rest) (metrics_of s id) d))
        ],
      )
