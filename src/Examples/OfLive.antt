-- ===== src/Examples/OfLive.antt =====
-- mother/live/live.go at a store with one server, one metric and two points.
use feast_watch.Prelude.{ℕ, ◌*◌, ◌≡◌, refl, ◌++◌, [], ◌∷◌, ltb, keep_if, arith}
use feast_watch.Live
use feast_watch.Live.{
  Point, Store, minute, second, cutoff_at, evict, forget, set_window, series_since, points_of,
  metrics_of,
}
use feast_watch.Live.Invariant.{IsValid}
use feast_watch.Live.Updates.{stamp_at}
use feast_watch.Live.Adds.{add_lem}
use feast_watch.Prelude.Map.{get, string_eq}
use feast_watch.Live.Newest.{last_value, latest_lem}
use feast_watch.Live.{latest}
use feast_watch.Live.Reads.{is_fresh, series_since_lem}

abbrev first_point : Point ℕ
first_point = record { ts = 100; value = 7 }

abbrev second_point : Point ℕ
second_point = record { ts = 110; value = 8 }

abbrev one_server : Store ℕ
one_server = record {
  window = minute;
  series = (1, ("cpu.pct", first_point ∷ second_point ∷ []) ∷ []) ∷ [];
}

abbrev newest : ℕ → ℕ
newest id = 110

one_server-IsValid : IsValid newest one_server
one_server-IsValid = record {
  servers = (
    record {
      some_metric = omega arith;
      capped = omega arith;
      distinct = (tt, tt);
      metrics = (
        record {
          some_point = omega arith;
          ascending = (omega arith, (omega arith, tt));
          at_most = (omega arith, (omega arith, tt));
        },
        tt,
      );
    },
    tt,
  );
}

add_lem_example :
    let s = Live.add one_server (120 * second) 1 120 (("cpu.pct", 9) ∷ ("mem.pct", 30) ∷ []) in
    IsValid (stamp_at newest 1 120) s
    × (points_of s 1 "mem.pct"
        ≡ keep_if
            (is_fresh (cutoff_at (120 * second) minute))
            (points_of one_server 1 "mem.pct" ++ record { ts = 120; value = 30 } ∷ []))
unfolding metrics_of get
add_lem_example =
    add_lem newest one_server (120 * second) 1 120 (("cpu.pct", 9) ∷ ("mem.pct", 30) ∷ []) 1
      "mem.pct" (omega arith) one_server-IsValid (omega arith) ((refl, tt), (tt, tt))

series_since_lem_example :
    (series_since one_server (165 * second) 1 "cpu.pct" 50).0
    ≡ keep_if
        (λ p. ltb 50 p.ts)
        (keep_if (is_fresh (cutoff_at (165 * second) minute)) (points_of one_server 1 "cpu.pct"))
series_since_lem_example =
    series_since_lem newest one_server (165 * second) 1 "cpu.pct" 50 one_server-IsValid

latest_lem_example :
    get "cpu.pct" (latest one_server (165 * second) 1).0.0
    ≡ last_value
        (keep_if (is_fresh (cutoff_at (165 * second) minute)) (points_of one_server 1 "cpu.pct"))
latest_lem_example = latest_lem newest one_server (165 * second) 1 "cpu.pct" one_server-IsValid
