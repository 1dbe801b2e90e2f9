-- ===== src/Live/Recording.antt =====
-- mother/live/live.go: what the loop of `Add` records, by the room that is left under the cap.
use feast_watch.Prelude.{
  ℕ, suc, ◌+◌, ◌≡◌, refl, sym, ap, ◌∙◌, String, Bool, true, false, Option, none, some, List, [],
  ◌∷◌, ◌++◌, inl, inr, arith, ltb, str_eq, str_eq_iff, if◌then◌else◌, length, Bool-cases,
  Option-cases, ◌||◌,
}
use feast_watch.Prelude.Map.{
  Map, get, put, nat_eq, string_eq, get-put, get-absent, length-put_known, IsAbsent,
  HasDistinctKeys,
}
use feast_watch.Live.{
  Point, max_metrics_per_server, points_or_nil, is_known, add_sample, add_samples,
}

str_eq_swap : (j k : String) → str_eq j k ≡ false → str_eq k j ≡ false
str_eq_swap j k h = ground (arith, str_eq_iff j k, str_eq_iff k j)

module _ {V : Type 0} where
  -- How many metrics that are not held the push brings before this one.
  abbrev pub new_before : Map String (List (Point V)) → String → Map String V → ℕ
  new_before m metric [] = 0
  new_before m metric ((k, v) ∷ rest) =
      if str_eq k metric
      then 0
      else if is_known (get k m)
      then new_before m metric rest
      else suc (new_before m metric rest)

  -- A metric has room if it is held, or if the metrics that are held and the new ones before it
  -- leave a place under the cap.
  abbrev pub has_room : Map String (List (Point V)) → String → Map String V → Bool
  has_room m metric samples =
      is_known (get metric m) || ltb (length m + new_before m metric samples) max_metrics_per_server

  -- What a push stamped `ts` should add to a metric: its sample, if it brings one and has room.
  abbrev pub recorded_if : Bool → ℕ → Option V → List (Point V)
  recorded_if room ts none = []
  recorded_if false ts (some v) = []
  recorded_if true ts (some v) = record { ts = ts; value = v } ∷ []

  append_nil : (ps : List (Point V)) → ps ++ [] ≡ ps
  append_nil [] = refl
  append_nil (p ∷ ps) = ap (◌∷◌ p) (append_nil ps)

  length-put_new :
      (k : String) (ps : List (Point V)) (m : Map String (List (Point V)))
      → get k m ≡ none
      → length (put k ps m) ≡ suc (length m)
  unfolding get put
  length-put_new k ps [] h = refl
  length-put_new k ps ((j, w) ∷ m) h = elim (Bool-cases (str_eq j k)) [
    | inl same ↦ cc (rw same at h)
    | inr other ↦ rw other (ap suc (length-put_new k ps m (rw other at h)))
  ]

  get-put_self :
      (k : String) (ps : List (Point V)) (m : Map String (List (Point V)))
      → get k (put k ps m) ≡ some ps
  get-put_self k ps m = get-put k k ps m ∙ rw ((str_eq_iff k k).1 refl) refl

  get-put_other :
      (k j : String) (ps : List (Point V)) (m : Map String (List (Point V)))
      → str_eq k j ≡ false
      → get j (put k ps m) ≡ get j m
  get-put_other k j ps m h = get-put k j ps m ∙ rw h refl

  new_before-put :
      (k metric : String) (ps : List (Point V)) (m : Map String (List (Point V)))
      (rest : Map String V)
      → IsAbsent k rest
      → new_before (put k ps m) metric rest ≡ new_before m metric rest
  new_before-put k metric ps m [] h = refl
  new_before-put k metric ps m ((j, v) ∷ rest) h =
      rw (get-put_other k j ps m (str_eq_swap j k h.0), new_before-put k metric ps m rest h.1) refl

  get-add_sample :
      (ts : ℕ) (metric : String) (v : V) (m : Map String (List (Point V)))
      → points_or_nil (get metric (add_sample ts metric v m))
        ≡ points_or_nil (get metric m)
          ++ recorded_if
              (is_known (get metric m) || ltb (length m) max_metrics_per_server)
              ts
              (some v)
  unfolding add_sample
  get-add_sample ts metric v m =
      elim (Bool-cases (is_known (get metric m) || ltb (length m) max_metrics_per_server)) [
        | inr full ↦ rw full (sym (append_nil (points_or_nil (get metric m))))
        | inl room ↦ rw room (ap points_or_nil (get-put_self metric _ m))
      ]

  get-add_sample_other :
      (ts : ℕ) (k metric : String) (v : V) (m : Map String (List (Point V)))
      → str_eq k metric ≡ false
      → get metric (add_sample ts k v m) ≡ get metric m
  unfolding add_sample
  get-add_sample_other ts k metric v m h =
      elim (Bool-cases (is_known (get k m) || ltb (length m) max_metrics_per_server)) [
        | inr full ↦ rw full refl
        | inl room ↦ rw room (get-put_other k metric _ m h)
      ]

  -- The place that a sample takes is the one that the new metrics behind it do not have.
  room_after :
      (ts : ℕ) (k metric : String) (v : V) (m : Map String (List (Point V))) (rest : Map String V)
      → IsAbsent k rest
      → ltb
          (length (add_sample ts k v m) + new_before (add_sample ts k v m) metric rest)
          max_metrics_per_server
        ≡ ltb
            (length m
              + (if is_known (get k m)
                  then new_before m metric rest
                  else suc (new_before m metric rest)))
            max_metrics_per_server
  unfolding add_sample
  room_after ts k metric v m rest absent = elim (Option-cases (get k m)) [
    | inr (ps, held) ↦
        rw
          (
            held,
            length-put_known k (ps ++ record { ts = ts; value = v } ∷ []) ps m held,
            new_before-put k metric (ps ++ record { ts = ts; value = v } ∷ []) m rest absent,
          )
          refl
    | inl new ↦ elim (Bool-cases (ltb (length m) max_metrics_per_server)) [
      | inl room ↦
          rw
            (
              new,
              room,
              length-put_new k (record { ts = ts; value = v } ∷ []) m new,
              new_before-put k metric (record { ts = ts; value = v } ∷ []) m rest absent,
            )
            (ground arith)
      | inr full ↦ rw (new, full) (ground arith)
    ]
  ]

  -- The loop of `Add` leaves of a metric what was held and what should be recorded.
  pub add_samples-points :
      (ts : ℕ) (metric : String) (samples : Map String V) (m : Map String (List (Point V)))
      → HasDistinctKeys samples
      → points_or_nil (get metric (add_samples ts samples m))
        ≡ points_or_nil (get metric m)
          ++ recorded_if (has_room m metric samples) ts (get metric samples)
  unfolding add_samples get
  add_samples-points ts metric [] m d = sym (append_nil (points_or_nil (get metric m)))
  add_samples-points ts metric ((k, v) ∷ rest) m d =
      let later = add_samples-points ts metric rest (add_sample ts k v m) d.1 in
      elim (Bool-cases (str_eq k metric)) [
        | inl here ↦
            let key : k ≡ metric = (str_eq_iff k metric).0 here in
            let gone : get metric rest ≡ none = get-absent metric rest (rw key at d.0) in
            let none_before : length m + 0 ≡ length m = omega arith in
            rw (here, none_before)
              ((rw gone at later)
                ∙ append_nil (points_or_nil (get metric (add_sample ts k v m)))
                ∙ ap (λ j. points_or_nil (get metric (add_sample ts j v m))) key
                ∙ get-add_sample ts metric v m)
        | inr other ↦
            let kept = get-add_sample_other ts k metric v m other in
            let room = room_after ts k metric v m rest d.0 in
            rw other (later ∙ rw (kept, room) refl)
      ]
