-- ===== src/Mother/Store/Rollups/Summary.antt =====
-- mother/store/rollup.go: what a bucket is of the samples that fell into it.
use feast_watch.Prelude.{
  ℕ, ◌+◌, ◌*◌, ◌/◌, ◌≡◌, refl, ap, ◌∙◌, sym, String, Option, none, some, List, [], ◌∷◌, ◌++◌, Bool,
  true, false, inl, inr, if◌then◌else◌, arith, length, Bool-cases,
}
use feast_watch.Prelude.Map.{Map, get, get-put}
use feast_watch.Mother.Store.Tables.{
  RollupKey, Bucket, Rollup, Tables, Arithmetic, ok, err, rollup_key_eq,
}
use feast_watch.Mother.Store.Rollups.{
  minute_width, hour_width, fold_value, upsert, upsert_all, apply_samples,
}

-- One push that was folded in.
pub record Push (V : Type 0) : Type 0 where
  pub server_id : ℕ
  pub ts : ℕ
  pub samples : Map String V

abbrev pub fold_left : {A B : Type 0} → (B → A → B) → B → List A → B
fold_left g b [] = b
fold_left g b (a ∷ rest) = fold_left g (g b a) rest

module _ {V : Type 0} where
  -- The samples of a push that belong to a key, in a tier of this width.
  abbrev pub samples_for : RollupKey → ℕ → ℕ → Map String V → List V
  samples_for key server_id window_start [] = []
  samples_for key server_id window_start ((metric, v) ∷ samples) =
      let rest = samples_for key server_id window_start samples in
      if rollup_key_eq.beq
        (record { server_id = server_id; metric = metric; window_start = window_start }) key
      then v ∷ rest
      else rest

  abbrev pub history_for : RollupKey → ℕ → List (Push V) → List V
  history_for key width [] = []
  history_for key width (p ∷ pushes) =
      samples_for key p.server_id (p.ts / width * width) p.samples ++ history_for key width pushes

  -- The pushes whose transaction was committed.
  abbrev pub committed : List (Bool × Push V) → List (Push V)
  committed [] = []
  committed ((fails, p) ∷ pushes) = let rest = committed pushes in if fails then rest else p ∷ rest

module _ {V : Type 0} (f : Arithmetic V) where
  -- The least, the greatest and the sum of the values, and their number.
  abbrev pub summary : List V → Option (Bucket V)
  summary [] = none
  summary (v ∷ vs) = some (record {
    min = fold_left f.min v vs;
    max = fold_left f.max v vs;
    sum = fold_left f.add v vs;
    cnt = 1 + length vs;
  })

  abbrev fold_values : Option (Bucket V) → List V → Option (Bucket V)
  fold_values b [] = b
  fold_values b (v ∷ vs) = fold_values (some (fold_value f b v)) vs

  fold_values-append :
      (b : Option (Bucket V)) (xs ys : List V)
      → fold_values b (xs ++ ys) ≡ fold_values (fold_values b xs) ys
  fold_values-append b [] ys = refl
  fold_values-append b (x ∷ xs) ys = fold_values-append (some (fold_value f b x)) xs ys

  get-upsert_same :
      (key row : RollupKey) (v : V) (table : Rollup V)
      → rollup_key_eq.beq row key ≡ true
      → get key (upsert f row v table) ≡ some (fold_value f (get key table) v)
  unfolding upsert
  get-upsert_same key row v table same =
      let here : row ≡ key = (rollup_key_eq.beq_iff row key).0 same in
      get-put row key (fold_value f (get row table) v) table
      ∙ rw same (ap (λ k. some (fold_value f (get k table) v)) here)

  get-upsert_other :
      (key row : RollupKey) (v : V) (table : Rollup V)
      → rollup_key_eq.beq row key ≡ false
      → get key (upsert f row v table) ≡ get key table
  unfolding upsert
  get-upsert_other key row v table other =
      get-put row key (fold_value f (get row table) v) table ∙ rw other refl

  get-upsert_all :
      (key : RollupKey) (server_id window_start : ℕ) (samples : Map String V) (table : Rollup V)
      → get key (upsert_all f server_id window_start samples table)
        ≡ fold_values (get key table) (samples_for key server_id window_start samples)
  unfolding upsert_all
  get-upsert_all key id ws [] table = refl
  get-upsert_all key id ws ((metric, v) ∷ samples) table =
      let row : RollupKey = record { server_id = id; metric = metric; window_start = ws } in
      get-upsert_all key id ws samples (upsert f row v table)
      ∙ elim (Bool-cases (rollup_key_eq.beq row key)) [
        | inl same ↦ rw same (
            ap (λ b. fold_values b (samples_for key id ws samples))
              (get-upsert_same key row v table same))
        | inr other ↦ rw other (
            ap (λ b. fold_values b (samples_for key id ws samples))
              (get-upsert_other key row v table other))
      ]

  fold_values-some :
      (b : Bucket V) (vs : List V)
      → fold_values (some b) vs
        ≡ some (record {
          min = fold_left f.min b.min vs;
          max = fold_left f.max b.max vs;
          sum = fold_left f.add b.sum vs;
          cnt = b.cnt + length vs;
        })
  unfolding fold_value
  fold_values-some b [] = ground arith
  fold_values-some b (v ∷ vs) = fold_values-some (fold_value f (some b) v) vs ∙ ground arith

  fold_values-none : (vs : List V) → fold_values none vs ≡ summary vs
  unfolding fold_value
  fold_values-none [] = refl
  fold_values-none (v ∷ vs) = fold_values-some (fold_value f none v) vs

  -- The tables after a push, whose transaction fails or not.
  pub apply_push : Bool → Push V → Tables V → Tables V
  apply_push fails p t = elim (apply_samples f fails p.server_id p.ts p.samples t) [
    | ok t' ↦ t'
    | err e ↦ t
  ]

  pub apply_pushes : List (Bool × Push V) → Tables V → Tables V
  unfolding apply_push
  apply_pushes [] t = t
  apply_pushes ((fails, p) ∷ pushes) t = apply_pushes pushes (apply_push fails p t)

  abbrev push_values : RollupKey → ℕ → Bool → Push V → List V
  push_values key width fails p =
      if fails then [] else samples_for key p.server_id (p.ts / width * width) p.samples

  history-committed :
      (key : RollupKey) (width : ℕ) (fails : Bool) (p : Push V) (pushes : List (Bool × Push V))
      → history_for key width (committed ((fails, p) ∷ pushes))
        ≡ push_values key width fails p ++ history_for key width (committed pushes)
  history-committed key width true p pushes = refl
  history-committed key width false p pushes = refl

  -- A tier after a push.
  record Folded (key : RollupKey) (width : ℕ) (fails : Bool) (p : Push V) (before after : Rollup V)
      : Type 0 where
    lookup : get key after ≡ fold_values (get key before) (push_values key width fails p)

  record BothFolded (key : RollupKey) (fails : Bool) (p : Push V) (before after : Tables V)
      : Type 0 where
    in_1m : Folded key minute_width fails p before.rollup_1m after.rollup_1m
    in_1h : Folded key hour_width fails p before.rollup_1h after.rollup_1h

  BothFolded-samples :
      (key : RollupKey) (fails : Bool) (id ts : ℕ) (samples : Map String V) (t : Tables V)
      → let p : Push V = record { server_id = id; ts = ts; samples = samples } in
        BothFolded key fails p t (apply_push fails p t)
  unfolding apply_push apply_samples
  BothFolded-samples key true id ts [] t = record {
    in_1m = record { lookup = refl };
    in_1h = record { lookup = refl };
  }
  BothFolded-samples key false id ts [] t = record {
    in_1m = record { lookup = refl };
    in_1h = record { lookup = refl };
  }
  BothFolded-samples key true id ts (x ∷ samples) t = record {
    in_1m = record { lookup = refl };
    in_1h = record { lookup = refl };
  }
  BothFolded-samples key false id ts (x ∷ samples) t = record {
    in_1m = record {
      lookup = get-upsert_all key id (ts / minute_width * minute_width) (x ∷ samples) t.rollup_1m;
    };
    in_1h = record {
      lookup = get-upsert_all key id (ts / hour_width * hour_width) (x ∷ samples) t.rollup_1h;
    };
  }

  apply_push-BothFolded :
      (key : RollupKey) (fails : Bool) (p : Push V) (t : Tables V)
      → BothFolded key fails p t (apply_push fails p t)
  apply_push-BothFolded key fails p t = BothFolded-samples key fails p.server_id p.ts p.samples t

  apply_pushes-fold :
      (key : RollupKey) (pushes : List (Bool × Push V)) (t : Tables V)
      → (get key (apply_pushes pushes t).rollup_1m
          ≡ fold_values (get key t.rollup_1m) (history_for key minute_width (committed pushes)))
        × (get key (apply_pushes pushes t).rollup_1h
            ≡ fold_values (get key t.rollup_1h) (history_for key hour_width (committed pushes)))
  unfolding apply_pushes
  apply_pushes-fold key [] t = (refl, refl)
  apply_pushes-fold key ((fails, p) ∷ pushes) t =
      let one = apply_push-BothFolded key fails p t in
      let rest = apply_pushes-fold key pushes (apply_push fails p t) in
      (
        rest.0
            ∙ ap (λ b. fold_values b (history_for key minute_width (committed pushes)))
                one.in_1m.lookup
            ∙ sym (fold_values-append _ (push_values key minute_width fails p) _)
            ∙ ap (fold_values (get key t.rollup_1m))
                (sym (history-committed key minute_width fails p pushes)),
        rest.1
            ∙ ap (λ b. fold_values b (history_for key hour_width (committed pushes)))
                one.in_1h.lookup
            ∙ sym (fold_values-append _ (push_values key hour_width fails p) _)
            ∙ ap (fold_values (get key t.rollup_1h))
                (sym (history-committed key hour_width fails p pushes)),
      )

  -- From tables that hold nothing for a key, after any pushes of any servers, each tier holds for it
  -- the least, the greatest and the sum of the values of that server and metric in the committed
  -- pushes whose time falls into the window, in their order, and how many they were; or nothing if
  -- there were none. A push whose transaction failed counts in neither tier.
  pub rollups_summarise :
      (key : RollupKey) (pushes : List (Bool × Push V)) (t : Tables V)
      → get key t.rollup_1m ≡ none
      → get key t.rollup_1h ≡ none
      → (get key (apply_pushes pushes t).rollup_1m
          ≡ summary (history_for key minute_width (committed pushes)))
        × (get key (apply_pushes pushes t).rollup_1h
            ≡ summary (history_for key hour_width (committed pushes)))
  rollups_summarise key pushes t no_minute no_hour =
      let fold = apply_pushes-fold key pushes t in
      (fold.0 ∙ rw no_minute (fold_values-none _), fold.1 ∙ rw no_hour (fold_values-none _))
