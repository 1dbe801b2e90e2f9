-- ===== src/Agent/Collectors.antt =====
-- agent/collectors/collector.go: the registry. A collector is what it answers on this tick: its
-- samples, or `none` for an error.
use feast_watch.Prelude.{String, Option, none, some, List, [], ◌∷◌}
use feast_watch.Prelude.Map.{Map, get, put, string_eq}

pub record Sample (V : Type 0) : Type 0 where
  pub key : String
  pub value : V

abbrev pub Collector : Type 0 → Type 0
Collector V = Option (List (Sample V))

pub record Registry (V : Type 0) : Type 0 where
  pub by_name : Map String (Collector V)

module _ {V : Type 0} where
  unfoldable pub register : Registry V → String → Collector V → Registry V
  register r name c = record { by_name = put name c r.by_name }

  -- The inner loop of `CollectEnabled`: a later sample of a key replaces an earlier one.
  unfoldable pub merge_samples : List (Sample V) → Map String V → Map String V
  merge_samples [] out = out
  merge_samples (s ∷ samples) out = merge_samples samples (put s.key s.value out)

  unfoldable pub run_collector : Option (Collector V) → Map String V → Map String V
  unfolding merge_samples
  run_collector none out = out
  run_collector (some none) out = out
  run_collector (some (some samples)) out = merge_samples samples out

  unfoldable pub collect_from : Registry V → List String → Map String V → Map String V
  unfolding run_collector
  collect_from r [] out = out
  collect_from r (name ∷ enabled) out =
      collect_from r enabled (run_collector (get name r.by_name) out)

  unfoldable pub collect_enabled : Registry V → List String → Map String V
  unfolding collect_from
  collect_enabled r enabled = collect_from r enabled []
