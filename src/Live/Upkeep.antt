-- ===== src/Live/Upkeep.antt =====
-- mother/live/live.go: what a removal and a change of the window leave.
use feast_watch.Prelude.{ℕ, String, List, [], ◌∷◌, inl, inr, ◌==◌, Bool-cases}
use feast_watch.Prelude.Map.{Map, nat_eq, string_eq, All-delete}
use feast_watch.Live.{Point, Store, forget, evict, evict_all, set_window}
use feast_watch.Live.Invariant.{ServerIsValid, IsValid, evict-IsValid}

module _ {V : Type 0} where
  -- Forgetting a server keeps the store valid.
  pub forget-IsValid : (hi : ℕ → ℕ) (s : Store V) (id : ℕ) → IsValid hi s → IsValid hi (forget s id)
  unfolding forget
  forget-IsValid hi s id v = record {
    servers = All-delete (ServerIsValid hi) id s.series v.servers;
  }

  evict_all-IsValid :
      (hi : ℕ → ℕ) (s : Store V) (now : ℕ) (ids : Map ℕ (Map String (List (Point V))))
      → IsValid hi s
      → IsValid hi (evict_all s now ids)
  unfolding evict_all
  evict_all-IsValid hi s now [] v = v
  evict_all-IsValid hi s now ((id, m) ∷ rest) v =
      evict_all-IsValid hi (evict s now id) now rest (evict-IsValid hi s now id v)

  -- Changing the window keeps the store valid.
  pub set_window-IsValid :
      (hi : ℕ → ℕ) (s : Store V) (now window : ℕ)
      → IsValid hi s
      → IsValid hi (set_window s now window)
  unfolding set_window
  set_window-IsValid hi s now window v = elim (Bool-cases (window == 0)) [
    | inl ignored ↦ rw ignored v
    | inr changed ↦ rw changed (
        evict_all-IsValid hi (record s { window = window }) now s.series
          (record { servers = v.servers }))
  ]
