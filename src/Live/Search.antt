-- ===== src/Live/Search.antt =====
-- sort.Search of Go's library, which `SeriesSince` of mother/live/live.go uses to find a suffix.
use feast_watch.Prelude.{
  ℕ, zero, suc, ◌+◌, ◌/◌, ◌≤◌, ◌<◌, ◌≡◌, refl, Bool, true, false, Option, none, some, List, [], ◌∷◌,
  inl, inr, arith, ltb, ltb→lt, if◌then◌else◌, length, get_elem?, drop, keep_if, All, Bool-cases,
}

module _ {A : Type 0} where
  abbrev pub test_at : (A → Bool) → Option A → Bool
  test_at f none = false
  test_at f (some a) = f a

  -- `for i < j { h := (i+j)/2; if !f(h) { i = h + 1 } else { j = h } }`, with fuel for the rounds.
  pub search_from : ℕ → (A → Bool) → List A → ℕ → ℕ → ℕ
  search_from zero f xs i j = i
  search_from (suc fuel) f xs i j =
      let h = (i + j) / 2 in
      let right = search_from fuel f xs (h + 1) j in
      let left = search_from fuel f xs i h in
      if ltb i j then (if test_at f (get_elem? xs h) then left else right) else i

  unfoldable pub search : (A → Bool) → List A → ℕ
  unfolding search_from
  search f xs = search_from (length xs) f xs 0 (length xs)

  -- Once the test passes, it passes for all that follow.
  abbrev pub IsUpward : (A → Bool) → List A → Type 0
  IsUpward f [] = Unit
  IsUpward f (x ∷ xs) = (f x ≡ true → All (λ y. f y ≡ true) xs) × IsUpward f xs

module _ {A : Type 0} (f : A → Bool) where
  abbrev IsLow : List A → ℕ → Type 0
  IsLow xs r = (k : ℕ) → k < r → test_at f (get_elem? xs k) ≡ false

  abbrev IsHigh : List A → ℕ → Type 0
  IsHigh xs r = (k : ℕ) → r ≤ k → k < length xs → test_at f (get_elem? xs k) ≡ true

  All-get_elem? :
      (xs : List A) (k : ℕ)
      → All (λ y. f y ≡ true) xs
      → k < length xs
      → test_at f (get_elem? xs k) ≡ true
  All-get_elem? [] k h lt = absurd (omega arith)
  All-get_elem? (x ∷ xs) zero h lt = h.0
  All-get_elem? (x ∷ xs) (suc k) h lt = All-get_elem? xs k h.1 (omega arith)

  upward_later :
      (xs : List A) (i j : ℕ)
      → IsUpward f xs
      → i ≤ j
      → j < length xs
      → test_at f (get_elem? xs i) ≡ true
      → test_at f (get_elem? xs j) ≡ true
  upward_later [] i j u le lt t = absurd (omega arith)
  upward_later (x ∷ xs) zero zero u le lt t = t
  upward_later (x ∷ xs) zero (suc j) u le lt t = All-get_elem? xs j (u.0 t) (omega arith)
  upward_later (x ∷ xs) (suc i) zero u le lt t = absurd (omega arith)
  upward_later (x ∷ xs) (suc i) (suc j) u le lt t =
      upward_later xs i j u.1 (omega arith) (omega arith) t

  upward_earlier :
      (xs : List A) (i j : ℕ)
      → IsUpward f xs
      → i ≤ j
      → j < length xs
      → test_at f (get_elem? xs j) ≡ false
      → test_at f (get_elem? xs i) ≡ false
  upward_earlier xs i j u le lt t = elim (Bool-cases (test_at f (get_elem? xs i))) [
    | inl pass ↦ cc (upward_later xs i j u le lt pass)
    | inr fail ↦ fail
  ]

  -- With fuel for the distance, the result splits the list.
  search_from_splits :
      (fuel : ℕ) (xs : List A) (i j : ℕ)
      → IsUpward f xs
      → i ≤ j
      → j ≤ length xs
      → j ≤ i + fuel
      → IsLow xs i
      → IsHigh xs j
      → IsLow xs (search_from fuel f xs i j) × IsHigh xs (search_from fuel f xs i j)
  unfolding search_from
  search_from_splits zero xs i j u le top enough low high = (low, λ k p q. high k (omega arith) q)
  search_from_splits (suc fuel) xs i j u le top enough low high = elim (Bool-cases (ltb i j)) [
    | inr over ↦ rw over (low, λ k p q. high k (ground arith) q)
    | inl more ↦
        let lt : i < j = ltb→lt i j more in
        elim (Bool-cases (test_at f (get_elem? xs ((i + j) / 2)))) [
          | inl pass ↦
              rw (more, pass)
                (search_from_splits fuel xs i ((i + j) / 2) u (omega arith) (omega arith)
                  (omega arith) low (λ k p q. upward_later xs ((i + j) / 2) k u p q pass))
          | inr fail ↦
              rw (more, fail)
                (search_from_splits fuel xs ((i + j) / 2 + 1) j u (omega arith) (omega arith)
                  (omega arith)
                  (λ k p. upward_earlier xs k ((i + j) / 2) u (omega arith) (omega arith) fail)
                  high)
        ]
  ]

  keep_if_all : (xs : List A) → IsHigh xs 0 → keep_if f xs ≡ xs
  keep_if_all [] h = refl
  keep_if_all (x ∷ xs) h = rw (
    h 0 (omega arith) (omega arith),
    keep_if_all xs (λ k p q. h (suc k) (omega arith) (omega arith)),
  )

  drop_split : (xs : List A) (r : ℕ) → IsLow xs r → IsHigh xs r → drop r xs ≡ keep_if f xs
  drop_split [] zero low high = refl
  drop_split [] (suc r) low high = refl
  drop_split (x ∷ xs) zero low high = sym_keep (keep_if_all (x ∷ xs) high)
    where
      sym_keep : keep_if f (x ∷ xs) ≡ x ∷ xs → x ∷ xs ≡ keep_if f (x ∷ xs)
      sym_keep e = cc
  drop_split (x ∷ xs) (suc r) low high = rw (low 0 (omega arith)) (
      drop_split xs r (λ k p. low (suc k) (omega arith))
        (λ k p q. high (suc k) (omega arith) (omega arith)))

  -- On a list where the test goes from failing to passing once, the suffix that the binary search
  -- finds is what a filter keeps.
  pub drop-search : (xs : List A) → IsUpward f xs → drop (search f xs) xs ≡ keep_if f xs
  unfolding search
  drop-search xs u =
      let split =
        search_from_splits (length xs) xs 0 (length xs) u (omega arith) (omega arith) (omega arith)
          (λ k p. absurd (omega arith)) (λ k p q. absurd (omega arith)) in
      drop_split xs (search_from (length xs) f xs 0 (length xs)) split.0 split.1
