-- ===== src/Mother/Release/Order/Prerelease.antt =====
-- mother/release/order.go: a version and the same version with more behind it.
use mathlib.Core.List.{append-nil}
use feast_watch.Prelude.{
  ℕ, zero, suc, ◌≤◌, ◌≡◌, ◌≢◌, refl, sym, ap, ◌∙◌, Bool, true, false, [], ◌∷◌, ◌++◌, ==_iff,
  if◌then◌else◌, length, arith, Bool-cases, inl, inr,
}
use feast_watch.Mother.Release.Order.Laws.{tail_chunks_lt}
use feast_watch.Shared.Checksum.{Bytes, bytes_eq, bytes_eq_iff}
use feast_watch.Mother.Release.Order.{
  is_digit, is_of_run, chunk, behind, digits_value, lex_less, chunk_less, head_chunk, tail_chunks,
  less_on, natural_less,
}

-- A suffix as "-rc1" is: it does not begin with a digit.
abbrev pub IsSuffix : Bytes → Type 0
IsSuffix [] = ⊥
IsSuffix (c ∷ cs) = is_digit c ≡ false

-- In the chunk of the longer version, either the chunk of the shorter one ends inside it and is the
-- same, or it is the whole of it.
data Runs (digits : Bool) (v s : Bytes) : Type 0 where
  inside :
      chunk digits (v ++ s) ≡ chunk digits v
      → behind digits (v ++ s) ≡ behind digits v ++ s
      → Runs digits v s
  through :
      chunk digits v ≡ v
      → behind digits v ≡ []
      → chunk digits (v ++ s) ≡ v ++ chunk digits s
      → behind digits (v ++ s) ≡ behind digits s
      → Runs digits v s

runs : (digits : Bool) (v s : Bytes) → Runs digits v s
unfolding chunk behind
runs digits [] s = through refl refl refl refl
runs digits (c ∷ v) s = elim (Bool-cases (is_of_run digits c)) [
  | inr ends ↦ inside (rw ends refl) (rw ends refl)
  | inl goes ↦ elim (runs digits v s) [
    | inside a b ↦ inside (rw (goes, a) refl) (rw (goes, b) refl)
    | through a b d e ↦
        through (rw (goes, a) refl) (rw (goes, b) refl) (rw (goes, d) refl) (rw (goes, e) refl)
  ]
]

lex_less-append : (v t : Bytes) → t ≢ [] → lex_less v (v ++ t) ≡ true
unfolding lex_less
lex_less-append [] [] h = absurd (h refl)
lex_less-append [] (c ∷ t) h = refl
lex_less-append (c ∷ v) t h = rw ((==_iff c c).1 refl) (lex_less-append v t h)

append-longer : (v t : Bytes) → t ≢ [] → bytes_eq v (v ++ t) ≡ false
append-longer [] [] h = absurd (h refl)
append-longer [] (c ∷ t) h = refl
append-longer (c ∷ v) t h = rw ((==_iff c c).1 refl) (append-longer v t h)

-- The step on versions whose chunks are these.
step : Bytes → Bytes → Bool → Bool
step an bn later = if bytes_eq an bn then later else chunk_less an bn

step_same : (an bn : Bytes) (later : Bool) → bn ≡ an → later ≡ true → step an bn later ≡ true
unfolding step
step_same an bn later e h = rw ((bytes_eq_iff an bn).1 (sym e)) h

step_text :
    (c : ℕ) (v t : Bytes) (later : Bool)
    → is_digit c ≡ false
    → t ≢ []
    → step (c ∷ v) ((c ∷ v) ++ t) later ≡ true
unfolding step digits_value
step_text c v t later h ne = rw (append-longer (c ∷ v) t ne, h) (lex_less-append (c ∷ v) t ne)

nothing_less : (fuel : ℕ) (s : Bytes) → IsSuffix s → less_on fuel [] s ≡ true
unfolding less_on
nothing_less zero [] h = absurd h
nothing_less (suc fuel) [] h = absurd h
nothing_less zero (c ∷ s) h = ground arith
nothing_less (suc fuel) (c ∷ s) h = ground arith

less_on-step :
    (fuel x : ℕ) (xs : Bytes) (y : ℕ) (ys : Bytes)
    → less_on (suc fuel) (x ∷ xs) (y ∷ ys)
      ≡ step
          (head_chunk (x ∷ xs))
          (head_chunk (y ∷ ys))
          (less_on fuel (tail_chunks (x ∷ xs)) (tail_chunks (y ∷ ys)))
unfolding less_on step
less_on-step fuel x xs y ys = refl

-- No chunk of digits begins a suffix, and one of text does.
no_digits : (s : Bytes) → IsSuffix s → (chunk true s ≡ []) × (behind true s ≡ s)
unfolding chunk behind
no_digits [] h = absurd h
no_digits (c ∷ s) h = rw h (refl, refl)

some_text : (s : Bytes) → IsSuffix s → chunk false s ≢ []
unfolding chunk
some_text [] h = absurd h
some_text (c ∷ s) h = rw h (λ e. cc e)

-- One pass over a version and its extension.
Extends : ℕ → ℕ → Bytes → Bytes → Type 0
Extends fuel c v s =
    step (head_chunk (c ∷ v)) (head_chunk (c ∷ (v ++ s)))
      (less_on fuel (tail_chunks (c ∷ v)) (tail_chunks (c ∷ (v ++ s))))
    ≡ true

through-Extends :
    (fuel c : ℕ) (v s : Bytes)
    → IsSuffix s
    → chunk (is_digit c) (c ∷ v) ≡ c ∷ v
    → behind (is_digit c) (c ∷ v) ≡ []
    → chunk (is_digit c) (c ∷ (v ++ s)) ≡ c ∷ (v ++ chunk (is_digit c) s)
    → behind (is_digit c) (c ∷ (v ++ s)) ≡ behind (is_digit c) s
    → Extends fuel c v s
unfolding Extends
through-Extends fuel c v s h a b d f = elim (Bool-cases (is_digit c)) [
  | inl number ↦
      let none_there = no_digits s h in
      let first : head_chunk (c ∷ (v ++ s)) ≡ head_chunk (c ∷ v) =
        d
        ∙ ap (λ t. c ∷ (v ++ t)) (ap (λ k. chunk k s) number ∙ none_there.0)
        ∙ ap (◌∷◌ c) (append-nil v)
        ∙ sym a in
      let rest : tail_chunks (c ∷ (v ++ s)) ≡ s = f ∙ ap (λ k. behind k s) number ∙ none_there.1 in
      step_same (head_chunk (c ∷ v)) (head_chunk (c ∷ (v ++ s))) _ first
        ((λ i. less_on fuel (b i) (rest i)) ∙ nothing_less fuel s h)
  | inr text ↦
      let longer : chunk (is_digit c) s ≢ [] =
        λ e. some_text s h (ap (λ k. chunk k s) (sym text) ∙ e) in
      (λ i. step (a i) (d i) (less_on fuel (tail_chunks (c ∷ v)) (tail_chunks (c ∷ (v ++ s)))))
      ∙ step_text c v (chunk (is_digit c) s) _ text longer
]

less_on-append :
    (fuel : ℕ) (v s : Bytes) → length v ≤ fuel → IsSuffix s → less_on fuel v (v ++ s) ≡ true
unfolding Extends
less_on-append fuel [] s e h = nothing_less fuel s h
less_on-append zero (c ∷ v) s e h = absurd (omega (arith, e))
less_on-append (suc fuel) (c ∷ v) s e h =
    let shorter : length (tail_chunks (c ∷ v)) ≤ fuel = omega (arith, tail_chunks_lt c v, e) in
    let later = less_on-append fuel (tail_chunks (c ∷ v)) s shorter h in
    less_on-step fuel c v c (v ++ s) ∙ elim (runs (is_digit c) (c ∷ v) s) [
      | inside a b ↦
          step_same (head_chunk (c ∷ v)) (head_chunk (c ∷ (v ++ s))) _ a
            (ap (less_on fuel (tail_chunks (c ∷ v))) b ∙ later)
      | through a b d f ↦ through-Extends fuel c v s h a b d f
    ]

-- A version with more behind it that does not begin with a digit, as v1.3.0-rc1 behind v1.3.0,
-- sorts above the version.
pub suffix_sorts_above : (v s : Bytes) → IsSuffix s → natural_less v (v ++ s) ≡ true
unfolding natural_less
suffix_sorts_above v s h = less_on-append (length v) v s (omega arith) h
