-- ===== src/Mother/Release/Order/Laws.antt =====
-- mother/release/order.go: the loop ends, and the order is asymmetric.
use feast_watch.Prelude.{
  ℕ, zero, suc, ◌+◌, ◌≤◌, ◌≡◌, refl, sym, ap, ◌∙◌, Bool, true, false, Option, none, some, [], ◌∷◌,
  if◌then◌else◌, length, arith, Bool-cases, inl, inr,
}
use feast_watch.Shared.Checksum.{Bytes, bytes_eq, bytes_eq_iff}
use feast_watch.Mother.Release.Order.{
  is_digit, is_of_run, behind, atoi, lex_less, by_value, chunk_less, head_chunk, tail_chunks,
  less_on, natural_less, ChunkLoop, first_ended, second_ended, differ, same,
}

behind_le : (digits : Bool) (cs : Bytes) → length (behind digits cs) ≤ length cs
unfolding behind
behind_le digits [] = omega arith
behind_le digits (c ∷ cs) = ground (arith, behind_le digits cs)

is_of_run_own : (c : ℕ) → is_of_run (is_digit c) c ≡ true
is_of_run_own c = elim (Bool-cases (is_digit c)) [ inl d ↦ rw d refl | inr n ↦ rw n refl ]

-- Every pass drops something.
pub tail_chunks_lt : (c : ℕ) (cs : Bytes) → length (tail_chunks (c ∷ cs)) ≤ length cs
unfolding behind
tail_chunks_lt c cs = rw (is_of_run_own c) (behind_le (is_digit c) cs)

same_on : (f g : ℕ) (a b : Bytes) → length a ≤ f → length a ≤ g → less_on f a b ≡ less_on g a b
unfolding less_on
same_on zero zero a b hf hg = refl
same_on zero (suc g) [] b hf hg = refl
same_on (suc f) zero [] b hf hg = refl
same_on (suc f) (suc g) [] b hf hg = refl
same_on zero g (x ∷ xs) b hf hg = absurd (omega (arith, hf))
same_on (suc f) zero (x ∷ xs) b hf hg = absurd (omega (arith, hg))
same_on (suc f) (suc g) (x ∷ xs) [] hf hg = refl
same_on (suc f) (suc g) (x ∷ xs) (y ∷ ys) hf hg =
    let shorter = tail_chunks_lt x xs in
    let later =
      same_on f g (tail_chunks (x ∷ xs)) (tail_chunks (y ∷ ys)) (omega (arith, shorter, hf))
        (omega (arith, shorter, hg)) in
    ap
      (λ r.
        if bytes_eq (head_chunk (x ∷ xs)) (head_chunk (y ∷ ys))
        then r
        else chunk_less (head_chunk (x ∷ xs)) (head_chunk (y ∷ ys)))
      later

-- More fuel than the first version is long changes nothing: the loop ends within its length.
pub less_on_ends : (fuel : ℕ) (a b : Bytes) → length a ≤ fuel → less_on fuel a b ≡ natural_less a b
unfolding natural_less
less_on_ends fuel a b h = same_on fuel (length a) a b h (omega arith)

less_on-ChunkLoop : (fuel : ℕ) (a b : Bytes) → length a ≤ fuel → ChunkLoop a b (less_on fuel a b)
unfolding less_on
less_on-ChunkLoop zero [] b h = first_ended b
less_on-ChunkLoop (suc fuel) [] b h = first_ended b
less_on-ChunkLoop zero (x ∷ xs) b h = absurd (omega (arith, h))
less_on-ChunkLoop (suc fuel) (x ∷ xs) [] h = second_ended x xs
less_on-ChunkLoop (suc fuel) (x ∷ xs) (y ∷ ys) h =
    elim (Bool-cases (bytes_eq (head_chunk (x ∷ xs)) (head_chunk (y ∷ ys)))) [
      | inr other ↦ rw other (differ x xs y ys other)
      | inl equal ↦
          let shorter = tail_chunks_lt x xs in
          let later =
            less_on-ChunkLoop fuel (tail_chunks (x ∷ xs)) (tail_chunks (y ∷ ys))
              (omega (arith, shorter, h)) in
          rw equal (same x xs y ys _ equal later)
    ]

-- From any two versions the loop of the source ends after finitely many passes, and the answer it
-- ends with is the one that the versions are ordered by.
pub natural_less-ChunkLoop : (a b : Bytes) → ChunkLoop a b (natural_less a b)
unfolding natural_less
natural_less-ChunkLoop a b = less_on-ChunkLoop (length a) a b (omega arith)

lex_less_asym : (xs ys : Bytes) → lex_less xs ys ≡ true → lex_less ys xs ≡ false
unfolding lex_less
lex_less_asym xs [] h = cc
lex_less_asym [] (y ∷ ys) h = refl
lex_less_asym (x ∷ xs) (y ∷ ys) h = ground (arith, h, lex_less_asym xs ys)

by_value_asym :
    (i j : Option ℕ) (l m : Bool)
    → (l ≡ true → m ≡ false)
    → by_value i j l ≡ true
    → by_value j i m ≡ false
by_value_asym (some i) (some j) l m k h = ground (arith, h)
by_value_asym (some i) none l m k h = k h
by_value_asym none none l m k h = k h
by_value_asym none (some j) l m k h = k h

step_asym :
    (an bn : Bytes) (r s : Bool)
    → (r ≡ true → s ≡ false)
    → (if bytes_eq an bn then r else chunk_less an bn) ≡ true
    → (if bytes_eq bn an then s else chunk_less bn an) ≡ false
step_asym an bn r s later h = elim (Bool-cases (bytes_eq an bn)) [
  | inl equal ↦
      rw ((bytes_eq_iff bn an).1 (sym ((bytes_eq_iff an bn).0 equal))) (later (rw equal at h))
  | inr other ↦ rw (swapped other) (
      by_value_asym (atoi an) (atoi bn) (lex_less an bn) (lex_less bn an) (lex_less_asym an bn)
        (rw other at h))
]
  where
    swapped : bytes_eq an bn ≡ false → bytes_eq bn an ≡ false
    swapped other = elim (Bool-cases (bytes_eq bn an)) [
      | inl equal ↦ cc (other, (bytes_eq_iff an bn).1 (sym ((bytes_eq_iff bn an).0 equal)))
      | inr e ↦ e
    ]

less_on_asym : (fuel : ℕ) (a b : Bytes) → less_on fuel a b ≡ true → less_on fuel b a ≡ false
unfolding less_on
less_on_asym zero a b h = ground (arith, h)
less_on_asym (suc fuel) [] [] h = refl
less_on_asym (suc fuel) [] (y ∷ ys) h = refl
less_on_asym (suc fuel) (x ∷ xs) [] h = cc
less_on_asym (suc fuel) (x ∷ xs) (y ∷ ys) h =
    step_asym (head_chunk (x ∷ xs)) (head_chunk (y ∷ ys))
      (less_on fuel (tail_chunks (x ∷ xs)) (tail_chunks (y ∷ ys)))
      (less_on fuel (tail_chunks (y ∷ ys)) (tail_chunks (x ∷ xs)))
      (less_on_asym fuel (tail_chunks (x ∷ xs)) (tail_chunks (y ∷ ys))) h

-- Of two versions at most one is below the other: a version that sorts before another is never
-- sorted behind it.
pub natural_less_asym : (a b : Bytes) → natural_less a b ≡ true → natural_less b a ≡ false
natural_less_asym a b h =
    let fuel = length a + length b in
    sym (less_on_ends fuel b a (omega arith))
    ∙ less_on_asym fuel a b (less_on_ends fuel a b (omega arith) ∙ h)
