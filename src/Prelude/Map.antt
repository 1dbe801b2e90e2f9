-- ===== src/Prelude/Map.antt =====
-- Go's maps as association lists. A key type brings its test of equality as an instance.
use feast_watch.Prelude.Tests.{
  ◌==◌ as nat_beq, ==_iff, str_eq, str_eq_iff, if◌then◌else◌, Bool-cases,
}
use feast_watch.Prelude.Lists.{length, All, All-if}
use Prim.Native.Nat.{ℕ, ◌+◌, ◌≤◌}
use Prim.Native.String.{String}
use mathlib.Core.Path.{◌≡◌, refl, subst}
use mathlib.Core.Logic.{◌↔◌, inl, inr}
use mathlib.Core.Bool.{Bool, true, false}
use mathlib.Core.List.{List, [], ◌∷◌}
use mathlib.Core.Option.{Option, none, some}
use native.Mathlib.Omega.{arith}

pub record Eq {ℓ} (A : Type ℓ) : Type ℓ where
  pub beq : A → A → Bool
  pub beq_iff : (a b : A) → (beq a b ≡ true) ↔ (a ≡ b)

instance abbrev pub nat_eq : Eq ℕ
nat_eq = record { beq = nat_beq; beq_iff = ==_iff }

instance abbrev pub string_eq : Eq String
string_eq = record { beq = str_eq; beq_iff = str_eq_iff }

abbrev pub Map {ℓ κ} : Type ℓ → Type κ → Type (ℓ ⊔ κ)
Map K V = List (K × V)

module _ {ℓ κ} {K : Type ℓ} {V : Type κ} ⦃e : Eq K⦄ where
  unfoldable pub get : K → Map K V → Option V
  get k [] = none
  get k ((j, v) ∷ m) = if e.beq j k then some v else get k m

  -- m[k] = v
  unfoldable pub put : K → V → Map K V → Map K V
  put k v [] = (k, v) ∷ []
  put k v ((j, w) ∷ m) = if e.beq j k then (k, v) ∷ m else (j, w) ∷ put k v m

  -- delete(m, k)
  unfoldable pub delete : K → Map K V → Map K V
  delete k [] = []
  delete k ((j, v) ∷ m) = let rest = delete k m in if e.beq j k then rest else (j, v) ∷ rest

  pub get-put :
      (k j : K) (v : V) (m : Map K V) → get j (put k v m) ≡ (if e.beq k j then some v else get j m)
  unfolding get put
  get-put k j v [] = refl
  get-put k j v ((i, w) ∷ m) =
      ground (arith, e.beq_iff k j, e.beq_iff i k, e.beq_iff i j, get-put k j v m)

  pub get-delete :
      (k j : K) (m : Map K V) → get j (delete k m) ≡ (if e.beq k j then none else get j m)
  unfolding get delete
  get-delete k j [] = ground arith
  get-delete k j ((i, w) ∷ m) =
      ground (arith, e.beq_iff k j, e.beq_iff i k, e.beq_iff i j, get-delete k j m)

  pub length-put_le : (k : K) (v : V) (m : Map K V) → length (put k v m) ≤ length m + 1
  unfolding put
  length-put_le k v [] = omega arith
  length-put_le k v ((j, w) ∷ m) = ground (arith, length-put_le k v m)

  -- Writing a key that is there adds none.
  pub length-put_known :
      (k : K) (v w : V) (m : Map K V) → get k m ≡ some w → length (put k v m) ≡ length m
  unfolding get put
  length-put_known k v w [] h = ground arith
  length-put_known k v w ((j, u) ∷ m) h = ground (arith, length-put_known k v w m)

  pub All-put {μ} :
      (P : K × V → Type μ) (k : K) (v : V) (m : Map K V) → P (k, v) → All P m → All P (put k v m)
  unfolding put
  All-put P k v [] p h = (p, h)
  All-put P k v ((j, w) ∷ m) p h =
      All-if P (e.beq j k) ((k, v) ∷ m) ((j, w) ∷ put k v m) (p, h.1) (h.0, All-put P k v m p h.1)

  pub All-delete {μ} : (P : K × V → Type μ) (k : K) (m : Map K V) → All P m → All P (delete k m)
  unfolding delete
  All-delete P k [] h = h
  All-delete P k ((j, w) ∷ m) h =
      let rest = All-delete P k m h.1 in
      All-if P (e.beq j k) (delete k m) ((j, w) ∷ delete k m) rest (h.0, rest)

  pub All-get {μ} :
      (P : K × V → Type μ) (k : K) (v : V) (m : Map K V) → All P m → get k m ≡ some v → P (k, v)
  unfolding get
  All-get P k v [] h g = cc
  All-get P k v ((j, w) ∷ m) h g = elim (Bool-cases (e.beq j k)) [
    | inl same ↦
        let key : j ≡ k = (e.beq_iff j k).0 same in
        let value : w ≡ v = ground arith in subst P (λ i. (key i, value i)) h.0
    | inr other ↦ All-get P k v m h.1 (rw other at g)
  ]

  -- No entry has this key.
  abbrev pub IsAbsent : K → Map K V → Type 0
  IsAbsent k = All (λ x. e.beq x.0 k ≡ false)

  abbrev pub HasDistinctKeys : Map K V → Type 0
  HasDistinctKeys [] = Unit
  HasDistinctKeys ((k, v) ∷ m) = IsAbsent k m × HasDistinctKeys m

  pub get-absent : (k : K) (m : Map K V) → IsAbsent k m → get k m ≡ none
  unfolding get
  get-absent k [] h = refl
  get-absent k ((j, v) ∷ m) h = rw h.0 (get-absent k m h.1)

  pub HasDistinctKeys-put :
      (k : K) (v : V) (m : Map K V) → HasDistinctKeys m → HasDistinctKeys (put k v m)
  unfolding put
  HasDistinctKeys-put k v [] h = (tt, tt)
  HasDistinctKeys-put k v ((j, w) ∷ m) h = elim (Bool-cases (e.beq j k)) [
    | inl same ↦ rw same (subst (λ i. IsAbsent i m) ((e.beq_iff j k).0 same) h.0, h.1)
    | inr other ↦ rw other (
      All-put (λ x. e.beq x.0 j ≡ false) k v m (ground (arith, e.beq_iff j k, e.beq_iff k j)) h.0,
      HasDistinctKeys-put k v m h.1,
    )
  ]

  -- DELETE … WHERE: the entries whose keys pass the test go.
  unfoldable pub delete_where : (K → Bool) → Map K V → Map K V
  delete_where p [] = []
  delete_where p ((j, v) ∷ m) = let rest = delete_where p m in if p j then rest else (j, v) ∷ rest

  pub get-delete_where :
      (p : K → Bool) (k : K) (m : Map K V)
      → get k (delete_where p m) ≡ (if p k then none else get k m)
  unfolding get delete_where
  get-delete_where p k [] = ground arith
  get-delete_where p k ((j, v) ∷ m) = elim (Bool-cases (e.beq j k)) [
    | inl same ↦
        let key : j ≡ k = (e.beq_iff j k).0 same in
        rw key (ground (arith, (e.beq_iff k k).1 refl, get-delete_where p k m))
    | inr other ↦ ground (arith, get-delete_where p k m)
  ]

  pub All-delete_where {μ} :
      (P : K × V → Type μ) (p : K → Bool) (m : Map K V) → All P m → All P (delete_where p m)
  unfolding delete_where
  All-delete_where P p [] h = h
  All-delete_where P p ((j, w) ∷ m) h =
      let rest = All-delete_where P p m h.1 in
      All-if P (p j) (delete_where p m) ((j, w) ∷ delete_where p m) rest (h.0, rest)
