-- ===== src/Prelude/Text/Affixes.antt =====
-- What strings.CutPrefix and strings.TrimSuffix give back.
use Prim.Native.String.{String}
use Prim.Native.Char.{code}
use mathlib.Core.Path.{◌≡◌, refl, sym, ap, ◌∙◌}
use mathlib.Core.Logic.{◌≢◌, ◌⊎◌, inl, inr}
use mathlib.Core.Bool.{true, false}
use mathlib.Core.Option.{some}
use native.Mathlib.Omega.{arith}
use text.Mathlib.TextEquality.{Char-path}
use text.Mathlib.TextLemmas.{append_cancel_right, cons≢nil, nil-append, cons-append}
use feast_watch.Prelude.Tests.{◌==◌, ==_iff, str_eq, str_eq_iff, Bool-cases, some_inj}
use feast_watch.Prelude.Text.{cut_prefix, has_suffix, trim_suffix, ◌<>◌}

-- A prefix that can be cut stands before the rest.
pub cut_prefix-append : (p s rest : String) → cut_prefix p s ≡ some rest → s ≡ p <> rest
unfolding cut_prefix
cut_prefix-append String.[] s rest h = some_inj s rest h ∙ sym (nil-append rest)
cut_prefix-append (String.◌∷◌ c p) String.[] rest h = cc
cut_prefix-append (String.◌∷◌ c p) (String.◌∷◌ d s) rest h = elim (Bool-cases (code c == code d)) [
  | inl same ↦
      let char : d ≡ c = Char-path d c (ground arith) in
      let tail : s ≡ p <> rest = cut_prefix-append p s rest (rw same at h) in
      (λ i. String.◌∷◌ (char i) (tail i)) ∙ sym (cons-append c p rest)
  | inr other ↦ cc (rw other at h)
]

-- A suffix that was put on is taken off.
pub trim_suffix-append : (suffix s : String) → suffix ≢ "" → trim_suffix suffix (s <> suffix) ≡ s
unfolding trim_suffix
trim_suffix-append String.[] s h = absurd (h refl)
trim_suffix-append (String.◌∷◌ c t) String.[] h =
    rw (nil-append (String.◌∷◌ c t), (str_eq_iff (String.◌∷◌ c t) (String.◌∷◌ c t)).1 refl) refl
trim_suffix-append (String.◌∷◌ c t) (String.◌∷◌ d s) h =
    elim (Bool-cases (str_eq (String.◌∷◌ d s <> String.◌∷◌ c t) (String.◌∷◌ c t))) [
      | inl same ↦ absurd (longer same)
      | inr other ↦
          let behind = cons-append d s (String.◌∷◌ c t) in
          let differs : str_eq (String.◌∷◌ d (s <> String.◌∷◌ c t)) (String.◌∷◌ c t) ≡ false =
            ap (λ x. str_eq x (String.◌∷◌ c t)) (sym behind) ∙ other in
          ap (trim_suffix (String.◌∷◌ c t)) behind
          ∙ rw differs (ap (String.◌∷◌ d) (trim_suffix-append (String.◌∷◌ c t) s h))
    ]
  where
    longer : str_eq (String.◌∷◌ d s <> String.◌∷◌ c t) (String.◌∷◌ c t) ≡ true → ⊥
    longer same = cons≢nil (
        append_cancel_right (String.◌∷◌ d s) "" (String.◌∷◌ c t)
          ((str_eq_iff _ _).0 same ∙ sym (nil-append _)))

-- A suffix is taken off once, or was not there.
pub trim_suffix_cases :
    (suffix s : String) → (trim_suffix suffix s ≡ s) ⊎ (s ≡ trim_suffix suffix s <> suffix)
unfolding trim_suffix
trim_suffix_cases suffix String.[] = inl refl
trim_suffix_cases suffix (String.◌∷◌ c s) = elim (Bool-cases (str_eq (String.◌∷◌ c s) suffix)) [
  | inl same ↦ inr (rw same ((str_eq_iff (String.◌∷◌ c s) suffix).0 same ∙ sym (nil-append suffix)))
  | inr other ↦ elim (trim_suffix_cases suffix s) [
    | inl kept ↦ inl (rw other (ap (String.◌∷◌ c) kept))
    | inr cut ↦
        inr (rw other (ap (String.◌∷◌ c) cut ∙ sym (cons-append c (trim_suffix suffix s) suffix)))
  ]
]

pub trim_suffix_none : (suffix s : String) → has_suffix suffix s ≡ false → trim_suffix suffix s ≡ s
unfolding trim_suffix has_suffix
trim_suffix_none suffix String.[] h = refl
trim_suffix_none suffix (String.◌∷◌ c s) h = elim (Bool-cases (str_eq (String.◌∷◌ c s) suffix)) [
  | inl same ↦ cc (rw same at h)
  | inr other ↦ rw other (ap (String.◌∷◌ c) (trim_suffix_none suffix s (rw other at h)))
]

-- A prefix that was put on is cut off.
pub cut_prefix_own : (p s : String) → cut_prefix p (p <> s) ≡ some s
unfolding cut_prefix
cut_prefix_own String.[] s = ap some (nil-append s)
cut_prefix_own (String.◌∷◌ c p) s =
    ap (cut_prefix (String.◌∷◌ c p)) (cons-append c p s)
    ∙ rw ((==_iff (code c) (code c)).1 refl) (cut_prefix_own p s)
