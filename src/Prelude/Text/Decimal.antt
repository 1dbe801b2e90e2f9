-- ===== src/Prelude/Text/Decimal.antt =====
-- strconv.Itoa and strconv.Atoi on the integers of 64 bits.
use Prim.Native.Nat.{ℕ, zero, suc, ◌+◌, ◌-◌, ◌*◌, ◌/◌, ◌%◌, ◌≤◌, ◌<◌}
use Prim.Native.Char.{code}
use Prim.Native.String.{String}
use mathlib.Core.Path.{◌≡◌, refl, ap, ◌∙◌}
use mathlib.Core.Logic.{inl, inr}
use mathlib.Core.Bool.{Bool, true, false, ◌&&◌}
use mathlib.Core.List.{List, [], ◌∷◌, ◌++◌}
use mathlib.Core.Option.{Option, none, some}
use native.Mathlib.Omega.{arith}
use text.Mathlib.TextLemmas.{nil-append, cons-append}
use feast_watch.Prelude.Tests.{ltb, leb, ◌==◌, if◌then◌else◌, Bool-cases}
use feast_watch.Prelude.Lists.{get_elem?}
use feast_watch.Prelude.Int.{ℤ, pos, negsuc}
use feast_watch.Prelude.Text.{digit, digit_of, itoa, itoa_from, codes, ◌<>◌}

abbrev pub itoa_ℤ : ℤ → String
itoa_ℤ (pos n) = itoa n
itoa_ℤ (negsuc n) = "-" <> itoa (suc n)

abbrev pub is_decimal : ℕ → Bool
is_decimal c = leb b'0' c && leb c b'9'

-- The value of digits behind a value.
unfoldable pub value_from : ℕ → List ℕ → Option ℕ
value_from n [] = some n
value_from n (c ∷ cs) =
    let later = value_from (n * 10 + (c - b'0')) cs in if is_decimal c then later else none

abbrev pub at_most : ℕ → Option ℕ → Option ℕ
at_most limit none = none
at_most limit (some n) = if leb n limit then some n else none

-- One digit at least, and within the range.
abbrev pub digits : ℕ → List ℕ → Option ℕ
digits limit [] = none
digits limit (c ∷ cs) = at_most limit (value_from 0 (c ∷ cs))

abbrev pub as_pos : Option ℕ → Option ℤ
as_pos none = none
as_pos (some n) = some (pos n)

abbrev pub as_neg : Option ℕ → Option ℤ
as_neg none = none
as_neg (some zero) = some (pos 0)
as_neg (some (suc n)) = some (negsuc n)

-- An optional sign and digits.
abbrev pub parse_int : List ℕ → Option ℤ
parse_int [] = none
parse_int (c ∷ cs) =
    if c == b'-'
    then as_neg (digits 9223372036854775808 cs)
    else (if c == b'+'
        then as_pos (digits 9223372036854775807 cs)
        else as_pos (digits 9223372036854775807 (c ∷ cs)))

unfoldable pub atoi : String → Option ℤ
unfolding value_from
atoi s = parse_int (codes s)

-- An int of 64 bits.
abbrev pub IsInt64 : ℤ → Type 0
IsInt64 (pos n) = n ≤ 9223372036854775807
IsInt64 (negsuc n) = n ≤ 9223372036854775807

codes-append : (a b : String) → codes (a <> b) ≡ codes a ++ codes b
codes-append String.[] b = ap codes (nil-append b)
codes-append (String.◌∷◌ c a) b =
    ap codes (cons-append c a b) ∙ ap (◌∷◌ (code c)) (codes-append a b)

codes-digit_of :
    (m : ℕ)
    → m < 10
    → codes
        (digit_of (get_elem? ("0" ∷ "1" ∷ "2" ∷ "3" ∷ "4" ∷ "5" ∷ "6" ∷ "7" ∷ "8" ∷ "9" ∷ []) m))
      ≡ (b'0' + m) ∷ []
unfolding digit_of
codes-digit_of zero h = refl
codes-digit_of (suc zero) h = refl
codes-digit_of (suc (suc zero)) h = refl
codes-digit_of (suc (suc (suc zero))) h = refl
codes-digit_of (suc (suc (suc (suc zero)))) h = refl
codes-digit_of (suc (suc (suc (suc (suc zero))))) h = refl
codes-digit_of (suc (suc (suc (suc (suc (suc zero)))))) h = refl
codes-digit_of (suc (suc (suc (suc (suc (suc (suc zero))))))) h = refl
codes-digit_of (suc (suc (suc (suc (suc (suc (suc (suc zero)))))))) h = refl
codes-digit_of (suc (suc (suc (suc (suc (suc (suc (suc (suc zero))))))))) h = refl
codes-digit_of (suc (suc (suc (suc (suc (suc (suc (suc (suc (suc n)))))))))) h =
    absurd (omega (arith, h))

codes-digit : (n : ℕ) → codes (digit n) ≡ (b'0' + n % 10) ∷ []
unfolding digit
codes-digit n = codes-digit_of (n % 10) (omega arith)

value_from-append :
    (n v d : ℕ) (cs : List ℕ)
    → d < 10
    → value_from n cs ≡ some v
    → value_from n (cs ++ (b'0' + d) ∷ []) ≡ some (v * 10 + d)
unfolding value_from
value_from-append n v d [] h e = ground (arith, h, e)
value_from-append n v d (c ∷ cs) h e = elim (Bool-cases (is_decimal c)) [
  | inl good ↦ rw good (value_from-append (n * 10 + (c - b'0')) v d cs h (rw good at e))
  | inr bad ↦ cc (rw bad at e)
]

is_decimal_digit : (d : ℕ) → d < 10 → is_decimal (b'0' + d) ≡ true
is_decimal_digit d h = ground arith

-- A text of digits with this value, which is not empty.
record Spells (n : ℕ) (cs : List ℕ) : Type 0 where
  first : ℕ
  rest : List ℕ
  shape : cs ≡ first ∷ rest
  ink : is_decimal first ≡ true
  value : value_from 0 cs ≡ some n

one_digit : (n : ℕ) → n < 10 → Spells n (codes (digit n))
unfolding value_from
one_digit n h = record {
  first = b'0' + n % 10;
  rest = [];
  shape = codes-digit n;
  ink = is_decimal_digit (n % 10) (omega arith);
  value = ap (value_from 0) (codes-digit n) ∙ ground (arith, h);
}

one_more : (n : ℕ) (a : String) → Spells (n / 10) (codes a) → Spells n (codes (a <> digit n))
one_more n a s = record {
  first = s.first;
  rest = s.rest ++ (b'0' + n % 10) ∷ [];
  shape = all ∙ ap (λ cs. cs ++ (b'0' + n % 10) ∷ []) s.shape;
  ink = s.ink;
  value =
      ap (value_from 0) all
      ∙ value_from-append 0 (n / 10) (n % 10) (codes a) (omega arith) s.value
      ∙ ap some (omega arith);
}
  where
    all : codes (a <> digit n) ≡ codes a ++ (b'0' + n % 10) ∷ []
    all = codes-append a (digit n) ∙ ap (λ cs. codes a ++ cs) (codes-digit n)

itoa_from-Spells : (fuel n : ℕ) → n ≤ fuel → Spells n (codes (itoa_from fuel n))
unfolding itoa_from
itoa_from-Spells zero n h = one_digit n (omega (arith, h))
itoa_from-Spells (suc fuel) n h = elim (Bool-cases (ltb n 10)) [
  | inl small ↦ rw small (one_digit n (ground (arith, small)))
  | inr large ↦ rw large (
      one_more n (itoa_from fuel (n / 10))
        (itoa_from-Spells fuel (n / 10) (ground (arith, large, h))))
]

itoa-Spells : (n : ℕ) → Spells n (codes (itoa n))
unfolding itoa
itoa-Spells n = itoa_from-Spells n n (omega arith)

digits-Spells : (limit n : ℕ) (cs : List ℕ) → Spells n cs → n ≤ limit → digits limit cs ≡ some n
digits-Spells limit n [] s h = cc (s.shape)
digits-Spells limit n (c ∷ cs) s h =
    let fits : leb n limit ≡ true = ground (arith, h) in ap (at_most limit) s.value ∙ rw fits refl

parse_int-Spells :
    (n : ℕ) (cs : List ℕ) → Spells n cs → n ≤ 9223372036854775807 → parse_int cs ≡ some (pos n)
parse_int-Spells n [] s h = cc (s.shape)
parse_int-Spells n (c ∷ cs) s h =
    let same : c ≡ s.first = ground (arith, s.shape) in
    let ink : is_decimal c ≡ true = ap is_decimal same ∙ s.ink in
    let no_minus : (c == b'-') ≡ false = ground (arith, ink) in
    let no_plus : (c == b'+') ≡ false = ground (arith, ink) in
    rw (no_minus, no_plus) (ap as_pos (digits-Spells 9223372036854775807 n (c ∷ cs) s h))

-- Every int of 64 bits is read back from what it is written as.
pub atoi-itoa : (n : ℤ) → IsInt64 n → atoi (itoa_ℤ n) ≡ some n
unfolding atoi
atoi-itoa (pos n) h = parse_int-Spells n (codes (itoa n)) (itoa-Spells n) h
atoi-itoa (negsuc n) h =
    ap parse_int (codes-append "-" (itoa (suc n)))
    ∙ ap as_neg (
        digits-Spells 9223372036854775808 (suc n) (codes (itoa (suc n))) (itoa-Spells (suc n))
          (omega (arith, h)))
