-- ===== src/Prelude/Text.antt =====
-- Texts: the functions of Go's strings, strconv and fmt that the code uses.
pub mod Affixes
pub mod Decimal
use Prim.Native.Nat.{ℕ, zero, suc, ◌/◌, ◌%◌}
use Prim.Native.Char.{code}
use Prim.Native.String.{String, ◌++◌ as str_append}
use mathlib.Core.Path.{◌≡◌, refl}
use mathlib.Core.Bool.{Bool, true, ◌&&◌, ◌||◌}
use mathlib.Core.Logic.{◌≢◌}
use mathlib.Core.List.{List, [], ◌∷◌}
use mathlib.Core.Option.{Option, none, some}
use text.Mathlib.TextLemmas.{append-eq-nil_iff}
use feast_watch.Prelude.Tests.{ltb, leb, ◌==◌, str_eq, is_empty, if◌then◌else◌}
use feast_watch.Prelude.Lists.{get_elem?}

-- The pieces of a message, one after the other.
unfoldable pub concat : List String → String
concat [] = ""
concat (s ∷ rest) = str_append s (concat rest)

digit_of : Option String → String
digit_of none = ""
digit_of (some s) = s

digit : ℕ → String
unfolding digit_of
digit n =
    digit_of (get_elem? ("0" ∷ "1" ∷ "2" ∷ "3" ∷ "4" ∷ "5" ∷ "6" ∷ "7" ∷ "8" ∷ "9" ∷ []) (n % 10))

-- The fuel is the number itself: it has no more digits.
itoa_from : ℕ → ℕ → String
unfolding digit
itoa_from zero n = digit n
itoa_from (suc fuel) n =
    let more = itoa_from fuel (n / 10) in if ltb n 10 then digit n else str_append more (digit n)

unfoldable pub itoa : ℕ → String
unfolding itoa_from
itoa n = itoa_from n n

-- A message whose first piece is not empty is not empty.
pub concat-ne-empty : (s : String) (rest : List String) → s ≢ "" → concat (s ∷ rest) ≢ ""
unfolding concat
concat-ne-empty s rest h e = h (append-eq-nil_iff.0 e).0

-- The code points of a text.
abbrev pub codes : String → List ℕ
codes String.[] = []
codes (String.◌∷◌ c s) = code c ∷ codes s

-- unicode.IsSpace
unfoldable pub is_space : ℕ → Bool
is_space c =
    (leb 0x9 c && leb c 0xd)
    || c == 0x20
    || c == 0x85
    || c == 0xa0
    || c == 0x1680
    || (leb 0x2000 c && leb c 0x200a)
    || c == 0x2028
    || c == 0x2029
    || c == 0x202f
    || c == 0x205f
    || c == 0x3000

trim_left : String → String
unfolding is_space
trim_left String.[] = ""
trim_left (String.◌∷◌ c s) =
    let rest = trim_left s in if is_space (code c) then rest else String.◌∷◌ c s

trim_right : String → String
unfolding is_space
trim_right String.[] = ""
trim_right (String.◌∷◌ c s) =
    let rest = trim_right s in if is_empty rest && is_space (code c) then "" else String.◌∷◌ c rest

-- strings.TrimSpace
unfoldable pub trim_space : String → String
unfolding trim_left trim_right
trim_space s = trim_right (trim_left s)

-- strings.CutPrefix: what follows the prefix, if the text begins with it.
unfoldable pub cut_prefix : String → String → Option String
cut_prefix String.[] s = some s
cut_prefix (String.◌∷◌ c p) String.[] = none
cut_prefix (String.◌∷◌ c p) (String.◌∷◌ d s) =
    let rest = cut_prefix p s in if code c == code d then rest else none

trim_space_example : trim_space "\t v1.2 \n" ≡ "v1.2"
unfolding trim_space
trim_space_example = refl

cut_prefix_example : cut_prefix "Bearer " "Bearer tk_1" ≡ some "tk_1"
unfolding cut_prefix
cut_prefix_example = refl

infixr 65 ◌<>◌
abbrev pub ◌<>◌ : String → String → String
◌<>◌ = str_append

-- strings.HasSuffix
unfoldable pub has_suffix : String → String → Bool
has_suffix suffix String.[] = is_empty suffix
has_suffix suffix (String.◌∷◌ c s) =
    let rest = has_suffix suffix s in if str_eq (String.◌∷◌ c s) suffix then true else rest

-- strings.TrimSuffix
unfoldable pub trim_suffix : String → String → String
trim_suffix suffix String.[] = ""
trim_suffix suffix (String.◌∷◌ c s) =
    let rest = trim_suffix suffix s in
    if str_eq (String.◌∷◌ c s) suffix then "" else String.◌∷◌ c rest
