-- ===== src/Shared/Checksum.antt =====
-- shared/release/release.go and mother/build/build.go: the .sha256 file, as it is read and written.
-- The content of a file is a list of bytes. The spaces of strings.Fields are those of
-- unicode.IsSpace, each of which is a fixed sequence of bytes in UTF-8 that begins with a byte no
-- character holds inside. A field with a byte past ASCII is no digest, since strings.ToLower makes
-- no hexadecimal digit of a character past ASCII, so only ASCII is lowered and the three errors are
-- one `none` here.
pub mod RoundTrip
use feast_watch.Prelude.{
  ◌≡◌, ◌↔◌, refl, ==_iff, arith, ℕ, zero, suc, ◌+◌, ◌-◌, ◌/◌, ◌%◌, Bool, true, false, Option, none,
  some, List, [], ◌∷◌, ◌++◌, map, ltb, leb, ◌==◌, if◌then◌else◌, ◌&&◌, ◌||◌, not, length, any,
}

abbrev pub Bytes : Type 0
Bytes = List ℕ

abbrev pub sha256_hex_len : ℕ
sha256_hex_len = 64

abbrev pub bytes_eq : Bytes → Bytes → Bool
bytes_eq [] [] = true
bytes_eq (x ∷ xs) [] = false
bytes_eq [] (y ∷ ys) = false
bytes_eq (x ∷ xs) (y ∷ ys) = if x == y then bytes_eq xs ys else false

pub bytes_eq_iff : (xs ys : Bytes) → (bytes_eq xs ys ≡ true) ↔ (xs ≡ ys)
bytes_eq_iff [] [] = (λ h. refl, λ h. refl)
bytes_eq_iff (x ∷ xs) [] = (λ h. cc h, λ h. cc h)
bytes_eq_iff [] (y ∷ ys) = (λ h. cc h, λ h. cc h)
bytes_eq_iff (x ∷ xs) (y ∷ ys) = ground (arith, ==_iff x y, bytes_eq_iff xs ys)

-- asciiSpace of Go's strings.
abbrev pub is_blank : ℕ → Bool
is_blank c = (leb 0x9 c && leb c 0xd) || c == 0x20

abbrev pub to_lower : ℕ → ℕ
to_lower c = if leb b'A' c && leb c b'Z' then c + 32 else c

-- hex.DecodeString accepts both cases; what it is given here is in lower case.
abbrev pub is_hex : ℕ → Bool
is_hex c = (leb b'0' c && leb c b'9') || (leb b'a' c && leb c b'f')

-- The byte at the head, 0 where there is none, which is the byte of no space.
abbrev pub head_byte : Bytes → ℕ
head_byte [] = 0
head_byte (c ∷ cs) = c

abbrev pub later_bytes : Bytes → Bytes
later_bytes [] = []
later_bytes (c ∷ cs) = cs

-- U+0085 and U+00A0 of unicode.IsSpace, in UTF-8.
abbrev pub is_latin_space : ℕ → ℕ → Bool
is_latin_space c d = c == 0xc2 && (d == 0x85 || d == 0xa0)

-- U+1680, U+2000 to U+200A, U+2028, U+2029, U+202F, U+205F and U+3000.
abbrev pub is_wide_space : ℕ → ℕ → ℕ → Bool
is_wide_space c d e =
    (c == 0xe1 && d == 0x9a && e == 0x80)
    || (c == 0xe2
        && d == 0x80
        && ((leb 0x80 e && leb e 0x8a) || e == 0xa8 || e == 0xa9 || e == 0xaf))
    || (c == 0xe2 && d == 0x81 && e == 0x9f)
    || (c == 0xe3 && d == 0x80 && e == 0x80)

-- The bytes of the space that the content begins with, 0 where it begins with none.
unfoldable pub space_width : Bytes → ℕ
space_width [] = 0
space_width (c ∷ cs) =
    if is_blank c
    then 1
    else if is_latin_space c (head_byte cs)
    then 2
    else if is_wide_space c (head_byte cs) (head_byte (later_bytes cs))
    then 3
    else 0

-- The characters up to the next space.
unfoldable pub field : Bytes → Bytes
unfolding space_width
field [] = []
field (c ∷ cs) = let rest = field cs in if space_width (c ∷ cs) == 0 then c ∷ rest else []

-- The first field behind so many bytes of a space.
unfoldable pub field_behind : ℕ → Bytes → Bytes
unfolding field
field_behind skipped [] = []
field_behind (suc skipped) (c ∷ cs) = field_behind skipped cs
field_behind zero (c ∷ cs) =
    let later = field_behind (space_width (c ∷ cs) - 1) cs in
    if space_width (c ∷ cs) == 0 then field (c ∷ cs) else later

-- `strings.Fields(s)[0]`, empty where there is no field.
unfoldable pub first_field : Bytes → Bytes
unfolding field_behind
first_field cs = field_behind 0 cs

-- The two checks of `ParseChecksum` on the field it has lowered.
unfoldable pub judge_checksum : Bytes → Option Bytes
judge_checksum sum =
    if not (length sum == sha256_hex_len) || any (λ c. not (is_hex c)) sum then none else some sum

unfoldable pub parse_checksum : Bytes → Option Bytes
unfolding first_field judge_checksum
parse_checksum raw = judge_checksum (map to_lower (first_field raw))

abbrev pub hex_digit : ℕ → ℕ
hex_digit n = if ltb n 10 then b'0' + n else b'a' + (n - 10)

-- hex.EncodeToString
unfoldable pub hex_encode : Bytes → Bytes
hex_encode [] = []
hex_encode (b ∷ bs) = hex_digit (b / 16) ∷ hex_digit (b % 16) ∷ hex_encode bs

-- `writeChecksum`: what is written beside a binary with this digest.
unfoldable pub checksum_file : Bytes → Bytes
unfolding hex_encode
checksum_file digest = hex_encode digest ++ b'\n' ∷ []
