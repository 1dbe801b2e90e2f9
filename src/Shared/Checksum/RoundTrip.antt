-- ===== src/Shared/Checksum/RoundTrip.antt =====
-- shared/release/release.go with mother/build/build.go: a digest that was written is read back.
use mathlib.Core.Path.{subst}
use feast_watch.Prelude.{
  ==_iff, ℕ, ◌*◌, ◌/◌, ◌%◌, ◌<◌, ◌≡◌, ◌≢◌, refl, sym, ap, ◌∙◌, true, false, some, [], ◌∷◌, ◌++◌,
  map, ◌==◌, not, length, any, All, arith, Bool-cases, inl, inr, some_inj,
}
use feast_watch.Shared.Checksum.{
  Bytes, sha256_hex_len, is_blank, is_hex, to_lower, field, first_field, judge_checksum,
  parse_checksum, hex_digit, hex_encode, space_width, checksum_file,
}

abbrev pub IsHex : ℕ → Type 0
IsHex c = is_hex c ≡ true

-- What sha256 gives: 32 bytes.
pub record IsDigest (digest : Bytes) : Type 0 where
  pub bytes : All (λ b. b < 256) digest
  pub size : length digest ≡ 32

-- Nothing, or a space, stands behind the first field.
abbrev pub IsBreak : Bytes → Type 0
IsBreak [] = Unit
IsBreak (c ∷ cs) = (space_width (c ∷ cs) == 0) ≡ false

hex_digit-IsHex : (n : ℕ) → n < 16 → IsHex (hex_digit n)
hex_digit-IsHex n h = ground arith

hex_encode-IsHex : (bs : Bytes) → All (λ b. b < 256) bs → All IsHex (hex_encode bs)
unfolding hex_encode
hex_encode-IsHex [] h = tt
hex_encode-IsHex (b ∷ bs) h = (
  hex_digit-IsHex (b / 16) (omega (arith, h.0)),
  (hex_digit-IsHex (b % 16) (omega arith), hex_encode-IsHex bs h.1),
)

pub length-hex_encode : (bs : Bytes) → length (hex_encode bs) ≡ 2 * length bs
unfolding hex_encode
length-hex_encode [] = omega arith
length-hex_encode (b ∷ bs) = omega (arith, length-hex_encode bs)

space_width-IsHex : (c : ℕ) (cs : Bytes) → IsHex c → space_width (c ∷ cs) ≡ 0
unfolding space_width
space_width-IsHex c cs h =
    let ink : is_blank c ≡ false = ground (arith, h) in
    let plain : (c == 0xc2) ≡ false = ground (arith, h) in
    let one : (c == 0xe1) ≡ false = ground (arith, h) in
    let two : (c == 0xe2) ≡ false = ground (arith, h) in
    let three : (c == 0xe3) ≡ false = ground (arith, h) in rw (ink, plain, one, two, three) refl

field-IsHex : (cs rest : Bytes) → All IsHex cs → IsBreak rest → field (cs ++ rest) ≡ cs
unfolding field
field-IsHex [] [] h b = refl
field-IsHex [] (c ∷ rest) h b = rw b refl
field-IsHex (c ∷ cs) rest h b =
    rw (space_width-IsHex c (cs ++ rest) h.0) (ap (◌∷◌ c) (field-IsHex cs rest h.1 b))

first_field-IsHex :
    (cs rest : Bytes) → cs ≢ [] → All IsHex cs → IsBreak rest → first_field (cs ++ rest) ≡ cs
unfolding first_field
first_field-IsHex [] rest ne h b = absurd (ne refl)
first_field-IsHex (c ∷ cs) rest ne h b =
    rw (space_width-IsHex c (cs ++ rest) h.0) (ap (◌∷◌ c) (field-IsHex cs rest h.1 b))

map-to_lower-IsHex : (cs : Bytes) → All IsHex cs → map to_lower cs ≡ cs
map-to_lower-IsHex [] h = refl
map-to_lower-IsHex (c ∷ cs) h =
    let low : to_lower c ≡ c = ground (arith, h.0) in λ i. low i ∷ map-to_lower-IsHex cs h.1 i

any-IsHex : (cs : Bytes) → All IsHex cs → any (λ c. not (is_hex c)) cs ≡ false
any-IsHex [] h = refl
any-IsHex (c ∷ cs) h = rw h.0 (any-IsHex cs h.1)

judge-IsHex :
    (sum : Bytes) → All IsHex sum → length sum ≡ sha256_hex_len → judge_checksum sum ≡ some sum
unfolding judge_checksum
judge-IsHex sum h size = rw ((==_iff _ _).1 size, any-IsHex sum h) refl

parse-IsHex :
    (sum rest : Bytes)
    → All IsHex sum
    → length sum ≡ sha256_hex_len
    → IsBreak rest
    → parse_checksum (sum ++ rest) ≡ some sum
unfolding parse_checksum
parse-IsHex sum rest h size b =
    let ne : sum ≢ [] = λ e. absurd (omega (arith, sym size ∙ ap length e)) in
    let read = first_field-IsHex sum rest ne h b in
    rw (read, map-to_lower-IsHex sum h) (judge-IsHex sum h size)

-- The hexadecimal form of a digest is read where nothing or a space stands behind it.
pub parse_checksum-hex :
    (digest rest : Bytes)
    → IsDigest digest
    → IsBreak rest
    → parse_checksum (hex_encode digest ++ rest) ≡ some (hex_encode digest)
parse_checksum-hex digest rest h b =
    parse-IsHex (hex_encode digest) rest (hex_encode-IsHex digest h.bytes)
      (length-hex_encode digest ∙ omega (arith, h.size)) b

pub newline-IsBreak : (rest : Bytes) → IsBreak (b'\n' ∷ rest)
unfolding space_width
newline-IsBreak rest = refl

append_assoc : (xs ys zs : Bytes) → (xs ++ ys) ++ zs ≡ xs ++ (ys ++ zs)
append_assoc [] ys zs = refl
append_assoc (x ∷ xs) ys zs = ap (◌∷◌ x) (append_assoc xs ys zs)

-- Of every digest of 32 bytes, the file that the build writes beside a binary is read back as the
-- hexadecimal form of the digest, whatever stands behind what was written.
pub parse_checksum-checksum_file :
    (digest rest : Bytes)
    → IsDigest digest
    → parse_checksum (checksum_file digest ++ rest) ≡ some (hex_encode digest)
unfolding checksum_file
parse_checksum-checksum_file digest rest h =
    rw (append_assoc (hex_encode digest) (b'\n' ∷ []) rest)
      (parse_checksum-hex digest (b'\n' ∷ rest) h (newline-IsBreak rest))

any-none : (cs : Bytes) → any (λ c. not (is_hex c)) cs ≡ false → All IsHex cs
any-none [] h = tt
any-none (c ∷ cs) h = elim (Bool-cases (is_hex c)) [
  | inl hex ↦ (hex, any-none cs (rw hex at h))
  | inr other ↦ cc (rw other at h)
]

-- Whatever the bytes are, a digest that is read from them is 64 lower-case hexadecimal digits.
pub parse_checksum_sound :
    (raw sum : Bytes)
    → parse_checksum raw ≡ some sum
    → (length sum ≡ sha256_hex_len) × All IsHex sum
unfolding parse_checksum judge_checksum
parse_checksum_sound raw sum h =
    let read = map to_lower (first_field raw) in
    elim (Bool-cases (length read == sha256_hex_len)) [
      | inr short ↦ cc (rw short at h)
      | inl full ↦ elim (Bool-cases (any (λ c. not (is_hex c)) read)) [
        | inl strange ↦ cc (rw (full, strange) at h)
        | inr clean ↦
            let e : read ≡ sum = some_inj read sum (rw (full, clean) at h) in
            subst (λ s. (length s ≡ sha256_hex_len) × All IsHex s) e
              ((==_iff _ _).0 full, any-none read clean)
      ]
    ]
