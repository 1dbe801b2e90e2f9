-- ===== src/Mother/Release/Order.antt =====
-- mother/release/order.go: how versions are ordered. A string is the list of its bytes.
pub mod Laws
pub mod Prerelease
use feast_watch.Prelude.{
  ℕ, zero, suc, ◌+◌, ◌-◌, ◌*◌, ◌≡◌, refl, Bool, true, false, Option, none, some, List, [], ◌∷◌, ltb,
  leb, ◌==◌, if◌then◌else◌, ◌&&◌, not, length,
}
use feast_watch.Shared.Checksum.{Bytes, bytes_eq}

abbrev pub is_digit : ℕ → Bool
is_digit c = leb b'0' c && leb c b'9'

abbrev pub is_of_run : Bool → ℕ → Bool
is_of_run digits c = if digits then is_digit c else not (is_digit c)

-- `leadingChunk` with its loop at the first byte of another kind: the chunk, and the rest.
unfoldable pub chunk : Bool → Bytes → Bytes
chunk digits [] = []
chunk digits (c ∷ cs) = let more = chunk digits cs in if is_of_run digits c then c ∷ more else []

unfoldable pub behind : Bool → Bytes → Bytes
behind digits [] = []
behind digits (c ∷ cs) = let more = behind digits cs in if is_of_run digits c then more else c ∷ cs

abbrev pub max_int64 : ℕ
max_int64 = 9223372036854775807

-- strconv.Atoi on a chunk, which has no sign in front of a digit.
unfoldable pub digits_value : ℕ → Bytes → Option ℕ
digits_value n [] = if leb n max_int64 then some n else none
digits_value n (c ∷ cs) =
    let later = digits_value (n * 10 + (c - b'0')) cs in if is_digit c then later else none

abbrev pub atoi : Bytes → Option ℕ
atoi [] = none
atoi (c ∷ cs) = digits_value 0 (c ∷ cs)

-- `<` on strings.
unfoldable pub lex_less : Bytes → Bytes → Bool
lex_less xs [] = false
lex_less [] (y ∷ ys) = true
lex_less (x ∷ xs) (y ∷ ys) = let later = lex_less xs ys in if x == y then later else ltb x y

-- Numbers by their value where both are in range, anything else lexically.
abbrev pub by_value : Option ℕ → Option ℕ → Bool → Bool
by_value (some i) (some j) lexical = ltb i j
by_value (some i) none lexical = lexical
by_value none j lexical = lexical

abbrev pub chunk_less : Bytes → Bytes → Bool
chunk_less an bn = by_value (atoi an) (atoi bn) (lex_less an bn)

-- `an, arest := leadingChunk(a)`
abbrev pub head_chunk : Bytes → Bytes
head_chunk [] = []
head_chunk (c ∷ cs) = chunk (is_digit c) (c ∷ cs)

abbrev pub tail_chunks : Bytes → Bytes
tail_chunks [] = []
tail_chunks (c ∷ cs) = behind (is_digit c) (c ∷ cs)

-- The loop, on fuel: each pass drops a chunk of both.
unfoldable pub less_on : ℕ → Bytes → Bytes → Bool
unfolding chunk behind lex_less digits_value
less_on zero a b = ltb (length a) (length b)
less_on (suc fuel) [] b = ltb 0 (length b)
less_on (suc fuel) (x ∷ xs) [] = false
less_on (suc fuel) (x ∷ xs) (y ∷ ys) =
    let later = less_on fuel (tail_chunks (x ∷ xs)) (tail_chunks (y ∷ ys)) in
    if bytes_eq (head_chunk (x ∷ xs)) (head_chunk (y ∷ ys))
    then later
    else chunk_less (head_chunk (x ∷ xs)) (head_chunk (y ∷ ys))

unfoldable pub natural_less : Bytes → Bytes → Bool
unfolding less_on
natural_less a b = less_on (length a) a b

-- The loop as the source has it, without fuel: a run from two rests to the answer, which takes one
-- pass of the loop per `same` and ends by one of the other three.
pub data ChunkLoop : Bytes → Bytes → Bool → Type 0 where
  first_ended : (b : Bytes) → ChunkLoop [] b (ltb 0 (length b))
  second_ended : (x : ℕ) (xs : Bytes) → ChunkLoop (x ∷ xs) [] false
  differ :
      (x : ℕ) (xs : Bytes) (y : ℕ) (ys : Bytes)
      → bytes_eq (head_chunk (x ∷ xs)) (head_chunk (y ∷ ys)) ≡ false
      → ChunkLoop (x ∷ xs) (y ∷ ys) (chunk_less (head_chunk (x ∷ xs)) (head_chunk (y ∷ ys)))
  same :
      (x : ℕ) (xs : Bytes) (y : ℕ) (ys : Bytes) (r : Bool)
      → bytes_eq (head_chunk (x ∷ xs)) (head_chunk (y ∷ ys)) ≡ true
      → ChunkLoop (tail_chunks (x ∷ xs)) (tail_chunks (y ∷ ys)) r
      → ChunkLoop (x ∷ xs) (y ∷ ys) r

-- "v1.9.0" and "v1.10.0"
natural_less_example :
    natural_less
      (b'v' ∷ b'1' ∷ b'.' ∷ b'9' ∷ b'.' ∷ b'0' ∷ [])
      (b'v' ∷ b'1' ∷ b'.' ∷ b'1' ∷ b'0' ∷ b'.' ∷ b'0' ∷ [])
    ≡ true
unfolding natural_less
natural_less_example = refl
