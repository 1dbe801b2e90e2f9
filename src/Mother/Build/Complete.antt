-- ===== src/Mother/Build/Complete.antt =====
-- mother/build/build.go: what the staging directory holds when every target has been compiled.
use mathlib.Core.Path.{subst}
use feast_watch.Prelude.{
  ◌≡◌, refl, sym, ◌∙◌, String, Bool, true, false, Option, none, some, List, [], ◌∷◌, str_eq,
  if◌then◌else◌, not, every, All, All-every, take, Bool-cases, Option-cases, str_eq_iff, inl, inr,
}
use feast_watch.Prelude.Map.{string_eq, get, put, get-put}
use feast_watch.Prelude.Text.{◌<>◌}
use feast_watch.Shared.Release.{checksum_suffix, asset_name, mother_asset_name}
use feast_watch.Shared.Checksum.{Bytes, checksum_file}
use feast_watch.Mother.Build.Compile.{
  Files, Host, Target, targets, Staged, compiled, write_checksum, compile_from, compile,
  compile_all, and_then,
}

abbrev pub companion : String → String
companion asset = asset <> checksum_suffix

-- Neither file of the target has this name.
abbrev pub is_apart : String → Target → Bool
is_apart name t = if str_eq t.asset name then false else not (str_eq (companion t.asset) name)

-- No two files of the targets have the same name.
abbrev pub are_distinct : List Target → Bool
are_distinct [] = true
are_distinct (t ∷ ts) =
    if str_eq (companion t.asset) t.asset
    then false
    else (if every (is_apart t.asset) ts
        then (if every (is_apart (companion t.asset)) ts then are_distinct ts else false)
        else false)

targets_distinct : are_distinct targets ≡ true
unfolding targets asset_name mother_asset_name
targets_distinct = refl

record Distinct (t : Target) (ts : List Target) : Type 0 where
  own : str_eq (companion t.asset) t.asset ≡ false
  asset_apart : All (λ u. is_apart t.asset u ≡ true) ts
  sum_apart : All (λ u. is_apart (companion t.asset) u ≡ true) ts
  rest : are_distinct ts ≡ true

distinct : (t : Target) (ts : List Target) → are_distinct (t ∷ ts) ≡ true → Distinct t ts
distinct t ts h = elim (Bool-cases (str_eq (companion t.asset) t.asset)) [
  | inl same ↦ cc (rw same at h)
  | inr own ↦ elim (Bool-cases (every (is_apart t.asset) ts)) [
    | inr clash ↦ cc (rw (own, clash) at h)
    | inl a ↦ elim (Bool-cases (every (is_apart (companion t.asset)) ts)) [
      | inr clash ↦ cc (rw (own, a, clash) at h)
      | inl b ↦ record {
        own = own;
        asset_apart = All-every (is_apart t.asset) ts a;
        sum_apart = All-every (is_apart (companion t.asset)) ts b;
        rest = (rw (own, a, b) at h);
      }
    ]
  ]
]

apart :
    (name : String) (t : Target)
    → is_apart name t ≡ true
    → (str_eq t.asset name ≡ false) × (str_eq (companion t.asset) name ≡ false)
apart name t h = elim (Bool-cases (str_eq t.asset name)) [
  | inl same ↦ cc (rw same at h)
  | inr a ↦ elim (Bool-cases (str_eq (companion t.asset) name)) [
    | inl same ↦ cc (rw (a, same) at h)
    | inr b ↦ (a, b)
  ]
]

put_apart :
    (name key : String) (bytes : Bytes) (files : Files)
    → str_eq key name ≡ false
    → get name (put key bytes files) ≡ get name files
put_apart name key bytes files h = get-put key name bytes files ∙ rw h refl

put_own :
    (key : String) (bytes : Bytes) (files : Files) → get key (put key bytes files) ≡ some bytes
put_own key bytes files = get-put key key bytes files ∙ rw ((str_eq_iff key key).1 refl) refl

get-and_then :
    (name : String) (first second : Staged)
    → get name second.files ≡ get name first.files
    → get name (and_then first second).files ≡ get name first.files
get-and_then name first second h = elim (Option-cases first.fault) [
  | inl good ↦ rw good h
  | inr (fault, bad) ↦ rw bad refl
]

-- Without an error in the end there is none on the way.
record Both (first second : Staged) : Type 0 where
  good_first : first.fault ≡ none
  good_second : second.fault ≡ none
  last : (and_then first second).files ≡ second.files

both : (first second : Staged) → (and_then first second).fault ≡ none → Both first second
both first second h = elim (Option-cases first.fault) [
  | inr (fault, bad) ↦ cc (bad, rw bad at h)
  | inl good ↦ record { good_first = good; good_second = (rw good at h); last = rw good refl }
]

module _ (host : Host) (source_dir staging version : String) (toolchain : List String) where
  -- The binary of the target is what the compiler made, and its digest is beside it.
  abbrev pub IsDone : Files → Target → Type 0
  IsDone files t =
      (bytes : Bytes) × (compiled host source_dir staging version toolchain t ≡ some bytes)
      × (get t.asset files ≡ some bytes)
      × (get (companion t.asset) files ≡ some (checksum_file (host.sha256 bytes)))

  write_checksum_apart :
      (asset name : String) (bytes : Bytes) (files : Files)
      → str_eq (companion asset) name ≡ false
      → get name (write_checksum host asset bytes files).files ≡ get name files
  unfolding write_checksum
  write_checksum_apart asset name bytes files h = elim (Bool-cases (host.reads_back asset)) [
    | inr lost ↦ rw lost refl
    | inl back ↦ elim (Option-cases (host.write_ends asset)) [
      | inl whole ↦
          rw (back, whole)
            (put_apart name (companion asset) (checksum_file (host.sha256 bytes)) files h)
      | inr (n, cut) ↦
          rw (back, cut)
            (put_apart name (companion asset) (take n (checksum_file (host.sha256 bytes))) files h)
    ]
  ]

  write_checksum_done :
      (asset : String) (bytes : Bytes) (files : Files)
      → (write_checksum host asset bytes files).fault ≡ none
      → get (companion asset) (write_checksum host asset bytes files).files
        ≡ some (checksum_file (host.sha256 bytes))
  unfolding write_checksum
  write_checksum_done asset bytes files h = elim (Bool-cases (host.reads_back asset)) [
    | inr lost ↦ cc (rw lost at h)
    | inl back ↦ elim (Option-cases (host.write_ends asset)) [
      | inl whole ↦
          rw (back, whole) (put_own (companion asset) (checksum_file (host.sha256 bytes)) files)
      | inr (n, cut) ↦ cc (rw (back, cut) at h)
    ]
  ]

  compile_apart :
      (name : String) (t : Target) (files : Files)
      → is_apart name t ≡ true
      → get name (compile host source_dir staging version toolchain t files).files ≡ get name files
  unfolding compile
  compile_apart name t files h = go (compiled host source_dir staging version toolchain t)
    where
      go : (out : Option Bytes) → get name (compile_from host t files out).files ≡ get name files
      go none = refl
      go (some bytes) =
          write_checksum_apart t.asset name bytes (put t.asset bytes files) (apart name t h).1
          ∙ put_apart name t.asset bytes files (apart name t h).0

  compile-IsDone :
      (t : Target) (files : Files)
      → str_eq (companion t.asset) t.asset ≡ false
      → (compile host source_dir staging version toolchain t files).fault ≡ none
      → IsDone (compile host source_dir staging version toolchain t files).files t
  unfolding compile
  compile-IsDone t files own h =
      elim (Option-cases (compiled host source_dir staging version toolchain t)) [
        | inl failed ↦ cc (rw failed at h)
        | inr (bytes, made) ↦
            let staged = put t.asset bytes files in
            rw made (
              bytes,
              refl,
              write_checksum_apart t.asset t.asset bytes staged own ∙ put_own t.asset bytes files,
              write_checksum_done t.asset bytes staged (rw made at h),
            )
      ]

  -- The loop, for short.
  abbrev pub loop : List Target → Files → Staged
  loop = compile_all host source_dir staging version toolchain

  abbrev pub one : Target → Files → Staged
  one = compile host source_dir staging version toolchain

  loop_apart :
      (name : String) (ts : List Target) (files : Files)
      → All (λ t. is_apart name t ≡ true) ts
      → get name (loop ts files).files ≡ get name files
  unfolding compile_all
  loop_apart name [] files h = refl
  loop_apart name (t ∷ ts) files h =
      get-and_then name (one t files) (loop ts (one t files).files)
        (loop_apart name ts (one t files).files h.1)
      ∙ compile_apart name t files h.0

  -- A loop without an error has left every target done.
  pub loop-IsDone :
      (ts : List Target) (files : Files)
      → are_distinct ts ≡ true
      → (loop ts files).fault ≡ none
      → All (IsDone (loop ts files).files) ts
  unfolding compile_all
  loop-IsDone [] files d h = tt
  loop-IsDone (t ∷ ts) files d h =
      let apart_from = distinct t ts d in
      let next = (one t files).files in
      let good = both (one t files) (loop ts next) h in
      let (bytes, made, there, beside) = compile-IsDone t files apart_from.own good.good_first in
      subst (λ fs. All (IsDone fs) (t ∷ ts)) (sym good.last)
        (
          (
            bytes,
            made,
            loop_apart t.asset ts next apart_from.asset_apart ∙ there,
            loop_apart (companion t.asset) ts next apart_from.sum_apart ∙ beside,
          ),
          loop-IsDone ts next apart_from.rest good.good_second,
        )

  pub targets-IsDone :
      (files : Files)
      → (loop targets files).fault ≡ none
      → All (IsDone (loop targets files).files) targets
  targets-IsDone files h = loop-IsDone targets files targets_distinct h
