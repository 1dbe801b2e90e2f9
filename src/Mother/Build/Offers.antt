-- ===== src/Mother/Build/Offers.antt =====
-- mother/build/store.go: which versions the catalogue offers, for which platforms.
use mathlib.Core.Path.{subst}
use mathlib.Core.Logic.{∥∥₁_elim}
use mathlib.Core.Bool.{Bool-set}
use mathlib.Core.List.{Perm, Permᴰ}
use feast_watch.Prelude.{
  ◌≡◌, ◌↔◌, refl, sym, ap, ◌∙◌, String, Bool, true, false, Option, none, some, List, [], ◌∷◌, any,
  str_eq, if◌then◌else◌, Bool-cases, str_eq_iff, inl, inr,
}
use feast_watch.Prelude.Map.{string_eq, get, get-absent, HasDistinctKeys}
use feast_watch.Shared.Release.{Kind, agent_kind, mother_kind}
use feast_watch.Mother.Release.{Build, Snapshot, refresh}
use feast_watch.Mother.Build.{Entry, plain, folder, locked, Catalogue}
use feast_watch.Mother.Build.Compile.{Files}
use feast_watch.Mother.Build.Platforms.{Publishes, platforms_in-Publishes, Publishes-platforms_in}
use feast_watch.Mother.Build.Catalogue.{
  Sorts, sort_descending, is_newer, platforms_in, platforms_of, is_hidden, with_build, builds_of,
  listed, fetch,
}

-- What Go's sort package documents: the result is the slice in another order.
pub record Reorders (sorts : Sorts) : Type 0 where
  pub strings : (xs : List String) → Perm (sorts.sort_strings xs) xs
  pub builds : (xs : List Build) → Perm (sorts.sort_slice is_newer xs) xs

module _ {ℓ} {A : Type ℓ} (p : A → Bool) where
  any_swap : (a b : A) (l : List A) → any p (a ∷ b ∷ l) ≡ any p (b ∷ a ∷ l)
  any_swap a b l = swapped (p a) (p b) (any p l)
    where
      swapped :
          (x y z : Bool)
          → (if x then true else (if y then true else z))
            ≡ (if y then true else (if x then true else z))
      swapped true true z = refl
      swapped true false z = refl
      swapped false true z = refl
      swapped false false z = refl

  any-Permᴰ : {xs ys : List A} → Permᴰ xs ys → any p xs ≡ any p ys
  any-Permᴰ Permᴰ.nil = refl
  any-Permᴰ (Permᴰ.cons e d) = λ i. if p (e i) then true else any-Permᴰ d i
  any-Permᴰ (Permᴰ.swap {a} {b} {l} e₁ e₂) = any_swap a b l ∙ λ i. any p (e₂ i ∷ e₁ i ∷ l)
  any-Permᴰ (Permᴰ.trans d₁ d₂) = any-Permᴰ d₁ ∙ any-Permᴰ d₂

  any-Perm : {xs ys : List A} → Perm xs ys → any p xs ≡ any p ys
  any-Perm {xs} {ys} h = ∥∥₁_elim h (Bool-set (any p xs) (any p ys)) any-Permᴰ

-- The build is of this version and has this platform.
abbrev pub is_build_of : (version platform : String) → Build → Bool
is_build_of version platform b =
    if str_eq b.version version then any (λ q. str_eq q platform) b.platforms else false

abbrev pub offers : (version platform : String) → List Build → Bool
offers version platform = any (is_build_of version platform)

-- The builds of a family in an index.
abbrev pub index_of : Kind → Snapshot → List Build
index_of agent_kind s = s.builds
index_of mother_kind s = s.mother

with_build-offers :
    (version platform name : String) (ps : List String) (rest : List Build)
    → offers version platform (with_build name ps rest) ≡ (
        if (if str_eq name version then any (λ q. str_eq q platform) ps else false)
        then true
        else offers version platform rest)
with_build-offers version platform name [] rest = elim (Bool-cases (str_eq name version)) [
  | inl same ↦ rw same refl
  | inr other ↦ rw other refl
]
with_build-offers version platform name (p ∷ ps) rest = refl

-- What an entry of the version itself offers.
abbrev offered_by : Kind → (version platform : String) → Option Entry → Bool
offered_by kind version platform none = false
offered_by kind version platform (some plain) = false
offered_by kind version platform (some (locked files)) = false
offered_by kind version platform (some (folder files)) =
    if is_hidden version
    then false
    else any (λ q. str_eq q platform) (platforms_in kind files files)

if_itself : (b : Bool) → (if b then true else false) ≡ b
if_itself true = refl
if_itself false = refl

module _ (sorts : Sorts) (reorders : Reorders sorts) (kind : Kind) (version platform : String) where
  platforms_of-any :
      (files : Files)
      → any (λ q. str_eq q platform) (platforms_of sorts kind (some files))
        ≡ any (λ q. str_eq q platform) (platforms_in kind files files)
  unfolding platforms_of
  platforms_of-any files =
      any-Perm (λ q. str_eq q platform) (reorders.strings (platforms_in kind files files))

  unlisted :
      (name : String) (c : Catalogue)
      → offers version platform (builds_of sorts kind c) ≡ (
          if (if str_eq name version then false else false)
          then true
          else offers version platform (builds_of sorts kind c))
  unlisted name c = elim (Bool-cases (str_eq name version)) [
    | inl same ↦ rw same refl
    | inr other ↦ rw other refl
  ]

  -- What the index offers of one entry and the others behind it.
  front :
      (name : String) (e : Entry) (c : Catalogue)
      → offers version platform (builds_of sorts kind ((name, e) ∷ c)) ≡ (
          if (if str_eq name version then offered_by kind name platform (some e) else false)
          then true
          else offers version platform (builds_of sorts kind c))
  unfolding builds_of
  front name plain c = elim (Bool-cases (str_eq name version)) [
    | inl same ↦ rw same refl
    | inr other ↦ rw other refl
  ]
  front name (locked files) c = elim (Bool-cases (is_hidden name)) [
    | inl hidden ↦ rw hidden (unlisted name c)
    | inr seen ↦ rw seen (unlisted name c)
  ]
  front name (folder files) c = elim (Bool-cases (is_hidden name)) [
    | inl hidden ↦ elim (Bool-cases (str_eq name version)) [
      | inl same ↦ rw (hidden, same) refl
      | inr other ↦ rw (hidden, other) refl
    ]
    | inr seen ↦ rw seen (
        with_build-offers version platform name (platforms_of sorts kind (some files))
          (builds_of sorts kind c)
        ∙ ap
            (λ b.
              if (if str_eq name version then b else false)
              then true
              else offers version platform (builds_of sorts kind c))
            (platforms_of-any files))
  ]

  builds_of-offers :
      (c : Catalogue)
      → HasDistinctKeys c
      → offers version platform (builds_of sorts kind c)
        ≡ offered_by kind version platform (get version c)
  unfolding builds_of get
  builds_of-offers [] h = refl
  builds_of-offers ((name, e) ∷ c) h = front name e c ∙ elim (Bool-cases (str_eq name version)) [
    | inr other ↦ rw other (builds_of-offers c h.1)
    | inl same ↦
        let here : name ≡ version = (str_eq_iff name version).0 same in
        let absent : get version c ≡ none = ap (λ n. get n c) (sym here) ∙ get-absent name c h.0 in
        let rest : offers version platform (builds_of sorts kind c) ≡ false =
          builds_of-offers c h.1 ∙ ap (offered_by kind version platform) absent in
        rw (same, rest)
          (if_itself (offered_by kind name platform (some e))
            ∙ ap (λ n. offered_by kind n platform (some e)) here)
  ]

-- A directory that can be listed and is not hidden, with the binary and its checksum.
abbrev pub IsOffered : Kind → (version platform : String) → Option Entry → Type 0
IsOffered kind version platform none = ⊥
IsOffered kind version platform (some plain) = ⊥
IsOffered kind version platform (some (locked files)) = ⊥
IsOffered kind version platform (some (folder files)) =
    (is_hidden version ≡ false) × Publishes kind platform files files

offered_by_iff :
    (kind : Kind) (version platform : String) (e : Option Entry)
    → (offered_by kind version platform e ≡ true) ↔ IsOffered kind version platform e
offered_by_iff kind version platform none = (λ h. cc h, λ h. absurd h)
offered_by_iff kind version platform (some plain) = (λ h. cc h, λ h. absurd h)
offered_by_iff kind version platform (some (locked files)) = (λ h. cc h, λ h. absurd h)
offered_by_iff kind version platform (some (folder files)) = elim (Bool-cases (is_hidden version)) [
  | inl hidden ↦ rw hidden (λ h. cc h, λ h. cc (h.0))
  | inr seen ↦ rw seen (
    λ h. (refl, platforms_in-Publishes kind platform files files h),
    λ h. Publishes-platforms_in kind platform files files h.1,
  )
]

-- Where Go's sorts reorder, and a directory has no name twice: once the index has been refreshed from
-- the catalogue, it has a build of this version for this platform exactly when the catalogue has a
-- directory of that name, which can be listed and does not begin with a dot, with the binary of this family and platform
-- in it and the checksum beside it.
pub index_offers_iff :
    (sorts : Sorts)
    → Reorders sorts
    → (kind : Kind) (version platform : String) (s : Snapshot) (c : Catalogue) → HasDistinctKeys c
    → (offers version platform (index_of kind (refresh s (fetch sorts (listed c)))) ≡ true)
      ↔ IsOffered kind version platform (get version c)
unfolding fetch sort_descending refresh
index_offers_iff sorts reorders kind version platform s c h =
    subst (λ b. (b ≡ true) ↔ IsOffered kind version platform (get version c)) (sym (found kind))
      (offered_by_iff kind version platform (get version c))
  where
    found :
        (k : Kind)
        → offers version platform (index_of k (refresh s (fetch sorts (listed c))))
          ≡ offered_by k version platform (get version c)
    found agent_kind =
        any-Perm (is_build_of version platform) (reorders.builds (builds_of sorts agent_kind c))
        ∙ builds_of-offers sorts reorders agent_kind version platform c h
    found mother_kind =
        any-Perm (is_build_of version platform) (reorders.builds (builds_of sorts mother_kind c))
        ∙ builds_of-offers sorts reorders mother_kind version platform c h
