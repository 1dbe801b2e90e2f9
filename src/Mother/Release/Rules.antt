-- ===== src/Mother/Release/Rules.antt =====
-- mother/api/versions.go and mother.go: when a version is accepted as a target.
use mathlib.Core.Path.{subst}
use feast_watch.Prelude.{
  sym, some_inj, ◌≡◌, ◌≢◌, ◌↔◌, inl, inr, refl, String, Bool, true, false, none, some, List, [],
  ◌∷◌, str_eq, is_empty, if◌then◌else◌, ◌||◌, any, find_if, Bool-cases, eq_iff, arith,
}
use feast_watch.Mother.Release.{
  Build, Rejection, latest_alias, check_builds, reject_version, version_level_fault,
  check_mother_builds, reject_mother_version,
}

-- A build of the version is there, and the first one covers the platform or the platform is unknown.
abbrev pub IsOffered : (want ver : String) → List Build → Type 0
IsOffered want ver builds =
    (b : Build) × (find_if (λ x. str_eq x.version ver) builds ≡ some b)
    × ((is_empty want || any (λ p. str_eq p want) b.platforms) ≡ true)

test_passed : (r : Rejection) (t : Bool) → (if t then none else some r) ≡ none → t ≡ true
test_passed r true h = refl
test_passed r false h = cc

test_given : (r : Rejection) (t : Bool) → t ≡ true → (if t then none else some r) ≡ none
test_given r true h = refl
test_given r false h = cc

found_any :
    (ver : String) (builds : List Build) (b : Build)
    → find_if (λ x. str_eq x.version ver) builds ≡ some b
    → any (λ x. str_eq x.version ver) builds ≡ true
found_any ver [] b h = cc
found_any ver (c ∷ builds) b h = ground (arith, found_any ver builds b)

check_builds-none :
    (want ver : String) (builds : List Build)
    → (check_builds want ver builds ≡ none) ↔ IsOffered want ver builds
unfolding check_builds
check_builds-none want ver [] = (λ h. cc, λ h. cc (h.1))
check_builds-none want ver (b ∷ builds) = elim (Bool-cases (str_eq b.version ver)) [
  | inr other ↦ rw other (check_builds-none want ver builds)
  | inl same ↦ rw same (
    λ h. (b, refl, test_passed _ (is_empty want || any (λ p. str_eq p want) b.platforms) h),
    λ (c, first, covered). test_given _ (is_empty want || any (λ p. str_eq p want) b.platforms) (
        subst (λ x. (is_empty want || any (λ p. str_eq p want) x.platforms) ≡ true)
          (sym (some_inj b c first)) covered),
  )
]

-- A version is accepted for a server exactly when it is not the moving alias and the list has a build
-- of it, the first of which is for the server's platform, or the server's platform is not known.
pub reject_version_iff :
    (want ver : String) (builds : List Build)
    → (reject_version want ver builds ≡ none) ↔ ((ver ≢ latest_alias) × IsOffered want ver builds)
unfolding reject_version
reject_version_iff want ver builds = elim (Bool-cases (str_eq ver latest_alias)) [
  | inl alias ↦ rw alias (λ h. cc, λ h. absurd (h.0 ((eq_iff ver latest_alias).0 alias)))
  | inr other ↦ rw other (
    λ h. (λ e. cc ((eq_iff ver latest_alias).1 e), (check_builds-none want ver builds).0 h),
    λ h. (check_builds-none want ver builds).1 h.1,
  )
]

check_builds-known :
    (ver : String) (builds : List Build)
    → (check_builds "" ver builds ≡ none) ↔ (any (λ b. str_eq b.version ver) builds ≡ true)
unfolding check_builds
check_builds-known ver [] = (λ h. cc, λ h. cc)
check_builds-known ver (b ∷ builds) = elim (Bool-cases (str_eq b.version ver)) [
  | inl same ↦ rw same (λ h. refl, λ h. refl)
  | inr other ↦ rw other (check_builds-known ver builds)
]

-- The version itself is not at fault exactly when it is accepted for a server of unknown platform.
pub version_level_fault_iff :
    (ver : String) (builds : List Build)
    → (version_level_fault ver builds ≡ false) ↔ (reject_version "" ver builds ≡ none)
unfolding version_level_fault reject_version
version_level_fault_iff ver builds = elim (Bool-cases (str_eq ver latest_alias)) [
  | inl alias ↦ rw alias (λ h. cc, λ h. cc)
  | inr other ↦ elim (Bool-cases (any (λ b. str_eq b.version ver) builds)) [
    | inl known ↦ rw (other, known) (λ h. (check_builds-known ver builds).1 known, λ h. refl)
    | inr unknown ↦ rw (other, unknown) (λ h. cc, λ h. cc ((check_builds-known ver builds).0 h))
  ]
]

clash : (t : Bool) → t ≡ true → (if t then false else true) ≡ true → ⊥
clash true h k = cc
clash false h k = cc

-- A fault of the version refuses it for every platform.
pub reject_version-fault :
    (want ver : String) (builds : List Build)
    → version_level_fault ver builds ≡ true
    → reject_version want ver builds ≢ none
unfolding version_level_fault reject_version
reject_version-fault want ver builds fault h = elim (Bool-cases (str_eq ver latest_alias)) [
  | inl alias ↦ cc (rw alias at h)
  | inr other ↦
      let offered = (check_builds-none want ver builds).0 (rw other at h) in
      clash _ (found_any ver builds offered.0 offered.1) (rw other at fault)
]

-- The first build of the version is for this platform.
abbrev pub IsBuilt : (want ver : String) → List Build → Type 0
IsBuilt want ver builds =
    (b : Build) × (find_if (λ x. str_eq x.version ver) builds ≡ some b)
    × (any (λ p. str_eq p want) b.platforms ≡ true)

check_mother_builds-none :
    (want ver : String) (builds : List Build)
    → (check_mother_builds want ver builds ≡ none) ↔ IsBuilt want ver builds
unfolding check_mother_builds
check_mother_builds-none want ver [] = (λ h. cc, λ h. cc (h.1))
check_mother_builds-none want ver (b ∷ builds) = elim (Bool-cases (str_eq b.version ver)) [
  | inr other ↦ rw other (check_mother_builds-none want ver builds)
  | inl same ↦ rw same (
    λ h. (b, refl, test_passed _ (any (λ p. str_eq p want) b.platforms) h),
    λ (c, first, covered). test_given _ (any (λ p. str_eq p want) b.platforms) (
        subst (λ x. any (λ p. str_eq p want) x.platforms ≡ true) (sym (some_inj b c first))
          covered),
  )
]

pub reject_mother_version-none :
    (want ver : String) (builds : List Build)
    → (reject_mother_version want ver builds ≡ none)
      ↔ ((ver ≢ latest_alias) × IsBuilt want ver builds)
unfolding reject_mother_version
reject_mother_version-none want ver builds = elim (Bool-cases (str_eq ver latest_alias)) [
  | inl alias ↦ rw alias (λ h. cc, λ h. absurd (h.0 ((eq_iff ver latest_alias).0 alias)))
  | inr other ↦ rw other (
    λ h. (λ e. cc ((eq_iff ver latest_alias).1 e), (check_mother_builds-none want ver builds).0 h),
    λ h. (check_mother_builds-none want ver builds).1 h.1,
  )
]
