-- ===== src/Shared/Release/Names.antt =====
-- shared/release/release.go: which names are builds, and of what.
use mathlib.Core.Path.{subst}
use feast_watch.Prelude.{
  All, ◌≡◌, ◌↔◌, refl, sym, ap, ◌∙◌, String, true, Option, some, List, [], ◌∷◌, str_eq, eq_iff,
  Bool-cases, Option-cases, some_inj, inl, inr, ◌⊎◌,
}
use feast_watch.Prelude.Text.{◌<>◌, cut_prefix, has_suffix}
use feast_watch.Prelude.Text.Affixes.{cut_prefix-append}
use feast_watch.Shared.Release.{
  Kind, agent_kind, mother_kind, Platform, token, platforms, mother_platforms, asset_prefix,
  mother_asset_prefix, asset_name, mother_asset_name, built_for, if_built, asset_kind_of,
  checksum_suffix,
}

-- The build matrix and the names of a family.
abbrev pub matrix : Kind → List Platform
matrix agent_kind = platforms
matrix mother_kind = mother_platforms

abbrev pub name_of : Kind → String → String → String
name_of agent_kind = asset_name
name_of mother_kind = mother_asset_name

-- One of these platforms has this token, and the name is made of it.
abbrev pub IsNameOf : Kind → String → String → List Platform → Type 0
IsNameOf kind platform asset [] = ⊥
IsNameOf kind platform asset (p ∷ ps) =
    ((platform ≡ token p) × (asset ≡ name_of kind p.goos p.goarch))
    ⊎ IsNameOf kind platform asset ps

abbrev prefix_of : Kind → String
prefix_of agent_kind = asset_prefix
prefix_of mother_kind = mother_asset_prefix

name_of-token :
    (kind : Kind) (p : Platform) → name_of kind p.goos p.goarch ≡ prefix_of kind <> token p
unfolding asset_name mother_asset_name
name_of-token agent_kind p = refl
name_of-token mother_kind p = refl

built_for-IsNameOf :
    (kind : Kind) (platform : String) (ps : List Platform)
    → built_for ps platform ≡ true
    → IsNameOf kind platform (prefix_of kind <> platform) ps
unfolding built_for
built_for-IsNameOf kind platform [] h = cc
built_for-IsNameOf kind platform (p ∷ ps) h = elim (Bool-cases (str_eq (token p) platform)) [
  | inl same ↦
      let e = (eq_iff (token p) platform).0 same in
      inl (sym e, ap (λ x. prefix_of kind <> x) (sym e) ∙ sym (name_of-token kind p))
  | inr other ↦ inr (built_for-IsNameOf kind platform ps (rw other at h))
]

Reads : String → Option (Kind × String) → Type 0
Reads asset answer =
    (k : Kind) (platform : String)
    → answer ≡ some (k, platform)
    → IsNameOf k platform asset (matrix k)

if_built-Reads :
    (kind : Kind) (asset rest : String)
    → asset ≡ prefix_of kind <> rest
    → Reads asset (if_built kind (matrix kind) rest)
unfolding Reads
if_built-Reads kind asset rest e k platform h = elim (Bool-cases (built_for (matrix kind) rest)) [
  | inl built ↦
      let found : ◌≡◌ {A = Kind × String} (kind, rest) (k, platform) =
        some_inj (kind, rest) (k, platform) (rw built at h) in
      subst (λ x. IsNameOf x.0 x.1 asset (matrix x.0)) found
        (subst (λ a. IsNameOf kind rest a (matrix kind)) (sym e)
          (built_for-IsNameOf kind rest (matrix kind) built))
  | inr missing ↦ cc (rw missing at h)
]

asset_kind_of-Reads : (asset : String) → Reads asset (asset_kind_of asset)
unfolding asset_kind_of Reads
asset_kind_of-Reads asset k platform h = elim (Bool-cases (has_suffix checksum_suffix asset)) [
  | inl companion ↦ cc (rw companion at h)
  | inr binary ↦ elim (Option-cases (cut_prefix mother_asset_prefix asset)) [
    | inr (rest, found) ↦
        if_built-Reads mother_kind asset rest
          (cut_prefix-append mother_asset_prefix asset rest found) k platform
          (rw (binary, found) at h)
    | inl no_mother ↦ elim (Option-cases (cut_prefix asset_prefix asset)) [
      | inr (rest, found) ↦
          if_built-Reads agent_kind asset rest (cut_prefix-append asset_prefix asset rest found) k
            platform (rw (binary, no_mother, found) at h)
      | inl no_agent ↦ cc (rw (binary, no_mother, no_agent) at h)
    ]
  ]
]

pub read_back :
    (kind : Kind)
    → All (λ p. asset_kind_of (name_of kind p.goos p.goarch) ≡ some (kind, token p)) (matrix kind)
unfolding asset_kind_of has_suffix cut_prefix asset_name mother_asset_name
read_back agent_kind = (refl, (refl, (refl, (refl, tt))))
read_back mother_kind = (refl, (refl, tt))

IsNameOf-read :
    (kind : Kind) (platform asset : String) (ps : List Platform)
    → All (λ p. asset_kind_of (name_of kind p.goos p.goarch) ≡ some (kind, token p)) ps
    → IsNameOf kind platform asset ps
    → asset_kind_of asset ≡ some (kind, platform)
IsNameOf-read kind platform asset [] all h = absurd h
IsNameOf-read kind platform asset (p ∷ ps) all (inl (t, n)) =
    ap asset_kind_of n ∙ all.0 ∙ ap (λ x. some (kind, x)) (sym t)
IsNameOf-read kind platform asset (p ∷ ps) all (inr h) =
    IsNameOf-read kind platform asset ps all.1 h

-- An asset name is read as a family and a platform exactly when the platform is in the build matrix
-- of the family and the name is the one that the build gives it.
pub asset_kind_of_iff :
    (kind : Kind) (platform asset : String)
    → (asset_kind_of asset ≡ some (kind, platform)) ↔ IsNameOf kind platform asset (matrix kind)
unfolding Reads
asset_kind_of_iff kind platform asset = (
  asset_kind_of-Reads asset kind platform,
  IsNameOf-read kind platform asset (matrix kind) (read_back kind),
)
