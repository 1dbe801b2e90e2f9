-- ===== src/Mother/Build/Platforms.antt =====
-- mother/build/store.go: the platforms that the files of a version are read as.
use feast_watch.Prelude.{
  ◌≡◌, ◌⊎◌, refl, ap, ◌∙◌, String, Bool, true, false, Option, none, some, List, [], ◌∷◌, any,
  str_eq, Bool-cases, str_eq_iff, inl, inr,
}
use feast_watch.Prelude.Map.{string_eq, get}
use feast_watch.Prelude.Text.{◌<>◌}
use feast_watch.Shared.Release.{Kind, agent_kind, mother_kind, asset_kind_of, checksum_suffix}
use feast_watch.Mother.Build.Compile.{Files}
use feast_watch.Mother.Build.Catalogue.{has_key, same_kind, with_platform, platforms_in}

-- The entry holds the binary of this family and platform, and the checksum beside it.
pub record Publishes (kind : Kind) (platform : String) (files present : Files) : Type 0 where
  pub name : String
  pub names : asset_kind_of name ≡ some (kind, platform)
  pub there : has_key (get name files) ≡ true
  pub beside : has_key (get (name <> checksum_suffix) present) ≡ true

same_kind_eq : (k kind : Kind) → same_kind k kind ≡ true → k ≡ kind
same_kind_eq agent_kind agent_kind h = refl
same_kind_eq agent_kind mother_kind h = cc
same_kind_eq mother_kind agent_kind h = cc
same_kind_eq mother_kind mother_kind h = refl

same_kind_self : (kind : Kind) → same_kind kind kind ≡ true
same_kind_self agent_kind = refl
same_kind_self mother_kind = refl

-- Which platforms a directory is found to have.
module _ (kind : Kind) (platform : String) where
  abbrev pub has : List String → Bool
  has = any (λ q. str_eq q platform)

  with_platform-has :
      (o : Option (Kind × String)) (beside : Bool) (rest : List String)
      → has (with_platform kind o beside rest) ≡ true
      → ((o ≡ some (kind, platform)) × (beside ≡ true)) ⊎ (has rest ≡ true)
  with_platform-has none beside rest h = inr h
  with_platform-has (some (k, q)) false rest h = inr h
  with_platform-has (some (k, q)) true rest h = elim (Bool-cases (same_kind k kind)) [
    | inr other ↦ inr (rw other at h)
    | inl family ↦ elim (Bool-cases (str_eq q platform)) [
      | inl same ↦
          inl ((λ i. some (same_kind_eq k kind family i, (str_eq_iff q platform).0 same i)), refl)
      | inr differ ↦ inr (rw (family, differ) at h)
    ]
  ]

  has-with_platform :
      (o : Option (Kind × String)) (beside : Bool) (rest : List String)
      → has rest ≡ true
      → has (with_platform kind o beside rest) ≡ true
  has-with_platform none beside rest h = h
  has-with_platform (some (k, q)) false rest h = h
  has-with_platform (some (k, q)) true rest h = elim (Bool-cases (same_kind k kind)) [
    | inr other ↦ rw other h
    | inl family ↦ elim (Bool-cases (str_eq q platform)) [
      | inl same ↦ rw (family, same) refl
      | inr differ ↦ rw (family, differ) h
    ]
  ]

  has-own : (rest : List String) → has (with_platform kind (some (kind, platform)) true rest) ≡ true
  has-own rest = rw (same_kind_self kind, (str_eq_iff platform platform).1 refl) refl

  module _ (present : Files) where
    pub platforms_in-Publishes :
        (files : Files)
        → has (platforms_in kind present files) ≡ true
        → Publishes kind platform files present
    unfolding platforms_in get
    platforms_in-Publishes [] h = cc
    platforms_in-Publishes ((name, bytes) ∷ files) h =
        elim (with_platform-has (asset_kind_of name)
          (has_key (get (name <> checksum_suffix) present)) (platforms_in kind present files) h) [
            | inl (names, beside) ↦ record {
              name = name;
              names = names;
              there = rw ((str_eq_iff name name).1 refl) refl;
              beside = beside;
            }
            | inr later ↦ behind (platforms_in-Publishes files later)
          ]
      where
        behind :
            Publishes kind platform files present
            → Publishes kind platform ((name, bytes) ∷ files) present
        behind p = record {
          name = p.name;
          names = p.names;
          there = elim (Bool-cases (str_eq name p.name)) [
            | inl same ↦ rw same refl
            | inr other ↦ rw other p.there
          ];
          beside = p.beside;
        }

    pub Publishes-platforms_in :
        (files : Files)
        → Publishes kind platform files present
        → has (platforms_in kind present files) ≡ true
    unfolding platforms_in get
    Publishes-platforms_in [] h = cc h.there
    Publishes-platforms_in ((name, bytes) ∷ files) h = elim (Bool-cases (str_eq name h.name)) [
      | inl same ↦
          let e : name ≡ h.name = (str_eq_iff name h.name).0 same in
          let named : asset_kind_of name ≡ some (kind, platform) = ap asset_kind_of e ∙ h.names in
          let beside : has_key (get (name <> checksum_suffix) present) ≡ true =
            ap (λ n. has_key (get (n <> checksum_suffix) present)) e ∙ h.beside in
          rw (named, beside) (has-own (platforms_in kind present files))
      | inr other ↦
          has-with_platform (asset_kind_of name) (has_key (get (name <> checksum_suffix) present))
            (platforms_in kind present files)
            (Publishes-platforms_in files record {
              name = h.name;
              names = h.names;
              there = (rw other at h.there);
              beside = h.beside;
            })
    ]
