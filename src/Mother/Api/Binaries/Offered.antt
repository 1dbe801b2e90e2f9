-- ===== src/Mother/Api/Binaries/Offered.antt =====
-- mother/api/binaries.go with mother/build/store.go: what the index offers is downloadable.
use feast_watch.Prelude.{
  ◌≡◌, refl, ap, ◌∙◌, String, true, Option, none, some, List, [], ◌∷◌, any, str_eq, str_neq,
  if◌then◌else◌, not, Bool-cases, inl, inr,
}
use feast_watch.Prelude.Map.{string_eq, get, HasDistinctKeys}
use feast_watch.Prelude.Text.{◌<>◌, trim_suffix, has_suffix}
use feast_watch.Prelude.Text.Affixes.{trim_suffix_none, trim_suffix-append}
use feast_watch.Shared.Checksum.{Bytes}
use feast_watch.Shared.Release.{Kind, agent_kind, mother_kind, asset_kind_of, checksum_suffix}
use feast_watch.Mother.Release.{Build, Snapshot, refresh}
use feast_watch.Mother.Build.{Entry, plain, folder, locked, Catalogue}
use feast_watch.Mother.Build.Catalogue.{Sorts, fetch, listed, has_key, asset_in, path_if, ensure}
use feast_watch.Mother.Build.Offers.{Reorders, offers, index_of, IsOffered, index_offers_iff}
use feast_watch.Mother.Api.Binaries.{
  Answer, served, index_knows, file_answer, serve_path, serve_known, serve_asset,
}
use feast_watch.Mother.Api.Binaries.Serving.{path_name}

offers-version :
    (version platform : String) (builds : List Build)
    → offers version platform builds ≡ true
    → any (λ b. str_eq b.version version) builds ≡ true
offers-version version platform [] h = cc
offers-version version platform (b ∷ builds) h = elim (Bool-cases (str_eq b.version version)) [
  | inl same ↦ rw same refl
  | inr other ↦ rw other (offers-version version platform builds (rw other at h))
]

-- What the index offers, it knows.
pub offers-knows :
    (kind : Kind) (version platform : String) (snap : Snapshot)
    → offers version platform (index_of kind snap) ≡ true
    → index_knows snap version ≡ true
unfolding index_knows
offers-knows agent_kind version platform snap h =
    rw (offers-version version platform snap.builds h) refl
offers-knows mother_kind version platform snap h =
    elim (Bool-cases (any (λ b. str_eq b.version version) snap.builds)) [
      | inl also ↦ rw also refl
      | inr only ↦ rw (only, offers-version version platform snap.mother h) refl
    ]

named-trimmed :
    (asset : String) (kind : Kind × String)
    → asset_kind_of asset ≡ some kind
    → trim_suffix checksum_suffix asset ≡ asset
unfolding asset_kind_of
named-trimmed asset kind h = elim (Bool-cases (has_suffix checksum_suffix asset)) [
  | inl companion ↦ cc (rw companion at h)
  | inr binary ↦ trim_suffix_none checksum_suffix asset binary
]

serve_stored :
    (snap : Snapshot) (c : Catalogue) (tag asset : String) (kind : Kind × String)
    (binary bytes : Bytes)
    → asset_kind_of (trim_suffix checksum_suffix asset) ≡ some kind
    → index_knows snap tag ≡ true
    → asset_in (trim_suffix checksum_suffix asset) (get tag c) ≡ some binary
    → asset_in asset (get tag c) ≡ some bytes
    → serve_asset snap (some c) tag asset ≡ served bytes
unfolding serve_asset ensure
serve_stored snap c tag asset kind binary bytes named known there stored =
    ap (serve_known snap c tag asset (trim_suffix checksum_suffix asset)) named
    ∙ ap
        (λ k.
          if not k
          then Answer.no_such_release
          else serve_path c asset (trim_suffix checksum_suffix asset)
              (ensure c tag (trim_suffix checksum_suffix asset)))
        known
    ∙ ap
        (λ o.
          serve_path c asset (trim_suffix checksum_suffix asset)
            (path_if tag (trim_suffix checksum_suffix asset) o))
        there
    ∙ ap (λ n. file_answer (asset_in n (get tag c))) (path_name asset)
    ∙ ap file_answer stored

-- A binary of a version that is known, and the checksum beside it.
pub serve_binary :
    (snap : Snapshot) (c : Catalogue) (tag asset : String) (kind : Kind × String) (binary : Bytes)
    → asset_kind_of asset ≡ some kind
    → index_knows snap tag ≡ true
    → asset_in asset (get tag c) ≡ some binary
    → serve_asset snap (some c) tag asset ≡ served binary
serve_binary snap c tag asset kind binary named known there =
    let e = named-trimmed asset kind named in
    serve_stored snap c tag asset kind binary binary (ap asset_kind_of e ∙ named) known
      (ap (λ n. asset_in n (get tag c)) e ∙ there) there

pub serve_sum :
    (snap : Snapshot) (c : Catalogue) (tag asset : String) (kind : Kind × String)
    (binary sum : Bytes)
    → asset_kind_of asset ≡ some kind
    → index_knows snap tag ≡ true
    → asset_in asset (get tag c) ≡ some binary
    → asset_in (asset <> checksum_suffix) (get tag c) ≡ some sum
    → serve_asset snap (some c) tag (asset <> checksum_suffix) ≡ served sum
serve_sum snap c tag asset kind binary sum named known there beside =
    let e = trim_suffix-append checksum_suffix asset (str_neq checksum_suffix "" refl) in
    serve_stored snap c tag (asset <> checksum_suffix) kind binary sum (ap asset_kind_of e ∙ named)
      known (ap (λ n. asset_in n (get tag c)) e ∙ there) beside

-- The binary of this family and platform is served under some name, and so is its checksum.
pub record IsDownloadable (kind : Kind) (platform : String) (snap : Snapshot) (c : Catalogue)
    (version : String) : Type 0 where
  pub name : String
  pub names : asset_kind_of name ≡ some (kind, platform)
  pub binary : Bytes
  pub sum : Bytes
  pub binary_served : serve_asset snap (some c) version name ≡ served binary
  pub sum_served : serve_asset snap (some c) version (name <> checksum_suffix) ≡ served sum

present : (o : Option Bytes) → has_key o ≡ true → (bytes : Bytes) × (o ≡ some bytes)
present none h = cc
present (some bytes) h = (bytes, refl)

entry-IsDownloadable :
    (kind : Kind) (version platform : String) (snap : Snapshot) (c : Catalogue) (e : Option Entry)
    → get version c ≡ e
    → index_knows snap version ≡ true
    → IsOffered kind version platform e
    → IsDownloadable kind platform snap c version
entry-IsDownloadable kind version platform snap c none g k h = absurd h
entry-IsDownloadable kind version platform snap c (some plain) g k h = absurd h
entry-IsDownloadable kind version platform snap c (some (locked files)) g k h = absurd h
entry-IsDownloadable kind version platform snap c (some (folder files)) g k h =
    let p = h.1 in
    let (binary, there) = present (get p.name files) p.there in
    let (sum, beside) = present (get (p.name <> checksum_suffix) files) p.beside in
    let stored = ap (asset_in p.name) g ∙ there in
    record {
      name = p.name;
      names = p.names;
      binary = binary;
      sum = sum;
      binary_served = serve_binary snap c version p.name (kind, platform) binary p.names k stored;
      sum_served =
          serve_sum snap c version p.name (kind, platform) binary sum p.names k stored
            (ap (asset_in (p.name <> checksum_suffix)) g ∙ beside);
    }

-- Where Go's sorts reorder, and a directory has no name twice: of every version and platform that the
-- index offers after a refresh from the catalogue, the binary and its checksum are downloadable from
-- that catalogue.
pub offered-IsDownloadable :
    (sorts : Sorts)
    → Reorders sorts
    → (kind : Kind) (version platform : String) (s : Snapshot) (c : Catalogue) → HasDistinctKeys c
    → offers version platform (index_of kind (refresh s (fetch sorts (listed c)))) ≡ true
    → IsDownloadable kind platform (refresh s (fetch sorts (listed c))) c version
offered-IsDownloadable sorts reorders kind version platform s c d h =
    let snap = refresh s (fetch sorts (listed c)) in
    entry-IsDownloadable kind version platform snap c (get version c) refl
      (offers-knows kind version platform snap h)
      ((index_offers_iff sorts reorders kind version platform s c d).0 h)
