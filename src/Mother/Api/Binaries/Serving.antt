-- ===== src/Mother/Api/Binaries/Serving.antt =====
-- mother/api/binaries.go: what is served, and that what the index offers is.
use feast_watch.Prelude.{
  ◌≡◌, refl, sym, ap, ◌∙◌, String, true, Option, none, some, str_eq, str_eq_iff, if◌then◌else◌,
  Bool-cases, inl, inr,
}
use feast_watch.Prelude.Map.{string_eq, get}
use feast_watch.Prelude.Text.{◌<>◌, trim_suffix}
use feast_watch.Prelude.Text.Affixes.{trim_suffix_cases}
use feast_watch.Shared.Checksum.{Bytes}
use feast_watch.Shared.Release.{Kind, asset_kind_of, checksum_suffix}
use feast_watch.Mother.Release.{Snapshot}
use feast_watch.Mother.Build.{Catalogue}
use feast_watch.Mother.Build.Catalogue.{asset_in, path_if, ensure}
use feast_watch.Mother.Api.Binaries.{
  served, index_knows, file_answer, serve_path, serve_known, serve_asset,
}

-- What a file that is served is: a file of a version that the index knows, with the name of a build
-- or of a build's checksum.
pub record IsListed (snap : Snapshot) (c : Catalogue) (tag asset : String) (bytes : Bytes)
    : Type 0 where
  pub kind : Kind × String
  pub names : asset_kind_of (trim_suffix checksum_suffix asset) ≡ some kind
  pub known : index_knows snap tag ≡ true
  pub stored : asset_in asset (get tag c) ≡ some bytes

-- The name behind the suffix rule is the one that was asked for.
pub path_name :
    (asset : String)
    → (if str_eq asset (trim_suffix checksum_suffix asset)
        then trim_suffix checksum_suffix asset
        else trim_suffix checksum_suffix asset <> checksum_suffix)
      ≡ asset
path_name asset = elim (Bool-cases (str_eq asset (trim_suffix checksum_suffix asset))) [
  | inl whole ↦ rw whole (sym ((str_eq_iff asset (trim_suffix checksum_suffix asset)).0 whole))
  | inr cut ↦ elim (trim_suffix_cases checksum_suffix asset) [
    | inl same ↦ cc (cut, (str_eq_iff asset (trim_suffix checksum_suffix asset)).1 (sym same))
    | inr e ↦ rw cut (sym e)
  ]
]

file_answer-served :
    (o : Option Bytes) (bytes : Bytes) → file_answer o ≡ served bytes → o ≡ some bytes
file_answer-served none bytes h = cc
file_answer-served (some b) bytes h = cc

-- The answer behind the checks, by what the catalogue holds of the binary.
serve_path-served :
    (c : Catalogue) (tag asset : String) (bytes : Bytes) (o : Option Bytes)
    → serve_path c asset
        (trim_suffix checksum_suffix asset)
        (path_if tag (trim_suffix checksum_suffix asset) o)
      ≡ served bytes
    → asset_in asset (get tag c) ≡ some bytes
serve_path-served c tag asset bytes none h = cc
serve_path-served c tag asset bytes (some b) h =
    file_answer-served (asset_in asset (get tag c)) bytes
      (ap (λ n. file_answer (asset_in n (get tag c))) (sym (path_name asset)) ∙ h)

serve_known-served :
    (snap : Snapshot) (c : Catalogue) (tag asset : String) (bytes : Bytes)
    (kind : Option (Kind × String))
    → asset_kind_of (trim_suffix checksum_suffix asset) ≡ kind
    → serve_known snap c tag asset (trim_suffix checksum_suffix asset) kind ≡ served bytes
    → IsListed snap c tag asset bytes
unfolding ensure
serve_known-served snap c tag asset bytes none e h = cc
serve_known-served snap c tag asset bytes (some kind) e h =
    elim (Bool-cases (index_knows snap tag)) [
      | inr unknown ↦ cc (rw unknown at h)
      | inl known ↦ record {
        kind = kind;
        names = e;
        known = known;
        stored =
            serve_path-served c tag asset bytes
              (asset_in (trim_suffix checksum_suffix asset) (get tag c)) (rw known at h);
      }
    ]

-- Whatever tag and asset a request names: what is served is the file of that name in the directory
-- of that version, the index knows the version, and the name is that of a build in the build matrix or
-- of a build's checksum.
pub served-IsListed :
    (snap : Snapshot) (c : Catalogue) (tag asset : String) (bytes : Bytes)
    → serve_asset snap (some c) tag asset ≡ served bytes
    → IsListed snap c tag asset bytes
unfolding serve_asset
served-IsListed snap c tag asset bytes h =
    serve_known-served snap c tag asset bytes (asset_kind_of (trim_suffix checksum_suffix asset))
      refl h
