-- ===== src/Mother/Api/Binaries.antt =====
-- mother/api/binaries.go: the downloads. The catalogue is the interface `BinarySource`, filled by
-- mother/build/store.go; http.ServeFile answers the file's bytes, or that it is not there.
pub mod Serving
pub mod Offered
pub mod Install
use feast_watch.Prelude.{
  ℕ, String, Bool, true, false, Option, none, some, List, [], ◌∷◌, any, str_eq, if◌then◌else◌, not,
  ◌||◌,
}
use feast_watch.Prelude.Map.{string_eq, get}
use feast_watch.Prelude.Text.{◌<>◌, trim_suffix}
use feast_watch.Shared.Checksum.{Bytes}
use feast_watch.Shared.Release.{Kind, agent_kind, mother_kind, asset_kind_of, checksum_suffix}
use feast_watch.Mother.Release.{Build, Snapshot}
use feast_watch.Mother.Build.{Entry, folder, Catalogue}
use feast_watch.Mother.Build.Catalogue.{asset_in, ensure}

-- Every refusal is a 404.
pub data Answer : Type 0 where
  no_catalogue no_such_build no_such_release not_in_catalogue no_such_file : Answer
  served : Bytes → Answer

-- The version of the first build, if there is one.
abbrev pub first_version : List Build → Option String
first_version [] = none
first_version (b ∷ builds) = some b.version

abbrev pub newest_of : Snapshot → Option (Kind × String) → Option String
newest_of snap none = none
newest_of snap (some (agent_kind, platform)) = first_version snap.builds
newest_of snap (some (mother_kind, platform)) = first_version snap.mother

unfoldable pub latest_tag_for : Snapshot → String → Option String
latest_tag_for snap asset = newest_of snap (asset_kind_of (trim_suffix checksum_suffix asset))

unfoldable pub index_knows : Snapshot → String → Bool
index_knows snap tag =
    any (λ b. str_eq b.version tag) snap.builds || any (λ b. str_eq b.version tag) snap.mother

-- http.ServeFile
abbrev pub file_answer : Option Bytes → Answer
file_answer none = no_such_file
file_answer (some bytes) = served bytes

-- The path of the binary has been asked for, and a suffix may follow it.
abbrev pub serve_path : Catalogue → (asset binary : String) → Option (String × String) → Answer
serve_path c asset binary none = not_in_catalogue
serve_path c asset binary (some (version, name)) =
    file_answer
      (asset_in (if str_eq asset binary then name else name <> checksum_suffix) (get version c))

-- The checks on both halves of the request.
abbrev pub serve_known :
    Snapshot → Catalogue → (tag asset binary : String) → Option (Kind × String) → Answer
serve_known snap c tag asset binary none = no_such_build
serve_known snap c tag asset binary (some kind) =
    if not (index_knows snap tag)
    then no_such_release
    else serve_path c asset binary (ensure c tag binary)

unfoldable pub serve_asset : Snapshot → Option Catalogue → (tag asset : String) → Answer
unfolding index_knows
serve_asset snap none tag asset = no_catalogue
serve_asset snap (some c) tag asset =
    let binary = trim_suffix checksum_suffix asset in
    serve_known snap c tag asset binary (asset_kind_of binary)

abbrev pub handle_download : Snapshot → Option Catalogue → (tag asset : String) → Answer
handle_download = serve_asset

abbrev pub serve_tag : Snapshot → Option Catalogue → String → Option String → Answer
serve_tag snap c asset none = no_such_release
serve_tag snap c asset (some tag) = serve_asset snap c tag asset

unfoldable pub handle_download_latest : Snapshot → Option Catalogue → String → Answer
unfolding latest_tag_for serve_asset
handle_download_latest snap c asset = serve_tag snap c asset (latest_tag_for snap asset)
