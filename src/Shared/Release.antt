-- ===== src/Shared/Release.antt =====
-- shared/release/release.go: how builds are named and where they are downloaded from.
pub mod Names
use feast_watch.Prelude.{
  String, Bool, true, false, Option, none, some, List, [], ◌∷◌, ◌++◌, str_eq, any, if◌then◌else◌,
}
use feast_watch.Prelude.Text.{◌<>◌, cut_prefix, has_suffix, trim_suffix}

abbrev pub asset_prefix : String
asset_prefix = "feast-watch-agent-"

abbrev pub mother_asset_prefix : String
mother_asset_prefix = "feast-watch-mother-"

abbrev pub checksum_suffix : String
checksum_suffix = ".sha256"

pub data Kind : Type 0 where
  agent_kind mother_kind : Kind

pub record Platform : Type 0 where
  pub goos : String
  pub goarch : String

-- `Platform.String`
abbrev pub token : Platform → String
token p = p.goos <> ("-" <> p.goarch)

abbrev pub platforms : List Platform
platforms =
    record { goos = "linux"; goarch = "amd64" }
    ∷ record { goos = "linux"; goarch = "arm64" }
    ∷ record { goos = "windows"; goarch = "amd64" }
    ∷ record { goos = "darwin"; goarch = "arm64" }
    ∷ []

abbrev pub mother_platforms : List Platform
mother_platforms =
    record { goos = "linux"; goarch = "amd64" } ∷ record { goos = "linux"; goarch = "arm64" } ∷ []

unfoldable pub asset_name : (goos goarch : String) → String
asset_name goos goarch = asset_prefix <> (goos <> ("-" <> goarch))

unfoldable pub mother_asset_name : (goos goarch : String) → String
mother_asset_name goos goarch = mother_asset_prefix <> (goos <> ("-" <> goarch))

-- A binary and its companion, for each platform.
abbrev pub with_checksums : (String → String → String) → List Platform → List String
with_checksums name [] = []
with_checksums name (p ∷ ps) =
    let asset = name p.goos p.goarch in asset ∷ (asset <> checksum_suffix) ∷ with_checksums name ps

unfoldable pub expected_assets : List String
unfolding asset_name mother_asset_name
expected_assets =
    with_checksums asset_name platforms ++ with_checksums mother_asset_name mother_platforms

unfoldable pub built_for : List Platform → String → Bool
built_for ps platform = any (λ p. str_eq (token p) platform) ps

abbrev pub if_built : Kind → List Platform → String → Option (Kind × String)
if_built kind ps rest = if built_for ps rest then some (kind, rest) else none

-- Every caller drops the family and the platform where the flag is false.
abbrev pub agent_asset : Option String → Option (Kind × String)
agent_asset (some rest) = if_built agent_kind platforms rest
agent_asset none = none

abbrev pub mother_or_agent : Option String → Option (Kind × String) → Option (Kind × String)
mother_or_agent (some rest) otherwise = if_built mother_kind mother_platforms rest
mother_or_agent none otherwise = otherwise

unfoldable pub asset_kind_of : String → Option (Kind × String)
unfolding built_for
asset_kind_of asset =
    if has_suffix checksum_suffix asset
    then none
    else mother_or_agent (cut_prefix mother_asset_prefix asset)
        (agent_asset (cut_prefix asset_prefix asset))

unfoldable pub download_url : (base_url tag asset : String) → String
download_url base_url tag asset =
    trim_suffix "/" base_url <> ("/releases/download/" <> (tag <> ("/" <> asset)))

unfoldable pub latest_download_url : (base_url asset : String) → String
latest_download_url base_url asset =
    trim_suffix "/" base_url <> ("/releases/latest/download/" <> asset)
