-- ===== src/Mother/Build/Catalogue.antt =====
-- mother/build/store.go and `SortDescending` of mother/release/index.go: the catalogue read back. The
-- sorts of Go's library are parameters. A file's name stands for the file, whatever it is.
use feast_watch.Prelude.{
  ℕ, ◌+◌, ◌/◌, ◌%◌, String, Bool, true, false, Option, none, some, List, [], ◌∷◌, ◌++◌,
  if◌then◌else◌, ltb,
}
use feast_watch.Prelude.Map.{string_eq, get}
use feast_watch.Prelude.Text.{◌<>◌, codes, cut_prefix}
use feast_watch.Shared.Release.{Kind, agent_kind, mother_kind, asset_kind_of, checksum_suffix}
use feast_watch.Shared.Checksum.{Bytes}
use feast_watch.Mother.Release.{Build, Fetched, fetched, fetch_failed}
use feast_watch.Mother.Release.Order.{natural_less}
use feast_watch.Mother.Build.{Entry, plain, folder, locked, Catalogue}
use feast_watch.Mother.Build.Compile.{Files}

-- The bytes of a text.
abbrev pub utf8 : ℕ → Bytes
utf8 c =
    if ltb c 0x80
    then c ∷ []
    else (if ltb c 0x800
        then (0xc0 + c / 0x40) ∷ (0x80 + c % 0x40) ∷ []
        else (if ltb c 0x10000
            then (0xe0 + c / 0x1000) ∷ (0x80 + c / 0x40 % 0x40) ∷ (0x80 + c % 0x40) ∷ []
            else (0xf0 + c / 0x40000)
              ∷ (0x80 + c / 0x1000 % 0x40)
              ∷ (0x80 + c / 0x40 % 0x40)
              ∷ (0x80 + c % 0x40)
              ∷ []))

abbrev pub utf8_all : List ℕ → Bytes
utf8_all [] = []
utf8_all (c ∷ cs) = utf8 c ++ utf8_all cs

-- Go's sort.Strings, and sort.Slice of builds by a test.
pub record Sorts : Type 0 where
  pub sort_strings : List String → List String
  pub sort_slice : (Build → Build → Bool) → List Build → List Build

abbrev pub is_newer : Build → Build → Bool
is_newer a b = natural_less (utf8_all (codes b.version)) (utf8_all (codes a.version))

unfoldable pub sort_descending : Sorts → List Build → List Build
sort_descending sorts builds = sorts.sort_slice is_newer builds

abbrev pub has_key : Option Bytes → Bool
has_key none = false
has_key (some bytes) = true

abbrev pub same_kind : Kind → Kind → Bool
same_kind agent_kind agent_kind = true
same_kind agent_kind mother_kind = false
same_kind mother_kind agent_kind = false
same_kind mother_kind mother_kind = true

-- What one file adds to the platforms of a family.
abbrev pub with_platform : Kind → Option (Kind × String) → Bool → List String → List String
with_platform kind (some (k, platform)) true rest =
    if same_kind k kind then platform ∷ rest else rest
with_platform kind (some (k, platform)) false rest = rest
with_platform kind none beside rest = rest

-- The loop of `platformsOf` over the names, for one of its two results.
unfoldable pub platforms_in : Kind → Files → Files → List String
platforms_in kind present [] = []
platforms_in kind present ((name, bytes) ∷ files) =
    with_platform kind (asset_kind_of name) (has_key (get (name <> checksum_suffix) present))
      (platforms_in kind present files)

-- One of the two results of `platformsOf`, for what os.ReadDir answers about the directory.
unfoldable pub platforms_of : Sorts → Kind → Option Files → List String
unfolding platforms_in
platforms_of sorts kind none = []
platforms_of sorts kind (some files) = sorts.sort_strings (platforms_in kind files files)

-- `strings.HasPrefix(name, ".")`
abbrev pub is_some : Option String → Bool
is_some none = false
is_some (some rest) = true

unfoldable pub is_hidden : String → Bool
is_hidden name = is_some (cut_prefix "." name)

-- `if len(platforms) > 0 { append }`
abbrev pub with_build : String → List String → List Build → List Build
with_build version [] builds = builds
with_build version (p ∷ ps) builds = record { version = version; platforms = p ∷ ps } ∷ builds

-- The loop of `Fetch` over the entries, for one family.
unfoldable pub builds_of : Sorts → Kind → Catalogue → List Build
unfolding is_hidden platforms_of
builds_of sorts kind [] = []
builds_of sorts kind ((name, plain) ∷ entries) = builds_of sorts kind entries
builds_of sorts kind ((name, folder files) ∷ entries) =
    let rest = builds_of sorts kind entries in
    if is_hidden name then rest else with_build name (platforms_of sorts kind (some files)) rest
builds_of sorts kind ((name, locked files) ∷ entries) =
    let rest = builds_of sorts kind entries in
    if is_hidden name then rest else with_build name (platforms_of sorts kind none) rest

-- What os.ReadDir answers about the catalogue.
pub data Listing : Type 0 where
  not_there unreadable : Listing
  listed : Catalogue → Listing

unfoldable pub fetch : Sorts → Listing → Fetched
unfolding builds_of sort_descending
fetch sorts not_there = fetched [] []
fetch sorts unreadable = fetch_failed
fetch sorts (listed c) =
    fetched (sort_descending sorts (builds_of sorts agent_kind c))
      (sort_descending sorts (builds_of sorts mother_kind c))

-- The path is the pair of its names. The version is that of an entry, or has been looked up in the index.
abbrev pub asset_in : String → Option Entry → Option Bytes
asset_in asset none = none
asset_in asset (some plain) = none
asset_in asset (some (folder files)) = get asset files
asset_in asset (some (locked files)) = get asset files

abbrev pub path_if : (version asset : String) → Option Bytes → Option (String × String)
path_if version asset none = none
path_if version asset (some bytes) = some (version, asset)

unfoldable pub ensure : Catalogue → (version asset : String) → Option (String × String)
ensure c version asset = path_if version asset (asset_in asset (get version c))
