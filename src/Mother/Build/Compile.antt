-- ===== src/Mother/Build/Compile.antt =====
-- mother/build/build.go: the targets, the environment of the compiler and the files that it leaves in
-- the staging directory.
use feast_watch.Prelude.{
  ℕ, String, Bool, false, Option, none, some, List, [], ◌∷◌, ◌++◌, map, take, is_empty,
  if◌then◌else◌, not, find_if,
}
use feast_watch.Prelude.Map.{Map, string_eq, put}
use feast_watch.Prelude.Text.{◌<>◌}
use feast_watch.Shared.Release.{
  Platform, platforms, mother_platforms, asset_name, mother_asset_name, checksum_suffix,
}
use feast_watch.Shared.Checksum.{Bytes, checksum_file}

abbrev pub Files : Type 0
Files = Map String Bytes

pub record Target : Type 0 where
  pub pkg : String
  pub asset : String
  pub goos : String
  pub goarch : String

abbrev pub agent_target : Platform → Target
agent_target p = record {
  pkg = "./agent/cmd/feast-watch-agent";
  asset = asset_name p.goos p.goarch;
  goos = p.goos;
  goarch = p.goarch;
}

abbrev pub mother_target : Platform → Target
mother_target p = record {
  pkg = "./mother/cmd/feast-watch";
  asset = mother_asset_name p.goos p.goarch;
  goos = p.goos;
  goarch = p.goarch;
}

unfoldable pub targets : List Target
targets = map agent_target platforms ++ map mother_target mother_platforms

pub data BuildFault : Type 0 where
  no_version bad_version already_built not_swept not_staged no_go no_cache not_renamed : BuildFault
  not_compiled no_checksum : String → BuildFault

pub record Host : Type 0 where
  -- os.RemoveAll of what an earlier run left, and at the end.
  pub sweeps : Bool
  pub cleans : Bool
  pub stages : Bool
  pub has_go : Bool
  pub makes_cache : String → Bool
  pub getenv : String → String
  pub environ : List String
  -- `go` in this directory with these arguments and this environment: what it wrote to its output.
  pub go : String → List String → List String → Option Bytes
  pub sha256 : Bytes → Bytes
  pub reads_back : String → Bool
  -- The checksum file is written, or the write ends after so many bytes.
  pub write_ends : String → Option ℕ
  pub renames : Bool

abbrev pub staging_of : String → String
staging_of version = version <> ".building"

abbrev pub toolchain_cache_dir : String
toolchain_cache_dir = ".toolchain-cache"

-- The variables that the environment does not name, or none where a cache cannot be made.
unfoldable pub cache_env : Host → String → List (String × String) → Option (List String)
cache_env host dir [] = some []
cache_env host dir ((key, sub) ∷ rest) =
    let more = cache_env host dir rest in
    if not (is_empty (host.getenv key))
    then more
    else (if not (host.makes_cache sub) then none else elim more [
      | none ↦ none
      | some env ↦ some ((key <> ("=" <> (dir <> ("/" <> sub)))) ∷ env)
    ])

abbrev pub caches : List (String × String)
caches = ("GOCACHE", "build") ∷ ("GOMODCACHE", "mod") ∷ ("GOPATH", "gopath") ∷ ("HOME", "home") ∷ []

unfoldable pub toolchain_env : Host → String → Option (List String)
unfolding cache_env
toolchain_env host out_dir =
    elim (cache_env host (out_dir <> ("/" <> toolchain_cache_dir)) caches) [
      | none ↦ none
      | some env ↦ some ("CGO_ENABLED=0" ∷ env)
    ]

-- Whether a cache directory is made on the way: the first variable that is not named.
abbrev pub makes_caches : Host → Bool
makes_caches host = elim (find_if (λ c. is_empty (host.getenv c.0)) caches) [
  | none ↦ false
  | some c ↦ host.makes_cache c.1
]

unfoldable pub build_args : (out version pkg : String) → List String
build_args out version pkg =
    "build"
    ∷ "-ldflags"
    ∷ ("-s -w -X github.com/osman-yahya/feast-watch/shared/version.Version=" <> version)
    ∷ "-buildvcs=false"
    ∷ "-o"
    ∷ out
    ∷ pkg
    ∷ []

-- A part of a run: the states of the staging directory on its way, how it stands, and the error.
pub record Staged : Type 0 where
  pub states : List Files
  pub files : Files
  pub fault : Option BuildFault

-- What the compiler is given for one target.
abbrev pub compiled :
    Host → (source_dir staging version : String) → List String → Target → Option Bytes
compiled host source_dir staging version toolchain t =
    host.go source_dir (build_args (staging <> ("/" <> t.asset)) version t.pkg)
      (host.environ ++ toolchain ++ ("GOOS=" <> t.goos) ∷ ("GOARCH=" <> t.goarch) ∷ [])

-- `writeChecksum` beside a binary that holds these bytes.
unfoldable pub write_checksum : Host → String → Bytes → Files → Staged
write_checksum host asset bytes files =
    let sum = checksum_file (host.sha256 bytes) in
    let name = asset <> checksum_suffix in
    if not (host.reads_back asset)
    then record { states = files ∷ []; files = files; fault = some (no_checksum asset) }
    else elim (host.write_ends asset) [
      | some n ↦
          let cut = put name (take n sum) files in
          record { states = files ∷ cut ∷ []; files = cut; fault = some (no_checksum asset) }
      | none ↦
          let whole = put name sum files in
          record { states = files ∷ whole ∷ []; files = whole; fault = none }
    ]

abbrev pub compile_from : Host → Target → Files → Option Bytes → Staged
compile_from host t files none = record {
  states = [];
  files = files;
  fault = some (not_compiled t.asset);
}
compile_from host t files (some bytes) = write_checksum host t.asset bytes (put t.asset bytes files)

unfoldable pub compile :
    Host → (source_dir staging version : String) → List String → Target → Files → Staged
unfolding write_checksum
compile host source_dir staging version toolchain t files =
    compile_from host t files (compiled host source_dir staging version toolchain t)

-- The second part runs where the first has no error.
abbrev pub and_then : Staged → Staged → Staged
and_then first second = elim first.fault [
  | some fault ↦ first
  | none ↦ record second { states = first.states ++ second.states }
]

-- The loop over the targets.
unfoldable pub compile_all :
    Host → (source_dir staging version : String) → List String → List Target → Files → Staged
unfolding compile
compile_all host source_dir staging version toolchain [] files = record {
  states = [];
  files = files;
  fault = none;
}
compile_all host source_dir staging version toolchain (t ∷ ts) files =
    let first = compile host source_dir staging version toolchain t files in
    and_then first (compile_all host source_dir staging version toolchain ts first.files)
