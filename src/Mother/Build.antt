-- ===== src/Mother/Build.antt =====
-- mother/build/build.go: a version is compiled into a staging directory and renamed into the
-- catalogue. The toolchain, SHA-256 and the environment are parameters; the calls on files succeed or
-- fail as `Host` says, and os.Stat answers whether the entry is there. A run is given with every state
-- of the catalogue on its way, which is what another process can read and what a kill leaves.
-- A sweep that fails has removed nothing, and an asset is there as a whole or not at all.
pub mod Compile
pub mod Complete
pub mod Atomic
pub mod Published
pub mod Success
pub mod Catalogue
pub mod Platforms
pub mod Offers
pub mod Source
use feast_watch.Prelude.{
  ℕ, String, Bool, true, false, Option, none, some, List, [], ◌∷◌, ◌++◌, map, any, take, str_eq,
  is_empty, if◌then◌else◌, ◌&&◌, ◌||◌, not, ◌==◌,
}
use feast_watch.Prelude.Map.{Map, string_eq, get, put, delete}
use feast_watch.Prelude.Text.{◌<>◌, codes, trim_space}
use feast_watch.Mother.Build.Compile.{
  Files, Host, BuildFault, no_version, bad_version, already_built, not_swept, not_staged, no_go,
  no_cache, not_renamed, Staged, staging_of, toolchain_cache_dir, toolchain_env, makes_caches,
  compile_all, targets,
}

-- An entry of the catalogue's directory: a file, a directory with files, or a directory whose names
-- os.ReadDir does not give although its files can be opened.
pub data Entry : Type 0 where
  plain : Entry
  folder : Files → Entry
  locked : Files → Entry

abbrev pub Catalogue : Type 0
Catalogue = Map String Entry

-- What a run did to the catalogue.
pub record Run : Type 0 where
  pub states : List Catalogue
  pub catalogue : Catalogue
  pub fault : Option BuildFault

abbrev pub refused : Catalogue → BuildFault → Run
refused c fault = record { states = []; catalogue = c; fault = some fault }

-- The deferred os.RemoveAll of the staging directory.
abbrev pub clean : Host → String → Catalogue → Catalogue
clean host version c = if host.cleans then delete (staging_of version) c else c

abbrev pub abandon : Host → String → List Catalogue → Catalogue → BuildFault → Run
abandon host version states c fault = record {
  states = states;
  catalogue = clean host version c;
  fault = some fault;
}

abbrev pub stage : String → Catalogue → Files → Catalogue
stage version c files = put (staging_of version) (folder files) c

-- os.Rename of a directory, onto a name that is taken or is not.
abbrev pub move : Option Entry → Bool → Host → String → List Catalogue → Catalogue → Files → Run
move none true host version states c files = record {
  states = states;
  catalogue = put version (folder files) (delete (staging_of version) c);
  fault = none;
}
move none false host version states c files =
    abandon host version states (stage version c files) not_renamed
move (some taken) renames host version states c files =
    abandon host version states (stage version c files) not_renamed

-- The targets are compiled, or one is not; `c` is the catalogue beside the staging directory.
abbrev pub close_run : Option BuildFault → Host → String → List Catalogue → Catalogue → Files → Run
close_run (some fault) host version states c files =
    abandon host version states (stage version c files) fault
close_run none host version states c files =
    move (get version c) host.renames host version states c files

-- toolchainEnv makes the directory of the caches where one is missing.
abbrev pub with_caches : Host → Catalogue → Catalogue
with_caches host c =
    if makes_caches host
    then elim (get toolchain_cache_dir c) [
      | some there ↦ c
      | none ↦ put toolchain_cache_dir (folder []) c
    ]
    else c

-- From the staging directory on, which is there and empty.
abbrev pub run_staged :
    Host → (source_dir out_dir version : String) → Catalogue → Option (List String) → Run
run_staged host source_dir out_dir version c none =
    abandon host version (stage version c [] ∷ []) (stage version (with_caches host c) []) no_cache
run_staged host source_dir out_dir version c (some toolchain) =
    let cached = with_caches host c in
    let staged =
      compile_all host source_dir (out_dir <> ("/" <> staging_of version)) version toolchain targets
        [] in
    close_run staged.fault host version
      (stage version c [] ∷ stage version cached [] ∷ map (stage version cached) staged.states)
      cached staged.files

-- A name that cannot be a directory's.
unfoldable pub is_bad_version : String → Bool
is_bad_version version =
    any (λ c. c == b'/' || c == b'\\') (codes version) || str_eq version "." || str_eq version ".."

-- `Build` on a version whose spaces are cut off, with what os.Stat finds.
abbrev pub build_new : Option Entry → Host → (source_dir out_dir version : String) → Catalogue → Run
build_new (some taken) host source_dir out_dir version c = refused c already_built
build_new none host source_dir out_dir version c =
    let swept = delete (staging_of version) c in
    if not host.sweeps
    then refused c not_swept
    else (if not host.stages
        then record (refused swept not_staged) { states = swept ∷ [] }
        else (if not host.has_go
            then abandon host version (swept ∷ stage version swept [] ∷ []) (stage version swept [])
                no_go
            else run_staged host source_dir out_dir version swept (toolchain_env host out_dir)))

unfoldable pub build : Host → (source_dir out_dir version : String) → Catalogue → Run
unfolding is_bad_version toolchain_env compile_all
build host source_dir out_dir version c =
    let trimmed = trim_space version in
    if is_empty trimmed
    then refused c no_version
    else (if is_bad_version trimmed
        then refused c bad_version
        else build_new (get trimmed c) host source_dir out_dir trimmed c)
