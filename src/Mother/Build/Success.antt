-- ===== src/Mother/Build/Success.antt =====
-- mother/build/build.go: a build on a host where everything works.
use mathlib.Core.Path.{subst}
use feast_watch.Prelude.{
  ◌≡◌, ◌≢◌, refl, ap, ◌∙◌, String, Bool, true, false, none, some, List, [], ◌∷◌, map, if◌then◌else◌,
  not, is_empty,
}
use feast_watch.Prelude.Map.{string_eq, get, delete}
use feast_watch.Prelude.Text.{◌<>◌, trim_space}
use feast_watch.Shared.Checksum.{Bytes}
use feast_watch.Mother.Build.{
  Catalogue, Run, refused, abandon, stage, move, close_run, with_caches, run_staged, is_bad_version,
  build_new, build,
}
use feast_watch.Mother.Build.Compile.{
  Files, Host, no_version, bad_version, not_swept, not_staged, no_go, Staged, Target, targets,
  staging_of, toolchain_cache_dir, toolchain_env, compiled, write_checksum, compile_from, compile,
  compile_all, and_then,
}
use feast_watch.Mother.Build.Atomic.{
  Ends, staging_differs, with_caches-get, swept-get, neq_str, build-IsAtomic,
}
use feast_watch.Mother.Build.Published.{IsPublished, ended-IsPublished}

-- Every call on files works, and the compiler compiles every target.
pub record IsWorking (host : Host) (source_dir out_dir version : String) : Type 0 where
  pub sweeps : host.sweeps ≡ true
  pub stages : host.stages ≡ true
  pub has_go : host.has_go ≡ true
  pub toolchain : List String
  pub environment : toolchain_env host out_dir ≡ some toolchain
  pub compiles :
      (t : Target)
      → (bytes : Bytes) × (compiled host source_dir
            (out_dir <> ("/" <> staging_of version))
            version
            toolchain
            t
          ≡ some bytes)
  pub reads_back : (asset : String) → host.reads_back asset ≡ true
  pub writes : (asset : String) → host.write_ends asset ≡ none
  pub renames : host.renames ≡ true

and_then-good :
    (first second : Staged)
    → first.fault ≡ none
    → second.fault ≡ none
    → (and_then first second).fault ≡ none
and_then-good first second good later = rw good later

module _ (host : Host) (source_dir out_dir version : String)
    (w : IsWorking host source_dir out_dir version) where
  staging : String
  staging = out_dir <> ("/" <> staging_of version)

  compile-good :
      (t : Target) (files : Files)
      → (compile host source_dir staging version w.toolchain t files).fault ≡ none
  unfolding compile write_checksum staging
  compile-good t files =
      let (bytes, made) = w.compiles t in
      ap (λ o. (compile_from host t files o).fault) made
      ∙ rw (w.reads_back t.asset, w.writes t.asset) refl

  compile_all-good :
      (ts : List Target) (files : Files)
      → (compile_all host source_dir staging version w.toolchain ts files).fault ≡ none
  unfolding compile_all
  compile_all-good [] files = refl
  compile_all-good (t ∷ ts) files =
      let first = compile host source_dir staging version w.toolchain t files in
      and_then-good first (compile_all host source_dir staging version w.toolchain ts first.files)
        (compile-good t files) (compile_all-good ts first.files)

  run_staged-good :
      (c : Catalogue)
      → get version (with_caches host c) ≡ none
      → (run_staged host source_dir out_dir version c (some w.toolchain)).fault ≡ none
  unfolding staging
  run_staged-good c free =
      let cached = with_caches host c in
      let staged = compile_all host source_dir staging version w.toolchain targets [] in
      let states =
        stage version c [] ∷ stage version cached [] ∷ map (stage version cached) staged.states in
      ap (λ f. (close_run f host version states cached staged.files).fault)
        (compile_all-good targets [])
      ∙ ap (λ o. (move o host.renames host version states cached staged.files).fault) free
      ∙ ap (λ b. (move none b host version states cached staged.files).fault) w.renames

  build_new-good :
      (c : Catalogue)
      → toolchain_cache_dir ≢ version
      → get version c ≡ none
      → (build_new none host source_dir out_dir version c).fault ≡ none
  build_new-good c other new =
      let swept = delete (staging_of version) c in
      let beside = neq_str (staging_of version) version (staging_differs version) in
      let free =
        with_caches-get host source_dir out_dir version version beside
          (neq_str toolchain_cache_dir version other) swept
        ∙ swept-get host source_dir out_dir version version beside
            (neq_str toolchain_cache_dir version other) c
        ∙ new in
      let staged =
        ap (λ e. (run_staged host source_dir out_dir version swept e).fault) w.environment
        ∙ run_staged-good swept free in
      ap (λ b. (swept_run b host.stages host.has_go swept).fault) w.sweeps
      ∙ ap (λ b. (swept_run true b host.has_go swept).fault) w.stages
      ∙ ap (λ b. (swept_run true true b swept).fault) w.has_go
      ∙ staged
    where
      swept_run : Bool → Bool → Bool → Catalogue → Run
      swept_run sweeps stages has_go swept =
          if not sweeps
          then refused c not_swept
          else (if not stages
              then record (refused swept not_staged) { states = swept ∷ [] }
              else (if not has_go
                  then abandon host version (swept ∷ stage version swept [] ∷ [])
                      (stage version swept []) no_go
                  else run_staged host source_dir out_dir version swept
                      (toolchain_env host out_dir)))

build-good :
    (host : Host) (source_dir out_dir version : String) (c : Catalogue)
    → is_empty (trim_space version) ≡ false
    → is_bad_version (trim_space version) ≡ false
    → toolchain_cache_dir ≢ trim_space version
    → get (trim_space version) c ≡ none
    → IsWorking host source_dir out_dir (trim_space version)
    → (build host source_dir out_dir version c).fault ≡ none
unfolding build
build-good host source_dir out_dir version c named good other new w =
    let v = trim_space version in
    ap (λ o. (chosen o (is_bad_version v) (build_new (get v c) host source_dir out_dir v c)).fault)
      named
    ∙ ap (λ o. (chosen false o (build_new (get v c) host source_dir out_dir v c)).fault) good
    ∙ ap (λ o. (build_new o host source_dir out_dir v c).fault) new
    ∙ build_new-good host source_dir out_dir v w c other new
  where
    chosen : Bool → Bool → Run → Run
    chosen empty bad run =
        if empty then refused c no_version else (if bad then refused c bad_version else run)

pub build_succeeds :
    (host : Host) (source_dir out_dir version : String) (c : Catalogue)
    → is_empty (trim_space version) ≡ false
    → is_bad_version (trim_space version) ≡ false
    → toolchain_cache_dir ≢ trim_space version
    → get (trim_space version) c ≡ none
    → IsWorking host source_dir out_dir (trim_space version)
    → let run = build host source_dir out_dir version c in
      (run.fault ≡ none) × IsPublished host source_dir out_dir (trim_space version) run.catalogue
build_succeeds host source_dir out_dir version c named good other new w =
    let v = trim_space version in
    let run = build host source_dir out_dir version c in
    let done : run.fault ≡ none =
      build-good host source_dir out_dir version c named good other new w in
    let atomic = build-IsAtomic host source_dir out_dir version v c (staging_differs v) other in
    (
      done,
      ended-IsPublished host source_dir out_dir v c run.catalogue
          (subst (Ends host source_dir out_dir v v c run.catalogue) done atomic.ends),
    )
