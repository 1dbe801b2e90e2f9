-- ===== src/Mother/Build/Published.antt =====
-- mother/build/build.go and `ExpectedAssets` of shared/release/release.go: what a build leaves in the
-- catalogue, and what a release is expected to hold.
use feast_watch.Prelude.{
  ◌≡◌, refl, sym, ap, ◌∙◌, String, true, none, some, List, [], ◌∷◌, ◌++◌, map, All, str_eq_iff,
}
use feast_watch.Prelude.Map.{string_eq, get}
use feast_watch.Prelude.Text.{◌<>◌}
use feast_watch.Shared.Release.{
  Platform, platforms, mother_platforms, asset_name, mother_asset_name, with_checksums,
  expected_assets,
}
use feast_watch.Mother.Build.{folder, Catalogue}
use feast_watch.Mother.Build.Compile.{
  Files, Host, Target, agent_target, mother_target, targets, staging_of,
}
use feast_watch.Mother.Build.Complete.{companion, IsDone}
use feast_watch.Mother.Build.Atomic.{IsComplete, Ends}
use feast_watch.Mother.Build.Catalogue.{has_key}

abbrev pub IsStocked : Files → List String → Type 0
IsStocked files = All (λ name. has_key (get name files) ≡ true)

-- What a release has to be: a directory of the catalogue with the binary that the compiler made for
-- every target, the digest of it, and every asset that a release is expected to have.
pub record IsPublished (host : Host) (source_dir out_dir version : String) (after : Catalogue)
    : Type 0 where
  pub files : Files
  pub there : get version after ≡ some (folder files)
  pub whole : IsComplete host source_dir out_dir version files
  pub assets : IsStocked files expected_assets

assets-IsStocked :
    (host : Host) (source_dir staging version : String) (toolchain : List String) (files : Files)
    (target : Platform → Target) (name : String → String → String) (ps : List Platform)
    (ts : List Target) (more : List String)
    → ((p : Platform) → (target p).asset ≡ name p.goos p.goarch)
    → (All (IsDone host source_dir staging version toolchain files) ts → IsStocked files more)
    → All (IsDone host source_dir staging version toolchain files) (map target ps ++ ts)
    → IsStocked files (with_checksums name ps ++ more)
assets-IsStocked host source_dir staging version toolchain files target name [] ts more e k done =
    k done
assets-IsStocked host source_dir staging version toolchain files target name (p ∷ ps) ts more e k
      done =
    let (bytes, made, there, beside) = done.0 in
    (
      ap (λ n. has_key (get n files)) (sym (e p)) ∙ ap has_key there,
      (
        ap (λ n. has_key (get (companion n) files)) (sym (e p)) ∙ ap has_key beside,
        assets-IsStocked host source_dir staging version toolchain files target name ps ts more e k
            done.1,
      ),
    )

pub ended-IsPublished :
    (host : Host) (source_dir out_dir version : String) (before after : Catalogue)
    → Ends host source_dir out_dir version version before after none
    → IsPublished host source_dir out_dir version after
unfolding targets expected_assets
ended-IsPublished host source_dir out_dir version before after ends =
    let (files, whole, e) = ends.1 in
    let staging = out_dir <> ("/" <> staging_of version) in
    record {
      files = files;
      there = e ∙ rw ((str_eq_iff version version).1 refl) refl;
      whole = whole;
      assets =
          assets-IsStocked host source_dir staging version whole.toolchain files agent_target
            asset_name platforms (map mother_target mother_platforms)
            (with_checksums mother_asset_name mother_platforms) (λ p. refl)
            (assets-IsStocked host source_dir staging version whole.toolchain files mother_target
              mother_asset_name mother_platforms [] [] (λ p. refl) (λ h. tt))
            whole.done;
    }
