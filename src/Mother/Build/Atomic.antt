-- ===== src/Mother/Build/Atomic.antt =====
-- mother/build/build.go: what a build does to the entries of the catalogue, on its way and in the end.
use text.Mathlib.TextLemmas.{append_cancel_left, append-nil, cons≢nil}
use feast_watch.Prelude.{
  ◌≡◌, ◌≢◌, refl, sym, ap, ◌∙◌, String, Bool, true, false, Option, none, some, List, [], ◌∷◌, map,
  str_eq, if◌then◌else◌, not, All, is_empty, Bool-cases, str_eq_iff, inl, inr,
}
use feast_watch.Prelude.Map.{string_eq, get, put, delete, get-put, get-delete}
use feast_watch.Prelude.Text.{◌<>◌, trim_space}
use feast_watch.Mother.Build.{
  Entry, folder, Catalogue, Run, clean, abandon, stage, move, close_run, with_caches, run_staged,
  is_bad_version, build_new, build,
}
use feast_watch.Mother.Build.Compile.{
  Files, Host, BuildFault, targets, staging_of, toolchain_cache_dir, toolchain_env, makes_caches,
  compile_all, not_renamed, no_cache, no_go,
}
use feast_watch.Mother.Build.Complete.{IsDone, targets-IsDone}

-- The directory of a version in which every target is done.
pub record IsComplete (host : Host) (source_dir out_dir version : String) (files : Files)
    : Type 0 where
  pub toolchain : List String
  pub environment : toolchain_env host out_dir ≡ some toolchain
  pub done :
      All
        (IsDone host source_dir (out_dir <> ("/" <> staging_of version)) version toolchain files)
        targets

-- What has become of an entry when a build of the version ends so.
abbrev pub Ends :
    Host
    → (source_dir out_dir version name : String) → Catalogue
    → Catalogue
    → Option BuildFault
    → Type 0
Ends host source_dir out_dir version name before after (some fault) =
    get name after ≡ get name before
Ends host source_dir out_dir version name before after none =
    (get version before ≡ none)
    × ((files : Files) × IsComplete host source_dir out_dir version files
        × (get name after ≡ (if str_eq version name then some (folder files) else get name before)))

-- On the way of the run the entry is as it was before.
abbrev pub Keeps : (name : String) → Catalogue → Run → Type 0
Keeps name before run = All (λ c. get name c ≡ get name before) run.states

pub record IsAtomic (host : Host) (source_dir out_dir version name : String) (before : Catalogue)
    (run : Run) : Type 0 where
  pub keeps : Keeps name before run
  pub ends : Ends host source_dir out_dir version name before run.catalogue run.fault

module _ (host : Host) (source_dir out_dir version name : String)
    (beside : str_eq (staging_of version) name ≡ false)
    (no_cache_dir : str_eq toolchain_cache_dir name ≡ false) where
  stage-get : (c : Catalogue) (files : Files) → get name (stage version c files) ≡ get name c
  stage-get c files = get-put (staging_of version) name (folder files) c ∙ rw beside refl

  pub swept-get : (c : Catalogue) → get name (delete (staging_of version) c) ≡ get name c
  swept-get c = get-delete (staging_of version) name c ∙ rw beside refl

  clean-get : (c : Catalogue) → get name (clean host version c) ≡ get name c
  clean-get c = elim (Bool-cases host.cleans) [
    | inl cleans ↦ rw cleans (swept-get c)
    | inr left ↦ rw left refl
  ]

  pub with_caches-get : (c : Catalogue) → get name (with_caches host c) ≡ get name c
  with_caches-get c = go (makes_caches host) (get toolchain_cache_dir c)
    where
      go :
          (makes : Bool) (there : Option Entry)
          → get name (
              if makes
              then elim there [ some e ↦ c | none ↦ put toolchain_cache_dir (folder []) c ]
              else c)
            ≡ get name c
      go false there = refl
      go true (some e) = refl
      go true none = get-put toolchain_cache_dir name (folder []) c ∙ rw no_cache_dir refl

  stages-Keeps :
      (before c : Catalogue) (states : List Files)
      → get name c ≡ get name before
      → All (λ x. get name x ≡ get name before) (map (stage version c) states)
  stages-Keeps before c [] h = tt
  stages-Keeps before c (files ∷ states) h = (stage-get c files ∙ h, stages-Keeps before c states h)

  abandon-IsAtomic :
      (before : Catalogue) (states : List Catalogue) (c : Catalogue) (fault : BuildFault)
      → All (λ x. get name x ≡ get name before) states
      → get name c ≡ get name before
      → IsAtomic host source_dir out_dir version name before (abandon host version states c fault)
  abandon-IsAtomic before states c fault k h = record { keeps = k; ends = clean-get c ∙ h }

  -- A run that has come as far as this entry and its way are unchanged.
  abbrev IsOnWay : Catalogue → List Catalogue → Catalogue → Type 0
  IsOnWay before states c =
      All (λ x. get name x ≡ get name before) states × (get name c ≡ get name before)

  move-IsAtomic :
      (taken : Option Entry) (renames : Bool) (before : Catalogue) (states : List Catalogue)
      (c : Catalogue) (files : Files)
      → IsOnWay before states c
      → get version before ≡ none
      → IsComplete host source_dir out_dir version files
      → IsAtomic host source_dir out_dir version name before
          (move taken renames host version states c files)
  move-IsAtomic (some taken) renames before states c files h new whole =
      abandon-IsAtomic before states (stage version c files) not_renamed h.0
        (stage-get c files ∙ h.1)
  move-IsAtomic none false before states c files h new whole =
      abandon-IsAtomic before states (stage version c files) not_renamed h.0
        (stage-get c files ∙ h.1)
  move-IsAtomic none true before states c files h new whole =
      let published = get-put version name (folder files) (delete (staging_of version) c) in
      let others =
        ap (λ o. if str_eq version name then some (folder files) else o) (swept-get c ∙ h.1) in
      record { keeps = h.0; ends = (new, (files, whole, published ∙ others)) }

  close_run-IsAtomic :
      (fault : Option BuildFault) (before : Catalogue) (states : List Catalogue) (c : Catalogue)
      (files : Files)
      → IsOnWay before states c
      → get version before ≡ none
      → (fault ≡ none → IsComplete host source_dir out_dir version files)
      → IsAtomic host source_dir out_dir version name before
          (close_run fault host version states c files)
  close_run-IsAtomic (some fault) before states c files h new whole =
      abandon-IsAtomic before states (stage version c files) fault h.0 (stage-get c files ∙ h.1)
  close_run-IsAtomic none before states c files h new whole =
      move-IsAtomic (get version c) host.renames before states c files h new (whole refl)

  run_staged-IsAtomic :
      (env : Option (List String)) (before c : Catalogue)
      → toolchain_env host out_dir ≡ env
      → get name c ≡ get name before
      → get version before ≡ none
      → IsAtomic host source_dir out_dir version name before
          (run_staged host source_dir out_dir version c env)
  run_staged-IsAtomic none before c e h new =
      abandon-IsAtomic before (stage version c [] ∷ []) (stage version (with_caches host c) [])
        no_cache (stage-get c [] ∙ h, tt)
        (stage-get (with_caches host c) [] ∙ with_caches-get c ∙ h)
  run_staged-IsAtomic (some toolchain) before c e h new =
      let cached = with_caches-get c ∙ h in
      let staging = out_dir <> ("/" <> staging_of version) in
      let staged = compile_all host source_dir staging version toolchain targets [] in
      close_run-IsAtomic staged.fault before
        (stage version c []
          ∷ stage version (with_caches host c) []
          ∷ map (stage version (with_caches host c)) staged.states)
        (with_caches host c) staged.files
        (
          (
            stage-get c [] ∙ h,
            (
              stage-get (with_caches host c) [] ∙ cached,
              stages-Keeps before (with_caches host c) staged.states cached,
            ),
          ),
          cached,
        )
        new
        (λ good. record {
          toolchain = toolchain;
          environment = e;
          done = targets-IsDone host source_dir staging version toolchain [] good;
        })

  if-IsAtomic :
      (b : Bool) (before : Catalogue) (x y : Run)
      → IsAtomic host source_dir out_dir version name before x
      → IsAtomic host source_dir out_dir version name before y
      → IsAtomic host source_dir out_dir version name before (if b then x else y)
  if-IsAtomic true before x y hx hy = hx
  if-IsAtomic false before x y hx hy = hy

  build_new-IsAtomic :
      (taken : Option Entry) (c : Catalogue)
      → get version c ≡ taken
      → IsAtomic host source_dir out_dir version name c
          (build_new taken host source_dir out_dir version c)
  build_new-IsAtomic (some taken) c e = record { keeps = tt; ends = refl }
  build_new-IsAtomic none c e =
      let swept = delete (staging_of version) c in
      let no_toolchain = stage-get swept [] ∙ swept-get c in
      if-IsAtomic (not host.sweeps) c _ _ record { keeps = tt; ends = refl }
        (if-IsAtomic (not host.stages) c _ _
          record { keeps = (swept-get c, tt); ends = swept-get c }
          (if-IsAtomic (not host.has_go) c _ _
            (abandon-IsAtomic c (swept ∷ stage version swept [] ∷ []) (stage version swept []) no_go
              (swept-get c, (no_toolchain, tt)) no_toolchain)
            (run_staged-IsAtomic (toolchain_env host out_dir) c swept refl (swept-get c) e)))

pub neq_str : (a b : String) → a ≢ b → str_eq a b ≡ false
neq_str a b h = elim (Bool-cases (str_eq a b)) [
  | inl same ↦ absurd (h ((str_eq_iff a b).0 same))
  | inr other ↦ other
]

pub staging_differs : (version : String) → staging_of version ≢ version
staging_differs version e =
    cons≢nil (append_cancel_left version ".building" "" (e ∙ sym (append-nil version)))

-- Of every entry of the catalogue that is neither the staging directory of the build nor that of
-- the toolchain's caches: in every state on the way of a build it is as it was before. A build that
-- ends with an error leaves it so. A build that ends without one was of a version that was not there,
-- and has made it a directory in which every target is what the compiler produced, with its digest
-- beside it; any other entry is as it was.
pub build-IsAtomic :
    (host : Host) (source_dir out_dir version name : String) (c : Catalogue)
    → staging_of (trim_space version) ≢ name
    → toolchain_cache_dir ≢ name
    → IsAtomic host source_dir out_dir
        (trim_space version)
        name
        c
        (build host source_dir out_dir version c)
unfolding build
build-IsAtomic host source_dir out_dir version name c hs hc =
    let trimmed = trim_space version in
    let hs' = neq_str (staging_of trimmed) name hs in
    let hc' = neq_str toolchain_cache_dir name hc in
    if-IsAtomic host source_dir out_dir trimmed name hs' hc' (is_empty trimmed) c _ _
      record { keeps = tt; ends = refl }
      (if-IsAtomic host source_dir out_dir trimmed name hs' hc' (is_bad_version trimmed) c _ _
        record { keeps = tt; ends = refl }
        (build_new-IsAtomic host source_dir out_dir trimmed name hs' hc' (get trimmed c) c refl))
