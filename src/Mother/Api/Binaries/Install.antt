-- ===== src/Mother/Api/Binaries/Install.antt =====
-- mother/build/build.go, mother/build/store.go, mother/api/binaries.go and shared/selfupdate: a version
-- on its way from the build to an agent's disk.
use mathlib.Core.Path.{subst}
use feast_watch.Prelude.{
  ℕ, ◌≤◌, ◌≡◌, ◌≢◌, refl, sym, ap, ◌∙◌, String, true, false, Option, none, some, List, [], ◌∷◌,
  ◌++◌, map, length, All, str_eq_iff, arith,
}
use feast_watch.Prelude.Map.{string_eq, get, HasDistinctKeys, All-get}
use feast_watch.Prelude.Text.{◌<>◌, cut_prefix, trim_space}
use feast_watch.Shared.Checksum.{Bytes, checksum_file}
use feast_watch.Shared.Checksum.RoundTrip.{IsDigest}
use feast_watch.Shared.Release.{
  agent_kind, Platform, token, platforms, mother_platforms, asset_name, asset_kind_of, download_url,
}
use feast_watch.Shared.Release.Names.{read_back}
use feast_watch.Shared.SelfUpdate.{Response, answered, Local, Disk, max_binary_size, place}
use feast_watch.Shared.SelfUpdate.Download.{binary_file}
use feast_watch.Shared.SelfUpdate.Success.{IsSound, place_succeeds}
use feast_watch.Mother.Release.{Snapshot, refresh}
use feast_watch.Mother.Build.{Entry, plain, folder, locked, Catalogue, build}
use feast_watch.Mother.Build.Compile.{
  Files, Host, agent_target, mother_target, Target, targets, compiled, staging_of,
  toolchain_cache_dir,
}
use feast_watch.Mother.Build.Complete.{companion, IsDone}
use feast_watch.Mother.Build.Atomic.{Ends, staging_differs, build-IsAtomic}
use feast_watch.Mother.Build.Catalogue.{Sorts, fetch, listed, is_hidden, has_key, asset_in}
use feast_watch.Mother.Build.Offers.{IsOffered, Reorders, index_offers_iff}
use feast_watch.Mother.Api.Binaries.{Answer, served, serve_asset}
use feast_watch.Mother.Api.Binaries.Offered.{offers-knows, serve_binary, serve_sum}

-- How an answer of the mother reaches a client.
abbrev pub response : Answer → Response
response (served bytes) = answered 200 bytes false
response Answer.no_catalogue = answered 404 [] false
response Answer.no_such_build = answered 404 [] false
response Answer.no_such_release = answered 404 [] false
response Answer.not_in_catalogue = answered 404 [] false
response Answer.no_such_file = answered 404 [] false

-- Every file of the entry is within the limit of a download.
abbrev pub AreSmall : Option Entry → Type 0
AreSmall none = Unit
AreSmall (some plain) = Unit
AreSmall (some (locked files)) = All (λ x. length x.1 ≤ max_binary_size) files
AreSmall (some (folder files)) = All (λ x. length x.1 ≤ max_binary_size) files

visible_differs : (version : String) → is_hidden version ≡ false → toolchain_cache_dir ≢ version
unfolding is_hidden cut_prefix
visible_differs version seen e =
    let hidden : is_hidden toolchain_cache_dir ≡ true = refl in cc (seen, hidden, ap is_hidden e)

-- The agent at this client, with this disk.
pub record Agent : Type 0 where
  pub client : String → Response
  pub fs : Local
  pub base_url : String
  pub disk : Disk

-- The mother answers the client, and no call on the agent's disk fails.
pub record IsReached (agent : Agent) (snap : Snapshot) (c : Catalogue) (tag : String) : Type 0 where
  pub answers :
      (name : String)
      → agent.client (download_url agent.base_url tag name)
        ≡ response (serve_asset snap (some c) tag name)
  pub sound : IsSound agent.fs max_binary_size

IsSound-within :
    (fs : Local) (size : ℕ) → size ≤ max_binary_size → IsSound fs max_binary_size → IsSound fs size
IsSound-within fs size h s = record {
  creates = s.creates;
  room = omega (arith, h, s.room);
  chmods = s.chmods;
  syncs = s.syncs;
  closes = s.closes;
  renames = s.renames;
}

-- The update to this version has put in place what the compiler made for the platform.
pub record IsInstalled (host : Host) (source_dir staging version : String) (toolchain : List String)
    (agent : Agent) (p : Platform) : Type 0 where
  pub bytes : Bytes
  pub made : compiled host source_dir staging version toolchain (agent_target p) ≡ some bytes
  pub in_place :
      place host.sha256 agent.client agent.fs agent.base_url version
        (asset_name p.goos p.goarch)
        agent.disk
      ≡ (none, record { dest = some (binary_file bytes); temp = none })

module _ (host : Host) (source_dir staging version : String) (toolchain : List String)
    (digests : (b : Bytes) → IsDigest (host.sha256 b)) (sorts : Sorts) (reorders : Reorders sorts)
    (s : Snapshot) (c : Catalogue) (files : Files) (distinct : HasDistinctKeys c)
    (there : get version c ≡ some (folder files)) (seen : is_hidden version ≡ false)
    (small : AreSmall (some (folder files))) (agent : Agent)
    (reached : IsReached agent (refresh s (fetch sorts (listed c))) c version) where
  install_one :
      (p : Platform)
      → asset_kind_of (asset_name p.goos p.goarch) ≡ some (agent_kind, token p)
      → IsDone host source_dir staging version toolchain files (agent_target p)
      → IsInstalled host source_dir staging version toolchain agent p
  install_one p named (bytes, made, stored, beside) =
      let asset = asset_name p.goos p.goarch in
      let snap = refresh s (fetch sorts (listed c)) in
      let offered = (index_offers_iff sorts reorders agent_kind version (token p) s c distinct).1 (
        subst (IsOffered agent_kind version (token p)) (sym there) (
          seen,
          record {
            name = asset;
            names = named;
            there = ap has_key stored;
            beside = ap has_key beside;
          },
        )) in
      let known = offers-knows agent_kind version (token p) snap offered in
      let in_catalogue = ap (asset_in asset) there ∙ stored in
      let binary =
        serve_binary snap c version asset (agent_kind, token p) bytes named known in_catalogue in
      let sum =
        serve_sum snap c version asset (agent_kind, token p) bytes
          (checksum_file (host.sha256 bytes)) named known in_catalogue
          (ap (asset_in (companion asset)) there ∙ beside) in
      let fits = All-get (λ x. length x.1 ≤ max_binary_size) asset bytes files small stored in
      record {
        bytes = bytes;
        made = made;
        in_place =
            place_succeeds host.sha256 agent.client agent.fs agent.base_url version asset agent.disk
              bytes (digests bytes) (reached.answers asset ∙ ap response binary)
              (reached.answers (companion asset) ∙ ap response sum) fits
              (IsSound-within agent.fs (length bytes) fits reached.sound);
      }

  install-All :
      (ps : List Platform) (rest : List Target)
      → All (λ p. asset_kind_of (asset_name p.goos p.goarch) ≡ some (agent_kind, token p)) ps
      → All (IsDone host source_dir staging version toolchain files) (map agent_target ps ++ rest)
      → All (IsInstalled host source_dir staging version toolchain agent) ps
  install-All [] rest named done = tt
  install-All (p ∷ ps) rest named done =
      (install_one p named.0 done.0, install-All ps rest named.1 done.1)

-- The version is installed on an agent of every platform that agents are built for.
pub record IsRolledOut (host : Host) (source_dir out_dir version : String) (agent : Agent)
    : Type 0 where
  pub toolchain : List String
  pub installed :
      All
        (IsInstalled host source_dir
          (out_dir <> ("/" <> staging_of version))
          version
          toolchain
          agent)
        platforms

ended-IsRolledOut :
    (host : Host) (source_dir out_dir version : String)
    (digests : (b : Bytes) → IsDigest (host.sha256 b)) (sorts : Sorts) (reorders : Reorders sorts)
    (s : Snapshot) (before after : Catalogue) (distinct : HasDistinctKeys after)
    (seen : is_hidden version ≡ false) (small : AreSmall (get version after)) (agent : Agent)
    (reached : IsReached agent (refresh s (fetch sorts (listed after))) after version)
    → Ends host source_dir out_dir version version before after none
    → IsRolledOut host source_dir out_dir version agent
unfolding targets
ended-IsRolledOut host source_dir out_dir version digests sorts reorders s before after distinct
      seen small agent reached ends =
    let (files, whole, e) = ends.1 in
    let there : get version after ≡ some (folder files) =
      e ∙ rw ((str_eq_iff version version).1 refl) refl in
    record {
      toolchain = whole.toolchain;
      installed =
          install-All host source_dir (out_dir <> ("/" <> staging_of version)) version
            whole.toolchain digests sorts reorders s after files distinct there seen
            (subst AreSmall there small) agent reached platforms
            (map mother_target mother_platforms) (read_back agent_kind) whole.done;
    }

-- From the build to the disk of an agent. Where SHA-256 gives 32 bytes, Go's sorts reorder, the
-- catalogue has no name twice, the version does not begin with a dot and its files are within the
-- limit of a download: when a build has ended without an error, the index has been refreshed from the
-- catalogue, the agent's requests are answered by the download handler and no call on its disk fails,
-- then on every platform that agents are built for the update to the version succeeds and puts in
-- place, executable and synced, the bytes that the compiler made for that platform.
pub built_version_is_installed :
    (host : Host) (source_dir out_dir version : String) (before : Catalogue)
    → ((b : Bytes) → IsDigest (host.sha256 b))
    → (build host source_dir out_dir version before).fault ≡ none
    → (sorts : Sorts) → Reorders sorts
    → HasDistinctKeys (build host source_dir out_dir version before).catalogue
    → is_hidden (trim_space version) ≡ false
    → AreSmall (get (trim_space version) (build host source_dir out_dir version before).catalogue)
    → (agent : Agent) (s : Snapshot)
    → IsReached agent
        (refresh s (fetch sorts (listed (build host source_dir out_dir version before).catalogue)))
        (build host source_dir out_dir version before).catalogue
        (trim_space version)
    → IsRolledOut host source_dir out_dir (trim_space version) agent
built_version_is_installed host source_dir out_dir version before digests good sorts reorders
      distinct seen small agent s reached =
    let v = trim_space version in
    let run = build host source_dir out_dir version before in
    let atomic =
      build-IsAtomic host source_dir out_dir version v before (staging_differs v)
        (visible_differs v seen) in
    ended-IsRolledOut host source_dir out_dir v digests sorts reorders s before run.catalogue
      distinct seen small agent reached
      (subst (Ends host source_dir out_dir v v before run.catalogue) good atomic.ends)
