-- ===== src/Examples/OfBuild.antt =====
-- mother/build/ and mother/api/binaries.go: a version that is built, offered, served and installed.
use mathlib.Core.List.Perm
use text.Mathlib.TextLemmas.{append_assoc}
use feast_watch.Prelude.{
  ◌≡◌, ◌↔◌, ◌∙◌, ap, sym, refl, true, false, Option, none, some, [], ◌∷◌, str_neq, arith, String,
}
use feast_watch.Prelude.Map.{string_eq, get, put, delete, HasDistinctKeys}
use feast_watch.Prelude.Text.{◌<>◌, trim_space, cut_prefix, has_suffix, trim_suffix}
use feast_watch.Prelude.Text.Affixes.{cut_prefix_own}
use feast_watch.Shared.Checksum.{checksum_file}
use feast_watch.Shared.Release.{
  asset_name, mother_asset_name, agent_kind, asset_kind_of, download_url,
}
use feast_watch.Shared.SelfUpdate.{Response, unreachable}
use feast_watch.Mother.Release.{Snapshot, new_cache, refresh}
use feast_watch.Mother.Build.{plain, folder, Catalogue, is_bad_version, build}
use feast_watch.Mother.Build.Compile.{Host, toolchain_cache_dir, toolchain_env, targets}
use feast_watch.Mother.Build.Atomic.{IsAtomic, build-IsAtomic}
use feast_watch.Mother.Build.Published.{IsPublished}
use feast_watch.Mother.Build.Success.{IsWorking, build_succeeds}
use feast_watch.Mother.Build.Catalogue.{Sorts, fetch, listed, ensure, is_hidden}
use feast_watch.Mother.Build.Offers.{Reorders, offers, index_of, IsOffered, index_offers_iff}
use feast_watch.Mother.Api.Binaries.{serve_asset}
use feast_watch.Mother.Api.Binaries.Serving.{IsListed, served-IsListed}
use feast_watch.Mother.Api.Binaries.Offered.{IsDownloadable, offered-IsDownloadable}
use feast_watch.Mother.Api.Binaries.Install.{
  AreSmall, Agent, IsReached, IsRolledOut, response, built_version_is_installed,
}
use feast_watch.Examples.Fixtures.{digest, digest-IsDigest}

abbrev builder : Host
builder = record {
  sweeps = true;
  cleans = true;
  stages = true;
  has_go = true;
  makes_cache = λ sub. true;
  getenv = λ key. "/cache";
  environ = [];
  go = λ dir args env. some (1 ∷ 2 ∷ []);
  sha256 = λ b. digest;
  reads_back = λ asset. true;
  write_ends = λ asset. none;
  renames = true;
}

abbrev older : Catalogue
older = ("notes", plain) ∷ []

build-IsAtomic_example :
    IsAtomic builder "src" "out"
      (trim_space "v1 ")
      "v0"
      older
      (build builder "src" "out" "v1 " older)
unfolding trim_space
build-IsAtomic_example =
    build-IsAtomic builder "src" "out" "v1 " "v0" older (str_neq "v1.building" "v0" refl)
      (str_neq toolchain_cache_dir "v0" refl)

builder-IsWorking : IsWorking builder "src" "out" "v1"
unfolding toolchain_env
builder-IsWorking = record {
  sweeps = refl;
  stages = refl;
  has_go = refl;
  toolchain = "CGO_ENABLED=0" ∷ [];
  environment = refl;
  compiles = λ t. (1 ∷ 2 ∷ [], refl);
  reads_back = λ asset. refl;
  writes = λ asset. refl;
  renames = refl;
}

build_succeeds_example :
    let run = build builder "src" "out" "v1" older in
    (run.fault ≡ none) × IsPublished builder "src" "out" "v1" run.catalogue
unfolding trim_space is_bad_version get
build_succeeds_example =
    build_succeeds builder "src" "out" "v1" older refl refl (str_neq toolchain_cache_dir "v1" refl)
      refl builder-IsWorking

-- A sort that has nothing to move.
abbrev sorts : Sorts
sorts = record { sort_strings = λ xs. xs; sort_slice = λ less xs. xs }

sorts-Reorders : Reorders sorts
sorts-Reorders = record { strings = λ xs. Perm.refl xs; builds = λ xs. Perm.refl xs }

abbrev asset : String
asset = "feast-watch-agent-linux-amd64"

abbrev stocked : Catalogue
stocked =
    (
      "v1",
      folder
          ((asset, 1 ∷ []) ∷ ("feast-watch-agent-linux-amd64.sha256", checksum_file digest) ∷ []),
    )
    ∷ older

index_offers_iff_example :
    (offers "v1" "linux-amd64"
        (index_of agent_kind (refresh new_cache (fetch sorts (listed stocked))))
      ≡ true)
    ↔ IsOffered agent_kind "v1" "linux-amd64" (get "v1" stocked)
index_offers_iff_example =
    index_offers_iff sorts sorts-Reorders agent_kind "v1" "linux-amd64" new_cache stocked
      ((refl, tt), (tt, tt))

abbrev index : Snapshot
index = record {
  builds = record { version = "v1"; platforms = "linux-amd64" ∷ [] } ∷ [];
  mother = [];
  stale = false;
}

served-IsListed_example : IsListed index stocked "v1" asset (1 ∷ [])
unfolding serve_asset ensure get asset_kind_of has_suffix trim_suffix cut_prefix
served-IsListed_example = served-IsListed index stocked "v1" asset (1 ∷ []) refl

offered-IsDownloadable_example :
    IsDownloadable agent_kind "linux-amd64"
      (refresh new_cache (fetch sorts (listed stocked)))
      stocked
      "v1"
unfolding fetch refresh get asset_kind_of has_suffix cut_prefix checksum_file
offered-IsDownloadable_example =
    offered-IsDownloadable sorts sorts-Reorders agent_kind "v1" "linux-amd64" new_cache stocked
      ((refl, tt), (tt, tt)) refl

-- The catalogue behind a build of v1, as it is computed and as a value.
abbrev built : Catalogue
built = (build builder "src" "out" "v1" older).catalogue

abbrev snap : Snapshot
snap = refresh new_cache (fetch sorts (listed built))

-- The mother's download route, and nothing else.
abbrev route : String
route = "http://m/releases/download/v1/"

abbrev answer : Option String → Response
answer none = unreachable
answer (some name) = response (serve_asset snap (some built) "v1" name)

abbrev agent : Agent
agent = record {
  client = λ url. answer (cut_prefix route url);
  fs = record {
    creates = true;
    room = 268435456;
    chmods = true;
    syncs = true;
    closes = true;
    renames = true;
    removes = true;
  };
  base_url = "http://m/";
  disk = record { dest = none; temp = none };
}

url_of : (name : String) → download_url "http://m/" "v1" name ≡ route <> name
unfolding download_url trim_suffix
url_of name =
    sym (append_assoc "http://m" "/releases/download/" ("v1" <> ("/" <> name)))
    ∙ sym (append_assoc "http://m/releases/download/" "v1" ("/" <> name))
    ∙ sym (append_assoc "http://m/releases/download/v1" "/" name)

agent-IsReached : IsReached agent snap built "v1"
agent-IsReached = record {
  answers = λ name.
      ap (λ url. answer (cut_prefix route url)) (url_of name)
      ∙ ap answer (cut_prefix_own route name);
  sound = record {
    creates = refl;
    room = omega arith;
    chmods = refl;
    syncs = refl;
    closes = refl;
    renames = refl;
  };
}

built-distinct : HasDistinctKeys built
unfolding build trim_space get put delete targets
built-distinct = ((refl, tt), (tt, tt))

built-AreSmall : AreSmall (get "v1" built)
unfolding build trim_space get put delete targets checksum_file asset_name mother_asset_name
built-AreSmall = (
  omega arith,
  (
    omega arith,
    (
      omega arith,
      (
        omega arith,
        (
          omega arith,
          (
            omega arith,
            (
              omega arith,
              (omega arith, (omega arith, (omega arith, (omega arith, (omega arith, tt))))),
            ),
          ),
        ),
      ),
    ),
  ),
)

built_version_is_installed_example : IsRolledOut builder "src" "out" "v1" agent
unfolding trim_space is_hidden cut_prefix
built_version_is_installed_example =
    built_version_is_installed builder "src" "out" "v1" older (λ b. digest-IsDigest)
      (build_succeeds_example.0) sorts sorts-Reorders built-distinct refl built-AreSmall agent
      new_cache agent-IsReached
