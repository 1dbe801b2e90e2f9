-- ===== src/Examples/OfStaging.antt =====
-- mother/build/: what the index offers while a build runs, and after one that was killed.
use feast_watch.Prelude.{
  ◌≡◌, refl, true, false, none, some, [], ◌∷◌, any, Option, List, String, str_eq, if◌then◌else◌,
  Bool,
}
use feast_watch.Prelude.Text.{trim_space, has_suffix, cut_prefix}
use feast_watch.Prelude.Map.{get, put, delete}
use feast_watch.Shared.Release.{agent_kind, asset_name, mother_asset_name, asset_kind_of}
use feast_watch.Shared.Checksum.{Bytes}
use feast_watch.Mother.Release.{new_cache, refresh}
use feast_watch.Mother.Build.{Catalogue, build}
use feast_watch.Mother.Build.Compile.{Host, targets}
use feast_watch.Mother.Build.Catalogue.{Sorts, fetch, listed}
use feast_watch.Mother.Build.Offers.{offers, index_of}
use feast_watch.Examples.Fixtures.{digest}

abbrev sorts : Sorts
sorts = record { sort_strings = λ xs. xs; sort_slice = λ less xs. xs }

-- The compiler works for one platform; what runs at the end of a process does not run in one that is killed.
abbrev compiles_linux : List String → Option Bytes
compiles_linux env = if any (λ v. str_eq v "GOARCH=amd64") env then some (1 ∷ []) else none

abbrev host : Host
host = record {
  sweeps = true;
  cleans = false;
  stages = true;
  has_go = true;
  makes_cache = λ sub. true;
  getenv = λ key. "/cache";
  environ = [];
  go = λ dir args env. compiles_linux env;
  sha256 = λ b. digest;
  reads_back = λ asset. true;
  write_ends = λ asset. none;
  renames = true;
}

abbrev is_offered : Catalogue → Bool
is_offered c =
    offers "v1.building" "linux-amd64"
      (index_of agent_kind (refresh new_cache (fetch sorts (listed c))))

offered_on_the_way : any is_offered (build host "src" "out" "v1" []).states ≡ true
unfolding build trim_space targets get put delete fetch refresh asset_kind_of has_suffix cut_prefix
    asset_name mother_asset_name
offered_on_the_way = refl

offered_after_a_kill : is_offered (build host "src" "out" "v1" []).catalogue ≡ true
unfolding build trim_space targets get put delete fetch refresh asset_kind_of has_suffix cut_prefix
    asset_name mother_asset_name
offered_after_a_kill = refl
