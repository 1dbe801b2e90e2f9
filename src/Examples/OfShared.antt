-- ===== src/Examples/OfShared.antt =====
-- shared/: names of builds, digests, the checked download, on small inputs.
use feast_watch.Prelude.{
  ◌≡◌, ◌↔◌, refl, true, false, none, some, [], ◌∷◌, ◌++◌, arith, String, length,
}
use feast_watch.Prelude.Text.{◌<>◌, has_suffix, trim_suffix}
use feast_watch.Shared.Checksum.{Bytes, parse_checksum, hex_encode, checksum_file}
use feast_watch.Shared.Checksum.RoundTrip.{parse_checksum-checksum_file}
use feast_watch.Shared.Release.{agent_kind, asset_kind_of, checksum_suffix, download_url}
use feast_watch.Shared.Release.Names.{matrix, IsNameOf, asset_kind_of_iff}
use feast_watch.Shared.SelfUpdate.{Response, answered, Local, Disk, place}
use feast_watch.Shared.SelfUpdate.Download.{binary_file}
use feast_watch.Shared.SelfUpdate.Place.{Places, place_verifies}
use feast_watch.Shared.SelfUpdate.Success.{IsSound, place_succeeds}
use feast_watch.Mother.Release.Order.{natural_less, ChunkLoop}
use feast_watch.Mother.Release.Order.Laws.{natural_less-ChunkLoop}
use feast_watch.Mother.Release.Order.Prerelease.{suffix_sorts_above}
use feast_watch.Examples.Fixtures.{digest, digest-IsDigest}

asset_kind_of_iff_example :
    (asset_kind_of "feast-watch-agent-linux-arm64" ≡ some (agent_kind, "linux-arm64"))
    ↔ IsNameOf agent_kind "linux-arm64" "feast-watch-agent-linux-arm64" (matrix agent_kind)
asset_kind_of_iff_example =
    asset_kind_of_iff agent_kind "linux-arm64" "feast-watch-agent-linux-arm64"

parse_checksum-checksum_file_example :
    parse_checksum (checksum_file digest ++ b'x' ∷ b'f' ∷ []) ≡ some (hex_encode digest)
parse_checksum-checksum_file_example =
    parse_checksum-checksum_file digest (b'x' ∷ b'f' ∷ []) digest-IsDigest

-- U+00A0 ends the digest, and U+3000 in front of it is skipped.
spaces_are_skipped :
    parse_checksum (0xe3 ∷ 0x80 ∷ 0x80 ∷ hex_encode digest ++ 0xc2 ∷ 0xa0 ∷ [])
    ≡ some (hex_encode digest)
unfolding parse_checksum hex_encode
spaces_are_skipped = refl

-- The half of a sequence is no space.
half_is_no_space : parse_checksum (hex_encode digest ++ 0xc2 ∷ []) ≡ none
unfolding parse_checksum hex_encode
half_is_no_space = refl

abbrev sha256 : Bytes → Bytes
sha256 b = digest

abbrev binary : Bytes
binary = 1 ∷ 2 ∷ 3 ∷ []

abbrev fs : Local
fs = record {
  creates = true;
  room = 5000;
  chmods = true;
  syncs = true;
  closes = true;
  renames = true;
  removes = true;
}

abbrev disk : Disk
disk = record { dest = some (binary_file (7 ∷ [])); temp = none }

-- A host that publishes the binary under every name, with the digest where the name says so.
abbrev host : String → Response
host url = elim (has_suffix checksum_suffix url) [
  | true ↦ answered 200 (checksum_file digest) false
  | false ↦ answered 200 binary false
]

place_verifies_example :
    Places sha256
      (host (download_url "http://m" "v1" ("a" <> checksum_suffix)))
      (host (download_url "http://m" "v1" "a"))
      disk
      (place sha256 host fs "http://m" "v1" "a" disk)
place_verifies_example = place_verifies sha256 host fs "http://m" "v1" "a" disk

fs-IsSound : IsSound fs (length binary)
fs-IsSound = record {
  creates = refl;
  room = omega arith;
  chmods = refl;
  syncs = refl;
  closes = refl;
  renames = refl;
}

place_succeeds_example :
    place sha256 host fs "http://m" "v1" "a" disk
    ≡ (none, record { dest = some (binary_file binary); temp = none })
unfolding download_url has_suffix trim_suffix
place_succeeds_example =
    place_succeeds sha256 host fs "http://m" "v1" "a" disk binary digest-IsDigest refl refl
      (omega arith) fs-IsSound

-- "v1", "v1-rc1", "v10"
abbrev v1 : Bytes
v1 = b'v' ∷ b'1' ∷ []

natural_less-ChunkLoop_example : ChunkLoop v1 (v1 ++ b'0' ∷ []) (natural_less v1 (v1 ++ b'0' ∷ []))
natural_less-ChunkLoop_example = natural_less-ChunkLoop v1 (v1 ++ b'0' ∷ [])

suffix_sorts_above_example : natural_less v1 (v1 ++ b'-' ∷ b'r' ∷ b'c' ∷ b'1' ∷ []) ≡ true
suffix_sorts_above_example = suffix_sorts_above v1 (b'-' ∷ b'r' ∷ b'c' ∷ b'1' ∷ []) refl
