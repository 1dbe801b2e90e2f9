-- ===== src/Shared/SelfUpdate/Place.antt =====
-- shared/selfupdate/selfupdate.go: what is in place after a download, and what is left over.
use feast_watch.Prelude.{◌≡◌, refl, sym, ap, ◌∙◌, String, Option, none, some, Bool-cases, inl, inr}
use feast_watch.Prelude.Text.{◌<>◌}
use feast_watch.Shared.Release.{checksum_suffix, download_url}
use feast_watch.Shared.Checksum.{Bytes, bytes_eq, bytes_eq_iff, parse_checksum, hex_encode}
use feast_watch.Shared.SelfUpdate.{
  max_binary_size, max_checksum_size, Response, Fault, Fetched, fetch_failed, fetched, File, Disk,
  Local, fetch, download, install, transfer, checked, place,
}
use feast_watch.Shared.SelfUpdate.Download.{
  IsPublished, Fetches, fetch-Fetches, remove_temp-dest, binary_file, Downloads, download-Downloads,
}

-- Under these two addresses a binary is published with its digest, and this is the file of it.
pub record IsVerified (sha256 : Bytes → Bytes) (sums binary : Response) (dest : Option File)
    : Type 0 where
  pub body : Bytes
  pub raw : Bytes
  pub binary_published : IsPublished binary body max_binary_size
  pub sum_published : IsPublished sums raw max_checksum_size
  pub agrees : parse_checksum raw ≡ some (hex_encode (sha256 body))
  pub whole : dest ≡ some (binary_file body)

-- What an update leaves at the destination.
abbrev pub Places : (Bytes → Bytes) → (sums binary : Response) → Disk → Option Fault × Disk → Type 0
Places sha256 sums binary before (some fault, after) = after.dest ≡ before.dest
Places sha256 sums binary before (none, after) = IsVerified sha256 sums binary after.dest

module _ (sha256 : Bytes → Bytes) (fs : Local) where
  install-Places :
      (sums binary : Response) (before : Disk) (raw want : Bytes) (got : Fetched × Disk)
      → IsPublished sums raw max_checksum_size
      → parse_checksum raw ≡ some want
      → Downloads sha256 fs binary max_binary_size before got
      → Places sha256 sums binary before (install fs want got)
  install-Places sums binary before raw want (fetch_failed fault, after) p r h = h
  install-Places sums binary before raw want (fetched sum, after) p r h =
      elim (Bool-cases (bytes_eq sum want)) [
        | inr differ ↦ rw differ (remove_temp-dest fs after ∙ h.0)
        | inl same ↦ elim (Bool-cases fs.renames) [
          | inr stuck ↦ rw (same, stuck) (remove_temp-dest fs after ∙ h.0)
          | inl moved ↦
              let digest : want ≡ hex_encode (sha256 h.1.0) =
                sym ((bytes_eq_iff sum want).0 same) ∙ h.1.2 in
              rw (same, moved)
                record {
                  body = h.1.0;
                  raw = raw;
                  binary_published = h.1.1;
                  sum_published = p;
                  agrees = r ∙ ap some digest;
                  whole = h.1.3;
                }
        ]
      ]

  checked-Places :
      (sums binary : Response) (before : Disk) (got : Fetched)
      → Fetches sums max_checksum_size got
      → Places sha256 sums binary before (checked sha256 fs binary got before)
  checked-Places sums binary before (fetch_failed fault) h = refl
  checked-Places sums binary before (fetched raw) h = read (parse_checksum raw) refl
    where
      read :
          (digest : Option Bytes)
          → parse_checksum raw ≡ digest
          → Places sha256 sums binary before (transfer sha256 fs binary before digest)
      read none r = refl
      read (some want) r =
          install-Places sums binary before raw want
            (download sha256 fs max_binary_size binary before) h r
            (download-Downloads sha256 fs binary max_binary_size before)

-- However the release host answers and whatever the file system does: an update that reports no
-- error has put at the destination the whole binary that the release publishes, executable and
-- synced, and its SHA-256 is the published one; an update that reports an error has left the
-- destination as it was.
pub place_verifies :
    (sha256 : Bytes → Bytes) (client : String → Response) (fs : Local) (base_url tag asset : String)
    (disk : Disk)
    → Places sha256
        (client (download_url base_url tag (asset <> checksum_suffix)))
        (client (download_url base_url tag asset))
        disk
        (place sha256 client fs base_url tag asset disk)
unfolding place
place_verifies sha256 client fs base_url tag asset disk =
    let sums = client (download_url base_url tag (asset <> checksum_suffix)) in
    checked-Places sha256 fs sums (client (download_url base_url tag asset)) disk
      (fetch sums max_checksum_size) (fetch-Fetches sums max_checksum_size)
