-- ===== src/Shared/SelfUpdate/Success.antt =====
-- shared/selfupdate/selfupdate.go: an update from a host that publishes what it was built from.
use feast_watch.Prelude.{
  ℕ, ◌+◌, ◌≤◌, ◌≡◌, refl, ap, ◌∙◌, String, true, false, none, some, ltb, length, take, take_all,
  length-append, [], ◌∷◌, arith,
}
use feast_watch.Prelude.Text.{◌<>◌}
use feast_watch.Shared.Release.{checksum_suffix, download_url}
use feast_watch.Shared.Checksum.{Bytes, bytes_eq_iff, parse_checksum, hex_encode, checksum_file}
use feast_watch.Shared.Checksum.RoundTrip.{
  length-hex_encode, IsDigest, newline-IsBreak, parse_checksum-hex,
}
use feast_watch.Shared.SelfUpdate.{
  max_binary_size, max_checksum_size, Response, answered, fetched, Disk, Local, fetch, copy_body,
  download, install, transfer, checked, place,
}
use feast_watch.Shared.SelfUpdate.Download.{binary_file}

-- No call on the temporary file fails.
pub record IsSound (fs : Local) (size : ℕ) : Type 0 where
  pub creates : fs.creates ≡ true
  pub room : size ≤ fs.room
  pub chmods : fs.chmods ≡ true
  pub syncs : fs.syncs ≡ true
  pub closes : fs.closes ≡ true
  pub renames : fs.renames ≡ true

fetch_whole :
    (body : Bytes) (limit : ℕ)
    → length body ≤ limit
    → fetch (answered 200 body false) limit ≡ fetched body
unfolding fetch
fetch_whole body limit h =
    let all = take_all (limit + 1) body (omega (arith, h)) in
    let fits : ltb limit (length (take (limit + 1) body)) ≡ false =
      ground (arith, ap length all, h) in
    rw (fits, all) refl

copy_whole :
    (fs : Local) (limit : ℕ) (body : Bytes)
    → length body ≤ limit
    → length body ≤ fs.room
    → copy_body fs limit body false ≡ (body, none)
unfolding copy_body
copy_whole fs limit body h r =
    let all = take_all (limit + 1) body (omega (arith, h)) in
    let room : ltb fs.room (length (take (limit + 1) body)) ≡ false =
      ground (arith, ap length all, r) in
    let fits : ltb limit (length (take (limit + 1) body)) ≡ false =
      ground (arith, ap length all, h) in
    rw (room, fits, all) refl

download_whole :
    (sha256 : Bytes → Bytes) (fs : Local) (limit : ℕ) (body : Bytes) (disk : Disk)
    → length body ≤ limit
    → IsSound fs (length body)
    → download sha256 fs limit (answered 200 body false) disk
      ≡ (fetched (hex_encode (sha256 body)), record disk { temp = some (binary_file body) })
unfolding download
download_whole sha256 fs limit body disk h s =
    rw (s.creates, copy_whole fs limit body h s.room, s.chmods, s.syncs, s.closes) refl

sum_small : (digest : Bytes) → IsDigest digest → length (checksum_file digest) ≤ max_checksum_size
unfolding checksum_file
sum_small digest d =
    omega (arith, length-append (hex_encode digest) (b'\n' ∷ []), length-hex_encode digest, d.size)

sum_read :
    (digest : Bytes)
    → IsDigest digest
    → parse_checksum (checksum_file digest) ≡ some (hex_encode digest)
unfolding checksum_file
sum_read digest d = parse_checksum-hex digest (b'\n' ∷ []) d (newline-IsBreak [])

install_whole :
    (fs : Local) (sum : Bytes) (disk : Disk)
    → fs.renames ≡ true
    → install fs sum (fetched sum, disk) ≡ (none, record { dest = disk.temp; temp = none })
install_whole fs sum disk moved = rw ((bytes_eq_iff sum sum).1 refl, moved) refl

-- Where the host publishes a binary within the size limit and beside it the digest file that the
-- build writes for it, and no call on the temporary file fails, an update succeeds: the binary is
-- the destination, executable and synced, and no temporary file is left.
pub place_succeeds :
    (sha256 : Bytes → Bytes) (client : String → Response) (fs : Local) (base_url tag asset : String)
    (disk : Disk) (body : Bytes)
    → IsDigest (sha256 body)
    → client (download_url base_url tag asset) ≡ answered 200 body false
    → client (download_url base_url tag (asset <> checksum_suffix))
      ≡ answered 200 (checksum_file (sha256 body)) false
    → length body ≤ max_binary_size
    → IsSound fs (length body)
    → place sha256 client fs base_url tag asset disk
      ≡ (none, record { dest = some (binary_file body); temp = none })
unfolding place
place_succeeds sha256 client fs base_url tag asset disk body d b c small s =
    ap
      (λ x.
        checked sha256 fs x
          (fetch (client (download_url base_url tag (asset <> checksum_suffix))) max_checksum_size)
          disk)
      b
    ∙ ap (λ x. checked sha256 fs (answered 200 body false) (fetch x max_checksum_size) disk) c
    ∙ ap (λ x. checked sha256 fs (answered 200 body false) x disk)
        (fetch_whole (checksum_file (sha256 body)) max_checksum_size (sum_small (sha256 body) d))
    ∙ ap (transfer sha256 fs (answered 200 body false) disk) (sum_read (sha256 body) d)
    ∙ ap (install fs (hex_encode (sha256 body)))
        (download_whole sha256 fs max_binary_size body disk small s)
    ∙ install_whole fs (hex_encode (sha256 body)) (record disk { temp = some (binary_file body) })
        s.renames
