-- ===== src/Shared/SelfUpdate.antt =====
-- shared/selfupdate/selfupdate.go: the download of a binary that is checked and put in place.
-- The HTTP client is a parameter, a function from the URL to what it answers; the file operations
-- succeed or fail as `Local` says. The disk is the destination and the temporary file of this call.
pub mod Download
pub mod Place
pub mod Success
use feast_watch.Prelude.{
  ℕ, ◌+◌, String, Bool, true, false, Option, none, some, ltb, ◌==◌, str_eq, if◌then◌else◌, not,
  length, take, List, [], ◌∷◌,
}
use feast_watch.Prelude.Text.{◌<>◌}
use feast_watch.Shared.Release.{checksum_suffix, download_url}
use feast_watch.Shared.Checksum.{Bytes, bytes_eq, parse_checksum, hex_encode}

abbrev pub max_binary_size : ℕ
max_binary_size = 268435456

abbrev pub max_checksum_size : ℕ
max_checksum_size = 1024

-- `cut`: reading the body ends in an error behind the bytes that arrived.
pub data Response : Type 0 where
  unreachable : Response
  answered : (status : ℕ) (body : Bytes) (cut : Bool) → Response

pub data Fault : Type 0 where
  not_reached too_large cut_off no_digest no_temp disk_full no_chmod no_sync no_close mismatch
        no_rename :
      Fault
  bad_status : ℕ → Fault

pub data Fetched : Type 0 where
  fetch_failed : Fault → Fetched
  fetched : Bytes → Fetched

pub record File : Type 0 where
  pub content : Bytes
  pub mode : ℕ
  pub synced : Bool

pub record Disk : Type 0 where
  pub dest : Option File
  pub temp : Option File

-- What the file system does with the calls on the temporary file. `room` is how many bytes it takes.
pub record Local : Type 0 where
  pub creates : Bool
  pub room : ℕ
  pub chmods : Bool
  pub syncs : Bool
  pub closes : Bool
  pub renames : Bool
  pub removes : Bool

-- The reader stops one byte past the limit, or at the break.
abbrev pub read_limited : ℕ → Bytes → Bool → Fetched
read_limited limit body cut =
    let got = take (limit + 1) body in
    if ltb limit (length got)
    then fetch_failed too_large
    else (if cut then fetch_failed cut_off else fetched got)

unfoldable pub fetch : Response → ℕ → Fetched
fetch unreachable limit = fetch_failed not_reached
fetch (answered status body cut) limit =
    if not (status == 200) then fetch_failed (bad_status status) else read_limited limit body cut

infixl 30 ◌or_else◌
-- `if err == nil { err = next }`
abbrev pub ◌or_else◌ : Option Fault → Option Fault → Option Fault
(some fault) or_else next = some fault
none or_else next = next

abbrev pub check : Bool → Fault → Option Fault
check works fault = if works then none else some fault

abbrev pub remove_temp : Local → Disk → Disk
remove_temp fs disk = if fs.removes then record disk { temp = none } else disk

-- io.Copy through the limit into the file: what is written, and the error.
unfoldable pub copy_body : Local → ℕ → Bytes → Bool → Bytes × Option Fault
copy_body fs limit body cut =
    let got = take (limit + 1) body in
    if ltb fs.room (length got)
    then (take fs.room got, some disk_full)
    else (if ltb limit (length got)
        then (got, some too_large)
        else (got, (if cut then some cut_off else none)))

-- The error that the steps behind the copy leave.
abbrev pub settle : Local → Option Fault → Option Fault
settle fs err =
    ((err or_else check fs.chmods no_chmod) or_else check fs.syncs no_sync)
    or_else check fs.closes no_close

-- The temporary file as it stands when it is closed: created as 0600, made 0755.
abbrev pub temp_file : Local → Bytes × Option Fault → File
temp_file fs (got, err) = record {
  content = got;
  mode = elim (err or_else check fs.chmods no_chmod) [ none ↦ 0x1ed | some _ ↦ 0x180 ];
  synced = elim ((err or_else check fs.chmods no_chmod) or_else check fs.syncs no_sync) [
    | none ↦ true
    | some _ ↦ false
  ];
}

-- The digest of the temporary file as text, or the error, with the disk.
abbrev pub finish : Local → Disk → Bytes → Option Fault → Fetched × Disk
finish fs disk sum (some fault) = (fetch_failed fault, remove_temp fs disk)
finish fs disk sum none = (fetched sum, disk)

abbrev pub end_download : (Bytes → Bytes) → Local → Disk → Bytes × Option Fault → Fetched × Disk
end_download sha256 fs disk (got, err) =
    finish fs (record disk { temp = some (temp_file fs (got, err)) }) (hex_encode (sha256 got))
      (settle fs err)

unfoldable pub download : (Bytes → Bytes) → Local → ℕ → Response → Disk → Fetched × Disk
unfolding copy_body
download sha256 fs limit unreachable disk = (fetch_failed not_reached, disk)
download sha256 fs limit (answered status body cut) disk =
    if not (status == 200)
    then (fetch_failed (bad_status status), disk)
    else (if not fs.creates
        then (fetch_failed no_temp, disk)
        else end_download sha256 fs disk (copy_body fs limit body cut))

-- What is left of `Place` once the temporary file holds the binary.
abbrev pub install : Local → Bytes → Fetched × Disk → Option Fault × Disk
install fs want (fetch_failed fault, disk) = (some fault, disk)
install fs want (fetched sum, disk) =
    if not (bytes_eq sum want)
    then (some mismatch, remove_temp fs disk)
    else (if not fs.renames
        then (some no_rename, remove_temp fs disk)
        else (none, record { dest = disk.temp; temp = none }))

-- With the published digest read, the binary.
abbrev pub transfer : (Bytes → Bytes) → Local → Response → Disk → Option Bytes → Option Fault × Disk
transfer sha256 fs binary disk none = (some no_digest, disk)
transfer sha256 fs binary disk (some want) =
    install fs want (download sha256 fs max_binary_size binary disk)

abbrev pub checked : (Bytes → Bytes) → Local → Response → Fetched → Disk → Option Fault × Disk
checked sha256 fs binary (fetch_failed fault) disk = (some fault, disk)
checked sha256 fs binary (fetched raw) disk = transfer sha256 fs binary disk (parse_checksum raw)

unfoldable pub place :
    (Bytes → Bytes)
    → (String → Response)
    → Local
    → (base_url tag asset : String) → Disk
    → Option Fault × Disk
unfolding fetch download
place sha256 client fs base_url tag asset disk =
    checked sha256 fs (client (download_url base_url tag asset))
      (fetch (client (download_url base_url tag (asset <> checksum_suffix))) max_checksum_size) disk
