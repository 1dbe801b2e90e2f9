-- ===== src/Shared/SelfUpdate/Download.antt =====
-- shared/selfupdate/selfupdate.go: what a fetch and a download give.
use feast_watch.Prelude.{
  ℕ, ◌+◌, ◌≤◌, ◌<◌, ◌≡◌, refl, ap, ◌∙◌, Bool, true, false, Option, none, some, if◌then◌else◌, ltb,
  ◌==◌, ==_iff, length, take, take_short, Bool-cases, inl, inr, arith,
}
use feast_watch.Shared.Checksum.{Bytes, hex_encode}
use feast_watch.Shared.SelfUpdate.{
  Response, unreachable, answered, Fault, cut_off, Fetched, fetch_failed, fetched, File, Disk,
  Local, fetch, read_limited, copy_body, settle, temp_file, finish, end_download, download,
  remove_temp,
}

-- The client gave a whole body at this address, of this size at most.
abbrev pub IsPublished : Response → Bytes → ℕ → Type 0
IsPublished answer body limit = (answer ≡ answered 200 body false) × (length body ≤ limit)

-- What a fetch gives was published.
abbrev pub Fetches : Response → ℕ → Fetched → Type 0
Fetches answer limit (fetch_failed fault) = Unit
Fetches answer limit (fetched body) = IsPublished answer body limit

-- A body that does not fill the limited reader is read as a whole.
within :
    (limit : ℕ) (body : Bytes)
    → ltb limit (length (take (limit + 1) body)) ≡ false
    → (take (limit + 1) body ≡ body) × (length body ≤ limit)
within limit body fits =
    let short : length (take (limit + 1) body) < limit + 1 = ground (arith, fits) in
    let all = take_short (limit + 1) body short in (all, omega (arith, short, ap length all))

read_limited-Fetches :
    (limit : ℕ) (body : Bytes) (cut : Bool)
    → Fetches (answered 200 body cut) limit (read_limited limit body cut)
read_limited-Fetches limit body cut =
    elim (Bool-cases (ltb limit (length (take (limit + 1) body)))) [
      | inl over ↦ rw over tt
      | inr fits ↦ rw fits (whole cut (within limit body fits))
    ]
  where
    whole :
        (cut : Bool)
        → (take (limit + 1) body ≡ body) × (length body ≤ limit)
        → Fetches
            (answered 200 body cut)
            limit
            (if cut then fetch_failed cut_off else fetched (take (limit + 1) body))
    whole true h = tt
    whole false h = rw h.0 (refl, h.1)

pub fetch-Fetches : (answer : Response) (limit : ℕ) → Fetches answer limit (fetch answer limit)
unfolding fetch
fetch-Fetches unreachable limit = tt
fetch-Fetches (answered status body cut) limit = elim (Bool-cases (status == 200)) [
  | inr other ↦ rw other tt
  | inl ok ↦ rw (ok, (==_iff status 200).0 ok) (read_limited-Fetches limit body cut)
]

pub remove_temp-dest : (fs : Local) (disk : Disk) → (remove_temp fs disk).dest ≡ disk.dest
remove_temp-dest fs disk = elim (Bool-cases fs.removes) [
  | inl works ↦ rw works refl
  | inr fails ↦ rw fails refl
]

abbrev Copies : ℕ → Bytes → Bool → Bytes × Option Fault → Type 0
Copies limit body cut (got, some fault) = Unit
Copies limit body cut (got, none) = (got ≡ body) × (cut ≡ false) × (length body ≤ limit)

copy_body-Copies :
    (fs : Local) (limit : ℕ) (body : Bytes) (cut : Bool)
    → Copies limit body cut (copy_body fs limit body cut)
unfolding copy_body
copy_body-Copies fs limit body cut =
    elim (Bool-cases (ltb fs.room (length (take (limit + 1) body)))) [
      | inl full ↦ rw full tt
      | inr room ↦ elim (Bool-cases (ltb limit (length (take (limit + 1) body)))) [
        | inl over ↦ rw (room, over) tt
        | inr fits ↦ rw (room, fits) (whole cut (within limit body fits))
      ]
    ]
  where
    whole :
        (cut : Bool)
        → (take (limit + 1) body ≡ body) × (length body ≤ limit)
        → Copies limit body cut (take (limit + 1) body, (if cut then some cut_off else none))
    whole true h = tt
    whole false h = (h.0, refl, h.1)

-- The file that a good download leaves: whole, executable, on the disk.
abbrev pub binary_file : Bytes → File
binary_file body = record { content = body; mode = 0x1ed; synced = true }

settled :
    (fs : Local) (got : Bytes) → settle fs none ≡ none → temp_file fs (got, none) ≡ binary_file got
settled fs got h = elim (Bool-cases fs.chmods) [
  | inr c ↦ cc (rw c at h)
  | inl c ↦ elim (Bool-cases fs.syncs) [ inl s ↦ rw (c, s) refl | inr s ↦ cc (rw (c, s) at h) ]
]

module _ (sha256 : Bytes → Bytes) (fs : Local) where
  abbrev pub Downloads : Response → ℕ → Disk → Fetched × Disk → Type 0
  Downloads answer limit before (fetch_failed fault, after) = after.dest ≡ before.dest
  Downloads answer limit before (fetched sum, after) =
      (after.dest ≡ before.dest)
      × ((body : Bytes) × IsPublished answer body limit
          × (sum ≡ hex_encode (sha256 body))
          × (after.temp ≡ some (binary_file body)))

  end_download-Downloads :
      (limit : ℕ) (body : Bytes) (cut : Bool) (before : Disk) (copied : Bytes × Option Fault)
      → Copies limit body cut copied
      → Downloads (answered 200 body cut) limit before (end_download sha256 fs before copied)
  end_download-Downloads limit body cut before (got, some fault) h =
      remove_temp-dest fs (record before { temp = some (temp_file fs (got, some fault)) })
  end_download-Downloads limit body cut before (got, none) h = finished (settle fs none) refl
    where
      finished :
          (err : Option Fault)
          → settle fs none ≡ err
          → Downloads (answered 200 body cut) limit before (
              finish fs
                (record before { temp = some (temp_file fs (got, none)) })
                (hex_encode (sha256 got))
                err)
      finished (some fault) e =
          remove_temp-dest fs (record before { temp = some (temp_file fs (got, none)) })
      finished none e = (
        refl,
        (
          body,
          (λ i. answered 200 body (h.1 i), h.2),
          ap (λ b. hex_encode (sha256 b)) h.0,
          ap some (settled fs got e ∙ ap binary_file h.0),
        ),
      )

  pub download-Downloads :
      (answer : Response) (limit : ℕ) (before : Disk)
      → Downloads answer limit before (download sha256 fs limit answer before)
  unfolding download
  download-Downloads unreachable limit before = refl
  download-Downloads (answered status body cut) limit before = elim (Bool-cases (status == 200)) [
    | inr other ↦ rw other refl
    | inl ok ↦ elim (Bool-cases fs.creates) [
      | inr none_made ↦ rw (ok, none_made) refl
      | inl made ↦
          rw (ok, made, (==_iff status 200).0 ok)
            (end_download-Downloads limit body cut before (copy_body fs limit body cut)
              (copy_body-Copies fs limit body cut))
    ]
  ]
