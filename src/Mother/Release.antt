-- ===== src/Mother/Release.antt =====
-- mother/release/index.go and the rules of mother/api/versions.go and mother.go: which versions can
-- be a target. A message that the code returns is a value here, and its empty message is `none`.
pub mod Rules
pub mod Order
use feast_watch.Prelude.{
  String, Bool, true, false, Option, none, some, List, [], ◌∷◌, str_eq, is_empty, if◌then◌else◌,
  ◌||◌, any, find_if,
}
use feast_watch.Prelude.Text.{concat}

pub record Build : Type 0 where
  pub version : String
  pub platforms : List String

-- The clock reading of the last good read of the catalogue is left out: only the panel shows it.
pub record Snapshot : Type 0 where
  pub builds : List Build
  pub mother : List Build
  pub stale : Bool

-- What `Source.Fetch` answers.
pub data Fetched : Type 0 where
  fetch_failed not_modified : Fetched
  fetched : List Build → List Build → Fetched

abbrev pub new_cache : Snapshot
new_cache = record { builds = []; mother = []; stale = true }

unfoldable pub refresh : Snapshot → Fetched → Snapshot
refresh s fetch_failed = record s { stale = true }
refresh s not_modified = record s { stale = false }
refresh s (fetched agents mother) = record { builds = agents; mother = mother; stale = false }

abbrev pub latest_alias : String
latest_alias = "latest"

pub data Rejection : Type 0 where
  moving_alias : Rejection
  no_build_for : String → String → Rejection
  not_built : String → Rejection

-- The token of a server's platform, empty until the agent has reported both halves.
pub platform : String → String → String
platform os arch = if is_empty os || is_empty arch then "" else concat (os ∷ "-" ∷ arch ∷ [])

-- The loop over the builds: the first of this version decides.
pub check_builds : (want ver : String) → List Build → Option Rejection
check_builds want ver [] = some (not_built ver)
check_builds want ver (b ∷ builds) =
    let rest = check_builds want ver builds in
    if str_eq b.version ver
    then (if is_empty want || any (λ p. str_eq p want) b.platforms
        then none
        else some (no_build_for ver want))
    else rest

-- `rejectVersion`, for a server of this platform.
pub reject_version : (want ver : String) → List Build → Option Rejection
unfolding check_builds
reject_version want ver builds =
    if str_eq ver latest_alias then some moving_alias else check_builds want ver builds

-- `rejectMotherVersion`: the platform is always known.
pub check_mother_builds : (want ver : String) → List Build → Option Rejection
check_mother_builds want ver [] = some (not_built ver)
check_mother_builds want ver (b ∷ builds) =
    let rest = check_mother_builds want ver builds in
    if str_eq b.version ver
    then (if any (λ p. str_eq p want) b.platforms then none else some (no_build_for ver want))
    else rest

unfoldable pub reject_mother_version : (want ver : String) → List Build → Option Rejection
unfolding check_mother_builds
reject_mother_version want ver builds =
    if str_eq ver latest_alias then some moving_alias else check_mother_builds want ver builds

-- mother/api/groups.go: whether the version itself is at fault, for every server alike.
pub version_level_fault : String → List Build → Bool
version_level_fault ver builds =
    if str_eq ver latest_alias
    then true
    else (if any (λ b. str_eq b.version ver) builds then false else true)
