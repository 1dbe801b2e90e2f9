-- ===== src/Mother/Api/Admin/Target.antt =====
-- mother/api/mother.go: what an accepted target for the mother amounts to.
use mathlib.Core.Path.{subst}
use feast_watch.Prelude.{
  ℕ, ◌≡◌, ◌≢◌, refl, ap, String, Bool, true, false, none, some, List, is_empty, if◌then◌else◌,
  arith, Option-cases, inl, inr,
}
use feast_watch.Prelude.Text.{trim_space}
use feast_watch.Mother.Release.{Build, latest_alias, reject_mother_version}
use feast_watch.Mother.Release.Rules.{IsBuilt, reject_mother_version-none}
use feast_watch.Mother.Update.{Table, set_mother_desired_version}
use feast_watch.Mother.Update.Ends.{IsAimed}
use feast_watch.Mother.Api.Admin.{mother_obstacle, handle_set_mother_version}

set_version-IsAimed :
    (t : Table) (version : String) (now : ℕ)
    → IsAimed version 0 (set_mother_desired_version t version now)
unfolding set_mother_desired_version
set_version-IsAimed none version now = (refl, refl)
set_version-IsAimed (some row) version now = (refl, refl)

no_obstacle :
    (can_promote : Bool) (version platform : String) (builds : List Build)
    → is_empty version ≡ false
    → mother_obstacle can_promote version platform builds ≡ false
    → (can_promote ≡ true) × (reject_mother_version platform version builds ≡ none)
no_obstacle false version platform builds named h = cc (rw named at h)
no_obstacle true version platform builds named h =
    elim (Option-cases (reject_mother_version platform version builds)) [
      | inl accepted ↦ (refl, accepted)
      | inr (why, refused) ↦ cc (rw (named, refused) at h)
    ]

status_differs : (m n : ℕ) (t t' : Table) → m ≢ n → ◌≢◌ {A = ℕ × Table} (m, t) (n, t')
status_differs m n t t' apart same = apart (ap (λ x. x.0) same)

answered_200 :
    (stopped fails : Bool) (t next t' : Table)
    → ◌≡◌ {A = ℕ × Table}
        (if stopped then (400, t) else (if fails then (500, t) else (200, next)))
        (200, t')
    → (stopped ≡ false) × (next ≡ t')
answered_200 true fails t next t' h = absurd (status_differs 400 200 t t' (λ e. omega arith) h)
answered_200 false true t next t' h = absurd (status_differs 500 200 t t' (λ e. omega arith) h)
answered_200 false false t next t' h = (refl, ap (λ x. x.1) h)

-- A target that is named and answered with 200 is set with every attempt available, on a deployment
-- that can update itself, and is not the moving alias but a version whose first build in the list
-- is for the mother's platform.
pub mother_target-IsBuilt :
    (fails can_promote : Bool) (now : ℕ) (platform raw : String) (builds : List Build)
    (t t' : Table)
    → is_empty (trim_space raw) ≡ false
    → handle_set_mother_version fails can_promote now platform builds (some raw) t ≡ (200, t')
    → (can_promote ≡ true)
      × (trim_space raw ≢ latest_alias)
      × IsBuilt platform (trim_space raw) builds
      × IsAimed (trim_space raw) 0 t'
unfolding handle_set_mother_version
mother_target-IsBuilt fails can_promote now platform raw builds t t' named answer =
    let version = trim_space raw in
    let (free, written) =
      answered_200 (mother_obstacle can_promote version platform builds) fails t
        (set_mother_desired_version t version now) t' answer in
    let (able, accepted) = no_obstacle can_promote version platform builds named free in
    let (concrete, built) = (reject_mother_version-none platform version builds).0 accepted in
    (able, concrete, built, subst (IsAimed version 0) written (set_version-IsAimed t version now))
