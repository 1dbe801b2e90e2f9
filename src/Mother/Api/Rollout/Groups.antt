-- ===== src/Mother/Api/Rollout/Groups.antt =====
-- mother/api/groups.go: what a rollout over a group does to the fleet.
use feast_watch.Prelude.{
  ℕ, ◌≡◌, refl, ap, ◌∙◌, String, Bool, true, false, Option, none, some, List, [], ◌∷◌, ◌==◌,
  is_empty, if◌then◌else◌, ◌||◌, ◌&&◌, not, any, inl, inr, arith, Bool-cases, Option-cases,
}
use feast_watch.Prelude.Text.{trim_space}
use feast_watch.Mother.Release.{Build, Rejection, platform, reject_version, version_level_fault}
use feast_watch.Mother.Release.Rules.{reject_version-fault}
use feast_watch.Mother.Store.Tables.{Server, Tables, Result, ok, err}
use feast_watch.Mother.Store.Servers.Lookup.{map_option, find-update_server}
use feast_watch.Mother.Store.Servers.{find_server, set_desired_version}
use feast_watch.Mother.Api.Rollout.{
  Rolled, Reason, rejected, write_failed, refused, split, GroupRef, GroupAnswer, status, answered,
  roll_group, group_members, group_answer, also_applied, also_skipped, written, obstacle,
  roll_members, handle_set_group_version,
}

-- A server with its target set.
abbrev pub retarget : String → Server → Server
retarget version s = record s { desired_version = version; update_error = "" }

retarget-id : (version : String) (s : Server) → (retarget version s).id ≡ s.id
retarget-id version s = refl

abbrev pub contains : List GroupRef → ℕ → Bool
contains refs k = any (λ r. r.id == k) refs

abbrev pub applied_of : Rolled → List GroupRef
applied_of (refused r) = []
applied_of (split applied skipped) = applied

-- Setting a target that is set changes nothing.
retarget_twice :
    (version : String) (o : Option Server)
    → map_option (retarget version) (map_option (retarget version) o)
      ≡ map_option (retarget version) o
retarget_twice version none = refl
retarget_twice version (some s) = refl

abbrev IsSplit : Rolled → Type 0
IsSplit (refused r) = ⊥
IsSplit (split applied skipped) = Unit

combine :
    (version : String) (b c : Bool) (x y z : Option Server)
    → y ≡ (if b then map_option (retarget version) x else x)
    → z ≡ (if c then map_option (retarget version) y else y)
    → z ≡ (if (if b then true else c) then map_option (retarget version) x else x)
combine version true true x y z first then_ =
    then_ ∙ ap (map_option (retarget version)) first ∙ retarget_twice version x
combine version true false x y z first then_ = then_ ∙ first
combine version false true x y z first then_ = then_ ∙ ap (map_option (retarget version)) first
combine version false false x y z first then_ = then_ ∙ first

no_fault :
    (version : String) (builds : List Build) (s : Server) (why : Rejection)
    → (is_empty version || not (version_level_fault version builds)) ≡ true
    → obstacle version builds s ≡ some why
    → version_level_fault version builds ≡ false
no_fault version builds s why sound stands = ground arith

module _ {V : Type 0} where
  -- A write that lands sets the target of that server alone, and one that does not changes nothing.
  find-written :
      (k id : ℕ) (fails : Bool) (version : String) (t : Tables V)
      → let (landed, t') = written t (set_desired_version fails id version t) in
        find_server k t' ≡ (
          if landed && (id == k)
          then map_option (retarget version) (find_server k t)
          else find_server k t)
  unfolding set_desired_version find_server
  find-written k id fails version t =
      ground (arith, find-update_server k id (retarget version) t.servers (retarget-id version))

  -- What an answer says of the tables before and after.
  abbrev pub IsReported : String → Tables V → GroupAnswer × Tables V → Type 0
  IsReported version t (status n, t') = t' ≡ t
  IsReported version t (answered applied skipped, t') =
      (k : ℕ)
      → find_server k t' ≡ (
          if contains applied k
          then map_option (retarget version) (find_server k t)
          else find_server k t)

  -- What a finished loop has done, seen at one id.
  record Rolls (k : ℕ) (version : String) (t : Tables V) (r : Rolled) (t' : Tables V) : Type 0 where
    is_split : IsSplit r
    lookup : find_server k t' ≡ (
        if contains (applied_of r) k
        then map_option (retarget version) (find_server k t)
        else find_server k t)

  Rolls-applied :
      (k : ℕ) (version : String) (t t' t'' : Tables V) (s : Server) (r : Rolled)
      → find_server k t'
        ≡ (if s.id == k then map_option (retarget version) (find_server k t) else find_server k t)
      → Rolls k version t' r t''
      → Rolls k version t (also_applied s r) t''
  Rolls-applied k version t t' t'' s (refused r) first rest = absurd rest.is_split
  Rolls-applied k version t t' t'' s (split applied skipped) first rest = record {
    is_split = tt;
    lookup = combine version (s.id == k) (contains applied k) _ _ _ first rest.lookup;
  }

  Rolls-skipped :
      (k : ℕ) (version : String) (t t' t'' : Tables V) (s : Server) (why : Reason) (r : Rolled)
      → find_server k t' ≡ find_server k t
      → Rolls k version t' r t''
      → Rolls k version t (also_skipped s why r) t''
  Rolls-skipped k version t t' t'' s why (refused r) first rest = absurd rest.is_split
  Rolls-skipped k version t t' t'' s why (split applied skipped) first rest = record {
    is_split = tt;
    lookup = rw (← first) rest.lookup;
  }

  -- Unless the version itself is at fault the loop goes through all members.
  roll_members-Rolls :
      (k : ℕ) (version : String) (builds : List Build) (fails : ℕ → Bool) (members : List Server)
      (t : Tables V)
      → (is_empty version || not (version_level_fault version builds)) ≡ true
      → let (r, t') = roll_members version builds fails members t in Rolls k version t r t'
  unfolding roll_members
  roll_members-Rolls k version builds fails [] t sound = record { is_split = tt; lookup = refl }
  roll_members-Rolls k version builds fails (s ∷ members) t sound =
      elim (Option-cases (obstacle version builds s)) [
        | inr (why, stands) ↦
            rw (stands, roll_members, no_fault version builds s why sound stands)
              (Rolls-skipped k version t t _ s (rejected why) _ refl
                (roll_members-Rolls k version builds fails members t sound))
        | inl nothing ↦
            elim (Bool-cases (written t (set_desired_version (fails s.id) s.id version t)).0) [
              | inl landed ↦
                  rw (nothing, roll_members, landed)
                    (Rolls-applied k version t _ _ s _
                      (rw landed at (find-written k s.id (fails s.id) version t))
                      (roll_members-Rolls k version builds fails members _ sound))
              | inr lost ↦
                  rw (nothing, roll_members, lost)
                    (Rolls-skipped k version t _ _ s write_failed _
                      (rw lost at (find-written k s.id (fails s.id) version t))
                      (roll_members-Rolls k version builds fails members _ sound))
            ]
      ]

  report_all :
      (version : String) (t : Tables V) (r : Rolled) (t' : Tables V)
      → ((k : ℕ) → Rolls k version t r t')
      → IsReported version t (group_answer r, t')
  unfolding group_answer
  report_all version t (refused r) t' h = absurd (h 0).is_split
  report_all version t (split applied skipped) t' h = λ k. (h k).lookup

  report_none :
      (version : String) (t : Tables V) (r : Rolled) (t' : Tables V)
      → t' ≡ t
      → applied_of r ≡ []
      → IsReported version t (group_answer r, t')
  unfolding group_answer
  report_none version t (refused r) t' same nobody = same
  report_none version t (split applied skipped) t' same nobody = λ k. rw (nobody, same)

  -- A version that is at fault itself stops the loop at its first member, before any write.
  roll_members-faulty :
      (version : String) (builds : List Build) (fails : ℕ → Bool) (members : List Server)
      (t : Tables V)
      → (is_empty version || not (version_level_fault version builds)) ≡ false
      → let (r, t') = roll_members version builds fails members t in (t' ≡ t) × (applied_of r ≡ [])
  unfolding roll_members
  roll_members-faulty version builds fails [] t faulty = (refl, refl)
  roll_members-faulty version builds fails (s ∷ members) t faulty =
      let fault : version_level_fault version builds ≡ true = ground arith in
      let named : is_empty version ≡ false = ground arith in
      elim (Option-cases (reject_version (platform s.os s.arch) version builds)) [
        | inl accepted ↦
            absurd (reject_version-fault (platform s.os s.arch) version builds fault accepted)
        | inr (why, stands) ↦
            let stopped : obstacle version builds s ≡ some why = rw named stands in
            rw (stopped, roll_members, fault) (refl, refl)
      ]

  -- The answer of the handler and what it did agree, whatever writes fail: an error's status means
  -- that nothing was written; a split means that exactly the servers that it lists as applied have
  -- the new target, with the last update error cleared, and every other server is as it was.
  pub group_rollout-IsReported :
      (list_fails members_fail : Bool) (fails : ℕ → Bool) (id : ℕ) (raw : String)
      (builds : List Build) (t : Tables V)
      → IsReported
          (trim_space raw)
          t
          (handle_set_group_version list_fails members_fail fails id raw builds t)
  unfolding handle_set_group_version
  group_rollout-IsReported list_fails members_fail fails id raw builds t =
      go (group_members list_fails members_fail id t)
    where
      go :
          (members : Result (List Server))
          → IsReported (trim_space raw) t (roll_group (trim_space raw) builds fails members t)
      go (err e) = refl
      go (ok members) =
          let version = trim_space raw in
          elim (Bool-cases (is_empty version || not (version_level_fault version builds))) [
            | inl sound ↦
                report_all version t _ _
                  λ k. roll_members-Rolls k version builds fails members t sound
            | inr faulty ↦
                let stopped = roll_members-faulty version builds fails members t faulty in
                report_none version t _ _ stopped.0 stopped.1
          ]
