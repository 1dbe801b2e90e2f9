-- ===== src/Agent/Loop/Reports.antt =====
-- agent/loop.go: what the loop reports to the mother, and what one answer makes it do.
use feast_watch.Prelude.{
  ℕ, ◌+◌, ◌<◌, ◌≡◌, ◌≢◌, ◌⊎◌, refl, sym, ap, ◌∙◌, String, Bool, true, false, Option, none, some,
  List, [], ◌∷◌, inl, inr, arith, str_eq, is_empty, ◌==◌, Bool-cases, eq_iff, All, any,
  if◌then◌else◌, ◌||◌,
}
use feast_watch.Protocol.{IngestResponse}
use feast_watch.Agent.Collectors.{Registry}
use feast_watch.Agent.Loop.{
  Loop, Host, Round, Reply, lost, answered, updated, uninstalled, update_retry_gap,
  uninstall_retry_gap, is_within, error_text, push_request, try_uninstall, forget_update, push_once,
  accept, act, run_once, run,
}
use feast_watch.Agent.Loop.Throttle.{
  AsksFor, IsOrdered, last_now, last_now-le, updates, updates-append,
}

-- A push that got a 200 whose body decodes.
abbrev pub is_accepted : Reply → Bool
is_accepted lost = false
is_accepted (answered status none) = false
is_accepted (answered status (some resp)) = status == 200

try_uninstall-pushed :
    (l : Loop) (now : ℕ) (u : Option (Option String)) → (try_uninstall l now u).0.pushed ≡ l.pushed
unfolding try_uninstall
try_uninstall-pushed l now none = refl
try_uninstall-pushed l now (some result) = ground arith

act-pushed :
    (version : String) (l : Loop) (r : Round) (resp : Option IngestResponse)
    → (act version l r resp).0.pushed ≡ l.pushed
unfolding act
act-pushed version l r none = refl
act-pushed version l r (some resp) = ground (arith, try_uninstall-pushed l r.now r.uninstall)

-- A round leaves the mark of a first push exactly when it had it or got through.
run_once-pushed :
    (version : String) (l : Loop) (r : Round)
    → (run_once version l r).0.pushed ≡ (l.pushed || is_accepted r.reply)
unfolding run_once
run_once-pushed version l r =
    act-pushed version (push_once l r.reply).1 r (push_once l r.reply).0
    ∙ push_once-pushed l r.reply
  where
    push_once-pushed :
        (l : Loop) (reply : Reply) → (push_once l reply).1.pushed ≡ (l.pushed || is_accepted reply)
    push_once-pushed l lost = ground arith
    push_once-pushed l (answered status none) = ground arith
    push_once-pushed l (answered status (some resp)) = ground arith

or_assoc : (a b c : Bool) → ((a || b) || c) ≡ (a || (b || c))
or_assoc a b c = ground arith

any-cons :
    (r : Round) (rest : List Round)
    → any (λ x. is_accepted x.reply) (r ∷ rest)
      ≡ (is_accepted r.reply || any (λ x. is_accepted x.reply) rest)
any-cons r rest = ground arith

run-pushed :
    (version : String) (l : Loop) (rounds : List Round)
    → (run version l rounds).0.pushed ≡ (l.pushed || any (λ r. is_accepted r.reply) rounds)
unfolding run
run-pushed version l [] = ground arith
run-pushed version l (r ∷ rest) =
    run-pushed version (run_once version l r).0 rest
    ∙ ap (λ b. b || any (λ x. is_accepted x.reply) rest) (run_once-pushed version l r)
    ∙ or_assoc l.pushed (is_accepted r.reply) (any (λ x. is_accepted x.reply) rest)
    ∙ ap (λ b. l.pushed || b) (sym (any-cons r rest))

module _ {V : Type 0} where
  -- The host's identity and capabilities ride every request until a push is accepted, and none
  -- after that: each is what the host says while no push was accepted, and empty afterwards.
  pub identity_until_accepted :
      (version server running : String) (host : Host) (reg : Registry V) (l : Loop)
      (rounds : List Round)
      → l.pushed ≡ false
      → let request = push_request server running host reg (run version l rounds).0 in
        let accepted = any (λ r. is_accepted r.reply) rounds in
        (request.hostname ≡ (if accepted then "" else host.hostname))
        × (request.ip ≡ (if accepted then "" else host.ip))
        × (request.os ≡ (if accepted then "" else host.os))
        × (request.arch ≡ (if accepted then "" else host.arch))
        × (request.capabilities ≡ (if accepted then [] else host.capabilities))
  unfolding push_request
  identity_until_accepted version server running host reg l rounds fresh =
      let mark =
        run-pushed version l rounds ∙ ap (λ b. b || any (λ r. is_accepted r.reply) rounds) fresh in
      rw mark (refl, refl, refl, refl, refl)

-- A push without an accepted answer changes nothing and does nothing.
pub run_once_unanswered :
    (version : String) (l : Loop) (r : Round)
    → is_accepted r.reply ≡ false
    → run_once version l r ≡ (l, [])
unfolding run_once act
run_once_unanswered version l r h = go r.reply h
  where
    go :
        (reply : Reply)
        → is_accepted reply ≡ false
        → act version (push_once l reply).1 r (push_once l reply).0 ≡ (l, [])
    go lost h = refl
    go (answered status none) h = refl
    go (answered status (some resp)) h = rw h

-- An answer that asks for the removal triggers no update, whatever version it names, and leaves
-- what is known of the update as it was; the uninstaller is started at most once in the round.
pub removal_outranks_update :
    (version : String) (l : Loop) (r : Round) (resp : IngestResponse)
    → r.reply ≡ answered 200 (some resp)
    → resp.uninstall ≡ true
    → let (l', done) = run_once version l r in
      ((done ≡ []) ⊎ (done ≡ uninstalled ∷ []))
      × (l'.update_err ≡ l.update_err)
      × (l'.update_target ≡ l.update_target)
      × (l'.last_update_at ≡ l.last_update_at)
unfolding run_once act
removal_outranks_update version l r resp got leaving =
    rw (got, leaving) (only_removal (accept l resp) r.now r.uninstall)
  where
    only_removal :
        (l : Loop) (now : ℕ) (u : Option (Option String))
        → ((((try_uninstall l now u).1 ≡ []) ⊎ ((try_uninstall l now u).1 ≡ uninstalled ∷ [])))
          × ((try_uninstall l now u).0.update_err ≡ l.update_err)
          × ((try_uninstall l now u).0.update_target ≡ l.update_target)
          × ((try_uninstall l now u).0.last_update_at ≡ l.last_update_at)
    only_removal l now none = (inl refl, refl, refl, refl)
    only_removal l now (some result) =
        elim (Bool-cases (is_within now l.last_uninstall_at uninstall_retry_gap)) [
          | inl soon ↦ rw soon (inl refl, refl, refl, refl)
          | inr late ↦ rw late (inr refl, refl, refl, refl)
        ]

still_waiting :
    (version v : String) (l : Loop) (r : Round) (t : ℕ)
    → AsksFor v r.reply
    → v ≢ ""
    → v ≢ version
    → l.update_target ≡ v
    → l.last_update_at ≡ some t
    → r.now < t + update_retry_gap
    → let (l', done) = run_once version l r in
      (updates done ≡ 0)
      × (l'.update_err ≡ l.update_err)
      × (l'.update_target ≡ v)
      × (l'.last_update_at ≡ some t)
unfolding run_once act
still_waiting version v l r t asks some_v other target at soon = go r.reply asks
  where
    go :
        (reply : Reply)
        → AsksFor v reply
        → let (l', done) = act version (push_once l reply).1 r (push_once l reply).0 in
          (updates done ≡ 0)
          × (l'.update_err ≡ l.update_err)
          × (l'.update_target ≡ v)
          × (l'.last_update_at ≡ some t)
    go lost asks = (refl, refl, target, at)
    go (answered status none) asks = (refl, refl, target, at)
    go (answered status (some resp)) asks =
        ground (arith, eq_iff v "", eq_iff v version, eq_iff v l.update_target)

run-waiting :
    (version v : String) (l : Loop) (t from : ℕ) (rounds : List Round)
    → All (λ r. AsksFor v r.reply) rounds
    → v ≢ ""
    → v ≢ version
    → l.update_target ≡ v
    → l.last_update_at ≡ some t
    → IsOrdered from rounds
    → last_now from rounds < t + update_retry_gap
    → let (l', done) = run version l rounds in (updates done ≡ 0) × (l'.update_err ≡ l.update_err)
unfolding run
run-waiting version v l t from [] asks some_v other target at ordered soon = (refl, refl)
run-waiting version v l t from (r ∷ rest) asks some_v other target at ordered soon =
    let now =
      still_waiting version v l r t asks.0 some_v other target at
        (omega (arith, last_now-le r.now rest ordered.1)) in
    let later =
      run-waiting version v (run_once version l r).0 t r.now rest asks.1 some_v other now.2 now.3
        ordered.1 soon in
    (
      updates-append (run_once version l r).1 (run version (run_once version l r).0 rest).1
          ∙ omega (arith, now.0, later.0),
      later.1 ∙ now.1,
    )

module _ {V : Type 0} where
  -- Until the retry gap of the last attempt has passed, while the mother goes on asking for the
  -- same version, every request reports that attempt's outcome unchanged and nothing is attempted.
  pub outcome_stays_reported :
      (version v server : String) (host : Host) (reg : Registry V) (l : Loop) (t from : ℕ)
      (rounds : List Round)
      → All (λ r. AsksFor v r.reply) rounds
      → v ≢ ""
      → v ≢ version
      → l.update_target ≡ v
      → l.last_update_at ≡ some t
      → IsOrdered from rounds
      → last_now from rounds < t + update_retry_gap
      → let (l', done) = run version l rounds in
        ((push_request server version host reg l').update_error ≡ l.update_err) × (updates done ≡ 0)
  unfolding push_request
  outcome_stays_reported version v server host reg l t from rounds asks some_v other target at
        ordered soon =
      let w = run-waiting version v l t from rounds asks some_v other target at ordered soon in
      (w.1, w.0)

withdraw_forgets :
    (version : String) (l : Loop) (r : Round) (resp : IngestResponse)
    → r.reply ≡ answered 200 (some resp)
    → resp.uninstall ≡ false
    → (resp.desired_version ≡ "") ⊎ (resp.desired_version ≡ version)
    → run_once version l r ≡ (forget_update (accept l resp), [])
unfolding run_once act
withdraw_forgets version l r resp got stays idle =
    rw (got, stays)
      (elim (Bool-cases (is_empty resp.desired_version || str_eq resp.desired_version version)) [
        | inl nothing ↦ rw nothing
        | inr something ↦
            absurd
              (ground (arith, eq_iff resp.desired_version "", eq_iff resp.desired_version version))
      ])

-- With no target remembered, an answer that names another version is acted on.
fresh_target :
    (version v : String) (l : Loop) (r : Round) (resp : IngestResponse)
    → r.reply ≡ answered 200 (some resp)
    → resp.uninstall ≡ false
    → resp.desired_version ≡ v
    → v ≢ ""
    → v ≢ version
    → l.update_target ≡ ""
    → let (l', done) = run_once version l r in
      (done ≡ updated v ∷ []) × (l'.update_err ≡ error_text (r.update v))
unfolding run_once act
fresh_target version v l r resp got stays wanted some_v other none_yet =
    rw (got, stays, wanted)
      (ground (arith, eq_iff v "", eq_iff v version, eq_iff v l.update_target))

-- Once an answer has named nothing to update to, or the running version, the next answer that
-- names another version is acted on at once, however short the time since the last attempt, and
-- its outcome is what is reported.
pub retarget_is_immediate :
    (version v : String) (l : Loop) (r r' : Round) (withdrawn wanted : IngestResponse)
    → r.reply ≡ answered 200 (some withdrawn)
    → withdrawn.uninstall ≡ false
    → (withdrawn.desired_version ≡ "") ⊎ (withdrawn.desired_version ≡ version)
    → r'.reply ≡ answered 200 (some wanted)
    → AsksFor v r'.reply
    → v ≢ ""
    → v ≢ version
    → let (l', done) = run version l (r ∷ r' ∷ []) in
      (done ≡ updated v ∷ []) × (l'.update_err ≡ error_text (r'.update v))
unfolding run forget_update
retarget_is_immediate version v l r r' withdrawn wanted got stays idle got' asks some_v other =
    let asked = rw got' at asks in
    rw (withdraw_forgets version l r withdrawn got stays idle) (
      let next =
        fresh_target version v (forget_update (accept l withdrawn)) r' wanted got' asked.0 asked.1
          some_v other refl in
      (rw next.0 refl, next.1))
