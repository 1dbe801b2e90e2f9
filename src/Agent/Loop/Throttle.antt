-- ===== src/Agent/Loop/Throttle.antt =====
-- agent/loop.go: how often the loop acts on a host.
use feast_watch.Prelude.{
  ℕ, suc, ◌+◌, ◌-◌, ◌*◌, ◌≤◌, ◌≡◌, ◌≢◌, ◌⊎◌, inl, inr, refl, String, Bool, true, false, Option,
  none, some, List, [], ◌∷◌, ◌++◌, arith, str_eq, ◌==◌, Bool-cases, eq_iff, All, if◌then◌else◌,
}
use feast_watch.Protocol.{IngestResponse}
use feast_watch.Agent.Loop.{
  Loop, Round, Reply, lost, answered, Action, updated, uninstalled, update_retry_gap, is_within,
  try_update, push_once, accept, act, run_once, run,
}

-- An answer, if there is one, asks for this version and for no removal.
abbrev pub AsksFor : String → Reply → Type 0
AsksFor v lost = Unit
AsksFor v (answered status none) = Unit
AsksFor v (answered status (some resp)) = (resp.uninstall ≡ false) × (resp.desired_version ≡ v)

-- The clock does not go back.
abbrev pub IsOrdered : ℕ → List Round → Type 0
IsOrdered t [] = Unit
IsOrdered t (r ∷ rest) = (t ≤ r.now) × IsOrdered r.now rest

abbrev pub last_now : ℕ → List Round → ℕ
last_now t [] = t
last_now t (r ∷ rest) = last_now r.now rest

abbrev pub is_update : Action → Bool
is_update (updated v) = true
is_update uninstalled = false

abbrev pub updates : List Action → ℕ
updates [] = 0
updates (updated v ∷ more) = suc (updates more)
updates (uninstalled ∷ more) = updates more

-- From when on the loop may attempt this version again.
abbrev gap_after : Option ℕ → ℕ
gap_after none = 0
gap_after (some t) = t + update_retry_gap

abbrev allowed_from : Loop → String → ℕ
allowed_from l v = if str_eq v l.update_target then gap_after l.last_update_at else 0

pub updates-append : (xs ys : List Action) → updates (xs ++ ys) ≡ updates xs + updates ys
updates-append [] ys = omega arith
updates-append (updated v ∷ xs) ys = omega (arith, updates-append xs ys)
updates-append (uninstalled ∷ xs) ys = updates-append xs ys

gap_passed :
    (now : ℕ) (last : Option ℕ) → is_within now last update_retry_gap ≡ false → gap_after last ≤ now
gap_passed now none h = omega arith
gap_passed now (some t) h = ground arith

-- One attempt at most, when the gap has passed, and the next gap starts with it.
record Attempt (now before : ℕ) (done after : ℕ) : Type 0 where
  outcome :
      ((done ≡ 0) × (after ≡ before))
      ⊎ ((done ≡ 1) × (before ≤ now) × (after ≡ now + update_retry_gap))

try_update-Attempt :
    (l : Loop) (now : ℕ) (v : String) (update : String → Option String)
    → Attempt now
        (allowed_from l v)
        (updates (try_update l now v update).1)
        (allowed_from (try_update l now v update).0 v)
unfolding try_update
try_update-Attempt l now v update = elim (Bool-cases (str_eq v l.update_target)) [
  | inr other ↦
      rw other (record { outcome = inr (refl, omega arith, rw ((eq_iff v v).1 refl) refl) })
  | inl same ↦ elim (Bool-cases (is_within now l.last_update_at update_retry_gap)) [
    | inl soon ↦ rw (same, soon) (record { outcome = inl (refl, rw same refl) })
    | inr late ↦
        rw (same, late)
          (record {
            outcome =
                inr (refl, gap_passed now l.last_update_at late, rw ((eq_iff v v).1 refl) refl);
          })
  ]
]

-- An answer to the push changes nothing that the gap depends on.
accept_allowed :
    (l : Loop) (resp : IngestResponse) (v : String)
    → allowed_from (accept l resp) v ≡ allowed_from l v
unfolding accept
accept_allowed l resp v = refl

asked-Attempt :
    (version v : String) (l : Loop) (now : ℕ) (r : Round) (resp : IngestResponse)
    → (resp.uninstall ≡ false) × (resp.desired_version ≡ v)
    → v ≢ ""
    → v ≢ version
    → r.now ≡ now
    → Attempt now
        (allowed_from l v)
        (updates (act version l r (some resp)).1)
        (allowed_from (act version l r (some resp)).0 v)
unfolding act
asked-Attempt version v l now r resp (stays, wanted) some_v other at_now =
    rw (stays, wanted, not_eq v "" some_v, not_eq v version other, at_now)
      (try_update-Attempt l now v r.update)
  where
    not_eq : (a b : String) → a ≢ b → str_eq a b ≡ false
    not_eq a b ne = ground (arith, eq_iff a b)

run_once-Attempt :
    (version v : String) (l : Loop) (r : Round)
    → AsksFor v r.reply
    → v ≢ ""
    → v ≢ version
    → Attempt r.now
        (allowed_from l v)
        (updates (run_once version l r).1)
        (allowed_from (run_once version l r).0 v)
unfolding run_once accept
run_once-Attempt version v l r asks some_v other = go r.reply asks
  where
    quiet : Attempt r.now (allowed_from l v) 0 (allowed_from l v)
    quiet = record { outcome = inl (refl, refl) }

    go :
        (reply : Reply)
        → AsksFor v reply
        → Attempt r.now
            (allowed_from l v)
            (updates (act version (push_once l reply).1 r (push_once l reply).0).1)
            (allowed_from (act version (push_once l reply).1 r (push_once l reply).0).0 v)
    go lost asks = quiet
    go (answered status none) asks = quiet
    go (answered status (some resp)) asks = elim (Bool-cases (status == 200)) [
      | inl good ↦
          rw good (asked-Attempt version v (accept l resp) r.now r resp asks some_v other refl)
      | inr bad ↦ rw bad quiet
    ]

pub last_now-le : (t : ℕ) (rounds : List Round) → IsOrdered t rounds → t ≤ last_now t rounds
last_now-le t [] h = omega arith
last_now-le t (r ∷ rest) h = omega (arith, last_now-le r.now rest h.1)

-- One round more.
attempts_step :
    (a a' t now last k k' : ℕ)
    → t ≤ now
    → now ≤ last
    → Attempt now a k a'
    → (k' ≡ 0)
      ⊎ ((a' + k' * update_retry_gap ≤ last + update_retry_gap)
          × (now + k' * update_retry_gap ≤ last + update_retry_gap))
    → (k + k' ≡ 0)
      ⊎ ((a + (k + k') * update_retry_gap ≤ last + update_retry_gap)
          × (t + (k + k') * update_retry_gap ≤ last + update_retry_gap))
attempts_step a a' t now last k k' le le' att (inl none_more) = elim att.outcome [
  | inl (still, same) ↦ inl (omega arith)
  | inr (one, passed, next) ↦ inr (omega arith, omega arith)
]
attempts_step a a' t now last k k' le le' att (inr (h₁, h₂)) = elim att.outcome [
  | inl (still, same) ↦ inr (omega arith, omega arith)
  | inr (one, passed, next) ↦ inr (omega arith, omega arith)
]

run-Attempts :
    (version v : String) (l : Loop) (t : ℕ) (rounds : List Round)
    → All (λ r. AsksFor v r.reply) rounds
    → v ≢ ""
    → v ≢ version
    → IsOrdered t rounds
    → let k = updates (run version l rounds).1 in
      (k ≡ 0)
      ⊎ ((allowed_from l v + k * update_retry_gap ≤ last_now t rounds + update_retry_gap)
          × (t + k * update_retry_gap ≤ last_now t rounds + update_retry_gap))
unfolding run
run-Attempts version v l t [] asks some_v other ordered = inl refl
run-Attempts version v l t (r ∷ rest) asks some_v other ordered =
    let step = run_once version l r in
    rw (updates-append step.1 (run version step.0 rest).1) (
      attempts_step (allowed_from l v) (allowed_from step.0 v) t r.now (last_now r.now rest) _ _
        ordered.0 (last_now-le r.now rest ordered.1)
        (run_once-Attempt version v l r asks.0 some_v other)
        (run-Attempts version v step.0 r.now rest asks.1 some_v other ordered.1))

-- While the mother asks for one version that is not the running one and for no removal, and the
-- clock does not go back, the loop attempts the update at most once per retry gap: each attempt
-- after the first costs a whole gap of the time that passes, whatever the attempts return and
-- whichever pushes are lost.
pub updates_throttled :
    (version v : String) (l : Loop) (t : ℕ) (rounds : List Round)
    → All (λ r. AsksFor v r.reply) rounds
    → v ≢ ""
    → v ≢ version
    → IsOrdered t rounds
    → updates (run version l rounds).1 * update_retry_gap
      ≤ (last_now t rounds - t) + update_retry_gap
updates_throttled version v l t rounds asks some_v other ordered = omega (
  arith,
  run-Attempts version v l t rounds asks some_v other ordered,
  last_now-le t rounds ordered,
)
