-- ===== src/Examples/OfAgent.antt =====
-- agent/loop.go at short runs.
use feast_watch.Prelude.{
  ℕ, ◌≡◌, ◌⊎◌, refl, ◌+◌, ◌-◌, ◌*◌, ◌≤◌, String, none, some, List, [], ◌∷◌, Bool, true, false,
  str_neq, any, if◌then◌else◌, arith,
}
use feast_watch.Prelude.Int.{pos}
use feast_watch.Protocol.{IngestResponse}
use feast_watch.Agent.Collectors.{Registry}
use feast_watch.Agent.Loop.{
  Loop, new_loop, Host, Reply, lost, answered, Round, uninstalled, update_retry_gap, push_request,
  run_once, run,
}
use feast_watch.Agent.Loop.Throttle.{last_now, updates, updates_throttled}
use feast_watch.Agent.Loop.Reports.{
  is_accepted, identity_until_accepted, removal_outranks_update, outcome_stays_reported,
}

abbrev wants : String → Bool → IngestResponse
wants version uninstall = record {
  collectors = "cpu" ∷ [];
  interval = pos 5;
  desired_version = version;
  uninstall = uninstall;
}

abbrev round : ℕ → Reply → Round
round now reply = record {
  now = now;
  reply = reply;
  update = λ v. some "no such release";
  uninstall = some none;
}

abbrev asked_twice : List Round
asked_twice =
    round 1000 (answered 200 (some (wants "2" false)))
    ∷ round 2000 lost
    ∷ round 400000000000 (answered 200 (some (wants "2" false)))
    ∷ []

updates_throttled_example :
    updates (run "1" new_loop asked_twice).1 * update_retry_gap
    ≤ (last_now 0 asked_twice - 0) + update_retry_gap
updates_throttled_example =
    updates_throttled "1" "2" new_loop 0 asked_twice ((refl, refl), (tt, ((refl, refl), tt)))
      (str_neq "2" "" refl) (str_neq "2" "1" refl) (omega arith, (omega arith, (omega arith, tt)))

abbrev host : Host
host = record {
  hostname = "web-1";
  ip = "10.0.0.4";
  os = "linux";
  arch = "amd64";
  capabilities = "cpu" ∷ [];
}

abbrev no_collectors : Registry ℕ
no_collectors = record { by_name = [] }

identity_until_accepted_example :
    let request = push_request "web" "1" host no_collectors (run "1" new_loop asked_twice).0 in
    let accepted = any (λ r. is_accepted r.reply) asked_twice in
    (request.hostname ≡ (if accepted then "" else host.hostname))
    × (request.ip ≡ (if accepted then "" else host.ip))
    × (request.os ≡ (if accepted then "" else host.os))
    × (request.arch ≡ (if accepted then "" else host.arch))
    × (request.capabilities ≡ (if accepted then [] else host.capabilities))
identity_until_accepted_example =
    identity_until_accepted "1" "web" "1" host no_collectors new_loop asked_twice refl

removal_outranks_update_example :
    let (l', done) = run_once "1" new_loop (round 7 (answered 200 (some (wants "2" true)))) in
    ((done ≡ []) ⊎ (done ≡ uninstalled ∷ []))
    × (l'.update_err ≡ "")
    × (l'.update_target ≡ "")
    × (l'.last_update_at ≡ none)
removal_outranks_update_example =
    removal_outranks_update "1" new_loop (round 7 (answered 200 (some (wants "2" true))))
      (wants "2" true) refl refl

abbrev tried : Loop
tried = record new_loop {
  update_target = "2";
  last_update_at = some 1000;
  update_err = "no such release";
}

outcome_stays_reported_example :
    let (l', done) = run "1" tried (round 2000 (answered 200 (some (wants "2" false))) ∷ []) in
    ((push_request "web" "1" host no_collectors l').update_error ≡ "no such release")
    × (updates done ≡ 0)
outcome_stays_reported_example =
    outcome_stays_reported "1" "2" "web" host no_collectors tried 1000 1000
      (round 2000 (answered 200 (some (wants "2" false))) ∷ []) ((refl, refl), tt)
      (str_neq "2" "" refl) (str_neq "2" "1" refl) refl refl (omega arith, tt) (omega arith)
