-- ===== src/Examples/OfIngest.antt =====
-- mother/api/ingest.go at a small fleet.
use feast_watch.Prelude.{
  ℕ, ◌-◌, ◌*◌, ◌≤◌, ◌≡◌, ◌↔◌, refl, String, none, some, [], ◌∷◌, true, false, arith,
}
use feast_watch.Live.{second}
use feast_watch.Protocol.{IngestRequest, IngestResponse}
use feast_watch.Prelude.Map.{Map, get, put}
use feast_watch.Prelude.Text.{cut_prefix}
use feast_watch.Mother.Store.Servers.{server_by_token}
use feast_watch.Mother.Store.Rollups.{apply_tier, minute_width, hour_width}
use feast_watch.Live
use feast_watch.Mother.Api.State.{Api, as_server, bearer_server, allow_push, min_push_gap}
use feast_watch.Mother.Api.Ingest.{Request, rejected, handle_ingest, invalid_metric}
use feast_watch.Mother.Api.Ingest.Folding.{IsGoodPush, good_push-answer, good_push_is_folded_once}
use feast_watch.Mother.Api.Ingest.Limit.{knocks, limit_spaces_pushes, bad_names_spend_the_slot}
use feast_watch.Prelude.Int.{pos}
use feast_watch.Agent.Loop.{new_loop, Round, answered, uninstalled, run_once}
use feast_watch.Mother.Api.Removal.Reach.{removal_reaches_the_agent}
use feast_watch.Mother.Api.Ingest.Rejection.{rejected_push_stores_nothing}
use feast_watch.Examples.Fixtures.{gone, naturals, web, fleet, api}

abbrev body : Map String ℕ → IngestRequest ℕ
body samples = record {
  server = "web";
  agent_version = "1";
  hostname = "";
  ip = "";
  os = "";
  arch = "";
  capabilities = [];
  update_error = "";
  uninstall_error = "";
  samples = samples;
}

abbrev request : ℕ → Map String ℕ → Request ℕ
request seconds samples = record {
  authorization = "Bearer w";
  body = some (body samples);
  now = seconds * second;
  later = seconds * second;
  lookup_fails = false;
  apply_fails = false;
  touch_fails = false;
  capabilities_fail = false;
  settings_fail = false;
}

abbrev good : Map String ℕ
good = ("cpu.pct", 6) ∷ []

abbrev after_good : Api ℕ
after_good = record api { last_push = (1, 110 * second) ∷ [] }

sender : bearer_server false "Bearer w" fleet ≡ as_server web
unfolding bearer_server cut_prefix server_by_token
sender = refl

names : invalid_metric good ≡ none
unfolding invalid_metric
names = refl

good_push : IsGoodPush (request 110 good) (body good) web api after_good
unfolding allow_push get put
good_push = record {
  sender = sender;
  body = refl;
  fits = omega arith;
  allowed = refl;
  names = names;
  applies = refl;
  settings = refl;
}

good_push_is_folded_once_example :
    let c = (handle_ingest naturals (request 110 good) api).1 in
    (c.tables.rollup_1m ≡ apply_tier naturals minute_width 1 110 good fleet.rollup_1m)
    × (c.tables.rollup_1h ≡ apply_tier naturals hour_width 1 110 good fleet.rollup_1h)
    × (c.live ≡ Live.add api.live (110 * second) 1 110 good)
good_push_is_folded_once_example =
    good_push_is_folded_once naturals (request 110 good) (body good) web api after_good good_push

abbrev bad : Map String ℕ
bad = ("CPU", 6) ∷ []

limit_spaces_pushes_example :
    let others =
      knocks
        (record { at = 110 * second; server = 2 } ∷ record { at = 111 * second; server = 1 } ∷ [])
        (allow_push (110 * second) 1 api).1 in
    ((allow_push (112 * second) 1 others).0 ≡ true) ↔ (min_push_gap ≤ 112 * second - 110 * second)
unfolding allow_push get put
limit_spaces_pushes_example =
    limit_spaces_pushes (110 * second) (112 * second) 1
      (record { at = 110 * second; server = 2 } ∷ record { at = 111 * second; server = 1 } ∷ []) api
      refl ((λ e. omega arith), ((λ e. omega arith), tt))

bad_names_spend_the_slot_example :
    (handle_ingest naturals (request 110 bad) api ≡ (rejected 400, after_good))
    × (handle_ingest naturals (request 111 good) after_good ≡ (rejected 429, after_good))
unfolding allow_push get put invalid_metric
bad_names_spend_the_slot_example =
    bad_names_spend_the_slot naturals (request 110 bad) (request 111 good) (body bad) (body good)
      web "CPU" api after_good sender refl (omega arith) refl refl sender refl (omega arith)
      (omega arith)

refused_for_names : handle_ingest naturals (request 110 bad) api ≡ (rejected 400, after_good)
unfolding handle_ingest bearer_server cut_prefix server_by_token allow_push get put invalid_metric
refused_for_names = refl

rejected_push_stores_nothing_example :
    (after_good.tables ≡ api.tables) × (after_good.live ≡ api.live)
rejected_push_stores_nothing_example =
    rejected_push_stores_nothing naturals (request 110 bad) api after_good 400 refl
      refused_for_names

abbrev leaving : Request ℕ
leaving = record (request 110 good) { authorization = "Bearer g" }

abbrev after_leaving : Api ℕ
after_leaving = record api { last_push = (2, 110 * second) ∷ [] }

leaver : bearer_server false "Bearer g" fleet ≡ as_server gone
unfolding bearer_server cut_prefix server_by_token
leaver = refl

leaving_push : IsGoodPush leaving (body good) gone api after_leaving
unfolding allow_push get put
leaving_push = record {
  sender = leaver;
  body = refl;
  fits = omega arith;
  allowed = refl;
  names = names;
  applies = refl;
  settings = refl;
}

abbrev told : IngestResponse
told = record { collectors = "cpu" ∷ []; interval = pos 10; desired_version = ""; uninstall = true }

abbrev told_round : Round
told_round = record {
  now = 5000;
  reply = answered 200 (some told);
  update = λ v. none;
  uninstall = some none;
}

removal_reaches_the_agent_example : (run_once "1" new_loop told_round).1 ≡ uninstalled ∷ []
removal_reaches_the_agent_example =
    removal_reaches_the_agent naturals leaving (body good) gone api after_leaving told "1" new_loop
      told_round none leaving_push (λ e. omega arith)
      (good_push-answer naturals leaving (body good) gone api after_leaving leaving_push) refl refl
      refl
