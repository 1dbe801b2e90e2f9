-- ===== src/Examples/OfFleet.antt =====
-- mother/api at a small fleet: rollouts and removals.
use feast_watch.Prelude.{
  ◌≢◌, is_empty, str_eq, Bool, ℕ, none, ◌*◌, ◌≡◌, refl, some, List, [], ◌∷◌, true, false, ◌==◌,
  arith,
}
use feast_watch.Prelude.Text.{trim_space, cut_prefix}
use feast_watch.Mother.Store.Servers.{find_server, server_by_token}
use feast_watch.Mother.Api.State.{as_server, bearer_server}
use feast_watch.Mother.Release.{Build}
use feast_watch.Mother.Api.Rollout.{handle_set_group_version}
use feast_watch.Mother.Api.Rollout.Groups.{IsReported, group_rollout-IsReported}
use feast_watch.Mother.Api.Removal.{delete_everywhere, handle_delete_server}
use feast_watch.Mother.Api.Removal.Clean.{
  IsRemovedIf, IsTakenOff, deletion_is_complete, deletion_waits_for_the_agent,
}
use feast_watch.Live.{second}
use feast_watch.Prelude.Int.{pos}
use feast_watch.Mother.Settings.{SettingsPayload, validate}
use feast_watch.Mother.Settings.Storage.{
  Key, interval, heartbeat_miss_threshold, retention_1m_days, retention_1h_days,
  live_window_minutes, key_name, save_fields,
}
use feast_watch.Mother.Api.Admin.{handle_put_settings, handle_set_mother_version}
use feast_watch.Mother.Api.Admin.Effects.{IsSound, IsInForce, put_settings-IsSound}
use feast_watch.Mother.Release.{latest_alias, reject_mother_version}
use feast_watch.Mother.Release.Rules.{IsBuilt}
use feast_watch.Mother.Update.{Table, no_update, set_mother_desired_version}
use feast_watch.Mother.Update.Ends.{IsAimed}
use feast_watch.Mother.Api.Admin.Target.{mother_target-IsBuilt}
use feast_watch.Examples.Fixtures.{web, gone, fleet, api}

abbrev one_build : List Build
one_build = record { version = "2"; platforms = "linux-amd64" ∷ [] } ∷ []

group_rollout-IsReported_example :
    IsReported
      (trim_space " 2")
      fleet
      (handle_set_group_version false false (λ id. id == 2) 7 " 2" one_build fleet)
group_rollout-IsReported_example =
    group_rollout-IsReported false false (λ id. id == 2) 7 " 2" one_build fleet

deletion_is_complete_example :
    let (done, a') = delete_everywhere false 1 api in (done ≡ true) × IsRemovedIf true 1 api a'
deletion_is_complete_example = deletion_is_complete 1 api

leaver : bearer_server false "Bearer g" fleet ≡ as_server gone
unfolding bearer_server cut_prefix server_by_token
leaver = refl

deletion_waits_for_the_agent_example :
    let (code, a') = handle_delete_server false false 130 "" 1 api in
    (code ≡ 200) × IsTakenOff true 130 1 web api a'
unfolding find_server
deletion_waits_for_the_agent_example = deletion_waits_for_the_agent 130 "" 1 api web refl

abbrev newest : ℕ → ℕ
newest id = 100

api-IsSound : IsSound newest api
api-IsSound = record {
  bounded = record {
    interval = (omega arith, omega arith);
    heartbeat_miss_threshold = (omega arith, omega arith);
    retention_1m_days = (omega arith, omega arith);
    retention_1h_days = (omega arith, omega arith);
    live_window_minutes = (omega arith, omega arith);
  };
  live = record {
    servers = (
      record {
        some_metric = omega arith;
        capped = omega arith;
        distinct = (tt, tt);
        metrics = (
          record {
            some_point = omega arith;
            ascending = (omega arith, tt);
            at_most = (omega arith, tt);
          },
          tt,
        );
      },
      tt,
    );
  };
}

abbrev payload : SettingsPayload
payload = record {
  interval = some (pos 5);
  heartbeat_miss_threshold = some (pos 3);
  retention_1m_days = some (pos 15);
  retention_1h_days = some (pos 75);
  live_window_minutes = some (pos 2);
  retention_raw_hours = none;
}

abbrev written_keys : List Key
written_keys =
    interval ∷ live_window_minutes ∷ retention_1h_days ∷ heartbeat_miss_threshold
    ∷ retention_1m_days ∷ []

-- No write fails.
put_settings-IsSound_example :
    let (code, a') =
      handle_put_settings false (λ k. false) written_keys (130 * second) (some payload) api in
    IsSound newest a' × IsInForce code api a'
put_settings-IsSound_example =
    put_settings-IsSound newest false (λ k. false) written_keys (130 * second) (some payload) api
      refl api-IsSound

abbrev fails_at : Key → Key → Bool
fails_at j k = str_eq (key_name j) (key_name k)

-- The third write fails: the interval and the window are stored, and the window is not in force.
part_is_stored :
    let (code, a') =
      handle_put_settings false
        (fails_at retention_1h_days)
        written_keys
        (130 * second)
        (some payload)
        api in
    (code ≡ 500)
    × (a'.settings.interval ≡ pos 5)
    × (a'.settings.live_window_minutes ≡ pos 2)
    × (a'.live.window ≡ api.live.window)
unfolding handle_put_settings validate save_fields
part_is_stored = (refl, refl, refl, refl)

abbrev set_to_2 : Table
set_to_2 = some (record no_update { desired_version = "2"; requested_at = 1000 })

two_is_named : is_empty (trim_space "2") ≡ false
unfolding trim_space
two_is_named = refl

target_is_set :
    ◌≡◌ {A = ℕ × Table}
      (handle_set_mother_version false true 1000 "linux-amd64" one_build (some "2") none)
      (200, set_to_2)
unfolding handle_set_mother_version trim_space reject_mother_version set_mother_desired_version
target_is_set = refl

mother_target-IsBuilt_example :
    (true ≡ true)
    × (trim_space "2" ≢ latest_alias)
    × IsBuilt "linux-amd64" (trim_space "2") one_build
    × IsAimed (trim_space "2") 0 set_to_2
mother_target-IsBuilt_example =
    mother_target-IsBuilt false true 1000 "linux-amd64" "2" one_build none set_to_2 two_is_named
      target_is_set
