-- ===== src/Examples/OfStore.antt =====
-- mother/store at a small fleet, and the rules for settings and versions.
use feast_watch.Prelude.{
  ℕ, if◌then◌else◌, ◌≡◌, ◌≢◌, ◌↔◌, refl, none, some, List, [], ◌∷◌, Bool, true, false, ◌==◌, any,
  arith,
}
use feast_watch.Prelude.Int.{pos}
use feast_watch.Prelude.Map.{get}
use feast_watch.Mother.Settings.{Settings, SettingsPayload, default_settings, validate, valid}
use feast_watch.Mother.Settings.Bounds.{IsBounded, IsFaithful, validate_iff}
use feast_watch.Mother.Store.Tables.{Tables, ok, rollup_key_eq}
use feast_watch.Mother.Store.Rollups.{minute_width, hour_width}
use feast_watch.Mother.Store.Rollups.Summary.{
  Push, apply_pushes, committed, history_for, summary, rollups_summarise,
}
use feast_watch.Mother.Store.Retention.{enforce_retention}
use feast_watch.Mother.Store.Retention.Safety.{retention_keeps_last_day}
use feast_watch.Mother.Store.Groups.{set_group_servers, is_member}
use feast_watch.Mother.Store.Groups.Members.{members_are_replaced}
use feast_watch.Mother.Release.{Build, latest_alias, reject_version}
use feast_watch.Mother.Release.Rules.{IsOffered, reject_version_iff}
use feast_watch.Examples.Fixtures.{naturals, cpu_minute, fleet}

abbrev payload : SettingsPayload
payload = record {
  interval = some (pos 5);
  heartbeat_miss_threshold = some (pos 3);
  retention_1m_days = some (pos 15);
  retention_1h_days = some (pos 75);
  live_window_minutes = none;
  retention_raw_hours = none;
}

abbrev sent : Settings
sent = record default_settings { interval = pos 5 }

validate_iff_example :
    (validate payload default_settings ≡ valid sent) ↔ IsFaithful payload default_settings sent
validate_iff_example = validate_iff payload default_settings sent (omega arith, omega arith)

default_settings-IsBounded : IsBounded default_settings
default_settings-IsBounded = record {
  interval = (omega arith, omega arith);
  heartbeat_miss_threshold = (omega arith, omega arith);
  retention_1m_days = (omega arith, omega arith);
  retention_1h_days = (omega arith, omega arith);
  live_window_minutes = (omega arith, omega arith);
}

retention_keeps_last_day_example :
    let t' = (enforce_retention false false 80000 (pos 15) (pos 75) fleet).1 in
    (get cpu_minute t'.rollup_1m ≡ get cpu_minute fleet.rollup_1m)
    × (get cpu_minute t'.rollup_1h ≡ get cpu_minute fleet.rollup_1h)
retention_keeps_last_day_example =
    retention_keeps_last_day false false 80000 default_settings fleet cpu_minute
      default_settings-IsBounded (omega arith)

abbrev empty : Tables ℕ
empty = record fleet { rollup_1m = [] }

abbrev two_pushes : List (Bool × Push ℕ)
two_pushes =
    (false, record { server_id = 1; ts = 70; samples = ("cpu.pct", 4) ∷ [] })
    ∷ (true, record { server_id = 1; ts = 75; samples = ("cpu.pct", 90) ∷ [] })
    ∷ (false, record { server_id = 1; ts = 80; samples = ("cpu.pct", 6) ∷ ("mem.pct", 1) ∷ [] })
    ∷ []

rollups_summarise_example :
    (get cpu_minute (apply_pushes naturals two_pushes empty).rollup_1m
      ≡ summary naturals (history_for cpu_minute minute_width (committed two_pushes)))
    × (get cpu_minute (apply_pushes naturals two_pushes empty).rollup_1h
        ≡ summary naturals (history_for cpu_minute hour_width (committed two_pushes)))
unfolding get
rollups_summarise_example = rollups_summarise naturals cpu_minute two_pushes empty refl refl

members_are_replaced_example :
    (t' : Tables ℕ) × (set_group_servers false false 7 (2 ∷ 99 ∷ []) fleet ≡ ok t')
    × ((h k : ℕ)
        → is_member h t' k
          ≡ (if 7 == h then any (λ i. i == k) (2 ∷ 99 ∷ []) else is_member h fleet k))
members_are_replaced_example = members_are_replaced 7 (2 ∷ 99 ∷ []) fleet refl

abbrev two_builds : List Build
two_builds =
    record { version = "3"; platforms = "linux-amd64" ∷ [] }
    ∷ record { version = "2"; platforms = "linux-arm64" ∷ [] }
    ∷ []

reject_version_iff_example :
    (reject_version "linux-amd64" "2" two_builds ≡ none)
    ↔ (("2" ≢ latest_alias) × IsOffered "linux-amd64" "2" two_builds)
reject_version_iff_example = reject_version_iff "linux-amd64" "2" two_builds
