-- ===== src/Mother/Settings.antt =====
-- mother/store/settings.go and mother/api/settings.go: the knobs that the panel sets.
pub mod Bounds
pub mod Storage
use feast_watch.Prelude.{String, Bool, true, Option, none, some, List, [], ◌∷◌, if◌then◌else◌, ◌||◌}
use feast_watch.Prelude.Int.{ℤ, pos, ltb_ℤ}
use feast_watch.Prelude.Text.{concat}

pub record Settings : Type 0 where
  pub interval : ℤ
  pub heartbeat_miss_threshold : ℤ
  pub retention_1m_days : ℤ
  pub retention_1h_days : ℤ
  pub live_window_minutes : ℤ

abbrev pub default_settings : Settings
default_settings = record {
  interval = pos 10;
  heartbeat_miss_threshold = pos 3;
  retention_1m_days = pos 15;
  retention_1h_days = pos 75;
  live_window_minutes = pos 60;
}

abbrev pub min_interval : ℤ
min_interval = pos 2

abbrev pub max_interval : ℤ
max_interval = pos 3600

abbrev pub min_heartbeat_miss : ℤ
min_heartbeat_miss = pos 1

abbrev pub max_heartbeat_miss : ℤ
max_heartbeat_miss = pos 100

abbrev pub max_retention_days : ℤ
max_retention_days = pos 3650

abbrev pub min_live_window_minutes : ℤ
min_live_window_minutes = pos 1

abbrev pub max_live_window_minutes : ℤ
max_live_window_minutes = pos 60

-- A key that the body leaves out is `none`. `retention_raw_hours` is read and used nowhere.
pub record SettingsPayload : Type 0 where
  pub interval : Option ℤ
  pub heartbeat_miss_threshold : Option ℤ
  pub retention_1m_days : Option ℤ
  pub retention_1h_days : Option ℤ
  pub live_window_minutes : Option ℤ
  pub retention_raw_hours : Option ℤ

-- Why a payload is refused: the key is missing, or its value is out of range.
pub data Refusal : Type 0 where
  is_required : String → Refusal
  must_be_between : String → ℤ → ℤ → Refusal

pub data Validated : Type 0 where
  valid : Settings → Validated
  refused : Refusal → Validated

-- One turn of the loop over `fields()`, before the fields that follow it.
pub check_field : String → Option ℤ → ℤ → ℤ → (ℤ → Validated) → Validated
check_field name none min max next = refused (is_required name)
check_field name (some value) min max next =
    if ltb_ℤ value min || ltb_ℤ max value
    then refused (must_be_between name min max)
    else next value

-- The window of the payload, or the current one, which is not checked.
pub check_live_window : Option ℤ → ℤ → (ℤ → Validated) → Validated
check_live_window none current next = next current
check_live_window (some value) current next =
    if ltb_ℤ value min_live_window_minutes || ltb_ℤ max_live_window_minutes value
    then refused
        (must_be_between "live_window_minutes" min_live_window_minutes max_live_window_minutes)
    else next value

unfoldable pub validate : SettingsPayload → Settings → Validated
unfolding check_field check_live_window
validate p current = check_field "interval" p.interval min_interval max_interval λ interval.
    check_field "heartbeat_miss_threshold" p.heartbeat_miss_threshold min_heartbeat_miss
      max_heartbeat_miss
      λ misses.
        check_field "retention_1m_days" p.retention_1m_days (pos 1) max_retention_days λ days_1m.
          check_field "retention_1h_days" p.retention_1h_days (pos 1) max_retention_days λ days_1h.
            check_live_window p.live_window_minutes current.live_window_minutes λ window.
              valid (record {
                interval = interval;
                heartbeat_miss_threshold = misses;
                retention_1m_days = days_1m;
                retention_1h_days = days_1h;
                live_window_minutes = window;
              })
