-- ===== src/Mother/Settings/Storage.antt =====
-- mother/store/settings.go: the settings as rows of a key and a text.
pub mod RoundTrip
pub mod Partial
use feast_watch.Prelude.{
  String, Bool, true, false, Option, none, some, List, [], ◌∷◌, str_eq, if◌then◌else◌,
}
use feast_watch.Prelude.Int.{ℤ}
use feast_watch.Prelude.Map.{Map, string_eq, put}
use feast_watch.Prelude.Text.Decimal.{itoa_ℤ, atoi}
use feast_watch.Mother.Settings.{Settings, default_settings}

pub data Key : Type 0 where
  interval heartbeat_miss_threshold retention_1m_days retention_1h_days live_window_minutes : Key

abbrev pub key_name : Key → String
key_name interval = "interval"
key_name heartbeat_miss_threshold = "heartbeat_miss_threshold"
key_name retention_1m_days = "retention_1m_days"
key_name retention_1h_days = "retention_1h_days"
key_name live_window_minutes = "live_window_minutes"

abbrev pub value_of : Key → Settings → ℤ
value_of interval s = s.interval
value_of heartbeat_miss_threshold s = s.heartbeat_miss_threshold
value_of retention_1m_days s = s.retention_1m_days
value_of retention_1h_days s = s.retention_1h_days
value_of live_window_minutes s = s.live_window_minutes

-- The switch over the key; one that is not known changes nothing.
abbrev pub set_key : String → ℤ → Settings → Settings
set_key k n s =
    if str_eq k "interval"
    then record s { interval = n }
    else (if str_eq k "heartbeat_miss_threshold"
        then record s { heartbeat_miss_threshold = n }
        else (if str_eq k "retention_1m_days"
            then record s { retention_1m_days = n }
            else (if str_eq k "retention_1h_days"
                then record s { retention_1h_days = n }
                else (if str_eq k "live_window_minutes"
                    then record s { live_window_minutes = n }
                    else s))))

-- A row whose value is no number is an error.
abbrev pub set_row : String → Option ℤ → Settings → Option Settings
set_row k none s = none
set_row k (some n) s = some (set_key k n s)

abbrev pub and_rows : Option Settings → (Settings → Option Settings) → Option Settings
and_rows none rest = none
and_rows (some s) rest = rest s

-- The loop over the rows.
unfoldable pub read_rows : Map String String → Settings → Option Settings
read_rows [] s = some s
read_rows ((k, v) ∷ rows) s = and_rows (set_row k (atoi v) s) (read_rows rows)

unfoldable pub get_settings : Map String String → Option Settings
unfolding read_rows
get_settings table = read_rows table default_settings

-- The writes, in the order that the map of pairs is visited in, up to the first that fails.
unfoldable pub save_settings :
    (Key → Bool) → List Key → Settings → Map String String → Bool × Map String String
save_settings fails [] s table = (true, table)
save_settings fails (k ∷ order) s table =
    let rest = save_settings fails order s (put (key_name k) (itoa_ℤ (value_of k s)) table) in
    if fails k then (false, table) else rest

-- The same writes, as what they do to the settings that the table is read as.
unfoldable pub save_fields : (Key → Bool) → List Key → Settings → Settings → Bool × Settings
save_fields fails [] s current = (true, current)
save_fields fails (k ∷ order) s current =
    let rest = save_fields fails order s (set_key (key_name k) (value_of k s) current) in
    if fails k then (false, current) else rest
