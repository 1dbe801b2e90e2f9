-- ===== src/Examples/OfMother.antt =====
-- mother/: a chart, a source archive and a migration.
use feast_watch.Prelude.{
  any, str_eq, ℕ, ◌+◌, ◌*◌, ◌/◌, ◌≡◌, ◌≤◌, refl, true, false, some, [], ◌∷◌, ◌==◌, List, length,
  arith,
}
use feast_watch.Prelude.Int.{pos}
use feast_watch.Prelude.Map.{string_eq, get}
use feast_watch.Prelude.Text.{◌<>◌, cut_prefix}
use feast_watch.Shared.SelfUpdate.{answered}
use feast_watch.Mother.Store.Tables.{Tables, RollupKey, Bucket}
use feast_watch.Mother.Store.Migrations.{Database, of_avg, of_sum, migrate}
use feast_watch.Mother.Store.Migrations.Resume.{no_fault, migrate_resumes}
use feast_watch.Mother.Api.Chart.{ChartPoint, handle_chart}
use feast_watch.Mother.Api.Chart.Bound.{chart_bounded}
use feast_watch.Mother.Build.Source.{Tree, Disk, Next, entry, regular, fetch_source}
use feast_watch.Mother.Build.Source.Inside.{source_stays_inside}
use feast_watch.Mother.Settings.{Settings, default_settings}
use feast_watch.Mother.Settings.Storage.{
  Key, interval, heartbeat_miss_threshold, retention_1m_days, retention_1h_days,
  live_window_minutes, key_name, value_of, get_settings, save_settings,
}
use feast_watch.Mother.Settings.Storage.RoundTrip.{no_fault as no_save_fault, settings_round_trip}
use feast_watch.Prelude.Text.Decimal.{IsInt64, atoi}
use feast_watch.Examples.Fixtures.{naturals}

abbrev row : ℕ → ℕ → RollupKey × Bucket ℕ
row ts v = (
  record { server_id = 1; metric = "cpu"; window_start = ts },
  record { min = v; max = v; sum = v + v; cnt = 2 },
)

abbrev history : Tables ℕ
history = record {
  servers = [];
  rollup_1m = row 60 4 ∷ row 0 2 ∷ row 120 6 ∷ [];
  rollup_1h = [];
  server_groups = [];
  server_group_members = [];
}

abbrev drawn : List (ChartPoint ℕ)
drawn =
    record { ts = 0; min = 2; max = 4; avg = 3 }
    ∷ record { ts = 120; min = 6; max = 6; avg = 6 }
    ∷ []

chart_bounded_example : length drawn ≤ 502
unfolding handle_chart
chart_bounded_example =
    chart_bounded naturals (λ a b. a / b) false history (some 1) (pos 0) (pos 150) (some (pos 120))
      "cpu" drawn (omega arith) refl

abbrev works : Disk
works = record {
  makes_dir = λ d. true;
  opens = λ d. true;
  room = 100;
  closes = true;
  removes = true;
}

abbrev around : Tree
around = ("/etc/passwd", 9 ∷ []) ∷ []

abbrev tarball : List Next
tarball =
    entry record { name = "src-1/go.mod"; kind = regular; content = 1 ∷ []; cut = false }
    ∷ entry
        record { name = "src-1/../../etc/passwd"; kind = regular; content = 2 ∷ []; cut = false }
    ∷ []

source_stays_inside_example :
    get "/etc/passwd"
      (fetch_source
        (λ a b. a <> ("/" <> b))
        some
        (λ body cut. some tarball)
        (λ url. answered 200 [] false)
        works
        "https://forge/repo"
        "v1"
        "/tmp/src"
        around).tree
    ≡ get "/etc/passwd" around
unfolding cut_prefix
source_stays_inside_example =
    source_stays_inside (λ a b. a <> ("/" <> b)) some (λ body cut. some tarball)
      (λ url. answered 200 [] false) works "https://forge/repo" "v1" "/tmp/src" "/tmp/src"
      "/etc/passwd" around refl refl

abbrev released : Database ℕ
released = record {
  user_version = 0;
  server_columns = "name" ∷ [];
  servers = (("name", "web") ∷ []) ∷ [];
  settings = ("desired_version", "v2") ∷ ("retention_raw_hours", "24") ∷ [];
  rollup_1m = of_avg (
      (
        record { server_id = 1; metric = "cpu"; window_start = 0 },
        record { min = 1; max = 3; avg = 2; cnt = 2 },
      )
      ∷ []);
  rollup_1h = of_sum [];
  has_samples = true;
  has_groups = false;
  has_mother_update = false;
}

migrate_resumes_example :
    (migrate
      (λ a n. a * n)
      no_fault
      (migrate (λ a n. a * n) (λ i. i == 2) released).database).database
    ≡ (migrate (λ a n. a * n) no_fault released).database
migrate_resumes_example = migrate_resumes (λ a n. a * n) (λ i. i == 2) released

-- The target of the fleet is the server's, and the sum of a bucket is its average times its count.
migrated :
    ((migrate (λ a n. a * n) no_fault released).database.rollup_1m
      ≡ of_sum (
          (
            record { server_id = 1; metric = "cpu"; window_start = 0 },
            record { min = 1; max = 3; sum = 4; cnt = 2 },
          )
          ∷ []))
    × ((migrate (λ a n. a * n) no_fault released).database.user_version ≡ 6)
unfolding migrate get
migrated = (refl, refl)

abbrev chosen : Settings
chosen = record default_settings { interval = pos 30; retention_1m_days = pos 7 }

chosen-IsInt64 : (k : Key) → IsInt64 (value_of k chosen)
chosen-IsInt64 interval = omega arith
chosen-IsInt64 heartbeat_miss_threshold = omega arith
chosen-IsInt64 retention_1m_days = omega arith
chosen-IsInt64 retention_1h_days = omega arith
chosen-IsInt64 live_window_minutes = omega arith

abbrev order : List Key
order =
    retention_1h_days ∷ interval ∷ live_window_minutes ∷ retention_1m_days
    ∷ heartbeat_miss_threshold ∷ []

order_whole : (k : Key) → any (λ j. str_eq (key_name j) (key_name k)) order ≡ true
order_whole interval = refl
order_whole heartbeat_miss_threshold = refl
order_whole retention_1m_days = refl
order_whole retention_1h_days = refl
order_whole live_window_minutes = refl

settings_round_trip_example :
    get_settings
      (save_settings no_save_fault order chosen (("interval", "10") ∷ ("unknown", "7") ∷ [])).1
    ≡ some chosen
unfolding atoi
settings_round_trip_example =
    settings_round_trip chosen order (("interval", "10") ∷ ("unknown", "7") ∷ []) chosen-IsInt64
      order_whole ((refl, tt), (tt, tt)) ((pos 10, refl), ((pos 7, refl), tt))
