-- ===== src/Mother/Store/Migrations.antt =====
-- mother/store/migrate.go: an older database is brought to the current schema. The database is what
-- the migrations read and write of it: a row of `servers` is a map from its columns, a tier of the
-- rollups has the old shape or the new one, and a table that is only made is there or not. Every
-- migration is one transaction with its version bump, so one that fails leaves the database as it was.
pub mod Resume
use feast_watch.Prelude.{
  ℕ, suc, ◌+◌, String, Bool, true, false, Option, none, some, List, [], ◌∷◌, ◌++◌, map, any, length,
  drop, str_eq, is_empty, if◌then◌else◌, not, get_or,
}
use feast_watch.Prelude.Map.{Map, string_eq, get, put, delete}
use feast_watch.Mother.Store.Tables.{RollupKey, Bucket}

abbrev pub Row : Type 0
Row = Map String String

-- A row of a rollup table that holds an average.
pub record AvgBucket (V : Type 0) : Type 0 where
  pub min : V
  pub max : V
  pub avg : V
  pub cnt : ℕ

pub data Tier (V : Type 0) : Type 0 where
  of_avg : List (RollupKey × AvgBucket V) → Tier V
  of_sum : List (RollupKey × Bucket V) → Tier V

pub record Database (V : Type 0) : Type 0 where
  pub user_version : ℕ
  pub server_columns : List String
  pub servers : List Row
  pub settings : Map String String
  pub rollup_1m : Tier V
  pub rollup_1h : Tier V
  pub has_samples : Bool
  pub has_groups : Bool
  pub has_mother_update : Bool

-- How far a run has come, whether it ended with an error, and what it leaves.
pub record Migrated (V : Type 0) : Type 0 where
  pub applied : ℕ
  pub failed : Bool
  pub database : Database V

-- The value of a column that a row may lack.
abbrev pub column : String → Row → String
column name row = get_or (get name row) ""

module _ {V : Type 0} (mul : V → ℕ → V) where
  -- `addColumn`: a column that is there stays as it is.
  unfoldable pub add_column : (name value : String) → Database V → Database V
  add_column name value db = if any (λ c. str_eq c name) db.server_columns then db else record db {
    server_columns = db.server_columns ++ name ∷ [];
    servers = map (put name value) db.servers;
  }

  abbrev pub add_release_columns : Database V → Database V
  add_release_columns db =
      add_column "update_error" ""
        (add_column "desired_version" "" (add_column "arch" "" (add_column "capabilities" "[]" db)))

  -- UPDATE servers SET desired_version = … WHERE desired_version = ''
  abbrev pub with_target : String → Row → Row
  with_target global row =
      if is_empty (column "desired_version" row) then put "desired_version" global row else row

  abbrev pub retire_target : Option String → Database V → Database V
  retire_target none db = db
  retire_target (some global) db = record db {
    servers = (if is_empty global then db.servers else map (with_target global) db.servers);
    settings = delete "desired_version" db.settings;
  }

  unfoldable pub migrate_desired_version_per_server : Database V → Database V
  migrate_desired_version_per_server db = retire_target (get "desired_version" db.settings) db

  abbrev pub summed : RollupKey × AvgBucket V → RollupKey × Bucket V
  summed (k, b) = (k, record { min = b.min; max = b.max; sum = mul b.avg b.cnt; cnt = b.cnt })

  abbrev pub rebuilt : Tier V → Tier V
  rebuilt (of_avg rows) = of_sum (map summed rows)
  rebuilt (of_sum rows) = of_sum rows

  unfoldable pub migrate_rollups_to_sum : Database V → Database V
  migrate_rollups_to_sum db = record db {
    rollup_1m = rebuilt db.rollup_1m;
    rollup_1h = rebuilt db.rollup_1h;
    has_samples = false;
    settings = delete "retention_raw_hours" db.settings;
  }

  abbrev pub add_uninstall_columns : Database V → Database V
  add_uninstall_columns db =
      add_column "uninstall_error" "" (add_column "uninstall_requested_at" "0" db)

  -- `migrations`
  unfoldable pub migrations : List (Database V → Database V)
  unfolding add_column migrate_desired_version_per_server migrate_rollups_to_sum
  migrations =
      add_release_columns
      ∷ migrate_desired_version_per_server
      ∷ migrate_rollups_to_sum
      ∷ (λ db. record db { has_groups = true })
      ∷ add_uninstall_columns
      ∷ (λ db. record db { has_mother_update = true })
      ∷ []

  -- `applyMigration`, where no statement fails.
  abbrev pub apply_migration : ℕ → (Database V → Database V) → Database V → Database V
  apply_migration index run db = record (run db) { user_version = index + 1 }

  -- The loop, from this index on; `fails` says which transactions do.
  unfoldable pub migrate_from :
      (ℕ → Bool) → ℕ → List (Database V → Database V) → Database V → Migrated V
  migrate_from fails i [] db = record { applied = 0; failed = false; database = db }
  migrate_from fails i (run ∷ rest) db =
      let later = migrate_from fails (i + 1) rest (apply_migration i run db) in
      if fails i
      then record { applied = 0; failed = true; database = db }
      else record later { applied = later.applied + 1 }

  unfoldable pub migrate : (ℕ → Bool) → Database V → Migrated V
  unfolding migrate_from migrations
  migrate fails db = migrate_from fails db.user_version (drop db.user_version migrations) db
