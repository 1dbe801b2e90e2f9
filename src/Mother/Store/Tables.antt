-- ===== src/Mother/Store/Tables.antt =====
-- mother/store/schema.go: the tables, as far as the code of the mother reads and writes them. A
-- statement that fails, or a transaction that is rolled back, leaves the tables as they were.
use feast_watch.Prelude.{
  ℕ, String, Bool, true, ◌≡◌, ◌↔◌, List, ◌==◌, str_eq, str_eq_iff, ◌&&◌, arith,
}
use feast_watch.Prelude.Map.{Map, Eq}

pub record Server : Type 0 where
  pub id : ℕ
  pub name : String
  pub token : String
  pub collectors : List String
  pub hostname : String
  pub ip : String
  pub os : String
  pub arch : String
  pub agent_version : String
  pub last_push : ℕ
  pub capabilities : List String
  pub desired_version : String
  pub update_error : String
  pub uninstall_requested_at : ℕ
  pub uninstall_error : String
  pub created_at : ℕ

pub record Group : Type 0 where
  pub id : ℕ
  pub name : String
  pub created_at : ℕ

-- A row of server_group_members.
pub record Member : Type 0 where
  pub group_id : ℕ
  pub server_id : ℕ

-- The primary key of both rollup tables.
pub record RollupKey : Type 0 where
  pub server_id : ℕ
  pub metric : String
  pub window_start : ℕ

-- The other columns. `V` stands for float64.
pub record Bucket (V : Type 0) : Type 0 where
  pub min : V
  pub max : V
  pub sum : V
  pub cnt : ℕ

abbrev pub Rollup : Type 0 → Type 0
Rollup V = Map RollupKey (Bucket V)

pub record Tables (V : Type 0) : Type 0 where
  pub servers : List Server
  pub rollup_1m : Rollup V
  pub rollup_1h : Rollup V
  pub server_groups : List Group
  pub server_group_members : List Member

-- SQLite's min, max and + on reals.
pub record Arithmetic (V : Type 0) : Type 0 where
  pub min : V → V → V
  pub max : V → V → V
  pub add : V → V → V

pub data StoreError : Type 0 where
  not_found invalid_name invalid_group_name duplicate_group_name storage_failure : StoreError

pub data Result {ℓ} (A : Type ℓ) : Type ℓ where
  ok : A → Result A
  err : StoreError → Result A

abbrev pub rollup_key_beq : RollupKey → RollupKey → Bool
rollup_key_beq j k =
    j.server_id == k.server_id && str_eq j.metric k.metric && j.window_start == k.window_start

pub rollup_key_beq_iff : (j k : RollupKey) → (rollup_key_beq j k ≡ true) ↔ (j ≡ k)
rollup_key_beq_iff j k = ground (arith, str_eq_iff j.metric k.metric)

instance abbrev pub rollup_key_eq : Eq RollupKey
rollup_key_eq = record { beq = rollup_key_beq; beq_iff = rollup_key_beq_iff }
