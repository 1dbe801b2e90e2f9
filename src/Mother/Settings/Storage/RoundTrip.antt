-- ===== src/Mother/Settings/Storage/RoundTrip.antt =====
-- mother/store/settings.go: settings that were saved are read back.
use feast_watch.Prelude.{
  ◌≡◌, refl, ◌⊎◌, sym, ap, ◌∙◌, String, Bool, true, false, Option, none, some, List, [], ◌∷◌,
  str_eq, str_eq_iff, if◌then◌else◌, All, any, Bool-cases, inl, inr, arith,
}
use feast_watch.Prelude.Int.{ℤ}
use feast_watch.Prelude.Map.{
  Map, string_eq, get, put, get-put, get-absent, All-put, HasDistinctKeys, HasDistinctKeys-put,
}
use feast_watch.Prelude.Text.Decimal.{itoa_ℤ, atoi, IsInt64, atoi-itoa}
use feast_watch.Mother.Settings.{Settings, default_settings}
use feast_watch.Mother.Settings.Storage.{
  Key, interval, heartbeat_miss_threshold, retention_1m_days, retention_1h_days,
  live_window_minutes, key_name, value_of, set_key, set_row, and_rows, read_rows, get_settings,
  save_settings,
}

-- The row holds a number.
abbrev pub IsNumber : String × String → Type 0
IsNumber x = (n : ℤ) × (atoi x.1 ≡ some n)

abbrev pub number_or : Option ℤ → ℤ → ℤ
number_or none otherwise = otherwise
number_or (some n) otherwise = n

-- What a key is read as, by its row.
abbrev pub read_as : Option String → ℤ → ℤ
read_as none otherwise = otherwise
read_as (some v) otherwise = number_or (atoi v) otherwise

pub set_own : (k : Key) (n : ℤ) (s : Settings) → value_of k (set_key (key_name k) n s) ≡ n
set_own interval n s = refl
set_own heartbeat_miss_threshold n s = refl
set_own retention_1m_days n s = refl
set_own retention_1h_days n s = refl
set_own live_window_minutes n s = refl

pub set_other :
    (k : Key) (name : String) (n : ℤ) (s : Settings)
    → str_eq name (key_name k) ≡ false
    → value_of k (set_key name n s) ≡ value_of k s
set_other interval name n s h = ground (arith, h)
set_other heartbeat_miss_threshold name n s h = ground (arith, h)
set_other retention_1m_days name n s h = ground (arith, h)
set_other retention_1h_days name n s h = ground (arith, h)
set_other live_window_minutes name n s h = ground (arith, h)

-- Rows of numbers are read as a whole, each key by its row.
pub record Reads (rows : Map String String) (s : Settings) : Type 0 where
  pub result : Settings
  pub read : read_rows rows s ≡ some result
  pub values : (k : Key) → value_of k result ≡ read_as (get (key_name k) rows) (value_of k s)

pub rows-Reads :
    (rows : Map String String) (s : Settings)
    → HasDistinctKeys rows
    → All IsNumber rows
    → Reads rows s
unfolding read_rows get
rows-Reads [] s d h = record { result = s; read = refl; values = λ k. refl }
rows-Reads ((name, v) ∷ rows) s d h =
    let n = h.0.0 in
    let later = rows-Reads rows (set_key name n s) d.1 h.1 in
    record {
      result = later.result;
      read = ap (λ o. and_rows (set_row name o s) (read_rows rows)) h.0.1 ∙ later.read;
      values = λ k. elim (Bool-cases (str_eq name (key_name k))) [
        | inr other ↦
            rw other
              (later.values k ∙ ap (read_as (get (key_name k) rows)) (set_other k name n s other))
        | inl same ↦
            let here : name ≡ key_name k = (str_eq_iff name (key_name k)).0 same in
            let absent : get (key_name k) rows ≡ none =
              ap (λ m. get m rows) (sym here) ∙ get-absent name rows d.0 in
            rw same (
              later.values k
              ∙ ap (λ o. read_as o (value_of k (set_key name n s))) absent
              ∙ ap (λ m. value_of k (set_key m n s)) here
              ∙ set_own k n s
              ∙ sym (ap (λ o. number_or o (value_of k s)) h.0.1))
      ];
    }

pub same_value :
    (j k : Key) (s : Settings)
    → str_eq (key_name j) (key_name k) ≡ true
    → value_of j s ≡ value_of k s
same_value interval interval s h = refl
same_value interval heartbeat_miss_threshold s h = cc
same_value interval retention_1m_days s h = cc
same_value interval retention_1h_days s h = cc
same_value interval live_window_minutes s h = cc
same_value heartbeat_miss_threshold interval s h = cc
same_value heartbeat_miss_threshold heartbeat_miss_threshold s h = refl
same_value heartbeat_miss_threshold retention_1m_days s h = cc
same_value heartbeat_miss_threshold retention_1h_days s h = cc
same_value heartbeat_miss_threshold live_window_minutes s h = cc
same_value retention_1m_days interval s h = cc
same_value retention_1m_days heartbeat_miss_threshold s h = cc
same_value retention_1m_days retention_1m_days s h = refl
same_value retention_1m_days retention_1h_days s h = cc
same_value retention_1m_days live_window_minutes s h = cc
same_value retention_1h_days interval s h = cc
same_value retention_1h_days heartbeat_miss_threshold s h = cc
same_value retention_1h_days retention_1m_days s h = cc
same_value retention_1h_days retention_1h_days s h = refl
same_value retention_1h_days live_window_minutes s h = cc
same_value live_window_minutes interval s h = cc
same_value live_window_minutes heartbeat_miss_threshold s h = cc
same_value live_window_minutes retention_1m_days s h = cc
same_value live_window_minutes retention_1h_days s h = cc
same_value live_window_minutes live_window_minutes s h = refl

abbrev pub no_fault : Key → Bool
no_fault k = false

module _ (s : Settings) (fits : (k : Key) → IsInt64 (value_of k s)) where
  -- A table that can be read.
  pub record IsReadable (table : Map String String) : Type 0 where
    pub distinct : HasDistinctKeys table
    pub numbers : All IsNumber table

  unfoldable pub written : Key → Map String String → Map String String
  written k table = put (key_name k) (itoa_ℤ (value_of k s)) table

  pub written-IsReadable :
      (k : Key) (table : Map String String) → IsReadable table → IsReadable (written k table)
  unfolding written
  written-IsReadable k table r = record {
    distinct = HasDistinctKeys-put (key_name k) (itoa_ℤ (value_of k s)) table r.distinct;
    numbers =
        All-put IsNumber (key_name k) (itoa_ℤ (value_of k s)) table
          (value_of k s, atoi-itoa (value_of k s) (fits k)) r.numbers;
  }

  pub get-written :
      (j k : Key) (table : Map String String)
      → get (key_name k) (written j table) ≡ (
          if str_eq (key_name j) (key_name k)
          then some (itoa_ℤ (value_of k s))
          else get (key_name k) table)
  unfolding written
  get-written j k table =
      get-put (key_name j) (key_name k) (itoa_ℤ (value_of j s)) table
      ∙ elim (Bool-cases (str_eq (key_name j) (key_name k))) [
        | inl same ↦ rw same (ap (λ n. some (itoa_ℤ n)) (same_value j k s same))
        | inr other ↦ rw other refl
      ]

  saved : List Key → Map String String → Map String String
  saved order table = (save_settings no_fault order s table).1

  saved-IsReadable :
      (order : List Key) (table : Map String String)
      → IsReadable table
      → IsReadable (saved order table)
  unfolding saved save_settings written
  saved-IsReadable [] table r = r
  saved-IsReadable (k ∷ order) table r =
      saved-IsReadable order (written k table) (written-IsReadable k table r)

  -- Written once, or in the order that is left.
  get-saved :
      (order : List Key) (k : Key) (table : Map String String)
      → ((get (key_name k) table ≡ some (itoa_ℤ (value_of k s)))
          ⊎ (any (λ j. str_eq (key_name j) (key_name k)) order ≡ true))
      → get (key_name k) (saved order table) ≡ some (itoa_ℤ (value_of k s))
  unfolding saved save_settings written
  get-saved [] k table (inl there) = there
  get-saved [] k table (inr h) = cc
  get-saved (j ∷ order) k table h =
      get-saved order k (written j table) (elim (Bool-cases (str_eq (key_name j) (key_name k))) [
        | inl same ↦ inl (get-written j k table ∙ rw same refl)
        | inr other ↦ elim h [
          | inl there ↦ inl (get-written j k table ∙ rw other there)
          | inr later ↦ inr (rw other at later)
        ]
      ])

pub all_fields : (r s : Settings) → ((k : Key) → value_of k r ≡ value_of k s) → r ≡ s
all_fields r s h = λ i. record {
  interval = h interval i;
  heartbeat_miss_threshold = h heartbeat_miss_threshold i;
  retention_1m_days = h retention_1m_days i;
  retention_1h_days = h retention_1h_days i;
  live_window_minutes = h live_window_minutes i;
}

-- Settings of 64-bit integers that are written, in any order of the five keys and without a failing
-- statement, into a table that has every key once and holds numbers alone, are read back as they were.
pub settings_round_trip :
    (s : Settings) (order : List Key) (table : Map String String)
    → ((k : Key) → IsInt64 (value_of k s))
    → ((k : Key) → any (λ j. str_eq (key_name j) (key_name k)) order ≡ true)
    → HasDistinctKeys table
    → All IsNumber table
    → get_settings (save_settings no_fault order s table).1 ≡ some s
unfolding get_settings saved
settings_round_trip s order table fits every_key d h =
    let table' = saved s fits order table in
    let ok = saved-IsReadable s fits order table record { distinct = d; numbers = h } in
    let r = rows-Reads table' default_settings ok.distinct ok.numbers in
    r.read
    ∙ ap some (
        all_fields r.result s (λ k.
          r.values k
          ∙ ap (λ o. read_as o (value_of k default_settings))
              (get-saved s fits order k table (inr (every_key k)))
          ∙ ap (λ o. number_or o (value_of k default_settings))
              (atoi-itoa (value_of k s) (fits k))))
