-- ===== src/Mother/Settings/Storage/Partial.antt =====
-- mother/store/settings.go: what a save that stops on the way leaves to be read.
use feast_watch.Prelude.{
  ◌≡◌, refl, sym, ap, ◌∙◌, String, Bool, some, List, [], ◌∷◌, str_eq, str_eq_iff, Bool-cases, inl,
  inr, some_inj,
}
use feast_watch.Prelude.Map.{Map, string_eq, get}
use feast_watch.Prelude.Text.Decimal.{IsInt64, atoi-itoa}
use feast_watch.Mother.Settings.{Settings, default_settings}
use feast_watch.Mother.Settings.Storage.{
  Key, key_name, value_of, set_key, get_settings, save_settings, save_fields,
}
use feast_watch.Mother.Settings.Storage.RoundTrip.{
  number_or, read_as, set_own, set_other, same_value, rows-Reads, IsReadable, written,
  written-IsReadable, get-written, all_fields,
}

module _ (s : Settings) (fits : (k : Key) → IsInt64 (value_of k s)) where
  written_value :
      (j k : Key) (table : Map String String) (current : Settings)
      → ((k : Key)
          → value_of k current ≡ read_as (get (key_name k) table) (value_of k default_settings))
      → read_as (get (key_name k) (written s fits j table)) (value_of k default_settings)
        ≡ value_of k (set_key (key_name j) (value_of j s) current)
  written_value j k table current reads =
      ap (λ o. read_as o (value_of k default_settings)) (get-written s fits j k table)
      ∙ elim (Bool-cases (str_eq (key_name j) (key_name k))) [
        | inl same ↦ rw same (
            ap (λ o. number_or o (value_of k default_settings)) (atoi-itoa (value_of k s) (fits k))
            ∙ sym (same_value j k s same)
            ∙ sym (set_own k (value_of j s) current)
            ∙ ap (λ n. value_of k (set_key n (value_of j s) current))
                (sym ((str_eq_iff (key_name j) (key_name k)).0 same)))
        | inr other ↦
            rw other (sym (reads k) ∙ sym (set_other k (key_name j) (value_of j s) current other))
      ]

  get_settings-written :
      (k : Key) (table : Map String String) (current : Settings)
      → IsReadable s fits table
      → get_settings table ≡ some current
      → get_settings (written s fits k table) ≡ some (set_key (key_name k) (value_of k s) current)
  unfolding get_settings
  get_settings-written k table current ok read =
      let before = rows-Reads table default_settings ok.distinct ok.numbers in
      let held : before.result ≡ current =
        some_inj before.result current (sym before.read ∙ read) in
      let ok' = written-IsReadable s fits k table ok in
      let after = rows-Reads (written s fits k table) default_settings ok'.distinct ok'.numbers in
      after.read
      ∙ ap some (
          all_fields after.result (set_key (key_name k) (value_of k s) current) λ j.
            after.values j
            ∙ written_value k j table current (λ i. ap (value_of i) (sym held) ∙ before.values i))

  -- A save of 64-bit integers into a table that can be read, whichever of its statements fails:
  -- what is read of the table then is what was read before, with the values that were written so far.
  pub get_settings-save_settings :
      (fails : Key → Bool) (order : List Key) (table : Map String String) (current : Settings)
      → IsReadable s fits table
      → get_settings table ≡ some current
      → ((save_settings fails order s table).0 ≡ (save_fields fails order s current).0)
        × (get_settings (save_settings fails order s table).1
            ≡ some (save_fields fails order s current).1)
  unfolding save_settings save_fields written
  get_settings-save_settings fails [] table current ok read = (refl, read)
  get_settings-save_settings fails (k ∷ order) table current ok read = elim (Bool-cases (fails k)) [
    | inl fault ↦ rw fault (refl, read)
    | inr fine ↦ rw fine (
        get_settings-save_settings fails order (written s fits k table)
          (set_key (key_name k) (value_of k s) current) (written-IsReadable s fits k table ok)
          (get_settings-written k table current ok read))
  ]
