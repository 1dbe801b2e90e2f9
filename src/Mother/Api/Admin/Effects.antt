-- ===== src/Mother/Api/Admin/Effects.antt =====
-- mother/api/settings.go with mother/store/settings.go and mother/live/live.go: what a saved setting
-- amounts to.
use feast_watch.Prelude.{
  ℕ, ◌*◌, ◌<◌, ◌≡◌, refl, ap, ◌∙◌, Bool, true, false, Option, none, some, List, [], ◌∷◌, ◌==◌,
  str_eq, str_eq_iff, if◌then◌else◌, any, Bool-cases, inl, inr, arith, ◌⊎◌, sym,
}
use feast_watch.Prelude.Int.{pos_part}
use feast_watch.Prelude.Map.{Map, get, nat_eq}
use feast_watch.Live.{
  Point, Store, minute, set_window, evict_all, evict, evict_found, store_metrics,
}
use feast_watch.Live.Invariant.{IsValid}
use feast_watch.Live.Upkeep.{set_window-IsValid}
use feast_watch.Mother.Settings.{Settings, SettingsPayload, Validated, valid, refused, validate}
use feast_watch.Mother.Settings.Bounds.{IsBounded, validate_iff}
use feast_watch.Mother.Settings.Storage.{
  Key, interval, heartbeat_miss_threshold, retention_1m_days, retention_1h_days,
  live_window_minutes, key_name, value_of, set_key, save_fields,
}
use feast_watch.Mother.Settings.Storage.RoundTrip.{set_own, set_other, same_value}
use feast_watch.Mother.Api.State.{Api}
use feast_watch.Mother.Api.Admin.{handle_put_settings, apply_settings, save_valid, after_save}

-- A field of settings in their ranges may be written over another's.
set_key-IsBounded :
    (k : Key) (s current : Settings)
    → IsBounded s
    → IsBounded current
    → IsBounded (set_key (key_name k) (value_of k s) current)
set_key-IsBounded interval s current h c = record {
  interval = h.interval;
  heartbeat_miss_threshold = c.heartbeat_miss_threshold;
  retention_1m_days = c.retention_1m_days;
  retention_1h_days = c.retention_1h_days;
  live_window_minutes = c.live_window_minutes;
}
set_key-IsBounded heartbeat_miss_threshold s current h c = record {
  interval = c.interval;
  heartbeat_miss_threshold = h.heartbeat_miss_threshold;
  retention_1m_days = c.retention_1m_days;
  retention_1h_days = c.retention_1h_days;
  live_window_minutes = c.live_window_minutes;
}
set_key-IsBounded retention_1m_days s current h c = record {
  interval = c.interval;
  heartbeat_miss_threshold = c.heartbeat_miss_threshold;
  retention_1m_days = h.retention_1m_days;
  retention_1h_days = c.retention_1h_days;
  live_window_minutes = c.live_window_minutes;
}
set_key-IsBounded retention_1h_days s current h c = record {
  interval = c.interval;
  heartbeat_miss_threshold = c.heartbeat_miss_threshold;
  retention_1m_days = c.retention_1m_days;
  retention_1h_days = h.retention_1h_days;
  live_window_minutes = c.live_window_minutes;
}
set_key-IsBounded live_window_minutes s current h c = record {
  interval = c.interval;
  heartbeat_miss_threshold = c.heartbeat_miss_threshold;
  retention_1m_days = c.retention_1m_days;
  retention_1h_days = c.retention_1h_days;
  live_window_minutes = h.live_window_minutes;
}

save_fields-IsBounded :
    (fails : Key → Bool) (order : List Key) (s current : Settings)
    → IsBounded s
    → IsBounded current
    → IsBounded (save_fields fails order s current).1
unfolding save_fields
save_fields-IsBounded fails [] s current h c = c
save_fields-IsBounded fails (k ∷ order) s current h c = elim (Bool-cases (fails k)) [
  | inl fault ↦ rw fault c
  | inr fine ↦ rw fine (
      save_fields-IsBounded fails order s (set_key (key_name k) (value_of k s) current) h
        (set_key-IsBounded k s current h c))
]

-- When no write failed, a key of the order holds what was saved.
save_fields-value_of :
    (fails : Key → Bool) (order : List Key) (s current : Settings) (k : Key)
    → (save_fields fails order s current).0 ≡ true
    → ((value_of k current ≡ value_of k s)
        ⊎ (any (λ j. str_eq (key_name j) (key_name k)) order ≡ true))
    → value_of k (save_fields fails order s current).1 ≡ value_of k s
unfolding save_fields
save_fields-value_of fails [] s current k done (inl held) = held
save_fields-value_of fails [] s current k done (inr h) = cc
save_fields-value_of fails (j ∷ order) s current k done h = elim (Bool-cases (fails j)) [
  | inl fault ↦ cc (rw fault at done)
  | inr fine ↦
      let next = set_key (key_name j) (value_of j s) current in
      rw fine (
        save_fields-value_of fails order s next k (rw fine at done)
          (elim (Bool-cases (str_eq (key_name j) (key_name k))) [
            | inl same ↦ inl (
                ap (λ n. value_of k (set_key n (value_of j s) current))
                  ((str_eq_iff (key_name j) (key_name k)).0 same)
                ∙ set_own k (value_of j s) current
                ∙ same_value j k s same)
            | inr other ↦ elim h [
              | inl held ↦ inl (set_other k (key_name j) (value_of j s) current other ∙ held)
              | inr later ↦ inr (rw other at later)
            ]
          ]))
]

window_positive : (s : Settings) → IsBounded s → 0 < pos_part s.live_window_minutes * minute
window_positive s h = ground (arith, h.live_window_minutes)

module _ {V : Type 0} where
  store_metrics-window :
      (s : Store V) (id : ℕ) (m : Map _ (List (Point V))) → (store_metrics s id m).window ≡ s.window
  unfolding store_metrics
  store_metrics-window s id [] = refl
  store_metrics-window s id (x ∷ m) = refl

  evict_found-window :
      (s : Store V) (now id : ℕ) (held : Option (Map _ (List (Point V))))
      → (evict_found s now id held).window ≡ s.window
  unfolding evict_found
  evict_found-window s now id none = refl
  evict_found-window s now id (some m) = store_metrics-window s id _

  evict_all-window :
      (s : Store V) (now : ℕ) (ids : Map ℕ (Map _ (List (Point V))))
      → (evict_all s now ids).window ≡ s.window
  unfolding evict_all evict
  evict_all-window s now [] = refl
  evict_all-window s now ((id, m) ∷ rest) =
      evict_all-window (evict s now id) now rest ∙ evict_found-window s now id (get id s.series)

  set_window-window :
      (s : Store V) (now window : ℕ) → 0 < window → (set_window s now window).window ≡ window
  unfolding set_window
  set_window-window s now window positive =
      let changes : (window == 0) ≡ false = ground arith in
      rw changes (evict_all-window (record s { window = window }) now s.series)

  -- What the settings of a running mother satisfy: every one in its range, and the live store valid.
  pub record IsSound (hi : ℕ → ℕ) (a : Api V) : Type 0 where
    pub bounded : IsBounded a.settings
    pub live : IsValid hi a.live

  -- The window in force after an answer: the one that is stored then if the answer is 200, else the
  -- one that was in force before.
  abbrev pub IsInForce : ℕ → Api V → Api V → Type 0
  IsInForce code before after = after.live.window ≡ (
      if code == 200
      then pos_part after.settings.live_window_minutes * minute
      else before.live.window)

  abbrev IsSavedSoundly : (ℕ → ℕ) → Api V → ℕ × Api V → Type 0
  IsSavedSoundly hi a r = IsSound hi r.1 × IsInForce r.0 a r.1

  saved :
      (hi : ℕ → ℕ) (now : ℕ) (s : Settings) (r : Bool × Settings) (a : Api V)
      → IsSound hi a
      → IsBounded s
      → IsBounded r.1
      → (r.0 ≡ true → r.1.live_window_minutes ≡ s.live_window_minutes)
      → IsSavedSoundly hi a (after_save now s r a)
  unfolding apply_settings
  saved hi now s (false, stored) a sound h b same =
      (record { bounded = b; live = sound.live }, refl)
  saved hi now s (true, stored) a sound h b same = (
    record { bounded = b; live = set_window-IsValid hi a.live now _ sound.live },
    set_window-window a.live now _ (window_positive s h)
        ∙ ap (λ n. pos_part n * minute) (sym (same refl)),
  )

  judged :
      (hi : ℕ → ℕ) (fails : Key → Bool) (order : List Key) (now : ℕ) (v : Validated) (a : Api V)
      → any (λ j. str_eq (key_name j) (key_name live_window_minutes)) order ≡ true
      → IsSound hi a
      → ((s : Settings) → v ≡ valid s → IsBounded s)
      → IsSavedSoundly hi a (save_valid fails order now v a)
  unfolding save_valid
  judged hi fails order now (refused why) a all sound h = (sound, refl)
  judged hi fails order now (valid s) a all sound h =
      saved hi now s (save_fields fails order s a.settings) a sound (h s refl)
        (save_fields-IsBounded fails order s a.settings (h s refl) sound.bounded)
        (λ done. save_fields-value_of fails order s a.settings live_window_minutes done (inr all))

  -- Whatever the panel sends, in whatever order the keys are written as long as the window is one of
  -- them, and whichever writes fail, also after others have worked: settings in their ranges stay
  -- in their ranges, a valid live store stays valid, and the window in force is the one that is
  -- stored if the answer is 200, and the one that was in force before otherwise.
  pub put_settings-IsSound :
      (hi : ℕ → ℕ) (read_fails : Bool) (fails : Key → Bool) (order : List Key) (now : ℕ)
      (body : Option SettingsPayload) (a : Api V)
      → any (λ j. str_eq (key_name j) (key_name live_window_minutes)) order ≡ true
      → IsSound hi a
      → let (code, a') = handle_put_settings read_fails fails order now body a in
        IsSound hi a' × IsInForce code a a'
  unfolding handle_put_settings
  put_settings-IsSound hi read_fails fails order now none a all sound = (sound, refl)
  put_settings-IsSound hi true fails order now (some p) a all sound = (sound, refl)
  put_settings-IsSound hi false fails order now (some p) a all sound =
      judged hi fails order now (validate p a.settings) a all sound
        (λ s e. ((validate_iff p a.settings s sound.bounded.live_window_minutes).0 e).bounded)
