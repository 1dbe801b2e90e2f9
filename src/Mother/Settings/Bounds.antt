-- ===== src/Mother/Settings/Bounds.antt =====
-- mother/api/settings.go: what an accepted payload guarantees.
use feast_watch.Prelude.{
  String, ◌∙◌, ◌↔◌, ◌≡◌, refl, false, Option, none, some, get_or, arith, inl, inr, ◌||◌, Bool-cases,
}
use feast_watch.Prelude.Int.{ℤ, pos, ◌≤ℤ◌, ltb_ℤ}
use feast_watch.Mother.Settings.{
  Settings, SettingsPayload, Validated, valid, refused, check_field, check_live_window, validate,
  min_interval, max_interval, min_heartbeat_miss, max_heartbeat_miss, max_retention_days,
  min_live_window_minutes, max_live_window_minutes,
}

abbrev pub IsWithin : ℤ → ℤ → ℤ → Type 0
IsWithin min max x = (min ≤ℤ x) × (x ≤ℤ max)

pub record IsBounded (s : Settings) : Type 0 where
  pub interval : IsWithin min_interval max_interval s.interval
  pub heartbeat_miss_threshold :
      IsWithin min_heartbeat_miss max_heartbeat_miss s.heartbeat_miss_threshold
  pub retention_1m_days : IsWithin (pos 1) max_retention_days s.retention_1m_days
  pub retention_1h_days : IsWithin (pos 1) max_retention_days s.retention_1h_days
  pub live_window_minutes :
      IsWithin min_live_window_minutes max_live_window_minutes s.live_window_minutes

in_range : (min max x : ℤ) → (ltb_ℤ x min || ltb_ℤ max x) ≡ false → IsWithin min max x
in_range min max x h = ground arith

-- What holds of accepted settings; a refusal needs nothing.
abbrev Ensures : (Settings → Type 0) → Validated → Type 0
Ensures P (valid s) = P s
Ensures P (refused r) = Unit

check_field-Ensures :
    (P : Settings → Type 0) (name : String) (value : Option ℤ) (min max : ℤ) (next : ℤ → Validated)
    → ((x : ℤ) → value ≡ some x → IsWithin min max x → Ensures P (next x))
    → Ensures P (check_field name value min max next)
unfolding check_field
check_field-Ensures P name none min max next h = tt
check_field-Ensures P name (some x) min max next h =
    elim (Bool-cases (ltb_ℤ x min || ltb_ℤ max x)) [
      | inl outside ↦ rw outside tt
      | inr inside ↦ rw inside (h x refl (in_range min max x inside))
    ]

check_live_window-Ensures :
    (P : Settings → Type 0) (value : Option ℤ) (current : ℤ) (next : ℤ → Validated)
    → IsWithin min_live_window_minutes max_live_window_minutes current
    → ((x : ℤ)
        → x ≡ get_or value current
        → IsWithin min_live_window_minutes max_live_window_minutes x
        → Ensures P (next x))
    → Ensures P (check_live_window value current next)
unfolding check_live_window
check_live_window-Ensures P none current next ok h = h current refl ok
check_live_window-Ensures P (some x) current next ok h =
    elim (Bool-cases (ltb_ℤ x min_live_window_minutes || ltb_ℤ max_live_window_minutes x)) [
      | inl outside ↦ rw outside tt
      | inr inside ↦
          rw inside (h x refl (in_range min_live_window_minutes max_live_window_minutes x inside))
    ]

-- The settings are bounded, and are what the payload says, with the current window for a missing
-- one.
pub record IsFaithful (p : SettingsPayload) (current s : Settings) : Type 0 where
  pub bounded : IsBounded s
  pub interval : p.interval ≡ some s.interval
  pub heartbeat_miss_threshold : p.heartbeat_miss_threshold ≡ some s.heartbeat_miss_threshold
  pub retention_1m_days : p.retention_1m_days ≡ some s.retention_1m_days
  pub retention_1h_days : p.retention_1h_days ≡ some s.retention_1h_days
  pub live_window_minutes :
      s.live_window_minutes ≡ get_or p.live_window_minutes current.live_window_minutes

validate-Ensures :
    (p : SettingsPayload) (current : Settings)
    → IsWithin min_live_window_minutes max_live_window_minutes current.live_window_minutes
    → Ensures (IsFaithful p current) (validate p current)
unfolding validate
validate-Ensures p current ok = check_field-Ensures _ _ p.interval _ _ _ λ interval e₁ in₁.
    check_field-Ensures _ _ p.heartbeat_miss_threshold _ _ _ λ misses e₂ in₂.
      check_field-Ensures _ _ p.retention_1m_days _ _ _ λ days_1m e₃ in₃.
        check_field-Ensures _ _ p.retention_1h_days _ _ _ λ days_1h e₄ in₄.
          check_live_window-Ensures _ p.live_window_minutes _ _ ok λ window e₅ in₅. record {
            bounded = record {
              interval = in₁;
              heartbeat_miss_threshold = in₂;
              retention_1m_days = in₃;
              retention_1h_days = in₄;
              live_window_minutes = in₅;
            };
            interval = e₁;
            heartbeat_miss_threshold = e₂;
            retention_1m_days = e₃;
            retention_1h_days = e₄;
            live_window_minutes = e₅;
          }

outside_false : (min max x : ℤ) → IsWithin min max x → (ltb_ℤ x min || ltb_ℤ max x) ≡ false
outside_false min max x h = ground arith

check_field-accepts :
    (name : String) (value : Option ℤ) (min max x : ℤ) (next : ℤ → Validated)
    → value ≡ some x
    → IsWithin min max x
    → check_field name value min max next ≡ next x
unfolding check_field
check_field-accepts name value min max x next sent inside =
    rw (sent, check_field, outside_false min max x inside)

check_live_window-accepts :
    (value : Option ℤ) (current x : ℤ) (next : ℤ → Validated)
    → x ≡ get_or value current
    → IsWithin min_live_window_minutes max_live_window_minutes x
    → check_live_window value current next ≡ next x
unfolding check_live_window
check_live_window-accepts none current x next sent inside = rw sent
check_live_window-accepts (some y) current x next sent inside =
    rw (← sent, outside_false min_live_window_minutes max_live_window_minutes x inside)

validate_accepts :
    (p : SettingsPayload) (current s : Settings)
    → IsFaithful p current s
    → validate p current ≡ valid s
unfolding validate
validate_accepts p current s f =
    check_field-accepts _ p.interval _ _ s.interval _ f.interval f.bounded.interval
    ∙ check_field-accepts _ p.heartbeat_miss_threshold _ _ s.heartbeat_miss_threshold _
        f.heartbeat_miss_threshold f.bounded.heartbeat_miss_threshold
    ∙ check_field-accepts _ p.retention_1m_days _ _ s.retention_1m_days _ f.retention_1m_days
        f.bounded.retention_1m_days
    ∙ check_field-accepts _ p.retention_1h_days _ _ s.retention_1h_days _ f.retention_1h_days
        f.bounded.retention_1h_days
    ∙ check_live_window-accepts p.live_window_minutes _ s.live_window_minutes _
        f.live_window_minutes f.bounded.live_window_minutes

-- Provided that the stored live window is in its range, a payload is accepted with certain settings
-- exactly when every interval, threshold and retention is sent, the settings are what was sent,
-- with the stored live window where none was, and every field of them is in its range.
pub validate_iff :
    (p : SettingsPayload) (current s : Settings)
    → IsWithin min_live_window_minutes max_live_window_minutes current.live_window_minutes
    → (validate p current ≡ valid s) ↔ IsFaithful p current s
validate_iff p current s ok =
    (λ h. rw h at (validate-Ensures p current ok), validate_accepts p current s)
