-- ===== src/Notifications/Cases.antt =====
-- The four ways through `notify`, for proofs that keep its parts shut.
use letschat.Common.{
  Dict, ℕ, ◌≡◌, Bool, true, false, Option, none, some, ◌∷◌, [], ◌++◌, Bool-cases, inl, inr,
}
use letschat.Ui.{NotificationSettings}
use letschat.Notifications.{
  Text, Emitted, Moment, BasePayload, Payload, FormattedNotification, notify, shift_old,
  should_rate_limit, should_suppress_for_preferences, format_notification, seen_recently,
  event_type,
}

module _ (settings : NotificationSettings) (moment : Moment) (base : BasePayload)
    (payload : Payload) (s : Emitted) where
  abbrev pub formatted : FormattedNotification
  formatted = format_notification settings base payload

  abbrev pub suppressed : Bool
  suppressed = should_suppress_for_preferences settings moment base (event_type payload)

  abbrev pub seen : Dict Text ℕ × Bool
  seen = seen_recently formatted.dedupe_key moment.now s.recent

  pub notify_cases {ℓ} :
      (P : Emitted × Option FormattedNotification → Type ℓ)
      → (suppressed ≡ true → P (s, none))
      → (suppressed ≡ false → seen.1 ≡ true → P (record s { recent = seen.0 }, none))
      → (suppressed ≡ false
          → seen.1 ≡ false
          → should_rate_limit moment.now s.at ≡ true
          → P (record { recent = seen.0; at = shift_old moment.now s.at }, none))
      → (suppressed ≡ false
          → seen.1 ≡ false
          → should_rate_limit moment.now s.at ≡ false
          → P (
            record { recent = seen.0; at = shift_old moment.now s.at ++ moment.now ∷ [] },
            some formatted,
          ))
      → P (notify settings moment base payload s)
  unfolding notify
  notify_cases P off repeated limited shown = elim (Bool-cases suppressed) [
    | inl a ↦ rw a (off a)
    | inr a ↦ rw a (elim (Bool-cases seen.1) [
      | inl b ↦ rw b (repeated a b)
      | inr b ↦ rw b (elim (Bool-cases (should_rate_limit moment.now s.at)) [
        | inl c ↦ rw c (limited a b c)
        | inr c ↦ rw c (shown a b c)
      ])
    ])
  ]
