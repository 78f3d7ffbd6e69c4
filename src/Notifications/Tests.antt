-- ===== src/Notifications/Tests.antt =====
-- Notifications on small inputs.
use letschat.Common.{
  ℕ, String, ◌≡◌, ◌<◌, ◌↔◌, refl, true, false, none, some, [], ◌∷◌, arith, units, length,
  units_equal, lookup, insert, nat_eq,
}
use letschat.Ui.{NotificationSettings, default_settings}
use letschat.Notifications.{
  Payload, notify, time_to_minutes, is_quiet_hours_active, truncate_preview, seen_recently,
  should_suppress_for_preferences, should_rate_limit, shift_old, format_notification,
}
use letschat.Notifications.QuietHours.{
  IsBetween, is_quiet_hours_active_iff, time_to_minutes-show_time, show_time,
}
use letschat.Notifications.Limits.{
  Call, answer, IsSpaced, shown_times, nothing_emitted, notify-IsSpaced,
}
use letschat.Notifications.Decision.{
  IsWanted, content, notify_iff, IsUnseen, last_seen, notify_once, after_calls,
}

preview_of : truncate_preview (units "  a \n\n b ") ≡ units "a b"
unfolding truncate_preview
preview_of = refl

abbrev night : NotificationSettings
night = record default_settings { quiet_hours_enabled = true }

is_quiet_hours_active_iff_example :
    (is_quiet_hours_active night 30 ≡ true) ↔ ((true ≡ true) × IsBetween 1320 420 30)
unfolding time_to_minutes
is_quiet_hours_active_iff_example =
    is_quiet_hours_active_iff night 30 1320 420 refl refl (omega arith) (omega arith)

time_to_minutes-show_time_example : time_to_minutes (show_time 23 59) ≡ some 1439
time_to_minutes-show_time_example = time_to_minutes-show_time 23 59 (omega arith) (omega arith)

abbrev call : ℕ → String → Call
call now name = record {
  settings = default_settings;
  moment = record { minutes = 600; now = now; focused = false };
  base = record { dedupe_key = none; suppress = false; suppress_if_focused_and_active = true };
  payload = Payload.friend_request (units name);
}

notifications : Unit {0}
unfolding notify seen_recently should_suppress_for_preferences should_rate_limit shift_old
    format_notification is_quiet_hours_active lookup insert units_equal
notifications = tt

shows_first : (answer (call 5000 "ann") nothing_emitted).1 ≡ some (content (call 5000 "ann"))
unfolding notifications
shows_first = refl

notify-IsSpaced_example :
    IsSpaced (shown_times (call 1 "ann" ∷ call 2 "ben" ∷ call 2 "ann" ∷ []) nothing_emitted [])
notify-IsSpaced_example =
    notify-IsSpaced (call 1 "ann" ∷ call 2 "ben" ∷ call 2 "ann" ∷ []) (omega arith)

notify_iff_example : ((answer (call 1 "ann") nothing_emitted).1 ≡ some (content (call 1 "ann"))) ↔ (
    IsWanted (call 1 "ann")
    × IsUnseen 1 (last_seen (content (call 1 "ann")).dedupe_key nothing_emitted)
    × (length (shift_old 1 []) < 6))
notify_iff_example = notify_iff (call 1 "ann") nothing_emitted

notify_once_example :
    (answer
      (call 6000 "ann")
      (after_calls (call 5500 "ben" ∷ []) (answer (call 5000 "ann") nothing_emitted).0)).1
    ≡ none
notify_once_example =
    notify_once (call 5000 "ann") (call 6000 "ann") (call 5500 "ben" ∷ []) nothing_emitted
      (content (call 5000 "ann")) shows_first (omega arith) (omega arith) refl
