-- ===== src/Notifications/QuietHours.antt =====
-- The quiet hours: which texts are times, and when a minute of the day lies between two of them.
use letschat.Common.{
  ℕ, zero, suc, ◌+◌, ◌-◌, ◌*◌, ◌/◌, ◌%◌, ◌<◌, ◌≡◌, ◌≢◌, ◌↔◌, refl, Bool, true, ◌&&◌, some, [], ◌∷◌,
  ◌==◌, nat_eq, arith, units, option_eq, eq_of_beq,
}
use letschat.Ui.{NotificationSettings}
use letschat.Notifications.{
  Text, time_to_minutes, match_time, in_day, in_window, is_quiet_hours_active, trim_text, digit,
}

-- A minute of the day lies in the window from `start` to `end` exactly when, counted round the clock
-- from `start`, it comes before `end`.
abbrev pub IsBetween : ℕ → ℕ → ℕ → Type 0
IsBetween start end now = (now + 1440 - start) % 1440 < (end + 1440 - start) % 1440

in_window_iff :
    (start end now : ℕ)
    → start < 1440
    → end < 1440
    → now < 1440
    → start ≢ end
    → (in_window start end now ≡ true) ↔ IsBetween start end now
in_window_iff start end now a b c d = ground arith

in_day-lt : (hours minutes : ℕ) {t : ℕ} → in_day hours minutes ≡ some t → t < 1440
in_day-lt hours minutes h = ground arith

match_time-lt : (text : Text) {t : ℕ} → match_time text ≡ some t → t < 1440
unfolding match_time
match_time-lt (h ∷ colon ∷ m ∷ n ∷ []) e =
    ground (arith, in_day-lt (digit h) (digit m * 10 + digit n))
match_time-lt (g ∷ h ∷ colon ∷ m ∷ n ∷ []) e =
    ground (arith, in_day-lt (digit g * 10 + digit h) (digit m * 10 + digit n))
match_time-lt _ e = cc

-- A time that is read is a minute of the day.
pub time_to_minutes-lt : (text : Text) {t : ℕ} → time_to_minutes text ≡ some t → t < 1440
unfolding time_to_minutes
time_to_minutes-lt text e = match_time-lt (trim_text text) e

-- With two different times set, the quiet hours are active exactly when they are switched on and the
-- minute of the day lies between the times, round midnight if the second is the earlier.
pub is_quiet_hours_active_iff :
    (settings : NotificationSettings) (now start end : ℕ)
    → time_to_minutes (units settings.quiet_hours_start) ≡ some start
    → time_to_minutes (units settings.quiet_hours_end) ≡ some end
    → start ≢ end
    → now < 1440
    → (is_quiet_hours_active settings now ≡ true)
      ↔ ((settings.quiet_hours_enabled ≡ true) × IsBetween start end now)
unfolding is_quiet_hours_active
is_quiet_hours_active_iff settings now start end p q ne h = ground (
  arith,
  in_window_iff start end now (time_to_minutes-lt (units settings.quiet_hours_start) p)
      (time_to_minutes-lt (units settings.quiet_hours_end) q) h ne,
)

-- The text of a time of the day, as a time input gives it.
abbrev pub show_time : ℕ → ℕ → Text
show_time hours minutes =
    (b'0' + hours / 10)
    ∷ (b'0' + hours % 10)
    ∷ b':'
    ∷ (b'0' + minutes / 10)
    ∷ (b'0' + minutes % 10)
    ∷ []

below : ℕ → (ℕ → Bool) → Bool
below zero p = true
below (suc n) p = p n && below n p

below_sound : (n : ℕ) (p : ℕ → Bool) (x : ℕ) → below n p ≡ true → x < n → p x ≡ true
unfolding below
below_sound zero p x h lt = absurd (omega arith)
below_sound (suc n) p x h lt = ground (arith, below_sound n p x)

reads_back : ℕ → ℕ → Bool
reads_back hours minutes = time_to_minutes (show_time hours minutes) == some (hours * 60 + minutes)

every_time_reads_back : below 24 (λ hours. below 60 (reads_back hours)) ≡ true
unfolding below reads_back time_to_minutes
every_time_reads_back = refl

-- Every time of the day that is written with two digits each is read back.
pub time_to_minutes-show_time :
    (hours minutes : ℕ)
    → hours < 24
    → minutes < 60
    → time_to_minutes (show_time hours minutes) ≡ some (hours * 60 + minutes)
unfolding reads_back
time_to_minutes-show_time hours minutes h m =
    eq_of_beq (time_to_minutes (show_time hours minutes)) (some (hours * 60 + minutes)) (
      below_sound 60 (reads_back hours) minutes
        (below_sound 24 (λ k. below 60 (reads_back k)) hours every_time_reads_back h) m)
