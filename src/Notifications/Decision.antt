-- ===== src/Notifications/Decision.antt =====
-- When `notify` shows something, what it shows, and that it does not show it twice.
use mathlib.Core.Bool.{false≢true}
use letschat.Common.{
  ℕ, zero, suc, ◌+◌, ◌<◌, ◌≤◌, ◌≡◌, ◌↔◌, refl, sym, ◌∙◌, true, false, ◌&&◌, Option, none, some,
  List, [], ◌∷◌, ◌++◌, if◌then◌else◌, leb, arith, length, length-append, Dict, lookup, insert,
  lookup-insert, lookup-insert_self, units_equal, Bool-cases, inl, inr, All, units,
}
use letschat.Notifications.{
  Text, Emitted, FormattedNotification, shift_old, should_rate_limit,
  should_suppress_for_preferences, format_notification, seen_recently, is_fresh, drop_stale,
  event_type, is_quiet_hours_active, switched_off, preference_key, truncate_preview, take,
  trim_text, collapse,
}
use letschat.Notifications.Cases.{notify_cases}
use letschat.Notifications.Limits.{Call, answer}

-- The user has not asked to be left alone, and the caller does not hold the event back.
abbrev pub IsWanted : Call → Type 0
IsWanted c =
    (c.settings.enabled ≡ true)
    × (is_quiet_hours_active c.settings c.moment.minutes ≡ false)
    × (switched_off c.settings (preference_key (event_type c.payload)) ≡ false)
    × (c.base.suppress ≡ false)
    × ((c.base.suppress_if_focused_and_active && c.moment.focused) ≡ false)

should_suppress-IsWanted :
    (c : Call)
    → (should_suppress_for_preferences c.settings c.moment c.base (event_type c.payload) ≡ false)
      ↔ IsWanted c
unfolding should_suppress_for_preferences
should_suppress-IsWanted c = ground arith

-- What a call would show, and when a text was last noted.
abbrev pub content : Call → FormattedNotification
content c = format_notification c.settings c.base c.payload

abbrev pub last_seen : Text → Emitted → Option ℕ
last_seen key s = lookup ⦃e = units_equal⦄ key s.recent

fresh_of_seen :
    (c : Call) (s : Emitted)
    → (seen_recently (content c).dedupe_key c.moment.now s.recent).1 ≡ true
    → is_fresh c.moment.now (last_seen (content c).dedupe_key s) ≡ true
unfolding seen_recently
fresh_of_seen c s b = ground arith

stale_of_unseen :
    (c : Call) (s : Emitted)
    → (seen_recently (content c).dedupe_key c.moment.now s.recent).1 ≡ false
    → is_fresh c.moment.now (last_seen (content c).dedupe_key s) ≡ false
unfolding seen_recently
stale_of_unseen c s b = ground arith

-- A text was never noted, or at least two seconds ago.
abbrev pub IsUnseen : ℕ → Option ℕ → Type 0
IsUnseen now none = Unit
IsUnseen now (some t) = t + 2000 ≤ now

is_fresh_iff : (now : ℕ) (o : Option ℕ) → (is_fresh now o ≡ false) ↔ IsUnseen now o
is_fresh_iff now none = (λ _. tt, λ _. refl)
is_fresh_iff now (some t) = ground arith

-- A call shows its formatted notification, or nothing; and it shows it exactly when it is wanted, its
-- key was not noted within the last two seconds, and fewer than six times are still counted.
pub notify_iff :
    (c : Call) (s : Emitted)
    → ((answer c s).1 ≡ some (content c)) ↔ (
        IsWanted c
        × IsUnseen c.moment.now (last_seen (content c).dedupe_key s)
        × (length (shift_old c.moment.now s.at) < 6))
unfolding should_rate_limit
notify_iff c s =
    notify_cases c.settings c.moment c.base c.payload s
      (λ r. (r.1 ≡ some (content c)) ↔ (
        IsWanted c
        × IsUnseen c.moment.now (last_seen (content c).dedupe_key s)
        × (length (shift_old c.moment.now s.at) < 6)))
      (λ a. (λ e. cc, λ w. cc ((should_suppress-IsWanted c).1 w.0)))
      (λ a b. (λ e. cc, λ w. absurd (repeated_ne b w.1)))
      (λ a b k. (λ e. cc, λ w. absurd (limited_ne k w.2)))
      (λ a b k. (λ e. ((should_suppress-IsWanted c).0 a, unseen b, below k), λ w. refl))
  where
    repeated_ne :
        (seen_recently (content c).dedupe_key c.moment.now s.recent).1 ≡ true
        → IsUnseen c.moment.now (last_seen (content c).dedupe_key s)
        → ⊥
    repeated_ne b w = false≢true (
        sym ((is_fresh_iff c.moment.now (last_seen (content c).dedupe_key s)).1 w)
        ∙ fresh_of_seen c s b)

    limited_ne :
        should_rate_limit c.moment.now s.at ≡ true → length (shift_old c.moment.now s.at) < 6 → ⊥
    limited_ne k w = ground arith

    unseen :
        (seen_recently (content c).dedupe_key c.moment.now s.recent).1 ≡ false
        → IsUnseen c.moment.now (last_seen (content c).dedupe_key s)
    unseen b =
        (is_fresh_iff c.moment.now (last_seen (content c).dedupe_key s)).0 (stale_of_unseen c s b)

    below : should_rate_limit c.moment.now s.at ≡ false → length (shift_old c.moment.now s.at) < 6
    below k = ground arith

lookup-drop_stale :
    (key : Text) (now t : ℕ) (m : Dict Text ℕ)
    → lookup ⦃e = units_equal⦄ key m ≡ some t
    → now < t + 2000
    → lookup ⦃e = units_equal⦄ key (drop_stale now m) ≡ some t
unfolding lookup drop_stale
lookup-drop_stale key now t [] e h = cc
lookup-drop_stale key now t ((k, u) ∷ m) e h =
    ground (arith, lookup-drop_stale key now t m, units_equal.reflects k key)

-- While the time noted for a text is less than two seconds old, no call changes it.
seen_recently-keeps :
    (key other : Text) (now t : ℕ) (m : Dict Text ℕ)
    → lookup ⦃e = units_equal⦄ key m ≡ some t
    → now < t + 2000
    → lookup ⦃e = units_equal⦄ key (seen_recently other now m).0 ≡ some t
unfolding seen_recently
seen_recently-keeps key other now t m e h = ground (
  arith,
  units_equal.reflects other key,
  lookup-insert ⦃e = units_equal⦄ other key now m,
  lookup-drop_stale key now t (insert ⦃e = units_equal⦄ other now m),
)

notify-keeps :
    (c : Call) (key : Text) (t : ℕ) (s : Emitted)
    → last_seen key s ≡ some t
    → c.moment.now < t + 2000
    → last_seen key (answer c s).0 ≡ some t
notify-keeps c key t s e h =
    notify_cases c.settings c.moment c.base c.payload s (λ r. last_seen key r.0 ≡ some t) (λ _. e)
      (λ _ _. kept) (λ _ _ _. kept) (λ _ _ _. kept)
  where
    kept :
        lookup ⦃e = units_equal⦄ key (seen_recently (content c).dedupe_key c.moment.now s.recent).0
        ≡ some t
    kept = seen_recently-keeps key (content c).dedupe_key c.moment.now t s.recent e h

abbrev pub after_calls : List Call → Emitted → Emitted
after_calls [] s = s
after_calls (c ∷ rest) s = after_calls rest (answer c s).0

after_calls-keeps :
    (calls : List Call) (key : Text) (t : ℕ) (s : Emitted)
    → All (λ c. c.moment.now < t + 2000) calls
    → last_seen key s ≡ some t
    → last_seen key (after_calls calls s) ≡ some t
after_calls-keeps [] key t s h e = e
after_calls-keeps (c ∷ rest) key t s (h, hs) e =
    after_calls-keeps rest key t _ hs (notify-keeps c key t s e h)

seen_recently-notes :
    (key : Text) (now : ℕ) (m : Dict Text ℕ)
    → (seen_recently key now m).1 ≡ false
    → lookup ⦃e = units_equal⦄ key (seen_recently key now m).0 ≡ some now
unfolding seen_recently
seen_recently-notes key now m h = ground (
  arith,
  lookup-drop_stale key now now (insert ⦃e = units_equal⦄ key now m),
  lookup-insert_self ⦃e = units_equal⦄ key now m,
)

-- A text noted less than two seconds ago is seen.
seen_recently_noted :
    (key : Text) (now t : ℕ) (m : Dict Text ℕ)
    → lookup ⦃e = units_equal⦄ key m ≡ some t
    → now < t + 2000
    → (seen_recently key now m).1 ≡ true
unfolding seen_recently
seen_recently_noted key now t m e h = ground arith

shown-noted :
    (c : Call) (s : Emitted) (f : FormattedNotification)
    → (answer c s).1 ≡ some f
    → last_seen (content c).dedupe_key (answer c s).0 ≡ some c.moment.now
shown-noted c s f =
    notify_cases c.settings c.moment c.base c.payload s
      (λ r. r.1 ≡ some f → last_seen (content c).dedupe_key r.0 ≡ some c.moment.now) (λ _ e. cc)
      (λ _ _ e. cc) (λ _ _ _ e. cc)
      (λ _ b _ _. seen_recently-notes (content c).dedupe_key c.moment.now s.recent b)

-- What was shown is not shown again within two seconds, whatever other calls are made between: a call
-- with the same key gets nothing.
pub notify_once :
    (first again : Call) (between : List Call) (s : Emitted) (f : FormattedNotification)
    → (answer first s).1 ≡ some f
    → All (λ c. c.moment.now < first.moment.now + 2000) between
    → again.moment.now < first.moment.now + 2000
    → (content again).dedupe_key ≡ (content first).dedupe_key
    → (answer again (after_calls between (answer first s).0)).1 ≡ none
notify_once first again between s f shown h k same =
    notify_cases again.settings again.moment again.base again.payload
      (after_calls between (answer first s).0) (λ r. r.1 ≡ none) (λ _. refl) (λ _ _. refl)
      (λ _ _ _. refl) (λ _ b _. absurd (false≢true (sym b ∙ repeated)))
  where
    noted :
        last_seen (content again).dedupe_key (after_calls between (answer first s).0)
        ≡ some first.moment.now
    noted = rw same (
        after_calls-keeps between (content first).dedupe_key first.moment.now _ h
          (shown-noted first s f shown))

    repeated :
        (seen_recently
          (content again).dedupe_key
          again.moment.now
          (after_calls between (answer first s).0).recent).1
        ≡ true
    repeated =
        seen_recently_noted (content again).dedupe_key again.moment.now first.moment.now _ noted k

length-take : (n : ℕ) (t : Text) → length (take n t) ≤ n
length-take zero t = omega arith
length-take (suc n) [] = omega arith
length-take (suc n) (c ∷ cs) = omega (arith, length-take n cs)

clipped-le : (t : Text) → length (if leb (length t) 90 then t else take 89 t ++ units "…") ≤ 90
clipped-le t = elim (Bool-cases (leb (length t) 90)) [
  | inl short ↦ rw short (ground arith)
  | inr long ↦ rw (long, length-append (take 89 t) (units "…")) (omega (arith, length-take 89 t))
]

-- A preview has at most ninety units.
pub truncate_preview-le : (text : Text) → length (truncate_preview text) ≤ 90
unfolding truncate_preview
truncate_preview-le text = clipped-le (trim_text (collapse false text))
