-- ===== src/Notifications/Limits.antt =====
-- The limits on what is shown: at most six notifications in ten seconds, and none twice in two.
use mathlib.Core.List.{reverse-append, append_assoc}
use letschat.Common.{
  ℕ, ◌+◌, ◌-◌, ◌<◌, ◌≤◌, ◌≡◌, refl, sym, ap, ◌∙◌, true, false, Option, none, some, List, [], ◌∷◌,
  ◌++◌, reverse, ltb, arith, length, All, All-append, All-map, All-reverse, All-get_elem?,
  get_elem?, get_elem?-append, length-reverse, Bool-cases, inl, inr,
}
use letschat.Ui.{NotificationSettings}
use letschat.Notifications.{
  Emitted, Moment, BasePayload, Payload, FormattedNotification, notify, shift_old,
  should_rate_limit,
}
use letschat.Notifications.Cases.{notify_cases}

-- One call of `notify`, with the settings and the clock that it finds.
pub record Call : Type 0 where
  pub settings : NotificationSettings
  pub moment : Moment
  pub base : BasePayload
  pub payload : Payload

abbrev pub answer : Call → Emitted → Emitted × Option FormattedNotification
answer c s = notify c.settings c.moment c.base c.payload s

-- The times at which something was shown, the last first, behind those of `shown`.
abbrev note_shown : ℕ → Option FormattedNotification → List ℕ → List ℕ
note_shown now none shown = shown
note_shown now (some f) shown = now ∷ shown

abbrev pub shown_times : List Call → Emitted → List ℕ → List ℕ
shown_times [] s shown = shown
shown_times (c ∷ rest) s shown =
    shown_times rest (answer c s).0 (note_shown c.moment.now (answer c s).1 shown)

-- The clock does not run backwards.
abbrev pub IsMonotone : ℕ → List Call → Type 0
IsMonotone last [] = Unit
IsMonotone last (c ∷ rest) = (last ≤ c.moment.now) × IsMonotone c.moment.now rest

-- Of any seven in a row the first and the last are more than ten seconds apart.
abbrev pub IsSpaced : List ℕ → Type 0
IsSpaced [] = Unit
IsSpaced (x ∷ xs) = ((y : ℕ) → get_elem? xs 5 ≡ some y → y + 10000 < x) × IsSpaced xs

abbrev IsOld : ℕ → ℕ → Type 0
IsOld now t = t + 10000 < now

-- What was shown is what is still counted, behind it what is too old to be counted.
record Counts (last : ℕ) (at shown : List ℕ) : Type 0 where
  gone : List ℕ
  split : shown ≡ reverse at ++ gone
  old : All (IsOld last) gone
  spaced : IsSpaced shown

abbrev Splits : ℕ → List ℕ → List ℕ → Type 0
Splits now at kept = (dropped : List ℕ) × (at ≡ dropped ++ kept) × All (IsOld now) dropped

Splits-keep : (now : ℕ) (at : List ℕ) → Splits now at at
Splits-keep now at = ([], refl, tt)

Splits-drop :
    (now t : ℕ) (ts kept : List ℕ)
    → ltb 10000 (now - t) ≡ true
    → Splits now ts kept
    → Splits now (t ∷ ts) kept
Splits-drop now t ts kept h (dropped, split, old) =
    (t ∷ dropped, ap (◌∷◌ t) split, (ground arith, old))

-- The loop of the rate limit drops old times only, and drops them in front.
shift_old-split : (now : ℕ) (at : List ℕ) → Splits now at (shift_old now at)
unfolding shift_old
shift_old-split now [] = Splits-keep now []
shift_old-split now (t ∷ ts) = elim (Bool-cases (ltb 10000 (now - t))) [
  | inl h ↦ rw h (Splits-drop now t ts (shift_old now ts) h (shift_old-split now ts))
  | inr h ↦ rw h (Splits-keep now (t ∷ ts))
]

module _ {last : ℕ} (now : ℕ) (later : last ≤ now) where
  IsOld-later : (gone : List ℕ) → All (IsOld last) gone → All (IsOld now) gone
  IsOld-later gone h = All-map (IsOld last) (IsOld now) (λ t p. omega arith) gone h

  Counts-later : {at shown : List ℕ} → Counts last at shown → Counts now at shown
  Counts-later c = record {
    gone = c.gone;
    split = c.split;
    old = IsOld-later c.gone c.old;
    spaced = c.spaced;
  }

  Counts-shift : (at shown : List ℕ) → Counts last at shown → Counts now (shift_old now at) shown
  Counts-shift at shown c =
      let (dropped, split, old) = shift_old-split now at in
      record {
        gone = reverse dropped ++ c.gone;
        split =
            c.split
            ∙ ap (λ xs. reverse xs ++ c.gone) split
            ∙ ap (λ xs. xs ++ c.gone) (reverse-append dropped (shift_old now at))
            ∙ append_assoc (reverse (shift_old now at)) (reverse dropped) c.gone;
        old =
            All-append (IsOld now) (reverse dropped) c.gone (All-reverse (IsOld now) dropped old)
              (IsOld-later c.gone c.old);
        spaced = c.spaced;
      }

-- A time that is added to fewer than six counted ones keeps the rest more than ten seconds away.
Counts-push :
    (now : ℕ) (at shown : List ℕ)
    → Counts now at shown
    → length at < 6
    → Counts now (at ++ now ∷ []) (now ∷ shown)
Counts-push now at shown c h = record {
  gone = c.gone;
  split = ap (◌∷◌ now) c.split ∙ ap (λ xs. xs ++ c.gone) (sym (reverse-append at (now ∷ [])));
  old = c.old;
  spaced = (
    λ y e. All-get_elem? (IsOld now) c.gone _ c.old (
        sym (get_elem?-append 5 (reverse at) c.gone (omega (arith, length-reverse at)))
        ∙ ap (λ xs. get_elem? xs 5) (sym c.split)
        ∙ e),
    c.spaced,
  );
}

length-lt_of_should_rate_limit :
    (now : ℕ) (at : List ℕ) → should_rate_limit now at ≡ false → length (shift_old now at) < 6
unfolding should_rate_limit
length-lt_of_should_rate_limit now at h = ground arith

notify-Counts :
    (c : Call) (last : ℕ) (s : Emitted) (shown : List ℕ)
    → last ≤ c.moment.now
    → Counts last s.at shown
    → Counts c.moment.now (answer c s).0.at (note_shown c.moment.now (answer c s).1 shown)
notify-Counts c last s shown h k =
    notify_cases c.settings c.moment c.base c.payload s
      (λ r. Counts c.moment.now r.0.at (note_shown c.moment.now r.1 shown))
      (λ _. Counts-later c.moment.now h k) (λ _ _. Counts-later c.moment.now h k)
      (λ _ _ _. Counts-shift c.moment.now h s.at shown k)
      (λ _ _ few.
        Counts-push c.moment.now _ shown (Counts-shift c.moment.now h s.at shown k)
          (length-lt_of_should_rate_limit c.moment.now s.at few))

shown_times-IsSpaced :
    (calls : List Call) (last : ℕ) (s : Emitted) (shown : List ℕ)
    → IsMonotone last calls
    → Counts last s.at shown
    → IsSpaced (shown_times calls s shown)
shown_times-IsSpaced [] last s shown m k = k.spaced
shown_times-IsSpaced (c ∷ rest) last s shown (h, m) k =
    shown_times-IsSpaced rest c.moment.now _ _ m (notify-Counts c last s shown h k)

abbrev pub nothing_emitted : Emitted
nothing_emitted = record { recent = []; at = [] }

-- Whatever calls are made while the clock does not run backwards, of any seven notifications shown in a
-- row the first and the last are more than ten seconds apart.
pub notify-IsSpaced :
    (calls : List Call) → IsMonotone 0 calls → IsSpaced (shown_times calls nothing_emitted [])
notify-IsSpaced calls m =
    shown_times-IsSpaced calls 0 nothing_emitted [] m
      (record { gone = []; split = refl; old = tt; spaced = tt })
