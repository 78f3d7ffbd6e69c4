-- ===== src/Ui/Muting.antt =====
-- The mute switches and the notification settings.
use letschat.Common.{
  String, ◌≡◌, ◌≢◌, refl, Bool, false, not, lookup-insert, if◌then◌else◌, ◌==◌, nat_eq, string_eq,
  arith, normalize_identity, is_empty, trim, Bool-cases, inl, inr, eq_of_beq, bool_eq,
}
use letschat.Domain.{Identity}
use letschat.Ui.{
  UiState, EventToggles, flag_of, toggle_muted_user, PreferenceEvent, toggle_of, with_toggle,
  set_notification_event_enabled, set_notification_quiet_hours_range, non_empty_or,
}

module _ (to_lower : String → String) where
  abbrev pub is_muted_user : Identity → UiState → Bool
  is_muted_user p s = flag_of (normalize_identity to_lower p) s.muted_users

  -- The switch turns over the mute of every spelling of the identity, and of no other identity.
  pub toggle_muted_user_lem :
      (p q : Identity) (s : UiState)
      → is_muted_user q (toggle_muted_user to_lower p s) ≡ (
          if normalize_identity to_lower p == normalize_identity to_lower q
          then not (is_muted_user q s)
          else is_muted_user q s)
  unfolding toggle_muted_user
  toggle_muted_user_lem p q s =
      let own = normalize_identity to_lower p in
      let other = normalize_identity to_lower q in
      ground (
        arith,
        string_eq.reflects own other,
        lookup-insert own other (not (flag_of own s.muted_users)) s.muted_users,
      )

  -- Two turns of the switch put every mute back.
  toggle_twice :
      (p q : Identity) (s : UiState)
      → is_muted_user q (toggle_muted_user to_lower p (toggle_muted_user to_lower p s))
        ≡ is_muted_user q s
  toggle_twice p q s = ground (
    arith,
    toggle_muted_user_lem p q s,
    toggle_muted_user_lem p q (toggle_muted_user to_lower p s),
  )

toggle_of-with_toggle :
    (event : PreferenceEvent) (b : Bool) (t : EventToggles)
    → toggle_of event (with_toggle event b t) ≡ b
toggle_of-with_toggle event b t = ground arith

with_toggle_other :
    (event other : PreferenceEvent) (b : Bool) (t : EventToggles)
    → other ≢ event
    → toggle_of other (with_toggle event b t) ≡ toggle_of other t
with_toggle_other event other b t ne = ground arith

-- The switch of one event is what it was set to; the switches of the other events stay, and so does
-- the main switch.
pub set_notification_event_enabled_lem :
    (event other : PreferenceEvent) (enabled : Bool) (s : UiState)
    → let before = s.notification_settings in
      let after = (set_notification_event_enabled event enabled s).notification_settings in
      (toggle_of event after.event_toggles ≡ enabled)
      × (other ≢ event → toggle_of other after.event_toggles ≡ toggle_of other before.event_toggles)
      × (after.enabled ≡ before.enabled)
unfolding set_notification_event_enabled
set_notification_event_enabled_lem event other enabled s =
    let t : EventToggles = s.notification_settings.event_toggles in
    elim (Bool-cases (toggle_of event t == enabled)) [
      | inl same ↦ rw same (eq_of_beq (toggle_of event t) enabled same, (λ ne. refl), refl)
      | inr new ↦
          rw new
            (toggle_of-with_toggle event enabled t, with_toggle_other event other enabled t, refl)
    ]

non_empty_or-non_empty :
    (text : String)
    → (is_empty (non_empty_or text "22:00") ≡ false)
      × (is_empty (non_empty_or text "07:00") ≡ false)
non_empty_or-non_empty text = elim (Bool-cases (is_empty text)) [
  | inl e ↦ rw e (refl, refl)
  | inr e ↦ rw e (e, e)
]

-- The times of the quiet hours are never stored empty.
pub quiet_hours_range-non_empty :
    (start end : String) (s : UiState)
    → let after = (set_notification_quiet_hours_range start end s).notification_settings in
      (is_empty after.quiet_hours_start ≡ false) × (is_empty after.quiet_hours_end ≡ false)
unfolding set_notification_quiet_hours_range
quiet_hours_range-non_empty start end s = ground (
  arith,
  non_empty_or-non_empty (trim start),
  non_empty_or-non_empty (trim end),
  eq_of_beq s.notification_settings.quiet_hours_start (non_empty_or (trim start) "22:00"),
  eq_of_beq s.notification_settings.quiet_hours_end (non_empty_or (trim end) "07:00"),
)
