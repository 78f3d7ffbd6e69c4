-- ===== src/Ui.antt =====
-- src/stores/uiStore.ts: what the user interface remembers. `to_lower` is the host's `toLowerCase`.
pub mod Unread
pub mod Muting
mod Tests
use letschat.Common.{
  ℕ, String, ◌+◌, Bool, true, false, not, ◌&&◌, Option, none, some, List, [], Dict, lookup, insert,
  or_else, if◌then◌else◌, ◌==◌, nat_eq, string_eq, bool_eq, option_eq, trim, normalize_identity,
  is_empty, Equal,
}
use letschat.Domain.{Identity}

pub data PreferenceEvent : Type 0 where
  channel_messages direct_messages friend_requests friend_accepted : PreferenceEvent
  incoming_calls missed_calls mentions : PreferenceEvent

pub record EventToggles : Type 0 where
  pub channel_messages : Bool
  pub direct_messages : Bool
  pub friend_requests : Bool
  pub friend_accepted : Bool
  pub incoming_calls : Bool
  pub missed_calls : Bool
  pub mentions : Bool

-- `eventToggles[event]` and `{ ...eventToggles, [event]: enabled }`
abbrev pub toggle_of : PreferenceEvent → EventToggles → Bool
toggle_of PreferenceEvent.channel_messages t = t.channel_messages
toggle_of PreferenceEvent.direct_messages t = t.direct_messages
toggle_of PreferenceEvent.friend_requests t = t.friend_requests
toggle_of PreferenceEvent.friend_accepted t = t.friend_accepted
toggle_of PreferenceEvent.incoming_calls t = t.incoming_calls
toggle_of PreferenceEvent.missed_calls t = t.missed_calls
toggle_of PreferenceEvent.mentions t = t.mentions

abbrev pub with_toggle : PreferenceEvent → Bool → EventToggles → EventToggles
with_toggle PreferenceEvent.channel_messages b t = record t { channel_messages = b }
with_toggle PreferenceEvent.direct_messages b t = record t { direct_messages = b }
with_toggle PreferenceEvent.friend_requests b t = record t { friend_requests = b }
with_toggle PreferenceEvent.friend_accepted b t = record t { friend_accepted = b }
with_toggle PreferenceEvent.incoming_calls b t = record t { incoming_calls = b }
with_toggle PreferenceEvent.missed_calls b t = record t { missed_calls = b }
with_toggle PreferenceEvent.mentions b t = record t { mentions = b }

pub record NotificationSettings : Type 0 where
  pub enabled : Bool
  pub event_toggles : EventToggles
  pub show_previews : Bool
  pub quiet_hours_enabled : Bool
  pub quiet_hours_start : String
  pub quiet_hours_end : String

abbrev pub default_settings : NotificationSettings
default_settings = record {
  enabled = true;
  event_toggles = record {
    channel_messages = true;
    direct_messages = true;
    friend_requests = true;
    friend_accepted = true;
    incoming_calls = true;
    missed_calls = true;
    mentions = true;
  };
  show_previews = true;
  quiet_hours_enabled = false;
  quiet_hours_start = "22:00";
  quiet_hours_end = "07:00";
}

pub record UiState : Type 0 where
  pub active_channel_id : Option ℕ
  pub active_dm_partner : Option Identity
  pub right_panel_open : Bool
  pub modals : Dict String Bool
  pub unread_by_channel : Dict ℕ ℕ
  pub unread_by_dm_partner : Dict Identity ℕ
  pub muted_channels : Dict ℕ Bool
  pub muted_servers : Dict ℕ Bool
  pub muted_users : Dict Identity Bool
  pub notification_settings : NotificationSettings

abbrev pub initial : UiState
initial = record {
  active_channel_id = none;
  active_dm_partner = none;
  right_panel_open = false;
  modals = [];
  unread_by_channel = [];
  unread_by_dm_partner = [];
  muted_channels = [];
  muted_servers = [];
  muted_users = [];
  notification_settings = default_settings;
}

unfoldable pub set_active_channel_id : Option ℕ → UiState → UiState
set_active_channel_id c s =
    if s.active_channel_id == c then s else record s { active_channel_id = c }

unfoldable pub set_active_dm_partner : Option Identity → UiState → UiState
set_active_dm_partner p s =
    if s.active_dm_partner == p then s else record s { active_dm_partner = p }

unfoldable pub toggle_right_panel : UiState → UiState
toggle_right_panel s = record s { right_panel_open = not s.right_panel_open }

unfoldable pub set_modal : String → Bool → UiState → UiState
set_modal name opened s =
    if lookup name s.modals == some opened
    then s
    else record s { modals = insert name opened s.modals }

-- `m[k] ?? 0` and `m[k] ?? false`
abbrev pub count_of {ℓ} : {K : Type ℓ} ⦃e : Equal K⦄ → K → Dict K ℕ → ℕ
count_of k m = or_else (lookup k m) 0

abbrev pub flag_of {ℓ} : {K : Type ℓ} ⦃e : Equal K⦄ → K → Dict K Bool → Bool
flag_of k m = or_else (lookup k m) false

unfoldable pub increment_unread : ℕ → UiState → UiState
increment_unread c s = record s {
  unread_by_channel = insert c (count_of c s.unread_by_channel + 1) s.unread_by_channel;
}

unfoldable pub clear_unread : ℕ → UiState → UiState
clear_unread c s =
    if count_of c s.unread_by_channel == 0
    then s
    else record s { unread_by_channel = insert c 0 s.unread_by_channel }

unfoldable pub toggle_muted_channel : ℕ → UiState → UiState
toggle_muted_channel c s = record s {
  muted_channels = insert c (not (flag_of c s.muted_channels)) s.muted_channels;
}

unfoldable pub toggle_muted_server : ℕ → UiState → UiState
toggle_muted_server i s = record s {
  muted_servers = insert i (not (flag_of i s.muted_servers)) s.muted_servers;
}

module _ (to_lower : String → String) where
  unfoldable pub increment_dm_unread : Identity → UiState → UiState
  increment_dm_unread identity s =
      let key = normalize_identity to_lower identity in
      record s {
        unread_by_dm_partner =
            insert key (count_of key s.unread_by_dm_partner + 1) s.unread_by_dm_partner;
      }

  unfoldable pub clear_dm_unread : Identity → UiState → UiState
  clear_dm_unread identity s =
      let key = normalize_identity to_lower identity in
      if count_of key s.unread_by_dm_partner == 0
      then s
      else record s { unread_by_dm_partner = insert key 0 s.unread_by_dm_partner }

  unfoldable pub toggle_muted_user : Identity → UiState → UiState
  toggle_muted_user identity s =
      let key = normalize_identity to_lower identity in
      record s { muted_users = insert key (not (flag_of key s.muted_users)) s.muted_users }

unfoldable pub set_notifications_enabled : Bool → UiState → UiState
set_notifications_enabled enabled s =
    if s.notification_settings.enabled == enabled
    then s
    else record s { notification_settings = record s.notification_settings { enabled = enabled } }

unfoldable pub set_notification_event_enabled : PreferenceEvent → Bool → UiState → UiState
set_notification_event_enabled event enabled s =
    if toggle_of event s.notification_settings.event_toggles == enabled then s else record s {
      notification_settings = record s.notification_settings {
        event_toggles = with_toggle event enabled s.notification_settings.event_toggles;
      };
    }

unfoldable pub set_notification_previews_enabled : Bool → UiState → UiState
set_notification_previews_enabled enabled s =
    if s.notification_settings.show_previews == enabled then s else record s {
      notification_settings = record s.notification_settings { show_previews = enabled };
    }

unfoldable pub set_notification_quiet_hours_enabled : Bool → UiState → UiState
set_notification_quiet_hours_enabled enabled s =
    if s.notification_settings.quiet_hours_enabled == enabled then s else record s {
      notification_settings = record s.notification_settings { quiet_hours_enabled = enabled };
    }

-- `text || other`
abbrev pub non_empty_or : String → String → String
non_empty_or text other = if is_empty text then other else text

unfoldable pub set_notification_quiet_hours_range : String → String → UiState → UiState
set_notification_quiet_hours_range start end s =
    let normalized_start = non_empty_or (trim start) default_settings.quiet_hours_start in
    let normalized_end = non_empty_or (trim end) default_settings.quiet_hours_end in
    if s.notification_settings.quiet_hours_start == normalized_start
      && s.notification_settings.quiet_hours_end == normalized_end
    then s
    else record s {
      notification_settings = record s.notification_settings {
        quiet_hours_start = normalized_start;
        quiet_hours_end = normalized_end;
      };
    }

-- `partialize`, with the modals, which are not saved, as in a fresh store.
unfoldable pub restored : UiState → UiState
restored s = record s { modals = [] }
