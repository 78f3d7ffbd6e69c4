-- ===== src/Incoming/Tests.antt =====
-- A channel message and a direct message with one id.
use letschat.Common.{
  ℕ, ◌≡◌, refl, false, none, some, [], ◌∷◌, arith, units, nat_eq, string_eq, units_equal, lookup,
  insert, normalize_identity, trim,
}
use letschat.Domain.{Message, DirectMessage}
use letschat.Ui.{initial, default_settings, toggle_muted_user}
use letschat.Notifications.{
  Text, Moment, BasePayload, Payload, notify, seen_recently, should_suppress_for_preferences,
  should_rate_limit, shift_old, format_notification, is_quiet_hours_active,
}
use letschat.Notifications.Limits.{Call, answer, nothing_emitted}
use letschat.Notifications.Decision.{content}
use letschat.Incoming.{
  Stores, handle_incoming_message, handle_incoming_direct_message, find_server_id_by_channel_id,
  find_channel_name_by_id, find_display_name_by_identity, is_mention_for_self,
  parse_dm_call_system_message,
}
use letschat.Incoming.Silence.{toggle_muted_user-silent, same_id_lost}

abbrev stores : Stores
stores = record {
  identity = some "me";
  channels_by_server = [];
  by_identity = [];
  self = none;
  ui = initial;
}

abbrev message : Message
message = record {
  id = 3;
  channel_id = 7;
  sender_identity = "aa";
  content = "hello";
  sent_at = "1";
  edited_at = none;
  deleted = false;
}

abbrev direct_message : DirectMessage
direct_message = record {
  id = 3;
  sender_identity = "bb";
  recipient_identity = "me";
  content = "hi";
  sent_at = "1";
  edited_at = none;
  deleted_by_sender = false;
  deleted_by_recipient = false;
}

abbrev to_text : ℕ → Text
to_text n = n ∷ []

abbrev base : BasePayload
base = record {
  dedupe_key = some (to_text 3);
  suppress = false;
  suppress_if_focused_and_active = false;
}

abbrev at_time : ℕ → Moment
at_time now = record { minutes = 600; now = now; focused = false }

abbrev in_channel : Call
in_channel = record {
  settings = default_settings;
  moment = at_time 5000;
  base = base;
  payload = Payload.channel_message (units "aa") (units "hello") none;
}

abbrev in_conversation : Call
in_conversation = record {
  settings = default_settings;
  moment = at_time 6000;
  base = base;
  payload = Payload.direct_message (units "bb") (units "hi");
}

handlers : Unit {0}
unfolding handle_incoming_message handle_incoming_direct_message find_server_id_by_channel_id
    find_channel_name_by_id find_display_name_by_identity is_mention_for_self
    parse_dm_call_system_message lookup normalize_identity notify seen_recently
    should_suppress_for_preferences should_rate_limit shift_old format_notification
    is_quiet_hours_active insert units_equal
handlers = tt

same_id_lost_example : (answer in_conversation (answer in_channel nothing_emitted).0).1 ≡ none
unfolding handlers
same_id_lost_example =
    same_id_lost (λ s. s) to_text (λ _. none) stores message direct_message default_settings
      (at_time 5000) (at_time 6000) base base in_channel.payload in_conversation.payload
      nothing_emitted (content in_channel) refl refl refl refl (omega arith)

toggle_muted_user-silent_example :
    let muted = record stores { ui = toggle_muted_user (λ s. s) " aa" initial } in
    (handle_incoming_message (λ s. s) to_text muted message ≡ none)
    × (handle_incoming_direct_message
          (λ s. s)
          to_text
          (λ _. none)
          muted
          (record direct_message { sender_identity = "aa " })
        ≡ none)
unfolding handlers trim
toggle_muted_user-silent_example =
    toggle_muted_user-silent (λ s. s) to_text (λ _. none) " aa" stores message
      (record direct_message { sender_identity = "aa " }) refl refl refl
