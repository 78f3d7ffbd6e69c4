-- ===== src/Incoming.antt =====
-- What an incoming message asks `notify` to show: the handlers and helpers of
-- src/lib/spacetimedb/events.ts. Texts are their UTF-16 units, as in Notifications. Of the host:
-- `to_lower`, `to_text` (the decimal text of a number), and `json_parse`, which reads the fields of a
-- call's system message, with its duration rounded to seconds.
pub mod Silence
mod Tests
use letschat.Common.{
  ℕ, zero, suc, ◌+◌, ◌/◌, ◌%◌, String, Bool, true, false, not, ◌&&◌, ◌||◌, Option, none, some, List,
  [], ◌∷◌, ◌++◌, Dict, lookup, or_else, if◌then◌else◌, ◌==◌, ltb, Equal, nat_eq, string_eq, bool_eq,
  find, any, is_empty, units, units_equal, normalize_identity,
}
use letschat.Domain.{Identity, User, Channel, Message, DirectMessage}
use letschat.Ui.{UiState, flag_of}
use letschat.Notifications.{Text, take, BasePayload, Payload}
use letschat.Sync.{same_identity}

-- The stores that the handlers read.
pub record Stores : Type 0 where
  pub identity : Option Identity
  pub channels_by_server : Dict ℕ (List Channel)
  pub by_identity : Dict Identity User
  pub self : Option User
  pub ui : UiState

unfoldable pub find_server_id_by_channel_id : ℕ → Dict ℕ (List Channel) → Option ℕ
find_server_id_by_channel_id channel_id [] = none
find_server_id_by_channel_id channel_id ((server_id, channels) ∷ rest) =
    let found = find_server_id_by_channel_id channel_id rest in
    if any (λ c. c.id == channel_id) channels then some server_id else found

name_or : Option Channel → Option Text → Option Text
name_or none rest = rest
name_or (some channel) rest = some (units channel.name)

unfoldable pub find_channel_name_by_id : ℕ → Dict ℕ (List Channel) → Option Text
unfolding name_or
find_channel_name_by_id channel_id [] = none
find_channel_name_by_id channel_id ((server_id, channels) ∷ rest) =
    name_or (find (λ c. c.id == channel_id) channels) (find_channel_name_by_id channel_id rest)

-- `user.displayName || user.username || identity.slice(0, 12)`
label_of : Identity → User → Text
label_of identity user =
    if not (is_empty user.display_name)
    then units user.display_name
    else if not (is_empty user.username)
    then units user.username
    else take 12 (units identity)

-- The text behind a prefix, if it starts with it.
abbrev pub after_prefix : Text → Text → Option Text
after_prefix [] text = some text
after_prefix (p ∷ ps) [] = none
after_prefix (p ∷ ps) (c ∷ cs) = if p == c then after_prefix ps cs else none

abbrev starts_with : Text → Text → Bool
starts_with [] text = true
starts_with (p ∷ ps) [] = false
starts_with (p ∷ ps) (c ∷ cs) = p == c && starts_with ps cs

-- `text.includes(needle)`
abbrev pub contains : Text → Text → Bool
contains needle [] = starts_with needle []
contains needle (c ∷ cs) = starts_with needle (c ∷ cs) || contains needle cs

-- The fields of a call's system message.
pub record RawCall : Type 0 where
  pub kind : Text
  pub missed : Bool
  pub duration_seconds : Option ℕ

pub data CallKind : Type 0 where
  call_started call_ended : CallKind

pub record CallSystem : Type 0 where
  pub kind : CallKind
  pub missed : Bool
  pub duration_label : Option Text

module _ (to_text : ℕ → Text) where
  unfoldable pub format_duration_label : ℕ → Text
  format_duration_label total =
      let hours = total / 3600 in
      let minutes = (total % 3600) / 60 in
      let seconds = total % 60 in
      if ltb 0 hours
      then to_text hours
        ++ units "h "
        ++ to_text minutes
        ++ units "m "
        ++ to_text seconds
        ++ units "s"
      else if ltb 0 minutes
      then to_text minutes ++ units "m " ++ to_text seconds ++ units "s"
      else to_text seconds ++ units "s"

  duration_of : Option ℕ → Option Text
  unfolding format_duration_label
  duration_of none = none
  duration_of (some seconds) = some (format_duration_label seconds)

  call_of : Option RawCall → Option CallSystem
  unfolding duration_of units_equal
  call_of none = none
  call_of (some raw) =
      if units_equal.test raw.kind (units "call_started")
      then some (record {
        kind = CallKind.call_started;
        missed = raw.missed;
        duration_label = duration_of raw.duration_seconds;
      })
      else if units_equal.test raw.kind (units "call_ended")
      then some (record {
        kind = CallKind.call_ended;
        missed = raw.missed;
        duration_label = duration_of raw.duration_seconds;
      })
      else none

  module _ (json_parse : Text → Option RawCall) where
    payload_of : Option Text → Option CallSystem
    unfolding call_of
    payload_of none = none
    payload_of (some text) =
        if starts_with (units "{") text then call_of (json_parse text) else none

    unfoldable pub parse_dm_call_system_message : Text → Option CallSystem
    unfolding payload_of
    parse_dm_call_system_message content =
        payload_of (after_prefix (units "__letschat_system__:") content)

module _ (to_lower : String → String) where
  unfoldable pub find_display_name_by_identity : Identity → Dict Identity User → Text
  unfolding label_of
  find_display_name_by_identity identity [] = take 12 (units identity)
  find_display_name_by_identity identity ((key, user) ∷ rest) =
      let found = find_display_name_by_identity identity rest in
      if same_identity to_lower user.identity identity then label_of identity user else found

  unfoldable pub is_mention_for_self : String → Option User → Bool
  is_mention_for_self content none = false
  is_mention_for_self content (some self) =
      contains (units "@" ++ units (to_lower self.username)) (units (to_lower content))
      || contains (units "@" ++ units (to_lower self.display_name)) (units (to_lower content))

  -- Whether the server of a channel is muted, if it is known.
  abbrev pub is_muted_server : Option ℕ → UiState → Bool
  is_muted_server none ui = false
  is_muted_server (some server_id) ui = flag_of server_id ui.muted_servers

  abbrev pub is_muted_user : Identity → UiState → Bool
  is_muted_user identity ui = flag_of (normalize_identity to_lower identity) ui.muted_users

  -- `!me || sameIdentity(sender, me)`
  abbrev pub is_own : Identity → Option Identity → Bool
  is_own sender none = true
  is_own sender (some me) = same_identity to_lower sender me

  abbrev is_active_partner : Identity → Option Identity → Bool
  is_active_partner partner none = false
  is_active_partner partner (some active) = same_identity to_lower active partner

  module _ (to_text : ℕ → Text) where
    abbrev base_of : ℕ → Bool → BasePayload
    base_of id is_active_view = record {
      dedupe_key = some (to_text id);
      suppress = false;
      suppress_if_focused_and_active = is_active_view;
    }

    is_active_channel : ℕ → Option ℕ → Bool
    is_active_channel channel_id none = false
    is_active_channel channel_id (some active) = active == channel_id

    unfoldable pub handle_incoming_message : Stores → Message → Option (BasePayload × Payload)
    unfolding is_active_channel
    handle_incoming_message s message =
        let server_id = find_server_id_by_channel_id message.channel_id s.channels_by_server in
        let sender = find_display_name_by_identity message.sender_identity s.by_identity in
        let body = if message.deleted then "[message deleted]" else message.content in
        let channel_name = find_channel_name_by_id message.channel_id s.channels_by_server in
        let base =
          base_of message.id (is_active_channel message.channel_id s.ui.active_channel_id) in
        if is_own message.sender_identity s.identity
        then none
        else if flag_of message.channel_id s.ui.muted_channels
            || (is_muted_server server_id s.ui || is_muted_user message.sender_identity s.ui)
        then none
        else if is_mention_for_self body s.self
        then some (base, Payload.mention sender (units body) channel_name)
        else some (base, Payload.channel_message sender (units body) channel_name)

    module _ (json_parse : Text → Option RawCall) where
      -- The event of a direct message: the end of a call has its own.
      event_of : CallKind → Bool → Option Text → Text → Text → Payload
      event_of CallKind.call_ended true duration label content = Payload.missed_call label duration
      event_of CallKind.call_ended false duration label content = Payload.call_ended label duration
      event_of CallKind.call_started missed duration label content =
          Payload.direct_message label content

      dm_payload : Text → Text → Option CallSystem → Payload
      unfolding event_of
      dm_payload label content none = Payload.direct_message label content
      dm_payload label content (some call) =
          event_of call.kind call.missed call.duration_label label content

      unfoldable pub handle_incoming_direct_message :
          Stores → DirectMessage → Option (BasePayload × Payload)
      unfolding dm_payload
      handle_incoming_direct_message s message =
          let label = find_display_name_by_identity message.sender_identity s.by_identity in
          let content = units message.content in
          let is_active_view = is_active_partner message.sender_identity s.ui.active_dm_partner in
          if is_own message.sender_identity s.identity
          then none
          else if is_muted_user message.sender_identity s.ui
          then none
          else some (
            base_of message.id is_active_view,
            dm_payload label content (parse_dm_call_system_message to_text json_parse content),
          )
