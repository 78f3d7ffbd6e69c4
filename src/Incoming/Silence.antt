-- ===== src/Incoming/Silence.antt =====
-- When an incoming message is silent.
use letschat.Common.{
  ℕ, ◌<◌, ◌+◌, String, ◌≡◌, sym, ap, ◌∙◌, true, false, Option, none, some, [], nat_eq, string_eq,
  bool_eq, normalize_identity, arith,
}
use letschat.Domain.{Identity, Message, DirectMessage}
use letschat.Ui.{UiState, NotificationSettings, toggle_muted_user}
use letschat.Ui.Muting.{toggle_muted_user_lem}
use letschat.Notifications.{
  Text, Emitted, Moment, BasePayload, Payload, FormattedNotification, format_notification,
}
use letschat.Notifications.Limits.{Call, answer}
use letschat.Notifications.Decision.{content, notify_once}
use letschat.Incoming.{
  Stores, RawCall, is_muted_user, handle_incoming_message, handle_incoming_direct_message,
}

module _ (to_lower : String → String) (to_text : ℕ → Text)
    (json_parse : Text → Option RawCall) where
  message_of_muted :
      (s : Stores) (m : Message)
      → is_muted_user to_lower m.sender_identity s.ui ≡ true
      → handle_incoming_message to_lower to_text s m ≡ none
  unfolding handle_incoming_message
  message_of_muted s m muted = ground arith

  direct_message_of_muted :
      (s : Stores) (d : DirectMessage)
      → is_muted_user to_lower d.sender_identity s.ui ≡ true
      → handle_incoming_direct_message to_lower to_text json_parse s d ≡ none
  unfolding handle_incoming_direct_message
  direct_message_of_muted s d muted = ground arith

  muted_by_toggle :
      (p q : Identity) (s : UiState)
      → is_muted_user to_lower p s ≡ false
      → normalize_identity to_lower q ≡ normalize_identity to_lower p
      → is_muted_user to_lower q (toggle_muted_user to_lower p s) ≡ true
  muted_by_toggle p q s free same = ground (
    arith,
    toggle_muted_user_lem to_lower p q s,
    string_eq.reflects (normalize_identity to_lower p) (normalize_identity to_lower q),
  )

  -- The switch that mutes a user silences the channel messages and the direct messages of every
  -- spelling of the identity.
  pub toggle_muted_user-silent :
      (p : Identity) (s : Stores) (m : Message) (d : DirectMessage)
      → is_muted_user to_lower p s.ui ≡ false
      → normalize_identity to_lower m.sender_identity ≡ normalize_identity to_lower p
      → normalize_identity to_lower d.sender_identity ≡ normalize_identity to_lower p
      → let muted = record s { ui = toggle_muted_user to_lower p s.ui } in
        (handle_incoming_message to_lower to_text muted m ≡ none)
        × (handle_incoming_direct_message to_lower to_text json_parse muted d ≡ none)
  toggle_muted_user-silent p s m d free same_m same_d = (
    message_of_muted _ m (muted_by_toggle p m.sender_identity s.ui free same_m),
    direct_message_of_muted _ d (muted_by_toggle p d.sender_identity s.ui free same_d),
  )

  message-key :
      (s : Stores) (m : Message) (b : BasePayload) (x : Payload)
      → handle_incoming_message to_lower to_text s m ≡ some (b, x)
      → b.dedupe_key ≡ some (to_text m.id)
  unfolding handle_incoming_message
  message-key s m b x e = ground arith

  direct_message-key :
      (s : Stores) (d : DirectMessage) (b : BasePayload) (x : Payload)
      → handle_incoming_direct_message to_lower to_text json_parse s d ≡ some (b, x)
      → b.dedupe_key ≡ some (to_text d.id)
  unfolding handle_incoming_direct_message
  direct_message-key s d b x e = ground arith

  content-key :
      (c : Call) (key : Text) → c.base.dedupe_key ≡ some key → (content c).dedupe_key ≡ key
  unfolding format_notification
  content-key c key e = ground arith

  -- A channel message and a direct message that share an id share the key of `notify`: if the channel
  -- message is shown, the direct message that follows within two seconds is not.
  pub same_id_lost :
      (s : Stores) (m : Message) (d : DirectMessage) (settings : NotificationSettings)
      (first again : Moment) (b c : BasePayload) (x y : Payload) (e : Emitted)
      (f : FormattedNotification)
      → m.id ≡ d.id
      → handle_incoming_message to_lower to_text s m ≡ some (b, x)
      → handle_incoming_direct_message to_lower to_text json_parse s d ≡ some (c, y)
      → let shown : Call = record { settings = settings; moment = first; base = b; payload = x } in
        let lost : Call = record { settings = settings; moment = again; base = c; payload = y } in
        (answer shown e).1 ≡ some f
        → again.now < first.now + 2000
        → (answer lost (answer shown e).0).1 ≡ none
  same_id_lost s m d settings first again b c x y e f same to_m to_d h k =
      notify_once shown lost [] e f h tt k (
        content-key lost (to_text d.id) (direct_message-key s d c y to_d)
        ∙ ap to_text (sym same)
        ∙ sym (content-key shown (to_text m.id) (message-key s m b x to_m)))
    where
      shown : Call
      shown = record { settings = settings; moment = first; base = b; payload = x }

      lost : Call
      lost = record { settings = settings; moment = again; base = c; payload = y }
