-- ===== src/Sync/Tests.antt =====
-- The rebuilds on small tables.
use Prim.Native.Nat.{compare}
use Prim.Native.String.{count}
use letschat.Common.{
  ◌≡◌, false, nat_eq, string_eq, String, none, some, [], ◌∷◌, ℕ, lookup, sort, insert_sorted,
  normalize_identity,
}
use letschat.Domain.{
  Channel, ChannelKind, VoiceParticipant, DmVoiceParticipant, Role, ServerMember, Message,
}
use letschat.History.{LocaleCompare, merge_history}
use letschat.Messages.{view, empty}
use letschat.Rosters.{rows_at, compare_channels_by_layout}
use letschat.Sync.{joined_server_ids, sync_channels, sync_messages}
use letschat.Sync.Views.{rows_at-sync_channels, view-sync_messages}

abbrev by_length : LocaleCompare
by_length a b = compare (count a) (count b)

abbrev in_voice : ℕ → String → VoiceParticipant
in_voice channel_id identity = record {
  channel_id = channel_id;
  user_identity = identity;
  joined_at = "1";
  muted = false;
  deafened = false;
  sharing_screen = false;
  sharing_camera = false;
}

abbrev in_room : String → String → DmVoiceParticipant
in_room room_key identity = record {
  room_key = room_key;
  user_identity = identity;
  user_a = "aa";
  user_b = "bb";
  joined_at = "1";
  muted = false;
  deafened = false;
  sharing_screen = false;
  sharing_camera = false;
}

abbrev channel : ℕ → ℕ → ℕ → Channel
channel id server_id position = record {
  id = id;
  server_id = server_id;
  name = "general";
  kind = ChannelKind.text;
  position = position;
  section = none;
  moderator_only = false;
}

abbrev member : ℕ → ServerMember
member server_id = record {
  server_id = server_id;
  user_identity = "aa";
  role = Role.member;
  joined_at = "1";
  timeout_until = none;
}

abbrev message : ℕ → String → Message
message id sent_at = record {
  id = id;
  channel_id = 7;
  sender_identity = "aa";
  content = "hello";
  sent_at = sent_at;
  edited_at = none;
  deleted = false;
}

rows_at-sync_channels_example :
    rows_at 1 (
      sync_channels
        (λ s. s)
        by_length
        (some "aa")
        (member 1 ∷ [])
        (channel 4 1 2 ∷ channel 5 1 1 ∷ channel 6 2 0 ∷ [])
        [])
    ≡ channel 5 1 1 ∷ channel 4 1 2 ∷ []
unfolding joined_server_ids sort insert_sorted normalize_identity compare_channels_by_layout
rows_at-sync_channels_example =
    rows_at-sync_channels (λ s. s) by_length (some "aa") (member 1 ∷ [])
      (channel 4 1 2 ∷ channel 5 1 1 ∷ channel 6 2 0 ∷ []) 1 []

view-sync_messages_example :
    view (sync_messages by_length (message 2 "22" ∷ message 1 "1" ∷ []) empty) 7
    ≡ message 1 "1" ∷ message 2 "22" ∷ []
unfolding sort insert_sorted merge_history lookup
view-sync_messages_example =
    view-sync_messages by_length (message 2 "22" ∷ message 1 "1" ∷ []) 7 empty
