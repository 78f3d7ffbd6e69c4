-- ===== src/Domain.antt =====
-- src/types/domain.ts: the rows that the stores hold. Identities, tokens and timestamps are strings, as
-- in the source; ids and counts are natural numbers.
use letschat.Common.{ℕ, String, Option, Bool, List}

abbrev pub Identity : Type 0
Identity = String

pub data Role : Type 0 where
  member moderator owner : Role

pub data ChannelKind : Type 0 where
  text voice announcement : ChannelKind

pub data FriendStatus : Type 0 where
  pending accepted : FriendStatus

pub data ServerInvitePolicy : Type 0 where
  moderators_only everyone : ServerInvitePolicy

pub record User : Type 0 where
  pub identity : Identity
  pub username : String
  pub display_name : String
  pub avatar_url : Option String
  pub created_at : String
  pub is_admin : Bool

pub record Server : Type 0 where
  pub id : ℕ
  pub name : String
  pub owner_identity : Identity
  pub invite_policy : ServerInvitePolicy
  pub icon_url : Option String
  pub created_at : String
  pub is_discoverable : Bool
  pub description : Option String
  pub tags : List String

pub record JoinRequest : Type 0 where
  pub server_id : ℕ
  pub user_identity : Identity
  pub created_at : String
  pub declined : Bool

pub data JoinRequestStatus : Type 0 where
  pending declined : JoinRequestStatus

pub record DiscoverServer : Type 0 where
  pub id : ℕ
  pub name : String
  pub owner_identity : Identity
  pub invite_policy : ServerInvitePolicy
  pub icon_url : Option String
  pub description : Option String
  pub tags : List String
  pub member_count : ℕ

pub record ServerMember : Type 0 where
  pub server_id : ℕ
  pub user_identity : Identity
  pub role : Role
  pub joined_at : String
  pub timeout_until : Option String

pub record Invite : Type 0 where
  pub token : String
  pub server_id : ℕ
  pub created_by : Identity
  pub expires_at : String
  pub max_uses : Option ℕ
  pub use_count : ℕ
  pub allowed_usernames : List String

pub data DmInviteStatus : Type 0 where
  pending accepted declined : DmInviteStatus

pub record DmServerInvite : Type 0 where
  pub id : ℕ
  pub server_id : ℕ
  pub invite_token : String
  pub sender_identity : Identity
  pub recipient_identity : Identity
  pub status : DmInviteStatus
  pub created_at : String

pub record Channel : Type 0 where
  pub id : ℕ
  pub server_id : ℕ
  pub name : String
  pub kind : ChannelKind
  pub position : ℕ
  pub section : Option String
  pub moderator_only : Bool

pub record Message : Type 0 where
  pub id : ℕ
  pub channel_id : ℕ
  pub sender_identity : Identity
  pub content : String
  pub sent_at : String
  pub edited_at : Option String
  pub deleted : Bool

pub record PinnedMessage : Type 0 where
  pub pin_id : ℕ
  pub channel_id : ℕ
  pub message_id : ℕ
  pub pinned_by : Identity
  pub pinned_at : String

pub record VoiceParticipant : Type 0 where
  pub channel_id : ℕ
  pub user_identity : Identity
  pub joined_at : String
  pub muted : Bool
  pub deafened : Bool
  pub sharing_screen : Bool
  pub sharing_camera : Bool

pub record DirectMessage : Type 0 where
  pub id : ℕ
  pub sender_identity : Identity
  pub recipient_identity : Identity
  pub content : String
  pub sent_at : String
  pub edited_at : Option String
  pub deleted_by_sender : Bool
  pub deleted_by_recipient : Bool

pub record DmVoiceParticipant : Type 0 where
  pub room_key : String
  pub user_identity : Identity
  pub user_a : Identity
  pub user_b : Identity
  pub joined_at : String
  pub muted : Bool
  pub deafened : Bool
  pub sharing_screen : Bool
  pub sharing_camera : Bool

pub record PresenceRow : Type 0 where
  pub identity : Identity
  pub online : Bool
  pub last_interaction_at : String
  pub updated_at : String

pub record TypingRow : Type 0 where
  pub typing_key : String
  pub scope_key : String
  pub user_identity : Identity
  pub updated_at : String

pub record ReadRow : Type 0 where
  pub read_key : String
  pub scope_key : String
  pub user_identity : Identity
  pub last_read_at : String
  pub updated_at : String
