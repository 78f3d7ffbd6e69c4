-- ===== src/Rosters.antt =====
-- The stores that file rows under a server, a channel or a room: src/stores/channelsStore.ts,
-- voiceStore.ts, dmVoiceStore.ts, pinsStore.ts, membersStore.ts and invitesStore.ts. A map of lists is
-- written only if the new rows differ from the old ones by the store's comparison.
pub mod Rows
pub mod Layout
mod Tests
use Prim.Native.Nat.{Ordering, compare}
use letschat.Common.{
  ℕ, String, Bool, true, false, not, ◌&&◌, Option, none, some, List, [], ◌∷◌, ◌++◌, map, Dict,
  lookup, insert, or_else, rows_equal, filter, find, if◌then◌else◌, ◌==◌, Equal, nat_eq, string_eq,
  bool_eq, option_eq, sort, trim, is_none,
}
use letschat.Domain.{
  Identity, Role, User, ServerMember, Channel, ChannelKind, PinnedMessage, VoiceParticipant,
  DmVoiceParticipant, Invite,
}
use letschat.History.{LocaleCompare, at_most}

-- `m[k] ?? []`
abbrev pub rows_at {ℓ} : {K : Type ℓ} {A : Type 0} ⦃e : Equal K⦄ → K → Dict K (List A) → List A
rows_at k m = or_else (lookup k m) []

-- `same(m[k] ?? [], rows) ? m : { ...m, [k]: rows }`
unfoldable pub set_rows {ℓ} :
    {K : Type ℓ} {A : Type 0} ⦃e : Equal K⦄
    → (A → A → Bool)
    → K
    → List A
    → Dict K (List A)
    → Dict K (List A)
set_rows same k rows m = if rows_equal same (rows_at k m) rows then m else insert k rows m

-- channelsStore.ts

unfoldable pub kind_beq : ChannelKind → ChannelKind → Bool
kind_beq ChannelKind.text ChannelKind.text = true
kind_beq ChannelKind.voice ChannelKind.voice = true
kind_beq ChannelKind.announcement ChannelKind.announcement = true
kind_beq _ _ = false

unfoldable pub same_channel : Channel → Channel → Bool
unfolding kind_beq
same_channel a b =
    a.id == b.id
    && (a.server_id == b.server_id
        && (a.name == b.name
            && (kind_beq a.kind b.kind
                && (a.position == b.position
                    && (a.section == b.section && a.moderator_only == b.moderator_only)))))

abbrev pub are_channels_equal : List Channel → List Channel → Bool
are_channels_equal = rows_equal same_channel

unfoldable pub set_server_channels :
    ℕ → List Channel → Dict ℕ (List Channel) → Dict ℕ (List Channel)
unfolding set_rows
set_server_channels server_id channels m = set_rows same_channel server_id channels m

-- `a - b` as the result of a comparison, and the next comparison where it is 0.
abbrev pub then_by : Ordering → Ordering → Ordering
then_by Ordering.eq next = next
then_by result next = result

module _ (to_lower : String → String) (locale_compare : LocaleCompare) where
  abbrev pub channel_section_sort_value : Option String → String
  channel_section_sort_value section = to_lower (trim (or_else section ""))

  unfoldable pub compare_channels_by_layout : Channel → Channel → Ordering
  compare_channels_by_layout a b =
      then_by
        (locale_compare (channel_section_sort_value a.section)
          (channel_section_sort_value b.section))
        (then_by (compare a.position b.position) (compare a.id b.id))

  abbrev pub by_layout : Channel → Channel → Bool
  by_layout a b = at_most (compare_channels_by_layout a b)

  -- `next[idx] = channel` at the channel's row, or `next.push(channel)`.
  unfoldable pub put_channel : Channel → List Channel → List Channel
  put_channel channel [] = channel ∷ []
  put_channel channel (row ∷ rows) =
      if row.id == channel.id then channel ∷ rows else row ∷ put_channel channel rows

  -- The row found is the channel itself, field by field.
  unchanged : Channel → Option Channel → Bool
  unchanged channel none = false
  unchanged channel (some row) = same_channel row channel

  unfoldable pub upsert_channel : Channel → Dict ℕ (List Channel) → Dict ℕ (List Channel)
  unfolding unchanged
  upsert_channel channel m =
      let current = rows_at channel.server_id m in
      let next = sort by_layout (put_channel channel current) in
      if unchanged channel (find (λ c. c.id == channel.id) current)
      then m
      else if are_channels_equal current next
      then m
      else insert channel.server_id next m

-- voiceStore.ts

unfoldable pub same_participant : VoiceParticipant → VoiceParticipant → Bool
same_participant a b =
    a.channel_id == b.channel_id
    && (a.user_identity == b.user_identity
        && (a.joined_at == b.joined_at
            && (a.muted == b.muted
                && (a.deafened == b.deafened
                    && (a.sharing_screen == b.sharing_screen
                        && a.sharing_camera == b.sharing_camera)))))

unfoldable pub set_participants :
    ℕ → List VoiceParticipant → Dict ℕ (List VoiceParticipant) → Dict ℕ (List VoiceParticipant)
unfolding set_rows
set_participants channel_id participants m = set_rows same_participant channel_id participants m

-- dmVoiceStore.ts

unfoldable pub same_dm_participant : DmVoiceParticipant → DmVoiceParticipant → Bool
same_dm_participant a b =
    a.room_key == b.room_key
    && (a.user_identity == b.user_identity
        && (a.user_a == b.user_a
            && (a.user_b == b.user_b
                && (a.joined_at == b.joined_at
                    && (a.muted == b.muted
                        && (a.deafened == b.deafened
                            && (a.sharing_screen == b.sharing_screen
                                && a.sharing_camera == b.sharing_camera)))))))

unfoldable pub set_room_participants :
    String
    → List DmVoiceParticipant
    → Dict String (List DmVoiceParticipant)
    → Dict String (List DmVoiceParticipant)
unfolding set_rows
set_room_participants room_key participants m = set_rows same_dm_participant room_key participants m

-- pinsStore.ts: pins are compared by their own id and that of the message.

unfoldable pub same_pin : PinnedMessage → PinnedMessage → Bool
same_pin a b = a.pin_id == b.pin_id && a.message_id == b.message_id

unfoldable pub set_channel_pins :
    ℕ → List PinnedMessage → Dict ℕ (List PinnedMessage) → Dict ℕ (List PinnedMessage)
unfolding set_rows
set_channel_pins channel_id pins m = set_rows same_pin channel_id pins m

-- membersStore.ts

pub record ServerMemberWithUser : Type 0 where
  pub member : ServerMember
  pub user : Option User

unfoldable pub set_server_members :
    ℕ
    → List ServerMemberWithUser
    → Dict ℕ (List ServerMemberWithUser)
    → Dict ℕ (List ServerMemberWithUser)
set_server_members server_id members m = insert server_id members m

abbrev role_of : Option ServerMemberWithUser → Option Role
role_of none = none
role_of (some row) = some row.member.role

unfoldable pub find_role : ℕ → Identity → Dict ℕ (List ServerMemberWithUser) → Option Role
find_role server_id identity m =
    role_of (find (λ row. row.member.user_identity == identity) (rows_at server_id m))

-- invitesStore.ts

unfoldable pub set_server_invites : ℕ → List Invite → Dict ℕ (List Invite) → Dict ℕ (List Invite)
set_server_invites server_id invites m = insert server_id invites m

unfoldable pub add_invite : Invite → Dict ℕ (List Invite) → Dict ℕ (List Invite)
add_invite invite m =
    insert invite.server_id
      (filter (λ i. not (i.token == invite.token)) (rows_at invite.server_id m) ++ invite ∷ []) m

unfoldable pub remove_invite : String → Dict ℕ (List Invite) → Dict ℕ (List Invite)
remove_invite token [] = []
remove_invite token ((server_id, invites) ∷ m) =
    (server_id, filter (λ i. not (i.token == token)) invites) ∷ remove_invite token m

unfoldable pub update_invite : Invite → Dict ℕ (List Invite) → Dict ℕ (List Invite)
update_invite invite m =
    insert invite.server_id
      (map (λ i. if i.token == invite.token then invite else i) (rows_at invite.server_id m)) m
