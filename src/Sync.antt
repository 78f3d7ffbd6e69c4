-- ===== src/Sync.antt =====
-- src/lib/spacetimedb/sync.ts: rebuilding the stores from the tables of the connection. A table is the
-- list of its rows after the `map…` function of mappers.ts; each store is the dictionary or record of
-- its own module.
pub mod Groups
pub mod Views
mod Tests
use letschat.Common.{
  ℕ, String, Bool, true, false, not, ◌&&◌, Option, none, some, List, [], ◌∷◌, ◌++◌, map, Dict, keys,
  lookup, insert, or_else, filter, find, includes, if◌then◌else◌, ◌==◌, Equal, nat_eq, string_eq,
  sort, is_some, normalize_identity,
}
use letschat.Domain.{
  Identity, User, Server, ServerMember, Channel, Message, PinnedMessage, VoiceParticipant,
  DirectMessage, DmVoiceParticipant, Invite,
}
use letschat.History.{LocaleCompare, by_time, at_most}
use letschat.Messages
use letschat.Messages.{MessagesState}
use letschat.Dm
use letschat.Dm.{DmState}
use letschat.Rosters.{
  ServerMemberWithUser, set_server_channels, set_participants, set_room_participants,
  set_channel_pins, set_server_members, set_server_invites, by_layout,
}

-- `const group = grouped.get(key(row)) ?? []; group.push(row); grouped.set(key(row), group)`
unfoldable pub group_rows {ℓ} :
    {K : Type ℓ} {A : Type 0} ⦃e : Equal K⦄ → (A → K) → List A → Dict K (List A) → Dict K (List A)
group_rows key [] grouped = grouped
group_rows key (row ∷ rows) grouped =
    group_rows key rows
      (insert (key row) (or_else (lookup (key row) grouped) [] ++ row ∷ []) grouped)

-- The loop that empties the keys of the store that have no group.
unfoldable pub empty_missing {ℓ} :
    {K : Type ℓ} {A S : Type 0} ⦃e : Equal K⦄
    → (K → List A → S → S)
    → Dict K (List A)
    → List K
    → S
    → S
empty_missing set grouped [] s = s
empty_missing set grouped (k ∷ ks) s =
    empty_missing set grouped ks (if is_some (lookup k grouped) then s else set k [] s)

-- The loop that writes each group, in the order that the store keeps.
unfoldable pub write_groups {ℓ} :
    {K : Type ℓ} {A S : Type 0} → (K → List A → S → S) → (List A → List A) → Dict K (List A) → S → S
write_groups set arrange [] s = s
write_groups set arrange ((k, rows) ∷ grouped) s =
    write_groups set arrange grouped (set k (arrange rows) s)

unfoldable pub sync_groups {ℓ} :
    {K : Type ℓ} {A S : Type 0} ⦃e : Equal K⦄
    → (K → List A → S → S)
    → (List A → List A)
    → (A → K)
    → List K
    → List A
    → S
    → S
unfolding group_rows empty_missing write_groups
sync_groups set arrange key existing rows s =
    let grouped = group_rows key rows [] in
    write_groups set arrange grouped (empty_missing set grouped existing s)

-- The user row of a member, by identity as it is written; the last row wins.
unfoldable pub with_user : List User → ServerMember → ServerMemberWithUser
with_user users member = record {
  member = member;
  user = find (λ u. u.identity == member.user_identity) (reversed users []);
}
  where
    reversed : List User → List User → List User
    reversed [] out = out
    reversed (u ∷ us) out = reversed us (u ∷ out)

module _ (to_lower : String → String) where
  abbrev pub same_identity : Identity → Identity → Bool
  same_identity a b = normalize_identity to_lower a == normalize_identity to_lower b

  -- The servers of which the identity is a member; none before there is an identity.
  unfoldable pub joined_server_ids : Option Identity → List ServerMember → List ℕ
  joined_server_ids none members = []
  joined_server_ids (some me) members =
      map (λ m. m.server_id) (filter (λ m. same_identity m.user_identity me) members)

  unfoldable pub sync_servers : Option Identity → List ServerMember → List Server → List Server
  sync_servers me members servers =
      filter (λ s. includes s.id (joined_server_ids me members)) servers

  module _ (locale_compare : LocaleCompare) where
    unfoldable pub sync_channels :
        Option Identity
        → List ServerMember
        → List Channel
        → Dict ℕ (List Channel)
        → Dict ℕ (List Channel)
    sync_channels me members channels m =
        sync_groups set_server_channels (sort (by_layout to_lower locale_compare))
          (λ c. c.server_id) (keys m)
          (filter (λ c. includes c.server_id (joined_server_ids me members)) channels) m

  unfoldable pub sync_members :
      Option Identity
      → List User
      → List ServerMember
      → Dict ℕ (List ServerMemberWithUser)
      → Dict ℕ (List ServerMemberWithUser)
  sync_members me users members m =
      sync_groups set_server_members (λ rows. rows) (λ r. r.member.server_id) (keys m)
        (map (with_user users)
          (filter (λ r. includes r.server_id (joined_server_ids me members)) members))
        m

module _ (locale_compare : LocaleCompare) where
  unfoldable pub sync_messages : List Message → MessagesState → MessagesState
  sync_messages messages s =
      sync_groups (Messages.set_channel_messages locale_compare)
        (sort (by_time locale_compare (λ m. m.sent_at))) (λ m. m.channel_id)
        (keys s.messages_by_channel) messages s

  -- `rows.sort((a, b) => b.pinnedAt.localeCompare(a.pinnedAt))`
  abbrev pub newest_first : PinnedMessage → PinnedMessage → Bool
  newest_first a b = at_most (locale_compare b.pinned_at a.pinned_at)

  unfoldable pub sync_pins :
      List PinnedMessage → Dict ℕ (List PinnedMessage) → Dict ℕ (List PinnedMessage)
  sync_pins pins m =
      sync_groups set_channel_pins (sort newest_first) (λ p. p.channel_id) (keys m) pins m

  -- The other side of a direct message.
  abbrev pub partner_of : Identity → DirectMessage → Identity
  partner_of me m = if m.sender_identity == me then m.recipient_identity else m.sender_identity

  unfoldable pub sync_direct_messages : Option Identity → List DirectMessage → DmState → DmState
  sync_direct_messages none messages s = s
  sync_direct_messages (some me) messages s =
      sync_groups (Dm.set_conversation locale_compare)
        (sort (by_time locale_compare (λ m. m.sent_at))) (partner_of me) (keys s.conversations)
        messages s

unfoldable pub sync_voice_participants :
    List VoiceParticipant → Dict ℕ (List VoiceParticipant) → Dict ℕ (List VoiceParticipant)
sync_voice_participants participants m =
    sync_groups set_participants (λ rows. rows) (λ p. p.channel_id) (keys m) participants m

unfoldable pub sync_dm_voice_participants :
    List DmVoiceParticipant
    → Dict String (List DmVoiceParticipant)
    → Dict String (List DmVoiceParticipant)
sync_dm_voice_participants participants m =
    sync_groups set_room_participants (λ rows. rows) (λ p. p.room_key) (keys m) participants m
