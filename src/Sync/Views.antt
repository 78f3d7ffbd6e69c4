-- ===== src/Sync/Views.antt =====
-- What each rebuild of a store by groups leaves under each key.
use letschat.Common.{
  any, ◌&&◌, none, some, ℕ, String, ◌≡◌, refl, sym, ap, ◌∙◌, Bool, false, Option, List, [], ◌∷◌,
  map, Dict, keys, lookup, lookup-insert, or_else, filter, includes, if◌then◌else◌, ◌==◌, Equal,
  nat_eq, string_eq, sort, arith, ltb, length, ◌||◌, eq_of_beq,
}
use letschat.Domain.{
  Identity, User, ServerMember, Channel, Message, VoiceParticipant, DmVoiceParticipant,
}
use letschat.History.{LocaleCompare, by_time}
use letschat.Messages
use letschat.Messages.{MessagesState, view, older, merge}
use letschat.Messages.Views.{view-set_channel_messages}
use letschat.Rosters.{
  same_channel, same_participant, same_dm_participant, ServerMemberWithUser, rows_at,
  set_server_channels, set_participants, set_room_participants, set_server_members, by_layout,
}
use letschat.Rosters.Rows.{
  rows_at-set_rows, same_channel-IsExact, same_participant-IsExact, same_dm_participant-IsExact,
}
use letschat.Sync.{
  same_identity, sync_groups, joined_server_ids, sync_channels, with_user, sync_members,
  sync_messages, sync_voice_participants, sync_dm_voice_participants,
}
use letschat.Sync.Groups.{rows_with, rebuilt, lookup_absent, view-sync_groups}

-- A store that is a dictionary of lists, behind a write that writes.
rows_at-sync_groups :
    {K : Type 0} {A : Type 0} ⦃e : Equal K⦄ (set : K → List A → Dict K (List A) → Dict K (List A))
    → ((k j : K) (rows : List A) (m : Dict K (List A))
        → rows_at j (set k rows m) ≡ (if k == j then rows else rows_at j m))
    → (arrange : List A → List A) → arrange [] ≡ []
    → (key : A → K) (rows : List A) (j : K) (m : Dict K (List A))
    → rows_at j (sync_groups set arrange key (keys m) rows m) ≡ arrange (rows_with key j rows)
rows_at-sync_groups {K = K} {A = A} ⦃e⦄ set rows_at-set arrange arrange-empty key rows j m =
    view-sync_groups set rows_at (λ m k rows. rows) rows_at-set (λ k j rows more m. refl) arrange
      key (keys m) rows j m
    ∙ rest (rows_with key j rows)
  where
    unknown : (if includes j (keys m) then [] else rows_at j m) ≡ []
    unknown = ground (arith, lookup_absent j m)

    rest :
        (own : List A)
        → rebuilt rows_at (λ m k rows. rows) arrange own (includes j (keys m)) j m ≡ arrange own
    rest [] = unknown ∙ sym arrange-empty
    rest (row ∷ own) = refl

-- The rows of one key among the rows whose key passes a test.
rows_with-filter {ℓ} :
    {K : Type ℓ} {A : Type 0} ⦃e : Equal K⦄ (key : A → K) (test : K → Bool) (k : K) (rows : List A)
    → rows_with key k (filter (λ row. test (key row)) rows)
      ≡ (if test k then rows_with key k rows else [])
rows_with-filter key test k [] = ground arith
rows_with-filter key test k (row ∷ rows) =
    ground (arith, rows_with-filter key test k rows, eq_of_beq (key row) k)

rows_with-map {ℓ} :
    {K : Type ℓ} {A B : Type 0} ⦃e : Equal K⦄ (f : A → B) (key : B → K) (k : K) (rows : List A)
    → rows_with key k (map f rows) ≡ map f (rows_with (λ row. key (f row)) k rows)
rows_with-map f key k [] = refl
rows_with-map f key k (row ∷ rows) = ground (arith, rows_with-map f key k rows)

-- Each voice channel shows its rows of the table, in their order, and nothing else.
pub rows_at-sync_voice_participants :
    (participants : List VoiceParticipant) (c : ℕ) (m : Dict ℕ (List VoiceParticipant))
    → rows_at c (sync_voice_participants participants m)
      ≡ filter (λ p. p.channel_id == c) participants
unfolding sync_voice_participants set_participants
rows_at-sync_voice_participants participants c m =
    rows_at-sync_groups set_participants
      (rows_at-set_rows same_participant same_participant-IsExact) (λ rows. rows) refl
      (λ p. p.channel_id) participants c m

-- Each call room shows its rows of the table, in their order, and nothing else.
pub rows_at-sync_dm_voice_participants :
    (participants : List DmVoiceParticipant) (room : String)
    (m : Dict String (List DmVoiceParticipant))
    → rows_at room (sync_dm_voice_participants participants m)
      ≡ filter (λ p. p.room_key == room) participants
unfolding sync_dm_voice_participants set_room_participants
rows_at-sync_dm_voice_participants participants room m =
    rows_at-sync_groups set_room_participants
      (rows_at-set_rows same_dm_participant same_dm_participant-IsExact) (λ rows. rows) refl
      (λ p. p.room_key) participants room m

module _ (to_lower : String → String) where
  -- A row of the table says that the identity is a member of the server.
  abbrev pub is_member : Option Identity → List ServerMember → ℕ → Bool
  is_member none members s = false
  is_member (some me) members s =
      any (λ m. m.server_id == s && same_identity to_lower m.user_identity me) members

  includes-joined_server_ids :
      (me : Option Identity) (members : List ServerMember) (s : ℕ)
      → includes s (joined_server_ids to_lower me members) ≡ is_member me members s
  unfolding joined_server_ids
  includes-joined_server_ids none members s = refl
  includes-joined_server_ids (some me) [] s = refl
  includes-joined_server_ids (some me) (m ∷ members) s =
      ground (arith, includes-joined_server_ids (some me) members s)

  -- Each server shows its channels in the order of the layout if the identity is a member of it,
  -- and nothing otherwise.
  pub rows_at-sync_channels :
      (locale_compare : LocaleCompare) (me : Option Identity) (members : List ServerMember)
      (channels : List Channel) (s : ℕ) (m : Dict ℕ (List Channel))
      → rows_at s (sync_channels to_lower locale_compare me members channels m) ≡ (
          if is_member me members s
          then sort (by_layout to_lower locale_compare) (filter (λ c. c.server_id == s) channels)
          else [])
  unfolding sync_channels set_server_channels sort
  rows_at-sync_channels locale_compare me members channels s m =
      rows_at-sync_groups set_server_channels (rows_at-set_rows same_channel same_channel-IsExact)
        (sort (by_layout to_lower locale_compare)) refl (λ c. c.server_id) _ s m
      ∙ ap (sort (by_layout to_lower locale_compare)) (
          rows_with-filter (λ c. c.server_id)
            (λ k. includes k (joined_server_ids to_lower me members)) s channels)
      ∙ ground (arith, includes-joined_server_ids me members s)

  -- Each server shows its members with their user rows if the identity is a member of it, and
  -- nothing otherwise.
  pub rows_at-sync_members :
      (me : Option Identity) (users : List User) (members : List ServerMember) (s : ℕ)
      (m : Dict ℕ (List ServerMemberWithUser))
      → rows_at s (sync_members to_lower me users members m) ≡ (
          if is_member me members s
          then map (with_user users) (filter (λ r. r.server_id == s) members)
          else [])
  unfolding sync_members set_server_members with_user
  rows_at-sync_members me users members s m =
      rows_at-sync_groups set_server_members
        (λ k j rows m. ground (arith, lookup-insert k j rows m)) (λ rows. rows) refl
        (λ r. r.member.server_id) _ s m
      ∙ rows_with-map (with_user users) (λ r. r.member.server_id) s _
      ∙ ap (map (with_user users)) (
          rows_with-filter (λ r. r.server_id)
            (λ k. includes k (joined_server_ids to_lower me members)) s members)
      ∙ ground (arith, includes-joined_server_ids me members s)

module _ (locale_compare : LocaleCompare) where
  -- Each channel shows its older pages merged with its rows of the table in the order of their
  -- times; a channel that the store has never shown and that has no rows shows nothing.
  pub view-sync_messages :
      (messages : List Message) (c : ℕ) (s : MessagesState)
      → view (sync_messages locale_compare messages s) c ≡ (
          let rows = filter (λ m. m.channel_id == c) messages in
          if includes c (keys s.messages_by_channel) || ltb 0 (length rows)
          then merge locale_compare
              (older s c)
              (sort (by_time locale_compare (λ m. m.sent_at)) rows)
          else [])
  unfolding sync_messages sort
  view-sync_messages messages c s =
      view-sync_groups (Messages.set_channel_messages locale_compare) (λ c s. view s c)
        (λ s c rows. merge locale_compare (older s c) rows)
        (λ k j rows s. (view-set_channel_messages locale_compare k j rows s).0)
        (λ k j rows more s.
          ap (λ o. merge locale_compare (or_else (lookup j o) []) more)
            (view-set_channel_messages locale_compare k j rows s).1)
        (sort (by_time locale_compare (λ m. m.sent_at))) (λ m. m.channel_id)
        (keys s.messages_by_channel) messages c s
      ∙ rest (rows_with (λ m. m.channel_id) c messages)
    where
      arrange : List Message → List Message
      arrange = sort (by_time locale_compare (λ m. m.sent_at))

      unknown :
          (if includes c (keys s.messages_by_channel)
            then merge locale_compare (older s c) []
            else view s c)
          ≡ (if includes c (keys s.messages_by_channel) || false
              then merge locale_compare (older s c) []
              else [])
      unknown = ground (arith, lookup_absent c s.messages_by_channel)

      rest :
          (own : List Message)
          → rebuilt
              (λ c s. view s c)
              (λ s c rows. merge locale_compare (older s c) rows)
              arrange
              own
              (includes c (keys s.messages_by_channel))
              c
              s
            ≡ (if includes c (keys s.messages_by_channel) || ltb 0 (length own)
                then merge locale_compare (older s c) (arrange own)
                else [])
      rest [] = unknown
      rest (row ∷ rows) = ground arith
