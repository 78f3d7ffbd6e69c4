-- ===== src/Messages.antt =====
-- src/stores/messagesStore.ts: the messages of each channel. The store is a record, an action is a
-- function from the state to the next one; `get()` and `set` of one action see the same state.
pub mod Views
pub mod Invariant
mod Tests
use letschat.Common.{
  ℕ, Bool, true, false, ◌&&◌, Option, some, List, [], ◌∷◌, Dict, lookup, insert, or_else,
  rows_equal, if◌then◌else◌, ◌==◌, nat_eq, string_eq, bool_eq, option_eq, ◌++◌,
}
use letschat.Domain.{Message}
use letschat.History.{LocaleCompare, merge_history, find_id, upsert}

pub record MessagesState : Type 0 where
  pub messages_by_channel : Dict ℕ (List Message)
  pub older_by_channel : Dict ℕ (List Message)
  pub history_exhausted : Dict ℕ Bool

abbrev pub empty : MessagesState
empty = record { messages_by_channel = []; older_by_channel = []; history_exhausted = [] }

abbrev pub id_of : Message → ℕ
id_of m = m.id

-- One row of `areMessagesEqual`.
unfoldable pub same_message : Message → Message → Bool
same_message a b =
    a.id == b.id
    && (a.channel_id == b.channel_id
        && (a.sender_identity == b.sender_identity
            && (a.content == b.content
                && (a.sent_at == b.sent_at
                    && (a.edited_at == b.edited_at && a.deleted == b.deleted)))))

unfoldable pub are_messages_equal : List Message → List Message → Bool
are_messages_equal = rows_equal same_message

-- `messagesByChannel[c] ?? []` and `olderByChannel[c]`, where a missing page is an empty one.
abbrev pub view : MessagesState → ℕ → List Message
view s c = or_else (lookup c s.messages_by_channel) []

abbrev pub older : MessagesState → ℕ → List Message
older s c = or_else (lookup c s.older_by_channel) []

module _ (locale_compare : LocaleCompare) where
  abbrev pub merge : List Message → List Message → List Message
  merge = merge_history locale_compare id_of (λ m. m.sent_at)

  unfoldable pub set_channel_messages : ℕ → List Message → MessagesState → MessagesState
  set_channel_messages c messages s =
      let merged = merge (older s c) messages in
      if are_messages_equal (view s c) merged
      then s
      else record s { messages_by_channel = insert c merged s.messages_by_channel }

  unfoldable pub prepend_older_messages : ℕ → List Message → Bool → MessagesState → MessagesState
  prepend_older_messages c page exhausted s =
      let next_older = merge (older s c) page in
      record s {
        older_by_channel = insert c next_older s.older_by_channel;
        messages_by_channel = insert c (merge next_older (view s c)) s.messages_by_channel;
        history_exhausted = insert c exhausted s.history_exhausted;
      }

-- The branch of `appendMessage` on the row that has the message's id, if there is one.
append_found : Message → Option Message → MessagesState → MessagesState
append_found m (some row) s = if are_messages_equal (row ∷ []) (m ∷ []) then s else record s {
  messages_by_channel =
      insert m.channel_id (upsert id_of m (view s m.channel_id)) s.messages_by_channel;
}
append_found m _ s = record s {
  messages_by_channel = insert m.channel_id (view s m.channel_id ++ m ∷ []) s.messages_by_channel;
}

unfoldable pub append_message : Message → MessagesState → MessagesState
unfolding append_found
append_message m s = append_found m (find_id id_of m.id (view s m.channel_id)) s
