-- ===== src/Dm.antt =====
-- src/stores/dmStore.ts: the direct messages of each conversation, by the partner's identity.
pub mod Views
mod Tests
use letschat.Common.{
  ℕ, Bool, true, false, ◌&&◌, Option, some, List, [], ◌∷◌, ◌++◌, Dict, lookup, insert, or_else,
  rows_equal, if◌then◌else◌, ◌==◌, nat_eq, string_eq, bool_eq,
}
use letschat.Domain.{DirectMessage, Identity}
use letschat.History.{LocaleCompare, merge_history, find_id, upsert}

pub record DmState : Type 0 where
  pub conversations : Dict Identity (List DirectMessage)
  pub older_by_conversation : Dict Identity (List DirectMessage)
  pub history_exhausted : Dict Identity Bool

abbrev pub empty : DmState
empty = record { conversations = []; older_by_conversation = []; history_exhausted = [] }

abbrev pub id_of : DirectMessage → ℕ
id_of m = m.id

-- The comparison of `appendMessage`, which leaves out `id` and `editedAt`.
unfoldable pub same_body : DirectMessage → DirectMessage → Bool
same_body a b =
    a.sender_identity == b.sender_identity
    && (a.recipient_identity == b.recipient_identity
        && (a.content == b.content
            && (a.sent_at == b.sent_at
                && (a.deleted_by_sender == b.deleted_by_sender
                    && a.deleted_by_recipient == b.deleted_by_recipient))))

-- One row of `areDirectMessagesEqual`, which leaves out `editedAt`.
unfoldable pub same_direct_message : DirectMessage → DirectMessage → Bool
unfolding same_body
same_direct_message a b = a.id == b.id && same_body a b

unfoldable pub are_direct_messages_equal : List DirectMessage → List DirectMessage → Bool
are_direct_messages_equal = rows_equal same_direct_message

-- `conversations[p] ?? []` and `olderByConversation[p]`, where a missing page is an empty one.
abbrev pub view : DmState → Identity → List DirectMessage
view s p = or_else (lookup p s.conversations) []

abbrev pub older : DmState → Identity → List DirectMessage
older s p = or_else (lookup p s.older_by_conversation) []

module _ (locale_compare : LocaleCompare) where
  abbrev pub merge : List DirectMessage → List DirectMessage → List DirectMessage
  merge = merge_history locale_compare id_of (λ m. m.sent_at)

  unfoldable pub set_conversation : Identity → List DirectMessage → DmState → DmState
  set_conversation p messages s =
      let merged = merge (older s p) messages in
      if are_direct_messages_equal (view s p) merged
      then s
      else record s { conversations = insert p merged s.conversations }

  unfoldable pub prepend_older_messages : Identity → List DirectMessage → Bool → DmState → DmState
  prepend_older_messages p page exhausted s =
      let next_older = merge (older s p) page in
      record s {
        older_by_conversation = insert p next_older s.older_by_conversation;
        conversations = insert p (merge next_older (view s p)) s.conversations;
        history_exhausted = insert p exhausted s.history_exhausted;
      }

-- The branch of `appendMessage` on the row that has the message's id, if there is one.
append_found : Identity → DirectMessage → Option DirectMessage → DmState → DmState
append_found p m (some row) s =
    if same_body row m
    then s
    else record s { conversations = insert p (upsert id_of m (view s p)) s.conversations }
append_found p m _ s = record s { conversations = insert p (view s p ++ m ∷ []) s.conversations }

unfoldable pub append_message : Identity → DirectMessage → DmState → DmState
unfolding append_found
append_message p m s = append_found p m (find_id id_of m.id (view s p)) s
