-- ===== src/Dm/Tests.antt =====
-- The direct-message store on a small conversation.
use Prim.Native.Nat.{compare}
use Prim.Native.String.{count}
use letschat.Common.{◌≡◌, refl, false, Option, none, some, [], ◌∷◌, String, lookup}
use letschat.Domain.{DirectMessage}
use letschat.History.{LocaleCompare}
use letschat.Dm.{DmState, empty, set_conversation}
use letschat.Dm.Views.{set_conversation_keeps_edit_times}

-- A comparison by length orders the times of these tests.
abbrev by_length : LocaleCompare
by_length a b = compare (count a) (count b)

abbrev message : Option String → DirectMessage
message edited_at = record {
  id = 1;
  sender_identity = "aa";
  recipient_identity = "bb";
  content = "hello";
  sent_at = "1";
  edited_at = edited_at;
  deleted_by_sender = false;
  deleted_by_recipient = false;
}

abbrev shown : DmState
shown = record empty { conversations = ("bb", message none ∷ []) ∷ [] }

set_conversation_keeps_edit_times_example :
    set_conversation by_length "bb" (message (some "2") ∷ []) shown ≡ shown
unfolding lookup
set_conversation_keeps_edit_times_example =
    set_conversation_keeps_edit_times by_length "bb" (message (some "2") ∷ []) shown refl refl
