-- ===== src/Unread/Tests.antt =====
-- The counts of one channel.
use Prim.Native.String.{count}
use letschat.Common.{
  ◌≡◌, refl, false, ℕ, String, Option, none, some, List, [], ◌∷◌, Dict, nat_eq, string_eq, lookup,
  normalize_identity, trim,
}
use letschat.Domain.{Message, ReadRow}
use letschat.Ui.{initial, count_of}
use letschat.Unread.{recompute_unread}
use letschat.Unread.Counts.{unread-recompute}

-- The times of these tests are the lengths of their texts.
abbrev by_length : String → Option ℕ
by_length text = some (count text)

abbrev message : ℕ → String → String → Message
message id sender sent_at = record {
  id = id;
  channel_id = 7;
  sender_identity = sender;
  content = "hello";
  sent_at = sent_at;
  edited_at = none;
  deleted = false;
}

abbrev reads : Dict String ReadRow
reads =
    (
      "channel:x",
      record {
        read_key = "k";
        scope_key = "channel:x";
        user_identity = "me";
        last_read_at = "1";
        updated_at = "1";
      },
    )
    ∷ []

abbrev messages : Dict ℕ (List Message)
messages = (7, message 1 "aa" "1" ∷ message 2 "me" "22" ∷ message 3 "aa" "333" ∷ []) ∷ []

unread-recompute_example :
    count_of 7
      (recompute_unread
        (λ s. s)
        by_length
        (λ _. "x")
        (some "me")
        reads
        messages
        []
        initial).unread_by_channel
    ≡ 1
unfolding lookup normalize_identity trim
unread-recompute_example =
    unread-recompute (λ s. s) by_length (λ _. "x") "me" reads messages [] initial 7 (refl, tt)
