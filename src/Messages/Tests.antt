-- ===== src/Messages/Tests.antt =====
-- The messages store on a small channel.
use Prim.Native.Nat.{compare}
use Prim.Native.String.{count}
use letschat.Common.{
  ℕ, ◌≡◌, refl, true, false, none, some, List, [], ◌∷◌, String, lookup, insert, sort, rows_equal,
  nat_eq,
}
use letschat.Domain.{Message}
use letschat.History.{LocaleCompare, find_id, upsert, set_all, merge_history}
use letschat.Messages.{
  id_of, empty, view, set_channel_messages, prepend_older_messages, append_message,
  are_messages_equal, same_message,
}
use letschat.Messages.Views.{find_id-set-prepend, find_id-append_message}
use letschat.Messages.Views.{view-prepend_older_messages}
use letschat.Messages.Invariant.{Action, sets, prepends, appends, IsValid, run, run-empty-IsValid}

messages : Unit {0}
unfolding set_channel_messages prepend_older_messages append_message merge_history set_all lookup
    insert sort are_messages_equal same_message rows_equal upsert
messages = tt

-- A comparison by length orders the times of these tests.
abbrev by_length : LocaleCompare
by_length a b = compare (count a) (count b)

abbrev message : ℕ → String → String → Message
message i content sent_at = record {
  id = i;
  channel_id = 7;
  sender_identity = "aa";
  content = content;
  sent_at = sent_at;
  edited_at = none;
  deleted = false;
}

abbrev page : List Message
page = message 1 "first" "1" ∷ message 2 "stale" "22" ∷ []

abbrev live : List Message
live = message 2 "second" "22" ∷ message 3 "third" "333" ∷ []

abbrev actions : List Action
actions =
    sets 7 live ∷ prepends 7 page true ∷ appends (message 4 "fourth" "4444") ∷ sets 7 live ∷ []

view_after :
    view (run by_length empty actions) 7
    ≡ message 1 "first" "1" ∷ message 2 "second" "22" ∷ message 3 "third" "333" ∷ []
unfolding messages
view_after = refl

view-prepend_older_messages_example :
    lookup 7 (prepend_older_messages by_length 7 page true empty).history_exhausted ≡ some true
view-prepend_older_messages_example = (view-prepend_older_messages by_length 7 7 page true empty).2

find_id-set-prepend_example :
    find_id id_of 2 (
      view
        (set_channel_messages by_length 7 live (prepend_older_messages by_length 7 page true empty))
        7)
    ≡ some (message 2 "second" "22")
unfolding lookup
find_id-set-prepend_example =
    find_id-set-prepend by_length 7 2 page live true empty tt (refl, (refl, tt)) (refl, (refl, tt))

find_id-append_message_example :
    find_id id_of 4 (view (append_message (message 4 "x" "4444") empty) 7)
    ≡ some (message 4 "x" "4444")
find_id-append_message_example = find_id-append_message 4 7 (message 4 "x" "4444") empty

run-empty-IsValid_example : IsValid (run by_length empty actions)
run-empty-IsValid_example =
    run-empty-IsValid by_length actions
      ((refl, (refl, tt)), ((refl, (refl, tt)), (tt, ((refl, (refl, tt)), tt))))
