-- ===== src/Messages/Views.antt =====
-- What each action of the messages store leaves in the view of each channel.
use letschat.Common.{
  ℕ, ◌≡◌, refl, ap, ◌∙◌, Bool, true, ◌&&◌, Option, none, some, List, [], ◌∷◌, ◌++◌, arith, lookup,
  lookup-insert, rows_equal, eq_of_rows_equal, if◌then◌else◌, ◌==◌, nat_eq, string_eq, option_eq,
  bool_eq, eq_of_beq, Bool-cases, inl, inr,
}
use letschat.Domain.{Message}
use letschat.History.{LocaleCompare, find_id, upsert, first_some, IsDistinct}
use letschat.History.Merge.{
  find_id-merge_history, merge_history-IsDistinct, find_id-upsert, find_id-append_absent,
}
use letschat.Messages.{
  MessagesState, id_of, same_message, are_messages_equal, view, older, merge, set_channel_messages,
  prepend_older_messages, append_found, append_message,
}

pub eq_of_same_message : (a b : Message) → same_message a b ≡ true → a ≡ b
unfolding same_message
eq_of_same_message a b h = ground (
  arith,
  eq_of_beq a.sender_identity b.sender_identity,
  eq_of_beq a.content b.content,
  eq_of_beq a.sent_at b.sent_at,
  eq_of_beq a.edited_at b.edited_at,
)

pub eq_of_are_messages_equal : (xs ys : List Message) → are_messages_equal xs ys ≡ true → xs ≡ ys
unfolding are_messages_equal
eq_of_are_messages_equal xs ys h = eq_of_rows_equal same_message eq_of_same_message xs ys h

module _ (locale_compare : LocaleCompare) where
  -- After a sync the view of the channel is the merge of its older pages with the live window,
  -- whether or not the store was written; every other view, the pages and the flags stay.
  pub view-set_channel_messages :
      (c d : ℕ) (messages : List Message) (s : MessagesState)
      → let t = set_channel_messages locale_compare c messages s in
        (view t d ≡ (if c == d then merge locale_compare (older s c) messages else view s d))
        × (t.older_by_channel ≡ s.older_by_channel)
        × (t.history_exhausted ≡ s.history_exhausted)
  unfolding set_channel_messages
  view-set_channel_messages c d messages s =
      let merged : List Message = merge locale_compare (older s c) messages in
      elim (Bool-cases (are_messages_equal (view s c) merged)) [
        | inl same ↦
            rw same (ground (arith, eq_of_are_messages_equal (view s c) merged same), refl, refl)
        | inr new ↦
            rw new (ground (arith, lookup-insert c d merged s.messages_by_channel), refl, refl)
      ]

  pub view-prepend_older_messages :
      (c d : ℕ) (page : List Message) (exhausted : Bool) (s : MessagesState)
      → let t = prepend_older_messages locale_compare c page exhausted s in
        let pages = merge locale_compare (older s c) page in
        (view t d ≡ (if c == d then merge locale_compare pages (view s c) else view s d))
        × (older t d ≡ (if c == d then pages else older s d))
        × (lookup d t.history_exhausted
            ≡ (if c == d then some exhausted else lookup d s.history_exhausted))
  unfolding prepend_older_messages
  view-prepend_older_messages c d page exhausted s =
      let pages : List Message = merge locale_compare (older s c) page in
      let merged : List Message = merge locale_compare pages (view s c) in
      (
        ground (arith, lookup-insert c d merged s.messages_by_channel),
        ground (arith, lookup-insert c d pages s.older_by_channel),
        lookup-insert c d exhausted s.history_exhausted,
      )

  view-set_self :
      (c : ℕ) (messages : List Message) (s : MessagesState)
      → view (set_channel_messages locale_compare c messages s) c
        ≡ merge locale_compare (older s c) messages
  view-set_self c messages s = ground (arith, (view-set_channel_messages c c messages s).0)

  older-prepend_self :
      (c : ℕ) (page : List Message) (exhausted : Bool) (s : MessagesState)
      → older (prepend_older_messages locale_compare c page exhausted s) c
        ≡ merge locale_compare (older s c) page
  older-prepend_self c page exhausted s =
      ground (arith, (view-prepend_older_messages c c page exhausted s).1)

  -- A page that was fetched stays in view through the next sync of its channel: what the sync
  -- shows under an id is the live row, else the row of the new page, else that of an earlier page.
  pub find_id-set-prepend :
      (c i : ℕ) (page messages : List Message) (exhausted : Bool) (s : MessagesState)
      → IsDistinct id_of (older s c)
      → IsDistinct id_of page
      → IsDistinct id_of messages
      → find_id id_of i (
          view
            (set_channel_messages locale_compare c messages
              (prepend_older_messages locale_compare c page exhausted s))
            c)
        ≡ first_some
            (find_id id_of i messages)
            (first_some (find_id id_of i page) (find_id id_of i (older s c)))
  find_id-set-prepend c i page messages exhausted s u v w =
      ap (find_id id_of i) (
        view-set_self c messages _
        ∙ ap (λ o. merge locale_compare o messages) (older-prepend_self c page exhausted s))
      ∙ find_id-merge_history locale_compare id_of (λ m. m.sent_at) i _ messages
          (merge_history-IsDistinct locale_compare id_of (λ m. m.sent_at) (older s c) page v) w
      ∙ ap (first_some (find_id id_of i messages))
          (find_id-merge_history locale_compare id_of (λ m. m.sent_at) i (older s c) page u v)

-- The same for the branch on the row found, whose view of other channels is the old one.
find_id-append_found :
    (i d : ℕ) (m : Message) (o : Option Message) (s : MessagesState)
    → find_id id_of m.id (view s m.channel_id) ≡ o
    → find_id id_of i (view (append_found m o s) d)
      ≡ (if m.channel_id == d && m.id == i then some m else find_id id_of i (view s d))
unfolding append_found are_messages_equal rows_equal
find_id-append_found i d m none s h = ground (
  arith,
  lookup-insert m.channel_id d (view s m.channel_id ++ m ∷ []) s.messages_by_channel,
  find_id-append_absent id_of i m (view s m.channel_id) h,
)
find_id-append_found i d m (some row) s h = ground (
  arith,
  eq_of_same_message row m,
  lookup-insert m.channel_id d (upsert id_of m (view s m.channel_id)) s.messages_by_channel,
  find_id-upsert id_of i m (view s m.channel_id),
)

-- An incoming message is what its channel shows under its id, in place of the row that stood there or
-- behind the others; every other message of the channel stays, and so does every other channel.
pub find_id-append_message :
    (i d : ℕ) (m : Message) (s : MessagesState)
    → find_id id_of i (view (append_message m s) d)
      ≡ (if m.channel_id == d && m.id == i then some m else find_id id_of i (view s d))
unfolding append_message
find_id-append_message i d m s = find_id-append_found i d m _ s refl
