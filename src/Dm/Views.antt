-- ===== src/Dm/Views.antt =====
-- What each action of the direct-message store leaves in the view of each conversation. The store's
-- comparison does not read `editedAt`, so its views are right up to that field.
use mathlib.Core.Option
use letschat.Common.{
  ℕ, ◌≡◌, ◌↔◌, refl, sym, true, ◌&&◌, Option, none, some, List, [], ◌∷◌, ◌++◌, map, arith,
  lookup-insert, rows_equal, if◌then◌else◌, ◌==◌, nat_eq, string_eq, bool_eq, eq_of_beq, Bool-cases,
  inl, inr,
}
use letschat.Domain.{DirectMessage, Identity}
use letschat.History.{LocaleCompare, merge_history, find_id, upsert}
use letschat.History.Merge.{find_id-upsert, find_id-append_absent}
use letschat.Dm.{
  DmState, id_of, same_body, same_direct_message, are_direct_messages_equal, view, older, merge,
  set_conversation, append_found, append_message,
}

-- A message without its edit time.
abbrev pub unedited : DirectMessage → DirectMessage
unedited m = record m { edited_at = none }

eq_of_same_body :
    (a b : DirectMessage) → same_body a b ≡ true → a.id ≡ b.id → unedited a ≡ unedited b
unfolding same_body
eq_of_same_body a b h e = ground (
  arith,
  eq_of_beq a.sender_identity b.sender_identity,
  eq_of_beq a.recipient_identity b.recipient_identity,
  eq_of_beq a.content b.content,
  eq_of_beq a.sent_at b.sent_at,
  eq_of_beq a.deleted_by_sender b.deleted_by_sender,
  eq_of_beq a.deleted_by_recipient b.deleted_by_recipient,
)

found-id :
    (i : ℕ) (row : DirectMessage) (xs : List DirectMessage)
    → find_id id_of i xs ≡ some row
    → row.id ≡ i
found-id i row [] h = cc
found-id i row (x ∷ xs) h = ground (arith, found-id i row xs)

eq_of_same_direct_message :
    (a b : DirectMessage) → same_direct_message a b ≡ true → unedited a ≡ unedited b
unfolding same_direct_message
eq_of_same_direct_message a b h = ground (arith, eq_of_same_body a b)

same_direct_message_of_eq :
    (a b : DirectMessage) → unedited a ≡ unedited b → same_direct_message a b ≡ true
unfolding same_direct_message
same_direct_message_of_eq a b h = ground (
  arith,
  string_eq.reflects a.sender_identity b.sender_identity,
  string_eq.reflects a.recipient_identity b.recipient_identity,
  string_eq.reflects a.content b.content,
  string_eq.reflects a.sent_at b.sent_at,
  bool_eq.reflects a.deleted_by_sender b.deleted_by_sender,
  bool_eq.reflects a.deleted_by_recipient b.deleted_by_recipient,
)

-- The store's comparison accepts two threads exactly when they agree up to the edit times.
pub are_direct_messages_equal_iff :
    (xs ys : List DirectMessage)
    → (are_direct_messages_equal xs ys ≡ true) ↔ (map unedited xs ≡ map unedited ys)
unfolding are_direct_messages_equal rows_equal
are_direct_messages_equal_iff [] [] = ground arith
are_direct_messages_equal_iff [] (y ∷ ys) = ground arith
are_direct_messages_equal_iff (x ∷ xs) [] = ground arith
are_direct_messages_equal_iff (x ∷ xs) (y ∷ ys) = ground (
  arith,
  eq_of_same_direct_message x y,
  same_direct_message_of_eq x y,
  are_direct_messages_equal_iff xs ys,
)

module _ (locale_compare : LocaleCompare) where
  -- After a sync the view of the conversation is, up to edit times, the merge of its older pages with
  -- the live window; the other views, the pages and the flags stay.
  pub view-set_conversation :
      (p q : Identity) (messages : List DirectMessage) (s : DmState)
      → let t = set_conversation locale_compare p messages s in
        (map unedited (view t q) ≡ (
          if p == q
          then map unedited (merge locale_compare (older s p) messages)
          else map unedited (view s q)))
        × (t.older_by_conversation ≡ s.older_by_conversation)
        × (t.history_exhausted ≡ s.history_exhausted)
  unfolding set_conversation
  view-set_conversation p q messages s =
      let merged : List DirectMessage = merge locale_compare (older s p) messages in
      elim (Bool-cases (are_direct_messages_equal (view s p) merged)) [
        | inl same ↦ (
          ground (
            arith,
            same,
            eq_of_beq p q,
            (are_direct_messages_equal_iff (view s p) merged).0 same,
          ),
          rw same,
          rw same,
        )
        | inr new ↦ rw new (ground (arith, lookup-insert p q merged s.conversations), refl, refl)
      ]

  -- A window that differs from the shown thread in edit times alone changes nothing: with no older
  -- pages, the store keeps the edit times that it had.
  pub set_conversation_keeps_edit_times :
      (p : Identity) (messages : List DirectMessage) (s : DmState)
      → older s p ≡ []
      → map unedited messages ≡ map unedited (view s p)
      → set_conversation locale_compare p messages s ≡ s
  unfolding set_conversation merge_history
  set_conversation_keeps_edit_times p messages s h e =
      rw (h, merge_history, (are_direct_messages_equal_iff (view s p) messages).1 (sym e))

find_id-append_found :
    (i : ℕ) (p q : Identity) (m : DirectMessage) (o : Option DirectMessage) (s : DmState)
    → find_id id_of m.id (view s p) ≡ o
    → Option.map unedited (find_id id_of i (view (append_found p m o s) q))
      ≡ Option.map unedited (if p == q && m.id == i then some m else find_id id_of i (view s q))
unfolding append_found
find_id-append_found i p q m none s h = ground (
  arith,
  eq_of_beq p q,
  lookup-insert p q (view s p ++ m ∷ []) s.conversations,
  find_id-append_absent id_of i m (view s p) h,
)
find_id-append_found i p q m (some row) s h = ground (
  arith,
  eq_of_beq p q,
  found-id m.id row (view s p) h,
  eq_of_same_body row m,
  lookup-insert p q (upsert id_of m (view s p)) s.conversations,
  find_id-upsert id_of i m (view s p),
)

-- An incoming message is, up to its edit time, what its conversation shows under its id; every other
-- message of the conversation stays, and so does every other conversation.
pub append_message_up_to_edits :
    (i : ℕ) (p q : Identity) (m : DirectMessage) (s : DmState)
    → Option.map unedited (find_id id_of i (view (append_message p m s) q))
      ≡ Option.map unedited (if p == q && m.id == i then some m else find_id id_of i (view s q))
unfolding append_message
append_message_up_to_edits i p q m s = find_id-append_found i p q m _ s refl
