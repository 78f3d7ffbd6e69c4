-- ===== src/Unread.antt =====
-- The unread counts from the read cursors: `recomputeUnreadStateFromReadCursors` of
-- src/lib/spacetimedb/sync.ts, over the rows of src/stores/readStore.ts. `date_parse` is `Date.parse` of
-- the host, with none for its NaN; the times are those after 1970.
pub mod Counts
mod Tests
use Prim.Native.String.{compare, ◌++◌}
use Prim.Native.Nat.{Ordering}
use letschat.Common.{
  ℕ, suc, ◌+◌, String, Bool, true, false, not, ◌&&◌, Option, none, some, List, [], ◌∷◌, Dict,
  lookup, insert, or_else, if◌then◌else◌, ◌==◌, ltb, Equal, nat_eq, string_eq, normalize_identity,
}
use letschat.Domain.{Identity, Message, DirectMessage, ReadRow}
use letschat.Ui.{UiState}

abbrev cursor_text : Option ReadRow → String
cursor_text none = ""
cursor_text (some row) = row.last_read_at

-- `JSON.stringify(a) === JSON.stringify(b)` on two dictionaries of counts.
same_counts : {K : Type 0} ⦃e : Equal K⦄ → Dict K ℕ → Dict K ℕ → Bool
same_counts [] [] = true
same_counts ((k, n) ∷ m) ((j, i) ∷ l) = k == j && (n == i && same_counts m l)
same_counts _ _ = false

-- The inner loop.
unfoldable pub count_unread : {A : Type 0} → (A → Bool) → List A → ℕ → ℕ
count_unread test [] unread = unread
count_unread test (row ∷ rows) unread =
    count_unread test rows (if test row then unread + 1 else unread)

-- The outer loop: the key of a count, and the test of its rows, by the key of the rows.
unfoldable pub count_all :
    {J K A : Type 0} ⦃e : Equal K⦄
    → (J → K)
    → (J → A → Bool)
    → Dict J (List A)
    → Dict K ℕ
    → Dict K ℕ
unfolding count_unread
count_all key test [] counts = counts
count_all key test ((j, rows) ∷ rest) counts =
    count_all key test rest (insert (key j) (count_unread (test j) rows 0) counts)

module _ (to_lower : String → String) (date_parse : String → Option ℕ) where
  -- `Date.parse(rows[scope]?.lastReadAt ?? '') || 0`
  abbrev pub cursor_at : String → Dict String ReadRow → ℕ
  cursor_at scope rows = or_else (date_parse (cursor_text (lookup scope rows))) 0

  abbrev is_later : Option ℕ → ℕ → Bool
  is_later none cursor = false
  is_later (some sent) cursor = ltb cursor sent

  -- A message counts if another sent it after the cursor.
  abbrev pub is_unread : Identity → ℕ → Identity → String → Bool
  is_unread self cursor sender sent_at =
      not (normalize_identity to_lower sender == normalize_identity to_lower self)
      && is_later (date_parse sent_at) cursor

  -- `a <= b ? `dm:${a}:${b}` : `dm:${b}:${a}``; the identities are hexadecimal texts, on which the order
  -- of the characters is that of the units.
  in_order : Ordering → String → String → String
  in_order Ordering.gt a b = "dm:" ++ b ++ ":" ++ a
  in_order _ a b = "dm:" ++ a ++ ":" ++ b

  unfoldable pub dm_read_scope_key : Identity → Identity → String
  unfolding in_order
  dm_read_scope_key self_identity other_identity =
      let a = normalize_identity to_lower self_identity in
      let b = normalize_identity to_lower other_identity in in_order (compare a b) a b

  module _ (to_text : ℕ → String) where
    abbrev pub channel_scope : ℕ → String
    channel_scope c = "channel:" ++ to_text c

    unfoldable pub recompute_unread :
        Option Identity
        → Dict String ReadRow
        → Dict ℕ (List Message)
        → Dict Identity (List DirectMessage)
        → UiState
        → UiState
    unfolding count_all same_counts
    recompute_unread none reads messages conversations ui = ui
    recompute_unread (some self) reads messages conversations ui =
        let by_channel : Dict ℕ ℕ =
          count_all (λ c. c)
            (λ c m. is_unread self (cursor_at (channel_scope c) reads) m.sender_identity m.sent_at)
            messages [] in
        let by_partner : Dict Identity ℕ =
          count_all (normalize_identity to_lower)
            (λ p m.
              is_unread self (cursor_at (dm_read_scope_key self p) reads) m.sender_identity
                m.sent_at)
            conversations [] in
        if same_counts ui.unread_by_channel by_channel
          && same_counts ui.unread_by_dm_partner by_partner
        then ui
        else record ui { unread_by_channel = by_channel; unread_by_dm_partner = by_partner }
