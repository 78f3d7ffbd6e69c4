-- ===== src/Activity.antt =====
-- What others do and what was read: src/stores/readStore.ts, typingStore.ts and presenceStore.ts.
-- `date_parse` is `Date.parse` of the host, with none for NaN.
pub mod Reads
pub mod Typing
mod Tests
use letschat.Common.{
  ℕ, ◌+◌, String, Bool, true, false, not, ◌&&◌, ◌||◌, Option, none, some, List, [], ◌∷◌, Dict,
  lookup, insert, or_else, if◌then◌else◌, ◌==◌, Equal, nat_eq, string_eq, length, ltb, leb,
  normalize_identity,
}
use letschat.Domain.{Identity, ReadRow, TypingRow, PresenceRow}

-- `a >= b` of two times that may be NaN.
abbrev pub at_least : Option ℕ → Option ℕ → Bool
at_least (some a) (some b) = leb b a
at_least _ _ = false

module _ (date_parse : String → Option ℕ) where
  -- readStore.ts: the row that a scope gets, where the store has `existing`.
  unfoldable pub later_row : ReadRow → Option ReadRow → ReadRow
  later_row row none = row
  later_row row (some existing) =
      if at_least (date_parse row.last_read_at) (date_parse existing.last_read_at)
      then row
      else existing

  -- The loop of `setReadRows` over the map that it builds.
  unfoldable pub put_read_rows :
      Dict String ReadRow → List ReadRow → Dict String ReadRow → Dict String ReadRow
  unfolding later_row
  put_read_rows before [] next = next
  put_read_rows before (row ∷ rows) next =
      put_read_rows before rows
        (insert row.scope_key (later_row row (lookup row.scope_key before)) next)

  unfoldable pub set_read_rows : List ReadRow → Dict String ReadRow → Dict String ReadRow
  unfolding put_read_rows
  set_read_rows rows before = put_read_rows before rows []

abbrev pub read_at : Option ReadRow → Option String
read_at none = none
read_at (some row) = some row.last_read_at

unfoldable pub get_last_read_at : String → Dict String ReadRow → Option String
get_last_read_at scope rows = read_at (lookup scope rows)

-- typingStore.ts: the times at which each identity of a scope stops typing.
abbrev pub TypingByScope : Type 0
TypingByScope = Dict String (Dict Identity ℕ)

module _ (to_lower : String → String) (date_parse : String → Option ℕ) where
  unfoldable pub put_typing_row : ℕ → ℕ → TypingRow → Option ℕ → TypingByScope → TypingByScope
  put_typing_row now ttl row none next = next
  put_typing_row now ttl row (some updated_at) next =
      if leb (updated_at + ttl) now
      then next
      else insert row.scope_key
          (insert (normalize_identity to_lower row.user_identity) (updated_at + ttl)
            (or_else (lookup row.scope_key next) []))
          next

  unfoldable pub put_typing_rows : ℕ → ℕ → List TypingRow → TypingByScope → TypingByScope
  unfolding put_typing_row
  put_typing_rows now ttl [] next = next
  put_typing_rows now ttl (row ∷ rows) next =
      put_typing_rows now ttl rows (put_typing_row now ttl row (date_parse row.updated_at) next)

  unfoldable pub set_typing_rows : ℕ → ℕ → List TypingRow → TypingByScope
  unfolding put_typing_rows
  set_typing_rows now ttl rows = put_typing_rows now ttl rows []

  -- presenceStore.ts
  unfoldable pub put_online : List PresenceRow → Dict Identity Bool → Dict Identity Bool
  put_online [] next = next
  put_online (row ∷ rows) next =
      put_online rows (insert (normalize_identity to_lower row.identity) row.online next)

  abbrev pub put_time : Identity → Option ℕ → Dict Identity ℕ → Dict Identity ℕ
  put_time key none next = next
  put_time key (some time) next = insert key time next

  unfoldable pub put_last_active : List PresenceRow → Dict Identity ℕ → Dict Identity ℕ
  put_last_active [] next = next
  put_last_active (row ∷ rows) next = put_last_active rows (
      put_time (normalize_identity to_lower row.identity) (date_parse row.last_interaction_at) next)

-- The entries that have not run out.
unfoldable pub unexpired : ℕ → Dict Identity ℕ → Dict Identity ℕ
unexpired now [] = []
unexpired now ((identity, expires_at) ∷ entries) =
    let rest = unexpired now entries in
    if ltb now expires_at then (identity, expires_at) ∷ rest else rest

abbrev pub keep_scope : String → Dict Identity ℕ → TypingByScope → TypingByScope
keep_scope scope [] rest = rest
keep_scope scope (entry ∷ entries) rest = (scope, entry ∷ entries) ∷ rest

unfoldable pub prune_all : ℕ → TypingByScope → TypingByScope
unfolding unexpired
prune_all now [] = []
prune_all now ((scope, entries) ∷ scopes) =
    keep_scope scope (unexpired now entries) (prune_all now scopes)

unfoldable pub is_changed : ℕ → TypingByScope → Bool
unfolding unexpired
is_changed now [] = false
is_changed now ((scope, entries) ∷ scopes) =
    not (length (unexpired now entries) == length entries) || is_changed now scopes

unfoldable pub prune_expired : ℕ → TypingByScope → TypingByScope
unfolding prune_all is_changed
prune_expired now scopes = if is_changed now scopes then prune_all now scopes else scopes

pub record PresenceState : Type 0 where
  pub now_ms : ℕ
  pub online_by_identity : Dict Identity Bool
  pub last_active_by_identity : Dict Identity ℕ

abbrev pub set_now_ms : ℕ → PresenceState → PresenceState
set_now_ms now s = if s.now_ms == now then s else record s { now_ms = now }

module _ (to_lower : String → String) (date_parse : String → Option ℕ) where
  unfoldable pub set_presence_rows : List PresenceRow → PresenceState → PresenceState
  unfolding put_online put_last_active
  set_presence_rows rows s = record s {
    online_by_identity = put_online to_lower date_parse rows [];
    last_active_by_identity = put_last_active to_lower date_parse rows [];
  }

-- The `reset` of each store.
abbrev pub reset_read_rows : Dict String ReadRow
reset_read_rows = []

abbrev pub reset_typing : TypingByScope
reset_typing = []

abbrev pub reset_presence : ℕ → PresenceState
reset_presence now = record { now_ms = now; online_by_identity = []; last_active_by_identity = [] }
