-- ===== src/Activity/Tests.antt =====
-- The stores of reads and of typing on a few rows.
use letschat.Common.{
  ℕ, String, ◌≡◌, refl, Option, none, some, [], ◌∷◌, Dict, lookup, insert, string_eq, ◌==◌,
  if◌then◌else◌, true, false, ◌⊎◌,
}
use letschat.Domain.{ReadRow}
use letschat.Activity.{TypingByScope, set_read_rows, prune_expired, get_last_read_at}
use letschat.Activity.Reads.{IsSince, names, set_read_rows-IsSince}
use letschat.Activity.Typing.{entries_at, lookup-prune_expired}

abbrev clock : String → Option ℕ
clock text = if text == "early" then some 5 else if text == "late" then some 9 else none

abbrev read_row : String → ReadRow
read_row time = record {
  read_key = "r";
  scope_key = "channel:1";
  user_identity = "me";
  last_read_at = time;
  updated_at = time;
}

abbrev late_store : Dict String ReadRow
late_store = ("channel:1", read_row "late") ∷ []

keeps_late :
    get_last_read_at "channel:1" (set_read_rows clock (read_row "early" ∷ []) late_store)
    ≡ some "late"
unfolding get_last_read_at set_read_rows lookup insert
keeps_late = refl

set_read_rows-IsSince_example :
    let rows = read_row "early" ∷ read_row "never" ∷ [] in
    ((names clock "channel:1" rows ≡ true)
      × IsSince clock 9 (lookup "channel:1" (set_read_rows clock rows late_store)))
    ⊎ ((names clock "channel:1" rows ≡ false)
        × (lookup "channel:1" (set_read_rows clock rows late_store) ≡ none))
unfolding lookup
set_read_rows-IsSince_example =
    set_read_rows-IsSince clock (read_row "early" ∷ read_row "never" ∷ []) late_store "channel:1"
      (read_row "late") 9 refl refl

abbrev scopes : TypingByScope
scopes = ("channel:1", ("ann", 20) ∷ ("bob", 40) ∷ []) ∷ []

pruned : prune_expired 30 scopes ≡ ("channel:1", ("bob", 40) ∷ []) ∷ []
unfolding prune_expired
pruned = refl

lookup-prune_expired_example :
    lookup "ann" (entries_at "channel:1" (prune_expired 30 scopes)) ≡ none
unfolding lookup
lookup-prune_expired_example =
    lookup-prune_expired 30 scopes "channel:1" "ann" (refl, tt) (refl, (refl, tt))
