-- ===== src/Ui/Unread.antt =====
-- The unread counters, with the total of src/lib/notifications.ts that the badge shows.
use letschat.Common.{
  ℕ, String, ◌+◌, ◌≡◌, List, [], ◌∷◌, Dict, lookup, insert, lookup-insert, if◌then◌else◌, ◌==◌,
  Equal, nat_eq, string_eq, arith, normalize_identity, length,
}
use letschat.Domain.{Identity}
use letschat.Ui.{
  UiState, count_of, increment_unread, clear_unread, increment_dm_unread, clear_dm_unread,
}

-- `Object.values(m).reduce((sum, value) => sum + value, 0)`
abbrev pub sum_values {ℓ} : {K : Type ℓ} → Dict K ℕ → ℕ
sum_values [] = 0
sum_values ((k, n) ∷ m) = n + sum_values m

unfoldable pub get_total_unread_count : UiState → ℕ
get_total_unread_count s = sum_values s.unread_by_channel + sum_values s.unread_by_dm_partner

module _ {ℓ} {K : Type ℓ} ⦃e : Equal K⦄ where
  sum_values-insert :
      (k : K) (n : ℕ) (m : Dict K ℕ) → sum_values (insert k n m) + count_of k m ≡ sum_values m + n
  unfolding insert lookup
  sum_values-insert k n [] = omega arith
  sum_values-insert k n ((j, v) ∷ m) = ground (arith, sum_values-insert k n m)

-- The unread messages of one channel, and of one direct-message partner.
abbrev pub unread : ℕ → UiState → ℕ
unread c s = count_of c s.unread_by_channel

unread-increment :
    (c d : ℕ) (s : UiState)
    → unread d (increment_unread c s) ≡ (if c == d then unread c s + 1 else unread d s)
unfolding increment_unread
unread-increment c d s =
    ground (arith, lookup-insert c d (count_of c s.unread_by_channel + 1) s.unread_by_channel)

-- Clearing a channel leaves no unread message in it and takes exactly its count off the total; the
-- other channels keep theirs.
pub clear_unread_lem :
    (c d : ℕ) (s : UiState)
    → (unread d (clear_unread c s) ≡ (if c == d then 0 else unread d s))
      × (get_total_unread_count (clear_unread c s) + unread c s ≡ get_total_unread_count s)
unfolding clear_unread get_total_unread_count
clear_unread_lem c d s = (
  ground (arith, lookup-insert c d 0 s.unread_by_channel),
  ground (arith, sum_values-insert c 0 s.unread_by_channel),
)

-- The number of times that an id is named.
abbrev pub occurrences : ℕ → List ℕ → ℕ
occurrences d [] = 0
occurrences d (c ∷ cs) = (if c == d then 1 else 0) + occurrences d cs

abbrev pub increment_all : List ℕ → UiState → UiState
increment_all [] s = s
increment_all (c ∷ cs) s = increment_all cs (increment_unread c s)

total-increment :
    (c : ℕ) (s : UiState)
    → get_total_unread_count (increment_unread c s) ≡ get_total_unread_count s + 1
unfolding increment_unread get_total_unread_count
total-increment c s =
    omega (arith, sum_values-insert c (count_of c s.unread_by_channel + 1) s.unread_by_channel)

-- Any sequence of increments adds to each channel as many as name it, and to the badge's total as many
-- as there are.
pub increment_all_lem :
    (cs : List ℕ) (d : ℕ) (s : UiState)
    → (unread d (increment_all cs s) ≡ unread d s + occurrences d cs)
      × (get_total_unread_count (increment_all cs s) ≡ get_total_unread_count s + length cs)
increment_all_lem [] d s = (omega arith, omega arith)
increment_all_lem (c ∷ cs) d s =
    let (here, total) = increment_all_lem cs d (increment_unread c s) in
    (ground (arith, here, unread-increment c d s), omega (arith, total, total-increment c s))

module _ (to_lower : String → String) where
  -- The counter of a partner does not depend on how the identity is written: identities that normalize
  -- to one text share it, the increment adds one to it, and the clear empties it; all other counters stay.
  pub dm_unread_lem :
      (p : Identity) (key : Identity) (s : UiState)
      → let shared = normalize_identity to_lower p == key in
        let n = count_of key s.unread_by_dm_partner in
        (count_of key (increment_dm_unread to_lower p s).unread_by_dm_partner
          ≡ (if shared then n + 1 else n))
        × (count_of key (clear_dm_unread to_lower p s).unread_by_dm_partner
            ≡ (if shared then 0 else n))
  unfolding increment_dm_unread clear_dm_unread
  dm_unread_lem p key s =
      let own = normalize_identity to_lower p in
      (
        ground (
          arith,
          string_eq.reflects own key,
          lookup-insert own key (count_of own s.unread_by_dm_partner + 1) s.unread_by_dm_partner,
        ),
        ground (arith, string_eq.reflects own key, lookup-insert own key 0 s.unread_by_dm_partner),
      )
