-- ===== src/Rosters/Rows.antt =====
-- What a guarded write leaves under each key, for the comparisons of the stores.
use letschat.Common.{
  ◌≡◌, Bool, true, List, Dict, lookup-insert, rows_equal, eq_of_rows_equal, if◌then◌else◌, ◌==◌,
  Equal, nat_eq, string_eq, bool_eq, option_eq, eq_of_beq, Bool-cases, inl, inr, arith,
}
use letschat.Rosters.{rows_at, set_rows, same_channel, same_participant, same_dm_participant}

-- A comparison of rows that accepts equal rows only.
abbrev pub IsExact : {A : Type 0} → (A → A → Bool) → Type 0
IsExact {A} same = (a b : A) → same a b ≡ true → a ≡ b

-- Behind an exact comparison a guarded write is a write.
pub rows_at-set_rows {ℓ} :
    {K : Type ℓ} {A : Type 0} ⦃e : Equal K⦄ (same : A → A → Bool)
    → IsExact same
    → (k j : K) (rows : List A) (m : Dict K (List A))
    → rows_at j (set_rows same k rows m) ≡ (if k == j then rows else rows_at j m)
unfolding set_rows
rows_at-set_rows ⦃e⦄ same exact k j rows m =
    elim (Bool-cases (rows_equal same (rows_at k m) rows)) [
      | inl kept ↦
          rw kept
            (ground (arith, e.reflects k j, eq_of_rows_equal same exact (rows_at k m) rows kept))
      | inr new ↦ rw new (ground (arith, lookup-insert k j rows m))
    ]

pub same_channel-IsExact : IsExact same_channel
unfolding same_channel
same_channel-IsExact a b h = ground (arith, eq_of_beq a.name b.name, eq_of_beq a.section b.section)

pub same_participant-IsExact : IsExact same_participant
unfolding same_participant
same_participant-IsExact a b h =
    ground (arith, eq_of_beq a.user_identity b.user_identity, eq_of_beq a.joined_at b.joined_at)

pub same_dm_participant-IsExact : IsExact same_dm_participant
unfolding same_dm_participant
same_dm_participant-IsExact a b h = ground (
  arith,
  eq_of_beq a.room_key b.room_key,
  eq_of_beq a.user_identity b.user_identity,
  eq_of_beq a.user_a b.user_a,
  eq_of_beq a.user_b b.user_b,
  eq_of_beq a.joined_at b.joined_at,
)
