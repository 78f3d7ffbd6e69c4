-- ===== src/Rosters/Layout.antt =====
-- The channel that an upsert leaves, and the order of the channels after it.
use letschat.Common.{
  ℕ, String, ◌≡◌, refl, ap, ◌∙◌, true, ◌&&◌, Option, none, some, List, [], ◌∷◌, Dict, lookup-insert,
  eq_of_rows_equal, if◌then◌else◌, ◌==◌, nat_eq, Bool-cases, inl, inr, arith, sort,
}
use letschat.Domain.{Channel}
use letschat.History.{LocaleCompare, find_id, upsert, IsDistinct}
use letschat.History.Merge.{find_id-sort, find_id-upsert, upsert-IsDistinct}
use letschat.Rosters.{
  rows_at, same_channel, are_channels_equal, by_layout, put_channel, unchanged, upsert_channel,
}
use letschat.Rosters.Rows.{same_channel-IsExact}

abbrev pub channel_id_of : Channel → ℕ
channel_id_of c = c.id

module _ (to_lower : String → String) (locale_compare : LocaleCompare) where
  put_channel-upsert :
      (c : Channel) (rows : List Channel)
      → put_channel to_lower locale_compare c rows ≡ upsert channel_id_of c rows
  unfolding put_channel upsert
  put_channel-upsert c [] = refl
  put_channel-upsert c (row ∷ rows) = ground (arith, put_channel-upsert c rows)

  eq_of_unchanged :
      (c : Channel) (o : Option Channel) → unchanged to_lower locale_compare c o ≡ true → o ≡ some c
  unfolding unchanged
  eq_of_unchanged c none h = ground arith
  eq_of_unchanged c (some row) h = ap some (same_channel-IsExact row c h)

  -- The rows of the channel's server with the channel in its place.
  abbrev pub laid_out : Channel → List Channel → List Channel
  laid_out c rows =
      sort (by_layout to_lower locale_compare) (put_channel to_lower locale_compare c rows)

  find_id-laid_out :
      (i : ℕ) (c : Channel) (rows : List Channel)
      → IsDistinct channel_id_of rows
      → find_id channel_id_of i (laid_out c rows)
        ≡ (if c.id == i then some c else find_id channel_id_of i rows)
  find_id-laid_out i c rows u =
      ap (λ xs. find_id channel_id_of i (sort (by_layout to_lower locale_compare) xs))
        (put_channel-upsert c rows)
      ∙ find_id-sort channel_id_of _ i _ (upsert-IsDistinct channel_id_of c rows u)
      ∙ find_id-upsert channel_id_of i c rows

  -- A channel that arrives is what its server shows under its id, and every other channel of every
  -- server stays, if the server has no id twice.
  pub find_id-upsert_channel :
      (i s : ℕ) (c : Channel) (m : Dict ℕ (List Channel))
      → IsDistinct channel_id_of (rows_at c.server_id m)
      → find_id channel_id_of i (rows_at s (upsert_channel to_lower locale_compare c m))
        ≡ (if c.server_id == s && c.id == i then some c else find_id channel_id_of i (rows_at s m))
  unfolding upsert_channel
  find_id-upsert_channel i s c m u =
      let current = rows_at c.server_id m in
      let next = laid_out c current in
      elim (Bool-cases (unchanged to_lower locale_compare c (find_id channel_id_of c.id current))) [
        | inl kept ↦
            rw kept (ground (arith, eq_of_unchanged c (find_id channel_id_of c.id current) kept))
        | inr changed ↦ elim (Bool-cases (are_channels_equal current next)) [
          | inl same ↦ rw changed (
              rw same (
                ground (
                  arith,
                  find_id-laid_out i c current u,
                  eq_of_rows_equal same_channel same_channel-IsExact current next same,
                )))
          | inr new ↦ rw changed (
              rw new (
                ground (arith, find_id-laid_out i c current u, lookup-insert c.server_id s next m)))
        ]
      ]
