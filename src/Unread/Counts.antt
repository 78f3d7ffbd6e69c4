-- ===== src/Unread/Counts.antt =====
-- The counts that a recomputation leaves.
use letschat.Common.{
  ℕ, ◌+◌, String, ◌≡◌, refl, sym, ap, ◌∙◌, Bool, true, ◌&&◌, Option, none, some, List, [], ◌∷◌,
  Dict, lookup, insert, lookup-insert, or_else, if◌then◌else◌, ◌==◌, Equal, nat_eq, string_eq,
  filter, length, normalize_identity, arith, Bool-cases, inl, inr, eq_of_beq,
}
use letschat.Domain.{Identity, Message, DirectMessage, ReadRow}
use letschat.Ui.{UiState, count_of}
use letschat.Sync.Groups.{IsUnique}
use letschat.Unread.{
  same_counts, cursor_at, is_unread, count_unread, count_all, dm_read_scope_key, channel_scope,
  recompute_unread,
}

eq_of_same_counts : {K : Type 0} ⦃e : Equal K⦄ (a b : Dict K ℕ) → same_counts a b ≡ true → a ≡ b
unfolding same_counts
eq_of_same_counts [] [] h = refl
eq_of_same_counts [] ((j, i) ∷ l) h = ground arith
eq_of_same_counts ((k, n) ∷ m) [] h = ground arith
eq_of_same_counts ⦃e⦄ ((k, n) ∷ m) ((j, i) ∷ l) h =
    ground (arith, e.reflects k j, eq_of_same_counts m l)

count_unread-filter :
    {A : Type 0} (test : A → Bool) (rows : List A) (n : ℕ)
    → count_unread test rows n ≡ n + length (filter test rows)
unfolding count_unread
count_unread-filter test [] n = omega arith
count_unread-filter test (row ∷ rows) n =
    ground (arith, count_unread-filter test rows n, count_unread-filter test rows (n + 1))

-- The count of the rows of a key, if there are any, and else what stood before.
abbrev counted : {A : Type 0} → (A → Bool) → Option (List A) → ℕ → ℕ
counted test none before = before
counted test (some rows) before = length (filter test rows)

count_all-counted :
    {J A : Type 0} ⦃e : Equal J⦄ (test : J → A → Bool) (c : J) (m : Dict J (List A))
    (counts : Dict J ℕ)
    → IsUnique m
    → count_of c (count_all (λ j. j) test m counts)
      ≡ counted (test c) (lookup c m) (count_of c counts)
unfolding count_all lookup
count_all-counted test c [] counts u = refl
count_all-counted ⦃e⦄ test c ((j, rows) ∷ rest) counts (d, u) = elim (Bool-cases (j == c)) [
  | inl same ↦ rw same (
      count_all-counted test c rest (insert j (count_unread (test j) rows 0) counts) u
      ∙ ap (λ o. counted (test c) o (count_of c (insert j (count_unread (test j) rows 0) counts)))
          (ap (λ x. lookup x rest) (sym (eq_of_beq j c same)) ∙ d)
      ∙ ap (λ o. or_else o 0) (lookup-insert j c (count_unread (test j) rows 0) counts)
      ∙ ap (λ b. or_else (if b then some (count_unread (test j) rows 0) else lookup c counts) 0)
          same
      ∙ ap (λ x. count_unread (test x) rows 0) (eq_of_beq j c same)
      ∙ count_unread-filter (test c) rows 0
      ∙ omega arith)
  | inr other ↦ rw other (
      count_all-counted test c rest (insert j (count_unread (test j) rows 0) counts) u
      ∙ ap (λ o. counted (test c) (lookup c rest) (or_else o 0))
          (lookup-insert j c (count_unread (test j) rows 0) counts
            ∙ ap (λ b. if b then some (count_unread (test j) rows 0) else lookup c counts) other))
]

counted-or_else :
    {A : Type 0} (test : A → Bool) (o : Option (List A))
    → counted test o 0 ≡ length (filter test (or_else o []))
counted-or_else test none = refl
counted-or_else test (some rows) = refl

module _ (to_lower : String → String) (date_parse : String → Option ℕ) (to_text : ℕ → String) where
  -- Another sent the message later than the channel's read cursor.
  abbrev pub is_unread_in : Identity → Dict String ReadRow → ℕ → Message → Bool
  is_unread_in self reads c m =
      is_unread to_lower date_parse self
        (cursor_at to_lower date_parse (channel_scope to_lower date_parse to_text c) reads)
        m.sender_identity m.sent_at

  -- After a recomputation the unread count of each channel is the number of its messages that others
  -- sent later than the channel's read cursor, whatever was counted before, if no channel stands
  -- twice.
  pub unread-recompute :
      (self : Identity) (reads : Dict String ReadRow) (messages : Dict ℕ (List Message))
      (conversations : Dict Identity (List DirectMessage)) (ui : UiState) (c : ℕ)
      → IsUnique messages
      → count_of c
          (recompute_unread to_lower date_parse to_text
            (some self)
            reads
            messages
            conversations
            ui).unread_by_channel
        ≡ length (filter (is_unread_in self reads c) (or_else (lookup c messages) []))
  unfolding recompute_unread lookup
  unread-recompute self reads messages conversations ui c u =
      elim (Bool-cases (
        same_counts ui.unread_by_channel by_channel
        && same_counts ui.unread_by_dm_partner by_partner)) [
          | inl same ↦ rw same (
              ap (count_of c) (eq_of_same_counts ui.unread_by_channel by_channel (left _ _ same))
              ∙ counts)
          | inr new ↦ rw new counts
        ]
    where
      left : (a b : Bool) → (a && b) ≡ true → a ≡ true
      left a b h = ground arith

      by_channel : Dict ℕ ℕ
      by_channel = count_all (λ c. c) (is_unread_in self reads) messages []

      by_partner : Dict Identity ℕ
      by_partner =
          count_all (normalize_identity to_lower)
            (λ p m.
              is_unread to_lower date_parse self
                (cursor_at to_lower date_parse (dm_read_scope_key to_lower date_parse self p) reads)
                m.sender_identity m.sent_at)
            conversations []

      counts :
          count_of c by_channel
          ≡ length (filter (is_unread_in self reads c) (or_else (lookup c messages) []))
      counts =
          count_all-counted (is_unread_in self reads) c messages [] u
          ∙ counted-or_else (is_unread_in self reads c) (lookup c messages)
