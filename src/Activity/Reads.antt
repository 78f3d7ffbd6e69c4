-- ===== src/Activity/Reads.antt =====
-- The read cursors never go back.
use letschat.Common.{
  ℕ, ◌≤◌, String, ◌≡◌, refl, ◌∙◌, ap, Bool, true, false, Option, none, some, List, [], ◌∷◌, Dict,
  lookup, insert, lookup-insert, if◌then◌else◌, ◌==◌, nat_eq, string_eq, leb, arith, Bool-cases,
  inl, inr, any, ◌⊎◌,
}
use letschat.Domain.{ReadRow}
use letschat.Activity.{at_least, later_row, put_read_rows, set_read_rows}

module _ (date_parse : String → Option ℕ) where
  -- What the scope gets of the rows: its last row, or the row that the store has if that was read later.
  row_after : Dict String ReadRow → String → List ReadRow → Option ReadRow → Option ReadRow
  row_after before scope [] found = found
  row_after before scope (row ∷ rows) found = row_after before scope rows (
      if row.scope_key == scope
      then some (later_row date_parse row (lookup scope before))
      else found)

  lookup-put_read_rows :
      (before : Dict String ReadRow) (scope : String) (rows : List ReadRow)
      (next : Dict String ReadRow)
      → lookup scope (put_read_rows date_parse before rows next)
        ≡ row_after before scope rows (lookup scope next)
  unfolding put_read_rows row_after
  lookup-put_read_rows before scope [] next = refl
  lookup-put_read_rows before scope (row ∷ rows) next =
      lookup-put_read_rows before scope rows _
      ∙ ap (row_after before scope rows) (written (row.scope_key == scope) refl)
    where
      taken :
          (b : Bool)
          → b ≡ true
          → (if b
              then some (later_row date_parse row (lookup row.scope_key before))
              else lookup scope next)
            ≡ some (later_row date_parse row (lookup row.scope_key before))
      taken b e = rw e refl

      written_here :
          row.scope_key ≡ scope
          → lookup scope
              (insert row.scope_key (later_row date_parse row (lookup row.scope_key before)) next)
            ≡ some (later_row date_parse row (lookup scope before))
      written_here e =
          lookup-insert row.scope_key scope _ next
          ∙ taken (row.scope_key == scope) (ground (arith, string_eq.reflects row.scope_key scope))
          ∙ (ap (λ k. some (later_row date_parse row (lookup k before))) e)

      written :
          (b : Bool)
          → (row.scope_key == scope) ≡ b
          → lookup scope
              (insert row.scope_key (later_row date_parse row (lookup row.scope_key before)) next)
            ≡ (if b
                then some (later_row date_parse row (lookup scope before))
                else lookup scope next)
      written true e = written_here (ground (arith, string_eq.reflects row.scope_key scope))
      written false e = lookup-insert row.scope_key scope _ next ∙ rw e refl

  -- There is a row, and it was read at the time or later.
  abbrev pub IsSince : ℕ → Option ReadRow → Type 0
  IsSince t none = ⊥
  IsSince t (some row) = (u : ℕ) × (date_parse row.last_read_at ≡ some u) × (t ≤ u)

  later_row-IsSince :
      (row e : ReadRow) (t : ℕ)
      → date_parse e.last_read_at ≡ some t
      → IsSince t (some (later_row date_parse row (some e)))
  unfolding later_row
  later_row-IsSince row e t h = newer (date_parse row.last_read_at) refl
    where
      newer :
          (o : Option ℕ)
          → date_parse row.last_read_at ≡ o
          → IsSince t (
              some (
                if at_least (date_parse row.last_read_at) (date_parse e.last_read_at)
                then row
                else e))
      newer none g = rw g (t, h, omega arith)
      newer (some u) g = elim (Bool-cases (leb t u)) [
        | inl after ↦ rw g (rw h (rw after (u, g, ground (arith, after))))
        | inr before ↦ rw g (rw h (rw before (t, h, omega arith)))
      ]

  row_after-IsSince :
      (before : Dict String ReadRow) (scope : String) (e : ReadRow) (t : ℕ) (rows : List ReadRow)
      (found : Option ReadRow)
      → lookup scope before ≡ some e
      → date_parse e.last_read_at ≡ some t
      → IsSince t found
      → IsSince t (row_after before scope rows found)
  unfolding row_after
  row_after-IsSince before scope e t [] found there h since = since
  row_after-IsSince before scope e t (row ∷ rows) found there h since =
      row_after-IsSince before scope e t rows _ there h (next (row.scope_key == scope))
    where
      next :
          (b : Bool)
          → IsSince t (if b then some (later_row date_parse row (lookup scope before)) else found)
      next true = rw there (later_row-IsSince row e t h)
      next false = since

  abbrev pub names : String → List ReadRow → Bool
  names scope = any (λ row. row.scope_key == scope)

  row_after_named :
      (before : Dict String ReadRow) (scope : String) (e : ReadRow) (t : ℕ) (rows : List ReadRow)
      (found : Option ReadRow)
      → lookup scope before ≡ some e
      → date_parse e.last_read_at ≡ some t
      → names scope rows ≡ true
      → IsSince t (row_after before scope rows found)
  unfolding row_after
  row_after_named before scope e t [] found there h named = ground arith
  row_after_named before scope e t (row ∷ rows) found there h named =
      elim (Bool-cases (row.scope_key == scope)) [
        | inl same ↦ rw same (
            row_after-IsSince before scope e t rows _ there h
              (rw there (later_row-IsSince row e t h)))
        | inr other ↦
            rw other
              (row_after_named before scope e t rows found there h (ground (arith, named, other)))
      ]

  row_after_unnamed :
      (before : Dict String ReadRow) (scope : String) (rows : List ReadRow) (found : Option ReadRow)
      → names scope rows ≡ false
      → row_after before scope rows found ≡ found
  unfolding row_after
  row_after_unnamed before scope [] found unnamed = refl
  row_after_unnamed before scope (row ∷ rows) found unnamed =
      elim (Bool-cases (row.scope_key == scope)) [
        | inl same ↦ ground arith
        | inr other ↦ rw other (row_after_unnamed before scope rows found (ground (arith, other)))
      ]

  -- Whatever rows arrive for a scope that was read up to a time: if they name it, the store has a row for it
  -- that is read up to that time or later, and if they do not, it has none.
  pub set_read_rows-IsSince :
      (rows : List ReadRow) (before : Dict String ReadRow) (scope : String) (e : ReadRow) (t : ℕ)
      → lookup scope before ≡ some e
      → date_parse e.last_read_at ≡ some t
      → ((names scope rows ≡ true)
          × IsSince t (lookup scope (set_read_rows date_parse rows before)))
        ⊎ ((names scope rows ≡ false)
            × (lookup scope (set_read_rows date_parse rows before) ≡ none))
  unfolding set_read_rows lookup
  set_read_rows-IsSince rows before scope e t there h =
      let now = lookup-put_read_rows before scope rows [] in
      elim (Bool-cases (names scope rows)) [
        | inl named ↦ inl (named, rw now (row_after_named before scope e t rows none there h named))
        | inr unnamed ↦ inr (unnamed, now ∙ row_after_unnamed before scope rows none unnamed)
      ]
