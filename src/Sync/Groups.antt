-- ===== src/Sync/Groups.antt =====
-- What a rebuild by groups leaves under each key: the rows of that key, in the order that the store
-- keeps, and nothing under a key without rows.
use mathlib.Core.List.{append_assoc}
use letschat.Common.{
  ◌≡◌, refl, sym, ap, ◌∙◌, Bool, false, Option, none, some, List, [], ◌∷◌, ◌++◌, Dict, keys, lookup,
  insert, lookup-insert, or_else, filter, includes, if◌then◌else◌, ◌==◌, Equal, is_some, arith, inl,
  inr, Bool-cases, eq_of_beq,
}
use letschat.Sync.{group_rows, empty_missing, write_groups, sync_groups}

-- The rows of one key, in their order.
abbrev pub rows_with {ℓ} : {K : Type ℓ} {A : Type 0} ⦃e : Equal K⦄ → (A → K) → K → List A → List A
rows_with key k = filter (λ row. key row == k)

module _ {ℓ} {K : Type ℓ} {A : Type 0} ⦃e : Equal K⦄ (key : A → K) where
  -- `lookup` of a group, where no group is none.
  abbrev extend : List A → Option (List A) → Option (List A)
  extend [] o = o
  extend (x ∷ xs) none = some (x ∷ xs)
  extend (x ∷ xs) (some ys) = some (ys ++ x ∷ xs)

  extend-cons :
      (x : A) (xs : List A) (o : Option (List A))
      → extend xs (some (or_else o [] ++ x ∷ [])) ≡ extend (x ∷ xs) o
  extend-cons x [] none = refl
  extend-cons x [] (some ys) = refl
  extend-cons x (y ∷ xs) none = refl
  extend-cons x (y ∷ xs) (some ys) = ap some (append_assoc ys (x ∷ []) (y ∷ xs))

  lookup-group_rows :
      (k : K) (rows : List A) (grouped : Dict K (List A))
      → lookup k (group_rows key rows grouped) ≡ extend (rows_with key k rows) (lookup k grouped)
  unfolding group_rows
  lookup-group_rows k [] grouped = refl
  lookup-group_rows k (row ∷ rows) grouped =
      let old : List A = or_else (lookup (key row) grouped) [] in
      elim (Bool-cases (key row == k)) [
        | inl same ↦ rw same (
            lookup-group_rows k rows (insert (key row) (old ++ row ∷ []) grouped)
            ∙ ap (extend (rows_with key k rows)) (
                lookup-insert (key row) k (old ++ row ∷ []) grouped
                ∙ ap (λ b. if b then some (old ++ row ∷ []) else lookup k grouped) same
                ∙ ap (λ x. some (or_else (lookup x grouped) [] ++ row ∷ []))
                    (eq_of_beq (key row) k same))
            ∙ extend-cons row (rows_with key k rows) (lookup k grouped))
        | inr other ↦ rw other (
            lookup-group_rows k rows (insert (key row) (old ++ row ∷ []) grouped)
            ∙ ap (extend (rows_with key k rows)) (
                lookup-insert (key row) k (old ++ row ∷ []) grouped
                ∙ ap (λ b. if b then some (old ++ row ∷ []) else lookup k grouped) other))
      ]

-- No key stands twice in a dictionary.
abbrev pub IsUnique {ℓ} : {K : Type ℓ} {V : Type 0} ⦃e : Equal K⦄ → Dict K V → Type 0
IsUnique [] = Unit
IsUnique ((k, v) ∷ m) = (lookup k m ≡ none) × IsUnique m

module _ {ℓ} {K : Type ℓ} {V : Type 0} ⦃e : Equal K⦄ where
  insert-IsUnique : (k : K) (v : V) (m : Dict K V) → IsUnique m → IsUnique (insert k v m)
  unfolding insert lookup
  insert-IsUnique k v [] u = (refl, tt)
  insert-IsUnique k v ((j, w) ∷ m) (d, u) =
      ground (arith, e.reflects j k, e.reflects k j, insert-IsUnique k v m u, lookup-insert k j v m)

  pub lookup_absent : (j : K) (m : Dict K V) → includes j (keys m) ≡ false → lookup j m ≡ none
  unfolding lookup
  lookup_absent j [] h = refl
  lookup_absent j ((k, v) ∷ m) h = ground (arith, lookup_absent j m)

module _ {ℓ} {K : Type ℓ} {A : Type 0} ⦃e : Equal K⦄ (key : A → K) where
  group_rows-IsUnique :
      (rows : List A) (grouped : Dict K (List A))
      → IsUnique grouped
      → IsUnique (group_rows key rows grouped)
  unfolding group_rows
  group_rows-IsUnique [] grouped u = u
  group_rows-IsUnique (row ∷ rows) grouped u =
      group_rows-IsUnique rows _
        (insert-IsUnique (key row) (or_else (lookup (key row) grouped) [] ++ row ∷ []) grouped u)

module _ {ℓ} {K : Type ℓ} {A S B : Type 0} (view : K → S → B) (put : S → K → List A → B) where
  -- What a rebuild leaves: the rows of the key in order if there are any, an empty list under a key
  -- that stood without rows, and the rest.
  abbrev pub rebuilt : (List A → List A) → List A → Bool → K → S → B
  rebuilt arrange [] known j s = if known then put s j [] else view j s
  rebuilt arrange (row ∷ rows) known j s = put s j (arrange (row ∷ rows))

module _ {ℓ} {K : Type ℓ} {A S B : Type 0} ⦃e : Equal K⦄ (set : K → List A → S → S)
    (view : K → S → B) (put : S → K → List A → B)
    (view-set : (k j : K) (rows : List A) (s : S)
      → view j (set k rows s) ≡ (if k == j then put s k rows else view j s))
    (put-set : (k j : K) (rows more : List A) (s : S)
      → put (set k rows s) j more ≡ put s j more) where
  view-empty_missing :
      (grouped : Dict K (List A)) (existing : List K) (j : K) (s : S)
      → view j (empty_missing set grouped existing s) ≡ (
          if is_some (lookup j grouped)
          then view j s
          else if includes j existing
          then put s j []
          else view j s)
  unfolding empty_missing
  view-empty_missing grouped [] j s = ground arith
  view-empty_missing grouped (k ∷ ks) j s = ground (
    arith,
    view-empty_missing grouped ks j s,
    view-empty_missing grouped ks j (set k [] s),
    view-set k j [] s,
    put-set k j [] [] s,
    e.reflects k j,
  )

  put-empty_missing :
      (grouped : Dict K (List A)) (existing : List K) (j : K) (rows : List A) (s : S)
      → put (empty_missing set grouped existing s) j rows ≡ put s j rows
  unfolding empty_missing
  put-empty_missing grouped [] j rows s = refl
  put-empty_missing grouped (k ∷ ks) j rows s = ground (
    arith,
    put-empty_missing grouped ks j rows s,
    put-empty_missing grouped ks j rows (set k [] s),
    put-set k j [] rows s,
  )

  -- What a group leaves in the view of its key.
  abbrev written : (List A → List A) → Option (List A) → K → S → B
  written arrange none j s = view j s
  written arrange (some rows) j s = put s j (arrange rows)

  written-set :
      (arrange : List A → List A) (k j : K) (rows : List A) (o : Option (List A)) (s : S)
      → (k == j) ≡ false
      → written arrange o j (set k rows s) ≡ written arrange o j s
  written-set arrange k j rows none s other =
      view-set k j rows s ∙ ap (λ b. if b then put s k rows else view j s) other
  written-set arrange k j rows (some more) s other = put-set k j rows (arrange more) s

  view-write_groups :
      (arrange : List A → List A) (grouped : Dict K (List A)) (j : K) (s : S)
      → IsUnique grouped
      → view j (write_groups set arrange grouped s) ≡ written arrange (lookup j grouped) j s
  unfolding write_groups lookup
  view-write_groups arrange [] j s u = refl
  view-write_groups arrange ((k, rows) ∷ grouped) j s (d, u) = elim (Bool-cases (k == j)) [
    | inl same ↦ rw same (
        view-write_groups arrange grouped j (set k (arrange rows) s) u
        ∙ ap (λ o. written arrange o j (set k (arrange rows) s))
            (ap (λ x. lookup x grouped) (sym (eq_of_beq k j same)) ∙ d)
        ∙ view-set k j (arrange rows) s
        ∙ ap (λ b. if b then put s k (arrange rows) else view j s) same
        ∙ ap (λ x. put s x (arrange rows)) (eq_of_beq k j same))
    | inr other ↦ rw other (
        view-write_groups arrange grouped j (set k (arrange rows) s) u
        ∙ written-set arrange k j (arrange rows) (lookup j grouped) s other)
  ]

  written-rebuilt :
      (arrange : List A → List A) (key : A → K) (grouped : Dict K (List A)) (existing : List K)
      (j : K) (s : S) (own : List A)
      → lookup j grouped ≡ extend key own none
      → written arrange (lookup j grouped) j (empty_missing set grouped existing s)
        ≡ rebuilt view put arrange own (includes j existing) j s
  written-rebuilt arrange key grouped existing j s [] h =
      ap (λ o. written arrange o j (empty_missing set grouped existing s)) h
      ∙ view-empty_missing grouped existing j s
      ∙ ap
          (λ o.
            if is_some o then view j s else if includes j existing then put s j [] else view j s)
          h
  written-rebuilt arrange key grouped existing j s (row ∷ rows) h =
      ap (λ o. written arrange o j (empty_missing set grouped existing s)) h
      ∙ put-empty_missing grouped existing j (arrange (row ∷ rows)) s

  pub view-sync_groups :
      (arrange : List A → List A) (key : A → K) (existing : List K) (rows : List A) (j : K) (s : S)
      → view j (sync_groups set arrange key existing rows s)
        ≡ rebuilt view put arrange (rows_with key j rows) (includes j existing) j s
  unfolding sync_groups lookup
  view-sync_groups arrange key existing rows j s =
      view-write_groups arrange grouped j (empty_missing set grouped existing s)
        (group_rows-IsUnique key rows [] tt)
      ∙ written-rebuilt arrange key grouped existing j s (rows_with key j rows)
          (lookup-group_rows key j rows [])
    where
      grouped : Dict K (List A)
      grouped = group_rows key rows []
