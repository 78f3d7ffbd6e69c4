-- ===== src/History/Merge.antt =====
-- What a merge of older pages with a live window holds: one row for each id, the live one first.
use letschat.Common.{
  ℕ, String, ◌≡◌, refl, sym, ◌∙◌, ap, Bool, Option, none, some, List, [], ◌∷◌, ◌++◌, map, arith,
  Dict, lookup, insert, lookup-insert, sort, insert_sorted, if◌then◌else◌, ◌==◌, nat_eq,
}
use letschat.History.{
  LocaleCompare, set_all, find_id, last_with, first_some, upsert, IsDistinct, merge_history,
}

first_some-none {ℓ} : {A : Type ℓ} (a : Option A) → first_some a none ≡ a
first_some-none none = refl
first_some-none (some x) = refl

module _ {A : Type 0} (id : A → ℕ) where
  find_id-set_all :
      (i : ℕ) (xs : List A) (m : Dict ℕ A)
      → lookup i (set_all id xs m) ≡ last_with id i xs (lookup i m)
  unfolding set_all
  find_id-set_all i [] m = refl
  find_id-set_all i (x ∷ xs) m =
      find_id-set_all i xs (insert (id x) x m) ∙ ap (last_with id i xs) (lookup-insert (id x) i x m)

  -- A dictionary that files every row under its own id, and under no id twice.
  abbrev IsFiled : Dict ℕ A → Type 0
  IsFiled [] = Unit
  IsFiled ((k, x) ∷ m) = (k ≡ id x) × (lookup k m ≡ none) × IsFiled m

  insert-IsFiled : (x : A) (m : Dict ℕ A) → IsFiled m → IsFiled (insert (id x) x m)
  unfolding insert lookup
  insert-IsFiled x [] f = (refl, refl, tt)
  insert-IsFiled x ((k, y) ∷ m) (e, d, f) =
      ground (arith, insert-IsFiled x m f, lookup-insert (id x) k x m)

  set_all-IsFiled : (xs : List A) (m : Dict ℕ A) → IsFiled m → IsFiled (set_all id xs m)
  unfolding set_all
  set_all-IsFiled [] m f = f
  set_all-IsFiled (x ∷ xs) m f = set_all-IsFiled xs (insert (id x) x m) (insert-IsFiled x m f)

  find_id-values : (i : ℕ) (m : Dict ℕ A) → IsFiled m → find_id id i (map (λ p. p.1) m) ≡ lookup i m
  unfolding lookup
  find_id-values i [] f = refl
  find_id-values i ((k, x) ∷ m) (e, d, f) = ground (arith, find_id-values i m f)

  values-IsDistinct : (m : Dict ℕ A) → IsFiled m → IsDistinct id (map (λ p. p.1) m)
  values-IsDistinct [] f = tt
  values-IsDistinct ((k, x) ∷ m) (e, d, f) =
      (find_id-values (id x) m f ∙ ap (λ j. lookup j m) (sym e) ∙ d, values-IsDistinct m f)

  module _ (le : A → A → Bool) where
    find_id-insert_sorted :
        (i : ℕ) (x : A) (xs : List A)
        → find_id id (id x) xs ≡ none
        → find_id id i (insert_sorted le x xs) ≡ (if id x == i then some x else find_id id i xs)
    unfolding insert_sorted
    find_id-insert_sorted i x [] d = refl
    find_id-insert_sorted i x (y ∷ ys) d = ground (arith, find_id-insert_sorted i x ys)

    insert_sorted-IsDistinct :
        (x : A) (xs : List A)
        → find_id id (id x) xs ≡ none
        → IsDistinct id xs
        → IsDistinct id (insert_sorted le x xs)
    unfolding insert_sorted
    insert_sorted-IsDistinct x [] d u = (refl, tt)
    insert_sorted-IsDistinct x (y ∷ ys) d (f, u) =
        ground (arith, insert_sorted-IsDistinct x ys, find_id-insert_sorted (id y) x ys)

    pub find_id-sort :
        (i : ℕ) (xs : List A) → IsDistinct id xs → find_id id i (sort le xs) ≡ find_id id i xs
    unfolding sort
    find_id-sort i [] u = refl
    find_id-sort i (x ∷ xs) (d, u) = ground (
      arith,
      find_id-insert_sorted i x (sort le xs),
      find_id-sort (id x) xs u,
      find_id-sort i xs u,
    )

    pub sort-IsDistinct : (xs : List A) → IsDistinct id xs → IsDistinct id (sort le xs)
    unfolding sort
    sort-IsDistinct [] u = tt
    sort-IsDistinct (x ∷ xs) (d, u) =
        insert_sorted-IsDistinct x (sort le xs) (find_id-sort (id x) xs u ∙ d)
          (sort-IsDistinct xs u)

  last_with_absent :
      (i : ℕ) (xs : List A) (before : Option A)
      → find_id id i xs ≡ none
      → last_with id i xs before ≡ before
  last_with_absent i [] before h = refl
  last_with_absent i (x ∷ xs) before h =
      ground (arith, last_with_absent i xs before, last_with_absent i xs (some x))

  -- In rows with distinct ids the last row with an id is the only one.
  last_with-find_id :
      (i : ℕ) (xs : List A) (before : Option A)
      → IsDistinct id xs
      → last_with id i xs before ≡ first_some (find_id id i xs) before
  last_with-find_id i [] before u = refl
  last_with-find_id i (x ∷ xs) before (d, u) = ground (
    arith,
    last_with_absent i xs (some x),
    last_with-find_id i xs before u,
    last_with-find_id i xs (some x) u,
  )

module _ (locale_compare : LocaleCompare) {A : Type 0} (id : A → ℕ) (sent_at : A → String) where
  pub find_id-merge_history :
      (i : ℕ) (older live : List A)
      → IsDistinct id older
      → IsDistinct id live
      → find_id id i (merge_history locale_compare id sent_at older live)
        ≡ first_some (find_id id i live) (find_id id i older)
  unfolding merge_history lookup
  find_id-merge_history i [] live u v = sym (first_some-none _)
  find_id-merge_history i (x ∷ xs) live u v =
      find_id-sort id _ i _ (values-IsDistinct id _ filed)
      ∙ find_id-values id i _ filed
      ∙ find_id-set_all id i live _
      ∙ ap (last_with id i live) (find_id-set_all id i (x ∷ xs) [] ∙ older_only)
      ∙ last_with-find_id id i live _ v
    where
      filed : IsFiled id (set_all id live (set_all id (x ∷ xs) []))
      filed = set_all-IsFiled id live _ (set_all-IsFiled id (x ∷ xs) [] tt)

      older_only : last_with id i (x ∷ xs) none ≡ find_id id i (x ∷ xs)
      older_only = last_with-find_id id i (x ∷ xs) none u ∙ first_some-none _

  pub merge_history-IsDistinct :
      (older live : List A)
      → IsDistinct id live
      → IsDistinct id (merge_history locale_compare id sent_at older live)
  unfolding merge_history lookup
  merge_history-IsDistinct [] live v = v
  merge_history-IsDistinct (x ∷ xs) live v =
      sort-IsDistinct id _ _
        (values-IsDistinct id _ (set_all-IsFiled id live _ (set_all-IsFiled id (x ∷ xs) [] tt)))

-- `upsert` keeps the ids distinct, and changes what is found under the row's own id only.
module _ {A : Type 0} (id : A → ℕ) where
  pub find_id-upsert :
      (i : ℕ) (x : A) (xs : List A)
      → find_id id i (upsert id x xs) ≡ (if id x == i then some x else find_id id i xs)
  unfolding upsert
  find_id-upsert i x [] = refl
  find_id-upsert i x (y ∷ ys) = ground (arith, find_id-upsert i x ys)

  pub upsert-IsDistinct : (x : A) (xs : List A) → IsDistinct id xs → IsDistinct id (upsert id x xs)
  unfolding upsert
  upsert-IsDistinct x [] u = (refl, tt)
  upsert-IsDistinct x (y ∷ ys) (d, u) =
      ground (arith, upsert-IsDistinct x ys u, find_id-upsert (id y) x ys)

  pub find_id-append_absent :
      (i : ℕ) (x : A) (xs : List A)
      → find_id id (id x) xs ≡ none
      → find_id id i (xs ++ x ∷ []) ≡ (if id x == i then some x else find_id id i xs)
  find_id-append_absent i x [] h = refl
  find_id-append_absent i x (y ∷ ys) h = ground (arith, find_id-append_absent i x ys)

  pub append-IsDistinct :
      (x : A) (xs : List A)
      → find_id id (id x) xs ≡ none
      → IsDistinct id xs
      → IsDistinct id (xs ++ x ∷ [])
  append-IsDistinct x [] h u = (refl, tt)
  append-IsDistinct x (y ∷ ys) h (d, u) =
      ground (arith, append-IsDistinct x ys, find_id-append_absent (id y) x ys)
