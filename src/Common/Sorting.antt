-- ===== src/Common/Sorting.antt =====
-- `Array.prototype.sort` with a comparator, which is stable, as insertion sort. `le a b` says that the
-- comparator's result for `a` and `b` is not positive.
use mathlib.Core.Path.{◌≡◌}
use mathlib.Core.Bool.{Bool, true, false}
use mathlib.Core.Logic.{inl, inr}
use mathlib.Core.List.{List, [], ◌∷◌}
use native.Mathlib.Omega.{arith}
use letschat.Common.Tests.{if◌then◌else◌, Bool-cases}
use letschat.Common.Lists.{All}

module _ {ℓ} {A : Type ℓ} (le : A → A → Bool) where
  unfoldable pub insert_sorted : A → List A → List A
  insert_sorted x [] = x ∷ []
  insert_sorted x (y ∷ ys) = if le x y then x ∷ y ∷ ys else y ∷ insert_sorted x ys

  unfoldable pub sort : List A → List A
  unfolding insert_sorted
  sort [] = []
  sort (x ∷ xs) = insert_sorted x (sort xs)

  -- Every row is at most each row after it.
  abbrev pub IsSorted : List A → Type 0
  IsSorted [] = Unit
  IsSorted (x ∷ xs) = All (λ y. le x y ≡ true) xs × IsSorted xs

  -- What the comparator must be for the result of a sort to be in order.
  pub record IsOrder : Type ℓ where
    pub total : (a b : A) → le a b ≡ false → le b a ≡ true
    pub trans : (a b c : A) → le a b ≡ true → le b c ≡ true → le a c ≡ true

  pub All-insert_sorted {κ} :
      (P : A → Type κ) (x : A) (xs : List A) → P x → All P xs → All P (insert_sorted x xs)
  unfolding insert_sorted
  All-insert_sorted P x [] p ps = (p, tt)
  All-insert_sorted P x (y ∷ ys) p (q, ps) = ground (arith, All-insert_sorted P x ys p ps)

  pub All-sort {κ} : (P : A → Type κ) (xs : List A) → All P xs → All P (sort xs)
  unfolding sort
  All-sort P [] h = tt
  All-sort P (x ∷ xs) (p, ps) = All-insert_sorted P x (sort xs) p (All-sort P xs ps)

  All-le_trans :
      IsOrder
      → (x y : A) (ys : List A) → le x y ≡ true
      → All (λ z. le y z ≡ true) ys
      → All (λ z. le x z ≡ true) ys
  All-le_trans o x y [] h k = tt
  All-le_trans o x y (z ∷ zs) h (p, ps) = (o.trans x y z h p, All-le_trans o x y zs h ps)

  insert_sorted-IsSorted :
      IsOrder → (x : A) (xs : List A) → IsSorted xs → IsSorted (insert_sorted x xs)
  unfolding insert_sorted
  insert_sorted-IsSorted o x [] s = (tt, tt)
  insert_sorted-IsSorted o x (y ∷ ys) (h, s) = elim (Bool-cases (le x y)) [
    | inl below ↦ rw below ((below, All-le_trans o x y ys below h), (h, s))
    | inr above ↦ rw above (
      All-insert_sorted (λ z. le y z ≡ true) x ys (o.total x y above) h,
      insert_sorted-IsSorted o x ys s,
    )
  ]

  pub sort-IsSorted : IsOrder → (xs : List A) → IsSorted (sort xs)
  unfolding sort
  sort-IsSorted o [] = tt
  sort-IsSorted o (x ∷ xs) = insert_sorted-IsSorted o x (sort xs) (sort-IsSorted o xs)
