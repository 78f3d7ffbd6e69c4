-- ===== src/Common/Lists.antt =====
-- Lists measured by native numbers, with Boolean filters, searches and predicates.
use Prim.Native.Nat.{ℕ, zero, suc, ◌+◌, ◌-◌, ◌≤◌}
use mathlib.Core.Path.{◌≡◌, refl, ap, sym, ◌∙◌, subst}
use mathlib.Core.Bool.{Bool, true, false, ◌&&◌, ◌||◌}
use mathlib.Core.Option.{Option, none, some, some-injective}
use mathlib.Core.List.{List, [], ◌∷◌, ◌++◌, reverse, reverse-cons}
use native.Mathlib.Omega.{arith}
use letschat.Common.Tests.{Equal, ◌==◌, if◌then◌else◌}

module _ {ℓ} {A : Type ℓ} where
  abbrev pub length : List A → ℕ
  length [] = 0
  length (x ∷ xs) = suc (length xs)

  abbrev pub filter : (A → Bool) → List A → List A
  filter p [] = []
  filter p (x ∷ xs) = if p x then x ∷ filter p xs else filter p xs

  abbrev pub any : (A → Bool) → List A → Bool
  any p [] = false
  any p (x ∷ xs) = p x || any p xs

  abbrev pub find : (A → Bool) → List A → Option A
  find p [] = none
  find p (x ∷ xs) = if p x then some x else find p xs

  abbrev pub All {κ} : (A → Type κ) → List A → Type κ
  All P [] = Unit
  All P (x ∷ xs) = P x × All P xs

  abbrev pub get_elem? : List A → ℕ → Option A
  get_elem? [] i = none
  get_elem? (x ∷ xs) zero = some x
  get_elem? (x ∷ xs) (suc i) = get_elem? xs i

  pub get_elem?-append :
      (n : ℕ) (xs ys : List A)
      → length xs ≤ n
      → get_elem? (xs ++ ys) n ≡ get_elem? ys (n - length xs)
  get_elem?-append n [] ys h = ap (get_elem? ys) (omega arith)
  get_elem?-append zero (x ∷ xs) ys h = absurd (omega arith)
  get_elem?-append (suc n) (x ∷ xs) ys h =
      get_elem?-append n xs ys (omega arith) ∙ ap (get_elem? ys) (omega arith)

  pub All-get_elem? {κ} :
      (P : A → Type κ) (xs : List A) (n : ℕ) {x : A} → All P xs → get_elem? xs n ≡ some x → P x
  All-get_elem? P [] n h e = cc
  All-get_elem? P (y ∷ ys) zero (p, ps) e = subst P (some-injective _ _ e) p
  All-get_elem? P (y ∷ ys) (suc n) (p, ps) e = All-get_elem? P ys n ps e

  pub All-append {κ} : (P : A → Type κ) (xs ys : List A) → All P xs → All P ys → All P (xs ++ ys)
  All-append P [] ys h k = k
  All-append P (x ∷ xs) ys (p, ps) k = (p, All-append P xs ys ps k)

  pub All-map {κ κ'} :
      (P : A → Type κ) (Q : A → Type κ')
      → ((a : A) → P a → Q a)
      → (xs : List A) → All P xs
      → All Q xs
  All-map P Q f [] h = tt
  All-map P Q f (x ∷ xs) (p, ps) = (f x p, All-map P Q f xs ps)

  pub length-append : (xs ys : List A) → length (xs ++ ys) ≡ length xs + length ys
  length-append [] ys = omega arith
  length-append (x ∷ xs) ys = omega (arith, length-append xs ys)

  -- The library's `reverse` keeps the length and what holds of all.
  pub length-reverse : (xs : List A) → length (reverse xs) ≡ length xs
  length-reverse [] = refl
  length-reverse (x ∷ xs) =
      omega (
        arith,
        ap length (reverse-cons x xs),
        length-append (reverse xs) (x ∷ []),
        length-reverse xs,
      )

  pub All-reverse {κ} : (P : A → Type κ) (xs : List A) → All P xs → All P (reverse xs)
  All-reverse P [] h = tt
  All-reverse P (x ∷ xs) (p, ps) =
      subst (All P) (sym (reverse-cons x xs))
        (All-append P (reverse xs) (x ∷ []) (All-reverse P xs ps) (p, tt))

abbrev pub includes {ℓ} : {A : Type ℓ} ⦃e : Equal A⦄ → A → List A → Bool
includes a [] = false
includes a (x ∷ xs) = x == a || includes a xs

-- The row-by-row comparison of two arrays that each store makes before it writes. (`a === b` is the
-- case of one array compared with itself, which the comparison of its rows accepts.)
unfoldable pub rows_equal {ℓ} : {A : Type ℓ} → (A → A → Bool) → List A → List A → Bool
rows_equal same [] [] = true
rows_equal same (x ∷ xs) (y ∷ ys) = same x y && rows_equal same xs ys
rows_equal same _ _ = false

pub eq_of_rows_equal {ℓ} :
    {A : Type ℓ} (same : A → A → Bool)
    → ((a b : A) → same a b ≡ true → a ≡ b)
    → (xs ys : List A) → rows_equal same xs ys ≡ true
    → xs ≡ ys
unfolding rows_equal
eq_of_rows_equal same sound [] [] h = refl
eq_of_rows_equal same sound (x ∷ xs) (y ∷ ys) h =
    ground (arith, sound x y, eq_of_rows_equal same sound xs ys)
eq_of_rows_equal same sound [] (y ∷ ys) h = cc
eq_of_rows_equal same sound (x ∷ xs) [] h = cc

pub rows_equal_refl {ℓ} :
    {A : Type ℓ} (same : A → A → Bool)
    → ((a : A) → same a a ≡ true)
    → (xs : List A) → rows_equal same xs xs ≡ true
unfolding rows_equal
rows_equal_refl same r [] = refl
rows_equal_refl same r (x ∷ xs) = ground (arith, r x, rows_equal_refl same r xs)

pub any-append {ℓ} :
    {A : Type ℓ} (p : A → Bool) (xs ys : List A) → any p (xs ++ ys) ≡ (any p xs || any p ys)
any-append p [] ys = refl
any-append p (x ∷ xs) ys = ground (arith, any-append p xs ys)
