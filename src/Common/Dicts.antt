-- ===== src/Common/Dicts.antt =====
-- A JavaScript record or `Map` as an association list: `{ ...m, [k]: v }` and `m.set(k, v)` write in
-- place where the key is present, and at the end where it is not.
use mathlib.Core.Path.{◌≡◌, refl}
use mathlib.Core.Option.{Option, none, some}
use mathlib.Core.List.{List, [], ◌∷◌, map}
use native.Mathlib.Omega.{arith}
use letschat.Common.Tests.{Equal, ◌==◌, if◌then◌else◌}

abbrev pub Dict {ℓ κ} : Type ℓ → Type κ → Type (ℓ ⊔ κ)
Dict K V = List (K × V)

abbrev pub keys {ℓ κ} : {K : Type ℓ} {V : Type κ} → Dict K V → List K
keys = map (λ p. p.0)

module _ {ℓ κ} {K : Type ℓ} {V : Type κ} ⦃e : Equal K⦄ where
  unfoldable pub delete : K → Dict K V → Dict K V
  delete key [] = []
  delete key ((here, value) ∷ rest) =
      if here == key then delete key rest else (here, value) ∷ delete key rest

  unfoldable pub insert : K → V → Dict K V → Dict K V
  insert key new [] = (key, new) ∷ []
  insert key new ((here, value) ∷ rest) =
      if here == key then (key, new) ∷ rest else (here, value) ∷ insert key new rest

  unfoldable pub lookup : K → Dict K V → Option V
  lookup key [] = none
  lookup key ((here, value) ∷ rest) = if here == key then some value else lookup key rest

  pub lookup-insert :
      (key other : K) (new : V) (dict : Dict K V)
      → lookup other (insert key new dict) ≡ (if key == other then some new else lookup other dict)
  unfolding lookup insert
  lookup-insert key other new [] = refl
  lookup-insert key other new ((here, value) ∷ rest) = ground (
    arith,
    lookup-insert key other new rest,
    e.reflects here key,
    e.reflects here other,
    e.reflects key other,
  )

  pub lookup-insert_self : (k : K) (v : V) (m : Dict K V) → lookup k (insert k v m) ≡ some v
  lookup-insert_self k v m = ground (arith, lookup-insert k k v m, e.reflects k k)

  pub lookup-delete :
      (k j : K) (m : Dict K V) → lookup j (delete k m) ≡ (if k == j then none else lookup j m)
  unfolding lookup delete
  lookup-delete k j [] = ground arith
  lookup-delete k j ((i, w) ∷ m) =
      ground (arith, e.reflects k j, e.reflects i k, e.reflects i j, lookup-delete k j m)
