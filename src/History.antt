-- ===== src/History.antt =====
-- The history of one conversation, as src/stores/messagesStore.ts and src/stores/dmStore.ts keep it:
-- rows with an id and a time, a live window, and older pages merged below it. Both stores declare the
-- same functions over their own row type; here they take the row's `id` and `sent_at`.
-- `locale_compare` is `String.prototype.localeCompare` of the host, a parameter.
pub mod Merge
pub mod Order
use Prim.Native.Nat.{Ordering}
use letschat.Common.{
  ℕ, String, ◌≡◌, refl, Bool, true, false, Option, none, some, List, [], ◌∷◌, ◌++◌, map, arith,
  Dict, insert, sort, if◌then◌else◌, ◌==◌, find, nat_eq,
}

-- The first of two results that may be missing.
abbrev pub first_some {ℓ} : {A : Type ℓ} → Option A → Option A → Option A
first_some none b = b
first_some (some a) b = some a

abbrev pub LocaleCompare : Type 0
LocaleCompare = String → String → Ordering

-- `a.localeCompare(b) <= 0`
abbrev pub at_most : Ordering → Bool
at_most Ordering.gt = false
at_most _ = true

module _ {A : Type 0} (id : A → ℕ) where
  -- `for (const message of rows) byId.set(message.id, message)`
  unfoldable pub set_all : List A → Dict ℕ A → Dict ℕ A
  set_all [] m = m
  set_all (x ∷ xs) m = set_all xs (insert (id x) x m)

  -- `rows.find((row) => row.id === i)`
  abbrev pub find_id : ℕ → List A → Option A
  find_id i = find (λ x. id x == i)

  -- The row that the last write under the id `i` leaves.
  abbrev pub last_with : ℕ → List A → Option A → Option A
  last_with i [] before = before
  last_with i (x ∷ xs) before = last_with i xs (if id x == i then some x else before)

  -- `next[idx] = message` at the first row with the message's id, and `[...prev, message]` if none has.
  unfoldable pub upsert : A → List A → List A
  upsert x [] = x ∷ []
  upsert x (y ∷ ys) = if id y == id x then x ∷ ys else y ∷ upsert x ys

  -- No two rows have one id.
  abbrev pub IsDistinct : List A → Type 0
  IsDistinct [] = Unit
  IsDistinct (x ∷ xs) = (find_id (id x) xs ≡ none) × IsDistinct xs

module _ (locale_compare : LocaleCompare) {A : Type 0} (sent_at : A → String) where
  -- `(a, b) => a.sentAt.localeCompare(b.sentAt)`
  abbrev pub by_time : A → A → Bool
  by_time a b = at_most (locale_compare (sent_at a) (sent_at b))

module _ (locale_compare : LocaleCompare) {A : Type 0} (id : A → ℕ) (sent_at : A → String) where
  unfoldable pub merge_history : List A → List A → List A
  merge_history [] live = live
  merge_history (x ∷ xs) live =
      sort (by_time locale_compare sent_at)
        (map (λ p. p.1) (set_all id live (set_all id (x ∷ xs) [])))
