-- ===== src/Rail/Drag/Moved.antt =====
-- A list in which one item has moved.
use letschat.Common.{
  ◌≡◌, refl, sym, ap, ◌∙◌, Bool, true, not, ◌||◌, List, [], ◌∷◌, ◌++◌, nat_eq, string_eq, option_eq,
  any, subst, arith,
}
use letschat.Rail.Drag.{FlatItem}
use letschat.Rail.Drag.Sorting.{IsOnce, is_flat_group}

-- One item of the list stands elsewhere, and the others in their order.
pub record IsMoved (xs ys : List FlatItem) : Type 0 where
  pub before : List FlatItem
  pub after : List FlatItem
  pub item : FlatItem
  pub before_then : List FlatItem
  pub after_then : List FlatItem
  pub others : before ++ after ≡ before_then ++ after_then
  pub at_first : xs ≡ before ++ item ∷ after
  pub at_last : ys ≡ before_then ++ item ∷ after_then

any-middle {ℓ} :
    {A : Type ℓ} (p : A → Bool) (before : List A) (x : A) (after : List A)
    → any p (before ++ x ∷ after) ≡ (p x || any p (before ++ after))
any-middle p [] x after = refl
any-middle p (y ∷ before) x after = ground (arith, any-middle p before x after)

pub any-IsMoved :
    (p : FlatItem → Bool) (xs ys : List FlatItem) → IsMoved xs ys → any p xs ≡ any p ys
any-IsMoved p xs ys m =
    ap (any p) m.at_first
    ∙ any-middle p m.before m.item m.after
    ∙ ap (λ l. p m.item || any p l) m.others
    ∙ sym (any-middle p m.before_then m.item m.after_then)
    ∙ ap (any p) (sym m.at_last)

-- An item is alone if no other names its group.
abbrev is_alone : FlatItem → List FlatItem → Bool
is_alone (FlatItem.flat_group g) items = not (any (is_flat_group g) items)
is_alone item items = true

IsOnce-cons :
    (item : FlatItem) (items : List FlatItem)
    → is_alone item items ≡ true
    → IsOnce items
    → IsOnce (item ∷ items)
IsOnce-cons (FlatItem.flat_server n) items h o = o
IsOnce-cons (FlatItem.flat_group g) items h o = (ground arith, o)
IsOnce-cons (FlatItem.flat_member g n) items h o = o

IsOnce-tail :
    (item : FlatItem) (items : List FlatItem)
    → IsOnce (item ∷ items)
    → (is_alone item items ≡ true) × IsOnce items
IsOnce-tail (FlatItem.flat_server n) items o = (refl, o)
IsOnce-tail (FlatItem.flat_group g) items (h, o) = (ground arith, o)
IsOnce-tail (FlatItem.flat_member g n) items o = (refl, o)

is_alone-middle :
    (y : FlatItem) (before : List FlatItem) (x : FlatItem) (after : List FlatItem)
    → is_alone y (before ++ x ∷ after) ≡ is_alone y (x ∷ (before ++ after))
is_alone-middle (FlatItem.flat_server n) before x after = refl
is_alone-middle (FlatItem.flat_group g) before x after =
    ap not (any-middle (is_flat_group g) before x after)
is_alone-middle (FlatItem.flat_member g n) before x after = refl

is_alone-swap :
    (a b : FlatItem) (items : List FlatItem)
    → is_alone a (b ∷ items) ≡ true
    → is_alone b items ≡ true
    → (is_alone b (a ∷ items) ≡ true) × (is_alone a items ≡ true)
is_alone-swap (FlatItem.flat_group g) (FlatItem.flat_group h) items p q =
    ground (arith, string_eq.reflects g h, string_eq.reflects h g)
is_alone-swap (FlatItem.flat_group g) (FlatItem.flat_server n) items p q = (refl, p)
is_alone-swap (FlatItem.flat_group g) (FlatItem.flat_member h n) items p q = (refl, p)
is_alone-swap (FlatItem.flat_server n) (FlatItem.flat_group h) items p q = (q, refl)
is_alone-swap (FlatItem.flat_member g n) (FlatItem.flat_group h) items p q = (q, refl)
is_alone-swap (FlatItem.flat_server n) (FlatItem.flat_server m) items p q = (refl, refl)
is_alone-swap (FlatItem.flat_server n) (FlatItem.flat_member g m) items p q = (refl, refl)
is_alone-swap (FlatItem.flat_member g n) (FlatItem.flat_server m) items p q = (refl, refl)
is_alone-swap (FlatItem.flat_member g n) (FlatItem.flat_member h m) items p q = (refl, refl)

IsOnce-out :
    (before : List FlatItem) (x : FlatItem) (after : List FlatItem)
    → IsOnce (before ++ x ∷ after)
    → (is_alone x (before ++ after) ≡ true) × IsOnce (before ++ after)
IsOnce-out [] x after o = IsOnce-tail x after o
IsOnce-out (y ∷ before) x after o =
    let (apart, rest) = IsOnce-tail y (before ++ x ∷ after) o in
    let (alone, others) = IsOnce-out before x after rest in
    let (p, q) =
      is_alone-swap y x (before ++ after) (sym (is_alone-middle y before x after) ∙ apart) alone in
    (p, IsOnce-cons y (before ++ after) q others)

IsOnce-in :
    (before : List FlatItem) (x : FlatItem) (after : List FlatItem)
    → is_alone x (before ++ after) ≡ true
    → IsOnce (before ++ after)
    → IsOnce (before ++ x ∷ after)
IsOnce-in [] x after alone o = IsOnce-cons x after alone o
IsOnce-in (y ∷ before) x after alone o =
    let (apart, rest) = IsOnce-tail y (before ++ after) o in
    let (p, q) = is_alone-swap x y (before ++ after) alone apart in
    IsOnce-cons y (before ++ x ∷ after) (is_alone-middle y before x after ∙ p)
      (IsOnce-in before x after q rest)

pub IsOnce-IsMoved : (xs ys : List FlatItem) → IsMoved xs ys → IsOnce xs → IsOnce ys
IsOnce-IsMoved xs ys m o =
    let (alone, rest) = IsOnce-out m.before m.item m.after (subst IsOnce m.at_first o) in
    subst IsOnce (sym m.at_last) (
      IsOnce-in m.before_then m.item m.after_then
        (subst (λ l. is_alone m.item l ≡ true) m.others alone) (subst IsOnce m.others rest))
