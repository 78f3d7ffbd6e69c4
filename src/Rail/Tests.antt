-- ===== src/Rail/Tests.antt =====
-- The rail on concrete servers, after the tests of the store and of the drop target.
use letschat.Common.{
  ℕ, zero, suc, ◌<◌, ◌≤◌, ◌≡◌, refl, sym, ap, true, false, none, List, [], ◌∷◌, ◌++◌, lookup,
  insert, delete, nat_eq, string_eq, length, arith,
}
use letschat.Rail.{
  ServerGroup, RailState, server, group, sync_servers, create_group, remove_from_group, known_ids,
}
use letschat.Rail.Shown.{is_shown, IsPlaced}
use letschat.Rail.Placed.{RailAction, run, empty_rail, shown-sync-run}
use letschat.Rail.Drag.{FlatItem, drop_to_group, drop_to_sort}
use letschat.Rail.Drag.Grouping.{shown-drop_to_group}
use letschat.Rail.Drag.Moved.{IsMoved}
use letschat.Rail.Drag.Moving.{shown-drop_to_sort}

abbrev friends : ServerGroup
friends = record { id = "g"; label = "Friends"; server_ids = 1 ∷ 2 ∷ 3 ∷ []; collapsed = false }

abbrev rail : RailState
rail = record { order = group "g" ∷ server 4 ∷ []; groups = ("g", friends) ∷ [] }

leaves_in_place :
    (remove_from_group 2 "g" (remove_from_group 1 "g" rail)).order
    ≡ server 3 ∷ server 2 ∷ server 1 ∷ server 4 ∷ []
unfolding remove_from_group lookup insert delete
leaves_in_place = refl

groups_in_place :
    (create_group "h" 4 2
      (record { order = server 1 ∷ server 2 ∷ server 3 ∷ server 4 ∷ []; groups = [] })).order
    ≡ server 1 ∷ group "h" ∷ server 3 ∷ []
unfolding create_group
groups_in_place = refl

shown-sync-run_example :
    is_shown 2 (
      sync_servers
        (2 ∷ 5 ∷ [])
        (run (RailAction.syncs (1 ∷ 2 ∷ 3 ∷ []) ∷ RailAction.creates "h" 1 2 ∷ []) empty_rail))
    ≡ true
shown-sync-run_example =
    shown-sync-run (RailAction.syncs (1 ∷ 2 ∷ 3 ∷ []) ∷ RailAction.creates "h" 1 2 ∷ [])
      (2 ∷ 5 ∷ []) 2

rail-IsPlaced : IsPlaced rail
unfolding lookup
rail-IsPlaced id h = ground (arith, string_eq.reflects "g" id)

shown-drop_to_group_example :
    is_shown 2 (drop_to_group "h" (FlatItem.flat_member "g" 1) (FlatItem.flat_server 4) rail)
    ≡ is_shown 2 rail
unfolding lookup known_ids
shown-drop_to_group_example =
    shown-drop_to_group "h" (FlatItem.flat_member "g" 1) (FlatItem.flat_server 4) rail 2 refl
      rail-IsPlaced refl refl refl

-- A move of one item: out at one index, in at another.
abbrev split {ℓ} : {A : Type ℓ} → ℕ → List A → List A × List A
split zero items = ([], items)
split (suc i) [] = ([], [])
split (suc i) (x ∷ items) = let (a, b) = split i items in (x ∷ a, b)

split-append {ℓ} :
    {A : Type ℓ} (i : ℕ) (items : List A) → (split i items).0 ++ (split i items).1 ≡ items
split-append zero items = refl
split-append (suc i) [] = refl
split-append (suc i) (x ∷ items) = ap (λ l. x ∷ l) (split-append i items)

split-nonempty {ℓ} :
    {A : Type ℓ} (i : ℕ) (items : List A) → (split i items).1 ≡ [] → length items ≤ i
split-nonempty zero [] h = omega arith
split-nonempty zero (x ∷ items) h = cc
split-nonempty (suc i) [] h = omega arith
split-nonempty (suc i) (x ∷ items) h = omega (arith, split-nonempty i items h)

abbrev put_back {ℓ} : {A : Type ℓ} → ℕ → List A → List A → List A
put_back j before [] = before
put_back j before (x ∷ after) = (split j (before ++ after)).0 ++ x ∷ (split j (before ++ after)).1

abbrev array_move {ℓ} : {A : Type ℓ} → List A → ℕ → ℕ → List A
array_move items i j = put_back j (split i items).0 (split i items).1

array_move-IsMoved :
    (items : List FlatItem) (i j : ℕ)
    → i < length items
    → j < length items
    → IsMoved items (array_move items i j)
array_move-IsMoved items i j h g =
    moved (split i items).0 (split i items).1 (split-append i items) (split-nonempty i items)
  where
    moved :
        (before after : List FlatItem)
        → before ++ after ≡ items
        → (after ≡ [] → length items ≤ i)
        → IsMoved items (put_back j before after)
    moved before [] e none_left = absurd (omega (arith, none_left refl, h))
    moved before (x ∷ after) e none_left = record {
      before = before;
      after = after;
      item = x;
      before_then = (split j (before ++ after)).0;
      after_then = (split j (before ++ after)).1;
      others = sym (split-append j (before ++ after));
      at_first = sym e;
      at_last = refl;
    }

shown-drop_to_sort_example :
    is_shown 3 (
      drop_to_sort array_move none (FlatItem.flat_member "g" 1) (FlatItem.flat_server 4) false rail)
    ≡ is_shown 3 rail
unfolding lookup
shown-drop_to_sort_example =
    shown-drop_to_sort array_move none (FlatItem.flat_member "g" 1) (FlatItem.flat_server 4) false
      rail 3 array_move-IsMoved (refl, tt) (refl, tt)
