-- ===== src/Rail/Drag/Grouping.antt =====
-- A drop that groups servers leaves the servers that the rail shows.
use letschat.Common.{
  ℕ, String, ◌≡◌, refl, ◌∙◌, Bool, true, false, not, Bool-cases, inl, inr, Option, none, some,
  lookup, lookup-insert, lookup-delete, ◌==◌, nat_eq, string_eq, filter, any, is_some, arith,
}
use letschat.Rail.{ServerGroup, RailState, is_group, add_to_group, remove_from_group, remove_from}
use letschat.Rail.Shown.{is_shown, IsPlaced}
use letschat.Rail.Moves.{shown-remove_from_group, shown-add_to_group, shown-create_group}
use letschat.Rail.Placed.{remove_from_group-IsPlaced}
use letschat.Rail.Drag.{FlatItem, group_with, drop_to_group}

-- A server that the rail shows, or a group that there is.
abbrev pub IsTarget : RailState → FlatItem → Type 0
IsTarget s (FlatItem.flat_server t) = is_shown t s ≡ true
IsTarget s (FlatItem.flat_group g) = is_some (lookup g s.groups) ≡ true
IsTarget s (FlatItem.flat_member g n) = is_some (lookup g s.groups) ≡ true

-- The dragged server is shown.
abbrev pub IsDragged : RailState → FlatItem → Type 0
IsDragged s (FlatItem.flat_server n) = is_shown n s ≡ true
IsDragged s (FlatItem.flat_group g) = Unit
IsDragged s (FlatItem.flat_member g n) = is_shown n s ≡ true

-- A member of a group is not dropped on the group itself; `railDropTarget` sees to that.
abbrev pub is_same_group : FlatItem → FlatItem → Bool
is_same_group (FlatItem.flat_member g n) (FlatItem.flat_group h) = g == h
is_same_group (FlatItem.flat_member g n) (FlatItem.flat_member h m) = g == h
is_same_group active over = false

add_to_group-kept :
    (n : ℕ) (g : String) (s : RailState) (k : ℕ)
    → IsPlaced s
    → is_some (lookup g s.groups) ≡ true
    → is_shown n s ≡ true
    → is_shown k (add_to_group n g s) ≡ is_shown k s
add_to_group-kept n g s k placed there here = added (lookup g s.groups) refl
  where
    added :
        (o : Option ServerGroup)
        → lookup g s.groups ≡ o
        → is_shown k (add_to_group n g s) ≡ is_shown k s
    added none e = ground arith
    added (some group) e =
        ground (arith, shown-add_to_group n g group s k e (placed g there), nat_eq.reflects n k)

shown-group_with :
    (id : String) (n : ℕ) (over : FlatItem) (s : RailState) (k : ℕ)
    → lookup id s.groups ≡ none
    → IsPlaced s
    → IsTarget s over
    → is_shown n s ≡ true
    → is_shown k (group_with id n over s) ≡ is_shown k s
unfolding group_with
shown-group_with id n (FlatItem.flat_server t) s k fresh placed target here =
    ground (arith, shown-create_group id n t s k fresh, nat_eq.reflects n k, nat_eq.reflects t k)
shown-group_with id n (FlatItem.flat_group g) s k fresh placed target here =
    add_to_group-kept n g s k placed target here
shown-group_with id n (FlatItem.flat_member g m) s k fresh placed target here =
    add_to_group-kept n g s k placed target here

lookup-remove_from_group :
    (n : ℕ) (g j : String) (s : RailState)
    → (g == j) ≡ false
    → lookup j (remove_from_group n g s).groups ≡ lookup j s.groups
unfolding remove_from_group remove_from
lookup-remove_from_group n g j s other = removed (lookup g s.groups)
  where
    removed : (o : Option ServerGroup) → lookup j (remove_from n g o s).groups ≡ lookup j s.groups
    removed none = refl
    removed (some group) = ground (
      arith,
      lookup-insert g j (record group { server_ids = filter (λ m. not (m == n)) group.server_ids })
          s.groups,
      lookup-delete g j s.groups,
    )

remove_from_group-missing :
    (n : ℕ) (g : String) (s : RailState) → lookup g s.groups ≡ none → remove_from_group n g s ≡ s
unfolding remove_from_group remove_from
remove_from_group-missing n g s e = rw e refl

still_fresh :
    (n : ℕ) (g id : String) (s : RailState)
    → lookup id s.groups ≡ none
    → lookup id (remove_from_group n g s).groups ≡ none
still_fresh n g id s fresh = elim (Bool-cases (g == id)) [
  | inl same ↦ ground (arith, string_eq.reflects g id, remove_from_group-missing n g s)
  | inr other ↦ lookup-remove_from_group n g id s other ∙ fresh
]

remove_from_group-IsTarget :
    (n : ℕ) (g : String) (over : FlatItem) (s : RailState)
    → IsPlaced s
    → any (is_group g) s.order ≡ true
    → is_same_group (FlatItem.flat_member g n) over ≡ false
    → IsTarget s over
    → IsTarget (remove_from_group n g s) over
remove_from_group-IsTarget n g (FlatItem.flat_server t) s placed here other target =
    shown-remove_from_group n g s t here ∙ target
remove_from_group-IsTarget n g (FlatItem.flat_group h) s placed here other target =
    rw (lookup-remove_from_group n g h s other) target
remove_from_group-IsTarget n g (FlatItem.flat_member h m) s placed here other target =
    rw (lookup-remove_from_group n g h s other) target

-- A drop that groups servers changes none of the servers that the rail shows: neither the dragged server
-- nor what is left of the group that it comes from is lost, nor is anything shown that was not. It is given
-- that the id of the new group is free, that every group stands in the order, that the dragged server is
-- shown, that the target is a shown server or a group that there is, and that it is not the group the server
-- comes from.
pub shown-drop_to_group :
    (id : String) (active over : FlatItem) (s : RailState) (k : ℕ)
    → lookup id s.groups ≡ none
    → IsPlaced s
    → IsDragged s active
    → IsTarget s over
    → is_same_group active over ≡ false
    → is_shown k (drop_to_group id active over s) ≡ is_shown k s
unfolding drop_to_group
shown-drop_to_group id (FlatItem.flat_server n) over s k fresh placed dragged target other =
    shown-group_with id n over s k fresh placed target dragged
shown-drop_to_group id (FlatItem.flat_group g) over s k fresh placed dragged target other = refl
shown-drop_to_group id (FlatItem.flat_member g n) over s k fresh placed dragged target other =
    out (lookup g s.groups) refl
  where
    out :
        (o : Option ServerGroup)
        → lookup g s.groups ≡ o
        → is_shown k (group_with id n over (remove_from_group n g s)) ≡ is_shown k s
    out none e =
        rw (remove_from_group-missing n g s e)
          (shown-group_with id n over s k fresh placed target dragged)
    out (some group) e =
        let here = placed g (ground arith) in
        shown-group_with id n over (remove_from_group n g s) k (still_fresh n g id s fresh)
          (remove_from_group-IsPlaced n g s placed)
          (remove_from_group-IsTarget n g over s placed here other target)
          (shown-remove_from_group n g s n here ∙ dragged)
        ∙ shown-remove_from_group n g s k here
