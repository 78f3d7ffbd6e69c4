-- ===== src/Rail/Drag.antt =====
-- Dragging on the rail, `buildFlatIds`, `flatToHierarchical` and the end of a drag of
-- src/layouts/app-layout/AppRail.tsx. The texts "s:…", "g:…" and "sg:…:…" that name the items are a data type.
pub mod Grouping
pub mod Sorting
pub mod Settled
pub mod Moved
pub mod Moving
use letschat.Common.{
  ℕ, suc, ◌+◌, ◌-◌, ◌<◌, String, Bool, true, false, not, ◌&&◌, ◌||◌, Option, none, some, List, [],
  ◌∷◌, ◌++◌, map, Dict, lookup, insert, or_else, if◌then◌else◌, ◌==◌, Equal, nat_eq, string_eq,
  option_eq, any, length, ltb,
}
use letschat.Rail.{
  ServerGroup, RailItem, RailState, is_group, ids_at, create_group, add_to_group, remove_from_group,
  put_in_place, as_servers,
}

pub data FlatItem : Type 0 where
  flat_server : ℕ → FlatItem
  flat_group : String → FlatItem
  flat_member : String → ℕ → FlatItem

-- The branch `target.intent === 'group'` of `handleDragEnd`, once the dragged server is out of its group;
-- `id` is that of a new group.
unfoldable pub group_with : String → ℕ → FlatItem → RailState → RailState
group_with id server_id (FlatItem.flat_server target) s = create_group id server_id target s
group_with id server_id (FlatItem.flat_group g) s = add_to_group server_id g s
group_with id server_id (FlatItem.flat_member g m) s = add_to_group server_id g s

unfoldable pub drop_to_group : String → FlatItem → FlatItem → RailState → RailState
unfolding group_with
drop_to_group id (FlatItem.flat_server n) over s = group_with id n over s
drop_to_group id (FlatItem.flat_group g) over s = s
drop_to_group id (FlatItem.flat_member g n) over s = group_with id n over (remove_from_group n g s)

-- `buildFlatIds`
unfoldable pub build_flat_ids :
    List RailItem → Dict String ServerGroup → (String → Bool) → List FlatItem
build_flat_ids [] groups expanded = []
build_flat_ids (RailItem.server n ∷ order) groups expanded =
    FlatItem.flat_server n ∷ build_flat_ids order groups expanded
build_flat_ids (RailItem.group g ∷ order) groups expanded =
    FlatItem.flat_group g
    ∷ ((if expanded g then map (λ n. FlatItem.flat_member g n) (ids_at g groups) else [])
        ++ build_flat_ids order groups expanded)

-- The variables of the first loop of `flatToHierarchical`.
pub record Scan : Type 0 where
  pub order : List RailItem
  pub members : Dict String (List ℕ)
  pub current : Option String

unfoldable pub scan_item : (String → Bool) → FlatItem → Scan → Scan
scan_item expanded (FlatItem.flat_server n) s = record s {
  order = s.order ++ RailItem.server n ∷ [];
  current = none;
}
scan_item expanded (FlatItem.flat_group g) s = record {
  order = s.order ++ RailItem.group g ∷ [];
  members = if expanded g then insert g [] s.members else s.members;
  current = some g;
}
scan_item expanded (FlatItem.flat_member g n) s =
    if s.current == some g && expanded g
    then record s { members = insert g (or_else (lookup g s.members) [] ++ n ∷ []) s.members }
    else record s { order = s.order ++ RailItem.server n ∷ []; current = none }

unfoldable pub scan : (String → Bool) → List FlatItem → Scan → Scan
unfolding scan_item
scan expanded [] s = s
scan expanded (item ∷ items) s = scan expanded items (scan_item expanded item s)

-- One round of the second loop, for a group with the servers that the first loop found for it.
unfoldable pub settle : String → ServerGroup → Option (List ℕ) → RailState → RailState
settle id g none r = record r { groups = insert id g r.groups }
settle id g (some []) r = record r { order = put_in_place id [] r.order }
settle id g (some (n ∷ [])) r = record r {
  order = put_in_place id (RailItem.server n ∷ []) r.order;
}
settle id g (some (n ∷ (m ∷ ids))) r = record r {
  groups = insert id (record g { server_ids = n ∷ m ∷ ids }) r.groups;
}

unfoldable pub settle_all : Dict String (List ℕ) → Dict String ServerGroup → RailState → RailState
unfolding settle
settle_all members [] r = r
settle_all members ((id, g) ∷ existing) r =
    settle_all members existing
      (if any (is_group id) r.order then settle id g (lookup id members) r else r)

unfoldable pub flat_to_hierarchical :
    List FlatItem → Dict String ServerGroup → (String → Bool) → RailState
unfolding scan settle_all
flat_to_hierarchical items existing expanded =
    let s = scan expanded items (record { order = []; members = []; current = none }) in
    settle_all s.members existing (record { order = s.order; groups = [] })

unfoldable pub flat_beq : FlatItem → FlatItem → Bool
flat_beq (FlatItem.flat_server n) (FlatItem.flat_server m) = n == m
flat_beq (FlatItem.flat_group g) (FlatItem.flat_group h) = g == h
flat_beq (FlatItem.flat_member g n) (FlatItem.flat_member h m) = g == h && n == m
flat_beq _ _ = false

abbrev pub shifted : Option ℕ → Option ℕ
shifted none = none
shifted (some i) = some (i + 1)

-- `indexOf`, none for -1
unfoldable pub index_of : FlatItem → List FlatItem → Option ℕ
unfolding flat_beq
index_of item [] = none
index_of item (here ∷ items) =
    let later = index_of item items in if flat_beq here item then some 0 else shifted later

-- `expandedGroupIds`, where `folded` is the group that a drag of it folds for a while.
abbrev pub is_expanded_group : Option String → String → Option ServerGroup → Bool
is_expanded_group folded g none = false
is_expanded_group folded g (some group) = not group.collapsed && not (folded == some g)

abbrev pub expanded_in : Option String → Dict String ServerGroup → String → Bool
expanded_in folded groups g = is_expanded_group folded g (lookup g groups)

unfoldable pub new_index : Bool → ℕ → ℕ → ℕ
new_index insert_before old over =
    if insert_before
    then (if ltb old over then over - 1 else over)
    else (if ltb over old then over + 1 else over)

-- The rest of `handleDragEnd`. `array_move` is that of the drag library.
module _ (array_move : List FlatItem → ℕ → ℕ → List FlatItem) where
  unfoldable pub move_to :
      Bool → Option ℕ → Option ℕ → List FlatItem → (String → Bool) → RailState → RailState
  unfolding new_index flat_to_hierarchical
  move_to insert_before (some old) (some over) flat expanded s =
      if old == over || new_index insert_before old over == old
      then s
      else flat_to_hierarchical (array_move flat old (new_index insert_before old over)) s.groups
          expanded
  move_to insert_before _ _ flat expanded s = s

  unfoldable pub drop_to_sort : Option String → FlatItem → FlatItem → Bool → RailState → RailState
  unfolding move_to build_flat_ids index_of
  drop_to_sort folded active over insert_before s =
      let expanded = expanded_in folded s.groups in
      let flat = build_flat_ids s.order s.groups expanded in
      move_to insert_before (index_of active flat) (index_of over flat) flat expanded s
