-- ===== src/Rail.antt =====
-- The rail of servers, src/stores/serverRailStore.ts: servers and groups of servers in the user's order.
pub mod Shown
pub mod Moves
pub mod Placed
pub mod Drag
mod Tests
use letschat.Common.{
  ℕ, ◌<◌, String, Bool, true, false, not, ◌&&◌, ◌||◌, Option, none, some, List, [], ◌∷◌, ◌++◌, map,
  Dict, lookup, insert, delete, if◌then◌else◌, ◌==◌, Equal, nat_eq, string_eq, filter, includes,
  any, length, ltb,
}

pub record ServerGroup : Type 0 where
  pub id : String
  pub label : String
  pub server_ids : List ℕ
  pub collapsed : Bool

pub data RailItem : Type 0 where
  server : ℕ → RailItem
  group : String → RailItem

pub record RailState : Type 0 where
  pub order : List RailItem
  pub groups : Dict String ServerGroup

abbrev pub is_server : ℕ → RailItem → Bool
is_server id (RailItem.server n) = n == id
is_server id (RailItem.group g) = false

abbrev pub is_group : String → RailItem → Bool
is_group id (RailItem.server n) = false
is_group id (RailItem.group g) = g == id

abbrev pub ids_of : Option ServerGroup → List ℕ
ids_of none = []
ids_of (some g) = g.server_ids

abbrev pub ids_at : String → Dict String ServerGroup → List ℕ
ids_at id groups = ids_of (lookup id groups)

-- `knownIds`: the servers that stand in the order, alone or in a group.
unfoldable pub known_ids : List RailItem → Dict String ServerGroup → List ℕ
known_ids [] groups = []
known_ids (RailItem.server n ∷ order) groups = n ∷ known_ids order groups
known_ids (RailItem.group g ∷ order) groups = ids_at g groups ++ known_ids order groups

abbrev pub without : List ℕ → List ℕ → List ℕ
without removed ids = filter (λ id. not (includes id removed)) ids

-- `groupsToDissolve`, with the groups that shrink.
unfoldable pub groups_to_dissolve : List ℕ → Dict String ServerGroup → List String
groups_to_dissolve removed [] = []
groups_to_dissolve removed ((id, g) ∷ groups) =
    if ltb (length (without removed g.server_ids)) 2
    then id ∷ groups_to_dissolve removed groups
    else groups_to_dissolve removed groups

unfoldable pub shrink : List ℕ → ServerGroup → ServerGroup
shrink removed g =
    if ltb (length (without removed g.server_ids)) 2
    then g
    else record g { server_ids = without removed g.server_ids }

abbrev pub shrink_all : List ℕ → Dict String ServerGroup → Dict String ServerGroup
shrink_all removed [] = []
shrink_all removed ((id, g) ∷ groups) = (id, shrink removed g) ∷ shrink_all removed groups

unfoldable pub survivors : List ℕ → List String → Dict String ServerGroup → List ℕ
survivors removed [] groups = []
survivors removed (id ∷ ids) groups =
    without removed (ids_at id groups) ++ survivors removed ids groups

unfoldable pub delete_all : List String → Dict String ServerGroup → Dict String ServerGroup
delete_all [] groups = groups
delete_all (id ∷ ids) groups = delete_all ids (delete id groups)

abbrev pub stays : List ℕ → List String → RailItem → Bool
stays removed dissolved (RailItem.server n) = not (includes n removed)
stays removed dissolved (RailItem.group g) = not (includes g dissolved)

abbrev pub is_empty_list {ℓ} : {A : Type ℓ} → List A → Bool
is_empty_list [] = true
is_empty_list (x ∷ xs) = false

abbrev pub as_servers : List ℕ → List RailItem
as_servers = map (λ n. RailItem.server n)

-- The change that `syncServers` makes where it makes one.
unfoldable pub sync_changes : List ℕ → List ℕ → RailState → RailState
unfolding groups_to_dissolve survivors delete_all
sync_changes added removed s =
    let dissolved = groups_to_dissolve removed s.groups in
    record {
      order =
          filter (stays removed dissolved) s.order
          ++ (as_servers (survivors removed dissolved s.groups) ++ as_servers added);
      groups = delete_all dissolved (shrink_all removed s.groups);
    }

unfoldable pub sync_servers : List ℕ → RailState → RailState
unfolding known_ids sync_changes
sync_servers server_ids s =
    let known = known_ids s.order s.groups in
    let added = without known server_ids in
    let removed = without server_ids known in
    if is_empty_list added && is_empty_list removed then s else sync_changes added removed s

abbrev pub set_order_and_groups : List RailItem → Dict String ServerGroup → RailState → RailState
set_order_and_groups order groups s = record { order = order; groups = groups }

-- `newOrder.splice(…)` of `createGroup`: the new group takes the target's place, or the front.
unfoldable pub replace_server : ℕ → RailItem → List RailItem → List RailItem
replace_server target item [] = []
replace_server target item (here ∷ order) =
    if is_server target here then item ∷ order else here ∷ replace_server target item order

abbrev pub put_group : ℕ → RailItem → List RailItem → List RailItem
put_group target item order =
    if any (is_server target) order then replace_server target item order else item ∷ order

-- `createGroup`, with the id that `nextGroupId` gives.
unfoldable pub create_group : String → ℕ → ℕ → RailState → RailState
unfolding replace_server
create_group id source target s =
    let created : ServerGroup = record {
      id = id;
      label = "Group";
      server_ids = target ∷ source ∷ [];
      collapsed = false;
    } in
    record {
      order =
          put_group target (RailItem.group id)
            (filter (λ item. not (is_server source item)) s.order);
      groups = insert id created s.groups;
    }

unfoldable pub add_to : ℕ → String → Option ServerGroup → RailState → RailState
add_to server_id id none s = s
add_to server_id id (some g) s = if includes server_id g.server_ids then s else record {
  order = filter (λ item. not (is_server server_id item)) s.order;
  groups = insert id (record g { server_ids = g.server_ids ++ server_id ∷ [] }) s.groups;
}

unfoldable pub add_to_group : ℕ → String → RailState → RailState
unfolding add_to
add_to_group server_id id s = add_to server_id id (lookup id s.groups) s

-- `order.splice(idx + 1, 0, serverId)`, where a missing group has index -1.
unfoldable pub insert_after : String → RailItem → List RailItem → List RailItem
insert_after id item [] = []
insert_after id item (here ∷ order) =
    if is_group id here then here ∷ item ∷ order else here ∷ insert_after id item order

abbrev pub put_after : String → RailItem → List RailItem → List RailItem
put_after id item order =
    if any (is_group id) order then insert_after id item order else item ∷ order

-- `[...before, ...remaining, serverId, ...after]`
unfoldable pub put_in_place : String → List RailItem → List RailItem → List RailItem
put_in_place id items [] = items
put_in_place id items (here ∷ order) =
    if is_group id here then items ++ order else here ∷ put_in_place id items order

unfoldable pub remove_from : ℕ → String → Option ServerGroup → RailState → RailState
unfolding insert_after put_in_place
remove_from server_id id none s = s
remove_from server_id id (some g) s =
    let remaining = filter (λ n. not (n == server_id)) g.server_ids in
    if not (includes server_id g.server_ids)
    then s
    else if ltb (length remaining) 2
    then record {
      order = put_in_place id (as_servers (remaining ++ server_id ∷ [])) s.order;
      groups = delete id s.groups;
    }
    else record {
      order = put_after id (RailItem.server server_id) s.order;
      groups = insert id (record g { server_ids = remaining }) s.groups;
    }

unfoldable pub remove_from_group : ℕ → String → RailState → RailState
unfolding remove_from
remove_from_group server_id id s = remove_from server_id id (lookup id s.groups) s

unfoldable pub toggle_at : String → Option ServerGroup → RailState → RailState
toggle_at id none s = s
toggle_at id (some g) s = record s {
  groups = insert id (record g { collapsed = not g.collapsed }) s.groups;
}

unfoldable pub toggle_group_collapsed : String → RailState → RailState
unfolding toggle_at
toggle_group_collapsed id s = toggle_at id (lookup id s.groups) s

unfoldable pub rename_at : String → String → Option ServerGroup → RailState → RailState
rename_at id label none s = s
rename_at id label (some g) s =
    if g.label == label
    then s
    else record s { groups = insert id (record g { label = label }) s.groups }

unfoldable pub rename_group : String → String → RailState → RailState
unfolding rename_at
rename_group id label s = rename_at id label (lookup id s.groups) s
