-- ===== src/Rail/Placed.antt =====
-- Every group of the rail keeps its place in the order.
use letschat.Common.{
  ℕ, String, ◌≡◌, refl, ◌∙◌, Bool, true, false, not, ◌&&◌, Bool-cases, inl, inr, Option, none, some,
  List, [], ◌∷◌, ◌++◌, Dict, lookup, insert, delete, lookup-insert, lookup-delete, if◌then◌else◌,
  ◌==◌, nat_eq, string_eq, filter, includes, any, any-append, length, ltb, is_some, arith,
}
use letschat.Rail.{
  ServerGroup, RailItem, RailState, is_server, is_group, known_ids, as_servers, create_group,
  add_to_group, remove_from_group, add_to, remove_from, put_in_place, insert_after, replace_server,
  sync_servers, sync_changes, toggle_at, rename_at, toggle_group_collapsed, rename_group,
  groups_to_dissolve, shrink_all, stays, survivors, without, is_empty_list,
}
use letschat.Rail.Shown.{is_shown, IsPlaced, lookup-delete_all, shown-sync_servers}

-- What the user and the syncs do to the rail; a drag that sorts is not among them.
pub data RailAction : Type 0 where
  syncs : List ℕ → RailAction
  creates : (id : String) (source target : ℕ) → RailAction
  joins : (server_id : ℕ) (id : String) → RailAction
  leaves : (server_id : ℕ) (id : String) → RailAction
  toggles : (id : String) → RailAction
  renames : (id label : String) → RailAction

abbrev pub step : RailAction → RailState → RailState
step (RailAction.syncs ids) s = sync_servers ids s
step (RailAction.creates id source target) s = create_group id source target s
step (RailAction.joins server_id id) s = add_to_group server_id id s
step (RailAction.leaves server_id id) s = remove_from_group server_id id s
step (RailAction.toggles id) s = toggle_group_collapsed id s
step (RailAction.renames id label) s = rename_group id label s

abbrev pub run : List RailAction → RailState → RailState
run [] s = s
run (a ∷ actions) s = run actions (step a s)

abbrev pub empty_rail : RailState
empty_rail = record { order = []; groups = [] }

module _ (j : String) where
  group-filter_server :
      (m : ℕ) (order : List RailItem)
      → any (is_group j) (filter (λ item. not (is_server m item)) order) ≡ any (is_group j) order
  group-filter_server m [] = refl
  group-filter_server m (RailItem.server k ∷ order) = ground (arith, group-filter_server m order)
  group-filter_server m (RailItem.group g ∷ order) = ground (arith, group-filter_server m order)

  group-replace_server :
      (target : ℕ) (id : String) (order : List RailItem)
      → any (is_group j) order ≡ true
      → any (is_group j) (replace_server target (RailItem.group id) order) ≡ true
  unfolding replace_server
  group-replace_server target id [] h = cc
  group-replace_server target id (RailItem.server k ∷ order) h =
      ground (arith, group-replace_server target id order)
  group-replace_server target id (RailItem.group g ∷ order) h =
      ground (arith, group-replace_server target id order)

  group-added :
      (target : ℕ) (id : String) (order : List RailItem)
      → (id == j) ≡ true
      → any (is_server target) order ≡ true
      → any (is_group j) (replace_server target (RailItem.group id) order) ≡ true
  unfolding replace_server
  group-added target id [] same h = cc
  group-added target id (RailItem.server k ∷ order) same h =
      ground (arith, group-added target id order)
  group-added target id (RailItem.group g ∷ order) same h =
      ground (arith, group-added target id order)

  group-insert_after :
      (id : String) (m : ℕ) (order : List RailItem)
      → any (is_group j) (insert_after id (RailItem.server m) order) ≡ any (is_group j) order
  unfolding insert_after
  group-insert_after id m [] = refl
  group-insert_after id m (RailItem.server k ∷ order) =
      ground (arith, group-insert_after id m order)
  group-insert_after id m (RailItem.group g ∷ order) = ground (arith, group-insert_after id m order)

  group-put_in_place :
      (id : String) (items order : List RailItem)
      → (id == j) ≡ false
      → any (is_group j) order ≡ true
      → any (is_group j) (put_in_place id items order) ≡ true
  unfolding put_in_place
  group-put_in_place id items [] ne h = cc
  group-put_in_place id items (RailItem.server k ∷ order) ne h =
      ground (arith, group-put_in_place id items order)
  group-put_in_place id items (RailItem.group g ∷ order) ne h = ground (
    arith,
    group-put_in_place id items order,
    any-append (is_group j) items order,
    string_eq.reflects g id,
    string_eq.reflects g j,
    string_eq.reflects id j,
  )

  group-stays :
      (removed : List ℕ) (dissolved : List String) (order : List RailItem)
      → includes j dissolved ≡ false
      → any (is_group j) (filter (stays removed dissolved) order) ≡ any (is_group j) order
  group-stays removed dissolved [] h = refl
  group-stays removed dissolved (RailItem.server k ∷ order) h =
      ground (arith, group-stays removed dissolved order)
  group-stays removed dissolved (RailItem.group g ∷ order) h =
      ground (arith, group-stays removed dissolved order, string_eq.reflects g j)

  lookup-shrink_all :
      (removed : List ℕ) (groups : Dict String ServerGroup)
      → is_some (lookup j (shrink_all removed groups)) ≡ is_some (lookup j groups)
  unfolding lookup
  lookup-shrink_all removed [] = refl
  lookup-shrink_all removed ((i, g) ∷ groups) = ground (arith, lookup-shrink_all removed groups)

if-IsPlaced : (b : Bool) (s t : RailState) → IsPlaced s → IsPlaced t → IsPlaced (if b then s else t)
if-IsPlaced true s t p q = p
if-IsPlaced false s t p q = q

insert-IsPlaced :
    (id : String) (g : ServerGroup) (s : RailState)
    → any (is_group id) s.order ≡ true
    → IsPlaced s
    → IsPlaced (record s { groups = insert id g s.groups })
insert-IsPlaced id g s here placed j h =
    ground (arith, lookup-insert id j g s.groups, placed j, string_eq.reflects id j)

sync_changes-IsPlaced :
    (added removed : List ℕ) (s : RailState) → IsPlaced s → IsPlaced (sync_changes added removed s)
unfolding sync_changes
sync_changes-IsPlaced added removed s placed j h = ground (
  arith,
  h,
  placed j,
  lookup-delete_all (groups_to_dissolve removed s.groups) j (shrink_all removed s.groups),
  lookup-shrink_all j removed s.groups,
  group-stays j removed (groups_to_dissolve removed s.groups) s.order,
  any-append (is_group j) (filter (stays removed (groups_to_dissolve removed s.groups)) s.order) (
      as_servers (survivors removed (groups_to_dissolve removed s.groups) s.groups)
      ++ as_servers added),
)

sync_servers-IsPlaced : (ids : List ℕ) (s : RailState) → IsPlaced s → IsPlaced (sync_servers ids s)
unfolding sync_servers
sync_servers-IsPlaced ids s placed =
    elim (Bool-cases (is_empty_list (without known ids) && is_empty_list (without ids known))) [
      | inl same ↦ rw same placed
      | inr changed ↦
          rw changed (sync_changes-IsPlaced (without known ids) (without ids known) s placed)
    ]
  where
    known : List ℕ
    known = known_ids s.order s.groups

create_group-IsPlaced :
    (id : String) (source target : ℕ) (s : RailState)
    → IsPlaced s
    → IsPlaced (create_group id source target s)
unfolding create_group
create_group-IsPlaced id source target s placed j h =
    let rest : List RailItem = filter (λ item. not (is_server source item)) s.order in
    elim (Bool-cases (any (is_server target) rest)) [
      | inl found ↦ rw found (
          ground (
            arith,
            h,
            placed j,
            group-filter_server j source s.order,
            group-replace_server j target id rest,
            group-added j target id rest,
            lookup-insert id j
                (record {
                  id = id;
                  label = "Group";
                  server_ids = target ∷ source ∷ [];
                  collapsed = false;
                })
                s.groups,
          ))
      | inr missing ↦ rw missing (
          ground (
            arith,
            h,
            placed j,
            group-filter_server j source s.order,
            lookup-insert id j
                (record {
                  id = id;
                  label = "Group";
                  server_ids = target ∷ source ∷ [];
                  collapsed = false;
                })
                s.groups,
          ))
    ]

add_to_group-IsPlaced :
    (m : ℕ) (id : String) (s : RailState) → IsPlaced s → IsPlaced (add_to_group m id s)
unfolding add_to_group
add_to_group-IsPlaced m id s placed = added (lookup id s.groups) refl
  where
    added : (o : Option ServerGroup) → lookup id s.groups ≡ o → IsPlaced (add_to m id o s)
    added none e = placed
    added (some g) e =
        let rest : RailState = record s {
          order = filter (λ item. not (is_server m item)) s.order;
        } in
        let kept : IsPlaced rest = λ j h. group-filter_server j m s.order ∙ placed j h in
        if-IsPlaced (includes m g.server_ids) s _ placed
          (insert-IsPlaced id _ rest (kept id (ground arith)) kept)

pub remove_from_group-IsPlaced :
    (m : ℕ) (id : String) (s : RailState) → IsPlaced s → IsPlaced (remove_from_group m id s)
unfolding remove_from_group
remove_from_group-IsPlaced m id s placed = removed (lookup id s.groups) refl
  where
    removed : (o : Option ServerGroup) → lookup id s.groups ≡ o → IsPlaced (remove_from m id o s)
    removed none e = placed
    removed (some g) e =
        let here = placed id (ground arith) in
        let moved : RailState = record s { order = insert_after id (RailItem.server m) s.order } in
        let kept : IsPlaced moved = λ j h. group-insert_after j id m s.order ∙ placed j h in
        let dissolved : (items : List RailItem)
            → IsPlaced
                (record { order = put_in_place id items s.order; groups = delete id s.groups }) =
          λ items j h. ground (
            arith,
            h,
            placed j,
            lookup-delete id j s.groups,
            group-put_in_place j id items s.order,
            string_eq.reflects id j,
          ) in
        if-IsPlaced (not (includes m g.server_ids)) s _ placed (
          if-IsPlaced (ltb (length (filter (λ n. not (n == m)) g.server_ids)) 2) _ _ (dissolved _)
            (rw here (insert-IsPlaced id _ moved (kept id (ground arith)) kept)))

toggle-IsPlaced :
    (id : String) (s : RailState) → IsPlaced s → IsPlaced (toggle_group_collapsed id s)
unfolding toggle_group_collapsed
toggle-IsPlaced id s placed = toggled (lookup id s.groups) refl
  where
    toggled : (o : Option ServerGroup) → lookup id s.groups ≡ o → IsPlaced (toggle_at id o s)
    toggled none e = placed
    toggled (some g) e = insert-IsPlaced id _ s (placed id (ground arith)) placed

rename-IsPlaced :
    (id label : String) (s : RailState) → IsPlaced s → IsPlaced (rename_group id label s)
unfolding rename_group
rename-IsPlaced id label s placed = renamed (lookup id s.groups) refl
  where
    renamed : (o : Option ServerGroup) → lookup id s.groups ≡ o → IsPlaced (rename_at id label o s)
    renamed none e = placed
    renamed (some g) e = elim (Bool-cases (g.label == label)) [
      | inl same ↦ rw same placed
      | inr other ↦ rw other (insert-IsPlaced id _ s (placed id (ground arith)) placed)
    ]

step-IsPlaced : (a : RailAction) (s : RailState) → IsPlaced s → IsPlaced (step a s)
step-IsPlaced (RailAction.syncs ids) s placed = sync_servers-IsPlaced ids s placed
step-IsPlaced (RailAction.creates id source target) s placed =
    create_group-IsPlaced id source target s placed
step-IsPlaced (RailAction.joins m id) s placed = add_to_group-IsPlaced m id s placed
step-IsPlaced (RailAction.leaves m id) s placed = remove_from_group-IsPlaced m id s placed
step-IsPlaced (RailAction.toggles id) s placed = toggle-IsPlaced id s placed
step-IsPlaced (RailAction.renames id label) s placed = rename-IsPlaced id label s placed

run-IsPlaced : (actions : List RailAction) (s : RailState) → IsPlaced s → IsPlaced (run actions s)
run-IsPlaced [] s placed = placed
run-IsPlaced (a ∷ actions) s placed = run-IsPlaced actions (step a s) (step-IsPlaced a s placed)

-- From the empty rail, whatever servers are synced, grouped and taken out of groups and whatever groups are
-- renamed and folded, the rail shows exactly the joined servers after the next sync.
pub shown-sync-run :
    (actions : List RailAction) (server_ids : List ℕ) (n : ℕ)
    → is_shown n (sync_servers server_ids (run actions empty_rail)) ≡ includes n server_ids
unfolding lookup
shown-sync-run actions server_ids n =
    shown-sync_servers server_ids (run actions empty_rail) n
      (run-IsPlaced actions empty_rail (λ id h. cc))
