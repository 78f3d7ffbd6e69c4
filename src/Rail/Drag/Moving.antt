-- ===== src/Rail/Drag/Moving.antt =====
-- A drop that sorts, from the rail to the rail: the flat list that is moved about has the servers of the rail.
use letschat.Rail.Drag.Moved.{IsMoved, any-IsMoved, IsOnce-IsMoved}
use letschat.Common.{
  ℕ, suc, ◌<◌, String, ◌≡◌, refl, sym, ap, ◌∙◌, Bool, true, false, ◌||◌, Option, none, some, List,
  [], ◌∷◌, ◌++◌, map, Dict, lookup, if◌then◌else◌, ◌==◌, nat_eq, string_eq, option_eq, includes,
  any, any-append, length, is_some, arith,
}
use letschat.Rail.{ServerGroup, RailItem, RailState, is_group, ids_at, known_ids}
use letschat.Rail.Shown.{is_shown, includes-append}
use letschat.Rail.Drag.{
  FlatItem, build_flat_ids, flat_to_hierarchical, expanded_in, is_expanded_group, new_index,
  move_to, drop_to_sort, index_of, shifted, flat_beq,
}
use letschat.Rail.Drag.Sorting.{IsOnce, IsKeyed, flat_shows, is_flat_group}
use letschat.Rail.Drag.Settled.{shown-flat_to_hierarchical}

-- No group stands twice in the order.
abbrev pub IsSingle : List RailItem → Type 0
IsSingle [] = Unit
IsSingle (RailItem.server n ∷ order) = IsSingle order
IsSingle (RailItem.group g ∷ order) = (any (is_group g) order ≡ false) × IsSingle order

module _ (groups : Dict String ServerGroup) (expanded : String → Bool) where
  any-members :
      (j g : String) (ids : List ℕ)
      → any (is_flat_group j) (map (λ n. FlatItem.flat_member g n) ids) ≡ false
  any-members j g [] = refl
  any-members j g (n ∷ ids) = any-members j g ids

  any-members_first :
      (j g : String) (wide : Bool) (order : List RailItem)
      → any (is_flat_group j) (build_flat_ids order groups expanded) ≡ any (is_group j) order
      → any (is_flat_group j) (
          (if wide then map (λ n. FlatItem.flat_member g n) (ids_at g groups) else [])
          ++ build_flat_ids order groups expanded)
        ≡ any (is_group j) order
  any-members_first j g true order h =
      any-append (is_flat_group j) (map (λ n. FlatItem.flat_member g n) (ids_at g groups)) _
      ∙ rw (any-members j g (ids_at g groups)) h
  any-members_first j g false order h = h

  any-build_flat_ids :
      (j : String) (order : List RailItem)
      → any (is_flat_group j) (build_flat_ids order groups expanded) ≡ any (is_group j) order
  unfolding build_flat_ids
  any-build_flat_ids j [] = refl
  any-build_flat_ids j (RailItem.server n ∷ order) = any-build_flat_ids j order
  any-build_flat_ids j (RailItem.group g ∷ order) =
      ap (λ b. g == j || b) (any-members_first j g (expanded g) order (any-build_flat_ids j order))

  IsOnce-members :
      (g : String) (ids : List ℕ) (items : List FlatItem)
      → IsOnce items
      → IsOnce (map (λ n. FlatItem.flat_member g n) ids ++ items)
  IsOnce-members g [] items o = o
  IsOnce-members g (n ∷ ids) items o = IsOnce-members g ids items o

  IsOnce-build_flat_ids :
      (order : List RailItem) → IsSingle order → IsOnce (build_flat_ids order groups expanded)
  unfolding build_flat_ids
  IsOnce-build_flat_ids [] o = tt
  IsOnce-build_flat_ids (RailItem.server n ∷ order) o = IsOnce-build_flat_ids order o
  IsOnce-build_flat_ids (RailItem.group g ∷ order) (alone, o) = (
    any-members_first g g (expanded g) order (any-build_flat_ids g order) ∙ alone,
    opened (expanded g) (IsOnce-build_flat_ids order o),
  )
    where
      opened :
          (wide : Bool)
          → IsOnce (build_flat_ids order groups expanded)
          → IsOnce (
              (if wide then map (λ n. FlatItem.flat_member g n) (ids_at g groups) else [])
              ++ build_flat_ids order groups expanded)
      opened true h = IsOnce-members g (ids_at g groups) _ h
      opened false h = h

  -- The flat list shows what the rail shows.
  module _ (k : ℕ) where
    item_shows : FlatItem → Bool
    item_shows (FlatItem.flat_server n) = n == k
    item_shows (FlatItem.flat_group g) = if expanded g then false else includes k (ids_at g groups)
    item_shows (FlatItem.flat_member g n) = n == k

    flat_shows-any :
        (items : List FlatItem) → flat_shows groups expanded k items ≡ any item_shows items
    unfolding flat_shows item_shows
    flat_shows-any [] = refl
    flat_shows-any (FlatItem.flat_server n ∷ items) = ap (λ b. n == k || b) (flat_shows-any items)
    flat_shows-any (FlatItem.flat_group g ∷ items) =
        ap (λ b. (if expanded g then false else includes k (ids_at g groups)) || b)
          (flat_shows-any items)
    flat_shows-any (FlatItem.flat_member g n ∷ items) = ap (λ b. n == k || b) (flat_shows-any items)

    members-shown :
        (g : String) (ids : List ℕ)
        → any item_shows (map (λ n. FlatItem.flat_member g n) ids) ≡ includes k ids
    unfolding item_shows
    members-shown g [] = refl
    members-shown g (n ∷ ids) = ap (λ b. n == k || b) (members-shown g ids)

    shown-build_flat_ids :
        (order : List RailItem)
        → any item_shows (build_flat_ids order groups expanded)
          ≡ includes k (known_ids order groups)
    unfolding build_flat_ids known_ids item_shows
    shown-build_flat_ids [] = refl
    shown-build_flat_ids (RailItem.server n ∷ order) =
        ap (λ b. n == k || b) (shown-build_flat_ids order)
    shown-build_flat_ids (RailItem.group g ∷ order) =
        opened (expanded g) (shown-build_flat_ids order)
        ∙ sym (includes-append k (ids_at g groups) (known_ids order groups))
      where
        opened :
            (wide : Bool)
            → any item_shows (build_flat_ids order groups expanded)
              ≡ includes k (known_ids order groups)
            → ((if wide then false else includes k (ids_at g groups))
                || any item_shows (
                    (if wide then map (λ n. FlatItem.flat_member g n) (ids_at g groups) else [])
                    ++ build_flat_ids order groups expanded))
              ≡ (includes k (ids_at g groups) || includes k (known_ids order groups))
        opened true h =
            any-append item_shows (map (λ n. FlatItem.flat_member g n) (ids_at g groups)) _
            ∙ rw (members-shown g (ids_at g groups)) (rw h refl)
        opened false h = rw h refl

-- In a list that an index is found in, the place that the item is moved to is in the list too.
index_of-lt :
    (item : FlatItem) (items : List FlatItem) (i : ℕ)
    → index_of item items ≡ some i
    → i < length items
unfolding index_of
index_of-lt item [] i h = cc
index_of-lt item (here ∷ items) i h =
    found (flat_beq here item) (index_of item items) (index_of-lt item items) h
  where
    found :
        (b : Bool) (o : Option ℕ)
        → ((j : ℕ) → o ≡ some j → j < length items)
        → (if b then some 0 else shifted o) ≡ some i
        → i < suc (length items)
    found true o ih e = ground arith
    found false none ih e = cc
    found false (some j) ih e = ground (arith, ih j refl)

new_index-lt :
    (insert_before : Bool) (old over n : ℕ)
    → old < n
    → over < n
    → new_index insert_before old over < n
unfolding new_index
new_index-lt insert_before old over n h g = ground (arith, h, g)

expanded_in-known :
    (folded : Option String) (groups : Dict String ServerGroup) (g : String)
    → expanded_in folded groups g ≡ true
    → is_some (lookup g groups) ≡ true
expanded_in-known folded groups g h = known (lookup g groups) h
  where
    known : (o : Option ServerGroup) → is_expanded_group folded g o ≡ true → is_some o ≡ true
    known none h = cc
    known (some group) h = refl

-- A drop that sorts keeps the servers that the rail shows, wherever the item is dropped, if no group stands
-- twice and moving an item of a list leaves the other items in their order.
pub shown-drop_to_sort :
    (array_move : List FlatItem → ℕ → ℕ → List FlatItem) (folded : Option String)
    (active over : FlatItem) (insert_before : Bool) (s : RailState) (k : ℕ)
    → ((l : List FlatItem) (i j : ℕ) → i < length l → j < length l → IsMoved l (array_move l i j))
    → IsSingle s.order
    → IsKeyed s.groups
    → is_shown k (drop_to_sort array_move folded active over insert_before s) ≡ is_shown k s
unfolding drop_to_sort
shown-drop_to_sort array_move folded active over insert_before s k moves single keyed =
    moved (index_of active flat) (index_of over flat) refl refl
  where
    expanded : String → Bool
    expanded = expanded_in folded s.groups

    flat : List FlatItem
    flat = build_flat_ids s.order s.groups expanded

    once : IsOnce flat
    once = IsOnce-build_flat_ids s.groups expanded s.order single

    sorted :
        (l : List FlatItem)
        → IsMoved flat l
        → is_shown k (flat_to_hierarchical l s.groups expanded) ≡ is_shown k s
    sorted l m =
        shown-flat_to_hierarchical l s.groups expanded k (IsOnce-IsMoved flat l m once) keyed
          (expanded_in-known folded s.groups)
        ∙ flat_shows-any s.groups expanded k l
        ∙ sym (any-IsMoved (item_shows s.groups expanded k) flat l m)
        ∙ shown-build_flat_ids s.groups expanded k s.order

    if-shown :
        (b : Bool) (t : RailState)
        → is_shown k t ≡ is_shown k s
        → is_shown k (if b then s else t) ≡ is_shown k s
    if-shown true t h = refl
    if-shown false t h = h

    moved :
        (old new : Option ℕ)
        → index_of active flat ≡ old
        → index_of over flat ≡ new
        → is_shown k (move_to array_move insert_before old new flat expanded s) ≡ is_shown k s
    moved none new e f = refl
    moved (some old) none e f = refl
    moved (some old) (some new) e f =
        let here = index_of-lt active flat old e in
        let there = index_of-lt over flat new f in
        let to = new_index insert_before old new in
        if-shown (old == new || to == old)
          (flat_to_hierarchical (array_move flat old to) s.groups expanded)
          (sorted (array_move flat old to)
            (moves flat old to here (new_index-lt insert_before old new (length flat) here there)))
