-- ===== src/Rail/Moves.antt =====
-- The actions that move servers between the rail and its groups.
use letschat.Common.{
  ℕ, String, ◌≡◌, refl, Bool, true, false, not, ◌&&◌, ◌||◌, Bool-cases, inl, inr, Option, none,
  some, List, [], ◌∷◌, ◌++◌, Dict, lookup, insert, delete, lookup-insert, lookup-insert_self,
  lookup-delete, if◌then◌else◌, ◌==◌, nat_eq, string_eq, filter, includes, any, length, ltb, arith,
}
use letschat.Rail.{
  ServerGroup, RailItem, RailState, is_server, is_group, ids_at, known_ids, as_servers,
  create_group, add_to_group, remove_from_group, add_to, remove_from, put_group, put_in_place,
  insert_after, replace_server,
}
use letschat.Rail.Shown.{is_shown, includes-append}

-- What the rail shows beside a group.
beside : String → ℕ → List RailItem → Dict String ServerGroup → Bool
beside id n [] groups = false
beside id n (RailItem.server m ∷ order) groups = m == n || beside id n order groups
beside id n (RailItem.group g ∷ order) groups =
    (if g == id then false else includes n (ids_at g groups)) || beside id n order groups

module _ (id : String) (n : ℕ) where
  shown-beside :
      (order : List RailItem) (groups : Dict String ServerGroup)
      → includes n (known_ids order groups)
        ≡ (beside id n order groups || (any (is_group id) order && includes n (ids_at id groups)))
  unfolding known_ids beside
  shown-beside [] groups = refl
  shown-beside (RailItem.server m ∷ order) groups = ground (arith, shown-beside order groups)
  shown-beside (RailItem.group g ∷ order) groups = ground (
    arith,
    shown-beside order groups,
    string_eq.reflects g id,
    includes-append n (ids_at g groups) (known_ids order groups),
  )

  beside-insert :
      (g : ServerGroup) (order : List RailItem) (groups : Dict String ServerGroup)
      → beside id n order (insert id g groups) ≡ beside id n order groups
  unfolding beside
  beside-insert g [] groups = refl
  beside-insert g (RailItem.server m ∷ order) groups = ground (arith, beside-insert g order groups)
  beside-insert g (RailItem.group h ∷ order) groups = ground (
    arith,
    beside-insert g order groups,
    lookup-insert id h g groups,
    string_eq.reflects h id,
    string_eq.reflects id h,
  )

  beside-delete :
      (order : List RailItem) (groups : Dict String ServerGroup)
      → beside id n order (delete id groups) ≡ beside id n order groups
  unfolding beside
  beside-delete [] groups = refl
  beside-delete (RailItem.server m ∷ order) groups = ground (arith, beside-delete order groups)
  beside-delete (RailItem.group h ∷ order) groups = ground (
    arith,
    beside-delete order groups,
    lookup-delete id h groups,
    string_eq.reflects h id,
    string_eq.reflects id h,
  )

  beside-append :
      (a b : List RailItem) (groups : Dict String ServerGroup)
      → beside id n (a ++ b) groups ≡ (beside id n a groups || beside id n b groups)
  unfolding beside
  beside-append [] b groups = refl
  beside-append (RailItem.server m ∷ a) b groups = ground (arith, beside-append a b groups)
  beside-append (RailItem.group g ∷ a) b groups = ground (arith, beside-append a b groups)

  beside-as_servers :
      (ids : List ℕ) (groups : Dict String ServerGroup)
      → beside id n (as_servers ids) groups ≡ includes n ids
  unfolding beside
  beside-as_servers [] groups = refl
  beside-as_servers (m ∷ ids) groups = ground (arith, beside-as_servers ids groups)

  beside-insert_after :
      (m : ℕ) (order : List RailItem) (groups : Dict String ServerGroup)
      → any (is_group id) order ≡ true
      → (beside id n (insert_after id (RailItem.server m) order) groups
          ≡ (m == n || beside id n order groups))
        × (any (is_group id) (insert_after id (RailItem.server m) order) ≡ true)
  unfolding beside insert_after
  beside-insert_after m [] groups h = cc
  beside-insert_after m (RailItem.server k ∷ order) groups h =
      ground (arith, beside-insert_after m order groups)
  beside-insert_after m (RailItem.group g ∷ order) groups h =
      ground (arith, beside-insert_after m order groups)

  beside-put_in_place :
      (ids : List ℕ) (order : List RailItem) (groups : Dict String ServerGroup)
      → beside id n (put_in_place id (as_servers ids) order) groups
        ≡ (includes n ids || beside id n order groups)
  unfolding beside put_in_place
  beside-put_in_place ids [] groups = ground (arith, beside-as_servers ids groups)
  beside-put_in_place ids (RailItem.server m ∷ order) groups =
      ground (arith, beside-put_in_place ids order groups)
  beside-put_in_place ids (RailItem.group g ∷ order) groups = ground (
    arith,
    beside-put_in_place ids order groups,
    beside-append (as_servers ids) order groups,
    beside-as_servers ids groups,
  )

  beside-filter :
      (m : ℕ) (order : List RailItem) (groups : Dict String ServerGroup)
      → ((m == n || beside id n (filter (λ item. not (is_server m item)) order) groups)
          ≡ (m == n || beside id n order groups))
        × (any (is_group id) (filter (λ item. not (is_server m item)) order)
            ≡ any (is_group id) order)
  unfolding beside
  beside-filter m [] groups = (refl, refl)
  beside-filter m (RailItem.server k ∷ order) groups =
      ground (arith, beside-filter m order groups, nat_eq.reflects k m, nat_eq.reflects k n)
  beside-filter m (RailItem.group g ∷ order) groups = ground (arith, beside-filter m order groups)

  beside-replace_server :
      (target : ℕ) (order : List RailItem) (groups : Dict String ServerGroup)
      → any (is_server target) order ≡ true
      → ((target == n || beside id n (replace_server target (RailItem.group id) order) groups)
          ≡ (target == n || beside id n order groups))
        × (any (is_group id) (replace_server target (RailItem.group id) order) ≡ true)
  unfolding beside replace_server
  beside-replace_server target [] groups h = cc
  beside-replace_server target (RailItem.server k ∷ order) groups h = ground (
    arith,
    beside-replace_server target order groups,
    nat_eq.reflects k target,
    string_eq.reflects id id,
  )
  beside-replace_server target (RailItem.group g ∷ order) groups h =
      ground (arith, beside-replace_server target order groups)

  beside-put_group :
      (target : ℕ) (order : List RailItem) (groups : Dict String ServerGroup)
      → ((target == n || beside id n (put_group target (RailItem.group id) order) groups)
          ≡ (target == n || beside id n order groups))
        × (any (is_group id) (put_group target (RailItem.group id) order) ≡ true)
  unfolding beside
  beside-put_group target order groups = elim (Bool-cases (any (is_server target) order)) [
    | inl found ↦ rw found (beside-replace_server target order groups found)
    | inr missing ↦ rw missing (ground (arith, string_eq.reflects id id))
  ]

includes-filter_out :
    (n m : ℕ) (ids : List ℕ)
    → includes n (filter (λ k. not (k == m)) ids) ≡ (includes n ids && not (m == n))
includes-filter_out n m [] = refl
includes-filter_out n m (k ∷ ids) =
    ground (arith, includes-filter_out n m ids, nat_eq.reflects k m, nat_eq.reflects k n)

includes-same :
    (n m : ℕ) (ids : List ℕ) → includes m ids ≡ true → (m == n) ≡ true → includes n ids ≡ true
includes-same n m ids here e = ground (arith, nat_eq.reflects m n)

-- Taking a server out of a group that stands in the order leaves the servers that the rail shows.
pub shown-remove_from_group :
    (server_id : ℕ) (id : String) (s : RailState) (n : ℕ)
    → any (is_group id) s.order ≡ true
    → is_shown n (remove_from_group server_id id s) ≡ is_shown n s
unfolding remove_from_group
shown-remove_from_group server_id id s n placed = removed (lookup id s.groups) refl
  where
    removed :
        (o : Option ServerGroup)
        → lookup id s.groups ≡ o
        → is_shown n (remove_from server_id id o s) ≡ is_shown n s
    removed none e = refl
    removed (some g) e =
        let kept : List ℕ = filter (λ k. not (k == server_id)) g.server_ids in
        let smaller : ServerGroup = record g { server_ids = kept } in
        let before = shown-beside id n s.order s.groups in
        let ids = includes-filter_out n server_id g.server_ids in
        let same = includes-same n server_id g.server_ids in
        elim (Bool-cases (includes server_id g.server_ids)) [
          | inr out ↦ rw out refl
          | inl here ↦ elim (Bool-cases (ltb (length kept) 2)) [
            | inl small ↦ rw here (
                rw small (
                  ground (
                    arith,
                    before,
                    ids,
                    same,
                    shown-beside id n
                        (put_in_place id (as_servers (kept ++ server_id ∷ [])) s.order)
                        (delete id s.groups),
                    beside-put_in_place id n (kept ++ server_id ∷ []) s.order (delete id s.groups),
                    beside-delete id n s.order s.groups,
                    lookup-delete id id s.groups,
                    string_eq.reflects id id,
                    includes-append n kept (server_id ∷ []),
                  )))
            | inr large ↦ rw here (
                rw large (
                  ground (
                    arith,
                    before,
                    ids,
                    same,
                    shown-beside id n (insert_after id (RailItem.server server_id) s.order)
                        (insert id smaller s.groups),
                    beside-insert_after id n server_id s.order (insert id smaller s.groups),
                    beside-insert id n smaller s.order s.groups,
                    lookup-insert_self id smaller s.groups,
                  )))
          ]
        ]

-- A server that joins a group in the order is shown, and so is what was shown before, and nothing else.
pub shown-add_to_group :
    (server_id : ℕ) (id : String) (g : ServerGroup) (s : RailState) (n : ℕ)
    → lookup id s.groups ≡ some g
    → any (is_group id) s.order ≡ true
    → is_shown n (add_to_group server_id id s) ≡ (server_id == n || is_shown n s)
unfolding add_to_group add_to
shown-add_to_group server_id id g s n there placed =
    let larger : ServerGroup = record g { server_ids = g.server_ids ++ server_id ∷ [] } in
    let rest : List RailItem = filter (λ item. not (is_server server_id item)) s.order in
    let before = shown-beside id n s.order s.groups in
    elim (Bool-cases (includes server_id g.server_ids)) [
      | inl here ↦
          rw there (rw here (ground (arith, before, includes-same n server_id g.server_ids)))
      | inr out ↦ rw there (
          rw out (
            ground (
              arith,
              before,
              shown-beside id n rest (insert id larger s.groups),
              beside-filter id n server_id s.order (insert id larger s.groups),
              beside-insert id n larger s.order s.groups,
              lookup-insert_self id larger s.groups,
              includes-append n g.server_ids (server_id ∷ []),
            )))
    ]

-- A new group shows its two servers, and what was shown before is shown still.
pub shown-create_group :
    (id : String) (source target : ℕ) (s : RailState) (n : ℕ)
    → lookup id s.groups ≡ none
    → is_shown n (create_group id source target s) ≡ (source == n || (target == n || is_shown n s))
unfolding create_group
shown-create_group id source target s n fresh =
    let created : ServerGroup = record {
      id = id;
      label = "Group";
      server_ids = target ∷ source ∷ [];
      collapsed = false;
    } in
    let rest : List RailItem = filter (λ item. not (is_server source item)) s.order in
    ground (
      arith,
      shown-beside id n s.order s.groups,
      shown-beside id n (put_group target (RailItem.group id) rest) (insert id created s.groups),
      beside-put_group id n target rest (insert id created s.groups),
      beside-filter id n source s.order (insert id created s.groups),
      beside-insert id n created s.order s.groups,
      lookup-insert_self id created s.groups,
    )
