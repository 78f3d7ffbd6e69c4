-- ===== src/Rail/Drag/Settled.antt =====
-- The second loop of `flatToHierarchical`, and the drop that sorts as a whole: the rail shows the servers
-- that it showed before, wherever the item was dropped.
use letschat.Common.{
  ℕ, String, ◌≡◌, refl, sym, ap, ◌∙◌, Bool, true, false, ◌||◌, Bool-cases, inl, inr, Option, none,
  some, List, [], ◌∷◌, ◌++◌, Dict, lookup, insert, lookup-insert, lookup-insert_self, or_else,
  if◌then◌else◌, ◌==◌, nat_eq, string_eq, option_eq, includes, any, is_some, arith,
}
use letschat.Rail.{
  ServerGroup, RailItem, RailState, is_group, ids_at, known_ids, put_in_place, as_servers,
}
use letschat.Rail.Shown.{is_shown, includes-append}
use letschat.Rail.Drag.{FlatItem, Scan, scan, settle, settle_all, flat_to_hierarchical}
use letschat.Rail.Drag.Sorting.{IsOnce, IsKeyed, flat_shows, found, scan-found, IsScan}

module _ (k : ℕ) (members : Dict String (List ℕ)) where
  -- The second loop: what is shown while the groups `ahead` are still to be settled.
  rows_of : Dict String ServerGroup → String → Option ServerGroup → List ℕ
  rows_of groups g none = ids_at g groups
  rows_of groups g (some group) = or_else (lookup g members) group.server_ids

  settling : Dict String ServerGroup → Dict String ServerGroup → List RailItem → Bool
  settling ahead groups [] = false
  settling ahead groups (RailItem.server n ∷ order) = n == k || settling ahead groups order
  settling ahead groups (RailItem.group g ∷ order) =
      includes k (rows_of groups g (lookup g ahead)) || settling ahead groups order

  settling-nothing :
      (groups : Dict String ServerGroup) (order : List RailItem)
      → settling [] groups order ≡ includes k (known_ids order groups)
  unfolding settling rows_of known_ids lookup
  settling-nothing groups [] = refl
  settling-nothing groups (RailItem.server n ∷ order) =
      ground (arith, settling-nothing groups order)
  settling-nothing groups (RailItem.group g ∷ order) = ground (
    arith,
    settling-nothing groups order,
    includes-append k (ids_at g groups) (known_ids order groups),
  )

  module _ (id : String) (group : ServerGroup) (later groups : Dict String ServerGroup) where
    settling-absent :
        (order : List RailItem)
        → any (is_group id) order ≡ false
        → settling ((id, group) ∷ later) groups order ≡ settling later groups order
    unfolding settling rows_of lookup
    settling-absent [] h = refl
    settling-absent (RailItem.server n ∷ order) h = ground (arith, settling-absent order)
    settling-absent (RailItem.group g ∷ order) h =
        ground (arith, settling-absent order, string_eq.reflects g id, string_eq.reflects id g)

    settling-insert :
        (kept : ServerGroup) (order : List RailItem)
        → lookup id later ≡ none
        → includes k kept.server_ids ≡ includes k (or_else (lookup id members) group.server_ids)
        → settling later (insert id kept groups) order ≡ settling ((id, group) ∷ later) groups order
    unfolding settling rows_of lookup
    settling-insert kept [] once same = refl
    settling-insert kept (RailItem.server n ∷ order) once same =
        ground (arith, settling-insert kept order once same)
    settling-insert kept (RailItem.group g ∷ order) once same = elim (Bool-cases (id == g)) [
      | inl here ↦
          rw here
            (at_id (settling-insert kept order once same) (ground (arith, string_eq.reflects id g)))
      | inr there ↦
          rw there (elsewhere (settling-insert kept order once same) (lookup g later) there)
    ]
      where
        at_id :
            settling later (insert id kept groups) order
              ≡ settling ((id, group) ∷ later) groups order
            → id ≡ g
            → (includes k (rows_of (insert id kept groups) g (lookup g later))
                || settling later (insert id kept groups) order)
              ≡ (includes k (or_else (lookup g members) group.server_ids)
                  || settling ((id, group) ∷ later) groups order)
        at_id ih e =
            rw⁻¹ e (rw once (rw (lookup-insert_self id kept groups) (rw ih (rw same refl))))

        elsewhere :
            settling later (insert id kept groups) order
              ≡ settling ((id, group) ∷ later) groups order
            → (o : Option ServerGroup) → (id == g) ≡ false
            → (includes k (rows_of (insert id kept groups) g o)
                || settling later (insert id kept groups) order)
              ≡ (includes k (rows_of groups g o) || settling ((id, group) ∷ later) groups order)
        elsewhere ih none other = rw ih (rw (lookup-insert id g kept groups) (rw other refl))
        elsewhere ih (some h) other = rw ih refl

    settling-placed :
        (ids : List ℕ) (order : List RailItem)
        → lookup id later ≡ none
        → lookup id groups ≡ none
        → lookup id members ≡ some ids
        → (includes k ids || settling later groups order)
          ≡ (includes k ids || settling ((id, group) ∷ later) groups order)
    unfolding settling rows_of lookup
    settling-placed ids [] once fresh at = refl
    settling-placed ids (RailItem.server n ∷ order) once fresh at =
        ground (arith, settling-placed ids order once fresh at)
    settling-placed ids (RailItem.group g ∷ order) once fresh at = elim (Bool-cases (id == g)) [
      | inl here ↦ rw here (
          at_id (settling-placed ids order once fresh at) (ground (arith, string_eq.reflects id g)))
      | inr there ↦ rw there (ground (arith, settling-placed ids order once fresh at))
    ]
      where
        at_id :
            (includes k ids || settling later groups order)
              ≡ (includes k ids || settling ((id, group) ∷ later) groups order)
            → id ≡ g
            → (includes k ids
                || (includes k (rows_of groups g (lookup g later)) || settling later groups order))
              ≡ (includes k ids
                  || (includes k (or_else (lookup g members) group.server_ids)
                      || settling ((id, group) ∷ later) groups order))
        at_id ih e = rw⁻¹ e (rw once (rw fresh (rw at (ground (arith, ih)))))

    lookup-here : (g : String) → (id == g) ≡ true → lookup g ((id, group) ∷ later) ≡ some group
    unfolding lookup
    lookup-here g same = rw same refl

    lookup-later :
        (g : String) → (id == g) ≡ false → lookup g ((id, group) ∷ later) ≡ lookup g later
    unfolding lookup
    lookup-later g other = rw other refl

    settling-servers :
        (ids : List ℕ) (order : List RailItem)
        → settling later groups (as_servers ids ++ order)
          ≡ (includes k ids || settling later groups order)
    unfolding settling
    settling-servers [] order = refl
    settling-servers (n ∷ ids) order = ground (arith, settling-servers ids order)

    settling-put_in_place :
        (ids : List ℕ) (order : List RailItem)
        → lookup id later ≡ none
        → lookup id groups ≡ none
        → lookup id members ≡ some ids
        → any (is_group id) order ≡ true
        → settling later groups (put_in_place id (as_servers ids) order)
          ≡ settling ((id, group) ∷ later) groups order
    unfolding settling rows_of put_in_place
    settling-put_in_place ids [] once fresh at here = cc
    settling-put_in_place ids (RailItem.server n ∷ order) once fresh at here =
        ground (arith, settling-put_in_place ids order once fresh at)
    settling-put_in_place ids (RailItem.group g ∷ order) once fresh at here =
        elim (Bool-cases (g == id)) [
          | inl same ↦ rw same (
              first (ground (arith, string_eq.reflects g id))
                (settling-placed ids order once fresh at))
          | inr other ↦ rw other (
              ap (λ b. includes k (rows_of groups g (lookup g later)) || b)
                (settling-put_in_place ids order once fresh at (ground arith))
              ∙ ap
                  (λ o.
                    includes k (rows_of groups g o) || settling ((id, group) ∷ later) groups order)
                  (sym (
                    lookup-later g
                      (ground (arith, string_eq.reflects id g, string_eq.reflects g id)))))
        ]
      where
        first :
            g ≡ id
            → (includes k ids || settling later groups order)
              ≡ (includes k ids || settling ((id, group) ∷ later) groups order)
            → settling later groups (as_servers ids ++ order) ≡ (
                includes k (rows_of groups g (lookup g ((id, group) ∷ later)))
                || settling ((id, group) ∷ later) groups order)
        first e ih = settling-servers ids order ∙ ih ∙ own e
          where
            own :
                g ≡ id
                → (includes k ids || settling ((id, group) ∷ later) groups order) ≡ (
                    includes k (rows_of groups g (lookup g ((id, group) ∷ later)))
                    || settling ((id, group) ∷ later) groups order)
            own e =
                rw e (rw (lookup-here id (ground (arith, string_eq.reflects id id))) (rw at refl))

  -- One round of the loop.
  settling-settle :
      (id : String) (group : ServerGroup) (later : Dict String ServerGroup) (r : RailState)
      (o : Option (List ℕ))
      → lookup id later ≡ none
      → lookup id r.groups ≡ none
      → lookup id members ≡ o
      → any (is_group id) r.order ≡ true
      → let t = settle id group o r in
        settling later t.groups t.order ≡ settling ((id, group) ∷ later) r.groups r.order
  unfolding settle
  settling-settle id group later r none once fresh at here =
      settling-insert id group later r.groups group r.order once (rw at refl)
  settling-settle id group later r (some []) once fresh at here =
      settling-put_in_place id group later r.groups [] r.order once fresh at here
  settling-settle id group later r (some (n ∷ [])) once fresh at here =
      settling-put_in_place id group later r.groups (n ∷ []) r.order once fresh at here
  settling-settle id group later r (some (n ∷ (m ∷ ids))) once fresh at here =
      settling-insert id group later r.groups (record group { server_ids = n ∷ m ∷ ids }) r.order
        once (rw at refl)

  settle-other :
      (id g : String) (group : ServerGroup) (o : Option (List ℕ)) (r : RailState)
      → (id == g) ≡ false
      → lookup g (settle id group o r).groups ≡ lookup g r.groups
  unfolding settle
  settle-other id g group none r other = lookup-insert id g group r.groups ∙ rw other refl
  settle-other id g group (some []) r other = refl
  settle-other id g group (some (n ∷ [])) r other = refl
  settle-other id g group (some (n ∷ (m ∷ ids))) r other =
      lookup-insert id g (record group { server_ids = n ∷ m ∷ ids }) r.groups ∙ rw other refl

  -- The whole loop.
  shown-settle_all :
      (existing : Dict String ServerGroup) (r : RailState)
      → IsKeyed existing
      → ((g : String) → is_some (lookup g existing) ≡ true → lookup g r.groups ≡ none)
      → is_shown k (settle_all members existing r) ≡ settling existing r.groups r.order
  unfolding settle_all
  shown-settle_all [] r keyed fresh = sym (settling-nothing r.groups r.order)
  shown-settle_all ((id, group) ∷ later) r (once, keyed) fresh =
      settled (any (is_group id) r.order) refl (λ t h. shown-settle_all later t keyed h)
    where
      still : (g : String) → is_some (lookup g later) ≡ true → (id == g) ≡ false
      still g h = ground (arith, once, string_eq.reflects id g)

      apart : (g : String) → is_some (lookup g later) ≡ true → lookup g r.groups ≡ none
      apart g h = fresh g (rw (lookup-later id group later r.groups g (still g h)) h)

      alone : lookup id r.groups ≡ none
      alone = fresh id (
          rw (lookup-here id group later r.groups id (ground (arith, string_eq.reflects id id)))
            refl)

      settled :
          (b : Bool)
          → any (is_group id) r.order ≡ b
          → ((t : RailState)
              → ((g : String) → is_some (lookup g later) ≡ true → lookup g t.groups ≡ none)
              → is_shown k (settle_all members later t) ≡ settling later t.groups t.order)
          → is_shown k
              (settle_all members later (if b then settle id group (lookup id members) r else r))
            ≡ settling ((id, group) ∷ later) r.groups r.order
      settled true here ih =
          ih (settle id group (lookup id members) r)
            (λ g h. settle-other id g group (lookup id members) r (still g h) ∙ apart g h)
          ∙ settling-settle id group later r (lookup id members) once alone refl here
      settled false absent ih =
          ih r apart ∙ sym (settling-absent id group later r.groups r.order absent)

-- The groups that the drag leaves out of the list are those that are folded.
settling-found :
    (existing : Dict String ServerGroup) (expanded : String → Bool) (k : ℕ)
    (members : Dict String (List ℕ)) (order : List RailItem)
    → ((g : String) → is_some (lookup g members) ≡ true → is_some (lookup g existing) ≡ true)
    → settling k members existing [] order ≡ found existing expanded k members order
unfolding settling rows_of found lookup
settling-found existing expanded k members [] known = refl
settling-found existing expanded k members (RailItem.server n ∷ order) known =
    ground (arith, settling-found existing expanded k members order known)
settling-found existing expanded k members (RailItem.group g ∷ order) known =
    ground (arith, settling-found existing expanded k members order known, known g)

-- The rail that is read off the flat list shows exactly the servers of the list
-- and those of its folded groups, if the list names no group twice.
pub shown-flat_to_hierarchical :
    (items : List FlatItem) (existing : Dict String ServerGroup) (expanded : String → Bool) (k : ℕ)
    → IsOnce items
    → IsKeyed existing
    → ((g : String) → expanded g ≡ true → is_some (lookup g existing) ≡ true)
    → is_shown k (flat_to_hierarchical items existing expanded)
      ≡ flat_shows existing expanded k items
unfolding flat_to_hierarchical found lookup
shown-flat_to_hierarchical items existing expanded k once keyed known =
    let nothing : Scan = record { order = []; members = []; current = none } in
    let start : IsScan existing expanded k nothing = record {
      unfolded = λ g h. cc;
      has_rows = λ g h e. cc;
      has_place = λ g h e. cc;
    } in
    let (last, all) = scan-found existing expanded k items nothing start once (λ g h. refl) in
    let s = scan expanded items nothing in
    shown-settle_all k s.members existing (record { order = s.order; groups = [] }) keyed
      (λ g h. refl)
    ∙ settling-found existing expanded k s.members s.order (λ g h. known g (last.unfolded g h))
    ∙ all
