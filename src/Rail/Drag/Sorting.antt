-- ===== src/Rail/Drag/Sorting.antt =====
-- A drop that sorts leaves the servers that the rail shows, wherever the item was dropped.
use letschat.Common.{
  ℕ, String, ◌≡◌, refl, ap, ◌∙◌, Bool, true, false, ◌&&◌, ◌||◌, Bool-cases, inl, inr, Option, none,
  some, List, [], ◌∷◌, ◌++◌, Dict, lookup, insert, lookup-insert, lookup-insert_self, or_else,
  if◌then◌else◌, ◌==◌, nat_eq, string_eq, option_eq, includes, any, any-append, is_some, arith,
}
use letschat.Rail.{ServerGroup, RailItem, is_group, ids_at}
use letschat.Rail.Shown.{includes-append}
use letschat.Rail.Drag.{FlatItem, Scan, scan, scan_item}

abbrev pub is_flat_group : String → FlatItem → Bool
is_flat_group id (FlatItem.flat_group g) = g == id
is_flat_group id item = false

-- No group is named twice.
abbrev pub IsOnce : List FlatItem → Type 0
IsOnce [] = Unit
IsOnce (FlatItem.flat_group g ∷ items) = (any (is_flat_group g) items ≡ false) × IsOnce items
IsOnce (item ∷ items) = IsOnce items

abbrev pub IsKeyed : Dict String ServerGroup → Type 0
IsKeyed [] = Unit
IsKeyed ((id, g) ∷ groups) = (lookup id groups ≡ none) × IsKeyed groups

is_current : (o : Option String) (g : String) → (o == some g) ≡ true → o ≡ some g
is_current none g h = cc
is_current (some i) g h = ground (arith, string_eq.reflects i g)

module _ (existing : Dict String ServerGroup) (expanded : String → Bool) (k : ℕ) where
  -- The servers that the flat list names, and those of the groups that are folded.
  unfoldable pub flat_shows : List FlatItem → Bool
  flat_shows [] = false
  flat_shows (FlatItem.flat_server n ∷ items) = n == k || flat_shows items
  flat_shows (FlatItem.flat_group g ∷ items) =
      (if expanded g then false else includes k (ids_at g existing)) || flat_shows items
  flat_shows (FlatItem.flat_member g n ∷ items) = n == k || flat_shows items

  -- The servers that the first loop has found.
  unfoldable pub found : Dict String (List ℕ) → List RailItem → Bool
  found members [] = false
  found members (RailItem.server n ∷ order) = n == k || found members order
  found members (RailItem.group g ∷ order) =
      includes k (or_else (lookup g members) (ids_at g existing)) || found members order

  found-append :
      (members : Dict String (List ℕ)) (a b : List RailItem)
      → found members (a ++ b) ≡ (found members a || found members b)
  unfolding found
  found-append members [] b = refl
  found-append members (RailItem.server n ∷ a) b = ground (arith, found-append members a b)
  found-append members (RailItem.group g ∷ a) b = ground (arith, found-append members a b)

  found-insert_other :
      (g : String) (ids : List ℕ) (members : Dict String (List ℕ)) (order : List RailItem)
      → any (is_group g) order ≡ false
      → found (insert g ids members) order ≡ found members order
  unfolding found
  found-insert_other g ids members [] h = refl
  found-insert_other g ids members (RailItem.server n ∷ order) h =
      ground (arith, found-insert_other g ids members order)
  found-insert_other g ids members (RailItem.group i ∷ order) h = ground (
    arith,
    found-insert_other g ids members order,
    lookup-insert g i ids members,
    string_eq.reflects i g,
    string_eq.reflects g i,
  )

  rows-insert_more :
      (g i : String) (ids : List ℕ) (n : ℕ) (members : Dict String (List ℕ)) (folded : List ℕ)
      → lookup g members ≡ some ids
      → includes k (or_else (lookup i (insert g (ids ++ n ∷ []) members)) folded)
        ≡ (includes k (or_else (lookup i members) folded) || (i == g && n == k))
  rows-insert_more g i ids n members folded h = elim (Bool-cases (i == g)) [
    | inl same ↦ rw same (grown (ground (arith, string_eq.reflects i g)))
    | inr other ↦ rw other (
        rw (lookup-insert g i (ids ++ n ∷ []) members)
          (ground (arith, string_eq.reflects g i, string_eq.reflects i g)))
  ]
    where
      grown :
          g ≡ i
          → includes k (or_else (lookup i (insert g (ids ++ n ∷ []) members)) folded)
            ≡ (includes k (or_else (lookup i members) folded) || n == k)
      grown e = rw⁻¹ e (
          rw (lookup-insert_self g (ids ++ n ∷ []) members)
            (rw h (includes-append k ids (n ∷ []) ∙ ground arith)))

  found-insert_more :
      (g : String) (ids : List ℕ) (n : ℕ) (members : Dict String (List ℕ)) (order : List RailItem)
      → lookup g members ≡ some ids
      → found (insert g (ids ++ n ∷ []) members) order
        ≡ (found members order || (any (is_group g) order && n == k))
  unfolding found
  found-insert_more g ids n members [] h = refl
  found-insert_more g ids n members (RailItem.server m ∷ order) h =
      rw (found-insert_more g ids n members order h) (ground arith)
  found-insert_more g ids n members (RailItem.group i ∷ order) h =
      rw (found-insert_more g ids n members order h)
        (rw (rows-insert_more g i ids n members (ids_at i existing) h) (ground arith))

  -- The groups with members so far are unfolded, and the current one, if unfolded, is among them and
  -- stands in the order.
  pub record IsScan (s : Scan) : Type 0 where
    pub unfolded : (g : String) → is_some (lookup g s.members) ≡ true → expanded g ≡ true
    pub has_rows :
        (g : String) → s.current ≡ some g → expanded g ≡ true → is_some (lookup g s.members) ≡ true
    pub has_place :
        (g : String) → s.current ≡ some g → expanded g ≡ true → any (is_group g) s.order ≡ true

  -- No group of the items stands in the order yet.
  abbrev pub IsAhead : List FlatItem → List RailItem → Type 0
  IsAhead items order =
      (g : String) → any (is_flat_group g) items ≡ true → any (is_group g) order ≡ false

  server-IsScan :
      (n : ℕ) (s : Scan)
      → IsScan s
      → IsScan (record s { order = s.order ++ RailItem.server n ∷ []; current = none })
  server-IsScan n s i = record {
    unfolded = i.unfolded;
    has_rows = λ g h e. cc;
    has_place = λ g h e. cc;
  }

  server-IsAhead :
      (n : ℕ) (items : List FlatItem) (order : List RailItem)
      → IsAhead items order
      → IsAhead items (order ++ RailItem.server n ∷ [])
  server-IsAhead n items order ahead g h =
      any-append (is_group g) order (RailItem.server n ∷ []) ∙ ground (arith, ahead g h)

  group-IsAhead :
      (g : String) (items : List FlatItem) (order : List RailItem)
      → any (is_flat_group g) items ≡ false
      → IsAhead (FlatItem.flat_group g ∷ items) order
      → IsAhead items (order ++ RailItem.group g ∷ [])
  group-IsAhead g items order once ahead j h =
      any-append (is_group j) order (RailItem.group g ∷ [])
      ∙ ground (arith, ahead j, string_eq.reflects g j)

  group-place :
      (g j : String) (order : List RailItem)
      → ◌≡◌ {A = Option String} (some g) (some j)
      → any (is_group j) (order ++ RailItem.group g ∷ []) ≡ true
  group-place g j order e =
      any-append (is_group j) order (RailItem.group g ∷ []) ∙ ground (arith, string_eq.reflects g j)

  open_group-IsScan :
      (g : String) (s : Scan)
      → IsScan s
      → expanded g ≡ true
      → IsScan (record {
        order = s.order ++ RailItem.group g ∷ [];
        members = insert g [] s.members;
        current = some g;
      })
  open_group-IsScan g s i wide = record {
    unfolded = λ j h.
        ground (arith, h, i.unfolded j, lookup-insert g j [] s.members, string_eq.reflects g j);
    has_rows = λ j e x. ground (arith, lookup-insert g j [] s.members, string_eq.reflects g j);
    has_place = λ j e x. group-place g j s.order e;
  }

  folded_group-IsScan :
      (g : String) (s : Scan)
      → IsScan s
      → expanded g ≡ false
      → IsScan (record s { order = s.order ++ RailItem.group g ∷ []; current = some g })
  folded_group-IsScan g s i narrow = record {
    unfolded = i.unfolded;
    has_rows = λ j e x. ground arith;
    has_place = λ j e x. group-place g j s.order e;
  }

  member-IsScan :
      (g : String) (n : ℕ) (s : Scan)
      → IsScan s
      → expanded g ≡ true
      → IsScan
          (record s { members = insert g (or_else (lookup g s.members) [] ++ n ∷ []) s.members })
  member-IsScan g n s i wide = record {
    unfolded = λ j h. ground (
      arith,
      h,
      i.unfolded j,
      lookup-insert g j (or_else (lookup g s.members) [] ++ n ∷ []) s.members,
      string_eq.reflects g j,
    );
    has_rows = λ j e x. ground (
      arith,
      i.has_rows j e x,
      lookup-insert g j (or_else (lookup g s.members) [] ++ n ∷ []) s.members,
    );
    has_place = i.has_place;
  }

  member-found :
      (g : String) (n : ℕ) (s : Scan)
      → is_some (lookup g s.members) ≡ true
      → any (is_group g) s.order ≡ true
      → found (insert g (or_else (lookup g s.members) [] ++ n ∷ []) s.members) s.order
        ≡ (found s.members s.order || n == k)
  member-found g n s rows placed = more (lookup g s.members) refl
    where
      more :
          (o : Option (List ℕ))
          → lookup g s.members ≡ o
          → found (insert g (or_else (lookup g s.members) [] ++ n ∷ []) s.members) s.order
            ≡ (found s.members s.order || n == k)
      more none e = ground arith
      more (some ids) e = rw e (rw (found-insert_more g ids n s.members s.order e) (rw placed refl))

  -- One item adds what it shows.
  item-step :
      (item : FlatItem) (items : List FlatItem) (s : Scan)
      → IsScan s
      → IsOnce (item ∷ items)
      → IsAhead (item ∷ items) s.order
      → let t = scan_item expanded item s in
        IsScan t
        × IsOnce items
        × IsAhead items t.order
        × (found t.members t.order ≡ (found s.members s.order || flat_shows (item ∷ [])))
  unfolding scan_item flat_shows found
  item-step (FlatItem.flat_server n) items s i once ahead = (
    server-IsScan n s i,
    once,
    server-IsAhead n items s.order ahead,
    found-append s.members s.order (RailItem.server n ∷ []),
  )
  item-step (FlatItem.flat_group g) items s i once ahead = elim (Bool-cases (expanded g)) [
    | inl wide ↦ rw wide (
      open_group-IsScan g s i wide,
      once.1,
      group-IsAhead g items s.order once.0 ahead,
      found-append (insert g [] s.members) s.order (RailItem.group g ∷ [])
          ∙ ground (
            arith,
            found-insert_other g [] s.members s.order,
            ahead g,
            string_eq.reflects g g,
            lookup-insert_self g ([]) s.members,
          ),
    )
    | inr narrow ↦ rw narrow (
      folded_group-IsScan g s i narrow,
      once.1,
      group-IsAhead g items s.order once.0 ahead,
      found-append s.members s.order (RailItem.group g ∷ []) ∙ ground (arith, i.unfolded g),
    )
  ]
  item-step (FlatItem.flat_member g n) items s i once ahead =
      elim (Bool-cases (s.current == some g && expanded g)) [
        | inl inside ↦ rw inside (
            let at : s.current ≡ some g = is_current s.current g (ground arith) in
            let wide : expanded g ≡ true = ground arith in
            (
              member-IsScan g n s i wide,
              once,
              ahead,
              member-found g n s (i.has_rows g at wide) (i.has_place g at wide) ∙ ground arith,
            ))
        | inr outside ↦ rw outside (
          server-IsScan n s i,
          once,
          server-IsAhead n items s.order ahead,
          found-append s.members s.order (RailItem.server n ∷ []),
        )
      ]

  pub scan-found :
      (items : List FlatItem) (s : Scan)
      → IsScan s
      → IsOnce items
      → IsAhead items s.order
      → let t = scan expanded items s in
        IsScan t × (found t.members t.order ≡ (found s.members s.order || flat_shows items))
  unfolding scan flat_shows
  scan-found [] s i once ahead = (i, ground arith)
  scan-found (item ∷ items) s i once ahead =
      let (j, later, next, one) = item-step item items s i once ahead in
      let (last, all) = scan-found items (scan_item expanded item s) j later next in
      (last, all ∙ ap (λ b. b || flat_shows items) one ∙ shift item)
    where
      shift :
          (item : FlatItem)
          → ((found s.members s.order || flat_shows (item ∷ [])) || flat_shows items)
            ≡ (found s.members s.order || flat_shows (item ∷ items))
      shift (FlatItem.flat_server n) = ground arith
      shift (FlatItem.flat_group g) = ground arith
      shift (FlatItem.flat_member g n) = ground arith
