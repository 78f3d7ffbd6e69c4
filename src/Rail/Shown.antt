-- ===== src/Rail/Shown.antt =====
-- The servers that the rail shows, before and after each action.
use letschat.Common.{
  ℕ, String, ◌≡◌, refl, ap, ◌∙◌, Bool, true, false, not, ◌&&◌, ◌||◌, Bool-cases, inl, inr, Option,
  none, some, List, [], ◌∷◌, ◌++◌, Dict, lookup, delete, lookup-delete, if◌then◌else◌, Equal,
  nat_eq, string_eq, filter, includes, any, is_some, arith,
}
use letschat.Rail.{
  ServerGroup, RailItem, RailState, is_group, ids_of, ids_at, known_ids, without,
  groups_to_dissolve, shrink, shrink_all, survivors, delete_all, stays, is_empty_list, as_servers,
  sync_changes, sync_servers,
}

-- The rail shows the server, alone or in a group that stands in the order.
abbrev pub is_shown : ℕ → RailState → Bool
is_shown n s = includes n (known_ids s.order s.groups)

-- Every group stands in the order.
abbrev pub IsPlaced : RailState → Type 0
IsPlaced s = (id : String) → is_some (lookup id s.groups) ≡ true → any (is_group id) s.order ≡ true

pub includes-append {ℓ} :
    {A : Type ℓ} ⦃e : Equal A⦄ (a : A) (xs ys : List A)
    → includes a (xs ++ ys) ≡ (includes a xs || includes a ys)
includes-append a [] ys = refl
includes-append a (x ∷ xs) ys = ground (arith, includes-append a xs ys)

includes-without :
    (n : ℕ) (removed ids : List ℕ)
    → includes n (without removed ids) ≡ (includes n ids && not (includes n removed))
includes-without n removed [] = refl
includes-without n removed (m ∷ ids) =
    ground (arith, includes-without n removed ids, nat_eq.reflects m n)

known_ids-append :
    (a b : List RailItem) (groups : Dict String ServerGroup) (n : ℕ)
    → includes n (known_ids (a ++ b) groups)
      ≡ (includes n (known_ids a groups) || includes n (known_ids b groups))
unfolding known_ids
known_ids-append [] b groups n = refl
known_ids-append (RailItem.server m ∷ a) b groups n = ground (arith, known_ids-append a b groups n)
known_ids-append (RailItem.group g ∷ a) b groups n = ground (
  arith,
  known_ids-append a b groups n,
  includes-append n (ids_at g groups) (known_ids (a ++ b) groups),
  includes-append n (ids_at g groups) (known_ids a groups),
)

known_ids-as_servers :
    (ids : List ℕ) (groups : Dict String ServerGroup) → known_ids (as_servers ids) groups ≡ ids
unfolding known_ids
known_ids-as_servers [] groups = refl
known_ids-as_servers (n ∷ ids) groups = ap (λ l. n ∷ l) (known_ids-as_servers ids groups)

pub lookup-delete_all :
    (ids : List String) (id : String) (groups : Dict String ServerGroup)
    → lookup id (delete_all ids groups) ≡ (if includes id ids then none else lookup id groups)
unfolding delete_all
lookup-delete_all [] id groups = refl
lookup-delete_all (i ∷ ids) id groups =
    ground (arith, lookup-delete_all ids id (delete i groups), lookup-delete i id groups)

-- A group that is not dissolved keeps the servers that are not removed.
ids_at-shrink_all :
    (removed : List ℕ) (id : String) (groups : Dict String ServerGroup)
    → includes id (groups_to_dissolve removed groups) ≡ false
    → ids_at id (shrink_all removed groups) ≡ without removed (ids_at id groups)
unfolding groups_to_dissolve shrink lookup
ids_at-shrink_all removed id [] h = refl
ids_at-shrink_all removed id ((i, g) ∷ groups) h =
    ground (arith, ids_at-shrink_all removed id groups, string_eq.reflects i id)

includes-survivors :
    (removed : List ℕ) (ids : List String) (groups : Dict String ServerGroup) (id : String) (n : ℕ)
    → includes id ids ≡ true
    → includes n (ids_at id groups) ≡ true
    → includes n removed ≡ false
    → includes n (survivors removed ids groups) ≡ true
unfolding survivors
includes-survivors removed (i ∷ ids) groups id n here known kept = ground (
  arith,
  includes-survivors removed ids groups id n,
  includes-append n (without removed (ids_at i groups)) (survivors removed ids groups),
  includes-without n removed (ids_at i groups),
  string_eq.reflects i id,
)
includes-survivors removed [] groups id n here known kept = cc

-- A survivor comes from a group, and is not removed.
survivors-from :
    (removed : List ℕ) (ids : List String) (groups : Dict String ServerGroup) (n : ℕ)
    → includes n (survivors removed ids groups) ≡ true
    → (id : String) × (includes n (ids_at id groups) ≡ true) × (includes n removed ≡ false)
unfolding survivors
survivors-from removed [] groups n h = cc
survivors-from removed (i ∷ ids) groups n h =
    elim (Bool-cases (includes n (without removed (ids_at i groups)))) [
      | inl here ↦ (
        i,
        ground (arith, includes-without n removed (ids_at i groups)),
        ground (arith, includes-without n removed (ids_at i groups)),
      )
      | inr later ↦ survivors-from removed ids groups n (
          ground (
            arith,
            includes-append n (without removed (ids_at i groups)) (survivors removed ids groups),
          ))
    ]

group_of-known :
    (order : List RailItem) (groups : Dict String ServerGroup) (id : String) (n : ℕ)
    → any (is_group id) order ≡ true
    → includes n (ids_at id groups) ≡ true
    → includes n (known_ids order groups) ≡ true
unfolding known_ids
group_of-known [] groups id n placed h = cc
group_of-known (RailItem.server m ∷ order) groups id n placed h =
    ground (arith, group_of-known order groups id n placed h)
group_of-known (RailItem.group g ∷ order) groups id n placed h = ground (
  arith,
  group_of-known order groups id n,
  string_eq.reflects g id,
  includes-append n (ids_at g groups) (known_ids order groups),
)

-- The part of a sync that follows the groups: what is left of the order and of the groups.
module _ (removed : List ℕ) (groups : Dict String ServerGroup) (n : ℕ) where
  abbrev gone : List String
  gone = groups_to_dissolve removed groups

  abbrev left : Dict String ServerGroup
  left = delete_all (groups_to_dissolve removed groups) (shrink_all removed groups)

  ids_at-left :
      (id : String)
      → includes id (groups_to_dissolve removed groups) ≡ false
      → includes n (ids_at id left) ≡ (includes n (ids_at id groups) && not (includes n removed))
  ids_at-left id h =
      ap (λ o. includes n (ids_of o))
        (lookup-delete_all (groups_to_dissolve removed groups) id (shrink_all removed groups)
          ∙ ap (λ b. if b then none else lookup id (shrink_all removed groups)) h)
      ∙ ap (includes n) (ids_at-shrink_all removed id groups h)
      ∙ includes-without n removed (ids_at id groups)

  stays-known :
      (order : List RailItem)
      → includes n (known_ids (filter (stays removed gone) order) left) ≡ true
      → (includes n (known_ids order groups) ≡ true) × (includes n removed ≡ false)
  unfolding known_ids
  stays-known [] h = cc
  stays-known (RailItem.server m ∷ order) h = ground (arith, stays-known order, nat_eq.reflects m n)
  stays-known (RailItem.group g ∷ order) h = ground (
    arith,
    stays-known order,
    ids_at-left g,
    includes-append n (ids_at g groups) (known_ids order groups),
    includes-append n (ids_at g left) (known_ids (filter (stays removed gone) order) left),
  )

  known-stays :
      (order : List RailItem)
      → includes n (known_ids order groups) ≡ true
      → includes n removed ≡ false
      → (includes n (known_ids (filter (stays removed gone) order) left)
          || includes n (survivors removed gone groups))
        ≡ true
  unfolding known_ids
  known-stays [] h kept = cc
  known-stays (RailItem.server m ∷ order) h kept =
      ground (arith, known-stays order, nat_eq.reflects m n)
  known-stays (RailItem.group g ∷ order) h kept = ground (
    arith,
    known-stays order,
    ids_at-left g,
    includes-survivors removed gone groups g n,
    includes-append n (ids_at g groups) (known_ids order groups),
    includes-append n (ids_at g left) (known_ids (filter (stays removed gone) order) left),
  )

module _ (server_ids : List ℕ) (s : RailState) (n : ℕ) where
  abbrev known : List ℕ
  known = known_ids s.order s.groups

  shown-sync_changes :
      IsPlaced s
      → is_shown n (sync_changes (without known server_ids) (without server_ids known) s)
        ≡ includes n server_ids
  unfolding sync_changes
  shown-sync_changes placed =
      known_ids-append kept (as_servers saved ++ as_servers added) groups n
      ∙ ap (λ b. includes n (known_ids kept groups) || b)
          (known_ids-append (as_servers saved) (as_servers added) groups n)
      ∙ ap
          (λ l.
            includes n (known_ids kept groups)
            || (includes n l || includes n (known_ids (as_servers added) groups)))
          (known_ids-as_servers saved groups)
      ∙ ap (λ l. includes n (known_ids kept groups) || (includes n saved || includes n l))
          (known_ids-as_servers added groups)
      ∙ together
    where
      removed : List ℕ
      removed = without server_ids known

      added : List ℕ
      added = without known server_ids

      groups : Dict String ServerGroup
      groups = left removed s.groups n

      kept : List RailItem
      kept = filter (stays removed (groups_to_dissolve removed s.groups)) s.order

      saved : List ℕ
      saved = survivors removed (groups_to_dissolve removed s.groups) s.groups

      saved-known :
          includes n saved ≡ true → (includes n known ≡ true) × (includes n removed ≡ false)
      saved-known h =
          let (id, here, kept) =
            survivors-from removed (groups_to_dissolve removed s.groups) s.groups n h in
          (
            group_of-known s.order s.groups id n
                (placed id (is_some_of id (lookup id s.groups) here)) here,
            kept,
          )
        where
          is_some_of :
              (id : String) (o : Option ServerGroup)
              → includes n (ids_of o) ≡ true
              → is_some o ≡ true
          is_some_of id none h = cc
          is_some_of id (some g) h = refl

      together :
          (includes n (known_ids kept groups) || (includes n saved || includes n added))
          ≡ includes n server_ids
      together = ground (
        arith,
        stays-known removed s.groups n s.order,
        known-stays removed s.groups n s.order,
        saved-known,
        includes-without n known server_ids,
        includes-without n server_ids known,
      )

empty-without :
    (n : ℕ) (a b : List ℕ)
    → is_empty_list (without a b) ≡ true
    → (includes n b ≡ true → includes n a ≡ true)
empty-without n a b h here = none_left (without a b) h (includes-without n a b)
  where
    none_left :
        (l : List ℕ)
        → is_empty_list l ≡ true
        → includes n l ≡ (includes n b && not (includes n a))
        → includes n a ≡ true
    none_left [] h e = ground arith
    none_left (x ∷ l) h e = cc

-- After a sync the rail shows exactly the servers that the user has joined, whatever it showed before, if
-- every group stands in the order.
pub shown-sync_servers :
    (server_ids : List ℕ) (s : RailState) (n : ℕ)
    → IsPlaced s
    → is_shown n (sync_servers server_ids s) ≡ includes n server_ids
unfolding sync_servers
shown-sync_servers server_ids s n placed =
    elim (Bool-cases
      (is_empty_list (without shown server_ids) && is_empty_list (without server_ids shown))) [
        | inl same ↦
            rw same
              (ground (arith, empty-without n shown server_ids, empty-without n server_ids shown))
        | inr changed ↦ rw changed (shown-sync_changes server_ids s n placed)
      ]
  where
    shown : List ℕ
    shown = known_ids s.order s.groups
