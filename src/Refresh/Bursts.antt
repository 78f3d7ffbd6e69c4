-- ===== src/Refresh/Bursts.antt =====
-- What a burst of marks and the flush after it do.
use mathlib.Core.List.{append_assoc}
use letschat.Common.{
  is_some, nat_eq, String, ◌≡◌, refl, sym, ap, ◌∙◌, Bool, true, not, ◌&&◌, ◌||◌, List, [], ◌∷◌,
  ◌++◌, map, Dict, insert, if◌then◌else◌, ◌==◌, string_eq, any, filter, includes, arith, Bool-cases,
  inl, inr, eq_of_beq,
}
use letschat.Refresh.{
  Pending, nothing_pending, schedule_refresh, run_all, flush_refreshes, set_timer,
}

-- A mark: the store that went stale, and whether the unread counts did.
pub record Mark : Type 0 where
  pub key : String
  pub also_unread : Bool

-- The keys without the repetitions.
abbrev pub without_repetitions : List String → List String
without_repetitions [] = []
without_repetitions (k ∷ ks) = k ∷ filter (λ j. not (j == k)) (without_repetitions ks)

-- The keys noted, with one more unless it is there.
abbrev note : List String → String → List String
note seen k = if includes k seen then seen else seen ++ k ∷ []

abbrev note_all : List String → List String → List String
note_all seen [] = seen
note_all seen (k ∷ ks) = note_all (note seen k) ks

includes-append :
    (j k : String) (seen : List String) → includes j (seen ++ k ∷ []) ≡ (includes j seen || k == j)
includes-append j k [] = ground arith
includes-append j k (x ∷ xs) = ground (arith, includes-append j k xs)

filter-filter :
    (p q r : String → Bool)
    → ((x : String) → r x ≡ (q x && p x))
    → (xs : List String) → filter p (filter q xs) ≡ filter r xs
filter-filter p q r h [] = refl
filter-filter p q r h (x ∷ xs) = ground (arith, filter-filter p q r h xs, h x)

append_none : (xs : List String) → xs ++ [] ≡ xs
append_none [] = refl
append_none (x ∷ xs) = ap (λ ys. x ∷ ys) (append_none xs)

note_all-without_repetitions :
    (seen ks : List String)
    → note_all seen ks ≡ seen ++ filter (λ j. not (includes j seen)) (without_repetitions ks)
note_all-without_repetitions seen [] = sym (append_none seen)
note_all-without_repetitions seen (k ∷ ks) = elim (Bool-cases (includes k seen)) [
  | inl old ↦ rw old (
      note_all-without_repetitions seen ks
      ∙ ap (λ l. seen ++ l)
          (sym (
            filter-filter (λ j. not (includes j seen)) (λ j. not (j == k))
              (λ j. not (includes j seen)) (λ x. ground (arith, string_eq.reflects x k, old))
              (without_repetitions ks))))
  | inr new ↦ rw new (
      note_all-without_repetitions (seen ++ k ∷ []) ks
      ∙ append_assoc seen (k ∷ []) _
      ∙ ap (λ l. seen ++ k ∷ l)
          (sym (
            filter-filter (λ j. not (includes j seen)) (λ j. not (j == k))
              (λ j. not (includes j (seen ++ k ∷ [])))
              (λ x.
                ground
                  (arith, string_eq.reflects x k, string_eq.reflects k x, includes-append x k seen))
              (without_repetitions ks))))
]

module _ {S : Type 0} (refresh : String → S → S) where
  -- The marks of a burst, where a key always stands for the same refresh.
  abbrev pub mark_all : List Mark → Pending S → Pending S
  mark_all [] p = p
  mark_all (m ∷ ms) p = mark_all ms (schedule_refresh m.key (refresh m.key) m.also_unread p)

  abbrev table : List String → Dict String (S → S)
  table = map (λ k. (k, refresh k))

  insert-table :
      (k : String) (ks : List String) → insert k (refresh k) (table ks) ≡ table (note ks k)
  unfolding insert
  insert-table k [] = refl
  insert-table k (j ∷ js) = elim (Bool-cases (j == k)) [
    | inl same ↦ rw same (ap (λ x. (x, refresh x) ∷ table js) (sym (eq_of_beq j k same)))
    | inr other ↦ rw other (elim (Bool-cases (includes k js)) [
      | inl old ↦ rw old (
          ap (λ d. (j, refresh j) ∷ d)
            (insert-table k js ∙ ap (λ b. table (if b then js else js ++ k ∷ [])) old))
      | inr new ↦ rw new (
          ap (λ d. (j, refresh j) ∷ d)
            (insert-table k js ∙ ap (λ b. table (if b then js else js ++ k ∷ [])) new))
    ])
  ]

  set_timer-keeps :
      (p : Pending S)
      → ((set_timer p).refreshes ≡ p.refreshes)
        × ((set_timer p).unread_is_stale ≡ p.unread_is_stale)
  unfolding set_timer
  set_timer-keeps p = elim (Bool-cases (is_some p.flush_handle)) [
    | inl armed ↦ rw armed (refl, refl)
    | inr unarmed ↦ rw unarmed (refl, refl)
  ]

  mark_all-table :
      (ms : List Mark) (ks : List String) (p : Pending S)
      → p.refreshes ≡ table ks
      → ((mark_all ms p).refreshes ≡ table (note_all ks (map (λ m. m.key) ms)))
        × ((mark_all ms p).unread_is_stale ≡ (p.unread_is_stale || any (λ m. m.also_unread) ms))
  unfolding schedule_refresh
  mark_all-table [] ks p e = (e, ground arith)
  mark_all-table (m ∷ ms) ks p e =
      let marked : Pending S = record p {
        refreshes = insert m.key (refresh m.key) p.refreshes;
        unread_is_stale = if m.also_unread then true else p.unread_is_stale;
      } in
      let (refreshes, unread) = set_timer-keeps marked in
      let (there, asked) =
        mark_all-table ms (note ks m.key) (set_timer marked)
          (refreshes ∙ ap (insert m.key (refresh m.key)) e ∙ insert-table m.key ks) in
      (there, asked ∙ ap (λ b. b || any (λ m. m.also_unread) ms) unread ∙ ground arith)

  abbrev pub run_keys : List String → S → S
  run_keys [] s = s
  run_keys (k ∷ ks) s = run_keys ks (refresh k s)

  run_all-table : (ks : List String) (s : S) → run_all (table ks) s ≡ run_keys ks s
  run_all-table [] s = refl
  run_all-table (k ∷ ks) s = run_all-table ks (refresh k s)

  filter_all : (xs : List String) → filter (λ j. true) xs ≡ xs
  filter_all [] = refl
  filter_all (x ∷ xs) = ap (λ ys. x ∷ ys) (filter_all xs)

  -- The flush after a burst rebuilds each store that was marked once, in the order of the first marks,
  -- and then, if a mark asked for it, the unread counts, once.
  pub flush-mark_all :
      (recompute : S → S) (ms : List Mark) (s : S)
      → let t = run_keys (without_repetitions (map (λ m. m.key) ms)) s in
        (flush_refreshes recompute (mark_all ms nothing_pending) s).1
        ≡ (if any (λ m. m.also_unread) ms then recompute t else t)
  unfolding flush_refreshes
  flush-mark_all recompute ms s =
      let (there, asked) = mark_all-table ms [] nothing_pending refl in
      let keys = map (λ m. m.key) ms in
      ap
        (λ b.
          if b
          then recompute (run_all (mark_all ms nothing_pending).refreshes s)
          else run_all (mark_all ms nothing_pending).refreshes s)
        asked
      ∙ ap (λ t. if any (λ m. m.also_unread) ms then recompute t else t)
          (ap (λ d. run_all d s) there
            ∙ run_all-table (note_all [] keys) s
            ∙ ap (λ ks. run_keys ks s)
                (note_all-without_repetitions [] keys ∙ filter_all (without_repetitions keys)))
