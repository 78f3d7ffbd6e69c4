-- ===== src/Refresh/Timers.antt =====
-- The timer of the coalesced refreshes of src/lib/spacetimedb/events.ts.
use letschat.Common.{
  ℕ, none, some, ◌⊎◌, nat_eq, String, ◌≡◌, refl, ap, ◌∙◌, Bool, true, false, List, [], ◌∷◌,
  includes, arith, Bool-cases, inl, inr, string_eq,
}
use letschat.Refresh.{
  Pending, nothing_pending, schedule_refresh, flush_refreshes, cancel_pending_refreshes, stale,
  set_timer, clear_timer, fire_timer, clear_timeout,
}

-- What happens to the pending refreshes: a handler marks, the host's clock fires a timer, a teardown cancels.
pub data Action (S : Type 0) : Type 0 where
  mark : Bool → String → (S → S) → Bool → Action S
  fires : ℕ → (S → S) → S → Action S
  cancel : Action S

clear_timeout_lem : (id : ℕ) → clear_timeout id (id ∷ []) ≡ []
clear_timeout_lem id = ground (arith, nat_eq.reflects id id)

module _ {S : Type 0} where
  abbrev pub act : Action S → Pending S → Pending S
  act (mark is_live key refresh also_unread) p = stale is_live key refresh also_unread p
  act (fires id recompute s) p = (fire_timer id recompute p s).0
  act cancel p = cancel_pending_refreshes p

  abbrev pub run : List (Action S) → Pending S → Pending S
  run [] p = p
  run (a ∷ actions) p = run actions (act a p)

  -- Nothing is pending and the host holds no timer, or it holds exactly the one of the handle.
  abbrev pub IsArmed : Pending S → Type 0
  IsArmed p =
      ((p.flush_handle ≡ none) × (p.timers ≡ []) × (p.refreshes ≡ []) × (p.unread_is_stale ≡ false))
      ⊎ ((id : ℕ) × (p.flush_handle ≡ some id) × (p.timers ≡ id ∷ []))

  schedule_refresh-IsArmed :
      (key : String) (refresh : S → S) (also_unread : Bool) (p : Pending S)
      → IsArmed p
      → (id : ℕ) × ((schedule_refresh key refresh also_unread p).flush_handle ≡ some id)
        × ((schedule_refresh key refresh also_unread p).timers ≡ id ∷ [])
  unfolding schedule_refresh set_timer
  schedule_refresh-IsArmed key refresh also_unread p
        (inl (no_handle, no_timer, no_mark, no_unread)) =
      rw no_handle (p.next_handle, refl, ap (λ timers. p.next_handle ∷ timers) no_timer)
  schedule_refresh-IsArmed key refresh also_unread p (inr (id, handle, timer)) =
      rw handle (id, refl, timer)

  fire_timer-IsArmed :
      (id : ℕ) (recompute : S → S) (p : Pending S) (s : S)
      → IsArmed p
      → IsArmed (fire_timer id recompute p s).0
  unfolding fire_timer flush_refreshes
  fire_timer-IsArmed id recompute p s (inl (no_handle, no_timer, no_mark, no_unread)) =
      rw no_timer (inl (no_handle, refl, no_mark, no_unread))
  fire_timer-IsArmed id recompute p s (inr (timer_id, handle, timer)) =
      elim (Bool-cases (includes id p.timers)) [
        | inl set ↦ rw set (
            inl (
              refl,
              ground (arith, timer, set, nat_eq.reflects id timer_id, nat_eq.reflects timer_id id),
              refl,
              refl,
            ))
        | inr unset ↦ rw unset (inr (timer_id, handle, timer))
      ]

  act-IsArmed : (a : Action S) (p : Pending S) → IsArmed p → IsArmed (act a p)
  unfolding stale cancel_pending_refreshes clear_timer
  act-IsArmed (mark false key refresh also_unread) p armed = armed
  act-IsArmed (mark true key refresh also_unread) p armed =
      inr (schedule_refresh-IsArmed key refresh also_unread p armed)
  act-IsArmed (fires id recompute s) p armed = fire_timer-IsArmed id recompute p s armed
  act-IsArmed cancel p (inl (no_handle, no_timer, no_mark, no_unread)) =
      rw no_handle (inl (refl, no_timer, refl, refl))
  act-IsArmed cancel p (inr (id, handle, timer)) =
      rw handle (inl (refl, ap (clear_timeout id) timer ∙ clear_timeout_lem id, refl, refl))

  run-IsArmed : (actions : List (Action S)) (p : Pending S) → IsArmed p → IsArmed (run actions p)
  run-IsArmed [] p armed = armed
  run-IsArmed (a ∷ actions) p armed = run-IsArmed actions (act a p) (act-IsArmed a p armed)

  -- Whatever marks, timers that fire and cancels happen, either nothing is pending and the host holds no
  -- timer, or it holds exactly one, whose handle is kept.
  pub run-nothing_pending-IsArmed :
      (actions : List (Action S)) → IsArmed (run actions nothing_pending)
  run-nothing_pending-IsArmed actions =
      run-IsArmed actions nothing_pending (inl (refl, refl, refl, refl))
