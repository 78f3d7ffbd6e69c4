-- ===== src/Refresh.antt =====
-- The coalesced rebuilds of the stores, src/lib/spacetimedb/events.ts. A refresh is a function on the
-- state `S` of the stores. `timers` is what the host holds of it: the handles of `setTimeout` whose time has not
-- come, and that no `clearTimeout` took back.
pub mod Bursts
pub mod Timers
mod Tests
use letschat.Common.{
  ℕ, ◌+◌, Option, none, some, is_some, not, filter, includes, ◌==◌, nat_eq, String, Bool, true,
  false, ◌||◌, List, [], ◌∷◌, map, Dict, insert, if◌then◌else◌, string_eq,
}

abbrev pub clear_timeout : ℕ → List ℕ → List ℕ
clear_timeout id = filter (λ other. not (other == id))

-- `if (flushHandle !== null) clearTimeout(flushHandle)`
clear_timer : Option ℕ → List ℕ → List ℕ
clear_timer none timers = timers
clear_timer (some id) timers = clear_timeout id timers

module _ (S : Type 0) where
  -- `pendingRefreshes`, `unreadIsStale` and `flushHandle`, and the timers of the host, with the next handle.
  pub record Pending : Type 0 where
    pub refreshes : Dict String (S → S)
    pub unread_is_stale : Bool
    pub flush_handle : Option ℕ
    pub timers : List ℕ
    pub next_handle : ℕ

module _ {S : Type 0} where
  abbrev pub nothing_pending : Pending S
  nothing_pending = record {
    refreshes = [];
    unread_is_stale = false;
    flush_handle = none;
    timers = [];
    next_handle = 0;
  }

  -- `flushHandle = setTimeout(...)`, unless there is a handle.
  unfoldable pub set_timer : Pending S → Pending S
  set_timer p = if is_some p.flush_handle then p else record p {
    flush_handle = some p.next_handle;
    timers = p.next_handle ∷ p.timers;
    next_handle = p.next_handle + 1;
  }

  unfoldable pub schedule_refresh : String → (S → S) → Bool → Pending S → Pending S
  unfolding set_timer
  schedule_refresh key refresh also_unread p = set_timer (record p {
    refreshes = insert key refresh p.refreshes;
    unread_is_stale = if also_unread then true else p.unread_is_stale;
  })

  abbrev pub run_all : Dict String (S → S) → S → S
  run_all [] s = s
  run_all ((key, refresh) ∷ rest) s = run_all rest (refresh s)

  -- Every pending refresh, then, if some mark asked for it, the unread counts and the badge
  -- (`recompute`).
  unfoldable pub flush_refreshes : (S → S) → Pending S → S → Pending S × S
  flush_refreshes recompute p s =
      let t = run_all p.refreshes s in
      (
        record p { refreshes = []; unread_is_stale = false; flush_handle = none },
        if p.unread_is_stale then recompute t else t,
      )

  unfoldable pub cancel_pending_refreshes : Pending S → Pending S
  unfolding clear_timer
  cancel_pending_refreshes p = record p {
    refreshes = [];
    unread_is_stale = false;
    flush_handle = none;
    timers = clear_timer p.flush_handle p.timers;
  }

  -- The host fires a timer that is set, once.
  unfoldable pub fire_timer : ℕ → (S → S) → Pending S → S → Pending S × S
  unfolding flush_refreshes
  fire_timer id recompute p s =
      if includes id p.timers
      then flush_refreshes recompute (record p { timers = clear_timeout id p.timers }) s
      else (p, s)

  -- A live-table handler: nothing before the subscription is applied.
  unfoldable pub stale : Bool → String → (S → S) → Bool → Pending S → Pending S
  unfolding schedule_refresh
  stale is_live key refresh also_unread p =
      if is_live then schedule_refresh key refresh also_unread p else p
