-- ===== src/Refresh/Tests.antt =====
-- Bursts of marks over a log of what was rebuilt.
use letschat.Common.{refl, insert, String, ◌≡◌, true, false, List, [], ◌∷◌, ◌++◌}
use letschat.Refresh.{nothing_pending, flush_refreshes, stale, schedule_refresh, fire_timer}
use letschat.Refresh.Bursts.{Mark, mark_all, flush-mark_all}
use letschat.Refresh.Timers.{Action, IsArmed, run, run-nothing_pending-IsArmed}

abbrev log : String → List String → List String
log key done = done ++ key ∷ []

abbrev burst : List Mark
burst =
    record { key = "messages"; also_unread = true }
    ∷ record { key = "users"; also_unread = false }
    ∷ record { key = "messages"; also_unread = true }
    ∷ []

flush-mark_all_example :
    (flush_refreshes (log "unread") (mark_all log burst nothing_pending) []).1
    ≡ "messages" ∷ "users" ∷ "unread" ∷ []
flush-mark_all_example = flush-mark_all log (log "unread") burst []

-- A mark, its flush, and a mark again.
abbrev twice : List (Action (List String))
twice =
    Action.mark true "users" (log "users") false
    ∷ Action.fires 0 (log "unread") []
    ∷ Action.mark true "messages" (log "messages") true
    ∷ []

marked_again : (run twice nothing_pending).timers ≡ 1 ∷ []
unfolding stale schedule_refresh fire_timer flush_refreshes insert
marked_again = refl

run-nothing_pending-IsArmed_example : IsArmed (run twice nothing_pending)
run-nothing_pending-IsArmed_example = run-nothing_pending-IsArmed twice
