-- ===== src/Connection/Stale.antt =====
-- After a sign-out nothing opens a socket until the program connects again, whatever the sockets, timers
-- and attempts from before still do.
use letschat.Connection.Resumes.{
  resume_failed-IsSignedOut, wake-IsSignedOut, resume_applied-IsSignedOut,
}
use letschat.Connection.SignedOut.{
  AllOlder, IsSignedOut, Frame-IsSignedOut, disconnect-IsSignedOut, AllOlder-suc, scheduled,
}
use letschat.Common.{
  ℕ, ◌+◌, ◌≡◌, refl, sym, subst, List, [], ◌∷◌, nat_eq, string_eq, option_eq, All,
}
use letschat.Connection.Ages.{run-IsAged}
use letschat.Connection.{Client, Environment}
use letschat.Connection.Attempts.{resume_applied, resume_failed}
use letschat.Connection.Handlers.{step-kept}
use letschat.Connection.Events.{
  Event, user_connects, user_disconnects, step, run, on_reconnect_fired,
}

module _ (env : Environment) {n : ℕ} where
  on_reconnect_fired-IsSignedOut :
      (c : Client) → IsSignedOut n c → IsSignedOut n (on_reconnect_fired env c)
  unfolding on_reconnect_fired
  on_reconnect_fired-IsSignedOut c s = simp (s.no_timer) s

  step-IsSignedOut :
      (event : Event) (c : Client)
      → ¬ (event ≡ user_connects)
      → IsSignedOut n c
      → IsSignedOut n (step env event c)
  step-IsSignedOut event c other s =
      step-kept env (IsSignedOut n) (λ c d f t. Frame-IsSignedOut f t) (λ c t. scheduled c t)
        (λ details id c t.
          wake-IsSignedOut env (resume_failed env details) (resume_failed-IsSignedOut env details)
            id c t)
        (λ id c t.
          wake-IsSignedOut env (resume_applied env) (resume_applied-IsSignedOut env) id c t)
        event c (λ e. on_reconnect_fired-IsSignedOut c s) (λ e. absurd (other e))
        (λ e. disconnect-IsSignedOut n c s.opened (AllOlder-suc c.generation c.attempts s.older)) s

  run-IsSignedOut :
      (events : List Event) (c : Client)
      → All (λ event. ¬ (event ≡ user_connects)) events
      → IsSignedOut n c
      → IsSignedOut n (run env events c)
  run-IsSignedOut [] c others s = s
  run-IsSignedOut (event ∷ events) c (other, others) s =
      run-IsSignedOut events (step env event c) others (step-IsSignedOut event c other s)

-- Whatever has happened since the client started with no attempt, after a sign-out no socket is opened and
-- no attempt starts until the program connects again, and no reconnect is planned, whatever the sockets,
-- timers and attempts from before still do and in whatever order.
pub run-disconnect-IsSignedOut :
    (env : Environment) (c : Client) (before after : List Event)
    → c.attempts ≡ []
    → All (λ event. ¬ (event ≡ user_connects)) after
    → let d = run env before c in
      IsSignedOut d.next_number (run env after (step env user_disconnects d))
unfolding step
run-disconnect-IsSignedOut env c before after idle others =
    let d = run env before c in
    let aged = run-IsAged env before c (subst (AllOlder (c.generation + 1)) (sym idle) tt) in
    run-IsSignedOut env after _ others (disconnect-IsSignedOut d.next_number d refl aged)
