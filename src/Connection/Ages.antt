-- ===== src/Connection/Ages.antt =====
-- No attempt is of a later session than the client.
use letschat.Common.{
  ℕ, ◌+◌, ◌<◌, String, ◌≡◌, refl, sym, subst, Bool, true, false, not, ◌&&◌, Bool-cases, inl, inr,
  Option, none, some, List, [], ◌∷◌, ◌++◌, if◌then◌else◌, ◌==◌, nat_eq, string_eq, arith, is_some,
  filter, find, map, ◌||◌,
}
use letschat.Config.{ServerConfig}
use letschat.Connection.{
  ConnectionStatus, Failure, Attempt, Client, Environment, set_status, is_live, close_connection,
  teardown_connection,
}
use letschat.Connection.Lifecycle.{schedule_reconnect, disconnect, start_heartbeat}
use letschat.Connection.SignedOut.{
  older_rest, older_found, AllOlder, AllOlder-suc, Frame, close_connection-Frame, if-Frame,
}
use letschat.Connection.Resumes.{rewrite_uri-Frame}
use letschat.Connection.Handlers.{step-kept}
use letschat.Connection.Events.{
  Event, step, run, wake, awake, waits_for, after_connect, on_reconnect_fired,
}
use letschat.Connection.Attempts.{
  Pass, is_abandoned, open_socket, try_candidates, first_pass, second_pass, after_failure,
  end_failed, resume_failed, resume_applied, rewrite_uri, connect, connect_on, new_attempt,
  connecting_client, start_attempt, join_attempt, is_reauthentication,
}

-- Every attempt that waits started in this session or in an earlier one.
abbrev pub IsAged : Client → Type 0
IsAged c = AllOlder (c.generation + 1) c.attempts

Frame-IsAged : (c d : Client) → Frame c d → IsAged c → IsAged d
Frame-IsAged c d f s =
    subst (λ l. AllOlder (d.generation + 1) l) (sym f.attempts)
      (subst (λ g. AllOlder (g + 1) c.attempts) (sym f.generation) s)

if-IsAged : (b : Bool) (c d : Client) → IsAged c → IsAged d → IsAged (if b then c else d)
if-IsAged true c d s t = s
if-IsAged false c d s t = t

schedule_reconnect-IsAged : (c : Client) → IsAged c → IsAged (schedule_reconnect c)
unfolding schedule_reconnect
schedule_reconnect-IsAged c s = if-IsAged _ c _ s s

teardown_connection-IsAged : (c : Client) → IsAged c → IsAged (teardown_connection true c)
unfolding teardown_connection
teardown_connection-IsAged c s =
    Frame-IsAged c (close_connection c.connection c) (close_connection-Frame c.connection c) s

disconnect-IsAged : (c : Client) → IsAged c → IsAged (disconnect c)
unfolding disconnect
disconnect-IsAged c s = teardown_connection-IsAged _ (AllOlder-suc (c.generation + 1) c.attempts s)

-- An attempt of this session or an earlier one.
abbrev IsOf : Client → Attempt → Type 0
IsOf c a = a.generation < c.generation + 1

-- What a pass leaves: the attempts are of this session or an earlier one, and so is the one that ran.
abbrev IsPassed : Attempt → Client × Pass → Type 0
IsPassed a (c, Pass.waits b) = IsAged c × IsOf c b
IsPassed a (c, Pass.threw f) = IsAged c × IsOf c a

module _ (env : Environment) where
  teardown_connection-generation :
      (c : Client) → (teardown_connection true c).generation ≡ c.generation
  unfolding teardown_connection
  teardown_connection-generation c = (close_connection-Frame c.connection c).generation

  try_candidates-IsPassed :
      (uris : List String) (a : Attempt) (c : Client)
      → IsAged c
      → IsOf c a
      → IsPassed a (try_candidates env uris a c)
  unfolding try_candidates open_socket
  try_candidates-IsPassed [] a c s o = (s, o)
  try_candidates-IsPassed (uri ∷ rest) a c s o =
      let later =
        try_candidates-IsPassed rest (record a { errors = a.errors ++ (uri, "") ∷ [] })
          (teardown_connection true c) (teardown_connection-IsAged c s)
          (subst (λ g. a.generation < g + 1) (sym (teardown_connection-generation c)) o) in
      elim (Bool-cases (is_abandoned a c)) [
        | inl gone ↦ rw gone (s, o)
        | inr current ↦ elim (Bool-cases (env.builds uri)) [
          | inl built ↦ rw current (rw built (s, o))
          | inr failed ↦ rw current (rw failed later)
        ]
      ]

  after_failure-IsAged : (f : Failure) (c : Client) → IsAged c → IsAged (after_failure env f c).0
  unfolding after_failure
  after_failure-IsAged f c s = elim (Bool-cases (is_some c.stored_token && env.names_token f)) [
    | inl rejected ↦ rw rejected (disconnect-IsAged _ s)
    | inr other ↦ rw other s
  ]

  end_failed-IsAged :
      (a : Attempt) (p : Client × Failure) → IsAged p.0 → IsAged (end_failed env a p)
  unfolding end_failed set_status
  end_failed-IsAged a (c, f) s =
      let silent = is_abandoned a c && not (is_reauthentication env f) in
      let quiet = if-IsAged silent c (set_status ConnectionStatus.error (some f) c) s s in
      let d : Client = record (if silent then c else set_status ConnectionStatus.error (some f) c) {
        connect_promise = none;
      } in
      let own =
        if-IsAged (not silent && a.own_retry) _ d (schedule_reconnect-IsAged d quiet) quiet in
      if-IsAged a.joined_retry _ _ (schedule_reconnect-IsAged _ own) own

  second_pass-IsAged :
      (a : Attempt) (p : Client × Pass) → IsPassed a p → IsAged (second_pass env a p)
  unfolding second_pass
  second_pass-IsAged a (c, Pass.waits b) (s, o) = (o, s)
  second_pass-IsAged a (c, Pass.threw f) (s, o) = end_failed-IsAged a _ (after_failure-IsAged f c s)

  first_pass-IsAged : (a : Attempt) (p : Client × Pass) → IsPassed a p → IsAged (first_pass env a p)
  unfolding first_pass
  first_pass-IsAged a (c, Pass.waits b) (s, o) = (o, s)
  first_pass-IsAged a (c, Pass.threw f) (s, h) =
      let plain : Attempt = record a { can_downgrade = false; report_errors = true; errors = [] } in
      let d : Client = record c { web_compression_downgraded = true } in
      elim (Bool-cases (a.can_downgrade && not (is_abandoned a c))) [
        | inl again ↦
            rw again (second_pass-IsAged plain _ (try_candidates-IsPassed a.candidates plain d s h))
        | inr over ↦ rw over (end_failed-IsAged a _ (after_failure-IsAged f c s))
      ]

  resume_failed-IsAged :
      (details : String) (a : Attempt) (c : Client)
      → IsOf c a
      → IsAged c
      → IsAged (resume_failed env details a c)
  unfolding resume_failed
  resume_failed-IsAged details a c o s =
      let b : Attempt = record a { errors = a.errors ++ (a.candidate, details) ∷ [] } in
      first_pass-IsAged b (try_candidates env a.rest b c) (try_candidates-IsPassed a.rest b c s o)

  resume_applied-IsAged :
      (a : Attempt) (c : Client) → IsOf c a → IsAged c → IsAged (resume_applied env a c)
  unfolding resume_applied start_heartbeat
  resume_applied-IsAged a c o s =
      let d : Client = if a.candidate == a.uri then c else rewrite_uri env a c.config.config c in
      let kept : Frame c d =
        if-Frame (a.candidate == a.uri) c _
          (record {
            intentional = refl;
            timer = refl;
            number = refl;
            generation = refl;
            attempts = refl;
          })
          (rewrite_uri-Frame env a c.config.config c) in
      let t = Frame-IsAged c d kept s in
      if-IsAged (is_abandoned a d) d (start_heartbeat (record d { reconnect_attempts = 0 })) t t

  wake-IsAged :
      (resume : Attempt → Client → Client)
      → ((a : Attempt) (c : Client) → IsOf c a → IsAged c → IsAged (resume a c))
      → (id : ℕ) (c : Client) → IsAged c
      → IsAged (wake env resume id c)
  unfolding wake
  wake-IsAged resume keeps id c s = woken (find (waits_for id) c.attempts) refl
    where
      rest : Client
      rest = record c { attempts = filter (λ a. not (waits_for id a)) c.attempts }

      calm : IsAged rest
      calm = older_rest (c.generation + 1) id c.attempts s

      woken :
          (o : Option Attempt)
          → find (waits_for id) c.attempts ≡ o
          → IsAged (awake env resume o rest)
      woken none e = calm
      woken (some a) e = keeps a rest (older_found (c.generation + 1) id c.attempts a s e) calm

  start_attempt-IsAged :
      (from_timer : Bool) (o : Option ServerConfig) (c : Client)
      → IsAged c
      → IsAged (start_attempt env from_timer o c).0
  unfolding start_attempt set_status
  start_attempt-IsAged from_timer none c s = s
  start_attempt-IsAged from_timer (some config) c s =
      let a = new_attempt env from_timer config c in
      let d = connecting_client env c in
      first_pass-IsAged a (try_candidates env a.candidates a d)
        (try_candidates-IsPassed a.candidates a d s (omega arith))

  joined :
      (g number : ℕ) (from_timer : Bool) (attempts : List Attempt)
      → AllOlder g attempts
      → AllOlder g (
          map {A = Attempt}
            (λ a. record a {
              joined_retry =
                  if a.number == number then from_timer || a.joined_retry else a.joined_retry;
            })
            attempts)
  joined g number from_timer [] o = tt
  joined g number from_timer (a ∷ attempts) (h, o) = (h, joined g number from_timer attempts o)

  connect-IsAged : (from_timer : Bool) (c : Client) → IsAged c → IsAged (connect env from_timer c).0
  unfolding connect connect_on join_attempt
  connect-IsAged from_timer c s = elim (Bool-cases (is_live c.connection c.sockets)) [
    | inl live ↦ rw live s
    | inr dead ↦ rw dead (on c.connect_promise)
  ]
    where
      d : Client
      d = record c { intentional_disconnect = false }

      on : (o : Option ℕ) → IsAged (connect_on env from_timer o d).0
      on none = start_attempt-IsAged from_timer c.config.config d s
      on (some number) = joined (c.generation + 1) number from_timer c.attempts s

  after_connect-IsAged : (p : Client × Option Failure) → IsAged p.0 → IsAged (after_connect env p)
  unfolding after_connect
  after_connect-IsAged (c, none) s = s
  after_connect-IsAged (c, some f) s = schedule_reconnect-IsAged c s

  on_reconnect_fired-IsAged : (c : Client) → IsAged c → IsAged (on_reconnect_fired env c)
  unfolding on_reconnect_fired
  on_reconnect_fired-IsAged c s =
      if-IsAged c.has_reconnect_timer _ c
        (after_connect-IsAged _ (connect-IsAged true (record c { has_reconnect_timer = false }) s))
        s

  step-IsAged : (event : Event) (c : Client) → IsAged c → IsAged (step env event c)
  step-IsAged event c s =
      step-kept env IsAged Frame-IsAged schedule_reconnect-IsAged
        (λ details id c t.
          wake-IsAged (resume_failed env details) (resume_failed-IsAged details) id c t)
        (λ id c t. wake-IsAged (resume_applied env) resume_applied-IsAged id c t) event c
        (λ e. on_reconnect_fired-IsAged c s) (λ e. connect-IsAged false c s)
        (λ e. disconnect-IsAged c s) s

  -- Whatever happens, no attempt that waits is of a later session than the client.
  pub run-IsAged : (events : List Event) (c : Client) → IsAged c → IsAged (run env events c)
  run-IsAged [] c s = s
  run-IsAged (event ∷ events) c s = run-IsAged events (step env event c) (step-IsAged event c s)
