-- ===== src/Connection/Overlaps.antt =====
-- A stale attempt and the one that runs: the numbers of sockets and attempts only grow.
use letschat.Common.{
  ℕ, suc, ◌<◌, ◌≤◌, String, ◌≡◌, ◌∙◌, refl, Bool, true, false, not, ◌&&◌, ◌||◌, Bool-cases, inl,
  inr, Option, none, some, List, [], ◌∷◌, ◌++◌, if◌then◌else◌, arith, is_some,
}
use letschat.Config.{ServerConfig}
use letschat.Connection.{
  ConnectionStatus, Failure, Attempt, Client, Environment, set_status, is_live, close_connection,
  change_socket, teardown_connection,
}
use letschat.Connection.Lifecycle.{schedule_reconnect, disconnect, stop_heartbeat}
use letschat.Connection.Resumes.{try_candidates-abandoned}
use letschat.Connection.Attempts.{
  Pass, is_abandoned, open_socket, try_candidates, first_pass, second_pass, after_failure,
  end_failed, resume_failed, connect, connect_on, new_attempt, connecting_client, join_attempt,
  start_attempt, is_reauthentication,
}

abbrev Grown : ℕ → Client → Type 0
Grown n c = n ≤ c.next_number

if-Grown : (b : Bool) (n : ℕ) (c d : Client) → Grown n c → Grown n d → Grown n (if b then c else d)
if-Grown true n c d g h = g
if-Grown false n c d g h = h

schedule_reconnect-Grown : (n : ℕ) (c : Client) → Grown n c → Grown n (schedule_reconnect c)
unfolding schedule_reconnect
schedule_reconnect-Grown n c h = ground (arith, h)

teardown_connection-Grown : (n : ℕ) (c : Client) → Grown n c → Grown n (teardown_connection true c)
unfolding teardown_connection change_socket
teardown_connection-Grown n c h = closed c.connection
  where
    closed : (o : Option ℕ) → n ≤ (close_connection o c).next_number
    closed none = h
    closed (some id) = h

disconnect-Grown : (n : ℕ) (c : Client) → Grown n c → Grown n (disconnect c)
unfolding disconnect
disconnect-Grown n c h = teardown_connection-Grown n _ h

module _ (env : Environment) where
  try_candidates-Grown :
      (n : ℕ) (uris : List String) (a : Attempt) (c : Client)
      → Grown n c
      → Grown n (try_candidates env uris a c).0
  unfolding try_candidates open_socket
  try_candidates-Grown n [] a c h = h
  try_candidates-Grown n (uri ∷ rest) a c h =
      let later =
        try_candidates-Grown n rest (record a { errors = a.errors ++ (uri, "") ∷ [] })
          (teardown_connection true c) (teardown_connection-Grown n c h) in
      elim (Bool-cases (is_abandoned a c)) [
        | inl gone ↦ rw gone h
        | inr current ↦ elim (Bool-cases (env.builds uri)) [
          | inl built ↦ rw current (rw built (omega (arith, h)))
          | inr failed ↦ rw current (rw failed later)
        ]
      ]

  after_failure-Grown :
      (n : ℕ) (f : Failure) (c : Client) → Grown n c → Grown n (after_failure env f c).0
  unfolding after_failure
  after_failure-Grown n f c h = elim (Bool-cases (is_some c.stored_token && env.names_token f)) [
    | inl rejected ↦ rw rejected (disconnect-Grown n _ h)
    | inr other ↦ rw other h
  ]

  end_failed-Grown :
      (n : ℕ) (a : Attempt) (p : Client × Failure) → Grown n p.0 → Grown n (end_failed env a p)
  unfolding end_failed set_status
  end_failed-Grown n a (c, f) h =
      let silent = is_abandoned a c && not (is_reauthentication env f) in
      let quiet = if-Grown silent n c (set_status ConnectionStatus.error (some f) c) h h in
      let d : Client = record (if silent then c else set_status ConnectionStatus.error (some f) c) {
        connect_promise = none;
      } in
      let own =
        if-Grown (not silent && a.own_retry) n _ d (schedule_reconnect-Grown n d quiet) quiet in
      if-Grown a.joined_retry n _ _ (schedule_reconnect-Grown n _ own) own

  second_pass-Grown :
      (n : ℕ) (a : Attempt) (p : Client × Pass) → Grown n p.0 → Grown n (second_pass env a p)
  unfolding second_pass
  second_pass-Grown n a (c, Pass.waits b) h = h
  second_pass-Grown n a (c, Pass.threw f) h = end_failed-Grown n a _ (after_failure-Grown n f c h)

  first_pass-Grown :
      (n : ℕ) (a : Attempt) (p : Client × Pass) → Grown n p.0 → Grown n (first_pass env a p)
  unfolding first_pass
  first_pass-Grown n a (c, Pass.waits b) h = h
  first_pass-Grown n a (c, Pass.threw f) h =
      let plain : Attempt = record a { can_downgrade = false; report_errors = true; errors = [] } in
      let d : Client = record c { web_compression_downgraded = true } in
      elim (Bool-cases (a.can_downgrade && not (is_abandoned a c))) [
        | inl again ↦
            rw again (second_pass-Grown n plain _ (try_candidates-Grown n a.candidates plain d h))
        | inr over ↦ rw over (end_failed-Grown n a _ (after_failure-Grown n f c h))
      ]

  start_attempt-Grown :
      (from_timer : Bool) (config : ServerConfig) (c : Client)
      → suc c.next_number ≤ (start_attempt env from_timer (some config) c).0.next_number
  unfolding start_attempt set_status
  start_attempt-Grown from_timer config c =
      let a = new_attempt env from_timer config c in
      let d = connecting_client env c in
      first_pass-Grown (suc c.next_number) a (try_candidates env a.candidates a d)
        (try_candidates-Grown (suc c.next_number) a.candidates a d (omega arith))

  -- With no attempt to join, and the connection not live, to connect starts an attempt.
  connect-Grown :
      (from_timer : Bool) (config : ServerConfig) (c : Client)
      → is_live c.connection c.sockets ≡ false
      → c.connect_promise ≡ none
      → c.config.config ≡ some config
      → c.next_number < (connect env from_timer c).0.next_number
  unfolding connect connect_on
  connect-Grown from_timer config c dead alone configured =
      simp (dead, alone, configured)
        (start_attempt-Grown from_timer config
          (record c { connect_promise = none; intentional_disconnect = false }))

  -- What a failed attempt of an earlier session leaves: no live connection, and the server that was set.
  abbrev Idle : Option ServerConfig → Client → Type 0
  Idle config c = (is_live c.connection c.sockets ≡ false) × (c.config.config ≡ config)

  schedule_reconnect-Idle :
      (config : Option ServerConfig) (c : Client)
      → Idle config c
      → Idle config (schedule_reconnect c)
        × ((schedule_reconnect c).connect_promise ≡ c.connect_promise)
  unfolding schedule_reconnect
  schedule_reconnect-Idle config c (dead, set) =
      elim (Bool-cases (c.intentional_disconnect || c.has_reconnect_timer)) [
        | inl refused ↦ rw refused ((dead, set), refl)
        | inr allowed ↦ rw allowed ((dead, set), refl)
      ]

  disconnect-Idle :
      (config : Option ServerConfig) (c : Client)
      → c.config.config ≡ config
      → Idle config (disconnect c)
  unfolding disconnect teardown_connection change_socket stop_heartbeat set_status
  disconnect-Idle config c set = closed c.connection
    where
      closed : (o : Option ℕ) → Idle config (disconnect (record c { connection = o }))
      closed none = (refl, set)
      closed (some id) = (refl, set)

  after_failure-Idle :
      (config : Option ServerConfig) (f : Failure) (c : Client)
      → Idle config c
      → Idle config (after_failure env f c).0
  unfolding after_failure
  after_failure-Idle config f c (dead, set) =
      elim (Bool-cases (is_some c.stored_token && env.names_token f)) [
        | inl rejected ↦ rw rejected (disconnect-Idle config _ set)
        | inr other ↦ rw other (dead, set)
      ]

  -- The tail of `connect`, whatever the failure is.
  end_failed-Idle :
      (config : Option ServerConfig) (a : Attempt) (p : Client × Failure)
      → Idle config p.0
      → Idle config (end_failed env a p) × ((end_failed env a p).connect_promise ≡ none)
  unfolding end_failed set_status
  end_failed-Idle config a (c, f) idle =
      let silent = is_abandoned a c && not (is_reauthentication env f) in
      let told = if silent then c else set_status ConnectionStatus.error (some f) c in
      let d : Client = record told { connect_promise = none } in
      let quiet : Idle config d = elim (Bool-cases silent) [
        | inl s ↦ rw s idle
        | inr s ↦ rw s idle
      ] in
      retried a.joined_retry _ (retried (not silent && a.own_retry) d (quiet, refl))
    where
      retried :
          (b : Bool) (e : Client)
          → Idle config e × (e.connect_promise ≡ none)
          → Idle config (if b then schedule_reconnect e else e)
            × ((if b then schedule_reconnect e else e).connect_promise ≡ none)
      retried false e h = h
      retried true e (idle, none_yet) =
          let (still, same) = schedule_reconnect-Idle config e idle in (still, same ∙ none_yet)

  resume_failed-Idle :
      (config : Option ServerConfig) (details : String) (a : Attempt) (c : Client)
      → is_abandoned a c ≡ true
      → Idle config c
      → Idle config (resume_failed env details a c)
        × ((resume_failed env details a c).connect_promise ≡ none)
  unfolding resume_failed first_pass
  resume_failed-Idle config details a c gone idle =
      let b : Attempt = record a { errors = a.errors ++ (a.candidate, details) ∷ [] } in
      let (f, e, plain) = try_candidates-abandoned env a.rest b c gone in
      let over : (a.can_downgrade && not (is_abandoned b c)) ≡ false = ground arith in
      rw e (rw over (end_failed-Idle config b _ (after_failure-Idle config f c idle)))

  -- An attempt from before a sign-out that fails late, whatever its failure is, clears the promise of the
  -- attempt that runs: to connect to the server that is set, while no connection is live, would have
  -- joined that attempt, and starts another one now.
  pub resume_failed-forgets :
      (details : String) (a : Attempt) (running : ℕ) (config : ServerConfig) (c : Client)
      → is_abandoned a c ≡ true
      → c.connect_promise ≡ some running
      → is_live c.connection c.sockets ≡ false
      → c.config.config ≡ some config
      → let d = resume_failed env details a c in
        ((connect env false c).0.next_number ≡ c.next_number)
        × (d.connect_promise ≡ none)
        × (d.next_number < (connect env false d).0.next_number)
  unfolding connect connect_on join_attempt
  resume_failed-forgets details a running config c gone joins dead configured =
      let ((dead_still, kept), promise) =
        resume_failed-Idle (some config) details a c gone (dead, configured) in
      (
        ground arith,
        promise,
        connect-Grown false config (resume_failed env details a c) dead_still promise kept,
      )
