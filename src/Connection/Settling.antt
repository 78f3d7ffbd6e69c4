-- ===== src/Connection/Settling.antt =====
-- An attempt comes to an end: whatever fails, it has fewer sockets left to try.
use letschat.Common.{
  ℕ, suc, ◌+◌, ◌<◌, ◌≤◌, String, ◌≡◌, ◌⊎◌, ◌∙◌, refl, Bool, true, false, Bool-cases, inl, inr,
  subst, not, ◌&&◌, Option, none, some, List, [], ◌∷◌, ◌++◌, if◌then◌else◌, length, arith, is_some,
}
use letschat.Connection.{
  ConnectionStatus, Failure, Attempt, Client, Environment, set_status, close_connection,
  teardown_connection, change_socket,
}
use letschat.Connection.Lifecycle.{disconnect, schedule_reconnect}
use letschat.Connection.Attempts.{
  open_socket, is_reauthentication, Pass, is_abandoned, try_candidates, first_pass, second_pass,
  end_failed, after_failure, resume_failed,
}

-- The sockets that an attempt may still open.
abbrev pub left : Attempt → ℕ
left a = length a.rest + (if a.can_downgrade then length a.candidates else 0)

-- Either the attempt is over and no other is new, or it waits again with fewer sockets left.
abbrev pub Ends : ℕ → List Attempt → List Attempt → Type 0
Ends n before after = (after ≡ before) ⊎ ((b : Attempt) × (after ≡ b ∷ before) × (left b < n))

teardown_connection-attempts : (c : Client) → (teardown_connection true c).attempts ≡ c.attempts
unfolding teardown_connection change_socket
teardown_connection-attempts c = closed c.connection
  where
    closed : (o : Option ℕ) → (close_connection o c).attempts ≡ c.attempts
    closed none = refl
    closed (some id) = refl

Ends-le :
    (n m : ℕ) {before after : List Attempt} → n ≤ m → Ends n before after → Ends m before after
Ends-le n m h (inl same) = inl same
Ends-le n m h (inr (b, new, below)) = inr (b, new, omega (arith, h, below))

if-attempts :
    {l : List Attempt} (b : Bool) (c d : Client)
    → c.attempts ≡ l
    → d.attempts ≡ l
    → (if b then c else d).attempts ≡ l
if-attempts true c d e f = e
if-attempts false c d e f = f

disconnect-attempts : (c : Client) → (disconnect c).attempts ≡ c.attempts
unfolding disconnect
disconnect-attempts c = teardown_connection-attempts _

schedule_reconnect-attempts : (c : Client) → (schedule_reconnect c).attempts ≡ c.attempts
unfolding schedule_reconnect
schedule_reconnect-attempts c = ground arith

module _ (env : Environment) where
  after_failure-attempts :
      (f : Failure) (c : Client) → (after_failure env f c).0.attempts ≡ c.attempts
  unfolding after_failure
  after_failure-attempts f c = elim (Bool-cases (is_some c.stored_token && env.names_token f)) [
    | inl rejected ↦ rw rejected (disconnect-attempts _)
    | inr other ↦ rw other refl
  ]

  end_failed-attempts :
      (a : Attempt) (p : Client × Failure) → (end_failed env a p).attempts ≡ p.0.attempts
  unfolding end_failed set_status
  end_failed-attempts a (c, f) =
      if-attempts a.joined_retry _ _ (schedule_reconnect-attempts _ ∙ first) first
    where
      silent : Bool
      silent = is_abandoned a c && not (is_reauthentication env f)

      d : Client
      d = record (if silent then c else set_status ConnectionStatus.error (some f) c) {
        connect_promise = none;
      }

      quiet : d.attempts ≡ c.attempts
      quiet = if-attempts silent c (set_status ConnectionStatus.error (some f) c) refl refl

      first : (if not silent && a.own_retry then schedule_reconnect d else d).attempts ≡ c.attempts
      first =
          if-attempts (not silent && a.own_retry) (schedule_reconnect d) d
            (schedule_reconnect-attempts d ∙ quiet) quiet

  abbrev WaitsBelow : ℕ → Attempt → Pass → Type 0
  WaitsBelow n a (Pass.waits b) =
      (length b.rest < n) × (b.can_downgrade ≡ a.can_downgrade) × (b.candidates ≡ a.candidates)
  WaitsBelow n a (Pass.threw f) = Unit

  WaitsBelow-suc : (n : ℕ) (a : Attempt) (p : Pass) → WaitsBelow n a p → WaitsBelow (suc n) a p
  WaitsBelow-suc n a (Pass.waits b) (h, e, f) = (omega (arith, h), e, f)
  WaitsBelow-suc n a (Pass.threw f) h = tt

  try_candidates_lem :
      (uris : List String) (a : Attempt) (c : Client)
      → ((try_candidates env uris a c).0.attempts ≡ c.attempts)
        × WaitsBelow (length uris) a (try_candidates env uris a c).1
  unfolding try_candidates open_socket
  try_candidates_lem [] a c = (refl, tt)
  try_candidates_lem (uri ∷ rest) a c =
      let next : Attempt = record a { errors = a.errors ++ (uri, "") ∷ [] } in
      let (same, below) = try_candidates_lem rest next (teardown_connection true c) in
      elim (Bool-cases (is_abandoned a c)) [
        | inl gone ↦ rw gone (refl, tt)
        | inr current ↦ elim (Bool-cases (env.builds uri)) [
          | inl built ↦ rw current (rw built (refl, (omega arith, refl, refl)))
          | inr failed ↦ rw current (
              rw failed
                (same ∙ teardown_connection-attempts c, WaitsBelow-suc (length rest) a _ below))
        ]
      ]

  second_pass-Ends :
      (n : ℕ) (a : Attempt) (p : Client × Pass)
      → a.can_downgrade ≡ false
      → WaitsBelow n a p.1
      → Ends n p.0.attempts (second_pass env a p).attempts
  unfolding second_pass
  second_pass-Ends n a (c, Pass.waits b) plain (h, same, uris) = inr (b, refl, ground arith)
  second_pass-Ends n a (c, Pass.threw f) plain h =
      inl (end_failed-attempts a _ ∙ after_failure-attempts f c)

  first_pass-Ends :
      (a : Attempt) (p : Client × Pass)
      → WaitsBelow (length a.rest) a p.1
      → Ends (left a) p.0.attempts (first_pass env a p).attempts
  unfolding first_pass
  first_pass-Ends a (c, Pass.waits b) (h, same, uris) = inr (b, refl, ground arith)
  first_pass-Ends a (c, Pass.threw f) h =
      let plain : Attempt = record a { can_downgrade = false; report_errors = true; errors = [] } in
      let d : Client = record c { web_compression_downgraded = true } in
      elim (Bool-cases (a.can_downgrade && not (is_abandoned a c))) [
        | inl again ↦ rw again (
            let (same, below) = try_candidates_lem a.candidates plain d in
            Ends-le (length a.candidates) (left a) (ground arith) (
              subst
                (λ l.
                  Ends (length a.candidates) l
                    (second_pass env plain (try_candidates env a.candidates plain d)).attempts)
                same
                (second_pass-Ends (length a.candidates) plain
                  (try_candidates env a.candidates plain d) refl below)))
        | inr over ↦ rw over (inl (end_failed-attempts a _ ∙ after_failure-attempts f c))
      ]

  -- When a socket of an attempt fails, the attempt is over, or it waits for another socket and has
  -- fewer left to try; no other attempt comes or goes.
  pub resume_failed-Ends :
      (details : String) (a : Attempt) (c : Client)
      → Ends (left a) c.attempts (resume_failed env details a c).attempts
  unfolding resume_failed
  resume_failed-Ends details a c =
      let b : Attempt = record a { errors = a.errors ++ (a.candidate, details) ∷ [] } in
      let (same, below) = try_candidates_lem a.rest b c in
      subst (λ l. Ends (left a) l (resume_failed env details a c).attempts) same
        (first_pass-Ends b (try_candidates env a.rest b c) below)
