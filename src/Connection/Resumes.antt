-- ===== src/Connection/Resumes.antt =====
-- An attempt from before a sign-out that runs on leaves the client signed out.
use letschat.Connection.SignedOut.{
  IsSignedOut, Frame, Frame-IsSignedOut, disconnect-IsSignedOut, if-Frame, AllOlder-suc, scheduled,
  if-IsSignedOut, older_rest, older_found,
}
use letschat.Common.{
  ℕ, ◌<◌, String, ◌≡◌, refl, Bool, true, false, not, ◌&&◌, Bool-cases, inl, inr, Option, none, some,
  List, [], ◌∷◌, ◌++◌, if◌then◌else◌, ◌==◌, nat_eq, string_eq, option_eq, filter, find, arith,
  is_some,
}
use letschat.Config.{ServerConfig}
use letschat.Connection.{ConnectionStatus, Failure, Attempt, Client, Environment, set_status}
use letschat.Connection.Lifecycle.{start_heartbeat, schedule_reconnect}
use letschat.Connection.Attempts.{
  Pass, is_abandoned, try_candidates, first_pass, end_failed, after_failure, is_reauthentication,
  resume_failed, resume_applied, rewrite_uri,
}
use letschat.Connection.Events.{wake, awake, waits_for}

module _ (env : Environment) where
  pub try_candidates-abandoned :
      (uris : List String) (a : Attempt) (c : Client)
      → is_abandoned a c ≡ true
      → (f : Failure) × (try_candidates env uris a c ≡ (c, Pass.threw f))
        × (is_reauthentication env f ≡ false)
  unfolding try_candidates is_reauthentication
  try_candidates-abandoned [] a c h = (Failure.failed a.errors, refl, refl)
  try_candidates-abandoned (uri ∷ rest) a c h = (Failure.abandoned_by_sign_out, rw h refl, refl)

  pub rewrite_uri-Frame :
      (a : Attempt) (o : Option ServerConfig) (c : Client) → Frame c (rewrite_uri env a o c)
  unfolding rewrite_uri
  rewrite_uri-Frame a none c = ground arith
  rewrite_uri-Frame a (some config) c = elim (Bool-cases (config.spacetimedb_uri == a.uri)) [
    | inl same ↦ rw same (ground arith)
    | inr other ↦ rw other (ground arith)
  ]

module _ (env : Environment) {n : ℕ} where
  after_failure-IsSignedOut :
      (f : Failure) (c : Client) → IsSignedOut n c → IsSignedOut n (after_failure env f c).0
  unfolding after_failure
  after_failure-IsSignedOut f c s =
      elim (Bool-cases (is_some c.stored_token && env.names_token f)) [
        | inl rejected ↦
            rw rejected
              (disconnect-IsSignedOut n _ s.opened (AllOlder-suc c.generation c.attempts s.older))
        | inr other ↦ rw other s
      ]

  end_failed-IsSignedOut :
      (a : Attempt) (p : Client × Failure) → IsSignedOut n p.0 → IsSignedOut n (end_failed env a p)
  unfolding end_failed set_status
  end_failed-IsSignedOut a (c, f) s = if-IsSignedOut a.joined_retry _ _ (scheduled _ first) first
    where
      silent : Bool
      silent = is_abandoned a c && not (is_reauthentication env f)

      d : Client
      d = record (if silent then c else set_status ConnectionStatus.error (some f) c) {
        connect_promise = none;
      }

      quiet : IsSignedOut n d
      quiet = elim (Bool-cases silent) [
        | inl yes_silent ↦ rw yes_silent (Frame-IsSignedOut {c = c} (ground arith) s)
        | inr loud ↦ rw loud (Frame-IsSignedOut {c = c} (ground arith) s)
      ]

      first : IsSignedOut n (if not silent && a.own_retry then schedule_reconnect d else d)
      first =
          if-IsSignedOut (not silent && a.own_retry) (schedule_reconnect d) d (scheduled d quiet)
            quiet

  pub resume_failed-IsSignedOut :
      (details : String) (a : Attempt) (c : Client)
      → a.generation < c.generation
      → IsSignedOut n c
      → IsSignedOut n (resume_failed env details a c)
  unfolding resume_failed first_pass
  resume_failed-IsSignedOut details a c older s =
      let b : Attempt = record a { errors = a.errors ++ (a.candidate, details) ∷ [] } in
      let gone : is_abandoned b c ≡ true = ground arith in
      let (f, e, plain) = try_candidates-abandoned env a.rest b c gone in
      rw e (elim (Bool-cases (b.can_downgrade && not (is_abandoned b c))) [
        | inl again ↦ ground arith
        | inr over ↦ rw over (end_failed-IsSignedOut b _ (after_failure-IsSignedOut f c s))
      ])

  ended :
      (a : Attempt) (d : Client)
      → is_abandoned a d ≡ true
      → IsSignedOut n d
      → IsSignedOut n
          (record (if is_abandoned a d
            then d
            else start_heartbeat (record d { reconnect_attempts = 0 })) { connect_promise = none })
  ended a d gone s = rw gone (Frame-IsSignedOut {c = d} (ground arith) s)

  pub resume_applied-IsSignedOut :
      (a : Attempt) (c : Client)
      → a.generation < c.generation
      → IsSignedOut n c
      → IsSignedOut n (resume_applied env a c)
  unfolding resume_applied rewrite_uri
  resume_applied-IsSignedOut a c older s =
      let d : Client = if a.candidate == a.uri then c else rewrite_uri env a c.config.config c in
      let kept : Frame c d =
        if-Frame (a.candidate == a.uri) c _ (ground arith)
          (rewrite_uri-Frame env a c.config.config c) in
      ended a d (ground arith) (Frame-IsSignedOut {c = c} kept s)

  pub wake-IsSignedOut :
      (resume : Attempt → Client → Client)
      → ((a : Attempt) (c : Client)
          → a.generation < c.generation
          → IsSignedOut n c
          → IsSignedOut n (resume a c))
      → (id : ℕ) (c : Client) → IsSignedOut n c
      → IsSignedOut n (wake env resume id c)
  unfolding wake
  wake-IsSignedOut resume keeps id c s = woken (find (waits_for id) c.attempts) refl
    where
      rest : Client
      rest = record c { attempts = filter (λ a. not (waits_for id a)) c.attempts }

      calm : IsSignedOut n rest
      calm = record {
        intentional = s.intentional;
        no_timer = s.no_timer;
        opened = s.opened;
        older = older_rest c.generation id c.attempts s.older;
      }

      woken :
          (o : Option Attempt)
          → find (waits_for id) c.attempts ≡ o
          → IsSignedOut n (awake env resume o rest)
      woken none e = calm
      woken (some a) e = keeps a rest (older_found c.generation id c.attempts a s.older e) calm
