-- ===== src/Connection/Attempts.antt =====
-- `connect` and `connectWithUri`: an attempt runs from one settlement of a socket to the next. The code
-- that one settlement resumes runs without a break, as its microtasks do.
use letschat.Common.{
  ℕ, ◌+◌, String, Bool, true, false, not, ◌&&◌, Option, none, some, List, [], ◌∷◌, ◌++◌, insert,
  if◌then◌else◌, ◌==◌, nat_eq, string_eq, bool_eq, is_some, map, ◌||◌,
}
use letschat.Config.{ServerConfig, set_config}
use letschat.Connection.{
  ConnectionStatus, Failure, Socket, Attempt, Client, Environment, pick_compression, set_status,
  is_live, teardown_connection,
}
use letschat.Connection.Lifecycle.{start_heartbeat, schedule_reconnect, disconnect}

-- What a pass over the candidates comes to: it waits for a socket, or it threw.
pub data Pass : Type 0 where
  waits : Attempt → Pass
  threw : Failure → Pass

-- `abandoned()`
abbrev pub is_abandoned : Attempt → Client → Bool
is_abandoned a c = not (a.generation == c.generation)

module _ (env : Environment) where
  -- The socket of `connectWithUri` up to its `await`, with its number.
  unfoldable pub open_socket : String → Bool → Client → Client
  open_socket uri report_errors c =
      let socket : Socket = record {
        uri = uri;
        is_compressed = pick_compression env c;
        is_active = false;
        close_requested = false;
        applied_once = false;
        is_established = false;
        report_errors = report_errors;
        has_timeout = true;
      } in
      record c {
        connection = some c.next_number;
        subscription = some c.next_number;
        sockets = insert c.next_number socket c.sockets;
        next_number = c.next_number + 1;
      }

  abbrev is_last : List String → Bool
  is_last [] = true
  is_last (u ∷ us) = false

  -- The loop of `tryAllCandidates`, from where it stands. A socket that cannot be built makes
  -- `connectWithUri` throw at once, and its `finally` tears the connection down.
  unfoldable pub try_candidates : List String → Attempt → Client → Client × Pass
  unfolding open_socket
  try_candidates [] a c = (c, Pass.threw (Failure.failed a.errors))
  try_candidates (uri ∷ rest) a c =
      let later =
        try_candidates rest (record a { errors = a.errors ++ (uri, "") ∷ [] })
          (teardown_connection true c) in
      if is_abandoned a c
      then (c, Pass.threw Failure.abandoned_by_sign_out)
      else if env.builds uri
      then (
        open_socket uri (is_last rest && a.report_errors) c,
        Pass.waits (record a { rest = rest; candidate = uri; socket = c.next_number }),
      )
      else later

  unfoldable pub is_reauthentication : Failure → Bool
  is_reauthentication Failure.reauthentication_required = true
  is_reauthentication f = false

  -- The `catch` of the body: a rejected token ends the session.
  unfoldable pub after_failure : Failure → Client → Client × Failure
  after_failure f c =
      if is_some c.stored_token && env.names_token f
      then (
        disconnect (record c { stored_token = none; config = record c.config { session = none } }),
        Failure.reauthentication_required,
      )
      else (c, f)

  -- The tail of `connect` on a failure of the body, and the `catch` of the timer's `connect`.
  unfoldable pub end_failed : Attempt → Client × Failure → Client
  unfolding is_reauthentication
  end_failed a (c, f) =
      let silent = is_abandoned a c && not (is_reauthentication f) in
      let d = record (if silent then c else set_status ConnectionStatus.error (some f) c) {
        connect_promise = none;
      } in
      let e = if not silent && a.own_retry then schedule_reconnect d else d in
      if a.joined_retry then schedule_reconnect e else e

  -- The fallback to uncompressed sockets, and the end of an attempt that fails.
  unfoldable pub second_pass : Attempt → Client × Pass → Client
  unfolding after_failure end_failed
  second_pass a (c, Pass.waits b) = record c { attempts = b ∷ c.attempts }
  second_pass a (c, Pass.threw f) = end_failed a (after_failure f c)

  unfoldable pub first_pass : Attempt → Client × Pass → Client
  unfolding second_pass after_failure end_failed try_candidates
  first_pass a (c, Pass.waits b) = record c { attempts = b ∷ c.attempts }
  first_pass a (c, Pass.threw f) =
      let plain = record a { can_downgrade = false; report_errors = true; errors = [] } in
      if a.can_downgrade && not (is_abandoned a c)
      then second_pass plain
          (try_candidates a.candidates plain (record c { web_compression_downgraded = true }))
      else end_failed a (after_failure f c)

  -- The socket that an attempt waits for failed: `errors.push(…)`, and the loop goes on.
  unfoldable pub resume_failed : String → Attempt → Client → Client
  unfolding first_pass
  resume_failed details a c =
      let b = record a { errors = a.errors ++ (a.candidate, details) ∷ [] } in
      first_pass b (try_candidates a.rest b c)

  unfoldable pub rewrite_uri : Attempt → Option ServerConfig → Client → Client
  rewrite_uri a none c = c
  rewrite_uri a (some config) c =
      if config.spacetimedb_uri == a.uri
      then record c {
        config = set_config (record config { spacetimedb_uri = a.candidate }) c.config;
      }
      else c

  -- The socket applied its first sync: the end of an attempt that succeeds.
  unfoldable pub resume_applied : Attempt → Client → Client
  unfolding rewrite_uri
  resume_applied a c =
      let d = if a.candidate == a.uri then c else rewrite_uri a c.config.config c in
      let e =
        if is_abandoned a d then d else start_heartbeat (record d { reconnect_attempts = 0 }) in
      record e { connect_promise = none }

  -- Whether a failure may be met by uncompressed sockets: `canDowngrade`.
  abbrev pub may_downgrade : Client → Bool
  may_downgrade c =
      not env.is_desktop && (not c.web_compression_downgraded && pick_compression env c)

  abbrev pub new_attempt : Bool → ServerConfig → Client → Attempt
  new_attempt from_timer config c = record {
    number = c.next_number;
    generation = c.generation;
    uri = config.spacetimedb_uri;
    candidates = env.candidates config.spacetimedb_uri;
    can_downgrade = may_downgrade c;
    report_errors = not (may_downgrade c);
    rest = [];
    candidate = "";
    socket = 0;
    errors = [];
    own_retry = from_timer;
    joined_retry = false;
  }

  -- The client that waits for the attempt of its next number.
  abbrev pub connecting_client : Client → Client
  connecting_client c = record (set_status ConnectionStatus.connecting none c) {
    connect_promise = some c.next_number;
    next_number = c.next_number + 1;
  }

  -- An attempt that starts, for the configured URI.
  unfoldable pub start_attempt : Bool → Option ServerConfig → Client → Client × Option Failure
  unfolding first_pass
  start_attempt from_timer none c = (c, some Failure.not_configured)
  start_attempt from_timer (some config) c =
      let a = new_attempt from_timer config c in
      (first_pass a (try_candidates a.candidates a (connecting_client c)), none)

  -- The timer's `connect` joins the attempt in progress, and hears of its failure.
  unfoldable pub join_attempt : Bool → ℕ → Client → Client
  join_attempt from_timer number c = record c {
    attempts =
        map {A = Attempt}
          (λ a. record a {
            joined_retry =
                if a.number == number then from_timer || a.joined_retry else a.joined_retry;
          })
          c.attempts;
  }

  unfoldable pub connect_on : Bool → Option ℕ → Client → Client × Option Failure
  unfolding start_attempt join_attempt
  connect_on from_timer none c = start_attempt from_timer c.config.config c
  connect_on from_timer (some number) c = (join_attempt from_timer number c, none)

  -- `connect`, up to its first `await`, with what it throws at once.
  unfoldable pub connect : Bool → Client → Client × Option Failure
  unfolding connect_on
  connect from_timer c =
      let d = record c { intentional_disconnect = false } in
      if is_live d.connection d.sockets
      then (d, none)
      else connect_on from_timer d.connect_promise d
