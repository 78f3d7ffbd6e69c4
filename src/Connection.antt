-- ===== src/Connection.antt =====
-- The connection to the database, src/lib/spacetimedb/connection.ts, with src/stores/connectionStore.ts:
-- the module's variables, the sockets that its attempts have opened, and the attempts that wait for one.
-- The children run the events of the environment over this state.
pub mod Candidates
pub mod Lifecycle
pub mod Attempts
pub mod Events
pub mod Backoff
pub mod SignedOut
pub mod Resumes
pub mod Handlers
pub mod Ages
pub mod Stale
pub mod Settling
pub mod Leaks
pub mod Overlaps
mod Tests
use Prim.Native.Nat.{◌^◌}
use letschat.Common.{
  ℕ, suc, ◌+◌, ◌*◌, ◌/◌, min, String, Bool, true, false, not, ◌&&◌, Option, none, some, List, [],
  ◌∷◌, Dict, lookup, insert, if◌then◌else◌, ◌==◌, Equal, nat_eq, bool_eq, is_some,
}
use letschat.Domain.{Identity}
use letschat.Config.{ServerConfigState}

pub data ConnectionStatus : Type 0 where
  connecting connected disconnected error : ConnectionStatus

-- Why an attempt failed. The text of `failed` is put together from the candidates and their errors.
pub data Failure : Type 0 where
  abandoned_by_sign_out : Failure
  failed : (errors : List (String × String)) → Failure
  reauthentication_required : Failure
  not_configured : Failure

-- A socket, with the closure of its `connectWithUri`: `appliedOnce`, `establishedThisConnection`,
-- `reportErrors`, and whether its timeout is set. `is_active` is the SDK's.
pub record Socket : Type 0 where
  pub uri : String
  pub is_compressed : Bool
  pub is_active : Bool
  pub close_requested : Bool
  pub applied_once : Bool
  pub is_established : Bool
  pub report_errors : Bool
  pub has_timeout : Bool

-- A `connect` that has started and waits for the first sync of a socket. `own_retry` says that the
-- reconnect timer started it, `joined_retry` that the timer's `connect` joined it.
pub record Attempt : Type 0 where
  pub number : ℕ
  pub generation : ℕ
  pub uri : String
  pub candidates : List String
  pub can_downgrade : Bool
  pub report_errors : Bool
  pub rest : List String
  pub candidate : String
  pub socket : ℕ
  pub errors : List (String × String)
  pub own_retry : Bool
  pub joined_retry : Bool

-- The store, the variables of the module, and the values in `localStorage`.
pub record Client : Type 0 where
  pub status : ConnectionStatus
  pub error_message : Option Failure
  pub identity : Option Identity
  pub synced : Bool
  pub connection : Option ℕ
  pub subscription : Option ℕ
  pub connect_promise : Option ℕ
  pub live_events_enabled : Bool
  pub has_heartbeat : Bool
  pub heartbeat_in_flight : Bool
  pub has_reconnect_timer : Bool
  pub reconnect_attempts : ℕ
  pub intentional_disconnect : Bool
  pub generation : ℕ
  pub web_compression_downgraded : Bool
  pub stored_token : Option String
  pub config : ServerConfigState
  pub sockets : Dict ℕ Socket
  pub attempts : List Attempt
  -- The heartbeats whose call has not returned, by the socket that they went to.
  pub heartbeats : List ℕ
  pub next_number : ℕ
  -- The 'Connection Error' notifications, the last first.
  pub notices : List String

-- The host: the desktop shell, the operator's setting, whether a socket can be built for a URI, and
-- whether the text of a failure, which holds messages of the host and of the server, matches
-- /verify token/i.
pub record Environment : Type 0 where
  pub is_desktop : Bool
  pub web_compression_off : Bool
  pub candidates : String → List String
  pub builds : String → Bool
  pub names_token : Failure → Bool

abbrev pub heartbeat_interval_ms : ℕ
heartbeat_interval_ms = 25000

abbrev pub reconnect_base_delay_ms : ℕ
reconnect_base_delay_ms = 1000

abbrev pub reconnect_max_delay_ms : ℕ
reconnect_max_delay_ms = 30000

-- `Math.min(RECONNECT_MAX_DELAY_MS, RECONNECT_BASE_DELAY_MS * 2 ** reconnectAttempts)`
unfoldable pub ceiling : ℕ → ℕ
ceiling attempts = min reconnect_max_delay_ms (reconnect_base_delay_ms * 2 ^ attempts)

-- The delay, where `random` of a thousand is the share of `Math.random()`.
unfoldable pub reconnect_delay : ℕ → ℕ → ℕ
unfolding ceiling
reconnect_delay attempts random = ceiling attempts / 2 + random * (ceiling attempts / 2) / 1000

-- Whether the next socket is compressed: `pickCompression() === 'gzip'`.
unfoldable pub pick_compression : Environment → Client → Bool
pick_compression env c =
    if env.is_desktop
    then false
    else if env.web_compression_off
    then false
    else not c.web_compression_downgraded

unfoldable pub set_status : ConnectionStatus → Option Failure → Client → Client
set_status status message c = record c { status = status; error_message = message }

abbrev pub active_of : Option Socket → Bool
active_of none = false
active_of (some socket) = socket.is_active

-- `connection?.isActive`
abbrev pub is_live : Option ℕ → Dict ℕ Socket → Bool
is_live none sockets = false
is_live (some id) sockets = active_of (lookup id sockets)

unfoldable pub on_socket : (Socket → Socket) → ℕ → Option Socket → Dict ℕ Socket → Dict ℕ Socket
on_socket f id none sockets = sockets
on_socket f id (some socket) sockets = insert id (f socket) sockets

-- A change to a socket that there is.
unfoldable pub change_socket : (Socket → Socket) → ℕ → Client → Client
unfolding on_socket
change_socket f id c = record c { sockets = on_socket f id (lookup id c.sockets) c.sockets }

abbrev pub close_connection : Option ℕ → Client → Client
close_connection none c = c
close_connection (some id) c = change_socket (λ s. record s { close_requested = true }) id c

-- `teardownConnection`; the pending refreshes that it cancels are those of Refresh.
unfoldable pub teardown_connection : Bool → Client → Client
unfolding change_socket
teardown_connection close_socket c =
    let d = if close_socket then close_connection c.connection c else c in
    record d { subscription = none; live_events_enabled = false; connection = none }
