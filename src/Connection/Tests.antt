-- ===== src/Connection/Tests.antt =====
-- The connection on concrete runs.
use letschat.Common.{
  ◌==◌, string_eq, ◌≤◌, ◌<◌, String, ◌≡◌, refl, Bool, true, false, Option, none, some, List, [],
  ◌∷◌, lookup, not, insert, nat_eq, length, arith, string_eq,
}
use letschat.Config.{ServerConfig}
use letschat.Connection.{
  ConnectionStatus, Failure, Socket, Attempt, Client, Environment, reconnect_delay, is_live,
  set_status, change_socket, pick_compression, teardown_connection,
}
use letschat.Connection.Attempts.{connect, resume_failed, resume_applied}
use letschat.Connection.Lifecycle.{start_heartbeat, stop_heartbeat, schedule_reconnect}
use letschat.Connection.Backoff.{reconnect_delay_bounds}
use letschat.Connection.Candidates.{
  Url, IsClean, build_spacetime_uri_candidates, build_spacetime_uri_candidates-IsClean,
}
use letschat.Connection.Events.{
  heartbeat_returns, on_heartbeat_returned, Event, opened, closed, connect_error, applied,
  timed_out, reconnect_fired, user_connects, user_disconnects, step, run, report_error, on_opened,
  on_closed, on_connect_error, on_applied, on_reconnect_fired,
}
use letschat.Connection.Leaks.{IsForgotten, IsStuck, closed-IsForgotten, timed_out-IsStuck}
use letschat.Connection.Overlaps.{resume_failed-forgets}
use letschat.Connection.Settling.{Ends, resume_failed-Ends}
use letschat.Connection.SignedOut.{IsSignedOut}
use letschat.Connection.Stale.{run-disconnect-IsSignedOut}

abbrev home : ServerConfig
home = record {
  spacetimedb_uri = "wss://a";
  spacetimedb_database = "chat";
  auth_service_url = "https://a/auth";
  livekit_url = "wss://a/livekit";
  upload_part_size_bytes = none;
  upload_max_file_size_bytes = none;
  daily_upload_quota_bytes = none;
  user_storage_limit_bytes = none;
  instance_storage_limit_bytes = none;
}

-- A browser, two URIs for each server, and a host that builds every socket.
abbrev browser : Environment
browser = record {
  is_desktop = false;
  web_compression_off = false;
  candidates = λ (uri : String). uri ∷ "wss://b" ∷ [];
  builds = λ (uri : String). true;
  names_token = λ (f : Failure). false;
}

abbrev desktop : Environment
desktop = record browser { is_desktop = true; candidates = λ (uri : String). uri ∷ [] }

abbrev start : Client
start = record {
  status = ConnectionStatus.disconnected;
  error_message = none;
  identity = none;
  synced = false;
  connection = none;
  subscription = none;
  connect_promise = none;
  live_events_enabled = false;
  has_heartbeat = false;
  heartbeat_in_flight = false;
  has_reconnect_timer = false;
  reconnect_attempts = 0;
  intentional_disconnect = false;
  generation = 0;
  web_compression_downgraded = false;
  stored_token = none;
  config = record {
    config = some home;
    known_hosts = [];
    has_hydrated = true;
    pending_host = none;
    session = none;
  };
  sockets = [];
  attempts = [];
  heartbeats = [];
  next_number = 0;
  notices = [];
}

-- The attempt is number 0, and its first socket number 1.
abbrev dialling : Client
dialling = step browser user_connects start

-- The first connect is compressed and quiet; when both of its sockets fail, the first URI is tried plain.
fallback :
    let failed_twice =
      run browser (connect_error 1 "refused" ∷ connect_error 2 "refused" ∷ []) dialling in
    let failed =
      run browser (connect_error 3 "refused" ∷ connect_error 4 "refused" ∷ []) failed_twice in
    (failed_twice.connection ≡ some 3)
    × (failed_twice.notices ≡ [])
    × (failed.status ≡ ConnectionStatus.error)
    × (failed.notices ≡ "refused" ∷ [])
unfolding step on_connect_error connect resume_failed report_error set_status change_socket
    pick_compression lookup insert
fallback = (refl, refl, refl, refl)

-- An attempt that succeeds, a connection that drops, and the timer that brings it back.
abbrev online : Client
online = run desktop (opened 1 "me" "token" ∷ applied 1 ∷ []) (step desktop user_connects start)

abbrev dropped : Client
dropped = run desktop (closed 1 ∷ []) online

reconnects :
    (is_live online.connection online.sockets ≡ true)
    × (online.has_heartbeat ≡ true)
    × (dropped.has_reconnect_timer ≡ true)
    × ((run desktop (reconnect_fired ∷ opened 3 "me" "token" ∷ applied 3 ∷ []) dropped).status
        ≡ ConnectionStatus.connected)
unfolding step on_opened on_closed on_applied on_reconnect_fired connect resume_applied
    start_heartbeat set_status change_socket pick_compression teardown_connection schedule_reconnect
    stop_heartbeat lookup insert
reconnects = (refl, refl, refl, refl)

-- Two sockets, of which the second is the connection, and a heartbeat that went to the first.
abbrev socket_of : Bool → Socket
socket_of applied_once = record {
  uri = "wss://a";
  is_compressed = false;
  is_active = true;
  close_requested = false;
  applied_once = applied_once;
  is_established = applied_once;
  report_errors = true;
  has_timeout = not applied_once;
}

abbrev replaced : Client
replaced = record start {
  status = ConnectionStatus.connected;
  connection = some 3;
  has_heartbeat = true;
  sockets = (1, socket_of true) ∷ (3, socket_of true) ∷ [];
  heartbeats = 1 ∷ [];
  next_number = 4;
}

-- An attempt whose last socket has connected and waits for its first sync.
abbrev last_try : Attempt
last_try = record {
  number = 0;
  generation = 0;
  uri = "wss://a";
  candidates = "wss://a" ∷ [];
  can_downgrade = false;
  report_errors = true;
  rest = [];
  candidate = "wss://a";
  socket = 1;
  errors = [];
  own_retry = false;
  joined_retry = false;
}

abbrev syncing : Client
syncing = record start {
  status = ConnectionStatus.connected;
  connection = some 1;
  connect_promise = some 0;
  sockets = (1, socket_of false) ∷ [];
  attempts = last_try ∷ [];
  next_number = 2;
}

-- Signed out and connecting again, while the attempt from before has not heard of its end.
abbrev again : Client
again = record syncing {
  connection = none;
  connect_promise = some 2;
  generation = 1;
  next_number = 3;
}

abbrev before_sign_out : List Event
before_sign_out = user_connects ∷ opened 1 "me" "token" ∷ []

abbrev after_sign_out : List Event
after_sign_out = closed 1 ∷ timed_out 1 ∷ reconnect_fired ∷ []

run-disconnect-IsSignedOut_example :
    let d = run browser before_sign_out start in
    IsSignedOut d.next_number (run browser after_sign_out (step browser user_disconnects d))
run-disconnect-IsSignedOut_example =
    run-disconnect-IsSignedOut browser start before_sign_out after_sign_out refl
      (ground arith, (ground arith, (ground arith, tt)))

resume_failed-Ends_example :
    Ends 1 []
      (resume_failed browser "refused" (record last_try { rest = "wss://b" ∷ [] }) start).attempts
resume_failed-Ends_example =
    resume_failed-Ends browser "refused" (record last_try { rest = "wss://b" ∷ [] }) start

reconnect_delay_bounds_example :
    (500 ≤ reconnect_delay 2 300)
    × (reconnect_delay 2 300 ≤ 30000)
    × (reconnect_delay 2 300 ≤ reconnect_delay 7 300)
reconnect_delay_bounds_example = reconnect_delay_bounds 2 7 300 (omega arith) (omega arith)

abbrev local_url : Url
local_url = record {
  protocol = "ws:";
  host = "localhost:4300";
  hostname = "localhost";
  pathname = "/";
  search = "";
  hash = "";
  href = "ws://localhost:4300/";
}

abbrev parse : String → Option Url
parse text = some local_url

abbrev rehost : Url → String → Option Url
rehost url host = some (record url { hostname = host })

build_spacetime_uri_candidates-IsClean_example :
    IsClean parse rehost
      (λ s. s)
      (build_spacetime_uri_candidates parse rehost (λ s. s) "ws://localhost:4300")
    × (length (build_spacetime_uri_candidates parse rehost (λ s. s) "ws://localhost:4300") ≤ 4)
build_spacetime_uri_candidates-IsClean_example =
    build_spacetime_uri_candidates-IsClean parse rehost (λ s. s) "ws://localhost:4300"

timed_out-IsStuck_example :
    let d = step desktop (timed_out 1) syncing in
    IsStuck 1 d × (step desktop user_connects d ≡ record d { intentional_disconnect = false })
unfolding lookup
timed_out-IsStuck_example =
    timed_out-IsStuck desktop syncing 1 (socket_of false) last_try refl refl refl refl refl refl
      refl refl refl refl

closed-IsForgotten_example : IsForgotten 3 (step desktop (closed 1) replaced)
unfolding lookup
closed-IsForgotten_example =
    closed-IsForgotten desktop replaced 1 3 (socket_of true) refl refl (ground arith) refl refl

-- A server that rejects the account token.
abbrev rejected_token : Failure → Bool
rejected_token (Failure.failed ((uri, details) ∷ errors)) = details == "Failed to verify token"
rejected_token f = false

abbrev strict : Environment
strict = record desktop { names_token = rejected_token }

abbrev signed_in_again : Client
signed_in_again = record again { stored_token = some "token" }

rejected_on_time :
    (resume_failed strict "Failed to verify token"
      (record last_try { generation = 1 })
      signed_in_again).stored_token
    ≡ none
unfolding resume_failed letschat.Connection.Lifecycle.disconnect
rejected_on_time = refl

resume_failed-forgets_example :
    let d = resume_failed strict "Failed to verify token" last_try signed_in_again in
    ((connect strict false signed_in_again).0.next_number ≡ 3)
    × (d.connect_promise ≡ none)
    × (d.next_number < (connect strict false d).0.next_number)
resume_failed-forgets_example =
    resume_failed-forgets strict "Failed to verify token" last_try 2 home signed_in_again refl refl
      refl refl

-- Two heartbeats went to the socket, and one of them returns in time.
one_returns :
    (step browser (heartbeat_returns 1 true) (record again { heartbeats = 1 ∷ 1 ∷ [] })).heartbeats
    ≡ 1 ∷ []
unfolding step on_heartbeat_returned
one_returns = refl
