-- ===== src/Connection/Lifecycle.antt =====
-- The heartbeat, the reconnect timer and the sign-out.
use letschat.Common.{◌+◌, true, false, ◌||◌, none, if◌then◌else◌}
use letschat.Connection.{ConnectionStatus, Client, set_status, teardown_connection}

unfoldable pub stop_heartbeat : Client → Client
stop_heartbeat c = record c { has_heartbeat = false; heartbeat_in_flight = false }

unfoldable pub start_heartbeat : Client → Client
unfolding stop_heartbeat
start_heartbeat c = record (stop_heartbeat c) { has_heartbeat = true }

unfoldable pub schedule_reconnect : Client → Client
schedule_reconnect c =
    if c.intentional_disconnect || c.has_reconnect_timer
    then c
    else record c { reconnect_attempts = c.reconnect_attempts + 1; has_reconnect_timer = true }

-- `resetClientState`, as far as the store of the connection goes.
abbrev reset_client_state : Client → Client
reset_client_state c = record c { identity = none; synced = false }

-- The reducer call that sets the presence offline is not waited for.
unfoldable pub disconnect : Client → Client
unfolding stop_heartbeat teardown_connection set_status
disconnect c =
    let d =
      stop_heartbeat (record c { intentional_disconnect = true; generation = c.generation + 1 }) in
    let e = record d { has_reconnect_timer = false; reconnect_attempts = 0 } in
    let f = record (teardown_connection true e) { connect_promise = none } in
    reset_client_state (set_status ConnectionStatus.disconnected none f)
