-- ===== src/Connection/Events.antt =====
-- What the environment does to the client: the callbacks of a socket, the timers, the heartbeat's call,
-- and the two functions that the rest of the program calls.
use letschat.Common.{
  ℕ, String, Bool, true, false, not, ◌&&◌, Option, none, some, List, [], ◌∷◌, lookup, if◌then◌else◌,
  ◌==◌, nat_eq, bool_eq, option_eq, filter, find, includes,
}
use letschat.Domain.{Identity}
use letschat.Connection.{
  ConnectionStatus, Failure, Socket, Attempt, Client, Environment, set_status, is_live,
  change_socket, teardown_connection,
}
use letschat.Connection.Lifecycle.{stop_heartbeat, schedule_reconnect, disconnect}
use letschat.Connection.Attempts.{connect, resume_failed, resume_applied}

pub data Event : Type 0 where
  opened : (socket : ℕ) (identity : Identity) (token : String) → Event
  closed : (socket : ℕ) → Event
  connect_error : (socket : ℕ) (details : String) → Event
  applied : (socket : ℕ) → Event
  subscription_error : (socket : ℕ) → Event
  timed_out : (socket : ℕ) → Event
  reconnect_fired : Event
  heartbeat_ticks : Event
  heartbeat_returns : (socket : ℕ) (in_time : Bool) → Event
  user_connects : Event
  user_disconnects : Event

-- `onError`: the status and the notification.
unfoldable pub report_error : String → Client → Client
report_error message c = record (set_status ConnectionStatus.disconnected none c) {
  notices = message ∷ c.notices;
}

abbrev pub waits_for : ℕ → Attempt → Bool
waits_for id a = a.socket == id

module _ (env : Environment) where
  abbrev pub awake : (Attempt → Client → Client) → Option Attempt → Client → Client
  awake resume none c = c
  awake resume (some a) c = resume a c

  -- The attempt that waits for the socket, if there is one, runs on.
  unfoldable pub wake : (Attempt → Client → Client) → ℕ → Client → Client
  wake resume id c =
      awake resume (find (waits_for id) c.attempts)
        (record c { attempts = filter (λ a. not (waits_for id a)) c.attempts })

  -- `rejectIfPending`, and what it resumes; the `finally` of `connectWithUri` clears the timeout, and
  -- tears nothing down, since the rejection has set `appliedOnce`.
  unfoldable pub reject_if_pending : String → ℕ → Socket → Client → Client
  unfolding wake
  reject_if_pending details id socket c =
      let d = change_socket (λ s. record s { applied_once = true; has_timeout = false }) id c in
      if socket.applied_once then c else wake (resume_failed env details) id d

  -- `onDisconnect`
  unfoldable pub on_closed : ℕ → Option Socket → Client → Client
  unfolding reject_if_pending
  on_closed id none c = c
  on_closed id (some socket) c =
      let d =
        set_status ConnectionStatus.disconnected none
          (change_socket (λ s. record s { is_active = false }) id c) in
      let e = stop_heartbeat (if d.connection == some id then teardown_connection false d else d) in
      let f =
        if socket.is_established && not e.intentional_disconnect then schedule_reconnect e else e in
      reject_if_pending "Disconnected before initial data sync completed." id socket f

  -- `onConnectError`; the attempt runs on after the callback.
  unfoldable pub on_connect_error : String → ℕ → Option Socket → Client → Client
  unfolding reject_if_pending
  on_connect_error details id none c = c
  on_connect_error details id (some socket) c =
      reject_if_pending details id socket
        (if socket.report_errors then report_error details c else c)

  unfoldable pub on_subscription_error : ℕ → Option Socket → Client → Client
  unfolding reject_if_pending
  on_subscription_error id none c = c
  on_subscription_error id (some socket) c = reject_if_pending "Subscription failed" id socket (
      change_socket (λ s. record s { has_timeout = false }) id
        (if socket.report_errors then report_error "Subscription failed" c else c))

  unfoldable pub on_timed_out : ℕ → Option Socket → Client → Client
  unfolding reject_if_pending
  on_timed_out id none c = c
  on_timed_out id (some socket) c =
      if socket.has_timeout
      then reject_if_pending "Timed out" id socket
          (change_socket (λ s. record s { has_timeout = false }) id c)
      else c

  -- `onApplied`; `syncAll` is that of Sync.
  unfoldable pub on_applied : ℕ → Option Socket → Client → Client
  unfolding wake
  on_applied id none c = c
  on_applied id (some socket) c =
      let d =
        change_socket (λ s. record s { is_established = true; applied_once = true }) id
          (record c { synced = true; live_events_enabled = true }) in
      if socket.applied_once
      then d
      else wake (resume_applied env) id (change_socket (λ s. record s { has_timeout = false }) id d)

  unfoldable pub on_opened : ℕ → Identity → String → Option Socket → Client → Client
  on_opened id identity token none c = c
  on_opened id identity token (some socket) c =
      record (set_status ConnectionStatus.connected none
        (change_socket (λ s. record s { is_active = true }) id c)) {
          identity = some identity;
          stored_token = some token;
        }

  unfoldable pub after_connect : Client × Option Failure → Client
  after_connect (c, none) = c
  after_connect (c, some f) = schedule_reconnect c

  -- The callback of the reconnect timer.
  unfoldable pub on_reconnect_fired : Client → Client
  unfolding after_connect
  on_reconnect_fired c =
      if c.has_reconnect_timer
      then after_connect (connect env true (record c { has_reconnect_timer = false }))
      else c

  unfoldable pub note_heartbeat : Option ℕ → Client → Client
  note_heartbeat none c = c
  note_heartbeat (some id) c = record c { heartbeats = id ∷ c.heartbeats }

  -- `runHeartbeat`, up to its `await`, and after it: on an error the connection that there is then is
  -- told to close.
  unfoldable pub on_heartbeat : Client → Client
  unfolding note_heartbeat
  on_heartbeat c =
      if c.has_heartbeat && (not c.heartbeat_in_flight && is_live c.connection c.sockets)
      then note_heartbeat c.connection (record c { heartbeat_in_flight = true })
      else c

  -- The calls but one that went to the socket: a second one to it is still to return.
  abbrev pub without_call : ℕ → List ℕ → List ℕ
  without_call id [] = []
  without_call id (j ∷ js) = let rest = without_call id js in if j == id then js else j ∷ rest

  unfoldable pub close_current : Option ℕ → Client → Client
  close_current none c = c
  close_current (some id) c = change_socket (λ s. record s { close_requested = true }) id c

  unfoldable pub on_heartbeat_returned : ℕ → Bool → Client → Client
  unfolding close_current
  on_heartbeat_returned id in_time c =
      let d = record c { heartbeats = without_call id c.heartbeats } in
      if includes id c.heartbeats
      then record (if in_time then d else close_current d.connection d) {
        heartbeat_in_flight = false;
      }
      else c

  unfoldable pub step : Event → Client → Client
  unfolding on_opened
  step (opened id identity token) c = on_opened id identity token (lookup id c.sockets) c
  step (closed id) c = on_closed id (lookup id c.sockets) c
  step (connect_error id details) c = on_connect_error details id (lookup id c.sockets) c
  step (applied id) c = on_applied id (lookup id c.sockets) c
  step (subscription_error id) c = on_subscription_error id (lookup id c.sockets) c
  step (timed_out id) c = on_timed_out id (lookup id c.sockets) c
  step reconnect_fired c = on_reconnect_fired c
  step heartbeat_ticks c = on_heartbeat c
  step (heartbeat_returns id in_time) c = on_heartbeat_returned id in_time c
  step user_connects c = (connect env false c).0
  step user_disconnects c = disconnect c

  abbrev pub run : List Event → Client → Client
  run [] c = c
  run (e ∷ events) c = run events (step e c)
