-- ===== src/Connection/Handlers.antt =====
-- What every event of a socket keeps: a property that no change of status, of a socket or of a heartbeat
-- touches, and that a planned reconnect and an attempt that runs on keep.
use letschat.Connection.SignedOut.{
  Frame, change_socket-Frame, set_status-Frame, stop_heartbeat-Frame, teardown_connection-Frame,
}
use letschat.Connection.Lifecycle.{schedule_reconnect, disconnect}
use letschat.Common.{
  ℕ, String, ◌≡◌, refl, Bool, true, false, Option, none, some, if◌then◌else◌, ◌==◌, nat_eq,
  string_eq, option_eq, arith, includes,
}
use letschat.Domain.{Identity}
use letschat.Connection.{ConnectionStatus, Socket, Client, Environment, set_status, change_socket}
use letschat.Connection.Attempts.{connect, resume_failed, resume_applied}
use letschat.Connection.Events.{
  Event, opened, closed, connect_error, applied, subscription_error, timed_out, reconnect_fired,
  heartbeat_ticks, heartbeat_returns, user_connects, user_disconnects, step, report_error,
  on_closed, on_connect_error, on_subscription_error, on_timed_out, on_applied, on_opened,
  on_reconnect_fired, on_heartbeat, on_heartbeat_returned, note_heartbeat, without_call,
  close_current, reject_if_pending, wake,
}

module _ (env : Environment) (P : Client → Type 0) (frame : (c d : Client) → Frame c d → P c → P d)
    (planned : (c : Client) → P c → P (schedule_reconnect c))
    (fails : (details : String) (id : ℕ) (c : Client)
      → P c
      → P (wake env (resume_failed env details) id c))
    (applies : (id : ℕ) (c : Client) → P c → P (wake env (resume_applied env) id c)) where
  if-kept : (b : Bool) (c d : Client) → P c → P d → P (if b then c else d)
  if-kept true c d s t = s
  if-kept false c d s t = t

  reject_if_pending-kept :
      (details : String) (id : ℕ) (socket : Socket) (c : Client)
      → P c
      → P (reject_if_pending env details id socket c)
  unfolding reject_if_pending
  reject_if_pending-kept details id socket c s =
      if-kept socket.applied_once c _ s
        (fails details id _ (frame _ _ (change_socket-Frame _ id c) s))

  on_closed-kept : (id : ℕ) (o : Option Socket) (c : Client) → P c → P (on_closed env id o c)
  unfolding on_closed
  on_closed-kept id none c s = s
  on_closed-kept id (some socket) c s =
      let down : Client =
        set_status ConnectionStatus.disconnected none
          (change_socket (λ s. record s { is_active = false }) id c) in
      let d =
        frame _ _ (set_status-Frame ConnectionStatus.disconnected _)
          (frame _ _ (change_socket-Frame (λ s. record s { is_active = false }) id c) s) in
      let e = frame _ _ (stop_heartbeat-Frame _) (
        if-kept (down.connection == some id) _ down (frame _ _ (teardown_connection-Frame down) d)
          d) in
      reject_if_pending-kept _ id socket _ (if-kept _ _ _ (planned _ e) e)

  on_connect_error-kept :
      (details : String) (id : ℕ) (o : Option Socket) (c : Client)
      → P c
      → P (on_connect_error env details id o c)
  unfolding on_connect_error report_error set_status
  on_connect_error-kept details id none c s = s
  on_connect_error-kept details id (some socket) c s =
      reject_if_pending-kept details id socket _
        (if-kept socket.report_errors _ c (frame c _ (ground arith) s) s)

  on_subscription_error-kept :
      (id : ℕ) (o : Option Socket) (c : Client) → P c → P (on_subscription_error env id o c)
  unfolding on_subscription_error report_error set_status
  on_subscription_error-kept id none c s = s
  on_subscription_error-kept id (some socket) c s = reject_if_pending-kept _ id socket _ (
      frame _ _ (change_socket-Frame _ id _)
        (if-kept socket.report_errors _ c (frame c _ (ground arith) s) s))

  on_timed_out-kept : (id : ℕ) (o : Option Socket) (c : Client) → P c → P (on_timed_out env id o c)
  unfolding on_timed_out
  on_timed_out-kept id none c s = s
  on_timed_out-kept id (some socket) c s =
      if-kept socket.has_timeout _ c
        (reject_if_pending-kept _ id socket _ (frame _ _ (change_socket-Frame _ id c) s)) s

  on_applied-kept : (id : ℕ) (o : Option Socket) (c : Client) → P c → P (on_applied env id o c)
  unfolding on_applied
  on_applied-kept id none c s = s
  on_applied-kept id (some socket) c s =
      let d : Client = record c { synced = true; live_events_enabled = true } in
      let t =
        frame _ _
          (change_socket-Frame (λ s. record s { is_established = true; applied_once = true }) id d)
          (frame c d (ground arith) s) in
      if-kept socket.applied_once _ _ t (applies id _ (frame _ _ (change_socket-Frame _ id _) t))

  on_opened-kept :
      (id : ℕ) (identity : Identity) (token : String) (o : Option Socket) (c : Client)
      → P c
      → P (on_opened env id identity token o c)
  unfolding on_opened set_status
  on_opened-kept id identity token none c s = s
  on_opened-kept id identity token (some socket) c s =
      let d = change_socket (λ s. record s { is_active = true }) id c in
      frame d _ (ground arith) (frame _ _ (change_socket-Frame _ id c) s)

  note_heartbeat-kept : (o : Option ℕ) (c : Client) → P c → P (note_heartbeat env o c)
  unfolding note_heartbeat
  note_heartbeat-kept none c s = s
  note_heartbeat-kept (some id) c s = frame c _ (ground arith) s

  on_heartbeat-kept : (c : Client) → P c → P (on_heartbeat env c)
  unfolding on_heartbeat
  on_heartbeat-kept c s =
      if-kept _ _ c (note_heartbeat-kept c.connection _ (frame c _ (ground arith) s)) s

  close_current-kept : (o : Option ℕ) (c : Client) → P c → P (close_current env o c)
  unfolding close_current
  close_current-kept none c s = s
  close_current-kept (some id) c s = frame _ _ (change_socket-Frame _ id c) s

  on_heartbeat_returned-kept :
      (id : ℕ) (in_time : Bool) (c : Client) → P c → P (on_heartbeat_returned env id in_time c)
  unfolding on_heartbeat_returned
  on_heartbeat_returned-kept id in_time c s =
      let d : Client = record c { heartbeats = without_call env id c.heartbeats } in
      let t : P d = frame c _ (ground arith) s in
      let u =
        if-kept in_time d (close_current env d.connection d) t
          (close_current-kept d.connection d t) in
      if-kept (includes id c.heartbeats) _ c
        (frame (if in_time then d else close_current env d.connection d) _ (ground arith) u) s

  -- An event keeps the property if those that connect and that disconnect do.
  pub step-kept :
      (event : Event) (c : Client)
      → (event ≡ reconnect_fired → P (on_reconnect_fired env c))
      → (event ≡ user_connects → P (connect env false c).0)
      → (event ≡ user_disconnects → P (disconnect c))
      → P c
      → P (step env event c)
  unfolding step
  step-kept (opened id identity token) c fires connects ends s =
      on_opened-kept id identity token _ c s
  step-kept (closed id) c fires connects ends s = on_closed-kept id _ c s
  step-kept (connect_error id details) c fires connects ends s =
      on_connect_error-kept details id _ c s
  step-kept (applied id) c fires connects ends s = on_applied-kept id _ c s
  step-kept (subscription_error id) c fires connects ends s = on_subscription_error-kept id _ c s
  step-kept (timed_out id) c fires connects ends s = on_timed_out-kept id _ c s
  step-kept reconnect_fired c fires connects ends s = fires refl
  step-kept heartbeat_ticks c fires connects ends s = on_heartbeat-kept c s
  step-kept (heartbeat_returns id in_time) c fires connects ends s =
      on_heartbeat_returned-kept id in_time c s
  step-kept user_connects c fires connects ends s = connects refl
  step-kept user_disconnects c fires connects ends s = ends refl
