-- ===== src/Connection/Leaks.antt =====
-- Where the connection and its sockets come apart: a socket that outlives its attempt, and the events of
-- an old socket that reach the new one.
use letschat.Common.{
  ℕ, String, ◌≡◌, ◌≢◌, refl, Bool, true, false, not, Bool-cases, inl, inr, Option, none, some, [],
  ◌∷◌, ◌++◌, lookup, lookup-insert_self, lookup-insert, if◌then◌else◌, ◌==◌, nat_eq, option_eq,
  filter, find, arith, is_some,
}
use letschat.Connection.{
  ConnectionStatus, Failure, Socket, Attempt, Client, Environment, set_status, is_live,
  change_socket, on_socket,
}
use letschat.Connection.Lifecycle.{stop_heartbeat, schedule_reconnect}
use letschat.Connection.Attempts.{
  is_abandoned, try_candidates, first_pass, after_failure, end_failed, resume_failed, connect,
}
use letschat.Connection.Events.{
  closed, timed_out, user_connects, step, waits_for, wake, reject_if_pending, on_closed,
  on_timed_out,
}

-- A change to a socket leaves the others alone, and is there to read.
lookup-change_socket :
    (f : Socket → Socket) (id : ℕ) (socket : Socket) (c : Client)
    → lookup id c.sockets ≡ some socket
    → lookup id (change_socket f id c).sockets ≡ some (f socket)
unfolding change_socket on_socket
lookup-change_socket f id socket c e = rw e (lookup-insert_self id (f socket) c.sockets)

lookup-change_socket_other :
    (f : Socket → Socket) (id other : ℕ) (c : Client)
    → id ≢ other
    → lookup other (change_socket f id c).sockets ≡ lookup other c.sockets
unfolding change_socket
lookup-change_socket_other f id other c ne = unmoved (lookup id c.sockets)
  where
    unmoved :
        (o : Option Socket) → lookup other (on_socket f id o c.sockets) ≡ lookup other c.sockets
    unmoved none = refl
    unmoved (some socket) =
        ground (arith, lookup-insert id other (f socket) c.sockets, nat_eq.reflects id other)

-- The connection stands, live, but the store says disconnected and no heartbeat runs.
abbrev pub IsForgotten : ℕ → Client → Type 0
IsForgotten current d =
    (d.connection ≡ some current)
    × (is_live d.connection d.sockets ≡ true)
    × (d.status ≡ ConnectionStatus.disconnected)
    × (d.has_heartbeat ≡ false)

schedule_reconnect-IsForgotten :
    (current : ℕ) (c : Client) → IsForgotten current c → IsForgotten current (schedule_reconnect c)
unfolding schedule_reconnect
schedule_reconnect-IsForgotten current c h = ground (arith, h)

if-IsForgotten :
    (b : Bool) (current : ℕ) (c d : Client)
    → IsForgotten current c
    → IsForgotten current d
    → IsForgotten current (if b then c else d)
if-IsForgotten true current c d g h = g
if-IsForgotten false current c d g h = h

-- When an earlier socket that had applied its sync closes, the connection that replaced it is kept and stays
-- live, yet the store says disconnected and the heartbeat is off.
pub closed-IsForgotten :
    (env : Environment) (c : Client) (id current : ℕ) (socket : Socket)
    → lookup id c.sockets ≡ some socket
    → socket.applied_once ≡ true
    → id ≢ current
    → c.connection ≡ some current
    → is_live c.connection c.sockets ≡ true
    → IsForgotten current (step env (closed id) c)
unfolding step on_closed reject_if_pending set_status stop_heartbeat change_socket
closed-IsForgotten env c id current socket there old other now live =
    let kept =
      lookup-change_socket_other (λ s. record s { is_active = false }) id current c other in
    let same : is_live c.connection
          (change_socket (λ s. record s { is_active = false }) id c).sockets
        ≡ true =
      rw now (rw kept (rw now at live)) in
    let base : IsForgotten current (stop_heartbeat down) = (now, same, refl, refl) in
    let elsewhere : (c.connection == some id) ≡ false =
      ground (arith, nat_eq.reflects current id) in
    rw there (
      rw old (
        rw elsewhere
          (if-IsForgotten _ current _ _ (schedule_reconnect-IsForgotten current _ base) base)))
  where
    down : Client
    down =
        set_status ConnectionStatus.disconnected none
          (change_socket (λ s. record s { is_active = false }) id c)

-- The store says that connecting failed, and a live socket is the connection still.
abbrev pub IsStuck : ℕ → Client → Type 0
IsStuck id d =
    (d.connection ≡ some id)
    × (is_live d.connection d.sockets ≡ true)
    × (d.status ≡ ConnectionStatus.error)

schedule_reconnect-IsStuck :
    (id : ℕ) (c : Client) → IsStuck id c → IsStuck id (schedule_reconnect c)
unfolding schedule_reconnect
schedule_reconnect-IsStuck id c h = ground (arith, h)

if-IsStuck :
    (b : Bool) (id : ℕ) (c d : Client)
    → IsStuck id c
    → IsStuck id d
    → IsStuck id (if b then c else d)
if-IsStuck true id c d g h = g
if-IsStuck false id c d g h = h

end_failed-IsStuck :
    (env : Environment) (a : Attempt) (f : Failure) (id : ℕ) (c : Client)
    → is_abandoned a c ≡ false
    → c.connection ≡ some id
    → is_live c.connection c.sockets ≡ true
    → IsStuck id (end_failed env a (c, f))
unfolding end_failed set_status
end_failed-IsStuck env a f id c current now live =
    let base : IsStuck id
        (record (set_status ConnectionStatus.error (some f) c) { connect_promise = none }) =
      (now, live, refl) in
    let own = if-IsStuck a.own_retry id _ _ (schedule_reconnect-IsStuck id _ base) base in
    rw current (if-IsStuck a.joined_retry id _ _ (schedule_reconnect-IsStuck id _ own) own)

resume_failed-IsStuck :
    (env : Environment) (details : String) (a : Attempt) (id : ℕ) (c : Client)
    → a.rest ≡ []
    → a.can_downgrade ≡ false
    → is_abandoned a c ≡ false
    → env.names_token (Failure.failed (a.errors ++ (a.candidate, details) ∷ [])) ≡ false
    → c.connection ≡ some id
    → is_live c.connection c.sockets ≡ true
    → IsStuck id (resume_failed env details a c)
unfolding resume_failed first_pass try_candidates after_failure
resume_failed-IsStuck env details a id c last plain current silent now live =
    let b : Attempt = record a { errors = a.errors ++ (a.candidate, details) ∷ [] } in
    let f = Failure.failed b.errors in
    let kept : after_failure env f c ≡ (c, f) = elim (Bool-cases (is_some c.stored_token)) [
      | inl signed_in ↦ rw signed_in (rw silent refl)
      | inr fresh ↦ rw fresh refl
    ] in
    rw last (rw plain (rw kept (end_failed-IsStuck env b f id c current now live)))

connect-live :
    (env : Environment) (from_timer : Bool) (c : Client)
    → is_live c.connection c.sockets ≡ true
    → (connect env from_timer c).0 ≡ record c { intentional_disconnect = false }
unfolding connect
connect-live env from_timer c live = rw live refl

-- A timeout of the last socket that an attempt could open, compression being out of play and the
-- text of the failure naming no token, leaves a socket that had connected in place: the store says
-- error, the socket stays the connection, and connecting again does nothing.
pub timed_out-IsStuck :
    (env : Environment) (c : Client) (id : ℕ) (socket : Socket) (a : Attempt)
    → lookup id c.sockets ≡ some socket
    → socket.has_timeout ≡ true
    → socket.applied_once ≡ false
    → socket.is_active ≡ true
    → c.connection ≡ some id
    → find (waits_for id) c.attempts ≡ some a
    → a.rest ≡ []
    → a.can_downgrade ≡ false
    → is_abandoned a c ≡ false
    → env.names_token (Failure.failed (a.errors ++ (a.candidate, "Timed out") ∷ [])) ≡ false
    → let d = step env (timed_out id) c in
      IsStuck id d × (step env user_connects d ≡ record d { intentional_disconnect = false })
unfolding step on_timed_out reject_if_pending wake change_socket
timed_out-IsStuck env c id socket a there armed fresh active now waiting last plain current silent =
    (stuck, connect-live env false _ stuck.1)
  where
    armed_off : Client
    armed_off = change_socket (λ s. record s { has_timeout = false }) id c

    settled : Client
    settled =
        change_socket (λ s. record s { applied_once = true; has_timeout = false }) id armed_off

    rest : Client
    rest = record settled { attempts = filter (λ a. not (waits_for id a)) settled.attempts }

    live : is_live rest.connection rest.sockets ≡ true
    live = rw now (
        rw
          (lookup-change_socket (λ s. record s { applied_once = true; has_timeout = false }) id _
            armed_off
            (lookup-change_socket (λ s. record s { has_timeout = false }) id socket c there))
          active)

    stuck : IsStuck id (step env (timed_out id) c)
    stuck = rw there (
        rw armed (
          rw fresh (
            rw waiting (
              resume_failed-IsStuck env "Timed out" a id rest last plain current silent now live))))
