-- ===== src/Connection/SignedOut.antt =====
-- What it is to be signed out, and the changes to the client that leave it so.
use letschat.Common.{
  ℕ, ◌+◌, ◌<◌, ◌≡◌, refl, sym, subst, ◌∙◌, Bool, true, false, not, Option, none, some, List, [],
  ◌∷◌, if◌then◌else◌, nat_eq, string_eq, option_eq, filter, find, All, arith,
}
use letschat.Connection.{
  ConnectionStatus, Socket, Attempt, Client, set_status, close_connection, change_socket,
  teardown_connection,
}
use letschat.Connection.Lifecycle.{stop_heartbeat, schedule_reconnect, disconnect}
use letschat.Connection.Events.{waits_for}

-- Every attempt is older than the last sign-out.
abbrev pub AllOlder : ℕ → List Attempt → Type 0
AllOlder generation = All (λ a. a.generation < generation)

-- Signed out, with `n` numbers given to sockets and attempts so far.
pub record IsSignedOut (n : ℕ) (c : Client) : Type 0 where
  pub intentional : c.intentional_disconnect ≡ true
  pub no_timer : c.has_reconnect_timer ≡ false
  pub opened : c.next_number ≡ n
  pub older : AllOlder c.generation c.attempts

-- What a change leaves alone.
pub record Frame (c d : Client) : Type 0 where
  pub intentional : d.intentional_disconnect ≡ c.intentional_disconnect
  pub timer : d.has_reconnect_timer ≡ c.has_reconnect_timer
  pub number : d.next_number ≡ c.next_number
  pub generation : d.generation ≡ c.generation
  pub attempts : d.attempts ≡ c.attempts

pub Frame-IsSignedOut : {n : ℕ} {c d : Client} → Frame c d → IsSignedOut n c → IsSignedOut n d
Frame-IsSignedOut {c = c} {d = d} f s = record {
  intentional = f.intentional ∙ s.intentional;
  no_timer = f.timer ∙ s.no_timer;
  opened = f.number ∙ s.opened;
  older =
      subst (λ l. AllOlder d.generation l) (sym f.attempts)
        (subst (λ g. AllOlder g c.attempts) (sym f.generation) s.older);
}

pub close_connection-Frame : (o : Option ℕ) (c : Client) → Frame c (close_connection o c)
unfolding change_socket
close_connection-Frame none c = ground arith
close_connection-Frame (some id) c = ground arith

pub disconnect-IsSignedOut :
    (n : ℕ) (c : Client)
    → c.next_number ≡ n
    → AllOlder (c.generation + 1) c.attempts
    → IsSignedOut n (disconnect c)
unfolding disconnect teardown_connection stop_heartbeat set_status
disconnect-IsSignedOut n c h o = record {
  intentional = closing.intentional;
  no_timer = closing.timer;
  opened = closing.number ∙ h;
  older =
      subst (λ l. AllOlder (closed_first.generation) l) (sym closing.attempts)
        (subst (λ g. AllOlder g c.attempts) (sym closing.generation) o);
}
  where
    e : Client
    e = record c {
      intentional_disconnect = true;
      generation = c.generation + 1;
      has_heartbeat = false;
      heartbeat_in_flight = false;
      has_reconnect_timer = false;
      reconnect_attempts = 0;
    }

    closed_first : Client
    closed_first = close_connection c.connection e

    closing : Frame e closed_first
    closing = close_connection-Frame c.connection e

pub if-Frame :
    {c : Client} (b : Bool) (d e : Client) → Frame c d → Frame c e → Frame c (if b then d else e)
if-Frame true d e f g = f
if-Frame false d e f g = g

pub AllOlder-suc : (g : ℕ) (older : List Attempt) → AllOlder g older → AllOlder (g + 1) older
AllOlder-suc g [] o = tt
AllOlder-suc g (a ∷ rest) (h, o) = (omega (arith, h), AllOlder-suc g rest o)

pub change_socket-Frame :
    (f : Socket → Socket) (id : ℕ) (c : Client) → Frame c (change_socket f id c)
unfolding change_socket
change_socket-Frame f id c = ground arith

pub schedule_reconnect_signed_out :
    {n : ℕ} (c : Client) → IsSignedOut n c → schedule_reconnect c ≡ c
unfolding schedule_reconnect
schedule_reconnect_signed_out c s = rw s.intentional refl

pub scheduled : {n : ℕ} (c : Client) → IsSignedOut n c → IsSignedOut n (schedule_reconnect c)
scheduled {n} c s = subst (IsSignedOut n) (sym (schedule_reconnect_signed_out c s)) s

pub if-IsSignedOut :
    {n : ℕ} (b : Bool) (c d : Client)
    → IsSignedOut n c
    → IsSignedOut n d
    → IsSignedOut n (if b then c else d)
if-IsSignedOut true c d s t = s
if-IsSignedOut false c d s t = t

-- The attempts that stay are older too, and so is the one that is woken.
pub older_rest :
    (g id : ℕ) (l : List Attempt) → AllOlder g l → AllOlder g (filter (λ a. not (waits_for id a)) l)
older_rest g id [] o = tt
older_rest g id (a ∷ l) (h, o) = ground (arith, older_rest g id l o)

pub older_found :
    (g id : ℕ) (l : List Attempt) (a : Attempt)
    → AllOlder g l
    → find (waits_for id) l ≡ some a
    → a.generation < g
older_found g id [] a o e = ground arith
older_found g id (b ∷ l) a (h, o) e = ground (arith, older_found g id l a o)

pub set_status-Frame : (status : ConnectionStatus) (c : Client) → Frame c (set_status status none c)
unfolding set_status
set_status-Frame status c = ground arith

pub stop_heartbeat-Frame : (c : Client) → Frame c (stop_heartbeat c)
unfolding stop_heartbeat
stop_heartbeat-Frame c = ground arith

pub teardown_connection-Frame : (c : Client) → Frame c (teardown_connection false c)
unfolding teardown_connection
teardown_connection-Frame c = ground arith
