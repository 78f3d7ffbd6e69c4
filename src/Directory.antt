-- ===== src/Directory.antt =====
-- Who and what there is: src/stores/usersStore.ts, selfStore.ts, serversStore.ts and
-- dmServerInvitesStore.ts.
pub mod Lookups
use letschat.Common.{
  ℕ, String, Bool, true, false, not, ◌&&◌, Option, none, some, List, [], ◌∷◌, ◌++◌, map, Dict,
  lookup, insert, if◌then◌else◌, ◌==◌, Equal, nat_eq, string_eq, option_eq, filter, any,
}
use letschat.Domain.{
  Identity, User, Server, DiscoverServer, JoinRequest, JoinRequestStatus, DmServerInvite,
  DmInviteStatus,
}

-- usersStore.ts
pub record UsersState : Type 0 where
  pub users : List User
  pub by_identity : Dict Identity User

unfoldable pub put_users : List User → Dict Identity User → Dict Identity User
put_users [] next = next
put_users (user ∷ users) next = put_users users (insert user.identity user next)

unfoldable pub set_users : List User → UsersState → UsersState
unfolding put_users
set_users users s = record { users = users; by_identity = put_users users [] }

unfoldable pub get_by_identity : Identity → UsersState → Option User
get_by_identity identity s = lookup identity s.by_identity

-- selfStore.ts
abbrev pub set_user : Option User → Option User → Option User
set_user user before = user

-- serversStore.ts
pub record ServersState : Type 0 where
  pub servers : List Server
  pub active_server_id : Option ℕ

abbrev pub still_exists : List Server → Option ℕ → Bool
still_exists servers none = false
still_exists servers (some id) = any (λ server. server.id == id) servers

unfoldable pub set_servers : List Server → ServersState → ServersState
set_servers servers s = record {
  servers = servers;
  active_server_id = if still_exists servers s.active_server_id then s.active_server_id else none;
}

unfoldable pub set_active_server_id : Option ℕ → ServersState → ServersState
set_active_server_id id s =
    if s.active_server_id == id then s else record s { active_server_id = id }

-- dmServerInvitesStore.ts
abbrev pub set_invites : List DmServerInvite → List DmServerInvite → List DmServerInvite
set_invites invites before = invites

unfoldable pub add_invite : DmServerInvite → List DmServerInvite → List DmServerInvite
add_invite invite invites = filter (λ i. not (i.id == invite.id)) invites ++ invite ∷ []

unfoldable pub update_invite : DmServerInvite → List DmServerInvite → List DmServerInvite
update_invite invite invites = map (λ i. if i.id == invite.id then invite else i) invites

unfoldable pub remove_invite : ℕ → List DmServerInvite → List DmServerInvite
remove_invite id invites = filter (λ i. not (i.id == id)) invites

abbrev pub is_pending : DmInviteStatus → Bool
is_pending DmInviteStatus.pending = true
is_pending status = false

unfoldable pub pending_received_invites : Identity → List DmServerInvite → List DmServerInvite
pending_received_invites self invites =
    filter (λ i. i.recipient_identity == self && is_pending i.status) invites
