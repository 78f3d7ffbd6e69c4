-- ===== src/Directory/Lookups.antt =====
-- What the lookups find after the actions.
use letschat.Common.{
  ℕ, ◌≡◌, refl, ap, ◌∙◌, Bool, false, Option, none, some, List, [], ◌∷◌, Dict, lookup, insert,
  lookup-insert, if◌then◌else◌, ◌==◌, nat_eq, string_eq, any, arith,
}
use letschat.Domain.{Identity, User, DmServerInvite}
use letschat.Directory.{
  UsersState, put_users, set_users, get_by_identity, remove_invite, pending_received_invites,
}

-- The last user with the identity.
last_user : Identity → List User → Option User → Option User
last_user identity [] found = found
last_user identity (user ∷ users) found =
    last_user identity users (if user.identity == identity then some user else found)

lookup-put_users :
    (identity : Identity) (users : List User) (next : Dict Identity User)
    → lookup identity (put_users users next) ≡ last_user identity users (lookup identity next)
unfolding put_users last_user
lookup-put_users identity [] next = refl
lookup-put_users identity (user ∷ users) next =
    lookup-put_users identity users (insert user.identity user next)
    ∙ ap (last_user identity users) (lookup-insert user.identity identity user next)

-- After a sync of the users an identity is found exactly as the last of the users has it, whatever the store
-- held before.
get_by_identity-set_users :
    (identity : Identity) (users : List User) (s : UsersState)
    → get_by_identity identity (set_users users s) ≡ last_user identity users none
unfolding get_by_identity set_users lookup
get_by_identity-set_users identity users s = lookup-put_users identity users []

has_invite : ℕ → List DmServerInvite → Bool
has_invite id invites = any (λ i. i.id == id) invites

-- An invitation that is removed is not offered any more, whoever asks.
has-remove_invite :
    (id : ℕ) (self : Identity) (invites : List DmServerInvite)
    → has_invite id (pending_received_invites self (remove_invite id invites)) ≡ false
unfolding has_invite pending_received_invites remove_invite
has-remove_invite id self [] = refl
has-remove_invite id self (i ∷ invites) = ground (arith, has-remove_invite id self invites)
