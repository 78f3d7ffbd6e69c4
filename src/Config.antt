-- ===== src/Config.antt =====
-- src/stores/serverConfigStore.ts: the host that the client is configured for, the hosts known from
-- before, and the gate in front of a connect. The stored session token, which `setConfig` drops from
-- `localStorage`, is a field of the model's state.
pub mod Hosts
pub mod Gate
mod Tests
use letschat.Common.{
  ℕ, String, Bool, true, false, not, Option, none, some, List, [], ◌∷◌, ◌++◌, filter, find,
  if◌then◌else◌, ◌==◌, string_eq, ◌&&◌, is_none,
}

pub record ServerConfig : Type 0 where
  pub spacetimedb_uri : String
  pub spacetimedb_database : String
  pub auth_service_url : String
  pub livekit_url : String
  pub upload_part_size_bytes : Option ℕ
  pub upload_max_file_size_bytes : Option ℕ
  pub daily_upload_quota_bytes : Option ℕ
  pub user_storage_limit_bytes : Option ℕ
  pub instance_storage_limit_bytes : Option ℕ

unfoldable pub host_key : ServerConfig → String
host_key config = config.auth_service_url

unfoldable pub remember_host : List ServerConfig → ServerConfig → List ServerConfig
unfolding host_key
remember_host hosts config = config ∷ filter (λ host. not (host_key host == host_key config)) hosts

pub data PinnedField : Type 0 where
  spacetimedb_uri livekit_url spacetimedb_database : PinnedField

pub record HostChange : Type 0 where
  pub field : PinnedField
  pub stored : String
  pub incoming : String

abbrev pub pinned_fields : List PinnedField
pinned_fields =
    PinnedField.spacetimedb_uri ∷ PinnedField.livekit_url ∷ PinnedField.spacetimedb_database ∷ []

-- `config[field]`
abbrev pub pinned : PinnedField → ServerConfig → String
pinned PinnedField.spacetimedb_uri config = config.spacetimedb_uri
pinned PinnedField.livekit_url config = config.livekit_url
pinned PinnedField.spacetimedb_database config = config.spacetimedb_database

-- The `flatMap` of `diffKnownHost` over the fields.
abbrev pub changes_of : List PinnedField → ServerConfig → ServerConfig → List HostChange
changes_of [] old incoming = []
changes_of (f ∷ fs) old incoming =
    if pinned f old == pinned f incoming
    then changes_of fs old incoming
    else record { field = f; stored = pinned f old; incoming = pinned f incoming }
      ∷ changes_of fs old incoming

-- `hosts.find((host) => hostKey(host) === key)`
abbrev pub find_host : String → List ServerConfig → Option ServerConfig
find_host key = find (λ host. host.auth_service_url == key)

unfoldable pub diff_known_host : List ServerConfig → ServerConfig → Option (List HostChange)
unfolding host_key
diff_known_host hosts incoming = elim (find_host (host_key incoming) hosts) [
  | none ↦ none
  | some old ↦ some (changes_of pinned_fields old incoming)
]

pub data Reason : Type 0 where
  changed unknown : Reason

pub record PendingHost : Type 0 where
  pub config : ServerConfig
  pub changes : List HostChange
  pub reason : Reason

pub record ServerConfigState : Type 0 where
  pub config : Option ServerConfig
  pub known_hosts : List ServerConfig
  pub has_hydrated : Bool
  pub pending_host : Option PendingHost
  -- `localStorage.getItem(AUTH_SESSION_KEY)`
  pub session : Option String

abbrev pub initial : ServerConfigState
initial = record {
  config = none;
  known_hosts = [];
  has_hydrated = false;
  pending_host = none;
  session = none;
}

-- The session token is dropped if a host is configured and the new one is another.
unfoldable pub session_after : ServerConfig → Option ServerConfig → Option String → Option String
unfolding host_key
session_after config none session = session
session_after config (some old) session = if host_key old == host_key config then session else none

unfoldable pub set_config : ServerConfig → ServerConfigState → ServerConfigState
unfolding session_after remember_host
set_config config s = record s {
  config = some config;
  known_hosts = remember_host s.known_hosts config;
  session = session_after config s.config s.session;
}

abbrev pub no_changes : List HostChange → Bool
no_changes [] = true
no_changes (c ∷ cs) = false

-- The branches of `requestConnect` on the difference from the known host.
request_on :
    ServerConfig → Bool → Option (List HostChange) → ServerConfigState → ServerConfigState × Bool
request_on config confirm_unknown none s =
    if confirm_unknown
    then (
      record s { pending_host = some (record { config = config; changes = []; reason = unknown }) },
      false,
    )
    else (s, true)
request_on config confirm_unknown (some changes) s = if no_changes changes then (s, true) else (
  record s {
    pending_host = some (record { config = config; changes = changes; reason = changed });
  },
  false,
)

unfoldable pub request_connect : ServerConfig → Bool → ServerConfigState → ServerConfigState × Bool
unfolding request_on diff_known_host
request_connect config confirm_unknown s =
    request_on config confirm_unknown (diff_known_host s.known_hosts config) s

resolve_on : Bool → Option PendingHost → ServerConfigState → ServerConfigState × Option ServerConfig
unfolding set_config
resolve_on true (some pending) s = (set_config pending.config s, some pending.config)
resolve_on accept pending s = (s, none)

unfoldable pub resolve_pending_host :
    Bool → ServerConfigState → ServerConfigState × Option ServerConfig
unfolding resolve_on
resolve_pending_host accept s = resolve_on accept s.pending_host (record s { pending_host = none })

unfoldable pub forget_host : String → ServerConfigState → ServerConfigState
forget_host auth_service_url s = record s {
  known_hosts = filter (λ host. not (host.auth_service_url == auth_service_url)) s.known_hosts;
}

abbrev remember_current : Option ServerConfig → List ServerConfig → List ServerConfig
unfolding remember_host
remember_current none hosts = hosts
remember_current (some config) hosts = remember_host hosts config

unfoldable pub clear_config : ServerConfigState → ServerConfigState
unfolding remember_host
clear_config s = record s { config = none; known_hosts = remember_current s.config s.known_hosts }

unfoldable pub set_has_hydrated : Bool → ServerConfigState → ServerConfigState
set_has_hydrated value s = record s { has_hydrated = value }

-- What the `persist` middleware reads back: each field may be missing from an older install.
pub record Persisted : Type 0 where
  pub config : Option (Option ServerConfig)
  pub known_hosts : Option (List ServerConfig)

abbrev pub seed : Option ServerConfig → List ServerConfig → List ServerConfig
seed (some config) [] = config ∷ []
seed none [] = []
seed _ (host ∷ hosts) = host ∷ hosts

-- `{ ...current, ...persisted }` on one field.
abbrev pub spread {ℓ} : {A : Type ℓ} → A → Option A → A
spread a none = a
spread a (some b) = b

unfoldable pub merge_persisted : Option Persisted → ServerConfigState → ServerConfigState
merge_persisted none s = record s { known_hosts = seed s.config s.known_hosts }
merge_persisted (some p) s = record s {
  config = spread s.config p.config;
  known_hosts = seed (spread s.config p.config) (spread s.known_hosts p.known_hosts);
}

-- `partialize`
unfoldable pub partialize : ServerConfigState → Persisted
partialize s = record { config = some s.config; known_hosts = some s.known_hosts }
