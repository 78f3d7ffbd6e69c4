-- ===== src/Config/Hosts.antt =====
-- The list of known hosts: one entry for each host, the most recent first.
use letschat.Common.{
  String, ◌≡◌, Bool, true, false, not, Option, none, some, List, [], ◌∷◌, arith, filter,
  if◌then◌else◌, ◌==◌, string_eq,
}
use letschat.Config.{
  ServerConfig, remember_host, find_host, ServerConfigState, set_config, forget_host, clear_config,
  remember_current, resolve_pending_host, resolve_on, request_connect, PendingHost,
}

-- No two entries are of one host.
abbrev pub IsDistinct : List ServerConfig → Type 0
IsDistinct [] = Unit
IsDistinct (host ∷ hosts) = (find_host host.auth_service_url hosts ≡ none) × IsDistinct hosts

find_host-filter :
    (url key : String) (hosts : List ServerConfig)
    → find_host key (filter (λ host. not (host.auth_service_url == url)) hosts)
      ≡ (if url == key then none else find_host key hosts)
find_host-filter url key [] = ground arith
find_host-filter url key (host ∷ hosts) = ground (
  arith,
  string_eq.reflects url key,
  string_eq.reflects host.auth_service_url url,
  string_eq.reflects host.auth_service_url key,
  find_host-filter url key hosts,
)

filter-IsDistinct :
    (url : String) (hosts : List ServerConfig)
    → IsDistinct hosts
    → IsDistinct (filter (λ host. not (host.auth_service_url == url)) hosts)
filter-IsDistinct url [] u = tt
filter-IsDistinct url (host ∷ hosts) (d, u) =
    ground (arith, filter-IsDistinct url hosts u, find_host-filter url host.auth_service_url hosts)

-- A host that is remembered is what its key finds; every other key finds what it found before.
pub find_host-remember_host :
    (key : String) (hosts : List ServerConfig) (config : ServerConfig)
    → find_host key (remember_host hosts config)
      ≡ (if config.auth_service_url == key then some config else find_host key hosts)
unfolding remember_host
find_host-remember_host key hosts config =
    ground (arith, find_host-filter config.auth_service_url key hosts)

remember_host-IsDistinct :
    (hosts : List ServerConfig) (config : ServerConfig)
    → IsDistinct hosts
    → IsDistinct (remember_host hosts config)
unfolding remember_host
remember_host-IsDistinct hosts config u = (
  ground (
    arith,
    find_host-filter config.auth_service_url config.auth_service_url hosts,
    string_eq.reflects config.auth_service_url config.auth_service_url,
  ),
  filter-IsDistinct config.auth_service_url hosts u,
)

-- The user-facing actions of the store.
pub data Action : Type 0 where
  sets : ServerConfig → Action
  requests : ServerConfig → Bool → Action
  resolves : Bool → Action
  forgets : String → Action
  clears : Action

abbrev pub step : ServerConfigState → Action → ServerConfigState
step s (sets config) = set_config config s
step s (requests config confirm_unknown) = (request_connect config confirm_unknown s).0
step s (resolves accept) = (resolve_pending_host accept s).0
step s (forgets url) = forget_host url s
step s clears = clear_config s

abbrev pub run : ServerConfigState → List Action → ServerConfigState
run s [] = s
run s (a ∷ rest) = run (step s a) rest

resolve_on-IsDistinct :
    (accept : Bool) (p : Option PendingHost) (s : ServerConfigState)
    → IsDistinct s.known_hosts
    → IsDistinct (resolve_on accept p s).0.known_hosts
unfolding resolve_on
resolve_on-IsDistinct true none s u = u
resolve_on-IsDistinct true (some p) s u = remember_host-IsDistinct s.known_hosts p.config u
resolve_on-IsDistinct false p s u = u

step-IsDistinct :
    (s : ServerConfigState) (a : Action)
    → IsDistinct s.known_hosts
    → IsDistinct (step s a).known_hosts
unfolding set_config request_connect resolve_pending_host forget_host clear_config
step-IsDistinct s (sets config) u = remember_host-IsDistinct s.known_hosts config u
step-IsDistinct s (requests config confirm_unknown) u = ground arith
step-IsDistinct s (resolves accept) u = resolve_on-IsDistinct accept s.pending_host _ u
step-IsDistinct s (forgets url) u = filter-IsDistinct url s.known_hosts u
step-IsDistinct s clears u = current-IsDistinct s.config
  where
    current-IsDistinct : (c : Option ServerConfig) → IsDistinct (remember_current c s.known_hosts)
    current-IsDistinct none = u
    current-IsDistinct (some config) = remember_host-IsDistinct s.known_hosts config u

-- Whatever the user does, from a list of known hosts that names no host twice, the list never names one
-- twice.
pub run-IsDistinct :
    (actions : List Action) (s : ServerConfigState)
    → IsDistinct s.known_hosts
    → IsDistinct (run s actions).known_hosts
run-IsDistinct [] s u = u
run-IsDistinct (a ∷ rest) s u = run-IsDistinct rest (step s a) (step-IsDistinct s a u)
