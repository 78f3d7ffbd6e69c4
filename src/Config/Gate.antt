-- ===== src/Config/Gate.antt =====
-- The gate in front of a connect, and what becomes of the session token.
use letschat.Common.{
  ◌≡◌, ◌↔◌, refl, ap, ◌∙◌, ◌⊎◌, inl, inr, Bool, true, false, Option, none, some, List, [], ◌∷◌,
  arith, if◌then◌else◌, ◌==◌, string_eq, Option-cases, beq_refl,
}
use letschat.Config.{
  ServerConfig, HostChange, find_host, ServerConfigState, initial, set_config, session_after,
  clear_config, merge_persisted, partialize, resolve_pending_host, request_connect, request_on,
  PendingHost, no_changes, changes_of, pinned_fields, seed,
}
use letschat.Config.Hosts.{find_host-remember_host}

-- The services of a host are the ones stored for it.
abbrev pub AgreesWith : ServerConfig → ServerConfig → Type 0
AgreesWith old incoming =
    (old.spacetimedb_uri ≡ incoming.spacetimedb_uri)
    × (old.livekit_url ≡ incoming.livekit_url)
    × (old.spacetimedb_database ≡ incoming.spacetimedb_database)

-- There is no change to report exactly when all three services are the stored ones.
changes-eq-nil_iff :
    (old incoming : ServerConfig)
    → (no_changes (changes_of pinned_fields old incoming) ≡ true) ↔ AgreesWith old incoming
changes-eq-nil_iff old incoming = ground (
  arith,
  string_eq.reflects old.spacetimedb_uri incoming.spacetimedb_uri,
  string_eq.reflects old.livekit_url incoming.livekit_url,
  string_eq.reflects old.spacetimedb_database incoming.spacetimedb_database,
)

-- What lets a connect through without a question.
abbrev pub IsTrusted : ServerConfig → Bool → ServerConfigState → Type 0
IsTrusted config confirm_unknown s =
    ((find_host config.auth_service_url s.known_hosts ≡ none) × (confirm_unknown ≡ false))
    ⊎ ((old : ServerConfig) × (find_host config.auth_service_url s.known_hosts ≡ some old)
        × AgreesWith old config)

-- A connect is let through exactly when the host is unknown and the caller does not ask about unknown
-- hosts, or when the host is known and advertises the three services stored for it.
pub request_connect-eq-true_iff :
    (config : ServerConfig) (confirm_unknown : Bool) (s : ServerConfigState)
    → ((request_connect config confirm_unknown s).1 ≡ true) ↔ IsTrusted config confirm_unknown s
unfolding request_connect
request_connect-eq-true_iff config confirm_unknown s =
    elim (Option-cases (find_host config.auth_service_url s.known_hosts)) [
      | inl missing ↦ rw (missing, request_on) (ground arith)
      | inr (old, found) ↦ rw (found, request_on) (ground (arith, changes-eq-nil_iff old config))
    ]

-- What a connect may do to the store, with its answer.
abbrev pub Keeps : ServerConfig → ServerConfigState → ServerConfigState × Bool → Type 0
Keeps config s (t, go) =
    ((go ≡ true) × (t ≡ s))
    ⊎ ((go ≡ false)
        × (t.config ≡ s.config)
        × (t.known_hosts ≡ s.known_hosts)
        × (t.session ≡ s.session)
        × ((p : PendingHost) × (t.pending_host ≡ some p) × (p.config ≡ config)))

request_on-Keeps :
    (config : ServerConfig) (confirm_unknown : Bool) (o : Option (List HostChange))
    (s : ServerConfigState)
    → Keeps config s (request_on config confirm_unknown o s)
unfolding request_on
request_on-Keeps config true none s = inr (refl, refl, refl, refl, (_, refl, refl))
request_on-Keeps config false none s = inl (refl, refl)
request_on-Keeps config confirm_unknown (some []) s = inl (refl, refl)
request_on-Keeps config confirm_unknown (some (c ∷ cs)) s =
    inr (refl, refl, refl, refl, (_, refl, refl))

-- A connect that is let through leaves the store as it was; one that is held back leaves the
-- configuration, the known hosts and the session, and parks the config it asked for.
pub request_connect-Keeps :
    (config : ServerConfig) (confirm_unknown : Bool) (s : ServerConfigState)
    → Keeps config s (request_connect config confirm_unknown s)
unfolding request_connect
request_connect-Keeps config confirm_unknown s = request_on-Keeps config confirm_unknown _ s

request_connect_known :
    (config : ServerConfig) (confirm_unknown : Bool) (s : ServerConfigState)
    → find_host config.auth_service_url s.known_hosts ≡ some config
    → request_connect config confirm_unknown s ≡ (s, true)
unfolding request_connect
request_connect_known config confirm_unknown s h =
    rw (h, request_on, (changes-eq-nil_iff config config).1 (refl, refl, refl))

-- After the user accepts the parked config, that config is the current one and asking for it again
-- goes straight through.
pub request-resolve :
    (confirm_unknown : Bool) (p : PendingHost) (s : ServerConfigState)
    → s.pending_host ≡ some p
    → let t = (resolve_pending_host true s).0 in
      (t.config ≡ some p.config)
      × (t.pending_host ≡ none)
      × (request_connect p.config confirm_unknown t ≡ (t, true))
unfolding resolve_pending_host
request-resolve confirm_unknown p s h = rw h (
  refl,
  refl,
  request_connect_known p.config confirm_unknown _ (
      find_host-remember_host p.config.auth_service_url s.known_hosts p.config
      ∙ ap (λ b. if b then some p.config else find_host p.config.auth_service_url s.known_hosts)
          (beq_refl p.config.auth_service_url)),
)

-- Declining leaves everything but the question.
pub resolve_declined :
    (s : ServerConfigState)
    → resolve_pending_host false s ≡ (record s { pending_host = none }, none)
unfolding resolve_pending_host
resolve_declined s = refl

-- A switch from one configured host to another drops the session; setting the same host again
-- keeps it.
pub session-set_config :
    (old config : ServerConfig) (s : ServerConfigState)
    → s.config ≡ some old
    → (set_config config s).session
      ≡ (if old.auth_service_url == config.auth_service_url then s.session else none)
unfolding set_config
session-set_config old config s h = rw (h, session_after)

-- After `clearConfig` the next host gets the session that the last one issued, whichever host it is.
pub session-set-clear :
    (config : ServerConfig) (s : ServerConfigState)
    → (set_config config (clear_config s)).session ≡ s.session
unfolding set_config clear_config
session-set-clear config s = refl

-- What is saved and read back on the next start is the configuration and the known hosts, to which an
-- empty list adds the configured host; nothing else survives.
pub merge_persisted-partialize :
    (s : ServerConfigState)
    → merge_persisted (some (partialize s)) initial
      ≡ record initial { config = s.config; known_hosts = seed s.config s.known_hosts }
unfolding merge_persisted partialize
merge_persisted-partialize s = refl
