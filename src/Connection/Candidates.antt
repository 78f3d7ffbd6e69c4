-- ===== src/Connection/Candidates.antt =====
-- The URIs that an attempt tries: `canonicalizeUriCandidate` and `buildSpacetimeUriCandidates`. `parse`
-- is the URL parser of the host, with none for its exception, and `rehost` the URL with another host name.
use Prim.Native.String.{◌++◌}
use letschat.Common.{
  ℕ, ◌+◌, ◌≤◌, String, ◌≡◌, refl, Bool, false, ◌&&◌, ◌||◌, Option, none, some, List, [], ◌∷◌,
  if◌then◌else◌, ◌==◌, string_eq, trim, is_empty, includes, length, length-append, arith,
  Bool-cases, inl, inr,
}
use letschat.Common.{◌++◌ as append}

pub record Url : Type 0 where
  pub protocol : String
  pub host : String
  pub hostname : String
  pub pathname : String
  pub search : String
  pub hash : String
  pub href : String

module _ (parse : String → Option Url) (rehost : Url → String → Option Url)
    (to_lower : String → String) where
  canonical_of : String → Option Url → String
  canonical_of raw none = trim raw
  canonical_of raw (some url) =
      if url.pathname == "/" && (is_empty url.search && is_empty url.hash)
      then url.protocol ++ "//" ++ url.host
      else url.href

  unfoldable pub canonicalize_uri_candidate : String → String
  unfolding canonical_of
  canonicalize_uri_candidate raw = canonical_of raw (parse (trim raw))

  -- `pushCandidate`; the set of the candidates seen has the elements of the list.
  unfoldable pub push_candidate : String → List String → List String
  push_candidate candidate ordered =
      let canonical = canonicalize_uri_candidate candidate in
      if is_empty canonical
      then ordered
      else if includes canonical ordered
      then ordered
      else append ordered (canonical ∷ [])

  push_url : Option Url → List String → List String
  unfolding push_candidate
  push_url none ordered = ordered
  push_url (some url) ordered = push_candidate url.href ordered

  rehosted : Option Url → String → Option Url
  rehosted none host = none
  rehosted (some url) host = rehost url host

  unfoldable pub push_hosts : Url → List String → List String → List String
  unfolding push_url rehosted
  push_hosts url [] ordered = ordered
  push_hosts url (host ∷ hosts) ordered =
      push_hosts url hosts (push_url (rehosted (parse url.href) host) ordered)

  abbrev is_loopback : String → Bool
  is_loopback hostname = hostname == "localhost" || (hostname == "127.0.0.1" || hostname == "::1")

  with_loopbacks : Option Url → List String → List String
  unfolding push_hosts
  with_loopbacks none ordered = ordered
  with_loopbacks (some url) ordered =
      if is_loopback (to_lower url.hostname)
      then push_hosts url ("127.0.0.1" ∷ "localhost" ∷ "::1" ∷ []) ordered
      else ordered

  unfoldable pub build_spacetime_uri_candidates : String → List String
  unfolding with_loopbacks push_candidate
  build_spacetime_uri_candidates raw =
      if is_empty (trim raw)
      then "ws://127.0.0.1:4300" ∷ []
      else with_loopbacks (parse (trim raw)) (push_candidate (trim raw) [])

  -- No candidate is empty or stands twice.
  abbrev pub IsClean : List String → Type 0
  IsClean [] = Unit
  IsClean (u ∷ us) = (is_empty u ≡ false) × (includes u us ≡ false) × IsClean us

  includes-append :
      (u v : String) (us : List String)
      → includes u (append us (v ∷ [])) ≡ (includes u us || v == u)
  includes-append u v [] = ground arith
  includes-append u v (w ∷ us) = ground (arith, includes-append u v us)

  append-IsClean :
      (u : String) (us : List String)
      → is_empty u ≡ false
      → includes u us ≡ false
      → IsClean us
      → IsClean (append us (u ∷ []))
  append-IsClean u [] e h c = (e, refl, tt)
  append-IsClean u (v ∷ us) e h (f, g, c) = ground (
    arith,
    includes-append v u us,
    string_eq.reflects u v,
    string_eq.reflects v u,
    append-IsClean u us e,
  )

  -- One push keeps the candidates clean and adds one at most.
  abbrev Grows : ℕ → List String → List String → Type 0
  Grows n before after = IsClean after × (length after ≤ length before + n)

  push_candidate-Grows :
      (u : String) (us : List String) → IsClean us → Grows 1 us (push_candidate u us)
  unfolding push_candidate
  push_candidate-Grows u us c = ground (
    arith,
    append-IsClean (canonicalize_uri_candidate u) us,
    length-append us (canonicalize_uri_candidate u ∷ []),
  )

  push_url-Grows : (o : Option Url) (us : List String) → IsClean us → Grows 1 us (push_url o us)
  unfolding push_url
  push_url-Grows none us c = (c, omega arith)
  push_url-Grows (some url) us c = push_candidate-Grows url.href us c

  push_hosts-Grows :
      (url : Url) (hosts us : List String)
      → IsClean us
      → Grows (length hosts) us (push_hosts url hosts us)
  unfolding push_hosts
  push_hosts-Grows url [] us c = (c, omega arith)
  push_hosts-Grows url (host ∷ hosts) us c =
      let (d, m) = push_url-Grows (rehosted (parse url.href) host) us c in
      let (e, n) = push_hosts-Grows url hosts (push_url (rehosted (parse url.href) host) us) d in
      (e, omega (arith, m, n))

  with_loopbacks-Grows :
      (o : Option Url) (us : List String) → IsClean us → Grows 3 us (with_loopbacks o us)
  unfolding with_loopbacks
  with_loopbacks-Grows none us c = (c, omega arith)
  with_loopbacks-Grows (some url) us c =
      ground (arith, push_hosts-Grows url ("127.0.0.1" ∷ "localhost" ∷ "::1" ∷ []) us c)

  -- Whatever the parser does, an attempt has at most four candidates, none of them empty and none
  -- twice.
  pub build_spacetime_uri_candidates-IsClean :
      (raw : String)
      → IsClean (build_spacetime_uri_candidates raw)
        × (length (build_spacetime_uri_candidates raw) ≤ 4)
  unfolding build_spacetime_uri_candidates
  build_spacetime_uri_candidates-IsClean raw =
      let first = push_candidate-Grows (trim raw) [] tt in
      elim (Bool-cases (is_empty (trim raw))) [
        | inl blank ↦ rw blank ((refl, refl, tt), omega arith)
        | inr some_text ↦
            let (c, n) =
              with_loopbacks-Grows (parse (trim raw)) (push_candidate (trim raw) []) first.0 in
            rw some_text (c, omega (arith, n, first.1))
      ]
