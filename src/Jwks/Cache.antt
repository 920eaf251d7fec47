-- ===== src/Jwks/Cache.antt =====
-- The cache of issuers' signing keys, pkg/jwks/cache.go, over any type of public keys. The HTTP
-- client and the JWK library are parameters, and so is every reading of the clock. Entries do not
-- change once they are stored, and the counters are the program's 64-bit ones. Durations and limits
-- are natural numbers: the program's are signed, and only their defaults and settings are used.
pub mod Steps
pub mod Bounds
pub mod Unanswered
pub mod Kidless
pub mod Withdrawn
mod Tests
use Prim.Native.String.{◌++◌}
use project_starfly_fabrics.Prelude.{
  ℕ, zero, suc, ◌+◌, ◌-◌, ◌*◌, ◌%◌, ◌^◌, String, Bool, true, false, not, ◌&&◌, ◌||◌, Option, none,
  some, List, [], ◌∷◌, is_empty, is_some, length, ltb, leb, nat_beq, if◌then◌else◌, Result, ok, err,
  bind, refuse_if,
}
use project_starfly_fabrics.Dict.{Dict, lookup, insert}
use project_starfly_fabrics.Exchange.Nonce.{second}
use project_starfly_fabrics.Exchange.Dpop.{or_error}

pub record Config : Type 0 where
  pub ttl : ℕ
  pub grace : ℕ
  pub max_issuers : ℕ
  pub max_keys_per_issuer : ℕ

abbrev pub or_default : ℕ → ℕ → ℕ
or_default n default = if nat_beq n 0 then default else n

unfoldable pub with_defaults : Config → Config
with_defaults c = record {
  ttl = or_default c.ttl (300 * second);
  grace = or_default c.grace (1800 * second);
  max_issuers = or_default c.max_issuers 500;
  max_keys_per_issuer = or_default c.max_keys_per_issuer 20;
}

pub data FetchError : Type 0 where
  creating_request fetching_jwks reading_response parsing_jwks : FetchError
  fetch_status : ℕ → FetchError

pub data ResolveError : Type 0 where
  resolving_key : FetchError → ResolveError
  kid_not_found : ResolveError

pub record Response : Type 0 where
  pub status : ℕ
  pub body : Result String String

pub record JwksCacheStats : Type 0 where
  pub hits : ℕ
  pub misses : ℕ
  pub fetches : ℕ
  pub errors : ℕ
  pub cached_keys : ℕ
  pub issuers : ℕ

-- The readings of the clock in one resolution: of the first test, at the end of the fetch, and of
-- the test of the grace period.
pub record ResolveTimes : Type 0 where
  pub checked_at : ℕ
  pub fetched_at : ℕ
  pub served_at : ℕ

abbrev pub jwks_url_for_issuer : String → String
jwks_url_for_issuer issuer = issuer ++ "/.well-known/jwks.json"

-- `counter.Add(1)` on an atomic.Uint64
abbrev pub add_one : ℕ → ℕ
add_one n = (n + 1) % 2 ^ 64

-- A key of a set: its kid, and its export, where `none` is a nil interface.
pub record SetKey {ℓ} (K : Type ℓ) : Type ℓ where
  pub kid : Option String
  pub raw : Result String (Option K)

-- http.NewRequest, the client's Do, and jwk.Parse.
pub record Remote {ℓ} (K : Type ℓ) : Type ℓ where
  pub new_request : String → Result String String
  pub send : String → Result String Response
  pub parse : String → Result String (List (SetKey K))

pub record IssuerEntry {ℓ} (K : Type ℓ) : Type ℓ where
  pub keys : Dict K
  pub fetched_at : ℕ
  pub jwks_url : String

pub record Cache {ℓ} (K : Type ℓ) : Type ℓ where
  pub issuers : Dict (IssuerEntry K)
  pub hits : ℕ
  pub misses : ℕ
  pub fetches : ℕ
  pub errors : ℕ

module _ {ℓ} {K : Type ℓ} where
  abbrev pub new_cache : Cache K
  new_cache = record { issuers = []; hits = 0; misses = 0; fetches = 0; errors = 0 }

  unfoldable pub is_expired : ℕ → ℕ → IssuerEntry K → Bool
  is_expired ttl now e = ltb ttl (now - e.fetched_at)

  unfoldable pub is_within_grace : ℕ → ℕ → IssuerEntry K → Bool
  is_within_grace grace now e = leb (now - e.fetched_at) grace

  add_exported : String → Result String (Option K) → Dict K → Dict K
  add_exported kid (err e) keys = keys
  add_exported kid (ok none) keys = keys
  add_exported kid (ok (some key)) keys = insert kid key keys

  add_named : Option String → Result String (Option K) → Dict K → Dict K
  unfolding add_exported
  add_named none raw keys = keys
  add_named (some kid) raw keys = if is_empty kid then keys else add_exported kid raw keys

  -- `for i := 0; i < keyset.Len() && i < max; i++`
  unfoldable pub collect_keys : ℕ → List (SetKey K) → Dict K → Dict K
  unfolding add_named
  collect_keys zero set keys = keys
  collect_keys (suc n) [] keys = keys
  collect_keys (suc n) (k ∷ set) keys = collect_keys n set (add_named k.kid k.raw keys)

  unfoldable pub fetch_keys : Config → Remote K → String → Result FetchError (Dict K)
  unfolding collect_keys
  fetch_keys cfg remote url = bind (or_error (remote.new_request url) creating_request) λ request.
      bind (or_error (remote.send request) fetching_jwks) λ response.
        bind (refuse_if (not (nat_beq response.status 200)) (fetch_status response.status)) λ _.
          bind (or_error response.body reading_response) λ body.
            bind (or_error (remote.parse body) parsing_jwks)
              λ set. ok (collect_keys cfg.max_keys_per_issuer set [])

  unfoldable pub store : Config → String → IssuerEntry K → Cache K → Cache K
  store cfg issuer entry c =
      if ltb (length c.issuers) cfg.max_issuers || is_some (lookup issuer c.issuers)
      then record c { issuers = insert issuer entry c.issuers }
      else c

  abbrev pub settle_fetch :
      Config
      → ℕ
      → String
      → String
      → Cache K
      → Result FetchError (Dict K)
      → Result FetchError (IssuerEntry K) × Cache K
  settle_fetch cfg now issuer url c (err e) = (err e, record c { errors = add_one c.errors })
  settle_fetch cfg now issuer url c (ok keys) =
      let entry : IssuerEntry K = record { keys = keys; fetched_at = now; jwks_url = url } in
      (ok entry, store cfg issuer entry c)

  unfoldable pub fetch_and_cache :
      Config
      → Remote K
      → ℕ
      → String
      → String
      → Cache K
      → Result FetchError (IssuerEntry K) × Cache K
  unfolding store
  fetch_and_cache cfg remote now issuer url c =
      settle_fetch cfg now issuer url (record c { fetches = add_one c.fetches })
        (fetch_keys cfg remote url)

  abbrev pub key_if : (IssuerEntry K → Bool) → String → Option (IssuerEntry K) → Option K
  key_if usable kid none = none
  key_if usable kid (some entry) = if usable entry then lookup kid entry.keys else none

  abbrev pub hit : Cache K → Cache K
  hit c = record c { hits = add_one c.hits }

  abbrev miss : Cache K → Cache K
  miss c = record c { misses = add_one c.misses }

  abbrev pub answer : ResolveError → Option K → Cache K → Result ResolveError K × Cache K
  answer e none c = (err e, c)
  answer e (some key) c = (ok key, hit c)

  -- A failed fetch falls back to the entry that was found before it.
  abbrev pub after_fetch :
      Config
      → ℕ
      → String
      → Option (IssuerEntry K)
      → Result FetchError (IssuerEntry K) × Cache K
      → Result ResolveError K × Cache K
  after_fetch cfg now kid entry (err e, c) =
      answer (resolving_key e) (key_if (is_within_grace cfg.grace now) kid entry) c
  after_fetch cfg now kid entry (ok fetched, c) = answer kid_not_found (lookup kid fetched.keys) c

  abbrev pub resolve_missing :
      Config
      → Remote K
      → ResolveTimes
      → String
      → String
      → Cache K
      → Option K
      → Result ResolveError K × Cache K
  resolve_missing cfg remote t issuer kid c (some key) = (ok key, hit c)
  resolve_missing cfg remote t issuer kid c none =
      after_fetch cfg t.served_at kid (lookup issuer c.issuers)
        (fetch_and_cache cfg remote t.fetched_at issuer (jwks_url_for_issuer issuer) (miss c))

  unfoldable pub resolve_key :
      Config → Remote K → ResolveTimes → String → String → Cache K → Result ResolveError K × Cache K
  unfolding is_expired is_within_grace
  resolve_key cfg remote t issuer kid c =
      resolve_missing cfg remote t issuer kid c
        (key_if (λ e. not (is_expired cfg.ttl t.checked_at e)) kid (lookup issuer c.issuers))

  -- The issuers whose entries are to be fetched again, with their URLs.
  unfoldable pub to_refresh : Config → ℕ → Dict (IssuerEntry K) → List (String × String)
  unfolding is_expired is_within_grace
  to_refresh cfg now [] = []
  to_refresh cfg now ((issuer, e) ∷ entries) =
      let rest = to_refresh cfg now entries in
      if is_expired cfg.ttl now e && is_within_grace cfg.grace now e
      then (issuer, e.jwks_url) ∷ rest
      else rest

  unfoldable pub refresh_all :
      Config → Remote K → (String → ℕ) → List (String × String) → Cache K → Cache K
  unfolding fetch_and_cache
  refresh_all cfg remote fetched_at [] c = c
  refresh_all cfg remote fetched_at ((issuer, url) ∷ rest) c =
      refresh_all cfg remote fetched_at rest
        (fetch_and_cache cfg remote (fetched_at issuer) issuer url c).1

  unfoldable pub refresh_expired : Config → Remote K → ℕ → (String → ℕ) → Cache K → Cache K
  unfolding to_refresh refresh_all
  refresh_expired cfg remote now fetched_at c =
      refresh_all cfg remote fetched_at (to_refresh cfg now c.issuers) c

  unfoldable pub count_keys : Dict (IssuerEntry K) → ℕ
  count_keys [] = 0
  count_keys ((issuer, e) ∷ entries) = length e.keys + count_keys entries

  unfoldable pub stats : Cache K → JwksCacheStats
  unfolding count_keys
  stats c = record {
    hits = c.hits;
    misses = c.misses;
    fetches = c.fetches;
    errors = c.errors;
    cached_keys = count_keys c.issuers;
    issuers = length c.issuers;
  }
