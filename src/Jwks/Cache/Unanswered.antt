-- ===== src/Jwks/Cache/Unanswered.antt =====
-- Resolutions that neither the cache nor the issuer can answer.
use project_starfly_fabrics.Prelude.{
  ℕ, String, ◌≡◌, refl, ◌≢◌, not, Option, none, some, Result, ok, err,
}
use project_starfly_fabrics.Dict.{Dict, lookup}
use project_starfly_fabrics.Jwks.Cache.{
  Config, FetchError, ResolveError, ResolveTimes, jwks_url_for_issuer, Remote, IssuerEntry, Cache,
  is_expired, is_within_grace, fetch_keys, settle_fetch, fetch_and_cache, key_if, answer,
  after_fetch, resolve_missing, resolve_key, resolving_key,
}

module _ {ℓ} {K : Type ℓ} where
  abbrev Unanswered : Result ResolveError K × Cache K → Type ℓ
  Unanswered r = (key : K) → r.0 ≢ ok key

  -- What the issuer serves has no such key.
  abbrev pub Unserved : Config → String → String → Remote K → Type ℓ
  Unserved cfg issuer kid remote =
      (keys : Dict K)
      → fetch_keys cfg remote (jwks_url_for_issuer issuer) ≡ ok keys
      → lookup kid keys ≡ none

  unanswered :
      (e : ResolveError) (o : Option K) (c : Cache K) → o ≡ none → Unanswered (answer e o c)
  unanswered e none c h key a = cc
  unanswered e (some k) c h key a = cc

  after_fetch-Unanswered :
      (cfg : Config) (now fetched_at : ℕ) (issuer kid : String) (entry : Option (IssuerEntry K))
      (c : Cache K) (remote : Remote K) (r : Result FetchError (Dict K))
      → fetch_keys cfg remote (jwks_url_for_issuer issuer) ≡ r
      → key_if (is_within_grace cfg.grace now) kid entry ≡ none
      → Unserved cfg issuer kid remote
      → Unanswered (
          after_fetch cfg now kid entry
            (settle_fetch cfg fetched_at issuer (jwks_url_for_issuer issuer) c r))
  after_fetch-Unanswered cfg now fetched_at issuer kid entry c remote (err e) h stale unserved =
      unanswered (resolving_key e) _ _ stale
  after_fetch-Unanswered cfg now fetched_at issuer kid entry c remote (ok keys) h stale unserved =
      unanswered _ _ _ (unserved keys h)

  resolve_missing-Unanswered :
      (cfg : Config) (remote : Remote K) (t : ResolveTimes) (issuer kid : String) (c : Cache K)
      (o : Option K)
      → o ≡ none
      → key_if (is_within_grace cfg.grace t.served_at) kid (lookup issuer c.issuers) ≡ none
      → Unserved cfg issuer kid remote
      → Unanswered (resolve_missing cfg remote t issuer kid c o)
  unfolding fetch_and_cache
  resolve_missing-Unanswered cfg remote t issuer kid c none h stale unserved =
      after_fetch-Unanswered cfg t.served_at t.fetched_at issuer kid _ _ remote _ refl stale
        unserved
  resolve_missing-Unanswered cfg remote t issuer kid c (some k) h stale unserved = λ key a. cc

  -- Without a fresh key, without a key within the grace period, and without one from the issuer,
  -- there is no answer.
  pub resolve_key-unanswered :
      (cfg : Config) (remote : Remote K) (t : ResolveTimes) (issuer kid : String) (c : Cache K)
      → key_if (λ e. not (is_expired cfg.ttl t.checked_at e)) kid (lookup issuer c.issuers) ≡ none
      → key_if (is_within_grace cfg.grace t.served_at) kid (lookup issuer c.issuers) ≡ none
      → Unserved cfg issuer kid remote
      → (key : K) → (resolve_key cfg remote t issuer kid c).0 ≢ ok key
  unfolding resolve_key
  resolve_key-unanswered cfg remote t issuer kid c fresh stale unserved =
      resolve_missing-Unanswered cfg remote t issuer kid c _ fresh stale unserved
