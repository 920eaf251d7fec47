-- ===== src/Jwks/Cache/Kidless.antt =====
-- Resolutions without a kid.
use project_starfly_fabrics.Prelude.{
  String, ◌≡◌, refl, ◌≢◌, inl, inr, Bool, not, Option, none, some, Bool-cases, ok,
}
use project_starfly_fabrics.Dict.{Dict, lookup}
use project_starfly_fabrics.Dict.Entries.{AllEntries, lookup-AllEntries}
use project_starfly_fabrics.Jwks.Cache.{
  Config, ResolveTimes, Remote, IssuerEntry, Cache, is_expired, is_within_grace, key_if,
  resolve_key,
}
use project_starfly_fabrics.Jwks.Cache.Steps.{Reached}
use project_starfly_fabrics.Jwks.Cache.Bounds.{Sound, Reached-Sound, fetch_keys-Named}
use project_starfly_fabrics.Jwks.Cache.Unanswered.{resolve_key-unanswered}

module _ {ℓ} {K : Type ℓ} where
  no_key :
      (cfg : Config) (usable : IssuerEntry K → Bool) (issuer : String)
      (entries : Dict (IssuerEntry K)) (found : Option (IssuerEntry K))
      → AllEntries (Sound cfg) entries
      → lookup issuer entries ≡ found
      → key_if usable "" found ≡ none
  no_key cfg usable issuer entries none h e = refl
  no_key cfg usable issuer entries (some entry) h e =
      let sound = lookup-AllEntries (Sound cfg) issuer entry entries h e in
      elim (Bool-cases (usable entry)) [ inl u ↦ rw u sound.named.unnamed | inr u ↦ rw u refl ]

  -- The cache has no answer for the empty kid: whatever it holds and whatever the issuer serves, a
  -- resolution with an empty kid fails.
  pub empty_kid_unanswered :
      (cfg : Config) (c : Cache K) (remote : Remote K) (t : ResolveTimes) (issuer : String)
      (key : K)
      → Reached cfg c
      → (resolve_key cfg remote t issuer "" c).0 ≢ ok key
  empty_kid_unanswered cfg c remote t issuer key r =
      let entries = (Reached-Sound cfg r).entries in
      resolve_key-unanswered cfg remote t issuer "" c
        (no_key cfg (λ e. not (is_expired cfg.ttl t.checked_at e)) issuer c.issuers _ entries refl)
        (no_key cfg (is_within_grace cfg.grace t.served_at) issuer c.issuers _ entries refl)
        (λ keys h. (fetch_keys-Named cfg remote _ keys h).unnamed) key
