-- ===== src/Jwks/Cache/Steps.antt =====
-- Histories of the cache, and the entries that they can make. Prefetch starts one fetch per issuer;
-- each of them is a step, in any order with the others and with everything else.
use project_starfly_fabrics.Prelude.{
  ℕ, suc, ◌≤◌, String, ◌≡◌, refl, sym, subst, inl, inr, Bool, true, ◌&&◌, ◌||◌, Option, none, some,
  List, [], ◌∷◌, arith, All, length, is_some, ltb, Bool-cases, if◌then◌else◌, Result, ok, err,
}
use project_starfly_fabrics.Dict.{Dict, lookup}
use project_starfly_fabrics.Dict.Entries.{AllEntries, length-insert, insert-AllEntries}
use project_starfly_fabrics.Jwks.Cache.{
  Config, FetchError, ResolveError, ResolveTimes, jwks_url_for_issuer, Remote, IssuerEntry, Cache,
  new_cache, is_expired, is_within_grace, fetch_keys, store, settle_fetch, fetch_and_cache, answer,
  after_fetch, resolve_missing, resolve_key, to_refresh, refresh_all, refresh_expired,
}

module _ {ℓ} {K : Type ℓ} (cfg : Config) where
  -- One operation of the cache against a remote that is among the allowed ones.
  pub data Step (Allowed : Remote K → Type ℓ) (c : Cache K) : Cache K → Type ℓ where
    resolved :
        (remote : Remote K) (t : ResolveTimes) (issuer kid : String)
        → Allowed remote
        → Step Allowed c (resolve_key cfg remote t issuer kid c).1
    prefetched :
        (remote : Remote K) (now : ℕ) (issuer : String)
        → Allowed remote
        → Step Allowed c (fetch_and_cache cfg remote now issuer (jwks_url_for_issuer issuer) c).1
    refreshed :
        (remote : Remote K) (now : ℕ) (fetched_at : String → ℕ)
        → Allowed remote
        → Step Allowed c (refresh_expired cfg remote now fetched_at c)

  pub data Run (Allowed : Remote K → Type ℓ) (c : Cache K) : Cache K → Type ℓ where
    start : Run Allowed c c
    next : {c' c'' : Cache K} → Run Allowed c c' → Step Allowed c' c'' → Run Allowed c c''

  -- The caches that a new one becomes, whatever the issuers answer.
  abbrev pub Reached : Cache K → Type ℓ
  Reached c = Run (λ remote. Unit) new_cache c

  -- No more issuers than allowed, and a predicate on every entry.
  pub record Kept {κ} (P : String → IssuerEntry K → Type κ) (c : Cache K) : Type κ where
    pub bounded : length c.issuers ≤ cfg.max_issuers
    pub entries : AllEntries P c.issuers

module _ {ℓ κ} {K : Type ℓ} (cfg : Config) (P : String → IssuerEntry K → Type κ)
    (Allowed : Remote K → Type ℓ)
    (at_url : (issuer : String) (e : IssuerEntry K)
      → P issuer e
      → e.jwks_url ≡ jwks_url_for_issuer issuer)
    (supplied : (remote : Remote K) (issuer : String) (now : ℕ) (keys : Dict K)
      → Allowed remote
      → fetch_keys cfg remote (jwks_url_for_issuer issuer) ≡ ok keys
      → P issuer
          (record { keys = keys; fetched_at = now; jwks_url = jwks_url_for_issuer issuer })) where
  new-Kept : Kept {K = K} cfg P new_cache
  new-Kept = record { bounded = omega arith; entries = tt }

  grown_bounded :
      (known : Bool) (n m max : ℕ)
      → m ≡ (if known then n else suc n)
      → (ltb n max || known) ≡ true
      → n ≤ max
      → m ≤ max
  grown_bounded known n m max e h b = ground arith

  store-Kept :
      (issuer : String) (e : IssuerEntry K) (c : Cache K)
      → P issuer e
      → Kept cfg P c
      → Kept cfg P (store cfg issuer e c)
  unfolding store
  store-Kept issuer e c p k =
      elim (Bool-cases
        (ltb (length c.issuers) cfg.max_issuers || is_some (lookup issuer c.issuers))) [
          | inl room ↦ rw room (record {
            bounded =
                grown_bounded (is_some (lookup issuer c.issuers)) (length c.issuers) _
                  cfg.max_issuers (length-insert issuer e c.issuers) room k.bounded;
            entries = insert-AllEntries P issuer e c.issuers p k.entries;
          })
          | inr full ↦ rw full k
        ]

  settle_fetch-Kept :
      (remote : Remote K) (now : ℕ) (issuer : String) (c : Cache K) (r : Result FetchError (Dict K))
      → Allowed remote
      → fetch_keys cfg remote (jwks_url_for_issuer issuer) ≡ r
      → Kept cfg P c
      → Kept cfg P (settle_fetch cfg now issuer (jwks_url_for_issuer issuer) c r).1
  settle_fetch-Kept remote now issuer c (err e) a h k = record {
    bounded = k.bounded;
    entries = k.entries;
  }
  settle_fetch-Kept remote now issuer c (ok keys) a h k =
      store-Kept issuer _ c (supplied remote issuer now keys a h) k

  fetch_and_cache-Kept :
      (remote : Remote K) (now : ℕ) (issuer : String) (c : Cache K)
      → Allowed remote
      → Kept cfg P c
      → Kept cfg P (fetch_and_cache cfg remote now issuer (jwks_url_for_issuer issuer) c).1
  unfolding fetch_and_cache
  fetch_and_cache-Kept remote now issuer c a k =
      settle_fetch-Kept remote now issuer _ _ a refl
        (record { bounded = k.bounded; entries = k.entries })

  answer-Kept :
      (e : ResolveError) (o : Option K) (c : Cache K) → Kept cfg P c → Kept cfg P (answer e o c).1
  answer-Kept e none c k = k
  answer-Kept e (some key) c k = record { bounded = k.bounded; entries = k.entries }

  after_fetch-Kept :
      (now : ℕ) (kid : String) (entry : Option (IssuerEntry K))
      (r : Result FetchError (IssuerEntry K) × Cache K)
      → Kept cfg P r.1
      → Kept cfg P (after_fetch cfg now kid entry r).1
  after_fetch-Kept now kid entry (err e, c) k = answer-Kept _ _ c k
  after_fetch-Kept now kid entry (ok fetched, c) k = answer-Kept _ _ c k

  resolve_missing-Kept :
      (remote : Remote K) (t : ResolveTimes) (issuer kid : String) (c : Cache K) (o : Option K)
      → Allowed remote
      → Kept cfg P c
      → Kept cfg P (resolve_missing cfg remote t issuer kid c o).1
  resolve_missing-Kept remote t issuer kid c (some key) a k = record {
    bounded = k.bounded;
    entries = k.entries;
  }
  resolve_missing-Kept remote t issuer kid c none a k = after_fetch-Kept t.served_at kid _ _ (
      fetch_and_cache-Kept remote t.fetched_at issuer _ a
        (record { bounded = k.bounded; entries = k.entries }))

  to_refresh-at_url :
      (now : ℕ) (entries : Dict (IssuerEntry K))
      → AllEntries P entries
      → All (λ (r : String × String). r.1 ≡ jwks_url_for_issuer r.0) (to_refresh cfg now entries)
  unfolding to_refresh
  to_refresh-at_url now [] h = tt
  to_refresh-at_url now ((issuer, e) ∷ entries) h =
      let rest = to_refresh-at_url now entries h.1 in
      elim (Bool-cases (is_expired cfg.ttl now e && is_within_grace cfg.grace now e)) [
        | inl due ↦ rw due (at_url issuer e h.0, rest)
        | inr other ↦ rw other rest
      ]

  refresh_all-Kept :
      (remote : Remote K) (fetched_at : String → ℕ) (rs : List (String × String)) (c : Cache K)
      → Allowed remote
      → All (λ (r : String × String). r.1 ≡ jwks_url_for_issuer r.0) rs
      → Kept cfg P c
      → Kept cfg P (refresh_all cfg remote fetched_at rs c)
  unfolding refresh_all
  refresh_all-Kept remote fetched_at [] c a h k = k
  refresh_all-Kept remote fetched_at ((issuer, url) ∷ rs) c a h k =
      refresh_all-Kept remote fetched_at rs _ a h.1 (
        subst (λ u. Kept cfg P (fetch_and_cache cfg remote (fetched_at issuer) issuer u c).1)
          (sym h.0) (fetch_and_cache-Kept remote (fetched_at issuer) issuer c a k))

  Step-Kept : {c c' : Cache K} → Step cfg Allowed c c' → Kept cfg P c → Kept cfg P c'
  unfolding resolve_key refresh_expired
  Step-Kept {c} (resolved remote t issuer kid a) k =
      resolve_missing-Kept remote t issuer kid c _ a k
  Step-Kept {c} (prefetched remote now issuer a) k = fetch_and_cache-Kept remote now issuer c a k
  Step-Kept {c} (refreshed remote now fetched_at a) k =
      refresh_all-Kept remote fetched_at _ c a (to_refresh-at_url now c.issuers k.entries) k

  -- What holds of every entry that can be fetched is kept by every history.
  pub Run-Kept : {c c' : Cache K} → Run cfg Allowed c c' → Kept cfg P c → Kept cfg P c'
  Run-Kept start k = k
  Run-Kept (next r s) k = Step-Kept s (Run-Kept r k)
