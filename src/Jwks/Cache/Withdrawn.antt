-- ===== src/Jwks/Cache/Withdrawn.antt =====
-- Keys that an issuer has withdrawn.
use project_starfly_fabrics.Prelude.{
  ℕ, ◌+◌, ◌-◌, ◌≤◌, ◌<◌, String, ◌≡◌, refl, ◌≢◌, ◌⊎◌, inl, inr, Bool, true, false, not, Option,
  none, some, [], ◌∷◌, arith, ltb, leb, Bool-cases, ok, subst,
}
use project_starfly_fabrics.Dict.{Dict, lookup}
use project_starfly_fabrics.Dict.Entries.{AllEntries, lookup-AllEntries}
use project_starfly_fabrics.Jwks.Cache.{
  Config, ResolveTimes, jwks_url_for_issuer, Remote, IssuerEntry, Cache, is_expired, fetch_keys,
  is_within_grace, key_if, resolve_key,
}
use project_starfly_fabrics.Jwks.Cache.Steps.{Reached, Run, Run-Kept}
use project_starfly_fabrics.Jwks.Cache.Bounds.{Sound, Reached-Sound}
use project_starfly_fabrics.Jwks.Cache.Unanswered.{Unserved, resolve_key-unanswered}

old_expired :
    (ttl time now fetched : ℕ) → fetched ≤ time → time + ttl < now → ltb ttl (now - fetched) ≡ true
old_expired ttl time now fetched h k = ground arith

old_ungraced :
    (grace time now fetched : ℕ)
    → fetched ≤ time
    → time + grace < now
    → leb (now - fetched) grace ≡ false
old_ungraced grace time now fetched h k = ground arith

module _ {ℓ} {K : Type ℓ} where
  -- Every entry was fetched by that time.
  abbrev pub FetchedBy : ℕ → Cache K → Type 0
  FetchedBy time c = AllEntries (λ issuer e. e.fetched_at ≤ time) c.issuers

  -- An entry of the issuer lacks the key or is that old.
  record Outdated (issuer kid : String) (time : ℕ) (of : String) (e : IssuerEntry K) : Type ℓ where
    pub at_url : e.jwks_url ≡ jwks_url_for_issuer of
    pub lacks : of ≡ issuer → (lookup kid e.keys ≡ none) ⊎ (e.fetched_at ≤ time)

  start-Outdated :
      (cfg : Config) (issuer kid : String) (time : ℕ) (entries : Dict (IssuerEntry K))
      → AllEntries (Sound cfg) entries
      → AllEntries (λ issuer e. e.fetched_at ≤ time) entries
      → AllEntries (Outdated issuer kid time) entries
  start-Outdated cfg issuer kid time [] s f = tt
  start-Outdated cfg issuer kid time (entry ∷ entries) s f = (
    record { at_url = s.0.at_url; lacks = λ _. inr f.0 },
    start-Outdated cfg issuer kid time entries s.1 f.1,
  )

  lacking :
      (usable : IssuerEntry K → Bool) (kid : String) (e : IssuerEntry K)
      → (lookup kid e.keys ≡ none) ⊎ (usable e ≡ false)
      → key_if usable kid (some e) ≡ none
  lacking usable kid e (inl h) = elim (Bool-cases (usable e)) [ inl u ↦ rw u h | inr u ↦ rw u refl ]
  lacking usable kid e (inr h) = rw h refl

  no_withdrawn :
      (usable : IssuerEntry K → Bool) (issuer kid : String) (time : ℕ)
      (entries : Dict (IssuerEntry K)) (found : Option (IssuerEntry K))
      → AllEntries (Outdated issuer kid time) entries
      → lookup issuer entries ≡ found
      → ((e : IssuerEntry K) → e.fetched_at ≤ time → usable e ≡ false)
      → key_if usable kid found ≡ none
  no_withdrawn usable issuer kid time entries none h e unusable = refl
  no_withdrawn usable issuer kid time entries (some entry) h e unusable =
      let o = lookup-AllEntries (Outdated issuer kid time) issuer entry entries h e in
      lacking usable kid entry
        (elim (o.lacks refl) [ inl absent ↦ inl absent | inr old ↦ inr (unusable entry old) ])

  -- A key that its issuer no longer serves is refused once the longer of the two periods is over:
  -- from a cache whose entries were fetched by some time, whatever is then resolved, prefetched or
  -- refreshed while the issuer serves no such key or cannot be reached, the key is not given out
  -- when both the TTL and the grace period after that time have passed.
  pub withdrawn_key_refused :
      (cfg : Config) (issuer kid : String) (time : ℕ) (c c' : Cache K) (remote : Remote K)
      (t : ResolveTimes) (key : K)
      → Reached cfg c
      → FetchedBy time c
      → Run cfg (Unserved cfg issuer kid) c c'
      → Unserved cfg issuer kid remote
      → time + cfg.ttl < t.checked_at
      → time + cfg.grace < t.served_at
      → (resolve_key cfg remote t issuer kid c').0 ≢ ok key
  unfolding is_expired is_within_grace
  withdrawn_key_refused cfg issuer kid time c c' remote t key r f run unserved past_ttl past_grace =
      let sound = Reached-Sound cfg r in
      let kept =
        Run-Kept cfg (Outdated issuer kid time) (Unserved cfg issuer kid) (λ of e o. o.at_url)
          (λ remote of now keys gone h. record {
            at_url = refl;
            lacks = λ same. inl (
                gone keys
                  (subst (λ i. fetch_keys cfg remote (jwks_url_for_issuer i) ≡ ok keys) same h));
          })
          run
          (record {
            bounded = sound.bounded;
            entries = start-Outdated cfg issuer kid time c.issuers sound.entries f;
          }) in
      resolve_key-unanswered cfg remote t issuer kid c'
        (no_withdrawn (λ e. not (is_expired cfg.ttl t.checked_at e)) issuer kid time c'.issuers _
          kept.entries refl
          λ e old. rw (old_expired cfg.ttl time t.checked_at e.fetched_at old past_ttl) refl)
        (no_withdrawn (is_within_grace cfg.grace t.served_at) issuer kid time c'.issuers _
          kept.entries refl
          λ e old. old_ungraced cfg.grace time t.served_at e.fetched_at old past_grace)
        unserved key
