-- ===== src/Jwks/Cache/Bounds.antt =====
-- How much the cache can hold, and that it holds no key without a kid.
use native.Mathlib.Nat.{mul-le-mul_right}
use project_starfly_fabrics.Prelude.{
  ℕ, zero, suc, ◌+◌, ◌*◌, ◌≤◌, String, ◌≡◌, refl, subst, inl, inr, Bool, false, not, Option, none,
  some, List, [], ◌∷◌, arith, length, is_empty, is_some, Bool-cases, if◌then◌else◌, Result, ok, err,
  bind-elim, nat_beq, refuse_if, ok-injective,
}
use project_starfly_fabrics.Dict.{Dict, lookup, insert, lookup-insert}
use project_starfly_fabrics.Dict.Entries.{AllEntries, length-insert}
use project_starfly_fabrics.Exchange.Dpop.{or_error}
use project_starfly_fabrics.Jwks.Cache.{
  fetch_status, Config, jwks_url_for_issuer, SetKey, Remote, IssuerEntry, Cache, add_exported,
  add_named, collect_keys, fetch_keys, count_keys, stats,
}
use project_starfly_fabrics.Jwks.Cache.Steps.{Reached, Kept, Run-Kept}

shorter : (known : Bool) (n m max : ℕ) → m ≡ (if known then n else suc n) → n ≤ max → m ≤ suc max
shorter known n m max e h = ground arith

product_bounded : (count n max per : ℕ) → count ≤ n * per → n ≤ max → count ≤ max * per
product_bounded count n max per h k = omega (arith, h, mul-le-mul_right per k)

module _ {ℓ} {K : Type ℓ} where
  -- The keys of one set: few enough, and none under the empty kid.
  pub record Named (max : ℕ) (keys : Dict K) : Type ℓ where
    pub few : length keys ≤ max
    pub unnamed : lookup "" keys ≡ none

  -- An entry as it is fetched.
  pub record Sound (cfg : Config) (issuer : String) (e : IssuerEntry K) : Type ℓ where
    pub at_url : e.jwks_url ≡ jwks_url_for_issuer issuer
    pub named : Named cfg.max_keys_per_issuer e.keys

  lookup_other :
      (kid : String) (key : K) (keys : Dict K)
      → is_empty kid ≡ false
      → lookup "" keys ≡ none
      → lookup "" (insert kid key keys) ≡ none
  unfolding is_empty
  lookup_other kid key keys h u = rw (lookup-insert kid "" key keys, h) u

  add_exported-Named :
      (n : ℕ) (kid : String) (raw : Result String (Option K)) (keys : Dict K)
      → is_empty kid ≡ false
      → Named n keys
      → Named (suc n) (add_exported kid raw keys)
  unfolding add_exported
  add_exported-Named n kid (err e) keys h k = record {
    few = omega (arith, k.few);
    unnamed = k.unnamed;
  }
  add_exported-Named n kid (ok none) keys h k = record {
    few = omega (arith, k.few);
    unnamed = k.unnamed;
  }
  add_exported-Named n kid (ok (some key)) keys h k = record {
    few = shorter (is_some (lookup kid keys)) (length keys) _ n (length-insert kid key keys) k.few;
    unnamed = lookup_other kid key keys h k.unnamed;
  }

  add_named-Named :
      (n : ℕ) (kid : Option String) (raw : Result String (Option K)) (keys : Dict K)
      → Named n keys
      → Named (suc n) (add_named kid raw keys)
  unfolding add_named
  add_named-Named n none raw keys k = record { few = omega (arith, k.few); unnamed = k.unnamed }
  add_named-Named n (some kid) raw keys k = elim (Bool-cases (is_empty kid)) [
    | inl empty ↦ rw empty (record { few = omega (arith, k.few); unnamed = k.unnamed })
    | inr set ↦ rw set (add_exported-Named n kid raw keys set k)
  ]

  collect_keys-Named :
      (m n total : ℕ) (set : List (SetKey K)) (keys : Dict K)
      → m + n ≡ total
      → Named n keys
      → Named total (collect_keys m set keys)
  unfolding collect_keys
  collect_keys-Named zero n total set keys e k = record {
    few = omega (arith, e, k.few);
    unnamed = k.unnamed;
  }
  collect_keys-Named (suc m) n total [] keys e k = record {
    few = omega (arith, e, k.few);
    unnamed = k.unnamed;
  }
  collect_keys-Named (suc m) n total (s ∷ set) keys e k =
      collect_keys-Named m (suc n) total set _ (omega (arith, e))
        (add_named-Named n s.kid s.raw keys k)

  pub fetch_keys-Named :
      (cfg : Config) (remote : Remote K) (url : String) (keys : Dict K)
      → fetch_keys cfg remote url ≡ ok keys
      → Named cfg.max_keys_per_issuer keys
  unfolding fetch_keys lookup
  fetch_keys-Named cfg remote url keys h =
      bind-elim (or_error (remote.new_request url) _) _ h λ request _ h.
        bind-elim (or_error (remote.send request) _) _ h λ response _ h.
          bind-elim (refuse_if (not (nat_beq response.status 200)) (fetch_status response.status)) _
            h
            λ _ _ h. bind-elim (or_error response.body _) _ h λ body _ h.
              bind-elim (or_error (remote.parse body) _) _ h λ set _ h.
                subst (Named cfg.max_keys_per_issuer) (ok-injective h) (
                  collect_keys-Named cfg.max_keys_per_issuer 0 _ set [] (omega arith)
                    (record { few = omega arith; unnamed = refl }))

  pub Reached-Sound : (cfg : Config) {c : Cache K} → Reached cfg c → Kept cfg (Sound cfg) c
  Reached-Sound cfg r =
      Run-Kept cfg (Sound cfg) (λ remote. Unit) (λ issuer e s. s.at_url)
        (λ remote issuer now keys a h. record {
          at_url = refl;
          named = fetch_keys-Named cfg remote _ keys h;
        })
        r (record { bounded = omega arith; entries = tt })

  count_keys-bounded :
      (cfg : Config) (entries : Dict (IssuerEntry K))
      → AllEntries (Sound cfg) entries
      → count_keys entries ≤ length entries * cfg.max_keys_per_issuer
  unfolding count_keys
  count_keys-bounded cfg [] h = omega arith
  count_keys-bounded cfg ((issuer, e) ∷ entries) h =
      let rest = count_keys-bounded cfg entries h.1 in let few = h.0.named.few in omega arith

  -- However it is used, the cache holds no more issuers than the limit, and no more keys than the
  -- two limits multiplied.
  pub stats-bounded :
      (cfg : Config) (c : Cache K)
      → Reached cfg c
      → ((stats c).issuers ≤ cfg.max_issuers)
        × ((stats c).cached_keys ≤ cfg.max_issuers * cfg.max_keys_per_issuer)
  unfolding stats
  stats-bounded cfg c r =
      let k = Reached-Sound cfg r in
      (k.bounded, product_bounded _ _ _ _ (count_keys-bounded cfg c.issuers k.entries) k.bounded)
