-- ===== src/Federation/Resolver/Served.antt =====
-- Where a resolved key comes from.
use project_starfly_fabrics.Prelude.{
  ℕ, String, ◌==◌, eq_iff, ◌≡◌, refl, ap, ◌∙◌, subst, ◌⊎◌, inl, inr, Option, none, some, [], ◌∷◌,
  Bool-cases, if◌then◌else◌, Result, ok, err,
}
use project_starfly_fabrics.Dict.{Dict, lookup}
use project_starfly_fabrics.Federation.Resolver.{
  PeerRemote, Peer, LocalResolver, FetchTimes, or_rest, answer_of_local, settle_peer, fetch_set,
  fetch_peer_keys, cached_key, found_or, after_peer, on_demand, found_or_error, resolve_peer,
  ask_local, resolve_federated, resolve_key,
}

module _ {ℓ} {K : Type ℓ} where
  -- A peer whose endpoint is the issuer holds the key under the kid.
  pub data HeldBy (issuer kid : String) (key : K) : Dict (Peer K) → Type ℓ where
    here :
        (id : String) (p : Peer K) {peers : Dict (Peer K)}
        → p.config.jwks_endpoint ≡ issuer
        → lookup kid p.keys ≡ some key
        → HeldBy issuer kid key ((id, p) ∷ peers)
    there :
        (id : String) (p : Peer K) {peers : Dict (Peer K)}
        → HeldBy issuer kid key peers
        → HeldBy issuer kid key ((id, p) ∷ peers)

  from_cache :
      (issuer kid id : String) (key : K) (p : Peer K) (peers : Dict (Peer K))
      (found rest : Option K)
      → p.config.jwks_endpoint ≡ issuer
      → lookup kid p.keys ≡ found
      → or_rest found rest ≡ some key
      → (rest ≡ some key → HeldBy issuer kid key peers)
      → HeldBy issuer kid key ((id, p) ∷ peers)
  from_cache issuer kid id key p peers none rest e l h k = there id p (k h)
  from_cache issuer kid id key p peers (some found) rest e l h k = here id p e (l ∙ h)

  cached_key-HeldBy :
      (issuer kid : String) (key : K) (peers : Dict (Peer K))
      → cached_key issuer kid peers ≡ some key
      → HeldBy issuer kid key peers
  unfolding cached_key
  cached_key-HeldBy issuer kid key [] h = cc
  cached_key-HeldBy issuer kid key ((id, p) ∷ peers) h =
      elim (Bool-cases (p.config.jwks_endpoint == issuer)) [
        | inl same ↦
            from_cache issuer kid id key p peers (lookup kid p.keys) (cached_key issuer kid peers)
              ((eq_iff _ issuer).0 same) refl (rw (same, if◌then◌else◌) at h)
              (cached_key-HeldBy issuer kid key peers)
        | inr other ↦
            there id p (cached_key-HeldBy issuer kid key peers (rw (other, if◌then◌else◌) at h))
      ]

  config-settled :
      (seen_at : ℕ) (p : Peer K) (r : Result String (Dict K))
      → (settle_peer seen_at p r).1.config ≡ p.config
  config-settled seen_at p (err e) = refl
  config-settled seen_at p (ok keys) = refl

  config-fetched :
      (remote : PeerRemote K) (attempt_at seen_at : ℕ) (p : Peer K)
      → (fetch_peer_keys remote attempt_at seen_at p).1.config ≡ p.config
  unfolding fetch_peer_keys
  config-fetched remote attempt_at seen_at p =
      config-settled seen_at (record p { last_attempt = attempt_at })
        (fetch_set remote p.config.jwks_endpoint)

  -- What the walk over the rest of the peers found, it left with them.
  abbrev Found : String → String → K → Option K × Dict (Peer K) → Type ℓ
  Found issuer kid key r = r.0 ≡ some key → HeldBy issuer kid key r.1

  found_or-HeldBy :
      (issuer kid id : String) (key : K) (p : Peer K) (peers : Dict (Peer K))
      (rest : Option K × Dict (Peer K)) (found : Option K)
      → p.config.jwks_endpoint ≡ issuer
      → lookup kid p.keys ≡ found
      → Found issuer kid key rest
      → Found issuer kid key (found_or id p peers rest found)
  found_or-HeldBy issuer kid id key p peers rest none e l k h = there id p (k h)
  found_or-HeldBy issuer kid id key p peers rest (some found) e l k h = here id p e (l ∙ h)

  after_peer-HeldBy :
      (issuer kid id : String) (key : K) (peers : Dict (Peer K)) (rest : Option K × Dict (Peer K))
      (r : Result String (Unit {0}) × Peer K)
      → r.1.config.jwks_endpoint ≡ issuer
      → Found issuer kid key rest
      → Found issuer kid key (after_peer kid id peers rest r)
  after_peer-HeldBy issuer kid id key peers rest (err x, p) e k h = there id p (k h)
  after_peer-HeldBy issuer kid id key peers rest (ok x, p) e k h =
      found_or-HeldBy issuer kid id key p peers rest (lookup kid p.keys) e refl k h

  on_demand-HeldBy :
      (remote : PeerRemote K) (t : FetchTimes) (issuer kid : String) (key : K)
      (peers : Dict (Peer K))
      → Found issuer kid key (on_demand remote t issuer kid peers)
  unfolding on_demand
  on_demand-HeldBy remote t issuer kid key [] = λ h. cc
  on_demand-HeldBy remote t issuer kid key ((id, p) ∷ peers) =
      let rest = on_demand-HeldBy remote t issuer kid key peers in
      elim (Bool-cases (p.config.jwks_endpoint == issuer)) [
        | inl same ↦ rw same (
            after_peer-HeldBy issuer kid id key peers (on_demand remote t issuer kid peers)
              (fetch_peer_keys remote (t.attempt_at id) (t.seen_at id) p)
              (ap (λ c. c.jwks_endpoint) (config-fetched remote _ _ p) ∙ (eq_iff _ issuer).0 same)
              rest)
        | inr other ↦ rw other (λ h. there id p (rest h))
      ]

  found_or_error-HeldBy :
      (issuer kid : String) (key : K) (r : Option K × Dict (Peer K)) (peers' : Dict (Peer K))
      → found_or_error r ≡ (ok key, peers')
      → Found issuer kid key r
      → HeldBy issuer kid key peers'
  found_or_error-HeldBy issuer kid key (none, peers) peers' h k = cc
  found_or_error-HeldBy issuer kid key (some found, peers) peers' h k =
      let same : peers ≡ peers' = cc in
      let same_key : found ≡ key = cc in subst (HeldBy issuer kid key) same (k (ap some same_key))

  resolve_peer-HeldBy :
      (remote : PeerRemote K) (t : FetchTimes) (issuer kid : String) (key : K)
      (peers peers' : Dict (Peer K)) (cached : Option K)
      → cached_key issuer kid peers ≡ cached
      → resolve_peer remote t issuer kid peers cached ≡ (ok key, peers')
      → HeldBy issuer kid key peers'
  resolve_peer-HeldBy remote t issuer kid key peers peers' none e h =
      found_or_error-HeldBy issuer kid key _ peers' h
        (on_demand-HeldBy remote t issuer kid key peers)
  resolve_peer-HeldBy remote t issuer kid key peers peers' (some found) e h =
      let same : peers ≡ peers' = cc in
      let same_key : found ≡ key = cc in
      subst (HeldBy issuer kid key) same
        (cached_key-HeldBy issuer kid key peers (e ∙ ap some same_key))

  -- The local resolver gives the key.
  abbrev pub GivenLocally : LocalResolver K → String → String → K → Type ℓ
  GivenLocally local issuer kid key =
      (resolve : String → String → Result String K) × (local ≡ some resolve)
      × (resolve issuer kid ≡ ok key)

  answered : (r : Result String K) (key : K) → answer_of_local r ≡ some key → r ≡ ok key
  answered (ok k) key h = cc
  answered (err e) key h = cc

  ask_local-Given :
      (local : LocalResolver K) (issuer kid : String) (key : K)
      → ask_local local issuer kid ≡ some key
      → GivenLocally local issuer kid key
  ask_local-Given none issuer kid key h = cc
  ask_local-Given (some resolve) issuer kid key h =
      (resolve, refl, answered (resolve issuer kid) key h)

  resolve_federated-HeldBy :
      (local : LocalResolver K) (remote : PeerRemote K) (t : FetchTimes) (issuer kid : String)
      (key : K) (peers peers' : Dict (Peer K)) (asked : Option K)
      → ask_local local issuer kid ≡ asked
      → resolve_federated remote t issuer kid peers asked ≡ (ok key, peers')
      → GivenLocally local issuer kid key ⊎ HeldBy issuer kid key peers'
  resolve_federated-HeldBy local remote t issuer kid key peers peers' (some found) e h =
      let same_key : found ≡ key = cc in
      inl (ask_local-Given local issuer kid key (e ∙ ap some same_key))
  resolve_federated-HeldBy local remote t issuer kid key peers peers' none e h =
      inr (resolve_peer-HeldBy remote t issuer kid key peers peers' _ refl h)

  -- A key that the federated resolver gives out for an issuer was given by the local resolver for
  -- that issuer, or is held under its kid by a peer whose configured endpoint is that issuer: no peer
  -- answers for another.
  pub resolve_key-HeldBy :
      (local : LocalResolver K) (remote : PeerRemote K) (t : FetchTimes) (issuer kid : String)
      (key : K) (peers peers' : Dict (Peer K))
      → resolve_key local remote t issuer kid peers ≡ (ok key, peers')
      → GivenLocally local issuer kid key ⊎ HeldBy issuer kid key peers'
  unfolding resolve_key
  resolve_key-HeldBy local remote t issuer kid key peers peers' h =
      resolve_federated-HeldBy local remote t issuer kid key peers peers' _ refl h
