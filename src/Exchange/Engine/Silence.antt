-- ===== src/Exchange/Engine/Silence.antt =====
-- The effects of each check of an exchange on the world.
use project_starfly_fabrics.Signals.Revocation.{RevocationEntry}
use project_starfly_fabrics.Prelude.{
  ℕ, String, ◌==◌, refl, ltb, Bool, true, false, Option, none, some, List, is_empty, is_nil,
  if◌then◌else◌, Result, ok, err,
}
use project_starfly_fabrics.Dict.{Dict}
use project_starfly_fabrics.Exchange.Request.{
  ExecutionScope, ServerAttestation, TokenExchangeRequest,
}
use project_starfly_fabrics.Exchange.Delegation.{ActorToken, DelegationContext, DelegationError}
use project_starfly_fabrics.Exchange.Attestation.{AttestationError}
use project_starfly_fabrics.Exchange.Engine.Types.{
  ExchangeError, PolicyDecision, Engine, Exec, invalid_grant_type, invalid_subject, pure, raise,
}
use project_starfly_fabrics.Exchange.Engine.Gates.{
  Readings, revocation_verdict, ask_revocation, count_revocation_error, attestation_verdict,
  policy_verdict, delegation_verdict, delegation_of_context, delegation_of_actor, map_exec,
  use_nonce, deny, or_unsupported, grant_type_token_exchange, count_prefix, check_grant,
  credential_type, check_subject, check_revocation, check_attestation, check_policy,
  check_delegation, check_dpop, check_execution,
}
use project_starfly_fabrics.Exchange.Engine.Delivery.{
  secret_refs, settle, encrypted, encrypt, encrypt_fetched, fetch_for_key, look_up_key,
  deliver_from, deliver_secrets,
}
use project_starfly_fabrics.Secrets.{SecretRef, SecretBundle, SecretSource, FetchError}
use project_starfly_fabrics.Exchange.Engine.Run.{admit}
use project_starfly_fabrics.Exchange.Engine.Quiet.{
  SameOutside-refl, Quiet, Quiet-pure, Quiet-raise, Quiet-lift, Quiet-log, Quiet-bind, Quiet-then,
  Quiet-if,
}

Quiet-count : (b : Bool) → Quiet (count_revocation_error b)
unfolding count_revocation_error
Quiet-count true = record { at = λ w. record { flashed = refl; notices = refl; issued = refl } }
Quiet-count false = record { at = λ w. SameOutside-refl w }

Quiet-deny :
    {A : Type 0} (id audience : String) (x : ExchangeError) → Quiet (deny {A = A} id audience x)
unfolding deny
Quiet-deny id audience x = Quiet-then _ _ (Quiet-log _ refl) (Quiet-raise x)

Quiet-map : {A B : Type 0} (f : A → B) (m : Exec A) → Quiet m → Quiet (map_exec f m)
unfolding map_exec
Quiet-map f m q = Quiet-bind m _ q (λ a. Quiet-pure (f a))

Quiet-revocation :
    (e : Engine) (id audience : String) (r : Result String (Option RevocationEntry))
    → Quiet (revocation_verdict e id audience r)
unfolding revocation_verdict
Quiet-revocation e id audience (err msg) = Quiet-then _ _ (Quiet-log _ refl) (Quiet-count _)
Quiet-revocation e id audience (ok none) = Quiet-pure tt
Quiet-revocation e id audience (ok (some r)) = Quiet-then _ _ (Quiet-log _ refl) (Quiet-raise _)

Quiet-ask :
    (e : Engine) (id audience : String)
    (o : Option (String → Result String (Option RevocationEntry)))
    → Quiet (ask_revocation e id audience o)
unfolding ask_revocation
Quiet-ask e id audience none = Quiet-pure tt
Quiet-ask e id audience (some f) = Quiet-revocation e id audience (f id)

Quiet-attested :
    (e : Engine) (id audience : String) (a : ServerAttestation)
    (r : Result AttestationError (Unit {0}))
    → Quiet (attestation_verdict e id audience a r)
unfolding attestation_verdict
Quiet-attested e id audience a (ok x) = Quiet-log _ refl
Quiet-attested e id audience a (err x) = Quiet-then _ _ (Quiet-log _ refl) (Quiet-raise _)

Quiet-attestation :
    (e : Engine) (id audience : String) (o : Option ServerAttestation) (t : Readings)
    → Quiet (check_attestation e id audience o t)
unfolding check_attestation
Quiet-attestation e id audience none t = Quiet-pure tt
Quiet-attestation e id audience (some a) t = Quiet-attested e id audience a _

Quiet-policy :
    (id audience : String) (r : Result String PolicyDecision) → Quiet (policy_verdict id audience r)
unfolding policy_verdict
Quiet-policy id audience (ok d) =
    Quiet-if d.allowed _ _ (Quiet-pure d) (Quiet-then _ _ (Quiet-log _ refl) (Quiet-raise _))
Quiet-policy id audience (err msg) = Quiet-raise _

Quiet-verdict :
    (id audience : String) (dc : DelegationContext) (r : Result DelegationError (Unit {0}))
    → Quiet (delegation_verdict id audience dc r)
unfolding delegation_verdict
Quiet-verdict id audience dc (ok x) = Quiet-pure dc
Quiet-verdict id audience dc (err x) = Quiet-deny id audience _

Quiet-context :
    (id audience : String) (d : PolicyDecision) (r : Result DelegationError DelegationContext)
    → Quiet (delegation_of_context id audience d r)
unfolding delegation_of_context
Quiet-context id audience d (ok dc) = Quiet-verdict id audience dc _
Quiet-context id audience d (err x) = Quiet-raise _

Quiet-actor :
    (id audience : String) (d : PolicyDecision) (r : Result String ActorToken)
    → Quiet (delegation_of_actor id audience d r)
unfolding delegation_of_actor
Quiet-actor id audience d (err msg) = Quiet-deny id audience _
Quiet-actor id audience d (ok actor) = Quiet-context id audience d _

Quiet-nonce : (now : ℕ) (nonce : String) → Quiet (use_nonce now nonce)
unfolding use_nonce
Quiet-nonce now nonce = record {
  at = λ w. record { flashed = refl; notices = refl; issued = refl };
}

Quiet-execution : (o : Option ExecutionScope) (t : Readings) → Quiet (check_execution o t)
unfolding check_execution
Quiet-execution none t = Quiet-pure tt
Quiet-execution (some s) t = Quiet-then _ _ (Quiet-lift _ _) (Quiet-nonce _ _)

Quiet-settle : (b : Bool) (result claim : String) → Quiet (settle b result claim)
unfolding settle
Quiet-settle true result claim = record {
  at = λ w. record { flashed = refl; notices = refl; issued = refl };
}
Quiet-settle false result claim = record { at = λ w. SameOutside-refl w }

module _ (e : Engine) where
  Quiet-encrypt : (o : Option String) → Quiet (encrypted e o)
  unfolding encrypted
  Quiet-encrypt none = Quiet-settle _ _ _
  Quiet-encrypt (some c) = Quiet-settle _ _ _

  Quiet-fetched :
      (key : String) (r : Result FetchError SecretBundle) → Quiet (encrypt_fetched e key r)
  unfolding encrypt_fetched encrypt
  Quiet-fetched key (ok b) = Quiet-encrypt _
  Quiet-fetched key (err x) = Quiet-settle _ _ _

  Quiet-fetch :
      (sources : Dict SecretSource) (refs : List SecretRef) (r : Result String String)
      → Quiet (fetch_for_key e sources refs r)
  unfolding fetch_for_key
  Quiet-fetch sources refs (ok key) = Quiet-fetched key _
  Quiet-fetch sources refs (err x) = Quiet-settle _ _ _

  Quiet-key :
      (sources : Dict SecretSource) (refs : List SecretRef) (id : String)
      (o : Option (String → Result String String))
      → Quiet (look_up_key e sources refs id o)
  unfolding look_up_key
  Quiet-key sources refs id none = Quiet-settle _ _ _
  Quiet-key sources refs id (some get) = Quiet-fetch sources refs _

  Quiet-from :
      (id : String) (d : PolicyDecision) (o : Option (Dict SecretSource))
      → Quiet (deliver_from e id d o)
  unfolding deliver_from
  Quiet-from id d none = Quiet-pure _
  Quiet-from id d (some sources) =
      Quiet-if (is_nil (secret_refs d)) (pure "")
        (look_up_key e sources (secret_refs d) id e.encryption_keys) (Quiet-pure "")
        (Quiet-key sources (secret_refs d) id e.encryption_keys)

  Quiet-deliver : (id : String) (d : PolicyDecision) → Quiet (deliver_secrets e id d)
  unfolding deliver_secrets
  Quiet-deliver id d = Quiet-from id d e.secret_source

Quiet-unsupported : (o : Option String) → Quiet (or_unsupported o)
Quiet-unsupported none = Quiet-raise _
Quiet-unsupported (some c) = Quiet-pure c

Quiet-grant : (grant : String) → Quiet (check_grant grant)
unfolding check_grant
Quiet-grant grant =
    Quiet-if (grant == grant_type_token_exchange) (pure tt) (raise invalid_grant_type)
      (Quiet-pure tt) (Quiet-raise _)

Quiet-subject : (id : String) → Quiet (check_subject id)
unfolding check_subject
Quiet-subject id =
    Quiet-if (ltb 1 (count_prefix id)) (raise invalid_subject) (pure tt) (Quiet-raise _)
      (Quiet-pure tt)

Quiet-optional :
    {A : Type 0} (b : Bool) (m : Exec A)
    → Quiet m
    → Quiet (if b then pure none else map_exec some m)
Quiet-optional b m q =
    Quiet-if b (pure none) (map_exec some m) (Quiet-pure none) (Quiet-map some m q)

module _ (e : Engine) where
  Quiet-delegated :
      (id audience : String) (d : PolicyDecision) (token : String)
      → Quiet (check_delegation e id audience d token)
  unfolding check_delegation
  Quiet-delegated id audience d token =
      Quiet-optional (is_empty token) _ (Quiet-actor id audience d (e.parse_actor token))

  Quiet-dpop : (proof : String) (t : Readings) → Quiet (check_dpop e proof t)
  unfolding check_dpop
  Quiet-dpop proof t = Quiet-optional (is_empty proof) _ (Quiet-lift _ _)

pub Quiet-admit : (e : Engine) (req : TokenExchangeRequest) (t : Readings) → Quiet (admit e req t)
unfolding admit credential_type check_revocation check_policy
Quiet-admit e req t = Quiet-then _ _ (Quiet-grant req.grant_type) (
    Quiet-bind _ _ (Quiet-unsupported _) λ cred. Quiet-bind _ _ (Quiet-lift _ _) λ wl.
      Quiet-then _ _ (Quiet-subject wl.id) (
        Quiet-then _ _ (Quiet-ask e _ _ e.revocation) (
          Quiet-then _ _ (Quiet-attestation e _ _ req.attestation t) (
            Quiet-bind _ _ (Quiet-policy _ _ _) λ d.
              Quiet-bind _ _ (Quiet-delegated e _ _ d _) λ dc.
                Quiet-bind _ _ (Quiet-dpop e _ t) λ jkt.
                  Quiet-then _ _ (Quiet-execution req.execution_scope t)
                    (Quiet-bind _ _ (Quiet-deliver e _ d) λ s. Quiet-pure _)))))
