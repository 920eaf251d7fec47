-- ===== src/Exchange/Tests.antt =====
-- Runs of the exchange's parts on small inputs.
use project_starfly_fabrics.Exchange.Dpop.{
  check_embedded_key, check_proof_token, compute_jwk_thumbprint, first_header, wrong_typ,
}
use project_starfly_fabrics.Exchange.Nonce.{record_nonce, tidy}
use project_starfly_fabrics.Claims.{get_text}
use project_starfly_fabrics.Prelude.{is_empty}
use project_starfly_fabrics.Exchange.Delegation.{check_caps, check_radius, first_not_held}
use project_starfly_fabrics.Prelude.{
  ℕ, String, List, In, nat_beq, if◌then◌else◌, inl, inr, subst, some-injective, ◌+◌, ◌*◌, ◌≤◌, ◌⊎◌,
  arith, ◌≡◌, refl, ◌≢◌, ◌↔◌, false, none, some, [], ◌∷◌, ok, err,
}
use project_starfly_fabrics.Prelude.Int.{pos}
use project_starfly_fabrics.Claims.{text, nil, Claims}
use project_starfly_fabrics.Dict.{lookup, insert}
use project_starfly_fabrics.Exchange.Request.{ExecutionScope, ServerAttestation}
use project_starfly_fabrics.Exchange.Delegation.{
  DelegationContext, validate_delegation, capability_not_held, blast_radius_exceeded,
}
use project_starfly_fabrics.Exchange.Delegation.Radius.{narrower_or_equal}
use project_starfly_fabrics.Exchange.Delegation.Laws.{
  Within, narrower_or_equal-Within, Within-trans, Permitted, validate_delegation-Permitted,
}
use project_starfly_fabrics.Exchange.Nonce.{
  nonce_replay, second, new_nonce_tracker, count_op, cleanup_due, check, run,
}
use project_starfly_fabrics.Exchange.Nonce.Replay.{replay_refused, check_refuses_iff}
use project_starfly_fabrics.Exchange.Scope.{verify_execution_scope, validate_execution_scope}
use project_starfly_fabrics.Exchange.Scope.Laws.{
  IsBound, verify_execution_scope-IsBound, validate_execution_scope-set,
}
use project_starfly_fabrics.Exchange.Attestation.{validate_attestation}
use project_starfly_fabrics.Exchange.Attestation.Laws.{IsFresh, validate_attestation-IsFresh}
use project_starfly_fabrics.Exchange.CredType.{map_cred_type}
use project_starfly_fabrics.Exchange.Dpop.{Jwk, JoseLibrary, private_key, validate_dpop}
use project_starfly_fabrics.Exchange.Dpop.Laws.{Proven, validate_dpop-Proven}
use project_starfly_fabrics.Exchange.Keyring.{
  Keyring, active_key_of, add_key, activate_key, new_keyring, KeySets, public_key_set,
}
use project_starfly_fabrics.Exchange.Keyring.Laws.{
  added, activated, made, stepped, unchanged, adding, activating, Reachable-signs,
}
use project_starfly_fabrics.Exchange.Keyring.Published.{spared_key_published}

abbrev parent : DelegationContext
parent = record {
  parent_subject = "wimse://a/orchestrator";
  depth = pos 2;
  caps = "read" ∷ "write" ∷ [];
  blast_radius = "namespace:team";
  obo_chain = nil;
}

not_held : validate_delegation parent ("read" ∷ "admin" ∷ []) "" ≡ err (capability_not_held "admin")
unfolding validate_delegation check_caps first_not_held
not_held = refl

too_broad : validate_delegation parent ("read" ∷ []) "cluster" ≡ err blast_radius_exceeded
unfolding validate_delegation check_caps first_not_held check_radius is_empty narrower_or_equal
too_broad = refl

validate_delegation-Permitted_example :
    (validate_delegation parent ("read" ∷ []) "service" ≡ ok tt)
    ↔ Permitted parent ("read" ∷ []) "service"
validate_delegation-Permitted_example = validate_delegation-Permitted parent ("read" ∷ []) "service"

service_in_namespace : Within "service:db" "namespace:team"
unfolding narrower_or_equal
service_in_namespace = (narrower_or_equal-Within "service:db" "namespace:team").0 refl

namespace_in_cluster : Within "namespace:team" "cluster"
unfolding narrower_or_equal
namespace_in_cluster = (narrower_or_equal-Within "namespace:team" "cluster").0 refl

service_in_cluster : Within "service:db" "cluster"
service_in_cluster = Within-trans service_in_namespace namespace_in_cluster

abbrev t0 : ℕ
t0 = 1_000 * second

accepted : (check t0 "n1" new_nonce_tracker).0 ≡ ok tt
unfolding check record_nonce lookup tidy cleanup_due count_op new_nonce_tracker
accepted = refl

replay_refused_example :
    (check
      (t0 + 40 * second)
      "n1"
      (run ((t0 + second, "n2") ∷ []) (check t0 "n1" new_nonce_tracker).1)).0
    ≡ err nonce_replay
unfolding new_nonce_tracker
replay_refused_example =
    replay_refused new_nonce_tracker t0 (t0 + 40 * second) "n1" ((t0 + second, "n2") ∷ []) accepted
      (omega arith, tt) (omega arith)

check_refuses_iff_example : ((check t0 "n1" new_nonce_tracker).0 ≡ err nonce_replay) ↔ (
    (t : ℕ) × (lookup "n1" new_nonce_tracker.seen ≡ some t)
    × ((cleanup_due (count_op new_nonce_tracker) ≡ false) ⊎ (t0 ≤ t + new_nonce_tracker.max_age)))
check_refuses_iff_example = check_refuses_iff new_nonce_tracker t0 "n1"

abbrev call : ExecutionScope
call = record {
  method = "POST";
  uri = "https://tools/search";
  exec_act = "search";
  input_hash = "h1";
  output_hash = "";
  target = "tools";
  workflow_id = "w1";
  payload_hash = "";
  nonce = "n1";
}

abbrev call_claims : Claims
call_claims =
    ("htm", text "POST") ∷ ("htu", text "https://tools/search") ∷ ("payload_hash", text "h1") ∷ []

call_verifies : verify_execution_scope call_claims call ≡ ok tt
unfolding verify_execution_scope get_text is_empty
call_verifies = refl

token_covers : (verify_execution_scope call_claims call ≡ ok tt) ↔ IsBound call_claims call
token_covers = verify_execution_scope-IsBound call_claims call

call_is_complete :
    (validate_execution_scope call ≡ ok tt)
    ↔ ((call.method ≢ "") × (call.uri ≢ "") × (call.nonce ≢ ""))
call_is_complete = validate_execution_scope-set call

abbrev attested : ServerAttestation
attested = record {
  platform = record { source = "aws"; cred_type = "iid"; metadata = none };
  hardware = [];
  workload = none;
  agent_version = "1.0";
  timestamp = t0;
}

attestation_accepted :
    (validate_attestation attested 0 (t0 + second) (t0 + second) ≡ ok tt)
    ↔ IsFresh attested 0 (t0 + second) (t0 + second)
attestation_accepted = validate_attestation-IsFresh attested 0 (t0 + second) (t0 + second)

spiffe : map_cred_type "urn:starfly:token-type:spiffe-svid" ≡ some "spiffe-svid"
unfolding map_cred_type
spiffe = refl

-- A library that reads every proof as signed by one embedded private key.
abbrev private_jwk : Jwk
private_jwk = record {
  raw = ok (some private_key);
  members = some (
      ("kty", text "OKP")
      ∷ ("crv", text "Ed25519")
      ∷ ("x", text "pub")
      ∷ ("d", text "secret")
      ∷ []);
  kty = "OKP";
}

abbrev jose : JoseLibrary
jose = record {
  parse_jws = λ proof.
      ok (record { typ = some "dpop+jwt"; jwk = some private_jwk; alg = some "EdDSA" } ∷ []);
  parse_signed = λ proof alg key. ok (record { issued_at = some t0; jwt_id = some "j1" });
  digest = λ members. "thumb";
}

private_key_accepted : validate_dpop jose "proof" t0 ≡ ok "thumb"
unfolding validate_dpop first_header wrong_typ check_embedded_key check_proof_token is_empty
    compute_jwk_thumbprint
private_key_accepted = refl

validate_dpop-Proven_example :
    (validate_dpop jose "proof" t0 ≡ ok "thumb") ↔ Proven jose "proof" t0 "thumb"
validate_dpop-Proven_example = validate_dpop-Proven jose "proof" t0 "thumb"

abbrev first_ring : Keyring ℕ
first_ring = record { active_kid = "k1"; keys = ("k1", 1) ∷ [] }

abbrev rotated : Keyring ℕ
rotated = record { active_kid = "k2"; keys = ("k1", 1) ∷ ("k2", 2) ∷ [] }

first_made : new_keyring (some "k1") 1 ≡ ok first_ring
unfolding new_keyring is_empty
first_made = refl

abbrev both_keys : Keyring ℕ
both_keys = record { active_kid = "k1"; keys = ("k1", 1) ∷ ("k2", 2) ∷ [] }

second_added : add_key "k2" (some 2) first_ring ≡ ok both_keys
unfolding add_key insert
second_added = refl

second_active : activate_key "k2" both_keys ≡ ok rotated
unfolding activate_key lookup
second_active = refl

Reachable-signs_example : (k : ℕ) × (active_key_of rotated ≡ some k)
Reachable-signs_example = Reachable-signs (
    stepped (stepped (made (some "k1") 1 first_made) (added "k2" (some 2) second_added))
      (activated "k2" second_active))

abbrev key_sets : KeySets ℕ String (List String)
key_sets = record {
  public_key = λ key. some (if nat_beq key 1 then "public 1" else "public 2");
  new_set = [];
  add_to_set = λ p set. some (p ∷ set);
}

both_published : public_key_set key_sets rotated ≡ ok ("public 2" ∷ "public 1" ∷ [])
unfolding public_key_set
both_published = refl

spared_key_published_example : In "public 1" ("public 2" ∷ "public 1" ∷ [])
unfolding lookup
spared_key_published_example =
    spared_key_published key_sets In (λ p set set' e. subst (In p) (some-injective e) (inl refl))
      (λ p q set set' e m. subst (In q) (some-injective e) (inr m)) "k1" 1 "public 1"
      ("public 2" ∷ "public 1" ∷ []) refl refl
      (activating (adding unchanged "k2" (some 2) refl second_added) "k2" second_active)
      both_published
