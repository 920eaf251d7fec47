-- ===== src/Exchange/Engine/Delivery/Tests.antt =====
-- Deliveries from one source to one registered key.
use Prim.Native.String.{◌++◌}
use project_starfly_fabrics.Secrets.{encrypt_secret_bundle, fetch}
use project_starfly_fabrics.Prelude.{is_empty}
use project_starfly_fabrics.Prelude.{
  String, ◌==◌, ◌≡◌, ◌≢◌, ◌↔◌, refl, is_empty-false, true, false, if◌then◌else◌, none, some, List,
  [], ◌∷◌, is_nil, ok, err,
}
use project_starfly_fabrics.Claims.{text, object, array, nil, cons, field, end}
use project_starfly_fabrics.Secrets.{SecretSource}
use project_starfly_fabrics.Exchange.Engine.Types.{Engine, PolicyDecision, World}
use project_starfly_fabrics.Exchange.Engine.Delivery.{deliver_secrets, secret_refs}
use project_starfly_fabrics.Exchange.Engine.Delivery.Sealed.{
  Sealed, deliver_secrets-Sealed, delivery_reported,
}

abbrev one_reference : PolicyDecision
one_reference = record {
  allowed = true;
  reason = "";
  claims =
      (
        "secret_refs",
        array (
            cons
              (object (
                field "source" (text "vault")
                  (field "path" (text "db") (field "key" (text "pw") end))))
              (cons (text "no object") nil)),
      )
      ∷ [];
}

abbrev vault : SecretSource
vault = record {
  available = true;
  fetch = λ refs. ok (record { claims = ("pw", "hunter2") ∷ []; ttl = 60 });
}

abbrev delivering : Engine
delivering = record {
  validate_workload = λ token cred_type. err "unused";
  evaluate = λ input. err "unused";
  parse_actor = λ token. err "unused";
  jose = record {
    parse_jws = λ proof. err "unused";
    parse_signed = λ proof alg key. err "unused";
    digest = λ members. "";
  };
  sign = λ token. err "unused";
  issuer = "starfly";
  ttl = 300;
  execution_ttl = 30;
  dev_mode = false;
  revocation = none;
  counts_revocation_errors = false;
  secret_source = some (("vault", vault) ∷ []);
  encryption_keys = some (λ id. if id == "agent" then ok "agent key" else err "not found");
  jwe = λ claims key. some ("sealed to " ++ key);
  counts_secret_delivery = true;
  sync_bus = none;
  notifies = false;
}

abbrev before : World
before = record {
  nonces = record { seen = []; max_age = 60; ops = 0 };
  audit = [];
  flashed = [];
  revocation_errors = 0;
  deliveries = [];
  notices = [];
}

delivered :
    deliver_secrets delivering "agent" one_reference before
    ≡ (ok "sealed to agent key", record before { deliveries = "ok" ∷ [] })
unfolding deliver_secrets is_empty fetch encrypt_secret_bundle
delivered = refl

claim_named : ◌≢◌ {A = String} "sealed to agent key" ""
unfolding is_empty
claim_named = is_empty-false "sealed to agent key" refl

deliver_secrets-Sealed_example : Sealed delivering "agent" one_reference "sealed to agent key"
deliver_secrets-Sealed_example =
    deliver_secrets-Sealed delivering "agent" one_reference "sealed to agent key" before
      (record before { deliveries = "ok" ∷ [] }) claim_named delivered

asked_for : is_nil (secret_refs one_reference) ≡ false
unfolding is_empty secret_refs
asked_for = refl

abbrev told : List String
told = "ok" ∷ []

delivery_reported_example :
    ((told ≡ "ok" ∷ []) ↔ Sealed delivering "agent" one_reference "sealed to agent key")
    × (((c : String) × Sealed delivering "agent" one_reference c)
        ↔ Sealed delivering "agent" one_reference "sealed to agent key")
delivery_reported_example =
    delivery_reported delivering "agent" one_reference "sealed to agent key" before
      (record before { deliveries = "ok" ∷ [] }) refl asked_for delivered
