-- ===== src/Exchange/Engine/Delivery/Sealed.antt =====
-- What a delivery of secrets has been through.
use project_starfly_fabrics.Prelude.{
  String, ◌==◌, eq_iff, ◌≡◌, ◌≢◌, refl, sym, ap, ◌∙◌, ◌↔◌, true, false, Bool-cases, inl, inr,
  Option, none, some, List, [], ◌∷◌, is_nil, if◌then◌else◌, Result, ok, err,
}
use project_starfly_fabrics.Dict.{Dict}
use project_starfly_fabrics.Secrets.{
  SecretBundle, SecretSource, FetchError, fetch, encrypt_secret_bundle,
}
use project_starfly_fabrics.Exchange.Engine.Types.{Engine, PolicyDecision, World, pure}
use project_starfly_fabrics.Exchange.Engine.Delivery.{
  secret_refs, settle, encrypted, encrypt, encrypt_fetched, fetch_for_key, look_up_key,
  deliver_from, deliver_secrets,
}

-- The claim is the encryption of the bundle that the decision's references name, to the key that is
-- registered for the workload.
pub record Sealed (e : Engine) (id : String) (d : PolicyDecision) (claim : String) : Type 0 where
  pub sources : Dict SecretSource
  pub configured : e.secret_source ≡ some sources
  pub key_of : String → Result String String
  pub registry : e.encryption_keys ≡ some key_of
  pub key : String
  pub registered : key_of id ≡ ok key
  pub bundle : SecretBundle
  pub fetched : fetch sources (secret_refs d) ≡ ok bundle
  pub sealed : encrypt_secret_bundle e.jwe bundle key ≡ some claim

not_ok : (result : String) → (result == "ok") ≡ false → result ≢ "ok"
not_ok result other same = cc ((eq_iff result "ok").1 same)

-- A delivery that has ended in neither of the ways of a failure.
module _ (e : Engine) (id : String) (d : PolicyDecision) (claim : String) (w w' : World)
    (unfailed : (result : String)
      → result ≢ "ok"
      → settle e.counts_secret_delivery result "" w ≢ (ok claim, w'))
    (tried : pure "" w ≢ (ok claim, w')) where
  encrypted-ok : (o : Option String) → encrypted e o w ≡ (ok claim, w') → o ≡ some claim
  unfolding encrypted settle
  encrypted-ok none h = absurd (unfailed _ (not_ok "encrypt_error" refl) h)
  encrypted-ok (some c) h = cc h

  module _ (sources : Dict SecretSource) (configured : e.secret_source ≡ some sources) where
    fetched-Sealed :
        (key_of : String → Result String String)
        → e.encryption_keys ≡ some key_of
        → (key : String) → key_of id ≡ ok key
        → (r : Result FetchError SecretBundle) → fetch sources (secret_refs d) ≡ r
        → encrypt_fetched e key r w ≡ (ok claim, w')
        → Sealed e id d claim
    unfolding encrypt_fetched encrypt
    fetched-Sealed key_of registry key registered (err x) f h =
        absurd (unfailed _ (not_ok "source_unavailable" refl) h)
    fetched-Sealed key_of registry key registered (ok bundle) f h = record {
      sources = sources;
      configured = configured;
      key_of = key_of;
      registry = registry;
      key = key;
      registered = registered;
      bundle = bundle;
      fetched = f;
      sealed = encrypted-ok _ h;
    }

    keyed-Sealed :
        (key_of : String → Result String String)
        → e.encryption_keys ≡ some key_of
        → (r : Result String String) → key_of id ≡ r
        → fetch_for_key e sources (secret_refs d) r w ≡ (ok claim, w')
        → Sealed e id d claim
    unfolding fetch_for_key
    keyed-Sealed key_of registry (err msg) k h = absurd (unfailed _ (not_ok "no_key" refl) h)
    keyed-Sealed key_of registry (ok key) k h = fetched-Sealed key_of registry key k _ refl h

    looked_up-Sealed :
        (o : Option (String → Result String String))
        → e.encryption_keys ≡ o
        → look_up_key e sources (secret_refs d) id o w ≡ (ok claim, w')
        → Sealed e id d claim
    unfolding look_up_key
    looked_up-Sealed none registry h = absurd (unfailed _ (not_ok "no_key" refl) h)
    looked_up-Sealed (some key_of) registry h = keyed-Sealed key_of registry (key_of id) refl h

  from-Sealed :
      (o : Option (Dict SecretSource))
      → e.secret_source ≡ o
      → deliver_from e id d o w ≡ (ok claim, w')
      → Sealed e id d claim
  unfolding deliver_from
  from-Sealed none c h = absurd (tried h)
  from-Sealed (some sources) c h = elim (Bool-cases (is_nil (secret_refs d))) [
    | inl nothing ↦ absurd (tried (rw (nothing, if◌then◌else◌) at h))
    | inr asked ↦ looked_up-Sealed sources c e.encryption_keys refl (rw (asked, if◌then◌else◌) at h)
  ]

-- Secrets are delivered only as the encryption of the bundle that the decision names, to the key
-- that is registered for the workload itself.
pub deliver_secrets-Sealed :
    (e : Engine) (id : String) (d : PolicyDecision) (claim : String) (w w' : World)
    → claim ≢ ""
    → deliver_secrets e id d w ≡ (ok claim, w')
    → Sealed e id d claim
unfolding deliver_secrets settle pure
deliver_secrets-Sealed e id d claim w w' set h =
    from-Sealed e id d claim w w' (λ result failed k. set (cc k)) (λ k. set (cc k)) e.secret_source
      refl h

Sealed-delivers :
    (e : Engine) (id : String) (d : PolicyDecision) (claim : String) (w : World)
    → is_nil (secret_refs d) ≡ false
    → Sealed e id d claim
    → deliver_secrets e id d w ≡ settle e.counts_secret_delivery "ok" claim w
unfolding deliver_secrets deliver_from look_up_key fetch_for_key encrypt_fetched encrypt encrypted
Sealed-delivers e id d claim w asked s =
    rw (s.configured, asked, s.registry, s.registered, s.fetched, s.sealed) refl

grown : (result : String) (results : List String) → results ≢ result ∷ results
grown result [] h = cc
grown result (r ∷ rs) h = grown r rs (cc h)

-- Where the callback for deliveries is set and the decision names a secret, three things are the
-- same: the callback is told `ok`; the delivered claim is the encryption of the bundle that the
-- decision names, to the key that is registered for the workload; and there is such an encryption.
-- So no failure is reported as a delivery, and every delivery that can be made is made and reported.
pub delivery_reported :
    (e : Engine) (id : String) (d : PolicyDecision) (claim : String) (w w' : World)
    → e.counts_secret_delivery ≡ true
    → is_nil (secret_refs d) ≡ false
    → deliver_secrets e id d w ≡ (ok claim, w')
    → ((w'.deliveries ≡ "ok" ∷ w.deliveries) ↔ Sealed e id d claim)
      × (((c : String) × Sealed e id d c) ↔ Sealed e id d claim)
unfolding deliver_secrets settle pure
delivery_reported e id d claim w w' counts asked h =
    let sound : w'.deliveries ≡ "ok" ∷ w.deliveries → Sealed e id d claim = λ told.
      from-Sealed e id d claim w w'
        (λ result failed k.
          let kept : result ∷ w.deliveries ≡ w'.deliveries = cc (rw (counts, if◌then◌else◌) at k) in
          failed (cc (kept ∙ told)))
        (λ k.
          let same : w ≡ w' = cc k in
          grown "ok" w.deliveries (ap (λ (v : World). v.deliveries) same ∙ told))
        e.secret_source refl h in
    let told : (c : String) → Sealed e id d c → w'.deliveries ≡ "ok" ∷ w.deliveries = λ c s.
      let run = sym h ∙ Sealed-delivers e id d c w asked s in
      let after : w' ≡ record w { deliveries = "ok" ∷ w.deliveries } =
        cc (rw (counts, if◌then◌else◌) at run) in
      ap (λ (v : World). v.deliveries) after in
    ((sound, told claim), (λ x. sound (told x.0 x.1), λ s. (claim, s)))
