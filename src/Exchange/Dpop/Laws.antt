-- ===== src/Exchange/Dpop/Laws.antt =====
-- Which DPoP proofs are accepted.
use project_starfly_fabrics.Prelude.{
  ℕ, ◌+◌, ◌-◌, ◌≤◌, String, eq_iff, ◌≡◌, refl, ◌≢◌, ◌↔◌, false, not, Option, none, some, List, [],
  ◌∷◌, arith, ltb, Result, ok, err, refuse_if, refuse_if-ok, bind, bind-elim, bind-of,
  is_empty-false, ne-is_empty, ap, ◌∙◌,
}
use project_starfly_fabrics.Exchange.Dpop.{
  export_failed, not_public, missing_iat, too_old, parsing, bad_typ, missing_jwk, missing_alg,
  bad_signature, RawKey, Jwk, ProofHeader, ProofToken, JoseLibrary, dpop_max_age, or_error,
  or_missing, first_header, wrong_typ, asserts_public, no_jti, compute_jwk_thumbprint,
  check_embedded_key, check_proof_token, validate_dpop,
}

-- A proof whose first signature has the DPoP type, embeds a key of any kind under which it is
-- signed, is recent, has an identifier, and whose key has the thumbprint.
pub record Proven (lib : JoseLibrary) (proof : String) (now : ℕ) (jkt : String) : Type 0 where
  pub header : ProofHeader
  pub others : List ProofHeader
  pub parsed : lib.parse_jws proof ≡ ok (header ∷ others)
  pub typed : header.typ ≡ some "dpop+jwt"
  pub key : Jwk
  pub embedded : header.jwk ≡ some key
  pub kind : RawKey
  pub exported : key.raw ≡ ok (some kind)
  pub alg : String
  pub algorithm : header.alg ≡ some alg
  pub token : ProofToken
  pub signed : lib.parse_signed proof alg key ≡ ok token
  pub iat : ℕ
  pub issued : token.issued_at ≡ some iat
  pub recent : now ≤ iat + dpop_max_age
  pub jti : String
  pub identified : token.jwt_id ≡ some jti
  pub named : jti ≢ ""
  pub thumbprint : compute_jwk_thumbprint lib key ≡ some jkt

or_error-ok {ℓ κ} :
    {E : Type κ} {A : Type ℓ} (r : Result String A) (e : E) (a : A) → or_error r e ≡ ok a → r ≡ ok a
or_error-ok (ok x) e a h = cc
or_error-ok (err s) e a h = cc

or_missing-ok {ℓ κ} :
    {E : Type κ} {A : Type ℓ} (o : Option A) (e : E) (a : A) → or_missing o e ≡ ok a → o ≡ some a
or_missing-ok (some x) e a h = cc
or_missing-ok none e a h = cc

first_header-ok :
    (hs : List ProofHeader) (h : ProofHeader)
    → first_header hs ≡ ok h
    → (others : List ProofHeader) × (hs ≡ h ∷ others)
unfolding first_header
first_header-ok [] h e = cc
first_header-ok (x ∷ xs) h e = (xs, cc)

wrong_typ-false : (o : Option String) → wrong_typ o ≡ false → o ≡ some "dpop+jwt"
unfolding wrong_typ
wrong_typ-false none h = cc
wrong_typ-false (some t) h = ground (arith, eq_iff t "dpop+jwt")

raw-ok :
    (raw : Result String (Option RawKey))
    → bind (or_error raw export_failed) (λ r. refuse_if (not (asserts_public r)) not_public) ≡ ok tt
    → (kind : RawKey) × (raw ≡ ok (some kind))
unfolding asserts_public
raw-ok (ok (some kind)) h = (kind, refl)
raw-ok (ok none) h = cc
raw-ok (err msg) h = cc

embedded-ok :
    (key : Jwk) → check_embedded_key key ≡ ok tt → (kind : RawKey) × (key.raw ≡ ok (some kind))
unfolding check_embedded_key
embedded-ok key h = raw-ok key.raw h

ok-embedded :
    (key : Jwk) (kind : RawKey) → key.raw ≡ ok (some kind) → check_embedded_key key ≡ ok tt
unfolding check_embedded_key asserts_public
ok-embedded key kind h = rw h

jti-ok : (o : Option String) → no_jti o ≡ false → (jti : String) × (o ≡ some jti) × (jti ≢ "")
unfolding no_jti
jti-ok none h = cc
jti-ok (some jti) h = (jti, refl, is_empty-false jti h)

token-ok :
    (token : ProofToken) (now : ℕ)
    → check_proof_token token now ≡ ok tt
    → (iat : ℕ) × (jti : String) × (token.issued_at ≡ some iat)
      × (now ≤ iat + dpop_max_age)
      × (token.jwt_id ≡ some jti)
      × (jti ≢ "")
unfolding check_proof_token
token-ok token now h = bind-elim (or_missing token.issued_at missing_iat) _ h λ iat i h1.
    bind-elim (refuse_if (ltb dpop_max_age (now - iat)) too_old) _ h1 λ u r h2.
      let (jti, identified, named) = jti-ok token.jwt_id (refuse_if-ok _ _ h2) in
      (iat, jti, or_missing-ok _ _ _ i, ground (arith, refuse_if-ok _ _ r), identified, named)

not_late : (now iat : ℕ) → now ≤ iat + dpop_max_age → ltb dpop_max_age (now - iat) ≡ false
not_late now iat h = ground arith

ok-token :
    (token : ProofToken) (now iat : ℕ) (jti : String)
    → token.issued_at ≡ some iat
    → now ≤ iat + dpop_max_age
    → token.jwt_id ≡ some jti
    → jti ≢ ""
    → check_proof_token token now ≡ ok tt
unfolding check_proof_token no_jti
ok-token token now iat jti i r d n =
    bind-of _ (ap (λ o. or_missing o missing_iat) i)
      (rw (not_late now iat r) (rw (d, no_jti) (rw (ne-is_empty jti n))))

validate_of_Proven :
    (lib : JoseLibrary) (proof : String) (now : ℕ) (jkt : String)
    → Proven lib proof now jkt
    → validate_dpop lib proof now ≡ ok jkt
unfolding validate_dpop first_header wrong_typ
validate_of_Proven lib proof now jkt p = simp (
  p.parsed,
  p.typed,
  p.embedded,
  ok-embedded p.key p.kind p.exported,
  p.algorithm,
  p.signed,
  ok-token p.token now p.iat p.jti p.issued p.recent p.identified p.named,
  p.thumbprint,
)

-- A DPoP proof is accepted with a thumbprint exactly when it is proven; the kind of the embedded
-- key does not matter, so a proof that embeds a private key is accepted as well.
pub validate_dpop-Proven :
    (lib : JoseLibrary) (proof : String) (now : ℕ) (jkt : String)
    → (validate_dpop lib proof now ≡ ok jkt) ↔ Proven lib proof now jkt
unfolding validate_dpop first_header wrong_typ
validate_dpop-Proven lib proof now jkt = (sound, validate_of_Proven lib proof now jkt)
  where
    sound : validate_dpop lib proof now ≡ ok jkt → Proven lib proof now jkt
    sound h = bind-elim (or_error (lib.parse_jws proof) parsing) _ h λ hs p h1.
        bind-elim (first_header hs) _ h1 λ header f h2.
          bind-elim (refuse_if (wrong_typ header.typ) bad_typ) _ h2 λ u t h3.
            bind-elim (or_missing header.jwk missing_jwk) _ h3 λ key k h4.
              bind-elim (check_embedded_key key) _ h4 λ u2 x h5.
                bind-elim (or_missing header.alg missing_alg) _ h5 λ alg a h6.
                  bind-elim (or_error (lib.parse_signed proof alg key) bad_signature) _ h6
                    λ token s h7. bind-elim (check_proof_token token now) _ h7 λ u3 c h8.
                      let (others, split) = first_header-ok hs header f in
                      let (kind, exported) = embedded-ok key x in
                      let (iat, jti, issued, recent, identified, named) = token-ok token now c in
                      record {
                        header = header;
                        others = others;
                        parsed = or_error-ok _ _ _ p ∙ ap ok split;
                        typed = wrong_typ-false header.typ (refuse_if-ok _ _ t);
                        key = key;
                        embedded = or_missing-ok _ _ _ k;
                        kind = kind;
                        exported = exported;
                        alg = alg;
                        algorithm = or_missing-ok _ _ _ a;
                        token = token;
                        signed = or_error-ok _ _ _ s;
                        iat = iat;
                        issued = issued;
                        recent = recent;
                        jti = jti;
                        identified = identified;
                        named = named;
                        thumbprint = or_missing-ok _ _ _ h8;
                      }
