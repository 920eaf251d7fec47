-- ===== src/Exchange/Dpop.antt =====
-- DPoP proofs, pkg/exchange/dpop.go. The JOSE library is a parameter.
pub mod Laws
use project_starfly_fabrics.Prelude.{
  ℕ, ◌-◌, ◌*◌, String, ◌==◌, Bool, true, false, not, Option, none, some, List, [], ◌∷◌, is_empty,
  is_some, if◌then◌else◌, ltb, Result, ok, err, refuse_if, bind,
}
use project_starfly_fabrics.Claims.{Value}
use project_starfly_fabrics.Dict.{Dict, lookup, insert}
use project_starfly_fabrics.Exchange.Nonce.{second}

pub data RawKey : Type 0 where
  public_key private_key : RawKey

-- What the library shows of an embedded key: the exported value, where `none` is a nil interface,
-- its JSON members, and its type.
pub record Jwk : Type 0 where
  pub raw : Result String (Option RawKey)
  pub members : Option (Dict Value)
  pub kty : String

pub record ProofHeader : Type 0 where
  pub typ : Option String
  pub jwk : Option Jwk
  pub alg : Option String

pub record ProofToken : Type 0 where
  pub issued_at : Option ℕ
  pub jwt_id : Option String

-- jws.Parse with the protected headers of its signatures; jwt.Parse under the embedded key; and
-- the base64url SHA-256 of the canonical JSON of a key's members.
pub record JoseLibrary : Type 0 where
  pub parse_jws : String → Result String (List ProofHeader)
  pub parse_signed : String → String → Jwk → Result String ProofToken
  pub digest : Dict Value → String

pub data DpopError : Type 0 where
  parsing no_signatures bad_typ missing_jwk export_failed not_public missing_alg : DpopError
  bad_signature missing_iat too_old missing_jti no_thumbprint : DpopError

abbrev pub dpop_max_age : ℕ
dpop_max_age = 300 * second

-- `v, err := f(); if err != nil { return wrap(err) }`, and `v, ok := f(); if !ok { ... }`
abbrev pub or_error {ℓ κ} : {E : Type κ} {A : Type ℓ} → Result String A → E → Result E A
or_error (ok a) e = ok a
or_error (err s) e = err e

abbrev pub or_missing {ℓ κ} : {E : Type κ} {A : Type ℓ} → Option A → E → Result E A
or_missing (some a) e = ok a
or_missing none e = err e

unfoldable pub first_header : List ProofHeader → Result DpopError ProofHeader
first_header [] = err no_signatures
first_header (h ∷ hs) = ok h

-- `typ, ok := headers.Type(); !ok || typ != "dpop+jwt"`
unfoldable pub wrong_typ : Option String → Bool
wrong_typ none = true
wrong_typ (some t) = not (t == "dpop+jwt")

-- crypto.PublicKey is `any`: the assertion `rawKey.(crypto.PublicKey)` fails on nil alone.
unfoldable pub asserts_public : Option RawKey → Bool
asserts_public raw = is_some raw

unfoldable pub no_jti : Option String → Bool
no_jti none = true
no_jti (some j) = is_empty j

unfoldable pub required_members : String → Option (List String)
required_members kty =
    if kty == "RSA"
    then some ("e" ∷ "kty" ∷ "n" ∷ [])
    else if kty == "EC"
    then some ("crv" ∷ "kty" ∷ "x" ∷ "y" ∷ [])
    else if kty == "OKP"
    then some ("crv" ∷ "kty" ∷ "x" ∷ [])
    else none

abbrev with_member : String → Option Value → Option (Dict Value) → Option (Dict Value)
with_member m none rest = none
with_member m (some v) none = none
with_member m (some v) (some c) = some ((m, v) ∷ c)

unfoldable pub canonical : List String → Dict Value → Option (Dict Value)
canonical [] members = some []
canonical (m ∷ ms) members = with_member m (lookup m members) (canonical ms members)

abbrev chain {ℓ κ} : {A : Type ℓ} {B : Type κ} → Option A → (A → Option B) → Option B
chain none f = none
chain (some a) f = f a

unfoldable pub compute_jwk_thumbprint : JoseLibrary → Jwk → Option String
unfolding canonical required_members lookup
compute_jwk_thumbprint lib key = chain key.members λ members.
    chain (required_members key.kty)
      λ required. chain (canonical required members) λ c. some (lib.digest c)

unfoldable pub check_embedded_key : Jwk → Result DpopError (Unit {0})
unfolding asserts_public
check_embedded_key key =
    bind (or_error key.raw export_failed) λ raw. refuse_if (not (asserts_public raw)) not_public

unfoldable pub check_proof_token : ProofToken → ℕ → Result DpopError (Unit {0})
unfolding no_jti
check_proof_token token now = bind (or_missing token.issued_at missing_iat) λ iat.
    bind (refuse_if (ltb dpop_max_age (now - iat)) too_old)
      λ _. refuse_if (no_jti token.jwt_id) missing_jti

unfoldable pub validate_dpop : JoseLibrary → String → ℕ → Result DpopError String
validate_dpop lib proof now = bind (or_error (lib.parse_jws proof) parsing) λ signatures.
    bind (first_header signatures) λ header. bind (refuse_if (wrong_typ header.typ) bad_typ) λ _.
      bind (or_missing header.jwk missing_jwk) λ key. bind (check_embedded_key key) λ _.
        bind (or_missing header.alg missing_alg) λ alg.
          bind (or_error (lib.parse_signed proof alg key) bad_signature) λ token.
            bind (check_proof_token token now)
              λ _. or_missing (compute_jwk_thumbprint lib key) no_thumbprint
