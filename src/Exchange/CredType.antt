-- ===== src/Exchange/CredType.antt =====
-- mapCredType of pkg/exchange/engine.go.
use project_starfly_fabrics.Prelude.{String, Option, [], ◌∷◌}
use project_starfly_fabrics.Dict.{Dict, lookup}

abbrev pub subject_token_type_jwt : String
subject_token_type_jwt = "urn:ietf:params:oauth:token-type:jwt"

-- The cases of the switch; a bare JWT is a Kubernetes service account.
abbrev pub cred_types : Dict String
cred_types =
    (subject_token_type_jwt, "k8s-sa")
    ∷ ("urn:starfly:token-type:spiffe-svid", "spiffe-svid")
    ∷ ("urn:starfly:token-type:oidc", "oidc")
    ∷ ("urn:starfly:token-type:kerberos", "kerberos")
    ∷ ("urn:starfly:token-type:saml", "saml")
    ∷ ("urn:starfly:token-type:aws-sts", "aws-sts")
    ∷ ("urn:starfly:token-type:gcp-wif", "gcp-wif")
    ∷ ("urn:starfly:token-type:azure-mi", "azure-mi")
    ∷ ("urn:starfly:token-type:mtls", "mtls")
    ∷ ("urn:ietf:params:oauth:token-type:access_token", "oauth2")
    ∷ ("urn:ietf:params:oauth:token-type:saml2", "saml")
    ∷ ("urn:starfly:token-type:api-key", "api-key")
    ∷ ("urn:starfly:token-type:agent-mcp", "agent-mcp")
    ∷ ("urn:starfly:token-type:agent-a2a", "agent-a2a")
    ∷ ("urn:starfly:token-type:agent-passport", "agent-passport")
    ∷ []

-- `none` is ErrUnsupportedToken.
unfoldable pub map_cred_type : String → Option String
unfolding lookup
map_cred_type token_type = lookup token_type cred_types
