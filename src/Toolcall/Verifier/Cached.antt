-- ===== src/Toolcall/Verifier/Cached.antt =====
-- The verifier with the JWKS cache of pkg/jwks/cache.go as its key resolver.
use project_starfly_fabrics.Prelude.{ℕ, String, ◌≡◌, ◌≢◌, false, Result, ok, err}
use project_starfly_fabrics.Jwks.Cache.{
  Config, ResolveError, ResolveTimes, Remote, Cache, resolve_key,
}
use project_starfly_fabrics.Jwks.Cache.Steps.{Reached}
use project_starfly_fabrics.Jwks.Cache.Kidless.{empty_kid_unanswered}
use project_starfly_fabrics.Toolcall.Types.{ToolCallRequest, VerifiedIdentity}
use project_starfly_fabrics.Toolcall.Verifier.Phases.{decoded, verified}
use project_starfly_fabrics.Toolcall.Verifier.Authorized.{verify-Authorized}
use project_starfly_fabrics.Toolcall.Verifier.{PublicKey, VerifierConfig, verify}

-- The error of a resolution as a text.
abbrev rendered : (ResolveError → String) → Result ResolveError PublicKey → Result String PublicKey
rendered render (ok key) = ok key
rendered render (err e) = err (render e)

abbrev pub with_cache :
    Config
    → Remote PublicKey
    → ResolveTimes
    → (ResolveError → String)
    → Cache PublicKey
    → VerifierConfig
    → VerifierConfig
with_cache jwks remote t render c cfg = record cfg {
  resolve_key = λ issuer kid. rendered render (resolve_key jwks remote t issuer kid c).0;
}

rendered-ok :
    (render : ResolveError → String) (r : Result ResolveError PublicKey) (key : PublicKey)
    → rendered render r ≡ ok key
    → r ≡ ok key
rendered-ok render (ok k) key h = cc
rendered-ok render (err e) key h = cc

-- Outside development mode a verifier that resolves keys through the cache accepts no tool call:
-- it resolves with an empty kid, which the cache never answers.
pub cached_verify_refuses :
    (jwks : Config) (remote : Remote PublicKey) (t : ResolveTimes) (render : ResolveError → String)
    (c : Cache PublicKey) (cfg : VerifierConfig) (now : ℕ) (req : ToolCallRequest)
    (identity : VerifiedIdentity)
    → Reached jwks c
    → cfg.dev_mode ≡ false
    → verify (with_cache jwks remote t render c cfg) now req ≢ ok identity
cached_verify_refuses jwks remote t render c cfg now req identity r production h =
    elim (verify-Authorized (with_cache jwks remote t render c cfg) now req identity h).presented [
      | decoded dev _ _ ↦ cc
      | verified insecure key _ _ _ resolved _ ↦
          empty_kid_unanswered jwks c remote t _ key r (rendered-ok render _ key resolved)
    ]
