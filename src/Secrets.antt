-- ===== src/Secrets.antt =====
-- Secret sources and their registry, pkg/secrets/source.go, and EncryptSecretBundle of
-- pkg/secrets/encrypt.go.
use project_starfly_fabrics.Prelude.{
  ℕ, String, ◌==◌, Bool, ◌&&◌, ◌||◌, Option, none, some, List, [], ◌∷◌, ◌++◌, is_nil, if◌then◌else◌,
  ltb, nat_beq, Result, ok, err,
}
use project_starfly_fabrics.Dict.{Dict, lookup, insert}

pub record SecretRef : Type 0 where
  pub source : String
  pub path : String
  pub key : String
  pub alias : String

pub record SecretBundle : Type 0 where
  pub claims : Dict String
  pub ttl : ℕ

pub record SecretSource : Type 0 where
  pub available : Bool
  pub fetch : List SecretRef → Result String SecretBundle

pub data FetchError : Type 0 where
  unknown_source source_unavailable fetch_failed : String → FetchError

-- `grouped[ref.Source] = append(grouped[ref.Source], ref)`
unfoldable pub add_ref : SecretRef → Dict (List SecretRef) → Dict (List SecretRef)
add_ref ref [] = (ref.source, ref ∷ []) ∷ []
add_ref ref ((s, refs) ∷ g) =
    if s == ref.source then (s, refs ++ ref ∷ []) ∷ g else (s, refs) ∷ add_ref ref g

unfoldable pub group_refs : Dict (List SecretRef) → List SecretRef → Dict (List SecretRef)
unfolding add_ref
group_refs g [] = g
group_refs g (ref ∷ refs) = group_refs (add_ref ref g) refs

-- `for k, v := range bundle.Claims { merged.Claims[k] = v }`
unfoldable pub merge_claims : Dict String → Dict String → Dict String
unfolding insert
merge_claims m [] = m
merge_claims m ((k, v) ∷ c) = merge_claims (insert k v m) c

-- The shortest lifetime of the sources that set one.
unfoldable pub merge_ttl : ℕ → ℕ → ℕ
merge_ttl merged ttl = if ltb 0 ttl && (nat_beq merged 0 || ltb ttl merged) then ttl else merged

unfoldable pub merge_bundle : SecretBundle → SecretBundle → SecretBundle
unfolding merge_claims merge_ttl
merge_bundle merged b = record {
  claims = merge_claims merged.claims b.claims;
  ttl = merge_ttl merged.ttl b.ttl;
}

unfoldable pub ask_source :
    String → Option SecretSource → List SecretRef → Result FetchError SecretBundle
ask_source name none refs = err (unknown_source name)
ask_source name (some src) refs =
    if src.available
    then elim (src.fetch refs) [ ok b ↦ ok b | err e ↦ err (fetch_failed e) ]
    else err (source_unavailable name)

unfoldable pub fetch_groups :
    Dict SecretSource → Dict (List SecretRef) → SecretBundle → Result FetchError SecretBundle
unfolding ask_source merge_bundle lookup
fetch_groups sources [] merged = ok merged
fetch_groups sources ((name, refs) ∷ g) merged = elim (ask_source name (lookup name sources) refs) [
  | ok b ↦ fetch_groups sources g (merge_bundle merged b)
  | err e ↦ err e
]

-- The groups are asked in the order of their first reference, one of the orders of a Go map.
unfoldable pub fetch : Dict SecretSource → List SecretRef → Result FetchError SecretBundle
unfolding group_refs fetch_groups
fetch sources refs = fetch_groups sources (group_refs [] refs) (record { claims = []; ttl = 0 })

-- The JWE library, which marshals and encrypts the claims to a key, is the first argument.
unfoldable pub encrypt_secret_bundle {ℓ} :
    {Key : Type ℓ} → (Dict String → Key → Option String) → SecretBundle → Key → Option String
encrypt_secret_bundle jwe bundle key = if is_nil bundle.claims then none else jwe bundle.claims key
