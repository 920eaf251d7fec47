-- ===== src/Lifecycle/Rotation/Swapped.antt =====
-- What a rotation that reports success has done.
use project_starfly_fabrics.Prelude.{
  ℕ, String, ◌==◌, eq_iff, ◌≡◌, refl, sym, ap, ◌∙◌, subst, inl, inr, Bool, true, false, Option,
  none, some, Bool-cases, if◌then◌else◌, Result, ok, err,
}
use project_starfly_fabrics.Dict.{lookup, insert, lookup-insert}
use project_starfly_fabrics.Exchange.Keyring.{active_key_of, add_key}
use project_starfly_fabrics.Lifecycle.Temporal.{execute, execute-ResultOf}
use project_starfly_fabrics.Lifecycle.Rotation.{
  RotationParams, RotationError, Fabric, Surroundings, Schedule, with_default_params, on_keyring,
  publish, generate_and_publish_key, swap_signing_key, verify_new_key, execution_scope_for_swap,
  mint_execution_scoped_token, or_abort, finish, verify_and_finish, swap_and_finish, mint_and_swap,
  publish_and_rotate, rotation_workflow, grace_wait, propagation_wait,
}
use project_starfly_fabrics.Lifecycle.Rotation.Kept.{
  finish-SameSigner, execute-SameKeys, swap-SameKeys, verify-SameKeys, mint-SameKeys,
}

module _ {ℓ} {K : Type ℓ} where
  or_abort-ok {κ} :
      {A : Type κ} (e : RotationError) (clean_up : Fabric K → Fabric K)
      (go_on : A → Fabric K → Result RotationError (Unit {0}) × Fabric K)
      (r : Result (Unit {0}) A × Fabric K) (s' : Fabric K)
      → or_abort e clean_up go_on r ≡ (ok tt, s')
      → (a : A) × (s : Fabric K) × (r ≡ (ok a, s)) × (go_on a s ≡ (ok tt, s'))
  unfolding or_abort
  or_abort-ok e clean_up go_on (ok a, s) s' h = (a, s, refl, h)
  or_abort-ok e clean_up go_on (err x, s) s' h = cc

  chosen :
      (b : Bool) (e : RotationError) (s s' : Fabric K)
      (r : Result RotationError (Unit {0}) × Fabric K)
      → (if b then r else (err e, s)) ≡ (ok tt, s')
      → r ≡ (ok tt, s')
  chosen true e s s' r h = h
  chosen false e s s' r h = cc

  verified_active :
      (new_kid : String) (n : ℕ) (s s' : Fabric K) (u : Unit {0})
      → verify_new_key new_kid n s ≡ (ok u, s')
      → s'.keyring.active_kid ≡ new_kid
  unfolding verify_new_key
  verified_active new_kid n s s' u h = elim (Bool-cases (s.keyring.active_kid == new_kid)) [
    | inl same ↦
        let kept : s ≡ s' = cc (rw (same, if◌then◌else◌) at h) in
        subst (λ (v : Fabric K). v.keyring.active_kid ≡ new_kid) kept ((eq_iff _ new_kid).0 same)
    | inr other ↦ cc (rw (other, if◌then◌else◌) at h)
  ]

  -- A kid signs, with the key that the keyring held under it.
  abbrev SignsWith : String → Fabric K → Fabric K → Type ℓ
  SignsWith kid s s' =
      (s'.keyring.active_kid ≡ kid) × (active_key_of s'.keyring ≡ lookup kid s.keyring.keys)

  verify_and_finish-SignsWith :
      (env : Surroundings K) (t : Schedule) (new_kid old_kid : String) (s s' : Fabric K)
      → verify_and_finish env t new_kid old_kid s ≡ (ok tt, s')
      → SignsWith new_kid s s'
  unfolding verify_and_finish active_key_of
  verify_and_finish-SignsWith env t new_kid old_kid s s' h =
      let (u, s1, e, k) =
        or_abort-ok _ _ _ (execute t.verified 0 (verify_new_key new_kid) s) s' h in
      let (m, before, r) = execute-ResultOf (verify_new_key new_kid) u t.verified 0 s s1 e in
      let ended : finish env t old_kid new_kid s1 ≡ s' =
        cc (chosen t.graced grace_wait s1 s' (ok tt, finish env t old_kid new_kid s1) k) in
      let kept = finish-SameSigner env t old_kid new_kid s1 in
      let active = verified_active new_kid m before s1 u r in
      subst (λ (v : Fabric K). SignsWith new_kid s v) ended
        (
          kept.0 ∙ active,
          kept.1
              ∙ ap (λ kid. lookup kid s1.keyring.keys) active
              ∙ ap (lookup new_kid)
                  (execute-SameKeys t.verified _ (verify-SameKeys new_kid) s s1 (ok u) e),
        )

  mint_and_swap-SignsWith :
      (env : Surroundings K) (t : Schedule) (new_kid : String) (s s' : Fabric K)
      → mint_and_swap env t new_kid s ≡ (ok tt, s')
      → SignsWith new_kid s s'
  unfolding mint_and_swap swap_and_finish
  mint_and_swap-SignsWith env t new_kid s s' h =
      let scope = execution_scope_for_swap env new_kid in
      let (token, s1, m, k) =
        or_abort-ok _ _ (λ token. swap_and_finish env t new_kid)
          (execute t.minted 0 (mint_execution_scoped_token env scope) s) s' h in
      let (old_kid, s2, w, l) =
        or_abort-ok _ _ (verify_and_finish env t new_kid)
          (execute t.swapped 0 (swap_signing_key new_kid) s1) s' k in
      let (active, held) = verify_and_finish-SignsWith env t new_kid old_kid s2 s' l in
      (
        active,
        held
            ∙ ap (lookup new_kid) (
                execute-SameKeys t.swapped _ (swap-SameKeys new_kid) s1 s2 (ok old_kid) w
                ∙ execute-SameKeys t.minted _ (mint-SameKeys env scope) s s1 (ok token) m),
      )

  added_key :
      (s s' : Fabric K) (k kid : String) (key : Option K)
      → on_keyring k s (add_key k key s.keyring) ≡ (ok kid, s')
      → (k ≡ kid) × (lookup kid s'.keyring.keys ≡ key)
  unfolding add_key
  added_key s s' k kid none h = cc
  added_key s s' k kid (some key) h =
      let same : k ≡ kid = cc in
      let after : record s { keyring = record s.keyring { keys = insert k key s.keyring.keys } }
          ≡ s' =
        cc in
      (
        same,
        ap (λ (v : Fabric K). lookup kid v.keyring.keys) (sym after)
            ∙ lookup-insert k kid key s.keyring.keys
            ∙ rw ((eq_iff k kid).1 same) refl,
      )

  published :
      (s s' : Fabric K) (kid : String) (r : Result String (String × Option K))
      → publish s r ≡ (ok kid, s')
      → r ≡ ok (kid, lookup kid s'.keyring.keys)
  published s s' kid (err e) h = cc
  published s s' kid (ok (k, key)) h = let (same, held) = added_key s s' k kid key h in cc

  -- A rotation that reports success has made a key that it generated for the asked type the signing
  -- key, however often its activities were run: the keyring names that key's kid as the active one
  -- and holds that key under it.
  pub rotation_swaps :
      (env : Surroundings K) (t : Schedule) (params : RotationParams) (s s' : Fabric K)
      → rotation_workflow env t params s ≡ (ok tt, s')
      → (n : ℕ) × (env.generate (with_default_params params).key_type n
          ≡ ok (s'.keyring.active_kid, active_key_of s'.keyring))
  unfolding rotation_workflow publish_and_rotate generate_and_publish_key
  rotation_swaps env t params s s' h =
      let key_type = (with_default_params params).key_type in
      let (_, s1, _, k) = or_abort-ok _ _ (λ _. publish_and_rotate env t key_type) _ s' h in
      let (new_kid, s2, e, l) =
        or_abort-ok _ _ _ (execute t.generated 0 (generate_and_publish_key env key_type) s1) s' k in
      let (m, before, r) =
        execute-ResultOf (generate_and_publish_key env key_type) new_kid t.generated 0 s1 s2 e in
      let (active, held) =
        mint_and_swap-SignsWith env t new_kid s2 s'
          (chosen t.propagated propagation_wait s2 s' (mint_and_swap env t new_kid s2) l) in
      (
        m,
        published before s2 new_kid (env.generate key_type m) r
            ∙ ap (λ kid. ok (kid, lookup new_kid s2.keyring.keys)) (sym active)
            ∙ ap (λ key. ok (s'.keyring.active_kid, key)) (sym held),
      )
