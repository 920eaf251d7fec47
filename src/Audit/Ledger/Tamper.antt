-- ===== src/Audit/Ledger/Tamper.antt =====
-- Verify on a recorded ledger in which one entry was replaced.
use project_starfly_fabrics.Prelude.{
  ℕ, ◌+◌, ◌%◌, ◌^◌, String, ◌==◌, eq_iff, ◌≡◌, ◌≢◌, refl, sym, subst, ap, ◌∙◌, Bool, true, false,
  not, List, [], ◌∷◌, ◌++◌, nat_beq, Result, ok, err, refuse_if, refuse_if-ok, bind-elim, bind-of,
}
use project_starfly_fabrics.Audit.Ledger.{
  EctLedgerEntry, EctLedger, LedgerError, sequence_gap, chain_broken, HashEntry, hashed,
  verify_from, verify,
}

-- What one step of Verify has seen.
record Step (hash_entry : HashEntry) (i : ℕ) (prev : String) (e : EctLedgerEntry)
    (es : List EctLedgerEntry) : Type 0 where
  numbered : nat_beq e.sequence ((i + 1) % 2 ^ 64) ≡ true
  chained : (e.prev_hash == prev) ≡ true
  hash : String
  computed : hash_entry e ≡ ok hash
  rest : verify_from hash_entry (i + 1) hash es ≡ ok tt

hashed-ok : (r : Result String String) (h : String) → hashed r ≡ ok h → r ≡ ok h
hashed-ok (ok x) h e = cc
hashed-ok (err m) h e = cc

not-false : (b : Bool) → not b ≡ false → b ≡ true
not-false true h = refl
not-false false h = cc

module _ (hash_entry : HashEntry) where
  step :
      (i : ℕ) (prev : String) (e : EctLedgerEntry) (es : List EctLedgerEntry)
      → verify_from hash_entry i prev (e ∷ es) ≡ ok tt
      → Step hash_entry i prev e es
  unfolding verify_from
  step i prev e es h =
      bind-elim (refuse_if (not (nat_beq e.sequence ((i + 1) % 2 ^ 64))) (sequence_gap i)) _ h
        λ u s h1.
          bind-elim (refuse_if (not (e.prev_hash == prev)) (chain_broken e.sequence)) _ h1
            λ u2 p h2. bind-elim (hashed (hash_entry e)) _ h2 λ hash k rest. record {
              numbered = not-false _ (refuse_if-ok _ _ s);
              chained = not-false _ (refuse_if-ok _ _ p);
              hash = hash;
              computed = hashed-ok _ _ k;
              rest = rest;
            }

  verify_of_Step :
      (i : ℕ) (prev : String) (e : EctLedgerEntry) (es : List EctLedgerEntry)
      → Step hash_entry i prev e es
      → verify_from hash_entry i prev (e ∷ es) ≡ ok tt
  unfolding verify_from
  verify_of_Step i prev e es s =
      bind-of _ (passed _ _ s.numbered)
        (bind-of _ (passed _ _ s.chained) (bind-of _ (ap hashed s.computed) s.rest))
    where
      passed : (b : Bool) (x : LedgerError) → b ≡ true → refuse_if (not b) x ≡ ok tt
      passed b x h = rw h refl

  same_hash :
      (e : EctLedgerEntry) (h h' : String) → hash_entry e ≡ ok h → hash_entry e ≡ ok h' → h ≡ h'
  same_hash e h h' p q = cc

  changed_inside :
      (before : List EctLedgerEntry) (i : ℕ) (prev : String) (e e' next : EctLedgerEntry)
      (after : List EctLedgerEntry)
      → verify_from hash_entry i prev (before ++ e ∷ next ∷ after) ≡ ok tt
      → verify_from hash_entry i prev (before ++ e' ∷ next ∷ after) ≡ ok tt
      → hash_entry e ≡ hash_entry e'
  changed_inside [] i prev e e' next after h h' =
      let s = step i prev e (next ∷ after) h in
      let s' = step i prev e' (next ∷ after) h' in
      let n = step (i + 1) s.hash next after s.rest in
      let n' = step (i + 1) s'.hash next after s'.rest in
      let same : s'.hash ≡ s.hash =
        sym ((eq_iff next.prev_hash s'.hash).0 n'.chained)
        ∙ (eq_iff next.prev_hash s.hash).0 n.chained in
      s.computed ∙ (ap ok (sym same) ∙ sym s'.computed)
  changed_inside (x ∷ before) i prev e e' next after h h' =
      let s = step i prev x (before ++ e ∷ next ∷ after) h in
      let s' = step i prev x (before ++ e' ∷ next ∷ after) h' in
      let same = same_hash x s'.hash s.hash s'.computed s.computed in
      changed_inside before (i + 1) s.hash e e' next after s.rest (
        subst (λ v. verify_from hash_entry (i + 1) v (before ++ e' ∷ next ∷ after) ≡ ok tt) same
          s'.rest)

  changed_last :
      (before : List EctLedgerEntry) (i : ℕ) (prev : String) (e e' : EctLedgerEntry) (h : String)
      → e'.sequence ≡ e.sequence
      → e'.prev_hash ≡ e.prev_hash
      → hash_entry e' ≡ ok h
      → verify_from hash_entry i prev (before ++ e ∷ []) ≡ ok tt
      → verify_from hash_entry i prev (before ++ e' ∷ []) ≡ ok tt
  unfolding verify_from
  changed_last [] i prev e e' h a b k v =
      let s = step i prev e [] v in
      verify_of_Step i prev e' [] (record {
        numbered = ap (λ n. nat_beq n ((i + 1) % 2 ^ 64)) a ∙ s.numbered;
        chained = ap (λ x. x == prev) b ∙ s.chained;
        hash = h;
        computed = k;
        rest = refl;
      })
  changed_last (x ∷ before) i prev e e' h a b k v =
      let s = step i prev x (before ++ e ∷ []) v in
      verify_of_Step i prev x (before ++ e' ∷ []) (record {
        numbered = s.numbered;
        chained = s.chained;
        hash = s.hash;
        computed = s.computed;
        rest = changed_last before (i + 1) s.hash e e' h a b k s.rest;
      })

-- No entry that has a successor can be replaced by one with another hash so that the ledger still
-- verifies.
pub replaced_entry_found :
    (hash_entry : HashEntry) (l l' : EctLedger) (before after : List EctLedgerEntry)
    (e e' next : EctLedgerEntry)
    → l.entries ≡ before ++ e ∷ next ∷ after
    → l'.entries ≡ before ++ e' ∷ next ∷ after
    → hash_entry e ≢ hash_entry e'
    → verify hash_entry l ≡ ok tt
    → verify hash_entry l' ≢ ok tt
unfolding verify
replaced_entry_found hash_entry l l' before after e e' next p p' differs v v' =
    differs (changed_inside hash_entry before 0 "" e e' next after (rw p at v) (rw p' at v'))

-- The last entry of a ledger that verifies can be replaced by any entry that has its number and its
-- link and that can be hashed, and the ledger still verifies.
pub replaced_last_verifies :
    (hash_entry : HashEntry) (l l' : EctLedger) (before : List EctLedgerEntry)
    (e e' : EctLedgerEntry) (h : String)
    → l.entries ≡ before ++ e ∷ []
    → l'.entries ≡ before ++ e' ∷ []
    → e'.sequence ≡ e.sequence
    → e'.prev_hash ≡ e.prev_hash
    → hash_entry e' ≡ ok h
    → verify hash_entry l ≡ ok tt
    → verify hash_entry l' ≡ ok tt
unfolding verify
replaced_last_verifies hash_entry l l' before e e' h p p' a b k v =
    subst (λ es. verify_from hash_entry 0 "" es ≡ ok tt) (sym p')
      (changed_last hash_entry before 0 "" e e' h a b k (rw p at v))
