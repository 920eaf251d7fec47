-- ===== src/Audit/Ledger/Find.antt =====
-- Lookup in ledgers that were built by Append.
use project_starfly_fabrics.Prelude.{
  ℕ, ◌<◌, String, ◌==◌, ◌≡◌, refl, subst, ap, ◌∙◌, inl, inr, false, Bool-cases, Option, none, some,
  [], ◌∷◌, ◌++◌, arith, is_some, if◌then◌else◌, nat_beq, length, Result, ok, err,
}
use project_starfly_fabrics.Dict.{lookup, lookup-insert}
use project_starfly_fabrics.Audit.Ledger.{
  EctLedgerEntry, EctLedger, LedgerError, HashEntry, chained, append_hashed, append, entry_at,
  lookup_entry,
}
use project_starfly_fabrics.Audit.Ledger.Chain.{
  Appended, Appended-WellFormed, get_elem?-append, nat_beq-true,
}

entry_at-append :
    (l : EctLedger) (entry : EctLedgerEntry) (o : Option ℕ)
    → ((i : ℕ) → o ≡ some i → i < length l.entries)
    → entry_at o (l.entries ++ entry ∷ []) ≡ entry_at o l.entries
entry_at-append l entry none h = refl
entry_at-append l entry (some i) h =
    get_elem?-append l.entries entry i ∙ rw (earlier i (length l.entries) (h i refl)) refl
  where
    earlier : (m n : ℕ) → m < n → nat_beq m n ≡ false
    earlier m n h = ground arith

append_hashed-lookup :
    (r : Result String String) (entry : EctLedgerEntry) (l l' : EctLedger) (n : ℕ) (j : String)
    → ((i : ℕ) → lookup j l.index ≡ some i → i < length l.entries)
    → append_hashed r entry l ≡ (ok n, l')
    → lookup_entry j l' ≡ (if entry.jti == j then some entry else lookup_entry j l)
unfolding append_hashed lookup_entry
append_hashed-lookup (err msg) entry l l' n j h e = cc
append_hashed-lookup (ok hash) entry l l' n j h e =
    subst
      (λ (v : EctLedger).
        lookup_entry j v ≡ (if entry.jti == j then some entry else lookup_entry j l))
      (ap (λ (r : Result LedgerError ℕ × EctLedger). r.1) e)
      (rw (lookup-insert entry.jti j (length l.entries) l.index)
        (elim (Bool-cases (entry.jti == j)) [
          | inl same ↦ rw same (
              get_elem?-append l.entries entry (length l.entries)
              ∙ rw (nat_beq-true (length l.entries) (length l.entries) refl) refl)
          | inr other ↦ rw other (entry_at-append l entry (lookup j l.index) h)
        ]))

-- In a ledger that was built by Append, a successful Append makes its own entry, as it was chained,
-- the one that is found under its identifier, and changes nothing that other identifiers find.
pub append-lookup_entry :
    (hash_entry : HashEntry) {l : EctLedger}
    → Appended hash_entry l
    → (now : ℕ) (entry : EctLedgerEntry) (n : ℕ) (l' : EctLedger)
    → append hash_entry now entry l ≡ (ok n, l')
    → (j : String)
    → lookup_entry j l' ≡ (if entry.jti == j then some (chained now entry l) else lookup_entry j l)
unfolding append chained
append-lookup_entry hash_entry {l} r now entry n l' e j =
    elim (Bool-cases (is_some (lookup entry.jti l.index))) [
      | inl known ↦ cc (rw (known, if◌then◌else◌) at e)
      | inr new ↦
          append_hashed-lookup (hash_entry (chained now entry l)) (chained now entry l) l l' n j
            ((Appended-WellFormed hash_entry r).in_range j) (rw (new, if◌then◌else◌) at e)
    ]
