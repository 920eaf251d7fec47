-- ===== src/Audit/Ledger/Chain.antt =====
-- Ledgers that were built by Append.
use project_starfly_fabrics.Prelude.{
  ℕ, ◌+◌, ◌-◌, ◌<◌, ◌%◌, ◌^◌, String, ◌==◌, eq_iff, ◌≡◌, refl, sym, subst, ap, ◌∙◌, inl, inr, Bool,
  true, false, not, Bool-cases, some, some-injective, List, [], ◌∷◌, ◌++◌, arith, is_some,
  if◌then◌else◌, nat_beq, length, length-append, Result, ok, err, refuse_if, bind-of,
}
use project_starfly_fabrics.Dict.{lookup, insert, lookup-insert}
use project_starfly_fabrics.Audit.Ledger.{
  EctLedgerEntry, EctLedger, LedgerError, HashEntry, new_ect_ledger, next_seq, chained,
  append_hashed, append, get_elem?, hashed, verify_from, verify,
}

-- A run of linked entries, from a position and a hash to those after it.
pub data Linked (hash_entry : HashEntry)
    : ℕ → String → List EctLedgerEntry → ℕ → String → Type 0 where
  end : {i : ℕ} {h : String} → Linked hash_entry i h [] i h
  link :
      {i j : ℕ} {h h' last : String} {e : EctLedgerEntry} {es : List EctLedgerEntry}
      → e.sequence ≡ (i + 1) % 2 ^ 64
      → e.prev_hash ≡ h
      → hash_entry e ≡ ok h'
      → Linked hash_entry (i + 1) h' es j last
      → Linked hash_entry i h (e ∷ es) j last

passed : (b : Bool) (e : LedgerError) → b ≡ true → refuse_if (not b) e ≡ ok tt
passed b e h = rw h refl

pub nat_beq-true : (m n : ℕ) → m ≡ n → nat_beq m n ≡ true
nat_beq-true m n e = ground arith

module _ (hash_entry : HashEntry) where
  pub verify_of_Linked :
      {i j : ℕ} {h last : String} {es : List EctLedgerEntry}
      → Linked hash_entry i h es j last
      → verify_from hash_entry i h es ≡ ok tt
  unfolding verify_from
  verify_of_Linked end = refl
  verify_of_Linked (link {i} {j} {h} {h'} {last} {e} {es} s p k rest) =
      bind-of _ (passed _ _ (nat_beq-true _ _ s)) (
        bind-of _ (passed _ _ ((eq_iff e.prev_hash h).1 p))
          (bind-of _ (ap hashed k) (verify_of_Linked rest)))

  snoc-Linked :
      {i j : ℕ} {h last : String} {es : List EctLedgerEntry}
      → Linked hash_entry i h es j last
      → (e : EctLedgerEntry) (h' : String) → e.sequence ≡ (j + 1) % 2 ^ 64
      → e.prev_hash ≡ last
      → hash_entry e ≡ ok h'
      → Linked hash_entry i h (es ++ e ∷ []) (j + 1) h'
  snoc-Linked end e h' s p k = link s p k end
  snoc-Linked (link a b c rest) e h' s p k = link a b c (snoc-Linked rest e h' s p k)

pub get_elem?-append :
    (es : List EctLedgerEntry) (e : EctLedgerEntry) (i : ℕ)
    → get_elem? i (es ++ e ∷ []) ≡ (if nat_beq i (length es) then some e else get_elem? i es)
unfolding get_elem?
get_elem?-append [] e i = ground arith
get_elem?-append (x ∷ es) e i = ground (arith, get_elem?-append es e (i - 1))

-- What Append keeps: the chain ends in the last hash, the counter counts the entries, and the
-- index leads to entries with their identifiers.
pub record WellFormed (hash_entry : HashEntry) (l : EctLedger) : Type 0 where
  pub linked : Linked hash_entry 0 "" l.entries (length l.entries) l.last_hash
  pub counted : l.seq ≡ length l.entries % 2 ^ 64
  pub in_range : (jti : String) (i : ℕ) → lookup jti l.index ≡ some i → i < length l.entries
  pub indexed :
      (jti : String) (i : ℕ)
      → lookup jti l.index ≡ some i
      → (e : EctLedgerEntry) × (get_elem? i l.entries ≡ some e) × (e.jti ≡ jti)

next_counted : (seq n : ℕ) → seq ≡ n % 2 ^ 64 → next_seq seq ≡ (n + 1) % 2 ^ 64
unfolding next_seq
next_counted seq n h = omega (arith, h)

in_range-append :
    (entry : EctLedgerEntry) (l : EctLedger) (jti : String) (i : ℕ)
    → ((k : String) (m : ℕ) → lookup k l.index ≡ some m → m < length l.entries)
    → lookup jti (insert entry.jti (length l.entries) l.index) ≡ some i
    → i < length l.entries + 1
in_range-append entry l jti i h e = elim (Bool-cases (entry.jti == jti)) [
  | inl same ↦
      let here =
        some-injective (rw (lookup-insert entry.jti jti _ l.index, same, if◌then◌else◌) at e) in
      omega (arith, here)
  | inr other ↦
      let there = h jti i (rw (lookup-insert entry.jti jti _ l.index, other, if◌then◌else◌) at e) in
      omega (arith, there)
]

indexed-append :
    (entry : EctLedgerEntry) (l : EctLedger) (jti : String) (i : ℕ)
    → ((k : String) (m : ℕ) → lookup k l.index ≡ some m → m < length l.entries)
    → ((k : String) (m : ℕ)
        → lookup k l.index ≡ some m
        → (e : EctLedgerEntry) × (get_elem? m l.entries ≡ some e) × (e.jti ≡ k))
    → lookup jti (insert entry.jti (length l.entries) l.index) ≡ some i
    → (e : EctLedgerEntry) × (get_elem? i (l.entries ++ entry ∷ []) ≡ some e) × (e.jti ≡ jti)
indexed-append entry l jti i r h e = elim (Bool-cases (entry.jti == jti)) [
  | inl same ↦
      let here =
        some-injective (rw (lookup-insert entry.jti jti _ l.index, same, if◌then◌else◌) at e) in
      (
        entry,
        get_elem?-append l.entries entry i ∙ rw (nat_beq-true i (length l.entries) (sym here)) refl,
        (eq_iff entry.jti jti).0 same,
      )
  | inr other ↦
      let old = rw (lookup-insert entry.jti jti _ l.index, other, if◌then◌else◌) at e in
      let (found, at, named) = h jti i old in
      let before = r jti i old in
      (
        found,
        get_elem?-append l.entries entry i ∙ rw (earlier i (length l.entries) before) at,
        named,
      )
]
  where
    earlier : (m n : ℕ) → m < n → nat_beq m n ≡ false
    earlier m n h = ground arith

append_hashed-WellFormed :
    (hash_entry : HashEntry) (r : Result String String) (entry : EctLedgerEntry) (l : EctLedger)
    → hash_entry entry ≡ r
    → entry.sequence ≡ next_seq l.seq
    → entry.prev_hash ≡ l.last_hash
    → WellFormed hash_entry l
    → WellFormed hash_entry (append_hashed r entry l).1
unfolding append_hashed
append_hashed-WellFormed hash_entry (err msg) entry l k s p wf = wf
append_hashed-WellFormed hash_entry (ok h) entry l k s p wf =
    let counted = s ∙ next_counted l.seq (length l.entries) wf.counted in
    let grown : length (l.entries ++ entry ∷ []) ≡ length l.entries + 1 =
      length-append l.entries (entry ∷ []) in
    record {
      linked =
          subst (λ n. Linked hash_entry 0 "" (l.entries ++ entry ∷ []) n h) (sym grown)
            (snoc-Linked hash_entry wf.linked entry h counted p k);
      counted = counted ∙ ap (λ n. n % 2 ^ 64) (sym grown);
      in_range =
          λ jti i e. subst (λ n. i < n) (sym grown) (in_range-append entry l jti i wf.in_range e);
      indexed = λ jti i e. indexed-append entry l jti i wf.in_range wf.indexed e;
    }

append-WellFormed :
    (hash_entry : HashEntry) (now : ℕ) (entry : EctLedgerEntry) (l : EctLedger)
    → WellFormed hash_entry l
    → WellFormed hash_entry (append hash_entry now entry l).1
unfolding append chained
append-WellFormed hash_entry now entry l wf =
    elim (Bool-cases (is_some (lookup entry.jti l.index))) [
      | inl known ↦ rw known wf
      | inr new ↦
          rw new (append_hashed-WellFormed hash_entry _ (chained now entry l) l refl refl refl wf)
    ]

-- The ledgers that calls of Append lead to.
pub data Appended (hash_entry : HashEntry) : EctLedger → Type 0 where
  empty : Appended hash_entry new_ect_ledger
  appended :
      {l : EctLedger}
      → Appended hash_entry l
      → (now : ℕ) (entry : EctLedgerEntry) → Appended hash_entry (append hash_entry now entry l).1

pub Appended-WellFormed :
    (hash_entry : HashEntry) {l : EctLedger} → Appended hash_entry l → WellFormed hash_entry l
unfolding lookup
Appended-WellFormed hash_entry empty = record {
  linked = end;
  counted = refl;
  in_range = λ jti i e. cc;
  indexed = λ jti i e. cc;
}
Appended-WellFormed hash_entry (appended r now entry) =
    append-WellFormed hash_entry now entry _ (Appended-WellFormed hash_entry r)

-- A ledger that was built by Append verifies.
pub Appended-verifies :
    (hash_entry : HashEntry) {l : EctLedger} → Appended hash_entry l → verify hash_entry l ≡ ok tt
unfolding verify
Appended-verifies hash_entry r =
    verify_of_Linked hash_entry (Appended-WellFormed hash_entry r).linked
