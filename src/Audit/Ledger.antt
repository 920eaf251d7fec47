-- ===== src/Audit/Ledger.antt =====
-- The hash-chained ledger of execution tokens, pkg/audit/ledger.go. The hash of an entry's JSON is
-- a parameter, which may fail, and the clock is an argument. Every method takes the ledger's mutex.
pub mod Chain
pub mod Find
pub mod Tamper
mod Tests
use project_starfly_fabrics.Prelude.{
  ℕ, ◌+◌, ◌-◌, ◌%◌, ◌^◌, String, ◌==◌, Bool, true, false, not, Option, none, some, List, [], ◌∷◌,
  ◌++◌, is_some, if◌then◌else◌, nat_beq, length, Result, ok, err, refuse_if, bind,
}
use project_starfly_fabrics.Dict.{Dict, lookup, insert}

pub record EctLedgerEntry : Type 0 where
  pub sequence : ℕ
  pub jti : String
  pub prev_hash : String
  pub ect_token : String
  pub issuer : String
  pub subject : String
  pub tool_id : String
  pub exec_act : String
  pub workflow_id : String
  pub recorded_at : ℕ

-- The sequence counter is a uint64.
pub record EctLedger : Type 0 where
  pub entries : List EctLedgerEntry
  pub index : Dict ℕ
  pub last_hash : String
  pub seq : ℕ

pub data LedgerError : Type 0 where
  duplicate_jti hash_failed : String → LedgerError
  sequence_gap chain_broken : ℕ → LedgerError

abbrev pub HashEntry : Type 0
HashEntry = EctLedgerEntry → Result String String

abbrev pub new_ect_ledger : EctLedger
new_ect_ledger = record { entries = []; index = []; last_hash = ""; seq = 0 }

unfoldable pub next_seq : ℕ → ℕ
next_seq seq = (seq + 1) % 2 ^ 64

-- The entry as it is recorded: its number, its link and its time.
unfoldable pub chained : ℕ → EctLedgerEntry → EctLedger → EctLedgerEntry
chained now entry l = record entry {
  sequence = next_seq l.seq;
  prev_hash = l.last_hash;
  recorded_at = if nat_beq entry.recorded_at 0 then now else entry.recorded_at;
}

-- A failing hash leaves the ledger as it was.
unfoldable pub append_hashed :
    Result String String → EctLedgerEntry → EctLedger → Result LedgerError ℕ × EctLedger
append_hashed (err msg) entry l = (err (hash_failed msg), l)
append_hashed (ok h) entry l = (
  ok entry.sequence,
  record {
    entries = l.entries ++ entry ∷ [];
    index = insert entry.jti (length l.entries) l.index;
    last_hash = h;
    seq = entry.sequence;
  },
)

unfoldable pub append :
    HashEntry → ℕ → EctLedgerEntry → EctLedger → Result LedgerError ℕ × EctLedger
append hash_entry now entry l =
    if is_some (lookup entry.jti l.index)
    then (err (duplicate_jti entry.jti), l)
    else append_hashed (hash_entry (chained now entry l)) (chained now entry l) l

-- `l.entries[i]`
unfoldable pub get_elem? : ℕ → List EctLedgerEntry → Option EctLedgerEntry
get_elem? i [] = none
get_elem? i (e ∷ es) = if nat_beq i 0 then some e else get_elem? (i - 1) es

abbrev pub entry_at : Option ℕ → List EctLedgerEntry → Option EctLedgerEntry
entry_at none es = none
entry_at (some i) es = get_elem? i es

-- Lookup of the ledger.
unfoldable pub lookup_entry : String → EctLedger → Option EctLedgerEntry
lookup_entry jti l = entry_at (lookup jti l.index) l.entries

abbrev pub hashed : Result String String → Result LedgerError String
hashed (ok h) = ok h
hashed (err msg) = err (hash_failed msg)

-- The loop of Verify, at the position `i` and after an entry with the hash `prev`.
unfoldable pub verify_from :
    HashEntry → ℕ → String → List EctLedgerEntry → Result LedgerError (Unit {0})
verify_from hash_entry i prev [] = ok tt
verify_from hash_entry i prev (e ∷ es) =
    bind (refuse_if (not (nat_beq e.sequence ((i + 1) % 2 ^ 64))) (sequence_gap i)) λ _.
      bind (refuse_if (not (e.prev_hash == prev)) (chain_broken e.sequence))
        λ _. bind (hashed (hash_entry e)) λ h. verify_from hash_entry (i + 1) h es

unfoldable pub verify : HashEntry → EctLedger → Result LedgerError (Unit {0})
verify hash_entry l = verify_from hash_entry 0 "" l.entries
