-- ===== src/Audit/Ledger/Tests.antt =====
-- Runs of the ledger with a hash that numbers and names an entry.
use Prim.Native.String.{◌++◌}
use project_starfly_fabrics.Audit.Ledger.{append_hashed, next_seq}
use project_starfly_fabrics.Dict.{insert, lookup}
use project_starfly_fabrics.Prelude.{
  String, ◌==◌, eq_iff, ◌≡◌, ◌≢◌, refl, if◌then◌else◌, some, [], ◌∷◌, arith, ok, err,
}
use project_starfly_fabrics.Audit.Ledger.{
  EctLedgerEntry, EctLedger, HashEntry, new_ect_ledger, duplicate_jti, chained, append,
  lookup_entry, verify,
}
use project_starfly_fabrics.Audit.Ledger.Chain.{Appended, empty, appended, Appended-verifies}
use project_starfly_fabrics.Audit.Ledger.Find.{append-lookup_entry}
use project_starfly_fabrics.Audit.Ledger.Tamper.{replaced_entry_found, replaced_last_verifies}

abbrev name_and_tool : HashEntry
name_and_tool e = ok (e.prev_hash ++ (e.jti ++ e.tool_id))

abbrev entry_of : String → String → EctLedgerEntry
entry_of jti tool = record {
  sequence = 0;
  jti = jti;
  prev_hash = "";
  ect_token = "t";
  issuer = "i";
  subject = "s";
  tool_id = tool;
  exec_act = "";
  workflow_id = "";
  recorded_at = 7;
}

abbrev first_entry : EctLedgerEntry
first_entry = record (entry_of "a" "x") { sequence = 1 }

abbrev second_entry : EctLedgerEntry
second_entry = record (entry_of "b" "y") { sequence = 2; prev_hash = "ax" }

abbrev one_entry : EctLedger
one_entry = record { entries = first_entry ∷ []; index = ("a", 0) ∷ []; last_hash = "ax"; seq = 1 }

abbrev two_entries : EctLedger
two_entries = record {
  entries = first_entry ∷ second_entry ∷ [];
  index = ("a", 0) ∷ ("b", 1) ∷ [];
  last_hash = "axby";
  seq = 2;
}

first_append : append name_and_tool 100 (entry_of "a" "x") new_ect_ledger ≡ (ok 1, one_entry)
unfolding append lookup append_hashed chained insert next_seq
first_append = refl

second_append : append name_and_tool 100 (entry_of "b" "y") one_entry ≡ (ok 2, two_entries)
unfolding append lookup append_hashed chained insert next_seq
second_append = refl

again_refused :
    append name_and_tool 100 (entry_of "a" "z") two_entries ≡ (err (duplicate_jti "a"), two_entries)
unfolding append lookup
again_refused = refl

one_entry-Appended : Appended name_and_tool one_entry
unfolding append lookup append_hashed chained insert next_seq
one_entry-Appended = appended empty 100 (entry_of "a" "x")

two_entries-Appended : Appended name_and_tool two_entries
unfolding append lookup append_hashed chained insert next_seq
two_entries-Appended = appended one_entry-Appended 100 (entry_of "b" "y")

Appended-verifies_example : verify name_and_tool two_entries ≡ ok tt
Appended-verifies_example = Appended-verifies name_and_tool two_entries-Appended

append-lookup_entry_example : lookup_entry "a" two_entries ≡ (
    if "b" == "a"
    then some (chained 100 (entry_of "b" "y") one_entry)
    else lookup_entry "a" one_entry)
append-lookup_entry_example =
    append-lookup_entry name_and_tool one_entry-Appended 100 (entry_of "b" "y") 2 two_entries
      second_append "a"

abbrev tampered_first : EctLedgerEntry
tampered_first = record first_entry { tool_id = "z" }

tampered_differs : name_and_tool first_entry ≢ name_and_tool tampered_first
tampered_differs h = ground (arith, eq_iff "ax" "az")

replaced_entry_found_example :
    verify name_and_tool (record two_entries { entries = tampered_first ∷ second_entry ∷ [] })
    ≢ ok tt
replaced_entry_found_example =
    replaced_entry_found name_and_tool two_entries
      (record two_entries { entries = tampered_first ∷ second_entry ∷ [] }) [] [] first_entry
      tampered_first second_entry refl refl tampered_differs
      (Appended-verifies name_and_tool two_entries-Appended)

abbrev tampered_second : EctLedgerEntry
tampered_second = record second_entry { tool_id = "z" }

replaced_last_verifies_example :
    verify name_and_tool (record two_entries { entries = first_entry ∷ tampered_second ∷ [] })
    ≡ ok tt
replaced_last_verifies_example =
    replaced_last_verifies name_and_tool two_entries
      (record two_entries { entries = first_entry ∷ tampered_second ∷ [] }) (first_entry ∷ [])
      second_entry tampered_second "axbz" refl refl refl refl refl
      (Appended-verifies name_and_tool two_entries-Appended)
