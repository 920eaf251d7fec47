-- ===== src/Signals/Revocation/Tests.antt =====
-- Runs of the index with a digest that names the number of entries.
use project_starfly_fabrics.Signals.Revocation.{add_missing, merge_entries}
use project_starfly_fabrics.Prelude.{is_empty}
use project_starfly_fabrics.Prelude.{
  arith, inr, String, ◌≡◌, refl, true, if◌then◌else◌, Option, none, some, List, [], ◌∷◌, is_nil, ok,
  err,
}
use project_starfly_fabrics.Dict.{lookup, insert}
use project_starfly_fabrics.Signals.Revocation.{
  RevocationEntry, RevocationSnapshot, InMemoryRevocationIndex, integrity_check_failed,
  new_revocation_index, new_entry, expired, revoke, is_revoked, cleanup, import_snapshot,
}
use project_starfly_fabrics.Signals.Revocation.Held.{
  unused, revoked, imported, cleaned, Without, revoked_until_expiry, revocation_ends,
}
use project_starfly_fabrics.Signals.Revocation.Cleanups.{
  Use, sweep, revocation, use_all, cleanup_unnoticed,
}
use project_starfly_fabrics.Signals.Revocation.Merge.{
  known_or, first_entry, import_snapshot-lookup, expired_entry_hides,
}

abbrev digest : List RevocationEntry → Option String
digest entries = some (if is_nil entries then "none" else "some")

abbrev stale : InMemoryRevocationIndex
stale = record { entries = ("agent", new_entry 10 "agent" "leak" 20) ∷ [] }

abbrev fresh : RevocationSnapshot
fresh = record { entries = new_entry 30 "agent" "leak again" 0 ∷ []; count = 1; hash = "some" }

revoked_stale : revoke 10 "agent" "leak" 20 new_revocation_index ≡ ok stale
unfolding revoke is_empty insert
revoked_stale = refl

fresh_alone :
    import_snapshot digest fresh new_revocation_index
    ≡ ok (record { entries = ("agent", new_entry 30 "agent" "leak again" 0) ∷ [] })
unfolding import_snapshot merge_entries add_missing lookup insert
fresh_alone = refl

fresh_hidden : import_snapshot digest fresh stale ≡ ok stale
unfolding import_snapshot merge_entries add_missing lookup
fresh_hidden = refl

bad_hash :
    import_snapshot digest (record fresh { hash = "none" }) stale ≡ err integrity_check_failed
unfolding import_snapshot
bad_hash = refl

stale_gone : expired 40 (new_entry 10 "agent" "leak" 20) ≡ true
unfolding expired
stale_gone = refl

stale_known : lookup "agent" stale.entries ≡ some (new_entry 10 "agent" "leak" 20)
unfolding lookup
stale_known = refl

abbrev other_revoked : InMemoryRevocationIndex
other_revoked = record {
  entries =
      ("agent", new_entry 10 "agent" "leak" 20) ∷ ("rogue", new_entry 12 "rogue" "theft" 0) ∷ [];
}

rogue_revoked : revoke 12 "rogue" "theft" 0 stale ≡ ok other_revoked
unfolding revoke is_empty insert
rogue_revoked = refl

abbrev other_snapshot : RevocationSnapshot
other_snapshot = record { entries = new_entry 12 "rogue" "theft" 0 ∷ []; count = 1; hash = "some" }

rogue_imported : import_snapshot digest other_snapshot stale ≡ ok other_revoked
unfolding import_snapshot merge_entries add_missing lookup insert
rogue_imported = refl

unnamed : Without "agent" other_snapshot
unfolding first_entry
unnamed = refl

revoked_until_expiry_example :
    is_revoked 15 "agent" (cleanup 14 other_revoked).1 ≡ some (new_entry 10 "agent" "leak" 20)
revoked_until_expiry_example =
    revoked_until_expiry 10 15 20 "agent" "leak" new_revocation_index stale
      (cleanup 14 other_revoked).1 revoked_stale
      (cleaned (revoked unused 12 0 "rogue" "theft" refl rogue_revoked) 14 (omega arith))
      (inr (omega arith))

revocation_ends_example : is_revoked 21 "agent" (cleanup 14 other_revoked).1 ≡ none
revocation_ends_example =
    revocation_ends 10 21 20 "agent" "leak" new_revocation_index stale (cleanup 14 other_revoked).1
      revoked_stale
      (cleaned (imported unused digest other_snapshot unnamed rogue_imported) 14 (omega arith))
      (λ e. omega (arith, e)) (omega arith)

abbrev uses : List Use
uses = revocation 13 0 "rogue" "theft" ∷ sweep 14 ∷ []

cleanup_unnoticed_example :
    is_revoked 15 "agent" (use_all uses (cleanup 12 stale).1)
    ≡ is_revoked 15 "agent" (use_all uses stale)
cleanup_unnoticed_example =
    cleanup_unnoticed 12 15 uses "agent" stale (omega arith) (tt, (omega arith, tt))

import_snapshot-lookup_example :
    lookup "agent" stale.entries
    ≡ known_or (lookup "agent" stale.entries) (first_entry "agent" fresh.entries)
import_snapshot-lookup_example =
    import_snapshot-lookup digest fresh stale stale fresh_hidden "agent"

expired_entry_hides_example : is_revoked 41 "agent" stale ≡ none
expired_entry_hides_example =
    expired_entry_hides digest fresh stale stale 40 41 "agent" (new_entry 10 "agent" "leak" 20)
      fresh_hidden stale_known stale_gone (omega arith)
