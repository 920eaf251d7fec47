-- ===== src/Signals/Revocation.antt =====
-- The in-memory revocation index, pkg/signals/revocation.go. The clock is an argument, and the time
-- 0 is Go's zero time. JSON and SHA-256 are a parameter, the text of the hash of a list of entries.
pub mod Expiry
pub mod Merge
pub mod Held
pub mod Cleanups
mod Tests
use project_starfly_fabrics.Prelude.{
  ℕ, ◌+◌, String, ◌==◌, Bool, true, false, not, ◌&&◌, Option, none, some, List, [], ◌∷◌, is_empty,
  is_some, if◌then◌else◌, ltb, nat_beq, Result, ok, err,
}
use project_starfly_fabrics.Dict.{Dict, lookup, insert, keep}

pub record RevocationEntry : Type 0 where
  pub subject_id : String
  pub reason : String
  pub revoked_at : ℕ
  pub expires_at : ℕ
  pub event_jti : String

pub record RevocationSnapshot : Type 0 where
  pub entries : List RevocationEntry
  pub count : ℕ
  pub hash : String

pub record InMemoryRevocationIndex : Type 0 where
  pub entries : Dict RevocationEntry

pub data RevocationError : Type 0 where
  empty_subject marshal_failed integrity_check_failed : RevocationError

abbrev pub new_revocation_index : InMemoryRevocationIndex
new_revocation_index = record { entries = [] }

-- `!entry.ExpiresAt.IsZero() && now.After(entry.ExpiresAt)`
unfoldable pub expired : ℕ → RevocationEntry → Bool
expired now entry = not (nat_beq entry.expires_at 0) && ltb entry.expires_at now

abbrev pub new_entry : ℕ → String → String → ℕ → RevocationEntry
new_entry now subject_id reason expires_at = record {
  subject_id = subject_id;
  reason = reason;
  revoked_at = now;
  expires_at = expires_at;
  event_jti = "";
}

unfoldable pub revoke :
    ℕ
    → String
    → String
    → ℕ
    → InMemoryRevocationIndex
    → Result RevocationError InMemoryRevocationIndex
revoke now subject_id reason expires_at idx =
    if is_empty subject_id
    then err empty_subject
    else ok (record {
      entries = insert subject_id (new_entry now subject_id reason expires_at) idx.entries;
    })

abbrev pub unless_expired : ℕ → Option RevocationEntry → Option RevocationEntry
unless_expired now none = none
unless_expired now (some entry) = if expired now entry then none else some entry

-- `none` is a subject that is not revoked.
unfoldable pub is_revoked : ℕ → String → InMemoryRevocationIndex → Option RevocationEntry
is_revoked now subject_id idx = unless_expired now (lookup subject_id idx.entries)

unfoldable pub count_removed : ℕ → Dict RevocationEntry → ℕ
count_removed now [] = 0
count_removed now ((id, entry) ∷ entries) =
    let rest = count_removed now entries in if expired now entry then rest + 1 else rest

unfoldable pub cleanup : ℕ → InMemoryRevocationIndex → ℕ × InMemoryRevocationIndex
cleanup now idx = (
  count_removed now idx.entries,
  record { entries = keep (λ entry. not (expired now entry)) idx.entries },
)

-- `if _, exists := entries[e.SubjectID]; !exists { entries[e.SubjectID] = e }`
unfoldable pub add_missing : RevocationEntry → Dict RevocationEntry → Dict RevocationEntry
add_missing entry known =
    if is_some (lookup entry.subject_id known) then known else insert entry.subject_id entry known

unfoldable pub merge_entries : List RevocationEntry → Dict RevocationEntry → Dict RevocationEntry
merge_entries [] known = known
merge_entries (entry ∷ entries) known = merge_entries entries (add_missing entry known)

abbrev pub check_hash :
    Option String
    → RevocationSnapshot
    → InMemoryRevocationIndex
    → Result RevocationError InMemoryRevocationIndex
check_hash none snapshot idx = err marshal_failed
check_hash (some h) snapshot idx =
    if snapshot.hash == h
    then ok (record { entries = merge_entries snapshot.entries idx.entries })
    else err integrity_check_failed

-- Import of a snapshot that JSON has decoded. A null among its entries, which Go takes for a nil
-- pointer and panics on, is not an entry here.
unfoldable pub import_snapshot :
    (List RevocationEntry → Option String)
    → RevocationSnapshot
    → InMemoryRevocationIndex
    → Result RevocationError InMemoryRevocationIndex
import_snapshot digest snapshot idx = check_hash (digest snapshot.entries) snapshot idx
