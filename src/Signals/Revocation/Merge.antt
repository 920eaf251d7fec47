-- ===== src/Signals/Revocation/Merge.antt =====
-- Import of snapshots.
use project_starfly_fabrics.Prelude.{
  ℕ, ◌≤◌, String, ◌==◌, eq_iff, ◌≡◌, refl, ap, ◌∙◌, true, Bool-cases, inl, inr, Option, none, some,
  List, [], ◌∷◌, arith, if◌then◌else◌, ok,
}
use project_starfly_fabrics.Dict.{Dict, lookup, lookup-insert}
use project_starfly_fabrics.Signals.Revocation.{
  RevocationEntry, RevocationSnapshot, InMemoryRevocationIndex, expired, unless_expired, is_revoked,
  add_missing, merge_entries, check_hash, import_snapshot,
}
use project_starfly_fabrics.Signals.Revocation.Expiry.{expired_later}

-- The first entry of a snapshot for a subject.
unfoldable pub first_entry : String → List RevocationEntry → Option RevocationEntry
first_entry subject_id [] = none
first_entry subject_id (entry ∷ entries) =
    if entry.subject_id == subject_id then some entry else first_entry subject_id entries

abbrev pub known_or : Option RevocationEntry → Option RevocationEntry → Option RevocationEntry
known_or (some entry) o = some entry
known_or none o = o

lookup-add_missing :
    (entry : RevocationEntry) (known : Dict RevocationEntry) (j : String)
    → lookup j (add_missing entry known)
      ≡ known_or (lookup j known) (if entry.subject_id == j then some entry else none)
unfolding add_missing
lookup-add_missing entry known j = elim (Bool-cases (entry.subject_id == j)) [
  | inl same ↦
      let here : lookup entry.subject_id known ≡ lookup j known =
        ap (λ k. lookup k known) ((eq_iff entry.subject_id j).0 same) in
      ground (arith, here, same, lookup-insert entry.subject_id j entry known)
  | inr other ↦ ground (arith, other, lookup-insert entry.subject_id j entry known)
]

lookup-merge_entries :
    (entries : List RevocationEntry) (known : Dict RevocationEntry) (j : String)
    → lookup j (merge_entries entries known) ≡ known_or (lookup j known) (first_entry j entries)
unfolding merge_entries first_entry
lookup-merge_entries [] known j = ground arith
lookup-merge_entries (entry ∷ entries) known j = ground (
  arith,
  lookup-merge_entries entries (add_missing entry known) j,
  lookup-add_missing entry known j,
)

-- An import that passes the check of its hash.
imported :
    (o : Option String) (snapshot : RevocationSnapshot) (idx idx' : InMemoryRevocationIndex)
    → check_hash o snapshot idx ≡ ok idx'
    → idx'.entries ≡ merge_entries snapshot.entries idx.entries
imported none snapshot idx idx' h = cc
imported (some digest) snapshot idx idx' h = ground arith

-- After an import a subject's entry is the one that was known, and where none was, the first one of
-- the snapshot: an import removes and changes nothing.
pub import_snapshot-lookup :
    (digest : List RevocationEntry → Option String) (snapshot : RevocationSnapshot)
    (idx idx' : InMemoryRevocationIndex)
    → import_snapshot digest snapshot idx ≡ ok idx'
    → (j : String)
    → lookup j idx'.entries ≡ known_or (lookup j idx.entries) (first_entry j snapshot.entries)
unfolding import_snapshot
import_snapshot-lookup digest snapshot idx idx' h j =
    ap (lookup j) (imported (digest snapshot.entries) snapshot idx idx' h)
    ∙ lookup-merge_entries snapshot.entries idx.entries j

-- A known entry that has expired and was not cleaned up hides whatever a snapshot says about its
-- subject: after the import the subject is not revoked, also where the snapshot revokes it.
pub expired_entry_hides :
    (digest : List RevocationEntry → Option String) (snapshot : RevocationSnapshot)
    (idx idx' : InMemoryRevocationIndex) (now later : ℕ) (j : String) (old : RevocationEntry)
    → import_snapshot digest snapshot idx ≡ ok idx'
    → lookup j idx.entries ≡ some old
    → expired now old ≡ true
    → now ≤ later
    → is_revoked later j idx' ≡ none
unfolding is_revoked
expired_entry_hides digest snapshot idx idx' now later j old h known gone order =
    ap (unless_expired later) (import_snapshot-lookup digest snapshot idx idx' h j)
    ∙ rw (known, expired_later now later old order gone) refl
