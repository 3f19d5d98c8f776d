-- ===== src/Envelope/Revoked.antt =====
-- `revoke` is the owner's kill switch: what it grounds, and what it misses.
use horus_harness.Prelude.{String, ◌≡◌, ◌≢◌, refl, ap, true, false, some, ◌⊎◌, inl, inr, Bool-cases}
use horus_harness.Prelude.{List, [], ◌∷◌, arith, ◌==◌, eq_iff, if◌then◌else◌, All, Option-cases}
use horus_harness.Prelude.Dict.{get-insert}
use horus_harness.Calendar.{Calendar}
use horus_harness.Envelope.{
  Envelope, Disk, Fields, EnvelopeFile, table, unreadable, load, read_fields, read_file, fields_of,
  is_plain, reread, write,
}
use horus_harness.Envelope.Wall.{validate, revoke, Attempt, dispatch, dispatch_all}

pub load-write :
    (cal : Calendar) (disk : Disk) (e : Envelope) (name : String)
    → load cal (write disk e) name
      ≡ (if e.name == name then read_file cal name (some (reread disk e)) else load cal disk name)
unfolding load write
load-write cal disk e name =
    ground (arith, get-insert e.name name (reread disk e) disk.files, eq_iff e.name name)

file_cases : (file : EnvelopeFile) → (file ≡ unreadable) ⊎ ((f : Fields) × (file ≡ table f))
file_cases unreadable = inl refl
file_cases (table f) = inr (f, refl)

-- A table that is marked revoked reads as a revoked envelope, if it reads at all.
read_revoked :
    (cal : Calendar) (name : String) (f : Fields) (e : Envelope)
    → f.revoked ≡ some true
    → read_fields cal name f ≡ some e
    → e.revoked ≡ true
unfolding read_fields
read_revoked cal name f e r h = ground arith

-- What is written of an envelope that is revoked reads as revoked, if it reads at all.
reread-revoked :
    (cal : Calendar) (disk : Disk) (name : String) (e grounded : Envelope)
    → grounded.revoked ≡ true
    → (is_plain grounded ≡ false
        → (f : Fields) → disk.misread grounded ≡ table f
        → f.revoked ≡ some true)
    → read_file cal name (some (reread disk grounded)) ≡ some e
    → e.revoked ≡ true
unfolding read_file fields_of
reread-revoked cal disk name e grounded r garbled h = elim (Bool-cases (is_plain grounded)) [
  | inl plain ↦ read_revoked cal name (fields_of grounded) e (ap some r) (rw plain at h)
  | inr odd ↦ elim (file_cases (disk.misread grounded)) [
    | inl bad ↦ absurd (cc (rw (odd, bad) at h))
    | inr (f, reads) ↦ read_revoked cal name f e (garbled odd f reads) (rw (odd, reads) at h)
  ]
]

dispatch-revoked :
    (cal : Calendar) (disk : Disk) (a : Attempt cal)
    → ((e : Envelope) → load cal disk a.envelope ≡ some e → e.revoked ≡ true)
    → dispatch cal disk a ≡ disk
unfolding dispatch validate
dispatch-revoked cal disk a r = elim (Option-cases (load cal disk a.envelope)) [
  | inl missing ↦ rw (missing, dispatch) refl
  | inr (e, found) ↦ rw (found, r e found, dispatch, validate) refl
]

dispatch_all-revoked :
    (cal : Calendar) (disk : Disk) (name : String) (launches : List (Attempt cal))
    → ((e : Envelope) → load cal disk name ≡ some e → e.revoked ≡ true)
    → All (λ a. a.envelope ≡ name) launches
    → dispatch_all cal disk launches ≡ disk
unfolding dispatch_all
dispatch_all-revoked cal disk name [] r same = refl
dispatch_all-revoked cal disk name (a ∷ rest) r (s, same) =
    rw (dispatch-revoked cal disk a (λ e l. r e (rw s at l)))
      (dispatch_all-revoked cal disk name rest r same)

revoke_writes :
    (cal : Calendar) (disk : Disk) (name : String) (e : Envelope) (now : cal.Instant)
    → load cal disk name ≡ some e
    → (revoke cal disk name now).1
      ≡ write disk (record e { revoked = true; revoked_at = cal.stamp now })
unfolding revoke
revoke_writes cal disk name e now l = rw (l, revoke) refl

-- From the moment an envelope that is stored under its own name is revoked, no launch under it is
-- recorded: all of them leave the files and the ledgers as the revocation left them. Where a text of
-- the envelope is one that TOML does not read as it was written, this takes that its file, if it
-- reads at all, still reads as revoked.
pub revoke_grounds :
    (cal : Calendar) (disk : Disk) (name : String) (e : Envelope) (now : cal.Instant)
    (launches : List (Attempt cal))
    → load cal disk name ≡ some e
    → e.name ≡ name
    → (is_plain (record e { revoked = true; revoked_at = cal.stamp now }) ≡ false
        → (f : Fields)
        → disk.misread (record e { revoked = true; revoked_at = cal.stamp now }) ≡ table f
        → f.revoked ≡ some true)
    → All (λ a. a.envelope ≡ name) launches
    → dispatch_all cal (revoke cal disk name now).1 launches ≡ (revoke cal disk name now).1
revoke_grounds cal disk name e now launches l own garbled same =
    let grounded : Envelope = record e { revoked = true; revoked_at = cal.stamp now } in
    rw (revoke_writes cal disk name e now l) (
      dispatch_all-revoked cal (write disk grounded) name launches
        (λ e' l'.
          reread-revoked cal disk name e' grounded refl garbled
            (ground (arith, load-write cal disk grounded name, eq_iff e.name name)))
        same)

-- Where a file is stored under another name than the one that it gives, revoking it by the name of
-- the file leaves that file, and the envelope that is read of it, as they were.
pub revoke_misses :
    (cal : Calendar) (disk : Disk) (name : String) (e : Envelope) (now : cal.Instant)
    → load cal disk name ≡ some e
    → e.name ≢ name
    → load cal (revoke cal disk name now).1 name ≡ some e
revoke_misses cal disk name e now l other =
    let grounded = record e { revoked = true; revoked_at = cal.stamp now } in
    rw (revoke_writes cal disk name e now l)
      (ground (arith, load-write cal disk grounded name, eq_iff e.name name))
