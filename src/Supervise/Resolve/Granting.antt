-- ===== src/Supervise/Resolve/Granting.antt =====
-- Where the merge authority of a delivery comes from.
use horus_harness.Prelude.{
  String, true, Option, none, some, List, [], ◌∷◌, ◌==◌, ◌||◌, ◌≡◌, refl, sym, ap, ◌∙◌, ◌⊎◌, inl,
  inr, In, find?, find?-In, Option-cases, eq_iff, filter,
}
use mathlib.Core.Option.{some-injective}
use mathlib.Core.Path.{subst}
use horus_harness.Calendar.{Calendar}
use horus_harness.Envelope.{Envelope, Disk, Row}
use horus_harness.Prelude.Text.{starts_with}
use horus_harness.Envelope.All.{load_all}
use horus_harness.Envelope.Ledger.{read_ledger}
use horus_harness.Registry.{SessionRecord, Sessions}
use horus_harness.Supervise.Resolve.{
  SupervisionContext, Authority, resolve_context, resolve_deferred, deferred_record, context_of,
  of_matches, context_from_record, context_with, authority_in, find_envelope_for_session, may_merge,
  records_of,
}

module _ (cal : Calendar) (disk : Disk) where
  -- An envelope with merge authority has the session in its ledger.
  abbrev pub IsAuthorized : SupervisionContext → Type 0
  IsAuthorized ctx =
      (e : Envelope) × (row : Row) × In e (load_all cal disk)
      × (e.merge_authority ≡ true)
      × In row (read_ledger disk e.name)
      × (ctx.session_id ≡ some row.session_id)

  authority_in-lem :
      (session_id : String) (es : List Envelope) (a : Authority)
      → authority_in cal disk session_id es ≡ some a
      → In a.envelope es
        × In a.row (read_ledger disk a.envelope.name)
        × (a.row.session_id ≡ session_id)
  unfolding authority_in
  authority_in-lem session_id [] a h = absurd (cc h)
  authority_in-lem session_id (e ∷ es) a h =
      elim (Option-cases (find? (λ row. row.session_id == session_id) (read_ledger disk e.name))) [
        | inl none_found ↦
            let (m, r, s) = authority_in-lem session_id es a (rw none_found at h) in (inr m, r, s)
        | inr (row, found) ↦
            let same = some-injective _ a (rw found at h) in
            let (m, s) =
              find?-In (λ r. r.session_id == session_id) row (read_ledger disk e.name) found in
            subst
              (λ (x : Authority).
                In x.envelope (e ∷ es)
                × In x.row (read_ledger disk x.envelope.name)
                × (x.row.session_id ≡ session_id))
              same (inl refl, m, (eq_iff row.session_id session_id).0 s)
      ]

  context-IsAuthorized :
      (path : Option String) (rec : SessionRecord) (o : Option Authority)
      → find_envelope_for_session cal disk rec.session_id ≡ o
      → may_merge o ≡ true
      → IsAuthorized (context_with path rec o)
  unfolding find_envelope_for_session
  context-IsAuthorized path rec none e h = absurd (cc h)
  context-IsAuthorized path rec (some a) e h =
      let (m, r, s) = authority_in-lem rec.session_id (load_all cal disk) a e in
      (a.envelope, a.row, m, h, r, ap some (sym s))

  matches-IsAuthorized :
      (path : Option String) (cwd target : String) (found : List SessionRecord)
      (ctx : SupervisionContext)
      → of_matches cal disk path cwd target found ≡ some ctx
      → ctx.merge_authority ≡ true
      → IsAuthorized ctx
  unfolding context_from_record
  matches-IsAuthorized path cwd target [] ctx h k =
      absurd (cc ((ap (λ (c : SupervisionContext). c.merge_authority) (some-injective _ ctx h)), k))
  matches-IsAuthorized path cwd target (rec ∷ []) ctx h k =
      let same = some-injective (context_from_record cal disk path rec) ctx h in
      subst IsAuthorized same (
        context-IsAuthorized path rec (find_envelope_for_session cal disk rec.session_id) refl
          (ap (λ (c : SupervisionContext). c.merge_authority) same ∙ k))
  matches-IsAuthorized path cwd target (a ∷ b ∷ rest) ctx h k = absurd (cc h)

  context_of-IsAuthorized :
      (path : Option String) (o : Option SessionRecord) (ctx : SupervisionContext)
      → context_of cal disk path o ≡ some ctx
      → ctx.merge_authority ≡ true
      → IsAuthorized ctx
  unfolding context_from_record
  context_of-IsAuthorized path none ctx h k = absurd (cc h)
  context_of-IsAuthorized path (some rec) ctx h k =
      matches-IsAuthorized path "" "" (rec ∷ []) ctx h k

-- A delivery that has merge authority, whether an id or a prefix of an id resolves to it or a card
-- or a branch that is named in place of one, is of a session that is in the ledger of an envelope on
-- disk that has merge authority.
pub resolve_context_authority :
    (cal : Calendar) (disk : Disk) (sessions : Sessions) (path : Option String)
    (cwd target : String) (card branch : Option String) (ctx : SupervisionContext)
    → (resolve_context cal disk sessions path cwd target ≡ some ctx)
      ⊎ (resolve_deferred cal disk sessions path card branch ≡ some ctx)
    → ctx.merge_authority ≡ true
    → IsAuthorized cal disk ctx
unfolding resolve_context resolve_deferred
resolve_context_authority cal disk sessions path cwd target card branch ctx (inl h) k =
    matches-IsAuthorized cal disk path cwd target
      (filter (λ r. r.session_id == target || starts_with r.session_id target)
        (records_of sessions))
      ctx h k
resolve_context_authority cal disk sessions path cwd target card branch ctx (inr h) k =
    context_of-IsAuthorized cal disk path (deferred_record cal disk sessions card branch) ctx h k
