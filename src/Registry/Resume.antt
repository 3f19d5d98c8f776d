-- ===== src/Registry/Resume.antt =====
-- `resolve_resume_id` of horus/registry.py: from either id of a session to the one that the agent
-- resumes by.
use horus_harness.Prelude.{
  String, Bool, true, false, Option, none, some, [], ◌∷◌, ◌==◌, ◌≡◌, refl, sym, ◌≢◌, ◌⊎◌, inl, inr,
}
use horus_harness.Prelude.{if◌then◌else◌, Bool-cases, test_of_ne, eq_iff}
use horus_harness.Prelude.Dict
use horus_harness.Prelude.Text.{strip}
use horus_harness.Registry.{Row, Sessions}

-- Why another value is used, or the same; the empty note is `no_note`.
pub data Note : Type 0 where
  no_note : Note
  is_horus_id : String → String → Note
  never_recorded : String → Note
  untracked : String → Note

pub record ResumeResolution : Type 0 where
  pub agent_session_id : String
  pub note : Note
  pub known : Bool

abbrev text_or : Option String → String
text_or none = ""
text_or (some s) = s

-- `str(row.get("agent_session_id") or "").strip()`
unfoldable pub agent_id : Row → String
unfolding strip
agent_id row = strip (text_or row.known.agent_session_id)

unfoldable pub is_agent_id : String → Sessions → Bool
is_agent_id supplied [] = false
is_agent_id supplied ((id, row) ∷ rows) =
    let rest = is_agent_id supplied rows in if agent_id row == supplied then true else rest

abbrev of_row : String → String → ResumeResolution
of_row supplied agent =
    if agent == ""
    then record { agent_session_id = supplied; note = never_recorded supplied; known = true }
    else if agent == supplied
    then record { agent_session_id = supplied; note = no_note; known = true }
    else record { agent_session_id = agent; note = is_horus_id supplied agent; known = true }

abbrev resolve_in : Sessions → String → Option Row → ResumeResolution
resolve_in sessions supplied (some row) = of_row supplied (agent_id row)
resolve_in sessions supplied none =
    if is_agent_id supplied sessions
    then record { agent_session_id = supplied; note = no_note; known = true }
    else record { agent_session_id = supplied; note = untracked supplied; known = false }

abbrev resolve_stripped : Sessions → String → ResumeResolution
resolve_stripped sessions supplied =
    if supplied == ""
    then record { agent_session_id = supplied; note = no_note; known = false }
    else resolve_in sessions supplied (Dict.get supplied sessions)

unfoldable pub resolve_resume_id : Sessions → String → ResumeResolution
unfolding strip is_agent_id agent_id
resolve_resume_id sessions supplied = resolve_stripped sessions (strip supplied)

-- The id of a session that has an agent id is translated to it, whatever other sessions have
-- recorded as their agent ids.
pub resolve_resume_id_tracked :
    (sessions : Sessions) (supplied : String) (row : Row)
    → strip supplied ≢ ""
    → Dict.get (strip supplied) sessions ≡ some row
    → agent_id row ≢ ""
    → ((resolve_resume_id sessions supplied).agent_session_id ≡ agent_id row)
      × ((resolve_resume_id sessions supplied).known ≡ true)
unfolding resolve_resume_id
resolve_resume_id_tracked sessions supplied row given found recorded =
    elim (Bool-cases (agent_id row == strip supplied)) [
      | inl e ↦
          rw (test_of_ne (strip supplied) "" given, found, test_of_ne (agent_id row) "" recorded, e)
            (sym ((eq_iff (agent_id row) (strip supplied)).0 e), refl)
      | inr e ↦
          rw (test_of_ne (strip supplied) "" given, found, test_of_ne (agent_id row) "" recorded, e)
            (refl, refl)
    ]

of_row_known : (s agent : String) → (of_row s agent).known ≡ true
of_row_known s agent = elim (Bool-cases (agent == "")) [
  | inl e ↦ rw e refl
  | inr e ↦ elim (Bool-cases (agent == s)) [ inl e2 ↦ rw (e, e2) refl | inr e2 ↦ rw (e, e2) refl ]
]

-- What an unknown value comes back as, and what it is not.
abbrev IsPassed : Sessions → String → ResumeResolution → Type 0
IsPassed sessions s r =
    (r.agent_session_id ≡ s)
    × ((s ≡ "") ⊎ ((Dict.get s sessions ≡ none) × (is_agent_id s sessions ≡ false)))

resolve_in-IsPassed :
    (sessions : Sessions) (s : String) (o : Option Row)
    → Dict.get s sessions ≡ o
    → (resolve_in sessions s o).known ≡ false
    → IsPassed sessions s (resolve_in sessions s o)
resolve_in-IsPassed sessions s (some row) e h = absurd (cc (of_row_known s (agent_id row), h))
resolve_in-IsPassed sessions s none e h = elim (Bool-cases (is_agent_id s sessions)) [
  | inl b ↦ absurd (cc (rw b at h))
  | inr b ↦ rw b (refl, inr (e, refl))
]

stripped_untracked :
    (sessions : Sessions) (s : String)
    → (resolve_stripped sessions s).known ≡ false
    → IsPassed sessions s (resolve_stripped sessions s)
stripped_untracked sessions s h = elim (Bool-cases (s == "")) [
  | inl e ↦ rw e (refl, inl ((eq_iff s "").0 e))
  | inr e ↦ rw e (resolve_in-IsPassed sessions s (Dict.get s sessions) refl (rw e at h))
]

-- A value that is no session's id and no session's agent id passes through, and is the only kind that
-- is not known, but for the empty text.
pub resolve_resume_id_untracked :
    (sessions : Sessions) (supplied : String)
    → (resolve_resume_id sessions supplied).known ≡ false
    → ((resolve_resume_id sessions supplied).agent_session_id ≡ strip supplied)
      × ((strip supplied ≡ "")
          ⊎ ((Dict.get (strip supplied) sessions ≡ none)
              × (is_agent_id (strip supplied) sessions ≡ false)))
unfolding resolve_resume_id
resolve_resume_id_untracked sessions supplied h = stripped_untracked sessions (strip supplied) h
