-- ===== src/Envelope/Examples.antt =====
-- An envelope for the card `fix`, three days long, and launches under it.
use horus_harness.Prelude.{◌≡◌, refl, false, none, some, arith}
use horus_harness.Prelude.{List, [], ◌∷◌, ◌≤◌, ◌↔◌, ok, ne_of_test, eq_iff}
use horus_harness.Prelude.Dict
use horus_harness.Prelude.Text.{starts_with, strip}
use horus_harness.Calendar.Strokes.{stroke_calendar as cal}
use horus_harness.Accounts.{AccountRef, label}
use horus_harness.Envelope.{
  Envelope, DispatchRequest, EnvelopeFile, Disk, table, unreadable, fields_of, is_plain, write,
  load, strs,
}
use horus_harness.Envelope.Ledger.{spend}
use horus_harness.Envelope.Wall.{
  Bound, authorized, refused, validate, revoke, Attempt, dispatch_all, attempts_of,
}
use horus_harness.Envelope.Authorized.{IsLive, IsWithin, validate_iff}
use horus_harness.Envelope.Budget.{IsGoverned, attempts_bounded, dispatches_bounded}
use horus_harness.Envelope.Revoked.{revoke_grounds}
use horus_harness.Envelope.Create.{Bounds, create}
use horus_harness.Envelope.Created.{load-create}

abbrev known : List AccountRef
known = record { agent = "claude"; alias = "work" } ∷ []

abbrev bounds : Bounds
bounds = record {
  expires = "///.";
  cards = "fix" ∷ [];
  accounts = "my work account" ∷ [];
  tiers = "sonnet" ∷ "high" ∷ [];
  efforts = [];
  usage_floor = 20;
  max_attempts_per_card = 1;
  max_dispatches_per_day = 2;
  merge_authority = false;
}

abbrev trip : Envelope
trip = record {
  name = "trip";
  created = "/.";
  expires = "///.";
  cards = "fix" ∷ [];
  accounts = "claude-work" ∷ [];
  tiers = "medium" ∷ "high" ∷ [];
  efforts = [];
  usage_floor = 20;
  max_attempts_per_card = 1;
  max_dispatches_per_day = 2;
  merge_authority = false;
  revoked = false;
  revoked_at = "";
}

-- A file whose texts break off is no TOML.
abbrev garbled : Envelope → EnvelopeFile
garbled e = unreadable

abbrev empty : Disk
empty = record { files = []; misread = garbled; ledgers = [] }

abbrev stored : Disk
stored = record {
  files =
      (
        "trip",
        table (record {
          name = some "trip";
          created = some "/.";
          expires = some "///.";
          cards = some ("fix" ∷ []);
          accounts = some ("claude-work" ∷ []);
          tiers = some ("medium" ∷ "high" ∷ []);
          efforts = some [];
          usage_floor = some 20;
          max_attempts_per_card = some 1;
          max_dispatches_per_day = some 2;
          merge_authority = some false;
          revoked = some false;
          revoked_at = some "";
        }),
      )
      ∷ [];
  misread = garbled;
  ledgers = [];
}

created : create cal known empty " trip " bounds 1 ≡ ok (trip, stored)
unfolding create Dict.get Dict.insert
created = refl

loaded : load cal stored "trip" ≡ some trip
unfolding load strs Dict.get
loaded = refl

abbrev request : DispatchRequest
request = record { card = "fix"; account = some "claude-work"; tier = "sonnet"; effort = "high" }

abbrev launch : Attempt cal
launch = record {
  envelope = "trip";
  request = request;
  usage_remaining = some 55;
  session_id = "s1";
  checked_at = 2;
  recorded_at = 2;
}

abbrev launches : List (Attempt cal)
launches = launch ∷ launch ∷ []

-- The second launch finds the attempt spent.
one_spent : attempts_of (spend cal (dispatch_all cal stored launches) "trip" 2) "fix" ≡ 1
unfolding dispatch_all strs spend attempts_of Dict.get Dict.insert starts_with
one_spent = refl

past_expiry : validate cal stored trip request (some 55) 4 ≡ refused Bound.expired
unfolding validate
past_expiry = refl

load-create_example : load cal stored trip.name ≡ some trip
unfolding strip label is_plain
load-create_example =
    load-create cal known empty " trip " bounds 1 created
      ((refl, ne_of_test "claude-work" "" refl), tt) ((refl, ne_of_test "fix" "" refl), tt) tt refl
      refl

validate_iff_example : (validate cal stored trip request (some 55) 2 ≡ authorized) ↔ (
    (trip.revoked ≡ false)
    × IsLive cal trip 2
    × IsWithin trip request (some 55) (spend cal stored "trip" 2))
validate_iff_example = validate_iff cal stored trip request (some 55) 2

governed : IsGoverned cal stored "trip" 1 2
unfolding load Dict.get strip
governed file e l own = (ground (arith, eq_iff "trip" file), ground (arith, eq_iff "trip" file))

attempts_bounded_example :
    attempts_of (spend cal (dispatch_all cal stored launches) "trip" 3) "fix" ≤ 1
unfolding spend attempts_of Dict.get
attempts_bounded_example =
    attempts_bounded cal "trip" "fix" 1 2 stored launches 2 3 (ne_of_test "fix" "" refl) governed
      (omega arith)

dispatches_bounded_example :
    (spend cal (dispatch_all cal stored launches) "trip" 2).dispatches_today ≤ 2
unfolding spend Dict.get
dispatches_bounded_example =
    dispatches_bounded cal "trip" 1 2 stored launches 2 governed (refl, (refl, tt)) (omega arith)

revoke_grounds_example :
    dispatch_all cal (revoke cal stored "trip" 2).1 launches ≡ (revoke cal stored "trip" 2).1
revoke_grounds_example =
    revoke_grounds cal stored "trip" trip 2 launches loaded refl (λ odd f reads. absurd (cc reads))
      (refl, (refl, tt))

-- A card with a quote in its name is written to a file that nothing is read of.
unread : load cal (write empty (record trip { cards = "say \"go\"" ∷ [] })) "trip" ≡ none
unfolding load write Dict.get Dict.insert
unread = refl

abbrev copied : Disk
copied = record { files = ("copy", table (fields_of trip)) ∷ []; misread = garbled; ledgers = [] }

copy_loads : load cal copied "copy" ≡ some trip
unfolding load strs fields_of Dict.get
copy_loads = refl
