-- ===== src/Passes/Defs.antt =====
-- passes.py: the data, with what each `__post_init__` checks.
use garage_pass.Base.{
  Bool, true, false, not, ◌&&◌, List, [], ◌∷◌, Option, none, some, Text, text_in, all, leb, ltb,
  ◌==◌, is_empty, is_none, if◌then◌else◌,
}
use garage_pass.Findings.{Code, Field, Unreadable}
use garage_pass.Result.{Result, Crash, ok, refuse_if, or_crash, map_all, ◌>>=◌, ◌>>◌}
use garage_pass.Platform.{Day, Instant}
use garage_pass.Garage.{require_text}
use garage_pass.Terms.{Terms, GarageLanes}

-- The states somebody types.
pub data State : Type 0 where
  draft awaiting_enrolment active suspended revoked : State

pub record Holder : Type 0 where
  pub email : Text
  pub name : Option Text
  pub phone : Option Text

-- `email.partition("@")`: the text before the first `@` and the text after it, if there is one.
abbrev pub partition_at : Text → Option (Text × Text)
partition_at [] = none
partition_at (c ∷ s) =
    if c == b'@'
    then some ([], s)
    else elim (partition_at s) [ none ↦ none | some (a, b) ↦ some (c ∷ a, b) ]

abbrev pub is_address : Text → Bool
is_address email = elim (partition_at email) [
  | none ↦ false
  | some (name, domain) ↦ not (is_empty name) && not (is_empty domain)
]

-- `Holder.__post_init__`
unfoldable pub make_holder : Holder → Result Holder
make_holder h = do
  email ← require_text h.email Field.holder_email
  refuse_if (not (is_address email)) Code.holder_email_malformed Field.holder_email
  ok (record h { email = email })

-- `require_garage_ids`, of a list of texts
unfoldable pub require_garage_ids : List Text → Result (List Text)
require_garage_ids ids = do
  refuse_if (is_empty ids) Code.pass_names_no_garage Field.pass_garage_ids
  map_all (λ id. require_text id Field.pass_garage_ids) ids

abbrev pub stated_garages : List GarageLanes → List Text
stated_garages [] = []
stated_garages (e ∷ es) = e.garage_id ∷ stated_garages es

-- `refuse_lanes_off_the_pass`: the refusal names the first garage of each difference.
unfoldable pub refuse_lanes_off_the_pass : List Text → Terms → Result (Unit {0})
refuse_lanes_off_the_pass garage_ids t = elim t.allowed_lanes [
  | none ↦ ok tt
  | some es ↦
      refuse_if (not (all (λ g. text_in g garage_ids) (stated_garages es)))
        Code.lanes_at_a_garage_the_pass_does_not_name Field.allowed_lanes
      >> refuse_if (not (all (λ g. text_in g (stated_garages es)) garage_ids))
          Code.lanes_not_stated_for_garage Field.allowed_lanes
]

pub record Pass : Type 0 where
  pub id : Text
  pub garage_ids : List Text
  pub label : Text
  pub holder : Option Holder
  pub terms : Option Terms
  pub state : State
  pub unreadable : Option Unreadable

-- the checks of a pass that is readable: its holder and terms are there
abbrev pub check_readable : Pass → List Text → Result (Unit {0})
check_readable p garage_ids = elim p.unreadable [
  | some _ ↦ ok tt
  | none ↦ or_crash p.holder Crash.type_error >>= λ _.
      or_crash p.terms Crash.type_error >>= refuse_lanes_off_the_pass garage_ids
]

-- `Pass.__post_init__`
unfoldable pub make_pass : Pass → Result Pass
make_pass p = do
  id ← require_text p.id Field.pass_id
  garage_ids ← require_garage_ids p.garage_ids
  label ← require_text p.label Field.pass_label
  check_readable p garage_ids
  ok (record p { id = id; garage_ids = garage_ids; label = label })

pub record Registration : Type 0 where
  pub pass_id : Text
  pub vehicle_identity : Text
  pub effective_day : Day
  pub end_day : Option Day
  pub exit_only : Bool
  pub exit_only_at : Option Instant

abbrev pub before_end : Day → Option Day → Bool
before_end day none = true
before_end day (some end) = ltb day end

-- `Registration.covers`
unfoldable pub covers : Registration → Day → Bool
covers r day = leb r.effective_day day && before_end day r.end_day

pub record Visit : Type 0 where
  pub pass_id : Text
  pub garage_id : Text
  pub vehicle_identity : Text
  pub entry_lane : Text
  pub entered_at : Instant
  pub exited_at : Option Instant
  pub exit_lane : Option Text

-- `Visit.__post_init__`
unfoldable pub make_visit : Visit → Result Visit
make_visit v = do
  garage_id ← require_text v.garage_id Field.visit_garage_id
  ok (record v { garage_id = garage_id })

-- `Visit.is_open`
abbrev pub is_open : Visit → Bool
is_open v = is_none v.exited_at

pub record StateChange : Type 0 where
  pub pass_id : Text
  pub from_state : State
  pub to_state : State
  pub changed_by : Text
  pub changed_at : Instant
  pub reason : Text
