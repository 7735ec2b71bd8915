-- ===== src/Access/Defs.antt =====
-- access.py: the question, the answer, and the three ways to answer.
-- The sentences of an answer (`detail`, and the text of `covering_term` and `unmeasured`) are
-- prose: the model keeps what they name as data.
use garage_pass.Base.{ℕ, Bool, true, false, List, [], Option, none, some, Text, ℤ}
use garage_pass.Findings.{Reason, Means, Missing}
use garage_pass.Platform.{Day, Instant, strip}
use garage_pass.Garage.{Garage}
use garage_pass.Terms.{Terms, Window, Direction}
use garage_pass.Passes.{Pass, Registration, Visit}

pub data Outcome : Type 0 where
  covered not_covered refused_to_answer : Outcome

-- The parts of `covering_term`.
pub data Covering : Type 0 where
  the_terms : Terms → Covering
  in_window : Window → Day → Covering
  visit : ℕ → ℤ → Covering
  stayed : ℤ → ℤ → Covering
  stay_unmeasured replacement_unmeasured : Covering

-- What `Answer.unmeasured` names.
pub data Unmeasured : Type 0 where
  max_stay replacement : Unmeasured

-- What a sentence that says INCONSISTENT names.
pub data Inconsistency : Type 0 where
  many_passes : List Text → List Text → Inconsistency
  handed_in_twice : Text → ℕ → Inconsistency
  pass_not_handed_in : Text → Inconsistency

-- `Answer`
pub record Answer : Type 0 where
  pub outcome : Outcome
  pub direction : Direction
  pub vehicle_identity : Text
  pub lane : Text
  pub pass_id : Option Text
  pub pass_label : Option Text
  pub covering_term : Option (List Covering)
  pub reason : Option Reason
  pub missing : Option Missing
  pub means : Option Means
  pub exit_note : Bool
  pub unmeasured : List Unmeasured
  pub inconsistent : List Inconsistency

-- The parameters of `access`. `_require_inputs` holds by type.
pub record Question : Type 0 where
  pub garage : Garage
  pub passes : List Pass
  pub registrations : List Registration
  pub visits : List Visit
  pub vehicle_identity : Text
  pub lane : Text
  pub direction : Direction
  pub at : Instant
  pub garages : List Garage
  pub entered_at : Option Instant

abbrev pub is_exit : Direction → Bool
is_exit Direction.entry = false
is_exit Direction.exit = true

abbrev pub id_of : Option Pass → Option Text
id_of none = none
id_of (some pass) = some pass.id

abbrev pub label_of : Option Pass → Option Text
label_of none = none
label_of (some pass) = some pass.label

-- The helper `refused`. Entry only.
unfoldable pub answer_refused : Question → Missing → Option Pass → Answer
answer_refused q missing pass = record {
  outcome = Outcome.refused_to_answer;
  direction = q.direction;
  vehicle_identity = strip q.vehicle_identity;
  lane = strip q.lane;
  pass_id = id_of pass;
  pass_label = label_of pass;
  covering_term = none;
  reason = none;
  missing = some missing;
  means = none;
  exit_note = is_exit q.direction;
  unmeasured = [];
  inconsistent = [];
}

-- What an uncovered movement means at the barrier. An exit never reads the transient mode.
abbrev pub uncovered_means : Direction → Option Bool → Means
uncovered_means Direction.exit transient = Means.exit_out_of_terms
uncovered_means Direction.entry (some true) = Means.transient_stay
uncovered_means Direction.entry (some false) = Means.nothing_to_admit_as
uncovered_means Direction.entry none = Means.nothing_to_admit_as

-- The helper `not_covered`.
unfoldable pub answer_not_covered : Question → Reason → Option Pass → Answer
answer_not_covered q reason pass = record {
  outcome = Outcome.not_covered;
  direction = q.direction;
  vehicle_identity = strip q.vehicle_identity;
  lane = strip q.lane;
  pass_id = id_of pass;
  pass_label = label_of pass;
  covering_term = none;
  reason = some reason;
  missing = none;
  means = some (uncovered_means q.direction q.garage.transient_available);
  exit_note = is_exit q.direction;
  unmeasured = [];
  inconsistent = [];
}

-- The helper `covered`.
unfoldable pub answer_covered : Question → Pass → List Covering → List Unmeasured → Answer
answer_covered q pass terms unmeasured = record {
  outcome = Outcome.covered;
  direction = q.direction;
  vehicle_identity = strip q.vehicle_identity;
  lane = strip q.lane;
  pass_id = some pass.id;
  pass_label = some pass.label;
  covering_term = some terms;
  reason = none;
  missing = none;
  means = some Means.covered;
  exit_note = is_exit q.direction;
  unmeasured = unmeasured;
  inconsistent = [];
}
