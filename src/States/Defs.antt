-- ===== src/States/Defs.antt =====
-- states.py
use garage_pass.Base.{
  Bool, true, false, not, ◌||◌, List, [], ◌∷◌, Option, none, some, Text, codes, text_eq, ltb, any,
  is_empty, if◌then◌else◌,
}
use garage_pass.Findings.{Code, Field}
use garage_pass.Result.{Result, ok, raise, refuse_if, ◌>>◌}
use garage_pass.Platform.{Day, Instant, strip}
use garage_pass.Passes.{State, Pass, StateChange}
use garage_pass.Terms.{Terms}

-- The value of the enumeration, as it is stored and shown.
abbrev pub state_value : State → Text
state_value State.draft = codes "draft"
state_value State.awaiting_enrolment = codes "awaiting_enrolment"
state_value State.active = codes "active"
state_value State.suspended = codes "suspended"
state_value State.revoked = codes "revoked"

-- the constant EXPIRED of passes.py
abbrev pub expired_value : Text
expired_value = codes "expired"

-- ALLOWED_TRANSITIONS
unfoldable pub allowed_transitions : State → List State
allowed_transitions State.draft = State.awaiting_enrolment ∷ State.active ∷ State.revoked ∷ []
allowed_transitions State.awaiting_enrolment = State.active ∷ State.revoked ∷ []
allowed_transitions State.active = State.suspended ∷ State.revoked ∷ []
allowed_transitions State.suspended = State.active ∷ State.revoked ∷ []
allowed_transitions State.revoked = []

abbrev pub same_state : State → State → Bool
same_state State.draft State.draft = true
same_state State.awaiting_enrolment State.awaiting_enrolment = true
same_state State.active State.active = true
same_state State.suspended State.suspended = true
same_state State.revoked State.revoked = true
same_state _ _ = false

-- `State(name)`: the member of that value
abbrev pub state_named : Text → Result State
state_named name =
    if text_eq name (state_value State.draft)
    then ok State.draft
    else if text_eq name (state_value State.awaiting_enrolment)
    then ok State.awaiting_enrolment
    else if text_eq name (state_value State.active)
    then ok State.active
    else if text_eq name (state_value State.suspended)
    then ok State.suspended
    else if text_eq name (state_value State.revoked)
    then ok State.revoked
    else raise Code.state_unknown Field.state

-- `parse_state`
unfoldable pub parse_state : Text → Result State
parse_state name =
    if text_eq name expired_value
    then raise Code.expired_is_derived Field.state
    else state_named name

-- What the access call reads: a typed state, or the derived one.
pub data Effective : Type 0 where
  typed : State → Effective
  expired : Effective

abbrev pub is_past : Option Terms → Day → Bool
is_past none today = false
is_past (some t) today = elim t.valid_to [ none ↦ false | some last ↦ ltb last today ]

-- `effective_state`
unfoldable pub effective_state : Pass → Day → Effective
effective_state p today =
    if same_state p.state State.revoked
    then typed State.revoked
    else if is_past p.terms today
    then expired
    else typed p.state

abbrev pub is_blank : Text → Bool
is_blank text = is_empty (strip text)

-- `transition`
unfoldable pub transition : Pass → State → Text → Instant → Text → Result (Pass × StateChange)
unfolding allowed_transitions
transition p to by at reason = do
  refuse_if (is_blank by || is_blank reason) Code.state_change_needs_who_and_why
      (if is_blank by then Field.changed_by else Field.reason)
  refuse_if (same_state p.state State.revoked) Code.revoked_is_terminal Field.state
  refuse_if (not (any (same_state to) (allowed_transitions p.state)))
      Code.state_transition_not_allowed Field.state
  ok (
    record p { state = to },
    record {
      pass_id = p.id;
      from_state = p.state;
      to_state = to;
      changed_by = strip by;
      changed_at = at;
      reason = strip reason;
    },
  )
