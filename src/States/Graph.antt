-- ===== src/States/Graph.antt =====
-- The diagram of states.py as a relation, and `transition` and `parse_state` against it.
use garage_pass.Base.{
  ◌≡◌, refl, ap, ◌≢◌, ◌↔◌, ◌⊎◌, inl, inr, refl, ◌<◌, true, false, Option, none, some, Option-cases,
  Text, text_eq, text_eq_iff, arith, any,
}
use garage_pass.Result.{ok}
use garage_pass.Platform.{Day, Instant, strip}
use garage_pass.Terms.{Terms}
use garage_pass.Passes.{State, Pass, StateChange}
use garage_pass.States.Defs.{
  state_value, expired_value, allowed_transitions, same_state, parse_state, is_blank, transition,
  Effective, typed, expired, is_past, effective_state,
}

-- The arrows of the diagram.
pub data Moves : State → State → Type 0 where
  await : Moves State.draft State.awaiting_enrolment
  open_directly : Moves State.draft State.active
  enrol : Moves State.awaiting_enrolment State.active
  suspend : Moves State.active State.suspended
  resume : Moves State.suspended State.active
  revoke : {s : State} → s ≢ State.revoked → Moves s State.revoked

pub ruleset arrows = (await, open_directly, enrol, suspend, resume, revoke)

not-revoked : (s : State) → same_state s State.revoked ≡ false → s ≢ State.revoked
not-revoked s h e = cc (ap (λ x. same_state x State.revoked) e)

arrow_sound :
    (s t : State)
    → same_state s State.revoked ≡ false
    → any (same_state t) (allowed_transitions s) ≡ true
    → Moves s t
unfolding allowed_transitions
arrow_sound State.draft State.awaiting_enrolment n h = await
arrow_sound State.draft State.active n h = open_directly
arrow_sound State.awaiting_enrolment State.active n h = enrol
arrow_sound State.active State.suspended n h = suspend
arrow_sound State.suspended State.active n h = resume
arrow_sound s State.revoked n h = revoke (not-revoked s n)
arrow_sound _ _ n h = ground arith

arrow_complete :
    {s t : State}
    → Moves s t
    → (same_state s State.revoked ≡ false) × (any (same_state t) (allowed_transitions s) ≡ true)
unfolding allowed_transitions
arrow_complete await = (refl, refl)
arrow_complete open_directly = (refl, refl)
arrow_complete enrol = (refl, refl)
arrow_complete suspend = (refl, refl)
arrow_complete resume = (refl, refl)
arrow_complete (revoke {s = s} n) = ground arith

-- What a transition records.
abbrev pub change_of : Pass → State → Text → Instant → Text → StateChange
change_of p to by at reason = record {
  pass_id = p.id;
  from_state = p.state;
  to_state = to;
  changed_by = strip by;
  changed_at = at;
  reason = strip reason;
}

-- A transition that goes through follows an arrow of the diagram with a stated actor and reason,
-- moves the state and nothing else of the pass, and records both ends of the arrow.
pub transition_sound :
    (p : Pass) (to : State) (by : Text) (at : Instant) (reason : Text) {r : Pass × StateChange}
    → transition p to by at reason ≡ ok r
    → Moves p.state to
      × (is_blank by ≡ false)
      × (is_blank reason ≡ false)
      × (r ≡ (record p { state = to }, change_of p to by at reason))
unfolding transition
transition_sound p to by at reason h = ground (arith, arrow_sound p.state to)

-- Every arrow of the diagram can be taken by an actor who states a reason.
pub transition_complete :
    (p : Pass) (to : State) (by : Text) (at : Instant) (reason : Text)
    → Moves p.state to
    → is_blank by ≡ false
    → is_blank reason ≡ false
    → transition p to by at reason ≡ ok (record p { state = to }, change_of p to by at reason)
unfolding transition
transition_complete p to by at reason m hb hr = ground (arith, arrow_complete m)

parse_state-state_value : (s : State) → parse_state (state_value s) ≡ ok s
unfolding parse_state text_eq
parse_state-state_value State.draft = refl
parse_state-state_value State.awaiting_enrolment = refl
parse_state-state_value State.active = refl
parse_state-state_value State.suspended = refl
parse_state-state_value State.revoked = refl

-- The one state that is not typed has no name that parses, and every typed state has its own.
pub parse_state_iff : (name : Text) (s : State) → (parse_state name ≡ ok s) ↔ (name ≡ state_value s)
unfolding parse_state
parse_state_iff name s = (there s, back s)
  where
    there : (s : State) → parse_state name ≡ ok s → name ≡ state_value s
    there s h = ground (
      arith,
      text_eq_iff name expired_value,
      text_eq_iff name (state_value State.draft),
      text_eq_iff name (state_value State.awaiting_enrolment),
      text_eq_iff name (state_value State.active),
      text_eq_iff name (state_value State.suspended),
      text_eq_iff name (state_value State.revoked),
    )

    back : (s : State) → name ≡ state_value s → parse_state name ≡ ok s
    back s e = rw e (parse_state-state_value s)

-- The terms state a last day, and it is over.
abbrev pub HasEnded : Option Terms → Day → Type 0
HasEnded terms today =
    (t : Terms) × (last : Day) × (terms ≡ some t) × (t.valid_to ≡ some last) × (last < today)

is_past_iff :
    (terms : Option Terms) (today : Day) → (is_past terms today ≡ true) ↔ HasEnded terms today
is_past_iff none today = (λ h. cc, λ (t, last, e, _, _). cc)
is_past_iff (some t) today = elim (Option-cases t.valid_to) [
  | inl e ↦ (λ h. ground (arith, e, h), λ (u, last, k, l, _). ground (arith, e, k, l))
  | inr (last, e) ↦ (
    λ h. (t, last, refl, e, ground (arith, e, h)),
    λ (u, day, k, l, lt). ground (arith, e, k, l, lt),
  )
]

-- What is read of a pass on a day.
abbrev pub Reads : Pass → Day → Effective → Type 0
Reads p today expired = (p.state ≢ State.revoked) × HasEnded p.terms today
Reads p today (typed s) = (p.state ≡ s) × ((s ≡ State.revoked) ⊎ (¬ HasEnded p.terms today))

-- A pass is read as expired exactly when it is not revoked and its stated last day is over; it is
-- read as the state that was typed exactly when that is revoked or no stated last day is over.
pub effective_state_iff :
    (p : Pass) (today : Day) (e : Effective) → (effective_state p today ≡ e) ↔ Reads p today e
unfolding effective_state
effective_state_iff p today expired = ground (arith, is_past_iff p.terms today)
effective_state_iff p today (typed s) = ground (arith, is_past_iff p.terms today)
