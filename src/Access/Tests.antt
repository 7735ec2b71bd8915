-- ===== src/Access/Tests.antt =====
-- Runs of the call on the sample garage.
use garage_pass.Base.{
  ◌≡◌, refl, ◌↔◌, inl, true, false, [], ◌∷◌, Option, none, some, In, is_empty, pos, codes, text_eq,
  text_in, text_leb, sort_by,
}
use garage_pass.Findings.{Reason, Means}
use garage_pass.Result.{Result, ok}
use garage_pass.Localday.{zone, day_of, elapsed, iso_weekday_of, minute_of_day}
use garage_pass.Platform.{Zone, strip, lstrip, is_space, is_dash, iso_weekday}
use garage_pass.Terms
use garage_pass.Terms.{Direction}
use garage_pass.Access
use garage_pass.Enrolment.{plate_key, unseparated, not_part_of_a_plate, read_as_digit, upper_text}
use garage_pass.States.{effective_state}
use garage_pass.Access.Built.{IsBuilt, HasClock}
use garage_pass.Passes.{State, covers}
use garage_pass.Terms.Spec.{IsConsistent}
use garage_pass.Terms.Check.{make_terms-IsConsistent}
use garage_pass.Access.Shape.{IsAnswer}
use garage_pass.Access.Answered.{access-IsAnswer}
use garage_pass.Access.Entitled.{IsEntitled}
use garage_pass.Access.Entitling.{covering}
use garage_pass.Access.Covered.{evaluate-IsEntitled}
use garage_pass.Access.LetOut.{access-lets_out}
use garage_pass.Access.Justified.{movement, IsJustified}
use garage_pass.Access.Admitted.{access-IsJustified}
use garage_pass.Sample.{
  platform, utc, hour, monday, entering, leaving, visit, pass, registration, garage, office_hours,
  terms, checked,
}

abbrev outcome : Result Access.Answer → Option Access.Outcome
outcome (ok a) = some a.outcome
outcome _ = none

abbrev reason : Result Access.Answer → Option Reason
reason (ok a) = a.reason
reason _ = none

-- The call on the sample machine, open for the tests.
run : Access.Question → Result Access.Answer
unfolding Access.access zone text_eq strip is_space Access.registrations_dangling Access.place
    Access.same_vehicle plate_key unseparated not_part_of_a_plate read_as_digit Access.is_duplicated
    Access.by_id text_in Access.duplicated_named sort_by Access.effective Access.answer_covered
    Access.answer_not_covered Access.answer_refused Access.answer_no_registration
    Access.answer_on_clock Access.answer_selected Access.answer_several Access.candidates
    Access.candidates_of Access.copy_order Access.inconsistencies Access.nearest Access.settle
    Access.evaluate Access.evaluate_allowance Access.evaluate_end Access.evaluate_lane
    Access.evaluate_replacement Access.evaluate_state Access.evaluate_stay Access.evaluate_window
    Access.exit_only_on Access.is_inside Access.replaced_at Access.replaced_from
    Access.replacement_of Access.copies_of Access.registrations_here Access.clock_at
    Access.count_in_window Access.latest Access.open_visit Access.visits_used text_leb upper_text
    day_of elapsed iso_weekday_of minute_of_day covers is_dash iso_weekday lstrip effective_state
    Terms.direction_in Terms.lanes_at
run q = Access.access platform q

enters : outcome (run entering) ≡ some Access.covered
unfolding run
enters = refl

leaves : outcome (run leaving) ≡ some Access.covered
unfolding run
leaves = refl

-- The second entry in one window.
enters_again :
    reason (run (record entering { visits = visit ∷ []; at = hour 11 })) ≡ some Reason.out_of_visits
unfolding run
enters_again = refl

-- An hour after the longest stay.
leaves_late : reason (run (record leaving { at = hour 14 })) ≡ some Reason.over_max_stay
unfolding run
leaves_late = refl

-- A copy that does not name this garage covers an exit of the pass that was handed in twice.
leaves_on_a_copy :
    outcome (
      run (record leaving {
        passes =
            record pass { state = State.revoked }
            ∷ record pass { garage_ids = codes "g2" ∷ [] }
            ∷ [];
      }))
    ≡ some Access.covered
unfolding run
leaves_on_a_copy = refl

abbrev admitted : Access.Answer
admitted = record {
  outcome = Access.covered;
  direction = Direction.entry;
  vehicle_identity = codes "ab 123";
  lane = codes "north";
  pass_id = some (codes "p1");
  pass_label = some (codes "office");
  covering_term =
      some (
        Access.the_terms terms
        ∷ Access.in_window office_hours monday
        ∷ Access.visit 1 (pos 1)
        ∷ []);
  reason = none;
  missing = none;
  means = some Means.covered;
  exit_note = false;
  unmeasured = [];
  inconsistent = [];
}

entered : Access.access platform entering ≡ ok admitted
unfolding run
entered = refl

garage-HasClock : HasClock platform garage
unfolding zone text_eq text_in
garage-HasClock e = (utc, refl)

terms-IsConsistent : IsConsistent terms
terms-IsConsistent = (make_terms-IsConsistent terms {t' = terms} checked).1

built : IsBuilt platform leaving
built = record {
  clock = garage-HasClock;
  clocks = (garage-HasClock, tt);
  terms = (λ e. (terms, refl, terms-IsConsistent), tt);
}

access-IsAnswer_example :
    (a : Access.Answer) × (Access.access platform leaving ≡ ok a) × IsAnswer leaving a
access-IsAnswer_example = access-IsAnswer platform leaving built

access-IsJustified_example :
    (tz : Zone) × (garage.unreadable ≡ none)
    × (zone platform garage.timezone ≡ ok tz)
    × IsJustified platform entering tz admitted
access-IsJustified_example = access-IsJustified platform entering entered refl

evaluate-IsEntitled_example :
    (covering (Access.evaluate platform (movement platform entering utc) pass) ≡ true)
    ↔ IsEntitled platform (movement platform entering utc) pass
evaluate-IsEntitled_example = evaluate-IsEntitled platform (movement platform entering utc) pass

leaving_entitled : covering (Access.evaluate platform (movement platform leaving utc) pass) ≡ true
unfolding Access.access zone text_eq strip is_space Access.registrations_dangling Access.place
    Access.same_vehicle plate_key unseparated not_part_of_a_plate read_as_digit Access.is_duplicated
    Access.by_id text_in Access.duplicated_named sort_by Access.effective Access.answer_covered
    Access.answer_not_covered Access.answer_refused Access.answer_no_registration
    Access.answer_on_clock Access.answer_selected Access.answer_several Access.candidates
    Access.candidates_of Access.copy_order Access.inconsistencies Access.nearest Access.settle
    Access.evaluate Access.evaluate_allowance Access.evaluate_end Access.evaluate_lane
    Access.evaluate_replacement Access.evaluate_state Access.evaluate_stay Access.evaluate_window
    Access.exit_only_on Access.is_inside Access.replaced_at Access.replaced_from
    Access.replacement_of Access.copies_of Access.registrations_here Access.clock_at
    Access.count_in_window Access.latest Access.open_visit Access.visits_used text_leb upper_text
    day_of elapsed iso_weekday_of minute_of_day covers is_dash iso_weekday lstrip effective_state
    Terms.direction_in Terms.lanes_at
leaving_entitled = refl

leaving_in_force : In registration (Access.effective platform leaving (day_of leaving.at utc))
unfolding Access.access zone text_eq strip is_space Access.registrations_dangling Access.place
    Access.same_vehicle plate_key unseparated not_part_of_a_plate read_as_digit Access.is_duplicated
    Access.by_id text_in Access.duplicated_named sort_by Access.effective Access.answer_covered
    Access.answer_not_covered Access.answer_refused Access.answer_no_registration
    Access.answer_on_clock Access.answer_selected Access.answer_several Access.candidates
    Access.candidates_of Access.copy_order Access.inconsistencies Access.nearest Access.settle
    Access.evaluate Access.evaluate_allowance Access.evaluate_end Access.evaluate_lane
    Access.evaluate_replacement Access.evaluate_state Access.evaluate_stay Access.evaluate_window
    Access.exit_only_on Access.is_inside Access.replaced_at Access.replaced_from
    Access.replacement_of Access.copies_of Access.registrations_here Access.clock_at
    Access.count_in_window Access.latest Access.open_visit Access.visits_used text_leb upper_text
    day_of elapsed iso_weekday_of minute_of_day covers is_dash iso_weekday lstrip effective_state
    Terms.direction_in Terms.lanes_at
leaving_in_force = inl refl

leaving_brings : Access.by_id leaving (codes "p1") ≡ some pass
unfolding Access.access zone text_eq strip is_space Access.registrations_dangling Access.place
    Access.same_vehicle plate_key unseparated not_part_of_a_plate read_as_digit Access.is_duplicated
    Access.by_id text_in Access.duplicated_named sort_by Access.effective Access.answer_covered
    Access.answer_not_covered Access.answer_refused Access.answer_no_registration
    Access.answer_on_clock Access.answer_selected Access.answer_several Access.candidates
    Access.candidates_of Access.copy_order Access.inconsistencies Access.nearest Access.settle
    Access.evaluate Access.evaluate_allowance Access.evaluate_end Access.evaluate_lane
    Access.evaluate_replacement Access.evaluate_state Access.evaluate_stay Access.evaluate_window
    Access.exit_only_on Access.is_inside Access.replaced_at Access.replaced_from
    Access.replacement_of Access.copies_of Access.registrations_here Access.clock_at
    Access.count_in_window Access.latest Access.open_visit Access.visits_used text_leb upper_text
    day_of elapsed iso_weekday_of minute_of_day covers is_dash iso_weekday lstrip effective_state
    Terms.direction_in Terms.lanes_at
leaving_brings = refl

leaving_identity : is_empty (strip leaving.vehicle_identity) ≡ false
unfolding strip lstrip is_space
leaving_identity = refl

leaving_lane : is_empty (strip leaving.lane) ≡ false
unfolding strip lstrip is_space
leaving_lane = refl

leaving_clock : zone platform garage.timezone ≡ ok utc
unfolding zone text_eq text_in
leaving_clock = refl

access-lets_out_example :
    (a : Access.Answer) × (Access.access platform leaving ≡ ok a) × (a.outcome ≡ Access.covered)
access-lets_out_example =
    access-lets_out platform leaving utc registration pass built refl refl leaving_clock
      leaving_identity leaving_lane leaving_in_force (inl leaving_brings)
      ((evaluate-IsEntitled platform (movement platform leaving utc) pass).0 leaving_entitled)
