-- ===== src/Findings.antt =====
-- findings.py: the registry of refusals, reasons, meanings and missing fields. The sentences of
-- the registry are prose and have no part in a decision; the codes and the named fields have.
use garage_pass.Base.{ℕ}

-- The registered refusals, in the order of the file.
pub data Code : Type 0 where
  valid_to_before_valid_from window_has_no_days window_day_unknown : Code
  window_minute_out_of_range window_ends_before_it_starts window_never_occurs : Code
  max_stay_not_positive visit_allowance_not_positive : Code
  allowance_per_window_without_windows no_directions lanes_stated_but_empty : Code
  lane_name_blank field_blank holder_email_malformed unknown_field state_unknown : Code
  state_transition_not_allowed revoked_is_terminal expired_is_derived : Code
  state_change_needs_who_and_why repair_needs_who_and_why vehicle_on_another_pass : Code
  pass_not_registrable registration_outlives_the_pass : Code
  registration_ends_before_it_starts registration_not_found : Code
  registration_already_ended pass_not_found garage_not_found pass_already_exists : Code
  garage_already_exists timezone_unknown document_unreadable garage_mismatch : Code
  no_open_visit visit_already_open exit_before_entry constraint field_wrong_type : Code
  tenant_not_found enrols_at_contradicts_transient where_to_enrol_unstated : Code
  enrolment_at_wrong_end days_valid_not_stated days_valid_not_positive : Code
  enrolment_expired_is_derived credential_unknown credential_already_used : Code
  credential_cancelled credential_expired credential_not_started : Code
  credential_already_exists lane_outside_the_pass_terms : Code
  direction_outside_the_pass_terms text_has_control_characters pass_names_no_garage : Code
  lanes_not_stated_for_garage lanes_at_a_garage_the_pass_does_not_name : Code
  lanes_garage_repeated credential_wrong_car credential_exit_only : Code
  credential_stay_ended credential_already_replaced credential_not_bound : Code
  plate_not_stated match_decided_by_unknown : Code

-- The field that a refusal names. A list position is the `[i]` of the source's field text.
pub data Field : Type 0 where
  valid_to max_stay allowance_count allowance_per directions allowed_lanes : Field
  window_days window_start_minute window_end_minute : ℕ → Field
  lanes_garage_id lanes_lanes : ℕ → Field
  state changed_by reason holder_email pass_id pass_label pass_garage_ids pass_terms : Field
  garage_id garage_timezone garage_transient_available garage_enrols_at : Field
  visit_garage_id days_valid plate token credential direction lane pass_state : Field
  vehicle_identity exited_at end_day the_pass the_garage at_instant ended_by tenant : Field

-- `Unreadable`, without the sentence.
pub record Unreadable : Type 0 where
  pub code : Code
  pub field : Field

-- The exception `Refused`, without the sentence.
pub record Refused : Type 0 where
  pub code : Code
  pub field : Field

-- `Refused.as_unreadable`
unfoldable pub as_unreadable : Refused → Unreadable
as_unreadable r = record { code = r.code; field = r.field }

-- NOT_COVERED_REASONS
pub data Reason : Type 0 where
  no_pass not_active not_started expired suspended revoked direction_not_allowed : Reason
  wrong_lane outside_window out_of_visits over_max_stay pass_unreadable : Reason
  garage_unreadable blank_identity blank_lane pass_not_handed_in pass_duplicated : Reason
  record_unreadable exit_only : Reason

-- BARRIER_MEANINGS
pub data Means : Type 0 where
  transient_stay nothing_to_admit_as exit_out_of_terms covered : Means

-- The keys of REFUSED_TO_ANSWER: the field that would let the call answer.
pub data Missing : Type 0 where
  transient_mode vehicle_identity lane one_pass timezone unreadable_terms : Missing
  pass_handed_in duplicated_pass_id garage_handed_in duplicated_garage_id : Missing
