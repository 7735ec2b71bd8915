-- ===== src/Enrolment/Tests.antt =====
-- Plates, credentials and the sample garage's end.
use garage_pass.Base.{
  ◌≡◌, ◌≢◌, refl, ◌↔◌, ◌⊎◌, ◌≤◌, ◌<◌, ◌-◌, ◌+◌, true, false, none, some, Text, All, codes, pos,
  arith, text_eq, text_in,
}
use garage_pass.Result.{Crash, ok, crash}
use garage_pass.Platform.{max_day, strip, lstrip, is_space, is_control}
use garage_pass.Localday.{zone}
use garage_pass.Garage.{EnrolsAt, make_garage, require_text, refuse_enrols_at_contradiction}
use garage_pass.Enrolment.Defs.{
  plate_key, look_alike_key, within_one_difference, Passed, similar_enough, not_part_of_a_plate,
  CredentialState, typed, expired, credential_state, credential_value, parse_credential_state,
  require_days_valid, where_enrolment_happens,
}
use garage_pass.Enrolment.Edits.{OneEdit, within_one_difference-OneEdit}
use garage_pass.Enrolment.Plates.{plate_key_normal, look_alike_key_normal}
use garage_pass.Enrolment.Similar.{
  Passes, similar_enough-Passes, similar_enough-none, similar_enough_spelling,
}
use garage_pass.Enrolment.Credentials.{
  credential_state_lem, require_days_valid_iff, parse_credential_state_iff,
  where_enrolment_happens_iff,
}
use garage_pass.Sample.{platform, garage, monday}

abbrev read : Text
read = codes "a8c-123"

abbrev plate : Text
plate = codes "ABC 123"

similar_enough-Passes_example :
    (similar_enough platform (some read) plate ≡ some Passed.look_alike_plate)
    ↔ Passes platform Passed.look_alike_plate read plate
similar_enough-Passes_example = similar_enough-Passes platform read plate Passed.look_alike_plate

similar_enough-none_example :
    (similar_enough platform (some read) plate ≡ none)
    ↔ ((by : Passed) → ¬ Passes platform by read plate)
similar_enough-none_example = similar_enough-none platform read plate

similar_enough_spelling_example :
    similar_enough platform (some (plate_key platform read)) (plate_key platform plate)
    ≡ similar_enough platform (some read) plate
similar_enough_spelling_example = similar_enough_spelling platform read plate

within_one_difference-OneEdit_example :
    (within_one_difference (codes "A8C123") (codes "A8C1Z3") ≡ true)
    ↔ OneEdit (codes "A8C123") (codes "A8C1Z3")
within_one_difference-OneEdit_example =
    within_one_difference-OneEdit (codes "A8C123") (codes "A8C1Z3")

plate_key_normal_example :
    (plate_key platform (plate_key platform plate) ≡ plate_key platform plate)
    × All
        (λ c. (not_part_of_a_plate c ≡ false) × (c ≢ b'O') × (c ≢ b'I'))
        (plate_key platform plate)
plate_key_normal_example = plate_key_normal platform plate

look_alike_key_normal_example :
    (look_alike_key platform (plate_key platform plate) ≡ look_alike_key platform plate)
    × (look_alike_key platform (look_alike_key platform plate) ≡ look_alike_key platform plate)
look_alike_key_normal_example = look_alike_key_normal platform plate

credential_state_lem_example :
    ((credential_state monday 3 CredentialState.issued (monday + 3)
        ≡ ok (typed CredentialState.issued))
      ↔ ((CredentialState.issued ≡ CredentialState.issued)
          × (monday + 3 - monday < 3)
          × (monday + 3 - 1 ≤ max_day)))
    × ((credential_state monday 3 CredentialState.issued (monday + 3) ≡ ok expired)
        ↔ ((CredentialState.issued ≡ CredentialState.issued) × (3 ≤ monday + 3 - monday)))
    × ((credential_state monday 3 CredentialState.issued (monday + 3) ≡ crash Crash.overflow_error)
        ↔ ((CredentialState.issued ≡ CredentialState.issued) × (max_day < monday + 3 - 1)))
    × ((credential_state monday 3 CredentialState.issued (monday + 3)
          ≡ ok (typed CredentialState.redeemed))
        ↔ (CredentialState.issued ≡ CredentialState.redeemed))
    × ((credential_state monday 3 CredentialState.issued (monday + 3)
          ≡ ok (typed CredentialState.cancelled))
        ↔ (CredentialState.issued ≡ CredentialState.cancelled))
credential_state_lem_example =
    credential_state_lem monday 3 CredentialState.issued (monday + 3) (omega arith) (omega arith)
      (omega arith) (omega arith)

require_days_valid_iff_example :
    (require_days_valid (some (pos 3)) ≡ ok 3) ↔ ((1 ≤ 3) × (some (pos 3) ≡ some (pos 3)))
require_days_valid_iff_example = require_days_valid_iff (some (pos 3)) 3

parse_credential_state_iff_example :
    (parse_credential_state (codes "issued") ≡ ok CredentialState.issued)
    ↔ (codes "issued" ≡ credential_value CredentialState.issued)
parse_credential_state_iff_example =
    parse_credential_state_iff (codes "issued") CredentialState.issued

garage_is_made : make_garage platform garage ≡ ok garage
unfolding make_garage zone text_in text_eq require_text refuse_enrols_at_contradiction strip lstrip
    is_space is_control
garage_is_made = refl

where_enrolment_happens_iff_example : (where_enrolment_happens garage ≡ ok EnrolsAt.exit) ↔ (
    ((garage.enrols_at ≡ some EnrolsAt.exit) × (garage.transient_available ≢ none))
    ⊎ ((garage.enrols_at ≡ none)
        × (garage.transient_available ≡ some false)
        × (EnrolsAt.exit ≡ EnrolsAt.entry)))
where_enrolment_happens_iff_example =
    where_enrolment_happens_iff platform garage {g = garage} EnrolsAt.exit garage_is_made
