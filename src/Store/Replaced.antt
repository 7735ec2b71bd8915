-- ===== src/Store/Replaced.antt =====
-- A car that was replaced on its pass, and whose other QR is past its days.
use garage_pass.Base.{◌≡◌, refl, ◌≢◌, ◌⊎◌, [], ◌∷◌, true, none, some, codes, text_eq, sort_by, ◌-◌}
use garage_pass.Result.{ok}
use garage_pass.Passes.{Registration}
use garage_pass.Enrolment.{
  CredentialState, credential_state, last_day, plate_key, unseparated, not_part_of_a_plate,
  read_as_digit,
}
use garage_pass.Platform.{is_space, is_dash}
use garage_pass.Store.Rows.{Db, CredentialRow}
use garage_pass.Store.OfCar.{is_bound_to, replaced, replaced_at_of, rows_of_car, registrations_of}
use garage_pass.Store.CarRegistrations.{ReadsCar, registrations_of-ReadsCar}
use garage_pass.Store.Example.{stay, db}
use garage_pass.Sample.{platform, monday, hour}

-- The QR of the car that was replaced at nine.
abbrev replaced_qr : CredentialRow
replaced_qr = record {
  external_id = codes "q1";
  pass_id = codes "p2";
  state = CredentialState.redeemed;
  starts_on = monday - 3;
  days_valid = 30;
  plate = some (codes "AB123");
  redeemed_vehicle_identity = some (codes "AB123");
  exit_only_at = some (hour 9);
  cancellation = none;
}

-- An older QR, never used, of three days.
abbrev old_qr : CredentialRow
old_qr = record {
  external_id = codes "q0";
  pass_id = codes "p2";
  state = CredentialState.issued;
  starts_on = monday - 3;
  days_valid = 3;
  plate = some (codes "AB123");
  redeemed_vehicle_identity = none;
  exit_only_at = none;
  cancellation = none;
}

abbrev with_qrs : Db
with_qrs = record db { enrolments = replaced_qr ∷ old_qr ∷ [] }

abbrev exit_only : Registration
exit_only = record {
  pass_id = codes "p2";
  vehicle_identity = codes "AB123";
  effective_day = stay.effective_day;
  end_day = stay.end_day;
  exit_only = true;
  exit_only_at = some (hour 9);
}

reads :
    registrations_of platform with_qrs (codes "g1") (codes "ab-123") (some monday)
    ≡ ok (exit_only ∷ [])
unfolding registrations_of rows_of_car is_bound_to replaced replaced_at_of credential_state last_day
    sort_by text_eq plate_key unseparated not_part_of_a_plate read_as_digit is_space is_dash
reads = refl

registrations_of-ReadsCar_example :
    ((plate_key platform (codes "ab-123") ≡ []) × ((exit_only ∷ []) ≡ []))
    ⊎ ((plate_key platform (codes "ab-123") ≢ [])
        × ReadsCar platform with_qrs
            (codes "g1")
            (plate_key platform (codes "ab-123"))
            (some monday)
            (exit_only ∷ []))
registrations_of-ReadsCar_example =
    registrations_of-ReadsCar platform with_qrs (codes "g1") (codes "ab-123") (some monday)
      {out = exit_only ∷ []} reads
