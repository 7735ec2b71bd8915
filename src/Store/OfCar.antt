-- ===== src/Store/OfCar.antt =====
-- store/records.py: `registrations_of`. The dicts `replaced` and `replaced_at` are found by the pass,
-- so that each is a fold over the QRs of one pass.
use garage_pass.Base.{
  Bool, true, false, not, ◌&&◌, ◌||◌, List, [], ◌∷◌, map, Option, none, some, Text, text_eq, leb,
  filter, any, sort_by, is_some, is_empty, if◌then◌else◌,
}
use garage_pass.Result.{Result, ok, map_all, ◌>>=◌}
use garage_pass.Platform.{Platform, Day, Instant}
use garage_pass.Passes.{Registration}
use garage_pass.Enrolment.{
  CredentialState, CredentialReading, typed, expired, credential_state, plate_key,
}
use garage_pass.Store.Rows.{Db, RegistrationRow, CredentialRow, greatest}

-- `COALESCE(e.plate, e.redeemed_vehicle_identity)`
abbrev pub bound_car : CredentialRow → Option Text
bound_car c = elim c.plate [ some plate ↦ some plate | none ↦ c.redeemed_vehicle_identity ]

-- the QR's car is the car, in the normal form
abbrev pub same_car : Platform → Text → Option Text → Bool
same_car p key none = false
same_car p key (some car) = text_eq (plate_key p car) key

unfoldable pub is_bound_to : Platform → Text → CredentialRow → Bool
is_bound_to p key c = same_car p key (bound_car c)

-- What is read of one QR.
pub record QrRead : Type 0 where
  pub pass_id : Text
  pub exit_only_at : Option Instant
  pub is_live : Bool

abbrev pub not_cancelled : CredentialState → Bool
not_cancelled CredentialState.cancelled = false
not_cancelled _ = true

-- `read == REDEEMED or (read == ISSUED and starts_on <= today)`
abbrev pub live_reading : Day → Day → CredentialReading → Bool
live_reading starts_on today (typed CredentialState.redeemed) = true
live_reading starts_on today (typed CredentialState.issued) = leb starts_on today
live_reading starts_on today (typed CredentialState.cancelled) = false
live_reading starts_on today expired = false

abbrev pub qr_of : CredentialRow → Bool → QrRead
qr_of c live = record { pass_id = c.pass_id; exit_only_at = c.exit_only_at; is_live = live }

abbrev pub read_qr : Option Day → CredentialRow → Result QrRead
read_qr none c = ok (qr_of c (not_cancelled c.state))
read_qr (some today) c = credential_state c.starts_on c.days_valid c.state today >>= λ reading.
    ok (qr_of c (live_reading c.starts_on today reading))

-- `replaced`, of one pass: whether a QR was replaced, and whether another is live
unfoldable pub replaced : Bool × Bool → Text → List QrRead → Bool × Bool
replaced so_far pass_id [] = so_far
replaced so_far pass_id (q ∷ qs) =
    replaced
      (if text_eq q.pass_id pass_id
        then (
          so_far.0 || is_some q.exit_only_at,
          so_far.1 || (q.is_live && not (is_some q.exit_only_at)),
        )
        else so_far)
      pass_id qs

abbrev pub later_of : Option Instant → Instant → Option Instant
later_of none when = some when
later_of (some was) when = some (greatest when was)

abbrev pub latest_with : Option Instant → Option Instant → Option Instant
latest_with so_far none = so_far
latest_with so_far (some when) = later_of so_far when

-- `replaced_at`, of one pass: the latest replacement
unfoldable pub replaced_at_of : Option Instant → Text → List QrRead → Option Instant
replaced_at_of so_far pass_id [] = so_far
replaced_at_of so_far pass_id (q ∷ qs) =
    replaced_at_of (if text_eq q.pass_id pass_id then latest_with so_far q.exit_only_at else so_far)
      pass_id qs

-- `replaced.get(…, (False, False)) == (True, False)`
abbrev pub is_exit_only : Text → List QrRead → Bool
is_exit_only pass_id qs =
    (replaced (false, false) pass_id qs).0 && not (replaced (false, false) pass_id qs).1

abbrev pub registration_of : Text → List QrRead → RegistrationRow → Registration
registration_of key qs row = record {
  pass_id = row.pass_id;
  vehicle_identity = key;
  effective_day = row.effective_day;
  end_day = row.end_day;
  exit_only = is_exit_only row.pass_id qs;
  exit_only_at = if is_exit_only row.pass_id qs then replaced_at_of none row.pass_id qs else none;
}

abbrev pub by_effective_day : RegistrationRow → RegistrationRow → Bool
by_effective_day a b = leb a.effective_day b.effective_day

-- the rows of the car at the garage
unfoldable pub rows_of_car : Db → Text → Text → List RegistrationRow
rows_of_car db garage_id key = sort_by by_effective_day (
    filter
      (λ (r : RegistrationRow). text_eq r.garage_id garage_id && text_eq r.vehicle_identity key)
      db.registrations)

-- the QRs that are bound to the car, on a pass of these rows
abbrev pub is_qr_of : Platform → Text → List RegistrationRow → CredentialRow → Bool
is_qr_of p key rows c =
    any (λ (r : RegistrationRow). text_eq r.pass_id c.pass_id) rows && is_bound_to p key c

-- `registrations_of`
unfoldable pub registrations_of :
    Platform → Db → Text → Text → Option Day → Result (List Registration)
unfolding rows_of_car
registrations_of p db garage_id identity today =
    if is_empty (plate_key p identity)
    then ok []
    else map_all (read_qr today) (
        filter (is_qr_of p (plate_key p identity) (rows_of_car db garage_id (plate_key p identity)))
          db.enrolments)
      >>= λ qs. ok (
          map (registration_of (plate_key p identity) qs)
            (rows_of_car db garage_id (plate_key p identity)))
