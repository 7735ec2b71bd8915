-- ===== src/Store/Tests.antt =====
-- A car whose stay on one pass ends is registered to another, at both of its garages.
use garage_pass.Base.{
  ◌≡◌, refl, sym, ap, ◌∙◌, ◌≢◌, All, In, true, false, [], ◌∷◌, none, some, Text, codes, text_eq,
  text_in, text_leb, ◌+◌, sort_by, arith,
}
use garage_pass.Result.{ok}
use garage_pass.Platform.{strip, lstrip, is_space, is_dash, is_control}
use garage_pass.Localday.{zone}
use garage_pass.Garage.{
  require_text, make_garage, garage_from_stored, refuse_enrols_at_contradiction,
}
use garage_pass.Terms.{
  make_terms, check_terms, check_windows, check_window, days_meet, days_that_occur,
}
use garage_pass.Passes.{make_holder, make_pass, require_garage_ids, refuse_lanes_off_the_pass}
use garage_pass.States.{effective_state}
use garage_pass.Enrolment.{plate_key, unseparated, upper_text, not_part_of_a_plate, read_as_digit}
use garage_pass.Store.Rows.{Db, RegistrationRow, EndedReason, overlaps, conflicts}
use garage_pass.Store.Load.{
  vehicle_key, load_garage, load_readable_garage, load_pass, pass_from_row, readable_pass_from_row,
  garages_of,
}
use garage_pass.Store.Register.{
  Plan, valid_to_of, holders, is_released, is_turned_over, judge_holders, releases, check_target,
  judge,
}
use garage_pass.Store.Write.{
  registered, register_vehicle, turn_over, release, insert_rows, write_plan, still_as_read,
}
use garage_pass.Store.Writing.{IsSound}
use garage_pass.Store.Planned.{IsStored}
use garage_pass.Store.Registered.{register_vehicle-IsSound, register_vehicle-written}
use garage_pass.Sample.{platform, monday}
use garage_pass.Store.Example.{stay, db}

abbrev plan : Plan
plan = record {
  pass_id = codes "p1";
  identity = codes "AB123";
  from = monday;
  end = none;
  ended_reason = none;
  last_day = some (monday + 7);
  garages = codes "g1" ∷ codes "g2" ∷ [];
  turnover = record { id = 0; read_end = some (monday + 1) } ∷ [];
  released = [];
}

is_judged :
    judge platform db (codes "g2") (codes "p1") (codes "ab-123") monday none EndedReason.by_owner
    ≡ ok plan
unfolding judge vehicle_key require_text strip is_space is_control plate_key unseparated
    not_part_of_a_plate load_readable_garage load_garage text_eq garage_from_stored zone
    refuse_enrols_at_contradiction load_pass text_in sort_by text_leb read_as_digit upper_text
    make_garage make_holder make_pass refuse_lanes_off_the_pass require_garage_ids is_dash lstrip
    effective_state garages_of pass_from_row readable_pass_from_row check_target holders is_released
    is_turned_over judge_holders releases overlaps check_terms check_window check_windows days_meet
    days_that_occur make_terms
is_judged = refl

abbrev row_at_garage : Text → RegistrationRow
row_at_garage id = record {
  id = 1;
  garage_id = id;
  pass_id = codes "p1";
  vehicle_identity = codes "AB123";
  effective_day = monday;
  end_day = none;
  ended_reason = none;
}

abbrev written : Db
written = record db {
  registrations =
      record (row_at_garage (codes "g2")) { id = 2 }
      ∷ row_at_garage (codes "g1")
      ∷ record stay { end_day = some monday; ended_reason = some EndedReason.by_next_stay }
      ∷ [];
  next_id = 3;
}

is_written : write_plan plan db ≡ ok written
unfolding write_plan turn_over release insert_rows still_as_read conflicts text_eq overlaps
is_written = refl

sound : IsSound db.next_id db.registrations
sound = record {
  dated = (omega arith, tt);
  one_car = (tt, tt);
  given = (omega arith, tt);
  distinct = (tt, tt);
}

owner_found : valid_to_of db.passes stay.pass_id ≡ some (some (monday + 7))
unfolding text_eq
owner_found = refl

two_garages : codes "g1" ≢ codes "g2"
unfolding text_eq
two_garages e = let same : true ≡ false = ap (λ x. text_eq x (codes "g1")) e in cc

is_stored : IsStored db
is_stored = record {
  sound = sound;
  owned = (λ e. absurd (nowhere (sym owner_found ∙ e)), tt);
  named_once = (((two_garages, tt), (tt, tt)), ((tt, tt), tt));
}
  where
    nowhere : some (some (monday + 7)) ≡ none → ⊥
    nowhere e = cc

register_vehicle-written_example :
    (end : Db) × (register_vehicle platform db
        (codes "g2")
        (codes "p1")
        (codes "ab-123")
        monday
        none
        EndedReason.by_owner
      ≡ ok (registered plan, end))
register_vehicle-written_example =
    register_vehicle-written platform db (codes "g2") (codes "p1") (codes "ab-123") monday none
      EndedReason.by_owner {plan = plan} is_stored is_judged

register_vehicle-IsSound_example :
    (identity : Text) × (vehicle_key platform (codes "ab-123") ≡ ok identity)
    × IsSound written.next_id written.registrations
    × All
        (λ g.
          (r : RegistrationRow) × In r written.registrations
          × (r.garage_id ≡ g)
          × (r.pass_id ≡ codes "p1")
          × (r.vehicle_identity ≡ identity)
          × (r.effective_day ≡ monday)
          × (r.end_day ≡ none))
        (garages_of db (codes "p1"))
    × (written ≡ record db { registrations = written.registrations; next_id = written.next_id })
register_vehicle-IsSound_example =
    register_vehicle-IsSound platform db (codes "g2") (codes "p1") (codes "ab-123") monday none
      EndedReason.by_owner db {plan = plan} {written = written} is_judged sound is_written
