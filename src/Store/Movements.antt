-- ===== src/Store/Movements.antt =====
-- A car enters on a pass and leaves again.
use garage_pass.Base.{
  ◌≡◌, refl, [], ◌∷◌, none, some, Text, codes, text_eq, text_in, text_leb, sort_by, arith,
}
use garage_pass.Findings.{Field}
use garage_pass.Result.{ok}
use garage_pass.Platform.{strip, lstrip, is_space, is_dash, is_control}
use garage_pass.Localday.{zone}
use garage_pass.Garage.{
  require_text, make_garage, garage_from_stored, refuse_enrols_at_contradiction,
}
use garage_pass.Terms.{
  make_terms, check_terms, check_windows, check_window, days_meet, days_that_occur,
}
use garage_pass.Passes.{make_holder, make_pass, require_garage_ids, refuse_lanes_off_the_pass}
use garage_pass.Enrolment.{plate_key, unseparated, upper_text, not_part_of_a_plate, read_as_digit}
use garage_pass.Store.Rows.{Db, VisitRow, same_stay}
use garage_pass.Store.Load.{
  vehicle_key, load_garage, load_readable_garage, load_pass, pass_from_row, readable_pass_from_row,
}
use garage_pass.Store.Ledger.{
  open_visit, Recorded, entry_row, insert_visit, record_entry, close_at, record_exit,
}
use garage_pass.Store.Visits.{IsOrderly, record_entry-IsOrderly}
use garage_pass.Store.Exits.{ClosesStay, record_exit-ClosesStay}
use garage_pass.Store.Example.{db}
use garage_pass.Sample.{platform, hour}

abbrev open_stay : VisitRow
open_stay = entry_row 1 (codes "g1") (codes "p1") (codes "AB123") (codes "north") (hour 9)

abbrev entered : Db
entered = record db { visits = open_stay ∷ []; next_id = 2 }

abbrev left : Db
left = record entered { visits = close_at (hour 12) (codes "south") open_stay ∷ [] }

abbrev entry : Recorded
entry = record {
  pass_id = codes "p1";
  vehicle_identity = codes "AB123";
  entered_at = hour 9;
  exited_at = none;
  lane = codes "north";
}

enters :
    record_entry platform db (codes "g1") (codes "p1") (codes "ab-123") (codes "north") (hour 9)
    ≡ ok (entry, entered)
unfolding record_entry insert_visit open_visit same_stay vehicle_key require_text strip is_space
    is_control plate_key unseparated not_part_of_a_plate load_readable_garage load_garage text_eq
    garage_from_stored zone refuse_enrols_at_contradiction load_pass text_in sort_by text_leb
    read_as_digit upper_text make_garage make_holder make_pass refuse_lanes_off_the_pass
    require_garage_ids is_dash lstrip pass_from_row readable_pass_from_row check_terms check_window
    check_windows days_meet days_that_occur make_terms
enters = refl

leaves :
    record_exit platform entered
      (codes "g1")
      (codes "p1")
      (codes "AB 123")
      (codes "south")
      (hour 12)
    ≡ ok (record entry { exited_at = some (hour 12); lane = codes "south" }, left)
unfolding record_exit open_visit same_stay vehicle_key require_text strip is_space is_control
    plate_key unseparated not_part_of_a_plate load_readable_garage load_garage text_eq
    garage_from_stored zone refuse_enrols_at_contradiction load_pass text_in sort_by text_leb
    read_as_digit upper_text make_garage make_holder make_pass refuse_lanes_off_the_pass
    require_garage_ids is_dash lstrip pass_from_row readable_pass_from_row check_terms check_window
    check_windows days_meet days_that_occur make_terms
leaves = refl

no_visits : IsOrderly db.next_id db.visits
no_visits = record { one_open = tt; in_time = tt; given = tt; distinct = tt }

one_visit : IsOrderly entered.next_id entered.visits
one_visit = record {
  one_open = (tt, tt);
  in_time = (λ exited e. cc, tt);
  given = (omega arith, tt);
  distinct = (tt, tt);
}

record_entry-IsOrderly_example :
    (identity : Text) × (entry_lane : Text) × (vehicle_key platform (codes "ab-123") ≡ ok identity)
    × (require_text (codes "north") Field.lane ≡ ok entry_lane)
    × (open_visit db.visits (codes "g1") (codes "p1") identity ≡ none)
    × IsOrderly entered.next_id entered.visits
    × (open_visit entered.visits (codes "g1") (codes "p1") identity
        ≡ some (entry_row db.next_id (codes "g1") (codes "p1") identity entry_lane (hour 9)))
record_entry-IsOrderly_example =
    record_entry-IsOrderly platform db (codes "g1") (codes "p1") (codes "ab-123") (codes "north")
      (hour 9) {result = (entry, entered)} no_visits enters

record_exit-ClosesStay_example :
    (identity : Text) × (exit_lane : Text) × (v : VisitRow) × (vehicle_key platform (codes "AB 123")
      ≡ ok identity)
    × (require_text (codes "south") Field.lane ≡ ok exit_lane)
    × ClosesStay entered left (codes "g1") (codes "p1") identity (hour 12) exit_lane v
record_exit-ClosesStay_example =
    record_exit-ClosesStay platform entered (codes "g1") (codes "p1") (codes "AB 123")
      (codes "south") (hour 12)
      {result = (record entry { exited_at = some (hour 12); lane = codes "south" }, left)} one_visit
      leaves
