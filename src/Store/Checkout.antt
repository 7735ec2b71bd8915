-- ===== src/Store/Checkout.antt =====
-- The guest of the stored stay checks out two days early, or the owner ends the registration one day
-- early.
use garage_pass.Base.{
  ◌≡◌, refl, [], ◌∷◌, some, codes, text_eq, text_in, ◌-◌, ◌+◌, sort_by, Text, arith,
}
use garage_pass.Result.{ok}
use garage_pass.Platform.{strip, lstrip, is_space, is_control}
use garage_pass.Localday.{zone}
use garage_pass.Garage.{
  require_text, make_garage, garage_from_stored, refuse_enrols_at_contradiction,
}
use garage_pass.Terms.{
  make_terms, check_terms, check_windows, check_window, days_meet, days_that_occur,
}
use garage_pass.Passes.{make_holder, make_pass, require_garage_ids, refuse_lanes_off_the_pass}
use garage_pass.Store.Rows.{Db, EndedReason}
use garage_pass.Store.Load.{
  load_garage, load_readable_garage, load_pass, pass_from_row, readable_pass_from_row,
}
use garage_pass.Store.Stay.{in_force_from, StayEnded, end_stay}
use garage_pass.Store.Writing.{IsSound}
use garage_pass.Store.EndOne.{of_car, EndPlan, write_end, end_registration}
use garage_pass.Store.EndWrites.{end_registration-written}
use garage_pass.Store.OwnerEnds.{EndsLatest, end_registration-EndsLatest}
use garage_pass.Store.Load.{vehicle_key}
use garage_pass.Enrolment.{plate_key, unseparated, not_part_of_a_plate, read_as_digit}
use garage_pass.Store.StayEnds.{EndsStay, end_stay-EndsStay}
use garage_pass.Store.Example.{stay, db}
use garage_pass.Sample.{platform, monday}

abbrev ended : StayEnded × Db
ended = (
  record { day = monday - 1; by = codes "ann"; reason = codes "left early"; rows = stay ∷ [] },
  record db {
    registrations =
        record stay {
          end_day = some (monday - 1);
          ended_reason = some (EndedReason.by_checkout (codes "ann") (codes "left early"));
        }
        ∷ [];
  },
)

checks_out :
    end_stay platform db (codes "g1") (codes "p2") (monday - 1) (codes "ann ") (codes "left early")
    ≡ ok ended
unfolding end_stay in_force_from load_readable_garage load_garage garage_from_stored make_garage
    require_text zone text_eq text_in strip lstrip is_space is_control
    refuse_enrols_at_contradiction load_pass pass_from_row readable_pass_from_row make_holder
    make_pass require_garage_ids refuse_lanes_off_the_pass make_terms check_terms check_windows
    check_window days_meet days_that_occur
checks_out = refl

sound : IsSound db.next_id db.registrations
sound = record {
  dated = (omega arith, tt);
  one_car = (tt, tt);
  given = (omega arith, tt);
  distinct = (tt, tt);
}

end_stay-EndsStay_example : EndsStay db ended.1 (codes "p2") (monday - 1)
end_stay-EndsStay_example =
    end_stay-EndsStay platform db (codes "g1") (codes "p2") (monday - 1) (codes "ann ")
      (codes "left early") {result = ended} sound checks_out

abbrev owner_ended : EndPlan × Db
owner_ended = (
  record { day = monday; read_end = some (monday + 1); rows = stay ∷ [] },
  record db {
    registrations =
        record stay { end_day = some monday; ended_reason = some EndedReason.by_owner } ∷ [];
  },
)

owner_ends_it :
    end_registration platform db (codes "g1") (codes "p2") (codes "ab 123") monday ≡ ok owner_ended
unfolding end_registration of_car write_end sort_by vehicle_key plate_key unseparated
    not_part_of_a_plate read_as_digit load_readable_garage load_garage garage_from_stored
    make_garage require_text zone text_eq text_in strip lstrip is_space is_control
    refuse_enrols_at_contradiction load_pass pass_from_row readable_pass_from_row make_holder
    make_pass require_garage_ids refuse_lanes_off_the_pass make_terms check_terms check_windows
    check_window days_meet days_that_occur
owner_ends_it = refl

end_registration-EndsLatest_example :
    (identity : Text) × (vehicle_key platform (codes "ab 123") ≡ ok identity)
    × EndsLatest db owner_ended.1 (codes "p2") identity monday
end_registration-EndsLatest_example =
    end_registration-EndsLatest platform db (codes "g1") (codes "p2") (codes "ab 123") monday
      {result = owner_ended} sound owner_ends_it

end_registration-written_example :
    (after : Db) × (end_registration platform db (codes "g1") (codes "p2") (codes "ab 123") monday
      ≡ ok (owner_ended.0, after))
unfolding end_registration of_car write_end sort_by vehicle_key plate_key unseparated
    not_part_of_a_plate read_as_digit load_readable_garage load_garage garage_from_stored
    make_garage require_text zone text_eq text_in strip lstrip is_space is_control
    refuse_enrols_at_contradiction load_pass pass_from_row readable_pass_from_row make_holder
    make_pass require_garage_ids refuse_lanes_off_the_pass make_terms check_terms check_windows
    check_window days_meet days_that_occur
end_registration-written_example =
    end_registration-written platform db (codes "g1") (codes "p2") (codes "ab 123") monday sound
      refl refl refl refl
