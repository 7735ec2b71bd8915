-- ===== src/Store/Revocation.antt =====
-- The pass of the stored registration is revoked.
use garage_pass.Base.{
  ◌≡◌, refl, false, List, [], ◌∷◌, some, codes, text_eq, text_in, text_leb, sort_by, arith,
}
use garage_pass.Result.{ok, map_all}
use garage_pass.Platform.{strip, lstrip, is_space, is_control}
use garage_pass.Localday.{zone, day_of}
use garage_pass.Garage.{
  require_text, make_garage, garage_from_stored, refuse_enrols_at_contradiction,
}
use garage_pass.Terms.{
  make_terms, check_terms, check_windows, check_window, days_meet, days_that_occur,
}
use garage_pass.Passes.{
  State, Pass, StateChange, make_holder, make_pass, require_garage_ids, refuse_lanes_off_the_pass,
}
use garage_pass.States.{transition, allowed_transitions, is_blank}
use garage_pass.States.Graph.{Moves, change_of}
use garage_pass.Store.Rows.{Db, EndedReason}
use garage_pass.Store.Load.{
  load_garage, load_readable_garage, load_pass, pass_from_row, readable_pass_from_row, garages_of,
}
use garage_pass.Store.Change.{
  DayAt, day_at, Changed, change_row, end_registrations, ends_later, revoke_rows, change_state,
}
use garage_pass.Store.Writing.{IsSound}
use garage_pass.Store.Revoked.{Revokes, change_state-Revokes}
use garage_pass.Store.Example.{p1, p2, stay, db}
use garage_pass.Sample.{platform, monday, hour}

abbrev divorce : StateChange
divorce = record {
  pass_id = codes "p2";
  from_state = State.active;
  to_state = State.revoked;
  changed_by = codes "ann";
  changed_at = hour 9;
  reason = codes "divorce";
}

abbrev changed : Changed
changed = record {
  change = divorce;
  registrations_ended = 1;
  enrolments_cancelled = 0;
  holder_links_cancelled = 0;
}

abbrev after : Db
after = record db {
  passes = p1 ∷ record p2 { state = State.revoked } ∷ [];
  state_changes = change_row (codes "p2") divorce ∷ [];
  registrations =
      record stay { end_day = some monday; ended_reason = some EndedReason.by_revocation } ∷ [];
}

revokes :
    change_state platform db
      (codes "g1")
      (codes "p2")
      State.revoked
      (codes "ann")
      (hour 9)
      (codes "divorce")
    ≡ ok (changed, after)
unfolding change_state revoke_rows end_registrations ends_later transition allowed_transitions
    day_of garages_of require_text strip is_space is_control load_readable_garage load_garage
    text_eq garage_from_stored zone refuse_enrols_at_contradiction load_pass text_in sort_by
    text_leb make_garage make_holder make_pass refuse_lanes_off_the_pass require_garage_ids lstrip
    pass_from_row readable_pass_from_row check_terms check_window check_windows days_meet
    days_that_occur make_terms
revokes = refl

sound : IsSound db.next_id db.registrations
sound = record {
  dated = (omega arith, tt);
  one_car = (tt, tt);
  given = (omega arith, tt);
  distinct = (tt, tt);
}

change_state-Revokes_example :
    (pass : Pass) × (days : List DayAt) × (load_pass db (codes "g1") (codes "p2") ≡ ok pass)
    × Moves pass.state State.revoked
    × (is_blank (codes "ann") ≡ false)
    × (is_blank (codes "divorce") ≡ false)
    × (map_all (day_at platform db (hour 9)) (garages_of db (codes "p2")) ≡ ok days)
    × Revokes db after
        (codes "p2")
        days
        (change_of pass State.revoked (codes "ann") (hour 9) (codes "divorce"))
change_state-Revokes_example =
    change_state-Revokes platform db (codes "g1") (codes "p2") (codes "ann") (hour 9)
      (codes "divorce") {result = (changed, after)} sound revokes
