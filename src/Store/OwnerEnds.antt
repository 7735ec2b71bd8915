-- ===== src/Store/OwnerEnds.antt =====
-- store/records.py: what `end_registration` leaves.
use garage_pass.Base.{
  ◌==◌, leb, ◌≡◌, refl, sym, ap, subst, ◌∙◌, ◌<◌, ◌≤◌, inl, inr, true, false, not, ◌&&◌, List, [],
  ◌∷◌, map, Option, none, some, Text, All-In, In, Bool-cases, filter, In-filter, filter-In, sort_by,
  In-sort_by, is_some, if◌then◌else◌, arith, length,
}
use garage_pass.Findings.{Code, Field}
use garage_pass.Result.{ok, raise, ok-inj, refuse_if, refuse_if-ok, >>=-eq-ok}
use garage_pass.Platform.{Platform, Day}
use garage_pass.Store.Rows.{Db, RegistrationRow, EndedReason, greatest, update_where, rows_where}
use garage_pass.Store.Load.{vehicle_key, load_readable_garage, load_pass}
use garage_pass.Store.Write.{end_on}
use garage_pass.Store.Writing.{
  IsSound, EndsFrom, Shortens, map-IsSound, update-Shortens, same_end_eq,
}
use garage_pass.Store.Register.{is_last_day_reason}
use garage_pass.Store.StayEnds.{map_cong}
use garage_pass.Store.EndOne.{
  of_car, latest_first, as_first, ends_before, is_planned, EndPlan, judge_rows, owner_ends,
  is_as_read, write_end, end_registration,
}
use garage_pass.Store.EndRead.{Latest, first-Latest, is_ended, read_rows, read-ended}

-- What an owner's end leaves: the latest registration of the car on the pass, the rows of it that
-- end as it does, now ending on the day.
pub record EndsLatest (before_it after : Db) (pass_id identity : Text) (day : Day) : Type 0 where
  pub latest : RegistrationRow
  pub held : In latest before_it.registrations × (of_car pass_id identity latest ≡ true)
  pub newest :
      (r : RegistrationRow)
      → In r before_it.registrations
      → of_car pass_id identity r ≡ true
      → r.effective_day ≤ latest.effective_day
  pub runs : latest.effective_day < day
  pub shortened : EndsFrom day latest.end_day
  pub ended :
      after.registrations
      ≡ map
          (λ r. if is_ended pass_id identity latest r then owner_ends day r else r)
          before_it.registrations
  pub sound : IsSound after.next_id after.registrations

module _ (pass_id identity : Text) (day : Day) (first : RegistrationRow)
    (runs : first.effective_day < day) (shortened : EndsFrom day first.end_day) where
  -- An end after the first day is the end that is stated.
  owner_step :
      (r : RegistrationRow)
      → (if is_ended pass_id identity first r then owner_ends day r else r)
        ≡ (if is_ended pass_id identity first r then end_on day EndedReason.by_owner r else r)
  owner_step r = elim (Bool-cases (is_ended pass_id identity first r)) [
    | inl t ↦
        let g : day ≡ greatest day r.effective_day = ground (arith, t, runs) in
        rw t (ap (λ d. record r { end_day = some d; ended_reason = some EndedReason.by_owner }) g)
    | inr f ↦ rw f refl
  ]

  owner_step-Shortens :
      Shortens
        (λ r. if is_ended pass_id identity first r then end_on day EndedReason.by_owner r else r)
  owner_step-Shortens =
      update-Shortens (is_ended pass_id identity first) day EndedReason.by_owner (λ r t.
        subst (EndsFrom day) (sym (same_end_eq r.end_day first.end_day (ground (arith, t))))
          shortened)

-- What was judged, when the judging goes through.
pub record Judged (day : Day) (rows : List RegistrationRow) (plan : EndPlan) : Type 0 where
  pub first : RegistrationRow
  pub more : List RegistrationRow
  pub sorted : rows ≡ first ∷ more
  pub runs : first.effective_day < day
  pub shortened : EndsFrom day first.end_day
  pub planned :
      plan ≡ record { day = day; read_end = first.end_day; rows = filter (as_first first) rows }

pub judge_rows-ok :
    (day : Day) (rows : List RegistrationRow) {plan : EndPlan}
    → judge_rows day rows ≡ ok plan
    → Judged day rows plan
judge_rows-ok day [] e = cc
judge_rows-ok day (first ∷ more) {plan} e =
    let (_, e1, k1) =
      >>=-eq-ok
        (refuse_if (is_some first.end_day && not (is_planned day first))
          Code.registration_already_ended Field.end_day)
        _ e in
    let (_, e2, k2) =
      >>=-eq-ok
        (refuse_if (leb day first.effective_day) Code.registration_ends_before_it_starts
          Field.end_day)
        _ k1 in
    record {
      first = first;
      more = more;
      sorted = refl;
      runs = ground (arith, (refuse_if-ok (leb day first.effective_day) _ _).0 e2);
      shortened =
          earlier first.end_day
            ((refuse_if-ok (is_some first.end_day && not (is_planned day first)) _ _).0 e1);
      planned = sym (ok-inj k2);
    }
  where
    earlier :
        (end : Option Day)
        → (is_some end && not (is_last_day_reason first.ended_reason && ends_before day end))
          ≡ false
        → EndsFrom day end
    earlier none h = tt
    earlier (some current) h = ground arith

write_end-ok :
    (plan : EndPlan) (rows : List RegistrationRow) {after : List RegistrationRow}
    → write_end plan rows ≡ ok after
    → update_where (is_as_read plan) (owner_ends plan.day) rows ≡ after
unfolding write_end
write_end-ok plan rows e =
    elim (Bool-cases (rows_where (is_as_read plan) rows == length plan.rows)) [
      | inl t ↦ ok-inj (rw t at e)
      | inr f ↦ absurd (refused (rw f at e))
    ]
  where
    refused : {c : Code} {f : Field} {after : List RegistrationRow} → raise c f ≡ ok after → ⊥
    refused e = cc

-- The rows after an end are the rows before it, those of the latest registration shortened.
rows-EndsLatest :
    (db : Db) (pass_id identity : Text) (day : Day) {plan : EndPlan} {after : List RegistrationRow}
    → IsSound db.next_id db.registrations
    → Judged day (sort_by latest_first (filter (of_car pass_id identity) db.registrations)) plan
    → write_end plan db.registrations ≡ ok after
    → EndsLatest db (record db { registrations = after }) pass_id identity day
rows-EndsLatest db pass_id identity day {plan} {after} s j w =
    let first = j.first in
    let (m, c) = In-filter (of_car pass_id identity) first db.registrations (
      In-sort_by latest_first first (filter (of_car pass_id identity) db.registrations)
        (subst (λ rows. In first rows) (sym j.sorted) (inl refl))) in
    let written : after
        ≡ map (λ r. if is_ended pass_id identity first r then owner_ends day r else r)
            db.registrations =
      sym (
        write_end-ok
          (record {
            day = day;
            read_end = first.end_day;
            rows = read_rows pass_id identity db.registrations s.distinct first;
          })
          db.registrations (subst (λ x. write_end x db.registrations ≡ ok after) j.planned w))
      ∙ map_cong _ _ db.registrations (λ r i.
        ap (λ b. if b then owner_ends day r else r)
          (read-ended pass_id identity db.registrations s.distinct day first r i)) in
    record {
      latest = first;
      held = (m, c);
      newest = λ r i t.
          All-In (Latest first) r (filter (of_car pass_id identity) db.registrations)
            (first-Latest (filter (of_car pass_id identity) db.registrations) j.sorted)
            (filter-In (of_car pass_id identity) r db.registrations i t);
      runs = j.runs;
      shortened = j.shortened;
      ended = written;
      sound =
          subst (IsSound db.next_id)
            (sym (
              written
              ∙ map_cong _ _ db.registrations
                  (λ r _. owner_step pass_id identity day first j.runs j.shortened r)))
            (map-IsSound _ (owner_step-Shortens pass_id identity day first j.runs j.shortened)
              db.next_id db.registrations s);
    }

-- An end that goes through was asked for a car that is stated, and is of the latest registration of
-- the car on the pass, later than its first day and no later than the end that it had; on sound
-- rows it moves exactly the rows of that registration that end as the latest one read does, at
-- whatever garage, to end on the day stated, by the owner, and it leaves the rows sound.
pub end_registration-EndsLatest :
    (p : Platform) (db : Db) (garage_id pass_id vehicle : Text) (day : Day) {result : EndPlan × Db}
    → IsSound db.next_id db.registrations
    → end_registration p db garage_id pass_id vehicle day ≡ ok result
    → (identity : Text) × (vehicle_key p vehicle ≡ ok identity)
      × EndsLatest db result.1 pass_id identity day
unfolding end_registration
end_registration-EndsLatest p db garage_id pass_id vehicle day {result} s e =
    let (identity, e1, k1) = >>=-eq-ok (vehicle_key p vehicle) _ e in
    let (_, _, k2) = >>=-eq-ok (load_readable_garage p db garage_id) _ k1 in
    let (_, _, k3) = >>=-eq-ok (load_pass db garage_id pass_id) _ k2 in
    let (plan, e4, k4) =
      >>=-eq-ok
        (judge_rows day (sort_by latest_first (filter (of_car pass_id identity) db.registrations)))
        _ k3 in
    let (rows, e5, k5) = >>=-eq-ok (write_end plan db.registrations) _ k4 in
    (
      identity,
      e1,
      subst (λ (r : EndPlan × Db). EndsLatest db r.1 pass_id identity day) (ok-inj k5)
          (rows-EndsLatest db pass_id identity day s (judge_rows-ok day _ e4) e5),
    )
