-- ===== src/Store/Sound.antt =====
-- store/records.py: the rows after a judged registration, whoever wrote in between.
use garage_pass.Base.{
  ℕ, ◌+◌, ◌≡◌, refl, subst, ◌<◌, inl, inr, false, ◌==◌, List, [], ◌∷◌, Text, All, In, Bool-cases,
  any, any-false_iff, arith,
}
use garage_pass.Result.{ok, ok-inj, >>=-eq-ok}
use garage_pass.Platform.{Day}
use garage_pass.Store.Rows.{Db, RegistrationRow, conflicts, rows_where}
use garage_pass.Store.Register.{AsRead, Release, Plan}
use garage_pass.Store.Write.{still_as_read, turn_over, release, row_at, insert_rows, write_plan}
use garage_pass.Store.OneCar.{Apart}
use garage_pass.Store.Writing.{
  Differ, IsSound, EndsFrom, map-IsSound, turn-Shortens, release-Shortens,
}

-- What the judging of a plan makes sure of: the range and the rows that are turned over end on or
-- after the first day.
pub record IsJudged (plan : Plan) : Type 0 where
  pub ends : EndsFrom plan.from plan.end
  pub turned : All (λ (a : AsRead). EndsFrom plan.from a.read_end) plan.turnover

pub turn_over-IsSound :
    (next : ℕ) (day : Day) (entries : List AsRead) (rows : List RegistrationRow)
    {end : List RegistrationRow}
    → All (λ (a : AsRead). EndsFrom day a.read_end) entries
    → IsSound next rows
    → turn_over day entries rows ≡ ok end
    → IsSound next end
unfolding turn_over
turn_over-IsSound next day [] rows h s e = subst (IsSound next) (ok-inj e) s
turn_over-IsSound next day (a ∷ more) rows h s e =
    elim (Bool-cases (rows_where (still_as_read a) rows == 1)) [
      | inl one ↦
          turn_over-IsSound next day more _ h.1
            (map-IsSound _ (turn-Shortens day a h.0) next rows s) (rw one at e)
      | inr other ↦ cc
    ]

pub release-IsSound :
    (next : ℕ) (entries : List Release) (rows : List RegistrationRow)
    → IsSound next rows
    → IsSound next (release entries rows)
unfolding release
release-IsSound next [] rows s = s
release-IsSound next (e ∷ more) rows s =
    release-IsSound next more _ (map-IsSound _ (release-Shortens e) next rows s)

-- What the insertion of a row at each garage leaves.
pub record Inserted (plan : Plan) (garages : List Text) (rows end : List RegistrationRow) (next : ℕ)
    : Type 0 where
  pub sound : IsSound next end
  pub kept : (r : RegistrationRow) → In r rows → In r end
  pub rows_at : All (λ g. (id : ℕ) × In (row_at plan id g) end) garages

given_later :
    (next : ℕ) (rows : List RegistrationRow)
    → All (λ (r : RegistrationRow). r.id < next) rows
    → All (λ (r : RegistrationRow). r.id < next + 1) rows
given_later next [] h = tt
given_later next (r ∷ rows) h = (omega arith, given_later next rows h.1)

given_differ :
    (r : RegistrationRow) (next : ℕ) (rows : List RegistrationRow)
    → r.id ≡ next
    → All (λ (s : RegistrationRow). s.id < next) rows
    → All (Differ r) rows
given_differ r next [] e h = tt
given_differ r next (s ∷ rows) e h = (λ q. omega arith, given_differ r next rows e h.1)

insert-IsSound :
    (plan : Plan) (g : Text) (next : ℕ) (rows : List RegistrationRow)
    → EndsFrom plan.from plan.end
    → IsSound next rows
    → any (conflicts (row_at plan next g)) rows ≡ false
    → IsSound (next + 1) (row_at plan next g ∷ rows)
insert-IsSound plan g next rows d s free = record {
  dated = (d, s.dated);
  one_car = (
    (any-false_iff (conflicts (row_at plan next g)) (Apart (row_at plan next g))
          (λ r. (λ h. h, λ h. h)) rows).0
        free,
    s.one_car,
  );
  given = (omega arith, given_later next rows s.given);
  distinct = (given_differ (row_at plan next g) next rows refl s.given, s.distinct);
}

pub insert_rows-Inserted :
    (plan : Plan) (garages : List Text) (next : ℕ) (rows : List RegistrationRow)
    {written : ℕ × List RegistrationRow}
    → EndsFrom plan.from plan.end
    → IsSound next rows
    → insert_rows plan garages next rows ≡ ok written
    → Inserted plan garages rows written.1 written.0
unfolding insert_rows
insert_rows-Inserted plan [] next rows {written} d s e =
    subst (λ w. Inserted plan [] rows w.1 w.0) (ok-inj e)
      (record { sound = s; kept = λ r m. m; rows_at = tt })
insert_rows-Inserted plan (g ∷ gs) next rows {written} d s e =
    elim (Bool-cases (any (conflicts (row_at plan next g)) rows)) [
      | inl hit ↦ cc
      | inr free ↦
          let rest : Inserted plan gs (row_at plan next g ∷ rows) written.1 written.0 =
            insert_rows-Inserted plan gs (next + 1) (row_at plan next g ∷ rows) d
              (insert-IsSound plan g next rows d s free) (rw free at e) in
          record {
            sound = rest.sound;
            kept = λ r m. rest.kept r (inr m);
            rows_at = ((next, rest.kept (row_at plan next g) (inl refl)), rest.rows_at);
          }
    ]

-- The plan was written: the rows are sound, and the car has a row at every garage of the plan.
pub write_plan-Inserted :
    (plan : Plan) (db : Db) {end : Db}
    → IsJudged plan
    → IsSound db.next_id db.registrations
    → write_plan plan db ≡ ok end
    → IsSound end.next_id end.registrations
      × All (λ g. (id : ℕ) × In (row_at plan id g) end.registrations) plan.garages
      × (end ≡ record db { registrations = end.registrations; next_id = end.next_id })
unfolding write_plan
write_plan-Inserted plan db {end} j s e =
    let (turned, et, e2) = >>=-eq-ok (turn_over plan.from plan.turnover db.registrations) _ e in
    let (written, ew, e3) =
      >>=-eq-ok (insert_rows plan plan.garages db.next_id (release plan.released turned)) _ e2 in
    let sound : IsSound db.next_id turned =
      turn_over-IsSound db.next_id plan.from plan.turnover db.registrations j.turned s et in
    let ins =
      insert_rows-Inserted plan plan.garages db.next_id (release plan.released turned) j.ends
        (release-IsSound db.next_id plan.released turned sound) ew in
    let same : record db { registrations = written.1; next_id = written.0 } ≡ end = cc in
    subst
      (λ (d : Db).
        IsSound d.next_id d.registrations
        × All (λ g. (id : ℕ) × In (row_at plan id g) d.registrations) plan.garages
        × (d ≡ record db { registrations = d.registrations; next_id = d.next_id }))
      same (ins.sound, ins.rows_at, refl)
