-- ===== src/Store/Write.antt =====
-- store/records.py: what `register_vehicle` writes of what it judged. A row that is ended is found
-- by its id and the end that it was read with; a new row meets the EXCLUDE of the table. A refusal
-- ends the call, and its caller rolls the transaction back: the rows are those before it.
use garage_pass.Base.{
  ℕ, ◌+◌, Bool, ◌&&◌, List, [], ◌∷◌, Option, none, some, Text, ◌==◌, any, is_none, if◌then◌else◌,
}
use garage_pass.Findings.{Code, Field}
use garage_pass.Result.{Result, ok, raise, ◌>>=◌}
use garage_pass.Platform.{Platform, Day}
use garage_pass.Store.Rows.{
  Db, RegistrationRow, EndedReason, same_end, greatest, conflicts, update_where, rows_where,
}
use garage_pass.Store.Register.{AsRead, Release, Plan, judge}

-- `SET end_day = GREATEST(day, effective_day), ended_reason = why`
abbrev pub end_on : Day → EndedReason → RegistrationRow → RegistrationRow
end_on day why r = record r {
  end_day = some (greatest day r.effective_day);
  ended_reason = some why;
}

-- `id = … AND end_day IS NOT DISTINCT FROM …`
unfoldable pub still_as_read : AsRead → RegistrationRow → Bool
still_as_read a r = (r.id == a.id) && same_end r.end_day a.read_end

-- `turn_over`: a row found moved is a refusal
unfoldable pub turn_over : Day → List AsRead → List RegistrationRow → Result (List RegistrationRow)
turn_over from [] rows = ok rows
turn_over from (a ∷ more) rows =
    if rows_where (still_as_read a) rows == 1
    then turn_over from more
        (update_where (still_as_read a) (end_on from EndedReason.by_next_stay) rows)
    else raise Code.constraint Field.vehicle_identity

-- `id = … AND end_day IS NULL`
unfoldable pub still_open : Release → RegistrationRow → Bool
still_open e r = (r.id == e.id) && is_none r.end_day

-- step 2: a row ended meanwhile keeps its end
unfoldable pub release : List Release → List RegistrationRow → List RegistrationRow
release [] rows = rows
release (e ∷ more) rows =
    release more (update_where (still_open e) (end_on e.end EndedReason.by_expiry) rows)

-- the row of one garage
abbrev pub row_at : Plan → ℕ → Text → RegistrationRow
row_at plan id garage_id = record {
  id = id;
  garage_id = garage_id;
  pass_id = plan.pass_id;
  vehicle_identity = plan.identity;
  effective_day = plan.from;
  end_day = plan.end;
  ended_reason = plan.ended_reason;
}

-- step 3: a row per garage, each against the EXCLUDE
unfoldable pub insert_rows :
    Plan → List Text → ℕ → List RegistrationRow → Result (ℕ × List RegistrationRow)
insert_rows plan [] id rows = ok (id, rows)
insert_rows plan (g ∷ gs) id rows =
    if any (conflicts (row_at plan id g)) rows
    then raise Code.constraint Field.vehicle_identity
    else insert_rows plan gs (id + 1) (row_at plan id g ∷ rows)

-- the writes, on the rows as they are by then
unfoldable pub write_plan : Plan → Db → Result Db
unfolding turn_over release insert_rows
write_plan plan db = turn_over plan.from plan.turnover db.registrations >>= λ turned.
    insert_rows plan plan.garages db.next_id (release plan.released turned) >>= λ written.
    ok (record db { registrations = written.1; next_id = written.0 })

-- What the call gives back.
pub record Registered : Type 0 where
  pub pass_id : Text
  pub vehicle_identity : Text
  pub garages : List Text
  pub effective_day : Day
  pub end_day : Option Day
  pub bounded_by_valid_to : Option Day

abbrev pub registered : Plan → Registered
registered plan = record {
  pass_id = plan.pass_id;
  vehicle_identity = plan.identity;
  garages = plan.garages;
  effective_day = plan.from;
  end_day = plan.end;
  bounded_by_valid_to = elim plan.end [ none ↦ plan.last_day | some end ↦ none ];
}

-- `register_vehicle`, with nobody writing in between
unfoldable pub register_vehicle :
    Platform → Db → Text → Text → Text → Day → Option Day → EndedReason → Result (Registered × Db)
unfolding judge write_plan
register_vehicle p db garage_id pass_id vehicle_identity from end why =
    judge p db garage_id pass_id vehicle_identity from end why >>= λ plan.
    write_plan plan db >>= λ written. ok (registered plan, written)
