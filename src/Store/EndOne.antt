-- ===== src/Store/EndOne.antt =====
-- store/records.py: `end_registration`, as what it reads and judges and what it then writes. A row
-- that moved in between is no longer as it was read, and the call refuses.
use garage_pass.Base.{
  ◌==◌, ltb, leb, Bool, false, not, ◌&&◌, ◌||◌, List, [], ◌∷◌, Option, none, some, Text, text_eq,
  text_leb, filter, sort_by, is_some, length, if◌then◌else◌,
}
use garage_pass.Findings.{Code, Field}
use garage_pass.Result.{Result, ok, raise, refuse_if, ◌>>=◌, ◌>>◌}
use garage_pass.Platform.{Platform, Day}
use garage_pass.Store.Rows.{Db, RegistrationRow, EndedReason, same_end, update_where, rows_where}
use garage_pass.Store.Load.{vehicle_key, load_readable_garage, load_pass}
use garage_pass.Store.Register.{is_last_day_reason}
use garage_pass.Store.Stay.{is_among}

-- the registrations of one car on one pass
unfoldable pub of_car : Text → Text → RegistrationRow → Bool
of_car pass_id identity r = text_eq r.pass_id pass_id && text_eq r.vehicle_identity identity

-- `ORDER BY r.effective_day DESC, g.external_id`
abbrev pub latest_first : RegistrationRow → RegistrationRow → Bool
latest_first a b =
    ltb b.effective_day a.effective_day
    || ((a.effective_day == b.effective_day) && text_leb a.garage_id b.garage_id)

-- `row[1] == effective and row[2] == current_end`
abbrev pub as_first : RegistrationRow → RegistrationRow → Bool
as_first first r = (r.effective_day == first.effective_day) && same_end r.end_day first.end_day

-- `end_day < current_end`, where that is stated
abbrev pub ends_before : Day → Option Day → Bool
ends_before day none = false
ends_before day (some current) = ltb day current

-- the end is planned, and this one is earlier
abbrev pub is_planned : Day → RegistrationRow → Bool
is_planned day first = is_last_day_reason first.ended_reason && ends_before day first.end_day

-- What is to be ended: the rows as they were read, the end that they have, and the new one.
pub record EndPlan : Type 0 where
  pub day : Day
  pub read_end : Option Day
  pub rows : List RegistrationRow

abbrev pub judge_rows : Day → List RegistrationRow → Result EndPlan
judge_rows day [] = raise Code.registration_not_found Field.vehicle_identity
judge_rows day (first ∷ more) = do
  refuse_if (is_some first.end_day && not (is_planned day first)) Code.registration_already_ended
      Field.end_day
  refuse_if (leb day first.effective_day) Code.registration_ends_before_it_starts Field.end_day
  ok (record { day = day; read_end = first.end_day; rows = filter (as_first first) (first ∷ more) })

-- `SET end_day = …, ended_reason = ENDED_BY_OWNER`
abbrev pub owner_ends : Day → RegistrationRow → RegistrationRow
owner_ends day r = record r { end_day = some day; ended_reason = some EndedReason.by_owner }

-- `id = ANY(…) AND end_day IS NOT DISTINCT FROM …`
abbrev pub is_as_read : EndPlan → RegistrationRow → Bool
is_as_read plan r = is_among plan.rows r && same_end r.end_day plan.read_end

-- `end`: rows found moved are a refusal
unfoldable pub write_end : EndPlan → List RegistrationRow → Result (List RegistrationRow)
write_end plan rows =
    if rows_where (is_as_read plan) rows == length plan.rows
    then ok (update_where (is_as_read plan) (owner_ends plan.day) rows)
    else raise Code.constraint Field.vehicle_identity

-- `end_registration`, with nobody writing in between
unfoldable pub end_registration : Platform → Db → Text → Text → Text → Day → Result (EndPlan × Db)
unfolding of_car write_end
end_registration p db garage_id pass_id vehicle day = do
  identity ← vehicle_key p vehicle
  _ ← load_readable_garage p db garage_id
  _ ← load_pass db garage_id pass_id
  plan ← judge_rows day (sort_by latest_first (filter (of_car pass_id identity) db.registrations))
  rows ← write_end plan db.registrations
  ok (plan, record db { registrations = rows })
