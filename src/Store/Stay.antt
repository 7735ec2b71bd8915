-- ===== src/Store/Stay.antt =====
-- store/records.py: `end_stay`, with nobody writing in between.
use garage_pass.Base.{◌==◌, Bool, ◌&&◌, List, Text, text_eq, any, filter, is_empty}
use garage_pass.Findings.{Code, Field}
use garage_pass.Result.{Result, ok, refuse_if, ◌>>=◌, ◌>>◌}
use garage_pass.Platform.{Platform, Day}
use garage_pass.Garage.{require_text}
use garage_pass.Store.Rows.{Db, RegistrationRow, EndedReason, before, update_where}
use garage_pass.Store.Load.{load_readable_garage, load_pass}
use garage_pass.Store.Write.{end_on}

-- `(end_day IS NULL OR end_day > day) AND (end_day IS NULL OR end_day > effective_day)`, on the pass
unfoldable pub in_force_from : Text → Day → RegistrationRow → Bool
in_force_from pass_id day r =
    text_eq r.pass_id pass_id && before day r.end_day && before r.effective_day r.end_day

-- `id = ANY(…)`
abbrev pub is_among : List RegistrationRow → RegistrationRow → Bool
is_among rows r = any (λ (s : RegistrationRow). r.id == s.id) rows

-- What an ended stay gives back.
pub record StayEnded : Type 0 where
  pub day : Day
  pub by : Text
  pub reason : Text
  pub rows : List RegistrationRow

-- `end_stay`
unfoldable pub end_stay : Platform → Db → Text → Text → Day → Text → Text → Result (StayEnded × Db)
unfolding in_force_from
end_stay p db garage_id pass_id day by reason = do
  who ← require_text by Field.ended_by
  why ← require_text reason Field.reason
  _ ← load_readable_garage p db garage_id
  _ ← load_pass db garage_id pass_id
  refuse_if (is_empty (filter (in_force_from pass_id day) db.registrations))
      Code.registration_not_found Field.the_pass
  ok (
    record {
      day = day;
      by = who;
      reason = why;
      rows = filter (in_force_from pass_id day) db.registrations;
    },
    record db {
      registrations =
          update_where (is_among (filter (in_force_from pass_id day) db.registrations))
            (end_on day (EndedReason.by_checkout who why)) db.registrations;
    },
  )
