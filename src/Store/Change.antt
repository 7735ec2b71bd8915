-- ===== src/Store/Change.antt =====
-- store/records.py: `change_state`, with what a revocation ends and cancels. The row locks order
-- concurrent writers and have no part in what one call does.
use garage_pass.Base.{
  ℕ, ◌+◌, Bool, true, false, ◌&&◌, List, [], ◌∷◌, Option, none, some, Text, codes, text_eq, ltb,
  if◌then◌else◌,
}
use garage_pass.Result.{Result, ok, ◌>>=◌, map_all}
use garage_pass.Platform.{Platform, Day, Instant}
use garage_pass.Localday.{zone, day_of}
use garage_pass.Passes.{State, StateChange}
use garage_pass.States.{transition, same_state}
use garage_pass.Enrolment.{CredentialState}
use garage_pass.Store.Rows.{
  Db, PassRow, ChangeRow, RegistrationRow, EndedReason, CredentialRow, greatest, update_where,
  rows_where,
}
use garage_pass.Store.Load.{load_readable_garage, load_pass, pass_named, garages_of}
use garage_pass.Store.Write.{end_on}

-- A garage of the pass, and its local day of the instant.
pub record DayAt : Type 0 where
  pub garage_id : Text
  pub today : Day

abbrev pub day_at : Platform → Db → Instant → Text → Result DayAt
day_at p db at garage_id = load_readable_garage p db garage_id >>= λ garage.
    zone p garage.timezone >>= λ tz. ok (record { garage_id = garage_id; today = day_of at tz })

-- `days_at`: every garage's day, before any write
abbrev pub days_at : Platform → Db → State → Instant → Text → Result (List DayAt)
days_at p db to at pass_id =
    if same_state to State.revoked then map_all (day_at p db at) (garages_of db pass_id) else ok []

-- CANCELLED_BY_REVOCATION
abbrev pub cancelled_by_revocation : Text
cancelled_by_revocation = codes "pass revoked"

-- the live states of an enrolment and of a holder link
abbrev pub is_live_enrolment : CredentialState → Bool
is_live_enrolment CredentialState.issued = true
is_live_enrolment CredentialState.redeemed = true
is_live_enrolment CredentialState.cancelled = false

abbrev pub is_live_link : CredentialState → Bool
is_live_link CredentialState.issued = true
is_live_link _ = false

abbrev pub live_on : (CredentialState → Bool) → Text → CredentialRow → Bool
live_on live pass_id c = text_eq c.pass_id pass_id && live c.state

abbrev pub cancel : StateChange → CredentialRow → CredentialRow
cancel change c = record c {
  state = CredentialState.cancelled;
  cancellation = some (record {
    cancelled_by = change.changed_by;
    cancelled_at = change.changed_at;
    cancelled_reason = cancelled_by_revocation;
  });
}

abbrev pub after_end : Day → Option Day → Bool
after_end day none = true
after_end day (some end) = ltb day end

-- `end_day IS NULL OR end_day > GREATEST(today, effective_day)`, at the garage
unfoldable pub ends_later : Text → DayAt → RegistrationRow → Bool
ends_later pass_id d r =
    text_eq r.pass_id pass_id
    && text_eq r.garage_id d.garage_id
    && after_end (greatest d.today r.effective_day) r.end_day

-- one UPDATE per garage, and the number of rows that they change
unfoldable pub end_registrations :
    Text → List DayAt → List RegistrationRow → ℕ × List RegistrationRow
end_registrations pass_id [] rows = (0, rows)
end_registrations pass_id (d ∷ ds) rows =
    let rest =
      end_registrations pass_id ds
        (update_where (ends_later pass_id d) (end_on d.today EndedReason.by_revocation) rows) in
    (rows_where (ends_later pass_id d) rows + rest.0, rest.1)

-- What a change gives back.
pub record Changed : Type 0 where
  pub change : StateChange
  pub registrations_ended : ℕ
  pub enrolments_cancelled : ℕ
  pub holder_links_cancelled : ℕ

abbrev pub change_row : Text → StateChange → ChangeRow
change_row pass_id c = record {
  pass_id = pass_id;
  from_state = some c.from_state;
  to_state = c.to_state;
  changed_by = c.changed_by;
  changed_at = c.changed_at;
  reason = c.reason;
}

-- the pass row and its history
abbrev pub moved_to : Db → Text → StateChange → State → Db
moved_to db pass_id change to = record db {
  passes =
      update_where (pass_named pass_id) (λ (row : PassRow). record row { state = to }) db.passes;
  state_changes = change_row pass_id change ∷ db.state_changes;
}

-- the credentials first, then the registrations
unfoldable pub revoke_rows : Db → Text → StateChange → List DayAt → Changed × Db
unfolding end_registrations
revoke_rows db pass_id change days =
    let ended = end_registrations pass_id days db.registrations in
    (
      record {
        change = change;
        registrations_ended = ended.0;
        enrolments_cancelled = rows_where (live_on is_live_enrolment pass_id) db.enrolments;
        holder_links_cancelled = rows_where (live_on is_live_link pass_id) db.holder_links;
      },
      record db {
        enrolments = update_where (live_on is_live_enrolment pass_id) (cancel change) db.enrolments;
        holder_links = update_where (live_on is_live_link pass_id) (cancel change) db.holder_links;
        registrations = ended.1;
      },
    )

-- `change_state`
unfoldable pub change_state :
    Platform → Db → Text → Text → State → Text → Instant → Text → Result (Changed × Db)
unfolding revoke_rows
change_state p db garage_id pass_id to by at reason = do
  _ ← load_readable_garage p db garage_id
  pass ← load_pass db garage_id pass_id
  moved ← transition pass to by at reason
  days ← days_at p db to at pass_id
  ok (
      if same_state to State.revoked
      then revoke_rows (moved_to db pass_id moved.1 moved.0.state) pass_id moved.1 days
      else (
        record {
          change = moved.1;
          registrations_ended = 0;
          enrolments_cancelled = 0;
          holder_links_cancelled = 0;
        },
        moved_to db pass_id moved.1 moved.0.state,
      ))
