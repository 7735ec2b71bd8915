-- ===== src/Store/Register.antt =====
-- store/records.py: `register_vehicle`, as what it reads and judges and what it then writes. The
-- rows are written as they were read: another writer may have moved them in between.
use garage_pass.Base.{
  ℕ, ◌+◌, ◌-◌, Bool, true, false, not, ◌&&◌, ◌||◌, List, [], ◌∷◌, ◌++◌, Option, none, some, Text,
  text_eq, leb, ltb, filter, sort_by, is_none, is_some, if◌then◌else◌,
}
use garage_pass.Findings.{Code, Field, Unreadable}
use garage_pass.Result.{Result, ok, raise, refuse_if, ◌>>=◌, ◌>>◌}
use garage_pass.Platform.{Platform, Day}
use garage_pass.Terms.{Terms}
use garage_pass.Passes.{State, Pass}
use garage_pass.States.{Effective, effective_state}
use garage_pass.Store.Rows.{Db, PassRow, RegistrationRow, EndedReason, overlaps}
use garage_pass.Store.Load.{vehicle_key, load_readable_garage, load_pass, pass_named, garages_of}

-- A row of `_holders`: the registration, and what the join reads of its pass.
pub record Held : Type 0 where
  pub row : RegistrationRow
  pub valid_to : Option Day

abbrev pub held : RegistrationRow → Option Day → Held
held r last = record { row = r; valid_to = last }

-- the columns of the pass that a registration is joined with
abbrev pub valid_to_of : List PassRow → Text → Option (Option Day)
valid_to_of [] pass_id = none
valid_to_of (p ∷ rows) pass_id =
    if pass_named pass_id p then some p.valid_to else valid_to_of rows pass_id

-- the joined row, if the pass is there
abbrev pub add_held : Option (Option Day) → RegistrationRow → List Held → List Held
add_held none r rest = rest
add_held (some last) r rest = held r last ∷ rest

-- `JOIN passes p ON …`
abbrev pub join_passes : List PassRow → List RegistrationRow → List Held
join_passes passes [] = []
join_passes passes (r ∷ rows) = add_held (valid_to_of passes r.pass_id) r (join_passes passes rows)

-- the registrations of an identity at a garage that overlap a range
abbrev pub holds : Text → Text → Day → Option Day → RegistrationRow → Bool
holds garage_id identity from end r =
    text_eq r.garage_id garage_id
    && text_eq r.vehicle_identity identity
    && overlaps r.effective_day r.end_day from end

abbrev pub by_day : Held → Held → Bool
by_day a b = leb a.row.effective_day b.row.effective_day

-- `_holders`
unfoldable pub holders : Db → Text → Text → Day → Option Day → List Held
holders db garage_id identity from end =
    sort_by by_day
      (join_passes db.passes (filter (holds garage_id identity from end) db.registrations))

-- REGISTRABLE_STATES
abbrev pub is_registrable : State → Bool
is_registrable State.draft = true
is_registrable State.awaiting_enrolment = true
is_registrable State.active = true
is_registrable State.suspended = false
is_registrable State.revoked = false

-- the terms of the target pass, or the refusal that made it unreadable
abbrev pub target_terms : Option Unreadable → Option Terms → Result Terms
target_terms none (some terms) = ok terms
target_terms none none = raise Code.field_blank Field.pass_terms
target_terms (some u) terms = raise u.code u.field

abbrev pub is_expired : Effective → Bool
is_expired Effective.expired = true
is_expired (Effective.typed s) = false

abbrev pub ends_too_soon : Day → Option Day → Bool
ends_too_soon from none = false
ends_too_soon from (some end) = leb end from

abbrev pub outlives : Option Day → Option Day → Bool
outlives (some last) (some end) = ltb (last + 1) end
outlives _ _ = false

-- the checks of the target pass, before any holder is read; it gives the last day of the pass
unfoldable pub check_target : Pass → Day → Option Day → Result (Option Day)
check_target pass from end = do
  refuse_if (not (is_registrable pass.state)) Code.pass_not_registrable Field.pass_state
  terms ← target_terms pass.unreadable pass.terms
  refuse_if (is_expired (effective_state pass from)) Code.pass_not_registrable Field.pass_state
  refuse_if (ends_too_soon from end) Code.registration_ends_before_it_starts Field.end_day
  refuse_if (outlives terms.valid_to end) Code.registration_outlives_the_pass Field.end_day
  ok terms.valid_to

-- a last day that is stated and comes before another
abbrev pub is_over : Day → Option Day → Bool
is_over from none = false
is_over from (some last) = ltb last from

-- the holder's pass is over before the first day, and the row is open: it holds nothing
unfoldable pub is_released : Day → Held → Bool
is_released from h = is_none h.row.end_day && is_over from h.valid_to

abbrev pub is_last_day_reason : Option EndedReason → Bool
is_last_day_reason (some EndedReason.after_last_day) = true
is_last_day_reason _ = false

-- `last`: the last day of the holder's registration
abbrev pub last_of : Option Day → Option Day → Option Day
last_of (some end) valid_to = some (end - 1)
last_of none valid_to = valid_to

-- `a_stays_last_day`
abbrev pub is_stay : Held → Bool
is_stay h = is_last_day_reason h.row.ended_reason || (is_none h.row.end_day && is_some h.valid_to)

abbrev pub is_up_to : Day → Option Day → Bool
is_up_to from none = false
is_up_to from (some last) = leb last from

-- the holder's stay is over on the first day: it is turned over
unfoldable pub is_turned_over : Text → Day → Held → Bool
is_turned_over pass_id from h =
    not (text_eq h.row.pass_id pass_id)
    && is_stay h
    && leb h.row.effective_day from
    && is_up_to from (last_of h.row.end_day h.valid_to)

-- a row that is to end, and the end that it was read with
pub record AsRead : Type 0 where
  pub id : ℕ
  pub read_end : Option Day

abbrev pub as_read : Held → AsRead
as_read h = record { id = h.row.id; read_end = h.row.end_day }

-- the loop over `judged`: the rows to turn over, or the first refusal
unfoldable pub judge_holders : Text → Day → List Held → Result (List AsRead)
judge_holders pass_id from [] = ok []
judge_holders pass_id from (h ∷ hs) =
    let rest = judge_holders pass_id from hs in
    if is_released from h
    then rest
    else if is_turned_over pass_id from h
    then rest >>= (λ more. ok (as_read h ∷ more))
    else raise Code.vehicle_on_another_pass Field.vehicle_identity

-- a row that expiry has freed, and the day its pass was over
pub record Release : Type 0 where
  pub id : ℕ
  pub end : Day

abbrev pub add_release : ℕ → Option Day → List Release → List Release
add_release id none rest = rest
add_release id (some last) rest = record { id = id; end = last + 1 } ∷ rest

-- the rows that step 2 ends
unfoldable pub releases : Day → List Held → List Release
releases from [] = []
releases from (h ∷ hs) =
    let rest = releases from hs in
    if is_released from h then add_release h.row.id h.valid_to rest else rest

-- What the reads and the refusals leave to write.
pub record Plan : Type 0 where
  pub pass_id : Text
  pub identity : Text
  pub from : Day
  pub end : Option Day
  pub ended_reason : Option EndedReason
  pub last_day : Option Day
  pub garages : List Text
  pub turnover : List AsRead
  pub released : List Release

-- `holders_by_garage`, one list behind the other
abbrev pub all_holders : Db → List Text → Text → Day → Option Day → List Held
all_holders db [] identity from end = []
all_holders db (g ∷ gs) identity from end =
    holders db g identity from end ++ all_holders db gs identity from end

-- `key=lambda found: found[1][1] == pass_external_id`: another pass's hold first
abbrev pub others_first : Text → Held → Held → Bool
others_first pass_id a b = not (text_eq a.row.pass_id pass_id) || text_eq b.row.pass_id pass_id

abbrev pub reason_if_ended : Option Day → EndedReason → Option EndedReason
reason_if_ended none why = none
reason_if_ended (some end) why = some why

-- the plan of a registration that is not refused
abbrev pub plan_of :
    Db → Text → Text → Day → Option Day → EndedReason → Option Day → List AsRead → Plan
plan_of db pass_id identity from end why last_day turnover = record {
  pass_id = pass_id;
  identity = identity;
  from = from;
  end = end;
  ended_reason = reason_if_ended end why;
  last_day = last_day;
  garages = garages_of db pass_id;
  turnover = turnover;
  released = releases from (all_holders db (garages_of db pass_id) identity from end);
}

-- `judged`
abbrev pub judged : Db → Text → Text → Day → Option Day → List Held
judged db pass_id identity from end =
    sort_by (others_first pass_id) (all_holders db (garages_of db pass_id) identity from end)

-- `register_vehicle` up to the first write
unfoldable pub judge :
    Platform → Db → Text → Text → Text → Day → Option Day → EndedReason → Result Plan
judge p db garage_id pass_id vehicle_identity from end why = do
  identity ← vehicle_key p vehicle_identity
  _ ← load_readable_garage p db garage_id
  pass ← load_pass db garage_id pass_id
  last_day ← check_target pass from end
  turnover ← judge_holders pass_id from (judged db pass_id identity from end)
  ok (plan_of db pass_id identity from end why last_day turnover)
