-- ===== src/Store/Rows.antt =====
-- The rows of one tenant, as migrations/ lays the tables out. A garage and a pass are keyed by
-- their external id, which is unique in a tenant and stands for the row's uuid; a registration and
-- a visit have an id of their own. Every statement names the tenant, so the model holds one tenant.
use garage_pass.Base.{
  ℕ, Bool, true, false, ◌&&◌, List, Option, none, some, Text, text_eq, ltb, ◌==◌, length, filter,
  map, if◌then◌else◌, ℤ,
}
use garage_pass.Platform.{Day, Instant}
use garage_pass.Terms.{Window, VisitAllowance}
use garage_pass.Passes.{State}
use garage_pass.Garage.{EnrolsAt}
use garage_pass.Enrolment.{CredentialState}

-- garages
pub record GarageRow : Type 0 where
  pub external_id : Text
  pub timezone : Text
  pub transient_available : Option Bool
  pub enrols_at : Option EnrolsAt

-- The column that a repair of a garage corrects.
pub data GarageColumn : Type 0 where
  timezone enrols_at : GarageColumn

-- garage_changes
pub record GarageChange : Type 0 where
  pub garage_id : Text
  pub field : GarageColumn
  pub old_value : Option Text
  pub new_value : Text
  pub changed_by : Text
  pub changed_at : Instant
  pub reason : Text

-- pass_lanes: one lane at one garage
pub record LaneRow : Type 0 where
  pub garage_id : Text
  pub lane : Text

-- passes, with its rows of pass_garages, pass_windows in their order and pass_lanes. The count and
-- the period of the allowance are stated together, by a CHECK.
pub record PassRow : Type 0 where
  pub external_id : Text
  pub label : Text
  pub holder_email : Text
  pub holder_name : Option Text
  pub holder_phone : Option Text
  pub valid_from : Option Day
  pub valid_to : Option Day
  pub max_stay_minutes : Option ℤ
  pub allowance : Option VisitAllowance
  pub entry_allowed : Bool
  pub exit_allowed : Bool
  pub lanes_stated : Bool
  pub state : State
  pub garages : List Text
  pub windows : List Window
  pub lanes : List LaneRow

-- Why a registration ended, and the texts ENDED_BY_* behind it.
pub data EndedReason : Type 0 where
  by_revocation by_expiry by_owner after_last_day by_next_stay : EndedReason
  by_checkout : Text → Text → EndedReason

-- pass_state_changes: a creation has no state before it
pub record ChangeRow : Type 0 where
  pub pass_id : Text
  pub from_state : Option State
  pub to_state : State
  pub changed_by : Text
  pub changed_at : Instant
  pub reason : Text

-- vehicle_registrations
pub record RegistrationRow : Type 0 where
  pub id : ℕ
  pub garage_id : Text
  pub pass_id : Text
  pub vehicle_identity : Text
  pub effective_day : Day
  pub end_day : Option Day
  pub ended_reason : Option EndedReason

-- visits
pub record VisitRow : Type 0 where
  pub id : ℕ
  pub garage_id : Text
  pub pass_id : Text
  pub vehicle_identity : Text
  pub entry_lane : Text
  pub entered_at : Instant
  pub exited_at : Option Instant
  pub exit_lane : Option Text

-- Who cancelled a credential and when. The only reason that the module writes is
-- CANCELLED_BY_REVOCATION, or the one that is stated.
pub record Cancellation : Type 0 where
  pub cancelled_by : Text
  pub cancelled_at : Instant
  pub cancelled_reason : Text

-- enrolments and holder_links: what a change of the pass's state and the registrations of a car read
-- and write of them. A holder link has no plate and is never exit-only.
pub record CredentialRow : Type 0 where
  pub external_id : Text
  pub pass_id : Text
  pub state : CredentialState
  pub starts_on : Day
  pub days_valid : ℕ
  pub plate : Option Text
  pub redeemed_vehicle_identity : Option Text
  pub exit_only_at : Option Instant
  pub cancellation : Option Cancellation

pub record Db : Type 0 where
  -- Whether the tenant's own row is there.
  pub seeded : Bool
  pub garages : List GarageRow
  pub garage_changes : List GarageChange
  pub passes : List PassRow
  pub state_changes : List ChangeRow
  pub registrations : List RegistrationRow
  pub visits : List VisitRow
  pub enrolments : List CredentialRow
  pub holder_links : List CredentialRow
  -- An id that no row has yet: what `gen_random_uuid()` gives next.
  pub next_id : ℕ

-- A day before an end that may be open.
abbrev pub before : Day → Option Day → Bool
before day none = true
before day (some end) = ltb day end

-- `daterange(f, e, '[)') && daterange(f', e', '[)')`: an empty range overlaps nothing.
unfoldable pub overlaps : Day → Option Day → Day → Option Day → Bool
overlaps from end from2 end2 =
    before from end && before from2 end2 && before from end2 && before from2 end

-- `end_day IS NOT DISTINCT FROM end`
abbrev pub same_end : Option Day → Option Day → Bool
same_end none none = true
same_end (some a) (some b) = a == b
same_end _ _ = false

-- `GREATEST(day, effective_day)`
abbrev pub greatest : Day → Day → Day
greatest a b = if ltb a b then b else a

-- the EXCLUDE of vehicle_registrations: two rows that cannot both stand
unfoldable pub conflicts : RegistrationRow → RegistrationRow → Bool
conflicts r s =
    text_eq r.garage_id s.garage_id
    && text_eq r.vehicle_identity s.vehicle_identity
    && overlaps r.effective_day r.end_day s.effective_day s.end_day

-- the partial unique index of visits: two visits that cannot both be open
unfoldable pub same_stay : Text → Text → Text → VisitRow → Bool
same_stay garage_id pass_id identity v =
    text_eq v.garage_id garage_id
    && text_eq v.pass_id pass_id
    && text_eq v.vehicle_identity identity
    && (elim v.exited_at [ none ↦ true | some _ ↦ false ])

-- `UPDATE … SET … WHERE …`
abbrev pub update_where {ℓ} : {A : Type ℓ} → (A → Bool) → (A → A) → List A → List A
update_where test change rows = map (λ r. if test r then change r else r) rows

-- `cursor.rowcount` of it
abbrev pub rows_where {ℓ} : {A : Type ℓ} → (A → Bool) → List A → ℕ
rows_where test rows = length (filter test rows)
