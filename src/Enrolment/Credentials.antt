-- ===== src/Enrolment/Credentials.antt =====
-- The credential's derived state, its typed names, and where a garage enrols.
use garage_pass.Base.{
  ℕ, ◌+◌, ◌-◌, ◌≤◌, ◌<◌, ◌≡◌, refl, subst, ◌≢◌, ◌↔◌, ◌⊎◌, Bool, true, false, Option, none, some,
  Text, arith, ℤ, pos, negsuc, text_eq, text_eq_iff,
}
use garage_pass.Findings.{Code, Field}
use garage_pass.Result.{Crash, ok, crash, >>=-eq-ok, refuse_if-ok}
use garage_pass.Platform.{Platform, Day, max_day}
use garage_pass.Garage.{
  Garage, EnrolsAt, make_garage, contradicts, require_text, check_zone,
  refuse_enrols_at_contradiction,
}
use garage_pass.Enrolment.Defs.{
  CredentialState, typed, expired, credential_value, parse_credential_state, expired_credential,
  require_days_valid, last_day, credential_state, where_enrolment_happens, enrolment_end,
}

-- For N days stated, N positive, and dates that are of the calendar, from the starting day on: a
-- credential is read as issued exactly when it is issued, fewer than N days have passed and its last
-- day is of the calendar; as expired exactly when it is issued and N or more days have passed; the
-- read raises an OverflowError exactly when it is issued and its last day is past the calendar; and
-- as redeemed or cancelled exactly when it is that.
pub credential_state_lem :
    (starts_on days_valid : ℕ) (state : CredentialState) (today : Day)
    → 1 ≤ days_valid
    → 1 ≤ starts_on
    → starts_on ≤ today
    → today ≤ max_day
    → ((credential_state starts_on days_valid state today ≡ ok (typed CredentialState.issued)) ↔ (
        (state ≡ CredentialState.issued)
        × (today - starts_on < days_valid)
        × (starts_on + days_valid - 1 ≤ max_day)))
      × ((credential_state starts_on days_valid state today ≡ ok expired)
          ↔ ((state ≡ CredentialState.issued) × (days_valid ≤ today - starts_on)))
      × ((credential_state starts_on days_valid state today ≡ crash Crash.overflow_error)
          ↔ ((state ≡ CredentialState.issued) × (max_day < starts_on + days_valid - 1)))
      × ((credential_state starts_on days_valid state today ≡ ok (typed CredentialState.redeemed))
          ↔ (state ≡ CredentialState.redeemed))
      × ((credential_state starts_on days_valid state today ≡ ok (typed CredentialState.cancelled))
          ↔ (state ≡ CredentialState.cancelled))
unfolding credential_state last_day
credential_state_lem starts_on days_valid state today positive dated begun of_calendar =
    ground arith

-- `require_days_valid` passes exactly the positive numbers, unchanged.
pub require_days_valid_iff :
    (value : Option ℤ) (n : ℕ)
    → (require_days_valid value ≡ ok n) ↔ ((1 ≤ n) × (value ≡ some (pos n)))
unfolding require_days_valid
require_days_valid_iff none n = ground arith
require_days_valid_iff (some (pos m)) n = ground arith
require_days_valid_iff (some (negsuc m)) n = ground arith

-- A stored or typed name is read as a state exactly when it is the state's own value; `expired` is
-- the value of none.
pub parse_credential_state_iff :
    (name : Text) (s : CredentialState)
    → (parse_credential_state name ≡ ok s) ↔ (name ≡ credential_value s)
unfolding parse_credential_state
parse_credential_state_iff name s = (there s, back s)
  where
    there : (s : CredentialState) → parse_credential_state name ≡ ok s → name ≡ credential_value s
    there s h = ground (
      arith,
      text_eq_iff name expired_credential,
      text_eq_iff name (credential_value CredentialState.issued),
      text_eq_iff name (credential_value CredentialState.redeemed),
      text_eq_iff name (credential_value CredentialState.cancelled),
    )

    back : (s : CredentialState) → name ≡ credential_value s → parse_credential_state name ≡ ok s
    back CredentialState.issued e = rw e (unfold text_eq in refl)
    back CredentialState.redeemed e = rw e (unfold text_eq in refl)
    back CredentialState.cancelled e = rw e (unfold text_eq in refl)

agrees_iff :
    (transient : Option Bool) (stated : Option EnrolsAt) (at_end : EnrolsAt)
    → contradicts transient stated ≡ false
    → (enrolment_end transient stated ≡ ok at_end) ↔ (
        ((stated ≡ some at_end) × (transient ≢ none))
        ⊎ ((stated ≡ none) × (transient ≡ some false) × (at_end ≡ EnrolsAt.entry)))
agrees_iff none stated at_end h = ground arith
agrees_iff (some true) stated at_end h = ground arith
agrees_iff (some false) none at_end h = ground arith
agrees_iff (some false) (some EnrolsAt.entry) at_end h = ground arith
agrees_iff (some false) (some EnrolsAt.exit) at_end h = cc

-- A garage that was built enrols at the end that it states, once it has stated whether it takes
-- transient parking; with no end stated, it enrols at its entry if it takes none; any other
-- garage's enrolment is refused.
pub where_enrolment_happens_iff :
    (p : Platform) (row : Garage) {g : Garage} (at_end : EnrolsAt)
    → make_garage p row ≡ ok g
    → (where_enrolment_happens g ≡ ok at_end) ↔ (
        ((g.enrols_at ≡ some at_end) × (g.transient_available ≢ none))
        ⊎ ((g.enrols_at ≡ none) × (g.transient_available ≡ some false) × (at_end ≡ EnrolsAt.entry)))
unfolding make_garage refuse_enrols_at_contradiction where_enrolment_happens
where_enrolment_happens_iff p row {g = g} at_end h =
    let (id, _, h1) = >>=-eq-ok (require_text row.id Field.garage_id) _ h in
    let (_, _, h2) = >>=-eq-ok (check_zone p row.unreadable row.timezone) _ h1 in
    let (_, k, h3) =
      >>=-eq-ok (refuse_enrols_at_contradiction row.transient_available row.enrols_at) _ h2 in
    let agrees : contradicts row.transient_available row.enrols_at ≡ false =
      (refuse_if-ok _ Code.enrols_at_contradicts_transient Field.garage_enrols_at).0 k in
    let same : record row { id = id } ≡ g = cc in
    subst
      (λ (x : Garage). (where_enrolment_happens x ≡ ok at_end) ↔ (
        ((x.enrols_at ≡ some at_end) × (x.transient_available ≢ none))
        ⊎ ((x.enrols_at ≡ none)
            × (x.transient_available ≡ some false)
            × (at_end ≡ EnrolsAt.entry))))
      same (agrees_iff row.transient_available row.enrols_at at_end agrees)
