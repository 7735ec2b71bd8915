-- ===== src/Store/Revoked.antt =====
-- store/records.py: what the revocation of `change_state` leaves.
use garage_pass.Base.{◌≡◌, refl, sym, ap, subst, ◌≢◌, false, List, ◌∷◌, Text, All, In}
use garage_pass.Result.{ok, ok-inj, >>=-eq-ok, map_all}
use garage_pass.Platform.{Platform, Instant}
use garage_pass.Passes.{State, Pass, StateChange}
use garage_pass.States.{transition, is_blank}
use garage_pass.States.Graph.{Moves, change_of, transition_sound}
use garage_pass.Store.Rows.{Db, RegistrationRow, CredentialRow}
use garage_pass.Store.Load.{load_readable_garage, load_pass, garages_of}
use garage_pass.Store.Writing.{IsSound}
use garage_pass.Store.Change.{
  DayAt, day_at, days_at, is_live_enrolment, is_live_link, Changed, change_row, moved_to,
  revoke_rows, change_state,
}
use garage_pass.Store.Ending.{
  Ended, end_registrations-IsSound, end_registrations-Ended, end_registrations-other, cancelled,
}

pub record Revokes (before after : Db) (pass_id : Text) (days : List DayAt) (change : StateChange)
    : Type 0 where
  pub sound : IsSound after.next_id after.registrations
  pub ended : All (λ d. All (Ended pass_id d) after.registrations) days
  pub others_kept :
      (r : RegistrationRow)
      → r.pass_id ≢ pass_id
      → In r before.registrations
      → In r after.registrations
  pub no_live_enrolment :
      All
        (λ (c : CredentialRow). c.pass_id ≡ pass_id → is_live_enrolment c.state ≡ false)
        after.enrolments
  pub no_live_link :
      All
        (λ (c : CredentialRow). c.pass_id ≡ pass_id → is_live_link c.state ≡ false)
        after.holder_links
  pub recorded : after.state_changes ≡ change_row pass_id change ∷ before.state_changes

revoke_rows-Revokes :
    (db : Db) (pass_id : Text) (change : StateChange) (days : List DayAt)
    → IsSound db.next_id db.registrations
    → Revokes db
        (revoke_rows (moved_to db pass_id change State.revoked) pass_id change days).1
        pass_id
        days
        change
unfolding revoke_rows
revoke_rows-Revokes db pass_id change days s = record {
  sound = end_registrations-IsSound db.next_id pass_id days db.registrations s;
  ended = end_registrations-Ended db.next_id pass_id days db.registrations s;
  others_kept = end_registrations-other pass_id days db.registrations;
  no_live_enrolment = cancelled is_live_enrolment refl pass_id change db.enrolments;
  no_live_link = cancelled is_live_link refl pass_id change db.holder_links;
  recorded = refl;
}

-- A revocation that goes through, by an actor who is stated with a reason, of a pass that was not
-- revoked, read every garage's own day first; it leaves no registration of the pass past that day
-- at any of its garages, no enrolment and no holder link of the pass live, the registrations sound,
-- those of other passes as they were, and the change in the pass's history.
pub change_state-Revokes :
    (p : Platform) (db : Db) (garage_id pass_id by : Text) (at : Instant) (reason : Text)
    {result : Changed × Db}
    → IsSound db.next_id db.registrations
    → change_state p db garage_id pass_id State.revoked by at reason ≡ ok result
    → (pass : Pass) × (days : List DayAt) × (load_pass db garage_id pass_id ≡ ok pass)
      × Moves pass.state State.revoked
      × (is_blank by ≡ false)
      × (is_blank reason ≡ false)
      × (map_all (day_at p db at) (garages_of db pass_id) ≡ ok days)
      × Revokes db result.1 pass_id days (change_of pass State.revoked by at reason)
unfolding change_state
change_state-Revokes p db garage_id pass_id by at reason {result} s e =
    let (garage, e1, k1) = >>=-eq-ok (load_readable_garage p db garage_id) _ e in
    let (pass, e2, k2) = >>=-eq-ok (load_pass db garage_id pass_id) _ k1 in
    let (moved, e3, k3) = >>=-eq-ok (transition pass State.revoked by at reason) _ k2 in
    let (days, e4, k4) = >>=-eq-ok (days_at p db State.revoked at pass_id) _ k3 in
    let (arrow, named, stated, same) = transition_sound pass State.revoked by at reason e3 in
    let after = ap (λ (r : Changed × Db). r.1) (ok-inj k4) in
    (
      pass,
      days,
      e2,
      arrow,
      named,
      stated,
      e4,
      subst (λ (d : Db). Revokes db d pass_id days (change_of pass State.revoked by at reason))
          after
          (subst
            (λ (m : Pass × StateChange).
              Revokes db (revoke_rows (moved_to db pass_id m.1 m.0.state) pass_id m.1 days).1
                pass_id days (change_of pass State.revoked by at reason))
            (sym same)
            (revoke_rows-Revokes db pass_id (change_of pass State.revoked by at reason) days s)),
    )
