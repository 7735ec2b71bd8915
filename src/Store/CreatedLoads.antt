-- ===== src/Store/CreatedLoads.antt =====
-- store/records.py: a pass that is created, as the store hands it out again.
use garage_pass.Base.{
  ◌≡◌, refl, sym, subst, ◌∙◌, ◌≢◌, Bool, true, false, not, List, ◌∷◌, none, Text, text_eq,
  text_eq_iff, text_eq_refl, text_in, text_leb, any, sort_by,
}
use garage_pass.Findings.{Code, Field}
use garage_pass.Result.{ok, raise, ok-inj, refuse_if, refuse_if-ok, map_all, >>=-eq-ok}
use garage_pass.Platform.{Platform, Instant}
use garage_pass.Garage.{require_text}
use garage_pass.Terms.{Terms, check_terms}
use garage_pass.Terms.Check.{check_terms-IsConsistent}
use garage_pass.Passes.{State, Holder, Pass, make_holder, make_pass}
use garage_pass.Store.Rows.{Db, PassRow, ChangeRow}
use garage_pass.Store.Load.{load_readable_garage, pass_named, pass_from_row, load_pass}
use garage_pass.Store.Create.{
  allowance_count, stay_minutes, pass_row, check_integer, creation, create_pass,
}
use garage_pass.Store.Created.{readable_pass, rounded, row-loads}

text_eq-false : (a b : Text) → b ≢ a → text_eq a b ≡ false
text_eq-false a b n = by_case (text_eq a b) refl
  where
    by_case : (c : Bool) → text_eq a b ≡ c → c ≡ false
    by_case false e = refl
    by_case true e = absurd (n (sym ((text_eq_iff a b).0 e)))

-- The store with one more row in front, and one more change.
abbrev pub with_row : Db → PassRow → ChangeRow → Db
with_row db row change = record db {
  passes = row ∷ db.passes;
  state_changes = change ∷ db.state_changes;
}

finds-itself :
    (db : Db) (row : PassRow) (change : ChangeRow) (garage_id : Text)
    → text_in garage_id row.garages ≡ true
    → load_pass (with_row db row change) garage_id row.external_id ≡ pass_from_row row
unfolding load_pass
finds-itself db row change garage_id e = rw (load_pass, text_eq_refl row.external_id) (rw e refl)

passes-over :
    (db : Db) (row : PassRow) (change : ChangeRow) (garage_id other : Text)
    → other ≢ row.external_id
    → load_pass (with_row db row change) garage_id other ≡ load_pass db garage_id other
unfolding load_pass
passes-over db row change garage_id other n =
    rw (load_pass, text_eq-false row.external_id other n) refl

refuses-elsewhere :
    (db : Db) (row : PassRow) (change : ChangeRow) (garage_id : Text)
    → text_in garage_id row.garages ≡ false
    → load_pass (with_row db row change) garage_id row.external_id
      ≡ raise Code.pass_not_found Field.pass_id
unfolding load_pass
refuses-elsewhere db row change garage_id e =
    rw (load_pass, text_eq_refl row.external_id) (rw e refl)

-- What the creation of a pass leaves, by the pass that is handed out again.
pub record Creates (before_it after : Db) (pass : Pass) (by : Text) (at : Instant) : Type 0 where
  pub was_new : any (pass_named pass.id) before_it.passes ≡ false
  pub handed_out :
      (g : Text) → text_in g pass.garage_ids ≡ true → load_pass after g pass.id ≡ ok pass
  pub only_there :
      (g : Text)
      → text_in g pass.garage_ids ≡ false
      → load_pass after g pass.id ≡ raise Code.pass_not_found Field.pass_id
  pub others_kept :
      (g other : Text) → other ≢ pass.id → load_pass after g other ≡ load_pass before_it g other
  pub row : PassRow
  pub change : ChangeRow
  pub written : after ≡ with_row before_it row change
  pub recorded :
      (change.pass_id ≡ pass.id)
      × (change.from_state ≡ none)
      × (change.to_state ≡ pass.state)
      × (change.changed_at ≡ at)
      × (require_text by Field.ended_by ≡ ok change.changed_by)

-- A readable pass that was built, states no lanes and is created is handed out again, at every garage
-- that it names and at no other, as it was, except that its longest stay is cut to whole minutes; its
-- id was new, every other pass loads at every garage as it did, and the call adds one row for the pass
-- and one change, by the actor and at the instant stated, and touches no other row.
pub create_pass-loads :
    (p : Platform) (db : Db) {after : Db} (garage_id id : Text) (garage_ids : List Text)
    (label : Text) (holder : Holder) (terms : Terms) (state : State) (by : Text) (at : Instant)
    → terms.allowed_lanes ≡ none
    → make_holder holder ≡ ok holder
    → check_terms terms ≡ ok tt
    → make_pass (readable_pass id garage_ids label holder terms state)
      ≡ ok (readable_pass id garage_ids label holder terms state)
    → create_pass p db garage_id (readable_pass id garage_ids label holder terms state) by at
      ≡ ok after
    → Creates db after (readable_pass id garage_ids label holder (rounded terms) state) by at
unfolding create_pass
create_pass-loads p db garage_id id garage_ids label holder terms state by at lanes held checked
      whole e =
    let (_, _, k1) = >>=-eq-ok (load_readable_garage p db garage_id) _ e in
    let (_, _, k2) =
      >>=-eq-ok
        (refuse_if (not (text_in garage_id garage_ids)) Code.garage_mismatch Field.pass_garage_ids)
        _ k1 in
    let (_, _, k3) =
      >>=-eq-ok (map_all (load_readable_garage p db) (sort_by text_leb garage_ids)) _ k2 in
    let (_, e4, k4) =
      >>=-eq-ok (refuse_if (any (pass_named id) db.passes) Code.pass_already_exists Field.pass_id) _
        k3 in
    let (_, e5, k5) = >>=-eq-ok (check_integer (stay_minutes terms.max_stay)) _ k4 in
    let (_, _, k5') = >>=-eq-ok (check_integer (allowance_count terms.visit_allowance)) _ k5 in
    let (who, e6, k6) = >>=-eq-ok (require_text by Field.ended_by) _ k5' in
    subst
      (λ (d : Db).
        Creates db d (readable_pass id garage_ids label holder (rounded terms) state) by at)
      (ok-inj k6)
      (record {
        was_new = (refuse_if-ok (any (pass_named id) db.passes) _ _).0 e4;
        handed_out = λ g there.
            finds-itself db (written terms holder) (recorded who) g there
            ∙ row-loads id garage_ids label holder terms state lanes whole held e5
                ((check_terms-IsConsistent terms).0 checked);
        only_there = λ g off. refuses-elsewhere db (written terms holder) (recorded who) g off;
        others_kept = λ g other n. passes-over db (written terms holder) (recorded who) g other n;
        row = written terms holder;
        change = recorded who;
        written = refl;
        recorded = (refl, refl, refl, refl, e6);
      })
  where
    written : Terms → Holder → PassRow
    written = pass_row (readable_pass id garage_ids label holder terms state)

    recorded : Text → ChangeRow
    recorded who = creation (readable_pass id garage_ids label holder terms state) who at
