-- ===== src/Store/Visits.antt =====
-- store/records.py: the ledger in order, and what `record_entry` does to it.
use garage_pass.Base.{
  ℕ, ◌+◌, ◌≡◌, refl, ap, subst, ◌∙◌, ◌≢◌, ◌≤◌, ◌<◌, ◌↔◌, inl, inr, true, false, ◌&&◌, List, [], ◌∷◌,
  Option, none, some, Text, text_eq, text_eq_iff, All, Pairwise, find, any, any-false_iff, is_some,
  Bool-cases, arith,
}
use garage_pass.Findings.{Code, Field}
use garage_pass.Result.{ok, refuse_if, ok-inj, >>=-eq-ok}
use garage_pass.Platform.{Platform, Instant}
use garage_pass.Garage.{require_text}
use garage_pass.Store.Rows.{Db, VisitRow, same_stay}
use garage_pass.Store.Load.{vehicle_key, load_readable_garage, load_pass}
use garage_pass.Store.Ledger.{open_visit, Recorded, entry_row, insert_visit, record_entry}

-- Two visits are not both open for one car on one pass at one garage.
abbrev pub NotBoth : VisitRow → VisitRow → Type 0
NotBoth v w =
    same_stay v.garage_id v.pass_id v.vehicle_identity v ≡ true
    → same_stay v.garage_id v.pass_id v.vehicle_identity w ≡ true
    → ⊥

-- No exit is before its entry: the CHECK of the table.
abbrev pub InTime : VisitRow → Type 0
InTime v = (exited : Instant) → v.exited_at ≡ some exited → v.entered_at ≤ exited

pub record IsOrderly (next : ℕ) (visits : List VisitRow) : Type 0 where
  pub one_open : Pairwise NotBoth visits
  pub in_time : All InTime visits
  pub given : All (λ (v : VisitRow). v.id < next) visits
  pub distinct : Pairwise (λ (v w : VisitRow). v.id ≢ w.id) visits

abbrev pub IsOpenAt : Text → Text → Text → VisitRow → Type 0
IsOpenAt g pass_id identity v =
    (v.garage_id ≡ g)
    × (v.pass_id ≡ pass_id)
    × (v.vehicle_identity ≡ identity)
    × (v.exited_at ≡ none)

pub same_stay_iff :
    (g pass_id identity : Text) (v : VisitRow)
    → (same_stay g pass_id identity v ≡ true) ↔ IsOpenAt g pass_id identity v
unfolding same_stay
same_stay_iff g pass_id identity v = by_exit v.exited_at
  where
    by_exit :
        (exited : Option Instant)
        → ((text_eq v.garage_id g
              && text_eq v.pass_id pass_id
              && text_eq v.vehicle_identity identity
              && (elim exited [ none ↦ true | some _ ↦ false ]))
            ≡ true)
          ↔ ((v.garage_id ≡ g)
              × (v.pass_id ≡ pass_id)
              × (v.vehicle_identity ≡ identity)
              × (exited ≡ none))
    by_exit none = ground (
      arith,
      text_eq_iff v.garage_id g,
      text_eq_iff v.pass_id pass_id,
      text_eq_iff v.vehicle_identity identity,
    )
    by_exit (some t) = ground arith

insert_visit-ok :
    (db : Db) (v : VisitRow) {written : Db}
    → insert_visit db v ≡ ok written
    → (any (same_stay v.garage_id v.pass_id v.vehicle_identity) db.visits ≡ false)
      × (record db { visits = v ∷ db.visits; next_id = db.next_id + 1 } ≡ written)
unfolding insert_visit
insert_visit-ok db v e =
    elim (Bool-cases (any (same_stay v.garage_id v.pass_id v.vehicle_identity) db.visits)) [
      | inl hit ↦ cc
      | inr free ↦ (free, ok-inj (rw free at e))
    ]

given_later :
    (next : ℕ) (visits : List VisitRow)
    → All (λ (v : VisitRow). v.id < next) visits
    → All (λ (v : VisitRow). v.id < next + 1) visits
given_later next [] h = tt
given_later next (v ∷ visits) h = (omega arith, given_later next visits h.1)

given_differ :
    (id next : ℕ) (visits : List VisitRow)
    → id ≡ next
    → All (λ (v : VisitRow). v.id < next) visits
    → All (λ (v : VisitRow). id ≢ v.id) visits
given_differ id next [] e h = tt
given_differ id next (v ∷ visits) e h = (λ q. omega arith, given_differ id next visits e h.1)

none_open :
    (g pass_id identity : Text) (visits : List VisitRow)
    → any (same_stay g pass_id identity) visits ≡ false
    → All (λ v. same_stay g pass_id identity v ≡ false) visits
none_open g pass_id identity visits =
    (any-false_iff (same_stay g pass_id identity) _ (λ v. (λ h. h, λ h. h)) visits).0

none_both :
    (v : VisitRow) (visits : List VisitRow)
    → All (λ w. same_stay v.garage_id v.pass_id v.vehicle_identity w ≡ false) visits
    → All (NotBoth v) visits
none_both v [] h = tt
none_both v (w ∷ visits) h = (λ a b. cc, none_both v visits h.1)

-- An open visit of a stay that has none leaves the ledger in order.
insert-IsOrderly :
    (next : ℕ) (visits : List VisitRow) (g pass_id identity lane : Text) (at : Instant)
    → IsOrderly next visits
    → any (same_stay g pass_id identity) visits ≡ false
    → IsOrderly (next + 1) (entry_row next g pass_id identity lane at ∷ visits)
insert-IsOrderly next visits g pass_id identity lane at o free = record {
  one_open = (
    none_both (entry_row next g pass_id identity lane at) visits
        (none_open g pass_id identity visits free),
    o.one_open,
  );
  in_time = (λ exited e. cc, o.in_time);
  given = (omega arith, given_later next visits o.given);
  distinct = (given_differ next next visits refl o.given, o.distinct);
}

-- An entry that is recorded was recorded for a stay that had no open visit, is the open visit of
-- the stay from then on, and leaves the ledger in order.
pub record_entry-IsOrderly :
    (p : Platform) (db : Db) (garage_id pass_id vehicle_identity lane : Text) (at : Instant)
    {result : Recorded × Db}
    → IsOrderly db.next_id db.visits
    → record_entry p db garage_id pass_id vehicle_identity lane at ≡ ok result
    → (identity : Text) × (entry_lane : Text) × (vehicle_key p vehicle_identity ≡ ok identity)
      × (require_text lane Field.lane ≡ ok entry_lane)
      × (open_visit db.visits garage_id pass_id identity ≡ none)
      × IsOrderly result.1.next_id result.1.visits
      × (open_visit result.1.visits garage_id pass_id identity
          ≡ some (entry_row db.next_id garage_id pass_id identity entry_lane at))
unfolding record_entry open_visit
record_entry-IsOrderly p db garage_id pass_id vehicle_identity lane at {result} o e =
    let (identity, e1, k1) = >>=-eq-ok (vehicle_key p vehicle_identity) _ e in
    let (garage, e2, k2) = >>=-eq-ok (load_readable_garage p db garage_id) _ k1 in
    let (pass, e3, k3) = >>=-eq-ok (load_pass db garage_id pass_id) _ k2 in
    let (_, e4, k4) =
      >>=-eq-ok
        (refuse_if (is_some (open_visit db.visits garage_id pass_id identity))
          Code.visit_already_open Field.vehicle_identity)
        _ k3 in
    let (entry_lane, e5, k5) = >>=-eq-ok (require_text lane Field.lane) _ k4 in
    let row = entry_row db.next_id garage_id pass_id identity entry_lane at in
    let (written, e6, k6) = >>=-eq-ok (insert_visit db row) _ k5 in
    let (free, same) = insert_visit-ok db row e6 in
    let after : written ≡ result.1 = ap (λ (r : Recorded × Db). r.1) (ok-inj k6) in
    (
      identity,
      entry_lane,
      e1,
      e5,
      none_found _ _ (open_visit db.visits garage_id pass_id identity) e4,
      subst (λ (d : Db). IsOrderly d.next_id d.visits) (same ∙ after)
          (insert-IsOrderly db.next_id db.visits garage_id pass_id identity entry_lane at o free),
      subst (λ (d : Db). find (same_stay garage_id pass_id identity) d.visits ≡ some row)
          (same ∙ after)
          (rw ((same_stay_iff garage_id pass_id identity row).1 (refl, refl, refl, refl)) refl),
    )
  where
    none_found :
        (c : Code) (f : Field) (v : Option VisitRow) → refuse_if (is_some v) c f ≡ ok tt → v ≡ none
    none_found c f none h = refl
    none_found c f (some v) h = cc
