-- ===== src/Store/Repairs.antt =====
-- store/records.py: what a stored or repaired garage loads as.
use garage_pass.Base.{
  ◌≡◌, refl, ap, subst, ◌≢◌, false, not, ◌∷◌, none, some, Text, text_eq, text_eq_iff, text_eq_refl,
  any, arith, In,
}
use garage_pass.Findings.{Code, Field}
use garage_pass.Result.{ok, ok-inj, refuse_if, >>=-eq-ok}
use garage_pass.Platform.{Platform, Zone, Instant, strip}
use garage_pass.Localday.{zone}
use garage_pass.Garage.{Garage, require_text, make_garage, garage_from_stored, degrade}
use garage_pass.States.{is_blank}
use garage_pass.Store.Rows.{Db, GarageRow, GarageColumn, GarageChange, update_where}
use garage_pass.Store.Load.{load_garage, load_readable_garage}
use garage_pass.Store.Garages.{
  garage_named, garage_row, store_garage, Repaired, check_who_and_why, set_garage_timezone,
  repair_change,
}
use garage_pass.Store.Retimed.{retimed-readable, same-loaded, update-find_other, kept-In}

-- A garage that was built and is readable loads from its row as it is.
row-loads :
    (p : Platform) (g : Garage)
    → g.unreadable ≡ none
    → make_garage p g ≡ ok g
    → garage_from_stored p g.id g.timezone g.transient_available g.enrols_at ≡ ok g
unfolding garage_from_stored
row-loads p g readable built =
    let same : g ≡ record g { unreadable = none } =
      ap (λ u. record g { unreadable = u }) readable in
    subst (λ x. degrade p x (make_garage p x) ≡ ok g) same (rw built refl)

-- A garage that is stored loads, readable, as the garage that was built, and every other garage
-- loads as it did.
pub store_garage-loads :
    (p : Platform) (db : Db) (g : Garage) {stored : Db}
    → g.unreadable ≡ none
    → make_garage p g ≡ ok g
    → store_garage db g ≡ ok stored
    → (load_readable_garage p stored g.id ≡ ok g)
      × ((id : Text) → id ≢ g.id → load_garage p stored id ≡ load_garage p db id)
unfolding store_garage load_readable_garage load_garage text_eq
store_garage-loads p db g {stored} readable built e =
    let (_, e1, k1) =
      >>=-eq-ok (refuse_if (not db.seeded) Code.tenant_not_found Field.tenant) _ e in
    let (_, e2, k2) =
      >>=-eq-ok
        (refuse_if (any (garage_named g.id) db.garages) Code.garage_already_exists Field.garage_id)
        _ k1 in
    subst
      (λ (d : Db).
        (load_readable_garage p d g.id ≡ ok g)
        × ((id : Text) → id ≢ g.id → load_garage p d id ≡ load_garage p db id))
      (ok-inj k2)
      (
        rw (text_eq_refl g.id, row-loads p g readable built) (rw readable refl),
        λ id n. other id (unlike id n),
      )
  where
    unlike : (id : Text) → id ≢ g.id → text_eq g.id id ≡ false
    unlike id n = ground (arith, n, text_eq_iff g.id id)

    other :
        (id : Text)
        → text_eq g.id id ≡ false
        → load_garage p (record db { garages = garage_row g ∷ db.garages }) id ≡ load_garage p db id
    other id f = rw f refl

-- What a repair of a garage's clock leaves.
pub record Repairs (p : Platform) (before after : Db) (garage_id new_value : Text)
    (change : GarageChange) : Type 0 where
  pub clock : (z : Zone) × (zone p new_value ≡ ok z)
  pub was : Garage
  pub loaded : load_garage p before garage_id ≡ ok was
  pub now : Garage
  pub readable : load_readable_garage p after garage_id ≡ ok now
  pub retimed : now.timezone ≡ new_value
  pub same_stated :
      (now.transient_available ≡ was.transient_available) × (now.enrols_at ≡ was.enrols_at)
  pub recorded : after.garage_changes ≡ change ∷ before.garage_changes
  pub of_clock : (change.garage_id ≡ garage_id) × (change.field ≡ GarageColumn.timezone)
  pub old_name : change.old_value ≡ some was.timezone
  pub new_name : change.new_value ≡ new_value
  pub others_kept : (id : Text) → id ≢ garage_id → load_garage p after id ≡ load_garage p before id
  pub rows_kept :
      (row : GarageRow) → row.external_id ≢ garage_id → In row before.garages → In row after.garages
  pub tables_kept :
      after ≡ record before { garages = after.garages; garage_changes = after.garage_changes }

-- The store with the clock set and the change recorded.
abbrev retimed_db : Text → Text → GarageChange → Db → Db
retimed_db garage_id new_value change db = record db {
  garages =
      update_where (garage_named garage_id) (λ (r : GarageRow). record r { timezone = new_value })
        db.garages;
  garage_changes = change ∷ db.garage_changes;
}

timezone-Repairs :
    (p : Platform) (db : Db) (garage_id new_value : Text) (change : GarageChange) {g : Garage}
    {z : Zone}
    → zone p new_value ≡ ok z
    → load_garage p db garage_id ≡ ok g
    → (change.garage_id ≡ garage_id) × (change.field ≡ GarageColumn.timezone)
    → change.old_value ≡ some g.timezone
    → change.new_value ≡ new_value
    → Repairs p db (retimed_db garage_id new_value change db) garage_id new_value change
timezone-Repairs p db garage_id new_value change {g} {z} listed loads clock old new =
    let (h, read, tz, transient, enrols) =
      retimed-readable p db (retimed_db garage_id new_value change db) garage_id new_value refl
        loads listed in
    record {
      clock = (z, listed);
      was = g;
      loaded = loads;
      now = h;
      readable = read;
      retimed = tz;
      same_stated = (transient, enrols);
      recorded = refl;
      of_clock = clock;
      old_name = old;
      new_name = new;
      others_kept = λ id n. same-loaded p (retimed_db garage_id new_value change db) db id (
          update-find_other (λ (r : GarageRow). record r { timezone = new_value }) (λ r. refl)
            garage_id id db.garages n);
      rows_kept = λ row n m. kept-In garage_id new_value row db.garages n m;
      tables_kept = refl;
    }

-- A repair of a garage's clock that goes through leaves the garage readable, on the clock that was
-- stated, whether or not it was readable before, and with what it had stated of transient parking and
-- of its enrolling end; it records the garage, the old name of its zone and the new one, by whom, when
-- and why; and it leaves every other garage, and every table but the garages and their changes, as it
-- was.
pub set_garage_timezone-Repairs :
    (p : Platform) (db : Db) (garage_id timezone by : Text) (at : Instant) (reason : Text)
    {result : Repaired × Db}
    → set_garage_timezone p db garage_id timezone by at reason ≡ ok result
    → (new_value : Text) × (require_text timezone Field.garage_timezone ≡ ok new_value)
      × (is_blank by ≡ false)
      × (is_blank reason ≡ false)
      × (result.0.change.changed_by ≡ strip by)
      × (result.0.change.changed_at ≡ at)
      × (result.0.change.reason ≡ strip reason)
      × Repairs p db result.1 garage_id new_value result.0.change
unfolding set_garage_timezone
set_garage_timezone-Repairs p db garage_id timezone by at reason {result} e =
    let (new_value, e1, k1) = >>=-eq-ok (require_text timezone Field.garage_timezone) _ e in
    let (z, e2, k2) = >>=-eq-ok (zone p new_value) _ k1 in
    let (_, e3, k3) = >>=-eq-ok (check_who_and_why by reason) _ k2 in
    let (g, e4, k4) = >>=-eq-ok (load_garage p db garage_id) _ k3 in
    let (who, when, why, repaired) =
      subst
        (λ (r : Repaired × Db).
          (r.0.change.changed_by ≡ strip by)
          × (r.0.change.changed_at ≡ at)
          × (r.0.change.reason ≡ strip reason)
          × Repairs p db r.1 garage_id new_value r.0.change)
        (ok-inj k4)
        (
          refl,
          refl,
          refl,
          timezone-Repairs p db garage_id new_value
              (repair_change garage_id GarageColumn.timezone (some g.timezone) new_value by at
                reason)
              e2 e4 (refl, refl) refl refl,
        ) in
    (new_value, e1, (ground (arith, e3)), (ground (arith, e3)), who, when, why, repaired)
