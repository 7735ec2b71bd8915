-- ===== src/Store/Garages.antt =====
-- store/records.py: storing a garage, and the two repairs of a stored one.
use garage_pass.Base.{Bool, true, false, not, ◌∷◌, Option, none, some, Text, text_eq, any}
use garage_pass.Findings.{Code, Field}
use garage_pass.Result.{Result, ok, refuse_if, ◌>>=◌, ◌>>◌}
use garage_pass.Platform.{Platform, Instant, strip}
use garage_pass.Localday.{zone}
use garage_pass.Garage.{
  Garage, EnrolsAt, enrols_at_text, require_text, require_enrols_at, refuse_enrols_at_contradiction,
}
use garage_pass.States.{is_blank}
use garage_pass.Store.Rows.{Db, GarageRow, GarageColumn, GarageChange, update_where}
use garage_pass.Store.Load.{load_garage, load_readable_garage}

abbrev pub garage_named : Text → GarageRow → Bool
garage_named external_id g = text_eq g.external_id external_id

abbrev pub garage_row : Garage → GarageRow
garage_row g = record {
  external_id = g.id;
  timezone = g.timezone;
  transient_available = g.transient_available;
  enrols_at = g.enrols_at;
}

-- `store_garage`, with nobody writing in between
unfoldable pub store_garage : Db → Garage → Result Db
store_garage db garage = do
  refuse_if (not db.seeded) Code.tenant_not_found Field.tenant
  refuse_if (any (garage_named garage.id) db.garages) Code.garage_already_exists Field.garage_id
  ok (record db { garages = garage_row garage ∷ db.garages })

-- What a repair gives back, beside what it was called with.
pub record Repaired : Type 0 where
  pub was : Option Text
  pub was_readable : Bool
  pub change : GarageChange

abbrev pub repair_change :
    Text → GarageColumn → Option Text → Text → Text → Instant → Text → GarageChange
repair_change garage_id field was new_value by at reason = record {
  garage_id = garage_id;
  field = field;
  old_value = was;
  new_value = new_value;
  changed_by = strip by;
  changed_at = at;
  reason = strip reason;
}

abbrev pub is_readable : Garage → Bool
is_readable g = elim g.unreadable [ none ↦ true | some _ ↦ false ]

-- who and why, before anything changes
abbrev pub check_who_and_why : Text → Text → Result (Unit {0})
check_who_and_why by reason =
    refuse_if (is_blank by) Code.repair_needs_who_and_why Field.changed_by
    >> refuse_if (is_blank reason) Code.repair_needs_who_and_why Field.reason

-- `set_garage_timezone`: the one write that takes a garage that cannot be read
unfoldable pub set_garage_timezone :
    Platform → Db → Text → Text → Text → Instant → Text → Result (Repaired × Db)
set_garage_timezone p db garage_id timezone by at reason = do
  new_value ← require_text timezone Field.garage_timezone
  _ ← zone p new_value
  check_who_and_why by reason
  garage ← load_garage p db garage_id
  ok (
    record {
      was = some garage.timezone;
      was_readable = is_readable garage;
      change =
          repair_change garage_id GarageColumn.timezone (some garage.timezone) new_value by at
            reason;
    },
    record db {
      garages =
          update_where (garage_named garage_id)
            (λ (g : GarageRow). record g { timezone = new_value }) db.garages;
      garage_changes =
          repair_change garage_id GarageColumn.timezone (some garage.timezone) new_value by at
            reason
          ∷ db.garage_changes;
    },
  )

abbrev pub stated_text : Option EnrolsAt → Option Text
stated_text none = none
stated_text (some e) = some (enrols_at_text e)

-- `set_garage_enrols_at`
unfoldable pub set_garage_enrols_at :
    Platform → Db → Text → Text → Text → Instant → Text → Result (Repaired × Db)
set_garage_enrols_at p db garage_id enrols_at by at reason = do
  text ← require_text enrols_at Field.garage_enrols_at
  new_value ← require_enrols_at (some text)
  check_who_and_why by reason
  garage ← load_readable_garage p db garage_id
  refuse_enrols_at_contradiction garage.transient_available new_value
  ok (
    record {
      was = stated_text garage.enrols_at;
      was_readable = true;
      change =
          repair_change garage_id GarageColumn.enrols_at (stated_text garage.enrols_at) text by at
            reason;
    },
    record db {
      garages =
          update_where (garage_named garage_id)
            (λ (g : GarageRow). record g { enrols_at = new_value }) db.garages;
      garage_changes =
          repair_change garage_id GarageColumn.enrols_at (stated_text garage.enrols_at) text by at
            reason
          ∷ db.garage_changes;
    },
  )
