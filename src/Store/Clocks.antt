-- ===== src/Store/Clocks.antt =====
-- A garage is stored, and one whose clock cannot be read is repaired.
use garage_pass.Base.{◌≡◌, refl, ◌≢◌, false, [], ◌∷◌, some, Text, codes, text_eq, text_in}
use garage_pass.Findings.{Field}
use garage_pass.Result.{ok}
use garage_pass.Platform.{strip, lstrip, is_space, is_control}
use garage_pass.Localday.{zone}
use garage_pass.Garage.{
  Garage, require_text, make_garage, garage_from_stored, refuse_enrols_at_contradiction,
}
use garage_pass.Findings.{as_unreadable}
use garage_pass.States.{is_blank}
use garage_pass.Store.Rows.{Db, GarageChange, GarageColumn}
use garage_pass.Store.Load.{load_garage, load_readable_garage}
use garage_pass.Store.Garages.{garage_row, store_garage, Repaired, set_garage_timezone}
use garage_pass.Store.Repairs.{Repairs, store_garage-loads, set_garage_timezone-Repairs}
use garage_pass.Store.Example.{row_of, db}
use garage_pass.Sample.{platform, hour, garage}

abbrev third : Garage
third = record garage { id = codes "g3" }

abbrev with_third : Db
with_third = record db { garages = garage_row third ∷ db.garages }

third_built : make_garage platform third ≡ ok third
unfolding make_garage require_text zone text_in text_eq strip lstrip is_space is_control
    refuse_enrols_at_contradiction
third_built = refl

third_stored : store_garage db third ≡ ok with_third
unfolding store_garage text_eq
third_stored = refl

store_garage-loads_example :
    (load_readable_garage platform with_third (codes "g3") ≡ ok third)
    × ((id : Text)
        → id ≢ codes "g3"
        → load_garage platform with_third id ≡ load_garage platform db id)
store_garage-loads_example =
    store_garage-loads platform db third {stored = with_third} refl third_built third_stored

abbrev broken : Db
broken = record db { garages = record (row_of (codes "g1")) { timezone = codes "Mars" } ∷ [] }

abbrev correction : GarageChange
correction = record {
  garage_id = codes "g1";
  field = GarageColumn.timezone;
  old_value = some (codes "Mars");
  new_value = codes "UTC";
  changed_by = codes "ann";
  changed_at = hour 9;
  reason = codes "typo";
}

abbrev repaired : Repaired × Db
repaired = (
  record { was = some (codes "Mars"); was_readable = false; change = correction },
  record db { garages = row_of (codes "g1") ∷ []; garage_changes = correction ∷ [] },
)

is_repaired :
    set_garage_timezone platform broken
      (codes "g1")
      (codes "UTC")
      (codes "ann")
      (hour 9)
      (codes "typo")
    ≡ ok repaired
unfolding set_garage_timezone load_garage garage_from_stored make_garage require_text zone text_in
    text_eq strip lstrip is_space is_control refuse_enrols_at_contradiction as_unreadable
is_repaired = refl

set_garage_timezone-Repairs_example :
    (new_value : Text) × (require_text (codes "UTC") Field.garage_timezone ≡ ok new_value)
    × (is_blank (codes "ann") ≡ false)
    × (is_blank (codes "typo") ≡ false)
    × (correction.changed_by ≡ strip (codes "ann"))
    × (correction.changed_at ≡ hour 9)
    × (correction.reason ≡ strip (codes "typo"))
    × Repairs platform broken repaired.1 (codes "g1") new_value correction
set_garage_timezone-Repairs_example =
    set_garage_timezone-Repairs platform broken (codes "g1") (codes "UTC") (codes "ann") (hour 9)
      (codes "typo") {result = repaired} is_repaired
