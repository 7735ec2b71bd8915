-- ===== src/Store/Load.antt =====
-- store/records.py: a stored garage and a stored pass as values.
use garage_pass.Base.{
  suc, ◌-◌, ◌*◌, Bool, List, [], ◌∷◌, ◌++◌, map, Option, none, some, Text, text_eq, text_leb,
  text_in, find, filter, sort_by, if◌then◌else◌, ℤ, pos, negsuc, eq_ℤ,
}
use garage_pass.Findings.{Code, Field, Refused, as_unreadable}
use garage_pass.Result.{Result, ok, refuse, crash, raise, ◌>>=◌}
use garage_pass.Platform.{Platform}
use garage_pass.Localday.{minute_us}
use garage_pass.Garage.{Garage, garage_from_stored, require_text}
use garage_pass.Terms.{Terms, Direction, GarageLanes, VisitAllowance, make_terms}
use garage_pass.Passes.{Pass, Holder, make_holder, make_pass}
use garage_pass.Enrolment.{plate_key}
use garage_pass.Store.Rows.{Db, GarageRow, PassRow, LaneRow}

abbrev pub stated_key : Text → Result Text
stated_key [] = raise Code.field_blank Field.vehicle_identity
stated_key (c ∷ key) = ok (c ∷ key)

-- `vehicle_key`
unfoldable pub vehicle_key : Platform → Text → Result Text
vehicle_key p value =
    require_text value Field.vehicle_identity >>= λ text. stated_key (plate_key p text)

-- `load_garage`
unfoldable pub load_garage : Platform → Db → Text → Result Garage
load_garage p db external_id =
    elim (find (λ (g : GarageRow). text_eq g.external_id external_id) db.garages) [
      | none ↦ raise Code.garage_not_found Field.the_garage
      | some g ↦ garage_from_stored p external_id g.timezone g.transient_available g.enrols_at
    ]

abbrev pub readable_garage : Garage → Result Garage
readable_garage garage = elim garage.unreadable [ none ↦ ok garage | some u ↦ raise u.code u.field ]

-- `load_readable_garage`
unfoldable pub load_readable_garage : Platform → Db → Text → Result Garage
load_readable_garage p db external_id = load_garage p db external_id >>= readable_garage

-- the lanes of one garage, of the rows that follow
abbrev pub lanes_of : Text → List LaneRow → List Text
lanes_of garage_id rows =
    map (λ (l : LaneRow). l.lane) (filter (λ (l : LaneRow). text_eq l.garage_id garage_id) rows)

-- `by_garage`: the garages that have a row, each once
abbrev pub lane_garages : List LaneRow → List Text
lane_garages [] = []
lane_garages (l ∷ rows) =
    let rest = lane_garages rows in if text_in l.garage_id rest then rest else l.garage_id ∷ rest

unfoldable pub stored_lanes : List LaneRow → List GarageLanes
stored_lanes rows =
    map
      (λ garage_id. record {
        garage_id = garage_id;
        lanes = sort_by text_leb (lanes_of garage_id rows);
      })
      (sort_by text_leb (lane_garages rows))

abbrev pub stored_directions : Bool → Bool → List Direction
stored_directions entry_allowed exit_allowed =
    (if entry_allowed then Direction.entry ∷ [] else [])
    ++ (if exit_allowed then Direction.exit ∷ [] else [])

-- `timedelta(minutes=max_stay)`
abbrev pub minutes : ℤ → ℤ
minutes (pos n) = pos (n * minute_us)
minutes (negsuc n) = negsuc (suc n * minute_us - 1)

-- `VisitAllowance(count, AllowancePeriod(per)) if count else None`
abbrev pub stored_allowance : Option VisitAllowance → Option VisitAllowance
stored_allowance none = none
stored_allowance (some a) = if eq_ℤ a.count (pos 0) then none else some a

abbrev pub stored_terms : PassRow → Terms
stored_terms row = record {
  valid_from = row.valid_from;
  valid_to = row.valid_to;
  windows = row.windows;
  max_stay = elim row.max_stay_minutes [ none ↦ none | some n ↦ some (minutes n) ];
  visit_allowance = stored_allowance row.allowance;
  directions = stored_directions row.entry_allowed row.exit_allowed;
  allowed_lanes = if row.lanes_stated then some (stored_lanes row.lanes) else none;
}

abbrev pub stored_holder : PassRow → Holder
stored_holder row = record {
  email = row.holder_email;
  name = row.holder_name;
  phone = row.holder_phone;
}

-- `_readable_pass_from_row`
unfoldable pub readable_pass_from_row : PassRow → Result Pass
readable_pass_from_row row = do
  holder ← make_holder (stored_holder row)
  terms ← make_terms (stored_terms row)
  make_pass (record {
    id = row.external_id;
    garage_ids = row.garages;
    label = row.label;
    holder = some holder;
    terms = some terms;
    state = row.state;
    unreadable = none;
  })

-- the pass that stands for a row that was refused
abbrev pub unreadable_pass : PassRow → Refused → Pass
unreadable_pass row refusal = record {
  id = row.external_id;
  garage_ids = row.garages;
  label = row.label;
  holder = none;
  terms = none;
  state = row.state;
  unreadable = some (as_unreadable refusal);
}

abbrev pub or_unreadable : PassRow → Result Pass → Result Pass
or_unreadable row (ok pass) = ok pass
or_unreadable row (refuse refusal) = make_pass (unreadable_pass row refusal)
or_unreadable row (crash why) = crash why

-- `_pass_from_row`
unfoldable pub pass_from_row : PassRow → Result Pass
unfolding readable_pass_from_row
pass_from_row row = or_unreadable row (readable_pass_from_row row)

abbrev pub pass_named : Text → PassRow → Bool
pass_named external_id row = text_eq row.external_id external_id

abbrev pub at_garage : Text → PassRow → Result Pass
at_garage garage_id row =
    if text_in garage_id row.garages
    then pass_from_row row
    else raise Code.pass_not_found Field.pass_id

-- `load_pass`
unfoldable pub load_pass : Db → Text → Text → Result Pass
unfolding pass_from_row
load_pass db garage_id external_id = elim (find (pass_named external_id) db.passes) [
  | none ↦ raise Code.pass_not_found Field.pass_id
  | some row ↦ at_garage garage_id row
]

-- `garages_of`: in external-id order
unfoldable pub garages_of : Db → Text → List Text
garages_of db external_id = elim (find (pass_named external_id) db.passes) [
  | none ↦ []
  | some row ↦ sort_by text_leb row.garages
]
