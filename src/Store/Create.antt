-- ===== src/Store/Create.antt =====
-- store/records.py: `create_pass`. Of the columns of the table, a pass with validated terms can
-- be refused by the two that are integers, and the database's exception is no refusal.
use garage_pass.Base.{
  ◌/◌, not, List, [], ◌∷◌, ◌++◌, ◌||◌, map, Option, none, some, Text, codes, text_in, text_leb, any,
  is_some, sort_by, if◌then◌else◌, ℤ, pos, negsuc, eq_ℤ, leb_ℤ,
}
use garage_pass.Findings.{Code, Field, Unreadable}
use garage_pass.Result.{Result, Crash, ok, crash, raise, refuse_if, map_all, ◌>>=◌, ◌>>◌}
use garage_pass.Platform.{Platform, Instant}
use garage_pass.Localday.{minute_us}
use garage_pass.Garage.{require_text}
use garage_pass.Terms.{Terms, Direction, GarageLanes, VisitAllowance, direction_in}
use garage_pass.Passes.{Pass, Holder}
use garage_pass.Store.Rows.{Db, PassRow, LaneRow, ChangeRow}
use garage_pass.Store.Load.{load_readable_garage, pass_named}

-- `int(max_stay.total_seconds() // 60)`
abbrev pub whole_minutes : ℤ → ℤ
whole_minutes (pos n) = pos (n / minute_us)
whole_minutes (negsuc n) = negsuc (n / minute_us)

-- `… if terms.max_stay else None`
abbrev pub stay_minutes : Option ℤ → Option ℤ
stay_minutes none = none
stay_minutes (some d) = if eq_ℤ d (pos 0) then none else some (whole_minutes d)

abbrev pub lane_row : Text → Text → LaneRow
lane_row garage_id lane = record { garage_id = garage_id; lane = lane }

-- a row per garage and lane
abbrev pub lane_rows : List GarageLanes → List LaneRow
lane_rows [] = []
lane_rows (e ∷ es) = map (lane_row e.garage_id) (sort_by text_leb e.lanes) ++ lane_rows es

abbrev pub rows_of_lanes : Option (List GarageLanes) → List LaneRow
rows_of_lanes none = []
rows_of_lanes (some es) = lane_rows es

unfoldable pub pass_row : Pass → Terms → Holder → PassRow
pass_row pass terms holder = record {
  external_id = pass.id;
  label = pass.label;
  holder_email = holder.email;
  holder_name = holder.name;
  holder_phone = holder.phone;
  valid_from = terms.valid_from;
  valid_to = terms.valid_to;
  max_stay_minutes = stay_minutes terms.max_stay;
  allowance = terms.visit_allowance;
  entry_allowed = direction_in Direction.entry terms.directions;
  exit_allowed = direction_in Direction.exit terms.directions;
  lanes_stated = is_some terms.allowed_lanes;
  state = pass.state;
  garages = pass.garage_ids;
  windows = terms.windows;
  lanes = rows_of_lanes terms.allowed_lanes;
}

-- the terms and the holder of a pass that is readable
abbrev pub readable_parts :
    Option Unreadable → Option Terms → Option Holder → Result (Terms × Holder)
readable_parts none (some terms) (some holder) = ok (terms, holder)
readable_parts none (some terms) none = raise Code.field_blank Field.pass_terms
readable_parts none none holder = raise Code.field_blank Field.pass_terms
readable_parts (some u) terms holder = raise Code.field_blank Field.pass_terms

-- `count if terms.visit_allowance else None`
abbrev pub allowance_count : Option VisitAllowance → Option ℤ
allowance_count none = none
allowance_count (some a) = some a.count

-- a column `integer CHECK (… > 0)`, of 32 bits
abbrev pub check_integer : Option ℤ → Result (Unit {0})
check_integer none = ok tt
check_integer (some n) =
    if leb_ℤ n (pos 0) || leb_ℤ (pos 2147483648) n then crash Crash.database_error else ok tt

abbrev pub creation : Pass → Text → Instant → ChangeRow
creation pass who at = record {
  pass_id = pass.id;
  from_state = none;
  to_state = pass.state;
  changed_by = who;
  changed_at = at;
  reason = codes "created";
}

-- `create_pass`, with nobody writing in between
unfoldable pub create_pass : Platform → Db → Text → Pass → Text → Instant → Result Db
unfolding pass_row
create_pass p db garage_id pass by at = do
  parts ← readable_parts pass.unreadable pass.terms pass.holder
  _ ← load_readable_garage p db garage_id
  refuse_if (not (text_in garage_id pass.garage_ids)) Code.garage_mismatch Field.pass_garage_ids
  _ ← map_all (load_readable_garage p db) (sort_by text_leb pass.garage_ids)
  refuse_if (any (pass_named pass.id) db.passes) Code.pass_already_exists Field.pass_id
  check_integer (stay_minutes parts.0.max_stay)
  check_integer (allowance_count parts.0.visit_allowance)
  who ← require_text by Field.ended_by
  ok (record db {
    passes = pass_row pass parts.0 parts.1 ∷ db.passes;
    state_changes = creation pass who at ∷ db.state_changes;
  })
