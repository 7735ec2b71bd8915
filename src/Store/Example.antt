-- ===== src/Store/Example.antt =====
-- A small store, for the tests and the worked examples.
use garage_pass.Base.{true, false, [], ◌∷◌, none, some, pos, Text, codes, ◌+◌, ◌-◌}
use garage_pass.Passes.{State}
use garage_pass.Store.Rows.{Db, GarageRow, PassRow, RegistrationRow, EndedReason}
use garage_pass.Sample.{monday, office_hours}

abbrev pub row_of : Text → GarageRow
row_of id = record {
  external_id = id;
  timezone = codes "UTC";
  transient_available = some true;
  enrols_at = none;
}

abbrev pub p1 : PassRow
p1 = record {
  external_id = codes "p1";
  label = codes "office";
  holder_email = codes "a@b";
  holder_name = none;
  holder_phone = none;
  valid_from = some (monday - 7);
  valid_to = some (monday + 7);
  max_stay_minutes = some (pos 240);
  allowance = none;
  entry_allowed = true;
  exit_allowed = true;
  lanes_stated = false;
  state = State.active;
  garages = codes "g1" ∷ codes "g2" ∷ [];
  windows = office_hours ∷ [];
  lanes = [];
}

abbrev pub p2 : PassRow
p2 = record p1 { external_id = codes "p2"; garages = codes "g1" ∷ [] }

-- The car's earlier stay, on the other pass: its last day is that Monday.
abbrev pub stay : RegistrationRow
stay = record {
  id = 0;
  garage_id = codes "g1";
  pass_id = codes "p2";
  vehicle_identity = codes "AB123";
  effective_day = monday - 3;
  end_day = some (monday + 1);
  ended_reason = some EndedReason.after_last_day;
}

abbrev pub db : Db
db = record {
  seeded = true;
  garages = row_of (codes "g1") ∷ row_of (codes "g2") ∷ [];
  garage_changes = [];
  passes = p1 ∷ p2 ∷ [];
  state_changes = [];
  registrations = stay ∷ [];
  visits = [];
  enrolments = [];
  holder_links = [];
  next_id = 1;
}
