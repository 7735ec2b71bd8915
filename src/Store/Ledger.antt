-- ===== src/Store/Ledger.antt =====
-- store/records.py: the ledger of visits. A refusal ends the call, and its caller rolls back.
use garage_pass.Base.{
  ℕ, ◌+◌, ◌==◌, Bool, List, ◌∷◌, Option, none, some, Text, text_eq, ltb, leb, find, any, filter,
  sort_by, is_some, if◌then◌else◌,
}
use garage_pass.Findings.{Code, Field}
use garage_pass.Result.{Result, ok, raise, refuse_if, ◌>>=◌, ◌>>◌, map_all}
use garage_pass.Platform.{Platform, Instant}
use garage_pass.Garage.{require_text}
use garage_pass.Passes.{Visit, make_visit}
use garage_pass.Store.Rows.{Db, VisitRow, same_stay, update_where}
use garage_pass.Store.Load.{vehicle_key, load_readable_garage, load_pass}

-- `_open_visit`
unfoldable pub open_visit : List VisitRow → Text → Text → Text → Option VisitRow
open_visit visits garage_id pass_id identity = find (same_stay garage_id pass_id identity) visits

-- What a recorded movement gives back.
pub record Recorded : Type 0 where
  pub pass_id : Text
  pub vehicle_identity : Text
  pub entered_at : Instant
  pub exited_at : Option Instant
  pub lane : Text

abbrev pub entry_row : ℕ → Text → Text → Text → Text → Instant → VisitRow
entry_row id garage_id pass_id identity lane at = record {
  id = id;
  garage_id = garage_id;
  pass_id = pass_id;
  vehicle_identity = identity;
  entry_lane = lane;
  entered_at = at;
  exited_at = none;
  exit_lane = none;
}

-- `INSERT INTO visits …`, against the partial unique index
unfoldable pub insert_visit : Db → VisitRow → Result Db
insert_visit db v =
    if any (same_stay v.garage_id v.pass_id v.vehicle_identity) db.visits
    then raise Code.constraint Field.vehicle_identity
    else ok (record db { visits = v ∷ db.visits; next_id = db.next_id + 1 })

-- `record_entry`
unfoldable pub record_entry :
    Platform → Db → Text → Text → Text → Text → Instant → Result (Recorded × Db)
unfolding insert_visit
record_entry p db garage_id pass_id vehicle_identity lane at = do
  identity ← vehicle_key p vehicle_identity
  _ ← load_readable_garage p db garage_id
  _ ← load_pass db garage_id pass_id
  refuse_if (is_some (open_visit db.visits garage_id pass_id identity)) Code.visit_already_open
      Field.vehicle_identity
  entry_lane ← require_text lane Field.lane
  written ← insert_visit db (entry_row db.next_id garage_id pass_id identity entry_lane at)
  ok (
    record {
      pass_id = pass_id;
      vehicle_identity = identity;
      entered_at = at;
      exited_at = none;
      lane = lane;
    },
    written,
  )

abbrev pub has_id : ℕ → VisitRow → Bool
has_id id v = v.id == id

abbrev pub close_at : Instant → Text → VisitRow → VisitRow
close_at at lane v = record v { exited_at = some at; exit_lane = some lane }

-- the open entry, or the refusal of an exit without one
abbrev pub stated_visit : Option VisitRow → Result VisitRow
stated_visit none = raise Code.no_open_visit Field.vehicle_identity
stated_visit (some v) = ok v

-- `record_exit`
unfoldable pub record_exit :
    Platform → Db → Text → Text → Text → Text → Instant → Result (Recorded × Db)
unfolding open_visit
record_exit p db garage_id pass_id vehicle_identity lane at = do
  identity ← vehicle_key p vehicle_identity
  _ ← load_readable_garage p db garage_id
  _ ← load_pass db garage_id pass_id
  visit ← stated_visit (open_visit db.visits garage_id pass_id identity)
  refuse_if (ltb at visit.entered_at) Code.exit_before_entry Field.at_instant
  exit_lane ← require_text lane Field.lane
  ok (
    record {
      pass_id = pass_id;
      vehicle_identity = identity;
      entered_at = visit.entered_at;
      exited_at = some at;
      lane = lane;
    },
    record db { visits = update_where (has_id visit.id) (close_at at exit_lane) db.visits },
  )

abbrev pub by_entry : VisitRow → VisitRow → Bool
by_entry v w = leb v.entered_at w.entered_at

abbrev pub visit_of : VisitRow → Visit
visit_of v = record {
  pass_id = v.pass_id;
  garage_id = v.garage_id;
  vehicle_identity = v.vehicle_identity;
  entry_lane = v.entry_lane;
  entered_at = v.entered_at;
  exited_at = v.exited_at;
  exit_lane = v.exit_lane;
}

-- `visits_on`: those of the pass, at every garage
unfoldable pub visits_on : Db → Text → Result (List Visit)
visits_on db pass_id =
    map_all (λ v. make_visit (visit_of v))
      (sort_by by_entry (filter (λ (v : VisitRow). text_eq v.pass_id pass_id) db.visits))
