-- ===== src/Sample.antt =====
-- A small garage with its passes, for the tests and the worked examples.
use garage_pass.Base.{
  ℕ, ◌+◌, ◌*◌, ◌-◌, ◌≡◌, ◌≤◌, refl, true, false, ◌&&◌, [], ◌∷◌, none, some, All, Text, codes,
  text_eq, leb, if◌then◌else◌, pos, arith,
}
use garage_pass.Platform.{Platform, Day, Instant, Zone}
use garage_pass.Localday.{day_us, minute_us}
use garage_pass.Garage.{Garage, EnrolsAt}
use garage_pass.Terms.{
  Terms, Window, AllowancePeriod, Direction, make_terms, check_terms, check_windows, check_window,
  days_meet, days_that_occur,
}
use garage_pass.Result.{ok}
use garage_pass.Passes.{State, Holder, Pass, Registration, Visit}
use garage_pass.Access.{Question}

-- Upper case of the Latin letters.
abbrev pub upper : ℕ → Text
upper c = if leb b'a' c && leb c b'z' then (c - 32) ∷ [] else c ∷ []

pub upper_stays : (c : ℕ) → All (λ d. upper d ≡ d ∷ []) (upper c)
upper_stays c = ground arith

pub upper_keeps_digits : (c : ℕ) → b'0' ≤ c → c ≤ b'9' → upper c ≡ c ∷ []
upper_keeps_digits c lo hi = ground arith

abbrev pub utc : Zone
utc = λ t. t

-- A machine that lists one zone.
abbrev pub platform : Platform
platform = record {
  upper = upper;
  upper_stable = upper_stays;
  upper_digit = upper_keeps_digits;
  tz_names = codes "UTC" ∷ [];
  zone_named = λ name. if text_eq name (codes "UTC") then some utc else none;
  day_text = λ day. [];
  duration_text = λ d. [];
}

-- A Monday.
abbrev pub monday : Day
monday = 738886

-- An hour of that Monday.
abbrev pub hour : ℕ → Instant
hour h = monday * day_us + h * 60 * minute_us

abbrev pub garage : Garage
garage = record {
  id = codes "g1";
  timezone = codes "UTC";
  transient_available = some true;
  enrols_at = some EnrolsAt.exit;
  unreadable = none;
}

-- From eight to eighteen on working days.
abbrev pub office_hours : Window
office_hours = record {
  days = pos 1 ∷ pos 2 ∷ pos 3 ∷ pos 4 ∷ pos 5 ∷ [];
  start_minute = pos 480;
  end_minute = pos 1080;
}

-- One visit in each window, of four hours at most.
abbrev pub terms : Terms
terms = record {
  valid_from = some (monday - 7);
  valid_to = some (monday + 7);
  windows = office_hours ∷ [];
  max_stay = some (pos (4 * 60 * minute_us));
  visit_allowance = some (record { count = pos 1; per = AllowancePeriod.per_window });
  directions = Direction.entry ∷ Direction.exit ∷ [];
  allowed_lanes = none;
}

abbrev pub holder : Holder
holder = record { email = codes "a@b"; name = none; phone = none }

abbrev pub pass : Pass
pass = record {
  id = codes "p1";
  garage_ids = codes "g1" ∷ [];
  label = codes "office";
  holder = some holder;
  terms = some terms;
  state = State.active;
  unreadable = none;
}

abbrev pub registration : Registration
registration = record {
  pass_id = codes "p1";
  vehicle_identity = codes "AB-123";
  effective_day = monday - 7;
  end_day = none;
  exit_only = false;
  exit_only_at = none;
}

-- The entry at nine, still open.
abbrev pub visit : Visit
visit = record {
  pass_id = codes "p1";
  garage_id = codes "g1";
  vehicle_identity = codes "AB123";
  entry_lane = codes "north";
  entered_at = hour 9;
  exited_at = none;
  exit_lane = none;
}

-- The car at the entry, at nine.
abbrev pub entering : Question
entering = record {
  garage = garage;
  passes = pass ∷ [];
  registrations = registration ∷ [];
  visits = [];
  vehicle_identity = codes "ab 123";
  lane = codes "north";
  direction = Direction.entry;
  at = hour 9;
  garages = garage ∷ [];
  entered_at = none;
}

-- The car at the exit, at twelve.
abbrev pub leaving : Question
leaving = record entering { direction = Direction.exit; at = hour 12; visits = visit ∷ [] }

-- The terms pass their validator.
pub checked : make_terms terms ≡ ok terms
unfolding make_terms check_terms check_windows check_window days_meet days_that_occur
checked = refl
