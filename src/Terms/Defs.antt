-- ===== src/Terms/Defs.antt =====
-- terms.py: the data of the terms and the functions on them.
use garage_pass.Base.{
  ℕ, zero, suc, ◌+◌, ◌-◌, Bool, true, false, not, ◌&&◌, List, [], ◌∷◌, Option, none, some, Text,
  text_eq, text_in, leb, ltb, if◌then◌else◌, is_empty, any, all, ℤ, pos, leb_ℤ, eq_ℤ,
}
use garage_pass.Findings.{Code, Field}
use garage_pass.Result.{Result, ok, ◌>>◌, refuse_if}
use garage_pass.Platform.{Day, strip, iso_weekday}

-- END_OF_DAY
abbrev pub end_of_day : ℕ
end_of_day = 1440

pub data Direction : Type 0 where
  entry exit : Direction

pub data AllowancePeriod : Type 0 where
  life per_window : AllowancePeriod

pub record Window : Type 0 where
  pub days : List ℤ
  pub start_minute : ℤ
  pub end_minute : ℤ

pub record VisitAllowance : Type 0 where
  pub count : ℤ
  pub per : AllowancePeriod

pub record GarageLanes : Type 0 where
  pub garage_id : Text
  pub lanes : List Text

-- `max_stay` is a timedelta in microseconds.
pub record Terms : Type 0 where
  pub valid_from : Option Day
  pub valid_to : Option Day
  pub windows : List Window
  pub max_stay : Option ℤ
  pub visit_allowance : Option VisitAllowance
  pub directions : List Direction
  pub allowed_lanes : Option (List GarageLanes)

abbrev pub same_direction : Direction → Direction → Bool
same_direction Direction.entry Direction.entry = true
same_direction Direction.exit Direction.exit = true
same_direction _ _ = false

-- `direction in terms.directions`
unfoldable pub direction_in : Direction → List Direction → Bool
direction_in d ds = any (same_direction d) ds

abbrev pub lanes_entry : Text → List GarageLanes → List Text
lanes_entry g [] = []
lanes_entry g (e ∷ es) = if text_eq e.garage_id g then e.lanes else lanes_entry g es

-- `Terms.lanes_at`: none when lanes are not stated, the empty set for a garage with no entry.
unfoldable pub lanes_at : Terms → Text → Option (List Text)
lanes_at t g = elim t.allowed_lanes [ none ↦ none | some es ↦ some (lanes_entry g es) ]

-- the loop `while day <= valid_to`, by the rounds that it makes
unfoldable pub days_walk : ℕ → Day → List ℕ
days_walk zero day = []
days_walk (suc rounds) day = iso_weekday day ∷ days_walk rounds (day + 1)

-- `days_that_occur`
unfoldable pub days_that_occur : Day → Day → List ℕ
unfolding days_walk
days_that_occur valid_from valid_to =
    if leb 6 (valid_to - valid_from)
    then 1 ∷ 2 ∷ 3 ∷ 4 ∷ 5 ∷ 6 ∷ 7 ∷ []
    else days_walk (valid_to + 1 - valid_from) valid_from

-- `1 <= d <= 7`
abbrev pub is_day : ℤ → Bool
is_day d = leb_ℤ (pos 1) d && leb_ℤ d (pos 7)

-- `0 <= value <= END_OF_DAY`
abbrev pub is_minute : ℤ → Bool
is_minute m = leb_ℤ (pos 0) m && leb_ℤ m (pos end_of_day)

-- `window.days & occurring` is not empty
unfoldable pub days_meet : List ℤ → List ℕ → Bool
days_meet days occurring = any (λ d. any (λ o. eq_ℤ d (pos o)) occurring) days

-- the last test of a window: some day of it falls in the stated range
abbrev pub never_occurs : Option Day → Option Day → List ℤ → Bool
never_occurs (some from) (some to) days = not (days_meet days (days_that_occur from to))
never_occurs _ _ days = false

-- `check_terms`: one window, at its place in the tuple.
unfoldable pub check_window : Terms → ℕ → Window → Result (Unit {0})
check_window t index w = do
  refuse_if (is_empty w.days) Code.window_has_no_days (Field.window_days index)
  refuse_if (not (all is_day w.days)) Code.window_day_unknown (Field.window_days index)
  refuse_if (not (is_minute w.start_minute)) Code.window_minute_out_of_range
      (Field.window_start_minute index)
  refuse_if (not (is_minute w.end_minute)) Code.window_minute_out_of_range
      (Field.window_end_minute index)
  refuse_if (leb_ℤ w.end_minute w.start_minute) Code.window_ends_before_it_starts
      (Field.window_end_minute index)
  refuse_if (never_occurs t.valid_from t.valid_to w.days) Code.window_never_occurs
      (Field.window_days index)

-- `for index, window in enumerate(terms.windows)`
unfoldable pub check_windows : Terms → ℕ → List Window → Result (Unit {0})
check_windows t index [] = ok tt
check_windows t index (w ∷ ws) = check_window t index w >> check_windows t (index + 1) ws

-- `check_terms`: one entry of the lanes, with the garages seen so far.
unfoldable pub check_lanes_entry : List Text → ℕ → GarageLanes → Result (Unit {0})
check_lanes_entry seen index e = do
  refuse_if (is_empty (strip e.garage_id)) Code.field_blank (Field.lanes_garage_id index)
  refuse_if (text_in e.garage_id seen) Code.lanes_garage_repeated (Field.lanes_garage_id index)
  refuse_if (is_empty e.lanes) Code.lanes_stated_but_empty (Field.lanes_lanes index)
  refuse_if (any (λ lane. is_empty (strip lane)) e.lanes) Code.lane_name_blank
      (Field.lanes_lanes index)

-- `for index, entry in enumerate(terms.allowed_lanes)`
unfoldable pub check_lanes : List Text → ℕ → List GarageLanes → Result (Unit {0})
check_lanes seen index [] = ok tt
check_lanes seen index (e ∷ es) =
    check_lanes_entry seen index e >> check_lanes (e.garage_id ∷ seen) (index + 1) es

-- `terms.valid_to < terms.valid_from`, both stated
abbrev pub ends_before_it_starts : Option Day → Option Day → Bool
ends_before_it_starts (some from) (some to) = ltb to from
ends_before_it_starts _ _ = false

abbrev pub stay_not_positive : Option ℤ → Bool
stay_not_positive none = false
stay_not_positive (some d) = leb_ℤ d (pos 0)

abbrev pub is_per_window : AllowancePeriod → Bool
is_per_window AllowancePeriod.life = false
is_per_window AllowancePeriod.per_window = true

abbrev pub check_allowance : List Window → Option VisitAllowance → Result (Unit {0})
check_allowance windows none = ok tt
check_allowance windows (some a) = do
  refuse_if (leb_ℤ a.count (pos 0)) Code.visit_allowance_not_positive Field.allowance_count
  refuse_if (is_per_window a.per && is_empty windows) Code.allowance_per_window_without_windows
      Field.allowance_per

abbrev pub check_allowed_lanes : Option (List GarageLanes) → Result (Unit {0})
check_allowed_lanes none = ok tt
check_allowed_lanes (some es) =
    refuse_if (is_empty es) Code.lanes_stated_but_empty Field.allowed_lanes >> check_lanes [] 0 es

-- `check_terms`: what `Terms.__post_init__` runs, so that a value that fails cannot be built.
unfoldable pub check_terms : Terms → Result (Unit {0})
check_terms t = do
  refuse_if (ends_before_it_starts t.valid_from t.valid_to) Code.valid_to_before_valid_from
      Field.valid_to
  check_windows t 0 t.windows
  refuse_if (stay_not_positive t.max_stay) Code.max_stay_not_positive Field.max_stay
  check_allowance t.windows t.visit_allowance
  refuse_if (is_empty t.directions) Code.no_directions Field.directions
  check_allowed_lanes t.allowed_lanes

-- `Terms(…)`
unfoldable pub make_terms : Terms → Result Terms
make_terms t = check_terms t >> ok t
