-- ===== src/Terms/Spec.antt =====
-- What a consistent set of terms is, said without the validator.
use garage_pass.Base.{
  ℕ, ◌≤◌, ◌≡◌, ◌≢◌, List, [], ◌∷◌, Option, none, some, Text, In, All, ℤ, pos, ◌≤ℤ◌, ◌<ℤ◌,
}
use garage_pass.Platform.{Day, strip}
use garage_pass.Terms.Defs.{Terms, Window, VisitAllowance, AllowancePeriod, GarageLanes, end_of_day}
use garage_pass.Terms.Days.{Occurs}

-- The window names a weekday that falls in the stated range, where the whole range is stated.
abbrev pub FallsIn : Option Day → Option Day → List ℤ → Type 0
FallsIn (some from) (some to) days = (d : ℕ) × In (pos d) days × Occurs from to d
FallsIn _ _ days = Unit

abbrev pub IsWeekday : ℤ → Type 0
IsWeekday d = (pos 1 ≤ℤ d) × (d ≤ℤ pos 7)

pub record IsWindow (t : Terms) (w : Window) : Type 0 where
  pub has_days : w.days ≢ []
  pub weekdays : All IsWeekday w.days
  pub starts : pos 0 ≤ℤ w.start_minute
  pub runs : w.start_minute <ℤ w.end_minute
  pub ends : w.end_minute ≤ℤ pos end_of_day
  pub falls_in : FallsIn t.valid_from t.valid_to w.days

abbrev pub IsOrdered : Option Day → Option Day → Type 0
IsOrdered (some from) (some to) = from ≤ to
IsOrdered _ _ = Unit

abbrev pub IsPositive : Option ℤ → Type 0
IsPositive none = Unit
IsPositive (some d) = pos 0 <ℤ d

abbrev pub IsAllowance : List Window → Option VisitAllowance → Type 0
IsAllowance windows none = Unit
IsAllowance windows (some a) =
    (pos 0 <ℤ a.count) × (a.per ≡ AllowancePeriod.per_window → windows ≢ [])

abbrev pub IsNamed : Text → Type 0
IsNamed name = strip name ≢ []

-- Every entry names a garage that no other entry names, and states at least one lane.
abbrev pub IsLanes : List Text → List GarageLanes → Type 0
IsLanes seen [] = Unit
IsLanes seen (e ∷ es) =
    IsNamed e.garage_id
    × (¬ In e.garage_id seen)
    × (e.lanes ≢ [])
    × All IsNamed e.lanes
    × IsLanes (e.garage_id ∷ seen) es

abbrev pub AreLanes : Option (List GarageLanes) → Type 0
AreLanes none = Unit
AreLanes (some es) = (es ≢ []) × IsLanes [] es

pub record IsConsistent (t : Terms) : Type 0 where
  pub ordered : IsOrdered t.valid_from t.valid_to
  pub windows : All (IsWindow t) t.windows
  pub max_stay : IsPositive t.max_stay
  pub allowance : IsAllowance t.windows t.visit_allowance
  pub directions : t.directions ≢ []
  pub lanes : AreLanes t.allowed_lanes
