-- ===== src/Terms/Describe.antt =====
-- terms.py: the terms in one line. The access call reads the line in one place, to put the copies
-- of a pass in an order of their own.
use garage_pass.Base.{
  ℕ, zero, suc, ◌+◌, ◌/◌, ◌%◌, List, [], ◌∷◌, ◌++◌, map, Option, none, some, Text, codes, text_leb,
  ltb, if◌then◌else◌, ℤ, pos, negsuc, leb_ℤ, eq_ℤ, sort_by,
}
use garage_pass.Platform.{Platform, Day}
use garage_pass.Terms.Defs.{Terms, Window, VisitAllowance, AllowancePeriod, GarageLanes, Direction}

-- the decimal digits of a number, by fuel: a number has no more digits than itself and one
abbrev pub decimal_from : ℕ → ℕ → Text → Text
decimal_from zero n text = text
decimal_from (suc fuel) n text =
    let rest = decimal_from fuel (n / 10) ((b'0' + n % 10) ∷ text) in
    if ltb n 10 then (b'0' + n) ∷ text else rest

-- `str` of an int
unfoldable pub decimal : ℤ → Text
decimal (pos n) = decimal_from (suc n) n []
decimal (negsuc n) = b'-' ∷ decimal_from (suc (suc n)) (suc n) []

-- `separator.join(texts)`
unfoldable pub join : Text → List Text → Text
join separator [] = []
join separator (x ∷ []) = x
join separator (x ∷ y ∷ ys) = x ++ (separator ++ join separator (y ∷ ys))

-- `f"{n:02d}"` of a number below a hundred
abbrev pub two_digits : ℕ → Text
two_digits n = (b'0' + n / 10) ∷ (b'0' + n % 10) ∷ []

-- `_hhmm`, of a minute of the day
unfoldable pub hhmm : ℤ → Text
hhmm (pos m) = two_digits (m / 60) ++ b':' ∷ two_digits (m % 60)
hhmm (negsuc m) = []

-- DAY_NAMES, of a checked day
abbrev pub day_name : ℤ → Text
day_name d =
    if eq_ℤ d (pos 1)
    then codes "Mon"
    else if eq_ℤ d (pos 2)
    then codes "Tue"
    else if eq_ℤ d (pos 3)
    then codes "Wed"
    else if eq_ℤ d (pos 4)
    then codes "Thu"
    else if eq_ℤ d (pos 5)
    then codes "Fri"
    else if eq_ℤ d (pos 6)
    then codes "Sat"
    else codes "Sun"

-- `Window.describe`
unfoldable pub describe_window : Window → Text
unfolding join hhmm sort_by
describe_window w =
    join (codes ",") (map day_name (sort_by leb_ℤ w.days))
    ++ (codes " " ++ (hhmm w.start_minute ++ (codes "-" ++ hhmm w.end_minute)))

-- `GarageLanes.describe`
unfoldable pub describe_lanes : GarageLanes → Text
unfolding join sort_by
describe_lanes e = e.garage_id ++ (codes ":" ++ join (codes ",") (sort_by text_leb e.lanes))

abbrev pub direction_value : Direction → Text
direction_value Direction.entry = codes "entry"
direction_value Direction.exit = codes "exit"

abbrev pub period_value : AllowancePeriod → Text
period_value AllowancePeriod.life = codes "life"
period_value AllowancePeriod.per_window = codes "window"

abbrev pub day_or_dots : Platform → Option Day → Text
day_or_dots p none = codes "..."
day_or_dots p (some day) = p.day_text day

abbrev pub range_part : Platform → Option Day → Option Day → List Text
range_part p none none = []
range_part p from to =
    (codes "valid " ++ (day_or_dots p from ++ (codes ".." ++ day_or_dots p to))) ∷ []

abbrev pub windows_part : List Window → List Text
windows_part [] = []
windows_part ws = (codes "windows " ++ join (codes "; ") (map describe_window ws)) ∷ []

abbrev pub stay_part : Platform → Option ℤ → List Text
stay_part p none = []
stay_part p (some d) = (codes "max stay " ++ p.duration_text d) ∷ []

abbrev pub allowance_part : Option VisitAllowance → List Text
allowance_part none = []
allowance_part (some a) = (decimal a.count ++ (codes " visit(s) per " ++ period_value a.per)) ∷ []

abbrev pub directions_part : List Direction → List Text
directions_part ds =
    (codes "directions " ++ join (codes "+") (sort_by text_leb (map direction_value ds))) ∷ []

abbrev pub lanes_part : Option (List GarageLanes) → List Text
lanes_part none = []
lanes_part (some es) =
    (codes "lanes "
      ++ join (codes "; ") (
          map describe_lanes
            (sort_by (λ (a b : GarageLanes). text_leb a.garage_id b.garage_id) es)))
    ∷ []

-- `Terms.describe`
unfoldable pub describe : Platform → Terms → Text
unfolding join describe_window describe_lanes decimal sort_by
describe p t = join (codes "; ") (
    range_part p t.valid_from t.valid_to
    ++ (windows_part t.windows
        ++ (stay_part p t.max_stay
            ++ (allowance_part t.visit_allowance
                ++ (directions_part t.directions ++ lanes_part t.allowed_lanes)))))
