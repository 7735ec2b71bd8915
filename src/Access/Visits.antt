-- ===== src/Access/Visits.antt =====
-- access.py: the clock of each recorded entry, the entries that count against an allowance, and
-- the open entry that a stay is measured from.
use garage_pass.Base.{
  ℕ, suc, Bool, true, false, ◌&&◌, List, [], ◌∷◌, Option, none, some, Text, text_eq, ltb, ◌==◌,
  length, filter, if◌then◌else◌, pos, leb_ℤ, ltb_ℤ,
}
use garage_pass.Findings.{Missing}
use garage_pass.Result.{Result, Crash, ok, crash, ◌>>=◌}
use garage_pass.Platform.{Platform, Day, Zone, strip}
use garage_pass.Localday.{zone, day_of, minute_of_day}
use garage_pass.Enrolment.{plate_key}
use garage_pass.Garage.{Garage}
use garage_pass.Terms.{Window, VisitAllowance, AllowancePeriod}
use garage_pass.Passes.{Pass, Visit, is_open}
use garage_pass.Access.Defs.{Question}

-- What `clock_at` finds: a zone, or the refusal that names what is not here.
pub data Clock : Type 0 where
  clock : Zone → Clock
  no_clock : Missing → Clock

-- the garages handed in under one id
abbrev pub handed_in : Question → Text → List Garage
handed_in q id = filter (λ (g : Garage). text_eq g.id id) q.garages

-- the clock of the one garage handed in
abbrev pub clock_of : Platform → Garage → Result Clock
clock_of p g = elim g.unreadable [
  | some _ ↦ ok (Clock.no_clock Missing.timezone)
  | none ↦ zone p g.timezone >>= λ z. ok (Clock.clock z)
]

abbrev pub clock_among : Platform → List Garage → Result Clock
clock_among p [] = ok (Clock.no_clock Missing.garage_handed_in)
clock_among p (g ∷ []) = clock_of p g
clock_among p (g ∷ h ∷ gs) = ok (Clock.no_clock Missing.duplicated_garage_id)

-- `clock_at`
unfoldable pub clock_at : Platform → Question → Zone → Text → Result Clock
clock_at p q tz id =
    if text_eq id q.garage.id then ok (Clock.clock tz) else clock_among p (handed_in q id)

-- `start_minute <= minute < end_minute`
abbrev pub inside : Window → ℕ → Bool
inside w minute = leb_ℤ w.start_minute (pos minute) && ltb_ℤ (pos minute) w.end_minute

-- What `_visits_used` returns: a count, or `NoClock`.
pub data Used : Type 0 where
  used : ℕ → Used
  unclocked : Missing → Used

-- one entry of the loop: whether it falls in the window today, on the clock of its own garage
abbrev pub falls_in : Window → Day → Zone → Visit → Bool
falls_in w today z v = day_of v.entered_at z == today && inside w (minute_of_day v.entered_at z)

abbrev pub add_if : Bool → Used → Used
add_if true (used n) = used (suc n)
add_if false (used n) = used n
add_if b (unclocked m) = unclocked m

-- the loop `for v in on_pass`: it ends at the first entry whose clock is not here
unfoldable pub count_in_window :
    Platform → Question → Zone → Day → Window → List Visit → Result Used
count_in_window p q tz today w [] = ok (used 0)
count_in_window p q tz today w (v ∷ vs) =
    let rest = count_in_window p q tz today w vs in
    clock_at p q tz v.garage_id >>= elim [
      | no_clock m ↦ ok (unclocked m)
      | clock z ↦ rest >>= λ n. ok (add_if (falls_in w today z v) n)
    ]

-- `[v for v in visits if v.pass_id == pass_.id]`
abbrev pub on_pass : Question → Pass → List Visit
on_pass q pass = filter (λ (v : Visit). text_eq v.pass_id pass.id) q.visits

-- `_visits_used` by the period, with its assertion that a per-window allowance has a window
abbrev pub used_by :
    Platform → Question → Zone → Day → Pass → AllowancePeriod → Option Window → Result Used
used_by p q tz today pass AllowancePeriod.life window = ok (used (length (on_pass q pass)))
used_by p q tz today pass AllowancePeriod.per_window none = crash Crash.assertion_error
used_by p q tz today pass AllowancePeriod.per_window (some w) =
    count_in_window p q tz today w (on_pass q pass)

-- `_visits_used`
unfoldable pub visits_used :
    Platform → Question → Zone → Day → Pass → Option Window → VisitAllowance → Result Used
unfolding count_in_window
visits_used p q tz today pass window allowance = used_by p q tz today pass allowance.per window

-- the candidates of `_open_visit`
abbrev pub is_candidate : Platform → Question → Pass → Visit → Bool
is_candidate p q pass v =
    text_eq v.pass_id pass.id
    && text_eq v.garage_id q.garage.id
    && text_eq (plate_key p v.vehicle_identity) (plate_key p (strip q.vehicle_identity))
    && is_open v

-- `max(…, key=entered_at)`: the first of the latest
unfoldable pub latest : Visit → List Visit → Visit
latest best [] = best
latest best (v ∷ vs) = latest (if ltb best.entered_at v.entered_at then v else best) vs

-- `_open_visit`
unfoldable pub open_visit : Platform → Question → Pass → Option Visit
unfolding latest
open_visit p q pass = elim (filter (is_candidate p q pass) q.visits) [
  | [] ↦ none
  | v ∷ vs ↦ some (latest v vs)
]
