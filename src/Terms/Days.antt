-- ===== src/Terms/Days.antt =====
-- terms.py: `days_that_occur` against the days of the range.
use garage_pass.Base.{
  ℕ, zero, suc, ◌+◌, ◌-◌, ◌≤◌, ◌<◌, ◌%◌, ◌≡◌, inl, inr, arith, In, [], ◌∷◌, ◌↔◌, ◌==◌, leb,
  Bool-cases, sym, ap,
}
use garage_pass.Platform.{Day, iso_weekday}
use garage_pass.Terms.Defs.{days_walk, days_that_occur}

pub iso_weekday_bounds : (day : Day) → (1 ≤ iso_weekday day) × (iso_weekday day ≤ 7)
unfolding iso_weekday
iso_weekday_bounds day = ground arith

-- A weekday falls in the range of days.
abbrev pub Occurs : Day → Day → ℕ → Type 0
Occurs from to d = (day : Day) × (from ≤ day) × (day ≤ to) × (iso_weekday day ≡ d)

days_walk_sound :
    (rounds from d : ℕ)
    → In d (days_walk rounds from)
    → (day : Day) × (from ≤ day) × (day < from + rounds) × (iso_weekday day ≡ d)
unfolding days_walk
days_walk_sound zero from d m = absurd m
days_walk_sound (suc rounds) from d (inl e) = (from, omega arith, omega arith, sym e)
days_walk_sound (suc rounds) from d (inr m) =
    let (day, lo, hi, e) = days_walk_sound rounds (from + 1) d m in
    (day, omega arith, omega arith, e)

days_walk_complete :
    (rounds from day : ℕ)
    → from ≤ day
    → day < from + rounds
    → In (iso_weekday day) (days_walk rounds from)
unfolding days_walk
days_walk_complete zero from day lo hi = absurd (omega arith)
days_walk_complete (suc rounds) from day lo hi = elim (Bool-cases (from == day)) [
  | inl e ↦ inl (ap iso_weekday (ground arith))
  | inr n ↦ inr (days_walk_complete rounds (from + 1) day (ground arith) (ground arith))
]

-- Seven days in a row have every weekday.
week_has : (from d : ℕ) → 1 ≤ d → d ≤ 7 → iso_weekday (from + (d + 7 - from % 7) % 7) ≡ d
unfolding iso_weekday
week_has from d lo hi = ground arith

In-week : (d : ℕ) → 1 ≤ d → d ≤ 7 → In d (1 ∷ 2 ∷ 3 ∷ 4 ∷ 5 ∷ 6 ∷ 7 ∷ [])
In-week d lo hi = omega arith

week-In : (d : ℕ) → In d (1 ∷ 2 ∷ 3 ∷ 4 ∷ 5 ∷ 6 ∷ 7 ∷ []) → (1 ≤ d) × (d ≤ 7)
week-In d m = omega arith

pub days_that_occur_sound : (from to d : ℕ) → In d (days_that_occur from to) → Occurs from to d
unfolding days_that_occur
days_that_occur_sound from to d m = elim (Bool-cases (leb 6 (to - from))) [
  | inl long ↦
      let (lo, hi) = week-In d (rw long at m) in
      (from + (d + 7 - from % 7) % 7, omega arith, ground arith, week_has from d lo hi)
  | inr short ↦
      let (day, lo, hi, e) = days_walk_sound (to + 1 - from) from d (rw short at m) in
      (day, lo, omega arith, e)
]

-- A weekday is listed exactly when a day of the inclusive range falls on it.
pub days_that_occur-Occurs : (from to d : ℕ) → In d (days_that_occur from to) ↔ Occurs from to d
unfolding days_that_occur
days_that_occur-Occurs from to d = (days_that_occur_sound from to d, back)
  where
    back : Occurs from to d → In d (days_that_occur from to)
    back (day, lo, hi, e) = elim (Bool-cases (leb 6 (to - from))) [
      | inl long ↦
          let (l, h) = iso_weekday_bounds day in
          rw long (In-week d (omega (arith, e)) (omega (arith, e)))
      | inr short ↦ rw (short, ← e) (days_walk_complete (to + 1 - from) from day lo (omega arith))
    ]
