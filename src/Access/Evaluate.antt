-- ===== src/Access/Evaluate.antt =====
-- access.py: one pass, in the order that is the contract. Each function is a stretch of the helper
-- `evaluate`; the first check that fails is the answer.
use garage_pass.Base.{
  suc, Bool, true, false, not, ◌&&◌, List, [], ◌∷◌, ◌++◌, Option, none, some, Text, text_eq,
  text_in, leb, ltb, any, find, is_empty, if◌then◌else◌, ℤ, pos, leb_ℤ, ltb_ℤ, eq_ℤ,
}
use garage_pass.Findings.{Reason, Missing}
use garage_pass.Result.{Result, Crash, ok, crash, ◌>>=◌}
use garage_pass.Platform.{Platform, Day, Instant, Zone, strip}
use garage_pass.Localday.{minute_of_day, iso_weekday_of, elapsed}
use garage_pass.Terms.{Terms, Window, direction_in, lanes_at}
use garage_pass.Passes.{State, Pass, Registration, Visit}
use garage_pass.States.{Effective, effective_state}
use garage_pass.Access.Defs.{
  Question, Answer, Covering, Unmeasured, is_exit, answer_refused, answer_not_covered,
  answer_covered,
}
use garage_pass.Access.Visits.{Used, visits_used, open_visit}

-- What the helper `evaluate` closes over.
pub record Movement : Type 0 where
  pub question : Question
  pub tz : Zone
  pub today : Day
  pub effective : List Registration

-- `pass_.id in exit_only_on`
unfoldable pub exit_only_on : Movement → Text → Bool
exit_only_on m pid = any (λ (r : Registration). r.exit_only && text_eq r.pass_id pid) m.effective

abbrev pub later : Option Instant → Instant → Instant
later none t = t
later (some u) t = if ltb u t then t else u

-- one round of the loop over `effective`
abbrev pub replaced_step : Text → Option Instant → Registration → Option Instant
replaced_step pid acc r =
    if r.exit_only && text_eq r.pass_id pid
    then elim r.exit_only_at [ none ↦ acc | some t ↦ some (later acc t) ]
    else acc

unfoldable pub replaced_from : Text → Option Instant → List Registration → Option Instant
replaced_from pid acc [] = acc
replaced_from pid acc (r ∷ rs) = replaced_from pid (replaced_step pid acc r) rs

-- `replaced_at.get(pass_.id)`
unfoldable pub replaced_at : Movement → Text → Option Instant
unfolding replaced_from
replaced_at m pid = replaced_from pid none m.effective

-- What is said of the stay of a car replaced on the pass, at an exit.
pub data Replacement : Type 0 where
  measured unmeasured refused : Replacement

abbrev pub compare_replacement : Option Instant → Option Instant → Replacement
compare_replacement (some entered) (some replaced) =
    if leb replaced entered then Replacement.refused else Replacement.measured
compare_replacement _ _ = Replacement.unmeasured

-- the exit of a car that was replaced, and any other exit
unfoldable pub replacement_of : Movement → Pass → Replacement
replacement_of m pass =
    if is_exit m.question.direction && exit_only_on m pass.id
    then compare_replacement m.question.entered_at (replaced_at m pass.id)
    else Replacement.measured

-- The running parts of a covered answer: the terms that cover, and what was not measured.
pub record Parts : Type 0 where
  pub covering : List Covering
  pub unmeasured : List Unmeasured

-- `return covered(…)`, with what the replacement leaves unmeasured
unfoldable pub evaluate_end : Movement → Pass → Replacement → Parts → Result Answer
evaluate_end m pass Replacement.unmeasured parts = ok (
    answer_covered m.question pass (parts.covering ++ Covering.replacement_unmeasured ∷ [])
      (parts.unmeasured ++ Unmeasured.replacement ∷ []))
evaluate_end m pass _ parts = ok (answer_covered m.question pass parts.covering parts.unmeasured)

-- the open entry that measures the stay: one that is not later than the exit
abbrev pub measures : Instant → Option Visit → Option Visit
measures at none = none
measures at (some v) = if ltb at v.entered_at then none else some v

abbrev pub measure_stay :
    Movement → Pass → Replacement → List Covering → ℤ → Option Visit → Result Answer
measure_stay m pass replacement covering limit none = evaluate_end m pass replacement (record {
  covering = covering ++ Covering.stay_unmeasured ∷ [];
  unmeasured = Unmeasured.max_stay ∷ [];
})
measure_stay m pass replacement covering limit (some v) =
    let stay = elapsed v.entered_at m.question.at in
    if ltb_ℤ limit stay
    then ok (answer_not_covered m.question Reason.over_max_stay (some pass))
    else evaluate_end m pass replacement
        (record { covering = covering ++ Covering.stayed stay limit ∷ []; unmeasured = [] })

-- the maximum stay, at an exit
unfoldable pub evaluate_stay :
    Platform → Movement → Pass → Terms → Replacement → List Covering → Result Answer
evaluate_stay p m pass t replacement covering =
    elim (if is_exit m.question.direction then t.max_stay else none) [
      | none ↦ evaluate_end m pass replacement (record { covering = covering; unmeasured = [] })
      | some limit ↦
          measure_stay m pass replacement covering limit
            (measures m.question.at (open_visit p m.question pass))
    ]

abbrev pub check_used :
    Platform → Movement → Pass → Terms → Replacement → List Covering → ℤ → Used → Result Answer
check_used p m pass t replacement covering allowed (Used.unclocked missing) =
    ok (answer_refused m.question missing (some pass))
check_used p m pass t replacement covering allowed (Used.used n) =
    if leb_ℤ allowed (pos n)
    then ok (answer_not_covered m.question Reason.out_of_visits (some pass))
    else evaluate_stay p m pass t replacement (covering ++ Covering.visit (suc n) allowed ∷ [])

-- the visit allowance, at an entry
unfoldable pub evaluate_allowance :
    Platform → Movement → Pass → Terms → Replacement → Option Window → List Covering → Result Answer
evaluate_allowance p m pass t replacement window covering =
    elim (if is_exit m.question.direction then none else t.visit_allowance) [
      | none ↦ evaluate_stay p m pass t replacement covering
      | some allowance ↦
          visits_used p m.question m.tz m.today pass window allowance
          >>= check_used p m pass t replacement covering allowance.count
    ]

-- `weekday in candidate.days and start_minute <= minute < end_minute`
unfoldable pub is_inside : Instant → Zone → Window → Bool
is_inside at tz w =
    any (λ d. eq_ℤ d (pos (iso_weekday_of at tz))) w.days
    && leb_ℤ w.start_minute (pos (minute_of_day at tz))
    && ltb_ℤ (pos (minute_of_day at tz)) w.end_minute

-- the recurring windows: the first that the instant is inside of
unfoldable pub evaluate_window : Platform → Movement → Pass → Terms → Replacement → Result Answer
evaluate_window p m pass t replacement =
    if is_empty t.windows
    then evaluate_allowance p m pass t replacement none (Covering.the_terms t ∷ [])
    else elim (find (is_inside m.question.at m.tz) t.windows) [
      | none ↦ ok (answer_not_covered m.question Reason.outside_window (some pass))
      | some w ↦
          evaluate_allowance p m pass t replacement (some w)
            (Covering.the_terms t ∷ Covering.in_window w m.today ∷ [])
    ]

-- `lanes_here is not None and lane_name not in lanes_here`
abbrev pub wrong_lane : Text → Option (List Text) → Bool
wrong_lane lane none = false
wrong_lane lane (some lanes) = not (text_in lane lanes)

-- the direction and the lane
unfoldable pub evaluate_lane : Platform → Movement → Pass → Terms → Replacement → Result Answer
evaluate_lane p m pass t replacement =
    if not (direction_in m.question.direction t.directions)
    then ok (answer_not_covered m.question Reason.direction_not_allowed (some pass))
    else if wrong_lane (strip m.question.lane) (lanes_at t m.question.garage.id)
    then ok (answer_not_covered m.question Reason.wrong_lane (some pass))
    else evaluate_window p m pass t replacement

-- a car replaced on the pass: no entry, and an exit for the stay that was inside
unfoldable pub evaluate_replacement : Platform → Movement → Pass → Terms → Result Answer
evaluate_replacement p m pass t =
    if not (is_exit m.question.direction) && exit_only_on m pass.id
    then ok (answer_not_covered m.question Reason.exit_only (some pass))
    else elim (replacement_of m pass) [
      | Replacement.refused ↦ ok (answer_not_covered m.question Reason.exit_only (some pass))
      | Replacement.measured ↦ evaluate_lane p m pass t Replacement.measured
      | Replacement.unmeasured ↦ evaluate_lane p m pass t Replacement.unmeasured
    ]

abbrev pub not_begun : Day → Option Day → Bool
not_begun today none = false
not_begun today (some from) = ltb today from

-- the state that is read, typed or derived, and the first day
unfoldable pub evaluate_state : Platform → Movement → Pass → Terms → Result Answer
evaluate_state p m pass t = elim (effective_state pass m.today) [
  | Effective.expired ↦ ok (answer_not_covered m.question Reason.expired (some pass))
  | Effective.typed s ↦ elim s [
    | State.suspended ↦ ok (answer_not_covered m.question Reason.suspended (some pass))
    | State.draft ↦ ok (answer_not_covered m.question Reason.not_active (some pass))
    | State.awaiting_enrolment ↦ ok (answer_not_covered m.question Reason.not_active (some pass))
    | _ ↦
        if not_begun m.today t.valid_from
        then ok (answer_not_covered m.question Reason.not_started (some pass))
        else evaluate_replacement p m pass t
  ]
]

abbrev pub is_revoked : State → Bool
is_revoked State.revoked = true
is_revoked _ = false

-- a pass that cannot be read: named at either end
abbrev pub answer_unreadable : Question → Pass → Answer
answer_unreadable q pass =
    if is_exit q.direction
    then answer_not_covered q Reason.pass_unreadable (some pass)
    else answer_refused q Missing.unreadable_terms (some pass)

-- `evaluate`: revoked outranks everything, then a pass that cannot be read.
unfoldable pub evaluate : Platform → Movement → Pass → Result Answer
evaluate p m pass =
    if is_revoked pass.state
    then ok (answer_not_covered m.question Reason.revoked (some pass))
    else elim pass.unreadable [
      | some _ ↦ ok (answer_unreadable m.question pass)
      | none ↦ elim pass.terms [
        | none ↦ crash Crash.assertion_error
        | some t ↦ evaluate_state p m pass t
      ]
    ]
