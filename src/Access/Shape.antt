-- ===== src/Access/Shape.antt =====
-- access.py: the form of the answers that the call can give.
use garage_pass.Base.{
  ◌≡◌, ◌≢◌, inl, inr, false, List, [], ◌∷◌, Option, none, some, All, ℤ, arith, is_empty,
  is_empty-true, if◌then◌else◌, Option-cases, Bool-cases, find, ◌++◌, suc,
}
use garage_pass.Findings.{Reason, Means, Missing}
use garage_pass.Result.{Result, Returns}
use garage_pass.Platform.{Platform, strip}
use garage_pass.Localday.{elapsed}
use garage_pass.Terms.{Terms, Window, AllowancePeriod, Direction}
use garage_pass.Passes.{Pass, Visit}
use garage_pass.Terms.Spec.{IsConsistent}
use garage_pass.Access
use garage_pass.Access.Built.{HasClock, HasTerms}
use garage_pass.Access.Counts.{visits_used_total}

-- The shape of an answer, by its outcome.
abbrev pub Fits : Access.Question → Access.Outcome → Access.Answer → Type 0
Fits q Access.Outcome.covered a =
    (a.pass_id ≢ none)
    × (a.covering_term ≢ none)
    × (a.reason ≡ none)
    × (a.missing ≡ none)
    × (a.means ≡ some Means.covered)
Fits q Access.Outcome.not_covered a =
    (a.covering_term ≡ none)
    × (a.reason ≢ none)
    × (a.missing ≡ none)
    × (a.means ≡ some (Access.uncovered_means q.direction q.garage.transient_available))
Fits q Access.Outcome.refused_to_answer a =
    (q.direction ≡ Direction.entry)
    × (a.covering_term ≡ none)
    × (a.reason ≡ none)
    × (a.missing ≢ none)
    × (a.means ≡ none)

-- It echoes the movement, carries the exit's note exactly at an exit, and fits its outcome.
pub record IsAnswer (q : Access.Question) (a : Access.Answer) : Type 0 where
  pub same_direction : a.direction ≡ q.direction
  pub same_identity : a.vehicle_identity ≡ strip q.vehicle_identity
  pub same_lane : a.lane ≡ strip q.lane
  pub noted : a.exit_note ≡ Access.is_exit q.direction
  pub fits : Fits q a.outcome a

pub answer_not_covered-IsAnswer :
    (q : Access.Question) (reason : Reason) (pass : Option Pass)
    → IsAnswer q (Access.answer_not_covered q reason pass)
unfolding Access.answer_not_covered
answer_not_covered-IsAnswer q reason pass = ground arith

pub answer_refused-IsAnswer :
    (q : Access.Question) (missing : Missing) (pass : Option Pass)
    → Access.is_exit q.direction ≡ false
    → IsAnswer q (Access.answer_refused q missing pass)
unfolding Access.answer_refused
answer_refused-IsAnswer q missing pass entry = ground arith

pub answer_covered-IsAnswer :
    (q : Access.Question) (pass : Pass) (terms : List Access.Covering) (un : List Access.Unmeasured)
    → IsAnswer q (Access.answer_covered q pass terms un)
unfolding Access.answer_covered
answer_covered-IsAnswer q pass terms un = ground arith

module _ (p : Platform) (m : Access.Movement) (pass : Pass) where
  abbrev Answers : Result Access.Answer → Type 0
  Answers r = Returns (IsAnswer m.question) r

  evaluate_end-Answers :
      (rep : Access.Replacement) (parts : Access.Parts)
      → Answers (Access.evaluate_end m pass rep parts)
  unfolding Access.evaluate_end
  evaluate_end-Answers Access.Replacement.unmeasured parts = answer_covered-IsAnswer _ pass _ _
  evaluate_end-Answers Access.Replacement.measured parts = answer_covered-IsAnswer _ pass _ _
  evaluate_end-Answers Access.Replacement.refused parts = answer_covered-IsAnswer _ pass _ _

  measure_stay-Answers :
      (rep : Access.Replacement) (cs : List Access.Covering) (limit : ℤ) (v : Option Visit)
      → Answers (Access.measure_stay m pass rep cs limit v)
  measure_stay-Answers rep cs limit none = evaluate_end-Answers rep _
  measure_stay-Answers rep cs limit (some v) = ground (
    arith,
    answer_not_covered-IsAnswer m.question Reason.over_max_stay (some pass),
    evaluate_end-Answers rep (record {
      covering = cs ++ Access.stayed (elapsed v.entered_at m.question.at) limit ∷ [];
      unmeasured = [];
    }),
  )

  evaluate_stay-Answers :
      (t : Terms) (rep : Access.Replacement) (cs : List Access.Covering)
      → Answers (Access.evaluate_stay p m pass t rep cs)
  unfolding Access.evaluate_stay
  evaluate_stay-Answers t rep cs =
      elim (Option-cases (if Access.is_exit m.question.direction then t.max_stay else none)) [
        | inl e ↦ rw (e, Access.evaluate_stay) (evaluate_end-Answers rep _)
        | inr (d, e) ↦ rw (e, Access.evaluate_stay) (measure_stay-Answers rep cs d _)
      ]

  check_used-Answers :
      (t : Terms) (rep : Access.Replacement) (cs : List Access.Covering) (allowed : ℤ)
      (n : Access.Used)
      → Access.is_exit m.question.direction ≡ false
      → Answers (Access.check_used p m pass t rep cs allowed n)
  check_used-Answers t rep cs allowed (Access.unclocked missing) entry =
      answer_refused-IsAnswer m.question missing (some pass) entry
  check_used-Answers t rep cs allowed (Access.used n) entry = ground (
    arith,
    answer_not_covered-IsAnswer m.question Reason.out_of_visits (some pass),
    evaluate_stay-Answers t rep (cs ++ Access.visit (suc n) allowed ∷ []),
  )

  evaluate_allowance-Answers :
      (t : Terms) (rep : Access.Replacement) (w : Option Window) (cs : List Access.Covering)
      → All (HasClock p) m.question.garages
      → IsConsistent t
      → (t.windows ≢ [] → w ≢ none)
      → Answers (Access.evaluate_allowance p m pass t rep w cs)
  unfolding Access.evaluate_allowance
  evaluate_allowance-Answers t rep w cs clocks good has_window =
      elim (Bool-cases (Access.is_exit m.question.direction)) [
        | inl e ↦ rw (e, Access.evaluate_allowance) (evaluate_stay-Answers t rep cs)
        | inr n ↦ elim (Option-cases t.visit_allowance) [
          | inl e ↦ rw (n, Access.evaluate_allowance) (rw e (evaluate_stay-Answers t rep cs))
          | inr (a, e) ↦
              let window : a.per ≡ AllowancePeriod.per_window → w ≢ none =
                λ per. has_window ((rw e at good.allowance).1 per) in
              let (n_used, k) =
                visits_used_total p m.question m.tz clocks m.today pass w a window in
              rw (n, Access.evaluate_allowance)
                (rw e (rw k (check_used-Answers t rep cs a.count n_used n)))
        ]
      ]

  evaluate_window-Answers :
      (t : Terms) (rep : Access.Replacement)
      → All (HasClock p) m.question.garages
      → IsConsistent t
      → Answers (Access.evaluate_window p m pass t rep)
  unfolding Access.evaluate_window
  evaluate_window-Answers t rep clocks good = elim (Bool-cases (is_empty t.windows)) [
    | inl e ↦
        rw (e, Access.evaluate_window)
          (evaluate_allowance-Answers t rep none _ clocks good
            (λ some_window. absurd (some_window ((is_empty-true t.windows).0 e))))
    | inr n ↦ elim (Option-cases (find (Access.is_inside m.question.at m.tz) t.windows)) [
      | inl e ↦ rw (n, Access.evaluate_window) (rw e (answer_not_covered-IsAnswer m.question _ _))
      | inr (w, e) ↦
          rw (n, Access.evaluate_window)
            (rw e (evaluate_allowance-Answers t rep (some w) _ clocks good (λ _ f. cc)))
    ]
  ]

  evaluate_lane-Answers :
      (t : Terms) (rep : Access.Replacement)
      → All (HasClock p) m.question.garages
      → IsConsistent t
      → Answers (Access.evaluate_lane p m pass t rep)
  unfolding Access.evaluate_lane
  evaluate_lane-Answers t rep clocks good = ground (
    arith,
    answer_not_covered-IsAnswer m.question Reason.direction_not_allowed (some pass),
    answer_not_covered-IsAnswer m.question Reason.wrong_lane (some pass),
    evaluate_window-Answers t rep clocks good,
  )

  evaluate_replacement-Answers :
      (t : Terms)
      → All (HasClock p) m.question.garages
      → IsConsistent t
      → Answers (Access.evaluate_replacement p m pass t)
  unfolding Access.evaluate_replacement
  evaluate_replacement-Answers t clocks good = ground (
    arith,
    answer_not_covered-IsAnswer m.question Reason.exit_only (some pass),
    evaluate_lane-Answers t Access.measured clocks good,
    evaluate_lane-Answers t Access.unmeasured clocks good,
  )

  evaluate_state-Answers :
      (t : Terms)
      → All (HasClock p) m.question.garages
      → IsConsistent t
      → Answers (Access.evaluate_state p m pass t)
  unfolding Access.evaluate_state
  evaluate_state-Answers t clocks good = ground (
    arith,
    answer_not_covered-IsAnswer m.question Reason.expired (some pass),
    answer_not_covered-IsAnswer m.question Reason.suspended (some pass),
    answer_not_covered-IsAnswer m.question Reason.not_active (some pass),
    answer_not_covered-IsAnswer m.question Reason.not_started (some pass),
    evaluate_replacement-Answers t clocks good,
  )

  unreadable-IsAnswer : IsAnswer m.question (Access.answer_unreadable m.question pass)
  unreadable-IsAnswer = ground (
    arith,
    answer_not_covered-IsAnswer m.question Reason.pass_unreadable (some pass),
    answer_refused-IsAnswer m.question Missing.unreadable_terms (some pass),
  )

  -- One pass is always answered, and never refused at an exit.
  pub evaluate-Answers :
      All (HasClock p) m.question.garages
      → HasTerms pass
      → Returns (IsAnswer m.question) (Access.evaluate p m pass)
  unfolding Access.evaluate
  evaluate-Answers clocks terms = elim (Option-cases pass.unreadable) [
    | inl e ↦
        let (t, k, good) = terms e in
        ground (
          arith,
          answer_not_covered-IsAnswer m.question Reason.revoked (some pass),
          evaluate_state-Answers t clocks good,
        )
    | inr (u, e) ↦ ground (
      arith,
      answer_not_covered-IsAnswer m.question Reason.revoked (some pass),
      unreadable-IsAnswer,
    )
  ]
