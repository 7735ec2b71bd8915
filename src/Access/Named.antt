-- ===== src/Access/Named.antt =====
-- access.py: the pass that the evaluation of one pass names.
use garage_pass.Base.{
  ◌≡◌, refl, subst, List, [], ◌∷◌, ◌++◌, Option, none, some, ℤ, suc, arith, inl, inr, Bool-cases,
  Option-cases, is_empty, find, if◌then◌else◌,
}
use garage_pass.Result.{Result, Crash, ok, refuse, crash, ◌>>=◌}
use garage_pass.Findings.{Reason, Missing, Unreadable}
use garage_pass.Platform.{Platform}
use garage_pass.Localday.{elapsed}
use garage_pass.Terms.{Terms, Window}
use garage_pass.Passes.{Pass, Visit}
use garage_pass.Access

-- What holds of the value of a call, if it returns one.
abbrev pub IfReturns {ℓ} : {A : Type ℓ} → (A → Type 0) → Result A → Type 0
IfReturns P (ok a) = P a
IfReturns P (refuse r) = Unit
IfReturns P (crash c) = Unit

pub IfReturns-intro :
    {A : Type 0} (P : A → Type 0) (m : Result A) → ((a : A) → m ≡ ok a → P a) → IfReturns P m
IfReturns-intro P (ok a) h = h a refl
IfReturns-intro P (refuse r) h = tt
IfReturns-intro P (crash c) h = tt

pub IfReturns-ok :
    {A : Type 0} (P : A → Type 0) (m : Result A) (a : A) → IfReturns P m → m ≡ ok a → P a
IfReturns-ok P m a h e = subst (IfReturns P) e h

module _ (p : Platform) (m : Access.Movement) (pass : Pass) where
  abbrev Named : Result Access.Answer → Type 0
  Named r = IfReturns (λ (a : Access.Answer). a.pass_id ≡ some pass.id) r

  not_covered-Named : (r : Reason) → Named (ok (Access.answer_not_covered m.question r (some pass)))
  unfolding Access.answer_not_covered
  not_covered-Named r = refl

  refused-Named : (r : Missing) → Named (ok (Access.answer_refused m.question r (some pass)))
  unfolding Access.answer_refused
  refused-Named r = refl

  evaluate_end-Named :
      (rep : Access.Replacement) (parts : Access.Parts)
      → Named (Access.evaluate_end m pass rep parts)
  unfolding Access.evaluate_end Access.answer_covered
  evaluate_end-Named rep parts = ground arith

  measure_stay-Named :
      (rep : Access.Replacement) (cs : List Access.Covering) (limit : ℤ) (v : Option Visit)
      → Named (Access.measure_stay m pass rep cs limit v)
  measure_stay-Named rep cs limit none = evaluate_end-Named rep _
  measure_stay-Named rep cs limit (some v) = ground (
    arith,
    not_covered-Named Reason.over_max_stay,
    evaluate_end-Named rep (record {
      covering = cs ++ Access.stayed (elapsed v.entered_at m.question.at) limit ∷ [];
      unmeasured = [];
    }),
  )

  evaluate_stay-Named :
      (t : Terms) (rep : Access.Replacement) (cs : List Access.Covering)
      → Named (Access.evaluate_stay p m pass t rep cs)
  unfolding Access.evaluate_stay
  evaluate_stay-Named t rep cs =
      elim (Option-cases (if Access.is_exit m.question.direction then t.max_stay else none)) [
        | inl e ↦ rw (e, Access.evaluate_stay) (evaluate_end-Named rep _)
        | inr (d, e) ↦ rw (e, Access.evaluate_stay) (measure_stay-Named rep cs d _)
      ]

  check_used-Named :
      (t : Terms) (rep : Access.Replacement) (cs : List Access.Covering) (allowed : ℤ)
      (r : Result Access.Used)
      → Named (r >>= Access.check_used p m pass t rep cs allowed)
  check_used-Named t rep cs allowed (refuse r) = tt
  check_used-Named t rep cs allowed (crash r) = tt
  check_used-Named t rep cs allowed (ok (Access.unclocked c)) = refused-Named c
  check_used-Named t rep cs allowed (ok (Access.used n)) = ground (
    arith,
    not_covered-Named Reason.out_of_visits,
    evaluate_stay-Named t rep (cs ++ Access.visit (suc n) allowed ∷ []),
  )

  evaluate_allowance-Named :
      (t : Terms) (rep : Access.Replacement) (w : Option Window) (cs : List Access.Covering)
      → Named (Access.evaluate_allowance p m pass t rep w cs)
  unfolding Access.evaluate_allowance
  evaluate_allowance-Named t rep w cs =
      elim (Option-cases
        (if Access.is_exit m.question.direction then none else t.visit_allowance)) [
          | inl e ↦ rw (e, Access.evaluate_allowance) (evaluate_stay-Named t rep cs)
          | inr (a, e) ↦ rw (e, Access.evaluate_allowance) (check_used-Named t rep cs a.count _)
        ]

  evaluate_window-Named :
      (t : Terms) (rep : Access.Replacement) → Named (Access.evaluate_window p m pass t rep)
  unfolding Access.evaluate_window
  evaluate_window-Named t rep = elim (Bool-cases (is_empty t.windows)) [
    | inl e ↦ rw (e, Access.evaluate_window) (evaluate_allowance-Named t rep none _)
    | inr n ↦ elim (Option-cases (find (Access.is_inside m.question.at m.tz) t.windows)) [
      | inl e ↦ rw (n, Access.evaluate_window) (rw e (not_covered-Named Reason.outside_window))
      | inr (w, e) ↦
          rw (n, Access.evaluate_window) (rw e (evaluate_allowance-Named t rep (some w) _))
    ]
  ]

  evaluate_lane-Named :
      (t : Terms) (rep : Access.Replacement) → Named (Access.evaluate_lane p m pass t rep)
  unfolding Access.evaluate_lane
  evaluate_lane-Named t rep = ground (
    arith,
    not_covered-Named Reason.direction_not_allowed,
    not_covered-Named Reason.wrong_lane,
    evaluate_window-Named t rep,
  )

  evaluate_replacement-Named : (t : Terms) → Named (Access.evaluate_replacement p m pass t)
  unfolding Access.evaluate_replacement
  evaluate_replacement-Named t = ground (
    arith,
    not_covered-Named Reason.exit_only,
    evaluate_lane-Named t Access.measured,
    evaluate_lane-Named t Access.unmeasured,
  )

  evaluate_state-Named : (t : Terms) → Named (Access.evaluate_state p m pass t)
  unfolding Access.evaluate_state
  evaluate_state-Named t = ground (
    arith,
    not_covered-Named Reason.expired,
    not_covered-Named Reason.suspended,
    not_covered-Named Reason.not_active,
    not_covered-Named Reason.not_started,
    evaluate_replacement-Named t,
  )

  pub evaluate-Named : Named (Access.evaluate p m pass)
  unfolding Access.evaluate
  evaluate-Named = elim (Bool-cases (Access.is_revoked pass.state)) [
    | inl e ↦ rw (e, Access.evaluate) (not_covered-Named Reason.revoked)
    | inr n ↦ rw (n, Access.evaluate) (read pass.unreadable pass.terms)
  ]
    where
      unreadable : Named (ok (Access.answer_unreadable m.question pass))
      unreadable =
          ground (
            arith,
            not_covered-Named Reason.pass_unreadable,
            refused-Named Missing.unreadable_terms,
          )

      read :
          (u : Option Unreadable) (ts : Option Terms)
          → Named (elim u [
            | some _ ↦ ok (Access.answer_unreadable m.question pass)
            | none ↦ elim ts [
              | none ↦ crash Crash.assertion_error
              | some t ↦ Access.evaluate_state p m pass t
            ]
          ])
      read (some u) ts = unreadable
      read none none = tt
      read none (some t) = evaluate_state-Named t
