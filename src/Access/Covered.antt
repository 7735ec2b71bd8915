-- ===== src/Access/Covered.antt =====
-- access.py: `evaluate` against the contract of Entitled.
use garage_pass.Base.{◌≤◌, ◌≡◌, refl, ◌↔◌, true, false, Option, none, some, In, arith}
use garage_pass.Findings.{Reason, Missing}
use garage_pass.Platform.{Platform, strip}
use garage_pass.Terms.{Terms, Window, Direction, direction_in, lanes_at}
use garage_pass.Passes.{State, Pass}
use garage_pass.States.{effective_state}
use garage_pass.Access
use garage_pass.Access.Entitled.{
  IfStated, IsWindow, HasVisitLeft, StaysWithin, BegunBefore, Allows, IsEntitled,
}
use garage_pass.Access.Entitling.{
  covering, Limits, not_covered-covering, refused-covering, evaluate_lane-covering,
}

module _ (p : Platform) (m : Access.Movement) (pass : Pass) where
  -- What the direction, the lane and the window ask.
  abbrev InTerms : Terms → Type 0
  InTerms t =
      (direction_in m.question.direction t.directions ≡ true)
      × (IfStated (lanes_at t m.question.garage.id) (λ lanes. In (strip m.question.lane) lanes))
      × (w : Option Window) × IsWindow m t w
      × Limits p m pass t w

  -- What a replacement asks, by the tests that the code makes.
  abbrev Unreplaced : Type 0
  Unreplaced =
      (Access.is_exit m.question.direction ≡ false → Access.exit_only_on m pass.id ≡ false)
      × (Access.is_exit m.question.direction ≡ true
          → Access.exit_only_on m pass.id ≡ true
          → BegunBefore m.question.entered_at (Access.replaced_at m pass.id))

  -- What is said of a replacement bears on no check after it.
  lane_same :
      (t : Terms)
      → (covering (Access.evaluate_lane p m pass t Access.unmeasured) ≡ true)
        ↔ (covering (Access.evaluate_lane p m pass t Access.measured) ≡ true)
  lane_same t = (
    λ h. (evaluate_lane-covering p m pass t _).1 ((evaluate_lane-covering p m pass t _).0 h),
    λ h. (evaluate_lane-covering p m pass t _).1 ((evaluate_lane-covering p m pass t _).0 h),
  )

  evaluate_replacement-covering :
      (t : Terms)
      → (covering (Access.evaluate_replacement p m pass t) ≡ true)
        ↔ (Unreplaced × (covering (Access.evaluate_lane p m pass t Access.measured) ≡ true))
  unfolding Access.evaluate_replacement Access.replacement_of
  evaluate_replacement-covering t =
      ground (arith, lane_same t, not_covered-covering m.question Reason.exit_only (some pass))

  evaluate_state-covering :
      (t : Terms)
      → pass.terms ≡ some t
      → Access.is_revoked pass.state ≡ false
      → (covering (Access.evaluate_state p m pass t) ≡ true) ↔ (
          (pass.state ≡ State.active)
          × (IfStated t.valid_from (λ day. day ≤ m.today))
          × (IfStated t.valid_to (λ day. m.today ≤ day))
          × (covering (Access.evaluate_replacement p m pass t) ≡ true))
  unfolding Access.evaluate_state effective_state
  evaluate_state-covering t e n = ground (
    arith,
    e,
    n,
    not_covered-covering m.question Reason.expired (some pass),
    not_covered-covering m.question Reason.suspended (some pass),
    not_covered-covering m.question Reason.not_active (some pass),
    not_covered-covering m.question Reason.not_started (some pass),
  )

  evaluate-covering : (covering (Access.evaluate p m pass) ≡ true) ↔ (
      (Access.is_revoked pass.state ≡ false)
      × (pass.unreadable ≡ none)
      × (t : Terms) × (pass.terms ≡ some t)
      × (covering (Access.evaluate_state p m pass t) ≡ true))
  unfolding Access.evaluate
  evaluate-covering = ground (
    arith,
    not_covered-covering m.question Reason.revoked (some pass),
    not_covered-covering m.question Reason.pass_unreadable (some pass),
    refused-covering m.question Missing.unreadable_terms (some pass),
  )

  Allows-iff :
      (t : Terms) (w : Option Window) (d : Direction)
      → ((Access.is_exit d ≡ false → Access.exit_only_on m pass.id ≡ false)
          × (Access.is_exit d ≡ true
              → Access.exit_only_on m pass.id ≡ true
              → BegunBefore m.question.entered_at (Access.replaced_at m pass.id))
          × (Access.is_exit d ≡ false → HasVisitLeft p m pass w t)
          × (Access.is_exit d ≡ true → StaysWithin p m pass t))
        ↔ Allows p m pass t w d
  Allows-iff t w Direction.entry =
      (λ h. (h.0 refl, h.2 refl), λ h. (λ _. h.0, λ f. cc, λ _. h.1, λ f. cc))
  Allows-iff t w Direction.exit =
      (λ h. (h.1 refl, h.3 refl), λ h. (λ f. cc, λ _. h.0, λ f. cc, λ _. h.1))

  covering-IsEntitled : covering (Access.evaluate p m pass) ≡ true → IsEntitled p m pass
  covering-IsEntitled h =
      let (n, readable, t, e, h1) = evaluate-covering.0 h in
      let (active, begun, unexpired, h2) = (evaluate_state-covering t e n).0 h1 in
      let (replaced, h3) = (evaluate_replacement-covering t).0 h2 in
      let (direction, lane, w, i, limits) =
        (evaluate_lane-covering p m pass t Access.measured).0 h3 in
      record {
        active = active;
        readable = readable;
        terms = t;
        stated = e;
        permits = record {
          begun = begun;
          unexpired = unexpired;
          direction = direction;
          lane = lane;
          window = w;
          in_window = i;
          limits =
              (Allows-iff t w m.question.direction).0 (replaced.0, replaced.1, limits.0, limits.1);
        };
      }

  IsEntitled-covering : IsEntitled p m pass → covering (Access.evaluate p m pass) ≡ true
  IsEntitled-covering h =
      let t = h.terms in
      let g = h.permits in
      let n : Access.is_revoked pass.state ≡ false = rw h.active refl in
      let (entry, exit, visit, stay) = (Allows-iff t g.window m.question.direction).1 g.limits in
      let h3 =
        (evaluate_lane-covering p m pass t Access.measured).1
          (g.direction, g.lane, g.window, g.in_window, (visit, stay)) in
      let h2 = (evaluate_replacement-covering t).1 ((entry, exit), h3) in
      let h1 = (evaluate_state-covering t h.stated n).1 (h.active, g.begun, g.unexpired, h2) in
      evaluate-covering.1 (n, h.readable, t, h.stated, h1)

-- One pass is evaluated to a covered answer exactly when it entitles to the movement: it is active
-- and readable, and its terms have begun, have not expired, and allow the direction, the lane and
-- the instant; at an entry no replaced car holds it and a visit is left, and at an exit a measured
-- stay is within its limit and a replaced car's stay was begun before the replacement.
pub evaluate-IsEntitled :
    (p : Platform) (m : Access.Movement) (pass : Pass)
    → (covering (Access.evaluate p m pass) ≡ true) ↔ IsEntitled p m pass
evaluate-IsEntitled p m pass = (covering-IsEntitled p m pass, IsEntitled-covering p m pass)
