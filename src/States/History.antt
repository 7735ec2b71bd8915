-- ===== src/States/History.antt =====
-- Any number of transitions of one pass, and the changes that they record, the newest first.
use garage_pass.Base.{◌≡◌, refl, ◌≢◌, ◌∙◌, ap, List, [], ◌∷◌, Text, arith}
use garage_pass.Result.{ok}
use garage_pass.Platform.{Instant}
use garage_pass.Passes.{State, Pass, StateChange}
use garage_pass.States.Defs.{transition}
use garage_pass.States.Graph.{
  Moves, await, open_directly, enrol, suspend, resume, revoke, transition_sound,
}

-- The passes that transitions lead to from `p`, each with its record of changes.
pub data History (p : Pass) : Pass → List StateChange → Type 0 where
  start : History p p []
  move :
      {q r : Pass} {log : List StateChange} {c : StateChange} (to : State) (by : Text)
      (at : Instant) (reason : Text)
      → History p q log
      → transition q to by at reason ≡ ok (r, c)
      → History p r (c ∷ log)

-- The changes lead from one state to another without a gap, each along an arrow.
abbrev pub Linked : State → State → List StateChange → Type 0
Linked from to [] = from ≡ to
Linked from to (c ∷ log) =
    (c.to_state ≡ to) × Moves c.from_state c.to_state × Linked from c.from_state log

-- The recorded changes account for the state: they lead without a gap from the first state to the
-- present one, and nothing but the state of the pass has moved.
pub History-Linked :
    {p q : Pass} {log : List StateChange}
    → History p q log
    → Linked p.state q.state log × (q ≡ record p { state = q.state })
History-Linked start = (refl, refl)
History-Linked (move {q = q} {r = r} {c = c} to by at reason h e) =
    let (linked, same) = History-Linked h in
    let (m, _, _, pair) = transition_sound q to by at reason e in
    ground (arith, same, linked, m, pair)

not-Moves-revoked : {s t : State} → Moves s t → s ≢ State.revoked
not-Moves-revoked await e = cc
not-Moves-revoked open_directly e = cc
not-Moves-revoked enrol e = cc
not-Moves-revoked suspend e = cc
not-Moves-revoked resume e = cc
not-Moves-revoked (revoke n) e = n e

-- Revocation is terminal: no transitions lead anywhere from a revoked pass.
pub revoked_is_final :
    {p q : Pass} {log : List StateChange}
    → p.state ≡ State.revoked
    → History p q log
    → (q ≡ p) × (log ≡ [])
revoked_is_final h start = (refl, refl)
revoked_is_final h (move {q = q} to by at reason past e) =
    let (same, _) = revoked_is_final h past in
    let (m, _, _, _) = transition_sound q to by at reason e in
    absurd (not-Moves-revoked m (ap (λ (x : Pass). x.state) same ∙ h))
