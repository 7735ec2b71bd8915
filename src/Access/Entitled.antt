-- ===== src/Access/Entitled.antt =====
-- When a pass covers a movement: the contract of access.py, apart from the order of its checks.
use garage_pass.Base.{
  ℕ, ◌≤◌, ◌≡◌, ◌≢◌, true, false, [], Option, none, some, In, find, pos, ◌≤ℤ◌, ◌<ℤ◌, ◌<◌,
}
use garage_pass.Result.{ok}
use garage_pass.Platform.{Platform, Instant, strip}
use garage_pass.Localday.{elapsed}
use garage_pass.Terms.{Terms, Window, Direction, direction_in, lanes_at}
use garage_pass.Passes.{State, Pass}
use garage_pass.Access

-- A restriction that is not stated restricts nothing.
abbrev pub IfStated {ℓ} : {A : Type ℓ} → Option A → (A → Type 0) → Type 0
IfStated none P = Unit
IfStated (some a) P = P a

-- The window that the movement is in: none where no windows are stated, else the first stated
-- window that the instant is inside of, on the garage's clock.
abbrev pub IsWindow : Access.Movement → Terms → Option Window → Type 0
IsWindow m t none = t.windows ≡ []
IsWindow m t (some w) =
    (t.windows ≢ []) × (find (Access.is_inside m.question.at m.tz) t.windows ≡ some w)

-- Fewer recorded entries count against the allowance than it grants.
abbrev pub HasVisitLeft : Platform → Access.Movement → Pass → Option Window → Terms → Type 0
HasVisitLeft p m pass w t = IfStated t.visit_allowance (λ allowance.
    (n : ℕ) × (Access.visits_used p m.question m.tz m.today pass w allowance ≡ ok (Access.used n))
    × (pos n <ℤ allowance.count))

-- The stay, where an entry measures it, is at most the longest that is stated.
abbrev pub StaysWithin : Platform → Access.Movement → Pass → Terms → Type 0
StaysWithin p m pass t = IfStated t.max_stay (λ limit.
    IfStated (Access.measures m.question.at (Access.open_visit p m.question pass))
      (λ v. elapsed v.entered_at m.question.at ≤ℤ limit))

-- A car that was replaced on the pass may leave on the stay that was begun before.
abbrev pub BegunBefore : Option Instant → Option Instant → Type 0
BegunBefore (some entered) (some replaced) = entered < replaced
BegunBefore _ _ = Unit

-- What a direction asks of the pass, beside the rest.
abbrev pub Allows : Platform → Access.Movement → Pass → Terms → Option Window → Direction → Type 0
Allows p m pass t w Direction.entry =
    (Access.exit_only_on m pass.id ≡ false) × HasVisitLeft p m pass w t
Allows p m pass t w Direction.exit =
    (Access.exit_only_on m pass.id ≡ true
      → BegunBefore m.question.entered_at (Access.replaced_at m pass.id))
    × StaysWithin p m pass t

-- The terms cover the movement.
pub record Permits (p : Platform) (m : Access.Movement) (pass : Pass) (t : Terms) : Type 0 where
  pub begun : IfStated t.valid_from (λ day. day ≤ m.today)
  pub unexpired : IfStated t.valid_to (λ day. m.today ≤ day)
  pub direction : direction_in m.question.direction t.directions ≡ true
  pub lane : IfStated (lanes_at t m.question.garage.id) (λ lanes. In (strip m.question.lane) lanes)
  pub window : Option Window
  pub in_window : IsWindow m t window
  pub limits : Allows p m pass t window m.question.direction

-- The pass is active and readable, and its terms cover the movement.
pub record IsEntitled (p : Platform) (m : Access.Movement) (pass : Pass) : Type 0 where
  pub active : pass.state ≡ State.active
  pub readable : pass.unreadable ≡ none
  pub terms : Terms
  pub stated : pass.terms ≡ some terms
  pub permits : Permits p m pass terms
