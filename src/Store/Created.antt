-- ===== src/Store/Created.antt =====
-- store/records.py: the row that `create_pass` writes, and the pass that it loads as.
use garage_pass.Base.{
  ◌*◌, ◌/◌, ◌≡◌, refl, sym, ap, subst, ◌∙◌, ◌≢◌, Bool, true, false, List, [], ◌∷◌, Option, none,
  some, Text, is_some, All, if◌then◌else◌, ℤ, pos, negsuc, arith,
}
use garage_pass.Findings.{Field}
use garage_pass.Result.{ok, ok-inj, >>=-eq-ok}
use garage_pass.Localday.{minute_us}
use garage_pass.Garage.{require_text}
use garage_pass.Terms.{
  Terms, Window, VisitAllowance, GarageLanes, Direction, direction_in, check_terms, make_terms,
}
use garage_pass.Terms.Spec.{IsConsistent, IsWindow, IsPositive, IsAllowance}
use garage_pass.Terms.Check.{check_terms-IsConsistent}
use garage_pass.Passes.{
  State, Holder, Pass, make_holder, make_pass, require_garage_ids, check_readable,
  refuse_lanes_off_the_pass,
}
use garage_pass.Store.Rows.{PassRow}
use garage_pass.Store.Load.{
  minutes, stored_lanes, stored_terms, stored_allowance, stored_directions, stored_holder,
  readable_pass_from_row, pass_from_row,
}
use garage_pass.Store.Create.{rows_of_lanes, stay_minutes, pass_row, check_integer}

-- A pass that carries what a readable pass carries.
abbrev pub readable_pass : Text → List Text → Text → Holder → Terms → State → Pass
readable_pass id garage_ids label holder terms state = record {
  id = id;
  garage_ids = garage_ids;
  label = label;
  holder = some holder;
  terms = some terms;
  state = state;
  unreadable = none;
}

-- A stay in whole minutes.
abbrev pub to_the_minute : Option ℤ → Option ℤ
to_the_minute (some (pos n)) = some (pos (n / minute_us * minute_us))
to_the_minute stay = stay

-- The terms with their stay in whole minutes and their set of directions in one order.
abbrev pub rounded : Terms → Terms
rounded t = record t {
  max_stay = to_the_minute t.max_stay;
  directions =
      stored_directions (direction_in Direction.entry t.directions)
        (direction_in Direction.exit t.directions);
}

allowance-kept :
    (ws : List Window) (a : Option VisitAllowance) → IsAllowance ws a → stored_allowance a ≡ a
allowance-kept ws none h = refl
allowance-kept ws (some a) h = ground arith

stay-kept :
    (stay : Option ℤ)
    → IsPositive stay
    → (elim (stay_minutes stay) [ none ↦ none | some n ↦ some (minutes n) ]) ≡ to_the_minute stay
stay-kept none h = refl
stay-kept (some (pos n)) h = ground arith
stay-kept (some (negsuc n)) h = ground arith

stay-IsPositive :
    (stay : Option ℤ)
    → IsPositive stay
    → check_integer (stay_minutes stay) ≡ ok tt
    → IsPositive (to_the_minute stay)
stay-IsPositive none h c = tt
stay-IsPositive (some (pos n)) h c = ground arith
stay-IsPositive (some (negsuc n)) h c = absurd (ground (arith, h))

some-direction :
    (ds : List Direction)
    → ds ≢ []
    → stored_directions (direction_in Direction.entry ds) (direction_in Direction.exit ds) ≢ []
unfolding direction_in
some-direction [] n = absurd (n refl)
some-direction (Direction.entry ∷ ds) n = λ e. cc
some-direction (Direction.exit ∷ ds) n = filled (direction_in Direction.entry ds)
  where
    filled : (b : Bool) → stored_directions b true ≢ []
    filled true e = cc
    filled false e = cc

IsWindow-rounded : (t : Terms) (w : Window) → IsWindow t w → IsWindow (rounded t) w
IsWindow-rounded t w h = record {
  has_days = h.has_days;
  weekdays = h.weekdays;
  starts = h.starts;
  runs = h.runs;
  ends = h.ends;
  falls_in = h.falls_in;
}

windows-rounded :
    (t : Terms) (ws : List Window) → All (IsWindow t) ws → All (IsWindow (rounded t)) ws
windows-rounded t [] h = tt
windows-rounded t (w ∷ ws) h = (IsWindow-rounded t w h.0, windows-rounded t ws h.1)

IsConsistent-rounded :
    (t : Terms)
    → check_integer (stay_minutes t.max_stay) ≡ ok tt
    → IsConsistent t
    → IsConsistent (rounded t)
IsConsistent-rounded t c h = record {
  ordered = h.ordered;
  windows = windows-rounded t t.windows h.windows;
  max_stay = stay-IsPositive t.max_stay h.max_stay c;
  allowance = h.allowance;
  directions = some-direction t.directions h.directions;
  lanes = h.lanes;
}

lanes-kept :
    (lanes : Option (List GarageLanes))
    → lanes ≡ none
    → (if is_some lanes then some (stored_lanes (rows_of_lanes lanes)) else none) ≡ lanes
lanes-kept none e = refl
lanes-kept (some es) e = cc

-- The row's terms are the rounded terms.
stored-rounded :
    (pass : Pass) (t : Terms) (holder : Holder)
    → t.allowed_lanes ≡ none
    → IsConsistent t
    → stored_terms (pass_row pass t holder) ≡ rounded t
unfolding pass_row
stored-rounded pass t holder lanes h =
    ap (λ x. with_parts x (stored_allowance t.visit_allowance) (lanes_of_row t.allowed_lanes))
      (stay-kept t.max_stay h.max_stay)
    ∙ ap (λ a. with_parts (to_the_minute t.max_stay) a (lanes_of_row t.allowed_lanes))
        (allowance-kept t.windows t.visit_allowance h.allowance)
    ∙ ap (with_parts (to_the_minute t.max_stay) t.visit_allowance)
        (lanes-kept t.allowed_lanes lanes)
  where
    lanes_of_row : Option (List GarageLanes) → Option (List GarageLanes)
    lanes_of_row o = if is_some o then some (stored_lanes (rows_of_lanes o)) else none

    with_parts : Option ℤ → Option VisitAllowance → Option (List GarageLanes) → Terms
    with_parts stay allowance es = record t {
      max_stay = stay;
      visit_allowance = allowance;
      directions =
          stored_directions (direction_in Direction.entry t.directions)
            (direction_in Direction.exit t.directions);
      allowed_lanes = es;
    }

no-lanes :
    (garage_ids : List Text) (t : Terms)
    → t.allowed_lanes ≡ none
    → refuse_lanes_off_the_pass garage_ids t ≡ ok tt
unfolding refuse_lanes_off_the_pass
no-lanes garage_ids t e = ground (arith, e)

built-of :
    (pass : Pass) {i l : Text} {gs : List Text}
    → require_text pass.id Field.pass_id ≡ ok i
    → require_garage_ids pass.garage_ids ≡ ok gs
    → require_text pass.label Field.pass_label ≡ ok l
    → check_readable pass gs ≡ ok tt
    → make_pass pass ≡ ok (record pass { id = i; garage_ids = gs; label = l })
unfolding make_pass
built-of pass e1 e2 e3 e4 = rw (e1, make_pass) (rw e2 (rw e3 (rw e4 refl)))

-- A row loads when its holder, its terms and the pass they make are admitted.
loads-of :
    (row : PassRow) {h : Holder} {ts : Terms} {x : Pass}
    → make_holder (stored_holder row) ≡ ok h
    → make_terms (stored_terms row) ≡ ok ts
    → make_pass (readable_pass row.external_id row.garages row.label h ts row.state) ≡ ok x
    → pass_from_row row ≡ ok x
unfolding pass_from_row
loads-of row e1 e2 e3 = rw (pass_from_row, readable_pass_from_row, e1) (rw e2 (rw e3 refl))

make_terms-of : (t : Terms) → check_terms t ≡ ok tt → make_terms t ≡ ok t
unfolding make_terms
make_terms-of t e = rw (make_terms, e) refl

module _ (id : Text) (garage_ids : List Text) (label : Text) (holder : Holder) (t : Terms)
    (state : State) (lanes : t.allowed_lanes ≡ none)
    (whole : make_pass (readable_pass id garage_ids label holder t state)
      ≡ ok (readable_pass id garage_ids label holder t state)) where
  rebuilt :
      make_pass (readable_pass id garage_ids label holder (rounded t) state)
      ≡ ok (readable_pass id garage_ids label holder (rounded t) state)
  unfolding make_pass
  rebuilt =
      let (i, e1, k1) = >>=-eq-ok (require_text id Field.pass_id) _ whole in
      let (gs, e2, k2) = >>=-eq-ok (require_garage_ids garage_ids) _ k1 in
      let (l, e3, k3) = >>=-eq-ok (require_text label Field.pass_label) _ k2 in
      let (_, e4, k4) =
        >>=-eq-ok (check_readable (readable_pass id garage_ids label holder t state) gs) _ k3 in
      built-of (readable_pass id garage_ids label holder (rounded t) state) e1 e2 e3
        (no-lanes gs (rounded t) lanes)
      ∙ ap (λ (y : Pass). ok (record y { terms = some (rounded t) })) (ok-inj k4)

  -- The row that is written loads.
  pub row-loads :
      make_holder holder ≡ ok holder
      → check_integer (stay_minutes t.max_stay) ≡ ok tt
      → IsConsistent t
      → pass_from_row (pass_row (readable_pass id garage_ids label holder t state) t holder)
        ≡ ok (readable_pass id garage_ids label holder (rounded t) state)
  unfolding pass_row
  row-loads held minutes_ok consistent =
      let whole_terms =
        make_terms-of (rounded t) (
          (check_terms-IsConsistent (rounded t)).1
            (IsConsistent-rounded t minutes_ok consistent)) in
      loads-of (pass_row (readable_pass id garage_ids label holder t state) t holder) held
        (subst (λ (x : Terms). make_terms x ≡ ok (rounded t))
          (sym (
            stored-rounded (readable_pass id garage_ids label holder t state) t holder lanes
              consistent))
          whole_terms)
        rebuilt
