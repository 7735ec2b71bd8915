-- ===== src/Terms/Check.antt =====
-- terms.py: `check_terms` against the consistent terms of Spec.
use garage_pass.Base.{
  ℕ, ◌+◌, ◌≡◌, refl, ◌≢◌, ◌↔◌, true, false, not, List, [], ◌∷◌, Option, none, some, Text,
  text_in_iff, In, All, arith, ℤ, pos, eq_ℤ, eq_ℤ_iff, is_empty, is_empty-false, all, any, all_iff,
  any-false_iff, any-In, In-any,
}
use garage_pass.Result.{ok, >>-ok}
use garage_pass.Platform.{Day, strip}
use garage_pass.Terms.Days.{days_that_occur-Occurs}
use garage_pass.Terms.Spec.{
  FallsIn, IsWeekday, IsWindow, IsOrdered, IsPositive, IsAllowance, IsNamed, IsLanes, AreLanes,
  IsConsistent,
}
use garage_pass.Terms.Defs.{
  Terms, Window, VisitAllowance, GarageLanes, days_that_occur, is_day, days_meet, never_occurs,
  check_window, check_windows, check_lanes_entry, check_lanes, ends_before_it_starts,
  stay_not_positive, check_allowance, check_allowed_lanes, check_terms, make_terms,
}

days_meet_iff :
    (days : List ℤ) (occurring : List ℕ)
    → (days_meet days occurring ≡ true) ↔ ((d : ℕ) × In (pos d) days × In d occurring)
unfolding days_meet
days_meet_iff days occurring = (there, back)
  where
    there :
        any (λ d. any (λ o. eq_ℤ d (pos o)) occurring) days ≡ true
        → (d : ℕ) × In (pos d) days × In d occurring
    there h =
        let (z, m, e) = any-In _ days h in
        let (o, k, q) = any-In _ occurring e in (o, rw (← (eq_ℤ_iff z (pos o)).0 q) m, k)

    back :
        (d : ℕ) × In (pos d) days × In d occurring
        → any (λ d. any (λ o. eq_ℤ d (pos o)) occurring) days ≡ true
    back (d, m, k) =
        In-any _ (pos d) days m (In-any _ d occurring k ((eq_ℤ_iff (pos d) (pos d)).1 refl))

never_occurs_iff :
    (from to : Option Day) (days : List ℤ)
    → (never_occurs from to days ≡ false) ↔ FallsIn from to days
never_occurs_iff none to days = (λ _. tt, λ _. refl)
never_occurs_iff (some from) none days = (λ _. tt, λ _. refl)
never_occurs_iff (some from) (some to) days = (there, back)
  where
    occurring : List ℕ
    occurring = days_that_occur from to

    there : not (days_meet days occurring) ≡ false → FallsIn (some from) (some to) days
    there h =
        let (d, m, k) = (days_meet_iff days occurring).0 (ground arith) in
        (d, m, (days_that_occur-Occurs from to d).0 k)

    back : FallsIn (some from) (some to) days → not (days_meet days occurring) ≡ false
    back (d, m, k) =
        rw ((days_meet_iff days occurring).1 (d, m, (days_that_occur-Occurs from to d).1 k))

all_weekdays : (days : List ℤ) → (all is_day days ≡ true) ↔ All IsWeekday days
all_weekdays days = all_iff is_day IsWeekday (λ d. ground arith) days

IsNamed-iff : (name : Text) → (is_empty (strip name) ≡ false) ↔ IsNamed name
IsNamed-iff name = is_empty-false (strip name)

all-IsNamed :
    (names : List Text) → (any (λ lane. is_empty (strip lane)) names ≡ false) ↔ All IsNamed names
all-IsNamed names = any-false_iff _ IsNamed IsNamed-iff names

check_window_iff :
    (t : Terms) (index : ℕ) (w : Window) → (check_window t index w ≡ ok tt) ↔ IsWindow t w
unfolding check_window
check_window_iff t index w = ground (
  arith,
  is_empty-false w.days,
  all_weekdays w.days,
  never_occurs_iff t.valid_from t.valid_to w.days,
)

check_windows_iff :
    (t : Terms) (index : ℕ) (ws : List Window)
    → (check_windows t index ws ≡ ok tt) ↔ All (IsWindow t) ws
unfolding check_windows
check_windows_iff t index [] = (λ _. tt, λ _. refl)
check_windows_iff t index (w ∷ ws) = ground (
  arith,
  >>-ok (check_window t index w) (check_windows t (index + 1) ws),
  check_window_iff t index w,
  check_windows_iff t (index + 1) ws,
)

check_lanes_entry_iff :
    (seen : List Text) (index : ℕ) (e : GarageLanes)
    → (check_lanes_entry seen index e ≡ ok tt)
      ↔ (IsNamed e.garage_id × (¬ In e.garage_id seen) × (e.lanes ≢ []) × All IsNamed e.lanes)
unfolding check_lanes_entry
check_lanes_entry_iff seen index e = ground (
  arith,
  IsNamed-iff e.garage_id,
  text_in_iff e.garage_id seen,
  is_empty-false e.lanes,
  all-IsNamed e.lanes,
)

check_lanes_iff :
    (seen : List Text) (index : ℕ) (es : List GarageLanes)
    → (check_lanes seen index es ≡ ok tt) ↔ IsLanes seen es
unfolding check_lanes
check_lanes_iff seen index [] = (λ _. tt, λ _. refl)
check_lanes_iff seen index (e ∷ es) = ground (
  arith,
  >>-ok (check_lanes_entry seen index e) (check_lanes (e.garage_id ∷ seen) (index + 1) es),
  check_lanes_entry_iff seen index e,
  check_lanes_iff (e.garage_id ∷ seen) (index + 1) es,
)

check_allowed_lanes_iff :
    (lanes : Option (List GarageLanes)) → (check_allowed_lanes lanes ≡ ok tt) ↔ AreLanes lanes
check_allowed_lanes_iff none = (λ _. tt, λ _. refl)
check_allowed_lanes_iff (some es) = ground (arith, is_empty-false es, check_lanes_iff [] 0 es)

check_allowance_iff :
    (windows : List Window) (a : Option VisitAllowance)
    → (check_allowance windows a ≡ ok tt) ↔ IsAllowance windows a
check_allowance_iff windows none = (λ _. tt, λ _. refl)
check_allowance_iff windows (some a) = ground (arith, is_empty-false windows)

IsOrdered-iff : (from to : Option Day) → (ends_before_it_starts from to ≡ false) ↔ IsOrdered from to
IsOrdered-iff none to = (λ _. tt, λ _. refl)
IsOrdered-iff (some from) none = (λ _. tt, λ _. refl)
IsOrdered-iff (some from) (some to) = ground arith

IsPositive-iff : (d : Option ℤ) → (stay_not_positive d ≡ false) ↔ IsPositive d
IsPositive-iff none = (λ _. tt, λ _. refl)
IsPositive-iff (some d) = ground arith

-- The validator passes a set of terms exactly when they are consistent: the range is ordered,
-- every window has weekdays, runs forward inside a day and falls in the stated range, the maximum
-- stay and the allowance are positive, a per-window allowance has windows, some direction is
-- stated, and stated lanes name each garage once with lanes that are not blank.
pub check_terms-IsConsistent : (t : Terms) → (check_terms t ≡ ok tt) ↔ IsConsistent t
unfolding check_terms
check_terms-IsConsistent t = ground (
  arith,
  IsOrdered-iff t.valid_from t.valid_to,
  check_windows_iff t 0 t.windows,
  IsPositive-iff t.max_stay,
  check_allowance_iff t.windows t.visit_allowance,
  is_empty-false t.directions,
  check_allowed_lanes_iff t.allowed_lanes,
)

-- A set of terms that was built is the one that was stated, and is consistent.
pub make_terms-IsConsistent :
    (t : Terms) {t' : Terms} → make_terms t ≡ ok t' → (t' ≡ t) × IsConsistent t'
unfolding make_terms
make_terms-IsConsistent t h = ground (arith, check_terms-IsConsistent t)
