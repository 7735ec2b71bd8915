-- ===== src/Access/Entitling.antt =====
-- access.py: each check of `evaluate` against its part of the contract of Entitled.
use garage_pass.Base.{
  ℕ, ◌≡◌, refl, ◌↔◌, inl, inr, Bool, true, false, List, [], ◌∷◌, ◌++◌, Option, none, some, Text, In,
  find, pos, ℤ, arith, ◌≤ℤ◌, ◌<ℤ◌, is_empty, is_empty-true, is_empty-false, subst, text_in_iff,
  Bool-cases, Option-cases, leb_ℤ, ltb_ℤ_iff, leb_ℤ_iff,
}
use garage_pass.Result.{Result, ok, refuse, crash, ◌>>=◌}
use garage_pass.Findings.{Reason, Missing}
use garage_pass.Platform.{Platform, strip}
use garage_pass.Localday.{elapsed}
use garage_pass.Terms.{Terms, Window, direction_in, lanes_at}
use garage_pass.Passes.{Pass, Visit}
use garage_pass.Access
use garage_pass.Access.Entitled.{IfStated, IsWindow, HasVisitLeft, StaysWithin}

-- The call returns an answer that covers.
abbrev pub covering : Result Access.Answer → Bool
covering (ok a) = Access.is_covered a
covering (refuse r) = false
covering (crash c) = false

pub not_covered-covering :
    (q : Access.Question) (r : Reason) (x : Option Pass)
    → Access.is_covered (Access.answer_not_covered q r x) ≡ false
unfolding Access.answer_not_covered
not_covered-covering q r x = refl

pub refused-covering :
    (q : Access.Question) (r : Missing) (x : Option Pass)
    → Access.is_covered (Access.answer_refused q r x) ≡ false
unfolding Access.answer_refused
refused-covering q r x = refl

module _ (p : Platform) (m : Access.Movement) (pass : Pass) where
  evaluate_end-covering :
      (rep : Access.Replacement) (parts : Access.Parts)
      → covering (Access.evaluate_end m pass rep parts) ≡ true
  unfolding Access.evaluate_end Access.answer_covered
  evaluate_end-covering rep parts = ground arith

  measure_stay-covering :
      (rep : Access.Replacement) (cs : List Access.Covering) (limit : ℤ) (v : Option Visit)
      → (covering (Access.measure_stay m pass rep cs limit v) ≡ true)
        ↔ IfStated v (λ v. elapsed v.entered_at m.question.at ≤ℤ limit)
  measure_stay-covering rep cs limit none = (λ _. tt, λ _. evaluate_end-covering rep _)
  measure_stay-covering rep cs limit (some v) = ground (
    arith,
    ltb_ℤ_iff limit (elapsed v.entered_at m.question.at),
    not_covered-covering m.question Reason.over_max_stay (some pass),
    evaluate_end-covering rep (record {
      covering = cs ++ Access.stayed (elapsed v.entered_at m.question.at) limit ∷ [];
      unmeasured = [];
    }),
  )

  evaluate_stay-covering :
      (t : Terms) (rep : Access.Replacement) (cs : List Access.Covering)
      → (covering (Access.evaluate_stay p m pass t rep cs) ≡ true)
        ↔ (Access.is_exit m.question.direction ≡ true → StaysWithin p m pass t)
  unfolding Access.evaluate_stay
  evaluate_stay-covering t rep cs = elim (Bool-cases (Access.is_exit m.question.direction)) [
    | inr n ↦ rw (n, Access.evaluate_stay) (λ _ f. cc, λ _. evaluate_end-covering rep _)
    | inl e ↦ elim (Option-cases t.max_stay) [
      | inl k ↦ rw (e, Access.evaluate_stay) (rw k (λ _ _. tt, λ _. evaluate_end-covering rep _))
      | inr (limit, k) ↦
          rw (e, Access.evaluate_stay)
            (rw k (
              λ h _. (measure_stay-covering rep cs limit _).0 h,
              λ h. (measure_stay-covering rep cs limit _).1 (h refl),
            ))
    ]
  ]

  -- The limits of a direction, by the test that the code makes.
  abbrev pub Limits : Terms → Option Window → Type 0
  Limits t w =
      (Access.is_exit m.question.direction ≡ false → HasVisitLeft p m pass w t)
      × (Access.is_exit m.question.direction ≡ true → StaysWithin p m pass t)

  counted-covering :
      (t : Terms) (rep : Access.Replacement) (cs : List Access.Covering) (allowed : ℤ)
      (r : Result Access.Used)
      → (covering (r >>= Access.check_used p m pass t rep cs allowed) ≡ true) ↔ (
          ((n : ℕ) × (r ≡ ok (Access.used n)) × (pos n <ℤ allowed))
          × (Access.is_exit m.question.direction ≡ true → StaysWithin p m pass t))
  counted-covering t rep cs allowed (refuse r) = (λ h. cc, λ h. cc)
  counted-covering t rep cs allowed (crash r) = (λ h. cc, λ h. cc)
  counted-covering t rep cs allowed (ok (Access.unclocked c)) =
      (λ h. ground (arith, refused-covering m.question c (some pass)), λ h. cc)
  counted-covering t rep cs allowed (ok (Access.used n)) =
      elim (Bool-cases (leb_ℤ allowed (pos n))) [
        | inl e ↦ rw e (
          λ h. ground (arith, not_covered-covering m.question Reason.out_of_visits (some pass)),
          λ h. ground (arith, h, leb_ℤ_iff allowed (pos n)),
        )
        | inr k ↦ rw k (
          λ h. (
            (n, refl, ground (arith, leb_ℤ_iff allowed (pos n))),
            (evaluate_stay-covering t rep _).0 h,
          ),
          λ h. (evaluate_stay-covering t rep _).1 h.1,
        )
      ]

  evaluate_allowance-covering :
      (t : Terms) (rep : Access.Replacement) (w : Option Window) (cs : List Access.Covering)
      → (covering (Access.evaluate_allowance p m pass t rep w cs) ≡ true) ↔ Limits t w
  unfolding Access.evaluate_allowance
  evaluate_allowance-covering t rep w cs = elim (Bool-cases (Access.is_exit m.question.direction)) [
    | inl e ↦
        let stay = evaluate_stay-covering t rep cs in
        rw (e, Access.evaluate_allowance)
          (λ h. (λ f. cc, λ _. stay.0 h e), λ h. stay.1 (λ _. h.1 refl))
    | inr n ↦ elim (Option-cases t.visit_allowance) [
      | inl k ↦
          rw (n, Access.evaluate_allowance)
            (rw k (λ h. (λ _. tt, λ f. cc), λ h. (evaluate_stay-covering t rep cs).1 (λ f. cc)))
      | inr (allowance, k) ↦
          rw (n, Access.evaluate_allowance)
            (rw k (
              let counted =
                counted-covering t rep cs allowance.count
                  (Access.visits_used p m.question m.tz m.today pass w allowance) in
              (λ h. (λ _. (counted.0 h).0, λ f. cc), λ h. counted.1 (h.0 refl, λ f. cc))))
    ]
  ]

  evaluate_window-covering :
      (t : Terms) (rep : Access.Replacement)
      → (covering (Access.evaluate_window p m pass t rep) ≡ true)
        ↔ ((w : Option Window) × IsWindow m t w × Limits t w)
  unfolding Access.evaluate_window
  evaluate_window-covering t rep = elim (Bool-cases (is_empty t.windows)) [
    | inl e ↦
        rw (e, Access.evaluate_window)
          (
            λ h. (
              none,
              (is_empty-true t.windows).0 e,
              (evaluate_allowance-covering t rep none _).0 h,
            ),
            λ h.
                let (w, i, l) = h in
                (evaluate_allowance-covering t rep none _).1 (no_window e w i l),
          )
    | inr n ↦ elim (Option-cases (find (Access.is_inside m.question.at m.tz) t.windows)) [
      | inl k ↦
          rw (n, Access.evaluate_window)
            (rw k (
              λ h.
                  ground (arith, not_covered-covering m.question Reason.outside_window (some pass)),
              λ h. let (w, i, l) = h in absurd (outside n k w i),
            ))
      | inr (w, k) ↦
          rw (n, Access.evaluate_window)
            (rw k (
              λ h. (
                some w,
                ((is_empty-false t.windows).0 n, k),
                (evaluate_allowance-covering t rep (some w) _).0 h,
              ),
              λ h.
                  let (v, i, l) = h in
                  (evaluate_allowance-covering t rep (some w) _).1 (that_window n k v i l),
            ))
    ]
  ]
    where
      no_window :
          is_empty t.windows ≡ true
          → (w : Option Window) → IsWindow m t w
          → Limits t w
          → Limits t none
      no_window e none i h = h
      no_window e (some w) i h = absurd (i.0 ((is_empty-true t.windows).0 e))

      outside :
          is_empty t.windows ≡ false
          → find (Access.is_inside m.question.at m.tz) t.windows ≡ none
          → (w : Option Window) → IsWindow m t w
          → ⊥
      outside n k none i = (is_empty-false t.windows).0 n i
      outside n k (some w) i = ground (arith, k, i.1)

      that_window :
          {v : Window}
          → is_empty t.windows ≡ false
          → find (Access.is_inside m.question.at m.tz) t.windows ≡ some v
          → (w : Option Window) → IsWindow m t w
          → Limits t w
          → Limits t (some v)
      that_window n k none i h = absurd ((is_empty-false t.windows).0 n i)
      that_window {v} n k (some w) i h =
          let same : w ≡ v = ground (arith, k, i.1) in subst (λ x. Limits t (some x)) same h

  pub evaluate_lane-covering :
      (t : Terms) (rep : Access.Replacement)
      → (covering (Access.evaluate_lane p m pass t rep) ≡ true) ↔ (
          (direction_in m.question.direction t.directions ≡ true)
          × (IfStated (lanes_at t m.question.garage.id) (λ lanes. In (strip m.question.lane) lanes))
          × (w : Option Window) × IsWindow m t w
          × Limits t w)
  unfolding Access.evaluate_lane
  evaluate_lane-covering t rep = lanes (lanes_at t m.question.garage.id) refl
    where
      lanes :
          (ls : Option (List Text))
          → lanes_at t m.question.garage.id ≡ ls
          → (covering (Access.evaluate_lane p m pass t rep) ≡ true) ↔ (
              (direction_in m.question.direction t.directions ≡ true)
              × (IfStated ls (λ lanes. In (strip m.question.lane) lanes))
              × (w : Option Window) × IsWindow m t w
              × Limits t w)
      lanes none e = ground (
        arith,
        e,
        not_covered-covering m.question Reason.direction_not_allowed (some pass),
        evaluate_window-covering t rep,
      )
      lanes (some ls) e = ground (
        arith,
        e,
        not_covered-covering m.question Reason.direction_not_allowed (some pass),
        not_covered-covering m.question Reason.wrong_lane (some pass),
        text_in_iff (strip m.question.lane) ls,
        evaluate_window-covering t rep,
      )
