-- ===== src/Access/Counts.antt =====
-- access.py: the clocks that counting the recorded entries needs.
use garage_pass.Base.{
  ◌≡◌, refl, ◌≢◌, List, [], ◌∷◌, Option, none, some, Text, All, In, In-filter, All-In, Option-cases,
  Bool-cases, text_eq, inl, inr,
}
use garage_pass.Findings.{Missing}
use garage_pass.Result.{ok}
use garage_pass.Platform.{Platform, Day, Zone}
use garage_pass.Garage.{Garage}
use garage_pass.Terms.{Window, VisitAllowance, AllowancePeriod}
use garage_pass.Passes.{Pass, Visit}
use garage_pass.Access
use garage_pass.Access.Built.{HasClock}

module _ (p : Platform) where
  clock_of_total : (g : Garage) → HasClock p g → (c : Access.Clock) × (Access.clock_of p g ≡ ok c)
  clock_of_total g h = elim (Option-cases g.unreadable) [
    | inl e ↦ let (z, k) = h e in (Access.clock z, rw (e, k))
    | inr (u, e) ↦ (Access.no_clock Missing.timezone, rw e)
  ]

  clock_among_total :
      (gs : List Garage)
      → ((g : Garage) → In g gs → HasClock p g)
      → (c : Access.Clock) × (Access.clock_among p gs ≡ ok c)
  clock_among_total [] h = (Access.no_clock Missing.garage_handed_in, refl)
  clock_among_total (g ∷ []) h = clock_of_total g (h g (inl refl))
  clock_among_total (g ∷ k ∷ gs) h = (Access.no_clock Missing.duplicated_garage_id, refl)

  module _ (q : Access.Question) (tz : Zone) (clocks : All (HasClock p) q.garages) where
    pub clock_at_total : (id : Text) → (c : Access.Clock) × (Access.clock_at p q tz id ≡ ok c)
    unfolding Access.clock_at
    clock_at_total id = elim (Bool-cases (text_eq id q.garage.id)) [
      | inl e ↦ (Access.clock tz, rw e)
      | inr n ↦
          let (c, k) =
            clock_among_total (Access.handed_in q id)
              (λ g i. All-In (HasClock p) g q.garages clocks (In-filter _ g q.garages i).0) in
          (c, rw n k)
    ]

    pub count_in_window_total :
        (today : Day) (w : Window) (vs : List Visit)
        → (n : Access.Used) × (Access.count_in_window p q tz today w vs ≡ ok n)
    unfolding Access.count_in_window
    count_in_window_total today w [] = (Access.used 0, refl)
    count_in_window_total today w (v ∷ vs) =
        let (c, k) = clock_at_total v.garage_id in
        let (n, r) = count_in_window_total today w vs in step c k n r
      where
        step :
            (c : Access.Clock)
            → Access.clock_at p q tz v.garage_id ≡ ok c
            → (n : Access.Used) → Access.count_in_window p q tz today w vs ≡ ok n
            → (n : Access.Used) × (Access.count_in_window p q tz today w (v ∷ vs) ≡ ok n)
        step (Access.no_clock m) k n r = (Access.unclocked m, rw k)
        step (Access.clock z) k n r = (Access.add_if (Access.falls_in w today z v) n, rw (k, r))

    -- With a clock for every garage that is readable, and a window where the allowance is per
    -- window, the count or the missing clock is found.
    pub visits_used_total :
        (today : Day) (pass : Pass) (window : Option Window) (a : VisitAllowance)
        → (a.per ≡ AllowancePeriod.per_window → window ≢ none)
        → (n : Access.Used) × (Access.visits_used p q tz today pass window a ≡ ok n)
    unfolding Access.visits_used
    visits_used_total today pass window a h = by_period a.per window h
      where
        by_period :
            (per : AllowancePeriod) (w : Option Window)
            → (per ≡ AllowancePeriod.per_window → w ≢ none)
            → (n : Access.Used) × (Access.used_by p q tz today pass per w ≡ ok n)
        by_period AllowancePeriod.life w h = (Access.used _, refl)
        by_period AllowancePeriod.per_window none h = absurd (h refl refl)
        by_period AllowancePeriod.per_window (some w) h =
            count_in_window_total today w (Access.on_pass q pass)
