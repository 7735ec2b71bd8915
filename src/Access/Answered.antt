-- ===== src/Access/Answered.antt =====
-- access.py: the answer to a question that was built through the constructors.
use garage_pass.Base.{
  ◌≡◌, refl, sym, subst, is_empty-false, is_empty-true, ◌≢◌, ◌⊎◌, inl, inr, Bool, true, false, not,
  ◌&&◌, List, [], ◌∷◌, Option, none, some, Text, All-In, In, In-filter, arith, filter, is_empty,
  is_none, if◌then◌else◌, Bool-cases, Option-cases, sort_by, In-sort_by, sort_by-ne-nil,
}
use garage_pass.Findings.{Reason, Missing, Unreadable}
use garage_pass.Result.{Result, ok, Returns, Returns-ok}
use garage_pass.Platform.{Platform, Day, Zone, strip}
use garage_pass.Localday.{day_of}
use garage_pass.Passes.{Pass, Registration}
use garage_pass.Access
use garage_pass.Access.Built.{HasTerms, IsBuilt}
use garage_pass.Access.Found.{by_id-In, duplicated_named-nil, effective-In}
use garage_pass.Access.Total.{
  IsFound, map_all-Returns, note-IsAnswer, candidates-total, settle-Returns,
}
use garage_pass.Access.Shape.{
  IsAnswer, evaluate-Answers, answer_not_covered-IsAnswer, answer_refused-IsAnswer,
}

pick-cases :
    {A : Type 0} (b : Bool) (x y : A) → ((if b then x else y) ≡ x) ⊎ ((if b then x else y) ≡ y)
pick-cases true x y = inl refl
pick-cases false x y = inr refl

module _ (p : Platform) (q : Access.Question) (built : IsBuilt p q) (tz : Zone) (today : Day) where
  abbrev moving : Access.Movement
  moving = record { question = q; tz = tz; today = today; effective = Access.effective p q today }

  abbrev Answers : Result Access.Answer → Type 0
  Answers r = Returns (IsAnswer q) r

  pub IsFound-in_force :
      (r : Registration) → In r (Access.effective p q today) → IsFound p q built r
  IsFound-in_force r m = (effective-In p q today r m).3

  answer_several-Answers :
      (hanging : List Registration) (twice : List Text)
      → Access.effective p q today ≢ []
      → Answers (Access.answer_several p moving hanging twice)
  unfolding Access.answer_several
  answer_several-Answers hanging twice ne = elim (Bool-cases (Access.is_exit q.direction)) [
    | inr n ↦ rw (n, Access.answer_several) (answer_refused-IsAnswer q Missing.one_pass none n)
    | inl e ↦
        let rs = sort_by Access.by_pass_id (Access.effective p q today) in
        let (ps, k, inside, some_pass) =
          candidates-total p q built rs
            (λ r m. IsFound-in_force r (In-sort_by Access.by_pass_id r _ m)) in
        let (answers, k2, all_fit, some_answer) =
          map_all-Returns (IsAnswer q) (Access.evaluate p moving) ps (λ x i.
            evaluate-Answers p moving x built.clocks
              (All-In HasTerms x q.passes built.terms (inside x i))) in
        rw (e, Access.answer_several)
          (rw k (
            rw k2 (
              settle-Returns p q built _ hanging twice answers all_fit
                (some_answer (some_pass (sort_by-ne-nil Access.by_pass_id _ ne))))))
  ]

  answer_one-Answers :
      (r : Registration)
      → In r (Access.effective p q today)
      → Access.is_duplicated q r.pass_id ≡ false
      → Answers (Access.answer_one p moving r)
  answer_one-Answers r m single = elim (Option-cases (Access.by_id q r.pass_id)) [
    | inl e ↦ absurd (ground (arith, IsFound-in_force r m))
    | inr (x, e) ↦ rw e (
        evaluate-Answers p moving x built.clocks
          (All-In HasTerms x q.passes built.terms (by_id-In q r.pass_id x e).0))
  ]

  answer_in_force-Answers :
      (hanging : List Registration) (twice : List Text) (rs : List Registration)
      → rs ≡ Access.effective p q today
      → rs ≢ []
      → (twice ≡ [] → (r : Registration) → In r rs → Access.is_duplicated q r.pass_id ≡ false)
      → Answers (Access.answer_in_force p moving hanging twice rs)
  answer_in_force-Answers [] [] [] same ne single = absurd (ne refl)
  answer_in_force-Answers [] [] (r ∷ []) same ne single =
      answer_one-Answers r (subst (λ l. In r l) same (inl refl)) (single refl r (inl refl))
  answer_in_force-Answers [] [] (r ∷ s ∷ rs) same ne single =
      answer_several-Answers [] [] (rw same at ne)
  answer_in_force-Answers [] (t ∷ ts) rs same ne single =
      answer_several-Answers [] (t ∷ ts) (rw same at ne)
  answer_in_force-Answers (h ∷ hs) twice rs same ne single =
      answer_several-Answers (h ∷ hs) twice (rw same at ne)

  nearest-In :
      (best : Registration) (rs : List Registration) → In (Access.nearest today best rs) (best ∷ rs)
  unfolding Access.nearest
  nearest-In best [] = inl refl
  nearest-In best (r ∷ rs) = elim (pick-cases (Access.nearer today best r) r best) [
    | inl e ↦
        subst (λ x. In (Access.nearest today x rs) (best ∷ r ∷ rs)) (sym e) (inr (nearest-In r rs))
    | inr e ↦
        subst (λ x. In (Access.nearest today x rs) (best ∷ r ∷ rs)) (sym e)
          (elim (nearest-In best rs) [ inl same ↦ inl same | inr i ↦ inr (inr i) ])
  ]

  answer_no_registration-Answers :
      (rs : List Registration) → Answers (Access.answer_no_registration q today rs)
  unfolding Access.answer_no_registration
  answer_no_registration-Answers rs = cases (filter (Access.on_revoked q) rs) refl
    where
      named :
          (r : Registration) (more : List Registration)
          → filter (Access.on_revoked q) rs ≡ r ∷ more
          → Access.on_revoked q (Access.nearest today r more) ≡ true
          → (x : Option Pass) → Access.by_id q (Access.nearest today r more).pass_id ≡ x
          → Answers (Access.answer_no_registration q today rs)
      named r more e on none k = absurd (ground (arith, on, k))
      named r more e on (some x) k =
          rw (e, Access.answer_no_registration)
            (rw k (answer_not_covered-IsAnswer q Reason.revoked (some x)))

      cases :
          (found : List Registration)
          → filter (Access.on_revoked q) rs ≡ found
          → Answers (Access.answer_no_registration q today rs)
      cases [] e =
          rw (e, Access.answer_no_registration) (answer_not_covered-IsAnswer q Reason.no_pass none)
      cases (r ∷ more) e =
          let (_, on) =
            In-filter (Access.on_revoked q) (Access.nearest today r more) rs
              (subst (λ l. In (Access.nearest today r more) l) (sym e) (nearest-In r more)) in
          named r more e on (Access.by_id q (Access.nearest today r more).pass_id) refl

  answer_dangling-Answers :
      (hanging : List Registration) → hanging ≢ [] → Answers (Access.answer_dangling q hanging)
  answer_dangling-Answers [] ne = absurd (ne refl)
  answer_dangling-Answers (r ∷ rs) ne =
      note-IsAnswer q _ _ (answer_not_covered-IsAnswer q Reason.pass_not_handed_in none)

  answer_selected-Answers : Answers (
      Access.answer_selected p q tz today
        (Access.registrations_dangling p q today)
        (Access.effective p q today))
  unfolding Access.answer_selected
  answer_selected-Answers = ground (
    arith,
    answer_refused-IsAnswer q Missing.pass_handed_in none,
    answer_refused-IsAnswer q Missing.duplicated_pass_id none,
    answer_dangling-Answers (Access.registrations_dangling p q today),
    answer_no_registration-Answers (Access.registrations_here p q today),
    in_force,
    is_empty-false (Access.effective p q today),
    is_empty-true (Access.registrations_dangling p q today),
  )
    where
      in_force :
          Access.effective p q today ≢ []
          → Answers (
              Access.answer_in_force p moving
                (Access.registrations_dangling p q today)
                (Access.duplicated_named q (Access.effective p q today))
                (Access.effective p q today))
      in_force ne =
          answer_in_force-Answers _ _ _ refl ne
            (λ nobody r m. duplicated_named-nil q (Access.effective p q today) r nobody m)

module _ (p : Platform) (q : Access.Question) (built : IsBuilt p q) where
  blank-Answers :
      (r : Reason) (m : Missing)
      → Returns (IsAnswer q) (
          ok (
            if Access.is_exit q.direction
            then Access.answer_not_covered q r none
            else Access.answer_refused q m none))
  blank-Answers r m = elim (Bool-cases (Access.is_exit q.direction)) [
    | inl e ↦ rw e (answer_not_covered-IsAnswer q r none)
    | inr n ↦ rw n (answer_refused-IsAnswer q m none n)
  ]

  answer_on_clock-Answers : (tz : Zone) → Returns (IsAnswer q) (Access.answer_on_clock p q tz)
  unfolding Access.answer_on_clock
  answer_on_clock-Answers tz = elim (Bool-cases (is_empty (strip q.vehicle_identity))) [
    | inl e ↦
        rw (e, Access.answer_on_clock)
          (blank-Answers Reason.blank_identity Missing.vehicle_identity)
    | inr n ↦ elim (Bool-cases (is_empty (strip q.lane))) [
      | inl e ↦ rw (n, Access.answer_on_clock) (rw e (blank-Answers Reason.blank_lane Missing.lane))
      | inr k ↦
          elim (Bool-cases
            (not (Access.is_exit q.direction) && is_none q.garage.transient_available)) [
              | inl e ↦
                  rw (n, Access.answer_on_clock)
                    (rw k (
                      rw e (
                        answer_refused-IsAnswer q Missing.transient_mode none (ground (arith, e)))))
              | inr e ↦
                  rw (n, Access.answer_on_clock)
                    (rw k (rw e (answer_selected-Answers p q built tz (day_of q.at tz))))
            ]
    ]
  ]

-- The call answers every question built through the constructors: it raises nothing. The answer
-- echoes the movement and carries what its outcome calls for; a refusal to answer is an entry's,
-- so an exit is always covered or not covered, and an uncovered exit means out of terms.
pub access-IsAnswer :
    (p : Platform) (q : Access.Question)
    → IsBuilt p q
    → (a : Access.Answer) × (Access.access p q ≡ ok a) × IsAnswer q a
unfolding Access.access
access-IsAnswer p q built =
    Returns-ok (IsAnswer q) (Access.access p q) (answer q.garage.unreadable refl)
  where
    answer :
        (u : Option Unreadable) → q.garage.unreadable ≡ u → Returns (IsAnswer q) (Access.access p q)
    answer none e =
        let (tz, k) = built.clock e in
        let same : Access.access p q ≡ Access.answer_on_clock p q tz = ground (arith, e, k) in
        rw same (answer_on_clock-Answers p q built tz)
    answer (some u) e =
        let same : Access.access p q
            ≡ ok (
                if Access.is_exit q.direction
                then Access.answer_not_covered q Reason.garage_unreadable none
                else Access.answer_refused q Missing.timezone none) =
          ground (arith, e) in
        rw same (blank-Answers p q built Reason.garage_unreadable Missing.timezone)
