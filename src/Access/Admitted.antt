-- ===== src/Access/Admitted.antt =====
-- access.py: what a covered answer of the call rests on.
use garage_pass.Base.{
  ◌≡◌, refl, inl, inr, true, not, ◌&&◌, List, [], ◌∷◌, Option, none, some, arith, Bool-cases,
  filter, is_empty, is_none, if◌then◌else◌,
}
use garage_pass.Result.{Crash, ok, ◌>>=◌, >>=-eq-ok, or_crash}
use garage_pass.Findings.{Reason, Missing, Unreadable}
use garage_pass.Platform.{Platform, Day, Zone, strip}
use garage_pass.Localday.{zone, day_of}
use garage_pass.Passes.{Pass, Registration}
use garage_pass.Access
use garage_pass.Access.Entitling.{not_covered-covering, refused-covering}
use garage_pass.Access.Named.{IfReturns-ok}
use garage_pass.Access.Justified.{
  IsJustified, WhenCovered, Justified, not_covered-Justified, refused-Justified,
  answer_in_force-Justified,
}

module _ (p : Platform) (q : Access.Question) (tz : Zone) where
  abbrev today : Day
  today = day_of q.at tz

  named-Justified :
      (x : Option Pass)
      → Justified p q tz (
          or_crash x Crash.key_error >>= λ pass.
          ok (Access.answer_not_covered q Reason.revoked (some pass)))
  named-Justified none = tt
  named-Justified (some x) = not_covered-Justified p q tz Reason.revoked (some x)

  answer_no_registration-Justified :
      (rs : List Registration) → Justified p q tz (Access.answer_no_registration q today rs)
  unfolding Access.answer_no_registration
  answer_no_registration-Justified rs = found (filter (Access.on_revoked q) rs)
    where
      found :
          (xs : List Registration)
          → Justified p q tz (elim xs [
            | [] ↦ ok (Access.answer_not_covered q Reason.no_pass none)
            | r ∷ more ↦
                or_crash (Access.by_id q (Access.nearest today r more).pass_id) Crash.key_error
                >>= λ pass. ok (Access.answer_not_covered q Reason.revoked (some pass))
          ])
      found [] = not_covered-Justified p q tz Reason.no_pass none
      found (r ∷ more) = named-Justified (Access.by_id q (Access.nearest today r more).pass_id)

  answer_dangling-Justified :
      (hanging : List Registration) → Justified p q tz (Access.answer_dangling q hanging)
  answer_dangling-Justified [] = tt
  answer_dangling-Justified (r ∷ rs) =
      λ c. absurd (ground (arith, c, not_covered-covering q Reason.pass_not_handed_in none))

  answer_selected-Justified :
      (hanging : List Registration)
      → Justified p q tz (Access.answer_selected p q tz today hanging (Access.effective p q today))
  unfolding Access.answer_selected
  answer_selected-Justified hanging = ground (
    arith,
    refused-Justified p q tz Missing.pass_handed_in none,
    refused-Justified p q tz Missing.duplicated_pass_id none,
    answer_dangling-Justified hanging,
    answer_no_registration-Justified (Access.registrations_here p q today),
    answer_in_force-Justified p q tz hanging
        (Access.duplicated_named q (Access.effective p q today)) (Access.effective p q today) refl,
  )

  blank-Justified :
      (r : Reason) (m : Missing)
      → Justified p q tz (
          ok (
            if Access.is_exit q.direction
            then Access.answer_not_covered q r none
            else Access.answer_refused q m none))
  blank-Justified r m = elim (Bool-cases (Access.is_exit q.direction)) [
    | inl e ↦ rw e (not_covered-Justified p q tz r none)
    | inr n ↦ rw n (refused-Justified p q tz m none)
  ]

  answer_on_clock-Justified : Justified p q tz (Access.answer_on_clock p q tz)
  unfolding Access.answer_on_clock
  answer_on_clock-Justified = elim (Bool-cases (is_empty (strip q.vehicle_identity))) [
    | inl e ↦
        rw (e, Access.answer_on_clock)
          (blank-Justified Reason.blank_identity Missing.vehicle_identity)
    | inr n ↦ elim (Bool-cases (is_empty (strip q.lane))) [
      | inl e ↦
          rw (n, Access.answer_on_clock) (rw e (blank-Justified Reason.blank_lane Missing.lane))
      | inr k ↦
          elim (Bool-cases
            (not (Access.is_exit q.direction) && is_none q.garage.transient_available)) [
              | inl e ↦
                  rw (n, Access.answer_on_clock)
                    (rw k (rw e (refused-Justified p q tz Missing.transient_mode none)))
              | inr e ↦
                  rw (n, Access.answer_on_clock)
                    (rw k
                      (rw e (answer_selected-Justified (Access.registrations_dangling p q today))))
            ]
    ]
  ]

-- A movement is covered only at a garage with a clock, on a registration of the vehicle that is in
-- force on the garage's day, and on a pass that was handed in, that the answer names and that
-- entitles to the movement. Unless the pass's id was handed in more than once, the pass names the
-- garage; at an entry the id was handed in once, and no other registration is in force.
pub access-IsJustified :
    (p : Platform) (q : Access.Question) {a : Access.Answer}
    → Access.access p q ≡ ok a
    → a.outcome ≡ Access.covered
    → (tz : Zone) × (q.garage.unreadable ≡ none)
      × (zone p q.garage.timezone ≡ ok tz)
      × IsJustified p q tz a
unfolding Access.access
access-IsJustified p q {a = a} h c = read q.garage.unreadable refl
  where
    covers : Access.is_covered a ≡ true
    covers = rw c refl

    read :
        (u : Option Unreadable)
        → q.garage.unreadable ≡ u
        → (tz : Zone) × (q.garage.unreadable ≡ none)
          × (zone p q.garage.timezone ≡ ok tz)
          × IsJustified p q tz a
    read (some u) e = absurd (
        ground (
          arith,
          e,
          h,
          covers,
          not_covered-covering q Reason.garage_unreadable none,
          refused-covering q Missing.timezone none,
        ))
    read none e =
        let bound : (zone p q.garage.timezone >>= Access.answer_on_clock p q) ≡ ok a =
          ground (arith, e, h) in
        let (tz, k, h1) = >>=-eq-ok (zone p q.garage.timezone) (Access.answer_on_clock p q) bound in
        (
          tz,
          e,
          k,
          IfReturns-ok (WhenCovered p q tz) _ a (answer_on_clock-Justified p q tz) h1 covers,
        )
