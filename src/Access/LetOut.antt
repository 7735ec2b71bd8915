-- ===== src/Access/LetOut.antt =====
-- access.py: an exit with one pass that entitles, among others.
use garage_pass.Base.{
  ◌≡◌, refl, sym, subst, ap, ◌∙◌, ◌⊎◌, inl, inr, true, false, not, ◌&&◌, List, [], ◌∷◌, ◌++◌, none,
  some, Text, In, All-In, In-append-left, In-append-right, arith, find, sort_by, sort_by-In,
  In-sort_by, In-ne-nil, is_empty, is_none, is_empty-false, Bool-cases,
}
use garage_pass.Result.{In-map_all, ok, >>=-eq-ok}
use garage_pass.Platform.{Platform, Zone, strip}
use garage_pass.Localday.{zone, day_of}
use garage_pass.Passes.{Pass, Registration}
use garage_pass.Access
use garage_pass.Access.Built.{HasTerms, IsBuilt}
use garage_pass.Access.Entitled.{IsEntitled}
use garage_pass.Access.Entitling.{covering}
use garage_pass.Access.Covered.{evaluate-IsEntitled}
use garage_pass.Access.Found.{by_id-In, duplicated_named-nil}
use garage_pass.Access.Shape.{IsAnswer, evaluate-Answers}
use garage_pass.Access.Total.{map_all-Returns, candidates-total}
use garage_pass.Access.Answered.{IsFound-in_force, access-IsAnswer}
use garage_pass.Access.Justified.{movement}

-- The pass that a registration brings to an exit: the selected one, or any copy of a duplicated id.
abbrev pub Brings : Access.Question → Registration → Pass → Type 0
Brings q r x =
    (Access.by_id q r.pass_id ≡ some x)
    ⊎ ((Access.is_duplicated q r.pass_id ≡ true) × In x (Access.copies_of q r.pass_id))

find-covered :
    (answers : List Access.Answer) (a : Access.Answer)
    → In a answers
    → Access.is_covered a ≡ true
    → (b : Access.Answer) × (find Access.is_covered answers ≡ some b) × (Access.is_covered b ≡ true)
find-covered [] a m c = absurd m
find-covered (b ∷ bs) a (inl q) c =
    let t : Access.is_covered b ≡ true = subst (λ x. Access.is_covered x ≡ true) q c in
    (b, rw t refl, t)
find-covered (b ∷ bs) a (inr i) c = elim (Bool-cases (Access.is_covered b)) [
  | inl t ↦ (b, rw t refl, t)
  | inr f ↦ let (d, e, t) = find-covered bs a i c in (d, rw f e, t)
]

module _ (p : Platform) (q : Access.Question) where
  In-candidates_of :
      (r : Registration) {ps : List Pass} (x : Pass)
      → Brings q r x
      → Access.candidates_of p q r ≡ ok ps
      → In x ps
  unfolding Access.candidates_of
  In-candidates_of r {ps} x (inr (twice, m)) h =
      let same : sort_by (Access.copy_order p) (Access.copies_of q r.pass_id) ≡ ps =
        ground (arith, twice, h) in
      subst (λ l. In x l) same (sort_by-In (Access.copy_order p) x _ m)
  In-candidates_of r {ps} x (inl e) h =
      let (_, _, _, single) = by_id-In q r.pass_id x e in
      let same : x ∷ [] ≡ ps = ground (arith, e, single, h) in subst (λ l. In x l) same (inl refl)

  In-candidates :
      (rs : List Registration) {ps : List Pass} (r : Registration) (x : Pass)
      → In r rs
      → Brings q r x
      → Access.candidates p q rs ≡ ok ps
      → In x ps
  unfolding Access.candidates
  In-candidates [] r x m b h = absurd m
  In-candidates (s ∷ rs) {ps} r x m b h =
      let (ys, e, h1) = >>=-eq-ok (Access.candidates_of p q s) _ h in
      let (zs, es, h2) = >>=-eq-ok (Access.candidates p q rs) (λ rest. ok (ys ++ rest)) h1 in
      let same : ys ++ zs ≡ ps = cc in
      subst (λ l. In x l) same
        (elim m [
          | inl k ↦ In-append-left x ys zs (In-candidates_of s x (subst (λ z. Brings q z x) k b) e)
          | inr i ↦ In-append-right x ys zs (In-candidates rs r x i b es)
        ])

  settle-covering :
      (rs hanging : List Registration) (twice : List Text) (answers : List Access.Answer)
      (a : Access.Answer)
      → In a answers
      → Access.is_covered a ≡ true
      → covering (Access.settle q rs hanging twice answers) ≡ true
  unfolding Access.settle
  settle-covering rs hanging twice answers a m c =
      let (b, e, t) = find-covered answers a m c in rw (e, Access.settle) t

module _ (p : Platform) (q : Access.Question) (built : IsBuilt p q) (tz : Zone)
    (leaving : Access.is_exit q.direction ≡ true) (r : Registration)
    (in_force : In r (Access.effective p q (day_of q.at tz))) (x : Pass) (brings : Brings q r x)
    (entitled : IsEntitled p (movement p q tz) x) where
  answer_several-covering :
      (hanging : List Registration) (twice : List Text)
      → covering (Access.answer_several p (movement p q tz) hanging twice) ≡ true
  unfolding Access.answer_several
  answer_several-covering hanging twice =
      let rs = sort_by Access.by_pass_id (Access.effective p q (day_of q.at tz)) in
      let (ps, k, handed_in, some_pass) = candidates-total p q built rs (λ s m.
        IsFound-in_force p q built tz (day_of q.at tz) s (In-sort_by Access.by_pass_id s _ m)) in
      let (answers, k2, all_fit, some_answer) =
        map_all-Returns (IsAnswer q) (Access.evaluate p (movement p q tz)) ps (λ y i.
          evaluate-Answers p (movement p q tz) y built.clocks
            (All-In HasTerms y q.passes built.terms (handed_in y i))) in
      let m = In-candidates p q rs r x (sort_by-In Access.by_pass_id r _ in_force) brings k in
      let (a, i, e) = In-map_all (Access.evaluate p (movement p q tz)) ps x k2 m in
      let c : Access.is_covered a ≡ true =
        ap covering (sym e) ∙ (evaluate-IsEntitled p (movement p q tz) x).1 entitled in
      rw (leaving, Access.answer_several)
        (rw k (rw k2 (settle-covering p q _ hanging twice answers a i c)))

  answer_one-covering :
      Access.is_duplicated q r.pass_id ≡ false
      → covering (Access.answer_one p (movement p q tz) r) ≡ true
  answer_one-covering single = one brings
    where
      one : Brings q r x → covering (Access.answer_one p (movement p q tz) r) ≡ true
      one (inl e) = rw e ((evaluate-IsEntitled p (movement p q tz) x).1 entitled)
      one (inr (twice, m)) = absurd (ground (arith, twice, single))

  answer_in_force-covering :
      (hanging : List Registration) (twice : List Text) (rs : List Registration)
      → In r rs
      → (twice ≡ [] → Access.is_duplicated q r.pass_id ≡ false)
      → covering (Access.answer_in_force p (movement p q tz) hanging twice rs) ≡ true
  answer_in_force-covering [] [] [] m single = absurd m
  answer_in_force-covering [] [] (s ∷ []) (inl e) single =
      subst (λ y. covering (Access.answer_one p (movement p q tz) y) ≡ true) e
        (answer_one-covering (single refl))
  answer_in_force-covering [] [] (s ∷ []) (inr m) single = absurd m
  answer_in_force-covering [] [] (s ∷ t ∷ rs) m single = answer_several-covering [] []
  answer_in_force-covering [] (t ∷ ts) rs m single = answer_several-covering [] (t ∷ ts)
  answer_in_force-covering (h ∷ hs) twice rs m single = answer_several-covering (h ∷ hs) twice

  answer_selected-covering :
      (hanging : List Registration)
      → covering (
          Access.answer_selected p q tz
            (day_of q.at tz)
            hanging
            (Access.effective p q (day_of q.at tz)))
        ≡ true
  unfolding Access.answer_selected
  answer_selected-covering hanging = ground (
    arith,
    leaving,
    (is_empty-false (Access.effective p q (day_of q.at tz))).1 (In-ne-nil r _ in_force),
    answer_in_force-covering hanging
        (Access.duplicated_named q (Access.effective p q (day_of q.at tz)))
        (Access.effective p q (day_of q.at tz)) in_force
        (λ nobody.
          duplicated_named-nil q (Access.effective p q (day_of q.at tz)) r nobody in_force),
  )

  answer_on_clock-covering :
      is_empty (strip q.vehicle_identity) ≡ false
      → is_empty (strip q.lane) ≡ false
      → covering (Access.answer_on_clock p q tz) ≡ true
  unfolding Access.answer_on_clock
  answer_on_clock-covering identity lane =
      let open_lane : (not (Access.is_exit q.direction) && is_none q.garage.transient_available)
          ≡ false =
        rw leaving refl in
      rw (identity, Access.answer_on_clock)
        (rw lane (
          rw open_lane
            (answer_selected-covering (Access.registrations_dangling p q (day_of q.at tz)))))

-- At an exit of a readable garage, for a car and a lane that are named, one pass that entitles to
-- the movement covers it, if a registration in force brings the pass: whatever other passes are in
-- force, handed in twice or not handed in at all, and whatever becomes of them.
pub access-lets_out :
    (p : Platform) (q : Access.Question) (tz : Zone) (r : Registration) (x : Pass)
    → IsBuilt p q
    → Access.is_exit q.direction ≡ true
    → q.garage.unreadable ≡ none
    → zone p q.garage.timezone ≡ ok tz
    → is_empty (strip q.vehicle_identity) ≡ false
    → is_empty (strip q.lane) ≡ false
    → In r (Access.effective p q (day_of q.at tz))
    → Brings q r x
    → IsEntitled p (movement p q tz) x
    → (a : Access.Answer) × (Access.access p q ≡ ok a) × (a.outcome ≡ Access.covered)
unfolding Access.access
access-lets_out p q tz r x built leaving readable clock identity lane in_force brings entitled =
    let (a, e, fits) = access-IsAnswer p q built in
    let same : Access.access p q ≡ Access.answer_on_clock p q tz =
      ground (arith, readable, clock) in
    let c : Access.is_covered a ≡ true =
      ap covering (sym e ∙ same)
      ∙ answer_on_clock-covering p q built tz leaving r in_force x brings entitled identity lane in
    (a, e, is_covered-outcome a c)
  where
    is_covered-outcome :
        (a : Access.Answer) → Access.is_covered a ≡ true → a.outcome ≡ Access.covered
    is_covered-outcome a c = by a.outcome c
      where
        by :
            (o : Access.Outcome)
            → (elim o [ Access.Outcome.covered ↦ true | _ ↦ false ]) ≡ true
            → o ≡ Access.covered
        by Access.Outcome.covered c = refl
        by _ c = cc
