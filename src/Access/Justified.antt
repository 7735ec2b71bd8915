-- ===== src/Access/Justified.antt =====
-- access.py: the covered answer of one pass and of several.
use garage_pass.Base.{
  ◌≡◌, refl, sym, subst, inl, inr, true, false, List, [], ◌∷◌, Option, none, some, Text, In, arith,
  Bool-cases, sort_by, In-sort_by,
}
use garage_pass.Result.{map_all-In, Result, Crash, ok, ◌>>=◌, >>=-eq-ok, map_all, or_crash}
use garage_pass.Findings.{Reason, Missing}
use garage_pass.Platform.{Platform, Zone}
use garage_pass.Localday.{day_of}
use garage_pass.Passes.{Pass, Registration, covers}
use garage_pass.Access
use garage_pass.Access.Entitled.{IsEntitled}
use garage_pass.Access.Entitling.{not_covered-covering, refused-covering}
use garage_pass.Access.Covered.{evaluate-IsEntitled}
use garage_pass.Access.Named.{IfReturns, IfReturns-intro, IfReturns-ok, evaluate-Named}
use garage_pass.Access.Chosen.{IsOneOf, candidates-In, settle-In}
use garage_pass.Access.Found.{by_id-In, effective-In}

-- The question as the evaluation of one pass sees it, on the clock of the garage.
abbrev pub movement : Platform → Access.Question → Zone → Access.Movement
movement p q tz = record {
  question = q;
  tz = tz;
  today = day_of q.at tz;
  effective = Access.effective p q (day_of q.at tz);
}

-- A registration of the vehicle is in force and on a pass that was handed in, that the answer
-- names, and that entitles to the movement. The pass names the garage unless its id was handed in
-- more than once, which no entry is covered on; nor is one while another registration is in force.
pub record IsJustified (p : Platform) (q : Access.Question) (tz : Zone) (a : Access.Answer)
    : Type 0 where
  pub registration : Registration
  pub handed_in : In registration q.registrations
  pub same : Access.same_vehicle p q registration ≡ true
  pub in_force : covers registration (day_of q.at tz) ≡ true
  pub pass : Pass
  pub brought : In pass q.passes
  pub on_it : pass.id ≡ registration.pass_id
  pub named : a.pass_id ≡ some pass.id
  pub entitled : IsEntitled p (movement p q tz) pass
  pub here : Access.is_duplicated q registration.pass_id ≡ false → In q.garage.id pass.garage_ids
  pub single :
      Access.is_exit q.direction ≡ false
      → (Access.is_duplicated q registration.pass_id ≡ false)
        × (Access.effective p q (day_of q.at tz) ≡ registration ∷ [])

module _ (p : Platform) (q : Access.Question) (tz : Zone) where
  abbrev pub WhenCovered : Access.Answer → Type 0
  WhenCovered a = Access.is_covered a ≡ true → IsJustified p q tz a

  abbrev pub Justified : Result Access.Answer → Type 0
  Justified r = IfReturns WhenCovered r

  pub not_covered-Justified :
      (r : Reason) (x : Option Pass) → Justified (ok (Access.answer_not_covered q r x))
  not_covered-Justified r x h = absurd (ground (arith, h, not_covered-covering q r x))

  pub refused-Justified :
      (r : Missing) (x : Option Pass) → Justified (ok (Access.answer_refused q r x))
  refused-Justified r x h = absurd (ground (arith, h, refused-covering q r x))

  -- What one evaluation that covers shows.
  evaluated :
      (r : Registration) (x : Pass) (b : Access.Answer)
      → In r (Access.effective p q (day_of q.at tz))
      → In x q.passes
      → x.id ≡ r.pass_id
      → (Access.is_duplicated q r.pass_id ≡ false → In q.garage.id x.garage_ids)
      → (Access.is_exit q.direction ≡ false
          → (Access.is_duplicated q r.pass_id ≡ false)
            × (Access.effective p q (day_of q.at tz) ≡ r ∷ []))
      → Access.evaluate p (movement p q tz) x ≡ ok b
      → Access.is_covered b ≡ true
      → IsJustified p q tz b
  evaluated r x b i brought on here single e c =
      let (handed, same, today, _) = effective-In p q (day_of q.at tz) r i in
      let name : IfReturns (λ (a : Access.Answer). a.pass_id ≡ some x.id) (ok b) =
        subst (IfReturns (λ (a : Access.Answer). a.pass_id ≡ some x.id)) e
          (evaluate-Named p (movement p q tz) x) in
      record {
        registration = r;
        handed_in = handed;
        same = same;
        in_force = today;
        pass = x;
        brought = brought;
        on_it = on;
        named = name;
        entitled = (evaluate-IsEntitled p (movement p q tz) x).0 (rw e c);
        here = here;
        single = single;
      }

  renamed :
      (a b : Access.Answer) → a.pass_id ≡ b.pass_id → IsJustified p q tz b → IsJustified p q tz a
  renamed a b same j = record {
    registration = j.registration;
    handed_in = j.handed_in;
    same = j.same;
    in_force = j.in_force;
    pass = j.pass;
    brought = j.brought;
    on_it = j.on_it;
    named = rw same j.named;
    entitled = j.entitled;
    here = j.here;
    single = j.single;
  }

  answer_one-Justified :
      (r : Registration)
      → Access.effective p q (day_of q.at tz) ≡ r ∷ []
      → Justified (Access.answer_one p (movement p q tz) r)
  answer_one-Justified r alone = IfReturns-intro WhenCovered _ (λ b h c.
      let (x, e, h1) =
        >>=-eq-ok (or_crash (Access.by_id q r.pass_id) Crash.key_error)
          (Access.evaluate p (movement p q tz)) h in
      let found : Access.by_id q r.pass_id ≡ some x = ground (arith, e) in
      let (brought, on, named, single) = by_id-In q r.pass_id x found in
      evaluated r x b (subst (λ l. In r l) (sym alone) (inl refl)) brought on (λ _. named)
        (λ _. (single, alone)) h1 c)

  answer_several-Justified :
      (hanging : List Registration) (twice : List Text)
      → Justified (Access.answer_several p (movement p q tz) hanging twice)
  unfolding Access.answer_several
  answer_several-Justified hanging twice = elim (Bool-cases (Access.is_exit q.direction)) [
    | inr n ↦ rw (n, Access.answer_several) (refused-Justified Missing.one_pass none)
    | inl e ↦
        IfReturns-intro WhenCovered _
          (λ a h c. covered_by e a (rw (e, Access.answer_several) at h) c)
  ]
    where
      covered_by :
          Access.is_exit q.direction ≡ true
          → (a : Access.Answer)
          → (Access.candidates p q
                (sort_by Access.by_pass_id (Access.effective p q (day_of q.at tz)))
              >>= λ ps.
                  map_all (Access.evaluate p (movement p q tz)) ps
                  >>= Access.settle q (Access.effective p q (day_of q.at tz)) hanging twice)
            ≡ ok a
          → Access.is_covered a ≡ true
          → IsJustified p q tz a
      covered_by e a h c =
          let (ps, found, h1) = >>=-eq-ok (Access.candidates p q _) _ h in
          let (answers, all, h2) =
            >>=-eq-ok (map_all (Access.evaluate p (movement p q tz)) ps)
              (Access.settle q _ hanging twice) h1 in
          let (b, i, cb, same) =
            IfReturns-ok (IsOneOf answers) _ a (settle-In p q _ hanging twice answers) h2 c in
          let (x, j, eb) = map_all-In (Access.evaluate p (movement p q tz)) ps b all i in
          let (r, k, brought, on, here) = candidates-In p q _ x found j in
          renamed a b same (
            evaluated r x b (In-sort_by Access.by_pass_id r _ k) brought on here
              (λ n. absurd (ground (arith, e, n))) eb cb)

  pub answer_in_force-Justified :
      (hanging : List Registration) (twice : List Text) (rs : List Registration)
      → rs ≡ Access.effective p q (day_of q.at tz)
      → Justified (Access.answer_in_force p (movement p q tz) hanging twice rs)
  answer_in_force-Justified [] [] [] same = answer_several-Justified [] []
  answer_in_force-Justified [] [] (r ∷ []) same = answer_one-Justified r (sym same)
  answer_in_force-Justified [] [] (r ∷ s ∷ rs) same = answer_several-Justified [] []
  answer_in_force-Justified [] (t ∷ ts) rs same = answer_several-Justified [] (t ∷ ts)
  answer_in_force-Justified (h ∷ hs) twice rs same = answer_several-Justified (h ∷ hs) twice
