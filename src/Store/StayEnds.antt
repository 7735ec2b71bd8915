-- ===== src/Store/StayEnds.antt =====
-- store/records.py: what `end_stay` leaves.
use garage_pass.Base.{
  ◌==◌, ==_iff, ◌≡◌, refl, sym, ap, subst, ◌∙◌, ◌≢◌, inl, inr, Bool, true, false, ◌&&◌, List, [],
  ◌∷◌, map, Option, none, some, Text, text_eq_iff, All, In, Pairwise, Bool-cases, filter, any-In,
  In-any, In-filter, filter-In, is_empty, map-In, if◌then◌else◌, arith,
}
use garage_pass.Findings.{Code, Field}
use garage_pass.Result.{ok, ok-inj, refuse_if, refuse_if-ok, >>=-eq-ok}
use garage_pass.Platform.{Platform, Day}
use garage_pass.Garage.{require_text}
use garage_pass.Store.Rows.{Db, RegistrationRow, EndedReason, greatest, before, update_where}
use garage_pass.Store.Load.{load_readable_garage, load_pass}
use garage_pass.Store.Write.{end_on}
use garage_pass.Store.OneCar.{NoLater}
use garage_pass.Store.Writing.{Differ, IsSound, EndsFrom, Shortens, map-IsSound, update-Shortens}
use garage_pass.Store.Judged.{distinct-same}
use garage_pass.Store.Stay.{in_force_from, is_among, StayEnded, end_stay}

pub map_cong :
    {A B : Type 0} (f g : A → B) (xs : List A)
    → ((x : A) → In x xs → f x ≡ g x)
    → map f xs ≡ map g xs
map_cong f g [] e = refl
map_cong f g (x ∷ xs) e = rw (e x (inl refl), map_cong f g xs (λ y m. e y (inr m))) refl

-- The rows that are named by their ids are the rows that pass the test.
among-test :
    (rows : List RegistrationRow) (test : RegistrationRow → Bool) (r : RegistrationRow)
    → Pairwise Differ rows
    → In r rows
    → is_among (filter test rows) r ≡ test r
among-test rows test r d m = elim (Bool-cases (test r)) [
  | inl t ↦
      In-any (λ (s : RegistrationRow). r.id == s.id) r (filter test rows)
        (filter-In test r rows m t) ((==_iff r.id r.id).1 refl)
      ∙ sym t
  | inr f ↦ elim (Bool-cases (is_among (filter test rows) r)) [
    | inr n ↦ n ∙ sym f
    | inl a ↦
        let (s, i, e) = any-In (λ (s : RegistrationRow). r.id == s.id) (filter test rows) a in
        let (j, t) = In-filter test s rows i in
        let same = distinct-same rows r s d m j ((==_iff r.id s.id).0 e) in
        absurd (both (subst (λ x. test x ≡ true) (sym same) t) f)
  ]
]
  where
    both : {b : Bool} → b ≡ true → b ≡ false → ⊥
    both t f = cc

module _ (pass_id : Text) (day : Day) (why : EndedReason) where
  abbrev stay_step : RegistrationRow → RegistrationRow
  stay_step r = if in_force_from pass_id day r then end_on day why r else r

  abbrev IsOver : RegistrationRow → Type 0
  IsOver r = r.pass_id ≡ pass_id → NoLater r.end_day (some (greatest day r.effective_day))

  stay_step-Shortens : Shortens stay_step
  unfolding in_force_from
  stay_step-Shortens =
      update-Shortens (in_force_from pass_id day) day why
        (λ r t. late r.end_day (ground (arith, t)))
    where
      late : (end : Option Day) → before day end ≡ true → EndsFrom day end
      late none t = tt
      late (some e) t = ground arith

  stay_step-IsOver : (r : RegistrationRow) → IsOver (stay_step r)
  unfolding in_force_from
  stay_step-IsOver r = elim (Bool-cases (in_force_from pass_id day r)) [
    | inl t ↦ rw t (λ a. omega arith)
    | inr f ↦ rw f (λ a. over r.end_day (ground (arith, f, text_eq_iff r.pass_id pass_id, sym a)))
  ]
    where
      over :
          (end : Option Day)
          → (before day end && before r.effective_day end) ≡ false
          → NoLater end (some (greatest day r.effective_day))
      over none h = cc
      over (some e) h = ground arith

  steps-IsOver : (rows : List RegistrationRow) → All IsOver (map stay_step rows)
  steps-IsOver [] = tt
  steps-IsOver (r ∷ rows) = (stay_step-IsOver r, steps-IsOver rows)

  stay_step-other : (r : RegistrationRow) → r.pass_id ≢ pass_id → stay_step r ≡ r
  unfolding in_force_from
  stay_step-other r n =
      let f : in_force_from pass_id day r ≡ false =
        ground (arith, n, text_eq_iff r.pass_id pass_id) in
      rw f refl

-- What the end of a stay leaves.
pub record EndsStay (before_it after : Db) (pass_id : Text) (day : Day) : Type 0 where
  pub held :
      (r : RegistrationRow) × In r before_it.registrations × (in_force_from pass_id day r ≡ true)
  pub sound : IsSound after.next_id after.registrations
  pub over :
      All
        (λ (r : RegistrationRow).
          r.pass_id ≡ pass_id → NoLater r.end_day (some (greatest day r.effective_day)))
        after.registrations
  pub others_kept :
      (r : RegistrationRow)
      → r.pass_id ≢ pass_id
      → In r before_it.registrations
      → In r after.registrations

rows-EndsStay :
    (db : Db) (pass_id : Text) (day : Day) (why : EndedReason)
    → IsSound db.next_id db.registrations
    → is_empty (filter (in_force_from pass_id day) db.registrations) ≡ false
    → EndsStay db
        (record db {
          registrations =
              update_where
                (is_among (filter (in_force_from pass_id day) db.registrations))
                (end_on day why)
                db.registrations;
        })
        pass_id
        day
rows-EndsStay db pass_id day why s some_row =
    let same : map (stay_step pass_id day why) db.registrations
        ≡ update_where (is_among (filter (in_force_from pass_id day) db.registrations))
            (end_on day why) db.registrations =
      map_cong _ _ db.registrations (λ r m.
        ap (λ b. if b then end_on day why r else r)
          (sym (among-test db.registrations (in_force_from pass_id day) r s.distinct m))) in
    subst (λ rows. EndsStay db (record db { registrations = rows }) pass_id day) same
      (record {
        held =
            first (filter (in_force_from pass_id day) db.registrations)
              (λ r m. In-filter _ r db.registrations m) some_row;
        sound =
            map-IsSound (stay_step pass_id day why) (stay_step-Shortens pass_id day why) db.next_id
              db.registrations s;
        over = steps-IsOver pass_id day why db.registrations;
        others_kept = λ r n m.
            subst (λ x. In x (map (stay_step pass_id day why) db.registrations))
              (stay_step-other pass_id day why r n)
              (map-In (stay_step pass_id day why) r db.registrations m);
      })
  where
    first :
        (found : List RegistrationRow)
        → ((r : RegistrationRow)
            → In r found
            → In r db.registrations × (in_force_from pass_id day r ≡ true))
        → is_empty found ≡ false
        → (r : RegistrationRow) × In r db.registrations × (in_force_from pass_id day r ≡ true)
    first [] h e = cc
    first (r ∷ found) h e = let (m, t) = h r (inl refl) in (r, m, t)

-- A stay that is ended held the day that it is ended on or a later one; no registration of the pass
-- holds any of these days any more, at any garage, the registrations are sound, and those of other
-- passes are as they were.
pub end_stay-EndsStay :
    (p : Platform) (db : Db) (garage_id pass_id : Text) (day : Day) (by reason : Text)
    {result : StayEnded × Db}
    → IsSound db.next_id db.registrations
    → end_stay p db garage_id pass_id day by reason ≡ ok result
    → EndsStay db result.1 pass_id day
unfolding end_stay
end_stay-EndsStay p db garage_id pass_id day by reason {result} s e =
    let (who, e1, k1) = >>=-eq-ok (require_text by Field.ended_by) _ e in
    let (why, e2, k2) = >>=-eq-ok (require_text reason Field.reason) _ k1 in
    let (garage, e3, k3) = >>=-eq-ok (load_readable_garage p db garage_id) _ k2 in
    let (pass, e4, k4) = >>=-eq-ok (load_pass db garage_id pass_id) _ k3 in
    let (_, e5, k5) =
      >>=-eq-ok
        (refuse_if (is_empty (filter (in_force_from pass_id day) db.registrations))
          Code.registration_not_found Field.the_pass)
        _ k4 in
    subst (λ (r : StayEnded × Db). EndsStay db r.1 pass_id day) (ok-inj k5)
      (rows-EndsStay db pass_id day (EndedReason.by_checkout who why) s ((refuse_if-ok _ _ _).0 e5))
