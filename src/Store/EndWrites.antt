-- ===== src/Store/EndWrites.antt =====
-- store/records.py: the count of rows on which `end_registration` writes or refuses.
use garage_pass.Base.{
  ==_iff, ◌≡◌, refl, sym, ap, subst, ◌∙◌, inl, inr, Bool, true, false, ◌&&◌, List, [], ◌∷◌, Text,
  In, Pairwise, Bool-cases, filter, insert_by, sort_by, length, if◌then◌else◌, suc, ℕ,
}
use garage_pass.Result.{ok}
use garage_pass.Platform.{Platform, Day}
use garage_pass.Store.Rows.{Db, RegistrationRow, rows_where, update_where}
use garage_pass.Store.Writing.{Differ, IsSound}
use garage_pass.Store.EndOne.{
  of_car, latest_first, as_first, EndPlan, judge_rows, end_registration, owner_ends, is_as_read,
  write_end,
}
use garage_pass.Garage.{Garage}
use garage_pass.Passes.{Pass}
use garage_pass.Store.Load.{vehicle_key, load_readable_garage, load_pass}
use garage_pass.Store.OwnerEnds.{judge_rows-ok}
use garage_pass.Store.EndRead.{is_ended, read_rows, read-ended}

module _ {A : Type 0} (test : A → Bool) where
  length-filter :
      (x : A) (xs : List A)
      → length (filter test (x ∷ xs))
        ≡ (if test x then suc (length (filter test xs)) else length (filter test xs))
  length-filter x xs = elim (Bool-cases (test x)) [ inl t ↦ rw t refl | inr f ↦ rw f refl ]

  -- Inserting and sorting keep the number of elements that pass.
  count-insert :
      (leq : A → A → Bool) (x : A) (ys : List A)
      → length (filter test (insert_by leq x ys)) ≡ length (filter test (x ∷ ys))
  count-insert leq x [] = refl
  count-insert leq x (y ∷ ys) = elim (Bool-cases (leq x y)) [
    | inl t ↦ rw t refl
    | inr f ↦
        rw
          (
            f,
            length-filter y (insert_by leq x ys),
            count-insert leq x ys,
            length-filter x ys,
            length-filter x (y ∷ ys),
            length-filter y ys,
          )
          (swapped (test x) (test y) (length (filter test ys)))
  ]
    where
      swapped :
          (a b : Bool) (n : ℕ)
          → (if b then suc (if a then suc n else n) else (if a then suc n else n))
            ≡ (if a then suc (if b then suc n else n) else (if b then suc n else n))
      swapped true true n = refl
      swapped true false n = refl
      swapped false true n = refl
      swapped false false n = refl

  count-sort :
      (leq : A → A → Bool) (xs : List A)
      → length (filter test (sort_by leq xs)) ≡ length (filter test xs)
  unfolding sort_by
  count-sort leq [] = refl
  count-sort leq (x ∷ xs) =
      count-insert leq x (sort_by leq xs)
      ∙ length-filter x (sort_by leq xs)
      ∙ ap (λ n. if test x then suc n else n) (count-sort leq xs)
      ∙ sym (length-filter x xs)

  count-filter :
      (other : A → Bool) (xs : List A)
      → length (filter test (filter other xs)) ≡ length (filter (λ x. other x && test x) xs)
  count-filter other [] = refl
  count-filter other (x ∷ xs) = elim (Bool-cases (other x)) [
    | inl t ↦ elim (Bool-cases (test x)) [
      | inl u ↦ rw (t, u, count-filter other xs) refl
      | inr v ↦ rw (t, v, count-filter other xs) refl
    ]
    | inr f ↦ rw (f, count-filter other xs) refl
  ]

  count-same :
      (other : A → Bool) (xs : List A)
      → ((x : A) → In x xs → test x ≡ other x)
      → length (filter test xs) ≡ length (filter other xs)
  count-same other [] e = refl
  count-same other (x ∷ xs) e = elim (Bool-cases (other x)) [
    | inl t ↦ rw (e x (inl refl), t, count-same other xs (λ y m. e y (inr m))) refl
    | inr f ↦ rw (e x (inl refl), f, count-same other xs (λ y m. e y (inr m))) refl
  ]

-- As many rows are as they were read as were read.
plan-counted :
    (pass_id identity : Text) (rows : List RegistrationRow) (distinct : Pairwise Differ rows)
    (day : Day) (first : RegistrationRow)
    → rows_where
        (is_as_read (record {
          day = day;
          read_end = first.end_day;
          rows = read_rows pass_id identity rows distinct first;
        }))
        rows
      ≡ length (read_rows pass_id identity rows distinct first)
plan-counted pass_id identity rows distinct day first =
    count-same
      (is_as_read (record {
        day = day;
        read_end = first.end_day;
        rows = read_rows pass_id identity rows distinct first;
      }))
      (is_ended pass_id identity first) rows
      (λ r m. read-ended pass_id identity rows distinct day first r m)
    ∙ sym (count-filter (as_first first) (of_car pass_id identity) rows)
    ∙ sym (count-sort (as_first first) latest_first (filter (of_car pass_id identity) rows))

write_end-counted :
    (plan : EndPlan) (rows : List RegistrationRow)
    → rows_where (is_as_read plan) rows ≡ length plan.rows
    → write_end plan rows ≡ ok (update_where (is_as_read plan) (owner_ends plan.day) rows)
unfolding write_end
write_end-counted plan rows e =
    rw (write_end, (==_iff (rows_where (is_as_read plan) rows) (length plan.rows)).1 e) refl

-- Where the car is stated, the garage is readable, the pass is found at it and the rows are sound, an
-- end that is not refused when it is judged is written: with nobody writing in between, no row is
-- found moved.
pub end_registration-written :
    (p : Platform) (db : Db) (garage_id pass_id vehicle : Text) (day : Day) {identity : Text}
    {garage : Garage} {pass : Pass} {plan : EndPlan}
    → IsSound db.next_id db.registrations
    → vehicle_key p vehicle ≡ ok identity
    → load_readable_garage p db garage_id ≡ ok garage
    → load_pass db garage_id pass_id ≡ ok pass
    → judge_rows day (sort_by latest_first (filter (of_car pass_id identity) db.registrations))
      ≡ ok plan
    → (after : Db) × (end_registration p db garage_id pass_id vehicle day ≡ ok (plan, after))
unfolding end_registration
end_registration-written p db garage_id pass_id vehicle day {identity} {plan = plan} s e1 e2 e3 e4 =
    let j = judge_rows-ok day _ e4 in
    let counted =
      subst (λ (x : EndPlan). rows_where (is_as_read x) db.registrations ≡ length x.rows)
        (sym j.planned) (plan-counted pass_id identity db.registrations s.distinct day j.first) in
    (
      record db {
        registrations = update_where (is_as_read plan) (owner_ends plan.day) db.registrations;
      },
      rw (end_registration, e1)
          (rw (e2, e3) (rw e4 (rw (write_end-counted plan db.registrations counted) refl))),
    )
