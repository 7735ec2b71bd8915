-- ===== src/Store/EndRead.antt =====
-- store/records.py: the rows that `end_registration` reads, and those that it finds again to
-- write them.
use garage_pass.Base.{
  ◌==◌, ==_iff, ◌≡◌, refl, sym, subst, ◌∙◌, ◌≤◌, inl, inr, Bool, true, false, ◌&&◌, List, [], ◌∷◌,
  Text, All, In, Pairwise, Bool-cases, filter, any-In, In-any, In-filter, filter-In, insert_by,
  sort_by, In-sort_by, sort_by-In, sort_by-ne-nil, arith,
}
use garage_pass.Platform.{Day}
use garage_pass.Store.Rows.{RegistrationRow}
use garage_pass.Store.Writing.{Differ}
use garage_pass.Store.Judged.{distinct-same}
use garage_pass.Store.EndOne.{of_car, latest_first, as_first, is_as_read}

-- No row is later than the first.
abbrev pub Latest : RegistrationRow → RegistrationRow → Type 0
Latest first r = r.effective_day ≤ first.effective_day

later-all :
    (a b : RegistrationRow) (rows : List RegistrationRow)
    → b.effective_day ≤ a.effective_day
    → All (Latest b) rows
    → All (Latest a) rows
later-all a b [] h all = tt
later-all a b (r ∷ rows) h all = (omega (arith, h, all.0), later-all a b rows h all.1)

head-eq : {x y : RegistrationRow} {xs ys : List RegistrationRow} → (x ∷ xs) ≡ (y ∷ ys) → x ≡ y
head-eq e = cc

pub first-Latest :
    (rows : List RegistrationRow) {first : RegistrationRow} {more : List RegistrationRow}
    → sort_by latest_first rows ≡ first ∷ more
    → All (Latest first) rows
unfolding sort_by
first-Latest [] e = tt
first-Latest (x ∷ rows) {first} {more} e =
    placed (sort_by latest_first rows) refl e (λ f m i. first-Latest rows {first = f} {more = m} i)
  where
    only : (ys : List RegistrationRow) → sort_by latest_first ys ≡ [] → All (Latest first) ys
    only [] s = tt
    only (y ∷ ys) s = absurd (sort_by-ne-nil latest_first (y ∷ ys) (λ n. cc) s)

    placed :
        (sorted : List RegistrationRow)
        → sort_by latest_first rows ≡ sorted
        → insert_by latest_first x sorted ≡ first ∷ more
        → ((f : RegistrationRow) (m : List RegistrationRow)
            → sort_by latest_first rows ≡ f ∷ m
            → All (Latest f) rows)
        → All (Latest first) (x ∷ rows)
    placed [] s i ih = (
      subst (λ (f : RegistrationRow). x.effective_day ≤ f.effective_day) (head-eq i) (omega arith),
      only rows s,
    )
    placed (z ∷ zs) s i ih = elim (Bool-cases (latest_first x z)) [
      | inl t ↦ (
        subst (λ (f : RegistrationRow). x.effective_day ≤ f.effective_day) (head-eq (rw t at i))
            (omega arith),
        subst (λ (f : RegistrationRow). All (Latest f) rows) (head-eq (rw t at i))
            (later-all x z rows (ground (arith, t)) (ih z zs s)),
      )
      | inr f ↦ (
        subst (λ (f : RegistrationRow). x.effective_day ≤ f.effective_day) (head-eq (rw f at i))
            (ground (arith, f)),
        subst (λ (f : RegistrationRow). All (Latest f) rows) (head-eq (rw f at i)) (ih z zs s),
      )
    ]

-- The rows that the end is of.
abbrev pub is_ended : Text → Text → RegistrationRow → RegistrationRow → Bool
is_ended pass_id identity first r = of_car pass_id identity r && as_first first r

module _ (pass_id identity : Text) (rows : List RegistrationRow)
    (distinct : Pairwise Differ rows) where
  -- What the end reads as the rows of the registration.
  abbrev pub read_rows : RegistrationRow → List RegistrationRow
  read_rows first =
      filter (as_first first) (sort_by latest_first (filter (of_car pass_id identity) rows))

  pub read-ended :
      (day : Day) (first r : RegistrationRow)
      → In r rows
      → is_as_read (record { day = day; read_end = first.end_day; rows = read_rows first }) r
        ≡ is_ended pass_id identity first r
  read-ended day first r m = elim (Bool-cases (is_ended pass_id identity first r)) [
    | inl t ↦
        let found =
          filter-In (as_first first) r
            (sort_by latest_first (filter (of_car pass_id identity) rows))
            (sort_by-In latest_first r (filter (of_car pass_id identity) rows)
              (filter-In (of_car pass_id identity) r rows m (ground (arith, t))))
            (ground (arith, t)) in
        let named =
          In-any (λ (s : RegistrationRow). r.id == s.id) r (read_rows first) found
            ((==_iff r.id r.id).1 refl) in
        ground (arith, t, named)
    | inr f ↦
        elim (Bool-cases
          (is_as_read (record { day = day; read_end = first.end_day; rows = read_rows first }) r)) [
            | inr n ↦ n ∙ sym f
            | inl a ↦
                let (s, i, e) =
                  any-In (λ (s : RegistrationRow). r.id == s.id) (read_rows first)
                    (ground (arith, a)) in
                let (j, t) =
                  In-filter (as_first first) s
                    (sort_by latest_first (filter (of_car pass_id identity) rows)) i in
                let (k, c) =
                  In-filter (of_car pass_id identity) s rows
                    (In-sort_by latest_first s (filter (of_car pass_id identity) rows) j) in
                let same = distinct-same rows r s distinct m k ((==_iff r.id s.id).0 e) in
                let ended : is_ended pass_id identity first s ≡ true = ground (arith, t, c) in
                absurd
                  (both (subst (λ x. is_ended pass_id identity first x ≡ true) (sym same) ended) f)
          ]
  ]
    where
      both : {b : Bool} → b ≡ true → b ≡ false → ⊥
      both t f = cc
