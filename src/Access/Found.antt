-- ===== src/Access/Found.antt =====
-- access.py: the pass that the selection finds for a registration in force.
use garage_pass.Base.{
  ◌≡◌, refl, sym, ap, ◌≢◌, ◌⊎◌, inl, inr, Bool, true, false, ◌&&◌, &&_true, List, [], ◌∷◌, none,
  some, Text, text_eq, text_eq_iff, text_leb, text_in, text_in_iff, In, In-filter, filter-In, arith,
  filter, Bool-cases, Option-cases, sort_by-In, In-ne-nil, map-In, ltb, length,
}
use garage_pass.Platform.{Platform, Day}
use garage_pass.Passes.{Pass, Registration, covers}
use garage_pass.Access

find_last-In :
    {A : Type 0} (p : A → Bool) (xs : List A) (y : A)
    → Access.find_last p xs ≡ some y
    → In y xs × (p y ≡ true)
find_last-In p [] y h = cc
find_last-In p (x ∷ xs) y h = elim (Option-cases (Access.find_last p xs)) [
  | inr (z, e) ↦
      let (i, k) = find_last-In p xs z e in
      let same : z ≡ y = ground (arith, e, h) in (inr (rw same at i), rw same at k)
  | inl e ↦ elim (Bool-cases (p x)) [
    | inl k ↦ let same : x ≡ y = ground (arith, e, h, k) in (inl (sym same), rw same at k)
    | inr n ↦ absurd (ground (arith, e, h, n))
  ]
]

In-find_last :
    {A : Type 0} (p : A → Bool) (xs : List A) (y : A)
    → In y xs
    → p y ≡ true
    → Access.find_last p xs ≢ none
In-find_last p [] y m h e = m
In-find_last p (x ∷ xs) y (inl q) h e = ground (arith, ap p q)
In-find_last p (x ∷ xs) y (inr i) h e = ground (arith, In-find_last p xs y i h)

distinct-In : (x : Text) (xs : List Text) → In x xs → In x (Access.distinct xs)
distinct-In x [] m = m
distinct-In x (y ∷ ys) m = elim (Bool-cases (text_in y ys)) [
  | inl e ↦
      rw e (distinct-In x ys (elim m [ inl same ↦ rw same ((text_in_iff y ys).0 e) | inr i ↦ i ]))
  | inr n ↦ rw n (elim m [ inl same ↦ inl same | inr i ↦ inr (distinct-In x ys i) ])
]

module _ (q : Access.Question) where
  -- A selected pass was handed in under that id, names the asking garage, and has no copies.
  pub by_id-In :
      (pid : Text) (pass : Pass)
      → Access.by_id q pid ≡ some pass
      → In pass q.passes
        × (pass.id ≡ pid)
        × In q.garage.id pass.garage_ids
        × (Access.is_duplicated q pid ≡ false)
  unfolding Access.by_id
  by_id-In pid pass h = elim (Bool-cases (Access.is_duplicated q pid)) [
    | inl e ↦ absurd (ground (arith, e, h))
    | inr n ↦
        let (i, k) =
          find_last-In (λ x. text_eq x.id pid && Access.names_garage q x) q.passes pass
            (ground (arith, n, h)) in
        let (same, named) = &&_true _ _ k in
        (i, (text_eq_iff pass.id pid).0 same, (text_in_iff q.garage.id pass.garage_ids).0 named, n)
  ]

  pub copies_of-In :
      (pid : Text) (pass : Pass)
      → In pass (Access.copies_of q pid)
      → In pass q.passes × (pass.id ≡ pid)
  unfolding Access.copies_of
  copies_of-In pid pass m =
      let (i, k) = In-filter (λ x. text_eq x.id pid) pass q.passes m in
      (i, (text_eq_iff pass.id pid).0 k)

  -- A duplicated id has a copy.
  pub copy_of :
      (pid : Text) → Access.is_duplicated q pid ≡ true → (x : Pass) × In x (Access.copies_of q pid)
  unfolding Access.is_duplicated
  copy_of pid h = first (filter (λ (x : Pass). text_eq x.id pid) q.passes) (&&_true _ _ h).0
    where
      first : (xs : List Pass) → ltb 1 (length xs) ≡ true → (x : Pass) × In x xs
      first [] e = absurd (ground arith)
      first (x ∷ xs) e = (x, inl refl)

  -- No id is named as duplicated: none in force is.
  pub duplicated_named-nil :
      (rs : List Registration) (r : Registration)
      → Access.duplicated_named q rs ≡ []
      → In r rs
      → Access.is_duplicated q r.pass_id ≡ false
  unfolding Access.duplicated_named
  duplicated_named-nil rs r h m = elim (Bool-cases (Access.is_duplicated q r.pass_id)) [
    | inr n ↦ n
    | inl e ↦ absurd (
        In-ne-nil r.pass_id _
          (sort_by-In text_leb r.pass_id _ (
            distinct-In r.pass_id _ (
              filter-In (Access.is_duplicated q) r.pass_id _
                (map-In (λ (x : Registration). x.pass_id) r rs m) e)))
          h)
  ]

module _ (p : Platform) (q : Access.Question) (today : Day) where
  place-here :
      (r : Registration)
      → Access.is_here (Access.place p q today r) ≡ true
      → (Access.same_vehicle p q r ≡ true)
        × ((Access.is_duplicated q r.pass_id ≡ true) ⊎ (Access.by_id q r.pass_id ≢ none))
  unfolding Access.place
  place-here r h = ground arith

  -- A registration in force was handed in, is of this vehicle, covers the day, and its pass is
  -- selected or duplicated.
  pub effective-In :
      (r : Registration)
      → In r (Access.effective p q today)
      → In r q.registrations
        × (Access.same_vehicle p q r ≡ true)
        × (covers r today ≡ true)
        × ((Access.is_duplicated q r.pass_id ≡ true) ⊎ (Access.by_id q r.pass_id ≢ none))
  unfolding Access.effective
  effective-In r m =
      let (i, c) = In-filter (λ x. covers x today) r _ m in
      let (j, h) = In-filter (λ x. Access.is_here (Access.place p q today x)) r q.registrations i in
      let (same, found) = place-here r h in (j, same, c, found)
