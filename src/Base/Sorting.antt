-- ===== src/Base/Sorting.antt =====
-- Sorting, and the elements of a list.
use mathlib.Core.Path.{◌≡◌, refl, ap}
use mathlib.Core.Logic.{◌⊎◌, inl, inr, ◌≢◌}
use mathlib.Core.Bool.{Bool}
use mathlib.Core.List.{List, [], ◌∷◌, ◌++◌, map}
use garage_pass.Base.Tests.{Bool-cases}
use garage_pass.Base.Lists.{In, insert_by, sort_by}

module _ {A : Type 0} (leq : A → A → Bool) where
  In-insert_by : (x y : A) (ys : List A) → In x (insert_by leq y ys) → (x ≡ y) ⊎ In x ys
  In-insert_by x y [] m = m
  In-insert_by x y (z ∷ zs) m = elim (Bool-cases (leq y z)) [
    | inl e ↦ rw e at m
    | inr n ↦ further (rw n at m) (In-insert_by x y zs)
  ]
    where
      further :
          (x ≡ z) ⊎ In x (insert_by leq y zs)
          → (In x (insert_by leq y zs) → (x ≡ y) ⊎ In x zs)
          → (x ≡ y) ⊎ In x (z ∷ zs)
      further (inl e) h = inr (inl e)
      further (inr i) h = elim (h i) [ inl e ↦ inl e | inr j ↦ inr (inr j) ]

  insert_by-In : (x y : A) (ys : List A) → (x ≡ y) ⊎ In x ys → In x (insert_by leq y ys)
  insert_by-In x y [] m = m
  insert_by-In x y (z ∷ zs) m = elim (Bool-cases (leq y z)) [
    | inl e ↦ rw e m
    | inr n ↦ rw n (further m (insert_by-In x y zs))
  ]
    where
      further :
          (x ≡ y) ⊎ In x (z ∷ zs)
          → ((x ≡ y) ⊎ In x zs → In x (insert_by leq y zs))
          → In x (z ∷ insert_by leq y zs)
      further (inl e) h = inr (h (inl e))
      further (inr (inl e)) h = inl e
      further (inr (inr j)) h = inr (h (inr j))

  pub In-sort_by : (x : A) (xs : List A) → In x (sort_by leq xs) → In x xs
  unfolding sort_by
  In-sort_by x [] m = m
  In-sort_by x (y ∷ ys) m = elim (In-insert_by x y (sort_by leq ys) m) [
    | inl e ↦ inl e
    | inr i ↦ inr (In-sort_by x ys i)
  ]

  pub sort_by-In : (x : A) (xs : List A) → In x xs → In x (sort_by leq xs)
  unfolding sort_by
  sort_by-In x [] m = m
  sort_by-In x (y ∷ ys) (inl e) = insert_by-In x y (sort_by leq ys) (inl e)
  sort_by-In x (y ∷ ys) (inr i) = insert_by-In x y (sort_by leq ys) (inr (sort_by-In x ys i))

module _ {A : Type 0} where
  pub In-ne-nil : (x : A) (xs : List A) → In x xs → xs ≢ []
  In-ne-nil x [] m e = m
  In-ne-nil x (y ∷ ys) m e = cc

  pub map-In : {B : Type 0} (f : A → B) (x : A) (xs : List A) → In x xs → In (f x) (map f xs)
  map-In f x [] m = m
  map-In f x (y ∷ ys) (inl e) = inl (ap f e)
  map-In f x (y ∷ ys) (inr i) = inr (map-In f x ys i)

  pub append-In : (x : A) (xs ys : List A) → In x (xs ++ ys) → In x xs ⊎ In x ys
  append-In x [] ys m = inr m
  append-In x (y ∷ xs) ys (inl e) = inl (inl e)
  append-In x (y ∷ xs) ys (inr i) = elim (append-In x xs ys i) [
    | inl j ↦ inl (inr j)
    | inr j ↦ inr j
  ]

pub append-ne-nil {ℓ} : {A : Type ℓ} (xs ys : List A) → xs ≢ [] → xs ++ ys ≢ []
append-ne-nil [] ys h e = absurd (h refl)
append-ne-nil (x ∷ xs) ys h e = cc

pub sort_by-ne-nil : {A : Type 0} (leq : A → A → Bool) (xs : List A) → xs ≢ [] → sort_by leq xs ≢ []
sort_by-ne-nil leq [] h e = absurd (h refl)
sort_by-ne-nil leq (x ∷ xs) h e =
    In-ne-nil x (sort_by leq (x ∷ xs)) (sort_by-In leq x (x ∷ xs) (inl refl)) e
