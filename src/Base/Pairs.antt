-- ===== src/Base/Pairs.antt =====
-- Relations that hold between every two elements of a list.
use mathlib.Core.Path.{◌≡◌, refl, subst}
use mathlib.Core.Logic.{inl, inr}
use mathlib.Core.Bool.{Bool}
use mathlib.Core.List.{List, [], ◌∷◌, ◌++◌}
use garage_pass.Base.Tests.{Bool-cases, some-inj}
use mathlib.Core.Option.{some}
use garage_pass.Base.Lists.{find, All, In, filter, insert_by, sort_by}
use garage_pass.Base.Predicates.{All-append}

-- Every element is related to every later one.
abbrev pub Pairwise : {A : Type 0} → (A → A → Type 0) → List A → Type 0
Pairwise R [] = Unit
Pairwise R (x ∷ xs) = All (R x) xs × Pairwise R xs

module _ {A : Type 0} where
  pub In-All : (P : A → Type 0) (xs : List A) → ((x : A) → In x xs → P x) → All P xs
  In-All P [] h = tt
  In-All P (x ∷ xs) h = (h x (inl refl), In-All P xs (λ y m. h y (inr m)))

  pub In-append-left : (x : A) (xs ys : List A) → In x xs → In x (xs ++ ys)
  In-append-left x [] ys m = absurd m
  In-append-left x (y ∷ xs) ys (inl e) = inl e
  In-append-left x (y ∷ xs) ys (inr m) = inr (In-append-left x xs ys m)

  pub In-append-right : (x : A) (xs ys : List A) → In x ys → In x (xs ++ ys)
  In-append-right x [] ys m = m
  In-append-right x (y ∷ xs) ys m = inr (In-append-right x xs ys m)

  pub All-find :
      (P : A → Type 0) (q : A → Bool) (xs : List A) (x : A) → All P xs → find q xs ≡ some x → P x
  All-find P q [] x h e = cc
  All-find P q (y ∷ ys) x h e = elim (Bool-cases (q y)) [
    | inl t ↦ subst P (some-inj (rw t at e)) h.0
    | inr f ↦ All-find P q ys x h.1 (rw f at e)
  ]

  pub All-filtered : (P : A → Type 0) (q : A → Bool) (xs : List A) → All P xs → All P (filter q xs)
  All-filtered P q [] h = tt
  All-filtered P q (x ∷ xs) h = elim (Bool-cases (q x)) [
    | inl e ↦ rw e (h.0, All-filtered P q xs h.1)
    | inr n ↦ rw n (All-filtered P q xs h.1)
  ]

  pub All-insert_by :
      (P : A → Type 0) (leq : A → A → Bool) (x : A) (xs : List A)
      → P x
      → All P xs
      → All P (insert_by leq x xs)
  All-insert_by P leq x [] px h = (px, tt)
  All-insert_by P leq x (y ∷ ys) px h = elim (Bool-cases (leq x y)) [
    | inl e ↦ rw e (px, h)
    | inr n ↦ rw n (h.0, All-insert_by P leq x ys px h.1)
  ]

  pub All-sort_by :
      (P : A → Type 0) (leq : A → A → Bool) (xs : List A) → All P xs → All P (sort_by leq xs)
  unfolding sort_by
  All-sort_by P leq [] h = tt
  All-sort_by P leq (x ∷ xs) h =
      All-insert_by P leq x (sort_by leq xs) h.0 (All-sort_by P leq xs h.1)

module _ {A : Type 0} (R : A → A → Type 0) where
  pub Pairwise-filter : (q : A → Bool) (xs : List A) → Pairwise R xs → Pairwise R (filter q xs)
  Pairwise-filter q [] h = tt
  Pairwise-filter q (x ∷ xs) h = elim (Bool-cases (q x)) [
    | inl e ↦ rw e (All-filtered (R x) q xs h.0, Pairwise-filter q xs h.1)
    | inr n ↦ rw n (Pairwise-filter q xs h.1)
  ]

  pub Pairwise-append :
      (xs ys : List A)
      → Pairwise R xs
      → Pairwise R ys
      → All (λ x. All (R x) ys) xs
      → Pairwise R (xs ++ ys)
  Pairwise-append [] ys hx hy c = hy
  Pairwise-append (x ∷ xs) ys hx hy c =
      (All-append (R x) xs ys hx.0 c.0, Pairwise-append xs ys hx.1 hy c.1)

  pub Pairwise-insert_by :
      ((x y : A) → R x y → R y x)
      → (leq : A → A → Bool) (x : A) (xs : List A) → All (R x) xs
      → Pairwise R xs
      → Pairwise R (insert_by leq x xs)
  Pairwise-insert_by swap leq x [] a h = (tt, tt)
  Pairwise-insert_by swap leq x (y ∷ ys) a h = elim (Bool-cases (leq x y)) [
    | inl e ↦ rw e (a, h)
    | inr n ↦
        rw n (
          All-insert_by (R y) leq x ys (swap x y a.0) h.0,
          Pairwise-insert_by swap leq x ys a.1 h.1,
        )
  ]

  pub Pairwise-sort_by :
      ((x y : A) → R x y → R y x)
      → (leq : A → A → Bool) (xs : List A) → Pairwise R xs
      → Pairwise R (sort_by leq xs)
  unfolding sort_by
  Pairwise-sort_by swap leq [] h = tt
  Pairwise-sort_by swap leq (x ∷ xs) h =
      Pairwise-insert_by swap leq x (sort_by leq xs) (All-sort_by (R x) leq xs h.0)
        (Pairwise-sort_by swap leq xs h.1)
