-- ===== src/Base/Predicates.antt =====
-- What the Boolean tests over a list say of its elements.
use mathlib.Core.Path.{◌≡◌, refl, sym}
use mathlib.Core.Logic.{◌⊎◌, inl, inr, ◌↔◌, ◌≢◌}
use mathlib.Core.Bool.{Bool, true, false}
use mathlib.Core.List.{List, [], ◌∷◌, ◌++◌, map}
use native.Mathlib.Omega.{arith}
use garage_pass.Base.Tests.{Bool-cases}
use garage_pass.Base.Lists.{is_empty, filter, any, all, In, All}

pub is_empty-false {ℓ} : {A : Type ℓ} (xs : List A) → (is_empty xs ≡ false) ↔ (xs ≢ [])
is_empty-false [] = (λ h. cc, λ h. absurd (h refl))
is_empty-false (x ∷ xs) = (λ h e. cc, λ h. refl)

pub is_empty-true {ℓ} : {A : Type ℓ} (xs : List A) → (is_empty xs ≡ true) ↔ (xs ≡ [])
is_empty-true [] = (λ h. refl, λ h. refl)
is_empty-true (x ∷ xs) = (λ h. cc, λ h. cc)

module _ {A : Type 0} where
  pub all_iff :
      (p : A → Bool) (P : A → Type 0)
      → ((x : A) → (p x ≡ true) ↔ P x)
      → (xs : List A) → (all p xs ≡ true) ↔ All P xs
  all_iff p P e [] = (λ _. tt, λ _. refl)
  all_iff p P e (x ∷ xs) = ground (arith, e x, all_iff p P e xs)

  pub any-false_iff :
      (p : A → Bool) (P : A → Type 0)
      → ((x : A) → (p x ≡ false) ↔ P x)
      → (xs : List A) → (any p xs ≡ false) ↔ All P xs
  any-false_iff p P e [] = (λ _. tt, λ _. refl)
  any-false_iff p P e (x ∷ xs) = ground (arith, e x, any-false_iff p P e xs)

  pub any-In : (p : A → Bool) (xs : List A) → any p xs ≡ true → (x : A) × In x xs × (p x ≡ true)
  any-In p [] h = cc
  any-In p (x ∷ xs) h = elim (Bool-cases (p x)) [
    | inl e ↦ (x, inl refl, e)
    | inr n ↦ let (y, m, e) = any-In p xs (rw n at h) in (y, inr m, e)
  ]

  pub In-any : (p : A → Bool) (x : A) (xs : List A) → In x xs → p x ≡ true → any p xs ≡ true
  In-any p x [] m h = absurd m
  In-any p x (y ∷ ys) (inl e) h = ground (arith, e)
  In-any p x (y ∷ ys) (inr m) h = ground (arith, In-any p x ys m h)

  pub In-filter : (p : A → Bool) (x : A) (xs : List A) → In x (filter p xs) → In x xs × (p x ≡ true)
  In-filter p x [] m = absurd m
  In-filter p x (y ∷ ys) m = elim (Bool-cases (p y)) [
    | inl e ↦ first e (In-filter p x ys) (rw e at m)
    | inr n ↦ let (i, h) = In-filter p x ys (rw n at m) in (inr i, h)
  ]
    where
      first :
          p y ≡ true
          → (In x (filter p ys) → In x ys × (p x ≡ true))
          → (x ≡ y) ⊎ In x (filter p ys)
          → In x (y ∷ ys) × (p x ≡ true)
      first e rest (inl q) = (inl q, rw q e)
      first e rest (inr i) = let (j, h) = rest i in (inr j, h)

  pub filter-In : (p : A → Bool) (x : A) (xs : List A) → In x xs → p x ≡ true → In x (filter p xs)
  filter-In p x [] m h = absurd m
  filter-In p x (y ∷ ys) (inl e) h = rw (sym e, h) (inl refl)
  filter-In p x (y ∷ ys) (inr m) h = elim (Bool-cases (p y)) [
    | inl e ↦ rw e (inr (filter-In p x ys m h))
    | inr n ↦ rw n (filter-In p x ys m h)
  ]

  pub All-In : (P : A → Type 0) (x : A) (xs : List A) → All P xs → In x xs → P x
  All-In P x [] h m = absurd m
  All-In P x (y ∷ ys) h (inl e) = rw e h.0
  All-In P x (y ∷ ys) h (inr m) = All-In P x ys h.1 m

module _ {A : Type 0} where
  pub All-append : (P : A → Type 0) (xs ys : List A) → All P xs → All P ys → All P (xs ++ ys)
  All-append P [] ys hx hy = hy
  All-append P (x ∷ xs) ys hx hy = (hx.0, All-append P xs ys hx.1 hy)

  pub All-filter :
      (P : A → Type 0) (q : A → Bool) (xs : List A)
      → All P xs
      → All (λ x. P x × (q x ≡ true)) (filter q xs)
  All-filter P q [] h = tt
  All-filter P q (x ∷ xs) h = elim (Bool-cases (q x)) [
    | inl e ↦ rw e ((h.0, e), All-filter P q xs h.1)
    | inr n ↦ rw n (All-filter P q xs h.1)
  ]

  pub All-map {κ} :
      {B : Type 0} (P : A → Type 0) (Q : B → Type κ) (f : A → B)
      → ((x : A) → P x → Q (f x))
      → (xs : List A) → All P xs
      → All Q (map f xs)
  All-map P Q f e [] h = tt
  All-map P Q f e (x ∷ xs) h = (e x h.0, All-map P Q f e xs h.1)
