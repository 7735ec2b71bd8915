-- ===== src/Enrolment/Plates.antt =====
-- enrolment.py: the normal form of a plate, and its look-alike form.
use garage_pass.Base.{
  ℕ, ◌≤◌, ◌≡◌, refl, ap, ◌∙◌, ◌⊎◌, true, false, not, [], ◌∷◌, map, Text, All, All-append,
  All-filter, All-map, ◌≢◌, arith, ◌==◌, Bool-cases, inl, inr,
}
use garage_pass.Platform.{Platform}
use garage_pass.Enrolment.Defs.{
  not_part_of_a_plate, upper_text, unseparated, read_as_digit, plate_key, look_alike,
  look_alike_key,
}

-- A character of a normal form: upper case already, no separator, and not `O` or `I`.
abbrev pub IsPlain : Platform → ℕ → Type 0
IsPlain p c = (p.upper c ≡ c ∷ []) × (not_part_of_a_plate c ≡ false) × (read_as_digit c ≡ c)

upper_text-stable : (p : Platform) (t : Text) → All (λ d. p.upper d ≡ d ∷ []) (upper_text p t)
unfolding upper_text
upper_text-stable p [] = tt
upper_text-stable p (c ∷ t) =
    All-append _ (p.upper c) (upper_text p t) (p.upper_stable c) (upper_text-stable p t)

digit-IsPlain : (p : Platform) (c : ℕ) → b'0' ≤ c → c ≤ b'9' → IsPlain p c
unfolding not_part_of_a_plate read_as_digit
digit-IsPlain p c lo hi = (p.upper_digit c lo hi, ground arith, ground arith)

read_as_digit-IsPlain :
    (p : Platform) (c : ℕ)
    → (p.upper c ≡ c ∷ []) × (not (not_part_of_a_plate c) ≡ true)
    → IsPlain p (read_as_digit c)
unfolding read_as_digit
read_as_digit-IsPlain p c (up, kept) = elim (Bool-cases (c == b'O')) [
  | inl o ↦ rw o (digit-IsPlain p b'0' (omega arith) (omega arith))
  | inr n ↦ elim (Bool-cases (c == b'I')) [
    | inl i ↦ rw (n, i) (digit-IsPlain p b'1' (omega arith) (omega arith))
    | inr m ↦ rw (n, m) (up, ground arith, ground arith)
  ]
]

pub plate_key-IsPlain : (p : Platform) (t : Text) → All (IsPlain p) (plate_key p t)
unfolding plate_key unseparated
plate_key-IsPlain p t =
    All-map _ (IsPlain p) read_as_digit (read_as_digit-IsPlain p) _
      (All-filter _ (λ c. not (not_part_of_a_plate c)) (upper_text p t) (upper_text-stable p t))

-- A plain text is its own normal form.
pub plate_key_plain : (p : Platform) (t : Text) → All (IsPlain p) t → plate_key p t ≡ t
unfolding plate_key unseparated upper_text
plate_key_plain p [] h = refl
plate_key_plain p (c ∷ t) ((up, part, digit), rest) =
    rw (up, part, digit) (ap (λ (s : Text). c ∷ s) (plate_key_plain p t rest))

no_letter : (c : ℕ) → read_as_digit c ≡ c → (c ≢ b'O') × (c ≢ b'I')
unfolding read_as_digit
no_letter c h = ground arith

-- The normal form of a normal form is the same, and none of its characters is a space, a dash or
-- another separator, the letter O or the letter I.
pub plate_key_normal :
    (p : Platform) (t : Text)
    → (plate_key p (plate_key p t) ≡ plate_key p t)
      × All (λ c. (not_part_of_a_plate c ≡ false) × (c ≢ b'O') × (c ≢ b'I')) (plate_key p t)
plate_key_normal p t =
    (plate_key_plain p _ (plate_key-IsPlain p t), All-mono (plate_key p t) (plate_key-IsPlain p t))
  where
    All-mono :
        (s : Text)
        → All (IsPlain p) s
        → All (λ c. (not_part_of_a_plate c ≡ false) × (c ≢ b'O') × (c ≢ b'I')) s
    All-mono [] h = tt
    All-mono (c ∷ s) h = ((h.0.1, (no_letter c h.0.2).0, (no_letter c h.0.2).1), All-mono s h.1)

look_alike-cases : (c : ℕ) → (look_alike c ≡ c) ⊎ ((b'0' ≤ look_alike c) × (look_alike c ≤ b'9'))
unfolding look_alike
look_alike-cases c = ground arith

look_alike-IsPlain : (p : Platform) (c : ℕ) → IsPlain p c → IsPlain p (look_alike c)
look_alike-IsPlain p c h = elim (look_alike-cases c) [
  | inl e ↦ rw e h
  | inr (lo, hi) ↦ digit-IsPlain p (look_alike c) lo hi
]

look_alike_twice : (c : ℕ) → look_alike (look_alike c) ≡ look_alike c
unfolding look_alike
look_alike_twice c = ground arith

map-look_alike_twice : (s : Text) → map look_alike (map look_alike s) ≡ map look_alike s
map-look_alike_twice [] = refl
map-look_alike_twice (c ∷ s) = cc (look_alike_twice c, map-look_alike_twice s)

-- The look-alike form reads only the normal form, and folding twice folds no further.
pub look_alike_key_normal :
    (p : Platform) (t : Text)
    → (look_alike_key p (plate_key p t) ≡ look_alike_key p t)
      × (look_alike_key p (look_alike_key p t) ≡ look_alike_key p t)
unfolding look_alike_key
look_alike_key_normal p t = (ap (map look_alike) (plate_key_normal p t).0, twice)
  where
    folded : All (IsPlain p) (map look_alike (plate_key p t))
    folded =
        All-map (IsPlain p) (IsPlain p) look_alike (look_alike-IsPlain p) (plate_key p t)
          (plate_key-IsPlain p t)

    twice :
        map look_alike (plate_key p (map look_alike (plate_key p t)))
        ≡ map look_alike (plate_key p t)
    twice = ap (map look_alike) (plate_key_plain p _ folded) ∙ map-look_alike_twice (plate_key p t)
