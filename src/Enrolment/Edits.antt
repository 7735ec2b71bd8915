-- ===== src/Enrolment/Edits.antt =====
-- enrolment.py: `within_one_difference` against the edits of a text.
use garage_pass.Base.{
  ℕ, suc, ◌≤◌, ◌≡◌, refl, ◌∙◌, ◌↔◌, inl, inr, true, [], ◌∷◌, Text, arith, text_eq_iff, text_eq_refl,
  length, ◌==◌, ==_iff, Bool-cases, ltb,
}
use garage_pass.Enrolment.Defs.{differences, one_insertion, within_one_difference}

-- The second text is the first with at most one character substituted, inserted or deleted.
pub data OneEdit : Text → Text → Type 0 where
  same : (s : Text) → OneEdit s s
  substitute : (x y : ℕ) (s : Text) → OneEdit (x ∷ s) (y ∷ s)
  insert : (y : ℕ) (s : Text) → OneEdit s (y ∷ s)
  delete : (x : ℕ) (s : Text) → OneEdit (x ∷ s) s
  keep : (c : ℕ) {a b : Text} → OneEdit a b → OneEdit (c ∷ a) (c ∷ b)

pub OneEdit-sym : {a b : Text} → OneEdit a b → OneEdit b a
OneEdit-sym (same s) = same s
OneEdit-sym (substitute x y s) = substitute y x s
OneEdit-sym (insert y s) = delete y s
OneEdit-sym (delete x s) = insert x s
OneEdit-sym (keep c e) = keep c (OneEdit-sym e)

differences_self : (s : Text) → differences s s ≡ 0
unfolding differences
differences_self [] = refl
differences_self (x ∷ s) = ground (arith, differences_self s)

differences-zero : (a b : Text) → length a ≡ length b → differences a b ≡ 0 → a ≡ b
unfolding differences
differences-zero [] [] e h = refl
differences-zero [] (y ∷ b) e h = absurd (omega arith)
differences-zero (x ∷ a) [] e h = absurd (omega arith)
differences-zero (x ∷ a) (y ∷ b) e h = ground (arith, differences-zero a b)

one_insertion_self : (y : ℕ) (s : Text) → one_insertion s (y ∷ s) ≡ true
unfolding one_insertion
one_insertion_self y [] = refl
one_insertion_self y (x ∷ s) = ground (arith, one_insertion_self x s, text_eq_refl (x ∷ s))

-- A common first character makes no difference.
within-keep :
    (c : ℕ) (a b : Text) → within_one_difference (c ∷ a) (c ∷ b) ≡ within_one_difference a b
unfolding within_one_difference differences one_insertion
within-keep c a b = ground arith

complete : {a b : Text} → OneEdit a b → within_one_difference a b ≡ true
unfolding within_one_difference
complete (same s) = ground (arith, differences_self s)
complete (substitute x y s) = unfold differences in ground (arith, differences_self s)
complete (insert y s) = ground (arith, one_insertion_self y s)
complete (delete x s) = ground (arith, one_insertion_self x s)
complete (keep c {a = a} {b = b} e) = within-keep c a b ∙ complete e

substitution_sound : (a b : Text) → length a ≡ length b → differences a b ≤ 1 → OneEdit a b
unfolding differences
substitution_sound [] [] e h = same []
substitution_sound [] (y ∷ b) e h = absurd (omega arith)
substitution_sound (x ∷ a) [] e h = absurd (omega arith)
substitution_sound (x ∷ a) (y ∷ b) e h = elim (Bool-cases (x == y)) [
  | inl q ↦
      rw ((==_iff x y).0 q) (keep y (substitution_sound a b (omega arith) (ground (arith, q))))
  | inr q ↦
      let rest : a ≡ b = differences-zero a b (omega arith) (ground (arith, q)) in
      rw rest (substitute x y b)
]

insertion_sound : (a b : Text) → length b ≡ suc (length a) → one_insertion a b ≡ true → OneEdit a b
unfolding one_insertion
insertion_sound [] [] e h = absurd (omega arith)
insertion_sound [] (y ∷ []) e h = insert y []
insertion_sound [] (y ∷ z ∷ b) e h = absurd (omega arith)
insertion_sound (x ∷ a) [] e h = absurd (omega arith)
insertion_sound (x ∷ a) (y ∷ b) e h = elim (Bool-cases (x == y)) [
  | inl q ↦ rw ((==_iff x y).0 q) (keep y (insertion_sound a b (omega arith) (ground (arith, q))))
  | inr q ↦
      let rest : x ∷ a ≡ b = (text_eq_iff (x ∷ a) b).0 (ground (arith, q)) in rw rest (insert y b)
]

sound : (a b : Text) → within_one_difference a b ≡ true → OneEdit a b
unfolding within_one_difference
sound a b h = elim (Bool-cases (length a == length b)) [
  | inl q ↦ substitution_sound a b (ground arith) (ground arith)
  | inr q ↦ elim (Bool-cases (ltb (length a) (length b))) [
    | inl l ↦ insertion_sound a b (ground arith) (ground arith)
    | inr g ↦ OneEdit-sym (insertion_sound b a (ground arith) (ground arith))
  ]
]

-- The routine answers true exactly on the pairs at an edit distance of one or none.
pub within_one_difference-OneEdit : (a b : Text) → (within_one_difference a b ≡ true) ↔ OneEdit a b
within_one_difference-OneEdit a b = (sound a b, complete)
