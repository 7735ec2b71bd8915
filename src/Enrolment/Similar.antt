-- ===== src/Enrolment/Similar.antt =====
-- When a lane's read passes for the plate a QR was made for: "similar enough gets a pass".
use garage_pass.Base.{
  ◌≤◌, ◌≡◌, ◌≢◌, ◌↔◌, inl, inr, [], none, some, Text, arith, text_eq_iff, length, is_empty-true,
  Option-cases,
}
use garage_pass.Platform.{Platform}
use garage_pass.Enrolment.Defs.{
  plate_key, look_alike_key, Passed, similar_read, similar_enough, one_difference_min_length,
}
use garage_pass.Enrolment.Edits.{OneEdit, within_one_difference-OneEdit}
use garage_pass.Enrolment.Plates.{plate_key_normal, look_alike_key_normal}

-- The rule of each way to pass, said of the read and the plate.
abbrev pub Passes : Platform → Passed → Text → Text → Type 0
Passes p Passed.nothing_read read plate = plate_key p read ≡ []
Passes p Passed.same_plate read plate =
    (plate_key p read ≢ []) × (plate_key p read ≡ plate_key p plate)
Passes p Passed.look_alike_plate read plate =
    (plate_key p read ≢ [])
    × (plate_key p read ≢ plate_key p plate)
    × (look_alike_key p read ≡ look_alike_key p plate)
Passes p Passed.one_difference read plate =
    (plate_key p read ≢ [])
    × (look_alike_key p read ≢ look_alike_key p plate)
    × (one_difference_min_length ≤ length (look_alike_key p plate))
    × OneEdit (look_alike_key p read) (look_alike_key p plate)

same_key :
    (p : Platform) (a b : Text)
    → plate_key p a ≡ plate_key p b
    → look_alike_key p a ≡ look_alike_key p b
unfolding look_alike_key
same_key p a b e = rw e

-- A read passes by a rule exactly when that rule holds of it: nothing usable read, the same plate,
-- the same plate once look-alikes are one, or one difference on a plate of five characters or more.
pub similar_enough-Passes :
    (p : Platform) (read plate : Text) (by : Passed)
    → (similar_enough p (some read) plate ≡ some by) ↔ Passes p by read plate
unfolding similar_enough similar_read
similar_enough-Passes p read plate Passed.nothing_read = ground (
  arith,
  is_empty-true (plate_key p read),
  text_eq_iff (plate_key p read) (plate_key p plate),
  text_eq_iff (look_alike_key p read) (look_alike_key p plate),
  same_key p read plate,
  within_one_difference-OneEdit (look_alike_key p read) (look_alike_key p plate),
)
similar_enough-Passes p read plate _ = ground (
  arith,
  is_empty-true (plate_key p read),
  text_eq_iff (plate_key p read) (plate_key p plate),
  text_eq_iff (look_alike_key p read) (look_alike_key p plate),
  same_key p read plate,
  within_one_difference-OneEdit (look_alike_key p read) (look_alike_key p plate),
)

-- A clearly different plate is one that no rule passes, and is answered with none.
pub similar_enough-none :
    (p : Platform) (read plate : Text)
    → (similar_enough p (some read) plate ≡ none) ↔ ((by : Passed) → ¬ Passes p by read plate)
similar_enough-none p read plate = (there, back)
  where
    there : similar_enough p (some read) plate ≡ none → (by : Passed) → ¬ Passes p by read plate
    there h by ok = cc ((similar_enough-Passes p read plate by).1 ok)

    back : ((by : Passed) → ¬ Passes p by read plate) → similar_enough p (some read) plate ≡ none
    back never = elim (Option-cases (similar_enough p (some read) plate)) [
      | inl e ↦ e
      | inr (by, e) ↦ absurd (never by ((similar_enough-Passes p read plate by).0 e))
    ]

-- Neither the spelling of the read nor that of the plate matters: only their normal forms do.
pub similar_enough_spelling :
    (p : Platform) (read plate : Text)
    → similar_enough p (some (plate_key p read)) (plate_key p plate)
      ≡ similar_enough p (some read) plate
unfolding similar_enough similar_read
similar_enough_spelling p read plate = simp (
  (plate_key_normal p read).0,
  (plate_key_normal p plate).0,
  (look_alike_key_normal p read).0,
  (look_alike_key_normal p plate).0,
)
