-- ===== src/Store/CarReads.antt =====
-- store/records.py: the latest replacement of a car, as the fold of `registrations_of` finds it.
use garage_pass.Base.{
  ltb, ◌≡◌, refl, sym, ap, ◌∙◌, ◌⊎◌, inl, inr, ◌≤◌, Bool, true, false, List, [], ◌∷◌, map, Option,
  none, some, Text, text_eq, text_eq_iff, In, if◌then◌else◌, arith, Bool-cases,
}
use garage_pass.Platform.{Instant}
use garage_pass.Store.Rows.{greatest}
use garage_pass.Store.OfCar.{QrRead, latest_with, replaced_at_of}

-- One step of the fold keeps the latest instant, and takes that of its QR.
step-kept :
    (b : Bool) (a : Instant) (w : Option Instant)
    → (t : Instant) × ((if b then latest_with (some a) w else some a) ≡ some t) × (a ≤ t)
step-kept true a none = (a, refl, omega arith)
step-kept true a (some w) = (greatest w a, refl, ground arith)
step-kept false a w = (a, refl, omega arith)

step-taken :
    (acc : Option Instant) (u : Instant)
    → (t : Instant) × (latest_with acc (some u) ≡ some t) × (u ≤ t)
step-taken none u = (u, refl, omega arith)
step-taken (some a) u = (greatest u a, refl, ground arith)

step-found :
    (b : Bool) (acc : Option Instant) (w : Option Instant) {t : Instant}
    → (if b then latest_with acc w else acc) ≡ some t
    → (acc ≡ some t) ⊎ ((b ≡ true) × (w ≡ some t))
step-found false acc w e = inl e
step-found true acc none e = inl e
step-found true none (some w) e = inr (refl, e)
step-found true (some a) (some w) {t} e = elim (Bool-cases (ltb w a)) [
  | inl l ↦ inl (rw l at e)
  | inr g ↦ inr (refl, rw g at e)
]

fold-kept :
    (a : Instant) (pass_id : Text) (qs : List QrRead)
    → (t : Instant) × (replaced_at_of (some a) pass_id qs ≡ some t) × (a ≤ t)
unfolding replaced_at_of
fold-kept a pass_id [] = (a, refl, omega arith)
fold-kept a pass_id (q ∷ qs) =
    let (s, e, h) = step-kept (text_eq q.pass_id pass_id) a q.exit_only_at in
    let (t, f, k) = fold-kept s pass_id qs in
    (t, ap (λ x. replaced_at_of x pass_id qs) e ∙ f, omega (arith, h, k))

pub fold-upper :
    (acc : Option Instant) (pass_id : Text) (qs : List QrRead) (q : QrRead) (u : Instant)
    → In q qs
    → q.pass_id ≡ pass_id
    → q.exit_only_at ≡ some u
    → (t : Instant) × (replaced_at_of acc pass_id qs ≡ some t) × (u ≤ t)
unfolding replaced_at_of
fold-upper acc pass_id [] q u m same e = absurd m
fold-upper acc pass_id (x ∷ qs) q u (inl i) same e =
    let here : text_eq x.pass_id pass_id ≡ true =
      (text_eq_iff x.pass_id pass_id).1 (ap (λ (y : QrRead). y.pass_id) (sym i) ∙ same) in
    let when : x.exit_only_at ≡ some u = ap (λ (y : QrRead). y.exit_only_at) (sym i) ∙ e in
    let (s, d, h) = step-taken acc u in
    let (t, f, k) = fold-kept s pass_id qs in (t, rw (here, when, d) f, omega (arith, h, k))
fold-upper acc pass_id (x ∷ qs) q u (inr i) same e =
    fold-upper (if text_eq x.pass_id pass_id then latest_with acc x.exit_only_at else acc) pass_id
      qs q u i same e

pub fold-found :
    (acc : Option Instant) (pass_id : Text) (qs : List QrRead) {t : Instant}
    → replaced_at_of acc pass_id qs ≡ some t
    → (acc ≡ some t) ⊎ ((q : QrRead) × In q qs × (q.pass_id ≡ pass_id) × (q.exit_only_at ≡ some t))
unfolding replaced_at_of
fold-found acc pass_id [] e = inl e
fold-found acc pass_id (x ∷ qs) e =
    elim (fold-found (if text_eq x.pass_id pass_id then latest_with acc x.exit_only_at else acc)
      pass_id qs e) [
        | inr (q, i, same, w) ↦ inr (q, inr i, same, w)
        | inl s ↦ elim (step-found (text_eq x.pass_id pass_id) acc x.exit_only_at s) [
          | inl a ↦ inl a
          | inr (b, w) ↦ inr (x, inl refl, (text_eq_iff x.pass_id pass_id).0 b, w)
        ]
      ]

pub map-of :
    {A B : Type 0} (f : A → B) (xs : List A) (y : B)
    → In y (map f xs)
    → (x : A) × In x xs × (y ≡ f x)
map-of f [] y m = absurd m
map-of f (x ∷ xs) y (inl e) = (x, inl refl, e)
map-of f (x ∷ xs) y (inr i) = let (z, j, e) = map-of f xs y i in (z, inr j, e)
