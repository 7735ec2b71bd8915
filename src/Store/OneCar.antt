-- ===== src/Store/OneCar.antt =====
-- migrations/0001: the rows of vehicle_registrations, one car on one pass at a garage on any day.
use garage_pass.Base.{
  ◌≡◌, refl, ◌≤◌, true, false, List, [], ◌∷◌, map, Option, none, some, Text, text_eq, text_eq_iff,
  All, Pairwise, arith,
}
use garage_pass.Platform.{Day}
use garage_pass.Store.Rows.{RegistrationRow, overlaps, conflicts}

-- An end is not after another: an open one is after every day.
abbrev pub NoLater : Option Day → Option Day → Type 0
NoLater e none = Unit
NoLater none (some d) = ⊥
NoLater (some c) (some d) = c ≤ d

-- The CHECK of the table: a registration does not end before it starts.
abbrev pub IsDated : RegistrationRow → Type 0
IsDated r = NoLater (some r.effective_day) r.end_day

-- The EXCLUDE of the table, between two rows.
abbrev pub Apart : RegistrationRow → RegistrationRow → Type 0
Apart r s = conflicts r s ≡ false

-- One car, one pass per garage: no two rows of one car at one garage overlap.
abbrev pub OneCar : List RegistrationRow → Type 0
OneCar = Pairwise Apart

-- The row holds no day that the other does not hold, of the same car at the same garage.
pub record Narrows (s r : RegistrationRow) : Type 0 where
  pub same_id : s.id ≡ r.id
  pub same_garage : s.garage_id ≡ r.garage_id
  pub same_pass : s.pass_id ≡ r.pass_id
  pub same_identity : s.vehicle_identity ≡ r.vehicle_identity
  pub same_day : s.effective_day ≡ r.effective_day
  pub no_later : NoLater s.end_day r.end_day

pub Narrows-refl : (r : RegistrationRow) → Narrows r r
Narrows-refl r = record {
  same_id = refl;
  same_garage = refl;
  same_pass = refl;
  same_identity = refl;
  same_day = refl;
  no_later = same r.end_day;
}
  where
    same : (e : Option Day) → NoLater e e
    same none = tt
    same (some d) = omega arith

overlaps_narrow :
    (f g : Day) (c e d : Option Day)
    → NoLater c e
    → overlaps f e g d ≡ false
    → overlaps f c g d ≡ false
unfolding overlaps
overlaps_narrow f g none none d n h = h
overlaps_narrow f g none (some _) d n h = absurd n
overlaps_narrow f g (some c) none none n h = ground arith
overlaps_narrow f g (some c) none (some d) n h = ground arith
overlaps_narrow f g (some c) (some e) none n h = ground arith
overlaps_narrow f g (some c) (some e) (some d) n h = ground arith

overlaps_swap : (f g : Day) (e d : Option Day) → overlaps f e g d ≡ false → overlaps g d f e ≡ false
unfolding overlaps
overlaps_swap f g none none h = ground arith
overlaps_swap f g none (some d) h = ground arith
overlaps_swap f g (some e) none h = ground arith
overlaps_swap f g (some e) (some d) h = ground arith

pub overlaps_swapped :
    (f g : Day) (e d : Option Day) → overlaps f e g d ≡ true → overlaps g d f e ≡ true
unfolding overlaps
overlaps_swapped f g none none h = ground arith
overlaps_swapped f g none (some d) h = ground arith
overlaps_swapped f g (some e) none h = ground arith
overlaps_swapped f g (some e) (some d) h = ground arith

pub text_eq_swap : (a b : Text) → text_eq a b ≡ text_eq b a
text_eq_swap a b = ground (arith, text_eq_iff a b, text_eq_iff b a)

pub Apart-swap : (r s : RegistrationRow) → Apart r s → Apart s r
unfolding conflicts
Apart-swap r s h =
    let swap = overlaps_swap r.effective_day s.effective_day r.end_day s.end_day in
    rw (text_eq_swap s.garage_id r.garage_id, text_eq_swap s.vehicle_identity r.vehicle_identity)
      (ground (arith, swap, h))

-- A row that gives up days stays apart from every row that it was apart from.
pub Apart-narrow : (s r t : RegistrationRow) → Narrows s r → Apart r t → Apart s t
unfolding conflicts
Apart-narrow s r t n h =
    let narrow =
      overlaps_narrow r.effective_day t.effective_day s.end_day r.end_day t.end_day n.no_later in
    rw (n.same_garage, n.same_identity, n.same_day) (ground (arith, narrow, h))

Apart-All :
    (f : RegistrationRow → RegistrationRow)
    → ((r : RegistrationRow) → IsDated r → Narrows (f r) r)
    → (r : RegistrationRow) → IsDated r
    → (rows : List RegistrationRow) → All IsDated rows
    → All (Apart r) rows
    → All (Apart (f r)) (map f rows)
Apart-All f e r d [] ds h = tt
Apart-All f e r d (s ∷ rows) ds h = (
  Apart-narrow (f r) r (f s) (e r d)
      (Apart-swap (f s) r (Apart-narrow (f s) s r (e s ds.0) (Apart-swap r s h.0))),
  Apart-All f e r d rows ds.1 h.1,
)

-- A statement that only takes days away keeps one car on one pass.
pub OneCar-map :
    (f : RegistrationRow → RegistrationRow)
    → ((r : RegistrationRow) → IsDated r → Narrows (f r) r)
    → (rows : List RegistrationRow) → All IsDated rows
    → OneCar rows
    → OneCar (map f rows)
OneCar-map f e [] ds h = tt
OneCar-map f e (r ∷ rows) ds h = (Apart-All f e r ds.0 rows ds.1 h.0, OneCar-map f e rows ds.1 h.1)
