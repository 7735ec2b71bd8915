-- ===== src/Store/Judged.antt =====
-- What the judging of a registration makes sure of before the first row is written.
use garage_pass.Base.{
  ◌+◌, ◌≡◌, refl, sym, ap, subst, ◌∙◌, ◌≢◌, ◌≤◌, ◌⊎◌, inl, inr, Bool, true, false, List, [], ◌∷◌,
  Option, none, some, Text, text_eq_iff, All, In, All-In, In-All, Pairwise, Pairwise-append,
  Bool-cases, if◌then◌else◌, arith,
}
use garage_pass.Findings.{Code, Field}
use garage_pass.Result.{ok, raise, ok-inj, >>=-eq-ok}
use garage_pass.Platform.{Day}
use garage_pass.Store.Rows.{Db, RegistrationRow, before, overlaps}
use garage_pass.Store.Register.{
  Held, AsRead, Release, holds, holders, all_holders, is_released, is_turned_over, as_read, is_over,
  add_release, judge_holders, releases,
}
use garage_pass.Store.Writing.{Differ, EndsFrom}
use garage_pass.Store.Holders.{DifferHeld, holders-Joined, holders-distinct, all_holders-Joined}

-- An id names one row.
pub distinct-same :
    (rows : List RegistrationRow) (r s : RegistrationRow)
    → Pairwise Differ rows
    → In r rows
    → In s rows
    → r.id ≡ s.id
    → r ≡ s
distinct-same [] r s d i j e = absurd i
distinct-same (t ∷ rows) r s d (inl p) (inl q) e = p ∙ sym q
distinct-same (t ∷ rows) r s d (inl p) (inr j) e =
    absurd (All-In (Differ t) s rows d.0 j (ap (λ (x : RegistrationRow). x.id) (sym p) ∙ e))
distinct-same (t ∷ rows) r s d (inr i) (inl q) e =
    absurd (All-In (Differ t) r rows d.0 i (ap (λ (x : RegistrationRow). x.id) (sym q) ∙ sym e))
distinct-same (t ∷ rows) r s d (inr i) (inr j) e = distinct-same rows r s d.1 i j e

holds-garage :
    (g identity : Text) (from : Day) (end : Option Day) (r : RegistrationRow)
    → holds g identity from end r ≡ true
    → r.garage_id ≡ g
holds-garage g identity from end r h = ground (arith, text_eq_iff r.garage_id g)

module _ (db : Db) (identity : Text) (from : Day) (end : Option Day) where
  -- The holders of a car at several garages are rows of different ids.
  pub all_holders-distinct :
      (gs : List Text)
      → Pairwise (λ g h. g ≢ h) gs
      → Pairwise Differ db.registrations
      → Pairwise DifferHeld (all_holders db gs identity from end)
  all_holders-distinct [] n d = tt
  all_holders-distinct (g ∷ gs) n d =
      Pairwise-append DifferHeld (holders db g identity from end)
        (all_holders db gs identity from end) (holders-distinct db identity from end g d)
        (all_holders-distinct gs n.1 d)
        (In-All _ (holders db g identity from end)
          (λ h i. In-All (DifferHeld h) (all_holders db gs identity from end) (apart h i)))
    where
      apart :
          (h : Held)
          → In h (holders db g identity from end)
          → (k : Held) → In k (all_holders db gs identity from end)
          → DifferHeld h k
      apart h i k j e =
          let (m, at_g) = holders-Joined db identity from end g h i in
          let (g2, m2, held2, at_g2) = all_holders-Joined db identity from end gs k j in
          All-In (λ x. g ≢ x) g2 gs n.0 m2
            (sym (holds-garage g identity from end h.row at_g)
              ∙ ap (λ (x : RegistrationRow). x.garage_id)
                  (distinct-same db.registrations h.row k.row d m.0 held2.0 e)
              ∙ holds-garage g2 identity from end k.row at_g2)

-- How a holder that does not refuse the registration is dealt with.
abbrev pub TurnedOver : Text → Day → Held → Type 0
TurnedOver pass_id from h = (is_released from h ≡ false) × (is_turned_over pass_id from h ≡ true)

abbrev pub DifferRead : AsRead → AsRead → Type 0
DifferRead a b = a.id ≢ b.id

module _ (pass_id : Text) (from : Day) where
  judge_step :
      (h : Held) (hs : List Held) {turnover : List AsRead}
      → judge_holders pass_id from (h ∷ hs) ≡ ok turnover
      → ((is_released from h ≡ true) × (judge_holders pass_id from hs ≡ ok turnover))
        ⊎ ((rest : List AsRead) × TurnedOver pass_id from h
            × (judge_holders pass_id from hs ≡ ok rest)
            × (turnover ≡ as_read h ∷ rest))
  unfolding judge_holders
  judge_step h hs e = elim (Bool-cases (is_released from h)) [
    | inl r ↦ inl (r, rw r at e)
    | inr n ↦ elim (Bool-cases (is_turned_over pass_id from h)) [
      | inl t ↦
          let (rest, q, w) =
            >>=-eq-ok (judge_holders pass_id from hs) (λ more. ok (as_read h ∷ more))
              (rw (n, t) at e) in
          inr (rest, (n, t), q, sym (ok-inj w))
      | inr f ↦ absurd (refused (rw (n, f) at e))
    ]
  ]
    where
      refused :
          {turnover : List AsRead}
          → raise Code.vehicle_on_another_pass Field.vehicle_identity ≡ ok turnover
          → ⊥
      refused e = cc

  -- The rows to turn over are those of the holders that are to be turned over.
  abbrev pub From : List Held → AsRead → Type 0
  From hs a = (h : Held) × In h hs × TurnedOver pass_id from h × (a ≡ as_read h)

  From-later :
      (h : Held) (hs : List Held) (bs : List AsRead) → All (From hs) bs → All (From (h ∷ hs)) bs
  From-later h hs [] f = tt
  From-later h hs (a ∷ bs) f = let (k, m, t, e) = f.0 in ((k, inr m, t, e), From-later h hs bs f.1)

  pub judged-from :
      (hs : List Held) {turnover : List AsRead}
      → judge_holders pass_id from hs ≡ ok turnover
      → All (From hs) turnover
  unfolding judge_holders
  judged-from [] e = subst (All (From [])) (ok-inj e) tt
  judged-from (h ∷ hs) {turnover} e = elim (judge_step h hs e) [
    | inl (r, q) ↦ From-later h hs turnover (judged-from hs q)
    | inr (rest, t, q, w) ↦
        subst (All (From (h ∷ hs))) (sym w)
          ((h, inl refl, t, refl), From-later h hs rest (judged-from hs q))
  ]

  -- Every holder is released or turned over.
  pub judged-all :
      (hs : List Held) {turnover : List AsRead}
      → judge_holders pass_id from hs ≡ ok turnover
      → (k : Held) → In k hs
      → (is_released from k ≡ true) ⊎ In (as_read k) turnover
  judged-all [] e k m = absurd m
  judged-all (h ∷ hs) e k (inl p) = elim (judge_step h hs e) [
    | inl (r, q) ↦ inl (rw p r)
    | inr (rest, t, q, w) ↦ inr (rw (w, p) (inl refl))
  ]
  judged-all (h ∷ hs) e k (inr m) = elim (judge_step h hs e) [
    | inl (r, q) ↦ judged-all hs q k m
    | inr (rest, t, q, w) ↦ elim (judged-all hs q k m) [
      | inl r ↦ inl r
      | inr i ↦ inr (rw w (inr i))
    ]
  ]

  differ_read :
      (h : Held) (hs : List Held) (bs : List AsRead)
      → All (DifferHeld h) hs
      → All (From hs) bs
      → All (DifferRead (as_read h)) bs
  differ_read h hs [] d f = tt
  differ_read h hs (a ∷ bs) d f =
      let (k, m, t, e) = f.0 in (rw e (All-In (DifferHeld h) k hs d m), differ_read h hs bs d f.1)

  pub judged-distinct :
      (hs : List Held) {turnover : List AsRead}
      → Pairwise DifferHeld hs
      → judge_holders pass_id from hs ≡ ok turnover
      → Pairwise DifferRead turnover
  unfolding judge_holders
  judged-distinct [] d e = subst (Pairwise DifferRead) (ok-inj e) tt
  judged-distinct (h ∷ hs) d e = elim (judge_step h hs e) [
    | inl (r, q) ↦ judged-distinct hs d.1 q
    | inr (rest, t, q, w) ↦
        subst (Pairwise DifferRead) (sym w)
          (differ_read h hs rest d.0 (judged-from hs q), judged-distinct hs d.1 q)
  ]

  -- A row that is turned over, or released, ends on the first day or after it, and no later than
  -- the day that ends it.
  pub held-EndsFrom :
      (g identity : Text) (end : Option Day) (h : Held)
      → holds g identity from end h.row ≡ true
      → EndsFrom from h.row.end_day
  unfolding overlaps
  held-EndsFrom g identity end h t = ends h.row.end_day (ground (arith, t))
    where
      ends : (e : Option Day) → before from e ≡ true → EndsFrom from e
      ends none q = tt
      ends (some d) q = ground arith

-- A release is on a day up to the first.
pub releases-early :
    (from : Day) (hs : List Held) → All (λ (e : Release). e.end ≤ from) (releases from hs)
unfolding releases is_released
releases-early from [] = tt
releases-early from (h ∷ hs) = elim (Bool-cases (is_released from h)) [
  | inl r ↦ rw r (early h.valid_to (ground (arith, r)) (releases-early from hs))
  | inr n ↦ rw n (releases-early from hs)
]
  where
    early :
        (last : Option Day)
        → is_over from last ≡ true
        → All (λ (e : Release). e.end ≤ from) (releases from hs)
        → All (λ (e : Release). e.end ≤ from) (add_release h.row.id last (releases from hs))
    early none o rest = rest
    early (some last) o rest = (ground arith, rest)

-- The row of a holder that is released is among the rows to release.
pub released-In :
    (from : Day) (hs : List Held) (h : Held)
    → In h hs
    → is_released from h ≡ true
    → (end : Day) × In (record { id = h.row.id; end = end }) (releases from hs)
      × (h.row.end_day ≡ none)
unfolding releases is_released
released-In from [] h m e = absurd m
released-In from (k ∷ hs) h (inl q) e =
    let r : is_released from k ≡ true = subst (λ x. is_released from x ≡ true) q e in
    let (end, i) = here k.valid_to (ground (arith, r)) in
    (end, rw (q, r) i, rw q (ground (arith, r)))
  where
    here :
        (last : Option Day)
        → is_over from last ≡ true
        → (end : Day) × In
            (record { id = k.row.id; end = end })
            (add_release k.row.id last (releases from hs))
    here none o = ground arith
    here (some last) o = (last + 1, inl refl)
released-In from (k ∷ hs) h (inr m) e =
    let (end, i, o) = released-In from hs h m e in
    (end, later _ k.valid_to (is_released from k) i, o)
  where
    later :
        (x : Release) (last : Option Day) (released : Bool)
        → In x (releases from hs)
        → In x (if released then add_release k.row.id last (releases from hs) else releases from hs)
    later x last false i = i
    later x none true i = i
    later x (some d) true i = inr i
