-- ===== src/Store/Closing.antt =====
-- Closing one visit of an orderly ledger.
use garage_pass.Base.{
  ℕ, ◌≡◌, refl, sym, ap, subst, ◌∙◌, ◌≢◌, ◌≤◌, ◌<◌, inl, inr, true, false, List, [], ◌∷◌, none,
  some, Text, All, In, All-In, Pairwise, find, some-inj, Bool-cases, if◌then◌else◌, arith,
}
use garage_pass.Platform.{Instant}
use garage_pass.Store.Rows.{VisitRow, same_stay, update_where}
use garage_pass.Store.Ledger.{has_id, close_at}
use garage_pass.Store.Visits.{NotBoth, InTime, IsOrderly, same_stay_iff}

module _ (g pass_id identity : Text) where
  pub find-open :
      (visits : List VisitRow) {v : VisitRow}
      → find (same_stay g pass_id identity) visits ≡ some v
      → In v visits × (same_stay g pass_id identity v ≡ true)
  find-open [] e = cc
  find-open (w ∷ visits) {v} e = elim (Bool-cases (same_stay g pass_id identity w)) [
    | inl t ↦ here t (rw t at e)
    | inr f ↦ let (i, t) = find-open visits (rw f at e) in (inr i, t)
  ]
    where
      here :
          same_stay g pass_id identity w ≡ true
          → some w ≡ some v
          → In v (w ∷ visits) × (same_stay g pass_id identity v ≡ true)
      here t q =
          let e : w ≡ v = some-inj q in
          (inl (sym e), subst (λ x. same_stay g pass_id identity x ≡ true) e t)

  not-find :
      (visits : List VisitRow)
      → All (λ v. same_stay g pass_id identity v ≡ false) visits
      → find (same_stay g pass_id identity) visits ≡ none
  not-find [] h = refl
  not-find (v ∷ visits) h = rw h.0 (not-find visits h.1)

pub same_visit :
    (visits : List VisitRow) (v w : VisitRow)
    → Pairwise (λ (x y : VisitRow). x.id ≢ y.id) visits
    → In v visits
    → In w visits
    → v.id ≡ w.id
    → v ≡ w
same_visit [] v w d i j e = absurd i
same_visit (x ∷ visits) v w d (inl p) (inl q) e = p ∙ sym q
same_visit (x ∷ visits) v w d (inl p) (inr j) e =
    absurd (All-In _ w visits d.0 j (ap (λ (y : VisitRow). y.id) (sym p) ∙ e))
same_visit (x ∷ visits) v w d (inr i) (inl q) e =
    absurd (All-In _ v visits d.0 i (ap (λ (y : VisitRow). y.id) (sym q) ∙ sym e))
same_visit (x ∷ visits) v w d (inr i) (inr j) e = same_visit visits v w d.1 i j e

not-both :
    (g pass_id identity : Text) (x w : VisitRow)
    → NotBoth x w
    → same_stay g pass_id identity x ≡ true
    → same_stay g pass_id identity w ≡ true
    → ⊥
not-both g pass_id identity x w n a b =
    let (eg, ep, ei, eo) = (same_stay_iff g pass_id identity x).0 a in
    let (fg, fp, fi, fo) = (same_stay_iff g pass_id identity w).0 b in
    n ((same_stay_iff x.garage_id x.pass_id x.vehicle_identity x).1 (refl, refl, refl, eo)) (
      (same_stay_iff x.garage_id x.pass_id x.vehicle_identity w).1
        (fg ∙ sym eg, fp ∙ sym ep, fi ∙ sym ei, fo))

-- One stay has one open visit.
pub same_open :
    (visits : List VisitRow) (g pass_id identity : Text) (v w : VisitRow)
    → Pairwise NotBoth visits
    → In v visits
    → In w visits
    → same_stay g pass_id identity v ≡ true
    → same_stay g pass_id identity w ≡ true
    → v ≡ w
same_open [] g pass_id identity v w n i j a b = absurd i
same_open (x ∷ visits) g pass_id identity v w n (inl p) (inl q) a b = p ∙ sym q
same_open (x ∷ visits) g pass_id identity v w n (inl p) (inr j) a b =
    absurd (not-both g pass_id identity x w (All-In (NotBoth x) w visits n.0 j) (rw (sym p) a) b)
same_open (x ∷ visits) g pass_id identity v w n (inr i) (inl q) a b =
    absurd (not-both g pass_id identity x v (All-In (NotBoth x) v visits n.0 i) (rw (sym q) b) a)
same_open (x ∷ visits) g pass_id identity v w n (inr i) (inr j) a b =
    same_open visits g pass_id identity v w n.1 i j a b

-- The change of one row.
abbrev closed : ℕ → Instant → Text → VisitRow → VisitRow
closed id at lane v = if has_id id v then close_at at lane v else v

closed-open :
    (id : ℕ) (at : Instant) (lane g pass_id identity : Text) (v : VisitRow)
    → same_stay g pass_id identity (closed id at lane v) ≡ true
    → (same_stay g pass_id identity v ≡ true) × (v.id ≢ id)
unfolding same_stay
closed-open id at lane g pass_id identity v h = ground arith

closed-shut :
    (id : ℕ) (at : Instant) (lane g pass_id identity : Text) (v : VisitRow)
    → has_id id v ≡ true
    → same_stay g pass_id identity (closed id at lane v) ≡ false
unfolding same_stay
closed-shut id at lane g pass_id identity v h = ground arith

-- The close of one visit leaves the ledger in order.
module _ (id : ℕ) (at : Instant) (lane : Text) where
  closed-keys :
      (v : VisitRow)
      → ((closed id at lane v).garage_id ≡ v.garage_id)
        × ((closed id at lane v).pass_id ≡ v.pass_id)
        × ((closed id at lane v).vehicle_identity ≡ v.vehicle_identity)
        × ((closed id at lane v).id ≡ v.id)
  closed-keys v = elim (Bool-cases (has_id id v)) [
    | inl t ↦ rw t (refl, refl, refl, refl)
    | inr f ↦ rw f (refl, refl, refl, refl)
  ]

  closed-NotBoth :
      (v w : VisitRow) → NotBoth v w → NotBoth (closed id at lane v) (closed id at lane w)
  closed-NotBoth v w n a b =
      let (va, _) = closed-open id at lane _ _ _ v a in
      let (wb, _) = closed-open id at lane _ _ _ w b in not-both _ _ _ v w n va wb

  closed-apart :
      (v : VisitRow) (visits : List VisitRow)
      → All (NotBoth v) visits
      → All (NotBoth (closed id at lane v)) (update_where (has_id id) (close_at at lane) visits)
  closed-apart v [] h = tt
  closed-apart v (w ∷ visits) h = (closed-NotBoth v w h.0, closed-apart v visits h.1)

  closed-one_open :
      (visits : List VisitRow)
      → Pairwise NotBoth visits
      → Pairwise NotBoth (update_where (has_id id) (close_at at lane) visits)
  closed-one_open [] h = tt
  closed-one_open (v ∷ visits) h = (closed-apart v visits h.0, closed-one_open visits h.1)

  closed-InTime :
      (visits : List VisitRow)
      → All (λ (v : VisitRow). has_id id v ≡ true → v.entered_at ≤ at) visits
      → All InTime visits
      → All InTime (update_where (has_id id) (close_at at lane) visits)
  closed-InTime [] e h = tt
  closed-InTime (v ∷ visits) e h = elim (Bool-cases (has_id id v)) [
    | inl t ↦ (
      rw t (λ exited q. subst (λ x. v.entered_at ≤ x) (some-inj q) (e.0 t)),
      closed-InTime visits e.1 h.1,
    )
    | inr f ↦ (rw f h.0, closed-InTime visits e.1 h.1)
  ]

  closed-given :
      (next : ℕ) (visits : List VisitRow)
      → All (λ (v : VisitRow). v.id < next) visits
      → All (λ (v : VisitRow). v.id < next) (update_where (has_id id) (close_at at lane) visits)
  closed-given next [] h = tt
  closed-given next (v ∷ visits) h = (rw ((closed-keys v).3) h.0, closed-given next visits h.1)

  closed-differ :
      (v : VisitRow) (visits : List VisitRow)
      → All (λ (w : VisitRow). v.id ≢ w.id) visits
      → All
          (λ (w : VisitRow). (closed id at lane v).id ≢ w.id)
          (update_where (has_id id) (close_at at lane) visits)
  closed-differ v [] h = tt
  closed-differ v (w ∷ visits) h =
      (rw ((closed-keys v).3, (closed-keys w).3) h.0, closed-differ v visits h.1)

  closed-distinct :
      (visits : List VisitRow)
      → Pairwise (λ (v w : VisitRow). v.id ≢ w.id) visits
      → Pairwise
          (λ (v w : VisitRow). v.id ≢ w.id)
          (update_where (has_id id) (close_at at lane) visits)
  closed-distinct [] h = tt
  closed-distinct (v ∷ visits) h = (closed-differ v visits h.0, closed-distinct visits h.1)

  pub closed-IsOrderly :
      (next : ℕ) (visits : List VisitRow)
      → All (λ (v : VisitRow). has_id id v ≡ true → v.entered_at ≤ at) visits
      → IsOrderly next visits
      → IsOrderly next (update_where (has_id id) (close_at at lane) visits)
  closed-IsOrderly next visits e o = record {
    one_open = closed-one_open visits o.one_open;
    in_time = closed-InTime visits e o.in_time;
    given = closed-given next visits o.given;
    distinct = closed-distinct visits o.distinct;
  }

  -- A stay with no row of that id has the open visit that it had.
  pub closed-other :
      (g pass_id identity : Text) (visits : List VisitRow)
      → All (λ (v : VisitRow). has_id id v ≡ true → same_stay g pass_id identity v ≡ false) visits
      → find (same_stay g pass_id identity) (update_where (has_id id) (close_at at lane) visits)
        ≡ find (same_stay g pass_id identity) visits
  closed-other g pass_id identity [] h = refl
  closed-other g pass_id identity (v ∷ visits) h = elim (Bool-cases (has_id id v)) [
    | inl t ↦
        rw (h.0 t, closed-shut id at lane g pass_id identity v t)
          (closed-other g pass_id identity visits h.1)
    | inr f ↦ elim (Bool-cases (same_stay g pass_id identity v)) [
      | inl a ↦ rw (f, a) refl
      | inr b ↦ rw (f, b) (closed-other g pass_id identity visits h.1)
    ]
  ]

  -- The stay of the row of that id has no open visit left, if it had no other.
  pub closed-none :
      (g pass_id identity : Text) (visits : List VisitRow)
      → All (λ (v : VisitRow). same_stay g pass_id identity v ≡ true → has_id id v ≡ true) visits
      → find (same_stay g pass_id identity) (update_where (has_id id) (close_at at lane) visits)
        ≡ none
  closed-none g pass_id identity [] h = refl
  closed-none g pass_id identity (v ∷ visits) h = elim (Bool-cases (has_id id v)) [
    | inl t ↦
        rw (closed-shut id at lane g pass_id identity v t)
          (closed-none g pass_id identity visits h.1)
    | inr f ↦ elim (Bool-cases (same_stay g pass_id identity v)) [
      | inl a ↦ absurd (differs (h.0 a) f)
      | inr b ↦ rw (f, b) (closed-none g pass_id identity visits h.1)
    ]
  ]
    where
      differs : has_id id v ≡ true → has_id id v ≡ false → ⊥
      differs a b = cc
