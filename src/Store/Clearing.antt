-- ===== src/Store/Clearing.antt =====
-- store/records.py: the rows that a registration ends, beside the rows that it writes.
use garage_pass.Base.{
  ℕ, suc, ◌≡◌, refl, sym, ap, ◌≤◌, ◌⊎◌, inl, inr, true, false, List, [], ◌∷◌, Option, none, some,
  Text, All, In, All-In, Pairwise, Bool-cases, if◌then◌else◌, arith,
}
use garage_pass.Platform.{Day}
use garage_pass.Store.Rows.{
  RegistrationRow, EndedReason, overlaps, greatest, conflicts, update_where, rows_where,
}
use garage_pass.Store.Register.{AsRead, Release, Plan}
use garage_pass.Store.Write.{end_on, still_as_read, still_open, release, row_at}
use garage_pass.Store.OneCar.{Apart}
use garage_pass.Store.Writing.{Differ}

empty-overlap :
    (from day start : Day) (end : Option Day)
    → day ≤ from
    → overlaps from end start (some (greatest day start)) ≡ false
unfolding overlaps
empty-overlap from day start none h = ground arith
empty-overlap from day start (some e) h = ground arith

-- A row that ends on a day up to the first makes room for the new row.
pub end_on-Apart :
    (plan : Plan) (id : ℕ) (g : Text) (day : Day) (why : EndedReason) (r : RegistrationRow)
    → day ≤ plan.from
    → Apart (row_at plan id g) (end_on day why r)
unfolding conflicts
end_on-Apart plan id g day why r h =
    ground (arith, empty-overlap plan.from day r.effective_day plan.end h)

-- A row of the table is no obstacle at a garage, or one of the rows to end.
abbrev pub Pending : Plan → Text → List AsRead → List Release → RegistrationRow → Type 0
Pending plan g turn rel r =
    Apart (row_at plan 0 g) r
    ⊎ ((a : AsRead) × In a turn × (still_as_read a r ≡ true))
    ⊎ ((e : Release) × In e rel × (still_open e r ≡ true))

module _ (plan : Plan) (g : Text) where
  turn-Pending :
      (a : AsRead) (more : List AsRead) (rel : List Release) (r : RegistrationRow)
      → Pending plan g (a ∷ more) rel r
      → Pending plan g more rel
          (if still_as_read a r then end_on plan.from EndedReason.by_next_stay r else r)
  turn-Pending a more rel r p = elim (Bool-cases (still_as_read a r)) [
    | inl e ↦ rw e (inl (end_on-Apart plan 0 g plan.from EndedReason.by_next_stay r (omega arith)))
    | inr n ↦ rw n (remains n p)
  ]
    where
      remains :
          still_as_read a r ≡ false → Pending plan g (a ∷ more) rel r → Pending plan g more rel r
      remains n (inl h) = inl h
      remains n (inr (inl (b, inl q, t))) = cc
      remains n (inr (inl (b, inr m, t))) = inr (inl (b, m, t))
      remains n (inr (inr later)) = inr (inr later)

  release-Pending :
      (e : Release) (more : List Release) (r : RegistrationRow)
      → e.end ≤ plan.from
      → Pending plan g [] (e ∷ more) r
      → Pending plan g [] more (if still_open e r then end_on e.end EndedReason.by_expiry r else r)
  release-Pending e more r early p = elim (Bool-cases (still_open e r)) [
    | inl t ↦ rw t (inl (end_on-Apart plan 0 g e.end EndedReason.by_expiry r early))
    | inr n ↦ rw n (remains n p)
  ]
    where
      remains : still_open e r ≡ false → Pending plan g [] (e ∷ more) r → Pending plan g [] more r
      remains n (inl h) = inl h
      remains n (inr (inl (b, m, t))) = absurd m
      remains n (inr (inr (b, inl q, t))) = cc
      remains n (inr (inr (b, inr m, t))) = inr (inr (b, m, t))

-- The rows are no obstacle at any garage of the list, or among those to end.
abbrev pub AllPending :
    Plan → List Text → List AsRead → List Release → List RegistrationRow → Type 0
AllPending plan gs turn rel = All (λ r. (g : Text) → In g gs → Pending plan g turn rel r)

module _ (plan : Plan) (gs : List Text) where
  pub turn-AllPending :
      (a : AsRead) (more : List AsRead) (rel : List Release) (rows : List RegistrationRow)
      → AllPending plan gs (a ∷ more) rel rows
      → AllPending plan gs more rel
          (update_where (still_as_read a) (end_on plan.from EndedReason.by_next_stay) rows)
  turn-AllPending a more rel [] p = tt
  turn-AllPending a more rel (r ∷ rows) p =
      (λ g m. turn-Pending plan g a more rel r (p.0 g m), turn-AllPending a more rel rows p.1)

  release-AllPending :
      (e : Release) (more : List Release) (rows : List RegistrationRow)
      → e.end ≤ plan.from
      → AllPending plan gs [] (e ∷ more) rows
      → AllPending plan gs [] more
          (update_where (still_open e) (end_on e.end EndedReason.by_expiry) rows)
  release-AllPending e more [] early p = tt
  release-AllPending e more (r ∷ rows) early p = (
    λ g m. release-Pending plan g e more r early (p.0 g m),
    release-AllPending e more rows early p.1,
  )

  -- Once the rows to release are ended, no row is an obstacle.
  pub released-AllPending :
      (rel : List Release) (rows : List RegistrationRow)
      → All (λ (e : Release). e.end ≤ plan.from) rel
      → AllPending plan gs [] rel rows
      → AllPending plan gs [] [] (release rel rows)
  unfolding release
  released-AllPending [] rows early p = p
  released-AllPending (e ∷ more) rows early p =
      released-AllPending more _ early.1 (release-AllPending e more rows early.0 p)

-- The rows that are as they were read: exactly one, where ids name one row.
same_row :
    (a : AsRead) (r s : RegistrationRow)
    → still_as_read a r ≡ true
    → still_as_read a s ≡ true
    → r.id ≡ s.id
unfolding still_as_read
same_row a r s t e = ground arith

keeps_none :
    (a : AsRead) (r : RegistrationRow) (rows : List RegistrationRow)
    → still_as_read a r ≡ true
    → All (Differ r) rows
    → rows_where (still_as_read a) rows ≡ 0
keeps_none a r [] t d = refl
keeps_none a r (s ∷ rows) t d = elim (Bool-cases (still_as_read a s)) [
  | inl e ↦ absurd (d.0 (same_row a r s t e))
  | inr n ↦ rw n (keeps_none a r rows t d.1)
]

pub read-once :
    (a : AsRead) (r : RegistrationRow) (rows : List RegistrationRow)
    → Pairwise Differ rows
    → In r rows
    → still_as_read a r ≡ true
    → rows_where (still_as_read a) rows ≡ 1
read-once a r [] d m t = absurd m
read-once a r (s ∷ rows) d (inl q) t = rw (sym q, t) (ap suc (keeps_none a r rows t (rw q d.0)))
read-once a r (s ∷ rows) d (inr m) t = elim (Bool-cases (still_as_read a s)) [
  | inl e ↦ absurd (All-In (Differ s) r rows d.0 m (same_row a s r e t))
  | inr n ↦ rw n (read-once a r rows d.1 m t)
]
