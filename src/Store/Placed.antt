-- ===== src/Store/Placed.antt =====
-- store/records.py: the writes of a registration, with nobody writing in between.
use garage_pass.Base.{
  ℕ, suc, ◌+◌, ◌≡◌, refl, sym, ap, ◌∙◌, ◌≢◌, ◌≤◌, ◌⊎◌, inl, inr, true, false, List, [], ◌∷◌, Text,
  text_eq, text_eq_iff, All, In, All-In, Pairwise, Bool-cases, any, any-false_iff, arith,
}
use garage_pass.Result.{ok}
use garage_pass.Platform.{Day}
use garage_pass.Store.Rows.{Db, RegistrationRow, EndedReason, conflicts, update_where, rows_where}
use garage_pass.Store.Register.{AsRead, Release, Plan}
use garage_pass.Store.Write.{
  end_on, still_as_read, turn_over, still_open, release, row_at, insert_rows, write_plan,
}
use garage_pass.Store.OneCar.{Apart}
use garage_pass.Store.Judged.{DifferRead}
use garage_pass.Store.Clearing.{AllPending, turn-AllPending, released-AllPending}

other-unread :
    (a b : AsRead) (r : RegistrationRow)
    → DifferRead b a
    → still_as_read b r ≡ true
    → still_as_read a r ≡ false
unfolding still_as_read
other-unread a b r d t = ground (arith, d)

other-unread_ended :
    (a b : AsRead) (day : Day) (why : EndedReason) (r : RegistrationRow)
    → DifferRead b a
    → still_as_read b r ≡ true
    → still_as_read a (end_on day why r) ≡ false
unfolding still_as_read
other-unread_ended a b day why r d t = ground (arith, d)

-- Turning over one row leaves the others as they were read.
update-rows_where :
    (a b : AsRead) (day : Day) (why : EndedReason) (rows : List RegistrationRow)
    → DifferRead b a
    → rows_where (still_as_read a) (update_where (still_as_read b) (end_on day why) rows)
      ≡ rows_where (still_as_read a) rows
update-rows_where a b day why [] d = refl
update-rows_where a b day why (r ∷ rows) d = elim (Bool-cases (still_as_read b r)) [
  | inl e ↦
      rw (e, other-unread a b r d e, other-unread_ended a b day why r d e)
        (update-rows_where a b day why rows d)
  | inr n ↦ elim (Bool-cases (still_as_read a r)) [
    | inl t ↦ rw (n, t) (ap suc (update-rows_where a b day why rows d))
    | inr f ↦ rw (n, f) (update-rows_where a b day why rows d)
  ]
]

-- Each row to turn over is found once, as it was read.
abbrev pub ReadOnce : List RegistrationRow → List AsRead → Type 0
ReadOnce rows = All (λ a. rows_where (still_as_read a) rows ≡ 1)

turn-ReadOnce :
    (b : AsRead) (day : Day) (rows : List RegistrationRow) (more : List AsRead)
    → All (DifferRead b) more
    → ReadOnce rows more
    → ReadOnce (update_where (still_as_read b) (end_on day EndedReason.by_next_stay) rows) more
turn-ReadOnce b day rows [] d h = tt
turn-ReadOnce b day rows (a ∷ more) d h = (
  update-rows_where a b day EndedReason.by_next_stay rows d.0 ∙ h.0,
  turn-ReadOnce b day rows more d.1 h.1,
)

module _ (plan : Plan) where
  -- Every row that is as it was read is turned over.
  pub turn_over-ok :
      (gs : List Text) (rel : List Release) (entries : List AsRead) (rows : List RegistrationRow)
      → Pairwise DifferRead entries
      → ReadOnce rows entries
      → AllPending plan gs entries rel rows
      → (end : List RegistrationRow) × (turn_over plan.from entries rows ≡ ok end)
        × AllPending plan gs [] rel end
  unfolding turn_over
  turn_over-ok gs rel [] rows d h p = (rows, refl, p)
  turn_over-ok gs rel (a ∷ more) rows d h p =
      let (end, e, q) =
        turn_over-ok gs rel more
          (update_where (still_as_read a) (end_on plan.from EndedReason.by_next_stay) rows) d.1
          (turn-ReadOnce a plan.from rows more d.0 h.1)
          (turn-AllPending plan gs a more rel rows p) in
      (end, rw h.0 e, q)

  -- No row is an obstacle at the garages that are left.
  abbrev Free : List Text → List RegistrationRow → Type 0
  Free gs = All (λ r. (g : Text) → In g gs → Apart (row_at plan 0 g) r)

  Free-here :
      (g : Text) (gs : List Text) (id : ℕ) (rows : List RegistrationRow)
      → Free (g ∷ gs) rows
      → All (Apart (row_at plan id g)) rows
  unfolding conflicts
  Free-here g gs id [] f = tt
  Free-here g gs id (r ∷ rows) f = (f.0 g (inl refl), Free-here g gs id rows f.1)

  Free-later :
      (g : Text) (gs : List Text) (rows : List RegistrationRow) → Free (g ∷ gs) rows → Free gs rows
  Free-later g gs [] f = tt
  Free-later g gs (r ∷ rows) f = (λ h m. f.0 h (inr m), Free-later g gs rows f.1)

  garages-Apart : (g h : Text) (id : ℕ) → g ≢ h → Apart (row_at plan 0 h) (row_at plan id g)
  unfolding conflicts
  garages-Apart g h id n = elim (Bool-cases (text_eq h g)) [
    | inl e ↦ absurd (n (sym ((text_eq_iff h g).0 e)))
    | inr f ↦ rw f refl
  ]

  -- A row is written at every garage.
  pub insert_rows-ok :
      (gs : List Text) (id : ℕ) (rows : List RegistrationRow)
      → Pairwise (λ g h. g ≢ h) gs
      → Free gs rows
      → (written : ℕ × List RegistrationRow) × (insert_rows plan gs id rows ≡ ok written)
  unfolding insert_rows
  insert_rows-ok [] id rows n f = ((id, rows), refl)
  insert_rows-ok (g ∷ gs) id rows n f =
      let free : any (conflicts (row_at plan id g)) rows ≡ false =
        (any-false_iff (conflicts (row_at plan id g)) (Apart (row_at plan id g))
            (λ r. (λ h. h, λ h. h)) rows).1
          (Free-here g gs id rows f) in
      let (written, e) =
        insert_rows-ok gs (id + 1) (row_at plan id g ∷ rows) n.1
          (λ h m. garages-Apart g h id (All-In (λ x. g ≢ x) h gs n.0 m), Free-later g gs rows f) in
      (written, rw free e)

  pending-Free :
      (gs : List Text) (rows : List RegistrationRow) → AllPending plan gs [] [] rows → Free gs rows
  pending-Free gs [] p = tt
  pending-Free gs (r ∷ rows) p = (λ g m. clear g (p.0 g m), pending-Free gs rows p.1)
    where
      clear :
          (g : Text)
          → Apart (row_at plan 0 g) r
            ⊎ ((a : AsRead) × ⊥ × (still_as_read a r ≡ true))
            ⊎ ((e : Release) × ⊥ × (still_open e r ≡ true))
          → Apart (row_at plan 0 g) r
      clear g (inl h) = h
      clear g (inr (inl (a, m, t))) = absurd m
      clear g (inr (inr (e, m, t))) = absurd m

  -- The plan is written, where every obstacle is among the rows that it ends.
  pub write_plan-ok :
      (db : Db)
      → Pairwise (λ g h. g ≢ h) plan.garages
      → Pairwise DifferRead plan.turnover
      → ReadOnce db.registrations plan.turnover
      → All (λ (e : Release). e.end ≤ plan.from) plan.released
      → AllPending plan plan.garages plan.turnover plan.released db.registrations
      → (end : Db) × (write_plan plan db ≡ ok end)
  unfolding write_plan
  write_plan-ok db n d once early p =
      let (turned, et, q) =
        turn_over-ok plan.garages plan.released plan.turnover db.registrations d once p in
      let (written, ew) = insert_rows-ok plan.garages db.next_id (release plan.released turned) n (
        pending-Free plan.garages _
          (released-AllPending plan plan.garages plan.released turned early q)) in
      (record db { registrations = written.1; next_id = written.0 }, rw (et, ew) refl)
