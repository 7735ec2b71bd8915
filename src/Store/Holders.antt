-- ===== src/Store/Holders.antt =====
-- What `_holders` finds: the rows of the car at each garage that overlap the range, each once.
use garage_pass.Base.{
  ◌≡◌, refl, sym, ◌∙◌, ◌≢◌, ◌⊎◌, inl, inr, true, List, [], ◌∷◌, Option, none, some, Text, All, In,
  Pairwise, Pairwise-filter, Pairwise-sort_by, filter, In-filter, filter-In, In-sort_by, sort_by-In,
  append-In, In-append-left, In-append-right,
}
use garage_pass.Platform.{Day}
use garage_pass.Store.Rows.{Db, PassRow, RegistrationRow}
use garage_pass.Store.Register.{
  Held, held, add_held, valid_to_of, join_passes, holds, by_day, holders, all_holders,
}
use garage_pass.Store.Writing.{Differ}

-- The row's pass is there: the foreign key of the table.
abbrev pub Owned : List PassRow → RegistrationRow → Type 0
Owned passes r = valid_to_of passes r.pass_id ≢ none

-- A holder is a row with the last day of its pass.
abbrev pub Joined : List PassRow → List RegistrationRow → Held → Type 0
Joined passes rows h = In h.row rows × (valid_to_of passes h.row.pass_id ≡ some h.valid_to)

abbrev pub DifferHeld : Held → Held → Type 0
DifferHeld h k = Differ h.row k.row

module _ (r : RegistrationRow) (rest : List Held) where
  add_held-In :
      (o : Option (Option Day)) (h : Held)
      → In h (add_held o r rest)
      → ((last : Option Day) × (o ≡ some last) × (h ≡ held r last)) ⊎ In h rest
  add_held-In none h m = inr m
  add_held-In (some last) h (inl q) = inl (last, refl, q)
  add_held-In (some last) h (inr m) = inr m

  In-add_held : (o : Option (Option Day)) (h : Held) → In h rest → In h (add_held o r rest)
  In-add_held none h m = m
  In-add_held (some last) h m = inr m

  held-In :
      (o : Option (Option Day)) → o ≢ none → (h : Held) × In h (add_held o r rest) × (h.row ≡ r)
  held-In none n = absurd (n refl)
  held-In (some last) n = (held r last, inl refl, refl)

  All-add_held :
      (P : Held → Type 0) (o : Option (Option Day))
      → ((last : Option Day) → P (held r last))
      → All P rest
      → All P (add_held o r rest)
  All-add_held P none p h = h
  All-add_held P (some last) p h = (p last, h)

  add_held-distinct :
      (o : Option (Option Day))
      → All (λ h. Differ r h.row) rest
      → Pairwise DifferHeld rest
      → Pairwise DifferHeld (add_held o r rest)
  add_held-distinct none a h = h
  add_held-distinct (some last) a h = (a, h)

module _ (passes : List PassRow) where
  join-Joined :
      (rows : List RegistrationRow) (h : Held)
      → In h (join_passes passes rows)
      → Joined passes rows h
  join-Joined [] h m = absurd m
  join-Joined (r ∷ rows) h m =
      elim (add_held-In r (join_passes passes rows) (valid_to_of passes r.pass_id) h m) [
        | inl (last, e, q) ↦ rw q (inl refl, e)
        | inr i ↦ let (j, v) = join-Joined rows h i in (inr j, v)
      ]

  Joined-join :
      (rows : List RegistrationRow) (r : RegistrationRow)
      → Owned passes r
      → In r rows
      → (h : Held) × In h (join_passes passes rows) × (h.row ≡ r)
  Joined-join [] r o m = absurd m
  Joined-join (s ∷ rows) r o (inl q) =
      let (h, i, e) =
        held-In s (join_passes passes rows) (valid_to_of passes s.pass_id) (rw (sym q) o) in
      (h, i, e ∙ sym q)
  Joined-join (s ∷ rows) r o (inr m) =
      let (h, i, q) = Joined-join rows r o m in
      (h, In-add_held s (join_passes passes rows) (valid_to_of passes s.pass_id) h i, q)

  join-differ :
      (r : RegistrationRow) (rows : List RegistrationRow)
      → All (Differ r) rows
      → All (λ h. Differ r h.row) (join_passes passes rows)
  join-differ r [] h = tt
  join-differ r (s ∷ rows) h =
      All-add_held s (join_passes passes rows) (λ k. Differ r k.row) (valid_to_of passes s.pass_id)
        (λ last. h.0) (join-differ r rows h.1)

  join-distinct :
      (rows : List RegistrationRow)
      → Pairwise Differ rows
      → Pairwise DifferHeld (join_passes passes rows)
  join-distinct [] h = tt
  join-distinct (s ∷ rows) h =
      add_held-distinct s (join_passes passes rows) (valid_to_of passes s.pass_id)
        (join-differ s rows h.0) (join-distinct rows h.1)

module _ (db : Db) (identity : Text) (from : Day) (end : Option Day) where
  -- A holder at a garage is a row of the car there that overlaps the range.
  pub holders-Joined :
      (g : Text) (h : Held)
      → In h (holders db g identity from end)
      → Joined db.passes db.registrations h × (holds g identity from end h.row ≡ true)
  unfolding holders
  holders-Joined g h m =
      let (i, v) =
        join-Joined db.passes (filter (holds g identity from end) db.registrations) h
          (In-sort_by by_day h _ m) in
      let (j, t) = In-filter (holds g identity from end) h.row db.registrations i in ((j, v), t)

  -- Every such row of a pass that is there is a holder.
  pub Joined-holders :
      (g : Text) (r : RegistrationRow)
      → Owned db.passes r
      → In r db.registrations
      → holds g identity from end r ≡ true
      → (h : Held) × In h (holders db g identity from end) × (h.row ≡ r)
  unfolding holders
  Joined-holders g r o m t =
      let (h, i, q) =
        Joined-join db.passes (filter (holds g identity from end) db.registrations) r o
          (filter-In (holds g identity from end) r db.registrations m t) in
      (h, sort_by-In by_day h _ i, q)

  pub holders-distinct :
      (g : Text)
      → Pairwise Differ db.registrations
      → Pairwise DifferHeld (holders db g identity from end)
  unfolding holders
  holders-distinct g d =
      Pairwise-sort_by DifferHeld (λ h k n q. n (sym q)) by_day _
        (join-distinct db.passes _
          (Pairwise-filter Differ (holds g identity from end) db.registrations d))

  pub all_holders-Joined :
      (gs : List Text) (h : Held)
      → In h (all_holders db gs identity from end)
      → (g : Text) × In g gs
        × Joined db.passes db.registrations h
        × (holds g identity from end h.row ≡ true)
  all_holders-Joined [] h m = absurd m
  all_holders-Joined (g ∷ gs) h m = elim (append-In h (holders db g identity from end) _ m) [
    | inl i ↦ let (j, t) = holders-Joined g h i in (g, inl refl, j, t)
    | inr i ↦ let (k, n, j, t) = all_holders-Joined gs h i in (k, inr n, j, t)
  ]

  pub holders-all_holders :
      (g : Text) (gs : List Text) (h : Held)
      → In g gs
      → In h (holders db g identity from end)
      → In h (all_holders db gs identity from end)
  holders-all_holders g [] h n m = absurd n
  holders-all_holders g (k ∷ gs) h (inl e) m =
      In-append-left h (holders db k identity from end) _ (rw e at m)
  holders-all_holders g (k ∷ gs) h (inr n) m =
      In-append-right h (holders db k identity from end) _ (holders-all_holders g gs h n m)
