-- ===== src/Store/Retimed.antt =====
-- store/records.py: the rows of the garages, and what they load as once a clock is set.
use garage_pass.Base.{
  ◌≡◌, refl, ap, subst, ◌∙◌, ◌≢◌, inl, inr, Bool, true, false, List, [], ◌∷◌, Option, Option-cases,
  none, some, some-inj, Text, text_eq, text_eq_iff, find, Bool-cases, arith, sym, In, map-In,
  if◌then◌else◌,
}
use garage_pass.Findings.{Code, Field}
use garage_pass.Result.{Result, ok, ok-inj, Crash, refuse, crash, ◌>>=◌}
use garage_pass.Platform.{Platform, Zone}
use garage_pass.Localday.{zone}
use garage_pass.Garage.{
  Garage, EnrolsAt, contradicts, require_text, make_garage, garage_from_stored,
  refuse_enrols_at_contradiction,
}
use garage_pass.Garage.Laws.{zone-cases, garage_from_stored-loads, garage_from_stored-readable}
use garage_pass.Store.Rows.{Db, GarageRow, update_where}
use garage_pass.Store.Load.{load_garage, load_readable_garage, readable_garage}
use garage_pass.Store.Garages.{garage_named}

update-find :
    (change : GarageRow → GarageRow)
    → ((g : GarageRow) → (change g).external_id ≡ g.external_id)
    → (id : Text) (rows : List GarageRow) {g : GarageRow} → find (garage_named id) rows ≡ some g
    → find (garage_named id) (update_where (garage_named id) change rows) ≡ some (change g)
update-find change keeps id [] e = cc
update-find change keeps id (r ∷ rows) e = elim (Bool-cases (garage_named id r)) [
  | inl t ↦
      let still : garage_named id (change r) ≡ true = ap (λ x. text_eq x id) (keeps r) ∙ t in
      rw (t, still) (ap (λ x. some (change x)) (some-inj (rw t at e)))
  | inr f ↦ rw f (rw f (update-find change keeps id rows (rw f at e)))
]

pub update-find_other :
    (change : GarageRow → GarageRow)
    → ((g : GarageRow) → (change g).external_id ≡ g.external_id)
    → (id other : Text) (rows : List GarageRow) → other ≢ id
    → find (garage_named other) (update_where (garage_named id) change rows)
      ≡ find (garage_named other) rows
update-find_other change keeps id other [] n = refl
update-find_other change keeps id other (r ∷ rows) n = elim (Bool-cases (garage_named id r)) [
  | inl t ↦
      let off : garage_named other r ≡ false =
        ground (arith, t, n, text_eq_iff r.external_id id, text_eq_iff r.external_id other) in
      let still : garage_named other (change r) ≡ false =
        ap (λ x. text_eq x other) (keeps r) ∙ off in
      rw (t, off, still) (update-find_other change keeps id other rows n)
  | inr f ↦ elim (Bool-cases (garage_named other r)) [
    | inl t ↦ rw (f, t) refl
    | inr g ↦ rw (f, g) (update-find_other change keeps id other rows n)
  ]
]

stored-text :
    (p : Platform) (id timezone : Text) (transient : Option Bool) (enrols_at : Option EnrolsAt)
    {g : Garage}
    → garage_from_stored p id timezone transient enrols_at ≡ ok g
    → (i : Text) × (require_text id Field.garage_id ≡ ok i)
      × (contradicts transient enrols_at ≡ false)
unfolding garage_from_stored make_garage refuse_enrols_at_contradiction
stored-text p id timezone transient enrols_at {g} e = text (require_text id Field.garage_id) refl
  where
    loaded :
        (i : Text)
        → require_text id Field.garage_id ≡ ok i
        → (b : Bool) → contradicts transient enrols_at ≡ b
        → contradicts transient enrols_at ≡ false
    loaded i e1 false e2 = e2
    loaded i e1 true e2 = ground (arith, e, e1, e2, zone-cases p timezone)

    text :
        (x : Result Text)
        → require_text id Field.garage_id ≡ x
        → (i : Text) × (require_text id Field.garage_id ≡ ok i)
          × (contradicts transient enrols_at ≡ false)
    text (ok i) e1 = (i, e1, loaded i e1 (contradicts transient enrols_at) refl)
    text (refuse r) e1 = ground (arith, e, e1)
    text (crash c) e1 = ground (arith, e, e1)

-- What a garage that loads has stated is what its row states.
stored-stated :
    (p : Platform) (id timezone : Text) (transient : Option Bool) (enrols_at : Option EnrolsAt)
    {g : Garage} {i : Text}
    → require_text id Field.garage_id ≡ ok i
    → contradicts transient enrols_at ≡ false
    → garage_from_stored p id timezone transient enrols_at ≡ ok g
    → (g.transient_available ≡ transient) × (g.enrols_at ≡ enrols_at)
stored-stated p id timezone transient enrols_at {g} text plain loads =
    elim (garage_from_stored-loads p id timezone transient enrols_at text plain) [
      | inl (_, h, l, _, _, a, b, _) ↦
          let same : h ≡ g = ok-inj (sym l ∙ loads) in
          (
            ap (λ (x : Garage). x.transient_available) (sym same) ∙ a,
            ap (λ (x : Garage). x.enrols_at) (sym same) ∙ b,
          )
      | inr (_, _, c) ↦ absurd (crashed (sym c ∙ loads))
    ]
  where
    crashed : {why : Crash} {x : Garage} → crash why ≡ ok x → ⊥
    crashed e = cc

-- What a stored garage loads as, by its row.
loaded-row :
    (p : Platform) (db : Db) (id : Text) {g : Garage}
    → load_garage p db id ≡ ok g
    → (row : GarageRow) × (find (garage_named id) db.garages ≡ some row)
      × (garage_from_stored p id row.timezone row.transient_available row.enrols_at ≡ ok g)
unfolding load_garage
loaded-row p db id e = elim (Option-cases (find (garage_named id) db.garages)) [
  | inl n ↦ absurd (missing (rw (n, load_garage) at e))
  | inr (row, k) ↦ (row, k, rw (k, load_garage) at e)
]
  where
    missing :
        {g : Garage}
        → refuse (record { code = Code.garage_not_found; field = Field.the_garage }) ≡ ok g
        → ⊥
    missing e = cc

row-loaded :
    (p : Platform) (db : Db) (id : Text) (row : GarageRow)
    → find (garage_named id) db.garages ≡ some row
    → load_garage p db id
      ≡ garage_from_stored p id row.timezone row.transient_available row.enrols_at
unfolding load_garage
row-loaded p db id row e = rw (e, load_garage) refl

pub same-loaded :
    (p : Platform) (a b : Db) (id : Text)
    → find (garage_named id) a.garages ≡ find (garage_named id) b.garages
    → load_garage p a id ≡ load_garage p b id
unfolding load_garage
same-loaded p a b id e = rw (e, load_garage) refl

readable-ok : (g : Garage) → g.unreadable ≡ none → readable_garage g ≡ ok g
readable-ok g e = ground (arith, e)

-- The garage whose clock was corrected to a zone that is listed is readable.
pub retimed-readable :
    (p : Platform) (db after : Db) (id new_value : Text) {g : Garage} {z : Zone}
    → after.garages
      ≡ update_where
          (garage_named id)
          (λ (g : GarageRow). record g { timezone = new_value })
          db.garages
    → load_garage p db id ≡ ok g
    → zone p new_value ≡ ok z
    → (h : Garage) × (load_readable_garage p after id ≡ ok h)
      × (h.timezone ≡ new_value)
      × (h.transient_available ≡ g.transient_available)
      × (h.enrols_at ≡ g.enrols_at)
unfolding load_readable_garage
retimed-readable p db after id new_value {z = z} moved e k =
    let (row, found, loads) = loaded-row p db id e in
    let (i, text, plain) =
      stored-text p id row.timezone row.transient_available row.enrols_at loads in
    let (transient, enrols) =
      stored-stated p id row.timezone row.transient_available row.enrols_at text plain loads in
    let h : Garage = record {
      id = i;
      timezone = new_value;
      transient_available = row.transient_available;
      enrols_at = row.enrols_at;
      unreadable = none;
    } in
    let l =
      garage_from_stored-readable p id new_value row.transient_available row.enrols_at text plain
        k in
    let there : find (garage_named id) after.garages ≡ some (record row { timezone = new_value }) =
      ap (find (garage_named id)) moved
      ∙ update-find (λ (g : GarageRow). record g { timezone = new_value }) (λ g. refl) id db.garages
          found in
    let now : load_garage p after id ≡ ok h =
      row-loaded p after id (record row { timezone = new_value }) there ∙ l in
    (h, ap (λ m. m >>= readable_garage) now ∙ readable-ok h refl, refl, sym transient, sym enrols)

-- A row of another garage stays.
pub kept-In :
    (id new_value : Text) (row : GarageRow) (rows : List GarageRow)
    → row.external_id ≢ id
    → In row rows
    → In row
        (update_where (garage_named id) (λ (g : GarageRow). record g { timezone = new_value }) rows)
kept-In id new_value row rows n m =
    let off : garage_named id row ≡ false = ground (arith, n, text_eq_iff row.external_id id) in
    let same : (if garage_named id row then record row { timezone = new_value } else row) ≡ row =
      rw off refl in
    subst
      (λ x. In x (
        update_where (garage_named id) (λ (g : GarageRow). record g { timezone = new_value }) rows))
      same
      (map-In
        (λ (g : GarageRow). if garage_named id g then record g { timezone = new_value } else g) row
        rows m)
