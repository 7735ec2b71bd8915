-- ===== src/Store/CarRegistrations.antt =====
-- store/records.py: what `registrations_of` gives, row by row.
use garage_pass.Base.{
  ◌≡◌, refl, sym, subst, ◌∙◌, ◌≢◌, ◌↔◌, ◌⊎◌, inl, inr, ◌≤◌, Bool, true, false, ◌&&◌, List, [], ◌∷◌,
  map, Option, none, some, some-inj, Text, text_eq, text_eq_iff, filter, In, In-filter, filter-In,
  In-sort_by, sort_by-In, map-In, is_some, is_empty, if◌then◌else◌, arith,
}
use garage_pass.Result.{ok, ok-inj, map_all, ◌>>=◌, >>=-eq-ok}
use garage_pass.Platform.{Platform, Day, Instant}
use garage_pass.Passes.{Registration}
use garage_pass.Enrolment.{plate_key}
use garage_pass.Store.Rows.{Db, RegistrationRow, CredentialRow}
use garage_pass.Store.OfCar.{
  QrRead, read_qr, replaced_at_of, is_exit_only, registration_of, by_effective_day, rows_of_car,
  is_qr_of, registrations_of,
}
use garage_pass.Store.ExitOnly.{IsLive, IsOfCar, read_qr-IsLive, read_of, of_read, exit_only_iff}
use garage_pass.Store.CarReads.{fold-upper, fold-found, map-of}

-- The car was replaced on the pass: a QR bound to it is exit-only, and no other is live.
abbrev pub WasReplaced : Platform → Text → Option Day → List CredentialRow → Text → Type 0
WasReplaced p key today enrolments pass_id =
    ((c : CredentialRow) × In c enrolments
      × IsOfCar p key pass_id c
      × (is_some c.exit_only_at ≡ true))
    × ¬ (
        (c : CredentialRow) × In c enrolments
        × IsOfCar p key pass_id c
        × ((is_some c.exit_only_at ≡ false) × IsLive today c))

-- The instant is that of a QR of the pass that is bound to the car, and no such QR has a later one.
abbrev pub IsLatest : Platform → Text → List CredentialRow → Text → Instant → Type 0
IsLatest p key enrolments pass_id t =
    ((c : CredentialRow) × In c enrolments × IsOfCar p key pass_id c × (c.exit_only_at ≡ some t))
    × ((c : CredentialRow) (u : Instant)
        → In c enrolments
        → IsOfCar p key pass_id c
        → c.exit_only_at ≡ some u
        → u ≤ t)

-- A registration as it is read from its row and the QRs of its pass.
pub record IsReadAs (p : Platform) (key : Text) (today : Option Day)
    (enrolments : List CredentialRow) (row : RegistrationRow) (r : Registration) : Type 0 where
  pub same_pass : r.pass_id ≡ row.pass_id
  pub of_car : r.vehicle_identity ≡ key
  pub same_days : (r.effective_day ≡ row.effective_day) × (r.end_day ≡ row.end_day)
  pub replaced_iff : (r.exit_only ≡ true) ↔ WasReplaced p key today enrolments row.pass_id
  pub entering : r.exit_only ≡ false → r.exit_only_at ≡ none
  pub latest :
      r.exit_only ≡ true
      → (t : Instant) × (r.exit_only_at ≡ some t) × IsLatest p key enrolments row.pass_id t

module _ (p : Platform) (key : Text) (today : Option Day) (enrolments : List CredentialRow)
    (rows : List RegistrationRow) {qs : List QrRead}
    (read : map_all (read_qr today) (filter (is_qr_of p key rows) enrolments) ≡ ok qs)
    (row : RegistrationRow) (m : In row rows) where
  latest-IsLatest :
      is_exit_only row.pass_id qs ≡ true
      → (t : Instant) × (replaced_at_of none row.pass_id qs ≡ some t)
        × IsLatest p key enrolments row.pass_id t
  latest-IsLatest h =
      let ((c, i, of, w), _) = (exit_only_iff p key today enrolments rows read row m).0 h in
      let (u, s) = stated c.exit_only_at w in
      let (q, j, same, e) = of_read p key today enrolments rows read row c m i of in
      let (_, when, _) = read_qr-IsLive today c e in
      let (t, f, _) = fold-upper none row.pass_id qs q u j same (when ∙ s) in
      (
        t,
        f,
        (found t (fold-found none row.pass_id qs f), λ c' u' i' of' s'. later t f c' u' i' of' s'),
      )
    where
      stated : (o : Option Instant) → is_some o ≡ true → (u : Instant) × (o ≡ some u)
      stated none w = cc
      stated (some u) w = (u, refl)

      found :
          (t : Instant)
          → (none ≡ some t)
            ⊎ ((q : QrRead) × In q qs × (q.pass_id ≡ row.pass_id) × (q.exit_only_at ≡ some t))
          → (c : CredentialRow) × In c enrolments
            × IsOfCar p key row.pass_id c
            × (c.exit_only_at ≡ some t)
      found t (inl n) = absurd (nothing n)
        where
          nothing : none ≡ some t → ⊥
          nothing n = cc
      found t (inr (q, j, same, w)) =
          let (c, i, of, e) = read_of p key today enrolments rows read row.pass_id q j same in
          let (_, when, _) = read_qr-IsLive today c e in (c, i, of, sym when ∙ w)

      later :
          (t : Instant)
          → replaced_at_of none row.pass_id qs ≡ some t
          → (c : CredentialRow) (u : Instant) → In c enrolments
          → IsOfCar p key row.pass_id c
          → c.exit_only_at ≡ some u
          → u ≤ t
      later t f c u i of s =
          let (q, j, same, e) = of_read p key today enrolments rows read row c m i of in
          let (_, when, _) = read_qr-IsLive today c e in
          let (t', f', k) = fold-upper none row.pass_id qs q u j same (when ∙ s) in
          subst (λ x. u ≤ x) (some-inj (sym f' ∙ f)) k

  row-IsReadAs : IsReadAs p key today enrolments row (registration_of key qs row)
  row-IsReadAs = record {
    same_pass = refl;
    of_car = refl;
    same_days = (refl, refl);
    replaced_iff = exit_only_iff p key today enrolments rows read row m;
    entering = λ f. rw f refl;
    latest = λ t. let (u, e, l) = latest-IsLatest t in (u, rw t e, l);
  }

-- What is given for a car at a garage: each of its rows there, as it is read, and nothing else.
pub record ReadsCar (p : Platform) (db : Db) (garage_id key : Text) (today : Option Day)
    (out : List Registration) : Type 0 where
  pub of_row :
      (r : Registration)
      → In r out
      → (row : RegistrationRow) × In row db.registrations
        × (row.garage_id ≡ garage_id)
        × (row.vehicle_identity ≡ key)
        × IsReadAs p key today db.enrolments row r
  pub every_row :
      (row : RegistrationRow)
      → In row db.registrations
      → row.garage_id ≡ garage_id
      → row.vehicle_identity ≡ key
      → (r : Registration) × In r out × IsReadAs p key today db.enrolments row r

rows-ReadsCar :
    (p : Platform) (db : Db) (garage_id key : Text) (today : Option Day) {qs : List QrRead}
    → map_all (read_qr today) (filter (is_qr_of p key (rows_of_car db garage_id key)) db.enrolments)
      ≡ ok qs
    → ReadsCar p db garage_id key today
        (map (registration_of key qs) (rows_of_car db garage_id key))
unfolding rows_of_car
rows-ReadsCar p db garage_id key today {qs} read = record {
  of_row = λ r m.
      let (row, i, e) = map-of (registration_of key qs) (rows_of_car db garage_id key) r m in
      let (j, t) =
        In-filter here row db.registrations
          (In-sort_by by_effective_day row (filter here db.registrations) i) in
      (
        row,
        j,
        (text_eq_iff row.garage_id garage_id).0 (ground (arith, t)),
        (text_eq_iff row.vehicle_identity key).0 (ground (arith, t)),
        subst (IsReadAs p key today db.enrolments row) (sym e)
            (row-IsReadAs p key today db.enrolments (rows_of_car db garage_id key) read row i),
      );
  every_row = λ row m g v.
      let at_garage = (text_eq_iff row.garage_id garage_id).1 g in
      let of_key = (text_eq_iff row.vehicle_identity key).1 v in
      let i =
        sort_by-In by_effective_day row (filter here db.registrations)
          (filter-In here row db.registrations m (ground (arith, at_garage, of_key))) in
      (
        registration_of key qs row,
        map-In (registration_of key qs) row (rows_of_car db garage_id key) i,
        row-IsReadAs p key today db.enrolments (rows_of_car db garage_id key) read row i,
      );
}
  where
    here : RegistrationRow → Bool
    here r = text_eq r.garage_id garage_id && text_eq r.vehicle_identity key

-- For an identity at a garage, every row of its normal form there is given, with its pass and its
-- days, and nothing else; nothing is given where the normal form is empty. A registration is marked
-- exit-only exactly when a QR that is bound to the car on its pass, by its plate or else by its first
-- use, was replaced, and no QR bound to it there that was not replaced is live: redeemed, or issued
-- and on one of its own days, or, where no day is stated, not cancelled. One that is exit-only carries
-- the latest instant of replacement, and one that is not carries none.
pub registrations_of-ReadsCar :
    (p : Platform) (db : Db) (garage_id identity : Text) (today : Option Day)
    {out : List Registration}
    → registrations_of p db garage_id identity today ≡ ok out
    → ((plate_key p identity ≡ []) × (out ≡ []))
      ⊎ ((plate_key p identity ≢ []) × ReadsCar p db garage_id (plate_key p identity) today out)
unfolding registrations_of
registrations_of-ReadsCar p db garage_id identity today {out} e = by_key (plate_key p identity) e
  where
    by_key :
        (key : Text)
        → (if is_empty key
            then ok []
            else map_all
                (read_qr today)
                (filter (is_qr_of p key (rows_of_car db garage_id key)) db.enrolments)
              >>= λ qs. ok (map (registration_of key qs) (rows_of_car db garage_id key)))
          ≡ ok out
        → ((key ≡ []) × (out ≡ [])) ⊎ ((key ≢ []) × ReadsCar p db garage_id key today out)
    by_key [] h = inl (refl, sym (ok-inj h))
    by_key (c ∷ key) h =
        let (qs, r, k) =
          >>=-eq-ok
            (map_all (read_qr today)
              (filter (is_qr_of p (c ∷ key) (rows_of_car db garage_id (c ∷ key))) db.enrolments))
            _ h in
        inr (
          λ n. cc,
          subst (ReadsCar p db garage_id (c ∷ key) today) (ok-inj k)
              (rows-ReadsCar p db garage_id (c ∷ key) today r),
        )
