-- ===== src/Store/ExitOnly.antt =====
-- store/records.py: what `registrations_of` reads of a car's replacement.
use garage_pass.Base.{
  ◌≡◌, refl, sym, subst, ◌∙◌, ◌≢◌, ◌↔◌, ◌⊎◌, ℕ, ◌≤◌, ◌<◌, ◌+◌, Bool, true, false, not, ◌&&◌, ◌||◌,
  List, [], ◌∷◌, Option, none, some, Text, text_eq, text_eq_iff, filter, any, any-In, In-any, In,
  In-filter, filter-In, is_some, if◌then◌else◌, arith,
}
use garage_pass.Result.{ok, ok-inj, map_all, map_all-In, In-map_all, >>=-eq-ok}
use garage_pass.Platform.{Platform, Day, Instant}
use garage_pass.Enrolment.{CredentialState, CredentialReading, credential_state, last_day}
use garage_pass.Store.Rows.{RegistrationRow, CredentialRow}
use garage_pass.Store.OfCar.{
  is_bound_to, QrRead, not_cancelled, live_reading, qr_of, read_qr, replaced, is_exit_only,
  is_qr_of,
}

-- A QR is live: of a day, if it was used, or if it was issued and the day is one of its own; of no
-- day, if it was not cancelled.
abbrev pub IsLive : Option Day → CredentialRow → Type 0
IsLive none c = c.state ≢ CredentialState.cancelled
IsLive (some today) c =
    (c.state ≡ CredentialState.redeemed)
    ⊎ ((c.state ≡ CredentialState.issued)
        × (c.starts_on ≤ today)
        × (today < c.starts_on + c.days_valid))

reading-live :
    (starts_on : Day) (days_valid : ℕ) (s : CredentialState) (today : Day)
    {reading : CredentialReading}
    → credential_state starts_on days_valid s today ≡ ok reading
    → (live_reading starts_on today reading ≡ true) ↔ (
        (s ≡ CredentialState.redeemed)
        ⊎ ((s ≡ CredentialState.issued) × (starts_on ≤ today) × (today < starts_on + days_valid)))
unfolding credential_state last_day
reading-live starts_on days_valid CredentialState.redeemed today e = ground (arith, e)
reading-live starts_on days_valid CredentialState.cancelled today e = ground (arith, e)
reading-live starts_on days_valid CredentialState.issued today e = ground (arith, e)

-- What is read of a QR is whether it is live.
pub read_qr-IsLive :
    (today : Option Day) (c : CredentialRow) {q : QrRead}
    → read_qr today c ≡ ok q
    → (q.pass_id ≡ c.pass_id)
      × (q.exit_only_at ≡ c.exit_only_at)
      × ((q.is_live ≡ true) ↔ IsLive today c)
read_qr-IsLive none c {q} e =
    let same : qr_of c (not_cancelled c.state) ≡ q = ok-inj e in
    subst
      (λ (x : QrRead).
        (x.pass_id ≡ c.pass_id)
        × (x.exit_only_at ≡ c.exit_only_at)
        × ((x.is_live ≡ true) ↔ IsLive none c))
      same (refl, refl, kept c.state)
  where
    kept : (s : CredentialState) → (not_cancelled s ≡ true) ↔ (s ≢ CredentialState.cancelled)
    kept CredentialState.issued = (λ _ n. cc, λ _. refl)
    kept CredentialState.redeemed = (λ _ n. cc, λ _. refl)
    kept CredentialState.cancelled = (λ t. cc, λ n. absurd (n refl))
read_qr-IsLive (some today) c {q} e =
    let (reading, e1, e2) =
      >>=-eq-ok (credential_state c.starts_on c.days_valid c.state today) _ e in
    subst
      (λ (x : QrRead).
        (x.pass_id ≡ c.pass_id)
        × (x.exit_only_at ≡ c.exit_only_at)
        × ((x.is_live ≡ true) ↔ IsLive (some today) c))
      (ok-inj e2) (refl, refl, reading-live c.starts_on c.days_valid c.state today e1)

-- Each flag, or what else is found.
abbrev or_also : Bool × Bool → Bool → Bool → Bool × Bool
or_also flags c d = (flags.0 || c, flags.1 || d)

merge :
    (t x y a b c d : Bool)
    → or_also (if t then (a || x, b || y) else (a, b)) c d
      ≡ or_also (a, b) ((t && x) || c) ((t && y) || d)
merge true x y true true c d = refl
merge true x y true false c d = refl
merge true x y false true c d = refl
merge true x y false false c d = refl
merge false x y a b c d = refl

-- The fold, as a question to all the QRs of the pass.
replaced-any :
    (so_far : Bool × Bool) (pass_id : Text) (qs : List QrRead)
    → replaced so_far pass_id qs
      ≡ or_also so_far
          (any (λ (q : QrRead). text_eq q.pass_id pass_id && is_some q.exit_only_at) qs)
          (any
            (λ (q : QrRead).
              text_eq q.pass_id pass_id && (q.is_live && not (is_some q.exit_only_at)))
            qs)
unfolding replaced
replaced-any (a, b) pass_id [] = ground arith
replaced-any (a, b) pass_id (q ∷ qs) =
    replaced-any
      (if text_eq q.pass_id pass_id
        then (a || is_some q.exit_only_at, b || (q.is_live && not (is_some q.exit_only_at)))
        else (a, b))
      pass_id qs
    ∙ merge (text_eq q.pass_id pass_id) (is_some q.exit_only_at)
        (q.is_live && not (is_some q.exit_only_at)) a b _ _

live_flag :
    (l : Bool) (a b : Option Instant) {L : Type 0}
    → a ≡ b
    → (l ≡ true) ↔ L
    → ((l && not (is_some a)) ≡ true) ↔ ((is_some b ≡ false) × L)
live_flag l a b {L} same iff =
    subst (λ x. ((l && not (is_some a)) ≡ true) ↔ ((is_some x ≡ false) × L)) same (of_one l a iff)
  where
    of_one :
        (l : Bool) (a : Option Instant)
        → (l ≡ true) ↔ L
        → ((l && not (is_some a)) ≡ true) ↔ ((is_some a ≡ false) × L)
    of_one true none iff = (λ _. (refl, iff.0 refl), λ _. refl)
    of_one true (some w) iff = (λ t. cc, λ (x, _). cc)
    of_one false none iff = (λ t. cc, λ (_, y). iff.1 y)
    of_one false (some w) iff = (λ t. cc, λ (_, y). iff.1 y)

both_iff :
    (a b : Bool) {P Q : Type 0}
    → (a ≡ true) ↔ P
    → (b ≡ true) ↔ Q
    → ((a && not b) ≡ true) ↔ (P × ¬ Q)
both_iff true true fp fq = (λ t. cc, λ (_, n). absurd (n (fq.0 refl)))
both_iff true false fp fq = (λ _. (fp.0 refl, λ y. let t = fq.1 y in cc), λ _. refl)
both_iff false b fp fq = (λ t. cc, λ (x, _). fp.1 x)

-- A QR of the pass that is bound to the car.
abbrev pub IsOfCar : Platform → Text → Text → CredentialRow → Type 0
IsOfCar p key pass_id c = (c.pass_id ≡ pass_id) × (is_bound_to p key c ≡ true)

module _ (p : Platform) (key : Text) (today : Option Day) (enrolments : List CredentialRow)
    (rows : List RegistrationRow) {qs : List QrRead}
    (read : map_all (read_qr today) (filter (is_qr_of p key rows) enrolments) ≡ ok qs) where
  -- The reads of the QRs of a pass are those of its QRs that are bound to the car.
  pub read_of :
      (pass_id : Text) (q : QrRead)
      → In q qs
      → q.pass_id ≡ pass_id
      → (c : CredentialRow) × In c enrolments × IsOfCar p key pass_id c × (read_qr today c ≡ ok q)
  read_of pass_id q m same =
      let (c, i, e) =
        map_all-In (read_qr today) (filter (is_qr_of p key rows) enrolments) q read m in
      let (j, t) = In-filter (is_qr_of p key rows) c enrolments i in
      let (pass, _, _) = read_qr-IsLive today c e in (c, j, (sym pass ∙ same, ground (arith, t)), e)

  pub of_read :
      (row : RegistrationRow) (c : CredentialRow)
      → In row rows
      → In c enrolments
      → IsOfCar p key row.pass_id c
      → (q : QrRead) × In q qs × (q.pass_id ≡ row.pass_id) × (read_qr today c ≡ ok q)
  of_read row c r m (same, bound) =
      let named : any (λ (x : RegistrationRow). text_eq x.pass_id c.pass_id) rows ≡ true =
        In-any (λ (x : RegistrationRow). text_eq x.pass_id c.pass_id) row rows r
          ((text_eq_iff row.pass_id c.pass_id).1 (sym same)) in
      let i = filter-In (is_qr_of p key rows) c enrolments m (ground (arith, named, bound)) in
      let (q, j, e) =
        In-map_all (read_qr today) (filter (is_qr_of p key rows) enrolments) c read i in
      let (pass, _, _) = read_qr-IsLive today c e in (q, j, pass ∙ same, e)

  flag_iff :
      (row : RegistrationRow)
      → In row rows
      → (test : QrRead → Bool) (P : CredentialRow → Type 0)
      → ((c : CredentialRow) (q : QrRead) → read_qr today c ≡ ok q → (test q ≡ true) ↔ P c)
      → (any (λ (q : QrRead). text_eq q.pass_id row.pass_id && test q) qs ≡ true)
        ↔ ((c : CredentialRow) × In c enrolments × IsOfCar p key row.pass_id c × P c)
  flag_iff row r test P says = (
    λ t.
        let (q, m, h) = any-In (λ (q : QrRead). text_eq q.pass_id row.pass_id && test q) qs t in
        let (c, i, of, e) =
          read_of row.pass_id q m ((text_eq_iff q.pass_id row.pass_id).0 (ground (arith, h))) in
        (c, i, of, (says c q e).0 (ground (arith, h))),
    λ (c, i, of, holds).
        let (q, m, same, e) = of_read row c r i of in
        let passes = (says c q e).1 holds in
        let here = (text_eq_iff q.pass_id row.pass_id).1 same in
        In-any (λ (q : QrRead). text_eq q.pass_id row.pass_id && test q) q qs m
          (ground (arith, passes, here)),
  )

  pub exit_only_iff :
      (row : RegistrationRow)
      → In row rows
      → (is_exit_only row.pass_id qs ≡ true) ↔ (
          ((c : CredentialRow) × In c enrolments
            × IsOfCar p key row.pass_id c
            × (is_some c.exit_only_at ≡ true))
          × ¬ (
              (c : CredentialRow) × In c enrolments
              × IsOfCar p key row.pass_id c
              × ((is_some c.exit_only_at ≡ false) × IsLive today c)))
  exit_only_iff row r =
      let was =
        flag_iff row r (λ q. is_some q.exit_only_at) (λ c. is_some c.exit_only_at ≡ true)
          (λ c q e.
            let (_, w, _) = read_qr-IsLive today c e in
            subst (λ (x : Option Instant). (is_some x ≡ true) ↔ (is_some c.exit_only_at ≡ true))
              (sym w) (λ t. t, λ t. t)) in
      let live =
        flag_iff row r (λ q. q.is_live && not (is_some q.exit_only_at))
          (λ c. (is_some c.exit_only_at ≡ false) × IsLive today c)
          (λ c q e.
            let (_, w, l) = read_qr-IsLive today c e in
            live_flag q.is_live q.exit_only_at c.exit_only_at w l) in
      let flags = replaced-any (false, false) row.pass_id qs in
      subst
        (λ (f : Bool × Bool). ((f.0 && not f.1) ≡ true) ↔ (
          ((c : CredentialRow) × In c enrolments
            × IsOfCar p key row.pass_id c
            × (is_some c.exit_only_at ≡ true))
          × ¬ (
              (c : CredentialRow) × In c enrolments
              × IsOfCar p key row.pass_id c
              × ((is_some c.exit_only_at ≡ false) × IsLive today c))))
        (sym flags) (both_iff _ _ was live)
