-- ===== src/Store/Writing.antt =====
-- store/records.py: the writes of a registration on rows that others may have moved.
use garage_pass.Base.{
  ℕ, ◌≡◌, refl, ◌<◌, ◌≢◌, inl, inr, Bool, true, List, [], ◌∷◌, map, Option, none, some, All,
  Pairwise, Bool-cases, is_none, if◌then◌else◌, arith,
}
use garage_pass.Platform.{Day}
use garage_pass.Store.Rows.{RegistrationRow, EndedReason, same_end, greatest}
use garage_pass.Store.Register.{AsRead, Release}
use garage_pass.Store.Write.{end_on, still_as_read, still_open}
use garage_pass.Store.OneCar.{NoLater, IsDated, OneCar, Narrows, Narrows-refl, OneCar-map}

abbrev pub Differ : RegistrationRow → RegistrationRow → Type 0
Differ r s = r.id ≢ s.id

-- The rows that the table's constraints allow, with ids that were given out.
pub record IsSound (next : ℕ) (rows : List RegistrationRow) : Type 0 where
  pub dated : All IsDated rows
  pub one_car : OneCar rows
  pub given : All (λ r. r.id < next) rows
  pub distinct : Pairwise Differ rows

-- A change of a row that takes days away and leaves it dated.
abbrev pub Shortens : (RegistrationRow → RegistrationRow) → Type 0
Shortens f = (r : RegistrationRow) → IsDated r → Narrows (f r) r × IsDated (f r)

module _ (f : RegistrationRow → RegistrationRow) (e : Shortens f) where
  map-IsDated : (rows : List RegistrationRow) → All IsDated rows → All IsDated (map f rows)
  map-IsDated [] ds = tt
  map-IsDated (r ∷ rows) ds = ((e r ds.0).1, map-IsDated rows ds.1)

  map-given :
      (next : ℕ) (rows : List RegistrationRow)
      → All IsDated rows
      → All (λ r. r.id < next) rows
      → All (λ r. r.id < next) (map f rows)
  map-given next [] ds h = tt
  map-given next (r ∷ rows) ds h = (rw ((e r ds.0).0.same_id) h.0, map-given next rows ds.1 h.1)

  map-differ :
      (r : RegistrationRow)
      → IsDated r
      → (rows : List RegistrationRow) → All IsDated rows
      → All (Differ r) rows
      → All (Differ (f r)) (map f rows)
  map-differ r d [] ds h = tt
  map-differ r d (s ∷ rows) ds h =
      (rw ((e r d).0.same_id, (e s ds.0).0.same_id) h.0, map-differ r d rows ds.1 h.1)

  map-distinct :
      (rows : List RegistrationRow)
      → All IsDated rows
      → Pairwise Differ rows
      → Pairwise Differ (map f rows)
  map-distinct [] ds h = tt
  map-distinct (r ∷ rows) ds h = (map-differ r ds.0 rows ds.1 h.0, map-distinct rows ds.1 h.1)

  pub map-IsSound :
      (next : ℕ) (rows : List RegistrationRow) → IsSound next rows → IsSound next (map f rows)
  map-IsSound next rows s = record {
    dated = map-IsDated rows s.dated;
    one_car = OneCar-map f (λ r d. (e r d).0) rows s.dated s.one_car;
    given = map-given next rows s.dated s.given;
    distinct = map-distinct rows s.dated s.distinct;
  }

-- The end on a day is an end that the row did not pass, if the row was open or ended late enough.
abbrev pub EndsFrom : Day → Option Day → Type 0
EndsFrom day end = NoLater (some day) end

pub end_on-Narrows :
    (day : Day) (why : EndedReason) (r : RegistrationRow)
    → EndsFrom day r.end_day
    → IsDated r
    → Narrows (end_on day why r) r × IsDated (end_on day why r)
end_on-Narrows day why r h d = (
  record {
    same_id = refl;
    same_garage = refl;
    same_pass = refl;
    same_identity = refl;
    same_day = refl;
    no_later = within r.end_day h d;
  },
  ground arith,
)
  where
    within :
        (end : Option Day)
        → EndsFrom day end
        → NoLater (some r.effective_day) end
        → NoLater (some (greatest day r.effective_day)) end
    within none h d = tt
    within (some e) h d = ground arith

-- An update of the rows that pass a test, each of which ends late enough.
pub update-Shortens :
    (test : RegistrationRow → Bool) (day : Day) (why : EndedReason)
    → ((r : RegistrationRow) → test r ≡ true → EndsFrom day r.end_day)
    → Shortens (λ r. if test r then end_on day why r else r)
update-Shortens test day why h r d = elim (Bool-cases (test r)) [
  | inl e ↦ rw e (end_on-Narrows day why r (h r e) d)
  | inr n ↦ rw n (Narrows-refl r, d)
]

pub same_end_eq : (a b : Option Day) → same_end a b ≡ true → a ≡ b
same_end_eq none none h = refl
same_end_eq (some a) (some b) h = ground arith
same_end_eq none (some b) h = ground arith
same_end_eq (some a) none h = ground arith

pub same_end_refl : (a : Option Day) → same_end a a ≡ true
same_end_refl none = refl
same_end_refl (some a) = ground arith

pub still_as_read-end :
    (a : AsRead) (r : RegistrationRow) → still_as_read a r ≡ true → r.end_day ≡ a.read_end
unfolding still_as_read
still_as_read-end a r h = ground (arith, same_end_eq r.end_day a.read_end)

pub turn-Shortens :
    (day : Day) (a : AsRead)
    → EndsFrom day a.read_end
    → Shortens (λ r. if still_as_read a r then end_on day EndedReason.by_next_stay r else r)
turn-Shortens day a h =
    update-Shortens (still_as_read a) day EndedReason.by_next_stay
      (λ r e. rw (still_as_read-end a r e) h)

still_open-end :
    (e : Release) (r : RegistrationRow) → still_open e r ≡ true → EndsFrom e.end r.end_day
unfolding still_open
still_open-end e r h = open_end r.end_day (ground arith)
  where
    open_end : (end : Option Day) → is_none end ≡ true → EndsFrom e.end end
    open_end none h = tt
    open_end (some d) h = ground arith

pub release-Shortens :
    (e : Release)
    → Shortens (λ r. if still_open e r then end_on e.end EndedReason.by_expiry r else r)
release-Shortens e = update-Shortens (still_open e) e.end EndedReason.by_expiry (still_open-end e)
