-- ===== src/Store/Exits.antt =====
-- store/records.py: what `record_exit` does to the ledger.
use garage_pass.Base.{
  ℕ, ==_iff, ◌≡◌, refl, sym, ap, subst, ◌∙◌, ◌≢◌, ◌≤◌, ◌⊎◌, inl, inr, true, false, List, Option,
  none, some, Text, All, All-In, In, In-All, map, ltb, Bool-cases, map-In, if◌then◌else◌, arith,
}
use garage_pass.Findings.{Code, Field}
use garage_pass.Result.{ok, refuse_if, ok-inj, >>=-eq-ok, refuse_if-ok}
use garage_pass.Platform.{Platform, Instant}
use garage_pass.Garage.{require_text}
use garage_pass.Store.Rows.{Db, VisitRow, same_stay, update_where}
use garage_pass.Store.Load.{vehicle_key, load_readable_garage, load_pass}
use garage_pass.Store.Ledger.{open_visit, Recorded, has_id, close_at, stated_visit, record_exit}
use garage_pass.Store.Visits.{IsOrderly, IsOpenAt, same_stay_iff}
use garage_pass.Store.StayEnds.{map_cong}
use garage_pass.Store.Closing.{
  find-open, same_visit, same_open, closed-IsOrderly, closed-other, closed-none,
}

stated_visit-ok : (o : Option VisitRow) {v : VisitRow} → stated_visit o ≡ ok v → o ≡ some v
stated_visit-ok none e = cc
stated_visit-ok (some w) e = ap some (ok-inj e)

-- What an exit does to the ledger: the open visit `v` of the stay is closed, and no other row of any
-- table is touched.
pub record ClosesStay (before after : Db) (garage_id pass_id identity : Text) (at : Instant)
    (exit_lane : Text) (v : VisitRow) : Type 0 where
  pub was_open : open_visit before.visits garage_id pass_id identity ≡ some v
  pub entered_before : v.entered_at ≤ at
  pub orderly : IsOrderly after.next_id after.visits
  pub now_closed : open_visit after.visits garage_id pass_id identity ≡ none
  pub recorded : In (close_at at exit_lane v) after.visits
  pub rows : after ≡ record before {
    visits =
        map
          (λ w. if same_stay garage_id pass_id identity w then close_at at exit_lane w else w)
          before.visits;
  }
  pub others_kept :
      (g p i : Text)
      → (g ≢ garage_id) ⊎ (p ≢ pass_id) ⊎ (i ≢ identity)
      → open_visit after.visits g p i ≡ open_visit before.visits g p i

module _ (next : ℕ) (visits : List VisitRow) (o : IsOrderly next visits) (v : VisitRow)
    (m : In v visits) where
  only_row : (w : VisitRow) → In w visits → has_id v.id w ≡ true → w ≡ v
  only_row w n t = same_visit visits w v o.distinct n m ((==_iff w.id v.id).0 t)

  in_time :
      (at : Instant)
      → v.entered_at ≤ at
      → All (λ (w : VisitRow). has_id v.id w ≡ true → w.entered_at ≤ at) visits
  in_time at h =
      In-All _ visits (λ w n t. rw (ap (λ (x : VisitRow). x.entered_at) (only_row w n t)) h)

  other_stay :
      (g p i : Text)
      → same_stay g p i v ≡ false
      → All (λ (w : VisitRow). has_id v.id w ≡ true → same_stay g p i w ≡ false) visits
  other_stay g p i h =
      In-All _ visits (λ w n t. subst (λ x. same_stay g p i x ≡ false) (sym (only_row w n t)) h)

  this_stay :
      (g p i : Text)
      → same_stay g p i v ≡ true
      → All (λ (w : VisitRow). same_stay g p i w ≡ true → has_id v.id w ≡ true) visits
  this_stay g p i h = In-All _ visits (λ w n t.
      (==_iff w.id v.id).1
        (ap (λ (x : VisitRow). x.id) (same_open visits g p i w v o.one_open n m t h)))

  -- The row that is found by its id is the open row of the stay.
  same_rows :
      (g p i : Text) (at : Instant) (lane : Text)
      → same_stay g p i v ≡ true
      → update_where (has_id v.id) (close_at at lane) visits
        ≡ map (λ w. if same_stay g p i w then close_at at lane w else w) visits
  same_rows g p i at lane h = map_cong _ _ visits (λ w n.
      ap (λ b. if b then close_at at lane w else w)
        (elim (Bool-cases (has_id v.id w)) [
          | inl t ↦ t ∙ sym (subst (λ x. same_stay g p i x ≡ true) (sym (only_row w n t)) h)
          | inr f ↦ elim (Bool-cases (same_stay g p i w)) [
            | inr k ↦ f ∙ sym k
            | inl k ↦ All-In _ w visits (this_stay g p i h) n k ∙ sym k
          ]
        ]))

another :
    (garage_id pass_id identity g p i : Text) (v : VisitRow)
    → same_stay garage_id pass_id identity v ≡ true
    → (g ≢ garage_id) ⊎ (p ≢ pass_id) ⊎ (i ≢ identity)
    → same_stay g p i v ≡ false
another garage_id pass_id identity g p i v t d = elim (Bool-cases (same_stay g p i v)) [
  | inr f ↦ f
  | inl s ↦
      absurd
        (two ((same_stay_iff garage_id pass_id identity v).0 t) ((same_stay_iff g p i v).0 s) d)
]
  where
    two :
        IsOpenAt garage_id pass_id identity v
        → IsOpenAt g p i v
        → (g ≢ garage_id) ⊎ (p ≢ pass_id) ⊎ (i ≢ identity)
        → ⊥
    two (a, b, c, _) (x, y, z, _) (inl n) = n (sym x ∙ a)
    two (a, b, c, _) (x, y, z, _) (inr (inl n)) = n (sym y ∙ b)
    two (a, b, c, _) (x, y, z, _) (inr (inr n)) = n (sym z ∙ c)

closed-In :
    (v : VisitRow) (at : Instant) (lane : Text) (visits : List VisitRow)
    → In v visits
    → In (close_at at lane v) (update_where (has_id v.id) (close_at at lane) visits)
closed-In v at lane visits m =
    let here : has_id v.id v ≡ true = (==_iff v.id v.id).1 refl in
    let same : (if has_id v.id v then close_at at lane v else v) ≡ close_at at lane v =
      rw here refl in
    subst (λ x. In x (update_where (has_id v.id) (close_at at lane) visits)) same
      (map-In (λ w. if has_id v.id w then close_at at lane w else w) v visits m)

-- An exit that is recorded closes the one open visit of the car on the pass at that garage, which
-- was entered no later, at that instant and in the lane that was stated; no other visit, open or
-- closed, and no row of another table changes, so that every other stay has the open visit that it
-- had, and the ledger stays in order.
pub record_exit-ClosesStay :
    (p : Platform) (db : Db) (garage_id pass_id vehicle_identity lane : Text) (at : Instant)
    {result : Recorded × Db}
    → IsOrderly db.next_id db.visits
    → record_exit p db garage_id pass_id vehicle_identity lane at ≡ ok result
    → (identity : Text) × (exit_lane : Text) × (v : VisitRow) × (vehicle_key p vehicle_identity
        ≡ ok identity)
      × (require_text lane Field.lane ≡ ok exit_lane)
      × ClosesStay db result.1 garage_id pass_id identity at exit_lane v
unfolding record_exit open_visit
record_exit-ClosesStay p db garage_id pass_id vehicle_identity lane at {result} o e =
    let (identity, e1, k1) = >>=-eq-ok (vehicle_key p vehicle_identity) _ e in
    let (garage, e2, k2) = >>=-eq-ok (load_readable_garage p db garage_id) _ k1 in
    let (pass, e3, k3) = >>=-eq-ok (load_pass db garage_id pass_id) _ k2 in
    let (v, e4, k4) =
      >>=-eq-ok (stated_visit (open_visit db.visits garage_id pass_id identity)) _ k3 in
    let (_, e5, k5) =
      >>=-eq-ok (refuse_if (ltb at v.entered_at) Code.exit_before_entry Field.at_instant) _ k4 in
    let (exit_lane, e6, k6) = >>=-eq-ok (require_text lane Field.lane) _ k5 in
    let found = stated_visit-ok _ e4 in
    let (m, t) = find-open garage_id pass_id identity db.visits found in
    let early : v.entered_at ≤ at = ground (arith, (refuse_if-ok (ltb at v.entered_at) _ _).0 e5) in
    (
      identity,
      exit_lane,
      v,
      e1,
      e6,
      subst (λ (d : Db). ClosesStay db d garage_id pass_id identity at exit_lane v)
          (ap (λ (r : Recorded × Db). r.1) (ok-inj k6))
          (record {
            was_open = found;
            entered_before = early;
            orderly =
                closed-IsOrderly v.id at exit_lane db.next_id db.visits
                  (in_time db.next_id db.visits o v m at early) o;
            now_closed =
                closed-none v.id at exit_lane garage_id pass_id identity db.visits
                  (this_stay db.next_id db.visits o v m garage_id pass_id identity t);
            recorded = closed-In v at exit_lane db.visits m;
            rows =
                ap (λ visits. record db { visits = visits })
                  (same_rows db.next_id db.visits o v m garage_id pass_id identity at exit_lane t);
            others_kept = λ g p i d. closed-other v.id at exit_lane g p i db.visits (
                other_stay db.next_id db.visits o v m g p i
                  (another garage_id pass_id identity g p i v t d));
          }),
    )
