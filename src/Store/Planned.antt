-- ===== src/Store/Planned.antt =====
-- What the plan of a registration holds, by the judging that made it.
use garage_pass.Base.{
  ◌≡◌, refl, sym, subst, ◌≢◌, ◌⊎◌, inl, inr, true, false, List, [], ◌∷◌, Option, Option-cases, none,
  some, Text, text_leb, All, In, All-In, In-All, Pairwise, Pairwise-sort_by, All-find, In-sort_by,
  sort_by-In, find, Bool-cases, arith,
}
use garage_pass.Result.{ok, ok-inj, >>=-eq-ok}
use garage_pass.Platform.{Platform, Day}
use garage_pass.Passes.{Pass}
use garage_pass.Store.Rows.{Db, PassRow, RegistrationRow, EndedReason, conflicts}
use garage_pass.Store.Load.{vehicle_key, load_readable_garage, load_pass, pass_named, garages_of}
use garage_pass.Store.Register.{
  Held, AsRead, Plan, holds, all_holders, others_first, is_released, judge_holders, as_read,
  check_target, ends_too_soon, plan_of, judged, judge,
}
use garage_pass.Store.Write.{still_as_read, still_open, row_at}
use garage_pass.Store.OneCar.{text_eq_swap, overlaps_swapped}
use garage_pass.Store.Writing.{IsSound, EndsFrom, same_end_refl}
use garage_pass.Store.Sound.{IsJudged}
use garage_pass.Store.Holders.{Owned, Joined-holders, all_holders-Joined, holders-all_holders}
use garage_pass.Store.Judged.{From, judged-from, judged-all, held-EndsFrom, released-In}
use garage_pass.Store.Clearing.{Pending, AllPending, read-once}
use garage_pass.Store.Placed.{ReadOnce}

-- A judged plan, with what it was judged by.
pub record IsPlanned (p : Platform) (db : Db) (pass_id vehicle_identity : Text) (from : Day)
    (end : Option Day) (why : EndedReason) (plan : Plan) : Type 0 where
  pub last_day : Option Day
  pub keyed : vehicle_key p vehicle_identity ≡ ok plan.identity
  pub in_order : ends_too_soon from end ≡ false
  pub holders_judged :
      judge_holders pass_id from (judged db pass_id plan.identity from end) ≡ ok plan.turnover
  pub planned : plan ≡ plan_of db pass_id plan.identity from end why last_day plan.turnover

check_target-in_order :
    (pass : Pass) (from : Day) (end : Option Day) {last : Option Day}
    → check_target pass from end ≡ ok last
    → ends_too_soon from end ≡ false
unfolding check_target
check_target-in_order pass from end e = ground arith

module _ (p : Platform) (db : Db) (garage_id pass_id vehicle_identity : Text) (from : Day)
    (end : Option Day) (why : EndedReason) where
  pub judge-IsPlanned :
      {plan : Plan}
      → judge p db garage_id pass_id vehicle_identity from end why ≡ ok plan
      → IsPlanned p db pass_id vehicle_identity from end why plan
  unfolding judge
  judge-IsPlanned {plan} e =
      let (identity, e1, k1) = >>=-eq-ok (vehicle_key p vehicle_identity) _ e in
      let (garage, e2, k2) = >>=-eq-ok (load_readable_garage p db garage_id) _ k1 in
      let (pass, e3, k3) = >>=-eq-ok (load_pass db garage_id pass_id) _ k2 in
      let (last_day, e4, k4) = >>=-eq-ok (check_target pass from end) _ k3 in
      let (turnover, e5, k5) =
        >>=-eq-ok (judge_holders pass_id from (judged db pass_id identity from end)) _ k4 in
      subst (IsPlanned p db pass_id vehicle_identity from end why) (ok-inj k5) (record {
        last_day = last_day;
        keyed = e1;
        in_order = check_target-in_order pass from end e4;
        holders_judged = e5;
        planned = refl;
      })

as_read-still : (h : Held) → still_as_read (as_read h) h.row ≡ true
unfolding still_as_read
as_read-still h = ground (arith, same_end_refl h.row.end_day)

open-still :
    (last : Day) (h : Held)
    → h.row.end_day ≡ none
    → still_open (record { id = h.row.id; end = last }) h.row ≡ true
unfolding still_open
open-still last h o = rw o (ground arith)

conflicts-holds :
    (plan : Plan) (g : Text) (r : RegistrationRow)
    → conflicts (row_at plan 0 g) r ≡ true
    → holds g plan.identity plan.from plan.end r ≡ true
unfolding conflicts
conflicts-holds plan g r h = ground (
  arith,
  text_eq_swap g r.garage_id,
  text_eq_swap plan.identity r.vehicle_identity,
  overlaps_swapped plan.from r.effective_day plan.end r.end_day,
)

-- The constraints of the tables: sound registrations of passes that are there, and each pass at
-- each of its garages once.
pub record IsStored (db : Db) : Type 0 where
  pub sound : IsSound db.next_id db.registrations
  pub owned : All (Owned db.passes) db.registrations
  pub named_once : All (λ (row : PassRow). Pairwise (λ g h. g ≢ h) row.garages) db.passes

module _ (db : Db) (pass_id identity : Text) (from : Day) (end : Option Day) (why : EndedReason)
    (last_day : Option Day) (turnover : List AsRead)
    (e : judge_holders pass_id from (judged db pass_id identity from end) ≡ ok turnover) where
  abbrev plan : Plan
  plan = plan_of db pass_id identity from end why last_day turnover

  judged_late :
      (as_reads : List AsRead)
      → All (From pass_id from (judged db pass_id identity from end)) as_reads
      → All (λ (a : AsRead). EndsFrom from a.read_end) as_reads
  judged_late [] f = tt
  judged_late (a ∷ more) f =
      let (h, m, t, q) = f.0 in
      let (g, n, j, holds_h) =
        all_holders-Joined db identity from end (garages_of db pass_id) h
          (In-sort_by (others_first pass_id) h _ m) in
      (rw q (held-EndsFrom pass_id from g identity end h holds_h), judged_late more f.1)

  pub plan-IsJudged : ends_too_soon from end ≡ false → IsJudged plan
  plan-IsJudged o = record {
    ends = ends end o;
    turned = judged_late turnover (judged-from pass_id from _ e);
  }
    where
      ends : (last : Option Day) → ends_too_soon from last ≡ false → EndsFrom from last
      ends none q = tt
      ends (some d) q = ground arith

  pub read_once :
      IsStored db
      → (as_reads : List AsRead)
      → All (From pass_id from (judged db pass_id identity from end)) as_reads
      → ReadOnce db.registrations as_reads
  read_once s [] f = tt
  read_once s (a ∷ more) f =
      let (h, m, t, q) = f.0 in
      let (g, n, j, holds_h) =
        all_holders-Joined db identity from end (garages_of db pass_id) h
          (In-sort_by (others_first pass_id) h _ m) in
      (
        rw q (read-once (as_read h) h.row db.registrations s.sound.distinct j.0 (as_read-still h)),
        read_once s more f.1,
      )

  pub garages-distinct : IsStored db → Pairwise (λ g h. g ≢ h) (garages_of db pass_id)
  unfolding garages_of
  garages-distinct s = elim (Option-cases (find (pass_named pass_id) db.passes)) [
    | inl none_found ↦ rw (none_found, garages_of) tt
    | inr (row, found) ↦
        rw (found, garages_of)
          (Pairwise-sort_by (λ g h. g ≢ h) (λ g h n q. n (sym q)) text_leb row.garages
            (All-find _ (pass_named pass_id) db.passes row s.named_once found))
  ]

  pub pending :
      IsStored db → AllPending plan (garages_of db pass_id) turnover plan.released db.registrations
  pending s = In-All _ db.registrations (λ r m g n. obstacle r m g n)
    where
      dealt :
          (r : RegistrationRow) (g : Text) (h : Held)
          → h.row ≡ r
          → (is_released from h ≡ true) ⊎ In (as_read h) turnover
          → In h (all_holders db (garages_of db pass_id) identity from end)
          → Pending plan g turnover plan.released r
      dealt r g h q (inr i) j =
          inr (
            inl (as_read h, i, subst (λ x. still_as_read (as_read h) x ≡ true) q (as_read-still h)))
      dealt r g h q (inl t) j =
          let (last, i, o) = released-In from _ h j t in
          inr (
            inr (
              _,
              i,
              subst (λ x. still_open (record { id = h.row.id; end = last }) x ≡ true) q
                  (open-still last h o),
            ))

      obstacle :
          (r : RegistrationRow)
          → In r db.registrations
          → (g : Text) → In g (garages_of db pass_id)
          → Pending plan g turnover plan.released r
      obstacle r m g n = elim (Bool-cases (conflicts (row_at plan 0 g) r)) [
        | inr free ↦ inl free
        | inl hit ↦
            let (h, i, q) =
              Joined-holders db identity from end g r
                (All-In (Owned db.passes) r db.registrations s.owned m) m
                (conflicts-holds plan g r hit) in
            let j = holders-all_holders db identity from end g (garages_of db pass_id) h n i in
            dealt r g h q (judged-all pass_id from _ e h (sort_by-In (others_first pass_id) h _ j))
              j
      ]
