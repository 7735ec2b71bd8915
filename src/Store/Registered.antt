-- ===== src/Store/Registered.antt =====
-- store/records.py: `register_vehicle`, from the judging to the last row.
use garage_pass.Base.{
  ◌≡◌, refl, sym, subst, Option, Text, All, In, All-In, In-All, Pairwise-sort_by,
}
use garage_pass.Result.{ok}
use garage_pass.Platform.{Platform, Day}
use garage_pass.Store.Rows.{Db, RegistrationRow, EndedReason}
use garage_pass.Store.Load.{vehicle_key, garages_of}
use garage_pass.Store.Register.{Plan, others_first, plan_of, judge}
use garage_pass.Store.Write.{write_plan, registered, register_vehicle}
use garage_pass.Store.Writing.{IsSound}
use garage_pass.Store.Sound.{write_plan-Inserted}
use garage_pass.Store.Holders.{DifferHeld}
use garage_pass.Store.Judged.{all_holders-distinct, judged-from, judged-distinct, releases-early}
use garage_pass.Store.Placed.{write_plan-ok}
use garage_pass.Store.Planned.{
  judge-IsPlanned, IsStored, plan-IsJudged, read_once, garages-distinct, pending,
}

module _ (p : Platform) (db : Db) (garage_id pass_id vehicle_identity : Text) (from : Day)
    (end : Option Day) (why : EndedReason) where
  -- A registration that is not refused when it is judged and whose writes go through, on whatever
  -- sound rows other writers left in between, leaves sound rows, in which no car has two
  -- registrations at one garage on one day, holds a row at every garage of the pass, of the car's
  -- normal form, the pass and the range asked for, and changes no other table.
  pub register_vehicle-IsSound :
      (later : Db) {plan : Plan} {written : Db}
      → judge p db garage_id pass_id vehicle_identity from end why ≡ ok plan
      → IsSound later.next_id later.registrations
      → write_plan plan later ≡ ok written
      → (identity : Text) × (vehicle_key p vehicle_identity ≡ ok identity)
        × IsSound written.next_id written.registrations
        × All
            (λ g.
              (r : RegistrationRow) × In r written.registrations
              × (r.garage_id ≡ g)
              × (r.pass_id ≡ pass_id)
              × (r.vehicle_identity ≡ identity)
              × (r.effective_day ≡ from)
              × (r.end_day ≡ end))
            (garages_of db pass_id)
        × (written
            ≡ record later { registrations = written.registrations; next_id = written.next_id })
  register_vehicle-IsSound later {plan} {written} e s w =
      let j = judge-IsPlanned p db garage_id pass_id vehicle_identity from end why e in
      let (sound, rows, rest) =
        write_plan-Inserted _ later
          (plan-IsJudged db pass_id plan.identity from end why j.last_day plan.turnover
            j.holders_judged j.in_order)
          s (rw j.planned at w) in
      (
        plan.identity,
        j.keyed,
        sound,
        In-All _ (garages_of db pass_id) (λ g m.
            let (id, i) = All-In _ g (garages_of db pass_id) rows m in
            (_, i, refl, refl, refl, refl, refl)),
        rest,
      )

  -- Where nobody writes in between, a registration that is not refused when it is judged is
  -- written: neither the turnover nor a constraint of the table refuses it.
  pub register_vehicle-written :
      {plan : Plan}
      → IsStored db
      → judge p db garage_id pass_id vehicle_identity from end why ≡ ok plan
      → (written : Db) × (register_vehicle p db garage_id pass_id vehicle_identity from end why
          ≡ ok (registered plan, written))
  unfolding register_vehicle
  register_vehicle-written {plan} s e =
      let j = judge-IsPlanned p db garage_id pass_id vehicle_identity from end why e in
      let (written, w) =
        write_plan-ok (plan_of db pass_id plan.identity from end why j.last_day plan.turnover) db
          (garages-distinct db pass_id plan.identity from end why j.last_day plan.turnover
            j.holders_judged s)
          (judged-distinct pass_id from _
            (Pairwise-sort_by DifferHeld (λ h k n q. n (sym q)) (others_first pass_id) _
              (all_holders-distinct db plan.identity from end (garages_of db pass_id)
                (garages-distinct db pass_id plan.identity from end why j.last_day plan.turnover
                  j.holders_judged s)
                s.sound.distinct))
            j.holders_judged)
          (read_once db pass_id plan.identity from end why j.last_day plan.turnover j.holders_judged
            s plan.turnover (judged-from pass_id from _ j.holders_judged))
          (releases-early from _)
          (pending db pass_id plan.identity from end why j.last_day plan.turnover j.holders_judged
            s) in
      (written, rw (e, subst (λ x. write_plan x db ≡ ok written) (sym j.planned) w) refl)
