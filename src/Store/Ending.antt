-- ===== src/Store/Ending.antt =====
-- What the statements of a revocation do to the registrations and the credentials of the pass.
use garage_pass.Base.{
  ℕ, ◌≡◌, refl, sym, subst, ◌∙◌, ◌≢◌, inl, inr, Bool, true, false, List, [], ◌∷◌, map, Option, none,
  some, Text, text_eq_iff, All, In, map-In, Bool-cases, if◌then◌else◌, arith,
}
use garage_pass.Platform.{Day}
use garage_pass.Passes.{StateChange}
use garage_pass.Enrolment.{CredentialState}
use garage_pass.Store.Rows.{RegistrationRow, EndedReason, CredentialRow, greatest, update_where}
use garage_pass.Store.Write.{end_on}
use garage_pass.Store.OneCar.{NoLater, IsDated, Narrows}
use garage_pass.Store.Writing.{IsSound, EndsFrom, Shortens, map-IsSound, update-Shortens}
use garage_pass.Store.Change.{DayAt, live_on, cancel, after_end, ends_later, end_registrations}

-- A row of the pass at the garage does not run past the garage's day, or past its own first day.
abbrev pub Ended : Text → DayAt → RegistrationRow → Type 0
Ended pass_id d r =
    r.pass_id ≡ pass_id
    → r.garage_id ≡ d.garage_id
    → NoLater r.end_day (some (greatest d.today r.effective_day))

NoLater-trans : (a b c : Option Day) → NoLater a b → NoLater b c → NoLater a c
NoLater-trans a b none h k = tt
NoLater-trans none none (some c) h k = absurd k
NoLater-trans none (some b) (some c) h k = absurd h
NoLater-trans (some a) none (some c) h k = absurd k
NoLater-trans (some a) (some b) (some c) h k = omega arith

Ended-narrow :
    (pass_id : Text) (d : DayAt) (r s : RegistrationRow)
    → Narrows s r
    → Ended pass_id d r
    → Ended pass_id d s
Ended-narrow pass_id d r s n h same_pass same_garage = rw n.same_day (
    NoLater-trans s.end_day r.end_day (some (greatest d.today r.effective_day)) n.no_later
      (h (sym n.same_pass ∙ same_pass) (sym n.same_garage ∙ same_garage)))

abbrev end_step : Text → DayAt → RegistrationRow → RegistrationRow
end_step pass_id d r =
    if ends_later pass_id d r then end_on d.today EndedReason.by_revocation r else r

end_step-Shortens : (pass_id : Text) (d : DayAt) → Shortens (end_step pass_id d)
unfolding ends_later
end_step-Shortens pass_id d =
    update-Shortens (ends_later pass_id d) d.today EndedReason.by_revocation
      (λ r t. late r r.end_day (ground (arith, t)))
  where
    late :
        (r : RegistrationRow) (end : Option Day)
        → after_end (greatest d.today r.effective_day) end ≡ true
        → EndsFrom d.today end
    late r none t = tt
    late r (some e) t = ground arith

end_step-Ended :
    (pass_id : Text) (d : DayAt) (r : RegistrationRow) → Ended pass_id d (end_step pass_id d r)
unfolding ends_later
end_step-Ended pass_id d r = elim (Bool-cases (ends_later pass_id d r)) [
  | inl t ↦ rw t (λ a b. omega arith)
  | inr f ↦ rw f (λ a b. kept r.end_day (not_later (sym a) (sym b) f))
]
  where
    not_later :
        pass_id ≡ r.pass_id
        → d.garage_id ≡ r.garage_id
        → ends_later pass_id d r ≡ false
        → after_end (greatest d.today r.effective_day) r.end_day ≡ false
    not_later a b f =
        ground (arith, f, text_eq_iff r.pass_id pass_id, text_eq_iff r.garage_id d.garage_id)

    kept :
        (end : Option Day)
        → after_end (greatest d.today r.effective_day) end ≡ false
        → NoLater end (some (greatest d.today r.effective_day))
    kept none h = cc
    kept (some e) h = ground arith

module _ (P : RegistrationRow → Type 0)
    (keep : (r s : RegistrationRow) → Narrows s r → P r → P s) where
  map-kept :
      (f : RegistrationRow → RegistrationRow)
      → Shortens f
      → (rows : List RegistrationRow) → All IsDated rows
      → All P rows
      → All P (map f rows)
  map-kept f e [] ds h = tt
  map-kept f e (r ∷ rows) ds h = (keep r (f r) (e r ds.0).0 h.0, map-kept f e rows ds.1 h.1)

  end_registrations-kept :
      (next : ℕ) (pass_id : Text) (ds : List DayAt) (rows : List RegistrationRow)
      → IsSound next rows
      → All P rows
      → All P (end_registrations pass_id ds rows).1
  unfolding end_registrations
  end_registrations-kept next pass_id [] rows s h = h
  end_registrations-kept next pass_id (d ∷ ds) rows s h =
      end_registrations-kept next pass_id ds (map (end_step pass_id d) rows)
        (map-IsSound (end_step pass_id d) (end_step-Shortens pass_id d) next rows s)
        (map-kept (end_step pass_id d) (end_step-Shortens pass_id d) rows s.dated h)

pub end_registrations-IsSound :
    (next : ℕ) (pass_id : Text) (ds : List DayAt) (rows : List RegistrationRow)
    → IsSound next rows
    → IsSound next (end_registrations pass_id ds rows).1
unfolding end_registrations
end_registrations-IsSound next pass_id [] rows s = s
end_registrations-IsSound next pass_id (d ∷ ds) rows s =
    end_registrations-IsSound next pass_id ds (map (end_step pass_id d) rows)
      (map-IsSound (end_step pass_id d) (end_step-Shortens pass_id d) next rows s)

step-Ended :
    (pass_id : Text) (d : DayAt) (rows : List RegistrationRow)
    → All (Ended pass_id d) (map (end_step pass_id d) rows)
step-Ended pass_id d [] = tt
step-Ended pass_id d (r ∷ rows) = (end_step-Ended pass_id d r, step-Ended pass_id d rows)

pub end_registrations-Ended :
    (next : ℕ) (pass_id : Text) (ds : List DayAt) (rows : List RegistrationRow)
    → IsSound next rows
    → All (λ d. All (Ended pass_id d) (end_registrations pass_id ds rows).1) ds
unfolding end_registrations
end_registrations-Ended next pass_id [] rows s = tt
end_registrations-Ended next pass_id (d ∷ ds) rows s =
    let after = map-IsSound (end_step pass_id d) (end_step-Shortens pass_id d) next rows s in
    (
      end_registrations-kept (Ended pass_id d) (Ended-narrow pass_id d) next pass_id ds
          (map (end_step pass_id d) rows) after (step-Ended pass_id d rows),
      end_registrations-Ended next pass_id ds (map (end_step pass_id d) rows) after,
    )

end_step-other :
    (pass_id : Text) (d : DayAt) (r : RegistrationRow)
    → r.pass_id ≢ pass_id
    → end_step pass_id d r ≡ r
unfolding ends_later
end_step-other pass_id d r n =
    let f : ends_later pass_id d r ≡ false = ground (arith, n, text_eq_iff r.pass_id pass_id) in
    rw f refl

-- A row of another pass stays as it is.
pub end_registrations-other :
    (pass_id : Text) (ds : List DayAt) (rows : List RegistrationRow) (r : RegistrationRow)
    → r.pass_id ≢ pass_id
    → In r rows
    → In r (end_registrations pass_id ds rows).1
unfolding end_registrations
end_registrations-other pass_id [] rows r n m = m
end_registrations-other pass_id (d ∷ ds) rows r n m =
    end_registrations-other pass_id ds (map (end_step pass_id d) rows) r n (
      subst (λ x. In x (map (end_step pass_id d) rows)) (end_step-other pass_id d r n)
        (map-In (end_step pass_id d) r rows m))

pub cancelled :
    (live : CredentialState → Bool)
    → live CredentialState.cancelled ≡ false
    → (pass_id : Text) (change : StateChange) (cs : List CredentialRow)
    → All
        (λ (c : CredentialRow). c.pass_id ≡ pass_id → live c.state ≡ false)
        (update_where (live_on live pass_id) (cancel change) cs)
cancelled live dead pass_id change [] = tt
cancelled live dead pass_id change (c ∷ cs) = elim (Bool-cases (live_on live pass_id c)) [
  | inl t ↦ (rw t (λ e. dead), cancelled live dead pass_id change cs)
  | inr f ↦ (
    rw f (λ e. ground (arith, f, text_eq_iff c.pass_id pass_id)),
    cancelled live dead pass_id change cs,
  )
]
