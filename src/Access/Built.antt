-- ===== src/Access/Built.antt =====
-- What a question built through the constructors brings: garages with clocks, and passes that are
-- unreadable or carry consistent terms.
use garage_pass.Base.{◌≡◌, none, some, All, arith}
use garage_pass.Result.{ok, >>=-eq-ok}
use garage_pass.Findings.{Field}
use garage_pass.Platform.{Platform, Zone}
use garage_pass.Localday.{zone}
use garage_pass.Garage.{
  Garage, make_garage, check_zone, require_text, refuse_enrols_at_contradiction,
}
use garage_pass.Terms.{Terms, make_terms}
use garage_pass.Terms.Spec.{IsConsistent}
use garage_pass.Terms.Check.{make_terms-IsConsistent}
use garage_pass.Passes.{Pass, make_pass, check_readable, require_garage_ids}
use garage_pass.Access

-- A garage that is readable names a zone that this system carries.
abbrev pub HasClock : Platform → Garage → Type 0
HasClock p g = g.unreadable ≡ none → (z : Zone) × (zone p g.timezone ≡ ok z)

-- A pass that is readable carries terms, and they are consistent.
abbrev pub HasTerms : Pass → Type 0
HasTerms pass = pass.unreadable ≡ none → (t : Terms) × (pass.terms ≡ some t) × IsConsistent t

pub record IsBuilt (p : Platform) (q : Access.Question) : Type 0 where
  pub clock : HasClock p q.garage
  pub clocks : All (HasClock p) q.garages
  pub terms : All HasTerms q.passes

check_zone-ok :
    (p : Platform) (g : Garage) → check_zone p g.unreadable g.timezone ≡ ok tt → HasClock p g
check_zone-ok p g h e =
    let (z, q, _) = >>=-eq-ok (zone p g.timezone) (λ _. ok tt) (rw e at h) in (z, q)

-- A garage that was built has a clock, or says that it is unreadable.
pub make_garage-HasClock :
    (p : Platform) (row : Garage) {g : Garage} → make_garage p row ≡ ok g → HasClock p g
unfolding make_garage
make_garage-HasClock p row h e =
    let (id, _, h1) = >>=-eq-ok (require_text row.id Field.garage_id) _ h in
    let (_, z, h2) = >>=-eq-ok (check_zone p row.unreadable row.timezone) _ h1 in
    let (_, _, h3) =
      >>=-eq-ok (refuse_enrols_at_contradiction row.transient_available row.enrols_at) _ h2 in
    ground (arith, check_zone-ok p row)

-- A pass built on terms that were built carries consistent terms.
pub make_pass-HasTerms :
    (row : Pass) (t : Terms) {pass : Pass} {t' : Terms}
    → make_terms t ≡ ok t'
    → row.terms ≡ some t'
    → make_pass row ≡ ok pass
    → HasTerms pass
unfolding make_pass
make_pass-HasTerms row t {t' = t'} mt et h e =
    let (id, _, h1) = >>=-eq-ok (require_text row.id Field.pass_id) _ h in
    let (ids, _, h2) = >>=-eq-ok (require_garage_ids row.garage_ids) _ h1 in
    let (label, _, h3) = >>=-eq-ok (require_text row.label Field.pass_label) _ h2 in
    let (_, _, h4) = >>=-eq-ok (check_readable row ids) _ h3 in
    (t', ground (arith, et, h4), (make_terms-IsConsistent t mt).1)
