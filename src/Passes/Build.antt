-- ===== src/Passes/Build.antt =====
-- What a pass that was built is.
use garage_pass.Base.{
  ◌≡◌, refl, subst, ◌∷◌, ◌≢◌, ◌↔◌, List, [], Option, none, some, Text, In, All, arith, all_iff,
  text_in, text_in_iff,
}
use garage_pass.Findings.{Field}
use garage_pass.Result.{ok, >>=-eq-ok, map_all}
use garage_pass.Garage.{require_text}
use garage_pass.Terms.{Terms, GarageLanes}
use garage_pass.Passes.Defs.{
  Pass, require_garage_ids, refuse_lanes_off_the_pass, stated_garages, make_pass, check_readable,
}

same_garages_iff :
    (ids : List Text) (t : Terms) (es : List GarageLanes)
    → t.allowed_lanes ≡ some es
    → (refuse_lanes_off_the_pass ids t ≡ ok tt)
      ↔ (All (λ g. In g ids) (stated_garages es) × All (λ g. In g (stated_garages es)) ids)
unfolding refuse_lanes_off_the_pass
same_garages_iff ids t es e = ground (
  arith,
  e,
  all_iff (λ g. text_in g ids) (λ g. In g ids) (λ g. text_in_iff g ids) (stated_garages es),
  all_iff (λ g. text_in g (stated_garages es)) (λ g. In g (stated_garages es))
      (λ g. text_in_iff g (stated_garages es)) ids,
)

-- The lanes pass the check exactly when they are stated nowhere, or at the pass's garages and
-- nowhere else.
pub refuse_lanes_off_the_pass_iff :
    (ids : List Text) (t : Terms)
    → (refuse_lanes_off_the_pass ids t ≡ ok tt) ↔ (
        (es : List GarageLanes)
        → t.allowed_lanes ≡ some es
        → All (λ g. In g ids) (stated_garages es) × All (λ g. In g (stated_garages es)) ids)
unfolding refuse_lanes_off_the_pass
refuse_lanes_off_the_pass_iff ids t = lanes t.allowed_lanes refl
  where
    lanes :
        (ls : Option (List GarageLanes))
        → t.allowed_lanes ≡ ls
        → (refuse_lanes_off_the_pass ids t ≡ ok tt) ↔ (
            (es : List GarageLanes)
            → t.allowed_lanes ≡ some es
            → All (λ g. In g ids) (stated_garages es) × All (λ g. In g (stated_garages es)) ids)
    lanes none e = (λ _ es k. cc, λ _. ground (arith, e))
    lanes (some ls) e = (
      λ h es k.
          let same : ls ≡ es = ground (arith, e, k) in
          rw same at ((same_garages_iff ids t ls e).0 h),
      λ h. (same_garages_iff ids t ls e).1 (h ls e),
    )

require_garage_ids-some :
    (ids : List Text) {built : List Text} → require_garage_ids ids ≡ ok built → built ≢ []
unfolding require_garage_ids
require_garage_ids-some [] h e = cc
require_garage_ids-some (x ∷ xs) {built = built} h e =
    let (y, _, h1) = >>=-eq-ok (require_text x Field.pass_garage_ids) _ h in
    let (ys, _, h2) =
      >>=-eq-ok (map_all (λ id. require_text id Field.pass_garage_ids) xs) (λ ys. ok (y ∷ ys)) h1 in
    cc

-- The lanes are stated nowhere, or at every garage of the pass and at no other.
abbrev pub HasLanesAt : List Text → Terms → Type 0
HasLanesAt ids t =
    (es : List GarageLanes)
    → t.allowed_lanes ≡ some es
    → All (λ g. In g ids) (stated_garages es) × All (λ g. In g (stated_garages es)) ids

-- A pass that says what it is: it names a garage, and if it is readable it has a holder and terms.
pub record IsWhole (pass : Pass) : Type 0 where
  pub somewhere : pass.garage_ids ≢ []
  pub held : pass.unreadable ≡ none → pass.holder ≢ none
  pub stated :
      pass.unreadable ≡ none → (t : Terms) × (pass.terms ≡ some t) × HasLanesAt pass.garage_ids t

check_readable-ok :
    (row : Pass) (ids : List Text)
    → check_readable row ids ≡ ok tt
    → row.unreadable ≡ none
    → (row.holder ≢ none)
      × ((t : Terms) × (row.terms ≡ some t) × (refuse_lanes_off_the_pass ids t ≡ ok tt))
check_readable-ok row ids h e = ground (arith, h, e)

-- A pass that was built names a garage, and if it is readable it has a holder and terms, whose
-- lanes are stated nowhere, or at every garage of the pass and at no other.
pub make_pass-IsWhole : (row : Pass) {pass : Pass} → make_pass row ≡ ok pass → IsWhole pass
unfolding make_pass
make_pass-IsWhole row {pass = pass} h =
    let (id, _, h1) = >>=-eq-ok (require_text row.id Field.pass_id) _ h in
    let (ids, g, h2) = >>=-eq-ok (require_garage_ids row.garage_ids) _ h1 in
    let (label, _, h3) = >>=-eq-ok (require_text row.label Field.pass_label) _ h2 in
    let (_, k, h4) = >>=-eq-ok (check_readable row ids) _ h3 in
    let built : Pass = record row { id = id; garage_ids = ids; label = label } in
    let whole : IsWhole built = record {
      somewhere = require_garage_ids-some row.garage_ids g;
      held = λ e. (check_readable-ok row ids k e).0;
      stated = λ e.
          let (t, same, lanes) = (check_readable-ok row ids k e).1 in
          (t, same, (refuse_lanes_off_the_pass_iff ids t).0 lanes);
    } in
    let same : built ≡ pass = cc in subst (λ (x : Pass). IsWhole x) same whole
