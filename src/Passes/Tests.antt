-- ===== src/Passes/Tests.antt =====
-- The sample pass through its constructor.
use garage_pass.Base.{◌≡◌, refl, ◌↔◌, List, [], ◌∷◌, some, In, All, codes}
use garage_pass.Result.{ok}
use garage_pass.Platform.{strip, lstrip, is_space, is_control}
use garage_pass.Garage.{require_text}
use garage_pass.Terms.{Terms, GarageLanes}
use garage_pass.Passes.Defs.{
  make_pass, require_garage_ids, refuse_lanes_off_the_pass, stated_garages,
}
use garage_pass.Passes.Build.{IsWhole, make_pass-IsWhole, refuse_lanes_off_the_pass_iff}
use garage_pass.Sample.{pass, terms}

made : make_pass pass ≡ ok pass
unfolding make_pass require_text require_garage_ids refuse_lanes_off_the_pass strip lstrip is_space
    is_control
made = refl

make_pass-IsWhole_example : IsWhole pass
make_pass-IsWhole_example = make_pass-IsWhole pass {pass = pass} made

-- The sample terms with a lane at the one garage.
abbrev north_only : Terms
north_only = record terms {
  allowed_lanes = some (record { garage_id = codes "g1"; lanes = codes "north" ∷ [] } ∷ []);
}

refuse_lanes_off_the_pass_iff_example :
    (refuse_lanes_off_the_pass (codes "g1" ∷ []) north_only ≡ ok tt) ↔ (
      (es : List GarageLanes)
      → north_only.allowed_lanes ≡ some es
      → All (λ g. In g (codes "g1" ∷ [])) (stated_garages es)
        × All (λ g. In g (stated_garages es)) (codes "g1" ∷ []))
refuse_lanes_off_the_pass_iff_example = refuse_lanes_off_the_pass_iff (codes "g1" ∷ []) north_only
