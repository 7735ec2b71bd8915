-- ===== src/Store/Creation.antt =====
-- A pass with a longest stay of a minute and a half is created.
use garage_pass.Base.{sort_by, ◌≡◌, refl, [], ◌∷◌, some, pos, codes, text_eq, text_in}
use garage_pass.Result.{ok}
use garage_pass.Platform.{strip, lstrip, is_space, is_control}
use garage_pass.Localday.{zone, minute_us}
use garage_pass.Garage.{
  require_text, make_garage, garage_from_stored, refuse_enrols_at_contradiction,
}
use garage_pass.Terms.{Terms, check_terms, check_windows, check_window, days_meet, days_that_occur}
use garage_pass.Passes.{
  State, Pass, make_holder, make_pass, require_garage_ids, refuse_lanes_off_the_pass,
}
use garage_pass.Store.Rows.{Db}
use garage_pass.Store.Load.{load_garage, load_readable_garage}
use garage_pass.Store.Create.{pass_row, creation, create_pass}
use garage_pass.Store.Created.{readable_pass, rounded}
use garage_pass.Store.CreatedLoads.{Creates, create_pass-loads}
use garage_pass.Store.Example.{db}
use garage_pass.Sample.{platform, holder, terms}

abbrev short_terms : Terms
short_terms = record terms { max_stay = some (pos 90000000) }

abbrev p3 : Pass
p3 = readable_pass (codes "p3") (codes "g1" ∷ []) (codes "short") holder short_terms State.active

abbrev stored : Db
stored = record db {
  passes = pass_row p3 short_terms holder ∷ db.passes;
  state_changes = creation p3 (codes "ann") 0 ∷ db.state_changes;
}

creates : create_pass platform db (codes "g1") p3 (codes "ann ") 0 ≡ ok stored
unfolding create_pass sort_by load_readable_garage load_garage garage_from_stored make_garage
    require_text zone text_eq text_in strip lstrip is_space is_control
    refuse_enrols_at_contradiction
creates = refl

held : make_holder holder ≡ ok holder
unfolding make_holder require_text strip lstrip is_space is_control
held = refl

short_checked : check_terms short_terms ≡ ok tt
unfolding check_terms check_windows check_window days_meet days_that_occur
short_checked = refl

whole : make_pass p3 ≡ ok p3
unfolding make_pass require_garage_ids refuse_lanes_off_the_pass require_text text_eq text_in strip
    lstrip is_space is_control
whole = refl

create_pass-loads_example :
    Creates db stored
      (readable_pass
        (codes "p3")
        (codes "g1" ∷ [])
        (codes "short")
        holder
        (rounded short_terms)
        State.active)
      (codes "ann ")
      0
create_pass-loads_example =
    create_pass-loads platform db {after = stored} (codes "g1") (codes "p3") (codes "g1" ∷ [])
      (codes "short") holder short_terms State.active (codes "ann ") 0 refl held short_checked whole
      creates

-- The longest stay comes back as one minute.
a_minute : (rounded short_terms).max_stay ≡ some (pos minute_us)
a_minute = refl
