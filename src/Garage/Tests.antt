-- ===== src/Garage/Tests.antt =====
-- A stored garage whose zone the machine does not carry.
use garage_pass.Base.{◌≡◌, refl, ◌≢◌, ◌↔◌, ◌⊎◌, [], true, none, some, codes}
use garage_pass.Findings.{Field}
use garage_pass.Result.{Crash, ok, crash}
use garage_pass.Platform.{Zone, strip, lstrip, is_space, is_control}
use garage_pass.Localday.{zone}
use garage_pass.Garage.Defs.{Garage, EnrolsAt, require_text, make_garage, garage_from_stored}
use garage_pass.Garage.Laws.{IsJudged, garage_from_stored-loads}
use garage_pass.Sample.{platform}

id_is_text : require_text (codes " g1 ") Field.garage_id ≡ ok (codes "g1")
unfolding require_text strip lstrip is_space is_control
id_is_text = refl

garage_from_stored-loads_example :
    (IsJudged platform (codes "Mars/Olympus")
      × (g : Garage) × (garage_from_stored platform
            (codes " g1 ")
            (codes "Mars/Olympus")
            (some true)
            (some EnrolsAt.exit)
          ≡ ok g)
      × (g.id ≡ codes "g1")
      × (g.timezone ≡ codes "Mars/Olympus")
      × (g.transient_available ≡ some true)
      × (g.enrols_at ≡ some EnrolsAt.exit)
      × ((g.unreadable ≡ none) ↔ ((z : Zone) × (zone platform (codes "Mars/Olympus") ≡ ok z))))
    ⊎ ((codes "Mars/Olympus" ≢ [])
        × (platform.tz_names ≡ [])
        × (garage_from_stored platform
              (codes " g1 ")
              (codes "Mars/Olympus")
              (some true)
              (some EnrolsAt.exit)
            ≡ crash Crash.timezone_database_unavailable))
garage_from_stored-loads_example =
    garage_from_stored-loads platform (codes " g1 ") (codes "Mars/Olympus") (some true)
      (some EnrolsAt.exit) {i = codes "g1"} id_is_text refl

-- A machine without a zone database says so, and no garage is degraded for it.
no_database :
    garage_from_stored
      (record platform { tz_names = [] })
      (codes "g1")
      (codes "UTC")
      (some true)
      none
    ≡ crash Crash.timezone_database_unavailable
unfolding garage_from_stored zone require_text strip lstrip is_space is_control make_garage
no_database = refl
