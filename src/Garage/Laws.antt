-- ===== src/Garage/Laws.antt =====
-- What a garage that was loaded from a stored row is.
use garage_pass.Base.{
  ◌≡◌, refl, ◌≢◌, ◌↔◌, ◌⊎◌, inl, inr, Bool, true, false, List, [], ◌∷◌, Option, none, some, Text,
  text_in, not, if◌then◌else◌,
}
use garage_pass.Findings.{Code, Field, as_unreadable}
use garage_pass.Result.{Crash, raise, ok, crash}
use garage_pass.Platform.{Platform, Zone}
use garage_pass.Localday.{zone, unknown_timezone, opened}
use garage_pass.Garage.Defs.{
  Garage, EnrolsAt, require_text, contradicts, garage_from_stored, refuse_enrols_at_contradiction,
}

-- The name can be judged: it is empty, or the machine carries a database.
abbrev pub IsJudged : Platform → Text → Type 0
IsJudged p name = (name ≡ []) ⊎ (p.tz_names ≢ [])

pub zone-cases :
    (p : Platform) (name : Text)
    → (IsJudged p name
        × (((z : Zone) × (zone p name ≡ ok z))
            ⊎ (zone p name ≡ raise Code.timezone_unknown Field.garage_timezone)))
      ⊎ ((name ≢ [])
          × (p.tz_names ≡ [])
          × (zone p name ≡ crash Crash.timezone_database_unavailable))
unfolding zone
zone-cases p [] = inl (inl refl, inr refl)
zone-cases p (c ∷ name) = by_names p.tz_names refl
  where
    file : (o : Option Zone) → ((z : Zone) × (opened o ≡ ok z)) ⊎ (opened o ≡ unknown_timezone)
    file none = inr refl
    file (some z) = inl (z, refl)

    asked :
        (b : Bool)
        → ((z : Zone) × ((if not b then unknown_timezone else opened (p.zone_named (c ∷ name)))
              ≡ ok z))
          ⊎ ((if not b then unknown_timezone else opened (p.zone_named (c ∷ name)))
              ≡ raise Code.timezone_unknown Field.garage_timezone)
    asked true = file (p.zone_named (c ∷ name))
    asked false = inr refl

    by_names :
        (names : List Text)
        → p.tz_names ≡ names
        → (IsJudged p (c ∷ name)
            × (((z : Zone) × (zone p (c ∷ name) ≡ ok z))
                ⊎ (zone p (c ∷ name) ≡ raise Code.timezone_unknown Field.garage_timezone)))
          ⊎ (((c ∷ name) ≢ [])
              × (p.tz_names ≡ [])
              × (zone p (c ∷ name) ≡ crash Crash.timezone_database_unavailable))
    by_names [] e = inr (λ n. cc, e, rw (e, zone) refl)
    by_names (n ∷ names) e =
        inl (inr (λ h. cc), rw (e, zone) (asked (text_in (c ∷ name) (n ∷ names))))

-- A stored row whose zone is listed loads readable.
pub garage_from_stored-readable :
    (p : Platform) (id timezone : Text) (transient : Option Bool) (enrols_at : Option EnrolsAt)
    {i : Text} {z : Zone}
    → require_text id Field.garage_id ≡ ok i
    → contradicts transient enrols_at ≡ false
    → zone p timezone ≡ ok z
    → garage_from_stored p id timezone transient enrols_at
      ≡ ok (record {
        id = i;
        timezone = timezone;
        transient_available = transient;
        enrols_at = enrols_at;
        unreadable = none;
      })
unfolding garage_from_stored refuse_enrols_at_contradiction
garage_from_stored-readable p id timezone transient enrols_at h n e =
    rw (h, garage_from_stored) (rw e (rw n refl))

-- A stored row whose id is text and whose fields do not contradict each other loads with what is
-- stored, whatever the name of its zone, where that name is empty or the machine carries a zone
-- database: readable exactly when the name gives a zone. Where the machine carries none and the name
-- is not empty, the load raises the error of the machine, and no unreadable garage hides it.
pub garage_from_stored-loads :
    (p : Platform) (id timezone : Text) (transient : Option Bool) (enrols_at : Option EnrolsAt)
    {i : Text}
    → require_text id Field.garage_id ≡ ok i
    → contradicts transient enrols_at ≡ false
    → (IsJudged p timezone
        × (g : Garage) × (garage_from_stored p id timezone transient enrols_at ≡ ok g)
        × (g.id ≡ i)
        × (g.timezone ≡ timezone)
        × (g.transient_available ≡ transient)
        × (g.enrols_at ≡ enrols_at)
        × ((g.unreadable ≡ none) ↔ ((z : Zone) × (zone p timezone ≡ ok z))))
      ⊎ ((timezone ≢ [])
          × (p.tz_names ≡ [])
          × (garage_from_stored p id timezone transient enrols_at
              ≡ crash Crash.timezone_database_unavailable))
unfolding garage_from_stored refuse_enrols_at_contradiction as_unreadable
garage_from_stored-loads p id timezone transient enrols_at {i = i} h n =
    elim (zone-cases p timezone) [
      | inl (j, inl (z, e)) ↦ inl (
        j,
        record {
          id = i;
          timezone = timezone;
          transient_available = transient;
          enrols_at = enrols_at;
          unreadable = none;
        },
        garage_from_stored-readable p id timezone transient enrols_at h n e,
        refl,
        refl,
        refl,
        refl,
        (λ _. (z, e), λ _. refl),
      )
      | inl (j, inr e) ↦ inl (
        j,
        record {
          id = i;
          timezone = timezone;
          transient_available = transient;
          enrols_at = enrols_at;
          unreadable =
              some (record { field = Field.garage_timezone; code = Code.timezone_unknown });
        },
        rw (h, garage_from_stored) (rw e (rw h (rw n refl))),
        refl,
        refl,
        refl,
        refl,
        (λ c. cc, λ (z, k). cc),
      )
      | inr (named, empty, e) ↦ inr (named, empty, rw (h, garage_from_stored) (rw e refl))
    ]
