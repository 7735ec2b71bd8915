-- ===== src/Localday.antt =====
-- localday.py: a calendar day is the garage's local day, and elapsed time is measured in UTC.
-- Instants are UTC readings, so `require_aware` holds by type; a naive datetime is not one.
use garage_pass.Base.{
  ℕ, ◌+◌, ◌*◌, ◌/◌, ◌%◌, ◌-◌, Option, none, some, not, Text, is_empty, text_in, if◌then◌else◌, ℤ,
  pos,
}
use garage_pass.Findings.{Code, Field}
use garage_pass.Result.{Result, Crash, ok, crash, raise}
use garage_pass.Platform.{Platform, Zone, Instant, Day, iso_weekday}

abbrev pub minute_us : ℕ
minute_us = 60_000_000

abbrev pub day_us : ℕ
day_us = 86_400_000_000

-- `raise UnknownTimezone(…)`
abbrev pub unknown_timezone : Result Zone
unknown_timezone = raise Code.timezone_unknown Field.garage_timezone

-- the file of a name that the database lists
abbrev pub opened : Option Zone → Result Zone
opened none = unknown_timezone
opened (some z) = ok z

-- `zone`: the garage's zone, or a refusal. The empty name is refused before the database is asked,
-- and a machine without a database is an error of its own, no refusal of the name.
unfoldable pub zone : Platform → Text → Result Zone
zone p name =
    if is_empty name
    then unknown_timezone
    else if is_empty p.tz_names
    then crash Crash.timezone_database_unavailable
    else if not (text_in name p.tz_names)
    then unknown_timezone
    else opened (p.zone_named name)

-- `local`: the instant as the garage's wall clock reads it.
abbrev pub local : Instant → Zone → ℕ
local moment tz = tz moment

-- `day_of`
unfoldable pub day_of : Instant → Zone → Day
day_of moment tz = local moment tz / day_us

-- `minute_of_day`: hour * 60 + minute of the wall clock.
unfoldable pub minute_of_day : Instant → Zone → ℕ
minute_of_day moment tz =
    (local moment tz % day_us) / (60 * minute_us) * 60
    + (local moment tz % (60 * minute_us)) / minute_us

-- `iso_weekday_of`
unfoldable pub iso_weekday_of : Instant → Zone → ℕ
unfolding iso_weekday day_of
iso_weekday_of moment tz = iso_weekday (day_of moment tz)

-- `elapsed`: the difference of the two UTC readings. Its caller asks only when `start ≤ end`.
unfoldable pub elapsed : Instant → Instant → ℤ
elapsed start end = pos (end - start)
