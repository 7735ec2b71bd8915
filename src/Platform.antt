-- ===== src/Platform.antt =====
-- What the program takes from Python's library about text and clocks: the predicates of `str`
-- that it uses, written out, and what rests on tables that the machine carries (the case mapping
-- of Unicode, the tz database), a parameter.
use garage_pass.Base.{
  ℕ, ◌%◌, ◌≡◌, ◌≤◌, Bool, ◌||◌, ◌&&◌, List, [], ◌∷◌, Option, All, Text, leb, ◌==◌, if◌then◌else◌, ℤ,
}
use mathlib.Core.List.{reverse}

-- `str.isspace` of one character.
unfoldable pub is_space : ℕ → Bool
is_space c =
    (leb 9 c && leb c 13)
    || (leb 28 c && leb c 32)
    || c == 133
    || c == 160
    || c == 5760
    || (leb 8192 c && leb c 8202)
    || c == 8232
    || c == 8233
    || c == 8239
    || c == 8287
    || c == 12288

-- `unicodedata.category(c) == "Pd"`, as of Unicode 15.
unfoldable pub is_dash : ℕ → Bool
is_dash c =
    c == 0x2d
    || c == 0x58a
    || c == 0x5be
    || c == 0x1400
    || c == 0x1806
    || (leb 0x2010 c && leb c 0x2015)
    || c == 0x2e17
    || c == 0x2e1a
    || c == 0x2e3a
    || c == 0x2e3b
    || c == 0x2e40
    || c == 0x2e5d
    || c == 0x301c
    || c == 0x3030
    || c == 0x30a0
    || c == 0xfe31
    || c == 0xfe32
    || c == 0xfe58
    || c == 0xfe63
    || c == 0xff0d
    || c == 0x10ead

-- `unicodedata.category(c) == "Cc"`
unfoldable pub is_control : ℕ → Bool
is_control c = leb c 31 || (leb 127 c && leb c 159)

-- `str.lstrip`
unfoldable pub lstrip : Text → Text
lstrip [] = []
lstrip (c ∷ s) = if is_space c then lstrip s else c ∷ s

-- `str.strip`
unfoldable pub strip : Text → Text
unfolding lstrip
strip s = reverse (lstrip (reverse (lstrip s)))

-- A day is a date's proleptic Gregorian ordinal, `date.toordinal`; day 1 is a Monday.
abbrev pub Day : Type 0
Day = ℕ

-- `date.max`, the last day of the year 9999
abbrev pub max_day : Day
max_day = 3_652_059

-- `date.isoweekday`, which Python defines as `toordinal() % 7 or 7`.
unfoldable pub iso_weekday : Day → ℕ
iso_weekday day = if day % 7 == 0 then 7 else day % 7

-- An aware datetime is its instant: microseconds since the start of the year 0001, UTC.
abbrev pub Instant : Type 0
Instant = ℕ

-- A `ZoneInfo`: the wall clock that an instant is read as, in microseconds from the start of day 0.
abbrev pub Zone : Type 0
Zone = Instant → ℕ

pub record Platform : Type 0 where
  -- `str.upper` of one character, a text: Unicode's full case mapping.
  pub upper : ℕ → Text
  -- What upper case gives, upper case keeps.
  pub upper_stable : (c : ℕ) → All (λ d. upper d ≡ d ∷ []) (upper c)
  -- A digit has no case.
  pub upper_digit : (c : ℕ) → b'0' ≤ c → c ≤ b'9' → upper c ≡ c ∷ []
  -- `available_timezones()`: the names that the tz database lists, none where there is no database.
  pub tz_names : List Text
  -- `ZoneInfo` of a name, and nothing where its file cannot be opened.
  pub zone_named : Text → Option Zone
  -- `str` of a date and of a timedelta in microseconds.
  pub day_text : Day → Text
  pub duration_text : ℤ → Text
