-- ===== src/Garage/Defs.antt =====
-- garage.py. A text that was built has been through `require_text`; `None` is UNSTATED.
use garage_pass.Base.{
  Bool, true, false, Option, none, some, Text, codes, text_eq, any, is_empty, if◌then◌else◌,
}
use garage_pass.Findings.{Code, Field, Unreadable, as_unreadable}
use garage_pass.Result.{Result, ok, refuse, crash, raise, refuse_if, ◌>>=◌, ◌>>◌}
use garage_pass.Platform.{Platform, strip, is_control}
use garage_pass.Localday.{zone}

-- `require_text`: non-blank text with no control character, stripped.
unfoldable pub require_text : Text → Field → Result Text
require_text value field = do
  refuse_if (is_empty (strip value)) Code.field_blank field
  refuse_if (any is_control (strip value)) Code.text_has_control_characters field
  ok (strip value)

-- ENROLS_AT: 'entry' and 'exit'
pub data EnrolsAt : Type 0 where
  entry exit : EnrolsAt

abbrev pub enrols_at_text : EnrolsAt → Text
enrols_at_text EnrolsAt.entry = codes "entry"
enrols_at_text EnrolsAt.exit = codes "exit"

-- `require_enrols_at`
unfoldable pub require_enrols_at : Option Text → Result (Option EnrolsAt)
require_enrols_at none = ok none
require_enrols_at (some value) =
    if text_eq value (enrols_at_text EnrolsAt.entry)
    then ok (some EnrolsAt.entry)
    else if text_eq value (enrols_at_text EnrolsAt.exit)
    then ok (some EnrolsAt.exit)
    else raise Code.field_blank Field.garage_enrols_at

-- R1: no transient parking, and enrolment at the exit
abbrev pub contradicts : Option Bool → Option EnrolsAt → Bool
contradicts (some false) (some EnrolsAt.exit) = true
contradicts _ _ = false

-- `refuse_enrols_at_contradiction`
unfoldable pub refuse_enrols_at_contradiction : Option Bool → Option EnrolsAt → Result (Unit {0})
refuse_enrols_at_contradiction transient enrols_at =
    refuse_if (contradicts transient enrols_at) Code.enrols_at_contradicts_transient
      Field.garage_enrols_at

pub record Garage : Type 0 where
  pub id : Text
  pub timezone : Text
  pub transient_available : Option Bool
  pub enrols_at : Option EnrolsAt
  pub unreadable : Option Unreadable

-- `if self.unreadable is None: zone(self.timezone)`
abbrev pub check_zone : Platform → Option Unreadable → Text → Result (Unit {0})
check_zone p none timezone = zone p timezone >>= λ _. ok tt
check_zone p (some _) timezone = ok tt

-- `Garage.__post_init__`
unfoldable pub make_garage : Platform → Garage → Result Garage
make_garage p g = do
  id ← require_text g.id Field.garage_id
  check_zone p g.unreadable g.timezone
  refuse_enrols_at_contradiction g.transient_available g.enrols_at
  ok (record g { id = id })

-- `UnknownTimezone` is the refusal with this code, and no other refusal has it.
abbrev pub is_unknown_timezone : Code → Bool
is_unknown_timezone Code.timezone_unknown = true
is_unknown_timezone _ = false

-- `except UnknownTimezone`
abbrev pub degrade : Platform → Garage → Result Garage → Result Garage
degrade p g (ok built) = ok built
degrade p g (refuse r) =
    if is_unknown_timezone r.code
    then make_garage p (record g { unreadable = some (as_unreadable r) })
    else refuse r
degrade p g (crash c) = crash c

-- `garage_from_stored`
unfoldable pub garage_from_stored :
    Platform → Text → Text → Option Bool → Option EnrolsAt → Result Garage
unfolding make_garage
garage_from_stored p id timezone transient enrols_at =
    let row : Garage = record {
      id = id;
      timezone = timezone;
      transient_available = transient;
      enrols_at = enrols_at;
      unreadable = none;
    } in
    degrade p row (make_garage p row)
