-- ===== src/Enrolment/Defs.antt =====
-- enrolment.py. Minting and hashing a token (`mint`, `digest`, `register_hash`) draw on the
-- operating system and on SHA-256 and are not modelled.
use garage_pass.Base.{
  ℕ, suc, ◌+◌, ◌-◌, Bool, true, false, not, ◌&&◌, ◌||◌, [], ◌∷◌, ◌++◌, map, Option, none, some,
  Text, codes, text_eq, leb, ltb, ◌==◌, length, filter, is_empty, if◌then◌else◌, ℤ, pos, negsuc,
}
use garage_pass.Findings.{Code, Field}
use garage_pass.Result.{Result, Crash, ok, crash, raise, ◌>>=◌}
use garage_pass.Platform.{Platform, Day, Instant, max_day, is_space, is_dash}
use garage_pass.Garage.{Garage, EnrolsAt, require_text}

-- PAYLOAD_PREFIX
abbrev pub payload_prefix : Text
payload_prefix = codes "openparking-garage-pass/1/"

-- `payload_of`
unfoldable pub payload_of : Text → Text
payload_of token = payload_prefix ++ token

-- `text.removeprefix`: the rest behind a prefix, if the text begins with it.
abbrev pub behind : Text → Text → Option Text
behind [] text = some text
behind (c ∷ prefix) [] = none
behind (c ∷ prefix) (d ∷ text) = let rest = behind prefix text in if c == d then rest else none

-- `token_of`
unfoldable pub token_of : Text → Result Text
token_of presented = require_text presented Field.token >>= λ text.
    elim (behind payload_prefix text) [ none ↦ ok text | some rest ↦ ok rest ]

-- _PLATE_SEPARATORS
abbrev pub is_separator : ℕ → Bool
is_separator c =
    c == b'.' || c == 0x2212 || c == 0x200b || c == 0x200c || c == 0x200d || c == 0xfeff

-- `_not_part_of_a_plate`
unfoldable pub not_part_of_a_plate : ℕ → Bool
unfolding is_space is_dash
not_part_of_a_plate c = is_space c || is_separator c || is_dash c

-- `text.upper()`
unfoldable pub upper_text : Platform → Text → Text
upper_text p [] = []
upper_text p (c ∷ s) = p.upper c ++ upper_text p s

-- `_unseparated`
unfoldable pub unseparated : Platform → Text → Text
unfolding upper_text
unseparated p text = filter (λ c. not (not_part_of_a_plate c)) (upper_text p text)

-- _READ_AS_DIGITS
unfoldable pub read_as_digit : ℕ → ℕ
read_as_digit c = if c == b'O' then b'0' else if c == b'I' then b'1' else c

-- `plate_key`: the one normal form that a plate is compared in.
unfoldable pub plate_key : Platform → Text → Text
plate_key p text = map read_as_digit (unseparated p text)

-- LOOK_ALIKE_GROUPS, each group read as its first character
unfoldable pub look_alike : ℕ → ℕ
look_alike c =
    if c == b'O' || c == b'Q' || c == b'D'
    then b'0'
    else if c == b'I' || c == b'L'
    then b'1'
    else if c == b'B'
    then b'8'
    else if c == b'S'
    then b'5'
    else if c == b'Z'
    then b'2'
    else if c == b'G'
    then b'6'
    else c

-- ONE_DIFFERENCE_MIN_LENGTH
abbrev pub one_difference_min_length : ℕ
one_difference_min_length = 5

-- `look_alike_key`
unfoldable pub look_alike_key : Platform → Text → Text
look_alike_key p text = map look_alike (plate_key p text)

-- `sum(x != y for x, y in zip(a, b))`
unfoldable pub differences : Text → Text → ℕ
differences [] b = 0
differences (x ∷ a) [] = 0
differences (x ∷ a) (y ∷ b) = let rest = differences a b in if x == y then rest else suc rest

-- the loop over the shorter text: at the first difference the rests must agree
unfoldable pub one_insertion : Text → Text → Bool
one_insertion [] longer = true
one_insertion (x ∷ shorter) [] = false
one_insertion (x ∷ shorter) (y ∷ longer) =
    let rest = one_insertion shorter longer in if x == y then rest else text_eq (x ∷ shorter) longer

-- `within_one_difference`
unfoldable pub within_one_difference : Text → Text → Bool
within_one_difference a b =
    if ltb (length a + 1) (length b) || ltb (length b + 1) (length a)
    then false
    else if length a == length b
    then leb (differences a b) 1
    else if ltb (length a) (length b)
    then one_insertion a b
    else one_insertion b a

-- PASSED_*
pub data Passed : Type 0 where
  same_plate look_alike_plate one_difference nothing_read : Passed

-- RECORDED_PASSES
unfoldable pub is_recorded : Passed → Bool
is_recorded Passed.one_difference = true
is_recorded Passed.nothing_read = true
is_recorded _ = false

abbrev pub is_nothing : Platform → Option Text → Bool
is_nothing p none = true
is_nothing p (some read) = is_empty (plate_key p read)

-- the tests of `similar_enough` on a read that holds something
unfoldable pub similar_read : Platform → Text → Text → Option Passed
similar_read p read plate =
    let seen = look_alike_key p read in
    let made_for = look_alike_key p plate in
    if text_eq (plate_key p read) (plate_key p plate)
    then some Passed.same_plate
    else if text_eq seen made_for
    then some Passed.look_alike_plate
    else if leb one_difference_min_length (length made_for) && within_one_difference seen made_for
    then some Passed.one_difference
    else none

-- `similar_enough`
unfoldable pub similar_enough : Platform → Option Text → Text → Option Passed
similar_enough p none plate = some Passed.nothing_read
similar_enough p (some read) plate =
    if is_empty (plate_key p read) then some Passed.nothing_read else similar_read p read plate

-- The states somebody types, of an enrolment and of a holder link.
pub data CredentialState : Type 0 where
  issued redeemed cancelled : CredentialState

abbrev pub credential_value : CredentialState → Text
credential_value CredentialState.issued = codes "issued"
credential_value CredentialState.redeemed = codes "redeemed"
credential_value CredentialState.cancelled = codes "cancelled"

-- EXPIRED_CREDENTIAL
abbrev pub expired_credential : Text
expired_credential = codes "expired"

-- `parse_credential_state`
unfoldable pub parse_credential_state : Text → Result CredentialState
parse_credential_state name =
    if text_eq name expired_credential
    then raise Code.enrolment_expired_is_derived Field.state
    else if text_eq name (credential_value CredentialState.issued)
    then ok CredentialState.issued
    else if text_eq name (credential_value CredentialState.redeemed)
    then ok CredentialState.redeemed
    else if text_eq name (credential_value CredentialState.cancelled)
    then ok CredentialState.cancelled
    else raise Code.state_unknown Field.state

-- `require_days_valid`, of a whole number or nothing
unfoldable pub require_days_valid : Option ℤ → Result ℕ
require_days_valid none = raise Code.days_valid_not_stated Field.days_valid
require_days_valid (some (negsuc n)) = raise Code.days_valid_not_positive Field.days_valid
require_days_valid (some (pos n)) =
    if n == 0 then raise Code.days_valid_not_positive Field.days_valid else ok n

-- `last_day`: a day before the first date or past the last one is an `OverflowError`
unfoldable pub last_day : Day → ℕ → Result Day
last_day starts_on days_valid =
    if leb 1 (starts_on + days_valid - 1) && leb (starts_on + days_valid - 1) max_day
    then ok (starts_on + days_valid - 1)
    else crash Crash.overflow_error

-- What a redemption reads: a typed state, or the derived one.
pub data CredentialReading : Type 0 where
  typed : CredentialState → CredentialReading
  expired : CredentialReading

-- `credential_state`: the terminal states outrank expiry.
unfoldable pub credential_state : Day → ℕ → CredentialState → Day → Result CredentialReading
credential_state starts_on days_valid CredentialState.redeemed today =
    ok (typed CredentialState.redeemed)
credential_state starts_on days_valid CredentialState.cancelled today =
    ok (typed CredentialState.cancelled)
credential_state starts_on days_valid CredentialState.issued today =
    last_day starts_on days_valid >>= λ last.
    ok (if ltb last today then expired else typed CredentialState.issued)

-- where a garage that sells transient parking enrols: what it states
abbrev pub stated_end : Option EnrolsAt → Result EnrolsAt
stated_end none = raise Code.where_to_enrol_unstated Field.garage_enrols_at
stated_end (some at_end) = ok at_end

-- `where_enrolment_happens`, by what the garage has stated
abbrev pub enrolment_end : Option Bool → Option EnrolsAt → Result EnrolsAt
enrolment_end none at_end = raise Code.where_to_enrol_unstated Field.garage_transient_available
enrolment_end (some false) at_end = ok EnrolsAt.entry
enrolment_end (some true) at_end = stated_end at_end

-- `where_enrolment_happens`
unfoldable pub where_enrolment_happens : Garage → Result EnrolsAt
where_enrolment_happens g = enrolment_end g.transient_available g.enrols_at

-- `Credential`: an enrolment or a holder link as the store reads it.
pub record Credential : Type 0 where
  pub kind : Text
  pub id : Text
  pub pass_id : Text
  pub starts_on : Day
  pub days_valid : ℕ
  pub state : CredentialState
  pub issued_by : Text
  pub issued_at : Instant
  pub vehicle_description : Option Text
  pub redeemed_at : Option Instant
  pub cancelled_at : Option Instant
  pub cancelled_reason : Option Text
  pub bound_identity : Option Text
  pub exit_only_at : Option Instant
  pub plate : Option Text

-- `Credential.bound`: the plate from issue, or else the identity bound at first use.
unfoldable pub bound : Credential → Option Text
bound c = elim c.plate [ some plate ↦ some plate | none ↦ c.bound_identity ]

-- `Credential.state_on`
unfoldable pub state_on : Credential → Day → Result CredentialReading
state_on c today = credential_state c.starts_on c.days_valid c.state today
