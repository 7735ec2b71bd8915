-- ===== src/Access/Select.antt =====
-- access.py: which pass, if any. A pass answers only at the garages it names; one handed in twice
-- is never resolved by order; a registration on a pass that was not handed in is dangling.
use garage_pass.Base.{
  Bool, true, false, not, ◌&&◌, List, [], ◌∷◌, map, Option, none, some, Text, text_eq, text_leb,
  sort_by, text_in, ltb, length, filter, any, is_none, if◌then◌else◌,
}
use garage_pass.Platform.{Platform, Day, strip}
use garage_pass.Enrolment.{plate_key}
use garage_pass.Passes.{Pass, Registration, covers}
use garage_pass.Access.Defs.{Question}

-- `garage.id in p.garage_ids`
abbrev pub names_garage : Question → Pass → Bool
names_garage q pass = text_in q.garage.id pass.garage_ids

-- `copies[pid]`, in the order handed in
unfoldable pub copies_of : Question → Text → List Pass
copies_of q pid = filter (λ pass. text_eq pass.id pid) q.passes

-- `pid in duplicated`: several copies, any of them at this garage
unfoldable pub is_duplicated : Question → Text → Bool
unfolding copies_of
is_duplicated q pid = ltb 1 (length (copies_of q pid)) && any (names_garage q) (copies_of q pid)

-- the last element that passes: a dict comprehension, where the last writer of a key stays
abbrev pub find_last {ℓ} : {A : Type ℓ} → (A → Bool) → List A → Option A
find_last p [] = none
find_last p (x ∷ xs) = elim (find_last p xs) [
  | some y ↦ some y
  | none ↦ if p x then some x else none
]

-- `by_id.get(pid)`
unfoldable pub by_id : Question → Text → Option Pass
unfolding is_duplicated
by_id q pid =
    if is_duplicated q pid
    then none
    else find_last (λ pass. text_eq pass.id pid && names_garage q pass) q.passes

-- Where the loop over the registrations puts one.
pub data Place : Type 0 where
  skipped here dangling : Place

-- the vehicle of a registration, compared in the one normal form
unfoldable pub same_vehicle : Platform → Question → Registration → Bool
same_vehicle p q r =
    text_eq (plate_key p r.vehicle_identity) (plate_key p (strip q.vehicle_identity))

-- a registration whose pass is not selected: of another garage's pass, or dangling
abbrev pub place_of_unselected : Question → Day → Registration → Place
place_of_unselected q today r =
    if any (λ (pass : Pass). text_eq pass.id r.pass_id) q.passes
    then Place.skipped
    else if covers r today
    then Place.dangling
    else Place.skipped

-- the body of the loop over the registrations
unfoldable pub place : Platform → Question → Day → Registration → Place
place p q today r =
    if not (same_vehicle p q r)
    then Place.skipped
    else if is_duplicated q r.pass_id
    then Place.here
    else if is_none (by_id q r.pass_id)
    then place_of_unselected q today r
    else Place.here

abbrev pub is_here : Place → Bool
is_here Place.here = true
is_here _ = false

abbrev pub is_dangling : Place → Bool
is_dangling Place.dangling = true
is_dangling _ = false

-- `here`
unfoldable pub registrations_here : Platform → Question → Day → List Registration
registrations_here p q today = filter (λ r. is_here (place p q today r)) q.registrations

-- `dangling`
unfoldable pub registrations_dangling : Platform → Question → Day → List Registration
registrations_dangling p q today = filter (λ r. is_dangling (place p q today r)) q.registrations

-- `effective = [r for r in here if r.covers(today)]`
unfoldable pub effective : Platform → Question → Day → List Registration
unfolding registrations_here
effective p q today = filter (λ r. covers r today) (registrations_here p q today)

-- a set built from a list
abbrev pub distinct : List Text → List Text
distinct [] = []
distinct (x ∷ xs) = if text_in x xs then distinct xs else x ∷ distinct xs

-- `duplicated_named`
unfoldable pub duplicated_named : Question → List Registration → List Text
duplicated_named q rs =
    sort_by text_leb
      (distinct (filter (is_duplicated q) (map (λ (r : Registration). r.pass_id) rs)))
