-- ===== src/Access/Engine.antt =====
-- access.py: the whole answer.
use garage_pass.Base.{
  ◌+◌, Bool, true, false, not, ◌&&◌, ◌||◌, List, [], ◌∷◌, ◌++◌, map, Option, none, some, Text,
  text_eq, text_leb, ltb, ◌==◌, length, filter, find, is_empty, is_none, is_some, sort_by,
  if◌then◌else◌,
}
use garage_pass.Findings.{Reason, Missing, Unreadable, Means}
use garage_pass.Result.{Result, Crash, ok, crash, ◌>>=◌, or_crash, map_all}
use garage_pass.Platform.{Platform, Day, Zone, strip}
use garage_pass.Localday.{zone, day_of}
use garage_pass.Terms.{Terms, Direction}
use garage_pass.Terms.Describe.{describe}
use garage_pass.Passes.{Pass, Registration}
use garage_pass.States.{state_value}
use garage_pass.Access.Defs.{
  Question, Answer, Outcome, Inconsistency, is_exit, answer_refused, answer_not_covered,
}
use garage_pass.Access.Select.{
  copies_of, is_duplicated, by_id, registrations_here, registrations_dangling, effective,
  duplicated_named,
}
use garage_pass.Access.Evaluate.{Movement, evaluate, is_revoked}

-- `pass_.terms.describe() if pass_.terms is not None else ""`
abbrev pub described : Platform → Option Terms → Text
described p none = []
described p (some t) = describe p t

abbrev pub false_first : Bool → Bool → Bool → Bool
false_first false true rest = true
false_first true false rest = false
false_first _ _ rest = rest

abbrev pub text_first : Text → Text → Bool → Bool
text_first a b rest = if text_eq a b then rest else text_leb a b

-- `_copy_order`: the order of the key's tuples
unfoldable pub copy_order : Platform → Pass → Pass → Bool
unfolding describe
copy_order p a b = text_first (state_value a.state) (state_value b.state) (
    false_first (is_some a.unreadable) (is_some b.unreadable)
      (text_first (described p a.terms) (described p b.terms) (text_leb a.label b.label)))

-- the passes that a registration in force brings to an exit: every copy, or the one pass
unfoldable pub candidates_of : Platform → Question → Registration → Result (List Pass)
unfolding copy_order
candidates_of p q r =
    if is_duplicated q r.pass_id
    then ok (sort_by (copy_order p) (copies_of q r.pass_id))
    else or_crash (by_id q r.pass_id) Crash.key_error >>= λ pass. ok (pass ∷ [])

-- the loop that extends `candidates`
unfoldable pub candidates : Platform → Question → List Registration → Result (List Pass)
candidates p q [] = ok []
candidates p q (r ∷ rs) =
    candidates_of p q r >>= λ ps. candidates p q rs >>= λ rest. ok (ps ++ rest)

abbrev pub by_pass_id : Registration → Registration → Bool
by_pass_id r s = text_leb r.pass_id s.pass_id

abbrev pub pass_ids : List Registration → List Text
pass_ids rs = map (λ (r : Registration). r.pass_id) rs

-- `parts`: what the sentence behind INCONSISTENT names
unfoldable pub inconsistencies :
    Question → List Registration → List Registration → List Text → List Inconsistency
inconsistencies q inforce hanging twice =
    (if ltb 1 (length inforce + length hanging)
      then Inconsistency.many_passes (sort_by text_leb (pass_ids (inforce ++ hanging)))
          (sort_by text_leb (pass_ids hanging))
        ∷ []
      else [])
    ++ map (λ pid. Inconsistency.handed_in_twice pid (length (copies_of q pid))) twice

abbrev pub is_covered : Answer → Bool
is_covered a = elim a.outcome [ Outcome.covered ↦ true | _ ↦ false ]

-- `replace(answer, detail=answer.detail + inconsistency)`
abbrev pub note : List Inconsistency → Answer → Answer
note parts a = record a { inconsistent = parts }

abbrev pub first_answer : List Answer → Option Answer
first_answer [] = none
first_answer (a ∷ _) = some a

-- the only inconsistency is one pass handed in twice
abbrev pub only_twice : List Registration → List Registration → List Text → Bool
only_twice inforce hanging twice = not (is_empty twice) && length inforce == 1 && is_empty hanging

-- the exit's answer from the answers of every candidate
unfoldable pub settle :
    Question → List Registration → List Registration → List Text → List Answer → Result Answer
settle q inforce hanging twice answers =
    let parts = inconsistencies q inforce hanging twice in
    elim (find is_covered answers) [
      | some a ↦ ok (note parts a)
      | none ↦
          if only_twice inforce hanging twice
          then ok (note parts (answer_not_covered q Reason.pass_duplicated none))
          else or_crash (first_answer answers) Crash.index_error >>= λ a. ok (note parts a)
    ]

-- more than one pass holds the vehicle, or one was handed in twice, or one not at all
unfoldable pub answer_several : Platform → Movement → List Registration → List Text → Result Answer
unfolding candidates settle
answer_several p m hanging twice =
    if is_exit m.question.direction
    then (candidates p m.question (sort_by by_pass_id m.effective) >>= λ ps.
        map_all (evaluate p m) ps >>= settle m.question m.effective hanging twice)
    else ok (answer_refused m.question Missing.one_pass none)

-- `evaluate(by_id[effective[0].pass_id])`
abbrev pub answer_one : Platform → Movement → Registration → Result Answer
answer_one p m r = or_crash (by_id m.question r.pass_id) Crash.key_error >>= evaluate p m

abbrev pub answer_in_force :
    Platform → Movement → List Registration → List Text → List Registration → Result Answer
answer_in_force p m [] [] (r ∷ []) = answer_one p m r
answer_in_force p m hanging twice rs = answer_several p m hanging twice

abbrev pub end_or : Day → Option Day → Day
end_or today none = today
end_or today (some end) = end

-- `(r.end_day or today, r.effective_day)`, compared as a tuple: whether `r` comes before `s`
abbrev pub nearer : Day → Registration → Registration → Bool
nearer today r s =
    ltb (end_or today r.end_day) (end_or today s.end_day)
    || (end_or today r.end_day == end_or today s.end_day && ltb r.effective_day s.effective_day)

-- `max(revoked, key=…)`: the first of the greatest
unfoldable pub nearest : Day → Registration → List Registration → Registration
nearest today best [] = best
nearest today best (r ∷ rs) = nearest today (if nearer today best r then r else best) rs

-- the registration is on a selected pass that is revoked
abbrev pub on_revoked : Question → Registration → Bool
on_revoked q r = elim (by_id q r.pass_id) [ none ↦ false | some pass ↦ is_revoked pass.state ]

-- no registration in force: the pass that was revoked is named, any other is no pass
unfoldable pub answer_no_registration : Question → Day → List Registration → Result Answer
unfolding nearest
answer_no_registration q today rs = elim (filter (on_revoked q) rs) [
  | [] ↦ ok (answer_not_covered q Reason.no_pass none)
  | r ∷ more ↦ or_crash (by_id q (nearest today r more).pass_id) Crash.key_error >>= λ pass.
      ok (answer_not_covered q Reason.revoked (some pass))
]

-- a registration names a pass that was not handed in, and nothing else is in force: an exit
abbrev pub answer_dangling : Question → List Registration → Result Answer
answer_dangling q [] = crash Crash.index_error
answer_dangling q (r ∷ _) = ok (
    note (Inconsistency.pass_not_handed_in r.pass_id ∷ [])
      (answer_not_covered q Reason.pass_not_handed_in none))

-- the choice among the registrations
unfoldable pub answer_selected :
    Platform → Question → Zone → Day → List Registration → List Registration → Result Answer
unfolding answer_several
answer_selected p q tz today hanging inforce =
    let twice = duplicated_named q inforce in
    if not (is_empty hanging) && not (is_exit q.direction)
    then ok (answer_refused q Missing.pass_handed_in none)
    else if not (is_empty twice) && not (is_exit q.direction)
    then ok (answer_refused q Missing.duplicated_pass_id none)
    else if not (is_empty hanging) && is_empty inforce
    then answer_dangling q hanging
    else if is_empty inforce
    then answer_no_registration q today (registrations_here p q today)
    else answer_in_force p (record { question = q; tz = tz; today = today; effective = inforce })
        hanging twice inforce

-- the blank fields and the transient mode, then the passes
unfoldable pub answer_on_clock : Platform → Question → Zone → Result Answer
unfolding answer_selected
answer_on_clock p q tz =
    let today = day_of q.at tz in
    if is_empty (strip q.vehicle_identity)
    then ok (
        if is_exit q.direction
        then answer_not_covered q Reason.blank_identity none
        else answer_refused q Missing.vehicle_identity none)
    else if is_empty (strip q.lane)
    then ok (
        if is_exit q.direction
        then answer_not_covered q Reason.blank_lane none
        else answer_refused q Missing.lane none)
    else if not (is_exit q.direction) && is_none q.garage.transient_available
    then ok (answer_refused q Missing.transient_mode none)
    else answer_selected p q tz today (registrations_dangling p q today) (effective p q today)

-- `access`: the garage first, since without a clock nothing else can be read.
unfoldable pub access : Platform → Question → Result Answer
unfolding answer_on_clock
access p q = elim q.garage.unreadable [
  | some _ ↦ ok (
      if is_exit q.direction
      then answer_not_covered q Reason.garage_unreadable none
      else answer_refused q Missing.timezone none)
  | none ↦ zone p q.garage.timezone >>= answer_on_clock p q
]

-- `exit_on_unreadable_records`, of one or more records
unfoldable pub exit_on_unreadable_records : Text → Text → List Unreadable → Result Answer
exit_on_unreadable_records vehicle_identity lane unreadable =
    if is_empty unreadable
    then crash Crash.type_error
    else ok (record {
      outcome = Outcome.not_covered;
      direction = Direction.exit;
      vehicle_identity = strip vehicle_identity;
      lane = strip lane;
      pass_id = none;
      pass_label = none;
      covering_term = none;
      reason = some Reason.record_unreadable;
      missing = none;
      means = some Means.exit_out_of_terms;
      exit_note = true;
      unmeasured = [];
      inconsistent = [];
    })
