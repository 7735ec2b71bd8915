-- ===== src/States/Tests.antt =====
-- Transitions of the sample pass.
use garage_pass.Base.{◌≡◌, refl, ◌↔◌, false, List, [], ◌∷◌, Text, codes}
use garage_pass.Result.{ok}
use garage_pass.Platform.{strip, lstrip, is_space}
use garage_pass.Passes.{State, Pass, StateChange}
use garage_pass.States.Defs.{
  transition, allowed_transitions, parse_state, state_value, is_blank, effective_state, typed,
}
use garage_pass.States.Graph.{
  Moves, suspend, change_of, transition_sound, transition_complete, parse_state_iff,
  effective_state_iff, Reads,
}
use garage_pass.States.History.{History, start, move, Linked, History-Linked, revoked_is_final}
use garage_pass.Sample.{pass, hour, monday}

abbrev suspended_pass : Pass
suspended_pass = record pass { state = State.suspended }

abbrev revoked_pass : Pass
revoked_pass = record pass { state = State.revoked }

abbrev ann : Text
ann = codes " ann "

abbrev why : Text
why = codes "lost card"

abbrev suspension : Pass × StateChange
suspension = (suspended_pass, change_of pass State.suspended ann (hour 9) why)

suspended_by_ann : transition pass State.suspended ann (hour 9) why ≡ ok suspension
unfolding transition allowed_transitions strip lstrip is_space
suspended_by_ann = refl

ann_is_named : is_blank ann ≡ false
unfolding strip lstrip is_space
ann_is_named = refl

why_is_stated : is_blank why ≡ false
unfolding strip lstrip is_space
why_is_stated = refl

transition_sound_example :
    Moves State.active State.suspended
    × (is_blank ann ≡ false)
    × (is_blank why ≡ false)
    × (suspension ≡ (suspended_pass, change_of pass State.suspended ann (hour 9) why))
transition_sound_example =
    transition_sound pass State.suspended ann (hour 9) why {r = suspension} suspended_by_ann

transition_complete_example :
    transition pass State.suspended ann (hour 9) why
    ≡ ok (suspended_pass, change_of pass State.suspended ann (hour 9) why)
transition_complete_example =
    transition_complete pass State.suspended ann (hour 9) why suspend ann_is_named why_is_stated

abbrev one_change :
    History pass suspended_pass (change_of pass State.suspended ann (hour 9) why ∷ [])
one_change = move State.suspended ann (hour 9) why start suspended_by_ann

History-Linked_example :
    Linked State.active State.suspended (change_of pass State.suspended ann (hour 9) why ∷ [])
    × (suspended_pass ≡ record pass { state = State.suspended })
History-Linked_example = History-Linked one_change

revoked_is_final_example : (revoked_pass ≡ revoked_pass) × (◌≡◌ {A = List StateChange} [] [])
revoked_is_final_example = revoked_is_final {p = revoked_pass} refl start

parse_state_iff_example :
    (parse_state (codes "active") ≡ ok State.active) ↔ (codes "active" ≡ state_value State.active)
parse_state_iff_example = parse_state_iff (codes "active") State.active

effective_state_iff_example :
    (effective_state pass monday ≡ typed State.active) ↔ Reads pass monday (typed State.active)
effective_state_iff_example = effective_state_iff pass monday (typed State.active)
