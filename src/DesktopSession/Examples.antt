-- ===== src/DesktopSession/Examples.antt =====
-- A session whose check is confirmed once, and one whose window is gone before it answers.
use sec_app.Base.{ℕ, Bool, false, none, some, List, [], ◌∷◌, ◌≡◌, refl, Memᴰ}
use sec_app.InteractiveFlow.{awaiting_confirmation}
use sec_app.DesktopSession.{
  ready_command, prepare_command, confirm_command, Call, command, disconnect, enter, prompt, settle,
  initial, publish, finish_prompt, start, command_case, prompt_case, disconnect_case, settle_case,
  call, run,
}
use sec_app.DesktopSession.Consent.{SingleUse, resolved-confirmed, run-SingleUse}

abbrev whole : ℕ → Bool
whole n = false

abbrev opened : List Call → List Call
opened more =
    command ready_command ∷ command prepare_command ∷ enter awaiting_confirmation ∷ prompt ∷ more

abbrev confirmed : List Call
confirmed =
    opened
      (command (confirm_command "CHECK 1") ∷ command (confirm_command "CHECK 2") ∷ settle 0 ∷ [])

abbrev gone : List Call
gone = opened (disconnect ∷ command (confirm_command "CHECK 1") ∷ settle 3 ∷ [])

-- The second confirmation is not kept for a later prompt.
taken_once : (run whole "intro" confirmed initial).resolved ≡ some "CHECK 1" ∷ []
unfolding run call command_case prompt_case settle_case publish finish_prompt start
    sec_app.Data.Order.units
taken_once = refl

left_unanswered : (run whole "intro" gone initial).resolved ≡ none ∷ []
unfolding run call command_case prompt_case disconnect_case settle_case publish finish_prompt start
    sec_app.Data.Order.units
left_unanswered = refl

is_taken : Memᴰ (some "CHECK 1") (run whole "intro" confirmed initial).resolved
is_taken = rw taken_once (Memᴰ.head refl)

resolved-confirmed_example : Memᴰ (command (confirm_command "CHECK 1")) confirmed
resolved-confirmed_example = resolved-confirmed whole "intro" confirmed "CHECK 1" is_taken

run-SingleUse_example : SingleUse (run whole "intro" gone initial)
run-SingleUse_example = run-SingleUse whole "intro" gone
