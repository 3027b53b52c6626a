-- ===== src/DesktopSession.antt =====
-- src/ui/defender-desktop-session.mjs: the session of the desktop window, between its commands and the
-- calls of the workflow that it starts.
pub mod Consent
pub mod Examples
use sec_app.Base.{
  ℕ, ◌+◌, ◌==◌, String, Bool, true, false, not, ◌&&◌, ◌||◌, Option, none, some, List, [], ◌∷◌, ◌++◌,
  ltb, length, if◌then◌else◌,
}
use Prim.Native.String
use sec_app.Data.Order.{units}
use sec_app.InteractiveFlow.{Phase, preparing, awaiting_confirmation}

-- `state`: the workflow's phases and the session's own states.
pub data State : Type 0 where
  connecting ready submitting failed finished : State
  in_phase : Phase → State

-- A command as the window sends it. What is no command is refused when its bytes are decoded.
pub data Command : Type 0 where
  ready_command prepare_command cancel_command : Command
  confirm_command : String → Command

-- What the session is called with: by the window, by the workflow that it started, by its timer.
pub data Call : Type 0 where
  command : Command → Call
  disconnect : Call
  write : String → Call
  enter : Phase → Call
  report : Call
  prompt : Call
  expire : Call
  settle : ℕ → Call

-- The variables of the closure. `prompting` says that `resolvePrompt` is set, with its timer;
-- `resolved` lists what the promises of the prompts were resolved with; `started`, `prompted` and
-- `emitted` count the workflows, the prompts and the calls of `emit`.
pub record Session : Type 0 where
  pub state : State
  pub connected : Bool
  pub prompting : Bool
  pub resolved : List (Option String)
  pub log : String
  pub code : Option ℕ
  pub reported : Bool
  pub started : ℕ
  pub prompted : ℕ
  pub emitted : ℕ

-- What a call gives: `true` or `false` for a command, and `threw` where the session throws.
pub data Reply : Type 0 where
  accepted refused returned threw : Reply

abbrev pub initial : Session
initial = record {
  state = connecting;
  connected = true;
  prompting = false;
  resolved = [];
  log = "";
  code = none;
  reported = false;
  started = 0;
  prompted = 0;
  emitted = 0;
}

abbrev pub is_connecting : State → Bool
is_connecting connecting = true
is_connecting _ = false

abbrev pub is_ready : State → Bool
is_ready ready = true
is_ready _ = false

abbrev is_awaiting_phase : Phase → Bool
is_awaiting_phase awaiting_confirmation = true
is_awaiting_phase _ = false

abbrev pub is_awaiting : State → Bool
is_awaiting (in_phase p) = is_awaiting_phase p
is_awaiting _ = false

-- `breaks n` says that the window's `emit` throws at its n-th call, and `intro` is `DESKTOP_INTRO`.
module _ (breaks : ℕ → Bool) (intro : String) where
  -- `emit`, and what a throw of it leaves.
  abbrev pub emit : Session → Session
  emit m =
      if m.connected
      then record m { emitted = m.emitted + 1; connected = not (breaks m.emitted) }
      else m

  -- `finishPrompt`: the prompt is closed before its promise is resolved. It publishes with no prompt
  -- open, so that a throw of `emit` there has none to finish.
  unfoldable pub finish_prompt : Option String → Session → Session
  finish_prompt answer m =
      let shown : Session = emit (record m { prompting = false; state = submitting }) in
      if m.prompting then record shown { resolved = m.resolved ++ answer ∷ [] } else m

  -- `publish`: a window that is gone leaves no prompt open.
  unfoldable pub publish : Session → Session
  unfolding finish_prompt
  publish m =
      let shown : Session = emit m in
      if m.connected && breaks m.emitted then finish_prompt none shown else shown

  -- `append`
  unfoldable pub append : String → Session → Reply × Session
  unfolding publish
  append text m =
      if ltb 18000 (length (units m.log) + length (units text))
      then (threw, m)
      else (returned, publish (record m { log = String.◌++◌ m.log text }))

  -- `start`, to the first phase, which the workflow enters before it waits for anything.
  unfoldable pub start : Session → Session
  unfolding publish
  start m = publish (record m { log = ""; started = m.started + 1; state = in_phase preparing })

  abbrev pub answered : Command → Option String
  answered (confirm_command answer) = some answer
  answered _ = none

  -- A command that finishes a prompt.
  abbrev pub answer_prompt : Option String → Session → Reply × Session
  answer_prompt answer m =
      if is_awaiting m.state && m.prompting
      then (accepted, finish_prompt answer m)
      else (refused, m)

  -- `command`, on a command of the right shape.
  abbrev pub take : Command → Session → Reply × Session
  take ready_command m =
      if is_connecting m.state
      then (accepted, publish (record m { state = ready; log = intro }))
      else (refused, m)
  take prepare_command m = if is_ready m.state then (accepted, start m) else (refused, m)
  take cancel_command m = answer_prompt none m
  take (confirm_command answer) m = answer_prompt (some answer) m

  -- The check of a command's shape: an answer of at most 64 code units.
  abbrev pub is_oversized : Command → Bool
  is_oversized (confirm_command answer) = ltb 64 (length (units answer))
  is_oversized _ = false

  unfoldable pub command_case : Command → Session → Reply × Session
  unfolding publish start finish_prompt
  command_case c m =
      if is_oversized c then (threw, m) else if not m.connected then (refused, m) else take c m

  unfoldable pub disconnect_case : Session → Session
  unfolding finish_prompt
  disconnect_case m = finish_prompt none (record m { connected = false })

  -- The workflow's `prompt`.
  unfoldable pub prompt_case : Session → Session
  unfolding finish_prompt
  prompt_case m =
      let opened : Session = record m { prompting = true; prompted = m.prompted + 1 } in
      if m.connected then opened else finish_prompt none opened

  -- The end of the workflow, with its exit code.
  unfoldable pub settle_case : ℕ → Session → Session
  unfolding publish
  settle_case exit m =
      publish (record m { code = some exit; state = if exit == 1 then failed else finished })

  unfoldable pub call : Call → Session → Reply × Session
  unfolding publish finish_prompt
  call (command c) m = command_case c m
  call disconnect m = (returned, disconnect_case m)
  call (write text) m = append text m
  call (enter p) m = (returned, publish (record m { state = in_phase p }))
  call report m = (returned, record m { reported = true })
  call prompt m = (returned, prompt_case m)
  call expire m = (returned, finish_prompt none m)
  call (settle exit) m = (returned, settle_case exit m)

  unfoldable pub run : List Call → Session → Session
  run [] m = m
  run (c ∷ cs) m = run cs (call c m).1
