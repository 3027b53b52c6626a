-- ===== src/InteractiveFlow.antt =====
-- src/backend/defender-interactive-flow.mjs: `runDefenderCheckSession`, one check from its
-- preparation to its cleanup. A hook that the caller does not give is one that never throws.
pub mod Sound
pub mod Consent
mod Examples
use Prim.Native.String
use Prim.Native.String.{slice}
use sec_app.Base.{
  ℕ, Bool, true, false, not, ◌||◌, ◌&&◌, String, Option, none, some, List, [], ◌∷◌, ◌++◌, ltb,
  length, is_some, str_eq, if◌then◌else◌,
}
use sec_app.Data.Order.{units}

pub data Phase : Type 0 where
  preparing awaiting_confirmation running discarding : Phase

-- What is said and warned of, by its occasion.
pub data Message : Type 0 where
  preparation offer discarded_note cancelled_note uac_note report_text cleaned_note : Message
  cleanup_warning failure_warning directory_warning : Message

-- A call of `io`.
pub data Effect : Type 0 where
  phase : Phase → Effect
  stdout stderr : Message → Effect
  prepare prompt run discard report : Effect

pub record Build : Type 0 where
  pub run_id : String
  pub helper_sha256 : String

-- A run envelope that was decoded and reported on.
pub record Reading : Type 0 where
  pub data_files_removed : Bool
  pub is_tested : Bool

-- The caller: what each call of `io` does, after the calls up to and with it. A reply is what the
-- decoder makes of it, `none` or false where it fails.
pub record World : Type 0 where
  pub throws : List Effect → Bool
  pub prepared : List Effect → Option Build
  pub answered : List Effect → Option String
  pub discard_accepted : List Effect → Bool
  pub ran : List Effect → Option Reading

-- The variables of the session, with the calls of `io` so far.
pub record Session : Type 0 where
  pub calls : List Effect
  pub build : Option Build
  pub run_started : Bool
  pub discard_attempted : Bool

pub data Step {κ} (S : Type κ) : Type κ where
  threw : Step S
  done : S → Step S

abbrev pub Async {κ} : Type κ → Type κ
Async S = Session → Step S × Session

abbrev pub then_do {κ ℓ} :
    {S : Type κ} {T : Type ℓ} → (S → Async T) → Step S × Session → Step T × Session
then_do next (threw, s) = (threw, s)
then_do next (done x, s) = next x s

infixl 5 ◌>>=◌ ◌>>◌
abbrev pub ◌>>=◌ {κ ℓ} : {S : Type κ} {T : Type ℓ} → Async S → (S → Async T) → Async T
begun >>= next = λ s. then_do next (begun s)

abbrev pub ◌>>◌ {ℓ} : {T : Type ℓ} → Async (Unit {0}) → Async T → Async T
begun >> after = begun >>= λ _. after

abbrev pub return {κ} : {S : Type κ} → S → Async S
return x = λ s. (done x, s)

abbrev pub from_reply {κ} : {S : Type κ} → Option S → Async S
from_reply none = λ s. (threw, s)
from_reply (some x) = return x

-- `СОБРАТЬ ${build.run_id.slice(0, 8)}`
abbrev pub confirmation : Build → String
confirmation b = String.◌++◌ "СОБРАТЬ " (slice b.run_id 0 8)

abbrev pub is_confirmed : Build → Option String → Bool
is_confirmed b none = false
is_confirmed b (some answer) =
    not (ltb 64 (length (units answer))) && str_eq answer (confirmation b)

module _ (world : World) where
  abbrev pub perform : Effect → Async (Unit {0})
  perform e = λ s.
      let calls = s.calls ++ e ∷ [] in
      (if world.throws calls then threw else done tt, record s { calls = calls })

  -- A broken terminal's exception is dropped.
  abbrev pub warn : Message → Async (Unit {0})
  warn text = λ s. (done tt, record s { calls = s.calls ++ stderr text ∷ [] })

  -- A call with a reply.
  abbrev pub ask {κ} : {S : Type κ} → Effect → (List Effect → S) → Async S
  ask e reply = perform e >> λ s. (done (reply s.calls), s)

  abbrev pub set_build : Build → Async (Unit {0})
  set_build b = λ s. (done tt, record s { build = some b })

  abbrev pub start_run : Async (Unit {0})
  start_run = λ s. (done tt, record s { run_started = true })

  abbrev pub attempt_discard : Async (Unit {0})
  attempt_discard = λ s. (done tt, record s { discard_attempted = true })

  unfoldable pub discard_prepared : Async (Unit {0})
  discard_prepared =
      attempt_discard
      >> perform (phase discarding)
      >> ask discard world.discard_accepted
      >>= λ is_accepted. (if is_accepted then perform (stdout discarded_note) else λ s. (threw, s))

  -- The answer is anything else than the confirmation.
  unfoldable pub cancelled : Async ℕ
  cancelled = discard_prepared >> perform (stdout cancelled_note) >> return 3

  abbrev pub concluded : Reading → Async ℕ
  concluded r =
      if not r.data_files_removed
      then warn cleanup_warning >> return 1
      else perform (stdout cleaned_note) >> return (if r.is_tested then 0 else 2)

  unfoldable pub confirmed : Async ℕ
  confirmed =
      start_run
      >> perform (phase running)
      >> perform (stdout uac_note)
      >> ask run world.ran
      >>= from_reply
      >>= λ r. (perform report >> perform (stdout report_text) >> concluded r)

  -- The body of `try`.
  unfoldable pub attempt : Async ℕ
  attempt =
      perform (phase preparing)
      >> perform (stdout preparation)
      >> ask prepare world.prepared
      >>= from_reply
      >>= λ b.
          (set_build b
            >> perform (phase awaiting_confirmation)
            >> perform (stdout offer)
            >> ask prompt world.answered
            >>= λ answer. (if is_confirmed b answer then confirmed else cancelled))

  -- The exception of a discard is dropped.
  abbrev pub dropped : Step (Unit {0}) × Session → Step (Unit {0}) × Session
  dropped (step, s) = (done tt, s)

  unfoldable pub recover : Async ℕ
  recover = λ s.
      let must_discard = is_some s.build && not s.run_started && not s.discard_attempted in
      ((if must_discard then (λ s. dropped (discard_prepared s)) else return tt)
          >> warn failure_warning
          >> warn directory_warning
          >> return 1)
        s

  abbrev pub caught : Step ℕ × Session → Step ℕ × Session
  caught (done code, s) = (done code, s)
  caught (threw, s) = recover s

  abbrev pub opened : Session
  opened = record { calls = []; build = none; run_started = false; discard_attempted = false }

  unfoldable pub run_defender_check_session : Step ℕ × Session
  run_defender_check_session = caught (attempt opened)
