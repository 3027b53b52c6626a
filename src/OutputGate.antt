-- ===== src/OutputGate.antt =====
-- src/backend/direct-defender-operation.mjs: `createDirectDefenderOutputGate`, the gate that a
-- backend's output passes. `createDefenderPreview` of src/backend/direct-defender-output.mjs is the
-- parameter `preview`: the report of the bytes, or none where it throws.
pub mod Streams
pub mod Sealed
mod Examples
use sec_app.Base.{
  ℕ, ◌-◌, Bool, true, false, not, ◌||◌, Option, none, some, List, [], ◌∷◌, ◌++◌, ltb, length, ◌==◌,
  if◌then◌else◌,
}

-- The codes of a `DirectDefenderOperationError`.
pub data Code : Type 0 where
  already_completed chunk_invalid stdout_after_end stdout_limit stderr_after_end : Code
  stderr_present stdout_duplicate_end stderr_duplicate_end abort_reason_invalid : Code
  exit_invalid exit_nonzero streams_incomplete output_invalid : Code
  cancelled timed_out launch_failed cleanup_failed transport_failed : Code

-- The reasons that `abortCodes` has, and any other value.
pub data AbortReason : Type 0 where
  user_cancelled wall_time_over not_launched not_cleaned not_transported other_reason : AbortReason

abbrev abort_code : AbortReason → Code
abort_code user_cancelled = cancelled
abort_code wall_time_over = timed_out
abort_code not_launched = launch_failed
abort_code not_cleaned = cleanup_failed
abort_code not_transported = transport_failed
abort_code other_reason = abort_reason_invalid

-- A call of the gate. A chunk is `none` where it is no buffer, and an exit code is `none` where it is
-- no integer of 32 bits.
pub data Call : Type 0 where
  stdout stderr : Option (List ℕ) → Call
  end_stdout end_stderr : Call
  abort : AbortReason → Call
  complete : Option ℕ → Call

-- `storage` is `capacity` bytes long, the first of them, `held`, are written.
pub record Gate : Type 0 where
  pub capacity : ℕ
  pub held : List ℕ
  pub stdout_ended : Bool
  pub stderr_ended : Bool
  pub completed : Bool
  pub first_failure : Option Code

-- What a call returns or throws.
pub data Reply {ℓ} (P : Type ℓ) : Type ℓ where
  accepted : Reply P
  delivered : P → Reply P
  thrown : Code → Reply P

-- `DEFENDER_OUTPUT_LIMITS.maxSourceBytes`
abbrev pub max_source_bytes : ℕ
max_source_bytes = 4096

abbrev pub created : Gate
created = record {
  capacity = max_source_bytes;
  held = [];
  stdout_ended = false;
  stderr_ended = false;
  completed = false;
  first_failure = none;
}

abbrev pub clear : Gate → Gate
clear g = record g { capacity = 0; held = [] }

abbrev pub first_of : Option Code → Code → Code
first_of none code = code
first_of (some first) code = first

module _ {ℓ} {P : Type ℓ} (preview : List ℕ → Option P) where
  -- The first failure stays, and nothing is held after it.
  abbrev pub reject : Gate → Code → Gate × Reply P
  reject g code = (
    clear (record g { first_failure = some (first_of g.first_failure code) }),
    thrown (first_of g.first_failure code),
  )

  abbrev pub stdout_chunk : Gate → Option (List ℕ) → Gate × Reply P
  stdout_chunk g none = reject g chunk_invalid
  stdout_chunk g (some chunk) =
      if g.stdout_ended
      then reject g stdout_after_end
      else if ltb (g.capacity - length g.held) (length chunk)
      then reject g stdout_limit
      else (record g { held = g.held ++ chunk }, accepted)

  abbrev pub stderr_chunk : Gate → Option (List ℕ) → Gate × Reply P
  stderr_chunk g none = reject g chunk_invalid
  stderr_chunk g (some chunk) =
      if g.stderr_ended
      then reject g stderr_after_end
      else if not (length chunk == 0)
      then reject g stderr_present
      else (g, accepted)

  -- The report of what is held, which is cleared whether there is one or not.
  abbrev pub deliver : Gate → Option P → Gate × Reply P
  deliver g none = reject (record g { completed = true }) output_invalid
  deliver g (some report) = (clear (record g { completed = true }), delivered report)

  abbrev pub finish : Gate → Option ℕ → Gate × Reply P
  finish g none = reject g exit_invalid
  finish g (some code) =
      if ltb 0xffffffff code
      then reject g exit_invalid
      else if not (code == 0)
      then reject g exit_nonzero
      else if not g.stdout_ended || not g.stderr_ended
      then reject g streams_incomplete
      else deliver g (preview g.held)

  -- A call on a gate that is active.
  unfoldable pub served : Gate → Call → Gate × Reply P
  served g (stdout chunk) = stdout_chunk g chunk
  served g (stderr chunk) = stderr_chunk g chunk
  served g end_stdout =
      if g.stdout_ended
      then reject g stdout_duplicate_end
      else (record g { stdout_ended = true }, accepted)
  served g end_stderr =
      if g.stderr_ended
      then reject g stderr_duplicate_end
      else (record g { stderr_ended = true }, accepted)
  served g (abort reason) = reject g (abort_code reason)
  served g (complete exit_code) = finish g exit_code

  -- `active()` before the call.
  abbrev pub guarded : Gate → Option Code → Call → Gate × Reply P
  guarded g (some code) c = reject g code
  guarded g none c = if g.completed then reject g already_completed else served g c

  unfoldable pub call : Gate → Call → Gate × Reply P
  unfolding served
  call g c = guarded g g.first_failure c

  -- A caller that goes on after an exception.
  unfoldable pub run : Gate → List Call → Gate
  run g [] = g
  run g (c ∷ cs) = run (call g c).0 cs

  unfoldable pub replies : Gate → List Call → List (Reply P)
  replies g [] = []
  replies g (c ∷ cs) = (call g c).1 ∷ replies (call g c).0 cs
