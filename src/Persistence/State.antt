-- ===== src/Persistence/State.antt =====
-- tools/lib/maintenance-persistence-model.mjs: the digests, `fromAnchor` and `headFor`.
use Prim.Native.String.{len}
use sec_app.Base.{
  ℕ, String, Bool, true, false, not, ◌&&◌, ◌||◌, Option, none, some, [], ◌∷◌, ltb, str_eq, is_some,
  if◌then◌else◌,
}
use sec_app.Data.Json.{Json, str, object}
use sec_app.Data.Jcs.{jcs, jcs_sha256, digest_with_exclusion, same}
use sec_app.Persistence.Types.{
  storage_invalid, Result, ok, refuse_if, ◌>>◌, blocked, Phase, stable, active_phase, Anchor, Head,
  Intent, Record, Active, State, tx,
}
use sec_app.Persistence.Encode.{anchor_json, head_json, scope_json, record_json, state_json}

-- persistenceBytes: the size of the canonical text in UTF-8.
unfoldable pub persistence_bytes : Json → ℕ
unfolding jcs
persistence_bytes v = len (jcs v)

-- `state.active?.publication_pending === true`
abbrev pub is_pending : Option Active → Bool
is_pending none = false
is_pending (some a) = a.publication_pending

module _ (sha256 : String → String) where
  unfoldable pub state_digest : State → String
  unfolding jcs_sha256 state_json
  state_digest s = jcs_sha256 sha256 (
      object
        (("domain", str "SecApp-Synthetic-Persistence-State-v1") ∷ ("state", state_json s) ∷ []))

  unfoldable pub intent_digest : Intent → String
  unfolding jcs_sha256 scope_json
  intent_digest i = jcs_sha256 sha256 (
      object
        (("domain", str "SecApp-Synthetic-Persistence-Intent-v1") ∷ ("scope", scope_json i) ∷ []))

  unfoldable pub confirmation_digest : Intent → String
  unfolding jcs_sha256
  confirmation_digest i = jcs_sha256 sha256 (
      object (
        ("domain", str "SecApp-Synthetic-Persistence-Confirmation-v1")
        ∷ ("intent_digest", str i.intent_digest)
        ∷ ("transaction_id", str i.transaction_id)
        ∷ []))

  unfoldable pub anchor_seal : Anchor → String
  unfolding digest_with_exclusion anchor_json
  anchor_seal a = digest_with_exclusion sha256 (anchor_json a) "anchor_digest"

  unfoldable pub head_seal : Head → String
  unfolding digest_with_exclusion head_json
  head_seal h = digest_with_exclusion sha256 (head_json h) "head_digest"

  unfoldable pub record_seal : Record → String
  unfolding digest_with_exclusion record_json
  record_seal r = digest_with_exclusion sha256 (record_json r) "record_digest"

  -- The last transaction is the one that the counter names.
  abbrev last_is_current : Anchor → Bool
  last_is_current a = elim a.last_transaction_id [ none ↦ true | some t ↦ str_eq t (tx a.counter) ]

  unfoldable pub from_anchor : Anchor → Result State
  unfolding anchor_seal tx
  from_anchor a = do
    refuse_if
        (not (str_eq a.anchor_digest (anchor_seal a))
          || not (last_is_current a)
          || (is_some a.selection_digest && ltb a.selection_epoch a.security_floor))
        storage_invalid
    ok (record {
      machine_id = a.machine_id;
      sequence = a.sequence;
      tail_digest = a.anchor_digest;
      counter = a.counter;
      generation = a.generation;
      generation_floor = a.generation;
      security_floor = a.security_floor;
      selection_digest = a.selection_digest;
      selection_epoch = a.selection_epoch;
      last_transaction_id = a.last_transaction_id;
      active = none;
    })

  abbrev phase_of : Option Active → Phase
  phase_of none = stable
  phase_of (some a) = if a.publication_pending then active_phase blocked else active_phase a.stage

  -- The head of a state: it names no selection while a publication is pending.
  unfoldable pub head_for : State → Head
  unfolding head_seal
  head_for s =
      let blank : Head = record {
        machine_id = s.machine_id;
        sequence = s.sequence;
        tail_digest = s.tail_digest;
        counter = s.counter;
        generation = s.generation;
        generation_floor = s.generation_floor;
        security_floor = s.security_floor;
        phase = phase_of s.active;
        selection_digest = if is_pending s.active then none else s.selection_digest;
        selection_epoch = if is_pending s.active then 0 else s.selection_epoch;
        head_digest = "";
      } in
      record blank { head_digest = head_seal blank }

  -- `same(disk.head, headFor(state))`
  unfoldable pub head_matches : Head → State → Bool
  unfolding same head_json head_for
  head_matches h s = same sha256 (head_json h) (head_json (head_for s))
