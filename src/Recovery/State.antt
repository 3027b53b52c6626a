-- ===== src/Recovery/State.antt =====
-- tools/lib/maintenance-recovery-model.mjs: the digests, `fromAnchor`, `headFor`, `compactAnchor` and
-- `classify`.
use Prim.Native.String
use Prim.Native.String.{len}
use sec_app.Base.{
  String, Bool, true, false, not, ◌&&◌, ◌||◌, Option, none, some, List, [], ◌∷◌, ◌==◌, str_eq,
  is_some, if◌then◌else◌,
}
use sec_app.Data.Json.{Json, str, object, nullable}
use sec_app.Data.Jcs.{jcs_sha256, same}
use sec_app.Recovery.Types.{
  Classification, stable, active, checkpoint_pending, prepared_unpublished, published_unretired,
  Checked, gives, ◌>>=◌, ◌>>◌, fail_if, digest_mismatch, anchor_invalid, active_lineage,
  unknown_evidence, head_mismatch, checkpoint_conflict, Selection, Minimum, Anchor, Head, Offer,
  Authorization, Record, Storage, State,
}
use sec_app.Recovery.Encode.{
  anchor_body, anchor_json, head_body, head_json, offer_body, record_body, state_json,
  selection_json,
}
use sec_app.Recovery.Terms.{
  is_known, below, anchor_of, opened, bad_terminal, head_of, check_min, is_metadata_authorized,
  has_records, last_admission, is_reconcile,
}

module _ (sha256 : String → String) where
  -- `recoveryDigest`, over the keys but the digest's.
  unfoldable pub recovery_digest : List (String × Json) → String → String
  unfolding jcs_sha256
  recovery_digest body domain = jcs_sha256 sha256 (
      object (
        ("domain", str (String.◌++◌ "SecApp-Synthetic-Recovery-v2-" domain))
        ∷ ("body", object body)
        ∷ []))

  unfoldable pub anchor_seal : Anchor → String
  unfolding recovery_digest anchor_body
  anchor_seal a = recovery_digest (anchor_body a) "Anchor"

  unfoldable pub head_seal : Head → String
  unfolding recovery_digest head_body
  head_seal h = recovery_digest (head_body h) "Head"

  unfoldable pub offer_seal : Offer → String
  unfolding recovery_digest offer_body
  offer_seal o = recovery_digest (offer_body o) "Offer"

  unfoldable pub record_seal : Record → String
  unfolding recovery_digest record_body
  record_seal r = recovery_digest (record_body r) "Record"

  -- `verify`
  abbrev pub verify : String → String → Checked (Unit {0})
  verify digest seal = fail_if (not (str_eq digest seal)) digest_mismatch

  -- `stateHash`
  unfoldable pub state_hash : State → String
  unfolding jcs_sha256 state_json
  state_hash s =
      jcs_sha256 sha256 (
        object
          (("domain", str "SecApp-Synthetic-Recovery-v2-State") ∷ ("state", state_json s) ∷ []))

  -- `fromAnchor`
  unfoldable pub from_anchor : Anchor → Checked State
  from_anchor a = do
    verify a.anchor_digest (anchor_seal a)
    fail_if
        (not (a.generation == a.generation_floor)
          || below a.selection a.security_floor
          || bad_terminal a.terminal a.counter)
        anchor_invalid
    gives (opened a)

  -- `headFor`
  unfoldable pub head_for : State → Head
  unfolding head_seal
  head_for s = head_of s (head_seal (head_of s ""))

  abbrev pub sealed_anchor : State → Anchor
  sealed_anchor s = anchor_of s (anchor_seal (anchor_of s ""))

  -- `compactAnchor`
  unfoldable pub compact_anchor : State → Checked Anchor
  compact_anchor s = do fail_if (is_some s.active) active_lineage; gives (sealed_anchor s)

  -- `same`
  unfoldable pub same_head : Head → Head → Bool
  unfolding same head_json
  same_head a b = same sha256 (head_json a) (head_json b)

  unfoldable pub same_anchor : Option Anchor → Option Anchor → Bool
  unfolding same anchor_json
  same_anchor a b = same sha256 (nullable anchor_json a) (nullable anchor_json b)

  unfoldable pub same_selection : Option Selection → Option Selection → Bool
  unfolding same selection_json
  same_selection a b = same sha256 (nullable selection_json a) (nullable selection_json b)

  abbrev reconciles : Option Authorization → Option Anchor → Bool
  reconciles none obsolete = false
  reconciles (some a) obsolete =
      is_reconcile a.offer.operation && same_anchor obsolete a.offer.basis.checkpoint_candidate

  -- An obsolete checkpoint stands where the last admission was to reconcile it.
  abbrev pub obsolete_agrees : Option Anchor → Option Record → Bool
  obsolete_agrees none found = true
  obsolete_agrees (some o) none = false
  obsolete_agrees (some o) (some r) = reconciles r.authorization (some o)

  -- Without a checkpoint candidate.
  abbrev pub classify_plain : Storage → State → Checked Classification
  classify_plain disk s = do
    fail_if (is_some disk.obsolete_checkpoint || not (same_head disk.head (head_for s)))
        head_mismatch
    gives (
        if is_some s.active
        then active
        else if is_metadata_authorized s.terminal && has_records disk.records
        then checkpoint_pending
        else stable)

  -- The head stands for the state, or already for the candidate.
  abbrev pub prepared_or_published : Storage → State → Checked State → Checked Classification
  prepared_or_published disk s candidate =
      if same_head disk.head (head_for s)
      then gives prepared_unpublished
      else candidate >>= λ next.
          fail_if (not (same_head disk.head (head_for next))) head_mismatch
          >> gives published_unretired

  abbrev pub classify_candidate : Storage → State → Anchor → Checked Classification
  classify_candidate disk s candidate = do
    fail_if (is_some s.active) active_lineage
    current ← compact_anchor s
    fail_if (not (same_anchor (some candidate) (some current))) checkpoint_conflict
    fail_if (not (obsolete_agrees disk.obsolete_checkpoint (last_admission none disk.records)))
        checkpoint_conflict
    prepared_or_published disk s (from_anchor candidate)

  abbrev pub classify_by : Storage → State → Option Anchor → Checked Classification
  classify_by disk s none = classify_plain disk s
  classify_by disk s (some candidate) = classify_candidate disk s candidate

  -- `classify`
  unfoldable pub classify : Storage → State → Minimum → Checked Classification
  classify disk s minimum = do
    fail_if (not (is_known disk.integrity)) unknown_evidence
    check_min s minimum
    verify disk.head.head_digest (head_seal disk.head)
    classify_by disk s disk.checkpoint_candidate
