-- ===== src/Persistence/Replay.antt =====
-- tools/lib/maintenance-persistence-model.mjs: `replay` and `persistenceStateDigest`.
pub mod Chain
pub mod Authorized
use sec_app.Base.{
  ℕ, ◌+◌, String, Bool, true, false, not, ◌&&◌, ◌||◌, Option, none, some, List, [], ◌∷◌, ◌==◌,
  str_eq, is_some, if◌then◌else◌, max_safe_integer,
}
use sec_app.Persistence.Types.{
  storage_invalid, storage_unknown, head_mismatch, Result, ok, problem, refuse_if, ◌>>◌, ◌>>=◌,
  Anchor, Record, Storage, State, Integrity, known, unknown,
}
use sec_app.Persistence.State.{from_anchor, record_seal, head_matches, state_digest}
use sec_app.Persistence.Advance.{advance}

abbrev pub is_known : Integrity → Bool
is_known known = true
is_known unknown = false

module _ (sha256 : String → String) where
  -- A record continues the chain: the next sequence number, the digest of what stands before it,
  -- and its own digest.
  unfoldable pub links : State → Record → Bool
  unfolding record_seal
  links s r =
      not (s.sequence == max_safe_integer)
      && (r.sequence == s.sequence + 1)
      && str_eq r.previous_digest s.tail_digest
      && str_eq r.record_digest (record_seal sha256 r)

  unfoldable pub replay_record : State → Record → Result State
  replay_record s r = do
    refuse_if (not (links s r)) storage_invalid
    next ← advance sha256 s r.record_kind r.intent r.transaction_id
    ok (record next { sequence = r.sequence; tail_digest = r.record_digest })

  unfoldable pub replay_from : State → List Record → Result State
  replay_from s [] = ok s
  replay_from s (r ∷ rs) = replay_record s r >>= λ next. replay_from next rs

  unfoldable pub replay : Storage → Result State
  unfolding from_anchor replay_from
  replay disk = from_anchor sha256 disk.anchor >>= λ s. replay_from s disk.records

  -- `persistenceStateDigest`.
  unfoldable pub persistence_state_digest : Storage → Result String
  unfolding replay head_matches state_digest
  persistence_state_digest disk = do
    refuse_if (not (is_known disk.integrity) || is_some disk.checkpoint_candidate) storage_unknown
    s ← replay disk
    refuse_if (not (head_matches sha256 disk.head s)) head_mismatch
    ok (state_digest sha256 s)
