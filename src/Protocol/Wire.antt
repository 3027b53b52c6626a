-- ===== src/Protocol/Wire.antt =====
-- tools/lib/maintenance-protocol-model.mjs: the messages.
use sec_app.Base.{
  ℕ, ◌+◌, ◌-◌, max, String, Bool, true, false, not, ◌&&◌, ◌||◌, Option, none, some, List, [], ◌∷◌,
  ltb, ◌==◌, str_eq, opt_eq, is_some, any, if◌then◌else◌, max_safe_integer,
}
use Prim.Native.Nat.{min}
use sec_app.Data.Jcs.{jcs_sha256}
use sec_app.Deployment.Admission.{epoch_of}
use sec_app.Persistence.Types.{tx}
use sec_app.Protocol.Types.{
  LineageEntry, Journal, Store, LastResult, Context, Member, Proposal, State, await_peer,
  await_hello, await_bind, bound, proposed, reviewed, offered, confirmed, admitted,
  payload_verified, publish_pending, committed, cleanup_pending, completed, Payload, helper_hello,
  client_bind, propose_operation, verified_offer, admission_recorded, payload_chunk, cancel,
  query_status, progress, result, Message, order_rejected, peer_rejected, binding_mismatch,
  replay_rejected, head_changed, scope_rejected, epoch_rejected, limit_exceeded,
  generation_rejected, payload_rejected, cancelled, digest_mismatch, sequence_rejected, Delivery,
  delivered, lost,
}
use sec_app.Protocol.Encode.{payload_json}
use sec_app.Protocol.Store.{maintenance_head_digest, below, in_scope, is_pending}
use sec_app.Protocol.Local.{is_cleanup}
use sec_app.Protocol.Session.{
  Session, Intake, LastStatus, completed_status, recovery_required_status, active_status,
  retired_status, is_in, state_eq, is_unconsumed, fail, require_state, fail_if,
}

-- /^0+$/u
abbrev zeros : String → Bool
zeros String.[] = true
zeros (String.◌∷◌ c s) = (Prim.Native.Char.code c == 48) && zeros s

abbrev is_zero : String → Bool
is_zero String.[] = false
is_zero (String.◌∷◌ c s) = zeros (String.◌∷◌ c s)

abbrev is_lost : Delivery → Bool
is_lost lost = true
is_lost delivered = false

-- The sum of the members' sizes.
abbrev pub total_bytes : List Member → ℕ
total_bytes [] = 0
total_bytes (x ∷ xs) = x.size_bytes + total_bytes xs

-- `names.size !== members.length`: a name occurs twice.
abbrev pub repeats : List Member → Bool
repeats [] = false
repeats (x ∷ xs) = any (λ (y : Member). str_eq x.member_id y.member_id) xs || repeats xs

-- `received[memberIndex]`
abbrev pub nth {ℓ} : {A : Type ℓ} → List A → ℕ → Option A
nth [] i = none
nth (x ∷ xs) i = if i == 0 then some x else nth xs (i - 1)

abbrev pub highest_of : Store → Option Journal → ℕ
highest_of s none = s.generation
highest_of s (some j) = j.highest_generation

abbrev pub journal_pending : Option Journal → Bool
journal_pending none = false
journal_pending (some j) = is_pending j.phase

module _ (sha256 : String → String) (context : Context) where
  abbrev pub helper_hello_case : Session → String → String → String → Session
  helper_hello_case m channel challenge helper = require_state (await_hello ∷ []) m (
      fail_if (not (str_eq helper context.helper_instance) || is_zero challenge) peer_rejected m
        (record m {
          helper_challenge = some challenge;
          channel = some channel;
          state = await_bind;
        }))

  abbrev pub client_bind_case : Session → String → String → String → Session
  client_bind_case m helper client client_instance = require_state (await_bind ∷ []) m (
      fail_if
        (not (str_eq client_instance context.client_instance)
          || not (opt_eq (some helper) m.helper_challenge)
          || opt_eq (some client) m.helper_challenge
          || is_zero client)
        binding_mismatch m (record m { client_challenge = some client; state = bound }))

  -- The generation that a proposal publishes.
  abbrev pub generation_for : Session → Proposal → ℕ
  generation_for m p =
      if is_cleanup p then m.store.generation else highest_of m.store m.store.journal + 1

  unfoldable pub propose_operation_case : Session → Option String → Proposal → Session
  propose_operation_case m transaction p = require_state (bound ∷ []) m (
      fail_if
        ((m.store.counter == max_safe_integer)
          || not (opt_eq transaction (some (tx (m.store.counter + 1)))))
        replay_rejected m
        (fail_if
          (not (str_eq p.expected_head_digest (maintenance_head_digest sha256 context.store))
            || not (p.expected_generation == m.store.generation))
          head_changed m
          (fail_if (not (in_scope sha256 m.store m.store.journal p p.request)) scope_rejected m (
            fail_if (below p.desired (max m.security_floor (epoch_of m.store.selection)))
              epoch_rejected m
              (fail_if (ltb 536870912 (total_bytes p.members) || repeats p.members) limit_exceeded m
                (fail_if
                  (not (is_cleanup p) && (highest_of m.store m.store.journal == max_safe_integer))
                  generation_rejected m
                  (record m {
                    next_generation = generation_for m p;
                    proposal = some p;
                    transaction_id = transaction;
                    state = proposed;
                  })))))))

  abbrev pub verified_offer_case : Session → String → ℕ → Session
  verified_offer_case m digest expires = require_state (reviewed ∷ []) m (
      fail_if
        (not (opt_eq (some digest) m.offer_digest)
          || not (elim m.offer_expires_at_ms [ none ↦ false | some t ↦ expires == t ]))
        binding_mismatch m (record m { state = offered }))

  abbrev pub admission_recorded_case : Session → Delivery → String → ℕ → Session
  admission_recorded_case m fate digest counter = require_state (admitted ∷ []) m (
      fail_if (not (counter == m.store.counter) || not (opt_eq (some digest) m.offer_digest))
        binding_mismatch m (record m { reply_lost = is_lost fate }))

  -- The bytes that the next chunk of a member has.
  abbrev pub chunk_length : Intake → ℕ
  chunk_length x = min 65536 (x.member.size_bytes - x.received)

  -- The member at an index takes more bytes.
  abbrev pub take_chunk : List Intake → ℕ → ℕ → List Intake
  take_chunk [] i length = []
  take_chunk (x ∷ xs) i length =
      let rest = take_chunk xs (i - 1) length in
      if i == 0 then record x { received = x.received + length } ∷ xs else x ∷ rest

  unfoldable pub take_payload : Session → Intake → ℕ → Session
  take_payload m x length = record m {
    received = take_chunk m.received m.member_index length;
    payload_bytes = m.payload_bytes + length;
    payload_at = m.last_time;
    member_index =
        if x.received + length == x.member.size_bytes then m.member_index + 1 else m.member_index;
  }

  abbrev pub payload_chunk_case : Session → Option Intake → String → ℕ → ℕ → Session
  payload_chunk_case m none member offset length =
      require_state (admitted ∷ []) m (fail payload_rejected m)
  payload_chunk_case m (some x) member offset length = require_state (admitted ∷ []) m (
      fail_if
        (not (str_eq member x.member.member_id)
          || not (offset == x.received)
          || not (length == chunk_length x))
        payload_rejected m (take_payload m x length))

  abbrev pub cancel_case : Session → String → Session
  cancel_case m digest =
      require_state
        (offered ∷ confirmed ∷ admitted ∷ payload_verified ∷ publish_pending ∷ committed
          ∷ cleanup_pending ∷ [])
        m
        (fail_if (not (opt_eq (some digest) m.offer_digest)) binding_mismatch m (fail cancelled m))

  abbrev in_lineage : Option Journal → ℕ → Bool
  in_lineage none counter = false
  in_lineage (some j) counter = any (λ (e : LineageEntry). e.counter == counter) j.lineage

  abbrev is_last : Option LastResult → ℕ → Bool
  is_last none counter = false
  is_last (some r) counter = r.counter == counter

  abbrev pub status_of : Session → ℕ → LastStatus
  status_of m counter =
      if is_last m.store.last_result counter
      then completed_status
      else if in_lineage m.store.journal counter
      then if journal_pending m.store.journal && is_unconsumed m.admission
        then recovery_required_status
        else active_status
      else retired_status

  abbrev pub query_status_case : Session → Option String → ℕ → Session
  query_status_case m transaction counter =
      fail_if (is_in (await_peer ∷ await_hello ∷ await_bind ∷ []) m.state) order_rejected m (
        fail_if (not (opt_eq transaction (some (tx counter))) || ltb m.store.counter counter)
          binding_mismatch m
          (record m {
            last_status = status_of m counter;
            reply_lost =
                if (counter == m.store.counter) && opt_eq transaction m.transaction_id
                then false
                else m.reply_lost;
          }))

  abbrev pub progress_case : Session → State → Session
  progress_case m state =
      require_state
        (admitted ∷ payload_verified ∷ publish_pending ∷ committed ∷ cleanup_pending ∷ []) m
        (fail_if (not (state_eq state m.state)) binding_mismatch m m)

  abbrev pub result_case : Session → Delivery → State → Option String → Session
  result_case m fate state digest = require_state (completed ∷ cleanup_pending ∷ []) m (
      fail_if
        (not (state_eq state m.state)
          || not (opt_eq digest (some (maintenance_head_digest sha256 m.store))))
        binding_mismatch m (record m { reply_lost = is_lost fate }))

  -- The `switch` of the messages.
  unfoldable pub message_case : Session → Delivery → Message → Payload → Session
  message_case m fate x (helper_hello challenge helper) =
      helper_hello_case m x.channel_id challenge helper
  message_case m fate x (client_bind helper client client_instance) =
      client_bind_case m helper client client_instance
  message_case m fate x (propose_operation p) = propose_operation_case m x.transaction_id p
  message_case m fate x (verified_offer digest expires) = verified_offer_case m digest expires
  message_case m fate x (admission_recorded digest counter) =
      admission_recorded_case m fate digest counter
  message_case m fate x (payload_chunk member offset length digest) =
      payload_chunk_case m (nth m.received m.member_index) member offset length
  message_case m fate x (cancel digest) = cancel_case m digest
  message_case m fate x (query_status counter) = query_status_case m x.transaction_id counter
  message_case m fate x (progress state) = progress_case m state
  message_case m fate x (result state digest) = result_case m fate state digest

  abbrev pub is_chunk : Payload → Bool
  is_chunk (payload_chunk member offset length digest) = true
  is_chunk _ = false

  -- The direction that a message's schema gives its type.
  abbrev pub from_helper : Payload → Bool
  from_helper (helper_hello challenge helper) = true
  from_helper (verified_offer digest expires) = true
  from_helper (admission_recorded digest counter) = true
  from_helper (progress state) = true
  from_helper (result state digest) = true
  from_helper _ = false

  -- The types that may be delivered as lost.
  abbrev may_be_lost : Payload → Bool
  may_be_lost (admission_recorded digest counter) = true
  may_be_lost (result state digest) = true
  may_be_lost _ = false

  -- The types that name no transaction of the session.
  abbrev names_no_transaction : Payload → Bool
  names_no_transaction (helper_hello challenge helper) = true
  names_no_transaction (client_bind helper client client_instance) = true
  names_no_transaction (propose_operation p) = true
  names_no_transaction (query_status counter) = true
  names_no_transaction _ = false

  unfoldable pub counted_frame : Session → Payload → Session
  counted_frame m x =
      if is_chunk x
      then record m { payload_frames = m.payload_frames + 1 }
      else record m { control_frames = m.control_frames + 1 }

  abbrev pub over_limit : Session → Payload → Bool
  over_limit m x = if is_chunk x then ltb 8200 m.payload_frames else ltb 128 m.control_frames

  abbrev pub next_sequence : Session → Payload → ℕ
  next_sequence m x = (if from_helper x then m.helper_sequence else m.ui_sequence) + 1

  unfoldable pub sequenced : Session → Message → Session
  sequenced m x =
      if from_helper x.payload
      then record m { helper_sequence = x.sequence }
      else record m { ui_sequence = x.sequence }

  -- The checks after the sequence number.
  abbrev pub delivered_case : Session → Delivery → Message → Session
  delivered_case m fate x =
      fail_if (is_some m.channel && not (opt_eq (some x.channel_id) m.channel)) binding_mismatch m (
        fail_if (is_lost fate && not (may_be_lost x.payload)) order_rejected m (
          fail_if
            (not (names_no_transaction x.payload) && not (opt_eq x.transaction_id m.transaction_id))
            binding_mismatch m (message_case m fate x x.payload)))

  unfoldable pub counted_case : Session → Delivery → Message → Session
  unfolding sequenced
  counted_case m fate x = fail_if (over_limit m x.payload) limit_exceeded m (
      fail_if (not (x.sequence == next_sequence m x.payload)) sequence_rejected m
        (delivered_case (sequenced m x) fate x))

  -- A message and the checks before its case.
  unfoldable pub wire_case : Session → Delivery → Message → Session
  unfolding counted_frame jcs_sha256 payload_json
  wire_case m fate x =
      fail_if (not (str_eq x.payload_digest (jcs_sha256 sha256 (payload_json x.payload))))
        digest_mismatch m (counted_case (counted_frame m x.payload) fate x)
