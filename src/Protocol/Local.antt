-- ===== src/Protocol/Local.antt =====
-- tools/lib/maintenance-protocol-model.mjs: the local events.
use sec_app.Base.{
  ℕ, ◌+◌, ◌-◌, max, String, Bool, true, false, not, ◌&&◌, ◌||◌, Option, none, some, [], ◌∷◌, ◌++◌,
  ltb, ◌==◌, str_eq, opt_eq, is_some, length, map, if◌then◌else◌, max_safe_integer,
}
use sec_app.Data.Json.{str, num, object, nullable}
use sec_app.Data.Jcs.{jcs_sha256}
use sec_app.Deployment.Types.{Selection, Decision}
use sec_app.Deployment.Admission.{epoch_of, is_approved}
use sec_app.Protocol.Types.{
  phase_admitted, phase_publish_pending, phase_committed, Outcome, uninstalled,
  backend_not_enrolled, installed_launch_blocked, LineageEntry, Journal, Context, Member,
  RecoveryTarget, finish_committed_cleanup, Request, maintenance, recovery, Proposal, await_peer,
  await_hello, proposed, reviewed, offered, confirmed, admitted, payload_verified, publish_pending,
  committed, cleanup_pending, completed, PeerVerdict, matched, ReviewVerdict, review_allowed,
  ReserveResult, durable, not_written, reserve_unknown, PayloadVerdict, payload_allowed, Quiescence,
  quiescent, CommitVerdict, consistent, CleanupResult, complete, failed, clock_rejected,
  order_rejected, peer_rejected, trust_rejected, binding_mismatch, consent_declined, head_changed,
  admission_not_written, persistence_uncertain, payload_rejected, runtime_busy, cleanup_incomplete,
  Action, observe_peers, review_offer, confirm, reserve, verify_payload, begin_publish, commit,
  cleanup, interrupt,
}
use sec_app.Protocol.Encode.{context_json, proposal_json, limits_json}
use sec_app.Protocol.Store.{maintenance_head_digest, seal}
use sec_app.Protocol.Session.{
  Session, unknown_admission, consumed, fail, require_state, fail_if, state_eq,
}

abbrev is_matched : PeerVerdict → Bool
is_matched matched = true
is_matched _ = false

abbrev is_allowed : ReviewVerdict → Bool
is_allowed review_allowed = true
is_allowed _ = false

abbrev is_payload_allowed : PayloadVerdict → Bool
is_payload_allowed payload_allowed = true
is_payload_allowed _ = false

abbrev is_quiescent : Quiescence → Bool
is_quiescent quiescent = true
is_quiescent _ = false

abbrev is_consistent : CommitVerdict → Bool
is_consistent consistent = true
is_consistent _ = false

abbrev pub is_failed : CleanupResult → Bool
is_failed failed = true
is_failed complete = false

abbrev is_cleanup_target : RecoveryTarget → Bool
is_cleanup_target finish_committed_cleanup = true
is_cleanup_target _ = false

abbrev pub is_cleanup_request : Request → Bool
is_cleanup_request (maintenance operation) = false
is_cleanup_request (recovery r) = is_cleanup_target r.recovery_target

-- `kind === "Recovery" && recovery_target === "FinishCommittedCleanup"`
abbrev pub is_cleanup : Proposal → Bool
is_cleanup p = is_cleanup_request p.request

abbrev pub is_recovery : Request → Bool
is_recovery (maintenance operation) = false
is_recovery (recovery r) = true

-- The digest of an offer or a confirmation, "" where there is none.
abbrev pub text_of : Option String → String
text_of none = ""
text_of (some s) = s

-- `outcome()`
unfoldable pub outcome_of : Option Selection → Outcome
outcome_of none = uninstalled
outcome_of (some t) =
    if is_some t.backend_id then installed_launch_blocked else backend_not_enrolled

-- The entry of an admission, under the counter that it takes.
abbrev pub entry_of : Session → LineageEntry
entry_of m = record {
  transaction_id = text_of m.transaction_id;
  counter = m.store.counter + 1;
  offer_digest = text_of m.offer_digest;
  confirmation_digest = text_of m.confirmation_digest;
}

-- The journal that an admission opens.
abbrev pub opened_journal : Session → Proposal → Journal
opened_journal m p = record {
  origin_transaction_id = text_of m.transaction_id;
  phase = phase_admitted;
  highest_generation = m.store.generation;
  reserved_floor = m.store.security_floor;
  previous = m.store.selection;
  candidate = p.desired;
  lineage = entry_of m ∷ [];
  journal_digest = "";
}

-- The journal after an admission: a recovery adds itself to the one that there is.
abbrev pub admitted_journal : Session → Proposal → Option Journal → Request → Journal
admitted_journal m p none request = opened_journal m p
admitted_journal m p (some j) (maintenance operation) = opened_journal m p
admitted_journal m p (some j) (recovery r) = record j { lineage = j.lineage ++ entry_of m ∷ [] }

-- The floor that a publication reserves.
abbrev pub published_floor : Session → Proposal → ℕ
published_floor m p = max (max m.security_floor (epoch_of m.store.selection)) (epoch_of p.desired)

-- `complete()`
unfoldable pub completion : Session → Session
completion m = record m {
  store = record m.store {
    last_result = some (record {
      transaction_id = text_of m.transaction_id;
      counter = m.store.counter;
      offer_digest = text_of m.offer_digest;
      outcome = m.outcome;
    });
    journal = none;
  };
  state = completed;
}

abbrev pub may_clean_up : Session → Option Proposal → Bool
may_clean_up m none = state_eq m.state committed
may_clean_up m (some p) = state_eq m.state committed || (state_eq m.state admitted && is_cleanup p)

module _ (sha256 : String → String) (context : Context) where
  abbrev pub observe_peers_case : Session → PeerVerdict → String → String → Session
  observe_peers_case m verdict helper client = require_state (await_peer ∷ []) m (
      fail_if
        (not (is_matched verdict)
          || not (str_eq helper context.helper_instance)
          || not (str_eq client context.client_instance))
        peer_rejected m (record m { state = await_hello }))

  -- The digest of the offer that is made at a time.
  unfoldable pub offer_digest : Session → Proposal → String
  unfolding jcs_sha256 context_json proposal_json limits_json
  offer_digest m p = jcs_sha256 sha256 (
      object (
        ("domain", str "SecApp-Synthetic-Maintenance-Offer-v1")
        ∷ ("context", context_json context m.store)
        ∷ ("channel", nullable str m.channel)
        ∷ ("transaction_id", nullable str m.transaction_id)
        ∷ ("helper_challenge", nullable str m.helper_challenge)
        ∷ ("client_challenge", nullable str m.client_challenge)
        ∷ ("proposal", proposal_json p)
        ∷ ("issued_at_ms", num m.last_time)
        ∷ ("expires_at_ms", num (m.last_time + 300000))
        ∷ ("limits", limits_json)
        ∷ []))

  -- The cases that read a proposal follow `ProposeOperation`, so that there is one; where there were
  -- none, the source would throw.
  abbrev pub review_offer_case : Session → Option Proposal → ReviewVerdict → Session
  review_offer_case m none verdict = require_state (proposed ∷ []) m m
  review_offer_case m (some p) verdict = require_state (proposed ∷ []) m (
      fail_if (not (is_allowed verdict)) trust_rejected m (
        fail_if (ltb (max_safe_integer - 300000) m.last_time) clock_rejected m (record m {
          offer_expires_at_ms = some (m.last_time + 300000);
          offer_digest = some (offer_digest m p);
          state = reviewed;
        })))

  unfoldable pub confirmation_digest : Session → String → String
  unfolding jcs_sha256
  confirmation_digest m approver = jcs_sha256 sha256 (
      object (
        ("domain", str "SecApp-Synthetic-Maintenance-Confirmation-v1")
        ∷ ("offer_digest", nullable str m.offer_digest)
        ∷ ("approver_id", str approver)
        ∷ ("confirmed_at_ms", num m.last_time)
        ∷ ("channel_id", nullable str m.channel)
        ∷ ("transaction_id", nullable str m.transaction_id)
        ∷ []))

  abbrev pub confirm_case : Session → String → String → Decision → Session
  confirm_case m digest approver decision = require_state (offered ∷ []) m (
      fail_if (not (opt_eq (some digest) m.offer_digest)) binding_mismatch m (
        fail_if (not (is_approved decision)) consent_declined m (record m {
          confirmation_digest = some (confirmation_digest m approver);
          state = confirmed;
        })))

  unfoldable pub admit : Session → Proposal → Session
  unfolding seal
  admit m p = record m {
    store = record m.store {
      counter = m.store.counter + 1;
      journal = some (seal sha256 (admitted_journal m p m.store.journal p.request));
    };
    counter_floor = m.store.counter + 1;
    admission = consumed;
    state = admitted;
    intake_at = m.last_time;
    payload_at = m.last_time;
    received = map (λ (x : Member). record { member = x; received = 0 }) p.members;
  }

  abbrev pub reserve_result : Session → Proposal → ReserveResult → Session
  reserve_result m p not_written = fail admission_not_written m
  reserve_result m p reserve_unknown =
      fail persistence_uncertain
        (record m { counter_floor = m.store.counter + 1; admission = unknown_admission })
  reserve_result m p durable = admit m p

  abbrev pub reserve_case : Session → Option Proposal → String → ReserveResult → Session
  reserve_case m none head result = require_state (confirmed ∷ []) m m
  reserve_case m (some p) head result =
      let initial_head = maintenance_head_digest sha256 context.store in
      require_state (confirmed ∷ []) m (
        fail_if
          (not (str_eq head initial_head)
            || not (str_eq (maintenance_head_digest sha256 m.store) initial_head))
          head_changed m (reserve_result m p result))

  abbrev pub verify_payload_case : Session → Option Proposal → PayloadVerdict → Session
  verify_payload_case m none verdict = require_state (admitted ∷ []) m m
  verify_payload_case m (some p) verdict = require_state (admitted ∷ []) m (
      fail_if (not (m.member_index == length m.received) || not (is_payload_allowed verdict))
        payload_rejected m
        (fail_if (is_cleanup p) order_rejected m (record m { state = payload_verified })))

  unfoldable pub publish : Session → Proposal → Journal → Session
  unfolding seal
  publish m p j = record m {
    security_floor = published_floor m p;
    store = record m.store {
      journal = some (
          seal sha256 (record j {
            reserved_floor = published_floor m p;
            highest_generation = m.next_generation;
            phase = phase_publish_pending;
          }));
    };
    state = publish_pending;
  }

  -- The cases that change the journal follow an admission, which opened it.
  abbrev pub begin_publish_case : Session → Option Proposal → Option Journal → Quiescence → Session
  begin_publish_case m (some p) (some j) observed =
      require_state (payload_verified ∷ []) m
        (fail_if (not (is_quiescent observed)) runtime_busy m (publish m p j))
  begin_publish_case m _ _ observed = require_state (payload_verified ∷ []) m m

  unfoldable pub commit_publication : Session → Proposal → Journal → Session
  unfolding seal outcome_of
  commit_publication m p j = record m {
    store = record m.store {
      selection = p.desired;
      generation = m.next_generation;
      security_floor = m.security_floor;
      journal = some (seal sha256 (record j { candidate = p.desired; phase = phase_committed }));
    };
    outcome = outcome_of p.desired;
    state = committed;
  }

  abbrev pub commit_case : Session → Option Proposal → Option Journal → CommitVerdict → Session
  commit_case m (some p) (some j) verdict =
      require_state (publish_pending ∷ []) m
        (fail_if (not (is_consistent verdict)) persistence_uncertain m (commit_publication m p j))
  commit_case m _ _ verdict = require_state (publish_pending ∷ []) m m

  unfoldable pub cleanup_case : Session → CleanupResult → Session
  unfolding outcome_of completion
  cleanup_case m result =
      let told : Session = record m { outcome = outcome_of m.store.selection } in
      fail_if (not (may_clean_up m m.proposal)) order_rejected m (
        if is_failed result
        then record told { state = cleanup_pending; reason = some cleanup_incomplete }
        else completion told)

  -- The `switch` of the local events.
  unfoldable pub local_case : Session → Action → Session
  local_case m (observe_peers verdict helper client) = observe_peers_case m verdict helper client
  local_case m (review_offer verdict) = review_offer_case m m.proposal verdict
  local_case m (confirm digest approver decision) = confirm_case m digest approver decision
  local_case m (reserve head result) = reserve_case m m.proposal head result
  local_case m (verify_payload verdict) = verify_payload_case m m.proposal verdict
  local_case m (begin_publish observed) = begin_publish_case m m.proposal m.store.journal observed
  local_case m (commit verdict) = commit_case m m.proposal m.store.journal verdict
  local_case m (cleanup result) = cleanup_case m result
  local_case m (interrupt why) = fail why m
