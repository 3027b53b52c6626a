-- ===== src/Protocol/Examples.antt =====
-- An installation from the first hello to its cleanup, on a machine whose counter stands at 4.
use sec_app.Base.{
  ℕ, ◌+◌, ◌*◌, ◌%◌, String, none, some, Option, List, [], ◌∷◌, ◌≡◌, ◌≢◌, refl, arith, ◌++◌,
}
use sec_app.Data.Decimal.{decimal}
use sec_app.Data.Order.{units}
use sec_app.Data.Jcs.{jcs_sha256}
use sec_app.Deployment.Types.{Selection, machine_a, install, approved}
use sec_app.Persistence.Types.{tx}
use sec_app.Protocol.Types
use sec_app.Protocol.Types.{
  Store, Context, known, Member, Proposal, maintenance, Payload, helper_hello, client_bind,
  propose_operation, verified_offer, payload_chunk, Message, matched, review_allowed, durable,
  payload_allowed, quiescent, consistent, complete, observe_peers, review_offer, confirm, reserve,
  verify_payload, begin_publish, commit, cleanup, delivered, Event, local, wire, Scenario,
  LastResult, Journal,
}
use sec_app.Protocol.Encode.{payload_json}
use sec_app.Protocol.Store.{maintenance_head_digest, store_problem, in_scope}
use sec_app.Protocol.Session.{consumed, not_consumed, require_state, fail_if}
use sec_app.Protocol.Local.{
  text_of, offer_digest, admit, publish, commit_publication, completion, outcome_of, cleanup_case,
  local_case,
}
use sec_app.Protocol.Wire.{
  propose_operation_case, take_payload, message_case, counted_frame, sequenced, counted_case,
  wire_case,
}
use sec_app.Protocol.Run.{
  event_case, timed_case, step, loop, initial, hide_pending, project, simulate_maintenance_protocol,
}
use sec_app.Protocol.Invariant.{Approved}
use sec_app.Protocol.Invariant.Run.{
  ShownStore, ShownAt, projected_store-ShownStore, projected_store-ShownAt, admission-Approved,
}

-- A stand-in for node:crypto's SHA-256: a polynomial digest, in decimal.
abbrev fold : ℕ → List ℕ → ℕ
fold h [] = h
fold h (c ∷ cs) = fold ((h * 131 + c) % 1000003) cs

unfoldable hash : String → String
unfolding units decimal
hash s = decimal (fold 7 (units s))

abbrev empty_store : Store
empty_store = record {
  machine_id = machine_a;
  counter = 4;
  generation = 7;
  security_floor = 3;
  selection = none;
  journal = none;
  last_result = none;
}

abbrev context : Context
context = record {
  helper_instance = "helper-1";
  client_instance = "client-1";
  helper_identity_digest = "aa";
  policy_digest = "bb";
  consent_text_digest = "cc";
  storage_status = known;
  store = empty_store;
}

abbrev build : Selection
build = record {
  app_id = "app-1";
  supervisor_id = "supervisor-1";
  backend_id = none;
  policy_id = "policy-1";
  compatibility_id = "compat-1";
  security_epoch = 5;
  manifest_digest = "dd";
  policy_digest = "ee";
}

abbrev proposal : Proposal
proposal = record {
  request = maintenance install;
  expected_head_digest = maintenance_head_digest hash empty_store;
  expected_generation = 7;
  desired = some build;
  members = record { member_id = "app"; size_bytes = 10; file_digest = "ff" } ∷ [];
}

abbrev message : Option String → ℕ → Payload → Message
message t n x = record {
  channel_id = "channel-1";
  transaction_id = t;
  sequence = n;
  payload = x;
  payload_digest = jcs_sha256 hash (payload_json x);
}

abbrev says : ℕ → Option String → ℕ → Payload → Event
says at t n x = wire at delivered (message t n x)

-- Up to the review.
abbrev paired : List Event
paired =
    local 10 (observe_peers matched "helper-1" "client-1")
    ∷ says 20 none 1 (helper_hello "01" "helper-1")
    ∷ says 30 none 1 (client_bind "01" "02" "client-1")
    ∷ says 40 (some "synthetic-tx-5") 2 (propose_operation proposal)
    ∷ local 50 (review_offer review_allowed)
    ∷ []

-- The digest of the offer that the review makes.
abbrev digest : String
digest = text_of (loop hash context (initial hash context) paired).offer_digest

abbrev scenario : Scenario
scenario = record {
  context = context;
  events =
      paired
      ++ says 60 (some "synthetic-tx-5") 2 (verified_offer digest 300050)
        ∷ local 70 (confirm digest "approver-1" approved)
        ∷ local 80 (reserve (maintenance_head_digest hash empty_store) durable)
        ∷ says 90 (some "synthetic-tx-5") 3 (payload_chunk "app" 0 10 "ff")
        ∷ local 100 (verify_payload payload_allowed)
        ∷ local 110 (begin_publish quiescent)
        ∷ local 120 (commit consistent)
        ∷ local 130 (cleanup complete)
        ∷ [];
}

abbrev installed : Store
installed = record empty_store {
  counter = 5;
  generation = 8;
  security_floor = 5;
  selection = some build;
  last_result = some (record {
    transaction_id = "synthetic-tx-5";
    counter = 5;
    offer_digest = digest;
    outcome = Types.backend_not_enrolled;
  });
}

stages : (simulate_maintenance_protocol hash scenario).state ≡ Types.completed
unfolding simulate_maintenance_protocol step loop event_case timed_case hide_pending project
    local_case wire_case counted_case message_case propose_operation_case take_payload admit publish
    commit_publication completion cleanup_case require_state fail_if counted_frame sequenced
    in_scope store_problem outcome_of maintenance_head_digest tx decimal hash offer_digest
stages = refl

shown : (simulate_maintenance_protocol hash scenario).projected_store ≡ some installed
unfolding simulate_maintenance_protocol step loop event_case timed_case hide_pending project
    local_case wire_case counted_case message_case propose_operation_case take_payload admit publish
    commit_publication completion cleanup_case require_state fail_if counted_frame sequenced
    in_scope store_problem outcome_of maintenance_head_digest tx decimal hash offer_digest
shown = refl

spent : (simulate_maintenance_protocol hash scenario).admission ≡ consumed
unfolding simulate_maintenance_protocol step loop event_case timed_case hide_pending project
    local_case wire_case counted_case message_case propose_operation_case take_payload admit publish
    commit_publication completion cleanup_case require_state fail_if counted_frame sequenced
    in_scope store_problem outcome_of maintenance_head_digest tx decimal hash offer_digest
spent = refl

projected_store-ShownStore_example :
    ShownStore context hash (simulate_maintenance_protocol hash scenario).security_floor installed
projected_store-ShownStore_example = projected_store-ShownStore hash scenario installed shown

projected_store-ShownAt_example :
    ShownAt context hash
      (simulate_maintenance_protocol hash scenario).admission
      (simulate_maintenance_protocol hash scenario).counter_floor
      installed
projected_store-ShownAt_example = projected_store-ShownAt hash scenario installed shown

was_spent : (simulate_maintenance_protocol hash scenario).admission ≢ not_consumed
was_spent e = ground (arith, spent)

admission-Approved_example :
    Approved context scenario.events (simulate_maintenance_protocol hash scenario).offer_digest
admission-Approved_example = admission-Approved hash scenario was_spent
