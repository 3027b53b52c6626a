-- ===== src/Recovery/Examples.antt =====
-- A maintenance transaction from its offer to its completion, over a selection at epoch 4 and a floor
-- of 3.
use sec_app.Base.{
  ℕ, ◌+◌, ◌*◌, ◌%◌, String, true, none, some, List, [], ◌∷◌, ◌≡◌, refl, Memᴰ, str_eq, if◌then◌else◌,
}
use sec_app.Data.Decimal.{decimal}
use sec_app.Data.Order.{units}
use sec_app.Data.Jcs.{jcs_sha256}
use sec_app.Persistence.Types.{tx}
use sec_app.Recovery.Types.{
  maintenance, gives, ◌>>=◌, ◌>>◌, fail_if, known, Anchor, Context, Offer, Record, Storage, State,
  admission, RecordKind, Basis, stable,
}
use sec_app.Data.Json.{array}
use sec_app.Recovery.Encode.{record_json}
use sec_app.Recovery.State.{
  anchor_seal, from_anchor, head_for, compact_anchor, classify, offer_seal, state_hash, same_head,
  sealed_anchor,
}
use sec_app.Recovery.Terms.{opened, check_min, capacity, check_recovery_capacity}
use sec_app.Recovery.Offer.{same_basis, basis_for, validate_scope, validate_offer}
use sec_app.Recovery.Advance.{
  admitted_active, advance_admission, advance, links, reconstruct_record, reconstruct_from,
  reconstruct, inspect_recovery_snapshot,
}
use sec_app.Recovery.Machine.{
  check_admission, next_record, write_result, write_record_case, flushed_as, flush_case, read_as,
  read_back_case, head_result, write_head_case,
}
use sec_app.Recovery.Scenario.{
  Scenario, trusted_synthetic, ready, Event, write_record, write_head, flush, read_back,
  acknowledge, written, durable_hypothesis, matches, record_target, head_target, admission_phase,
  delivered,
}
use sec_app.Recovery.Run.{
  acknowledge_case, guarded, step, loop, start, project, finish, simulate_maintenance_recovery,
}
use sec_app.Recovery.Prepare.{Options, drafted, sealed_offer, released, prepare_recovery_offer}
use sec_app.Recovery.Prepare.Accepted.{Accepted, approved, prepare_recovery_offer-Accepted}
use sec_app.Recovery.Invariant.{WellFormed}
use sec_app.Recovery.Invariant.Advance.{Kept, advance-Kept}
use sec_app.Recovery.Invariant.Anchored.{
  Consented, Reconstructed, from_anchor-WellFormed, from_anchor-compact_anchor,
  reconstruct-Reconstructed, reconstruct-Consented,
}
use sec_app.Recovery.Invariant.Run.{Accounts, simulate-Accounts}
use sec_app.Recovery.Invariant.Minimum.{Remembers, simulate-Remembers}

-- A stand-in for node:crypto's SHA-256: a polynomial digest, in decimal.
abbrev fold : ℕ → List ℕ → ℕ
fold h [] = h
fold h (c ∷ cs) = fold ((h * 131 + c) % 1000003) cs

unfoldable hash : String → String
unfolding units decimal
hash s = decimal (fold 7 (units s))

-- Stand-ins for Date.parse and for its inverse: all times but one are the same.
abbrev clock : String → ℕ
clock s = if str_eq s "later" then 300000 else 0

abbrev calendar : ℕ → String
calendar t = "later"

abbrev blank_anchor : Anchor
blank_anchor = record {
  machine_id = "machine-A";
  sequence = 10;
  counter = 4;
  generation = 7;
  generation_floor = 7;
  security_floor = 3;
  selection = some (record { digest = "aa"; epoch = 4 });
  terminal = none;
  anchor_digest = "";
}

abbrev anchor : Anchor
anchor = record blank_anchor { anchor_digest = anchor_seal hash blank_anchor }

abbrev state : State
state = opened anchor

abbrev storage : Storage
storage = record {
  anchor = anchor;
  records = [];
  head = head_for hash state;
  checkpoint_candidate = none;
  obsolete_checkpoint = none;
  integrity = known;
}

abbrev context : Context
context = record {
  session_id = "session-1";
  peer_id = "peer-1";
  approver_id = "approver-1";
  challenge = "01";
  helper_digest = "bb";
  policy_digest = "cc";
  confirmation_text_digest = "dd";
}

-- A run that has no authorization yet.
abbrev unauthorized : List Event → Scenario
unauthorized events = record {
  simulated_at = "now";
  storage = storage;
  minimum = record { counter = 4; generation = 7; security_floor = 3 };
  context = context;
  evidence_trust = trusted_synthetic;
  coordinator = ready;
  quiescence = ready;
  authorization = none;
  events = events;
}

abbrev options : Options
options = record {
  candidate = some (some (record { digest = "ee"; epoch = 5 }));
  recovery_target = none;
  expires_at = none;
}

abbrev basis : Basis
basis = record {
  anchor_digest = anchor.anchor_digest;
  records_digest = jcs_sha256 hash (array record_json []);
  head = storage.head;
  checkpoint_candidate = none;
  obsolete_checkpoint = none;
  minimum = record { counter = 4; generation = 7; security_floor = 3 };
  state_digest = state_hash hash state;
  classification = stable;
  journal_bytes = 2;
  record_count = 0;
}

abbrev offer : Offer
offer =
    sealed_offer hash clock calendar (unauthorized [])
      (drafted hash clock calendar (unauthorized []) maintenance options state basis 6)

prepared :
    prepare_recovery_offer hash clock calendar (unauthorized []) maintenance options ≡ gives offer
unfolding ◌>>=◌ ◌>>◌ fail_if hash from_anchor reconstruct reconstruct_from classify check_min
    capacity check_recovery_capacity basis_for validate_scope head_for compact_anchor
    prepare_recovery_offer released sealed_offer anchor_seal same_head
prepared = refl

prepare_recovery_offer-Accepted_example : Accepted hash clock calendar (unauthorized []) offer
prepare_recovery_offer-Accepted_example =
    prepare_recovery_offer-Accepted hash clock calendar (unauthorized []) maintenance options offer
      prepared

abbrev authorized : List Event → Scenario
authorized events = record (unauthorized events) { authorization = some (approved offer) }

abbrev first_record : Record
first_record = next_record hash clock (authorized []) state admission

abbrev admitted_state : State
admitted_state = record state { counter = 5; active = some (admitted_active state offer none) }

advanced : advance hash state first_record storage ≡ gives admitted_state
unfolding ◌>>=◌ ◌>>◌ fail_if hash from_anchor reconstruct reconstruct_from classify check_min
    capacity check_recovery_capacity basis_for validate_scope head_for compact_anchor advance
    advance_admission validate_offer next_record sealed_offer offer_seal anchor_seal state_hash tx
    same_head same_basis
advanced = refl

anchored : from_anchor hash anchor ≡ gives state
unfolding ◌>>=◌ ◌>>◌ fail_if hash from_anchor anchor_seal
anchored = refl

state-WellFormed : WellFormed state
state-WellFormed = from_anchor-WellFormed hash anchor state anchored

advance-Kept_example : Kept hash 1 state admitted_state
unfolding next_record
advance-Kept_example =
    advance-Kept hash state admitted_state first_record storage state-WellFormed advanced

abbrev compacted_anchor : Anchor
compacted_anchor = sealed_anchor hash state

compacted : compact_anchor hash state ≡ gives compacted_anchor
unfolding ◌>>◌ fail_if compact_anchor
compacted = refl

from_anchor-compact_anchor_example :
    from_anchor hash compacted_anchor
    ≡ gives (record state { tail_digest = compacted_anchor.anchor_digest })
from_anchor-compact_anchor_example =
    from_anchor-compact_anchor hash state compacted_anchor state-WellFormed compacted

-- The journal after the admission.
abbrev admitted_storage : Storage
admitted_storage = record storage { records = first_record ∷ [] }

abbrev first_state : State
first_state = record admitted_state { sequence = 11; tail_digest = first_record.record_digest }

rebuilt : (reconstruct hash admitted_storage).1 ≡ gives first_state
unfolding ◌>>=◌ ◌>>◌ fail_if hash from_anchor reconstruct reconstruct_from classify check_min
    capacity check_recovery_capacity basis_for validate_scope head_for compact_anchor advance
    advance_admission validate_offer next_record sealed_offer reconstruct_record links anchor_seal
    offer_seal state_hash tx same_head same_basis
rebuilt = refl

reconstruct-Reconstructed_example : Reconstructed hash admitted_storage first_state
reconstruct-Reconstructed_example =
    reconstruct-Reconstructed hash admitted_storage first_state rebuilt

reconstruct-Consented_example : Consented hash first_record
unfolding next_record
reconstruct-Consented_example =
    reconstruct-Consented hash admitted_storage first_state first_record rebuilt (Memᴰ.head refl)
      refl

abbrev saved : RecordKind → List Event → List Event
saved kind more =
    write_record kind written
    ∷ flush record_target durable_hypothesis
    ∷ read_back record_target matches
    ∷ write_head written
    ∷ flush head_target durable_hypothesis
    ∷ read_back head_target matches
    ∷ more

abbrev whole : Scenario
whole = authorized (saved admission (acknowledge admission_phase delivered ∷ []))

known_after : (simulate_maintenance_recovery hash clock whole).selection_known ≡ true
unfolding ◌>>=◌ ◌>>◌ fail_if hash from_anchor reconstruct reconstruct_from classify check_min
    capacity check_recovery_capacity basis_for validate_scope head_for compact_anchor advance
    advance_admission validate_offer next_record sealed_offer reconstruct_record links
    simulate_maintenance_recovery finish project loop step start guarded write_record_case
    check_admission write_result flush_case flushed_as read_back_case read_as write_head_case
    head_result acknowledge_case inspect_recovery_snapshot anchor_seal same_head offer_seal
    state_hash tx same_basis
known_after = refl

simulate-Accounts_example :
    Accounts hash
      (simulate_maintenance_recovery hash clock whole).storage
      (simulate_maintenance_recovery hash clock whole).minimum
simulate-Accounts_example = simulate-Accounts hash clock whole known_after

simulate-Remembers_example :
    Remembers whole
      (reconstruct hash whole.storage).0
      (simulate_maintenance_recovery hash clock whole).minimum
simulate-Remembers_example = simulate-Remembers hash clock whole
