-- ===== src/Recovery/Prepare.antt =====
-- tools/lib/maintenance-recovery-model.mjs: `prepareRecoveryOffer`.
pub mod Accepted
use sec_app.Base.{ℕ, ◌+◌, String, not, Option, none, some, leb, if◌then◌else◌}
use sec_app.Persistence.Types.{tx}
use sec_app.Recovery.Types.{
  Operation, Target, no_target, Checked, gives, ◌>>=◌, ◌>>◌, fail_if, unknown_evidence,
  offer_expired, Selection, Basis, Offer, State,
}
use sec_app.Recovery.State.{offer_seal}
use sec_app.Recovery.Terms.{capacity}
use sec_app.Recovery.Offer.{origin_of, scope_for, basis_for, validate_scope}
use sec_app.Recovery.Advance.{reconstruct}
use sec_app.Recovery.Scenario.{Scenario}
use sec_app.Recovery.Run.{is_trusted}

-- The options, each of which may be left out.
pub record Options : Type 0 where
  pub candidate : Option (Option Selection)
  pub recovery_target : Option Target
  pub expires_at : Option String

abbrev or_else {ℓ} : {A : Type ℓ} → Option A → A → A
or_else none x = x
or_else (some y) x = y

-- `format_time` writes a time in milliseconds as Date.prototype.toISOString does, without a zero fraction.
module _ (sha256 : String → String) (date_parse : String → ℕ) (format_time : ℕ → String)
    (input : Scenario) where
  -- The offer before its digest.
  abbrev pub drafted : Operation → Options → State → Basis → ℕ → Offer
  drafted operation options s basis required = record {
    operation = operation;
    transaction_id = tx (s.counter + 1);
    origin_transaction_id = origin_of s.active;
    candidate = or_else options.candidate s.selection;
    recovery_target = or_else options.recovery_target no_target;
    effects_scope = scope_for operation;
    basis = basis;
    context = input.context;
    required_records = required;
    expires_at = or_else options.expires_at (format_time (date_parse input.simulated_at + 300000));
    offer_digest = "";
  }

  unfoldable pub sealed_offer : Offer → Offer
  sealed_offer o = record o { offer_digest = offer_seal sha256 o }

  -- The checks of an offer that was made.
  unfoldable pub released : State → Offer → Checked Offer
  released s o = do
    fail_if (leb (date_parse o.expires_at) (date_parse input.simulated_at)) offer_expired
    validate_scope sha256 s o
    gives o

  unfoldable pub prepare_recovery_offer : Operation → Options → Checked Offer
  prepare_recovery_offer operation options = do
    fail_if (not (is_trusted input.evidence_trust)) unknown_evidence
    s ← (reconstruct sha256 input.storage).1
    basis ← basis_for sha256 input.storage s input.minimum
    required ← capacity input.storage s operation
    released s (sealed_offer (drafted operation options s basis required))
