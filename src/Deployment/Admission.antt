-- ===== src/Deployment/Admission.antt =====
-- tools/lib/deployment-model.mjs: `scopeReason` and `admissionReason`. Date.parse is the engine's,
-- and a parameter.
use sec_app.Base.{
  ℕ, ◌+◌, ◌-◌, ◌*◌, max, String, Bool, true, false, not, ◌&&◌, ◌||◌, Option, none, some, ltb, leb,
  ◌==◌, if◌then◌else◌, str_eq, opt_eq, is_some, any, max_safe_integer,
}
use sec_app.Data.Json.{nullable}
use sec_app.Data.Jcs.{jcs_sha256, same}
use sec_app.Deployment.Types.{
  Operation, install, update, enroll_backend, repair, uninstall, Decision, approved, declined,
  Machine, machine_a, machine_b, Selection, Snapshot, Intent, Confirmation, Scenario,
  selection_json, binding_json,
}

pub data Reason : Type 0 where
  generation_mismatch operation_scope_mismatch security_epoch_rejected confirmation_missing : Reason
  confirmation_declined confirmation_binding_mismatch confirmation_time_rejected : Reason
  confirmation_replay : Reason

abbrev pub operation_eq : Operation → Operation → Bool
operation_eq install install = true
operation_eq update update = true
operation_eq enroll_backend enroll_backend = true
operation_eq repair repair = true
operation_eq uninstall uninstall = true
operation_eq _ _ = false

abbrev pub machine_eq : Machine → Machine → Bool
machine_eq machine_a machine_a = true
machine_eq machine_b machine_b = true
machine_eq _ _ = false

abbrev pub is_approved : Decision → Bool
is_approved approved = true
is_approved declined = false

-- `current.selection?.security_epoch ?? 0`
abbrev pub epoch_of : Option Selection → ℕ
epoch_of none = 0
epoch_of (some t) = t.security_epoch

-- The keys of TUPLE_KEYS but backend_id and manifest_digest are equal.
unfoldable pub unchanged_but_backend : Selection → Selection → Bool
unchanged_but_backend current desired =
    str_eq current.app_id desired.app_id
    && str_eq current.supervisor_id desired.supervisor_id
    && str_eq current.policy_id desired.policy_id
    && str_eq current.compatibility_id desired.compatibility_id
    && (current.security_epoch == desired.security_epoch)
    && str_eq current.policy_digest desired.policy_digest

-- A desired selection below the floor or below the selected epoch.
abbrev pub below_floor : Snapshot → Option Selection → Bool
below_floor current none = false
below_floor current (some desired) =
    ltb desired.security_epoch (max current.security_floor (epoch_of current.selection))

module _ (sha256 : String → String) where
  -- `scopeReason`: whether the operation may take the current selection to the desired one.
  unfoldable pub in_scope : Operation → Option Selection → Option Selection → Bool
  unfolding same selection_json unchanged_but_backend
  in_scope install none (some desired) = not (is_some desired.backend_id)
  in_scope uninstall (some current) none = true
  in_scope repair (some current) desired =
      same sha256 (selection_json current) (nullable selection_json desired)
  in_scope update (some current) (some desired) =
      opt_eq current.backend_id desired.backend_id
      && not (str_eq current.manifest_digest desired.manifest_digest)
  in_scope enroll_backend (some current) (some desired) =
      not (is_some current.backend_id)
      && is_some desired.backend_id
      && unchanged_but_backend current desired
      && not (str_eq current.manifest_digest desired.manifest_digest)
  in_scope _ _ _ = false

  unfoldable pub maintenance_binding_digest : Machine → Snapshot → Intent → String
  unfolding jcs_sha256 binding_json
  maintenance_binding_digest machine snapshot intent =
      jcs_sha256 sha256 (binding_json machine snapshot intent)

  -- The receipt names this operation, machine, generation and binding.
  unfoldable pub binding_matches : Scenario → Confirmation → Bool
  unfolding maintenance_binding_digest
  binding_matches input receipt =
      operation_eq receipt.operation input.intent.operation
      && machine_eq receipt.machine_id input.machine_id
      && (receipt.expected_generation == input.snapshot.generation)
      && str_eq receipt.binding_digest
          (maintenance_binding_digest input.machine_id input.snapshot input.intent)

  module _ (date_parse : String → ℕ) where
    -- issued ≤ now < expires, for at most 300 seconds.
    unfoldable pub time_accepted : Scenario → Confirmation → Bool
    time_accepted input receipt =
        let now = date_parse input.simulated_at in
        let issued = date_parse receipt.issued_at in
        let expires = date_parse receipt.expires_at in
        leb issued now
        && ltb now expires
        && ltb issued expires
        && leb (expires - issued) (300 * 1000)

    -- The part of `admissionReason` that reads the receipt.
    unfoldable pub receipt_reason : Scenario → Option Confirmation → Option Reason
    unfolding binding_matches time_accepted
    receipt_reason input none = some confirmation_missing
    receipt_reason input (some receipt) =
        if not (is_approved receipt.decision)
        then some confirmation_declined
        else if not (binding_matches input receipt)
        then some confirmation_binding_mismatch
        else if not (time_accepted input receipt)
        then some confirmation_time_rejected
        else if any (str_eq receipt.nonce) input.used_nonces
        then some confirmation_replay
        else none

    unfoldable pub admission_reason : Scenario → Option Reason
    admission_reason input =
        let current = input.snapshot in
        let request = input.intent in
        if (current.generation == max_safe_integer)
          || not (request.expected_generation == current.generation)
          || not (request.next_generation == current.generation + 1)
        then some generation_mismatch
        else if not (in_scope request.operation current.selection request.desired)
        then some operation_scope_mismatch
        else if below_floor current request.desired
        then some security_epoch_rejected
        else receipt_reason input input.confirmation
