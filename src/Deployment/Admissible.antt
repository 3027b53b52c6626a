-- ===== src/Deployment/Admissible.antt =====
-- The conditions of an admission, stated on their own, and that `admissionReason` decides them.
use sec_app.Base.{
  ℕ, ◌+◌, ◌≤◌, ◌<◌, String, false, Option, none, some, max, ◌≡◌, ◌≢◌, ◌↔◌, refl, inl, inr, arith,
  any, str_eq, any-mem, mem-any, Memᴰ, eq_iff, max_safe_integer, Bool-cases, Option-cases,
}
use sec_app.Deployment.Types.{approved, Selection, Scenario, Confirmation}
use sec_app.Deployment.Admission.{
  epoch_of, maintenance_binding_digest, receipt_reason, below_floor, admission_reason,
}
use sec_app.Deployment.Scope.{InScope, in_scope-InScope, InScope-in_scope}

-- The receipt approves this operation, on this machine, at this generation and binding, now, and
-- its nonce is unused.
pub record Confirms (sha256 : String → String) (date_parse : String → ℕ) (i : Scenario)
    (c : Confirmation) : Type 0 where
  pub decision : c.decision ≡ approved
  pub operation : c.operation ≡ i.intent.operation
  pub machine : c.machine_id ≡ i.machine_id
  pub generation : c.expected_generation ≡ i.snapshot.generation
  pub binding :
      c.binding_digest ≡ maintenance_binding_digest sha256 i.machine_id i.snapshot i.intent
  pub issued : date_parse c.issued_at ≤ date_parse i.simulated_at
  pub current : date_parse i.simulated_at < date_parse c.expires_at
  pub short : date_parse c.expires_at ≤ date_parse c.issued_at + 300000
  pub fresh : ¬ Memᴰ c.nonce i.used_nonces

pub record Admissible (sha256 : String → String) (date_parse : String → ℕ) (i : Scenario)
    : Type 0 where
  pub expected : i.intent.expected_generation ≡ i.snapshot.generation
  pub next : i.intent.next_generation ≡ i.snapshot.generation + 1
  pub safe : i.snapshot.generation ≢ max_safe_integer
  pub scope : InScope sha256 i.intent.operation i.snapshot.selection i.intent.desired
  pub epoch :
      (d : Selection)
      → i.intent.desired ≡ some d
      → max i.snapshot.security_floor (epoch_of i.snapshot.selection) ≤ d.security_epoch
  pub receipt : (c : Confirmation) × (i.confirmation ≡ some c) × Confirms sha256 date_parse i c

module _ (sha256 : String → String) (date_parse : String → ℕ) (i : Scenario) where
  -- The nonce test, both ways.
  unused :
      (c : Confirmation) → any (str_eq c.nonce) i.used_nonces ≡ false → ¬ Memᴰ c.nonce i.used_nonces
  unused c h m = cc (mem-any c.nonce i.used_nonces m)

  unused' :
      (c : Confirmation) → ¬ Memᴰ c.nonce i.used_nonces → any (str_eq c.nonce) i.used_nonces ≡ false
  unused' c h = elim (Bool-cases (any (str_eq c.nonce) i.used_nonces)) [
    | inl e ↦ absurd (h (any-mem c.nonce i.used_nonces e))
    | inr e ↦ e
  ]

  abbrev bound : String
  bound = maintenance_binding_digest sha256 i.machine_id i.snapshot i.intent

  receipt_sound :
      (c : Confirmation)
      → receipt_reason sha256 date_parse i (some c) ≡ none
      → Confirms sha256 date_parse i c
  unfolding receipt_reason
  receipt_sound c h = ground (arith, eq_iff c.binding_digest bound, unused c)

  receipt_complete :
      (c : Confirmation)
      → Confirms sha256 date_parse i c
      → receipt_reason sha256 date_parse i (some c) ≡ none
  unfolding receipt_reason
  receipt_complete c h = ground (arith, eq_iff c.binding_digest bound, unused' c h.fresh)

  epoch_sound :
      below_floor i.snapshot i.intent.desired ≡ false
      → (d : Selection) → i.intent.desired ≡ some d
      → max i.snapshot.security_floor (epoch_of i.snapshot.selection) ≤ d.security_epoch
  epoch_sound h d e = ground arith

  receipt_given :
      (o : Option Confirmation)
      → receipt_reason sha256 date_parse i o ≡ none
      → (c : Confirmation) × (o ≡ some c) × Confirms sha256 date_parse i c
  unfolding receipt_reason
  receipt_given none h = cc
  receipt_given (some c) h = (c, refl, receipt_sound c h)

  Admissible-sound : admission_reason sha256 date_parse i ≡ none → Admissible sha256 date_parse i
  unfolding admission_reason
  Admissible-sound h = record {
    expected = ground arith;
    next = ground arith;
    safe = ground arith;
    scope =
        in_scope-InScope sha256 i.intent.operation i.snapshot.selection i.intent.desired
          (ground arith);
    epoch = epoch_sound (ground arith);
    receipt = receipt_given i.confirmation (ground arith);
  }

  epoch_complete :
      ((d : Selection)
        → i.intent.desired ≡ some d
        → max i.snapshot.security_floor (epoch_of i.snapshot.selection) ≤ d.security_epoch)
      → below_floor i.snapshot i.intent.desired ≡ false
  epoch_complete h = elim (Option-cases i.intent.desired) [
    | inl e ↦ rw e
    | inr (d, e) ↦ rw e (ground (arith, h d e))
  ]

  receipt_accepted :
      (c : Confirmation) × (i.confirmation ≡ some c) × Confirms sha256 date_parse i c
      → receipt_reason sha256 date_parse i i.confirmation ≡ none
  unfolding receipt_reason
  receipt_accepted (c, e, h) = rw e (receipt_complete c h)

  Admissible-complete : Admissible sha256 date_parse i → admission_reason sha256 date_parse i ≡ none
  unfolding admission_reason
  Admissible-complete h = ground (
    arith,
    h.safe,
    InScope-in_scope sha256 h.scope,
    epoch_complete h.epoch,
    receipt_accepted h.receipt,
  )

  -- The code admits an operation exactly when it meets the conditions: the generation is the current
  -- one and can grow, the change is one that the operation stands for (an installation without a
  -- backend, an uninstallation, an unchanged selection, another manifest with the same backend, or a
  -- backend added with its manifest and nothing else), the desired epoch is not below the floor nor
  -- the selected epoch, and an unused, current receipt approves exactly this binding.
  pub admission_reason-Admissible :
      (admission_reason sha256 date_parse i ≡ none) ↔ Admissible sha256 date_parse i
  admission_reason-Admissible = (Admissible-sound, Admissible-complete)
