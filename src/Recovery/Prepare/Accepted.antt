-- ===== src/Recovery/Prepare/Accepted.antt =====
-- tools/lib/maintenance-recovery-model.mjs: an offer that is prepared is one that an admission takes.
use sec_app.Base.{
  Bool, eq_iff, leb, ℕ, ◌+◌, String, true, false, some, ◌≡◌, refl, sym, ap, ◌∙◌, arith, eq_refl,
  subst,
}
use sec_app.Data.Json.{Json}
use sec_app.Data.Jcs.{same, jcs_sha256}
use sec_app.Persistence.Types.{tx}
use sec_app.Recovery.Types.{
  Operation, Checked, gives, ◌>>=◌, ◌>>◌, fail_if, approved_synthetic, Problem, Storage, Minimum,
  Basis, Offer, Authorization, State,
}
use sec_app.Recovery.Encode.{offer_body, context_json, minimum_json}
use sec_app.Recovery.State.{offer_seal}
use sec_app.Recovery.Terms.{capacity}
use sec_app.Recovery.Offer.{basis_for, same_basis, validate_scope, validate_offer}
use sec_app.Recovery.Advance.{reconstruct}
use sec_app.Recovery.Machine.{check_admission}
use sec_app.Recovery.Scenario.{Scenario}
use sec_app.Recovery.Invariant.{fail_if-gives, check-gives, bind-gives, gives-injective}
use sec_app.Recovery.Prepare.{Options, drafted, sealed_offer, released, prepare_recovery_offer}

-- An offer with the approval of its digest.
abbrev pub approved : Offer → Authorization
approved o = record {
  offer = o;
  confirmation = record { decision = approved_synthetic; offer_digest = o.offer_digest };
}

module _ (sha256 : String → String) (date_parse : String → ℕ) (format_time : ℕ → String)
    (input : Scenario) where
  -- An offer that the checks of an admission take, on the storage that it was made on.
  pub record Accepted (o : Offer) : Type 0 where
    pub state : State
    pub rebuilt : (reconstruct sha256 input.storage).1 ≡ gives state
    pub admitted : check_admission sha256 date_parse input (some (approved o)) ≡ gives tt
    pub valid : validate_offer sha256 input.storage state (approved o) ≡ gives tt

  same_basis_refl : (b : Basis) → same_basis sha256 b b ≡ true
  unfolding same_basis same
  same_basis_refl b = eq_refl _

  offer_seal-sealed_offer :
      (o : Offer)
      → offer_seal sha256 (sealed_offer sha256 date_parse format_time input o) ≡ offer_seal sha256 o
  unfolding offer_seal sealed_offer offer_body
  offer_seal-sealed_offer o = refl

  check_passes :
      (c : Bool) (p : Problem) (m : Checked (Unit {0})) → c ≡ false → (fail_if c p >> m) ≡ m
  unfolding fail_if ◌>>◌
  check_passes c p m h = rw h refl

  bind_passes {ℓ} :
      {A : Type ℓ} (x : Checked A) (a : A) (k : A → Checked (Unit {0}))
      → x ≡ gives a
      → (x >>= k) ≡ k a
  unfolding ◌>>=◌
  bind_passes x a k h = rw h refl

  -- The checks of an authorization pass where each of its parts is as they ask.
  accepts :
      (disk : Storage) (s : State) (o : Offer)
      → o.offer_digest ≡ offer_seal sha256 o
      → basis_for sha256 disk s o.basis.minimum ≡ gives o.basis
      → capacity disk s o.operation ≡ gives o.required_records
      → o.transaction_id ≡ tx (s.counter + 1)
      → validate_scope sha256 s o ≡ gives tt
      → validate_offer sha256 disk s (approved o) ≡ gives tt
  unfolding validate_offer
  accepts disk s o digest basis required named scope =
      check_passes _ _ _
        (ground (arith, digest, (eq_iff o.offer_digest (offer_seal sha256 o)).1 digest))
      ∙ check_passes _ _ _ (ground (arith, eq_refl o.offer_digest))
      ∙ bind_passes _ o.basis _ basis
      ∙ check_passes _ _ _ (ground (arith, same_basis_refl o.basis))
      ∙ bind_passes _ o.required_records _ required
      ∙ check_passes _ _ _ (ground (arith, (eq_iff o.transaction_id (tx (s.counter + 1))).1 named))
      ∙ scope

  -- What the making of an offer went through.
  record Made (op : Operation) (options : Options) (o : Offer) : Type 0 where
    state : State
    basis : Basis
    required : ℕ
    rebuilt : (reconstruct sha256 input.storage).1 ≡ gives state
    based : basis_for sha256 input.storage state input.minimum ≡ gives basis
    costed : capacity input.storage state op ≡ gives required
    scoped : validate_scope sha256 state o ≡ gives tt
    current : leb (date_parse o.expires_at) (date_parse input.simulated_at) ≡ false
    shape :
        sealed_offer sha256 date_parse format_time input
          (drafted sha256 date_parse format_time input op options state basis required)
        ≡ o

  prepare-Made :
      (op : Operation) (options : Options) (o : Offer)
      → prepare_recovery_offer sha256 date_parse format_time input op options ≡ gives o
      → Made op options o
  unfolding prepare_recovery_offer released
  prepare-Made op options o h =
      let (s, rebuilt, h1) = bind-gives _ _ o (fail_if-gives _ _ _ o h).1 in
      let (b, based, h2) = bind-gives _ _ o h1 in
      let (n, costed, h3) = bind-gives _ _ o h2 in
      let (current, h4) = fail_if-gives _ _ _ o h3 in
      let (scoped, h5) = check-gives _ _ o h4 in
      let same = gives-injective _ o h5 in
      record {
        state = s;
        basis = b;
        required = n;
        rebuilt = rebuilt;
        based = based;
        costed = costed;
        scoped = subst (λ x. validate_scope sha256 s x ≡ gives tt) same scoped;
        current =
            subst
              (λ x. leb (date_parse (Offer.expires_at x)) (date_parse input.simulated_at) ≡ false)
              same current;
        shape = same;
      }

  basis_for-minimum :
      (disk : Storage) (s : State) (l : Minimum) (b : Basis)
      → basis_for sha256 disk s l ≡ gives b
      → b.minimum ≡ l
  unfolding basis_for
  basis_for-minimum disk s l b h =
      let (class, _, h1) = bind-gives _ _ b h in sym (ap Basis.minimum (gives-injective _ b h1))

  same_refl : (v : Json) → same sha256 v v ≡ true
  unfolding same
  same_refl v = eq_refl (jcs_sha256 sha256 v)

  admits_current :
      (o : Offer)
      → o.context ≡ input.context
      → o.basis.minimum ≡ input.minimum
      → leb (date_parse o.expires_at) (date_parse input.simulated_at) ≡ false
      → check_admission sha256 date_parse input (some (approved o)) ≡ gives tt
  unfolding check_admission fail_if
  admits_current o context minimum current =
      let c : same sha256 (context_json o.context) (context_json input.context) ≡ true =
        ap (λ x. same sha256 (context_json x) (context_json input.context)) context
        ∙ same_refl (context_json input.context) in
      let m : same sha256 (minimum_json o.basis.minimum) (minimum_json input.minimum) ≡ true =
        ap (λ x. same sha256 (minimum_json x) (minimum_json input.minimum)) minimum
        ∙ same_refl (minimum_json input.minimum) in
      check_passes _ _ _ (ground (arith, c, m)) ∙ rw current refl

  drafted-Accepted :
      (op : Operation) (options : Options) (s : State) (b : Basis) (n : ℕ) (o : Offer)
      → drafted sha256 date_parse format_time input op options s b n ≡ o
      → (reconstruct sha256 input.storage).1 ≡ gives s
      → basis_for sha256 input.storage s input.minimum ≡ gives b
      → capacity input.storage s op ≡ gives n
      → leb (date_parse o.expires_at) (date_parse input.simulated_at) ≡ false
      → validate_scope sha256 s (sealed_offer sha256 date_parse format_time input o) ≡ gives tt
      → Accepted (sealed_offer sha256 date_parse format_time input o)
  unfolding sealed_offer
  drafted-Accepted op options s b n o made rebuilt based costed current scoped =
      let minimum = basis_for-minimum input.storage s input.minimum b based in
      let on : o.basis ≡ b = ap Offer.basis (sym made) in
      let sealed = sealed_offer sha256 date_parse format_time input o in
      record {
        state = s;
        rebuilt = rebuilt;
        admitted =
            admits_current sealed (ap Offer.context (sym made)) (ap Basis.minimum on ∙ minimum)
              current;
        valid =
            accepts input.storage s sealed (sym (offer_seal-sealed_offer o))
              (ap (λ l. basis_for sha256 input.storage s l) (ap Basis.minimum on ∙ minimum)
                ∙ based
                ∙ ap gives (sym on))
              (subst
                (λ x.
                  capacity input.storage s (Offer.operation x) ≡ gives (Offer.required_records x))
                made costed)
              (ap Offer.transaction_id (sym made)) scoped;
      }

  -- An offer that is prepared is taken once its digest is approved: the checks of an admission of the
  -- same run, and those of an authorization on the same storage, accept it.
  pub prepare_recovery_offer-Accepted :
      (op : Operation) (options : Options) (o : Offer)
      → prepare_recovery_offer sha256 date_parse format_time input op options ≡ gives o
      → Accepted o
  unfolding sealed_offer
  prepare_recovery_offer-Accepted op options o h =
      let m = prepare-Made op options o h in
      subst Accepted m.shape (
        drafted-Accepted op options m.state m.basis m.required
          (drafted sha256 date_parse format_time input op options m.state m.basis m.required) refl
          m.rebuilt m.based m.costed
          (subst
            (λ x. leb (date_parse (Offer.expires_at x)) (date_parse input.simulated_at) ≡ false)
            (sym m.shape) m.current)
          (subst (λ x. validate_scope sha256 m.state x ≡ gives tt) (sym m.shape) m.scoped))
