-- ===== src/Deployment/Scope.antt =====
-- tools/lib/deployment-model.mjs: the scope of an operation, stated on its own.
use sec_app.Base.{
  String, true, false, Option, none, some, ◌≡◌, ◌≢◌, ◌↔◌, refl, ap, arith, opt_eq, eq_iff, eq_refl,
  is_some, opt_eq-some,
}
use sec_app.Data.Json.{nullable}
use sec_app.Data.Jcs.{jcs_sha256}
use sec_app.Deployment.Types.{
  Operation, install, update, enroll_backend, repair, uninstall, Selection, selection_json,
}
use sec_app.Deployment.Admission.{unchanged_but_backend, in_scope}

-- Two selections that agree in all but the backend and the manifest.
pub record Unchanged (c d : Selection) : Type 0 where
  pub app : c.app_id ≡ d.app_id
  pub supervisor : c.supervisor_id ≡ d.supervisor_id
  pub policy : c.policy_id ≡ d.policy_id
  pub compatibility : c.compatibility_id ≡ d.compatibility_id
  pub epoch : c.security_epoch ≡ d.security_epoch
  pub policy_bytes : c.policy_digest ≡ d.policy_digest

-- What an operation may do to the selection: an installation selects what has no backend where
-- nothing was selected; an uninstallation leaves nothing selected; a repair changes nothing; an update
-- changes the manifest and keeps the backend; an enrolment adds a backend, with its manifest, and
-- changes nothing else.
pub data InScope (sha256 : String → String)
    : Operation → Option Selection → Option Selection → Type 0 where
  installs : {d : Selection} → d.backend_id ≡ none → InScope sha256 install none (some d)
  uninstalls : {c : Selection} → InScope sha256 uninstall (some c) none
  repairs :
      {c : Selection} {desired : Option Selection}
      → jcs_sha256 sha256 (selection_json c) ≡ jcs_sha256 sha256 (nullable selection_json desired)
      → InScope sha256 repair (some c) desired
  updates :
      {c d : Selection}
      → c.backend_id ≡ d.backend_id
      → c.manifest_digest ≢ d.manifest_digest
      → InScope sha256 update (some c) (some d)
  enrolls :
      {c d : Selection} {backend : String}
      → c.backend_id ≡ none
      → d.backend_id ≡ some backend
      → Unchanged c d
      → c.manifest_digest ≢ d.manifest_digest
      → InScope sha256 enroll_backend (some c) (some d)

opt_eq_lem : (a b : Option String) → opt_eq a b ≡ true → a ≡ b
opt_eq_lem none none h = refl
opt_eq_lem none (some t) h = absurd (ground arith)
opt_eq_lem (some s) none h = absurd (ground arith)
opt_eq_lem (some s) (some t) h = opt_eq-some (some s) t h

opt_eq_same : (a : Option String) → opt_eq a a ≡ true
opt_eq_same none = refl
opt_eq_same (some s) = eq_refl s

none_lem : (a : Option String) → is_some a ≡ false → a ≡ none
none_lem none h = refl
none_lem (some s) h = absurd (ground arith)

given_lem : (a : Option String) → is_some a ≡ true → (s : String) × (a ≡ some s)
given_lem none h = absurd (ground arith)
given_lem (some s) h = (s, refl)

unchanged_but_backend-Unchanged :
    (c d : Selection) → (unchanged_but_backend c d ≡ true) ↔ Unchanged c d
unfolding unchanged_but_backend
unchanged_but_backend-Unchanged c d = (
  λ h. record {
    app = ground (arith, eq_iff c.app_id d.app_id);
    supervisor = ground (arith, eq_iff c.supervisor_id d.supervisor_id);
    policy = ground (arith, eq_iff c.policy_id d.policy_id);
    compatibility = ground (arith, eq_iff c.compatibility_id d.compatibility_id);
    epoch = ground arith;
    policy_bytes = ground (arith, eq_iff c.policy_digest d.policy_digest);
  },
  λ h. ground (
    arith,
    h,
    eq_iff c.app_id d.app_id,
    eq_iff c.supervisor_id d.supervisor_id,
    eq_iff c.policy_id d.policy_id,
    eq_iff c.compatibility_id d.compatibility_id,
    eq_iff c.policy_digest d.policy_digest,
  ),
)

module _ (sha256 : String → String) where
  pub in_scope-InScope :
      (o : Operation) (s t : Option Selection) → in_scope sha256 o s t ≡ true → InScope sha256 o s t
  unfolding in_scope
  in_scope-InScope install none (some d) h = installs (none_lem d.backend_id (ground arith))
  in_scope-InScope uninstall (some c) none h = uninstalls
  in_scope-InScope repair (some c) t h = repairs ((eq_iff _ _).0 h)
  in_scope-InScope update (some c) (some d) h =
      updates (opt_eq_lem c.backend_id d.backend_id (ground arith))
        (ground (arith, eq_iff c.manifest_digest d.manifest_digest))
  in_scope-InScope enroll_backend (some c) (some d) h =
      let (backend, given) = given_lem d.backend_id (ground arith) in
      enrolls (none_lem c.backend_id (ground arith)) given
        ((unchanged_but_backend-Unchanged c d).0 (ground arith))
        (ground (arith, eq_iff c.manifest_digest d.manifest_digest))
  in_scope-InScope install none none h = absurd (ground arith)
  in_scope-InScope install (some c) t h = absurd (ground arith)
  in_scope-InScope uninstall none t h = absurd (ground arith)
  in_scope-InScope uninstall (some c) (some d) h = absurd (ground arith)
  in_scope-InScope repair none t h = absurd (ground arith)
  in_scope-InScope update none t h = absurd (ground arith)
  in_scope-InScope update (some c) none h = absurd (ground arith)
  in_scope-InScope enroll_backend none t h = absurd (ground arith)
  in_scope-InScope enroll_backend (some c) none h = absurd (ground arith)

  pub InScope-in_scope :
      {o : Operation} {s t : Option Selection} → InScope sha256 o s t → in_scope sha256 o s t ≡ true
  unfolding in_scope
  InScope-in_scope (installs {d} e) = rw e refl
  InScope-in_scope uninstalls = refl
  InScope-in_scope (repairs e) = (eq_iff _ _).1 e
  InScope-in_scope (updates {c} {d} e m) = ground (
    arith,
    opt_eq_same d.backend_id,
    ap (λ x. opt_eq x d.backend_id) e,
    m,
    eq_iff c.manifest_digest d.manifest_digest,
  )
  InScope-in_scope (enrolls {c} {d} e given u m) = ground (
    arith,
    e,
    given,
    (unchanged_but_backend-Unchanged c d).1 u,
    m,
    eq_iff c.manifest_digest d.manifest_digest,
  )
