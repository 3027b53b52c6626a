-- ===== src/Lib.antt =====
-- SecApp, a development-only security auditing application: the models of its maintenance core, of
-- the canonical JSON that it digests, of the import of audit packages and the assessment of what they
-- observe, of the gate that a backend's output passes, of the interactive check that starts a
-- backend, and of the window's session.
--
-- The parts of the program and the files that model them:
-- - Canonical JSON: src's tools/lib/order.mjs and tools/lib/jcs.mjs are Data/Order.antt and
--   Data/Jcs.antt, over the JSON documents of Data/Json.antt and the numerals of
--   Data/Decimal.antt. `jcs`, `deleteJsonPointer`, `jcsSha256` and `digestWithExclusion` are
--   `jcs`, `delete_json_pointer`, `jcs_sha256` and `digest_with_exclusion`.
-- - Deployment: tools/lib/deployment-model.mjs is Deployment/Types.antt (the documents),
--   Deployment/Admission.antt (`scopeReason`, `admissionReason`) and Deployment/Run.antt
--   (`simulateDeployment`, its loop, and its `move` and `finish`).
-- - Maintenance persistence: tools/lib/maintenance-persistence-model.mjs is
--   Persistence/Types.antt and Persistence/Encode.antt (the documents), Persistence/State.antt
--   (the digests, `fromAnchor`, `headFor`), Persistence/Advance.antt (`advance`),
--   Persistence/Replay.antt (`replay`, `persistenceStateDigest`) and Persistence/Machine.antt
--   with its children (`simulateMaintenancePersistence`: Journal.antt, Replies.antt and
--   Checkpoint.antt have the cases of its switch, Run.antt its start, loop and `finish`).
-- - Maintenance protocol: tools/lib/maintenance-protocol-model.mjs is Protocol/Types.antt and
--   Protocol/Encode.antt (the documents), Protocol/Store.antt (`storeProblem`, `normalScope`,
--   `recoveryScope`), Protocol/Session.antt (the variables of the run, `fail`, `requireState`),
--   Protocol/Local.antt and Protocol/Wire.antt (the cases of the two switches) and
--   Protocol/Run.antt (`simulateMaintenanceProtocol`). Protocol/Valid.antt and
--   Protocol/Invariant.antt with its children have the lemmas on stores and on the loop.
-- - Maintenance recovery: tools/lib/maintenance-recovery-model.mjs is Recovery/Types.antt and
--   Recovery/Encode.antt (the documents), Recovery/Terms.antt (`checkMin`,
--   `checkRecoveryCapacity`), Recovery/State.antt (`fromAnchor`, `headFor`, `compactAnchor`,
--   `classify`), Recovery/Offer.antt (`basisFor`, `validateScope`, `validateAuthorization`),
--   Recovery/Advance.antt (`advance`, `reconstruct`, `inspectRecoverySnapshot`),
--   Recovery/Prepare.antt (`prepareRecoveryOffer`), and Recovery/Scenario.antt,
--   Recovery/Machine.antt and Recovery/Run.antt (`simulateMaintenanceRecovery`). Its `observe`
--   is the list of states that `reconstruct` gives beside its result.
-- - Output gate: src/backend/direct-defender-operation.mjs's `createDirectDefenderOutputGate` is
--   OutputGate.antt: the state of the closure is `Gate`, its methods are the constructors of
--   `Call`, and a throw is the reply `thrown`.
-- - Interactive flow: src/backend/defender-interactive-flow.mjs's `runDefenderCheckSession` is
--   InteractiveFlow.antt: the calls of `io` are `Effect`, their replies and throws are given by
--   a `World`, a function of the calls made so far, and `try` and `catch` are `attempt` and
--   `recover`.
-- - Desktop session: src/ui/defender-desktop-session.mjs's `createDefenderDesktopSession` is
--   DesktopSession.antt: its methods, its timer and what the workflow calls are the constructors
--   of `Call`, in any order, and a throw of `emit` is told by the function `breaks`.
-- - Protection assessment: src/assessment/windows-protection.mjs's `assessWindowsProtection` is
--   Assessment.antt, over any profile: `byArea` is the list of a `Tally`, and a rejection is the
--   constructor `rejects` of `Assessed`.
-- - Store codec: tools/lib/maintenance-store-codec.mjs is Frame.antt for the frame alone: what
--   `encodeMaintenanceStore` puts around the bytes of a payload and `decodeMaintenanceStore`
--   reads from them, over `digest`, SHA-256 of bytes, of which only the length of its result is
--   assumed.
-- - Import of audit packages: src/import/import-manifest.mjs's `finalizeAuditPackage` is
--   Importer/References.antt over the contracts of Importer/Subjects.antt, with what it calls in
--   Importer/Members.antt and Importer/Passes.antt; `reject` of import-errors.mjs is the
--   constructor `rejects` of Importer/Checked.antt, and a `Map` that `indexKind` makes is the
--   list of its members. A read of undefined is the code `undefined_read`. Importer/Linked.antt
--   with its children, Importer/Exact.antt, Importer/Resolved.antt, Importer/Founded.antt,
--   Importer/Placed.antt and Importer/Referenced.antt have the lemmas. `verifyActionLog` of
--   src/import/import-normalization.mjs is Importer/ActionLog.antt, over logs with all their
--   keys.
-- The maintenance models are independent of each other; both digest their documents by canonical JSON.
--
-- State. The variables of a run are a record (`Projection` of Deployment/Run.antt, `Machine` of
-- Persistence/Machine/Types.antt, `Session` of Protocol/Session.antt,
-- the `Machine` of Recovery/Scenario.antt) that each event takes to the next. An exception is a value: the
-- input error of the deployment model is `none`, a `Problem` of the persistence model is the
-- constructor `problem` of `Result`. A document that the source validates by shape (its keys, types,
-- enumerations and safe integers) is a record or a data type, so the shape checks have no counterpart.
--
-- Parameters. SHA-256 of a text's UTF-8 bytes (node:crypto) is `sha256`, a function on texts of which
-- nothing is assumed; Date.parse of a timestamp is `date_parse`, a function to milliseconds of which
-- nothing is assumed, and `format_time` writes milliseconds as its toISOString does. The preview of a backend's output
-- (src/backend/direct-defender-output.mjs) is `preview`, a function from bytes to an optional report. The local schema gate and the contract's
-- integrity check (src/import/import-normalization.mjs) of an assessment are `valid` and `intact`,
-- tests on observations, and that check is `verify_contract_integrity` in the import, a function on
-- contracts that rejects or not.
--
-- Bounds. Numbers are natural numbers; the source keeps them at most 2^53 - 1 and the models make the
-- source's comparisons with that bound. No definition runs on fuel but the decimal numeral of a
-- number, which is given the number itself; loops are recursion on the list of events or records.
--
-- Left out: of the projections the constant keys, their digests over themselves and these other
-- keys (`last_status` and `events_processed` of the persistence model,
-- `offer_expires_at_ms` and `events_processed` of the maintenance protocol, `events_processed` of the
-- recovery model); freezing and cloning (values are immutable here); the schema validation by Ajv;
-- and what canonical JSON refuses before it writes (proxies, cycles, accessors, unpaired surrogates),
-- which are no values here. The assessment is given a finished import: its checks of the import
-- result's status and privacy mode, and that the validators are there, are left out. An `emit` of the
-- desktop session that calls the session back is not modelled. The
-- file system, the console, the drawing of the desktop window, the native helpers and the
-- compatibility probes are not modelled.
pub mod Base
pub mod Data
pub mod Assessment
pub mod Deployment
pub mod DesktopSession
pub mod Frame
pub mod Importer
pub mod InteractiveFlow
pub mod OutputGate
pub mod Persistence
pub mod Protocol
pub mod Recovery
