-- ===== src/Lib.antt =====
-- A model of the provable agent reference framework: a chain of records, each content-addressed and
-- bound to the one before it, that leads from an agent's draft to one authorized use of it.
--
-- The program's parts, all below src/provable_agent_reference/, and their modules:
--
--   errors.py        Errors         The exception classes, and Result for code that may raise: a call
--                                   returns `ok x` or `err class message`, and `>>=` stops at a raise.
--   canonical.py     Json           The values that are serialized (Json), what json.dumps writes for
--                                   them (Json/Print), sort_keys (Json/Order) and dict equality
--                                   (Json/Equality, for `output == expected_output`).
--                    Canonical      canonical_json and sha256_uri; UTF-8 in Canonical/Utf8.
--   contracts.py     Contracts      One child for each class: the record, `entries` and `payload` for
--                                   payload(), to_dict, post_init for __post_init__, `make` for the
--                                   class's call, verify_hash. The validators are Contracts/Validation.
--   compiler.py      Compiler       TrustedCompiler.compile: a draft and a bundle give a candidate.
--   verification.py  Verifier       DeterministicVerifier.verify: the findings on a candidate.
--   approvals.py     Approvals      record_approval: a decision on a verified candidate.
--   authorization.py Authorization  authorize_exact_use: whether a use is the approved one.
--   audit.py         Audit          build_audit_manifest and verify_audit_manifest.
--   pipeline.py      Pipeline       ProvableAgentPipeline.run, which calls the parts in this order.
--   synthetic_effects.py Effects    AuthorizationLifecycle as explicit state (Effects/Lifecycle), where
--                                   a call returns the new state and a result, and
--                                   SyntheticEffectExecutor: execute (Effects/Execution) and
--                                   reconcile (Effects/Reconciliation).
--   control_plane/models.py ControlPlane/Models CapabilityGrant and RunRequest.
--   synthetic_workflow.py Workflow  _require_grant (Workflow/Grant), PrivacyBoundedMemory
--                                   (Workflow/Memory), PolicyEnforcingToolGateway
--                                   (Workflow/Gateway), whose budget is charged before what may
--                                   raise, and ActivityRecordBuilder (Workflow/Activity). The clock
--                                   and `str` of a value that is not a text are arguments.
--   dsse.py          Dsse           The pre-authentication encoding, pae.
--   control_plane/store.py          PostgresStore, a method as one transaction over explicit tables:
--                                   statements on a table (ControlPlane/Table), the rows
--                                   (ControlPlane/Database), create_run (ControlPlane/Runs),
--                                   create_delegation (ControlPlane/Delegations), the activities
--                                   (ControlPlane/Activities), the effect records
--                                   (ControlPlane/EffectRecords), the outbox and its leases
--                                   (ControlPlane/Outbox) and the artifact table
--                                   (ControlPlane/ArtifactTable). PostgreSQL is read as its
--                                   documentation says, with the constraints of migrations/*.sql;
--                                   the rows that other transactions lock are an argument, and
--                                   `datetime.isoformat` and `fromisoformat` are a parameter.
--   control_plane/service.py        ControlPlane/Service: create_run, and in Service/Delegate
--                                   require_attenuation and delegate_capability. The random
--                                   identifiers are arguments.
--   control_plane/outbox.py         ControlPlane/Worker: OutboxWorker; the callback that publishes
--                                   is an argument.
--   control_plane/artifacts.py      ControlPlane/Artifacts: LocalArtifactStore over its two
--                                   directories as explicit state, and ControlPlane/Reconciler:
--                                   ArtifactReconciler. Files keep what was written to them. What
--                                   the operating system does to a read is an argument, `Disk`:
--                                   it may fail with an OSError. Failures in the middle of a call
--                                   of publish are left out.
--
-- The parts up to the pipeline take the records that the parts before them made, and nothing else is
-- shared: the records are immutable. The lifecycle, the gateway and the activity builder are mutable
-- objects, and their methods take the state and return the next one. The control plane keeps its state
-- in the tables, which the service's and the workers' calls read and write one transaction at a time.
-- Children named Acceptance, Guards, Returned, Status, Scope, Chain, Honest, Tamper, Completion and
-- the like hold what is proved of their parent; Examples holds concrete cases and the theorems applied
-- to them.
--
-- SHA-256 is the parameter `Sha256`: a function from bytes to texts of 64 hexadecimal digits. No
-- theorem takes it to be injective; where the program compares digests, a theorem says that the two
-- inputs are the same or that these two inputs are a `Collision`: they differ and share a digest.
-- Texts are the native ones, and each character is a code point; numbers are the native naturals,
-- and ℤ for integers in JSON. Nothing runs on fuel except the printing of decimals, whose fuel is
-- one more than the number, which is at least the count of its digits.
--
-- Not modelled: values that share or contain themselves, finite floats, lone surrogates, and fields
-- that hold a value of another type than declared. Integers and containers of JSON are those that
-- json.dumps can write: an integer of more than 4300 digits and a container beyond the
-- interpreter's recursion limit are refused values of their own (`oversized`, `too_deep`), and the
-- records' integer fields and entries are taken within these limits. The run of the synthetic
-- workflow, the assurance packets, the signing and verification of DSSE envelopes, the adapters,
-- the loopback test of a database address, the health probe, and the scripts are not modelled.
-- Texts in the tables are taken without the character NUL, which PostgreSQL refuses.
pub mod Base
pub mod Errors
pub mod Json
pub mod Canonical
pub mod Contracts
pub mod Compiler
pub mod Verifier
pub mod Approvals
pub mod Authorization
pub mod Audit
pub mod Pipeline
pub mod Effects
pub mod Dsse
pub mod ControlPlane
pub mod Workflow
pub mod Examples
