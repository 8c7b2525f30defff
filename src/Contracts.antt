-- ===== src/Contracts.antt =====
-- src/provable_agent_reference/contracts.py: the records that the chain exchanges, one child for
-- each class and one for the validators that they share.
pub mod Validation
pub mod Identity
pub mod Forms
pub mod Binding
pub mod TrustedRunContext
pub mod SemanticDraft
pub mod EvidenceRecord
pub mod EvidenceBundle
pub mod CanonicalCandidate
pub mod VerificationFinding
pub mod VerificationResult
pub mod ApprovalRecord
pub mod AuthorizationResult
pub mod AuditManifest
