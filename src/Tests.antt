-- ===== src/Tests.antt =====
-- Runs of the model on small inputs, and each theorem at an input that meets its hypotheses.
mod IdentRuns
mod NotifyRuns
mod RelayRuns
mod SupervisorRuns
mod TransportRuns
mod BridgeRuns
mod ClaimRuns
mod TaskRuns
mod ServerRuns
mod DigestRuns
mod ReceiptRuns
mod RegistryRuns
mod CommonRuns
