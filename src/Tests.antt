-- ===== src/Tests.antt =====
-- Runs of the modelled code on concrete inputs, and the theorems applied to them.
mod QueueData
mod QueueRuns
mod PresenceRuns
mod PrekeyRuns
mod PeerRuns
mod AttachmentRuns
mod AdmissionRuns
mod MeshRuns
mod HttpRuns
