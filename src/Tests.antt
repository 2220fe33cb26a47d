-- ===== src/Tests.antt =====
-- The theorems at concrete inputs, by component.
mod Admission
mod Incident
mod Reconstruction
mod Engine
mod Outbox
mod Queue
mod Remediation
mod Cloudwatch
mod Journal
