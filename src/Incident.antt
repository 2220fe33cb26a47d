-- ===== src/Incident.antt =====
-- services/static-log-analysis/internal/incident: deterministic, in-memory incident transitions.
pub mod Logs
pub mod Search
pub mod Window
pub mod Generation
pub mod Family
pub mod Episodes
pub mod Evidence
pub mod Engine
