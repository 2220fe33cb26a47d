-- ===== src/Journal.antt =====
-- services/static-log-analysis/internal/journal: the durable journal between admission and the pipeline.
pub mod Bytes
pub mod Results
pub mod Times
pub mod Identifiers
pub mod Codec
pub mod Keys
pub mod State
pub mod Mutation
pub mod References
pub mod Append
pub mod Claims
pub mod Commits
pub mod Retention
pub mod Manifest
pub mod Reporting
pub mod Safety
