-- ===== src/Admission.antt =====
-- services/static-log-analysis/internal/admission.
pub mod Classifier
pub mod Capacity
pub mod Limits
