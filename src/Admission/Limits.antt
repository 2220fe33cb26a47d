-- ===== src/Admission/Limits.antt =====
-- admission/limits.go: configured limits and their defaults, the node budget, the check of the
-- accepted-record mapping, and the size check of encoded records. Signed integers that a
-- configuration may set are `ℤ`; an encoded record is known by its length.
use cockroachdbxaws.Base.{
  ℕ, ◌+◌, ◌*◌, ◌^◌, Bool, true, false, ◌||◌, List, [], ◌∷◌, Option, none, some, length,
  if◌then◌else◌, ltb, ◌==◌, ℤ, pos, negsuc, is_zero, below_one, above, is_negative, at_most,
}
pub mod Bounds

abbrev pub default_max_compressed_bytes : ℕ
default_max_compressed_bytes = 4 * 2 ^ 20

abbrev pub default_max_uncompressed_bytes : ℕ
default_max_uncompressed_bytes = 16 * 2 ^ 20

abbrev pub default_max_records : ℕ
default_max_records = 10_000

abbrev pub default_max_nesting_depth : ℕ
default_max_nesting_depth = 16

abbrev pub default_max_normalized_bytes : ℕ
default_max_normalized_bytes = 256 * 2 ^ 10

abbrev pub default_max_structural_nodes : ℕ
default_max_structural_nodes = 32 * 10_000

abbrev pub default_max_materialized_bytes : ℕ
default_max_materialized_bytes = 16 * 2 ^ 20

pub data AdmissionError : Type 0 where
  invalid_limits too_many_structural_nodes invalid_record_mapping : AdmissionError
  materialization_too_large malformed_request : AdmissionError

pub data Result {ℓ} (A : Type ℓ) : Type ℓ where
  ok : A → Result A
  err : AdmissionError → Result A

pub record Limits : Type 0 where
  pub max_compressed_bytes : ℤ
  pub max_uncompressed_bytes : ℤ
  pub max_records : ℤ
  pub max_nesting_depth : ℤ
  pub max_normalized_bytes : ℤ
  pub max_materialized_bytes : ℤ
  pub max_structural_nodes : ℤ

-- `if x == 0 { x = default }`.
pub or_default : ℤ → ℕ → ℤ
or_default x d = if is_zero x then pos d else x

pub out_of_range : ℤ → ℕ → Bool
out_of_range x bound = below_one x || above x bound

abbrev pub fill_defaults : Limits → Limits
fill_defaults l = record {
  max_compressed_bytes = or_default l.max_compressed_bytes default_max_compressed_bytes;
  max_uncompressed_bytes = or_default l.max_uncompressed_bytes default_max_uncompressed_bytes;
  max_records = or_default l.max_records default_max_records;
  max_nesting_depth = or_default l.max_nesting_depth default_max_nesting_depth;
  max_normalized_bytes = or_default l.max_normalized_bytes default_max_normalized_bytes;
  max_materialized_bytes = or_default l.max_materialized_bytes default_max_materialized_bytes;
  max_structural_nodes = or_default l.max_structural_nodes default_max_structural_nodes;
}

abbrev pub any_out_of_range : Limits → Bool
any_out_of_range l =
    out_of_range l.max_compressed_bytes default_max_compressed_bytes
    || out_of_range l.max_uncompressed_bytes default_max_uncompressed_bytes
    || out_of_range l.max_records default_max_records
    || out_of_range l.max_nesting_depth default_max_nesting_depth
    || out_of_range l.max_normalized_bytes default_max_normalized_bytes
    || out_of_range l.max_materialized_bytes default_max_materialized_bytes
    || out_of_range l.max_structural_nodes default_max_structural_nodes

unfoldable pub normalized : Limits → Result Limits
unfolding or_default out_of_range
normalized l =
    let limits = fill_defaults l in
    if any_out_of_range limits then err invalid_limits else ok limits

-- The node budget of the structural preflight: `add` counts, then compares.
pub record NodeBudget : Type 0 where
  pub used : ℕ
  pub maximum : ℕ

pub add : NodeBudget → NodeBudget × Option AdmissionError
add b =
    let c = record b { used = b.used + 1 } in
    if ltb c.maximum c.used then (c, some too_many_structural_nodes) else (c, none)

-- The loop of `validateRecordMapping`; `previous` is -1 before the first index.
mapping_from : ℤ → List ℤ → Option AdmissionError
mapping_from previous [] = none
mapping_from previous (i ∷ is) =
    let rest = mapping_from i is in
    if is_negative i || at_most i previous then some invalid_record_mapping else rest

unfoldable pub validate_record_mapping : ℕ → List ℤ → Option AdmissionError
unfolding mapping_from
validate_record_mapping record_count indexes =
    if length indexes == record_count
    then mapping_from (negsuc 0) indexes
    else some invalid_record_mapping

pub data RejectionReason : Type 0 where
  nesting_too_deep normalized_record_too_large : RejectionReason

pub record RecordRejection : Type 0 where
  pub index : ℤ
  pub reason : RejectionReason

-- The loop of `LimitNormalized`; `maximum` is the configured number of bytes.
oversized : ℤ → List ℕ → List ℤ → List RecordRejection
oversized maximum [] indexes = []
oversized maximum (n ∷ ns) [] = []
oversized maximum (n ∷ ns) (i ∷ is) =
    let rest = oversized maximum ns is in
    if at_most (pos n) maximum
    then rest
    else record { index = i; reason = normalized_record_too_large } ∷ rest

unfoldable pub limit_normalized : List ℕ → List ℤ → Limits → Result (List RecordRejection)
unfolding oversized validate_record_mapping
limit_normalized encoded indexes configured = elim (normalized configured) [
  | err e ↦ err e
  | ok limits ↦ elim (validate_record_mapping (length encoded) indexes) [
    | some e ↦ err e
    | none ↦ ok (oversized limits.max_normalized_bytes encoded indexes)
  ]
]
