-- ===== src/Admission/Limits/Bounds.antt =====
-- What validated limits, mappings and size checks guarantee.
use cockroachdbxaws.Base.{
  ℕ, true, false, List, [], ◌∷◌, none, ◌≡◌, ◌⊎◌, ◌↔◌, refl, ap, subst, sym, ◌∙◌, inl, inr, length,
  All, All-map, Any, arith, Bool-cases, ℤ, pos, negsuc, at_most, is_negative, InRange,
}
use cockroachdbxaws.Admission.Limits.{
  Limits, ok, err, invalid_limits, or_default, out_of_range, fill_defaults, any_out_of_range,
  normalized, mapping_from, validate_record_mapping, RecordRejection, oversized, limit_normalized,
  normalized_record_too_large, default_max_compressed_bytes, default_max_uncompressed_bytes,
  default_max_records, default_max_nesting_depth, default_max_normalized_bytes,
  default_max_materialized_bytes, default_max_structural_nodes,
}

-- Every limit lies between 1 and the service's ceiling.
pub record WithinCeilings (l : Limits) : Type 0 where
  pub compressed : InRange l.max_compressed_bytes default_max_compressed_bytes
  pub uncompressed : InRange l.max_uncompressed_bytes default_max_uncompressed_bytes
  pub records : InRange l.max_records default_max_records
  pub nesting : InRange l.max_nesting_depth default_max_nesting_depth
  pub normal : InRange l.max_normalized_bytes default_max_normalized_bytes
  pub materialized : InRange l.max_materialized_bytes default_max_materialized_bytes
  pub nodes : InRange l.max_structural_nodes default_max_structural_nodes

in_range : (x : ℤ) (bound : ℕ) → out_of_range x bound ≡ false → InRange x bound
unfolding out_of_range
in_range (pos n) bound h = ground arith
in_range (negsuc n) bound h = cc

not-out_of_range : (x : ℤ) (bound : ℕ) → InRange x bound → out_of_range x bound ≡ false
unfolding out_of_range
not-out_of_range (pos n) bound h = ground arith
not-out_of_range (negsuc n) bound h = absurd h

or_default-InRange : (x : ℤ) (bound : ℕ) → InRange x bound → or_default x bound ≡ x
unfolding or_default
or_default-InRange (pos n) bound h = ground arith
or_default-InRange (negsuc n) bound h = absurd h

filled : (l : Limits) → WithinCeilings l → fill_defaults l ≡ l
filled l w = ground (
  arith,
  or_default-InRange l.max_compressed_bytes default_max_compressed_bytes w.compressed,
  or_default-InRange l.max_uncompressed_bytes default_max_uncompressed_bytes w.uncompressed,
  or_default-InRange l.max_records default_max_records w.records,
  or_default-InRange l.max_nesting_depth default_max_nesting_depth w.nesting,
  or_default-InRange l.max_normalized_bytes default_max_normalized_bytes w.normal,
  or_default-InRange l.max_materialized_bytes default_max_materialized_bytes w.materialized,
  or_default-InRange l.max_structural_nodes default_max_structural_nodes w.nodes,
)

in_ranges : (l : Limits) → WithinCeilings l → any_out_of_range l ≡ false
in_ranges l w = ground (
  arith,
  not-out_of_range l.max_compressed_bytes default_max_compressed_bytes w.compressed,
  not-out_of_range l.max_uncompressed_bytes default_max_uncompressed_bytes w.uncompressed,
  not-out_of_range l.max_records default_max_records w.records,
  not-out_of_range l.max_nesting_depth default_max_nesting_depth w.nesting,
  not-out_of_range l.max_normalized_bytes default_max_normalized_bytes w.normal,
  not-out_of_range l.max_materialized_bytes default_max_materialized_bytes w.materialized,
  not-out_of_range l.max_structural_nodes default_max_structural_nodes w.nodes,
)

checked : (l : Limits) → any_out_of_range l ≡ false → WithinCeilings l
checked l h = record {
  compressed = in_range l.max_compressed_bytes _ (ground arith);
  uncompressed = in_range l.max_uncompressed_bytes _ (ground arith);
  records = in_range l.max_records _ (ground arith);
  nesting = in_range l.max_nesting_depth _ (ground arith);
  normal = in_range l.max_normalized_bytes _ (ground arith);
  materialized = in_range l.max_materialized_bytes _ (ground arith);
  nodes = in_range l.max_structural_nodes _ (ground arith);
}

normalized_cases :
    (l : Limits)
    → ((any_out_of_range (fill_defaults l) ≡ true) × (normalized l ≡ err invalid_limits))
      ⊎ ((any_out_of_range (fill_defaults l) ≡ false) × (normalized l ≡ ok (fill_defaults l)))
unfolding normalized
normalized_cases l = elim (Bool-cases (any_out_of_range (fill_defaults l))) [
  | inl bad ↦ inl (bad, rw bad)
  | inr good ↦ inr (good, rw good)
]

settled : (l : Limits) → WithinCeilings l → normalized l ≡ ok l
settled l w = elim (normalized_cases l) [
  | inl (bad, _) ↦ cc (ap any_out_of_range (filled l w), in_ranges l w)
  | inr (_, e) ↦ e ∙ ap ok (filled l w)
]

-- Accepted limits lie within the ceilings, and normalising them again changes nothing.
pub normalized-WithinCeilings :
    (l m : Limits) → normalized l ≡ ok m → WithinCeilings m × (normalized m ≡ ok m)
normalized-WithinCeilings l m h = elim (normalized_cases l) [
  | inl (_, e) ↦ ground arith
  | inr (good, e) ↦
      let w : WithinCeilings m =
        subst WithinCeilings (ground arith) (checked (fill_defaults l) good) in
      (w, settled m w)
]

-- Strictly increasing indexes that are not negative, above `previous`.
abbrev pub Increasing : ℤ → List ℤ → Type 0
Increasing previous [] = Unit {0}
Increasing previous (i ∷ is) =
    (is_negative i ≡ false) × (at_most i previous ≡ false) × Increasing i is

mapping_from_iff :
    (previous : ℤ) (is : List ℤ) → (mapping_from previous is ≡ none) ↔ Increasing previous is
unfolding mapping_from
mapping_from_iff previous [] = (λ h. tt, λ h. refl)
mapping_from_iff previous (i ∷ is) =
    (λ h. ground (arith, mapping_from_iff i is), λ h. ground (arith, (mapping_from_iff i is).1 h.2))

-- A mapping is accepted exactly when it names one original index for each record, and the indexes
-- are not negative and strictly increase.
pub validate_record_mapping_iff :
    (n : ℕ) (is : List ℤ)
    → (validate_record_mapping n is ≡ none) ↔ ((length is ≡ n) × Increasing (negsuc 0) is)
unfolding validate_record_mapping
validate_record_mapping_iff n is = (
  λ h. ground (arith, mapping_from_iff (negsuc 0) is),
  λ h. ground (arith, (mapping_from_iff (negsuc 0) is).1 h.1),
)

-- One encoded record's length and original index.
abbrev pub pairs : List ℕ → List ℤ → List (ℕ × ℤ)
pairs [] is = []
pairs (n ∷ ns) [] = []
pairs (n ∷ ns) (i ∷ is) = (n, i) ∷ pairs ns is

abbrev pub Explained : ℤ → List (ℕ × ℤ) → RecordRejection → Type 0
Explained maximum ps r = Any (λ p. (at_most (pos p.0) maximum ≡ false) × (p.1 ≡ r.index)) ps

abbrev pub Reported : ℤ → List RecordRejection → ℕ × ℤ → Type 0
Reported maximum rs p = (at_most (pos p.0) maximum ≡ true) ⊎ Any (λ r. r.index ≡ p.1) rs

oversized-Explained :
    (maximum : ℤ) (ns : List ℕ) (is : List ℤ)
    → All (Explained maximum (pairs ns is)) (oversized maximum ns is)
unfolding oversized
oversized-Explained maximum [] is = tt
oversized-Explained maximum (n ∷ ns) [] = tt
oversized-Explained maximum (n ∷ ns) (i ∷ is) =
    let later =
      All-map {Q = Explained maximum ((n, i) ∷ pairs ns is)} (λ r e. inr e)
        (oversized maximum ns is) (oversized-Explained maximum ns is) in
    elim (Bool-cases (at_most (pos n) maximum)) [
      | inl fits ↦ rw fits later
      | inr big ↦ rw big (inl (big, refl), later)
    ]

module _ (maximum : ℤ) (n : ℕ) (ns : List ℕ) (i : ℤ) (is : List ℤ) where
  oversized_fits :
      at_most (pos n) maximum ≡ true → oversized maximum (n ∷ ns) (i ∷ is) ≡ oversized maximum ns is
  unfolding oversized
  oversized_fits fits = rw fits

  oversized_big :
      at_most (pos n) maximum ≡ false
      → oversized maximum (n ∷ ns) (i ∷ is)
        ≡ record { index = i; reason = normalized_record_too_large } ∷ oversized maximum ns is
  unfolding oversized
  oversized_big big = rw big

oversized-Reported :
    (maximum : ℤ) (ns : List ℕ) (is : List ℤ)
    → All (Reported maximum (oversized maximum ns is)) (pairs ns is)
oversized-Reported maximum [] is = tt
oversized-Reported maximum (n ∷ ns) [] = tt
oversized-Reported maximum (n ∷ ns) (i ∷ is) =
    let ih = oversized-Reported maximum ns is in
    let P = λ (rs : List RecordRejection). All (Reported maximum rs) ((n, i) ∷ pairs ns is) in
    elim (Bool-cases (at_most (pos n) maximum)) [
      | inl fits ↦ subst P (sym (oversized_fits maximum n ns i is fits)) (inl fits, ih)
      | inr big ↦ subst P (sym (oversized_big maximum n ns i is big)) (
        inr (inl refl),
        All-map (λ p e. elim e [ inl a ↦ inl a | inr m ↦ inr (inr m) ]) (pairs ns is) ih,
      )
    ]

-- An accepted batch reports exactly its oversized records: each rejection names the original index
-- of a record above the normalised limit, and each record above it is named.
pub limit_normalized-exact :
    (encoded : List ℕ) (is : List ℤ) (configured limits : Limits) (rs : List RecordRejection)
    → normalized configured ≡ ok limits
    → limit_normalized encoded is configured ≡ ok rs
    → Increasing (negsuc 0) is
      × All (Explained limits.max_normalized_bytes (pairs encoded is)) rs
      × All (Reported limits.max_normalized_bytes rs) (pairs encoded is)
unfolding limit_normalized
limit_normalized-exact encoded is configured limits rs n h =
    let e : rs ≡ oversized limits.max_normalized_bytes encoded is = ground arith in
    let valid : validate_record_mapping (length encoded) is ≡ none = ground arith in
    (
      ((validate_record_mapping_iff (length encoded) is).0 valid).1,
      rw e (oversized-Explained limits.max_normalized_bytes encoded is),
      rw e (oversized-Reported limits.max_normalized_bytes encoded is),
    )
