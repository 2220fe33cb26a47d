-- ===== src/Journal/Codec/Values/Counts.antt =====
-- journal/journal.go: the usage and the four counts are read back as they were written.
use mathlib.Core.List.{append_assoc, append-nil}
use cockroachdbxaws.Base.{
  ℕ, ◌^◌, ◌<◌, ◌≡◌, refl, sym, subst, ◌∙◌, ap, Text, codes, ◌*◌, length-append, List, [], ◌∷◌, ◌++◌,
  All, length, some, arith,
}
use cockroachdbxaws.Journal.Bytes.{take, drop, big_endian, read_big_endian}
use cockroachdbxaws.Journal.Bytes.Slices.{take-append, drop-append}
use cockroachdbxaws.Journal.Bytes.RoundTrip.{
  unchecked-checked, read_big_endian-big_endian, length-big_endian,
}
use cockroachdbxaws.Journal.Codec.Values.{
  append_counts, read_counts, usage_value, decode_usage, priority_value, decode_priority,
}

-- Every count fits in 64 bits.
abbrev pub Words : List ℕ → Type 0
Words vs = All (λ v. v < 2 ^ 64) vs

module _ (sha256 : Text → Text) where
  pub append_counts_lem :
      (payload : Text) (vs : List ℕ)
      → append_counts sha256 payload vs ≡ payload ++ append_counts sha256 [] vs
  unfolding append_counts
  append_counts_lem payload [] = sym (append-nil payload)
  append_counts_lem payload (v ∷ vs) =
      append_counts_lem (payload ++ big_endian 8 v) vs
      ∙ rw (append_counts_lem (big_endian 8 v) vs) (simp (append_assoc) refl)

  length-append_counts : (vs : List ℕ) → length (append_counts sha256 [] vs) ≡ 8 * length vs
  unfolding append_counts
  length-append_counts [] = refl
  length-append_counts (v ∷ vs) = rw (append_counts_lem (big_endian 8 v) vs) (
      omega (
        arith,
        length-append (big_endian 8 v) (append_counts sha256 [] vs),
        length-big_endian 8 v,
        length-append_counts vs,
      ))

  read_counts-append_counts :
      (vs : List ℕ) → Words vs → read_counts sha256 (length vs) (append_counts sha256 [] vs) ≡ vs
  unfolding append_counts read_counts
  read_counts-append_counts [] h = refl
  read_counts-append_counts (v ∷ vs) h =
      let rest = append_counts sha256 [] vs in
      let eight = length-big_endian 8 v in
      let first : take 8 (big_endian 8 v ++ rest) ≡ big_endian 8 v =
        subst (λ n. take n (big_endian 8 v ++ rest) ≡ big_endian 8 v) eight
          (take-append (big_endian 8 v) rest) in
      let others : drop 8 (big_endian 8 v ++ rest) ≡ rest =
        subst (λ n. drop n (big_endian 8 v ++ rest) ≡ rest) eight
          (drop-append (big_endian 8 v) rest) in
      let word : read_big_endian 0 (big_endian 8 v) ≡ v =
        omega (arith, read_big_endian-big_endian 8 0 v h.0) in
      rw (append_counts_lem (big_endian 8 v) vs)
        (rw (first, others) (rw word (rw (read_counts-append_counts vs h.1) refl)))

module _ (sha256 : Text → Text) (digest : (t : Text) → length (sha256 t) ≡ 32) where
  pub decode_usage-usage_value :
      (n : ℕ) → n < 2 ^ 64 → decode_usage sha256 (usage_value sha256 n) ≡ some n
  unfolding decode_usage usage_value
  decode_usage-usage_value n h =
      let p = big_endian 8 n in
      let word : read_big_endian 0 p ≡ n = omega (arith, read_big_endian-big_endian 8 0 n h) in
      rw (unchecked-checked sha256 (codes "JUS1") p (digest (codes "JUS1" ++ p)), decode_usage)
        (rw (length-big_endian 8 n) (ap (λ m. some m) word))

  pub decode_priority-priority_value :
      (vs : List ℕ)
      → length vs ≡ 4
      → Words vs
      → decode_priority sha256 (priority_value sha256 vs) ≡ some vs
  unfolding decode_priority priority_value
  decode_priority-priority_value vs n h =
      let p = append_counts sha256 [] vs in
      let long : length p ≡ 32 = omega (arith, length-append_counts sha256 vs, n) in
      rw (unchecked-checked sha256 (codes "JPA1") p (digest (codes "JPA1" ++ p)), decode_priority)
        (rw long (ap (λ m. some m) (rw (sym n) (read_counts-append_counts sha256 vs h))))
