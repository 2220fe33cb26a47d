-- ===== src/Journal/Codec/Values/Canonical.antt =====
-- journal/journal.go: the usage and the four counts that are read are what would be written again.
use native.Mathlib.Nat.{div-add-mod, mod-lt, pow-suc}
use cockroachdbxaws.Base.{
  ℕ, zero, suc, ◌+◌, ◌*◌, ◌/◌, ◌%◌, ◌^◌, ◌<◌, ◌≡◌, refl, subst, inl, inr, some, Option-cases, codes,
  sym, ◌∙◌, ap, Text, List, [], ◌∷◌, length, arith,
}
use cockroachdbxaws.Journal.Bytes.{unchecked, take, drop, big_endian, read_big_endian}
use cockroachdbxaws.Journal.Bytes.Slices.{take-drop, length-take, length-drop}
use cockroachdbxaws.Journal.Bytes.RoundTrip.{power256_pos, checked-unchecked}
use cockroachdbxaws.Journal.Codec.Validity.{
  unchecked-payload, Bytes, read_big_endian-lt, take-Bytes, drop-Bytes,
}
use cockroachdbxaws.Journal.Codec.Values.{
  append_counts, read_counts, usage_value, decode_usage, priority_value, decode_priority,
}
use cockroachdbxaws.Journal.Keys.Order.{higher}
use cockroachdbxaws.Journal.Codec.Values.Counts.{append_counts_lem}

same_digit : (p q x r s : ℕ) → r < p → s < p → p * q + r ≡ p * x + s → (q ≡ x) × (r ≡ s)
same_digit p q x r s hr hs h =
    let digit : q ≡ x = ground (arith, higher p q x r s hr, higher p x q s r hs) in
    let scaled : p * q ≡ p * x = ap (λ y. p * y) digit in (digit, omega arith)

regroup_digits :
    (high x p r : ℕ) → (high * 256 + x) * p + r ≡ high * (p * 256) + ((0 * 256 + x) * p + r)
regroup_digits high x p r = grind arith

read_big_endian_high :
    (high : ℕ) (xs : Text) → read_big_endian high xs ≡ high * 256 ^ length xs + read_big_endian 0 xs
unfolding read_big_endian
read_big_endian_high high [] = omega arith
read_big_endian_high high (x ∷ xs) =
    let p = 256 ^ length xs in
    let rest = read_big_endian 0 xs in
    let scale : high * 256 ^ length (x ∷ xs) ≡ high * (p * 256) =
      ap (λ y. high * y) (pow-suc 256 (length xs)) in
    let this : read_big_endian (high * 256 + x) xs ≡ (high * 256 + x) * p + rest =
      read_big_endian_high (high * 256 + x) xs in
    let alone : read_big_endian (0 * 256 + x) xs ≡ (0 * 256 + x) * p + rest =
      read_big_endian_high (0 * 256 + x) xs in
    this
    ∙ regroup_digits high x p rest
    ∙ ap (λ y. high * (p * 256) + y) (sym alone)
    ∙ ap (λ y. y + read_big_endian (0 * 256 + x) xs) (sym scale)

big_endian-digit :
    (n v x r : ℕ) → r < 256 ^ n → v ≡ 256 ^ n * x + r → big_endian (suc n) v ≡ x ∷ big_endian n r
unfolding big_endian
big_endian-digit n v x r h e =
    let p = 256 ^ n in
    let (digit, rest) =
      same_digit p (v / p) x (v % p) r (mod-lt v (power256_pos n)) h (div-add-mod v p ∙ e) in
    rw (digit, rest) refl

big_endian-read_big_endian :
    (xs : Text) → Bytes xs → big_endian (length xs) (read_big_endian 0 xs) ≡ xs
unfolding read_big_endian big_endian
big_endian-read_big_endian [] b = refl
big_endian-read_big_endian (x ∷ xs) b =
    let low = read_big_endian-lt 0 xs b.1 in
    big_endian-digit (length xs) (read_big_endian 0 (x ∷ xs)) x (read_big_endian 0 xs)
      (omega (arith, low)) (omega (arith, read_big_endian_high (0 * 256 + x) xs))
    ∙ ap {B = Text} (λ ys. x ∷ ys) (big_endian-read_big_endian xs b.1)

-- A word that is read from as many bytes as it has.
pub big_endian-reads :
    (n : ℕ) (xs : Text) → length xs ≡ n → Bytes xs → big_endian n (read_big_endian 0 xs) ≡ xs
big_endian-reads n xs h b =
    subst (λ m. big_endian m (read_big_endian 0 xs) ≡ xs) h (big_endian-read_big_endian xs b)

module _ (sha256 : Text → Text) where
  append_counts-read_counts :
      (n : ℕ) (p : Text)
      → length p ≡ 8 * n
      → Bytes p
      → append_counts sha256 [] (read_counts sha256 n p) ≡ p
  unfolding read_counts append_counts
  append_counts-read_counts zero [] h b = refl
  append_counts-read_counts zero (x ∷ xs) h b = absurd (omega arith)
  append_counts-read_counts (suc n) p h b =
      let size : length (take 8 p) ≡ 8 = length-take 8 p (omega arith) in
      let rest_size : length (drop 8 p) ≡ 8 * n = omega (arith, length-drop 8 p) in
      append_counts_lem sha256 (big_endian 8 (read_big_endian 0 (take 8 p)))
        (read_counts sha256 n (drop 8 p))
      ∙ rw (big_endian-reads 8 (take 8 p) size (take-Bytes 8 p b))
          (rw (append_counts-read_counts n (drop 8 p) rest_size (drop-Bytes 8 p b)) (take-drop 8 p))

  pub usage_value-decode_usage :
      (d : Text) (n : ℕ) → Bytes d → decode_usage sha256 d ≡ some n → usage_value sha256 n ≡ d
  unfolding decode_usage usage_value
  usage_value-decode_usage d n b h = elim (Option-cases (unchecked sha256 d (codes "JUS1"))) [
    | inl lost ↦ let h1 = rw (lost, decode_usage) at h in absurd cc
    | inr (p, k) ↦
        let h1 = rw (k, decode_usage) at h in
        let size : length p ≡ 8 = ground arith in
        let word : read_big_endian 0 p ≡ n = ground arith in
        rw (sym word) (
          rw (big_endian-reads 8 p size (unchecked-payload sha256 d (codes "JUS1") p b k).0)
            (checked-unchecked sha256 d (codes "JUS1") p k))
  ]

  pub priority_value-decode_priority :
      (d : Text) (vs : List ℕ)
      → Bytes d
      → decode_priority sha256 d ≡ some vs
      → priority_value sha256 vs ≡ d
  unfolding decode_priority priority_value
  priority_value-decode_priority d vs b h =
      elim (Option-cases (unchecked sha256 d (codes "JPA1"))) [
        | inl lost ↦ let h1 = rw (lost, decode_priority) at h in absurd cc
        | inr (p, k) ↦
            let h1 = rw (k, decode_priority) at h in
            let size : length p ≡ 32 = ground arith in
            let counts : read_counts sha256 4 p ≡ vs = ground arith in
            rw (sym counts) (
              rw
                (append_counts-read_counts 4 p size
                  (unchecked-payload sha256 d (codes "JPA1") p b k).0)
                (checked-unchecked sha256 d (codes "JPA1") p k))
      ]
