-- ===== src/Journal/Keys/Order.antt =====
-- journal/keys.go: the byte order of the keys and the order of what they name.
use mathlib.Core.List.{append_assoc}
use native.Mathlib.Nat.{div-add-mod, mod-lt}
use cockroachdbxaws.Base.{
  ℕ, zero, suc, ◌+◌, ◌*◌, ◌/◌, ◌%◌, ◌^◌, ◌<◌, ◌≡◌, refl, ap, ◌∙◌, Text, text_lt, Bool, true, ◌&&◌,
  ◌||◌, ◌++◌, length, arith, ltb, ◌==◌,
}
use cockroachdbxaws.Journal.Bytes.{uvarint, uvarint_bytes, big_endian}
use cockroachdbxaws.Journal.Bytes.RoundTrip.{power256_pos}
use cockroachdbxaws.Journal.Times.{Time, before, equal, uint64, unix_nano, valid_journal_time}
use cockroachdbxaws.Journal.Identifiers.{valid_record_id}
use cockroachdbxaws.Journal.Keys.{
  append_component, append_ordered_time, flip_sign, pending_key, claim_key, committed_key,
}

pub higher : (p q u r s : ℕ) → r < p → q < u → p * q + r < p * u + s
higher p q u r s h k = grind arith

same : (p q u : ℕ) → q ≡ u → p * q ≡ p * u
same p q u e = ap (λ (x : ℕ). p * x) e

-- The order of two quotients and remainders by one number.
digits :
    (p w v : ℕ)
    → 0 < p
    → (c : Bool)
    → (ltb (w / p) (v / p)
        || ((w / p == v / p) && (ltb (w % p) (v % p) || ((w % p == v % p) && c))))
      ≡ (ltb w v || ((w == v) && c))
digits p w v h c = ground (
  arith,
  higher p (w / p) (v / p) (w % p) (v % p) (mod-lt w h),
  higher p (v / p) (w / p) (v % p) (w % p) (mod-lt v h),
  same p (w / p) (v / p),
  div-add-mod w p,
  div-add-mod v p,
)

big_endian-order :
    (n w v : ℕ) (a b : Text)
    → w < 256 ^ n
    → v < 256 ^ n
    → text_lt (big_endian n w ++ a) (big_endian n v ++ b) ≡ (ltb w v || ((w == v) && text_lt a b))
unfolding big_endian text_lt
big_endian-order zero w v a b h k = ground arith
big_endian-order (suc n) w v a b h k =
    rw
      (big_endian-order n (w % 256 ^ n) (v % 256 ^ n) a b (mod-lt w (power256_pos n))
        (mod-lt v (power256_pos n)))
      (digits (256 ^ n) w v (power256_pos n) (text_lt a b))

flip_sign-lt : (w : ℕ) → flip_sign w < 2 ^ 64
flip_sign-lt w = omega arith

flip_sign-before :
    (t u : Time)
    → valid_journal_time t ≡ true
    → valid_journal_time u ≡ true
    → (ltb (flip_sign (unix_nano t)) (flip_sign (unix_nano u)) ≡ before t u)
      × ((flip_sign (unix_nano t) == flip_sign (unix_nano u)) ≡ equal t u)
unfolding valid_journal_time unix_nano uint64
flip_sign-before t u h k = (ground arith, ground arith)

-- What follows the fixed part of an index key.
timed : Time → Text → Text
timed t id = big_endian 8 (flip_sign (unix_nano t)) ++ (uvarint (length id) ++ id)

record_id-length : (id : Text) → valid_record_id id ≡ true → length id ≡ 64
unfolding valid_record_id
record_id-length id h = ground arith

uvarint-order :
    (id rd : Text)
    → length id ≡ 64
    → length rd ≡ 64
    → text_lt (uvarint (length id) ++ id) (uvarint (length rd) ++ rd) ≡ text_lt id rd
unfolding uvarint uvarint_bytes text_lt
uvarint-order id rd h k = rw (h, k) refl

-- Two instants and identities in their order: the instants first.
abbrev pub timed_before : Time → Text → Time → Text → Bool
timed_before t id u rd = before t u || (equal t u && text_lt id rd)

timed-order :
    (t u : Time) (id rd : Text)
    → valid_journal_time t ≡ true
    → valid_journal_time u ≡ true
    → valid_record_id id ≡ true
    → valid_record_id rd ≡ true
    → text_lt (timed t id) (timed u rd) ≡ timed_before t id u rd
unfolding timed
timed-order t u id rd h k i j =
    let flipped = flip_sign-before t u h k in
    big_endian-order 8 (flip_sign (unix_nano t)) (flip_sign (unix_nano u))
      (uvarint (length id) ++ id) (uvarint (length rd) ++ rd) (flip_sign-lt (unix_nano t))
      (flip_sign-lt (unix_nano u))
    ∙ rw (flipped.0, flipped.1, uvarint-order id rd (record_id-length id i) (record_id-length rd j))
        refl

-- Compared bytewise, the key of one pending record is less than that of another exactly where its priority
-- is less, or the priorities are equal and its instant of receipt is earlier, or these are equal too and
-- its identity is less. The instants are in range and the identities valid.
pub pending_key-order :
    (p q : ℕ) (t u : Time) (id rd : Text)
    → valid_journal_time t ≡ true
    → valid_journal_time u ≡ true
    → valid_record_id id ≡ true
    → valid_record_id rd ≡ true
    → text_lt (pending_key p t id) (pending_key q u rd)
      ≡ (ltb p q || ((p == q) && timed_before t id u rd))
unfolding pending_key append_ordered_time append_component text_lt timed
pending_key-order p q t u id rd h k i j =
    rw
      (
        append_assoc (big_endian 8 (flip_sign (unix_nano t))) (uvarint (length id)) id,
        append_assoc (big_endian 8 (flip_sign (unix_nano u))) (uvarint (length rd)) rd,
      )
      (rw (timed-order t u id rd h k i j) refl)

-- The keys of two claims compare as their expiries, then their identities, and so do the keys of two
-- committed records. The instants are in range and the identities valid.
pub timed_keys-order :
    (t u : Time) (id rd : Text)
    → valid_journal_time t ≡ true
    → valid_journal_time u ≡ true
    → valid_record_id id ≡ true
    → valid_record_id rd ≡ true
    → (text_lt (claim_key t id) (claim_key u rd) ≡ timed_before t id u rd)
      × (text_lt (committed_key t id) (committed_key u rd) ≡ timed_before t id u rd)
unfolding claim_key committed_key append_ordered_time append_component text_lt timed
timed_keys-order t u id rd h k i j =
    rw
      (
        append_assoc (big_endian 8 (flip_sign (unix_nano t))) (uvarint (length id)) id,
        append_assoc (big_endian 8 (flip_sign (unix_nano u))) (uvarint (length rd)) rd,
      )
      (rw (timed-order t u id rd h k i j) (refl, refl))
