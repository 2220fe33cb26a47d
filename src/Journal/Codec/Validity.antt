-- ===== src/Journal/Codec/Validity.antt =====
-- journal/codec.go: what `decodeStored` accepts.
use native.Mathlib.Nat.{pow-suc}
use cockroachdbxaws.Base.{
  ℕ, zero, suc, ◌+◌, ◌*◌, ◌^◌, ◌<◌, ◌≤◌, ◌≡◌, inl, inr, subst, ap, sym, Text, codes, true, not,
  Bool-cases, Option-cases, [], ◌∷◌, All, some, length, arith, ltb, ltb→le, ◌==◌, ◌++◌,
  length-append,
}
use cockroachdbxaws.Journal.Bytes.{
  take, drop, read_uvarint, read_uvarint_from, read_big_endian, take_bytes, checked, unchecked,
}
use cockroachdbxaws.Journal.Bytes.Slices.{length-take, length-drop}
use cockroachdbxaws.Journal.Bytes.RoundTrip.{checked-unchecked}
use cockroachdbxaws.Journal.Results.{
  ok, refuse, present, >>=-ok, refuse-ok, present-ok, ok-injective, some-injective, not-false,
  decode_failure,
}
use cockroachdbxaws.Journal.Times.{Time, from_unix_nano, valid_journal_time}
use cockroachdbxaws.Journal.Codec.{
  StoredRecord, read_optional_time, stored_of, valid_stored, decode_stored, byte_at, slice,
}
use cockroachdbxaws.Journal.Codec.RoundTrip.{Optional, Storable}

-- A slice of bytes, of a length that a machine can count.
abbrev pub Bytes : Text → Type 0
Bytes xs = All (λ b. b < 256) xs

read_uvarint_from-shorter :
    (i : ℕ) (bs : Text) {r : ℕ × Text} → read_uvarint_from i bs ≡ some r → length r.1 ≤ length bs
unfolding read_uvarint_from
read_uvarint_from-shorter i [] h = cc
read_uvarint_from-shorter i (b ∷ bs) h = elim (Option-cases (read_uvarint_from (suc i) bs)) [
  | inl n ↦ ground arith
  | inr (r, s) ↦ ground (arith, read_uvarint_from-shorter (suc i) bs s)
]

length-take_le : (n : ℕ) (xs : Text) → length (take n xs) ≤ length xs
length-take_le zero xs = omega arith
length-take_le (suc n) [] = omega arith
length-take_le (suc n) (x ∷ xs) = omega (arith, length-take_le n xs)

length-drop_le : (n : ℕ) (xs : Text) → length (drop n xs) ≤ length xs
length-drop_le n xs = omega (arith, length-drop n xs)

take_bytes-shorter :
    (input : Text) (r : Text × Text)
    → take_bytes input ≡ some r
    → (length r.0 ≤ length input) × (length r.1 ≤ length input)
unfolding take_bytes read_uvarint
take_bytes-shorter input r h = elim (Option-cases (read_uvarint_from 0 input)) [
  | inl n ↦ let h1 = rw (n, take_bytes) at h in absurd (ground arith)
  | inr ((v, rest), s) ↦
      let shorter = read_uvarint_from-shorter 0 input s in
      let h1 = rw (s, take_bytes) at h in
      elim (Bool-cases (ltb (length rest) v)) [
        | inl short ↦ let h2 = rw short at h1 in absurd (ground arith)
        | inr long ↦
            let h2 = rw long at h1 in
            subst (λ (q : Text × Text). (length q.0 ≤ length input) × (length q.1 ≤ length input))
              (some-injective h2)
              (
                omega (arith, shorter, length-take_le v rest),
                omega (arith, shorter, length-drop_le v rest),
              )
      ]
]

carry : (h x p : ℕ) → x < 256 → (h * 256 + x + 1) * p ≤ (h + 1) * (p * 256)
carry h x p b = grind arith

pub read_big_endian-lt :
    (high : ℕ) (xs : Text) → Bytes xs → read_big_endian high xs < (high + 1) * 256 ^ length xs
unfolding read_big_endian
read_big_endian-lt high [] h = omega arith
read_big_endian-lt high (x ∷ xs) h =
    let ih = read_big_endian-lt (high * 256 + x) xs h.1 in
    rw (pow-suc 256 (length xs)) (omega (arith, ih, carry high x (256 ^ length xs) h.0))

read_optional_time-Optional :
    (p : ℕ) (n : Text) (at : Time) → read_optional_time p n ≡ ok at → Optional at
unfolding read_optional_time
read_optional_time-Optional p n at h = elim (Bool-cases (not (length n == 8))) [
  | inl bad ↦ let h1 = rw (bad, read_optional_time) at h in absurd (ground arith)
  | inr fine ↦
      let h1 = rw (fine, read_optional_time) at h in
      elim (Bool-cases (p == 0)) [
        | inl z ↦
            let h2 = rw z at h1 in
            elim (Bool-cases (read_big_endian 0 n == 0)) [
              | inl nothing ↦ let h3 = rw nothing at h2 in inl (sym (ok-injective h3))
              | inr something ↦ let h3 = rw something at h2 in absurd (ground arith)
            ]
        | inr o ↦
            let h2 = rw o at h1 in
            elim (Bool-cases (p == 1)) [
              | inr other ↦ let h3 = rw other at h2 in absurd (ground arith)
              | inl one ↦
                  let h3 = rw one at h2 in
                  elim (Bool-cases (valid_journal_time (from_unix_nano (read_big_endian 0 n)))) [
                    | inl valid ↦
                        let h4 = rw valid at h3 in
                        inr (subst (λ t. valid_journal_time t ≡ true) (ok-injective h4) valid)
                    | inr invalid ↦ let h4 = rw invalid at h3 in absurd (ground arith)
                  ]
            ]
      ]
]

append-Bytes : (xs ys : Text) → Bytes (xs ++ ys) → Bytes xs × Bytes ys
append-Bytes [] ys h = (tt, h)
append-Bytes (x ∷ xs) ys h = let r = append-Bytes xs ys h.1 in ((h.0, r.0), r.1)

pub drop-Bytes : (n : ℕ) (xs : Text) → Bytes xs → Bytes (drop n xs)
drop-Bytes zero xs h = h
drop-Bytes (suc n) [] h = h
drop-Bytes (suc n) (x ∷ xs) h = drop-Bytes n xs h.1

pub take-Bytes : (n : ℕ) (xs : Text) → Bytes xs → Bytes (take n xs)
take-Bytes zero xs h = tt
take-Bytes (suc n) [] h = tt
take-Bytes (suc n) (x ∷ xs) h = (h.0, take-Bytes n xs h.1)

attempt-lt :
    (payload : Text)
    → Bytes payload
    → 64 ≤ length payload
    → read_big_endian 0 (slice 28 32 payload) < 2 ^ 32
attempt-lt payload b h =
    let bytes = slice 28 32 payload in
    let four : length bytes ≡ 4 =
      length-take 4 (drop 28 payload) (omega (arith, length-drop 28 payload)) in
    let bound =
      read_big_endian-lt 0 bytes (take-Bytes 4 (drop 28 payload) (drop-Bytes 28 payload b)) in
    omega (arith, rw four at bound)

-- What a valid record is, whatever its field after the state.
valid_stored-received :
    (r : StoredRecord) → valid_stored r ≡ true → valid_journal_time r.received ≡ true
unfolding valid_stored
valid_stored-received r h = ground arith

below : {a b c d : ℕ} → a ≤ b → b ≤ c → c < d → a < d
below h k l = omega arith

at_most_both : {a b c : ℕ} → a ≤ b → b ≤ c → a ≤ c
at_most_both h k = omega arith

pub stored_of-Storable :
    (payload : Text) (r : StoredRecord)
    → Bytes payload
    → length payload < 2 ^ 64
    → stored_of payload ≡ ok r
    → Storable r
unfolding stored_of
stored_of-Storable payload r b size h =
    let (t0, k0, h0) = >>=-ok (refuse (ltb (length payload) 64) decode_failure) _ h in
    let long : 64 ≤ length payload = ltb→le (length payload) 64 (refuse-ok _ decode_failure k0) in
    let (expiry, k1, h1) =
      >>=-ok (read_optional_time (byte_at 10 payload) (slice 11 19 payload)) _ h0 in
    let (committed, k2, h2) =
      >>=-ok (read_optional_time (byte_at 19 payload) (slice 20 28 payload)) _ h1 in
    let (owner, k3, h3) = >>=-ok (present (take_bytes (drop 32 payload)) decode_failure) _ h2 in
    let (token, k4, h4) = >>=-ok (present (take_bytes owner.1) decode_failure) _ h3 in
    let (t5, k5, h5) = >>=-ok (refuse (ltb (length token.1) 32) decode_failure) _ h4 in
    let (envelope, k6, h6) = >>=-ok (present (take_bytes (drop 32 token.1)) decode_failure) _ h5 in
    let (t7, k7, h7) = >>=-ok (refuse (not (length envelope.1 == 0)) decode_failure) _ h6 in
    let (t8, k8, h8) = >>=-ok (refuse (not (valid_stored _)) decode_failure) _ h7 in
    let a = take_bytes-shorter (drop 32 payload) owner (present-ok _ decode_failure k3) in
    let c = take_bytes-shorter owner.1 token (present-ok _ decode_failure k4) in
    let e = take_bytes-shorter (drop 32 token.1) envelope (present-ok _ decode_failure k6) in
    let whole : length (drop 32 payload) ≤ length payload = length-drop_le 32 payload in
    let part : length (drop 32 token.1) ≤ length token.1 = length-drop_le 32 token.1 in
    let input = at_most_both a.1 whole in
    let sealed_part = at_most_both part (at_most_both c.1 input) in
    let digest : 32 ≤ length token.1 = ltb→le (length token.1) 32 (refuse-ok _ decode_failure k5) in
    let valid = not-false (refuse-ok _ decode_failure k8) in
    subst (λ (q : StoredRecord). Storable q) (ok-injective h8)
      (record {
        valid = valid;
        expiry = read_optional_time-Optional _ _ expiry k1;
        committed = read_optional_time-Optional _ _ committed k2;
        received_valid = valid_stored-received _ valid;
        attempt_size = attempt-lt payload b long;
        digest_size = length-take 32 token.1 digest;
        owner_size = below a.0 whole size;
        token_size = below c.0 input size;
        envelope_size = below e.0 sealed_part size;
      })

module _ (sha256 : Text → Text) where
  pub unchecked-payload :
      (data' magic payload : Text)
      → Bytes data'
      → unchecked sha256 data' magic ≡ some payload
      → Bytes payload × (length payload ≤ length data')
  unfolding checked
  unchecked-payload data' magic payload b h =
      let whole = checked-unchecked sha256 data' magic payload h in
      let out = magic ++ payload in
      let parts = append-Bytes out (sha256 out) (rw (sym whole) at b) in
      let inner = append-Bytes magic payload parts.0 in
      let size : length data' ≡ length (out ++ sha256 out) =
        ap (λ (t : Text). length t) (sym whole) in
      (inner.1, omega (arith, size, length-append out (sha256 out), length-append magic payload))

  -- Only a record in one of its three states, with the sizes of Go's types, is read back, whatever bytes
  -- the store holds.
  pub decode_stored-Storable :
      (data' : Text) (r : StoredRecord)
      → Bytes data'
      → length data' < 2 ^ 64
      → decode_stored sha256 data' ≡ ok r
      → Storable r
  unfolding decode_stored
  decode_stored-Storable data' r b size h =
      let (payload, k, h1) =
        >>=-ok (present (unchecked sha256 data' (codes "JRV1")) decode_failure) _ h in
      let form = unchecked-payload data' (codes "JRV1") payload b (present-ok _ decode_failure k) in
      stored_of-Storable payload r form.0 (omega (arith, form.1, size)) h1
