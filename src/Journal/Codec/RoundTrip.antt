-- ===== src/Journal/Codec/RoundTrip.antt =====
-- journal/codec.go: what `encodeStored` writes is what `decodeStored` reads.
use mathlib.Core.List.{append_assoc, append-nil}
use cockroachdbxaws.Base.{
  ℕ, ◌+◌, ◌^◌, ◌<◌, ◌≤◌, subst, ltb, ◌==◌, ◌≡◌, refl, ap, ◌∙◌, inl, inr, ◌⊎◌, Text, codes, Bool,
  true, false, not, Bool-cases, List, [], ◌∷◌, ◌++◌, none, some, length, length-append, arith,
  if◌then◌else◌,
}
use cockroachdbxaws.Journal.Bytes.{
  take, drop, uvarint, big_endian, read_big_endian, append_bytes, take_bytes, checked, unchecked,
}
use cockroachdbxaws.Journal.Bytes.Slices.{take-append, drop-append}
use cockroachdbxaws.Journal.Bytes.RoundTrip.{
  read_big_endian-big_endian, length-big_endian, unchecked-checked, take_bytes-append_bytes,
}
use cockroachdbxaws.Journal.Results.{Result, ok, err, ◌>>=◌, ◌>>◌, refuse, present}
use cockroachdbxaws.Journal.Times.{
  Time, zero_time, is_zero_time, unix_nano, from_unix_nano, valid_journal_time,
  from_unix_nano-unix_nano, unix_nano-lt,
}
use cockroachdbxaws.Journal.Identifiers.{valid_identifier, valid_claim_token}
use cockroachdbxaws.Journal.Codec.{
  StoredRecord, append_optional_time, read_optional_time, stored_payload, stored_of, valid_state,
  valid_stored, encode_stored, decode_stored, byte_at, slice,
}
pub mod Lengths

-- The two parts of an optional instant.
abbrev flag : Time → ℕ
flag at = if is_zero_time at then 0 else 1

abbrev word : Time → ℕ
word at = if is_zero_time at then 0 else unix_nano at

append_optional_time_lem :
    (out : Text) (at : Time)
    → append_optional_time out at ≡ out ++ (flag at ∷ big_endian 8 (word at))
unfolding append_optional_time
append_optional_time_lem out at = elim (Bool-cases (is_zero_time at)) [
  | inl z ↦ rw (z, append_optional_time) (append_assoc out (0 ∷ []) (big_endian 8 0))
  | inr n ↦ rw (n, append_optional_time) (append_assoc out (1 ∷ []) (big_endian 8 (unix_nano at)))
]

-- An instant that the journal writes as optional: the zero instant, or one in range.
abbrev pub Optional : Time → Type 0
Optional at = (at ≡ zero_time) ⊎ (valid_journal_time at ≡ true)

read_word : (w : ℕ) → w < 2 ^ 64 → read_big_endian 0 (big_endian 8 w) ≡ w
read_word w h = omega (arith, read_big_endian-big_endian 8 0 w h)

valid-not-zero : (at : Time) → valid_journal_time at ≡ true → is_zero_time at ≡ false
unfolding valid_journal_time
valid-not-zero at v = ground arith

read_optional_time_lem :
    (at : Time) → Optional at → read_optional_time (flag at) (big_endian 8 (word at)) ≡ ok at
unfolding read_optional_time
read_optional_time_lem at (inl z) =
    rw z (rw (length-big_endian 8 0, read_word 0 (omega arith)) refl)
read_optional_time_lem at (inr v) = rw (valid-not-zero at v) (
    rw (length-big_endian 8 (unix_nano at), read_word (unix_nano at) (unix_nano-lt at))
      (rw (from_unix_nano-unix_nano at v) (rw v refl)))

field : Text → Text → Text
field value rest = uvarint (length value) ++ (value ++ rest)

-- What follows the claim's token.
sealed : StoredRecord → Text
sealed r = r.semantic ++ field r.envelope []

-- The bytes of a record after the attempt, nested to the right.
tail_of : StoredRecord → Text
tail_of r = field r.claim_owner (field r.claim_token (sealed r))

payload_of : StoredRecord → Text
payload_of r =
    r.state
    ∷ r.priority
    ∷ (big_endian 8 (unix_nano r.received)
        ++ flag r.claim_expiry
          ∷ (big_endian 8 (word r.claim_expiry)
              ++ flag r.committed_at
                ∷ (big_endian 8 (word r.committed_at) ++ (big_endian 4 r.attempt ++ tail_of r))))

stored_payload_lem : (r : StoredRecord) → stored_payload r ≡ payload_of r
unfolding append_bytes payload_of tail_of sealed field
stored_payload_lem r =
    rw
      (append_optional_time_lem ((r.state ∷ r.priority ∷ []) ++ big_endian 8 (unix_nano r.received))
        r.claim_expiry)
      (rw
        (append_optional_time_lem
          (((r.state ∷ r.priority ∷ []) ++ big_endian 8 (unix_nano r.received))
            ++ flag r.claim_expiry ∷ big_endian 8 (word r.claim_expiry))
          r.committed_at)
        (simp (append_assoc) (rw (append-nil r.envelope) refl)))

take_bytes-field :
    (value rest : Text) → length value < 2 ^ 64 → take_bytes (field value rest) ≡ some (value, rest)
unfolding field append_bytes
take_bytes-field value rest h =
    rw (append_assoc (uvarint (length value)) value rest) at (take_bytes-append_bytes value rest h)

-- What `encodeStored` is given: a record in one of the three states, with the sizes of Go's types.
pub record Storable (r : StoredRecord) : Type 0 where
  pub valid : valid_stored r ≡ true
  pub expiry : Optional r.claim_expiry
  pub committed : Optional r.committed_at
  pub received_valid : valid_journal_time r.received ≡ true
  pub attempt_size : r.attempt < 2 ^ 32
  pub digest_size : length r.semantic ≡ 32
  pub owner_size : length r.claim_owner < 2 ^ 64
  pub token_size : length r.claim_token < 2 ^ 64
  pub envelope_size : length r.envelope < 2 ^ 64

length-field : (value rest : Text) → length rest ≤ length (field value rest)
unfolding field
length-field value rest =
    omega (arith, length-append (uvarint (length value)) (value ++ rest), length-append value rest)

length-sealed : (r : StoredRecord) → length r.semantic ≡ 32 → 32 ≤ length (sealed r)
unfolding sealed
length-sealed r h = omega (arith, length-append r.semantic (field r.envelope []))

drop-sealed : (r : StoredRecord) → length r.semantic ≡ 32 → drop 32 (sealed r) ≡ field r.envelope []
unfolding sealed
drop-sealed r h =
    subst (λ (n : ℕ). drop n (sealed r) ≡ field r.envelope []) h
      (drop-append r.semantic (field r.envelope []))

take-sealed : (r : StoredRecord) → length r.semantic ≡ 32 → take 32 (sealed r) ≡ r.semantic
unfolding sealed
take-sealed r h =
    subst (λ (n : ℕ). take n (sealed r) ≡ r.semantic) h
      (take-append r.semantic (field r.envelope []))

length-tail_of : (r : StoredRecord) → length r.semantic ≡ 32 → 32 ≤ length (tail_of r)
unfolding tail_of
length-tail_of r h = omega (
  arith,
  length-field r.claim_owner (field r.claim_token (sealed r)),
  length-field r.claim_token (sealed r),
  length-sealed r h,
)

read_attempt : (w : ℕ) → w < 2 ^ 32 → read_big_endian 0 (big_endian 4 w) ≡ w
read_attempt w h = omega (arith, read_big_endian-big_endian 4 0 w h)

take_bytes-tail_of :
    (r : StoredRecord)
    → length r.claim_owner < 2 ^ 64
    → take_bytes (tail_of r) ≡ some (r.claim_owner, field r.claim_token (sealed r))
unfolding tail_of
take_bytes-tail_of r h = take_bytes-field r.claim_owner (field r.claim_token (sealed r)) h

stored_of-payload_of : (r : StoredRecord) → Storable r → stored_of (payload_of r) ≡ ok r
unfolding stored_of payload_of big_endian
stored_of-payload_of r s =
    let size : ltb (length (payload_of r)) 64 ≡ false =
      ground (arith, length-tail_of r s.digest_size) in
    let sized : ltb (length (sealed r)) 32 ≡ false =
      ground (arith, length-sealed r s.digest_size) in
    rw
      (
        read_optional_time_lem r.claim_expiry s.expiry,
        read_optional_time_lem r.committed_at s.committed,
      )
      (rw size (
        rw (take_bytes-tail_of r s.owner_size) (
          rw (take_bytes-field r.claim_token (sealed r) s.token_size) (
            rw
              (
                sized,
                drop-sealed r s.digest_size,
                take-sealed r s.digest_size,
                take_bytes-field r.envelope [] s.envelope_size,
              )
              (rw
                (
                  read_word (unix_nano r.received) (unix_nano-lt r.received),
                  read_attempt r.attempt s.attempt_size,
                  from_unix_nano-unix_nano r.received s.received_valid,
                )
                (rw s.valid refl))))))

module _ (sha256 : Text → Text) (digest : (t : Text) → length (sha256 t) ≡ 32) where
  -- A record in one of its three states, with instants in UTC and the sizes of Go's types, is read back
  -- as it was written, if the digest has 32 bytes.
  pub decode_stored-encode_stored :
      (r : StoredRecord) → Storable r → decode_stored sha256 (encode_stored sha256 r) ≡ ok r
  unfolding decode_stored encode_stored
  decode_stored-encode_stored r s =
      rw
        (unchecked-checked sha256 (codes "JRV1") (stored_payload r)
          (digest (codes "JRV1" ++ stored_payload r)))
        (rw (stored_payload_lem r) (stored_of-payload_of r s))
