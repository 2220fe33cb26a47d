-- ===== src/Journal/Claims/Growth.antt =====
-- journal/types.go, `transitionReserveBytes`: what a claim adds to the bytes of a pending record.
use cockroachdbxaws.Base.{
  ℕ, suc, ◌+◌, ◌-◌, ◌*◌, ◌/◌, ◌<◌, ◌≤◌, ◌≡◌, refl, inl, inr, Bool-cases, lt→ltb, Text, true, [],
  ◌∷◌, length, arith, ltb, ◌==◌,
}
use cockroachdbxaws.Journal.Bytes.{uvarint, uvarint_bytes, big_endian}
use cockroachdbxaws.Journal.Times.{Time}
use cockroachdbxaws.Journal.Identifiers.{
  valid_identifier, valid_record_id, claim_token, fmt_hex, max_owner_bytes, claim_token_bytes,
}
use cockroachdbxaws.Journal.Codec.{
  StoredRecord, encode_stored, valid_stored, valid_state, state_pending,
}
use cockroachdbxaws.Journal.Codec.RoundTrip.Lengths.{length-encode_stored}
use cockroachdbxaws.Journal.Keys.{append_component, append_ordered_time, claim_key, pending_key}
use cockroachdbxaws.Journal.State.{World}
use cockroachdbxaws.Journal.Claims.{claim_of}

length-fmt_hex : (xs : Text) → length (fmt_hex xs) ≡ 2 * length xs
unfolding fmt_hex
length-fmt_hex [] = refl
length-fmt_hex (x ∷ xs) = omega (arith, length-fmt_hex xs)

-- A number takes one byte below 128, and at most two below 2 ^ 14.
one_byte : (fuel v : ℕ) → v < 128 → length (uvarint_bytes (suc fuel) v) ≡ 1
unfolding uvarint_bytes
one_byte fuel v h = rw (lt→ltb v 128 h) refl

two_bytes : (fuel v : ℕ) → v < 16_384 → length (uvarint_bytes (suc (suc fuel)) v) ≤ 2
unfolding uvarint_bytes
two_bytes fuel v h = elim (Bool-cases (ltb v 128)) [
  | inl small ↦ rw small (omega arith)
  | inr large ↦ rw large (omega (arith, one_byte fuel (v / 128) (omega arith)))
]

uvarint-one : (v : ℕ) → v < 128 → length (uvarint v) ≡ 1
unfolding uvarint
uvarint-one v h = one_byte 8 v h

uvarint-two : (v : ℕ) → v < 16_384 → length (uvarint v) ≤ 2
unfolding uvarint
uvarint-two v h = two_bytes 7 v h

record_id-length : (a : Text) → valid_record_id a ≡ true → length a ≡ 64
unfolding valid_record_id
record_id-length a h = ground arith

identifier-length : (a : Text) (max : ℕ) → valid_identifier a max ≡ true → length a ≤ max
unfolding valid_identifier
identifier-length a max h = ground arith

length-claim_key : (t : Time) (id : Text) → length id ≡ 64 → length (claim_key t id) ≡ 75
unfolding claim_key append_ordered_time append_component big_endian uvarint uvarint_bytes
length-claim_key t id h = rw h (omega (arith, h))

length-pending_key :
    (p : ℕ) (t : Time) (id : Text) → length id ≡ 64 → length (pending_key p t id) ≡ 76
unfolding pending_key append_ordered_time append_component big_endian uvarint uvarint_bytes
length-pending_key p t id h = rw h (omega (arith, h))

-- A pending record has neither an owner nor a token.
pending-bare :
    (r : StoredRecord)
    → valid_stored r ≡ true
    → (r.state == state_pending) ≡ true
    → (length r.claim_owner ≡ 0) × (length r.claim_token ≡ 0)
unfolding valid_stored valid_state
pending-bare r h k = (ground arith, ground arith)

module _ {S : Type 0} (w : World S) (digest : (t : Text) → length (w.sha256 t) ≡ 32) where
  length-claim_token :
      (a b c : Text) (n : ℕ) (t : Time) → length (claim_token w.sha256 a b c n t) ≡ 70
  unfolding claim_token
  length-claim_token a b c n t = omega (arith, length-fmt_hex (w.sha256 _), digest _)

  -- A claim adds to a pending record and its index no more bytes than its transition reserve holds,
  -- whoever claims it: the record's growth and the claim's key, against the pending key and
  -- `transitionReserveBytes`. The owner is a valid identifier, and the digest has 32 bytes.
  pub claim-fits_reserve :
      (r : StoredRecord) (owner id : Text) (expiry : Time)
      → valid_stored r ≡ true
      → (r.state == state_pending) ≡ true
      → valid_identifier owner max_owner_bytes ≡ true
      → valid_record_id id ≡ true
      → length (encode_stored w.sha256 (claim_of w owner id expiry r))
          + length (claim_key expiry id)
        ≤ length (encode_stored w.sha256 r)
          + length (pending_key r.priority r.received id)
          + (max_owner_bytes + 1 + claim_token_bytes - 1)
  claim-fits_reserve r owner id expiry valid pending owned named =
      let bare = pending-bare r valid pending in
      let short = identifier-length owner max_owner_bytes owned in
      let sixty_four = record_id-length id named in
      let token = length-claim_token w.cfg.owner owner id (r.attempt + 1) expiry in
      let claimed = claim_of w owner id expiry r in
      omega (
        arith,
        length-encode_stored w.sha256 digest r,
        length-encode_stored w.sha256 digest claimed,
        length-claim_key expiry id sixty_four,
        length-pending_key r.priority r.received id sixty_four,
        uvarint-two (length owner) (omega arith),
        uvarint-one (length claimed.claim_token) (omega arith),
        uvarint-one (length r.claim_owner) (omega arith),
        uvarint-one (length r.claim_token) (omega arith),
      )
