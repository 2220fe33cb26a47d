-- ===== src/Journal/Keys/RoundTrip.antt =====
-- journal/keys.go: what the index keys are built from is what they parse to.
use mathlib.Core.List.{append_assoc, append-nil}
use cockroachdbxaws.Base.{
  ℕ, ◌^◌, ◌<◌, ◌≡◌, refl, ◌∙◌, Text, true, [], ◌++◌, some, length, length-append, arith,
}
use cockroachdbxaws.Journal.Bytes.{uvarint, big_endian, read_big_endian}
use cockroachdbxaws.Journal.Bytes.Slices.{take-append, drop-append}
use cockroachdbxaws.Journal.Bytes.RoundTrip.{read_uvarint-uvarint, read_big_endian-big_endian}
use cockroachdbxaws.Journal.Times.{
  Time, unix_nano, from_unix_nano, valid_journal_time, from_unix_nano-unix_nano, unix_nano-lt,
}
use cockroachdbxaws.Journal.Keys.{
  append_component, append_components, append_ordered_time, flip_sign, key, pending_key, claim_key,
  committed_key, batch_ref_key, batch_original_ref_key, read_component, parse_pending_key,
  parse_timed_key, parse_two_component_key, ns_claim, ns_committed, ns_batch_ref,
  ns_batch_original_ref,
}

component : Text → Text → Text
component value rest = uvarint (length value) ++ (value ++ rest)

read_component_lem :
    (value rest : Text)
    → length value < 2 ^ 64
    → read_component (component value rest) ≡ some (value, rest)
unfolding read_component component
read_component_lem value rest h =
    rw (read_uvarint-uvarint (length value) (value ++ rest) h, read_component)
      (rw (take-append value rest, drop-append value rest)
        (ground (arith, length-append value rest)))

read_ordered :
    (t : Time)
    → valid_journal_time t ≡ true
    → from_unix_nano (flip_sign (read_big_endian 0 (big_endian 8 (flip_sign (unix_nano t))))) ≡ t
read_ordered t v =
    let read : read_big_endian 0 (big_endian 8 (flip_sign (unix_nano t)))
        ≡ flip_sign (unix_nano t) =
      omega (arith, read_big_endian-big_endian 8 0 (flip_sign (unix_nano t)) (omega arith)) in
    let back : flip_sign (flip_sign (unix_nano t)) ≡ unix_nano t = omega (arith, unix_nano-lt t) in
    rw (read, back) (from_unix_nano-unix_nano t v)

-- The part of an index key after its fixed bytes.
ordered : Time → Text → Text
ordered t id = big_endian 8 (flip_sign (unix_nano t)) ++ component id []

ordered_lem :
    (t : Time) (id : Text)
    → (big_endian 8 (flip_sign (unix_nano t)) ++ uvarint (length id)) ++ id ≡ ordered t id
unfolding ordered component
ordered_lem t id =
    append_assoc (big_endian 8 (flip_sign (unix_nano t))) (uvarint (length id)) id
    ∙ rw (append-nil id) refl

module _ (t : Time) (id : Text) (valid : valid_journal_time t ≡ true)
    (size : length id < 2 ^ 64) where
  -- A pending key parses to the priority, the instant and the identity that it was built from; the
  -- instant is in range and the identity has a length of 64 bits.
  pub parse_pending_key-pending_key :
      (p : ℕ) → parse_pending_key (pending_key p t id) ≡ some (p, t, id)
  unfolding pending_key append_ordered_time append_component parse_pending_key ordered big_endian
  parse_pending_key-pending_key p =
      rw (ordered_lem t id)
        (rw (read_component_lem id [] size) (rw (read_ordered t valid) (ground arith)))

  -- The key of a claim, or of a committed record, parses to the instant and the identity that it was
  -- built from; the instant is in range and the identity has a length of 64 bits.
  pub parse_timed_key-claim_key :
      (parse_timed_key (claim_key t id) ns_claim ≡ some (t, id))
      × (parse_timed_key (committed_key t id) ns_committed ≡ some (t, id))
  unfolding claim_key committed_key append_ordered_time append_component parse_timed_key ordered
      big_endian
  parse_timed_key-claim_key =
      rw (ordered_lem t id) (
        rw (read_component_lem id [] size) (rw (read_ordered t valid) (ground arith, ground arith)))

-- The key of a reference from a record to a batch parses to the two identities, whose lengths are of
-- 64 bits.
pub parse_two_component_key-batch_ref_key :
    (id batch : Text)
    → length id < 2 ^ 64
    → length batch < 2 ^ 64
    → (parse_two_component_key (batch_ref_key id batch) ns_batch_ref ≡ some (id, batch))
      × (parse_two_component_key (batch_original_ref_key id batch) ns_batch_original_ref
          ≡ some (id, batch))
unfolding batch_ref_key batch_original_ref_key key append_components append_component
    parse_two_component_key component
parse_two_component_key-batch_ref_key id batch h k =
    let two : ((uvarint (length id) ++ id) ++ uvarint (length batch)) ++ batch
        ≡ component id (component batch []) =
      simp (append_assoc) (rw (append-nil batch) refl) in
    rw two (
      rw (read_component_lem id (component batch []) h)
        (rw (read_component_lem batch [] k) (ground arith, ground arith)))
