-- ===== src/Journal/Codec/RoundTrip/Lengths.antt =====
-- journal/codec.go, `encodeStored`: how long the durable form of a record is.
use cockroachdbxaws.Base.{◌+◌, ◌≡◌, ap, Text, [], ◌++◌, length, length-append, codes, arith}
use cockroachdbxaws.Journal.Bytes.{uvarint, big_endian, checked}
use cockroachdbxaws.Journal.Codec.{StoredRecord, encode_stored, stored_payload}
use cockroachdbxaws.Journal.Codec.RoundTrip.{stored_payload_lem, payload_of, tail_of, sealed, field}

field-length :
    (value rest : Text)
    → length (field value rest) ≡ length (uvarint (length value)) + length value + length rest
unfolding field
field-length value rest =
    omega (arith, length-append (uvarint (length value)) (value ++ rest), length-append value rest)

length-payload_of : (r : StoredRecord) → length (payload_of r) ≡ 32 + length (tail_of r)
unfolding payload_of big_endian
length-payload_of r = omega arith

tail-length :
    (r : StoredRecord)
    → length (tail_of r)
      ≡ length (uvarint (length r.claim_owner))
        + length r.claim_owner
        + (length (uvarint (length r.claim_token)) + length r.claim_token + length (sealed r))
unfolding tail_of
tail-length r = omega (
  arith,
  field-length r.claim_owner (field r.claim_token (sealed r)),
  field-length r.claim_token (sealed r),
)

-- The parts of a record that depend on who holds it, and the others.
pub length-encode_stored :
    (sha256 : Text → Text) (digest : (t : Text) → length (sha256 t) ≡ 32) (r : StoredRecord)
    → length (encode_stored sha256 r)
      ≡ 68
        + (length (uvarint (length r.claim_owner)) + length r.claim_owner)
        + (length (uvarint (length r.claim_token)) + length r.claim_token)
        + (length r.semantic + length (uvarint (length r.envelope)) + length r.envelope)
unfolding encode_stored checked sealed
length-encode_stored sha256 digest r =
    let payload = stored_payload r in
    let out = codes "JRV1" ++ payload in
    let form : length payload ≡ length (payload_of r) =
      ap (λ (t : Text). length t) (stored_payload_lem r) in
    omega (
      arith,
      length-append out (sha256 out),
      digest out,
      form,
      length-payload_of r,
      tail-length r,
      length-append r.semantic (field r.envelope []),
      field-length r.envelope [],
    )
