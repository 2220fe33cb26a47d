-- ===== src/Journal/Codec.antt =====
-- journal/codec.go: the durable form of a record, with its optional instants.
use cockroachdbxaws.Base.{
  ℕ, zero, suc, ◌+◌, ◌-◌, Text, codes, Bool, true, false, not, ◌&&◌, ◌||◌, List, [], ◌∷◌, ◌++◌,
  none, some, length, get_elem?, if◌then◌else◌, ltb, ◌==◌, pos, negsuc,
}
use cockroachdbxaws.Journal.Bytes.{
  take, drop, big_endian, read_big_endian, append_bytes, take_bytes, checked, unchecked,
}
use cockroachdbxaws.Journal.Results.{
  JournalError, Result, ok, err, decode_failure, ◌>>=◌, ◌>>◌, refuse, present,
}
use cockroachdbxaws.Journal.Times.{
  Time, zero_time, is_zero_time, unix_nano, from_unix_nano, valid_journal_time,
}
use cockroachdbxaws.Journal.Identifiers.{valid_identifier, valid_claim_token, max_owner_bytes}
pub mod Values
pub mod Batches
pub mod Quarantines
pub mod RoundTrip
pub mod Validity

-- `Priority` and `State` are bytes; these are the values with a name.
abbrev pub priority_low : ℕ
priority_low = 3

abbrev pub state_pending : ℕ
state_pending = 1

abbrev pub state_claimed : ℕ
state_claimed = 2

abbrev pub state_committed : ℕ
state_committed = 3

pub record StoredRecord : Type 0 where
  pub state : ℕ
  pub priority : ℕ
  pub received : Time
  pub claim_expiry : Time
  pub committed_at : Time
  pub attempt : ℕ
  pub claim_owner : Text
  pub claim_token : Text
  pub semantic : Text
  pub envelope : Text

-- `xs[i]` and `xs[i:j]`, at indexes within the bounds.
abbrev pub byte_at : ℕ → Text → ℕ
byte_at i xs = elim (get_elem? xs i) [ none ↦ 0 | some b ↦ b ]

abbrev pub slice : ℕ → ℕ → Text → Text
slice i j xs = take (j - i) (drop i xs)

unfoldable pub append_optional_time : Text → Time → Text
append_optional_time out at =
    if is_zero_time at
    then (out ++ 0 ∷ []) ++ big_endian 8 0
    else (out ++ 1 ∷ []) ++ big_endian 8 (unix_nano at)

unfoldable pub read_optional_time : ℕ → Text → Result Time
read_optional_time present' nanos' =
    let encoded = read_big_endian 0 nanos' in
    let at = from_unix_nano encoded in
    if not (length nanos' == 8)
    then err decode_failure
    else if present' == 0
    then (if encoded == 0 then ok zero_time else err decode_failure)
    else if present' == 1
    then (if valid_journal_time at then ok at else err decode_failure)
    else err decode_failure

abbrev pub stored_payload : StoredRecord → Text
stored_payload r =
    let head = (r.state ∷ r.priority ∷ []) ++ big_endian 8 (unix_nano r.received) in
    let times = append_optional_time (append_optional_time head r.claim_expiry) r.committed_at in
    let owned = append_bytes (times ++ big_endian 4 r.attempt) r.claim_owner in
    append_bytes (append_bytes owned r.claim_token ++ r.semantic) r.envelope

-- The conditions of the `switch` on the state, and those before it.
unfoldable pub valid_state : StoredRecord → Bool
valid_state r =
    if r.state == state_pending
    then (length r.claim_owner == 0)
      && (length r.claim_token == 0)
      && is_zero_time r.claim_expiry
      && is_zero_time r.committed_at
    else if r.state == state_claimed
    then valid_identifier r.claim_owner max_owner_bytes
      && valid_claim_token r.claim_token
      && valid_journal_time r.claim_expiry
      && is_zero_time r.committed_at
      && not (r.attempt == 0)
    else (length r.claim_owner == 0)
      && valid_claim_token r.claim_token
      && is_zero_time r.claim_expiry
      && valid_journal_time r.committed_at
      && not (r.attempt == 0)

unfoldable pub valid_stored : StoredRecord → Bool
valid_stored r =
    not (
      ltb r.state state_pending
      || ltb state_committed r.state
      || ltb priority_low r.priority
      || not (valid_journal_time r.received)
      || (length r.envelope == 0))
    && valid_state r

-- The fields of `payload`, read in order.
unfoldable pub stored_of : Text → Result StoredRecord
stored_of payload = do
  refuse (ltb (length payload) 64) decode_failure
  claim_expiry ← read_optional_time (byte_at 10 payload) (slice 11 19 payload)
  committed_at ← read_optional_time (byte_at 19 payload) (slice 20 28 payload)
  (claim_owner, after_owner) ← present (take_bytes (drop 32 payload)) decode_failure
  (claim_token, after_token) ← present (take_bytes after_owner) decode_failure
  refuse (ltb (length after_token) 32) decode_failure
  (envelope, rest) ← present (take_bytes (drop 32 after_token)) decode_failure
  refuse (not (length rest == 0)) decode_failure
  let r : StoredRecord = record {
    state = byte_at 0 payload;
    priority = byte_at 1 payload;
    received = from_unix_nano (read_big_endian 0 (slice 2 10 payload));
    claim_expiry = claim_expiry;
    committed_at = committed_at;
    attempt = read_big_endian 0 (slice 28 32 payload);
    claim_owner = claim_owner;
    claim_token = claim_token;
    semantic = take 32 after_token;
    envelope = envelope;
  }
  refuse (not (valid_stored r)) decode_failure
  ok r

module _ (sha256 : Text → Text) where
  unfoldable pub encode_stored : StoredRecord → Text
  encode_stored r = checked sha256 (codes "JRV1") (stored_payload r)

  unfoldable pub decode_stored : Text → Result StoredRecord
  decode_stored data' = do
    payload ← present (unchecked sha256 data' (codes "JRV1")) decode_failure
    stored_of payload
