-- ===== src/Journal/Codec/Values.antt =====
-- journal/codec.go and journal/journal.go: lists of strings and the values of the manifest keys.
use cockroachdbxaws.Base.{
  ℕ, zero, suc, ◌+◌, ◌*◌, ◌-◌, Text, codes, Bool, not, true, false, List, [], ◌∷◌, ◌++◌, Option,
  none, some, length, if◌then◌else◌, ltb, ◌==◌,
}
use cockroachdbxaws.Journal.Bytes.{
  take, drop, uvarint, read_uvarint, big_endian, read_big_endian, append_bytes, take_bytes, checked,
  unchecked,
}
use cockroachdbxaws.Journal.Results.{
  JournalError, Result, ok, err, decode_failure, ◌>>=◌, ◌>>◌, refuse, present,
}
use cockroachdbxaws.Journal.Identifiers.{max_owner_bytes, claim_token_bytes}
pub mod RoundTrip
pub mod Counts
pub mod Canonical

-- The loop over `values`.
unfoldable pub append_strings : Text → List Text → Text
append_strings payload [] = payload
append_strings payload (v ∷ vs) = append_strings (append_bytes payload v) vs

-- The loop of `count` turns: the strings and what follows them.
unfoldable pub read_strings : ℕ → Text → Result (List Text × Text)
read_strings zero payload = ok ([], payload)
read_strings (suc count) payload = do
  (v, rest) ← present (take_bytes payload) decode_failure
  (vs, after) ← read_strings count rest
  ok (v ∷ vs, after)

module _ (sha256 : Text → Text) where
  unfoldable pub encode_strings : Text → List Text → Text
  encode_strings magic values =
      checked sha256 magic (append_strings (uvarint (length values)) values)

  unfoldable pub decode_strings : Text → Text → Result (List Text)
  decode_strings data' magic = do
    payload ← present (unchecked sha256 data' magic) decode_failure
    (count, strings) ← present (read_uvarint payload) decode_failure
    (out, rest) ← read_strings count strings
    refuse (not (length rest == 0)) decode_failure
    ok out

  -- `FormatMajor` is 1 and `FormatMinor` is 0.
  unfoldable pub format_value : Text
  format_value = checked sha256 (codes "JFM1") (big_endian 2 1 ++ big_endian 2 0)

  unfoldable pub usage_value : ℕ → Text
  usage_value n = checked sha256 (codes "JUS1") (big_endian 8 n)

  unfoldable pub decode_usage : Text → Option ℕ
  decode_usage data' = elim (unchecked sha256 data' (codes "JUS1")) [
    | none ↦ none
    | some p ↦ if not (length p == 8) then none else some (read_big_endian 0 p)
  ]

  -- The four counts, one for each priority.
  unfoldable pub append_counts : Text → List ℕ → Text
  append_counts payload [] = payload
  append_counts payload (v ∷ vs) = append_counts (payload ++ big_endian 8 v) vs

  unfoldable pub priority_value : List ℕ → Text
  priority_value values = checked sha256 (codes "JPA1") (append_counts [] values)

  unfoldable pub read_counts : ℕ → Text → List ℕ
  read_counts zero p = []
  read_counts (suc n) p = read_big_endian 0 (take 8 p) ∷ read_counts n (drop 8 p)

  unfoldable pub decode_priority : Text → Option (List ℕ)
  decode_priority data' = elim (unchecked sha256 data' (codes "JPA1")) [
    | none ↦ none
    | some p ↦ if not (length p == 32) then none else some (read_counts 4 p)
  ]

  -- `transitionReserveBytes` zeros.
  unfoldable pub zeros : ℕ → Text
  zeros zero = []
  zeros (suc n) = 0 ∷ zeros n

  unfoldable pub reserve_value : Text
  reserve_value =
      checked sha256 (codes "JTR1") (zeros (max_owner_bytes + 1 + claim_token_bytes - 1))
