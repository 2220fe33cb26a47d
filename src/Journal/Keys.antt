-- ===== src/Journal/Keys.antt =====
-- journal/keys.go: the keys of the store, ordered bytewise, and `prefixEnd` of journal/journal.go.
use cockroachdbxaws.Base.{
  ℕ, suc, ◌+◌, ◌-◌, ◌%◌, ◌^◌, Text, codes, Bool, true, false, not, ◌&&◌, ◌||◌, List, [], ◌∷◌, ◌++◌,
  Option, none, some, length, if◌then◌else◌, ltb, ◌==◌,
}
use cockroachdbxaws.Journal.Bytes.{take, drop, uvarint, read_uvarint, big_endian, read_big_endian}
use cockroachdbxaws.Journal.Times.{Time, unix_nano, from_unix_nano}
use cockroachdbxaws.Journal.Codec.{byte_at, slice}
pub mod RoundTrip
pub mod Order

abbrev pub key_version : ℕ
key_version = 1

abbrev pub ns_manifest : ℕ
ns_manifest = 1

abbrev pub ns_batch : ℕ
ns_batch = 2

abbrev pub ns_record : ℕ
ns_record = 3

abbrev pub ns_pending : ℕ
ns_pending = 4

abbrev pub ns_claim : ℕ
ns_claim = 5

abbrev pub ns_committed : ℕ
ns_committed = 6

abbrev pub ns_quarantine : ℕ
ns_quarantine = 7

abbrev pub ns_batch_ref : ℕ
ns_batch_ref = 8

abbrev pub ns_transition_reserve : ℕ
ns_transition_reserve = 9

abbrev pub ns_batch_original_ref : ℕ
ns_batch_original_ref = 10

abbrev pub prefix : ℕ → Text
prefix namespace = key_version ∷ namespace ∷ []

unfoldable pub append_component : Text → Text → Text
append_component out value = (out ++ uvarint (length value)) ++ value

-- The loop over the components.
unfoldable pub append_components : Text → List Text → Text
append_components out [] = out
append_components out (c ∷ cs) = append_components (append_component out c) cs

unfoldable pub key : ℕ → List Text → Text
key namespace components = append_components (prefix namespace) components

unfoldable pub key_format : Text
key_format = key ns_manifest (codes "format" ∷ [])

unfoldable pub key_owner : Text
key_owner = key ns_manifest (codes "owner" ∷ [])

unfoldable pub key_usage : Text
key_usage = key ns_manifest (codes "usage" ∷ [])

unfoldable pub key_priority : Text
key_priority = key ns_manifest (codes "priority" ∷ [])

unfoldable pub key_boundary : Text
key_boundary = key ns_manifest (codes "boundary" ∷ [])

unfoldable pub batch_key : Text → Text
batch_key batch_id = key ns_batch (batch_id ∷ [])

unfoldable pub record_key : Text → Text
record_key record_id = key ns_record (record_id ∷ [])

unfoldable pub quarantine_key : Text → Text
quarantine_key record_id = key ns_quarantine (record_id ∷ [])

unfoldable pub batch_ref_key : Text → Text → Text
batch_ref_key record_id batch_id = key ns_batch_ref (record_id ∷ batch_id ∷ [])

unfoldable pub batch_ref_prefix : Text → Text
batch_ref_prefix record_id = key ns_batch_ref (record_id ∷ [])

unfoldable pub transition_reserve_key : Text → Text
transition_reserve_key record_id = key ns_transition_reserve (record_id ∷ [])

unfoldable pub batch_original_ref_key : Text → Text → Text
batch_original_ref_key record_id batch_id = key ns_batch_original_ref (record_id ∷ batch_id ∷ [])

unfoldable pub batch_original_ref_prefix : Text → Text
batch_original_ref_prefix record_id = key ns_batch_original_ref (record_id ∷ [])

-- `w ^ (1 << 63)` of a 64-bit word: the addition carries out of the word.
abbrev pub flip_sign : ℕ → ℕ
flip_sign w = (w + 2 ^ 63) % 2 ^ 64

unfoldable pub append_ordered_time : Text → Time → Text
append_ordered_time out at = out ++ big_endian 8 (flip_sign (unix_nano at))

unfoldable pub pending_key : ℕ → Time → Text → Text
pending_key priority received record_id =
    append_component (append_ordered_time (prefix ns_pending ++ priority ∷ []) received) record_id

unfoldable pub claim_key : Time → Text → Text
claim_key expiry record_id =
    append_component (append_ordered_time (prefix ns_claim) expiry) record_id

unfoldable pub committed_key : Time → Text → Text
committed_key at record_id =
    append_component (append_ordered_time (prefix ns_committed) at) record_id

unfoldable pub read_component : Text → Option (Text × Text)
read_component input = elim (read_uvarint input) [
  | none ↦ none
  | some (size, rest) ↦
      if ltb (length rest) size then none else some (take size rest, drop size rest)
]

-- The last component of a key: nothing may follow it.
abbrev last_component : Text → Option Text
last_component input = elim (read_component input) [
  | none ↦ none
  | some (id, rest) ↦ if length rest == 0 then some id else none
]

unfoldable pub parse_pending_key : Text → Option (ℕ × Time × Text)
parse_pending_key input =
    if ltb (length input) 11
      || not (byte_at 0 input == key_version)
      || not (byte_at 1 input == ns_pending)
    then none
    else elim (last_component (drop 11 input)) [
      | none ↦ none
      | some id ↦
          some
            (byte_at 2 input, from_unix_nano (flip_sign (read_big_endian 0 (slice 3 11 input))), id)
    ]

unfoldable pub parse_timed_key : Text → ℕ → Option (Time × Text)
parse_timed_key input namespace =
    if ltb (length input) 10
      || not (byte_at 0 input == key_version)
      || not (byte_at 1 input == namespace)
    then none
    else elim (last_component (drop 10 input)) [
      | none ↦ none
      | some id ↦ some (from_unix_nano (flip_sign (read_big_endian 0 (slice 2 10 input))), id)
    ]

unfoldable pub parse_two_component_key : Text → ℕ → Option (Text × Text)
parse_two_component_key input namespace =
    if ltb (length input) 2
      || not (byte_at 0 input == key_version)
      || not (byte_at 1 input == namespace)
    then none
    else elim (read_component (drop 2 input)) [
      | none ↦ none
      | some (first, rest) ↦ elim (last_component rest) [
        | none ↦ none
        | some second ↦ some (first, second)
      ]
    ]

-- `prefixEnd`: the bytes up to the last one that is not 0xff, which is raised by one; `none` is the
-- absent bound.
unfoldable pub prefix_end : Text → Option Text
prefix_end [] = none
prefix_end (b ∷ bs) = elim (prefix_end bs) [
  | some end ↦ some (b ∷ end)
  | none ↦ if b == 0xff then none else some (suc b ∷ [])
]
