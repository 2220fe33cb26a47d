-- ===== src/Journal/Codec/Batches.antt =====
-- journal/codec.go: the durable form of a batch, its members and those of them that are still live.
use cockroachdbxaws.Base.{
  ℕ, zero, suc, ◌+◌, ◌/◌, Text, codes, text_eq, text_lt, Bool, true, false, not, ◌&&◌, ◌||◌, List,
  [], ◌∷◌, ◌++◌, Option, none, some, length, get_elem?, map, any, all, if◌then◌else◌, ltb, ◌==◌,
}
use cockroachdbxaws.Incident.Search.{search_slice}
use cockroachdbxaws.Journal.Bytes.{
  take, drop, uvarint, read_uvarint, append_bytes, take_bytes, checked, unchecked,
}
use cockroachdbxaws.Journal.Results.{
  JournalError, Result, ok, err, decode_failure, ◌>>=◌, ◌>>◌, refuse, present,
}
use cockroachdbxaws.Journal.Identifiers.{valid_record_id}
use cockroachdbxaws.Journal.Codec.Values.{append_strings}
pub mod RoundTrip

abbrev pub max_append_records : ℕ
max_append_records = 10_000

abbrev max_priority : ℕ
max_priority = 3

pub record BatchMember : Type 0 where
  pub record_id : Text
  pub priority : ℕ
  pub semantic : Text

pub record StoredBatch : Type 0 where
  pub original : List BatchMember
  pub live : List Text

abbrev pub batch_original_ids : List BatchMember → List Text
batch_original_ids members = map (λ (m : BatchMember). m.record_id) members

-- `sort.StringsAreSorted(values)`, and the loop that refuses two equal neighbours.
unfoldable pub strings_are_sorted : List Text → Bool
strings_are_sorted [] = true
strings_are_sorted (a ∷ []) = true
strings_are_sorted (a ∷ b ∷ rest) = not (text_lt b a) && strings_are_sorted (b ∷ rest)

unfoldable pub no_equal_neighbours : List Text → Bool
no_equal_neighbours [] = true
no_equal_neighbours (a ∷ []) = true
no_equal_neighbours (a ∷ b ∷ rest) = not (text_eq b a) && no_equal_neighbours (b ∷ rest)

unfoldable pub sorted_unique : List Text → Bool
sorted_unique values = if not (strings_are_sorted values) then false else no_equal_neighbours values

-- `containsString`.
abbrev pub contains_string : List Text → Text → Bool
contains_string values want = any (λ v. text_eq v want) values

-- `batchMemberByID`: the binary search for the first identity that is not below the one asked for.
unfoldable pub batch_member_by_id : StoredBatch → Text → Option BatchMember
batch_member_by_id batch record_id =
    elim (get_elem? batch.original
      (search_slice (λ (m : BatchMember). not (text_lt m.record_id record_id)) batch.original)) [
        | none ↦ none
        | some member ↦ if not (text_eq member.record_id record_id) then none else some member
      ]

unfoldable pub append_members : Text → List BatchMember → Text
append_members payload [] = payload
append_members payload (m ∷ ms) =
    append_members ((append_bytes payload m.record_id ++ m.priority ∷ []) ++ m.semantic) ms

-- The loop of `count` turns: the members and what follows them.
unfoldable pub read_members : ℕ → Text → Result (List BatchMember × Text)
read_members zero payload = ok ([], payload)
read_members (suc count) payload = do
  (id, rest) ← present (take_bytes payload) decode_failure
  refuse (not (valid_record_id id) || ltb (length rest) 33) decode_failure
  priority ← present (get_elem? rest 0) decode_failure
  refuse (ltb max_priority priority) decode_failure
  (members, after) ← read_members count (drop 33 rest)
  ok (
    record { record_id = id; priority = priority; semantic = take 32 (drop 1 rest) } ∷ members,
    after,
  )

unfoldable pub read_live : ℕ → Text → Result (List Text × Text)
read_live zero payload = ok ([], payload)
read_live (suc count) payload = do
  (id, rest) ← present (take_bytes payload) decode_failure
  refuse (not (valid_record_id id)) decode_failure
  (ids, after) ← read_live count rest
  ok (id ∷ ids, after)

-- The conditions on a batch that was read.
unfoldable pub valid_batch : StoredBatch → Bool
valid_batch batch =
    sorted_unique (batch_original_ids batch.original)
    && sorted_unique batch.live
    && all (λ id. elim (batch_member_by_id batch id) [ none ↦ false | some m ↦ true ]) batch.live

module _ (sha256 : Text → Text) where
  unfoldable pub encode_batch : StoredBatch → Text
  encode_batch batch =
      let members = append_members (uvarint (length batch.original)) batch.original in
      checked sha256 (codes "JBV2")
        (append_strings (members ++ uvarint (length batch.live)) batch.live)

  unfoldable pub decode_batch : Text → Result StoredBatch
  decode_batch data' = do
    payload ← present (unchecked sha256 data' (codes "JBV2")) decode_failure
    (member_count, members) ← present (read_uvarint payload) decode_failure
    refuse ((member_count == 0) || ltb max_append_records member_count) decode_failure
    (original, after_members) ← read_members member_count members
    (live_count, lives) ← present (read_uvarint after_members) decode_failure
    refuse (ltb member_count live_count) decode_failure
    (live, rest) ← read_live live_count lives
    let batch : StoredBatch = record { original = original; live = live }
    refuse (not (length rest == 0) || not (valid_batch batch)) decode_failure
    ok batch
