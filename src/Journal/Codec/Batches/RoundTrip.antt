-- ===== src/Journal/Codec/Batches/RoundTrip.antt =====
-- journal/codec.go: what `encodeBatch` writes is what `decodeBatch` reads.
use mathlib.Core.List.{append_assoc, append-nil}
use cockroachdbxaws.Base.{
  ℕ, suc, ◌^◌, ◌<◌, ◌≤◌, ◌≡◌, refl, sym, ◌∙◌, subst, Text, codes, true, false, ◌||◌, List, [], ◌∷◌,
  ◌++◌, All, length, ltb, ◌==◌, length-append, arith,
}
use cockroachdbxaws.Journal.Bytes.{take, drop, uvarint, append_bytes}
use cockroachdbxaws.Journal.Bytes.Slices.{take-append, drop-append}
use cockroachdbxaws.Journal.Bytes.RoundTrip.{
  read_uvarint-uvarint, unchecked-checked, take_bytes-append_bytes,
}
use cockroachdbxaws.Journal.Results.{ok}
use cockroachdbxaws.Journal.Identifiers.{valid_record_id}
use cockroachdbxaws.Journal.Codec.Values.{append_strings}
use cockroachdbxaws.Journal.Codec.Values.RoundTrip.{append_strings_lem}
use cockroachdbxaws.Journal.Codec.Batches.{
  BatchMember, StoredBatch, append_members, read_members, read_live, valid_batch, encode_batch,
  decode_batch, max_append_records,
}

-- A member with an identity, a priority and a digest of Go's sizes.
pub record Member (m : BatchMember) : Type 0 where
  pub id_valid : valid_record_id m.record_id ≡ true
  pub priority_small : m.priority ≤ 3
  pub digest_size : length m.semantic ≡ 32

-- Every identity is one that a record can have.
abbrev pub RecordIds : List Text → Type 0
RecordIds ids = All (λ id. valid_record_id id ≡ true) ids

valid_record_id-length : (id : Text) → valid_record_id id ≡ true → length id < 2 ^ 64
unfolding valid_record_id
valid_record_id-length id h = ground arith

abbrev one_member : BatchMember → Text
one_member m = (append_bytes [] m.record_id ++ m.priority ∷ []) ++ m.semantic

append_members_lem :
    (payload : Text) (ms : List BatchMember)
    → append_members payload ms ≡ payload ++ append_members [] ms
unfolding append_members append_bytes
append_members_lem payload [] = sym (append-nil payload)
append_members_lem payload (m ∷ ms) =
    append_members_lem ((append_bytes payload m.record_id ++ m.priority ∷ []) ++ m.semantic) ms
    ∙ rw (append_members_lem (one_member m) ms) (simp (append_assoc) refl)

read_members-append_members :
    (ms : List BatchMember) (rest : Text)
    → All Member ms
    → read_members (length ms) (append_members [] ms ++ rest) ≡ ok (ms, rest)
unfolding read_members append_members
read_members-append_members [] rest h = refl
read_members-append_members (m ∷ ms) rest h =
    let after = append_members [] ms ++ rest in
    let member : Member m = h.0 in
    let body = m.semantic ++ after in
    let whole : (one_member m ++ append_members [] ms) ++ rest
        ≡ append_bytes [] m.record_id ++ (m.priority ∷ body) =
      simp (append_assoc) refl in
    let long : ltb (suc (length body)) 33 ≡ false =
      ground (arith, length-append m.semantic after, member.digest_size) in
    let digest : take 32 body ≡ m.semantic =
      subst (λ (n : ℕ). take n body ≡ m.semantic) member.digest_size
        (take-append m.semantic after) in
    let remains : drop 32 body ≡ after =
      subst (λ (n : ℕ). drop n body ≡ after) member.digest_size (drop-append m.semantic after) in
    let small : ltb 3 m.priority ≡ false = ground (arith, member.priority_small) in
    rw (append_members_lem (one_member m) ms) (
      rw whole (
        rw
          (take_bytes-append_bytes m.record_id (m.priority ∷ body)
            (valid_record_id-length m.record_id member.id_valid))
          (rw (member.id_valid, long, small)
            (rw (digest, remains) (rw (read_members-append_members ms rest h.1) refl)))))

read_live-append_strings :
    (ids : List Text) (rest : Text)
    → RecordIds ids
    → read_live (length ids) (append_strings [] ids ++ rest) ≡ ok (ids, rest)
unfolding read_live append_strings
read_live-append_strings [] rest h = refl
read_live-append_strings (id ∷ ids) rest h = rw (append_strings_lem (append_bytes [] id) ids) (
    rw (append_assoc (append_bytes [] id) (append_strings [] ids) rest) (
      rw
        (take_bytes-append_bytes id (append_strings [] ids ++ rest) (valid_record_id-length id h.0))
        (rw h.0 (rw (read_live-append_strings ids rest h.1) refl))))

-- What `encodeBatch` is given.
pub record StorableBatch (b : StoredBatch) : Type 0 where
  pub members : All Member b.original
  pub live_ids : RecordIds b.live
  pub valid : valid_batch b ≡ true
  pub some_member : 1 ≤ length b.original
  pub not_too_many : length b.original ≤ max_append_records
  pub live_members : length b.live ≤ length b.original

module _ (sha256 : Text → Text) (digest : (t : Text) → length (sha256 t) ≡ 32) where
  -- A batch of 1 to 10,000 members with valid identities, sorted and without repetition, whose live
  -- identities are some of theirs, is read back as it was written, if the digest has 32 bytes.
  pub decode_batch-encode_batch :
      (b : StoredBatch) → StorableBatch b → decode_batch sha256 (encode_batch sha256 b) ≡ ok b
  unfolding decode_batch encode_batch
  decode_batch-encode_batch b s =
      let members = append_members (uvarint (length b.original)) b.original in
      let payload = append_strings (members ++ uvarint (length b.live)) b.live in
      let lives = append_strings [] b.live in
      let form : payload
          ≡ uvarint (length b.original)
            ++ (append_members [] b.original ++ (uvarint (length b.live) ++ lives)) =
        append_strings_lem (members ++ uvarint (length b.live)) b.live
        ∙ rw (append_members_lem (uvarint (length b.original)) b.original)
            (simp (append_assoc) refl) in
      let after = append_members [] b.original ++ (uvarint (length b.live) ++ lives) in
      let count_size : length b.original < 2 ^ 64 = omega (arith, s.not_too_many) in
      let live_size : length b.live < 2 ^ 64 = omega (arith, s.not_too_many, s.live_members) in
      let count : (length b.original == 0) || ltb max_append_records (length b.original) ≡ false =
        ground (arith, s.some_member, s.not_too_many) in
      let fewer : ltb (length b.original) (length b.live) ≡ false =
        ground (arith, s.live_members) in
      rw (unchecked-checked sha256 (codes "JBV2") payload (digest (codes "JBV2" ++ payload))) (
        rw form (
          rw (read_uvarint-uvarint (length b.original) after count_size) (
            rw count (
              rw
                (read_members-append_members b.original (uvarint (length b.live) ++ lives)
                  s.members)
                (rw (read_uvarint-uvarint (length b.live) lives live_size) (
                  rw fewer (
                    rw (sym (append-nil lives))
                      (rw (read_live-append_strings b.live [] s.live_ids) (rw s.valid refl)))))))))
