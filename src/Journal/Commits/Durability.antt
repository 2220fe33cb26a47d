-- ===== src/Journal/Commits/Durability.antt =====
-- journal/journal.go, `MarkCommittedBatch`: what the store holds of the claims after it succeeds.
use cockroachdbxaws.Base.{
  ◌≡◌, refl, inl, inr, sym, ◌∙◌, subst, Text, text_eq, text_eq→eq, Bool-cases, true, false, any,
  List, [], ◌∷◌, All, All-map, none, some, lookup, lookup-store, text_eq_refl, arith, length, ◌==◌,
}
use cockroachdbxaws.Journal.Bytes.{uvarint, uvarint_bytes}
use cockroachdbxaws.Journal.Results.{ok, >>=-ok, ok-injective, some-injective}
use cockroachdbxaws.Journal.Times.{Time, valid_journal_time}
use cockroachdbxaws.Journal.Identifiers.{valid_record_id}
use cockroachdbxaws.Journal.Codec.{
  StoredRecord, decode_stored, encode_stored, valid_stored, valid_state, state_claimed,
  state_committed,
}
use cockroachdbxaws.Journal.Codec.RoundTrip.{Storable, decode_stored-encode_stored}
use cockroachdbxaws.Journal.Codec.Validity.{decode_stored-Storable}
use cockroachdbxaws.Journal.Keys.{
  key, append_component, append_components, append_ordered_time, record_key, claim_key,
  committed_key, key_usage, key_priority,
}
use cockroachdbxaws.Journal.State.{Found-cases, found, World, Surroundings, Journal, load_record}
use cockroachdbxaws.Journal.Mutation.{
  Mutation, new_mutation, set, del, mutation_get, commit_mutation,
}
use cockroachdbxaws.Journal.Mutation.Overlay.{
  Distinct, StoreLaws, store-Distinct, lookup-store_other, text_eq_comm, commit_mutation-reads,
  mutation_get_lem,
}
use cockroachdbxaws.Journal.Claims.{CommitClaim, holds}
use cockroachdbxaws.Journal.Commits.{committed, mark_committed_batch}
use cockroachdbxaws.Journal.Commits.Fencing.{Accepted, Chain, mark_committed_batch-Chain}

id-length : (a : Text) → valid_record_id a ≡ true → length a ≡ 64
unfolding valid_record_id
id-length a h = ground arith

record_key-distinct :
    (a b : Text)
    → valid_record_id a ≡ true
    → valid_record_id b ≡ true
    → text_eq (record_key a) (record_key b) ≡ text_eq a b
unfolding record_key key append_components append_component uvarint uvarint_bytes text_eq
record_key-distinct a b h k = rw (id-length a h, id-length b k) refl

unseen :
    (a b : Text) (seen : List Text)
    → any (text_eq a) seen ≡ false
    → any (text_eq b) seen ≡ true
    → text_eq a b ≡ false
unseen a b seen h i = elim (Bool-cases (text_eq a b)) [
  | inr other ↦ other
  | inl same ↦
      let clash : any (text_eq b) seen ≡ false = rw (text_eq→eq a b same) at h in
      absurd (ground (arith, clash))
]

-- A record's key is none of the other keys that a commit changes.
claim_key-record_key : (t : Time) (a b : Text) → text_eq (claim_key t a) (record_key b) ≡ false
unfolding claim_key record_key key append_components append_component append_ordered_time text_eq
claim_key-record_key t a b = refl

committed_key-record_key :
    (t : Time) (a b : Text) → text_eq (committed_key t a) (record_key b) ≡ false
unfolding committed_key record_key key append_components append_component append_ordered_time
    text_eq
committed_key-record_key t a b = refl

counters-record_key :
    (b : Text)
    → (text_eq key_usage (record_key b) ≡ false) × (text_eq key_priority (record_key b) ≡ false)
unfolding key_usage key_priority record_key key append_components append_component text_eq
counters-record_key b = (refl, refl)

module _ {S : Type 0} (w : World S) where
  -- The changes of one accepted claim leave the other records alone.
  Accepted-keeps :
      (db : S) (now : Time) (c : CommitClaim) (m next : Mutation) (id : Text)
      → Accepted w db now c m next
      → valid_record_id c.record_id ≡ true
      → valid_record_id id ≡ true
      → text_eq c.record_id id ≡ false
      → lookup (record_key id) next.ops ≡ lookup (record_key id) m.ops
  unfolding set del
  Accepted-keeps db now c m next id a v i other = elim a.stands [
    | inl (done, token, same) ↦ rw same refl
    | inr (held, holding, changed) ↦ rw changed (
        lookup-store_other (record_key id) (committed_key now c.record_id) (some []) _
          (committed_key-record_key now c.record_id id)
        ∙ lookup-store_other (record_key id) (record_key c.record_id) _ _
            (record_key-distinct c.record_id id v i ∙ other)
        ∙ lookup-store_other (record_key id) (claim_key a.stored.claim_expiry c.record_id) none
            m.ops (claim_key-record_key a.stored.claim_expiry c.record_id id))
  ]

  Accepted-Distinct :
      (db : S) (now : Time) (c : CommitClaim) (m next : Mutation)
      → Accepted w db now c m next
      → Distinct m.ops
      → Distinct next.ops
  unfolding set del
  Accepted-Distinct db now c m next a d = elim a.stands [
    | inl (done, token, same) ↦ rw same d
    | inr (held, holding, changed) ↦ rw changed (
        store-Distinct (committed_key now c.record_id) (some []) _ (
          store-Distinct (record_key c.record_id) _ _
            (store-Distinct (claim_key a.stored.claim_expiry c.record_id) none m.ops d)))
  ]

  Chain-Distinct :
      (db : S) (now : Time) (seen : List Text) (cs : List CommitClaim) (m last : Mutation)
      → Chain w db now seen cs m last
      → Distinct m.ops
      → Distinct last.ops
  Chain-Distinct db now seen [] m last h d = rw h d
  Chain-Distinct db now seen (c ∷ cs) m last (id, token, own, (next, a, rest)) d =
      Chain-Distinct db now (c.record_id ∷ seen) cs next last rest
        (Accepted-Distinct db now c m next a d)

  -- The records of claims seen before are left alone by the rest.
  Chain-keeps :
      (db : S) (now : Time) (seen : List Text) (cs : List CommitClaim) (m last : Mutation)
      (id : Text)
      → Chain w db now seen cs m last
      → valid_record_id id ≡ true
      → any (text_eq id) seen ≡ true
      → lookup (record_key id) last.ops ≡ lookup (record_key id) m.ops
  Chain-keeps db now seen [] m last id h v i = rw h refl
  Chain-keeps db now seen (c ∷ cs) m last id (cv, token, own, (next, a, rest)) v i =
      Chain-keeps db now (c.record_id ∷ seen) cs next last id rest v (ground arith)
      ∙ Accepted-keeps db now c m next id a cv v (unseen c.record_id id seen own i)

  -- No change is made to the record of a claim that is still to come.
  abbrev Fresh : List Text → Mutation → Type 0
  Fresh seen m =
      (id : Text)
      → valid_record_id id ≡ true
      → any (text_eq id) seen ≡ false
      → lookup (record_key id) m.ops ≡ none

  Fresh-next :
      (db : S) (now : Time) (seen : List Text) (c : CommitClaim) (m next : Mutation)
      → Accepted w db now c m next
      → valid_record_id c.record_id ≡ true
      → Fresh seen m
      → Fresh (c.record_id ∷ seen) next
  Fresh-next db now seen c m next a cv f id v h =
      let other : text_eq id c.record_id ≡ false = ground arith in
      let rest : any (text_eq id) seen ≡ false = ground arith in
      Accepted-keeps db now c m next id a cv v (text_eq_comm c.record_id id ∙ other) ∙ f id v rest

  -- The changes, over the store, hold the record of the claim as committed under its token.
  pub record Sealed (db : S) (m : Mutation) (c : CommitClaim) : Type 0 where
    pub value : Text
    pub shown : mutation_get w db m (record_key c.record_id) ≡ found value
    pub record' : StoredRecord
    pub decoded : decode_stored w.sha256 value ≡ ok record'
    pub is_committed : (record'.state == state_committed) ≡ true
    pub token : text_eq record'.claim_token c.token ≡ true

  -- A record that loads has a value in the store that decodes to it.
  load_record-value :
      (db : S) (id : Text) (r : StoredRecord)
      → load_record w db id ≡ ok (some r)
      → (value : Text) × (w.get db (record_key id) ≡ found value)
        × (decode_stored w.sha256 value ≡ ok r)
  unfolding load_record
  load_record-value db id r h = elim (Found-cases (w.get db (record_key id))) [
    | inl f ↦ let h1 = rw (f, load_record) at h in absurd (ground arith)
    | inr (inl n) ↦ let h1 = rw (n, load_record) at h in absurd (ground arith)
    | inr (inr (value, s)) ↦
        let h1 = rw (s, load_record) at h in
        let (q, d, h2) = >>=-ok (decode_stored w.sha256 value) _ h1 in
        (
          value,
          s,
          subst (λ (t : StoredRecord). decode_stored w.sha256 value ≡ ok t)
              (some-injective (ok-injective h2)) d,
        )
  ]

  committed-valid :
      (now : Time) (r : StoredRecord)
      → valid_stored r ≡ true
      → (r.state == state_claimed) ≡ true
      → valid_journal_time now ≡ true
      → valid_stored (committed w now r) ≡ true
  unfolding valid_stored valid_state
  committed-valid now r h k v = ground arith

  committed-Storable :
      (now : Time) (r : StoredRecord) (c : CommitClaim)
      → Storable r
      → holds w r c now ≡ true
      → valid_journal_time now ≡ true
      → Storable (committed w now r)
  committed-Storable now r c s h v = record {
    valid = committed-valid now r s.valid (ground arith) v;
    expiry = inl refl;
    committed = inr v;
    received_valid = s.received_valid;
    attempt_size = s.attempt_size;
    digest_size = s.digest_size;
    owner_size = omega arith;
    token_size = s.token_size;
    envelope_size = s.envelope_size;
  }

  -- The store holds the record of the claim as committed under the claim's token.
  pub record Durable (db : S) (c : CommitClaim) : Type 0 where
    pub stored : StoredRecord
    pub loaded : load_record w db c.record_id ≡ ok (some stored)
    pub is_committed : (stored.state == state_committed) ≡ true
    pub token : text_eq stored.claim_token c.token ≡ true

  module _ (laws : StoreLaws w) (digest : (t : Text) → length (w.sha256 t) ≡ 32) where
    Accepted-Sealed :
        (db : S) (now : Time) (c : CommitClaim) (m next : Mutation)
        → Accepted w db now c m next
        → lookup (record_key c.record_id) m.ops ≡ none
        → valid_journal_time now ≡ true
        → Sealed db next c
    unfolding set del
    Accepted-Sealed db now c m next a fresh v =
        let (value, there, decodes) = load_record-value db c.record_id a.stored a.loaded in
        let sizes = laws.values db (record_key c.record_id) value there in
        elim a.stands [
          | inl (done, token, same) ↦ record {
            value = value;
            shown =
                rw same (mutation_get_lem w laws db m (record_key c.record_id) ∙ rw fresh there);
            record' = a.stored;
            decoded = decodes;
            is_committed = done;
            token = token;
          }
          | inr (held, holding, changed) ↦
              let storable =
                decode_stored-Storable w.sha256 value a.stored sizes.0 sizes.1 decodes in
              let key = record_key c.record_id in
              let last = committed w now a.stored in
              let entry : lookup key next.ops ≡ some (some (encode_stored w.sha256 last)) =
                rw changed (
                  lookup-store_other key (committed_key now c.record_id) (some []) _
                    (committed_key-record_key now c.record_id c.record_id)
                  ∙ lookup-store key (some (encode_stored w.sha256 last)) _ (text_eq_refl key)) in
              record {
                value = encode_stored w.sha256 last;
                shown = mutation_get_lem w laws db next key ∙ rw entry refl;
                record' = last;
                decoded =
                    decode_stored-encode_stored w.sha256 digest last
                      (committed-Storable now a.stored c storable holding v);
                is_committed = refl;
                token = ground arith;
              }
        ]

    Chain-Sealed :
        (db : S) (now : Time) (seen : List Text) (cs : List CommitClaim) (m last : Mutation)
        → Chain w db now seen cs m last
        → Fresh seen m
        → valid_journal_time now ≡ true
        → All (Sealed db last) cs
    Chain-Sealed db now seen [] m last h f v = tt
    Chain-Sealed db now seen (c ∷ cs) m last (id, token, own, (next, a, rest)) f v =
        let one = Accepted-Sealed db now c m next a (f c.record_id id own) v in
        let key = record_key c.record_id in
        let kept =
          Chain-keeps db now (c.record_id ∷ seen) cs next last c.record_id rest id
            (ground (arith, text_eq_refl c.record_id)) in
        (
          record {
            value = one.value;
            shown =
                mutation_get_lem w laws db last key
                ∙ rw kept (sym (mutation_get_lem w laws db next key) ∙ one.shown);
            record' = one.record';
            decoded = one.decoded;
            is_committed = one.is_committed;
            token = one.token;
          },
          Chain-Sealed db now (c.record_id ∷ seen) cs next last rest
              (Fresh-next db now seen c m next a id f) v,
        )

    load_record-found :
        (db : S) (id value : Text) (r : StoredRecord)
        → w.get db (record_key id) ≡ found value
        → decode_stored w.sha256 value ≡ ok r
        → load_record w db id ≡ ok (some r)
    unfolding load_record
    load_record-found db id value r s d = rw (s, load_record) (rw d refl)

    Sealed-Durable :
        (u : Surroundings) (j : Journal S) (m : Mutation) (c : CommitClaim)
        → Distinct m.ops
        → (commit_mutation w u j m false).0 ≡ ok tt
        → Sealed j.db m c
        → Durable (commit_mutation w u j m false).1.db c
    Sealed-Durable u j m c d done s =
        let key = record_key c.record_id in
        let counters = counters-record_key c.record_id in
        let reads = commit_mutation-reads w laws u j m false key d counters.0 counters.1 done in
        record {
          stored = s.record';
          loaded = load_record-found _ c.record_id s.value s.record' (reads ∙ s.shown) s.decoded;
          is_committed = s.is_committed;
          token = s.token;
        }

    new_mutation-Fresh : Fresh [] new_mutation
    unfolding lookup
    new_mutation-Fresh id v h = refl

    -- If `MarkCommittedBatch` succeeds, the store then holds the record of each claim as committed under
    -- the claim's token. The store reads the last write to a key and holds bytes, and the digest has 32
    -- of them.
    pub mark_committed_batch-Durable :
        (u : Surroundings) (j : Journal S) (claims : List CommitClaim)
        → (mark_committed_batch w u j claims).0 ≡ ok tt
        → All (Durable (mark_committed_batch w u j claims).1.db) claims
    mark_committed_batch-Durable u j claims h =
        let (last, valid, chain, done, next) = mark_committed_batch-Chain w u j claims h in
        let distinct = Chain-Distinct j.db (u.now 0) [] claims new_mutation last chain tt in
        rw next (
          All-map (λ c s. Sealed-Durable u j last c distinct done s) claims
            (Chain-Sealed j.db (u.now 0) [] claims new_mutation last chain new_mutation-Fresh
              valid))
