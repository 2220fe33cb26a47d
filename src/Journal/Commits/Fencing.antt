-- ===== src/Journal/Commits/Fencing.antt =====
-- journal/journal.go, `MarkCommittedBatch`: which claims it accepts.
use cockroachdbxaws.Base.{
  ◌≡◌, ◌⊎◌, refl, inl, inr, sym, Text, text_eq, true, false, not, any, All-map, List, [], ◌∷◌, All,
  some, Bool-cases, arith, length, ltb, ◌||◌, ◌==◌,
}
use cockroachdbxaws.Journal.Results.{
  ok, refuse, present, relabel, Result-cases, ok-injective, >>=-ok, refuse-ok, relabel-ok,
  present-ok, not-false, corrupted, invalid_input, stale_claim,
}
use cockroachdbxaws.Journal.Times.{Time, before, valid_journal_time, safe_add}
use cockroachdbxaws.Journal.Identifiers.{valid_record_id, valid_claim_token}
use cockroachdbxaws.Journal.Codec.{StoredRecord, state_claimed, state_committed}
use cockroachdbxaws.Journal.Keys.{claim_key, committed_key}
use cockroachdbxaws.Journal.State.{World, Surroundings, Journal, load_record, usable}
use cockroachdbxaws.Journal.Mutation.{Mutation, new_mutation, commit_mutation}
use cockroachdbxaws.Journal.Claims.{
  CommitClaim, commit_with, check_claim, check_indexes, holds, max_transition_records,
}
use cockroachdbxaws.Journal.Commits.{
  commit_one, commit_loop, commit_plan, commit_record, mark_committed_batch,
}

module _ {S : Type 0} (w : World S) where
  -- How an accepted claim stands in the store, and what it adds to the changes.
  pub record Accepted (db : S) (now : Time) (c : CommitClaim) (m next : Mutation) : Type 0 where
    pub stored : StoredRecord
    pub loaded : load_record w db c.record_id ≡ ok (some stored)
    pub stands :
        (((stored.state == state_committed) ≡ true)
          × (text_eq stored.claim_token c.token ≡ true)
          × (next ≡ m))
        ⊎ (((stored.state == state_committed) ≡ false)
            × (holds w stored c now ≡ true)
            × (next ≡ commit_record w c.record_id now stored m))

  pub commit_one-Accepted :
      (db : S) (now : Time) (c : CommitClaim) (m next : Mutation)
      → commit_one w db now c m ≡ ok next
      → Accepted db now c m next
  unfolding commit_one
  commit_one-Accepted db now c m next h =
      let (found, l, h1) = >>=-ok (relabel corrupted (load_record w db c.record_id)) _ h in
      let (stored, p, h2) = >>=-ok (present found stale_claim) _ h1 in
      let loaded : load_record w db c.record_id ≡ ok (some stored) =
        rw (present-ok found stale_claim p) at (relabel-ok corrupted _ l) in
      elim (Bool-cases (stored.state == state_committed)) [
        | inl done ↦
            let h3 = rw done at h2 in
            let (t, i, h4) =
              >>=-ok
                (check_indexes w db (committed_key stored.committed_at c.record_id) c.record_id) _
                h3 in
            let (v, r, h5) =
              >>=-ok (refuse (not (text_eq stored.claim_token c.token)) stale_claim) _ h4 in
            record {
              stored = stored;
              loaded = loaded;
              stands = inl (done, not-false (refuse-ok _ stale_claim r), sym (ok-injective h5));
            }
        | inr held ↦
            let h3 = rw held at h2 in
            let (v, r, h4) = >>=-ok (refuse (not (holds w stored c now)) stale_claim) _ h3 in
            let (t, i, h5) =
              >>=-ok (check_indexes w db (claim_key stored.claim_expiry c.record_id) c.record_id) _
                h4 in
            record {
              stored = stored;
              loaded = loaded;
              stands = inr (held, not-false (refuse-ok _ stale_claim r), sym (ok-injective h5));
            }
      ]

  -- Every claim of the list is well formed, names a record of its own, and is accepted in turn.
  abbrev pub Chain : S → Time → List Text → List CommitClaim → Mutation → Mutation → Type 0
  Chain db now seen [] m last = last ≡ m
  Chain db now seen (c ∷ cs) m last =
      (valid_record_id c.record_id ≡ true)
      × (valid_claim_token c.token ≡ true)
      × (any (text_eq c.record_id) seen ≡ false)
      × ((next : Mutation) × Accepted db now c m next
          × Chain db now (c.record_id ∷ seen) cs next last)

  pub commit_loop-Chain :
      (db : S) (now : Time) (seen : List Text) (cs : List CommitClaim) (m last : Mutation)
      → commit_loop w db now seen cs m ≡ ok last
      → Chain db now seen cs m last
  unfolding commit_loop
  commit_loop-Chain db now seen [] m last h = sym (ok-injective h)
  commit_loop-Chain db now seen (c ∷ cs) m last h =
      let (t, k, h1) = >>=-ok (check_claim w c seen) _ h in
      let (next, o, h2) = >>=-ok (commit_one w db now c m) _ h1 in
      let checks = refuse-ok _ invalid_input k in
      let id : valid_record_id c.record_id ≡ true = ground arith in
      let token : valid_claim_token c.token ≡ true = ground arith in
      let own : any (text_eq c.record_id) seen ≡ false = ground arith in
      (
        id,
        token,
        own,
        (
          next,
          commit_one-Accepted db now c m next o,
          commit_loop-Chain db now (c.record_id ∷ seen) cs next last h2,
        ),
      )

  -- A record that the store holds as committed under the claim's token, or as claimed under it with an
  -- expiry after `now`.
  pub record Fenced (db : S) (now : Time) (c : CommitClaim) : Type 0 where
    pub stored : StoredRecord
    pub loaded : load_record w db c.record_id ≡ ok (some stored)
    pub token : text_eq stored.claim_token c.token ≡ true
    pub stands :
        ((stored.state == state_committed) ≡ true)
        ⊎ (((stored.state == state_claimed) ≡ true) × (before now stored.claim_expiry ≡ true))

  Accepted-Fenced :
      (db : S) (now : Time) (c : CommitClaim) (m next : Mutation)
      → Accepted db now c m next
      → Fenced db now c
  Accepted-Fenced db now c m next a = elim a.stands [
    | inl (done, token, same) ↦ record {
      stored = a.stored;
      loaded = a.loaded;
      token = token;
      stands = inl done;
    }
    | inr (held, holding, changed) ↦ record {
      stored = a.stored;
      loaded = a.loaded;
      token = ground arith;
      stands = inr (ground arith, ground arith);
    }
  ]

  Chain-Fenced :
      (db : S) (now : Time) (seen : List Text) (cs : List CommitClaim) (m last : Mutation)
      → Chain db now seen cs m last
      → All (λ c. Fenced db now c × (any (text_eq c.record_id) seen ≡ false)) cs
  Chain-Fenced db now seen [] m last h = tt
  Chain-Fenced db now seen (c ∷ cs) m last (id, token, own, (next, a, rest)) = (
    (Accepted-Fenced db now c m next a, own),
    All-map (λ d f. (f.0, ground (arith, f.1))) cs
        (Chain-Fenced db now (c.record_id ∷ seen) cs next last rest),
  )

  commit_plan-Chain :
      (u : Surroundings) (j : Journal S) (claims : List CommitClaim) (last : Mutation)
      → commit_plan w u j claims ≡ ok last
      → (valid_journal_time (u.now 0) ≡ true) × Chain j.db (u.now 0) [] claims new_mutation last
  unfolding commit_plan
  commit_plan-Chain u j claims last f =
      let (t1, k1, h1) = >>=-ok (usable w j) _ f in
      let (t2, k2, h2) =
        >>=-ok
          (refuse ((length claims == 0) || ltb max_transition_records (length claims))
            invalid_input)
          _ h1 in
      let (t3, k3, h3) = >>=-ok (refuse (not (valid_journal_time (u.now 0))) corrupted) _ h2 in
      let (t4, k4, h4) = >>=-ok (present (safe_add (u.now 0) w.cfg.safety_delay) corrupted) _ h3 in
      (
        not-false (refuse-ok _ corrupted k3),
        commit_loop-Chain j.db (u.now 0) [] claims new_mutation last h4,
      )

  -- A batch of claims that was committed: the claims were accepted in turn, and their changes committed.
  pub mark_committed_batch-Chain :
      (u : Surroundings) (j : Journal S) (claims : List CommitClaim) {t : Unit {0}}
      → (mark_committed_batch w u j claims).0 ≡ ok t
      → (last : Mutation) × (valid_journal_time (u.now 0) ≡ true)
        × Chain j.db (u.now 0) [] claims new_mutation last
        × ((commit_mutation w u j last false).0 ≡ ok tt)
        × ((mark_committed_batch w u j claims).1 ≡ (commit_mutation w u j last false).1)
  unfolding mark_committed_batch commit_with
  mark_committed_batch-Chain u j claims h = elim (Result-cases (commit_plan w u j claims)) [
    | inl (e, f) ↦ let h1 = rw f at h in absurd (ground arith)
    | inr (last, f) ↦
        let h1 = rw f at h in
        let (t1, k, h2) = >>=-ok (commit_mutation w u j last false).0 _ h1 in
        let (valid, chain) = commit_plan-Chain u j claims last f in
        (last, valid, chain, k, rw f refl)
  ]

  -- Claims are committed only by who holds them. If `MarkCommittedBatch` succeeds, the store held the
  -- record of each claim as committed under the claim's token, or as claimed under it and not expired.
  pub mark_committed_batch-Fenced :
      (u : Surroundings) (j : Journal S) (claims : List CommitClaim)
      → (mark_committed_batch w u j claims).0 ≡ ok tt
      → All (Fenced j.db (u.now 0)) claims
  mark_committed_batch-Fenced u j claims h =
      let (last, valid, chain, done, next) = mark_committed_batch-Chain u j claims h in
      All-map (λ c f. f.0) claims (Chain-Fenced j.db (u.now 0) [] claims new_mutation last chain)
