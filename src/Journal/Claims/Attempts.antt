-- ===== src/Journal/Claims/Attempts.antt =====
-- journal/journal.go, `Claim`: the claims that it returns.
use cockroachdbxaws.Base.{
  ℕ, zero, suc, ◌+◌, ◌-◌, ◌≤◌, ◌≡◌, ◌⊎◌, refl, inl, inr, sym, ap, subst, Text, true, false, not,
  ◌||◌, List, [], All, some, ℤ, length, Bool-cases, arith, ltb, ◌==◌, if◌then◌else◌,
}
use cockroachdbxaws.Journal.Results.{
  Result, ok, err, corrupted, refuse, present, relabel, Result-cases, >>=-ok, refuse-ok, present-ok,
  relabel-ok, ok-injective, not-false,
}
use cockroachdbxaws.Journal.Times.{Time, equal, safe_add}
use cockroachdbxaws.Journal.Identifiers.{claim_token}
use cockroachdbxaws.Journal.Codec.{StoredRecord, state_pending}
use cockroachdbxaws.Journal.Keys.{parse_pending_key, prefix, ns_pending}
use cockroachdbxaws.Journal.State.{
  Scan, ended, broken, entry, World, Surroundings, Journal, load_record,
  validate_transition_reserve,
}
use cockroachdbxaws.Journal.Mutation.{Mutation, new_mutation, commit_mutation}
use cockroachdbxaws.Journal.Claims.{
  ClaimedRecord, claim_loop, claim_pending, claim_expired, claim_of, claim_record, commit_with,
  claim, indexed, max_uint32, to_nat, max_transition_records,
}

at_most_both : {a b c : ℕ} → a ≤ b → b ≤ c → a ≤ c
at_most_both h k = omega arith

module _ {S : Type 0} (w : World S) where
  -- A claim that was returned, and the pending record that it was made from.
  pub record Claimed (db : S) (owner : Text) (expiry : Time) (c : ClaimedRecord) : Type 0 where
    pub id : Text
    pub stored : StoredRecord
    pub loaded : load_record w db id ≡ ok (some stored)
    pub was_pending : (stored.state == state_pending) ≡ true
    pub attempt : c.attempt ≡ stored.attempt + 1
    pub attempt_word : (stored.attempt == max_uint32) ≡ false
    pub priority : c.priority ≡ stored.priority
    pub owned : c.owner ≡ owner
    pub expires : c.expires_at ≡ expiry
    pub token : c.token ≡ claim_token w.sha256 w.cfg.owner owner id c.attempt expiry

  indexed-loaded :
      (db : S) (id : Text) (state : ℕ) (r : StoredRecord)
      → indexed w db id state ≡ ok r
      → (load_record w db id ≡ ok (some r)) × ((r.state == state) ≡ true)
  indexed-loaded db id state r h =
      let (found, l, h1) = >>=-ok (relabel corrupted (load_record w db id)) _ h in
      let (stored, p, h2) = >>=-ok (present found corrupted) _ h1 in
      let (t, k, h3) = >>=-ok (refuse (not (stored.state == state)) corrupted) _ h2 in
      let loaded : load_record w db id ≡ ok (some stored) =
        rw (present-ok found corrupted p) at (relabel-ok corrupted _ l) in
      subst
        (λ (q : StoredRecord). (load_record w db id ≡ ok (some q)) × ((q.state == state) ≡ true))
        (ok-injective h3) (loaded, not-false (refuse-ok _ corrupted k))

  none-Claimed :
      (db : S) (owner : Text) (expiry : Time) (limit : ℕ) (m : Mutation)
      (r : List ClaimedRecord × Mutation)
      → Path (Result (List ClaimedRecord × Mutation)) (ok ([], m)) (ok r)
      → All (Claimed db owner expiry) r.0 × (length r.0 ≤ limit)
  none-Claimed db owner expiry limit m r h =
      subst
        (λ (q : List ClaimedRecord × Mutation).
          All (Claimed db owner expiry) q.0 × (length q.0 ≤ limit))
        (ok-injective h) (tt, omega arith)

  claim_loop-Claimed :
      (db : S) (owner : Text) (expiry : Time) (limit : ℕ) (scan : Scan) (m : Mutation)
      (r : List ClaimedRecord × Mutation)
      → claim_loop w db owner expiry limit scan m ≡ ok r
      → All (Claimed db owner expiry) r.0 × (length r.0 ≤ limit)
  unfolding claim_loop
  claim_loop-Claimed db owner expiry limit ended m r h = none-Claimed db owner expiry limit m r h
  claim_loop-Claimed db owner expiry limit broken m r h = cc
  claim_loop-Claimed db owner expiry zero (entry key value rest) m r h =
      none-Claimed db owner expiry zero m r h
  claim_loop-Claimed db owner expiry (suc limit) (entry key value rest) m r h =
      let (t0, k0, h0) = >>=-ok (refuse (not (length value == 0)) corrupted) _ h in
      let (parts, k1, h1) = >>=-ok (present (parse_pending_key key) corrupted) _ h0 in
      let (stored, k2, h2) = >>=-ok (indexed w db parts.2 state_pending) _ h1 in
      let (t3, k3, h3) =
        >>=-ok
          (refuse (not (stored.priority == parts.0) || not (equal stored.received parts.1))
            corrupted)
          _ h2 in
      let (t4, k4, h4) = >>=-ok (refuse (stored.attempt == max_uint32) corrupted) _ h3 in
      let (t5, k5, h5) =
        >>=-ok (relabel corrupted (validate_transition_reserve w db parts.2 true)) _ h4 in
      let claimed = claim_of w owner parts.2 expiry stored in
      let (record', k6, h6) =
        >>=-ok
          (present (w.decode_durable claimed.envelope w.cfg.tenant_id w.cfg.classification)
            corrupted)
          _ h5 in
      let (later, k7, h7) =
        >>=-ok (claim_loop w db owner expiry limit rest (claim_record w key parts.2 claimed m)) _
          h6 in
      let ih = claim_loop-Claimed db owner expiry limit rest _ later k7 in
      let found = indexed-loaded db parts.2 state_pending stored k2 in
      subst
        (λ (q : List ClaimedRecord × Mutation).
          All (Claimed db owner expiry) q.0 × (length q.0 ≤ suc limit))
        (ok-injective h7)
        (
          (
            record {
              id = parts.2;
              stored = stored;
              loaded = found.0;
              was_pending = found.1;
              attempt = refl;
              attempt_word = refuse-ok _ corrupted k4;
              priority = refl;
              owned = refl;
              expires = refl;
              token = refl;
            },
            ih.0,
          ),
          omega (arith, ih.1),
        )

  claim_pending-Claimed :
      (u : Surroundings) (db : S) (limit expired : ℕ) (owner : Text)
      (r : List ClaimedRecord × Mutation)
      → claim_pending w u db limit expired owner ≡ ok r
      → (expiry : Time) × (safe_add (u.now 1) w.cfg.claim_ttl ≡ some expiry)
        × All (Claimed db owner expiry) r.0
        × (length r.0 ≤ limit)
  unfolding claim_pending
  claim_pending-Claimed u db limit expired owner r h =
      let budget = max_transition_records - expired in
      let (scan, k0, h0) =
        >>=-ok
          (present (w.new_iter db (prefix ns_pending) (some (prefix (suc ns_pending)))) corrupted) _
          h in
      let (expiry, k1, h1) = >>=-ok (present (safe_add (u.now 1) w.cfg.claim_ttl) corrupted) _ h0 in
      let bound = if ltb budget limit then budget else limit in
      let claims = claim_loop-Claimed db owner expiry bound scan new_mutation r h1 in
      let fewer : bound ≤ limit = ground arith in
      (expiry, present-ok _ corrupted k1, claims.0, at_most_both claims.1 fewer)

  commit_with-ok :
      {A : Type 0} (u : Surroundings) (j : Journal S) (r : Result (A × Mutation)) (a : A)
      → (commit_with w u j r).0 ≡ ok a
      → (m : Mutation) × (r ≡ ok (a, m))
  unfolding commit_with
  commit_with-ok u j (err e) a h = cc
  commit_with-ok {A = A} u j (ok (b, m)) a h =
      let (t, k, h1) = >>=-ok (commit_mutation w u j m false).0 _ h in
      (m, ap {A = A} {B = Result (A × Mutation)} (λ x. ok (x, m)) (ok-injective h1))

  -- What `Claim` returns. Each claim was made from a pending record of the store after the lapsed claims
  -- were returned; it counts one attempt more, which a 32-bit word holds, belongs to the caller, expires
  -- one TTL after the clock's second answer, and carries the token of all that. There are no more claims
  -- than asked for.
  pub claim-Claimed :
      (u : Surroundings) (j : Journal S) (limit : ℤ) (owner : Text) (claims : List ClaimedRecord)
      → (claim w u j limit owner).0 ≡ ok claims
      → (claims ≡ [])
        ⊎ ((expiry : Time) × (safe_add (u.now 1) w.cfg.claim_ttl ≡ some expiry)
            × All
                (Claimed (commit_with w u j (claim_expired w u j limit owner)).1.db owner expiry)
                claims
            × (length claims ≤ to_nat w limit))
  unfolding claim
  claim-Claimed u j limit owner claims h =
      let first = commit_with w u j (claim_expired w u j limit owner) in
      elim (Result-cases first.0) [
        | inl (e, f) ↦ let h1 = rw (f, claim) at h in absurd (ground arith)
        | inr (count, f) ↦
            let h1 = rw (f, claim) at h in
            elim (Bool-cases (max_transition_records - count == 0)) [
              | inl full ↦ let h2 = rw full at h1 in inl (sym (ok-injective h2))
              | inr more ↦
                  let h2 = rw more at h1 in
                  let (m, planned) =
                    commit_with-ok u first.1
                      (claim_pending w u first.1.db (to_nat w limit) count owner) claims h2 in
                  inr (
                    claim_pending-Claimed u first.1.db (to_nat w limit) count owner (claims, m)
                      planned)
            ]
      ]
