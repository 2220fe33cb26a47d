-- ===== src/Journal/Retention.antt =====
-- journal/journal.go: `Compact`, which drops committed records after the safety delay, and the
-- observations `Capacity` and `Stats`.
use cockroachdbxaws.Base.{
  ℕ, zero, suc, ◌+◌, Bool, true, false, not, ◌||◌, List, none, some, ℤ, below_one, above, length,
  if◌then◌else◌, ltb, leb, ◌==◌,
}
use cockroachdbxaws.Journal.Results.{
  Result, ok, err, invalid_input, corrupted, ◌>>=◌, ◌>>◌, refuse, present, relabel,
}
use cockroachdbxaws.Journal.Times.{Time, before, equal, valid_journal_time, safe_add}
use cockroachdbxaws.Journal.Codec.{decode_stored, state_pending, state_claimed, state_committed}
use cockroachdbxaws.Journal.Keys.{
  record_key, parse_timed_key, prefix, ns_record, ns_committed, ns_quarantine,
}
use cockroachdbxaws.Journal.State.{
  Scan, ended, broken, entry, World, Surroundings, Journal, after_error, usable,
  validate_transition_reserve,
}
use cockroachdbxaws.Journal.Mutation.{Mutation, new_mutation, del, sub_priority}
use cockroachdbxaws.Journal.References.{remove_batch_refs}
use cockroachdbxaws.Journal.Claims.{max_transition_records, indexed, commit_with, to_nat}

pub record Capacity : Type 0 where
  pub used : ℕ
  pub total : ℕ
  pub can_persist : Bool

pub record Stats : Type 0 where
  pub accounted_bytes : ℕ
  pub by_priority : List ℕ
  pub pending : ℕ
  pub claimed : ℕ
  pub committed : ℕ
  pub quarantined : ℕ

module _ {S : Type 0} (w : World S) where
  -- The loop of `Compact`, over the committed records in the order of their commits.
  unfoldable pub compact_loop : S → Time → ℕ → Scan → Mutation → Result (ℕ × Mutation)
  compact_loop db now limit ended m = ok (0, m)
  compact_loop db now limit broken m = err corrupted
  compact_loop db now zero (entry key value rest) m = ok (0, m)
  compact_loop db now (suc limit) (entry key value rest) m = do
    refuse (not (length value == 0)) corrupted
    (at, id) ← present (parse_timed_key key ns_committed) corrupted
    deadline ← present (safe_add at w.cfg.safety_delay) corrupted
    elim (before deadline now) [
      | false ↦ ok (0, m)
      | true ↦ do
        stored ← indexed w db id state_committed
        refuse (not (equal stored.committed_at at)) corrupted
        relabel corrupted (validate_transition_reserve w db id false)
        next ← relabel corrupted (
            remove_batch_refs w db id
              (sub_priority stored.priority (del (record_key id) (del key m))))
        (removed, last) ← compact_loop db now limit rest next
        ok (suc removed, last)
    ]

  unfoldable pub compact_plan : Surroundings → Journal S → ℤ → Result (ℕ × Mutation)
  compact_plan u j limit = do
    usable w j
    refuse (below_one limit || above limit max_transition_records) invalid_input
    scan ←
        present (w.new_iter j.db (prefix ns_committed) (some (prefix (suc ns_committed)))) corrupted
    refuse (not (valid_journal_time (u.now 0))) corrupted
    compact_loop j.db (u.now 0) (to_nat w limit) scan new_mutation

  unfoldable pub compact : Surroundings → Journal S → ℤ → Result ℕ × Journal S
  compact u j limit = commit_with w u j (compact_plan u j limit)

  -- `Capacity`; a check of the manifest that fails marks the journal.
  abbrev pub observed : Journal S → Bool → Capacity
  observed j can = record { used = j.usage; total = w.cfg.max_bytes; can_persist = can }

  unfoldable pub capacity_of : Surroundings → Journal S → Capacity × Journal S
  capacity_of u j = elim (usable w j) [
    | err e ↦ (observed j false, after_error e j)
    | ok _ ↦ if leb w.cfg.max_bytes j.usage then (observed j false, j) else elim u.free_space [
      | none ↦ (observed j false, j)
      | some free ↦ (observed j (not (ltb free w.cfg.min_free_bytes)), j)
    ]
  ]

  -- The `switch` on the state of one record.
  unfoldable pub count_state : ℕ → Stats → Result Stats
  count_state state stats =
      if state == state_pending
      then ok (record stats { pending = stats.pending + 1 })
      else if state == state_claimed
      then ok (record stats { claimed = stats.claimed + 1 })
      else if state == state_committed
      then ok (record stats { committed = stats.committed + 1 })
      else err corrupted

  -- The loop of `Stats` over the records.
  unfoldable pub stats_loop : Scan → Stats → Result Stats
  stats_loop ended stats = ok stats
  stats_loop broken stats = err corrupted
  stats_loop (entry key value rest) stats = do
    stored ← relabel corrupted (decode_stored w.sha256 value)
    counted ← count_state stored.state stats
    stats_loop rest counted

  -- The loop of `countNamespace`.
  unfoldable pub count_entries : Scan → Result ℕ
  count_entries ended = ok 0
  count_entries broken = err corrupted
  count_entries (entry key value rest) = do n ← count_entries rest; ok (suc n)

  unfoldable pub count_namespace : S → ℕ → Result ℕ
  count_namespace db ns = do
    scan ← present (w.new_iter db (prefix ns) (some (prefix (suc ns)))) corrupted
    count_entries scan

  abbrev pub no_stats : Journal S → Stats
  no_stats j = record {
    accounted_bytes = j.usage;
    by_priority = j.priorities;
    pending = 0;
    claimed = 0;
    committed = 0;
    quarantined = 0;
  }

  unfoldable pub stats_plan : Journal S → Result Stats
  stats_plan j = do
    usable w j
    scan ← present (w.new_iter j.db (prefix ns_record) (some (prefix (suc ns_record)))) corrupted
    stats ← stats_loop scan (no_stats j)
    q ← count_namespace j.db ns_quarantine
    ok (record stats { quarantined = q })

  unfoldable pub stats_of : Journal S → Result Stats × Journal S
  stats_of j = elim (stats_plan j) [ err e ↦ (err e, after_error e j) | ok stats ↦ (ok stats, j) ]
