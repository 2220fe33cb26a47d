-- ===== src/Lib.antt =====
-- Verification library of the incident investigation platform: the static log analysis service
-- (services/static-log-analysis), which turns log records into incidents and asks an agent to
-- investigate them. Paths are from the repository's root.
--
-- The parts and how they interact. A batch of records is bounded and normalized, each record is
-- classified and admitted or shed (internal/admission), an admitted record is journalled and then
-- folded into the episodes of its incident family (internal/incident), a family whose finalized
-- episode meets the threshold requests one investigation, and the request leaves the service as an
-- outbox row that a publisher (internal/outbox) delivers to a queue (internal/queue) at least once.
-- The CloudWatch reader (internal/cloudwatch) is one of the sources of records. The agent
-- (agent_space) proposes fixes, which a sandbox verifies and an engineer is shown in order.
--
-- Which file models which part; a path without a root is below services/static-log-analysis/internal:
--   Model              model/model.go: the enumerations of a record that the classifier reads
--   Admission.Classifier  admission/classifier.go: Compile, Classify and their helpers
--   Admission.Capacity    admission/capacity.go: Decide, mayShed, nearCapacity, With
--   Admission.Limits      admission/limits.go: normalized, nodeBudget.add, LimitNormalized,
--                         validateRecordMapping
--   Queue              queue/queue.go: Message, Validate, SQSAttributes, SQSSize; ids/ids.go: Validate
--   Outbox.Transport   outbox/transport.go: reasons, failures and classify
--   Outbox.Backoff     outbox/publisher.go: Backoff
--   Outbox.Publisher   outbox/publisher.go: PublishCycle, deliver, deadLetter, retry, releaseNow
--   Incident.Logs, Window, Generation, Family, Episodes, Evidence   incident/incident.go: the state of
--                      an episode and of a family, window counts, the fold of records into episodes,
--                      adopted identities, and the attachment of evidence
--   Incident.Search    Go's sort.Search, which every window count and every insertion uses
--   Incident.Engine    incident/incident.go: the engine's state; Transitions: insert, extend, rebuild;
--                      Observe: Observe; Advance: Advance, compact, prune, compactSeen
--   Cloudwatch         cloudwatch/backoff.go: Window, Delay, Attempts, Validate
--   Journal            internal/journal. Bytes, Codec, Codec.Values, Codec.Batches, Codec.Quarantines: the
--                      durable forms of codec.go; Keys: keys.go; Times, Identifiers: the checks of
--                      journal.go; Results: the errors of types.go; State: the journal, the store under
--                      it and single-key checks; Mutation: commitMutation and its parts; References:
--                      batchRefs, removeBatchRefs, validateHistoricalIdentity, validateStoredBatch;
--                      Manifest: openManifest, Close and RecoverRetained; Append: AppendBatch; Claims:
--                      expireClaims, Claim, AdoptClaims, RenewClaims; Commits: MarkCommittedBatch,
--                      MarkCommitted, Quarantine; Retention: Compact, Capacity, Stats
--   Remediation        agent_space/remediation/candidate.go: Verification, Usable, Rank; Decision:
--                      agent_space/remediation/decision.go: NewDecision
--   Base               lists, byte strings, UTF-8, maps with string keys, and Boolean tests
--   Tests              the theorems at concrete inputs
-- The modules below a component's hold its proofs and are named for what they prove.
--
-- How the code corresponds. A Go function is a function of the same name in snake case, a method takes
-- its receiver's state and returns the new one, and a pointer into a slice is an index. A string is
-- the list of its bytes, compared byte by byte. A map with string keys is an association list, or a
-- list of records with distinct identifiers; where Go ranges over a map, the list's order is one of
-- the orders that Go may take. An instant is its number of nanoseconds after the earliest instant of
-- a Go time.Time, so the zero time is a large numeral and subtracting any duration of the code from it
-- is exact. Machine integers have their wrap-around written out where it can happen: the capacity
-- threshold is computed on 64 bits, and both retry schedules double on 64 bits. Errors are what
-- errors.Is and errors.As answer of them. The engine's mutex makes each of its operations one step.
-- The engine's pointer to the current episode is the last episode, the only value that the code ever
-- assigns to it.
-- In the journal an instant is its number of nanoseconds after the Unix epoch with whether it is in UTC,
-- since the code checks both, and a durable word is read and written byte by byte. An operation there is
-- what it decides from the store, which may be an error, and then one commit. `return j.corrupt()` is the
-- error corrupted, which marks the journal, and `return ErrCorruption` is the error corruption, which
-- does not; an operation's mark is made where it returns the error. A byte is a number below 256, and a
-- 64-bit word wraps around where a shift or a conversion can.
--
-- Loops are structural recursion. The binary search has as fuel the length of the interval, which is
-- enough because each round shortens the interval.
--
-- Parameters. The outbox's clock, identifier source, store, transport and cancellation are one
-- environment that answers by the number of calls made so far, so that any behaviour of them is some
-- environment. The decoding of an assignment, the UUID library, the random sources, and the digest that
-- names a record's incident family are arguments of what uses them. The journal's store (pebble), its
-- hash, the protobuf form of a record with its semantic digest, the validators of a record, the clock and
-- the free space are one record of functions; the theorems about what the store holds afterwards assume
-- that it reads the last write to a key and holds bytes, and that the hash has 32 of them.
--
-- Not modelled: SQL and the database, protobuf and JSON decoding, regular expressions, HTTP, logging
-- and metrics; the journal's scan of the whole store when it opens; the pipeline, redaction,
-- normalization, enrichment, the CloudWatch poll cycle, and the engine's decision for storage with the
-- snapshots that only read its state; and the rest of the agent with its patches, verdicts and worker.
pub mod Base
pub mod Model
pub mod Admission
pub mod Queue
pub mod Outbox
pub mod Incident
pub mod Cloudwatch
pub mod Journal
pub mod Remediation
mod Tests
