-- ===== src/Outbox/Publisher/Loop/Examples.antt =====
-- One publish cycle over two claims: the first message is acknowledged, the second fails at its last
-- allowed attempt.
use cockroachdbxaws.Base.{
  Text, ◌≡◌, ◌⊎◌, refl, codes, text_eq, true, false, List, [], ◌∷◌, none, some, pos, ◌==◌,
  if◌then◌else◌,
}
use cockroachdbxaws.Queue.{Message}
use cockroachdbxaws.Outbox.Transport.{timeout, err_retryable, new_failure, classify}
use cockroachdbxaws.Outbox.Publisher.{
  Scope, OutboxClaim, Config, Counts, Environment, deliver, check_boundary, attribute, settle,
  mark_published, mark_outbox_published, dead_letter,
}
use cockroachdbxaws.Outbox.Publisher.Loop.{no_counts, publish_cycle, tokens_from, run_claims}
use cockroachdbxaws.Outbox.Publisher.Loop.Accounting.{
  settled, Counted, Finished, publish_cycle-accounts,
}
use cockroachdbxaws.Outbox.Publisher.Loop.Safety.{AllPermitted, publish_cycle-AllPermitted}

abbrev europe : Scope
europe = record { region = codes "eu-west-1"; tenant_id = codes "t1" }

abbrev config : Config
config = record {
  scope = europe;
  batch = 2;
  publish_timeout = 10;
  schedule = record {
    backoff_min = 1_000_000_000;
    backoff_max = 300_000_000_000;
    jitter = λ d. pos 500_000_000;
  };
  max_attempts = 8;
  decode_assignment = λ body. none;
}

abbrev message : Message
message = record {
  message_id = codes "m1";
  deduplication_key = codes "k1";
  type' = codes "note.v1";
  body = codes "{}";
  attributes = (codes "region", codes "eu-west-1") ∷ [];
}

abbrev claim : OutboxClaim
claim = record {
  scope = europe;
  message = message;
  token = codes "a";
  owner = codes "p1";
  attempt = 8;
  expires_at = 1_000;
}

-- The first message is acknowledged, the second times out at its last attempt and is dead-lettered.
abbrev environment : Environment
environment = record {
  new_id = λ i. some (codes "a");
  claim_outbox = λ tokens now. some (claim ∷ record claim { token = codes "b" } ∷ []);
  cancelled = λ i. false;
  now = λ i. i;
  publish = λ i m. if i == 3 then none else some (new_failure err_retryable timeout);
  dead_letter = λ i m reason. none;
  mark_published = λ i c now. true;
  retry_outbox = λ i c f now next. true;
}

publish_cycle-AllPermitted_example : AllPermitted config (publish_cycle config environment).1.log
publish_cycle-AllPermitted_example = publish_cycle-AllPermitted config environment

publish_cycle-accounts_example :
    let t = (publish_cycle config environment).1 in
    Counted t
    × ((((tokens_from environment config.batch 0 ≡ none)
            ⊎ ((tokens : List Text) × (tokens_from environment config.batch 0 ≡ some tokens)
                × (environment.claim_outbox tokens (environment.now 0) ≡ none)))
          × (t.result ≡ no_counts 0)
          × (settled t.log ≡ []))
        ⊎ ((tokens : List Text) × (claims : List OutboxClaim) × (tokens_from environment
                config.batch 0
              ≡ some tokens)
            × (environment.claim_outbox tokens (environment.now 0) ≡ some claims)
            × Finished claims t))
publish_cycle-accounts_example = publish_cycle-accounts config environment

abbrev both_settled : Counts
both_settled = record { claimed = 2; published = 1; dead_lettered = 1; retried = 0; unrecorded = 0 }

dead_letters_one : (publish_cycle config environment).1.result ≡ both_settled
unfolding publish_cycle tokens_from run_claims deliver check_boundary attribute text_eq settle
    mark_published mark_outbox_published dead_letter classify new_failure
dead_letters_one = refl
