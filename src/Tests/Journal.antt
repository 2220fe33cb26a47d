-- ===== src/Tests/Journal.antt =====
-- A store for internal/journal that is a list of keys and values, and one batch of one record in it: it
-- is appended, claimed and committed.
use cockroachdbxaws.Base.{
  ℕ, zero, suc, ◌+◌, ◌%◌, ◌^◌, ◌<◌, ◌≡◌, refl, sym, ◌∙◌, ap, inl, inr, Text, text_eq, text_lt,
  text_eq→eq, codes, Bool, true, false, not, ◌&&◌, List, [], ◌∷◌, ◌++◌, All, all, Option, none,
  some, ℤ, pos, negsuc, length, lookup, store, delete, lookup-store, select, Bool-cases,
  Option-cases, if◌then◌else◌, ltb, arith, ◌==◌,
}
use cockroachdbxaws.Journal.Times.{Time}
use cockroachdbxaws.Journal.State.{
  NormalizedLog, Config, Found, failed, missing, found, Scan, ended, broken, entry, World,
  Surroundings, Journal,
}
use cockroachdbxaws.Journal.Mutation.Overlay.{StoreLaws, written, answer, lookup-store_other}
mod Laws
mod Codec
mod Operations
mod Opening

abbrev pub Entries : Type 0
Entries = List (Text × Text)

-- A value that the list takes: bytes, and not too many.
abbrev pub is_value : Text → Bool
is_value v = all (λ b. ltb b 256) v && ltb (length v) (2 ^ 64)

abbrev pub shown : Option Text → Found
shown none = missing
shown (some v) = if is_value v then found v else failed

abbrev pub read : Entries → Text → Found
read db k = shown (lookup k db)

abbrev pub is_write : Text × Option Text → Bool
is_write (k, none) = true
is_write (k, some v) = is_value v

unfoldable pub apply_ops : List (Text × Option Text) → Entries → Entries
apply_ops [] db = db
apply_ops ((k, none) ∷ ops) db = apply_ops ops (delete k db)
apply_ops ((k, some v) ∷ ops) db = apply_ops ops (store k v db)

abbrev pub write : Entries → List (Text × Option Text) → Bool × Entries
write db ops = if all is_write ops then (true, apply_ops ops db) else (false, db)

unfoldable pub insert_entry : Text × Text → Entries → Entries
insert_entry e [] = e ∷ []
insert_entry e (x ∷ xs) = if text_lt x.0 e.0 then x ∷ insert_entry e xs else e ∷ x ∷ xs

unfoldable pub sorted : Entries → Entries
sorted [] = []
sorted (e ∷ es) = insert_entry e (sorted es)

unfoldable pub scan_of : Entries → Scan
scan_of [] = ended
scan_of (e ∷ es) = entry e.0 e.1 (scan_of es)

abbrev below : Text → Option Text → Bool
below k none = true
below k (some upper) = text_lt k upper

abbrev pub range : Entries → Text → Option Text → Option Scan
range db lower upper =
    some (scan_of (sorted (select (λ e. not (text_lt e.0 lower) && below e.0 upper) db)))

-- 32 bytes that depend on the length alone.
unfoldable pub repeat : ℕ → ℕ → Text
repeat zero b = []
repeat (suc n) b = b ∷ repeat n b

abbrev pub digest : Text → Text
digest t = repeat 32 (length t % 256)

abbrev pub config : Config
config = record {
  owner = codes "journal";
  tenant_id = codes "t1";
  region = codes "eu-west-1";
  classification = codes "SENSITIVE";
  policy_version = codes "p1";
  max_bytes = 1_000_000;
  min_free_bytes = 10;
  claim_ttl = pos 1_000;
  safety_delay = pos 5_000;
  entry_overhead = 64;
  max_batch_refs = 4;
}

abbrev pub at_nanos : ℕ → Time
at_nanos n = record { nanos = pos n; utc = true }

abbrev pub id : Text
id = codes "00000000000000000000000000000000000000000000000000000000000000ab"

abbrev pub log : NormalizedLog
log = record {
  record_id = id;
  batch_id = codes "b1";
  region = codes "eu-west-1";
  policy_version = codes "p1";
  raw_reference = none;
  received_at = at_nanos 100;
  event_time = at_nanos 90;
  observed_time = at_nanos 95;
  contents = codes "x";
}

-- Every record is the one above, and its bytes are a letter.
abbrev pub world : World Entries
world = record {
  get = read;
  new_iter = range;
  write = write;
  sha256 = digest;
  validate = λ r. true;
  validate_record = λ r. true;
  encoded_normalized_size = λ r. 1;
  encode_durable = λ r tenant classification. some (codes "x");
  decode_durable = λ data' tenant classification. some log;
  semantic_digest_envelope = λ data'. some (repeat 32 7);
  cfg = config;
}

abbrev pub at_time : ℕ → Surroundings
at_time n = record { now = λ i. at_nanos n; free_space = some 1_000_000 }
