-- ===== src/Journal/Mutation.antt =====
-- journal/journal.go: the changes that an operation collects, and `commitMutation`, which applies them.
use cockroachdbxaws.Base.{
  ℕ, suc, ◌+◌, ◌-◌, ◌^◌, Text, text_lt, Bool, true, false, not, ◌&&◌, ◌||◌, List, [], ◌∷◌, ◌++◌,
  Option, none, some, ℤ, pos, negsuc, length, lookup, store, if◌then◌else◌, ltb, leb, ◌==◌,
}
use cockroachdbxaws.Journal.Results.{
  JournalError, Result, ok, err, capacity, corrupted, ◌>>=◌, ◌>>◌, refuse, present,
}
use cockroachdbxaws.Journal.Codec.{byte_at}
use cockroachdbxaws.Journal.Codec.Values.{usage_value, priority_value}
use cockroachdbxaws.Journal.Keys.{key_usage, key_priority, key_version, ns_manifest}
use cockroachdbxaws.Journal.State.{
  Found, failed, missing, found, World, Surroundings, Journal, after_error,
}
pub mod Effects
pub mod Bounds
pub mod Overlay

abbrev pub max_uint64 : ℕ
max_uint64 = 2 ^ 64 - 1

-- `ops` has one entry for a key: the value to set, or `none` to delete it.
pub record Mutation : Type 0 where
  pub ops : List (Text × Option Text)
  -- four signed changes
  pub priority_delta : List ℤ

abbrev pub new_mutation : Mutation
new_mutation = record { ops = []; priority_delta = pos 0 ∷ pos 0 ∷ pos 0 ∷ pos 0 ∷ [] }

unfoldable pub set : Text → Text → Mutation → Mutation
set k v m = record m { ops = store k (some v) m.ops }

unfoldable pub del : Text → Mutation → Mutation
del k m = record m { ops = store k none m.ops }

-- The two changes that the code makes to a count: 1 and -1.
abbrev raise : ℤ → ℤ
raise (pos n) = pos (n + 1)
raise (negsuc n) = if n == 0 then pos 0 else negsuc (n - 1)

abbrev lower : ℤ → ℤ
lower (pos n) = if n == 0 then negsuc 0 else pos (n - 1)
lower (negsuc n) = negsuc (n + 1)

abbrev change_at : ℕ → (ℤ → ℤ) → List ℤ → List ℤ
change_at i f [] = []
change_at i f (d ∷ ds) = if i == 0 then f d ∷ ds else d ∷ change_at (i - 1) f ds

-- `addPriority(p, 1)` and `addPriority(p, -1)`.
unfoldable pub add_priority : ℕ → Mutation → Mutation
add_priority p m = record m { priority_delta = change_at p raise m.priority_delta }

unfoldable pub sub_priority : ℕ → Mutation → Mutation
sub_priority p m = record m { priority_delta = change_at p lower m.priority_delta }

-- The loop over `priorityDelta`.
unfoldable pub next_priorities : List ℕ → List ℤ → Result (List ℕ)
next_priorities [] ds = ok []
next_priorities (p ∷ ps) [] = ok (p ∷ ps)
next_priorities (p ∷ ps) (negsuc n ∷ ds) = do
  refuse (ltb p (n + 1)) corrupted
  rest ← next_priorities ps ds
  ok ((p - (n + 1)) ∷ rest)
next_priorities (p ∷ ps) (pos n ∷ ds) = do
  refuse (ltb (max_uint64 - n) p) capacity
  rest ← next_priorities ps ds
  ok ((p + n) ∷ rest)

-- `sort.Strings(keys)`, on the entries: their keys are distinct.
unfoldable pub insert_op :
    Text × Option Text → List (Text × Option Text) → List (Text × Option Text)
insert_op e [] = e ∷ []
insert_op e (x ∷ xs) = if text_lt x.0 e.0 then x ∷ insert_op e xs else e ∷ x ∷ xs

unfoldable pub sorted_ops : List (Text × Option Text) → List (Text × Option Text)
sorted_ops [] = []
sorted_ops (e ∷ es) = insert_op e (sorted_ops es)

unfoldable pub is_manifest_key : Text → Bool
is_manifest_key key =
    leb 2 (length key) && (byte_at 0 key == key_version) && (byte_at 1 key == ns_manifest)

module _ {S : Type 0} (w : World S) where
  -- `m.get`.
  unfoldable pub mutation_get : S → Mutation → Text → Found
  mutation_get db m k = elim (lookup k m.ops) [
    | some (some value) ↦ found value
    | some none ↦ missing
    | none ↦ w.get db k
  ]

  unfoldable pub cost : Text → Text → Option ℕ
  cost k v =
      let n = length k + length v in
      if ltb (max_uint64 - length v) (length k) || ltb (max_uint64 - w.cfg.entry_overhead) n
      then none
      else some (n + w.cfg.entry_overhead)

  -- The stored value of a key is taken off the bytes in use.
  unfoldable pub discharge : S → Text → ℕ → Result ℕ
  discharge db key next = elim (w.get db key) [
    | failed ↦ err corrupted
    | missing ↦ ok next
    | found old ↦ do
      c ← present (cost key old) corrupted
      refuse (ltb next c) corrupted
      ok (next - c)
  ]

  -- The new value is put on them.
  unfoldable pub charge : Text → Option Text → ℕ → Result ℕ
  charge key none next = ok next
  charge key (some value) next = do
    c ← present (cost key value) capacity
    refuse (ltb (max_uint64 - c) next) capacity
    ok (next + c)

  -- The loop over the keys.
  unfoldable pub next_usage : S → List (Text × Option Text) → ℕ → Result ℕ
  next_usage db [] next = ok next
  next_usage db (e ∷ es) next =
      if is_manifest_key e.0
      then next_usage db es next
      else do less ← discharge db e.0 next; more ← charge e.0 e.1 less; next_usage db es more

  -- The limit and the headroom, where the bytes in use grow.
  unfoldable pub check_room : Surroundings → ℕ → ℕ → Result (Unit {0})
  check_room u usage next = do
    refuse (ltb w.cfg.max_bytes next) capacity
    free ← present u.free_space capacity
    refuse (ltb free w.cfg.min_free_bytes || ltb (free - w.cfg.min_free_bytes) (next - usage))
        capacity

  -- The batch of writes: the changes in the order of their keys, and the two counters.
  abbrev pub writes_of : Mutation → ℕ → List ℕ → List (Text × Option Text)
  writes_of m next priorities =
      sorted_ops m.ops
      ++ (key_usage, some (usage_value w.sha256 next))
        ∷ (key_priority, some (priority_value w.sha256 priorities))
        ∷ []

  -- What `commitMutation` decides before it writes: the writes, the bytes and the counts.
  unfoldable pub prepare_commit :
      Surroundings → Journal S → Mutation → Bool → Result (List (Text × Option Text) × ℕ × List ℕ)
  prepare_commit u j m capacity' = do
    priorities ← next_priorities j.priorities m.priority_delta
    next ← next_usage j.db (sorted_ops m.ops) j.usage
    if capacity' && ltb j.usage next then check_room u j.usage next else ok tt
    ok (writes_of m next priorities, next, priorities)

  unfoldable pub apply_writes :
      Journal S → List (Text × Option Text) × ℕ × List ℕ → Result (Unit {0}) × Journal S
  apply_writes j (writes, next, priorities) =
      let (done, db) = w.write j.db writes in
      if done
      then (ok tt, record j { db = db; usage = next; priorities = priorities })
      else (err corrupted, after_error corrupted (record j { db = db }))

  unfoldable pub commit_mutation :
      Surroundings → Journal S → Mutation → Bool → Result (Unit {0}) × Journal S
  commit_mutation u j m capacity' = elim m.ops [
    | [] ↦ (ok tt, j)
    | _ ∷ _ ↦ elim (prepare_commit u j m capacity') [
      | err e ↦ (err e, after_error e j)
      | ok plan ↦ apply_writes j plan
    ]
  ]
