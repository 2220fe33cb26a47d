-- ===== src/Journal/Manifest/Reopening.antt =====
-- journal/journal.go, `openManifest`: a journal whose manifest verifies opens again with its counters.
use cockroachdbxaws.Base.{
  ℕ, ◌^◌, ◌<◌, ◌≡◌, refl, subst, ◌∙◌, ap, Text, text_eq, text_eq→eq, text_eq_refl, codes, Bool,
  true, false, List, [], ◌∷◌, ◌++◌, length, some, none, Option, if◌then◌else◌, arith,
}
use cockroachdbxaws.Journal.Bytes.{uvarint, uvarint_bytes, checked, big_endian, read_big_endian}
use cockroachdbxaws.Journal.Bytes.RoundTrip.{unchecked-checked}
use cockroachdbxaws.Journal.Results.{
  ok, err, corruption, incompatible_format, >>=-ok, ok-injective, present,
}
use cockroachdbxaws.Journal.Codec.Values.{encode_strings, usage_value, priority_value, format_value}
use cockroachdbxaws.Journal.Codec.Values.Counts.{
  Words, decode_usage-usage_value, decode_priority-priority_value,
}
use cockroachdbxaws.Journal.Codec.Values.RoundTrip.{Sized, decode_strings-encode_strings}
use cockroachdbxaws.Journal.Keys.{
  key, append_component, append_components, key_format, key_owner, key_boundary, key_usage,
  key_priority,
}
use cockroachdbxaws.Journal.State.{
  Scan, ended, broken, entry, Config, holds_value, Found, found, failed, missing, World, Journal,
  boundary_value, verify_manifest,
}
use cockroachdbxaws.Journal.Mutation.Overlay.{StoreLaws, written}
use cockroachdbxaws.Journal.Manifest.{
  start_manifest, check_format, check_owner, check_boundary, read_manifest, open_manifest,
}

-- The configuration's strings have lengths of 64 bits, as every Go string.
abbrev pub Sizes : Config → Type 0
Sizes cfg = Sized (cfg.region ∷ cfg.tenant_id ∷ cfg.classification ∷ cfg.policy_version ∷ [])

found_value :
    (f : Found) (value : Text)
    → elim f [ failed ↦ false | missing ↦ false | found v ↦ text_eq v value ] ≡ true
    → f ≡ found value
found_value failed value h = cc
found_value missing value h = cc
found_value (found v) value h = ap (λ t. found t) (text_eq→eq v value h)

module _ {S : Type 0} (w : World S) (digest : (t : Text) → length (w.sha256 t) ≡ 32) where
  holds_value-found :
      (db : S) (key value : Text) → holds_value w db key value ≡ true → w.get db key ≡ found value
  holds_value-found db key value h = found_value (w.get db key) value h

  check_format-format_value : check_format w (format_value w.sha256) ≡ ok tt
  unfolding check_format format_value big_endian read_big_endian
  check_format-format_value =
      rw
        (unchecked-checked w.sha256 (codes "JFM1") (big_endian 2 1 ++ big_endian 2 0)
          (digest (codes "JFM1" ++ big_endian 2 1 ++ big_endian 2 0)))
        refl

  check_owner-checked :
      (db : S)
      → w.get db key_owner ≡ found (checked w.sha256 (codes "JOW1") w.cfg.owner)
      → check_owner w db ≡ ok tt
  unfolding check_owner
  check_owner-checked db h =
      rw (h, check_owner)
        (rw
          (unchecked-checked w.sha256 (codes "JOW1") w.cfg.owner
            (digest (codes "JOW1" ++ w.cfg.owner)))
          (rw (text_eq_refl w.cfg.owner) refl))

  check_boundary-boundary_value :
      (db : S)
      → Sizes w.cfg
      → w.get db key_boundary ≡ found (boundary_value w)
      → check_boundary w db ≡ ok tt
  unfolding check_boundary boundary_value
  check_boundary-boundary_value db h e =
      let fields =
        w.cfg.region ∷ w.cfg.tenant_id ∷ w.cfg.classification ∷ w.cfg.policy_version ∷ [] in
      let payload = encode_strings w.sha256 (codes "JBS1") fields in
      rw (e, check_boundary)
        (rw (unchecked-checked w.sha256 (codes "JBD1") payload (digest (codes "JBD1" ++ payload))) (
          rw (decode_strings-encode_strings w.sha256 digest (codes "JBS1") fields (omega arith) h)
            (rw (text_eq_refl (boundary_value w)) refl)))

  -- Where the manifest in the store verifies against a journal's counters, opening the store again gives
  -- the same store and these counters. The hash has 32 bytes, the four strings of the configuration have
  -- lengths of 64 bits, and so have the usage and the four priority counts.
  pub open_manifest-verify_manifest :
      (j : Journal S)
      → Sizes w.cfg
      → j.usage < 2 ^ 64
      → length j.priorities ≡ 4
      → Words j.priorities
      → verify_manifest w j ≡ true
      → open_manifest w j.db ≡ ok (j.db, j.usage, j.priorities)
  unfolding open_manifest read_manifest verify_manifest
  open_manifest-verify_manifest j sizes usage four words h =
      let format : holds_value w j.db key_format (format_value w.sha256) ≡ true = ground arith in
      let owner : holds_value w j.db key_owner (checked w.sha256 (codes "JOW1") w.cfg.owner)
          ≡ true =
        ground arith in
      let boundary : holds_value w j.db key_boundary (boundary_value w) ≡ true = ground arith in
      let used : holds_value w j.db key_usage (usage_value w.sha256 j.usage) ≡ true =
        ground arith in
      let counts : holds_value w j.db key_priority (priority_value w.sha256 j.priorities) ≡ true =
        ground arith in
      rw (holds_value-found j.db key_format (format_value w.sha256) format, open_manifest)
        (rw (check_format-format_value, read_manifest)
          (rw
            (check_owner-checked j.db (
              holds_value-found j.db key_owner (checked w.sha256 (codes "JOW1") w.cfg.owner) owner))
            (rw
              (check_boundary-boundary_value j.db sizes
                (holds_value-found j.db key_boundary (boundary_value w) boundary))
              (rw (holds_value-found j.db key_usage (usage_value w.sha256 j.usage) used) (
                rw (decode_usage-usage_value w.sha256 digest j.usage usage) (
                  rw
                    (holds_value-found j.db key_priority (priority_value w.sha256 j.priorities)
                      counts)
                    (rw (decode_priority-priority_value w.sha256 digest j.priorities four words)
                      refl)))))))

-- A journal as opening leaves it.
abbrev pub opened_with : {S : Type 0} → S → ℕ → List ℕ → Journal S
opened_with db usage priorities = record {
  db = db;
  usage = usage;
  priorities = priorities;
  healthy = true;
  closed = false;
}

if-ok :
    {S : Type 0} (done : Bool) (after next : S)
    → (if done then ok after else err corruption) ≡ ok next
    → (done ≡ true) × (after ≡ next)
if-ok true after next h = (refl, ok-injective h)
if-ok false after next h = cc

module _ {S : Type 0} (w : World S) (laws : StoreLaws w) where
  -- The writes that start a journal.
  abbrev manifest_writes : List (Text × Option Text)
  manifest_writes =
      (key_format, some (format_value w.sha256))
      ∷ (key_owner, some (checked w.sha256 (codes "JOW1") w.cfg.owner))
      ∷ (key_boundary, some (boundary_value w))
      ∷ (key_usage, some (usage_value w.sha256 0))
      ∷ (key_priority, some (priority_value w.sha256 (0 ∷ 0 ∷ 0 ∷ 0 ∷ [])))
      ∷ []

  start_manifest-writes :
      (db next : S)
      → start_manifest w db ≡ ok next
      → ((w.write db manifest_writes).0 ≡ true) × ((w.write db manifest_writes).1 ≡ next)
  unfolding start_manifest
  start_manifest-writes db next h =
      let (scan, s, h1) = >>=-ok (present (w.new_iter db [] none) corruption) _ h in go scan h1
    where
      go :
          (scan : Scan)
          → elim scan [
            | entry key value rest ↦ err incompatible_format
            | broken ↦ err corruption
            | ended ↦
                if (w.write db manifest_writes).0
                then ok (w.write db manifest_writes).1
                else err corruption
          ]
            ≡ ok next
          → ((w.write db manifest_writes).0 ≡ true) × ((w.write db manifest_writes).1 ≡ next)
      go (entry key value rest) h = cc
      go broken h = cc
      go ended h = if-ok (w.write db manifest_writes).0 (w.write db manifest_writes).1 next h

  holds_value-written :
      (db next : S) (k value : Text)
      → start_manifest w db ≡ ok next
      → ((f : Found) → written k manifest_writes f ≡ found value)
      → holds_value w next k value ≡ true
  holds_value-written db next k value h reads =
      let (done, same) = start_manifest-writes db next h in
      let there : w.get (w.write db manifest_writes).1 k ≡ found value =
        laws.reads db manifest_writes k done ∙ reads (w.get db k) in
      subst (λ (d : S). holds_value w d k value ≡ true) same
        (rw (there, holds_value) (text_eq_refl value))

  -- What starting a journal leaves is a journal whose manifest verifies.
  pub start_manifest-verify_manifest :
      (db next : S)
      → start_manifest w db ≡ ok next
      → verify_manifest w (opened_with next 0 (0 ∷ 0 ∷ 0 ∷ 0 ∷ [])) ≡ true
  unfolding verify_manifest key_format key_owner key_boundary key_usage key_priority key
      append_components append_component uvarint uvarint_bytes text_eq
  start_manifest-verify_manifest db next h =
      rw (holds_value-written db next key_format (format_value w.sha256) h (λ f. refl)) (
        rw
          (holds_value-written db next key_owner (checked w.sha256 (codes "JOW1") w.cfg.owner) h
            (λ f. refl))
          (rw (holds_value-written db next key_boundary (boundary_value w) h (λ f. refl)) (
            rw (holds_value-written db next key_usage (usage_value w.sha256 0) h (λ f. refl)) (
              rw
                (holds_value-written db next key_priority
                  (priority_value w.sha256 (0 ∷ 0 ∷ 0 ∷ 0 ∷ [])) h (λ f. refl))
                refl))))
