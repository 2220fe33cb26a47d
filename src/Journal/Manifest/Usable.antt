-- ===== src/Journal/Manifest/Usable.antt =====
-- journal/journal.go, `openManifest` and `usable`: opening leaves a journal that every operation accepts.
use cockroachdbxaws.Base.{
  ℕ, ◌≡◌, refl, not, ◌||◌, true, false, ◌==◌, text_eq, text_eq_refl, text_eq→eq, subst, inl, inr,
  codes, sym, ◌∙◌, ap, Text, List, ◌++◌, length, arith,
}
use cockroachdbxaws.Journal.Bytes.{checked, unchecked, take, drop, big_endian, read_big_endian}
use cockroachdbxaws.Journal.Bytes.Slices.{take-drop, length-take, length-drop}
use cockroachdbxaws.Journal.Bytes.RoundTrip.{checked-unchecked}
use cockroachdbxaws.Journal.Codec.Validity.{unchecked-payload, Bytes, take-Bytes, drop-Bytes}
use cockroachdbxaws.Journal.Codec.Values.{
  decode_strings, usage_value, decode_usage, priority_value, decode_priority, format_value,
}
use cockroachdbxaws.Journal.Results.{
  ok, corruption, owner_mismatch, boundary_mismatch, incompatible_format, >>=-ok, ok-injective,
  present, present-ok, refuse, refuse-ok, relabel, not-false,
}
use cockroachdbxaws.Journal.Codec.Values.Canonical.{
  big_endian-reads, usage_value-decode_usage, priority_value-decode_priority,
}
use cockroachdbxaws.Journal.Keys.{key_format, key_owner, key_boundary, key_usage, key_priority}
use cockroachdbxaws.Journal.State.{
  Found, Found-cases, found, missing, failed, World, holds_value, boundary_value, verify_manifest,
  usable,
}
use cockroachdbxaws.Journal.Mutation.Overlay.{StoreLaws}
use cockroachdbxaws.Journal.Manifest.{
  stored_value, check_format, check_owner, check_boundary, read_manifest, open_manifest,
  start_manifest,
}
use cockroachdbxaws.Journal.Manifest.Reopening.{opened_with, start_manifest-verify_manifest}

version_lem :
    (p : Text)
    → Bytes p
    → not (length p == 4) ≡ false
    → (not (read_big_endian 0 (take 2 p) == 1) || not (read_big_endian 0 (drop 2 p) == 0)) ≡ false
    → p ≡ big_endian 2 1 ++ big_endian 2 0
version_lem p b size versions =
    let four : length p ≡ 4 = ground arith in
    let major : read_big_endian 0 (take 2 p) ≡ 1 = ground arith in
    let minor : read_big_endian 0 (drop 2 p) ≡ 0 = ground arith in
    let first : big_endian 2 (read_big_endian 0 (take 2 p)) ≡ take 2 p =
      big_endian-reads 2 (take 2 p) (length-take 2 p (omega arith)) (take-Bytes 2 p b) in
    let second : big_endian 2 (read_big_endian 0 (drop 2 p)) ≡ drop 2 p =
      big_endian-reads 2 (drop 2 p) (omega (arith, length-drop 2 p)) (drop-Bytes 2 p b) in
    sym (take-drop 2 p)
    ∙ ap (λ t. t ++ drop 2 p) (sym first ∙ ap (λ n. big_endian 2 n) major)
    ∙ ap (λ t. big_endian 2 1 ++ t) (sym second ∙ ap (λ n. big_endian 2 n) minor)

module _ {S : Type 0} (w : World S) (laws : StoreLaws w) where
  stored_value-found : (f : Found) (v : Text) → stored_value w f ≡ ok v → f ≡ found v
  stored_value-found failed v h = cc
  stored_value-found missing v h = cc
  stored_value-found (found x) v h = ap (λ t. found t) (ok-injective h)

  held :
      (db : S) (k v value : Text)
      → w.get db k ≡ found v
      → v ≡ value
      → holds_value w db k value ≡ true
  held db k v value f e = rw (f, holds_value) (rw e (text_eq_refl value))

  check_format-verifies :
      (db : S) (format : Text)
      → w.get db key_format ≡ found format
      → check_format w format ≡ ok tt
      → holds_value w db key_format (format_value w.sha256) ≡ true
  unfolding check_format format_value
  check_format-verifies db format f h =
      let (payload, k, h1) =
        >>=-ok (present (unchecked w.sha256 format (codes "JFM1")) corruption) _ h in
      let opened = present-ok (unchecked w.sha256 format (codes "JFM1")) corruption k in
      let b =
        (unchecked-payload w.sha256 format (codes "JFM1") payload
          (laws.values db key_format format f).0 opened).0 in
      let (u, size, versions) = >>=-ok (refuse (not (length payload == 4)) corruption) _ h1 in
      let same = version_lem payload b (refuse-ok (not (length payload == 4)) corruption size) (
        refuse-ok
          (not (read_big_endian 0 (take 2 payload) == 1)
            || not (read_big_endian 0 (drop 2 payload) == 0))
          incompatible_format versions) in
      held db key_format format (format_value w.sha256) f (
        sym (checked-unchecked w.sha256 format (codes "JFM1") payload opened)
        ∙ ap (λ t. checked w.sha256 (codes "JFM1") t) same)

  check_owner-verifies :
      (db : S)
      → check_owner w db ≡ ok tt
      → holds_value w db key_owner (checked w.sha256 (codes "JOW1") w.cfg.owner) ≡ true
  unfolding check_owner
  check_owner-verifies db h =
      let (owner, o, h1) = >>=-ok (stored_value w (w.get db key_owner)) _ h in
      let (payload, k, h2) =
        >>=-ok (present (unchecked w.sha256 owner (codes "JOW1")) corruption) _ h1 in
      let whole =
        checked-unchecked w.sha256 owner (codes "JOW1") payload
          (present-ok (unchecked w.sha256 owner (codes "JOW1")) corruption k) in
      let same =
        text_eq→eq payload w.cfg.owner
          (not-false (refuse-ok (not (text_eq payload w.cfg.owner)) owner_mismatch h2)) in
      held db key_owner owner (checked w.sha256 (codes "JOW1") w.cfg.owner)
        (stored_value-found (w.get db key_owner) owner o)
        (sym whole ∙ ap (λ t. checked w.sha256 (codes "JOW1") t) same)

  check_boundary-verifies :
      (db : S)
      → check_boundary w db ≡ ok tt
      → holds_value w db key_boundary (boundary_value w) ≡ true
  unfolding check_boundary
  check_boundary-verifies db h =
      let (boundary, o, h1) = >>=-ok (stored_value w (w.get db key_boundary)) _ h in
      let (payload, k, h2) =
        >>=-ok (present (unchecked w.sha256 boundary (codes "JBD1")) corruption) _ h1 in
      let (fields, d, h3) =
        >>=-ok (relabel corruption (decode_strings w.sha256 payload (codes "JBS1"))) _ h2 in
      let (u, four, h4) = >>=-ok (refuse (not (length fields == 4)) corruption) _ h3 in
      held db key_boundary boundary (boundary_value w)
        (stored_value-found (w.get db key_boundary) boundary o)
        (text_eq→eq boundary (boundary_value w)
          (not-false (refuse-ok (not (text_eq boundary (boundary_value w))) boundary_mismatch h4)))

  read_manifest-verifies :
      (db : S) (format : Text) (usage : ℕ) (priorities : List ℕ)
      → w.get db key_format ≡ found format
      → read_manifest w db format ≡ ok (usage, priorities)
      → verify_manifest w (opened_with db usage priorities) ≡ true
  unfolding read_manifest verify_manifest
  read_manifest-verifies db format usage priorities f h =
      let (u, checked_format, h1) = >>=-ok (check_format w format) _ h in
      let (v, checked_owner, h2) = >>=-ok (check_owner w db) _ h1 in
      let (x, checked_boundary, h3) = >>=-ok (check_boundary w db) _ h2 in
      let (encoded, e, h4) = >>=-ok (stored_value w (w.get db key_usage)) _ h3 in
      let (used, n, h5) = >>=-ok (present (decode_usage w.sha256 encoded) corruption) _ h4 in
      let (counts, c, h6) = >>=-ok (stored_value w (w.get db key_priority)) _ h5 in
      let (listed, l, h7) = >>=-ok (present (decode_priority w.sha256 counts) corruption) _ h6 in
      let at_usage = stored_value-found (w.get db key_usage) encoded e in
      let at_priority = stored_value-found (w.get db key_priority) counts c in
      let usage_held = held db key_usage encoded (usage_value w.sha256 used) at_usage (
        sym (
          usage_value-decode_usage w.sha256 encoded used
            (laws.values db key_usage encoded at_usage).0
            (present-ok (decode_usage w.sha256 encoded) corruption n))) in
      let priority_held = held db key_priority counts (priority_value w.sha256 listed) at_priority (
        sym (
          priority_value-decode_priority w.sha256 counts listed
            (laws.values db key_priority counts at_priority).0
            (present-ok (decode_priority w.sha256 counts) corruption l))) in
      subst (λ (r : ℕ × List ℕ). verify_manifest w (opened_with db r.0 r.1) ≡ true)
        (ok-injective h7)
        (rw
          (
            check_format-verifies db format f checked_format,
            check_owner-verifies db checked_owner,
            check_boundary-verifies db checked_boundary,
          )
          (rw (usage_held, priority_held) refl))

  -- Whatever a store held before, where opening it gives a store and two counters, the open and healthy
  -- journal of these passes the check that every operation starts with. The store reads the last write to a
  -- key and holds bytes.
  pub open_manifest-usable :
      (db next : S) (usage : ℕ) (priorities : List ℕ)
      → open_manifest w db ≡ ok (next, usage, priorities)
      → usable w (opened_with next usage priorities) ≡ ok tt
  unfolding open_manifest usable
  open_manifest-usable db next usage priorities h = elim (Found-cases (w.get db key_format)) [
    | inl f ↦ let h1 = rw (f, open_manifest) at h in absurd (cc)
    | inr (inl m) ↦
        let h1 = rw (m, open_manifest) at h in
        let (fresh, s, h2) = >>=-ok (start_manifest w db) _ h1 in
        subst (λ (r : S × ℕ × List ℕ). usable w (opened_with r.0 r.1 r.2) ≡ ok tt) (ok-injective h2)
          (rw (start_manifest-verify_manifest w laws db fresh s) refl)
    | inr (inr (format, f)) ↦
        let h1 = rw (f, open_manifest) at h in
        let (counters, s, h2) = >>=-ok (read_manifest w db format) _ h1 in
        subst (λ (r : S × ℕ × List ℕ). usable w (opened_with r.0 r.1 r.2) ≡ ok tt) (ok-injective h2)
          (rw (read_manifest-verifies db format counters.0 counters.1 f s) refl)
  ]
