-- ===== src/Tests/Journal/Opening.antt =====
-- internal/journal, `openManifest`: an empty store is opened, and opened again.
use cockroachdbxaws.Base.{
  ℕ, ◌≡◌, refl, codes, true, List, [], ◌∷◌, text_eq, text_lt, lookup, store, select, arith,
}
use cockroachdbxaws.Journal.Results.{ok}
use cockroachdbxaws.Journal.Bytes.{uvarint_bytes, uvarint, big_endian, append_bytes, checked}
use cockroachdbxaws.Journal.Codec.Values.{
  append_strings, encode_strings, format_value, usage_value, append_counts, priority_value,
}
use cockroachdbxaws.Journal.Keys.{
  append_component, append_components, key, key_format, key_owner, key_usage, key_priority,
  key_boundary,
}
use cockroachdbxaws.Journal.State.{boundary_value, verify_manifest, usable}
use cockroachdbxaws.Journal.Manifest.{start_manifest, open_manifest}
use cockroachdbxaws.Journal.Manifest.Reopening.{opened_with, open_manifest-verify_manifest}
use cockroachdbxaws.Journal.Manifest.Usable.{open_manifest-usable}
use cockroachdbxaws.Tests.Journal.{
  Entries, world, digest, config, apply_ops, insert_entry, sorted, scan_of, repeat,
}
use cockroachdbxaws.Tests.Journal.Laws.{world-StoreLaws, digest-size}

abbrev no_priorities : List ℕ
no_priorities = 0 ∷ 0 ∷ 0 ∷ 0 ∷ []

abbrev started : Entries
started =
    (key_format, format_value digest)
    ∷ (key_owner, checked digest (codes "JOW1") config.owner)
    ∷ (key_boundary, boundary_value world)
    ∷ (key_usage, usage_value digest 0)
    ∷ (key_priority, priority_value digest no_priorities)
    ∷ []

open_empty : open_manifest world [] ≡ ok (started, 0, no_priorities)
unfolding open_manifest start_manifest text_eq text_lt lookup store select apply_ops insert_entry
    sorted scan_of repeat uvarint_bytes uvarint big_endian append_bytes checked append_strings
    encode_strings format_value usage_value append_counts priority_value append_component
    append_components key key_format key_owner key_usage key_priority key_boundary boundary_value
open_empty = refl

open_manifest-usable_example : usable world (opened_with started 0 no_priorities) ≡ ok tt
open_manifest-usable_example =
    open_manifest-usable world world-StoreLaws [] started 0 no_priorities open_empty

verified : verify_manifest world (opened_with started 0 no_priorities) ≡ true
unfolding verify_manifest text_eq lookup repeat uvarint_bytes uvarint big_endian append_bytes
    checked append_strings encode_strings format_value usage_value append_counts priority_value
    append_component append_components key key_format key_owner key_usage key_priority key_boundary
    boundary_value
verified = refl

open_manifest-verify_manifest_example : open_manifest world started ≡ ok (started, 0, no_priorities)
open_manifest-verify_manifest_example =
    open_manifest-verify_manifest world digest-size (opened_with started 0 no_priorities)
      (omega arith, (omega arith, (omega arith, (omega arith, tt)))) (omega arith) refl
      (omega arith, (omega arith, (omega arith, (omega arith, tt)))) verified
