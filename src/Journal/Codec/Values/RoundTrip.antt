-- ===== src/Journal/Codec/Values/RoundTrip.antt =====
-- journal/codec.go, `encodeStrings` and `decodeStrings`, and the counts of journal/journal.go.
use mathlib.Core.List.{append_assoc, append-nil}
use cockroachdbxaws.Base.{◌^◌, ◌<◌, ◌≡◌, refl, sym, ◌∙◌, Text, List, [], ◌∷◌, ◌++◌, All, length}
use cockroachdbxaws.Journal.Bytes.{uvarint, append_bytes}
use cockroachdbxaws.Journal.Bytes.RoundTrip.{
  read_uvarint-uvarint, unchecked-checked, take_bytes-append_bytes,
}
use cockroachdbxaws.Journal.Results.{ok}
use cockroachdbxaws.Journal.Codec.Values.{
  append_strings, read_strings, encode_strings, decode_strings,
}

pub append_strings_lem :
    (payload : Text) (vs : List Text) → append_strings payload vs ≡ payload ++ append_strings [] vs
unfolding append_strings append_bytes
append_strings_lem payload [] = sym (append-nil payload)
append_strings_lem payload (v ∷ vs) =
    append_strings_lem (append_bytes payload v) vs
    ∙ rw (append_strings_lem (append_bytes [] v) vs) (simp (append_assoc) refl)

-- The length of every string fits in 64 bits.
abbrev pub Sized : List Text → Type 0
Sized vs = All (λ v. length v < 2 ^ 64) vs

read_strings-append_strings :
    (vs : List Text) (rest : Text)
    → Sized vs
    → read_strings (length vs) (append_strings [] vs ++ rest) ≡ ok (vs, rest)
unfolding read_strings append_strings
read_strings-append_strings [] rest h = refl
read_strings-append_strings (v ∷ vs) rest h = rw (append_strings_lem (append_bytes [] v) vs) (
    rw (append_assoc (append_bytes [] v) (append_strings [] vs) rest) (
      rw (take_bytes-append_bytes v (append_strings [] vs ++ rest) h.0)
        (rw (read_strings-append_strings vs rest h.1) refl)))

module _ (sha256 : Text → Text) (digest : (t : Text) → length (sha256 t) ≡ 32) where
  pub decode_strings-encode_strings :
      (magic : Text) (vs : List Text)
      → length vs < 2 ^ 64
      → Sized vs
      → decode_strings sha256 (encode_strings sha256 magic vs) magic ≡ ok vs
  unfolding decode_strings encode_strings
  decode_strings-encode_strings magic vs n h =
      let payload = append_strings (uvarint (length vs)) vs in
      rw (unchecked-checked sha256 magic payload (digest (magic ++ payload))) (
        rw (append_strings_lem (uvarint (length vs)) vs) (
          rw (read_uvarint-uvarint (length vs) (append_strings [] vs) n) (
            rw (sym (append-nil (append_strings [] vs)))
              (rw (read_strings-append_strings vs [] h) refl))))
