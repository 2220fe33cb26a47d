-- ===== src/Journal/Identifiers.antt =====
-- journal/journal.go: the identifiers, record identities, claim tokens and classifications it accepts.
use cockroachdbxaws.Base.{
  ℕ, ◌+◌, ◌/◌, ◌%◌, ◌^◌, Text, text_eq, codes, all_runes, Bool, false, not, ◌&&◌, ◌||◌, [], ◌∷◌,
  ◌++◌, length, any, if◌then◌else◌, leb, ltb, ◌==◌,
}
use cockroachdbxaws.Journal.Bytes.{take, drop, big_endian}
use cockroachdbxaws.Journal.Times.{Time, unix_nano}

abbrev pub max_owner_bytes : ℕ
max_owner_bytes = 128

abbrev pub max_boundary_bytes : ℕ
max_boundary_bytes = 128

-- `len("claim:") + 64`
abbrev pub claim_token_bytes : ℕ
claim_token_bytes = 6 + 64

abbrev is_digit : ℕ → Bool
is_digit r = leb 0x30 r && leb r 0x39

abbrev is_letter : ℕ → Bool
is_letter r = (leb 0x61 r && leb r 0x7a) || (leb 0x41 r && leb r 0x5a)

-- A rune of "-_.:/".
abbrev is_mark : ℕ → Bool
is_mark r = any (λ mark. mark == r) (codes "-_.:/")

unfoldable pub valid_identifier : Text → ℕ → Bool
valid_identifier s max =
    if (length s == 0) || ltb max (length s)
    then false
    else all_runes (λ r. is_letter r || is_digit r || is_mark r) s

abbrev is_hex : ℕ → Bool
is_hex r = is_digit r || (leb 0x61 r && leb r 0x66)

unfoldable pub valid_record_id : Text → Bool
valid_record_id s = if not (length s == 64) then false else all_runes is_hex s

unfoldable pub valid_claim_token : Text → Bool
valid_claim_token s =
    if not (length s == claim_token_bytes) || not (text_eq (take 6 s) (codes "claim:"))
    then false
    else all_runes is_hex (drop 6 s)

unfoldable pub valid_classification : Text → Bool
valid_classification s =
    text_eq s (codes "PUBLIC")
    || text_eq s (codes "INTERNAL")
    || text_eq s (codes "SENSITIVE")
    || text_eq s (codes "RESTRICTED")

unfoldable pub classification_rank : Text → ℕ
classification_rank s =
    if text_eq s (codes "PUBLIC")
    then 1
    else if text_eq s (codes "INTERNAL")
    then 2
    else if text_eq s (codes "SENSITIVE")
    then 3
    else if text_eq s (codes "RESTRICTED")
    then 4
    else 0

-- A digit of "0123456789abcdef".
abbrev hex_digit : ℕ → ℕ
hex_digit n = if ltb n 10 then 0x30 + n else 0x57 + n

unfoldable pub fmt_hex : Text → Text
fmt_hex [] = []
fmt_hex (b ∷ bs) = hex_digit (b / 16) ∷ hex_digit (b % 16) ∷ fmt_hex bs

abbrev sized : Text → Text
sized v = big_endian 4 (length v % 2 ^ 32) ++ v

-- What is hashed: each string behind its 32-bit length, the attempt, and the expiry.
unfoldable pub claim_token : (Text → Text) → Text → Text → Text → ℕ → Time → Text
claim_token sha256 journal_owner worker id attempt expiry =
    codes "claim:"
    ++ fmt_hex (
        sha256 (
          sized journal_owner
          ++ sized worker
          ++ sized id
          ++ big_endian 4 attempt
          ++ big_endian 8 (unix_nano expiry)))
