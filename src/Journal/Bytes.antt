-- ===== src/Journal/Bytes.antt =====
-- journal/codec.go: length prefixes, big-endian words and checksummed values, with the functions of
-- encoding/binary that they use. A byte slice is the list of its bytes, and `append` is `++`.
use cockroachdbxaws.Base.{
  ℕ, zero, suc, ◌+◌, ◌-◌, ◌*◌, ◌/◌, ◌%◌, ◌^◌, Text, text_eq, Bool, true, false, not, ◌&&◌, ◌||◌,
  List, [], ◌∷◌, ◌++◌, Option, none, some, length, if◌then◌else◌, ltb, ◌==◌,
}
pub mod Slices
pub mod RoundTrip

module _ {ℓ} {A : Type ℓ} where
  -- `xs[:n]` and `xs[n:]`, for an index within the bounds.
  abbrev pub take : ℕ → List A → List A
  take zero xs = []
  take (suc n) [] = []
  take (suc n) (x ∷ xs) = x ∷ take n xs

  abbrev pub drop : ℕ → List A → List A
  drop zero xs = xs
  drop (suc n) [] = []
  drop (suc n) (x ∷ xs) = drop n xs

-- `binary.AppendUvarint(nil, v)`: seven bits to a byte, low bits first, the high bit set on all but
-- the last byte. `fuel` bytes may follow the first.
unfoldable pub uvarint_bytes : ℕ → ℕ → Text
uvarint_bytes zero v = v ∷ []
uvarint_bytes (suc fuel) v =
    let rest = uvarint_bytes fuel (v / 128) in if ltb v 128 then v ∷ [] else (v % 128 + 128) ∷ rest

-- A 64-bit number takes at most ten bytes.
unfoldable pub uvarint : ℕ → Text
uvarint v = uvarint_bytes 9 v

-- `binary.Uvarint`, from its `i`-th byte on: the value and what follows it. A tenth byte above 1 is an
-- overflow, and so is an eleventh byte; both, and an end of the input, are what its callers reject.
unfoldable pub read_uvarint_from : ℕ → Text → Option (ℕ × Text)
read_uvarint_from i [] = none
read_uvarint_from i (b ∷ bs) =
    let rest = read_uvarint_from (suc i) bs in
    if i == 10
    then none
    else if ltb b 128
    then (if (i == 9) && ltb 1 b then none else some (b, bs))
    else elim rest [ none ↦ none | some (high, after) ↦ some (b % 128 + 128 * high, after) ]

unfoldable pub read_uvarint : Text → Option (ℕ × Text)
read_uvarint bs = read_uvarint_from 0 bs

-- `binary.BigEndian.AppendUint16`, `AppendUint32` and `AppendUint64`, by the number of bytes.
unfoldable pub big_endian : ℕ → ℕ → Text
big_endian zero w = []
big_endian (suc n) w = w / 256 ^ n ∷ big_endian n (w % 256 ^ n)

-- `binary.BigEndian.Uint16`, `Uint32` and `Uint64`.
unfoldable pub read_big_endian : ℕ → Text → ℕ
read_big_endian high [] = high
read_big_endian high (b ∷ bs) = read_big_endian (high * 256 + b) bs

unfoldable pub append_bytes : Text → Text → Text
append_bytes out value = out ++ uvarint (length value) ++ value

-- `takeBytes`: the value and what follows it.
unfoldable pub take_bytes : Text → Option (Text × Text)
take_bytes input = elim (read_uvarint input) [
  | none ↦ none
  | some (n, rest) ↦ if ltb (length rest) n then none else some (take n rest, drop n rest)
]

-- `sha256.Sum256` is a parameter; `sha256.Size` is 32.
abbrev pub checksum_size : ℕ
checksum_size = 32

-- The bytes are compared without an early exit; the answer is that of equality.
unfoldable pub equal32 : Text → Text → Bool
equal32 a b = if not (length a == length b) then false else text_eq a b

module _ (sha256 : Text → Text) where
  unfoldable pub checked : Text → Text → Text
  checked magic payload = let out = magic ++ payload in out ++ sha256 out

  unfoldable pub unchecked : Text → Text → Option Text
  unchecked data' magic =
      if ltb (length data') (length magic + checksum_size)
        || not (text_eq (take (length magic) data') magic)
      then none
      else let payload_end = length data' - checksum_size in
        if not (equal32 (sha256 (take payload_end data')) (drop payload_end data'))
        then none
        else some (drop (length magic) (take payload_end data'))
