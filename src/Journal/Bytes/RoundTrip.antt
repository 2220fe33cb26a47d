-- ===== src/Journal/Bytes/RoundTrip.antt =====
-- What is written is read back (journal/codec.go): words, length-prefixed bytes, checksummed values.
use mathlib.Core.List.{append_assoc}
use native.Mathlib.Nat.{div-add-mod, mod-lt, pow-suc}
use cockroachdbxaws.Base.{
  ℕ, zero, suc, ◌+◌, ◌-◌, ◌*◌, ◌/◌, ◌%◌, ◌^◌, ◌<◌, ◌≤◌, ◌≡◌, refl, sym, ap, ◌∙◌, Text, text_eq,
  text_eq_refl, text_eq→eq, true, [], ◌++◌, some, length, length-append, arith,
}
use cockroachdbxaws.Journal.Bytes.{
  take, drop, uvarint_bytes, uvarint, read_uvarint_from, read_uvarint, big_endian, read_big_endian,
  append_bytes, take_bytes, checked, unchecked, equal32,
}
use cockroachdbxaws.Journal.Bytes.Slices.{take-append, drop-append, take-drop, take-take}

read_uvarint_from-uvarint_bytes :
    (fuel i v : ℕ) (rest : Text)
    → i + fuel ≡ 9
    → v < 2 * 128 ^ fuel
    → read_uvarint_from i (uvarint_bytes fuel v ++ rest) ≡ some (v, rest)
unfolding read_uvarint_from uvarint_bytes
read_uvarint_from-uvarint_bytes zero i v rest e h = ground arith
read_uvarint_from-uvarint_bytes (suc fuel) i v rest e h =
    let small : v / 128 < 2 * 128 ^ fuel = omega (arith, pow-suc 128 fuel) in
    let ih = read_uvarint_from-uvarint_bytes fuel (suc i) (v / 128) rest (omega arith) small in
    ground (arith, ih)

pub read_uvarint-uvarint :
    (v : ℕ) (rest : Text) → v < 2 ^ 64 → read_uvarint (uvarint v ++ rest) ≡ some (v, rest)
unfolding read_uvarint uvarint
read_uvarint-uvarint v rest h = read_uvarint_from-uvarint_bytes 9 0 v rest refl h

pub length-big_endian : (n w : ℕ) → length (big_endian n w) ≡ n
unfolding big_endian
length-big_endian zero w = refl
length-big_endian (suc n) w = omega (arith, length-big_endian n (w % 256 ^ n))

pub power256_pos : (n : ℕ) → 0 < 256 ^ n
power256_pos zero = omega arith
power256_pos (suc n) = omega (arith, pow-suc 256 n, power256_pos n)

shift_in : (high q r p w : ℕ) → p * q + r ≡ w → (high * 256 + q) * p + r ≡ high * (p * 256) + w
shift_in high q r p w h = grind arith

pub read_big_endian-big_endian :
    (n high w : ℕ) → w < 256 ^ n → read_big_endian high (big_endian n w) ≡ high * 256 ^ n + w
unfolding read_big_endian big_endian
read_big_endian-big_endian zero high w h = omega arith
read_big_endian-big_endian (suc n) high w h =
    let q = w / 256 ^ n in
    let r = w % 256 ^ n in
    read_big_endian-big_endian n (high * 256 + q) r (mod-lt w (power256_pos n))
    ∙ rw (pow-suc 256 n) (shift_in high q r (256 ^ n) w (div-add-mod w (256 ^ n)))

pub take_bytes-append_bytes :
    (value rest : Text)
    → length value < 2 ^ 64
    → take_bytes (append_bytes [] value ++ rest) ≡ some (value, rest)
unfolding take_bytes append_bytes
take_bytes-append_bytes value rest h = rw (append_assoc (uvarint (length value)) value rest) (
    rw (read_uvarint-uvarint (length value) (value ++ rest) h, take_bytes)
      (rw (take-append value rest, drop-append value rest)
        (ground (arith, length-append value rest))))

module _ (sha256 : Text → Text) where
  pub unchecked-checked :
      (magic payload : Text)
      → length (sha256 (magic ++ payload)) ≡ 32
      → unchecked sha256 (checked sha256 magic payload) magic ≡ some payload
  unfolding checked unchecked equal32
  unchecked-checked magic payload h =
      let out = magic ++ payload in
      let sum = sha256 out in
      let total = length-append out sum in
      let payload_end : length (out ++ sum) - 32 ≡ length out = omega (arith, total, h) in
      rw payload_end (
        rw (take-append out sum, drop-append out sum, append_assoc magic payload sum)
          (rw
            (
              take-append magic (payload ++ sum),
              drop-append magic payload,
              text_eq_refl magic,
              text_eq_refl sum,
            )
            (ground (arith, length-append magic (payload ++ sum), length-append payload sum, h))))

  pub checked-unchecked :
      (data' magic payload : Text)
      → unchecked sha256 data' magic ≡ some payload
      → checked sha256 magic payload ≡ data'
  unfolding checked unchecked equal32
  checked-unchecked data' magic payload h =
      let m = length magic in
      let n = length data' - 32 in
      let head = take n data' in
      let long : m + 32 ≤ length data' = ground arith in
      let magic_test : text_eq (take m data') magic ≡ true = ground arith in
      let sum_test : text_eq (sha256 head) (drop n data') ≡ true = ground arith in
      let found : drop m head ≡ payload = ground arith in
      let start : take m head ≡ magic =
        take-take m n data' (omega arith) ∙ text_eq→eq (take m data') magic magic_test in
      let whole : magic ++ payload ≡ head =
        ap (λ (t : Text). t ++ payload) (sym start)
        ∙ ap (λ (t : Text). take m head ++ t) (sym found)
        ∙ take-drop m head in
      rw whole (rw (text_eq→eq (sha256 head) (drop n data') sum_test) (take-drop n data'))
