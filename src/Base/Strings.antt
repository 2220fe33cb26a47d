-- ===== src/Base/Strings.antt =====
-- Go strings as lists of bytes: equality, the byte order, and the blank test
-- `strings.TrimSpace(s) == ""`.
use Prim.Native.Char.{code}
use Prim.Native.Nat.{ℕ}
use Prim.Native.String.{String}
use mathlib.Core.Path.{◌≡◌, refl}
use mathlib.Core.Logic.{◌↔◌}
use mathlib.Core.Bool.{Bool, true, false, ◌&&◌, ◌||◌}
use mathlib.Core.List.{List, [], ◌∷◌}
use native.Mathlib.Omega.{arith}
use cockroachdbxaws.Base.Tests.{ltb, leb, ◌==◌, if◌then◌else◌}

abbrev pub Text : Type 0
Text = List ℕ

-- The bytes of an ASCII literal.
abbrev pub codes : String → Text
codes String.[] = []
codes (String.◌∷◌ c s) = code c ∷ codes s

unfoldable pub text_eq : Text → Text → Bool
text_eq [] [] = true
text_eq [] (b ∷ bs) = false
text_eq (a ∷ as') [] = false
text_eq (a ∷ as') (b ∷ bs) = (a == b) && text_eq as' bs

pub text_eq→eq : (a b : Text) → text_eq a b ≡ true → a ≡ b
unfolding text_eq
text_eq→eq [] [] h = refl
text_eq→eq [] (b ∷ bs) h = cc
text_eq→eq (a ∷ as') [] h = cc
text_eq→eq (a ∷ as') (b ∷ bs) h = ground (arith, text_eq→eq as' bs)

pub text_eq_refl : (a : Text) → text_eq a a ≡ true
unfolding text_eq
text_eq_refl [] = refl
text_eq_refl (a ∷ as') = ground (arith, text_eq_refl as')

pub text_eq_iff : (a b : Text) → (text_eq a b ≡ true) ↔ (a ≡ b)
text_eq_iff a b = (text_eq→eq a b, λ e. rw e (text_eq_refl b))

-- Go's `<` on strings: lexicographic on the bytes.
unfoldable pub text_lt : Text → Text → Bool
text_lt a [] = false
text_lt [] (b ∷ bs) = true
text_lt (a ∷ as') (b ∷ bs) = ltb a b || ((a == b) && text_lt as' bs)

-- One byte, two bytes or three bytes of UTF-8 that `unicode.IsSpace` accepts.
abbrev space1 : ℕ → Bool
space1 a = (leb 9 a && leb a 13) || (a == 32)

abbrev space2 : ℕ → ℕ → Bool
space2 a b = (a == 0xc2) && ((b == 0x85) || (b == 0xa0))

abbrev space3 : ℕ → ℕ → ℕ → Bool
space3 a b c =
    ((a == 0xe1) && (b == 0x9a) && (c == 0x80))
    || ((a == 0xe2)
        && (b == 0x80)
        && ((leb 0x80 c && leb c 0x8a) || (c == 0xa8) || (c == 0xa9) || (c == 0xaf)))
    || ((a == 0xe2) && (b == 0x81) && (c == 0x9f))
    || ((a == 0xe3) && (b == 0x80) && (c == 0x80))

-- `strings.TrimSpace(s) == ""`: every rune is white space.
unfoldable pub blank : Text → Bool
blank [] = true
blank (a ∷ []) = space1 a
blank (a ∷ b ∷ []) = (space1 a && space1 b) || space2 a b
blank (a ∷ b ∷ c ∷ r) =
    let one = blank (b ∷ c ∷ r) in
    let two = blank (c ∷ r) in
    let three = blank r in
    if space1 a then one else if space2 a b then two else if space3 a b c then three else false

unfoldable pub trim_left : Text → Text
trim_left [] = []
trim_left (a ∷ []) = if space1 a then [] else a ∷ []
trim_left (a ∷ b ∷ []) =
    let one = trim_left (b ∷ []) in if space1 a then one else if space2 a b then [] else a ∷ b ∷ []
trim_left (a ∷ b ∷ c ∷ r) =
    let one = trim_left (b ∷ c ∷ r) in
    let two = trim_left (c ∷ r) in
    let three = trim_left r in
    if space1 a
    then one
    else if space2 a b
    then two
    else if space3 a b c
    then three
    else a ∷ b ∷ c ∷ r

unfoldable pub trim_right : Text → Text
trim_right [] = []
trim_right (a ∷ s) = let rest = trim_right s in if blank (a ∷ s) then [] else a ∷ rest

-- `strings.TrimSpace(s)`.
unfoldable pub trim : Text → Text
trim s = trim_right (trim_left s)
