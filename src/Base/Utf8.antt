-- ===== src/Base/Utf8.antt =====
-- UTF-8 as Go decodes it: `utf8.Valid` and the runes of `range string`.
use Prim.Native.Nat.{ℕ, zero, suc, ◌+◌, ◌-◌, ◌*◌}
use mathlib.Core.Bool.{Bool, false, ◌&&◌}
use mathlib.Core.List.{[], ◌∷◌}
use mathlib.Core.Option.{Option, none, some}
use cockroachdbxaws.Base.Tests.{ltb, leb, ◌==◌, if◌then◌else◌}
use cockroachdbxaws.Base.Strings.{Text}

-- What is left of a rune: how many bytes, the bits so far, and the bounds of the next byte.
pub record Pending : Type 0 where
  pub need : ℕ
  pub bits : ℕ
  pub low : ℕ
  pub high : ℕ

abbrev complete : ℕ → Pending
complete bits = record { need = 0; bits = bits; low = 0; high = 0 }

-- The first byte of a rune.
abbrev first_byte : ℕ → Option Pending
first_byte a =
    if ltb a 0x80
    then some (complete a)
    else if ltb a 0xc2
    then none
    else if leb a 0xdf
    then some (record { need = 1; bits = a - 0xc0; low = 0x80; high = 0xbf })
    else if a == 0xe0
    then some (record { need = 2; bits = 0; low = 0xa0; high = 0xbf })
    else if a == 0xed
    then some (record { need = 2; bits = 0xd; low = 0x80; high = 0x9f })
    else if leb a 0xef
    then some (record { need = 2; bits = a - 0xe0; low = 0x80; high = 0xbf })
    else if a == 0xf0
    then some (record { need = 3; bits = 0; low = 0x90; high = 0xbf })
    else if leb a 0xf3
    then some (record { need = 3; bits = a - 0xf0; low = 0x80; high = 0xbf })
    else if a == 0xf4
    then some (record { need = 3; bits = 4; low = 0x80; high = 0x8f })
    else none

abbrev next_byte : Pending → ℕ → Option Pending
next_byte p a =
    if leb p.low a && leb a p.high
    then some
        (record { need = p.need - 1; bits = p.bits * 64 + (a - 0x80); low = 0x80; high = 0xbf })
    else none

abbrev consume : Pending → ℕ → Option Pending
consume p a = elim p.need [ zero ↦ first_byte a | suc n ↦ next_byte p a ]

-- Every rune from the state on passes the test; `false` where the text is not UTF-8.
unfoldable pub all_runes_from : (ℕ → Bool) → Pending → Text → Bool
all_runes_from test p [] = p.need == 0
all_runes_from test p (a ∷ s) = elim (consume p a) [
  | none ↦ false
  | some q ↦ elim q.need [
    | zero ↦ test q.bits && all_runes_from test q s
    | suc n ↦ all_runes_from test q s
  ]
]

-- `utf8.Valid(s)`, and every rune passes the test.
unfoldable pub all_runes : (ℕ → Bool) → Text → Bool
unfolding all_runes_from
all_runes test s = all_runes_from test (complete 0) s
