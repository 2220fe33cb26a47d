-- ===== src/Journal/Results.antt =====
-- journal/types.go: the errors of the journal as values, and chains of steps that may fail.
use cockroachdbxaws.Base.{◌≡◌, ◌⊎◌, inl, inr, refl, ap, Bool, true, false, not, Option, none, some}

-- `decode_failure` is the package's own `errDecode`, and `store_failure` any error of the store; both are
-- internal to the package. `corrupted` is what `return j.corrupt()` gives and `corruption` what
-- `return ErrCorruption` gives: one error to a caller, and only the first marks the journal.
pub data JournalError : Type 0 where
  invalid_input capacity duplicate_conflict not_healthy corruption corrupted stale_claim closed :
      JournalError
  incompatible_format owner_mismatch boundary_mismatch : JournalError
  decode_failure store_failure : JournalError

-- A Go pair of a value and an error, of which exactly one means something.
pub data Result {ℓ} (A : Type ℓ) : Type ℓ where
  err : JournalError → Result A
  ok : A → Result A

-- `if refused { return e }`.
abbrev pub refuse : Bool → JournalError → Result (Unit {0})
refuse true e = err e
refuse false e = ok tt

-- What follows a step, where the step gave a value.
infixl 5 ◌>>=◌
abbrev pub ◌>>=◌ {κ ℓ} : {B : Type κ} {A : Type ℓ} → Result A → (A → Result B) → Result B
err reason >>= next = err reason
ok value >>= next = next value

infixl 5 ◌>>◌
abbrev pub ◌>>◌ {ℓ} : {A : Type ℓ} → Result (Unit {0}) → Result A → Result A
check >> later = check >>= λ passed. later

-- `if !ok { return e }` after a call that answers with `ok`.
abbrev pub present {ℓ} : {A : Type ℓ} → Option A → JournalError → Result A
present none e = err e
present (some a) e = ok a

-- `if err != nil { return e }`.
abbrev pub relabel {ℓ} : {A : Type ℓ} → JournalError → Result A → Result A
relabel e (ok a) = ok a
relabel e (err d) = err e

-- A chain that gives a value has a first step that gave one.
pub >>=-ok {κ ℓ} :
    {B : Type κ} {A : Type ℓ} (step : Result A) (next : A → Result B) {b : B}
    → (step >>= next) ≡ ok b
    → (value : A) × (step ≡ ok value) × (next value ≡ ok b)
>>=-ok (err reason) next h = cc
>>=-ok (ok value) next h = (value, refl, h)

pub refuse-ok : (b : Bool) (e : JournalError) {u : Unit {0}} → refuse b e ≡ ok u → b ≡ false
refuse-ok true e h = cc
refuse-ok false e h = refl

pub Result-cases {ℓ} :
    {A : Type ℓ} (r : Result A) → ((e : JournalError) × (r ≡ err e)) ⊎ ((a : A) × (r ≡ ok a))
Result-cases (err e) = inl (e, refl)
Result-cases (ok a) = inr (a, refl)

pub ok-injective {ℓ} : {A : Type ℓ} {a b : A} → Path (Result A) (ok a) (ok b) → a ≡ b
ok-injective {A = A} {a = a} h = ap {A = Result A} {B = A} (λ r. elim r [ ok x ↦ x | err e ↦ a ]) h

pub relabel-ok {ℓ} :
    {A : Type ℓ} (e : JournalError) (r : Result A) {a : A} → relabel e r ≡ ok a → r ≡ ok a
relabel-ok e (ok a) h = h
relabel-ok e (err d) h = cc

pub present-ok {ℓ} :
    {A : Type ℓ} (o : Option A) (e : JournalError) {a : A} → present o e ≡ ok a → o ≡ some a
present-ok none e h = cc
present-ok {A = A} (some x) e h = ap {A = A} {B = Option A} (λ y. some y) (ok-injective h)

pub not-false : {b : Bool} → not b ≡ false → b ≡ true
not-false {b = true} h = refl
not-false {b = false} h = cc

pub some-injective : {A : Type 0} {a b : A} → Path (Option A) (some a) (some b) → a ≡ b
some-injective {A = A} {a = a} h =
    ap {A = Option A} {B = A} (λ o. elim o [ some x ↦ x | none ↦ a ]) h
