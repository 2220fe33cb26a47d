-- ===== src/Base/Lists.antt =====
-- Lists measured and indexed by native numbers, Boolean quantifiers, and predicates on lists.
use Prim.Native.Nat.{ℕ, zero, suc, ◌+◌}
use mathlib.Core.Path.{◌≡◌}
use mathlib.Core.Logic.{◌⊎◌, inl, inr}
use mathlib.Core.Bool.{Bool, true, false, ◌&&◌, ◌||◌}
use mathlib.Core.List.{List, [], ◌∷◌, ◌++◌}
use mathlib.Core.Option.{Option, none, some}
use native.Mathlib.Omega.{arith}
use cockroachdbxaws.Base.Tests.{if◌then◌else◌}

module _ {ℓ} {A : Type ℓ} where
  abbrev pub length : List A → ℕ
  length [] = 0
  length (x ∷ xs) = suc (length xs)

  abbrev pub get_elem? : List A → ℕ → Option A
  get_elem? [] i = none
  get_elem? (x ∷ xs) zero = some x
  get_elem? (x ∷ xs) (suc i) = get_elem? xs i

  pub length-append : (xs ys : List A) → length (xs ++ ys) ≡ length xs + length ys
  length-append [] ys = omega arith
  length-append (x ∷ xs) ys = omega (arith, length-append xs ys)

  -- `any` and `all` of the libraries do not run in a test.
  abbrev pub any : (A → Bool) → List A → Bool
  any p [] = false
  any p (x ∷ xs) = p x || any p xs

  abbrev pub all : (A → Bool) → List A → Bool
  all p [] = true
  all p (x ∷ xs) = p x && all p xs

  -- Every element satisfies `P`, by recursion: it computes to a tuple.
  abbrev pub All {κ} : (A → Type κ) → List A → Type κ
  All P [] = Unit
  All P (x ∷ xs) = P x × All P xs

  -- Some element satisfies `P`.
  abbrev pub Any : (A → Type 0) → List A → Type 0
  Any P [] = ⊥
  Any P (x ∷ xs) = P x ⊎ Any P xs

  pub All-map {κ μ} :
      {P : A → Type κ} {Q : A → Type μ}
      → ((x : A) → P x → Q x)
      → (xs : List A) → All P xs
      → All Q xs
  All-map f [] h = tt
  All-map f (x ∷ xs) h = (f x h.0, All-map f xs h.1)

  pub Any-map :
      {P : A → Type 0} {Q : A → Type 0}
      → ((x : A) → P x → Q x)
      → (xs : List A) → Any P xs
      → Any Q xs
  Any-map f [] h = absurd h
  Any-map f (x ∷ xs) h = elim h [ inl a ↦ inl (f x a) | inr t ↦ inr (Any-map f xs t) ]

  pub snoc-All {κ} : (P : A → Type κ) (xs : List A) (x : A) → All P xs → P x → All P (xs ++ x ∷ [])
  snoc-All P [] x a p = (p, tt)
  snoc-All P (y ∷ ys) x a p = (a.0, snoc-All P ys x a.1 p)

  pub snoc-Any : (P : A → Type 0) (xs : List A) (x : A) → Any P xs → Any P (xs ++ x ∷ [])
  snoc-Any P [] x a = absurd a
  snoc-Any P (y ∷ ys) x a = elim a [ inl h ↦ inl h | inr t ↦ inr (snoc-Any P ys x t) ]

  pub snoc-Any_last : (P : A → Type 0) (xs : List A) (x : A) → P x → Any P (xs ++ x ∷ [])
  snoc-Any_last P [] x p = inl p
  snoc-Any_last P (y ∷ ys) x p = inr (snoc-Any_last P ys x p)

  -- The elements that pass, in order.
  unfoldable pub select : (A → Bool) → List A → List A
  select p [] = []
  select p (x ∷ xs) = if p x then x ∷ select p xs else select p xs
