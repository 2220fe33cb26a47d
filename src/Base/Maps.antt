-- ===== src/Base/Maps.antt =====
-- A Go map with string keys: an association list with one entry for a key.
use mathlib.Core.Path.{◌≡◌, refl}
use mathlib.Core.Logic.{inl, inr}
use mathlib.Core.Bool.{true}
use mathlib.Core.List.{List, [], ◌∷◌}
use mathlib.Core.Option.{Option, none, some}
use cockroachdbxaws.Base.Tests.{Bool-cases, if◌then◌else◌}
use cockroachdbxaws.Base.Strings.{Text, text_eq}

module _ {ℓ} {A : Type ℓ} where
  -- `v, ok := m[key]`.
  unfoldable pub lookup : Text → List (Text × A) → Option A
  lookup key [] = none
  lookup key (e ∷ es) = if text_eq e.0 key then some e.1 else lookup key es

  -- `m[key] = v`.
  unfoldable pub store : Text → A → List (Text × A) → List (Text × A)
  store key v [] = (key, v) ∷ []
  store key v (e ∷ es) = if text_eq e.0 key then (e.0, v) ∷ es else e ∷ store key v es

  -- `delete(m, key)`.
  unfoldable pub delete : Text → List (Text × A) → List (Text × A)
  delete key [] = []
  delete key (e ∷ es) = if text_eq e.0 key then delete key es else e ∷ delete key es

  pub lookup-store :
      (key : Text) (v : A) (m : List (Text × A))
      → text_eq key key ≡ true
      → lookup key (store key v m) ≡ some v
  unfolding lookup store
  lookup-store key v [] r = rw r refl
  lookup-store key v (e ∷ es) r = elim (Bool-cases (text_eq e.0 key)) [
    | inl same ↦ rw same (rw same refl)
    | inr other ↦ rw other (rw other (lookup-store key v es r))
  ]
