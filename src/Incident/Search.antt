-- ===== src/Incident/Search.antt =====
-- Go's `sort.Search`: the binary search that every window count and every insertion uses.
use cockroachdbxaws.Base.{
  ℕ, zero, suc, ◌+◌, ◌/◌, Bool, true, false, List, [], ◌∷◌, none, some, length, get_elem?, ltb,
}
pub mod Least
pub mod Slices

-- The loop `for i < j { h := (i+j)/2; if !f(h) { i = h + 1 } else { j = h } }`, with fuel.
unfoldable pub search_loop : ℕ → (ℕ → Bool) → ℕ → ℕ → ℕ
search_loop zero f i j = i
search_loop (suc fuel) f i j =
    let h = (i + j) / 2 in
    elim (ltb i j) [
      | false ↦ i
      | true ↦ elim (f h) [ true ↦ search_loop fuel f i h | false ↦ search_loop fuel f (h + 1) j ]
    ]

-- `sort.Search(n, f)`: the interval halves, so `n` rounds are enough.
unfoldable pub search : ℕ → (ℕ → Bool) → ℕ
unfolding search_loop
search n f = search_loop n f 0 n

module _ {ℓ} {A : Type ℓ} where
  -- A test of the element at an index; the search asks only below the length.
  unfoldable pub test_at : (A → Bool) → List A → ℕ → Bool
  test_at p xs i = elim (get_elem? xs i) [ none ↦ false | some x ↦ p x ]

  -- `sort.Search(len(xs), func(i int) bool { return p(xs[i]) })`.
  unfoldable pub search_slice : (A → Bool) → List A → ℕ
  search_slice p xs = search (length xs) (test_at p xs)

  -- `xs = append(xs, zero); copy(xs[index+1:], xs[index:]); xs[index] = x`, for an index up to the
  -- length.
  unfoldable pub insert_at : ℕ → A → List A → List A
  insert_at zero x xs = x ∷ xs
  insert_at (suc i) x [] = x ∷ []
  insert_at (suc i) x (y ∷ ys) = y ∷ insert_at i x ys
