-- ===== src/Incident/Search/Least.antt =====
-- Go's `sort.Search` on a monotone test.
use cockroachdbxaws.Base.{
  ℕ, zero, suc, ◌+◌, ◌/◌, ◌≤◌, ◌<◌, ◌≡◌, Bool, true, false, inl, inr, arith, Bool-cases, ltb,
  ltb→lt, ltb→le,
}
use cockroachdbxaws.Incident.Search.{search_loop, search}

-- `k` splits the indexes below `n` by the test.
pub record Splits (f : ℕ → Bool) (n k : ℕ) : Type 0 where
  pub within : k ≤ n
  pub below : (i : ℕ) → i < k → f i ≡ false
  pub above : (i : ℕ) → k ≤ i → i < n → f i ≡ true

module _ (f : ℕ → Bool) (n : ℕ) (mono : (i j : ℕ) → i ≤ j → j < n → f i ≡ true → f j ≡ true) where
  not_yet : (h k : ℕ) → f h ≡ false → h < n → k < h + 1 → f k ≡ false
  not_yet h k e l le = elim (Bool-cases (f k)) [
    | inl t ↦ cc (mono k h (omega arith) l t)
    | inr no_k ↦ no_k
  ]

  found : (h k : ℕ) → f h ≡ true → h ≤ k → k < n → f k ≡ true
  found h k e l m = mono h k l m e

  search_loop-Splits :
      (fuel i j : ℕ)
      → i ≤ j
      → j ≤ n
      → j ≤ i + fuel
      → ((k : ℕ) → k < i → f k ≡ false)
      → ((k : ℕ) → j ≤ k → k < n → f k ≡ true)
      → Splits f n (search_loop fuel f i j)
  unfolding search_loop
  search_loop-Splits zero i j ij jn fu lo hi = record {
    within = omega arith;
    below = lo;
    above = λ k p q. hi k (omega arith) q;
  }
  search_loop-Splits (suc fuel) i j ij jn fu lo hi = elim (Bool-cases (ltb i j)) [
    | inr done ↦
        rw (done, search_loop)
          (record {
            within = omega arith;
            below = lo;
            above = λ k p q. hi k (omega (arith, ltb→le i j done)) q;
          })
    | inl more ↦
        let less : i < j = ltb→lt i j more in
        elim (Bool-cases (f ((i + j) / 2))) [
          | inl t ↦
              rw (more, search_loop)
                (rw t (
                  search_loop-Splits fuel i ((i + j) / 2) (omega arith) (omega arith) (omega arith)
                    lo (λ k. found ((i + j) / 2) k t)))
          | inr e ↦
              rw (more, search_loop)
                (rw e (
                  search_loop-Splits fuel ((i + j) / 2 + 1) j (omega arith) jn (omega arith)
                    (λ k. not_yet ((i + j) / 2) k e (omega arith)) hi))
        ]
  ]

  pub search-Splits : Splits f n (search n f)
  unfolding search
  search-Splits =
      search_loop-Splits n 0 n (omega arith) (omega arith) (omega arith)
        (λ k p. absurd (omega arith)) (λ k p q. absurd (omega arith))
