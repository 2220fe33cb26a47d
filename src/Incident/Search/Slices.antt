-- ===== src/Incident/Search/Slices.antt =====
-- Searching and inserting in a slice, against recursion on the list.
use cockroachdbxaws.Base.{
  ℕ, zero, suc, ◌≤◌, ◌<◌, ◌≡◌, Bool, true, false, inl, inr, List, [], ◌∷◌, length, All, arith,
  Bool-cases, dec_lt, if◌then◌else◌,
}
use mathlib.Core.List.{Perm}
use mathlib.Core.List.Perm
use cockroachdbxaws.Incident.Search.{test_at, search_slice, insert_at}
use cockroachdbxaws.Incident.Search.Least.{Splits, search-Splits}

Splits-unique : (f : ℕ → Bool) (n k l : ℕ) → Splits f n k → Splits f n l → k ≡ l
Splits-unique f n k l a b = elim (dec_lt k l) [
  | yes less ↦ cc (b.below k less, a.above k (omega arith) (omega (arith, b.within)))
  | no not_less ↦ elim (dec_lt l k) [
    | yes less ↦ cc (a.below l less, b.above l (omega arith) (omega (arith, a.within)))
    | no same ↦ omega arith
  ]
]

module _ {ℓ} {A : Type ℓ} where
  -- The index of the first element that passes, or the length.
  unfoldable pub first_index : (A → Bool) → List A → ℕ
  first_index p [] = 0
  first_index p (x ∷ xs) = if p x then 0 else suc (first_index p xs)

  -- Once an element passes, all after it do.
  abbrev pub Monotone : (A → Bool) → List A → Type ℓ
  Monotone p [] = Unit
  Monotone p (x ∷ xs) = (p x ≡ true → All (λ y. p y ≡ true) xs) × Monotone p xs

  All-at :
      (p : A → Bool) (xs : List A) (i : ℕ)
      → All (λ y. p y ≡ true) xs
      → i < length xs
      → test_at p xs i ≡ true
  unfolding test_at
  All-at p [] i a l = absurd (omega arith)
  All-at p (x ∷ xs) zero a l = a.0
  All-at p (x ∷ xs) (suc i) a l = All-at p xs i a.1 (omega arith)

  Monotone-at :
      (p : A → Bool) (xs : List A) (i j : ℕ)
      → Monotone p xs
      → i ≤ j
      → j < length xs
      → test_at p xs i ≡ true
      → test_at p xs j ≡ true
  unfolding test_at
  Monotone-at p [] i j m ij jn t = absurd (omega arith)
  Monotone-at p (x ∷ xs) zero zero m ij jn t = t
  Monotone-at p (x ∷ xs) zero (suc j) m ij jn t = All-at p xs j (m.0 t) (omega arith)
  Monotone-at p (x ∷ xs) (suc i) zero m ij jn t = absurd (omega arith)
  Monotone-at p (x ∷ xs) (suc i) (suc j) m ij jn t =
      Monotone-at p xs i j m.1 (omega arith) (omega arith) t

  below_suc :
      (p : A → Bool) (x : A) (xs : List A) (k i : ℕ)
      → p x ≡ false
      → ((j : ℕ) → j < k → test_at p xs j ≡ false)
      → i < suc k
      → test_at p (x ∷ xs) i ≡ false
  unfolding test_at
  below_suc p x xs k zero e h l = e
  below_suc p x xs k (suc i) e h l = h i (omega arith)

  above_suc :
      (p : A → Bool) (x : A) (xs : List A) (k i : ℕ)
      → ((j : ℕ) → k ≤ j → j < length xs → test_at p xs j ≡ true)
      → suc k ≤ i
      → i < suc (length xs)
      → test_at p (x ∷ xs) i ≡ true
  unfolding test_at
  above_suc p x xs k zero h l m = absurd (omega arith)
  above_suc p x xs k (suc i) h l m = h i (omega arith) (omega arith)

  first_index-Splits :
      (p : A → Bool) (xs : List A)
      → Monotone p xs
      → Splits (test_at p xs) (length xs) (first_index p xs)
  unfolding first_index test_at
  first_index-Splits p [] m = record {
    within = omega arith;
    below = λ i l. absurd (omega arith);
    above = λ i k l. absurd (omega arith);
  }
  first_index-Splits p (x ∷ xs) m = elim (Bool-cases (p x)) [
    | inl t ↦ rw t (record {
      within = omega arith;
      below = λ i l. absurd (omega arith);
      above = λ i k l. Monotone-at p (x ∷ xs) 0 i m k l t;
    })
    | inr e ↦
        let ih = first_index-Splits p xs m.1 in
        rw e (record {
          within = omega (arith, ih.within);
          below = λ i l. below_suc p x xs (first_index p xs) i e ih.below l;
          above = λ i k l. above_suc p x xs (first_index p xs) i ih.above k l;
        })
  ]

  -- The binary search agrees with the linear one on a slice where the test is monotone.
  pub search_slice_lem :
      (p : A → Bool) (xs : List A) → Monotone p xs → search_slice p xs ≡ first_index p xs
  unfolding search_slice
  search_slice_lem p xs m =
      Splits-unique (test_at p xs) (length xs) _ _
        (search-Splits (test_at p xs) (length xs) (λ i j. Monotone-at p xs i j m))
        (first_index-Splits p xs m)

  pub insert_at-perm : (i : ℕ) (x : A) (xs : List A) → Perm (insert_at i x xs) (x ∷ xs)
  unfolding insert_at
  insert_at-perm zero x xs = Perm.refl _
  insert_at-perm (suc i) x [] = Perm.refl _
  insert_at-perm (suc i) x (y ∷ ys) =
      Perm.trans (Perm.cons y (insert_at-perm i x ys)) (Perm.swap x y ys)

  pub insert_at-All :
      (P : A → Type 0) (i : ℕ) (x : A) (xs : List A) → P x → All P xs → All P (insert_at i x xs)
  unfolding insert_at
  insert_at-All P zero x xs h a = (h, a)
  insert_at-All P (suc i) x [] h a = (h, tt)
  insert_at-All P (suc i) x (y ∷ ys) h a = (a.0, insert_at-All P i x ys h a.1)
