-- ===== src/Journal/Mutation/Overlay.antt =====
-- journal/journal.go, `commitMutation`: what the store reads after a commit.
use cockroachdbxaws.Base.{
  ℕ, ◌<◌, ◌^◌, length, ◌≡◌, refl, subst, sym, ap, ◌∙◌, inl, inr, Text, text_eq, text_eq→eq,
  text_eq_refl, text_lt, Bool, true, false, List, [], ◌∷◌, ◌++◌, All, Option, none, some, lookup,
  store, Bool-cases, Option-cases, if◌then◌else◌, arith,
}
use cockroachdbxaws.Journal.Results.{ok}
use cockroachdbxaws.Journal.Keys.{key_usage, key_priority}
use cockroachdbxaws.Journal.State.{Found, missing, found, World, Surroundings, Journal}
use cockroachdbxaws.Journal.Mutation.{
  Mutation, insert_op, sorted_ops, mutation_get, commit_mutation, apply_writes,
}
use cockroachdbxaws.Journal.Mutation.Effects.{commit_mutation_cases, prepare_commit-Decided}

pub text_eq_comm : (a b : Text) → text_eq a b ≡ text_eq b a
unfolding text_eq
text_eq_comm [] [] = refl
text_eq_comm [] (b ∷ bs) = refl
text_eq_comm (a ∷ as') [] = refl
text_eq_comm (a ∷ as') (b ∷ bs) = ground (arith, text_eq_comm as' bs)

abbrev pub answer : Option Text → Found
answer none = missing
answer (some v) = found v

-- What a key reads after writes in order, from what it read before them.
abbrev pub written : Text → List (Text × Option Text) → Found → Found
written k [] f = f
written k (e ∷ es) f = written k es (if text_eq e.0 k then answer e.1 else f)

-- No entry has the key.
abbrev pub Absent : Text → List (Text × Option Text) → Type 0
Absent k es = All (λ (e : Text × Option Text). text_eq e.0 k ≡ false) es

abbrev pub Distinct : List (Text × Option Text) → Type 0
Distinct [] = Unit
Distinct (e ∷ es) = Absent e.0 es × Distinct es

written-Absent :
    (k : Text) (es : List (Text × Option Text)) (f : Found) → Absent k es → written k es f ≡ f
written-Absent k [] f a = refl
written-Absent k (e ∷ es) f a = rw (a.0) (written-Absent k es f a.1)

Absent-insert_op :
    (k : Text) (e : Text × Option Text) (xs : List (Text × Option Text))
    → text_eq e.0 k ≡ false
    → Absent k xs
    → Absent k (insert_op e xs)
unfolding insert_op
Absent-insert_op k e [] h a = (h, tt)
Absent-insert_op k e (x ∷ xs) h a = elim (Bool-cases (text_lt x.0 e.0)) [
  | inl before ↦ rw before (a.0, Absent-insert_op k e xs h a.1)
  | inr after ↦ rw after (h, a)
]

Absent-sorted_ops :
    (k : Text) (es : List (Text × Option Text)) → Absent k es → Absent k (sorted_ops es)
unfolding sorted_ops
Absent-sorted_ops k [] a = tt
Absent-sorted_ops k (e ∷ es) a =
    Absent-insert_op k e (sorted_ops es) a.0 (Absent-sorted_ops k es a.1)

-- Two writes to different keys may change places.
swap :
    (k a b : Text) (v u : Option Text) (f : Found)
    → text_eq b a ≡ false
    → Path Found
        (if text_eq a k then answer v else if text_eq b k then answer u else f)
        (if text_eq b k then answer u else if text_eq a k then answer v else f)
swap k a b v u f h = elim (Bool-cases (text_eq a k)) [
  | inr n ↦ rw n refl
  | inl same ↦ elim (Bool-cases (text_eq b k)) [
    | inr n ↦ rw (same, n) refl
    | inl too ↦
        let equal : b ≡ a = text_eq→eq b k too ∙ sym (text_eq→eq a k same) in
        let clash : text_eq a a ≡ false = rw equal at h in
        absurd (ground (arith, text_eq_refl a, clash))
  ]
]

written-insert_op :
    (k : Text) (e : Text × Option Text) (xs : List (Text × Option Text)) (f : Found)
    → Absent e.0 xs
    → written k (insert_op e xs) f ≡ written k (e ∷ xs) f
unfolding insert_op
written-insert_op k e [] f a = refl
written-insert_op k e (x ∷ xs) f a = elim (Bool-cases (text_lt x.0 e.0)) [
  | inl before ↦ rw before (
      written-insert_op k e xs (if text_eq x.0 k then answer x.1 else f) a.1
      ∙ ap (λ (g : Found). written k xs g) (swap k e.0 x.0 e.1 x.1 f a.0))
  | inr after ↦ rw after refl
]

written-sorted_ops :
    (k : Text) (es : List (Text × Option Text)) (f : Found)
    → Distinct es
    → written k (sorted_ops es) f ≡ written k es f
unfolding sorted_ops
written-sorted_ops k [] f d = refl
written-sorted_ops k (e ∷ es) f d =
    written-insert_op k e (sorted_ops es) f (Absent-sorted_ops e.0 es d.0)
    ∙ written-sorted_ops k es (if text_eq e.0 k then answer e.1 else f) d.1

abbrev pub answer_or : Option (Option Text) → Found → Found
answer_or none f = f
answer_or (some v) f = answer v

-- What the changes alone say of a key, over what the store says.
abbrev pub overlay : Text → List (Text × Option Text) → Found → Found
overlay k es f = answer_or (lookup k es) f

lookup-none : (k : Text) → lookup {A = Option Text} k [] ≡ none
unfolding lookup
lookup-none k = refl

lookup-head :
    (k : Text) (e : Text × Option Text) (es : List (Text × Option Text))
    → text_eq e.0 k ≡ true
    → lookup k (e ∷ es) ≡ some e.1
unfolding lookup
lookup-head k e es h = rw h refl

lookup-tail :
    (k : Text) (e : Text × Option Text) (es : List (Text × Option Text))
    → text_eq e.0 k ≡ false
    → lookup k (e ∷ es) ≡ lookup k es
unfolding lookup
lookup-tail k e es h = rw h refl

written-overlay :
    (k : Text) (es : List (Text × Option Text)) (f : Found)
    → Distinct es
    → written k es f ≡ overlay k es f
written-overlay k [] f d = rw (lookup-none k) refl
written-overlay k (e ∷ es) f d = elim (Bool-cases (text_eq e.0 k)) [
  | inr n ↦ rw (lookup-tail k e es n) (rw n (written-overlay k es f d.1))
  | inl same ↦ rw (lookup-head k e es same) (
      rw same (
        written-Absent k es (answer e.1)
          (subst (λ (t : Text). Absent t es) (text_eq→eq e.0 k same) d.0)))
]

Absent-store :
    (k key : Text) (v : Option Text) (es : List (Text × Option Text))
    → text_eq key k ≡ false
    → Absent k es
    → Absent k (store key v es)
unfolding store
Absent-store k key v [] h a = (h, tt)
Absent-store k key v (e ∷ es) h a = elim (Bool-cases (text_eq e.0 key)) [
  | inl same ↦ rw same a
  | inr other ↦ rw other (a.0, Absent-store k key v es h a.1)
]

pub store-Distinct :
    (key : Text) (v : Option Text) (es : List (Text × Option Text))
    → Distinct es
    → Distinct (store key v es)
unfolding store
store-Distinct key v [] d = (tt, tt)
store-Distinct key v (e ∷ es) d = elim (Bool-cases (text_eq e.0 key)) [
  | inl same ↦ rw same d
  | inr other ↦
      rw other
        (Absent-store e.0 key v es (text_eq_comm key e.0 ∙ other) d.0, store-Distinct key v es d.1)
]

-- A change of one key leaves what the changes say of another.
pub lookup-store_other :
    {A : Type 0} (k key : Text) (v : A) (es : List (Text × A))
    → text_eq key k ≡ false
    → lookup k (store key v es) ≡ lookup k es
unfolding lookup store
lookup-store_other k key v [] h = rw h refl
lookup-store_other {A = A} k key v (e ∷ es) h = elim (Bool-cases (text_eq e.0 key)) [
  | inl same ↦
      let other : text_eq e.0 k ≡ false = rw (text_eq→eq e.0 key same) h in
      rw (same, store) (rw other refl)
  | inr other ↦
      rw (other, store)
        (ap (λ (o : Option A). if text_eq e.0 k then some e.1 else o)
          (lookup-store_other k key v es h))
]

-- What the store promises: after a batch that it took, a key reads the last write to it. Its values are
-- bytes, and a machine can count them.
pub record StoreLaws {S : Type 0} (w : World S) : Type 0 where
  pub reads :
      (db : S) (ops : List (Text × Option Text)) (k : Text)
      → (w.write db ops).0 ≡ true
      → w.get (w.write db ops).1 k ≡ written k ops (w.get db k)
  pub values :
      (db : S) (k v : Text) → w.get db k ≡ found v → All (λ b. b < 256) v × (length v < 2 ^ 64)

module _ {S : Type 0} (w : World S) (laws : StoreLaws w) where
  written-counters :
      (k : Text) (ops : List (Text × Option Text)) (a b : Text) (f : Found)
      → text_eq key_usage k ≡ false
      → text_eq key_priority k ≡ false
      → written k (ops ++ (key_usage, some a) ∷ (key_priority, some b) ∷ []) f ≡ written k ops f
  written-counters k [] a b f h i = rw (h, i) refl
  written-counters k (e ∷ es) a b f h i =
      written-counters k es a b (if text_eq e.0 k then answer e.1 else f) h i

  apply_writes-done :
      (j : Journal S) (plan : List (Text × Option Text) × ℕ × List ℕ)
      → (apply_writes w j plan).0 ≡ ok tt
      → (w.write j.db plan.0).0 ≡ true
  unfolding apply_writes
  apply_writes-done j plan o = elim (Bool-cases (w.write j.db plan.0).0) [
    | inl done ↦ done
    | inr undone ↦ let o1 = rw undone at o in absurd (ground arith)
  ]

  apply_writes-db :
      (j : Journal S) (plan : List (Text × Option Text) × ℕ × List ℕ)
      → (w.write j.db plan.0).0 ≡ true
      → (apply_writes w j plan).1.db ≡ (w.write j.db plan.0).1
  unfolding apply_writes
  apply_writes-db j plan done = rw done refl

  pub mutation_get_lem :
      (db : S) (m : Mutation) (k : Text) → mutation_get w db m k ≡ overlay k m.ops (w.get db k)
  unfolding mutation_get
  mutation_get_lem db m k = elim (Option-cases (lookup k m.ops)) [
    | inl n ↦ rw (n, mutation_get) refl
    | inr (none, s) ↦ rw (s, mutation_get) refl
    | inr (some v, s) ↦ rw (s, mutation_get) refl
  ]

  -- After a commit that succeeds, every key but the two counters reads what the collected changes say of
  -- it, or what it read before if they say nothing. The store reads the last write to a key, and the
  -- changes have one entry for a key.
  pub commit_mutation-reads :
      (u : Surroundings) (j : Journal S) (m : Mutation) (c : Bool) (k : Text)
      → Distinct m.ops
      → text_eq key_usage k ≡ false
      → text_eq key_priority k ≡ false
      → (commit_mutation w u j m c).0 ≡ ok tt
      → w.get (commit_mutation w u j m c).1.db k ≡ mutation_get w j.db m k
  unfolding mutation_get lookup
  commit_mutation-reads u j m c k d h i =
      commit_mutation_cases w u j m c (λ r. r.0 ≡ ok tt → w.get r.1.db k ≡ mutation_get w j.db m k)
        (λ n o. rw n refl) (λ e f o. absurd (ground arith))
        (λ plan f o.
          let decided = prepare_commit-Decided w u j m c plan f in
          let done : (w.write j.db plan.0).0 ≡ true = apply_writes-done j plan o in
          rw (apply_writes-db j plan done) (
            laws.reads j.db plan.0 k done
            ∙ ap (λ (ops : List (Text × Option Text)). written k ops (w.get j.db k)) decided.written
            ∙ written-counters k (sorted_ops m.ops) _ _ (w.get j.db k) h i
            ∙ written-sorted_ops k m.ops (w.get j.db k) d
            ∙ written-overlay k m.ops (w.get j.db k) d
            ∙ sym (mutation_get_lem j.db m k)))
