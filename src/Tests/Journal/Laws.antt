-- ===== src/Tests/Journal/Laws.antt =====
-- The store of the examples keeps what internal/journal relies on.
use cockroachdbxaws.Base.{
  ◌^◌, ◌<◌, ◌≡◌, refl, subst, ◌∙◌, ap, inl, inr, Text, text_eq, text_eq→eq, text_eq_refl, true,
  false, List, [], ◌∷◌, All, all, Option, none, some, length, lookup, store, delete, lookup-store,
  Bool-cases, Option-cases, if◌then◌else◌, ltb, ltb→lt, arith,
}
use cockroachdbxaws.Journal.State.{Found, failed, missing, found}
use cockroachdbxaws.Journal.Mutation.Overlay.{StoreLaws, written, lookup-store_other}
use cockroachdbxaws.Tests.Journal.{
  Entries, is_value, is_write, read, write, apply_ops, world, repeat, digest,
}

lookup-delete : (k : Text) (db : Entries) → lookup k (delete k db) ≡ none
unfolding lookup delete
lookup-delete k [] = refl
lookup-delete k (e ∷ es) = elim (Bool-cases (text_eq e.0 k)) [
  | inl same ↦ rw same (lookup-delete k es)
  | inr other ↦ rw other (rw other (lookup-delete k es))
]

lookup-delete_other :
    (k key : Text) (db : Entries) → text_eq key k ≡ false → lookup k (delete key db) ≡ lookup k db
unfolding lookup delete
lookup-delete_other k key [] h = refl
lookup-delete_other k key (e ∷ es) h = elim (Bool-cases (text_eq e.0 key)) [
  | inl same ↦
      let other : text_eq e.0 k ≡ false = rw (text_eq→eq e.0 key same) h in
      rw (same, delete) (rw other (lookup-delete_other k key es h))
  | inr other ↦
      rw (other, delete)
        (ap (λ (o : Option Text). if text_eq e.0 k then some e.1 else o)
          (lookup-delete_other k key es h))
]

read-delete :
    (k key : Text) (db : Entries)
    → read (delete key db) k ≡ (if text_eq key k then missing else read db k)
read-delete k key db = elim (Bool-cases (text_eq key k)) [
  | inl same ↦ rw same (rw (text_eq→eq key k same) (rw (lookup-delete k db) refl))
  | inr other ↦ rw other (rw (lookup-delete_other k key db other) refl)
]

read-store :
    (k key v : Text) (db : Entries)
    → is_value v ≡ true
    → read (store key v db) k ≡ (if text_eq key k then found v else read db k)
read-store k key v db h = elim (Bool-cases (text_eq key k)) [
  | inl same ↦
      rw same (rw (text_eq→eq key k same) (rw (lookup-store k v db (text_eq_refl k)) (rw h refl)))
  | inr other ↦ rw other (rw (lookup-store_other k key v db other) refl)
]

read-apply_ops :
    (k : Text) (ops : List (Text × Option Text)) (db : Entries)
    → all is_write ops ≡ true
    → read (apply_ops ops db) k ≡ written k ops (read db k)
unfolding apply_ops
read-apply_ops k [] db h = refl
read-apply_ops k ((key, none) ∷ ops) db h =
    read-apply_ops k ops (delete key db) h
    ∙ ap (λ (f : Found). written k ops f) (read-delete k key db)
read-apply_ops k ((key, some v) ∷ ops) db h =
    read-apply_ops k ops (store key v db) (ground arith)
    ∙ ap (λ (f : Found). written k ops f) (read-store k key v db (ground arith))

pub all-All : (v : Text) → all (λ b. ltb b 256) v ≡ true → All (λ b. b < 256) v
all-All [] h = tt
all-All (b ∷ bs) h = (ltb→lt b 256 (ground arith), all-All bs (ground arith))

pub digest-size : (t : Text) → length (digest t) ≡ 32
unfolding repeat
digest-size t = refl

found-injective : {a b : Text} → found a ≡ found b → a ≡ b
found-injective {a = a} h =
    ap {A = Found} {B = Text} (λ f. elim f [ found x ↦ x | missing ↦ a | failed ↦ a ]) h

write-read :
    (db : Entries) (ops : List (Text × Option Text)) (k : Text)
    → (write db ops).0 ≡ true
    → read (write db ops).1 k ≡ written k ops (read db k)
write-read db ops k h = elim (Bool-cases (all is_write ops)) [
  | inl fine ↦ rw fine (read-apply_ops k ops db fine)
  | inr bad ↦ let h1 = rw bad at h in absurd (ground arith)
]

read-value :
    (db : Entries) (k v : Text) → read db k ≡ found v → All (λ b. b < 256) v × (length v < 2 ^ 64)
read-value db k v h = elim (Option-cases (lookup k db)) [
  | inl n ↦ let h1 = rw (n, read) at h in absurd (ground arith)
  | inr (x, s) ↦
      let h1 = rw (s, read) at h in
      elim (Bool-cases (is_value x)) [
        | inr bad ↦ let h2 = rw bad at h1 in absurd (ground arith)
        | inl fine ↦
            let h2 = rw fine at h1 in
            subst (λ (y : Text). All (λ b. b < 256) y × (length y < 2 ^ 64)) (found-injective h2)
              (all-All x (ground arith), ltb→lt (length x) (2 ^ 64) (ground arith))
      ]
]

pub world-StoreLaws : StoreLaws world
world-StoreLaws = record { reads = write-read; values = read-value }
