-- ===== src/Incident/Evidence/Known.antt =====
-- incident.go, `indexLocations`: the contributing records in the index of the identities.
use cockroachdbxaws.Base.{
  ℕ, zero, suc, ◌≡◌, refl, Text, text_eq, text_eq_refl, text_eq→eq, true, List, [], ◌∷◌, some, inl,
  inr, arith, Bool-cases, Option-cases, lookup, lookup-store, store,
}
use cockroachdbxaws.Incident.Logs.{NormalizedLog, deployment_id}
use cockroachdbxaws.Incident.Generation.{Generation, has_log}
use cockroachdbxaws.Incident.Family.{
  Family, EvidenceRecord, RecordLocation, generation_for_evidence,
}
use cockroachdbxaws.Incident.Episodes.Membership.{Contains}
use cockroachdbxaws.Incident.Evidence.{
  Seen, attach_to, attach_at, attach_one, attach_each, detach_all, attach_retained_evidence,
  index_evidence, index_records, index_generations, index_locations,
}

abbrev pub Known : Text → Seen → Type 0
Known id seen = (location : RecordLocation) × (lookup id seen ≡ some location)

pub store-Known_new : (id : Text) (v : RecordLocation) (seen : Seen) → Known id (store id v seen)
store-Known_new id v seen = (v, lookup-store id v seen (text_eq_refl id))

pub store-Known :
    (id key : Text) (v : RecordLocation) (seen : Seen) → Known id seen → Known id (store key v seen)
unfolding lookup store
store-Known id key v [] k = absurd (cc (k.1))
store-Known id key v (e ∷ es) k = elim (Bool-cases (text_eq e.0 key)) [
  | inl here ↦ rw here (elim (Bool-cases (text_eq e.0 id)) [
    | inl found ↦ (v, rw found refl)
    | inr other ↦ (k.0, rw other (cc (k.1, other)))
  ])
  | inr there ↦ rw there (elim (Bool-cases (text_eq e.0 id)) [
    | inl found ↦ (e.1, rw found refl)
    | inr other ↦
        let rest = store-Known id key v es (k.0, cc (k.1, other)) in (rest.0, rw other rest.1)
  ])
]

pub index_evidence-Known :
    (id fid : Text) (gs : List Generation) (es : List EvidenceRecord) (seen : Seen)
    → Known id seen
    → Known id (index_evidence fid gs es seen)
unfolding index_evidence
index_evidence-Known id fid gs [] seen k = k
index_evidence-Known id fid gs (e ∷ es) seen k =
    index_evidence-Known id fid gs es _ (store-Known id e.log.record_id _ seen k)

index_records-Known :
    (id fid : Text) (n : ℕ) (rs : List NormalizedLog) (seen : Seen)
    → Known id seen
    → Known id (index_records fid n rs seen)
unfolding index_records
index_records-Known id fid n [] seen k = k
index_records-Known id fid n (r ∷ rs) seen k =
    index_records-Known id fid n rs _ (store-Known id r.record_id _ seen k)

index_records-Known_new :
    (id fid : Text) (n : ℕ) (rs : List NormalizedLog) (seen : Seen)
    → has_log id rs ≡ true
    → Known id (index_records fid n rs seen)
unfolding index_records has_log
index_records-Known_new id fid n [] seen h = cc
index_records-Known_new id fid n (r ∷ rs) seen h = elim (Bool-cases (text_eq r.record_id id)) [
  | inl here ↦
      index_records-Known id fid n rs _ (rw (text_eq→eq _ _ here) (store-Known_new id _ seen))
  | inr there ↦ index_records-Known_new id fid n rs _ (cc (h, there))
]

index_generations-Known :
    (id fid : Text) (gs : List Generation) (seen : Seen)
    → Known id seen
    → Known id (index_generations fid gs seen)
unfolding index_generations
index_generations-Known id fid [] seen k = k
index_generations-Known id fid (g ∷ gs) seen k =
    index_generations-Known id fid gs _ (index_records-Known id fid g.number g.records seen k)

index_generations-Known_new :
    (id fid : Text) (gs : List Generation) (seen : Seen)
    → Contains id gs
    → Known id (index_generations fid gs seen)
unfolding index_generations
index_generations-Known_new id fid [] seen c = absurd c
index_generations-Known_new id fid (g ∷ gs) seen (inl h) =
    index_generations-Known id fid gs _ (index_records-Known_new id fid g.number g.records seen h)
index_generations-Known_new id fid (g ∷ gs) seen (inr c) = index_generations-Known_new id fid gs _ c

-- Republishing the locations of a family makes each of its contributing records known.
pub index_locations-Known :
    (id : Text) (f : Family) (seen : Seen)
    → Contains id f.generations
    → Known id (index_locations f seen)
unfolding index_locations
index_locations-Known id f seen c =
    index_evidence-Known id f.id f.generations f.evidence _
      (index_generations-Known_new id f.id f.generations seen c)

attach_at-Contains :
    (id : Text) (i : ℕ) (r : NormalizedLog) (gs : List Generation)
    → Contains id gs
    → Contains id (attach_at i r gs)
unfolding attach_at attach_to
attach_at-Contains id i r [] c = absurd c
attach_at-Contains id zero r (g ∷ gs) c = c
attach_at-Contains id (suc i) r (g ∷ gs) (inl h) = inl h
attach_at-Contains id (suc i) r (g ∷ gs) (inr c) = inr (attach_at-Contains id i r gs c)

attach_one-Contains :
    (id : Text) (e : EvidenceRecord) (gs : List Generation)
    → Contains id gs
    → Contains id (attach_one e gs)
unfolding attach_one
attach_one-Contains id e gs c =
    elim (Option-cases (generation_for_evidence gs (deployment_id e.log) e.log.event_time)) [
      | inl none' ↦ rw (none', attach_one) c
      | inr some' ↦
          rw (some'.1, attach_one)
            (elim (Bool-cases e.attach) [
              | inl a ↦ rw a (attach_at-Contains id some'.0 e.log gs c)
              | inr a ↦ rw a c
            ])
    ]

attach_each-Contains :
    (id : Text) (es : List EvidenceRecord) (gs : List Generation)
    → Contains id gs
    → Contains id (attach_each es gs)
unfolding attach_each
attach_each-Contains id [] gs c = c
attach_each-Contains id (e ∷ es) gs c = attach_each-Contains id es _ (attach_one-Contains id e gs c)

detach_all-Contains :
    (id : Text) (gs : List Generation) → Contains id gs → Contains id (detach_all gs)
unfolding detach_all
detach_all-Contains id [] c = absurd c
detach_all-Contains id (g ∷ gs) (inl h) = inl (ground (arith, h))
detach_all-Contains id (g ∷ gs) (inr c) = inr (detach_all-Contains id gs c)

-- Resolving the evidence again keeps the contributing records.
pub attach_retained_evidence-Contains :
    (id : Text) (es : List EvidenceRecord) (gs : List Generation)
    → Contains id gs
    → Contains id (attach_retained_evidence es gs)
unfolding attach_retained_evidence
attach_retained_evidence-Contains id es gs c =
    attach_each-Contains id es _ (detach_all-Contains id gs c)
