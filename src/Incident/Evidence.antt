-- ===== src/Incident/Evidence.antt =====
-- incident.go: attaching retained evidence to the episodes, and the locations of the identities. Go
-- ranges over the map of the evidence in any order; here it is the order of the list.
use cockroachdbxaws.Base.{
  ℕ, zero, suc, Text, text_eq, Bool, true, false, List, [], ◌∷◌, length, Option, none, some,
  if◌then◌else◌, ◌==◌, store,
}
use cockroachdbxaws.Incident.Logs.{Time, NormalizedLog, deployment_id}
use cockroachdbxaws.Incident.Window.{insert_time}
use cockroachdbxaws.Incident.Generation.{Generation, put_log}
use cockroachdbxaws.Incident.Family.{
  Family, EvidenceRecord, RecordLocation, generation_for_evidence, generation_containing,
}
pub mod Known

abbrev pub Seen : Type 0
Seen = List (Text × RecordLocation)

unfoldable pub attach_to : Generation → NormalizedLog → Generation
attach_to g r = record g {
  evidence = put_log r g.evidence;
  evidence_times = insert_time g.evidence_times r.event_time;
}

unfoldable pub attach_at : ℕ → NormalizedLog → List Generation → List Generation
attach_at i r [] = []
attach_at zero r (g ∷ gs) = attach_to g r ∷ gs
attach_at (suc i) r (g ∷ gs) = g ∷ attach_at i r gs

unfoldable pub attach_one : EvidenceRecord → List Generation → List Generation
attach_one e gs = elim (generation_for_evidence gs (deployment_id e.log) e.log.event_time) [
  | none ↦ gs
  | some i ↦ if e.attach then attach_at i e.log gs else gs
]

unfoldable pub attach_each : List EvidenceRecord → List Generation → List Generation
attach_each [] gs = gs
attach_each (e ∷ es) gs = attach_each es (attach_one e gs)

unfoldable pub detach_all : List Generation → List Generation
detach_all [] = []
detach_all (g ∷ gs) =
    (if length g.evidence == 0 then g else record g { evidence = []; evidence_times = [] })
    ∷ detach_all gs

-- `attachRetainedEvidence`.
unfoldable pub attach_retained_evidence : List EvidenceRecord → List Generation → List Generation
attach_retained_evidence evidence gs = attach_each evidence (detach_all gs)

unfoldable pub number_of : Option Generation → ℕ
number_of none = 0
number_of (some g) = g.number

-- `indexEvidence`, for the family's identifier, generations and evidence.
unfoldable pub index_evidence : Text → List Generation → List EvidenceRecord → Seen → Seen
index_evidence id gs [] seen = seen
index_evidence id gs (e ∷ es) seen = index_evidence id gs es (
    store e.log.record_id
      (record {
        incident_id = id;
        generation = number_of (generation_containing gs e.log.record_id);
        late = e.late;
        evidence = true;
      })
      seen)

unfoldable pub index_records : Text → ℕ → List NormalizedLog → Seen → Seen
index_records id number [] seen = seen
index_records id number (r ∷ rs) seen = index_records id number rs (
    store r.record_id
      (record { incident_id = id; generation = number; late = false; evidence = false }) seen)

unfoldable pub index_generations : Text → List Generation → Seen → Seen
index_generations id [] seen = seen
index_generations id (g ∷ gs) seen =
    index_generations id gs (index_records id g.number g.records seen)

-- `indexLocations`.
unfoldable pub index_locations : Family → Seen → Seen
index_locations f seen =
    index_evidence f.id f.generations f.evidence (index_generations f.id f.generations seen)

-- `f.evidence[id] = evidence`.
unfoldable pub put_evidence : EvidenceRecord → List EvidenceRecord → List EvidenceRecord
put_evidence e [] = e ∷ []
put_evidence e (x ∷ xs) =
    if text_eq x.log.record_id e.log.record_id then e ∷ xs else x ∷ put_evidence e xs

unfoldable pub number_at : Option ℕ → List Generation → ℕ
number_at none gs = 0
number_at (some i) [] = 0
number_at (some zero) (g ∷ gs) = g.number
number_at (some (suc i)) (g ∷ gs) = number_at (some i) gs

unfoldable pub attach_at_target : Option ℕ → NormalizedLog → List Generation → List Generation
attach_at_target none r gs = gs
attach_at_target (some i) r gs = attach_at i r gs

-- `attachEvidence`.
unfoldable pub attach_evidence : Family → EvidenceRecord → Seen → Family × Seen
attach_evidence f e seen =
    let target : Option ℕ =
      if e.attach
      then generation_for_evidence f.generations (deployment_id e.log) e.log.event_time
      else none in
    let location : RecordLocation = record {
      incident_id = f.id;
      generation = number_at target f.generations;
      late = e.late;
      evidence = true;
    } in
    (
      record f { generations = attach_at_target target e.log f.generations },
      store e.log.record_id location seen,
    )
