-- ===== src/Queue/Mapping.antt =====
-- A message that passes the validation against its mapping to SQS.
use cockroachdbxaws.Base.{
  suc, ◌+◌, ◌≤◌, ◌≡◌, refl, ap, ◌∙◌, Text, text_eq, text_eq→eq, text_lt, Bool, true, false, List,
  [], ◌∷◌, ◌++◌, length, All, none, some, if◌then◌else◌, inl, inr, arith, Bool-cases, ltb, ltb→le,
  lookup, store, lookup-store,
}
use cockroachdbxaws.Queue.{
  Message, UuidLibrary, Problem, max_attributes, required_sqs_attributes,
  application_safety_max_message_bytes, attribute_message_id, attribute_deduplication_key,
  attribute_message_type, is_required, attribute_name_problem, report, entry_problems, each_entry,
  insert_entry, sorted_entries, attribute_problems, sqs_attributes, sqs_size, problems, id_problems,
  key_problems, type_problems, body_problems, size_problems, too_large,
}

-- The entry's name is free and well formed and its value is not empty.
abbrev pub Publishable : Text × Text → Type 0
Publishable e = (is_required e.0 ≡ false) × (attribute_name_problem e.0 ≡ false)

none_left : {A : Type 0} (xs ys : List A) → xs ++ ys ≡ [] → (xs ≡ []) × (ys ≡ [])
none_left [] ys h = (refl, h)
none_left (x ∷ xs) ys h = cc

report_none : (test : Bool) (p : Problem) → report test p ≡ [] → test ≡ false
report_none true p h = cc
report_none false p h = refl

each_entry-Publishable : (es : List (Text × Text)) → each_entry es ≡ [] → All Publishable es
unfolding each_entry entry_problems
each_entry-Publishable [] h = tt
each_entry-Publishable (e ∷ es) h =
    let parts = none_left _ (each_entry es) h in
    let name = none_left (report (is_required e.0) _) _ parts.0 in
    let form = none_left (report (attribute_name_problem e.0) _) _ name.1 in
    ((report_none _ _ name.0, report_none _ _ form.0), each_entry-Publishable es parts.1)

insert_case :
    (e x : Text × Text) (xs : List (Text × Text)) (b : Bool)
    → (All Publishable (insert_entry e xs) → Publishable e × All Publishable xs)
    → All Publishable (if b then x ∷ insert_entry e xs else e ∷ x ∷ xs)
    → Publishable e × All Publishable (x ∷ xs)
insert_case e x xs true ih a = let rest = ih a.1 in (rest.0, (a.0, rest.1))
insert_case e x xs false ih a = a

insert_entry-All :
    (e : Text × Text) (es : List (Text × Text))
    → All Publishable (insert_entry e es)
    → Publishable e × All Publishable es
unfolding insert_entry
insert_entry-All e [] a = a
insert_entry-All e (x ∷ xs) a = insert_case e x xs (text_lt x.0 e.0) (insert_entry-All e xs) a

sorted_entries-All :
    (es : List (Text × Text)) → All Publishable (sorted_entries es) → All Publishable es
unfolding sorted_entries
sorted_entries-All [] a = tt
sorted_entries-All (e ∷ es) a =
    let parts = insert_entry-All e (sorted_entries es) a in (parts.0, sorted_entries-All es parts.1)

-- Storing at another key.
lookup-store_other :
    (key other : Text) (v : Text) (m : List (Text × Text))
    → text_eq other key ≡ false
    → lookup key (store other v m) ≡ lookup key m
unfolding lookup store
lookup-store_other key other v [] h = rw h refl
lookup-store_other key other v (e ∷ es) h = elim (Bool-cases (text_eq e.0 other)) [
  | inl here ↦
      let apart : text_eq e.0 key ≡ false = rw (text_eq→eq _ _ here) h in rw here (rw apart refl)
  | inr there ↦ elim (Bool-cases (text_eq e.0 key)) [
    | inl found ↦ rw there (rw found refl)
    | inr missed ↦ rw there (rw missed (lookup-store_other key other v es h))
  ]
]

length-store_fresh :
    (key v : Text) (m : List (Text × Text))
    → lookup key m ≡ none
    → length (store key v m) ≡ suc (length m)
unfolding lookup store
length-store_fresh key v [] h = refl
length-store_fresh key v (e ∷ es) h = elim (Bool-cases (text_eq e.0 key)) [
  | inl here ↦ absurd (cc (h, here))
  | inr there ↦ rw there (ap suc (length-store_fresh key v es (cc (h, there))))
]

required_missing :
    (key : Text) (es : List (Text × Text))
    → is_required key ≡ true
    → All Publishable es
    → lookup key es ≡ none
unfolding lookup
required_missing key [] r a = refl
required_missing key (e ∷ es) r a = elim (Bool-cases (text_eq e.0 key)) [
  | inl here ↦ absurd (cc (ap is_required (text_eq→eq _ _ here), r, a.0.0))
  | inr there ↦ rw there (required_missing key es r a.1)
]

-- The problems of a message, in the parts that the mapping needs.
parts :
    (u : UuidLibrary) (m : Message)
    → problems u m ≡ []
    → (attribute_problems m ≡ []) × (ltb application_safety_max_message_bytes (sqs_size m) ≡ false)
unfolding problems
parts u m h =
    let after_id = (none_left (id_problems u m) _ h).1 in
    let after_key = (none_left (key_problems m) _ after_id).1 in
    let after_type = (none_left (type_problems m) _ after_key).1 in
    let after_body = (none_left (body_problems m) _ after_type).1 in
    let last = none_left (attribute_problems m) (size_problems m) after_body in
    (last.0, report_none _ too_large last.1)

attribute_parts :
    (m : Message)
    → attribute_problems m ≡ []
    → (ltb max_attributes (required_sqs_attributes + length m.attributes) ≡ false)
      × All Publishable m.attributes
unfolding attribute_problems
attribute_parts m h =
    let both = none_left _ (each_entry (sorted_entries m.attributes)) h in
    (
      report_none _ _ both.0,
      sorted_entries-All m.attributes (each_entry-Publishable (sorted_entries m.attributes) both.1),
    )

module _ (m : Message) where
  abbrev with_id : List (Text × Text)
  with_id = store attribute_message_id m.message_id m.attributes

  abbrev with_key : List (Text × Text)
  with_key = store attribute_deduplication_key m.deduplication_key with_id

  custom_kept :
      (key : Text)
      → is_required key ≡ false
      → lookup key (sqs_attributes m) ≡ lookup key m.attributes
  unfolding sqs_attributes is_required
  custom_kept key free =
      lookup-store_other key attribute_message_type m.type' with_key (ground (arith, free))
      ∙ lookup-store_other key attribute_deduplication_key m.deduplication_key with_id
          (ground (arith, free))
      ∙ lookup-store_other key attribute_message_id m.message_id m.attributes (ground (arith, free))

  mapped_length : All Publishable m.attributes → length (sqs_attributes m) ≡ 3 + length m.attributes
  unfolding sqs_attributes is_required text_eq
  mapped_length a =
      let id_free = required_missing attribute_message_id m.attributes refl a in
      let key_free =
        lookup-store_other attribute_deduplication_key attribute_message_id m.message_id
          m.attributes refl
        ∙ required_missing attribute_deduplication_key m.attributes refl a in
      let type_free =
        lookup-store_other attribute_message_type attribute_deduplication_key m.deduplication_key
          with_id refl
        ∙ lookup-store_other attribute_message_type attribute_message_id m.message_id m.attributes
            refl
        ∙ required_missing attribute_message_type m.attributes refl a in
      omega (
        arith,
        length-store_fresh attribute_message_type m.type' with_key type_free,
        length-store_fresh attribute_deduplication_key m.deduplication_key with_id key_free,
        length-store_fresh attribute_message_id m.message_id m.attributes id_free,
      )

-- A message without problems maps to SQS without loss: its three required attributes carry its
-- identifier, its deduplication key and its type, every other attribute has the value that the message
-- gives it, there are exactly three more than the message has and at most ten, and the mapped message
-- is within the application's size limit.
pub problems-mapping :
    (u : UuidLibrary) (m : Message)
    → problems u m ≡ []
    → (lookup attribute_message_id (sqs_attributes m) ≡ some m.message_id)
      × (lookup attribute_deduplication_key (sqs_attributes m) ≡ some m.deduplication_key)
      × (lookup attribute_message_type (sqs_attributes m) ≡ some m.type')
      × ((key : Text)
          → is_required key ≡ false
          → lookup key (sqs_attributes m) ≡ lookup key m.attributes)
      × (length (sqs_attributes m) ≡ required_sqs_attributes + length m.attributes)
      × (length (sqs_attributes m) ≤ max_attributes)
      × (sqs_size m ≤ application_safety_max_message_bytes)
unfolding sqs_attributes text_eq
problems-mapping u m h =
    let whole = parts u m h in
    let attrs = attribute_parts m whole.0 in
    (
      lookup-store_other attribute_message_id attribute_message_type m.type' (with_key m) refl
          ∙ lookup-store_other attribute_message_id attribute_deduplication_key m.deduplication_key
              (with_id m) refl
          ∙ lookup-store attribute_message_id m.message_id m.attributes refl,
      lookup-store_other attribute_deduplication_key attribute_message_type m.type' (with_key m)
            refl
          ∙ lookup-store attribute_deduplication_key m.deduplication_key (with_id m) refl,
      lookup-store attribute_message_type m.type' (with_key m) refl,
      custom_kept m,
      mapped_length m attrs.1,
      omega (arith, mapped_length m attrs.1, ltb→le _ _ attrs.0),
      ltb→le _ _ whole.1,
    )
