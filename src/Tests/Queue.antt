-- ===== src/Tests/Queue.antt =====
-- queue: a message at its mapping.
use cockroachdbxaws.Base.{
  ◌+◌, ◌≤◌, ◌≡◌, refl, Text, text_eq, blank, codes, true, false, [], ◌∷◌, length, some, lookup,
  store, all_runes, all_runes_from,
}
use cockroachdbxaws.Queue.{
  Message, UuidLibrary, problems, sqs_attributes, sqs_size, is_required, attribute_message_id,
  attribute_deduplication_key, attribute_message_type, required_sqs_attributes, max_attributes,
  application_safety_max_message_bytes, validate_id, attribute_problems, sorted_entries,
  insert_entry, each_entry, entry_problems, attribute_name_problem, has_prefix, ends_with_period,
  contains_double_period, to_lower, valid_sqs_text, entries_size,
}
use cockroachdbxaws.Queue.Mapping.{problems-mapping}

-- A library that takes every text for a version 7 identifier.
abbrev lenient : UuidLibrary
lenient = record {
  Uuid = Text;
  parse = λ s. some s;
  string = λ s. s;
  version = λ s. 7;
  is_rfc4122 = λ s. true;
}

abbrev assignment : Message
assignment = record {
  message_id = codes "0190";
  deduplication_key = codes "k1";
  type' = codes "agent.assignment.v1";
  body = codes "{}";
  attributes = (codes "region", codes "eu-west-1") ∷ [];
}

assignment-valid : problems lenient assignment ≡ []
unfolding problems validate_id attribute_problems sorted_entries insert_entry each_entry
    entry_problems attribute_name_problem has_prefix ends_with_period contains_double_period
    to_lower valid_sqs_text entries_size sqs_size sqs_attributes is_required text_eq blank store
    all_runes all_runes_from
assignment-valid = refl

problems-mapping_example :
    (lookup attribute_message_id (sqs_attributes assignment) ≡ some assignment.message_id)
    × (lookup attribute_deduplication_key (sqs_attributes assignment)
        ≡ some assignment.deduplication_key)
    × (lookup attribute_message_type (sqs_attributes assignment) ≡ some assignment.type')
    × ((key : Text)
        → is_required key ≡ false
        → lookup key (sqs_attributes assignment) ≡ lookup key assignment.attributes)
    × (length (sqs_attributes assignment) ≡ required_sqs_attributes + length assignment.attributes)
    × (length (sqs_attributes assignment) ≤ max_attributes)
    × (sqs_size assignment ≤ application_safety_max_message_bytes)
problems-mapping_example = problems-mapping lenient assignment assignment-valid
