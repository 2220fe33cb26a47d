-- ===== src/Queue.antt =====
-- services/static-log-analysis/internal/queue/queue.go: the message that the outbox publishes, its
-- validation and its mapping to Amazon SQS; and ids/ids.go: the identifiers.
use cockroachdbxaws.Base.{
  ℕ, zero, suc, ◌+◌, ◌-◌, ◌*◌, Text, text_eq, text_lt, blank, codes, Bool, true, false, not, ◌&&◌,
  ◌||◌, List, [], ◌∷◌, ◌++◌, length, all, any, Option, none, some, if◌then◌else◌, ltb, leb, ◌==◌,
  store, all_runes,
}
pub mod Mapping

pub record Message : Type 0 where
  pub message_id : Text
  pub deduplication_key : Text
  pub type' : Text
  pub body : Text
  pub attributes : List (Text × Text)

-- `github.com/google/uuid`: `Parse`, and a parsed value's `String`, `Version` and RFC 4122 variant.
pub record UuidLibrary : Type 1 where
  pub Uuid : Type 0
  pub parse : Text → Option Uuid
  pub string : Uuid → Text
  pub version : Uuid → ℕ
  pub is_rfc4122 : Uuid → Bool

-- `ids.Validate`.
unfoldable pub validate_id : UuidLibrary → Text → Bool
validate_id u s = elim (u.parse s) [
  | none ↦ false
  | some id ↦ text_eq (u.string id) s && (u.version id == 7) && u.is_rfc4122 id
]

abbrev pub sqs_max_message_bytes : ℕ
sqs_max_message_bytes = 1_024 * 1_024

abbrev pub application_safety_max_message_bytes : ℕ
application_safety_max_message_bytes = 256 * 1_024

abbrev pub max_attributes : ℕ
max_attributes = 10

abbrev pub required_sqs_attributes : ℕ
required_sqs_attributes = 3

abbrev pub max_attribute_name_bytes : ℕ
max_attribute_name_bytes = 256

abbrev pub attribute_message_id : Text
attribute_message_id = codes "message_id"

abbrev pub attribute_deduplication_key : Text
attribute_deduplication_key = codes "deduplication_key"

abbrev pub attribute_message_type : Text
attribute_message_type = codes "message_type"

-- `requiredSQSAttributeNames[name]`.
unfoldable pub is_required : Text → Bool
is_required name =
    text_eq attribute_message_id name
    || text_eq attribute_deduplication_key name
    || text_eq attribute_message_type name

-- Each problem that a message reports, without the text around it.
pub data Problem : Type 0 where
  empty_message_id malformed_message_id : Problem
  empty_deduplication_key unfit_deduplication_key : Problem
  empty_type unfit_type : Problem
  empty_body unfit_body : Problem
  too_large : Problem
  too_many_attributes : Problem
  reserved_name malformed_name empty_value unfit_value : Text → Problem

-- The repertoire that SQS accepts.
abbrev pub sqs_rune : ℕ → Bool
sqs_rune r =
    (r == 0x9)
    || (r == 0xa)
    || (r == 0xd)
    || (leb 0x20 r && leb r 0xd7ff)
    || (leb 0xe000 r && leb r 0xfffd)
    || (leb 0x10000 r && leb r 0x10ffff)

unfoldable pub valid_sqs_text : Text → Bool
valid_sqs_text value = all_runes sqs_rune value

-- A byte of a rune that a name may have; no byte of a longer rune is one.
abbrev name_byte : ℕ → Bool
name_byte r =
    (leb 97 r && leb r 122)
    || (leb 65 r && leb r 90)
    || (leb 48 r && leb r 57)
    || (r == 95)
    || (r == 45)
    || (r == 46)

unfoldable pub has_prefix : Text → Text → Bool
has_prefix s [] = true
has_prefix [] (p ∷ ps) = false
has_prefix (a ∷ as') (p ∷ ps) = (a == p) && has_prefix as' ps

unfoldable pub contains_double_period : Text → Bool
contains_double_period [] = false
contains_double_period (a ∷ []) = false
contains_double_period (a ∷ b ∷ s) = ((a == 46) && (b == 46)) || contains_double_period (b ∷ s)

unfoldable pub ends_with_period : Text → Bool
ends_with_period [] = false
ends_with_period (a ∷ []) = a == 46
ends_with_period (a ∷ b ∷ s) = ends_with_period (b ∷ s)

-- `strings.ToLower` of a name whose runes are all ASCII.
unfoldable pub to_lower : Text → Text
to_lower [] = []
to_lower (a ∷ s) = (if leb 65 a && leb a 90 then a + 32 else a) ∷ to_lower s

-- `attributeNameProblem(name) != ""`.
unfoldable pub attribute_name_problem : Text → Bool
attribute_name_problem name =
    blank name
    || ltb max_attribute_name_bytes (length name)
    || not (all name_byte name)
    || has_prefix name (46 ∷ [])
    || ends_with_period name
    || contains_double_period name
    || has_prefix (to_lower name) (codes "aws.")
    || has_prefix (to_lower name) (codes "amazon.")

-- `if test { problems = append(problems, problem) }`.
abbrev pub report : Bool → Problem → List Problem
report test problem = if test then problem ∷ [] else []

unfoldable pub entry_problems : Text × Text → List Problem
entry_problems e =
    report (is_required e.0) (reserved_name e.0)
    ++ (report (attribute_name_problem e.0) (malformed_name e.0)
        ++ (if length e.1 == 0
            then empty_value e.0 ∷ []
            else report (not (valid_sqs_text e.1)) (unfit_value e.0)))

unfoldable pub each_entry : List (Text × Text) → List Problem
each_entry [] = []
each_entry (e ∷ es) = entry_problems e ++ each_entry es

unfoldable pub insert_entry : Text × Text → List (Text × Text) → List (Text × Text)
insert_entry e [] = e ∷ []
insert_entry e (x ∷ xs) = if text_lt x.0 e.0 then x ∷ insert_entry e xs else e ∷ x ∷ xs

-- The entries in the order of `sort.Strings` of their names.
unfoldable pub sorted_entries : List (Text × Text) → List (Text × Text)
sorted_entries [] = []
sorted_entries (e ∷ es) = insert_entry e (sorted_entries es)

unfoldable pub attribute_problems : Message → List Problem
attribute_problems m =
    report (ltb max_attributes (required_sqs_attributes + length m.attributes)) too_many_attributes
    ++ each_entry (sorted_entries m.attributes)

unfoldable pub sqs_attributes : Message → List (Text × Text)
sqs_attributes m = store attribute_message_type m.type' (
    store attribute_deduplication_key m.deduplication_key
      (store attribute_message_id m.message_id m.attributes))

-- `len(name) + len("String") + len(value)` of each.
unfoldable pub entries_size : List (Text × Text) → ℕ
entries_size [] = 0
entries_size (e ∷ es) = length e.0 + 6 + length e.1 + entries_size es

unfoldable pub sqs_size : Message → ℕ
sqs_size m = length m.body + entries_size (sqs_attributes m)

-- A field that must not be blank and must be SQS text.
abbrev text_problems : Bool → Text → Problem → Problem → List Problem
text_problems missing value empty unfit =
    if missing then empty ∷ [] else report (not (valid_sqs_text value)) unfit

abbrev pub id_problems : UuidLibrary → Message → List Problem
id_problems u m =
    if blank m.message_id
    then empty_message_id ∷ []
    else report (not (validate_id u m.message_id)) malformed_message_id

abbrev pub key_problems : Message → List Problem
key_problems m =
    text_problems (blank m.deduplication_key) m.deduplication_key empty_deduplication_key
      unfit_deduplication_key

abbrev pub type_problems : Message → List Problem
type_problems m = text_problems (blank m.type') m.type' empty_type unfit_type

abbrev pub body_problems : Message → List Problem
body_problems m = text_problems (length m.body == 0) m.body empty_body unfit_body

abbrev pub size_problems : Message → List Problem
size_problems m = report (ltb application_safety_max_message_bytes (sqs_size m)) too_large

-- `Validate`: no problem is a valid message.
unfoldable pub problems : UuidLibrary → Message → List Problem
problems u m =
    id_problems u m
    ++ (key_problems m
        ++ (type_problems m ++ (body_problems m ++ (attribute_problems m ++ size_problems m))))
