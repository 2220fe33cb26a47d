-- ===== src/Model.antt =====
-- services/static-log-analysis/internal/model: the enumerations that the other packages match on.
-- They are Go string types, so a value outside the named constants is representable.
use cockroachdbxaws.Base.{Text, codes}

abbrev pub SourceType : Type 0
SourceType = Text

abbrev pub source_type_otlp : SourceType
source_type_otlp = codes "otlp"

abbrev pub source_type_cloud_watch : SourceType
source_type_cloud_watch = codes "cloudwatch"

abbrev pub SeverityClass : Type 0
SeverityClass = Text

abbrev pub severity_class_unspecified : SeverityClass
severity_class_unspecified = codes "unspecified"

abbrev pub severity_class_trace : SeverityClass
severity_class_trace = codes "trace"

abbrev pub severity_class_debug : SeverityClass
severity_class_debug = codes "debug"

abbrev pub severity_class_info : SeverityClass
severity_class_info = codes "info"

abbrev pub severity_class_warn : SeverityClass
severity_class_warn = codes "warn"

abbrev pub severity_class_error : SeverityClass
severity_class_error = codes "error"

abbrev pub severity_class_fatal : SeverityClass
severity_class_fatal = codes "fatal"
