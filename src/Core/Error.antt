-- ===== src/Core/Error.antt =====
-- crates/dovecote/src/error.rs: the reasons and the operations of a validation failure.
use dovecote.Base.{String}

pub data ValidationKind : Type 0 where
  empty length characters syntax media_type json combination range precision : ValidationKind
  reserved_name duplicate trace_context size : ValidationKind

pub data ValidationOperation : Type 0 where
  event limit duration operational_field state : ValidationOperation

pub record ValidationError : Type 0 where
  pub field : String
  pub operation : ValidationOperation
  pub kind : ValidationKind

-- `ValidationKind::code`
unfoldable pub kind_code : ValidationKind → String
kind_code empty = "empty"
kind_code length = "length"
kind_code characters = "characters"
kind_code syntax = "syntax"
kind_code media_type = "media_type"
kind_code json = "json"
kind_code combination = "combination"
kind_code range = "range"
kind_code precision = "precision"
kind_code reserved_name = "reserved_name"
kind_code duplicate = "duplicate"
kind_code trace_context = "trace_context"
kind_code size = "size"

-- `ValidationOperation::code`
unfoldable pub operation_code : ValidationOperation → String
operation_code event = "invalid_event"
operation_code limit = "invalid_limit"
operation_code duration = "invalid_duration"
operation_code operational_field = "invalid_operational_field"
operation_code state = "invalid_state"

-- `ValidationError::new`: a failure of event validation.
abbrev pub error : String → ValidationKind → ValidationError
error field kind = record { field = field; operation = event; kind = kind }

-- `ValidationError::with_operation`
abbrev pub with_operation : String → ValidationOperation → ValidationKind → ValidationError
with_operation field operation kind = record { field = field; operation = operation; kind = kind }

-- `ValidationError::code`
unfoldable pub code : ValidationError → String
unfolding kind_code
code e = kind_code e.kind

-- `ValidationError::category_code`
unfoldable pub category_code : ValidationError → String
unfolding operation_code
category_code e = operation_code e.operation
