-- ===== src/Api.antt =====
-- crates/s4logs-gateway/src/api.rs: the requests that agents send, and the errors they get. An answer
-- is a value here; writing it as JSON is left out.
use s4_logs.Prelude.{ℕ, Option, List, ◌++◌}
use s4_logs.Prelude.Int.{ℤ}
use s4_logs.Prelude.Text.{Bytes, bytes}
use s4_logs.Buffer.{InputLogEvent}

abbrev pub target_prefix : Bytes
target_prefix = bytes "Logs_20140328."

pub record PutLogEventsRequest : Type 0 where
  pub log_group_name : Bytes
  pub log_stream_name : Bytes
  pub log_events : List InputLogEvent
  pub sequence_token : Option Bytes

pub record CreateLogGroupRequest : Type 0 where
  pub log_group_name : Bytes

pub record CreateLogStreamRequest : Type 0 where
  pub log_group_name : Bytes
  pub log_stream_name : Bytes

pub record DescribeLogGroupsRequest : Type 0 where
  pub log_group_name_prefix : Option Bytes
  pub limit : Option ℤ
  pub next_token : Option Bytes

pub record DescribeLogStreamsRequest : Type 0 where
  pub log_group_name : Option Bytes
  pub log_group_identifier : Option Bytes
  pub log_stream_name_prefix : Option Bytes
  pub limit : Option ℤ
  pub next_token : Option Bytes

pub record LogGroupSummary : Type 0 where
  pub log_group_name : Bytes
  pub creation_time : ℤ
  pub arn : Bytes

pub record DescribeLogGroupsResponse : Type 0 where
  pub log_groups : List LogGroupSummary
  pub next_token : Option Bytes

pub record LogStreamSummary : Type 0 where
  pub log_stream_name : Bytes
  pub creation_time : ℤ

pub record DescribeLogStreamsResponse : Type 0 where
  pub log_streams : List LogStreamSummary
  pub next_token : Option Bytes

-- An answer that is no error: `{}`, or a page.
pub data Response : Type 0 where
  empty_object : Response
  group_page : DescribeLogGroupsResponse → Response
  stream_page : DescribeLogStreamsResponse → Response

pub record ApiError : Type 0 where
  pub status : ℕ
  pub kind : Bytes
  pub message : Bytes

abbrev pub new_error : ℕ → Bytes → Bytes → ApiError
new_error status kind message = record { status = status; kind = kind; message = message }

abbrev pub invalid_action : Bytes → ApiError
invalid_action target =
    new_error 400 (bytes "InvalidAction") (bytes "unsupported action: " ++ target)

abbrev pub missing_action : ApiError
missing_action = new_error 400 (bytes "MissingAction") (bytes "missing X-Amz-Target header")

-- The error of serde_json is its message.
abbrev pub serialization : Bytes → ApiError
serialization e =
    new_error 400 (bytes "SerializationException") (bytes "invalid request body: " ++ e)

abbrev pub already_exists : Bytes → ApiError
already_exists what =
    new_error 400 (bytes "ResourceAlreadyExistsException")
      (bytes "The specified " ++ (what ++ bytes " already exists"))

abbrev pub not_found : Bytes → ApiError
not_found what =
    new_error 400 (bytes "ResourceNotFoundException")
      (bytes "The specified " ++ (what ++ bytes " does not exist"))

abbrev pub invalid_parameter : Bytes → ApiError
invalid_parameter message = new_error 400 (bytes "InvalidParameterException") message

abbrev pub service_unavailable : Bytes → ApiError
service_unavailable message = new_error 500 (bytes "ServiceUnavailableException") message

abbrev pub backpressure : ApiError
backpressure =
    new_error 503 (bytes "ServiceUnavailableException")
      (bytes "buffer memory cap exceeded; retry the batch")

abbrev pub internal_failure : Bytes → ApiError
internal_failure message = new_error 500 (bytes "InternalFailure") message
