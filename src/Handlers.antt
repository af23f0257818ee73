-- ===== src/Handlers.antt =====
-- crates/s4logs-gateway/src/handlers.rs: the actions of the gateway. Each returns the new state beside
-- its answer. The bodies' JSON, the wall clock and the forwarder to CloudWatch are parameters; log
-- lines and metrics are left out, as is the check of a signature.
pub mod Created
mod Tests
use s4_logs.Prelude.{
  ℕ, Bool, true, false, Option, none, some, List, [], ◌∷◌, ◌++◌, map, if◌then◌else◌,
}
use s4_logs.Prelude.Int.{ℤ}
use s4_logs.Prelude.Text.{Bytes, bytes, eqb, strip_prefix}
use s4_logs.Prelude.Result.{Result, ok, err, ◌>>=◌, map_err}
use s4_logs.Host.{Host}
use s4_logs.Pages.{paginate}
use s4_logs.Buffer.{
  BufferError, chunk_failed, sink_failed, wal_failed, over_capacity, BufferConfig, InputLogEvent,
}
use s4_logs.Flusher.{Manager, Done, push_events, ready}
use s4_logs.Routing.{
  Globs, RoutingConfig, RouteAction, to_s3, to_cloudwatch, route, group_may_reach_cloudwatch,
}
use s4_logs.Registry.{
  Registry, RegistryError, group_exists, stream_exists, group_not_found, create_group,
  create_stream, touch, describe_groups, describe_streams,
}
use s4_logs.Api.{
  PutLogEventsRequest, CreateLogGroupRequest, CreateLogStreamRequest, DescribeLogGroupsRequest,
  DescribeLogStreamsRequest, LogGroupSummary, LogStreamSummary, Response, empty_object, group_page,
  stream_page, ApiError, invalid_action, missing_action, serialization, already_exists, not_found,
  invalid_parameter, service_unavailable, backpressure, internal_failure, target_prefix,
}

-- `CwForward`, the wall clock, and serde_json on the bodies; its error is the message.
pub data ForwardError : Type 0 where
  api_failed : (op message : Bytes) → ForwardError

pub record Services (D : Type 0) : Type 0 where
  pub now_ms : D → ℤ
  pub forward_batch : Bytes → Bytes → List InputLogEvent → D → D × Result ForwardError Unit
  pub forward_group : Bytes → D → D × Result ForwardError Unit
  pub forward_stream : Bytes → Bytes → D → D × Result ForwardError Unit
  pub read_put : Bytes → Result Bytes PutLogEventsRequest
  pub read_group : Bytes → Result Bytes CreateLogGroupRequest
  pub read_stream : Bytes → Result Bytes CreateLogStreamRequest
  pub read_groups : Bytes → Result Bytes DescribeLogGroupsRequest
  pub read_streams : Bytes → Result Bytes DescribeLogStreamsRequest

pub record AppState (g : Globs) (D : Type 0) : Type 0 where
  pub routing : RoutingConfig g
  pub buffers : Manager D
  pub registry : Registry

abbrev pub parse_body : {A : Type 0} → (Bytes → Result Bytes A) → Bytes → Result ApiError A
parse_body read body = map_err serialization (read body)

-- The answer to a batch that was not buffered.
unfoldable pub refusal : BufferError → ApiError
refusal over_capacity = backpressure
refusal (wal_failed e) = internal_failure (bytes "wal append failed; retry the batch")
refusal (chunk_failed e) = service_unavailable (bytes "event buffering failed; retry the batch")
refusal (sink_failed e) = service_unavailable (bytes "event buffering failed; retry the batch")

module _ {D : Type 0} (h : Host D) (cfg : BufferConfig) (g : Globs) (sv : Services D) where
  abbrev pub Answer : Type 0
  Answer = AppState g D × Result ApiError Response

  -- The state in which a world was left.
  abbrev pub in_world : AppState g D → D → AppState g D
  in_world st d = record st { buffers = record st.buffers { world = d } }

  abbrev pub forwarded : Bool → AppState g D → D × Result ForwardError Unit → Answer
  forwarded stored st (d, ok _) = (in_world st d, ok empty_object)
  forwarded stored st (d, err e) = (
    in_world st d,
    if stored
        then ok empty_object
        else err (service_unavailable (bytes "cloudwatch passthrough failed; retry the batch")),
  )

  unfoldable pub forward_part : RouteAction → PutLogEventsRequest → AppState g D → Answer
  forward_part action req st =
      if to_cloudwatch action
      then forwarded (to_s3 action) st
          (sv.forward_batch req.log_group_name req.log_stream_name req.log_events st.buffers.world)
      else (st, ok empty_object)

  abbrev pub after_store : RouteAction → PutLogEventsRequest → AppState g D → Done h cfg → Answer
  after_store action req st (m, ok _) = forward_part action req (record st { buffers = m })
  after_store action req st (m, err e) = (record st { buffers = m }, err (refusal e))

  unfoldable pub put_batch : RouteAction → PutLogEventsRequest → AppState g D → Answer
  unfolding forward_part
  put_batch action req st =
      if to_s3 action
      then after_store action req st
          (push_events h cfg req.log_group_name req.log_stream_name req.log_events st.buffers)
      else forward_part action req st

  abbrev pub touched : PutLogEventsRequest → AppState g D → AppState g D
  touched req st = record st {
    registry =
        touch (sv.now_ms st.buffers.world) req.log_group_name req.log_stream_name st.registry;
  }

  unfoldable pub put_log_events : Bytes → AppState g D → Answer
  unfolding put_batch
  put_log_events body st = elim (parse_body sv.read_put body) [
    | err e ↦ (st, err e)
    | ok req ↦
        put_batch (route g st.routing req.log_group_name req.log_stream_name) req (touched req st)
  ]

  -- The call of the forwarder in the two handlers that create; its error changes no answer.
  abbrev pub also_forwarded :
      Bool → (D → D × Result ForwardError Unit) → AppState g D → AppState g D
  also_forwarded true call st = in_world st (call st.buffers.world).0
  also_forwarded false call st = st

  abbrev pub group_created : Bytes → AppState g D → Registry × Result RegistryError Unit → Answer
  group_created name st (groups, ok _) = (
    also_forwarded (group_may_reach_cloudwatch g st.routing name) (sv.forward_group name)
        (record st { registry = groups }),
    ok empty_object,
  )
  group_created name st (groups, err group_exists) = (st, err (already_exists (bytes "log group")))
  group_created name st (groups, err stream_exists) =
      (st, err (invalid_parameter (bytes "log stream already exists")))
  group_created name st (groups, err group_not_found) =
      (st, err (invalid_parameter (bytes "log group does not exist")))

  unfoldable pub create_log_group : Bytes → AppState g D → Answer
  create_log_group body st = elim (parse_body sv.read_group body) [
    | err e ↦ (st, err e)
    | ok req ↦
        group_created req.log_group_name st
          (create_group (sv.now_ms st.buffers.world) req.log_group_name st.registry)
  ]

  abbrev pub stream_created :
      CreateLogStreamRequest → AppState g D → Registry × Result RegistryError Unit → Answer
  stream_created req st (groups, ok _) = (
    also_forwarded (to_cloudwatch (route g st.routing req.log_group_name req.log_stream_name))
        (sv.forward_stream req.log_group_name req.log_stream_name)
        (record st { registry = groups }),
    ok empty_object,
  )
  stream_created req st (groups, err stream_exists) =
      (st, err (already_exists (bytes "log stream")))
  stream_created req st (groups, err group_not_found) = (st, err (not_found (bytes "log group")))
  stream_created req st (groups, err group_exists) =
      (st, err (invalid_parameter (bytes "log group already exists")))

  unfoldable pub create_log_stream : Bytes → AppState g D → Answer
  create_log_stream body st = elim (parse_body sv.read_stream body) [
    | err e ↦ (st, err e)
    | ok req ↦ stream_created req st (
        create_stream (sv.now_ms st.buffers.world) req.log_group_name req.log_stream_name
          st.registry)
  ]

  -- `DescribeLogGroupsRequest::default`
  abbrev pub no_filter : DescribeLogGroupsRequest
  no_filter = record { log_group_name_prefix = none; limit = none; next_token = none }

  abbrev pub groups_request : Bytes → Result ApiError DescribeLogGroupsRequest
  groups_request [] = ok no_filter
  groups_request (b ∷ body) = parse_body sv.read_groups (b ∷ body)

  abbrev pub group_summary : Bytes × ℤ → LogGroupSummary
  group_summary (name, creation_time) = record {
    log_group_name = name;
    creation_time = creation_time;
    arn = bytes "arn:aws:logs:local:000000000000:log-group:" ++ (name ++ bytes ":*");
  }

  unfoldable pub describe_log_groups : Bytes → AppState g D → Result ApiError Response
  describe_log_groups body st = do
    req ← groups_request body
    page ← paginate (describe_groups req.log_group_name_prefix st.registry) req.limit req.next_token
    ok (group_page (record { log_groups = map group_summary page.0; next_token = page.1 }))

  -- `logGroupName`, or else `logGroupIdentifier`.
  abbrev pub named_group : Option Bytes → Option Bytes → Result ApiError Bytes
  named_group (some name) identifier = ok name
  named_group none (some name) = ok name
  named_group none none =
      err (invalid_parameter (bytes "logGroupName or logGroupIdentifier is required"))

  abbrev pub stream_summary : Bytes × ℤ → LogStreamSummary
  stream_summary (name, creation_time) = record {
    log_stream_name = name;
    creation_time = creation_time;
  }

  unfoldable pub describe_log_streams : Bytes → AppState g D → Result ApiError Response
  describe_log_streams body st = do
    req ← parse_body sv.read_streams body
    group ← named_group req.log_group_name req.log_group_identifier
    streams ←
        map_err (λ e. not_found (bytes "log group"))
          (describe_streams group req.log_stream_name_prefix st.registry)
    page ← paginate streams req.limit req.next_token
    ok (stream_page (record { log_streams = map stream_summary page.0; next_token = page.1 }))

  abbrev pub by_action : Bytes → Bytes → Bytes → AppState g D → Answer
  by_action target action body st =
      if eqb action (bytes "PutLogEvents")
      then put_log_events body st
      else if eqb action (bytes "CreateLogGroup")
      then create_log_group body st
      else if eqb action (bytes "CreateLogStream")
      then create_log_stream body st
      else if eqb action (bytes "DescribeLogGroups")
      then (st, describe_log_groups body st)
      else if eqb action (bytes "DescribeLogStreams")
      then (st, describe_log_streams body st)
      else (st, err (invalid_action target))

  abbrev pub on_target : Bytes → Bytes → AppState g D → Option Bytes → Answer
  on_target target body st none = (st, err (invalid_action target))
  on_target target body st (some action) = by_action target action body st

  -- `target` is the header `X-Amz-Target`, if it is there and is text.
  unfoldable pub dispatch : Option Bytes → Bytes → AppState g D → Answer
  dispatch none body st = (st, err missing_action)
  dispatch (some target) body st = on_target target body st (strip_prefix target_prefix target)

  -- The status of `/ready`.
  abbrev pub ready_status : AppState g D → ℕ
  ready_status st = if ready h cfg st.buffers then 200 else 503
