-- ===== src/Handlers/Tests.antt =====
-- A table whose second rule sends one stream of a group to CloudWatch, which refuses what it is told;
-- a pattern is a prefix.
use s4_logs.Prelude.{[], ◌∷◌, ◌++◌, true, ◌≡◌, refl}
use s4_logs.Prelude.Int.{pos}
use s4_logs.Prelude.Text.{Bytes, bytes, starts_with}
use s4_logs.Prelude.Result.{Result, ok, err}
use s4_logs.Buffer.{default_buffers}
use s4_logs.Flusher.{new_manager}
use s4_logs.Host.Sample.{Mem, sample}
use s4_logs.Routing.{Globs, RoutingConfig, s3, cloudwatch, to_cloudwatch, route, first_match}
use s4_logs.Handlers.{
  Services, ForwardError, api_failed, AppState, create_log_group, create_log_stream,
}
use s4_logs.Handlers.Created.{IsCreated, create_log_stream-create_log_group}

abbrev prefixes : Globs
prefixes = record { Matcher = Bytes; compile = λ s. ok s; is_match = starts_with }

abbrev config : RoutingConfig prefixes
config = record {
  default_action = s3;
  rules =
      record { group = bytes "a"; stream = bytes "debug"; action = s3 }
      ∷ record { group = bytes "a"; stream = bytes "e"; action = cloudwatch }
      ∷ [];
}

-- What CloudWatch is told, as a file.
abbrev told : Bytes → Bytes → Mem → Mem × Result ForwardError Unit
told op name d =
    (record d { files = (op, name) ∷ d.files }, err (api_failed op (bytes "access denied")))

abbrev services : Services Mem
services = record {
  now_ms = λ d. pos 7;
  forward_batch = λ group stream events. told (bytes "PutLogEvents") (group ++ stream);
  forward_group = told (bytes "CreateLogGroup");
  forward_stream = λ group stream. told (bytes "CreateLogStream") (group ++ stream);
  read_put = λ body. err (bytes "not a batch");
  read_group = λ body. ok (record { log_group_name = body });
  read_stream = λ body. ok (record { log_group_name = bytes "app"; log_stream_name = body });
  read_groups = λ body. err (bytes "no page");
  read_streams = λ body. err (bytes "no page");
}

abbrev gateway : AppState prefixes Mem
gateway = record {
  routing = config;
  buffers = new_manager (record { files = []; refuses = 0 });
  registry = [];
}

routed : to_cloudwatch (route prefixes config (bytes "app") (bytes "errors")) ≡ true
unfolding route first_match
routed = refl

create_log_stream-create_log_group_example :
    IsCreated sample default_buffers prefixes services
      (bytes "app")
      (bytes "errors")
      gateway
      (create_log_group sample default_buffers prefixes services (bytes "app") gateway)
      (create_log_stream sample default_buffers prefixes services
        (bytes "errors")
        (create_log_group sample default_buffers prefixes services (bytes "app") gateway).0)
create_log_stream-create_log_group_example =
    create_log_stream-create_log_group sample default_buffers prefixes services (bytes "app")
      (bytes "errors") (bytes "app") (bytes "errors") gateway refl refl refl routed
