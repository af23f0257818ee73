-- ===== src/Handlers/Created.antt =====
-- What the gateway of crates/s4logs-gateway/src/handlers.rs forwards when a group and a stream of it
-- are created.
use s4_logs.Prelude.{true, none, some, List, [], ◌∷◌, ◌≡◌, refl, sym, subst, Bool-cases, inl, inr}
use s4_logs.Prelude.Text.{Bytes, eqb, eqb_refl}
use s4_logs.Prelude.Order.{leb_bytes}
use s4_logs.Prelude.Result.{ok}
use s4_logs.Host.{Host}
use s4_logs.Buffer.{BufferConfig}
use s4_logs.Routing.{Globs, to_cloudwatch, route}
use s4_logs.Routing.Forwarding.{group_may_reach_cloudwatch-route}
use s4_logs.Registry.{
  GroupEntry, get, insert_key, new_group, add_stream, create_group, create_stream, create_stream_in,
}
use s4_logs.Api.{CreateLogGroupRequest, CreateLogStreamRequest, empty_object}
use s4_logs.Handlers.{Services, AppState, Answer, create_log_group, create_log_stream}

get-insert_key :
    {V : Type 0} (k : Bytes) (v : V) (es : List (Bytes × V)) → get k (insert_key k v es) ≡ some v
get-insert_key k v [] = rw (eqb_refl k) refl
get-insert_key k v ((n, w) ∷ es) = elim (Bool-cases (eqb k n)) [
  | inl same ↦ rw (same) (rw (same) refl)
  | inr other ↦ elim (Bool-cases (leb_bytes k n)) [
    | inl before ↦ rw (other, before) (rw (eqb_refl k) refl)
    | inr after ↦ rw (other, after) (rw (other) (get-insert_key k v es))
  ]
]

module _ {D : Type 0} (h : Host D) (cfg : BufferConfig) (g : Globs) (sv : Services D) where
  group_lem :
      (body : Bytes) (req : CreateLogGroupRequest) (stream : Bytes) (st : AppState g D)
      → sv.read_group body ≡ ok req
      → get req.log_group_name st.registry ≡ none
      → to_cloudwatch (route g st.routing req.log_group_name stream) ≡ true
      → create_log_group h cfg g sv body st ≡ (
        record st {
          registry =
              insert_key req.log_group_name (new_group (sv.now_ms st.buffers.world)) st.registry;
          buffers = record st.buffers {
            world = (sv.forward_group req.log_group_name st.buffers.world).0;
          };
        },
        ok empty_object,
      )
  unfolding create_log_group create_group
  group_lem body req stream st reads new routed =
      let reach = group_may_reach_cloudwatch-route g st.routing req.log_group_name stream routed in
      rw (create_log_group, reads, create_group, new, reach) refl

  stream_lem :
      (body : Bytes) (req : CreateLogStreamRequest) (entry : GroupEntry) (st : AppState g D)
      → sv.read_stream body ≡ ok req
      → get req.log_group_name st.registry ≡ some entry
      → get req.log_stream_name entry.streams ≡ none
      → to_cloudwatch (route g st.routing req.log_group_name req.log_stream_name) ≡ true
      → create_log_stream h cfg g sv body st ≡ (
        record st {
          registry =
              insert_key req.log_group_name
                (add_stream (sv.now_ms st.buffers.world) req.log_stream_name entry)
                st.registry;
          buffers = record st.buffers {
            world = (sv.forward_stream req.log_group_name req.log_stream_name st.buffers.world).0;
          };
        },
        ok empty_object,
      )
  unfolding create_log_stream create_stream
  stream_lem body req entry st reads there new routed =
      rw (create_log_stream, reads, create_stream, there, create_stream_in, new, routed) refl

  -- Both calls succeed; CloudWatch is told of the group by the first and of the stream by the second,
  -- and the registry has both.
  abbrev pub IsCreated :
      Bytes → Bytes → AppState g D → Answer h cfg g sv → Answer h cfg g sv → Type 0
  IsCreated group stream st (st1, answer) (st2, answer') =
      let told = (sv.forward_group group st.buffers.world).0 in
      (answer ≡ ok empty_object)
      × (st1.buffers.world ≡ told)
      × (answer' ≡ ok empty_object)
      × (st2.buffers.world ≡ (sv.forward_stream group stream told).0)
      × ((entry : GroupEntry) × (get group st2.registry ≡ some entry)
          × (get stream entry.streams ≡ some (sv.now_ms told)))

  -- If the batches of a stream are routed to CloudWatch and its group is not registered,
  -- `create_log_group` and then `create_log_stream` succeed, whatever CloudWatch answers; the
  -- first tells CloudWatch of the group and the second of the stream, in that order and nothing
  -- else, and the registry then has the stream in the group; the two bodies are read as requests
  -- for that group and that stream.
  pub create_log_stream-create_log_group :
      (body body' group stream : Bytes) (st : AppState g D)
      → sv.read_group body ≡ ok (record { log_group_name = group })
      → sv.read_stream body' ≡ ok (record { log_group_name = group; log_stream_name = stream })
      → get group st.registry ≡ none
      → to_cloudwatch (route g st.routing group stream) ≡ true
      → IsCreated group stream st
          (create_log_group h cfg g sv body st)
          (create_log_stream h cfg g sv body' (create_log_group h cfg g sv body st).0)
  create_log_stream-create_log_group body body' group stream st reads reads' new routed =
      let made = group_lem body (record { log_group_name = group }) stream st reads new routed in
      let fresh = new_group (sv.now_ms st.buffers.world) in
      let groups = insert_key group fresh st.registry in
      let told = (sv.forward_group group st.buffers.world).0 in
      let st1 : AppState g D = record st {
        registry = groups;
        buffers = record st.buffers { world = told };
      } in
      let entry = add_stream (sv.now_ms told) stream fresh in
      subst (λ z. IsCreated group stream st z (create_log_stream h cfg g sv body' z.0)) (sym made)
        (subst (IsCreated group stream st (st1, ok empty_object))
          (sym (
            stream_lem body' (record { log_group_name = group; log_stream_name = stream }) fresh st1
              reads' (get-insert_key group fresh st.registry) refl routed))
          (
            refl,
            refl,
            refl,
            refl,
            (entry, get-insert_key group entry groups, get-insert_key stream (sv.now_ms told) []),
          ))
