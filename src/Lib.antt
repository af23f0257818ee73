-- ===== src/Lib.antt =====
-- S4 Logs archives CloudWatch log groups in object storage: compressed JSON lines, with two small
-- indexes beside each object that let a reader fetch only what a time range needs. This library
-- models the archive format of crates/s4logs-core, the drain and its repair in crates/s4logs-drain,
-- the requests, the buffer and the write-ahead log of crates/s4logs-gateway, and the pruned read of
-- crates/s4logs-cli.
--
-- The parts, from the format up:
--
-- - Record, Jsonl: crates/s4logs-core/src/record.rs, and `RecordLines` of read.rs. One event as a
--   line of JSON, and the iterator that reads lines back (`record_lines` runs it to its end, on
--   fuel for each byte of the input, which is enough since each round consumes one).
-- - Chunk: crates/s4logs-core/src/chunk.rs. The writer cuts pending lines into zstd frames and
--   keeps the entries of both indexes. Chunk.Frames is the abstract view, a list of frames that lie
--   end to end; Chunk.Steps, Chunk.Encoded and Chunk.Archive relate the writer to it.
-- - TsIndex: crates/s4logs-core/src/tsindex.rs, the S4LT index of each frame's time range.
-- - Layout: crates/s4logs-core/src/layout.rs, the keys of data, indexes and manifests.
-- - Read: the rest of crates/s4logs-core/src/read.rs, the selection of frames and the capped
--   decompression.
-- - Sink, Store: of crates/s4logs-core/src/sink.rs the receipt, the indexes' stamp and the errors, and
--   store.rs, over S3, the answers of the AWS SDK as a parameter. Store.Written.IsBucket is what a
--   bucket is relied on for; the listing runs on fuel of one for each page.
-- - Scan, Cluster, Merge, Sources, Stream: crates/s4logs-cli/src/scan.rs. Scan has the filter and the
--   fetch of frames, Cluster the groups of frames that are decoded together, Merge the k-way merge
--   over any sources of batches, Sources a chunk as such a source (with the fallback without
--   sidecars), Stream the listing and the scan of several groups. Merge.Drained is the merge of plain
--   lists that Merge.Refilled relates the heap and the sources to. `refill` runs on fuel beyond the
--   number of batches of a source, and the loop over the records on fuel beyond their number.
-- - Window: crates/s4logs-drain/src/window.rs, the grid of windows. Times are i64 with wrap-around
--   and saturation written out; the loops run on fuel, and fuel beyond the range's end is enough.
-- - Manifest: crates/s4logs-drain/src/manifest.rs, the object that proves that a window is
--   archived. Cw: of crates/s4logs-drain/src/cw.rs, the errors, the events and the retry loop, on
--   fuel of one more than the configured attempts.
-- - Job, Process: of crates/s4logs-drain/src/job.rs, `WindowWriter` and `process_window`, which
--   turn the events of one window into objects and a manifest.
-- - Shard, DrainRun: the partition of crates/s4logs-drain/src/shard.rs, and of job.rs the run over
--   the windows of a group (on the fuel of Window), its report, and the runs over several groups.
--   Windows and groups that run at once end in an order that is an argument.
-- - Discover: crates/s4logs-drain/src/discover.rs, the groups that a name or a glob selects.
-- - Identity, Reconcile: crates/s4logs-drain/src/reconcile.rs, the 128-bit identities of records, and
--   the repair of an archived window: the archive is read, the window's events are swept again, and
--   what is missing goes into a further attempt and a new manifest.
-- - Retention: crates/s4logs-drain/src/retention.rs, the gate before `PutRetentionPolicy`.
-- - Host: the world of the gateway, a record of operations for its clock, uuids, files, JSON and
--   sink; HasLines says that an entry's JSON is one line that is read back. Host.Sample is an instance.
-- - Wal: crates/s4logs-gateway/src/wal.rs, the segment files and their scan after a crash.
-- - Routing, Registry, Api, Pages, Handlers: crates/s4logs-gateway/src/routing.rs, registry.rs, api.rs
--   and handlers.rs. The actions take the state of the gateway and return it beside the answer. Globs
--   and Services stand for globset, JSON, the wall clock and CloudWatch; Pages.Follow has the client
--   that follows the tokens of a listing, on fuel of one for each request.
-- - Buffer, Flusher: crates/s4logs-gateway/src/buffer.rs. Buffer is the critical section of
--   `push_events`, Flusher the flush of the buffers taken out, their return on a failure, and the
--   methods. `shed` runs on fuel of one for each buffer, enough since a round removes one.
--   Flusher.Lossless has the interleavings of critical sections and flushes as a step relation. Its
--   theorems are those of a gateway without a write-ahead log.
--
-- A method that changes its object returns the new object beside its result, errors included; calls
-- with an effect outside (PUTs, manifests, retention policies) are lists in the result. Code of
-- other crates and of services is a parameter: Crates (serde_json on a record, zstd, crc32c, the
-- S4IX codec) with the laws of Crates.IsLawful, TsIndex.Wire (the byte buffers of the bytes crate),
-- Manifest.ManifestJson (serde_json on a manifest), and the records Outside, Archive and Backend of
-- Job, Process and Retention, and S3, Reader of Store and Sources. Crates.Sample is an instance that keeps the laws.
--
-- Strings are lists of bytes, `usize` has 64 bits, and a u64 counter wraps around. Asynchronous
-- calls are modelled in the order of the source; events of several shards arrive merged.
--
-- Not modelled: the authentication, the metrics and the server of the gateway, theorems on its buffer
-- with the write-ahead log on (the replay is modelled), the paging of a stream shard, the memory
-- sink, the command line with its time arguments and reports, and the adapters of the AWS SDK, which
-- are input and output.
pub mod Prelude
pub mod Window
pub mod TsIndex
pub mod Layout
pub mod Record
pub mod Crates
pub mod Jsonl
pub mod Chunk
pub mod Sink
pub mod Cw
pub mod Manifest
pub mod Drain
pub mod Retention
pub mod Read
pub mod Scan
pub mod Job
pub mod Process
pub mod Host
pub mod Wal
pub mod Buffer
pub mod Flusher
pub mod Identity
pub mod Reconcile
pub mod Shard
pub mod DrainRun
pub mod Routing
pub mod Registry
pub mod Api
pub mod Pages
pub mod Handlers
pub mod Discover
pub mod Merge
pub mod Cluster
pub mod Store
pub mod Sources
pub mod Stream
