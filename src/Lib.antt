-- ===== src/Lib.antt =====
-- sc-transport moves large files over QUIC. A transfer has two sides. The sender cuts a file into
-- chunks, announces them in a manifest, and sends each chunk in a frame of its own: a length, a
-- descriptor and the bytes, compressed or not. The receiver writes what comes to a `.part` file,
-- notes the indices, may rebuild lost chunks from parity frames, and checks the whole file's hash at
-- the end. A transfer that was interrupted is resumed: the receiver says which chunks it has, by
-- index and by hash, and the sender leaves them out. A daemon queues transfers by priority, runs them,
-- and keeps a log from which it starts again. Beside the transfers, telemetry events about a run go
-- over one of three transports: a fan-out in the process, QUIC streams and QUIC datagrams, where the
-- latter two pass an event on to the fan-out when they cannot send it.
--
-- Which file models which part:
--
-- - Wire: the messages of crates/sct-proto/src/lib.rs. Wire.Frame: `encode`, `decode`,
--   `check_frame_len`, `write_framed` and `read_framed` of crates/sct-core/src/protocol/mod.rs; a
--   stream is the bytes that are still on it. Wire.Codec: what is asked of a codec.
-- - Compress: crates/sct-core/src/compression/mod.rs.
-- - Sender: crates/sct-core/src/sender/mod.rs. The file has the cutting into chunks and the frames
--   (`read_chunk_range`, `chunk_len`, `frame_chunk`, `build_chunk_payload`), and Sender.Skip the
--   choice of the chunks that `send` leaves out, Sender.Adaptive the packets that
--   `send_adaptive` makes and `push_nack_retransmits` sends again. A file is its bytes.
-- - Receiver: crates/sct-core/src/receiver/mod.rs. The file has the parsing of a frame and the
--   writing of a data chunk (`parse_framed_header`, `persist_framed_chunk`), Receiver.Fec the recovery
--   of lost chunks (`try_fec_group_recover` and what it calls), Receiver.Ingest what one frame does
--   (`ingest_wire_frame`), and Receiver.Transfer the handshake, the loop and the end of
--   `accept_transfer`. The `.part` file is its bytes and the size that the storage has for it; the
--   loop is a function of the list of events that the `select!` gets.
-- - Daemon: crates/sct-daemon/src/main.rs, a service that keeps a queue of transfers. The file has its
--   records, its log of events and its queue; Daemon.Recovery what it reads when it starts
--   (`load_records_into_state`), Daemon.Handlers the requests that change the state
--   (`submit_transfer`, `cancel_transfer`, `update_priority`), Daemon.Scheduler the `BinaryHeap`, and
--   the start and the end of a job (`spawn_scheduler`, the end of `run_transfer_job`), Daemon.Progress
--   what a running job reports. Daemon.Steps puts them together as a relation: each handler, each
--   round of the scheduler, and the start, each report and the end of a job are one step.
--   Daemon.Order: which transfer is taken. Daemon.Access has the token and the queries
--   (`require_api_token`, `list_transfers`), Daemon.Paths the places of local copies
--   (`jail_under_base`, `resolve_destination`): a path is its components. The semaphore of tokio is
--   its number of permits, and a `watch` channel its value and its number of receivers.
-- - Reorder: `ReorderBuffer` of crates/sct-core/src/adaptive/mod.rs. Its loop has as many rounds as
--   there are packets, which is enough, since each round takes one out.
-- - Packet: `Packet` and `Block` of crates/sct-core/src/adaptive/mod.rs. Parity: its `FecEncoder`, the
--   packets that wait for the others of their group (`stash_fec_packet`), and the drain of a complete
--   group. Parity.Deliver and Parity.Recovery put the sender's parity together with the receiver:
--   what it does with a parity packet, and how it rebuilds what is lost. Parity.Drain: what leaves the
--   stash. Pipeline: the task of `run_pipeline` that turns packets into blocks with parity.
-- - Multipath: the paths and `MultiPathScheduler` of crates/sct-core/src/adaptive/mod.rs.
--   Multipath.Utility and Multipath.Pick: the estimates, the utilities and the choice of a path of
--   crates/sct-core/src/adaptive/optimization.rs. Multipath.Duplicate, Distribute and Send:
--   `distribute_and_send`, which is given the packets of the pipeline one by one. A path keeps the
--   list of the packets that went out on it, and the clock is an argument. Autopilot: the blocks that
--   `AutopilotRuntime` takes first, and Autopilot.Optimize its `optimize_transfer`, which puts the
--   packets into the order in which they come to the pipeline. Autopilot.Control: the congestion
--   controller, the mode, and what is known of a packet's block.
-- - Telemetry: the events of crates/sc-transport-core/src/lib.rs. Telemetry.Sse: the fan-out of
--   crates/sc-transport-sse/src/lib.rs. Telemetry.Frames and Telemetry.Streams: the frames, the
--   coalescing and `send_event` of crates/sc-transport-quic/src/lib.rs; Telemetry.Batch:
--   crates/sc-transport-quic/src/batch.rs. Telemetry.Datagrams and Telemetry.Datagrams.Send:
--   crates/sc-transport-datagrams/src/lib.rs. MessagePack, a `broadcast` channel, a QUIC connection
--   and JSON values are parameters of these. A counter of events is a number without an end.
-- - Crates: the third-party code that these parts call, as one record of functions: BLAKE3, zstd,
--   bincode and Reed-Solomon. Nothing is assumed of them but what a theorem names: that zstd and
--   bincode decode what they encode, and that an encoded descriptor is short (`IsFaithful`,
--   `ZstdRoundTrips`, Wire.Codec). No theorem assumes that a hash has no collisions.
-- - Base: lists, results, sets, maps and bytes. A `HashSet` of indices is a list to which an index is
--   added once. Base.Float: `f64`, as an interface without laws.
-- - Tests: concrete transfers, and the theorems at work on them.
--
-- Numbers are natural numbers. The conversions to 32 bits and the saturating operations of the
-- source are written out; sums and products of offsets, which the source computes in 64 bits, are
-- not reduced. The loop of the reorder buffer has as many rounds as there are packets, the cutting
-- of a batch as many as there are events, and the write to a stream two, as in the source; the
-- drain of a group and the loop of `optimize_transfer` as many as there are packets and one more;
-- the other loops go over a list.
--
-- Not modelled: the connections themselves (quinn, rustls), the file names of a transfer, the
-- feedback frames and what the sender makes of them, the rest of `run_pipeline`, the forecasts of
-- crates/sct-core/src/adaptive/predictive.rs, crates/sct-core/src/congestion, metrics, and the command
-- line.
-- Of the daemon: the configuration, the routes, the texts of metrics and health, and the work of a
-- job, which is a transfer as above or the copying of a file.
pub mod Base
pub mod Wire
pub mod Crates
pub mod Compress
pub mod Sender
pub mod Receiver
pub mod Daemon
pub mod Telemetry
pub mod Packet
pub mod Parity
pub mod Pipeline
pub mod Multipath
pub mod Autopilot
pub mod Reorder
mod Tests
