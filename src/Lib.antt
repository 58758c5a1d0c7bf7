-- ===== src/Lib.antt =====
-- RiscDom: the audit chain, the parts of the net layer that decide, the loop of the agent and the
-- requests that wait at the host, modelled on the Rust crates `audit`, `net`, `agent` and `host-core`.
--
-- The program runs agents on a host and keeps a record of what they do. `agent` drives a model through
-- tool calls until it answers, and `host-core` queues what may not be done unasked. `audit` holds the
-- record: an append-only SQLite table whose rows are chained by hashes, and segments, which are chains
-- of their own that a node writes while it stands in for an unreachable centre and that are merged
-- later. `net`
-- holds what the nodes tell each other, by signed messages: a guard against replayed messages, probes
-- of the other nodes and the reports about them, the judgement of the witnesses, the machine that
-- decides when a node stands in, the checks of a segment that is delivered to the centre, and the
-- centre itself, a relay that routes frames, keeps who is online and hands out its registry.
--
-- Which file models what (a component's proofs and tests are in the modules below its file):
--   * Event: `AuditEvent` and `StoredEvent` of audit/src/event.rs, `RawRow` of audit/src/store.rs.
--   * Chain: audit/src/hash.rs, `compute_hash` and `verify_chain`.
--   * Segment: audit/src/segment.rs, the words and the details of segments and `safe_owner`.
--   * Store: audit/src/store.rs, `append_once`, `append_with` and `append`; Store.Segments has
--     `open_segment`, `open_segment_for`, `close_segment` and `adopt_segment`, Store.Merge has
--     `merge_segment` with what it calls. Store.Runs has a run of any such calls.
--   * Runs: audit/src/run.rs, `run_interval`, `run_end` and `abandoned_end`; Runs.Derive has
--     `derive_runs_from`.
--   * Rooms: net/src/rooms.rs, `check_rooms`, `RateCounters`, `room_names_for`; Rooms.Published has
--     `merge_rooms`.
--   * Replay: net/src/replay.rs, `ReplayGuard`.
--   * Prober and Witness: net/src/liveness.rs, `Prober` and `WitnessTable`.
--   * Suppression: net/src/suppression.rs, `Suppression`, `first_in_line` and `is_first_in_line`.
--   * Delivery: net/src/suppression.rs, `verify_delivery` and `verify_linkage`; Delivery.Sender has
--     `segment_frames` of host-core/src/state.rs.
--   * Peers: net/src/peers.rs, `PeersFile` and the keys read from it, and `PeerKeys` of net/src/sign.rs.
--   * Sign: net/src/message.rs and net/src/sign.rs, `SignedMessage`, `check_identity`, `verify_at` and
--     `authenticate_forwarded`.
--   * Frames: the bodies of net/src/relay.rs, net/src/liveness.rs, net/src/registry.rs and
--     net/src/task.rs with what reads them, and `Local::of`.
--   * Discovery: net/src/discovery.rs and net/src/registry.rs, the filter of rooms, `merge_table`,
--     `consider_announcement` and the registry as a body.
--   * Online, Sessions, Routing and Server: net/src/relay.rs, `OnlineTable`, `SessionTable`, `route`
--     and `RelayServer`. A call of Server is a frame that is routed or answered, a session that is
--     bound or retired, or a set of peers or rooms that is published.
--   * Agent: agent/src/agent.rs, `AgentLoop::run` and `trim_context`, with the messages of
--     agent/src/message.rs; Agent.Text has `truncate`, Agent.Config the checks of agent/src/config.rs,
--     Agent.Policy agent/src/policy.rs on the paths of Unix, Agent.Sse agent/src/sse.rs, and
--     Agent.Stream the reading of a stream in agent/src/llm.rs.
--   * Requests: host-core/src/sandbox_request.rs, `SandboxRequests` and `derive_requests_from`, with
--     `request_sandbox`, `approve_sandbox_request`, `reject_sandbox_request` and
--     `restore_pending_requests` of host-core/src/state.rs, and the rows that they write; whether the
--     sink takes a row, which `emit_m_action` does not look at, is an argument.
--   * Json: what the crates use of `serde_json::Value`, an interface that the definitions take as an
--     instance argument, with lists as a second one; `ObjectLaws` there, Store.Once for the store and
--     Delivery.Sent for the sender name what is relied on of it.
--   * Prelude: lists, maps, texts, machine integers and tests that the components share.
--
-- State is passed on: an operation takes the state and gives the state after it, with its result in
-- front where it has one. A store holds its rows, its segments table and what the database will answer
-- to the writes to come, so that a statement about every store is one about every way in which writes
-- are refused; an operation of it gives a `Result` and the store. A refused transaction changes
-- nothing. What the relay does to the outside, a push down a session or a transition told to its
-- sink, is a list of effects. An i64 is an integer with the wrap-around of a build without overflow
-- checks written out (`wrap_i64`), the saturating operations clamp, and a u64 is a number modulo 2^64.
-- A map is an association list in the order of its keys. Clocks are arguments: an operation that reads
-- the clock twice takes two instants.
--
-- Decimals are written with a fuel of 20 digits, which an i64 or a u64 does not need more of. The loop
-- of `free_segment_id` has the 2^32 - 2 suffixes of the source. The loop of `AgentLoop::run` has a fuel
-- of iterations, of which more than the cap are enough (Agent.Ending). The other loops go down a list
-- or the attempts left.
--
-- SHA-256 is a parameter (`sha256_hex`), and so are the text of a library's error (`show_error`),
-- what opening a segment's own file finds (`segment_store`) and what `{:?}` writes of a list of texts
-- (`show_texts`). Of the signatures, `KeyLibrary` in Peers has the base64 decoder and the signature
-- library, `World` in Sign the JSON text of a message and the node's own key, and `Codec` in Discovery
-- the JSON of entries and rooms that `serde` derives. A socket is the id of its session, and what a
-- write to it answers is an argument (`Write` in Routing). The agent's model and tools are an
-- interface (`Env` in Agent) over a world of their own, and `read_chunk` in Agent.Stream is the JSON of
-- a chunk.
--
-- Not modelled: the opening and migration of a database, reads that fail, the pauses between attempts,
-- mutexes (each call is one critical section, and none is poisoned but the agent's slot of a machine),
-- the run index and the exports of the store, run fingerprints, files and their versions, sockets,
-- threads and the clients of the relay, the tools and the compiler of the agent, HTTP, the rest of the
-- host, and the crates of the sandbox, the worker, the backup, the command line and the SDK.
pub mod Agent
pub mod Requests
pub mod Prelude
pub mod Replay
pub mod Prober
pub mod Witness
pub mod Suppression
pub mod Json
pub mod Online
pub mod Sessions
pub mod Frames
pub mod Peers
pub mod Sign
pub mod Routing
pub mod Discovery
pub mod Server
pub mod Event
pub mod Segment
pub mod Chain
pub mod Store
pub mod Delivery
pub mod Rooms
pub mod Runs
