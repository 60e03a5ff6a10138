-- ===== src/Lib.antt =====
-- Relay, an MQTT 5.0 message broker.
--
-- The program has two crates. crates/relay-core holds the rules of the protocol without any I/O:
-- topic filters, permissions, the router and the retained messages. crates/relay-server holds the
-- hub, which owns one router, one retained store and the table of the sessions, and which every
-- connection calls. A PUBLISH goes to the router, which names its recipients, and from there into
-- the session of each: its channel, and for QoS 1 and 2 its in-flight queue. Durable writes are
-- queued for a worker thread. Every client has a connection handler, which checks its token, its
-- permissions and its quota, turns its packets into calls of the hub, and at its end publishes the
-- will and detaches the session.
--
-- Files and code:
--   Topic      crates/relay-core/src/topic.rs: `TopicFilter::parse` (parse), `topic_matches`,
--              `SharedSubscription::parse` (parse_shared)
--   Acl        crates/relay-core/src/acl.rs: `can_publish`, `can_subscribe`, `filter_subsumes`
--   Message    crates/relay-core/src/message.rs and crates/relay-core/src/qos.rs
--   Retained   crates/relay-core/src/retained.rs (`remove` is forget)
--   Router     crates/relay-core/src/router.rs
--   Packet     the packets that the hub builds in crates/relay-server/src/hub.rs
--   Retry      `RetryConfig` and `backoff` of crates/relay-server/src/hub.rs
--   Session    `Session` of crates/relay-server/src/hub.rs; Session/Tick has `tick_retries` and
--              `drain_undelivered`
--   Codec      the binary encodings of crates/relay-server/src/hub.rs
--   Storage    crates/relay-server/src/storage.rs: the queued writes; Storage/Tables has the tables
--              of the key-value store as an interface, Storage/Store the operations on them, and
--              Storage/Worker the thread that takes the queue; Storage/EventLog is about `append_event`
--   Auth       crates/relay-server/src/auth.rs: `authenticate`, `audience_allowed`, `substitute`
--   Connection crates/relay-server/src/connection.rs: Connection/Requests has the loops over filters,
--              Connection/Turns the branches of `handle` for each packet, Connection/Serving its loop
--              and its end
--   Hub        `Inner` and the helpers of crates/relay-server/src/hub.rs; Hub/Delivery has
--              `publish` (publish_to_all), Hub/Attach `connect`, `detach` and `purge_if_idle`,
--              Hub/Timers `run_retries`, Hub/Requests what a connection asks for, and Hub/Startup
--              `Hub::new`
--   Ws         crates/relay-server/src/ws.rs: `poll_read`, `poll_write` and `upgrade_callback`
--   Server     crates/relay-server/src/main.rs: the permits and the tasks that serve connections
--   Recovery   the hub, its queue, the storage and `Hub::new` together
--   Bytes      texts as the lists of their UTF-8 bytes, with `from_utf8_lossy`
--   Prelude    tests, lists, association lists for hash maps, and a stable sort;
--              Prelude/Results the results with an error
--
-- Machine integers are natural numbers with their wrap-around written out: packet ids modulo 2^16,
-- attempts modulo 2^32, cursors, client ids and generations modulo 2^64. An operation gets the clock
-- as an argument, and a session's channel is the list of the packets put into it. A hash map is an
-- association list; where the program sorts what it has collected, so do the definitions.
--
-- `tick_retries` walks over its queue by an index; its loop has the length of the queue as fuel,
-- which is enough since every round moves the index or shortens the queue. `decode_inflight` has the
-- length of the blob as fuel, which is enough since every entry takes at least a byte.
-- `substitute` has one round more than the pattern has bytes, which is enough since every round takes
-- a placeholder off; the pruning of the event log has the number of rows, since every round takes one
-- off.
--
-- The `expect` of `connect` is a result of the definitions; that of `allocate_id` is not, and what it
-- demands of the counter is an invariant of the sessions.
--
-- Each operation of the hub is one atomic step, though the program releases its locks in between.
-- Scheduled purges and queued writes are lists in the state. A connection is a run over the events
-- it sees, each with the time at which it is handled and whether the client takes the reply; a server
-- is a run over what its connections see, in any order.
--
-- Assumed of libraries, as parameters: the key-value store keeps a table's rows in the order of their
-- keys (`TableOf` and `Database`, which Storage/Listed implements by lists); the token library is given
-- the `Validation` of the source and says which claims a token has, or what is wrong with it, and what
-- it documents of an accepted token is `IsChecking`. A transaction of the worker may fail.
--
-- Not modelled: the parts that are input and output alone (config.rs, tls.rs, dashboard.rs and the
-- listeners of main.rs in crates/relay-server/src), logging, and the frames on the wire: what a client
-- sends is a packet, bytes that do not decode, or the end of the stream. The wire format, the
-- key-value store, the token library and the clocks are libraries.
mod Prelude
pub mod Bytes
pub mod Topic
pub mod Acl
pub mod Message
pub mod Router
pub mod Retained
pub mod Packet
pub mod Retry
pub mod Session
pub mod Codec
pub mod Storage
pub mod Hub
pub mod Auth
pub mod Connection
pub mod Recovery
pub mod Server
pub mod Ws
