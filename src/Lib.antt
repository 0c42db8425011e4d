-- ===== src/Lib.antt =====
-- excalibase-watcher: change data capture from PostgreSQL and MySQL to NATS JetStream.
--
-- A listener reads the database's log, turns each change into an event and hands it to the bus
-- (internal/cdc). The publisher (internal/nats) is a subscriber of the bus: it sends the events to
-- the broker, and calls the listener back after each ack. A listener confirms a position of the log
-- to its database only when all events before it are acked, so that a crash replays what was not
-- stored; the message ids that a replay repeats let the broker drop what was.
--
-- Which file models which part, with the paths from the repository's root:
--
-- Base: the names all files share, and numbers, lists and strings as the program uses them. A Go
--   string is a list of bytes.
-- Jsonutil: internal/jsonutil/escape.go. The runes of `range` and the encoding of `WriteRune` are
--   those of UTF-8. Jsonutil/RoundTrip has a reader of JSON strings beside it.
-- Cdc/Event: internal/cdc/event.go and publishable.go; one constructor for each event type.
-- Cdc/Service: internal/cdc/service.go. The service is a record, each method a function on it. A
--   send on a full channel goes through a list of wake-ups (the consumer took an event, the
--   subscription was cancelled, or 100 ms passed and the flag of a closed service was read); where
--   the list ends, the caller is still blocked, and the result is `none`. Cdc/Service/Delivery and Registry hold the proofs.
-- Schema: the records of internal/schema/history.go, and Schema/Store its file store: a cache and the
--   files of its directory, by key. Schema/Store/History has the proofs.
-- Postgres/AckGate: internal/postgres/ackgate.go, with its counters in 64 bits. AckGate/Entries and
--   AckGate/Invariant follow its list of commits against the log of all commits.
-- Postgres/Parser: internal/postgres/parser.go: Reader the `reader`, Tuple the row images, Messages
--   `Parse` and the message kinds. Image describes the row images of a message by themselves; Bounds,
--   Reads, Fields, Truncates and Filter have the other proofs.
-- Postgres/Listener and Postgres/Streaming: `emit`, `handleMessage`, `handleKeepalive`,
--   `handleXLogData`, `sendStatus` and `maintainHeartbeatAndStatus` of internal/postgres/listener.go.
--   A call takes the listener and the bus and returns both; Streaming/Confirmed has the proofs.
-- Postgres/Pipeline: the listener, the bus and the publisher's calls as a step relation, for every
--   bus with the laws of the record `Bus`; Pipeline/ServiceBus shows that the service is one. The
--   publisher may give up on an event; it stays subscribed, and the bus is not shut down, in this
--   relation.
-- Postgres/Lag, Postgres/Startup: internal/postgres/lag.go and dbwait.go.
-- Postgres/Slots: internal/postgres/slotstats.go and slotcleanup.go; Slots/Cleanup and Slots/Sampler
--   the proofs.
-- Postgres/Reconnect: `connectAndStream` and `listenLoop` of internal/postgres/listener.go, over a list
--   of connections and, for each, a list of rounds of the receive loop; Reconnect/Monotone the proofs.
-- Postgres/Setup: internal/postgres/setup.go and `recreateUnusableSlot`; Setup/Recreate the proofs.
-- Postgres/Start: `Start` and `Stop` of internal/postgres/listener.go with the ownership of the slot, as
--   the lists of their calls; Start/Lifecycle the proofs.
-- Postgres/ConnString: the replication parameter of a connection string, in
--   internal/postgres/listener.go; ConnString/Strip the proofs.
-- Postgres/Snapshot: internal/postgres/snapshot_chunked.go, and `validateIdentifier`. The database
--   answers a query, given by its text and arguments, with rows or an error. Snapshot/Sql
--   has the texts of the queries and what they mean; Snapshot/Complete and Snapshot/Stops have the
--   proofs.
-- Postgres/Dump: internal/postgres/snapshot_dump.go; Dump/Rows, Dump/Columns and
--   Dump/Blocks have a printer of COPY blocks and the proofs.
-- Nats/Subject, Nats/Publisher: internal/nats/publisher.go. What each attempt to publish meets is a
--   list; where it ends, the publisher still tries. Nats/Backoff: internal/nats/connection.go.
-- Nats/Stream: how the publisher starts and waits for its stream, in internal/nats/publisher.go and
--   connection.go, over a list of attempts; Stream/Awaits the proofs.
-- Mysql/CommitGate: internal/mysql/ackgate.go; CommitGate/Newest has its history and the proofs.
-- Mysql/Handler: the event handler of internal/mysql/listener.go, and Handler/Values its row images.
-- Mysql/Dump: internal/mysql/snapshot_dump.go.
-- Mysql/Offsets: internal/mysql/offset.go, and the start position and the offset saver of
--   internal/mysql/listener.go. A call of `Save` gets how far the file system lets it come, which is
--   also how a crash is told. Offsets/Settled, Offsets/Session and Offsets/Resume have the proofs.
-- Health: internal/health/health.go, over the state that its callbacks read; Health/Ready the proofs.
-- Config: internal/config/config.go; Config/Modes the proofs.
-- Main: main.go. A run is the list of the actions on the parts, with the deferred ones; Main/Shutdown,
--   Main/Wiring and Main/Probes have the proofs.
-- Tests: the theorems at concrete inputs.
--
-- Bounds: LSNs, binlog positions and times are numbers; the counters of the gates, the retained WAL
-- and the received LSN wrap around at 2 ^ 64 as `uint64` does, the server id and the position of a
-- rotate event at 2 ^ 32. Theorems on a gate ask that fewer than 2 ^ 64 events were handed over. The
-- loops of the chunked snapshot take fuel, a number of rounds, and one more round than the table has
-- rows is enough. No other definition needs it: loops run over lists, over a counter that the message
-- carries, or over the list of what the environment does.
--
-- Parameters, as they are not the program's code: `json.Valid`, the decoders of pglogrepl, the
-- printing of an LSN, the regular expressions, random numbers, the clock's reading, viper,
-- encoding/json on an offset or a history, and the answers of the file system, of the database, of the
-- broker and of canal. `Event.Truncated` of internal/cdc/truncate.go is a
-- parameter of the publisher, since what it keeps is the JSON package's work.
--
-- Not modelled: metrics and TLS, which only call their libraries; `Start` of the MySQL listener and
-- `Stop` of the publisher; the SQL of the slot's owner, of the catalogue queries and of the DDL
-- triggers; the JSON encoding of responses; locks and logging.
pub mod Base
pub mod Jsonutil
pub mod Cdc
pub mod Schema
pub mod Health
pub mod Config
pub mod Main
pub mod Postgres
pub mod Nats
pub mod Mysql
pub mod Tests
