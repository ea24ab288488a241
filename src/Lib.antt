-- ===== src/Lib.antt =====
-- The event store: aggregates whose events are appended to hash-chained streams, an outbox that
-- hands them on, and an adapter that keeps both in SQLite.
--
-- A command goes to the aggregate runtime, which loads the aggregate's state from its cached row
-- and the events after it, asks the decider for new events, encodes them and appends them. The
-- adapter writes the events, their uniqueness claims, one outbox row for each event and the new
-- cached state in one transaction. The drain reads the outbox and calls the publisher.
--
-- The files and the code that they follow:
--   Base: helpers. Base/Errors is Go's (value, error) result, Base/Bytes its strings and byte
--     slices, Base/Bits two facts on the bit operations that es/chain.go compares digests with.
--   Es: package es. Es/Error is es/errors.go; Es/StreamId is es/streamid.go (Validate, Canonical,
--     ParseCanonical); Es/Envelope has the values of es/envelope.go, es/command.go, es/actor.go and
--     es/state_cache.go; Es/Chain is es/chain.go (ComputeChainHash, VerifyStreamChain,
--     RebuildStreamChain, equalHash); Es/Wire has what they take from outside.
--   Sqlite: adapters/storage/sqlite. Sqlite/Tables has the tables as lists of rows and the queries
--     of internal/db; Sqlite/Append is append.go, Sqlite/Read is read.go and convert.go,
--     Sqlite/Outbox is outbox.go, Sqlite/Dlq is outbox_admin.go and Sqlite/Adapter is
--     state_cache.go. Sqlite/Sound says when a table of events is well formed, and the files under
--     Sqlite/Append keep it so. Sqlite/EventLog says what es.Store promises, without tables or
--     hashes, Sqlite/Aggregates joins the runtime of aggregate/runtime.go to the adapter, and
--     Sqlite/Processed is dedup.go under WithDedup of projection/dedup.go.
--   Aggregate: aggregate/runtime.go over the interfaces of es/store.go and es/decider.go.
--     Aggregate/Runtime is Load, Aggregate/Handle is Handle, Aggregate/Cache is about both.
--   Outbox: outbox/drain.go. Outbox/Backoff is computeNextAttemptAt and streamShard, Outbox/Drain
--     is runBatch with the loop of Run, Outbox/Run is Run, RunOnce and the lock around them.
--   Projection: projection/runtime.go (RunOnce) and projection/dedup.go (WithDedup). The world that
--     they act on holds the store, the checkpoints and the read model.
--   CmdWorkflow: cmdworkflow. CmdWorkflow/Subscriber is subscriber.go with Register and With of
--     bus.go, CmdWorkflow/Codec is codec.go, CmdWorkflow/Bus has the types of bus.go with runRetries
--     and the filter, CmdWorkflow/Dispatch its steps, CmdWorkflow/Futures the loop over the Sync
--     subscribers and CmdWorkflow/HandleCmd HandleCmd, DispatchAsync and spawnAsync.
--     CmdWorkflow/Durable has what runtime.go asks of a durable engine, CmdWorkflow/Inproc is
--     adapters/cmdworkflow/inproc/runtime.go, and CmdWorkflow/Replay is about a replay.
--   Shred: shred. Shred/Cache is cache.go, Shred/Field the wire format of a field and Shred/Shredder
--     the Shredder of shred.go without RewrapDEKs, which is Shred/Rewrap; Shred/SubjectTable is
--     adapters/storage/sqlite/shred.go with its queries. Shred/Forgotten, Shred/RewrapStays,
--     Shred/Stays and Shred/Erased are about ForgetSubject, Shred/Stale, Shred/RewrapEnds and
--     Shred/RewrapDone about RewrapDEKs.
--   Examples: Examples/Order is OrderDecider of examples/orderfulfillment/decider.go.
--   Tests: small instances of the parameters, and the theorems at concrete inputs.
--
-- A function that changes a database takes it and returns it; a transaction that fails gives back
-- the one that it started from. A Go error is a value of Es/Error. Versions are uint64 and wrap at
-- 2^64 where the code adds to them; positions and attempts are native numbers, since the columns
-- and the filters of the queries keep them in range; durations are 64-bit patterns.
--
-- Fuel: the number of batches that the loop of Run makes, where the theorem is one of safety and
-- holds for any number of batches, so for every run that ends and for every prefix of one that does
-- not; the passes of runRetries, for which two more than the number of retries are enough; the
-- passes of RewrapDEKs, of which one more than there are stale keys are enough, and which a sequence
-- of calls of the Shredder gives for each call, so that it has an end only where they suffice; and the depth of the
-- HandleCmd calls that Compensate nests, which nothing in the code bounds. In CmdWorkflow a call
-- that has used up its fuel, or that panics, has no result.
--
-- Parameters that stand for code outside the repository: SHA-256, deterministic protobuf
-- marshalling, the text of a UUID and the functions jsonb and json of SQLite (the record Wire, with
-- the law asked of SHA-256 in HasDigests), and the clock of SQLite. The texts of actors and times
-- are made by functions of adapters/storage/sqlite/convert.go over protojson and the package time;
-- they are parameters of Wire too, with their round trips in RoundTrips, where times are those of
-- the years up to 9999. The codecs and the PII methods, which are generated for each application,
-- are parameters, with their laws in ReadsBack of Sqlite/Aggregates/Encoded: a cached state goes
-- through jsonb when it is written, which fails for what is not JSON, and through json when it is
-- read. What EncryptPII changes, the Shredder's cached and stored keys, is a state of its own beside
-- the tables of the store, which Handle takes and returns. The publisher and the clock of the drain
-- are functions of the number of calls made so far. The durable engine of the command bus is a
-- parameter under the laws of CmdWorkflow/Durable; gob, uuid, path.Match and the subscribers'
-- functions are parameters, and so are the key store and AES-GCM of Shred, the latter with its laws
-- in AeadLaws.
--
-- Not modelled: calls of one Shredder that overlap; the panic of streamShard where the number of
-- shards is a positive multiple of 2^32; the postgres adapter, whose guarantees rest on locks and policies in the database;
-- linked projections, the retention sweep and the data export of shred, the KMS adapters, the bindings of the
-- command bus to DBOS and Restate, the other example aggregates;
-- generated code; the command line tools; cancellation, tracing and metrics; failures of BEGIN and
-- COMMIT.
pub mod Base
pub mod Es
pub mod Sqlite
pub mod Aggregate
pub mod Tests
pub mod Outbox
pub mod Projection
pub mod Examples
pub mod CmdWorkflow
pub mod Shred
