-- ===== src/Lib.antt =====
-- adonisjs-audit-trail: the core of a tamper-evident audit log for AdonisJS.
--
-- An audit event enters the pipeline (src/core/pipeline.ts), which redacts it, keeps it in a bounded
-- circular buffer and writes it in batches to the stores, with retries and a dead-letter handler. A store
-- chains each batch to the head of its stream (src/core/hash_chain.ts): an entry's hash is the SHA-256
-- digest of the canonical JSON text (src/core/canonical_json.ts) of its hashed fields, its sequence number
-- and the hash of the entry before it. Verification recomputes the chain.
--
-- Files, by the code they model:
--   Errors            src/core/errors.ts: one constructor for each error class, and the result type.
--   Types             src/types.ts: the data that the components exchange.
--   Json, Json/*      JavaScript values, JSON data and its text as a sequence of tokens;
--                     src/core/canonical_json.ts is Json/Canonical.
--   HashChain, /*     src/core/hash_chain.ts: pickHashedFields, hashEntry, chainBatch, verifyChain.
--   Pipeline, /*      src/core/pipeline.ts: the private methods on the buffer in Pipeline, the callers of
--                     requestCoupledFlush in Coupled, #writeWithRetry in Retry, enqueue, #flush,
--                     #completeFlush and shutdown in Flushing, and the schedule of all in Machine.
--   Redactor, /*      src/core/redactor.ts: compilePattern, isRedacted, redactValue, createRedactor.
--   Retention         src/core/retention.ts: parseDuration; the retention policy of src/types.ts.
--   LucidStore, /*    src/stores/lucid_store.ts: write, its transaction for each stream and head in
--                     LucidStore, verify over a range in Verify, prune in Prune, query and
--                     resolveSequenceHash in Query.
--   HttpStore, /*     src/stores/http_store.ts: write with #post and #groupByStream in HttpStore, verify in
--                     Verify, prune in Prune.
--   StreamStore, /*   src/stores/stream_store.ts: #writeBatch, #writeEvents, the sidecar, verify.
--   Stores            src/stores/store_manager.ts and src/stores/fanout_store.ts.
--   Anchors           src/core/anchor.ts: onFlush.
--   Notifier          src/core/successful_delivery_notifier.ts: notify.
--   VerifyCommand, /* commands/audit_verify.ts: run and #verifyAnchor, by the exit code.
--   Assembler, /*     src/core/assembler.ts: assembleEvent and what it calls.
--   LogBuilder        src/services/log_builder.ts.
--   AuditService      src/services/audit.ts: #submit, emitLog, emitLogSync.
--   Auditable         src/mixins/auditable.ts: the snapshots and the events captured.
--   SubjectCrypto, /* src/core/subject_crypto.ts: the key stores in KeyStores, encrypt and decrypt.
--   Uuid              src/core/uuidv7.ts.
--   Outbox, /*        src/core/outbox_drainer.ts: the table and #claim, #ack, #fail in Outbox, normalizePayload in
--                     Payload, drain, requeue and stats in Drain.
--   Common, /*        Boolean tests, lists, UTF-16 texts and insertion-ordered maps.
--   Tests, /*         Concrete runs.
--
-- A text is the list of its UTF-16 code units, so `<` on texts is JavaScript's. A Map and the own
-- properties of an object are lists in insertion order. SHA-256, the stores, the router of an event to its
-- store and the redactor are parameters: a digest is any function from texts to texts, and a store at a
-- write is the function that says at which attempt it takes the batch. JSON texts are kept as tokens, so
-- quoting of strings and the formatting of numbers are taken to be injective, as the standard has them.
--
-- The pipeline is a machine: between two awaits a method runs without interruption, each such run is a
-- function from a state to a state, and a schedule is a list of the runs in the order in which the event
-- loop takes them. Loops over the buffer recurse on their count. #writeWithRetry recurses on its five
-- attempts, which is the bound that the code has. The buffer's size is a natural number: the source can
-- leave it below zero in one case only, with dropOldest, when an event is refused after shutdown began while
-- a batch as large as the capacity is being written; there the model stays at zero.
--
-- The outbox is the table that a worker reads and updates; a statement of the database is the function that it
-- means on a list of rows, errors of the database are not modelled, and the clock is a parameter.
--
-- The stores keep the same chain in three ways. The Lucid store's table is a list of rows, from which prune
-- removes the start of a stream and leaves a checkpoint; verify reads it in pages of 500 rows, with as many rounds as
-- the table has rows and one more, which suffices since each page but the last moves past a row. The HTTP
-- store keeps the newest rows of each stream, and the stream store the lines of a file. fetch, the HMAC, the
-- cipher, JSON.stringify and JSON.parse, the clock, the random bytes and the file system are parameters.
--
-- Calls that overlap are modelled for the pipeline only, as a schedule of its uninterrupted runs, with the attempts
-- of one write and their waits as one run; the other operations run to their end. A dead-letter handler returns.
-- `reads` of the Lucid store stands for rowToChainedEvent, toDbTimestamp, toIsoString and the JSON columns.
--
-- Not modelled: timers and delays (a schedule has them at any time), the event emitter, the dead-letter file, of
-- the Lucid store listStreams, the connection and the locks beyond their outcome, of the outbox start, stop and
-- the executor, of the fanout store the reads that pass to the primary, of the mixin its hooks and the
-- emission, the publishers of anchors, and the parts of the package that Files does not list, among them the
-- listener, the configuration, the middleware and the other commands.

pub mod Common
pub mod Errors
pub mod Json
pub mod Types
pub mod HashChain
pub mod Retention
pub mod Pipeline
pub mod Redactor
pub mod LucidStore
pub mod HttpStore
pub mod Anchors
pub mod Notifier
pub mod Stores
pub mod Assembler
pub mod LogBuilder
pub mod AuditService
pub mod Auditable
pub mod StreamStore
pub mod Uuid
pub mod SubjectCrypto
pub mod Outbox
pub mod VerifyCommand
pub mod Tests
