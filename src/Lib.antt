-- ===== src/Lib.antt =====
-- Dovecote is a transactional outbox: an application writes events next to its own state, and
-- publishers claim, deliver and settle them. This library models the core crate, crates/dovecote,
-- and the SQLite adapter, crates/dovecote-sqlx-sqlite.
--
-- The parts, and the code that they model:
-- - Base: text as code points with their UTF-8 bytes, integers, lists and Rust's `Result`.
-- - Core/Error (crates/dovecote/src/error.rs), Core/Bounds with Durations and Instants, and
--   Core/Operational (bounds.rs there), Core/Validation with Splitting, TraceContext,
--   Traceparent, Timestamps and Rfc3339 (validation.rs), Core/Value (value.rs), Core/State with Snapshot (state.rs): the
--   values, with the name `new_x` for the constructor `X::new`. Core/Crates is what other crates
--   provide: clocks, URI, MIME, UTF-8 and JSON parsing are its fields, `TimeLaws` and, for RFC 3339,
--   `SpellingLaws` their
--   documented behaviour.
-- - Core/Json, Core/Codecs: JSON values with their members in order, and what prints and parses
--   them, as a parameter. Core/Extension with Durable (extension.rs): names, values, the ordered
--   set, and its durable JSON; Insertion, Validity, RoundTrip, Sound and Exact are about it.
--   Core/Event with Content, Building and Panics (event.rs): the builder, validation and the
--   stored content. Core/Serialization with Absent, Order, Size and Sorting (serialization.rs),
--   and Core/Projection (projection.rs): the two projections of an event. The field `data` of the
--   source is `event_data` here.
-- - Sqlite/Table: the table dovecote_deliveries as the list of its rows, with the SQL statements
--   as functions of a test and an assignment. Table/Schema has the `CHECK` constraints of
--   the baseline migration on a delivery as an invariant, without its foreign key, Table/Keys the
--   primary key, Table/Tenants the rows of one tenant. Sqlite/Stamps is how the stamps of the years
--   1970 to 9999 compare and parse, as a hypothesis of the theorems about time. Core/Widths has the
--   byte lengths that the constructors of texts accept.
-- - Sqlite/Mutation (crates/dovecote-sqlx-sqlite/src/lifecycle_mutation.rs): `mutate_once` reads
--   the operation time, runs one fenced statement, and commits or rolls back. Its children treat
--   the outcome, the schema, the classification of refused rows, the exact result, tenants,
--   durations and retries.
-- - Sqlite/Claim (lifecycle.rs there): `claim_once` selects candidates (Candidates), draws a
--   token for each (Tokens, Prepare), and writes them (Run). Retries has `claim_for_scope`. The
--   other children treat the selection and which deliveries are due, the batch and its tokens, the outcome, the schema, termination, tenants
--   and the fencing of tokens.
-- - Sqlite/Busy (lib.rs there): the busy policy, and the loop that retries a whole operation.
--   Sqlite/Errors (error.rs there): the errors, and the test for a busy database.
-- - Sqlite/DeliveryState and Sqlite/Finalize (delivery_state.rs and finalize.rs there): the
--   finalisation of a migrated delivery in the transaction of the caller.
-- - Sqlite/Store: the tables of events and deliveries, with the invariant of both in
--   Store/Invariant. Sqlite/Hydrate with Rows (hydrate.rs there): events and pages from their
--   rows. Sqlite/Enqueue (enqueue.rs there) and Sqlite/Import (import.rs there): the two writes in
--   the transaction of the caller; their children treat the columns, the outcome, repeated calls
--   and the invariant. Sqlite/Page (page.rs there): pages and the snapshot pager, with Select, Cut,
--   Snapshot, Whole and Tenants about its pages. Core/Paged (state.rs) is the event of a page.
-- - Tests: a concrete clock and table, with runs of the model.
--
-- An asynchronous operation is a function of the committed table. What the environment does is an
-- argument: a record of faults says which database call fails and with what, and what time SQLite
-- reads. A retried operation has one such record for each run, and a function `between` for what
-- other connections commit before it. SQLite has one writer, so a run sees no other. A transaction
-- holds the committed and the written table; an error returns the committed one.
--
-- An enqueue or an import runs in the transaction of its caller, so an error leaves in the store what
-- was written before it; to roll it back is up to the caller. The row id that SQLite draws for a new
-- row is an answer of the environment. The store of a snapshot pager is the one its transaction sees,
-- and does not change.
--
-- Bounds: `retry_loop` and `claim_retries` recurse on the retries left, as the loops count them. The
-- loop of `fresh_token` has no bound of its own: it recurses on the draws to come, and `none` says
-- that it still draws.
--
-- Not modelled: the scopes of the adapter, which forward to these operations, its schema checks
-- and migrations (a live catalogue), the PostgreSQL and MySQL adapters, connection set-up, and
-- test-only failpoints. The `expect` with which the two `format_timestamp` functions take the RFC 3339
-- text of a value is not modelled either: the formatting of the time crate is a function of the model,
-- since the values that reach it were validated, and in UTC within the years 1970 to 9999 it succeeds.
pub mod Base
pub mod Core
pub mod Sqlite
pub mod Tests
