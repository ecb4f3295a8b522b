-- ===== src/Lib.antt =====
-- A verification library for the backend's write paths (the lifecycle of well tests, and the
-- ingestion of telemetry with the projection of live readings and the evaluation of alarms), its
-- reads of trends, latest values and alarms, and for the telemetry of the web application (the
-- socket adapter, the store, the alarm centre, and the logic of the operations page and its
-- charts).
--
-- Parts and files, with their code:
-- - WellTests: apps/backend/src/well-tests and the table of
--   apps/backend/prisma/migrations/20260530000000_f4_7_well_tests. Contracts has the enumerations
--   and the refinements of the schemas (contracts/well-tests.ts), Table the row and its CHECK
--   constraints, Service the writes `create`, `connect`, `startStabilization`, `startOfficial`,
--   `endOfficial`, `abort` and `close`, and Reads the reads `list`, `getById` and `getActive`. A
--   method takes the table and the server's clock and returns the new table with the wire row, or
--   an error. Lifecycle joins the six transitions in `perform`; its child modules have the graph of
--   the lifecycle (Edges), the database's constraints (Constraints), the tables reached by
--   sequences of calls (Soundness) and the rule of one active test (Overlap). Requests is about
--   schemas and reads.
-- - Store: what the write path of telemetry shares. Rows has the rows of
--   apps/backend/prisma/schema.prisma, Effects code over the database: numbered calls that may
--   throw, transactions that restore the tables, and the log of the events handed to the emitter.
--   Frames and Endings have the rules for what a piece of code leaves alone and how it ends.
-- - Realtime.Events: the payloads of packages/types/src/realtime.ts and the descriptors of
--   apps/backend/src/realtime/realtime-emitter.service.ts; Realtime.Emitter: `emitMany` of that
--   file. Realtime.Gateway: the requests and the rooms of
--   apps/backend/src/realtime/realtime.gateway.ts.
-- - Telemetry.Projection: `updateFromAcceptedTelemetry` of
--   apps/backend/src/telemetry/projection/live-readings-projection.service.ts. Watermark is about
--   calls during which nobody else commits, Races about calls that others interrupt, and Leaves
--   about the row that is left in both.
-- - Alarms.Evaluation: `evaluate` of apps/backend/src/alarms/alarm-evaluation.service.ts.
-- - Alarms.Reads: the request, the response and `query` of
--   apps/backend/src/alarms/contracts/events.ts and
--   apps/backend/src/alarms/alarm-events-read.service.ts.
-- - Telemetry.Trends: apps/backend/src/telemetry/contracts/trends.ts and the query of
--   apps/backend/src/telemetry/trends.service.ts, its SQL included: `date_bin` and
--   `generate_series` are functions on milliseconds, in a session in UTC. Grid, Partition and Scope
--   have its proofs.
-- - Telemetry.Latest: apps/backend/src/telemetry/contracts/latest.ts and the query of
--   apps/backend/src/telemetry/latest.service.ts over the rows that the projection writes.
--   Telemetry.Resolver is apps/backend/src/telemetry/canonical-tag-resolver.ts, which the three
--   reads call, with `resolve_tag` for the two of them whose request may name no tag.
-- - Telemetry.Ingestion: apps/backend/src/telemetry/ingestion/telemetry-ingestion.service.ts.
--   Contracts has the request and the result, Readings the insert under the two unique indexes,
--   Resolution `resolveSensorAndTag`, Quarantine `writeQuarantine` and `quarantineResult`, Storing
--   the transaction and `classifyDedup`, Service the guards of `processSample` and `ingestBatch`.
--   Within the transaction of a sample the ingestion calls the projection and the alarm evaluation,
--   and hands their events to the emitter after the commit.
-- - Web: apps/web/lib. Models has the types of telemetry/models.ts, jobs/types.ts and
--   alarms/types.ts, and `Platform`, the calls of the JavaScript runtime. Wire is the parser of
--   telemetry/adapters/websocket.ts, and Adapter the class of that file: its fields, the runtime's
--   pending timers and sockets, and one function per method and handler; Adapter.Sockets has what
--   can happen as a step relation. RingBuffer is realtime/ringBuffer.ts, TelemetryStore
--   realtime/telemetryStore.ts (Subscriptions: the listener sets, in a heap that the maps and the
--   unsubscribe functions share), Stale quality/stale.ts and quality/classifier.ts, Evaluator
--   alarms/evaluator.ts and alarms/priority.ts, Selectors realtime/telemetrySelectors.ts, and
--   AlarmCenter alarms/center: its types and severities, Findings, Derive and Tick the parts of
--   derive.ts; AckStore is alarms/center/ackStore.ts, whose set of ids `derive.ts` takes as an
--   argument. LiveSlots is hooks/useOperationsRealtimeF4.ts, WellTestWindow
--   hooks/useWellTestWindow.ts, and TrendSeries hooks/useOperationsTrendSeries.ts with
--   api-data/f4/trendsToChartSeries.ts: the query that a chart sends to Telemetry.Trends, and what
--   it draws of the response. Operations is apps/web/components/operations: the badge of
--   viewModel.ts and alarmSummary.ts; Runtime is operationsRuntime.ts there, with
--   telemetry/adapterFactory.ts, which chooses the adapter. Messages go from the adapter through
--   the parser to the store; the selectors, the alarm centre and the alarm summary read the store
--   with the stale detector and the evaluator.
-- - Prelude: Boolean tests, list lemmas, arrays, maps with text keys, the stable sort, what filters
--   and limits select, the lengths of texts in characters and in UTF-16 units, JSON values and the
--   result type.
--
-- Bounds. UUIDs and instants are native naturals, instants in milliseconds and in PostgreSQL's
-- range; loops are recursions over their lists. `generate_series` alone runs on fuel, the
-- milliseconds of its range, which are enough as a step is at least one. A difference of instants
-- that may be negative is an ℤ. The boundaries and the ages of the web's stale detector are in
-- thousandths of a second, where the code divides. A capacity is a natural number, so that the ring
-- buffer's constructor throws at 0 alone.
--
-- Parameters. Which database calls throw, the UUIDs of inserts, the order of severities, and the
-- parsing and the comparison of dates and decimals are the fields of `Env`; the events whose
-- emission throws are an argument of the emitter; the order of creation is an argument of the
-- reads of well tests. The reads of trends and alarms take the table as the list of its rows,
-- whose order is that of rows with equal times; what PostgreSQL computes on decimals is the record
-- `Sql`, and `Number(decimal)`, `String(count)` and `toLowerCase` are parameters. The latest
-- readings take the foreign key to the tags as a function, and the runtime its list of jobs. What
-- other transactions commit to the live readings between any two statements of the projection is
-- its argument `race`. In the web, a number is its 64-bit pattern, and its comparisons, the
-- parsing and printing of dates and `JSON.parse` are parameters, as are whether `createSocket`
-- throws, the jitter of the backoff and the rounding of a percentage. A comparator that gives NaN
-- counts as one that gives 0.
--
-- Isolation. The code sets no isolation level, so PostgreSQL runs its transactions at READ
-- COMMITTED, where what other clients commit shows between two statements of a `$transaction`. The
-- model of the ingestion, of its transaction and of the alarm evaluation inside it is that of one
-- client: what is said of them holds of calls during which no other client writes the tables. Two
-- evaluations at the same time may each create an active event, for there is no unique index. The
-- projection alone takes other clients' commits as an argument, `race`; the ingestion gives it
-- `alone`, that of no commits. A call of the well-test service is one step in the same sense.
--
-- Not modelled: calls of the well-test service, of the ingestion or of the alarm evaluation that
-- interleave with other writers, the conversion of units, the catalogue services, and of the web
-- application the simulator, data access, the other hooks, and pages. Listeners are taken not to
-- call back into the store or the adapter. Free texts, raw payloads and metadata of quarantine
-- rows, and the joined summaries of a well test are left out.
mod Prelude
pub mod Alarms
pub mod Realtime
pub mod Store
pub mod Telemetry
pub mod Web
pub mod WellTests
