-- ===== src/Lib.antt =====
-- The aquarium controller, a TypeScript server that sends light and pump schedules to ESP32 devices over
-- MQTT: packages/domain (schedules), packages/esp-protocol (what is said on the wire) and apps/controller
-- (when it is said, and what is recorded of it).
--
-- A schedule is a graph of segments over the 1440 minutes of a UTC day. It is validated, evaluated at a
-- minute and scaled to a PWM value, and compiled for the device, which keeps it for when the controller
-- is away. Every five seconds the scheduler evaluates the active outputs, puts manual overrides in their
-- place and offers each device a batch of commands; a worker for each device dispatches them one by one.
-- A command is an operation with a row in the database: pending, in flight, then final. Its attempt calls
-- the transport, which sends a request to the topic of the device and matches the response to it.
--
-- Number: JavaScript numbers. A finite double is a whole multiple of 2^-1074, so comparisons, integer
--   tests and Math.floor are exact; sums, products and roundings of doubles are the engine's, and are the
--   parameter Arithmetic of Domain.Evaluation.
-- Prelude: tests, lists, texts (UTF-16 code units), integers, and results: a call that may throw returns
--   `ok` or `throw` with the class of the error, without its message.
-- Domain.Schedule, Domain.Validation, Domain.Evaluation, Domain.Pwm: packages/domain/src/schedule.ts.
--   validateScheduleGraph leaves the list of its issues in the order of its pushes.
-- Domain.Compiler: packages/domain/src/schedule-compiler.ts.
-- Protocol.Limits, Protocol.ScheduleDocument, Protocol.Hash: packages/esp-protocol/src/limits.ts and
--   schedule.ts. The text encoder is a parameter.
-- Protocol.Version, Protocol.Topics, Protocol.Commands, Protocol.Requests: packages/esp-protocol/src/index.ts:
--   versions, parseDeviceTopic, matchEspCommandResult, encodeEspCommandRequest and the schemas that
--   they rest on. A schema is a test of a value of the right shape. JSON.stringify of a request and the
--   test of a URL are parameters.
-- Scheduling.Cadence, Scheduling.Lane: apps/controller/src/application/scheduling/output-refresh-scheduler.ts,
--   the timer and the worker of one device, each as a state with a step for each event, and a run of a
--   list of events. A wait of the source is a state between two events.
-- Scheduling.Overlay: apps/controller/src/application/overrides/manual-override-overlay.ts. The sort by locale is a
--   parameter.
-- Scheduling.Dispatch: apps/controller/src/application/scheduling/scheduled-device-operations.ts, the chain of dispatches of
--   each device and the error that blocks them.
-- Scheduling.TimeSync: apps/controller/src/application/scheduling/time-sync-coordinator.ts, the daily timer and the time
--   syncs that announcements ask for, over any sequence of events.
-- Operations.Lifecycle: apps/controller/src/infrastructure/database/control-operation-repository.ts, the
--   transitions of one row and the recovery at start, with the types of
--   apps/controller/src/application/operations/device-operation-types.ts. Of a recovery that throws, the rows that it
--   has written before are not kept.
-- Operations.Attempt: apps/controller/src/application/operations/device-operation-service.ts, one attempt; what
--   the transport did is an argument.
-- Operations.Gate: the same file, the reservation of a device for an attempt and its cooldown, over any
--   sequence of operations asked for, outcomes recorded, releases and signals.
-- Operations.Builders: apps/controller/src/application/operations/legacy-command-builders.ts. TextEncoder and JSON.parse
--   are parameters.
-- Transport.Outcomes, Transport.ActiveBatch, Transport.Lanes, Transport.Operation:
--   apps/controller/src/infrastructure/mqtt/legacy-mqtt-transport.ts: a batch over any sequence of responses, timers and
--   disconnections, the queues of the devices and their lanes over any sequence of calls, and an operation that is
--   split by device and into batches of three commands. What executeBatch comes to is an argument of the latter.
-- Realtime.EventStream, Realtime.ReplayWindow: apps/controller/src/realtime/state-event-stream.ts, one connection over any sequence of published
--   events, replays, drains and heartbeats, and the window that a replay reads of the two tables. What each write of
--   the sink comes to is a parameter.
-- Contracts.BoundedText: packages/contracts/src/primitives.ts, boundedTextSchema.
-- Contracts.Schedules: packages/contracts/src/controller.ts and primitives.ts, the schemas that a saved schedule passes.
-- Configuration.SchedulePoints: apps/controller/src/infrastructure/database/controller-configuration-repository.ts,
--   validateSchedulePoints.
-- Web.Points, Web.Drafts, Web.Editor: apps/web/src/combined-schedule-state.ts: the points of a schedule and their curve,
--   a draft with its validation and the request that saves it, and the reducer of the editor.
-- Tests: the theorems at concrete inputs.
--
-- Definitions are by recursion on their lists. On fuel run decimal_text of Protocol.ScheduleDocument, with one
-- more than the number that it prints, which has fewer digits than that; the loop of the pump, with as many as
-- there are runnable devices, of which each round takes one; the loop that makes batches, with as many as
-- there are commands, of which each batch takes one at least; and the drain of a connection, with as many as there are
-- queued frames, of which each round takes one.
--
-- Not modelled: the tick's reading of the database and its report, the creation and reconciliation of
-- operations, the configuration patches of the operation service, the schema of announcements, the lock on
-- publications and the encoding of requests in the MQTT transport, the daily run of the time-sync coordinator,
-- the device registry, alerts, firmware updates, the hub of the event stream, retention, import, HTTP routes,
-- the web application but for the schedule editor, the simulated device and the firmware. SQL and I/O have no
-- model; a transaction is taken to be done whole.
pub mod Prelude
pub mod Number
pub mod Domain
pub mod Protocol
pub mod Scheduling
pub mod Operations
pub mod Transport
pub mod Realtime
pub mod Contracts
pub mod Configuration
pub mod Web
pub mod Tests
