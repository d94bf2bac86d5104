-- ===== src/Lib.antt =====
-- wood-fired-tasks: a task service whose tasks depend on each other, a workflow engine that reacts to
-- finished tasks, scores that rank the work, and a router of the event stream. The development models
-- the parts that decide, as functions on values that stand for the rows of the database and the
-- fields of the objects; SQL, HTTP and the surfaces above the services are left out.
--
-- Errors has the errors of src/services/errors.ts. Prelude has what the parts share: lists read as
-- JavaScript's Set (Lists), maps with text keys (Dict), results of code that throws (Outcome), and
-- text as its code units (Text), whose case and blanks are those of ASCII.
--
-- Dependencies: CycleDetector is src/utils/cycle-detector.ts; its depth-first search runs on fuel,
-- one more than the number of nodes, which is enough. Service is DependencyService over its
-- repository (src/services/dependency.service.ts, src/repositories/dependency.repository.ts).
--
-- Topology is src/services/topology.service.ts; Kahn and Tree are the classifier, the tree and the lines of
-- src/services/dependency-graph.service.ts, and Degrees has the Maps of degrees that they share. They
-- take the ids of the tasks and the rows that were read. Kahn's loop and the recursion of the tree run
-- on fuel, one more than the number of tasks, which is enough.
--
-- Tasks: Status has the statuses and the table of transitions (src/types/task.ts), Table and
-- Repository the rows and their writes (src/repositories/task.repository.ts), Evidence is
-- src/services/evidence-validation.ts, Checks and Service are the guards and operations of
-- src/services/task.service.ts (createTask, updateTask, deleteTask, claimTask), and Claims is the
-- sweep of src/services/claim-release.service.ts. An operation takes the database and gives the next
-- one with the events that it emits, or the error that it throws. Times are whole seconds. Titles,
-- tags after creation, and the history of scores are not modelled. Valid has the operations as steps.
-- Paging has the loops that read a project's tasks by pages, on fuel one more than the number of rows.
--
-- Workflow: src/services/workflow-engine.ts, which hears the events of the task service inside the
-- call that emits them. The recursion is on the depth that is left of MAX_CASCADE_DEPTH, so it needs
-- no fuel. `perform` is updateTask as a caller sees it, with the engine started.
--
-- Auth: DeviceFlow is the store of src/services/device-flow-store.ts, with its routes
-- (src/api/routes/auth/device-html.ts and device-token.ts) in DeviceFlow/Routes; Hostname is
-- sanitizeHostname. Drawn codes, minted tokens and existing users are arguments.
--
-- Events: EventBus is src/events/event-bus.ts with its nested transactions and handlers that use the
-- bus in turn, and Heard says what a script on it delivers. SseManager is src/events/sse-manager.ts
-- with the caps that src/api/routes/events.ts asks about, where a request is checked in one step and
-- registered in a later one. Each call takes the object and gives the next one, with the calls of
-- handlers or the messages that it makes.
--
-- Wsjf: Tiers has the tables of src/services/wsjf.service.ts and src/types/wsjf.ts, Submission the
-- gates of submitted and of manual scores, Samples the redundant scoring over samples and a verifier's
-- answer that are given. Closure is the breadth-first search of rankFrontier, on fuel one more than
-- the number of tasks, which is enough, and Ranking the rest of it. A score is a quotient of numbers
-- where the source has a double, and a variance is compared exactly; the theorem on the gate leaves
-- out batches whose variance is one half, where the rounding of doubles decides.
--
-- Router: SseParser is packages/wft-router/src/sse/parser.ts, IdempotencyStore is
-- packages/wft-router/src/dispatch/idempotency-store.ts, and RateLimit is
-- packages/wft-router/src/dispatch/rate-limit.ts, whose tokens are counted in parts so small that
-- every refill is a whole number of them. Debounce is packages/wft-router/src/dispatch/debounce.ts,
-- where the host's timers are a map of those that are armed, and a tick runs one. Shutdown is
-- packages/wft-router/src/dispatch/graceful-shutdown.ts, as steps on its fields, and Predicate is
-- packages/wft-router/src/dispatch/predicate.ts.
--
-- Not modelled: the filtered lists of tasks, projects and comments, the templates and the startup
-- sweep of the router, hashing and OIDC, the adapters of source control, and the surfaces (HTTP, MCP,
-- CLI, Slack, web), which read and print over the services.
mod Prelude
pub mod Errors
pub mod Dependencies
pub mod Tasks
pub mod Workflow
pub mod Events
pub mod Router
pub mod Wsjf
pub mod Auth
