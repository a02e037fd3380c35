-- ===== src/Lib.antt =====
-- Vikram's core, modelled and verified: the parts of the Go program under pkg/ that keep state and
-- decide what an agent may do next.
--
-- The agent answers messages by a loop of model calls and tool calls. Its history lives in a
-- session, its background work in a job queue, its events in a router; locks keep two tasks from
-- one file, the ledger stops a task that costs too much, the detector stops one that repeats
-- itself, and the permission registry says which features it may use at all. Pairing decides which
-- chat user the agent listens to at all. The message bus carries messages from the channels to the
-- agent and back. Events of the agent's calls feed the health monitor, and the trace verifier
-- checks the hash chain of the decisions that the orchestrator has recorded. The device registry
-- chooses the device that a session moves to. The shell tool decides which commands the agent may
-- run, with the permission registry behind its hardware commands; the subagent manager runs the
-- tool loop for team members; the cron service and the heartbeat start work at its time. Sessions,
-- the tool loop and the model providers share the messages of Providers.antt; a complete
-- transcript, in which every tool call is answered, means the same for Session/Repair and for
-- ToolLoop/Transcript.
--
-- Files and sources:
--   Base         shared helpers: Boolean tests, lists measured by native numbers, Go maps with
--                string keys, counters, signed integers, results, time, and float64 as a
--                parameter
--   Providers    pkg/providers/types.go: messages, tool calls, replies of a model
--   Session      pkg/session/manager.go: Session and SessionManager, one function for each method;
--                Session/Repair is repairOrphanedToolCalls
--   ToolLoop     pkg/tools/toolloop.go: RunToolLoop, one iteration as `turn`
--   Queue        pkg/queue/queue.go: Job and Queue, processNext in two halves, `claim` and
--                `complete`, between which the handler runs without the lock
--   LoopDetect   pkg/agent/tool_loop_detect.go: ToolLoopDetector, with its four checks
--   Locks        pkg/locks/registry.go: InMemoryRegistry, the lock registry
--   Events       pkg/events/router.go and pkg/events/types.go: Router, subscriptions and filters
--   Permissions  pkg/permissions/permissions.go: Registry of features
--   CostLedger   pkg/costledger/store.go and pkg/costledger/circuit_breaker.go: SQLiteLedger's
--                accumulators, its daily window, and CheckCircuitBreaker; CostLedger/Forecast
--                is pkg/costledger/forecast.go, pkg/costledger/pricing.go and the phase budgets;
--                CostLedger/Warnings takes the steps of concurrent checks
--   Agent        pkg/agent/context.go and pkg/agent/loop.go: compressHistory, BuildMessages,
--                forceCompression, summarizeSession in two parts, between which the model writes;
--                Agent/Errors is pkg/agent/error_classify.go; Agent/Council and Agent/Iteration
--                are runLLMIteration in pkg/agent/loop.go, a request with its retries and the loop, with
--                no other request in between; Agent/Cooldowns takes the steps of concurrent ones
--   Epistemology pkg/epistemology/store.go: the facts that an agent knows, JSONGraphStore
--   Pairing      pkg/pairing/telegram.go: TelegramStore
--   Bus          pkg/bus/bus.go and pkg/bus/types.go: MessageBus and its subscribers
--   Health       pkg/telemetry/health_monitor.go, pkg/telemetry/alerting.go and the events of
--                pkg/telemetry/store.go: HealthMonitor; `check_thresholds` is evaluate and
--                `evaluate` is Evaluate
--   Trace        pkg/telemetry/trace_verifier.go: TraceVerifier, ComputeRecordHash and
--                CanonicalJSON; `next_seq` is lastVerifiedSeq + 1. Trace/Writer is record_decision of
--                services/orchestrator/src/vikram_orchestrator/execution_trace.py
--   Devices      pkg/sync/registry.go: Registry of devices and Handoff
--   Shell        pkg/tools/shell.go and pkg/tools/security.go: ExecTool. Shell/Parse has the two
--                readers of a command, Shell/Tool the allowlists and the state, Shell/Guards and
--                Shell/Commands the guards, Shell/Execute is Execute to the run of the commands,
--                and Shell/Host is what they ask of the system
--   Cron         pkg/cron/service.go: CronService; executeJobByID is `callback_job` before the
--                handler is called and `finish_job` after it
--   Subagents    pkg/tools/toolloop.go: SubagentManager; its RunToolLoop is `run_subagent`
--   StateStore   pkg/state/state.go: Manager, each setter in three steps
--   Proactive    pkg/proactive/engine.go: Engine; Proactive/Heartbeat is
--                pkg/heartbeat/service.go
--
-- In each part the state is a record with the fields of the Go struct, less its mutex, channels
-- and log output; a method that runs under the mutex is one function from the state to the new
-- state and its result, and the children hold the theorems about it. Where a select has two ready
-- cases, the pick is an argument. What runs between two locked stretches is a sequence of such
-- steps, in any order, given by a list of calls. Names are the source's, in snake case.
--
-- Conventions and bounds: a time is a number of nanoseconds after Go's zero time, read from the
-- clock by the caller and passed as an argument; a Go int is a signed integer without overflow,
-- except where the source shifts and multiplies it (the backoff of the queue), which is computed
-- in 64 bits with wrap-around; counts that only grow from zero are natural numbers. A Go map is an
-- association list, and a loop over one is a walk over the list, so what is shown holds for every
-- order of iteration. Commands are lists of code points, which the shell tool walks; other texts
-- are opaque. All loops are structural; the tool loop recurses on the number of iterations that
-- are left, which MaxIterations gives, and the generation of a pairing code on the 20 attempts
-- that the source makes; the agent's iteration likewise, and its retries on the times of the three
-- tries; nothing else needs fuel.
--
-- Parameters, for code outside the repository: the language model, the functions on strings (Agent
-- and Epistemology), math.Floor, math.Ceil and sort.Float64s (CostLedger/Forecast), the tools and
-- encoding/json (ToolLoop), the payloads of jobs (Queue), SHA-256 over JSON (LoopDetect),
-- fmt.Sprintf for the ids of subscriptions and the handlers (Events), sort.Slice (Permissions),
-- float64 arithmetic (CostLedger, Health and Epistemology), the answers of SQLite (CostLedger),
-- SHA-256, fmt, encoding/json, the sorts and the fetcher's answers (Trace), Python's str,
-- json.dumps and SHA-256 (Trace/Writer), and the random numbers, the faults of the file system,
-- strings.TrimSpace and fmt.Sprintf (Pairing), regular expressions, Unicode case, the file system
-- and exec.LookPath (Shell), the next tick of a cron expression (Cron), strings.ReplaceAll
-- (Subagents), the calendar and strings.SplitN (Proactive).
--
-- Not modelled: files, network, HTTP handlers, databases, goroutine scheduling inside one handler,
-- configuration and command line, the channel bridges, the Python orchestrator service but for its
-- trace, and the web front end. Of the packages above: saving and loading of sessions and of the
-- queue's file, the run of the processes of a command and the clipping of their output, the
-- detection of patterns in activities, the goroutines of the router and of the queue's poller, and
-- the built-in price table.
pub mod Agent
pub mod Base
pub mod Bus
pub mod CostLedger
pub mod Cron
pub mod Devices
pub mod Epistemology
pub mod Events
pub mod Health
pub mod Locks
pub mod LoopDetect
pub mod Pairing
pub mod Permissions
pub mod Proactive
pub mod Providers
pub mod Queue
pub mod Session
pub mod Shell
pub mod StateStore
pub mod Subagents
pub mod ToolLoop
pub mod Trace
