-- ===== src/Lib.antt =====
-- The control plane of iterabase: the pool of warm workers, the graph contract of a workflow, and the
-- run that follows it. Paths are from the repository's root.
--
-- Dispatch models control-plane/internal/dispatch/workerpool.go. A worker connects by a stream, says
-- Ready, which is one credit, and is put to one turn at a time. Dispatch/Conn is one `workerConn`
-- (tryConsumeCredit, restoreCreditAfterPreDeliveryFailure, releaseAssignmentFailure, releaseTurn,
-- grantCreditIfIdle, applyWorkspaceStatus, markClosed); Dispatch/Pool is `workerPool` (add, remove,
-- get, pickIdle, activeConn, applyWorkspaceStatus, seedWorkspaceCapacity, syncWorkspaceCapacity) over
-- a heap of connections, since a replaced connection lives on. A method under its lock is one step.
-- Dispatch/Credit, Picking, Gates, Sync and Registry hold the proofs. Dispatch/Sending is the guard of
-- `send` as interleaved steps of any number of senders with the teardown of
-- control-plane/internal/dispatch/service.go; control-plane/internal/gateway/runnerpool.go has the
-- same guard. Dispatch/Teardown is about the end of the stream.
--
-- Workflow models ValidateGraph of control-plane/internal/workflow/graph.go over the canonical types of
-- workflow/store.go (Workflow/Spec). Workflow/Json is encoding/json as that file uses it,
-- Workflow/Values is equalJSON, Workflow/Gate the checks of a human gate's schema and presentation,
-- Workflow/Results and Workflow/ResultFields those of a result presentation, Workflow/Walk the search,
-- Workflow/Validate the loops over nodes, edges and terminal outcomes, Workflow/Contract the whole.
-- Workflow/Nodes and Workflow/Routes say what the loops leave, Workflow/Accepted takes an accepted
-- graph apart into its stages.
--
-- Work models how a run follows the graph, in control-plane/internal/work/graph.go and store.go.
-- Work/Routing is findNode and route; Work/Attempt the rows of one attempt; Work/Advance is
-- CompleteTurn, advanceGraphTx, buildContextTx, insertNodeExecutionTx and creditValueTx as functions
-- on these rows, with the errors that roll the transaction back; Work/Gate is completeHumanNodeTx of
-- work/commands.go, the other call of advanceGraphTx. Work/Routed, Work/Reachable and Work/Total relate
-- the router to the validation; Work/Bounds, Work/Entry, Work/Limit and Work/Numbering are about runs.
-- Scenarios modules run the models on small inputs.
--
-- Gateway models control-plane/internal/gateway/runnerpool.go: Gateway/Runner is `runnerConn` (registerTool,
-- retireTool, serves, the two critical sections of dispatch, deliver) and `runnerPool` (add, remove, pick,
-- runnerOwnsInvocation, propagateCancel), with the end of a runner's stream in gateway/service.go.
-- Gateway/Delivery follows the result of a dispatch, Gateway/Choice says which connection is found.
--
-- Gateway/Ledger is the invocation ledger of gateway/store.go (BeginInvocation, RenewDispatchLease, MarkRunning,
-- FinishInvocation, RecoverOrphanedInvocations), and Gateway/Dispatching how InvokeTool of gateway/service.go
-- executes an invocation from its ledger row on (dispatchWithRetry, classifyAmbiguous, finishFailed,
-- finishFromResult, renewDispatchLease, abortAfterLeaseFailure), where the runners' answers and what others do
-- to the ledger meanwhile are arguments. The two updates of the sweep are statements of their own, with what others
-- do between them as an argument. Gateway/Policy is the authorization and the
-- resource policy before that (authorize, authorizeWorkflowCapability, assertResourcePolicy), and InvokeTool from
-- there on. Gateway/Keys, Once, Reported, Recovery, Admitted and Exact hold the proofs.
--
-- Runtime models control-plane/internal/runtime/store.go with the constraints of the migration
-- 000009_runtime.up.sql. Runtime/Rows is its tables, states and errors; Runtime/Statements the SQL
-- statements as functions of the database that may be refused, chained by the `do` of a transaction;
-- Runtime/Transitions is CreateRun, transitionRun and transitionStep with the calls that are made of them,
-- Runtime/Settlement StartTurn, SettleTurn, SettleTurnAndAdvance and AppendEvent, Runtime/Queries the
-- reads. Runtime/Calls is any sequence of these calls. Runtime/Effects says what a statement did,
-- Runtime/Law and Preserved carry a relation from the statements to the calls, and Terminal,
-- FirstWriter, EventLog, Sessions, Replay, Replayed and History are about sequences of calls.
--
-- Limiter models inference-gateway/internal/ratelimit/redis.go: the calls of `RedisLimiter` on the sorted set of one
-- key, with the script that they run, and the `TPMBatcher`, whose Add calls, receives, ticks and Stop are
-- events in any order. Token counts are natural numbers. Limiter/Window, LetThrough and Batched hold the proofs.
--
-- Bounds and fuel: `walk` gets one round more than there are listed targets, since a name is queued
-- once, when it is first seen (Workflow/Walk/Correct). `collect_result_schema_fields` gets one level more
-- than the schema is deep, since a nested schema is a proper part of it (Workflow/Fuel,
-- Workflow/Effective, Workflow/Collected).
-- maxTransitions, an int32 in the source, is a natural number. Byte counts of a workspace are natural
-- numbers that are only stored, and a float64 that is only stored is its bit pattern.
--
-- Parameters: the JSON Schema compiler, time.ParseDuration and the float64 of a literal. The database
-- is lists of rows, and the ids that it draws and the time of a statement are arguments. Except in Runtime,
-- in Gateway/Ledger and for the timeout of an execution in Work/Advance, a statement that it refuses, and the
-- clock but for the time of the last message, are not modelled. Left out: the texts that rows only carry, the
-- HTTP and RPC handlers, the controllers, the gateway's registrations and scopes, identity, artifacts, the
-- inference gateway but for its rate limiter, forge and the charts.
pub mod Common
pub mod Dispatch
pub mod Workflow
pub mod Work
pub mod Gateway
pub mod Runtime
pub mod Limiter
