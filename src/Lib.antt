-- ===== src/Lib.antt =====
-- A model of the kernel of HeliosOS, the governance layer that decides what an agent may do, and of the
-- durable runtime that drives its agents, with the theorems that make them correct.
--
-- An agent's action is a syscall. `Kernel.syscall` runs it through a pipeline of stages, in a fixed
-- order: identity (the license), capability (a capability token, or the permission checks), quota (a
-- reservation in the agent's budget), policy, boundary (data namespaces), dispatch and audit. A stage
-- continues, decides or raises; the first decision that is not an allowance ends the run. The managers
-- behind the stages keep the state: open reservations, capability tokens, the audit log. Beside the
-- pipeline stands the process table, which holds one record for each live agent, moves it through the
-- phase machine, mirrors final phases into the agent registry, cascades them to child processes and
-- keeps signals until the agent's loop asks for them.
--
-- An agent's run is a continuation, which the durable runtime drives. The enqueuer gives a continuation
-- a new epoch, writes a row of the ledger and puts an item in the queue; a worker claims an item, claims
-- its row at the item's epoch, runs the step engine until the run ends or suspends, settles the row and
-- acks the item. A turn of the engine asks the model and sends each tool that it calls for through the
-- kernel: an allowed call is run, a refused one is answered with the refusal, and one that needs a human
-- parks the run under a reference. When an answer comes, the resume service finds the run by the
-- reference, mints a capability token if it is an approval, and queues a resumption; the engine then
-- dispatches the call again with that token and goes on once no call waits.
--
-- The files and what they model:
--   Prelude (and Prelude/): shared types, tests, lists, dictionaries in insertion order, sums over them.
--   Kernel/Phase, Kernel/Process, Kernel/Table: src/platform/kernel/_process.py, with
--     `AgentRegistry.set_status` of src/platform/registry.py and the signals of
--     src/platform/kernel/_facade.py. `transition` of Kernel/Process is `AgentProcess.transition`, that
--     of Kernel/Table is `ProcessTable.transition`; each public method of the table is a function of the
--     same name from a table to a table. Phase/Reach, Table/Cascade, Table/Keys and Table/Signals prove.
--   Kernel/Json, Kernel/Glob: decoded JSON with Python's equality and truth value, and the text tests.
--   Kernel/Decision, Kernel/Agent: `KernelDecision`, and what the kernel reads of `AgentDefinition`
--     (stacks/base.py) with its v2 sections resolved.
--   Kernel/Policy, Kernel/Permission, Kernel/Budget: the classes `PolicyEngine`, `PermissionManager`,
--     `DataBoundaryManager` and `BudgetManager` of src/platform/kernel/_facade.py, a function for each
--     method. Policy/Verdicts, Permission/Tools, Permission/Access, Budget/Reservations and
--     Budget/Limits prove.
--   Kernel/Capability: src/platform/kernel/_capabilities.py with the in-memory store;
--     Capability/Authority proves.
--   Kernel/Pipeline: `SyscallPipeline` of src/platform/kernel/_syscall.py for every choice of stages;
--     Pipeline/Order and Pipeline/Refusals prove. Kernel/Stages: the stages as `Kernel._build_pipeline` wires them;
--     Stages/Soundness and Stages/Leaks prove.
--   Kernel/Composite: `Kernel.check_tool_call` and `Kernel.check_a2a_call` of the facade, with the tool
--     patterns of src/platform/namespace_policy.py; Composite/Refusals, Composite/Verdicts and
--     Composite/Cleared prove.
--   Runtime/Continuation: src/runtime/continuation.py with the memory store, and `Resolution` of
--     src/runtime/signals.py; Continuation/Store and Continuation/Refinement prove.
--   Runtime/Opening: the first messages of a run and the history of a chat, of src/runtime/shaping.py;
--     Opening/History proves.
--   Runtime/Response, Runtime/Shaping, Runtime/Goal: `LLMResponse` of src/platform/llm_router.py, the
--     turns and tool results of src/runtime/shaping.py, and the goal marker of `_complete`.
--   Runtime/Outcome, Runtime/Engine: src/runtime/engine.py. Engine/Machine has its state and what is
--     outside of it, Engine/Tools the tool executor of src/platform/agentic_loop.py and the tickets,
--     Engine/Dispatch `_dispatch` and `_dispatch_authorized`, Engine/Ending how a run ends or parks,
--     Engine/Turn `_run_one_turn`, Engine/Drive `drive` and both modes, Engine/Resume `resume`,
--     Engine/Start `create_continuation` and `run`. Engine/Kept, Engine/Trust, Engine/Runs,
--     Engine/Checked, Engine/Bounds, Engine/Replies, Engine/Origins, Engine/Complete, Engine/Parking,
--     Engine/Duplicates and Engine/Memory prove.
--   Runtime/Service: src/runtime/resume_service.py, and the engine put into the workers;
--     Service/Logged has an outside that keeps a log of the calls of tools that reach it;
--     Service/Approvals and Service/Safety prove.
--   Runtime/Ledger: `InMemoryLedger` of src/runtime/ledger.py; Ledger/Claims, Ledger/Epochs and
--     Ledger/Crashes prove.
--   Runtime/Queue: `InMemoryRunnableQueue` of src/runtime/queue.py; Queue/Items, Queue/Flights,
--     Queue/Order and Queue/Starvation prove.
--   Runtime/Worker: `Enqueuer` and `Worker` of src/runtime/enqueuer.py and src/runtime/worker.py, over
--     the store, the ledger and the queue, for every engine; Worker/Crashes, Worker/Deliveries and
--     Worker/Invariant prove.
--   Platform/NamespacePolicy: src/platform/namespace_policy.py, the in-memory store and
--     `resolve_effective_policy`; NamespacePolicy/Extremes and NamespacePolicy/Tightening prove.
--   Platform/TaskQueue: src/platform/task_queue.py, the in-memory queue; TaskQueue/Pending and
--     TaskQueue/Claims prove.
--   Tests: concrete runs.
--
-- How the code is read. Stateful methods take the state and return it. A method that raises returns
-- `none`, or the outcome `crash` in a stage; `Ran` tells how a run of the engine leaves, the escape
-- of a `Suspend` included. Numbers are natural: money, tokens and instants are counted in a
-- smallest unit, and `max(0, a - b)` is the subtraction that stops at zero. The code has money in
-- floats, which round and which it does not keep from being negative: neither is modelled. What is
-- stated of money says which sum is formed and compared; no result is that an amount that is added
-- and taken away again leaves a total as it was, which rounding breaks. The clock, minted ids
-- and tickets are arguments. So is what these parts only call, for every answer that it may give:
-- the license manager, the ACL of the A2A handler, the binding of an agent to an environment, the
-- cost that the usage enforcer reports, the dispatcher, Python's `repr` and `str` of a value,
-- `float` of a text, `json.dumps` and `fnmatch`. What the step engine calls is in `Outside` of
-- Engine/Machine: the model client, the tools, the gateway of approvals, the gate of the SDK, the
-- reason of a decision, and the order in which the event loop lets the dispatches of a turn move;
-- each may change the state of the outside. A dispatch has two moves, the admission with what
-- follows at once, and the tool with the settling of its ticket; moves of different calls
-- interleave as the order says. The engine works on its own copy of a continuation, as it has with
-- the stores that serialise. Of a parameter nothing is assumed but what a theorem says in its
-- conditions.
--
-- All loops run over lists or texts and are structural, but two. `drive_from` runs on the turns that are
-- left, `max_turns` less the step index, and `attempts` on the retries that are left, `max_retries`: the
-- bounds of the loops in the code, so they never run short.
--
-- Not modelled: the Postgres stores and the Redis queue, `ps`, `to_dict` and other views, log and reason
-- texts, the admission of contracts in src/platform/kernel/_facade.py, the validation of a contract
-- against a namespace policy, the A2H package, the SDK, the web application and the adapters: they are
-- clients of outside services or have not been reached.
mod Prelude
pub mod Kernel
pub mod Runtime
pub mod Platform
pub mod Tests
