-- ===== src/Tests/Service.antt =====
-- The runtime at concrete inputs: a call is parked, approved and worked on.
use helios_os.Prelude.{
  ℕ, true, false, ◌≡◌, ◌↔◌, refl, none, some, List, [], ◌∷◌, All, get, eq_iff, arith,
}
use Prim.Native.String.{◌++◌ as str_append}
use helios_os.Kernel.Pipeline.{pass}
use helios_os.Kernel.Stages.{try_token, capability_stage}
use helios_os.Runtime.Continuation.{CallStatus, ToolCallRecord, find_by_external_ref}
use helios_os.Runtime.Worker.{World, WorkerConfig}
use helios_os.Runtime.Engine.Checked.{IsChecked}
use helios_os.Runtime.Engine.Dispatch.{tool_call}
use helios_os.Runtime.Service.{Rest, rest_of, find, call_by_ref}
use helios_os.Runtime.Service.Logged.{Logged, calls_in}
use helios_os.Runtime.Service.Approvals.{approved_kernel, approval_opens_one_tool}
use helios_os.Runtime.Service.Safety.{Op, work, queue, approval, exec_all, tools_called-IsChecked}
use helios_os.Tests.Fixtures.{no_input, cfg}
use helios_os.Tests.Engine.{reads, machine, machine_with, parked_with, call_record}

abbrev world : World (Rest ℕ)
world = record {
  store = (machine_with CallStatus.executed).store;
  rest = rest_of machine;
  ledger = [];
  queue = record {
    lanes = record { first = []; middle = []; last = [] };
    delayed = [];
    inflight = [];
    next_seq = 0;
    starve_guard = 0;
  };
}

abbrev worker : WorkerConfig
worker = record { worker_id = "w1"; lease = 60; max_crashes = 3; has_enqueuer = true }

-- An approval comes, and the worker resumes the run; then the run is queued again and driven.
abbrev ops : List (Op ℕ)
ops =
    approval 5 "k9" 60 (some "ann") "r1"
    ∷ work worker true 6 1 false
    ∷ queue 7 "c1" none none none
    ∷ work worker true 8 1 false
    ∷ []

-- The same, with nothing in the log.
abbrev logged_world : World (Rest (Logged ℕ))
logged_world = record {
  store = world.store;
  rest = record {
    kernel = world.rest.kernel;
    table = world.rest.table;
    outside = record { state = world.rest.outside; log = [] };
    trace = [];
  };
  ledger = world.ledger;
  queue = world.queue;
}

tools_called-IsChecked_example :
    let after = (exec_all reads ops logged_world).rest in
    (after.outside.log ≡ calls_in after.trace) × All IsChecked after.trace
tools_called-IsChecked_example = tools_called-IsChecked reads ops logged_world refl refl

abbrev sent : ToolCallRecord
sent = call_record "u2" "mcp.send" CallStatus.pending (some "r1")

parked_found : find "r1" world.store ≡ some (parked_with CallStatus.executed, sent)
unfolding find call_by_ref find_by_external_ref get
parked_found = refl

approval_opens_one_tool_example :
    let kernel =
      approved_kernel 5 "k9" 60
        (some "ann")
        "r1"
        world
        (parked_with CallStatus.executed)
        sent
        parked_found in
    let call = tool_call (parked_with CallStatus.executed) "mcp.send" no_input (some "k9") in
    ((try_token cfg call (str_append "tool:" "mcp.send") "tool.call" kernel).1 ≡ true
      ↔ (sent.name ≡ "mcp.send"))
    × (sent.name ≡ "mcp.send" → (capability_stage cfg call kernel).0 ≡ pass)
approval_opens_one_tool_example =
    approval_opens_one_tool 5 "k9" 60 (some "ann") "r1" world (parked_with CallStatus.executed) sent
      parked_found cfg "mcp.send" no_input (λ e. ground (arith, eq_iff "k9" "")) (ground arith)
      (ground arith)
