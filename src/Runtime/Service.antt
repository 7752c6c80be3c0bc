-- ===== src/Runtime/Service.antt =====
-- The step engine put into the workers, and `ResumeService` (src/runtime/resume_service.py), which
-- turns an answer from outside into a queued resumption.
pub mod Approvals
pub mod Logged
pub mod Safety
use Prim.Native.String.{◌++◌ as str_append}
use helios_os.Prelude.{
  ℕ, String, str_eq, Bool, true, false, Option, none, some, List, [], ◌∷◌, if◌then◌else◌,
}
use helios_os.Kernel.Json.{Value, bool}
use helios_os.Kernel.Table.{ProcessTable}
use helios_os.Kernel.Capability.{CapabilityStore, issue}
use helios_os.Kernel.Stages
use helios_os.Runtime.Continuation.{
  ResolutionOutcome, Resolution, ToolCallRecord, Continuation, ContinuationStore,
  find_by_external_ref,
}
use helios_os.Runtime.Shaping.{obj}
use helios_os.Runtime.Worker.{World, Engine, enqueue_runnable}
use helios_os.Runtime.Engine.Machine.{Outside, Event, Machine}
use helios_os.Runtime.Engine.Drive.{drive}
use helios_os.Runtime.Engine.Resume.{resume}
use helios_os.Runtime.Engine.Start.{RunSpec, create_continuation, start_run}

-- What the engine works on beside the store.
pub record Rest (T : Type 0) : Type 0 where
  pub kernel : Stages.World
  pub table : Option ProcessTable
  pub outside : T
  pub trace : List Event

module _ {T : Type 0} where
  abbrev pub machine_of : ContinuationStore → Rest T → Machine T
  machine_of s r = record {
    store = s;
    kernel = r.kernel;
    table = r.table;
    outside = r.outside;
    trace = r.trace;
  }

  abbrev pub rest_of : Machine T → Rest T
  rest_of m = record { kernel = m.kernel; table = m.table; outside = m.outside; trace = m.trace }

  -- The engine as the workers call it, in either mode.
  unfoldable pub step_engine : Outside T → Bool → Engine (Rest T)
  step_engine o single_step = record {
    drive = λ id s r.
        let (m, ran) = drive o single_step id (machine_of s r) in (m.store, rest_of m, ran);
    resume = λ res s r.
        let (m, ran) = resume o single_step res (machine_of s r) in (m.store, rest_of m, ran);
  }

-- The first call under a reference.
unfoldable pub call_by_ref : String → List ToolCallRecord → Option ToolCallRecord
call_by_ref ref [] = none
call_by_ref ref (r ∷ rs) =
    let rest = call_by_ref ref rs in
    elim r.external_ref [ none ↦ rest | some e ↦ if str_eq e ref then some r else rest ]

-- `_find`, where both are found.
unfoldable pub find : String → ContinuationStore → Option (Continuation × ToolCallRecord)
unfolding call_by_ref
find ref s = elim (find_by_external_ref ref s) [
  | none ↦ none
  | some c ↦ elim (call_by_ref ref c.pending_calls) [ none ↦ none | some r ↦ some (c, r) ]
]

abbrev pub resolution_of :
    Continuation
    → ToolCallRecord
    → ResolutionOutcome
    → Option String
    → Value
    → Option String
    → Resolution
resolution_of c rec outcome token payload by = record {
  continuation_id = c.continuation_id;
  tool_use_id = rec.tool_use_id;
  outcome = outcome;
  capability_token = token;
  result_payload = payload;
  responded_by = by;
}

module _ {T : Type 0} where
  -- `_enqueue`
  unfoldable pub enqueue_resolution :
      ℕ → Continuation → Resolution → World (Rest T) → World (Rest T) × Option String
  enqueue_resolution now c res w =
      (enqueue_runnable now c.continuation_id (some "p0") none (some res) w, some c.continuation_id)

  -- `self._kernel.issue_capability(…)`, with the token's id.
  unfoldable pub mint :
      ℕ → String → ℕ → Continuation → ToolCallRecord → World (Rest T) → World (Rest T)
  mint now token_id ttl c rec w =
      let r = w.rest in
      let k = r.kernel in
      record w {
        rest = record r {
          kernel = record k {
            tokens =
                (issue now token_id c.pid (str_append "tool:" rec.name) "tool.call" (some ttl)
                  k.tokens).0;
          };
        };
      }

  unfoldable pub approve_found :
      ℕ
      → String
      → ℕ
      → Option String
      → Option (Continuation × ToolCallRecord)
      → World (Rest T)
      → World (Rest T) × Option String
  unfolding mint enqueue_resolution
  approve_found now token_id ttl by none w = (w, none)
  approve_found now token_id ttl by (some (c, rec)) w =
      enqueue_resolution now c
        (resolution_of c rec ResolutionOutcome.accept (some token_id) Value.null by)
        (mint now token_id ttl c rec w)

  -- `approve`, with a kernel wired, which mints `token_id`.
  unfoldable pub approve :
      ℕ → String → ℕ → Option String → String → World (Rest T) → World (Rest T) × Option String
  unfolding approve_found
  approve now token_id ttl by ref w = approve_found now token_id ttl by (find ref w.store) w

  unfoldable pub settle_found :
      ℕ
      → ResolutionOutcome
      → Value
      → Option String
      → Option (Continuation × ToolCallRecord)
      → World (Rest T)
      → World (Rest T) × Option String
  unfolding enqueue_resolution
  settle_found now outcome payload by none w = (w, none)
  settle_found now outcome payload by (some (c, rec)) w =
      enqueue_resolution now c (resolution_of c rec outcome none payload by) w

  -- `reject`
  unfoldable pub reject :
      ℕ → Option String → String → World (Rest T) → World (Rest T) × Option String
  unfolding settle_found
  reject now by ref w = settle_found now ResolutionOutcome.reject Value.null by (find ref w.store) w

  -- `deliver_result`
  unfoldable pub deliver_result :
      ℕ → Value → String → World (Rest T) → World (Rest T) × Option String
  unfolding settle_found
  deliver_result now payload ref w =
      settle_found now ResolutionOutcome.result payload none (find ref w.store) w

  -- `timeout`
  unfoldable pub timeout : ℕ → String → String → World (Rest T) → World (Rest T) × Option String
  unfolding settle_found
  timeout now on_timeout ref w =
      if str_eq on_timeout "proceed"
      then settle_found now ResolutionOutcome.result
          (obj (("timed_out", bool true) ∷ ("proceeded", bool true) ∷ [])) none (find ref w.store) w
      else settle_found now ResolutionOutcome.reject Value.null (some "sla-timeout")
          (find ref w.store) w

module _ {T : Type 0} (o : Outside T) where
  abbrev pub put_back : World (Rest T) → Machine T → World (Rest T)
  put_back w m = record w { store = m.store; rest = rest_of m }

  -- `create_continuation` of the engine, on what the workers share.
  unfoldable pub open_run : ℕ → String → RunSpec → World (Rest T) → World (Rest T)
  open_run limit id spec w =
      put_back w (create_continuation o limit id spec (machine_of w.store w.rest)).1

  -- `run` of the engine, beside the workers.
  unfoldable pub run_inline : ℕ → String → RunSpec → World (Rest T) → World (Rest T)
  run_inline limit id spec w =
      put_back w (start_run o limit id spec (machine_of w.store w.rest)).0.1
