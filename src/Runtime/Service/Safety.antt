-- ===== src/Runtime/Service/Safety.antt =====
-- The whole runtime: the queue, the workers, the engine and the answers to parked calls, in any order,
-- and the tools that they call.
use helios_os.Prelude.{
  false, ℕ, String, Bool, ◌≡◌, refl, ap, Option, none, some, List, [], ◌∷◌, All, str_eq, Bool-cases,
  inl, inr,
}
use helios_os.Kernel.Json.{Value}
use helios_os.Runtime.Continuation.{ResolutionOutcome, Resolution, ToolCallRecord, Continuation}
use helios_os.Runtime.Worker.{World, WorkerConfig, enqueue_runnable, rebuild_from_ledger, run_once}
use helios_os.Runtime.Worker.Invariant.{enqueue_runnable-rest, rebuild_rows-rest, run_once-keeps}
use helios_os.Runtime.Ledger.{recover_rows}
use helios_os.Runtime.Engine.Machine.{Outside}
use helios_os.Runtime.Engine.Kept.{Seen}
use helios_os.Runtime.Engine.Runs.{drive_or_step-Stays}
use helios_os.Runtime.Engine.Drive.{drive_or_step}
use helios_os.Runtime.Engine.Start.{RunSpec, create_continuation, start_run}
use helios_os.Runtime.Engine.Checked.{IsChecked, All-IsChecked, drive-Lasts, resume-Lasts}
use helios_os.Runtime.Service.Logged.{Logged, logged, calls_in, Tells, Tells-IsKept, chat-Tells}
use helios_os.Runtime.Service.{
  Rest, machine_of, step_engine, find, enqueue_resolution, mint, approve_found, approve,
  settle_found, reject, deliver_result, timeout, open_run, run_inline,
}

-- What happens to the runtime; `restart` rebuilds the queue from the ledger, `inline` is a run of the
-- engine beside the workers, `meanwhile` is anything else: other users of the kernel, the process
-- table and the outside. It does not make up tool calls: the trace and the log are left alone.
pub data Op (T : Type 0) : Type 0 where
  work : WorkerConfig → Bool → ℕ → ℕ → Bool → Op T
  queue : ℕ → String → Option String → Option ℕ → Option Resolution → Op T
  approval : ℕ → String → ℕ → Option String → String → Op T
  rejection : ℕ → Option String → String → Op T
  delivery : ℕ → Value → String → Op T
  expiry : ℕ → String → String → Op T
  restart : ℕ → Op T
  creation : ℕ → String → RunSpec → Op T
  inline : ℕ → String → RunSpec → Op T
  meanwhile : (Rest T → Rest T) → Op T

module _ {T : Type 0} (o : Outside T) where
  -- The engine runs on the outside with a log.
  abbrev pub noted : Outside (Logged T)
  noted = logged o

  abbrev pub unlogged : Rest (Logged T) → Rest T
  unlogged r = record {
    kernel = r.kernel;
    table = r.table;
    outside = r.outside.state;
    trace = r.trace;
  }

  -- The rest after a change, with the trace and the log of before.
  unfoldable pub changed : (Rest T → Rest T) → Rest (Logged T) → Rest (Logged T)
  changed change r =
      let s = change (unlogged r) in
      record {
        kernel = s.kernel;
        table = s.table;
        outside = record { state = s.outside; log = r.outside.log };
        trace = r.trace;
      }

  unfoldable pub exec : Op T → World (Rest (Logged T)) → World (Rest (Logged T))
  unfolding changed
  exec (work cfg single now count draining) w =
      (run_once (step_engine noted single) cfg now count draining w).0
  exec (queue now id priority not_before res) w = enqueue_runnable now id priority not_before res w
  exec (approval now token_id ttl by ref) w = (approve now token_id ttl by ref w).0
  exec (rejection now by ref) w = (reject now by ref w).0
  exec (delivery now payload ref) w = (deliver_result now payload ref w).0
  exec (expiry now on_timeout ref) w = (timeout now on_timeout ref w).0
  exec (restart now) w = (rebuild_from_ledger now w).0
  exec (creation limit id spec) w = open_run noted limit id spec w
  exec (inline limit id spec) w = run_inline noted limit id spec w
  exec (meanwhile change) w = record w { rest = changed change w.rest }

  unfoldable pub exec_all : List (Op T) → World (Rest (Logged T)) → World (Rest (Logged T))
  exec_all [] w = w
  exec_all (op ∷ ops) w = exec_all ops (exec op w)

  -- What the outside has become, and what has happened.
  abbrev pub seen_in : Rest (Logged T) → Seen (Logged T)
  seen_in r = (r.outside, r.trace)

  -- Every tool that was called was allowed.
  abbrev Trusts : Rest (Logged T) → Type 0
  Trusts r = Tells (seen_in r)

  work-Trusts :
      (cfg : WorkerConfig) (single : Bool) (now count : ℕ) (draining : Bool)
      (w : World (Rest (Logged T)))
      → Trusts w.rest
      → Trusts (run_once (step_engine noted single) cfg now count draining w).0.rest
  work-Trusts cfg single now count draining w k =
      run_once-keeps (step_engine noted single) cfg Trusts
        (λ id s r h.
          unfold step_engine in
          drive-Lasts noted Tells (Tells-IsKept o) (chat-Tells o) single id (machine_of s r) h)
        (λ res s r h.
          unfold step_engine in
          resume-Lasts noted Tells (Tells-IsKept o) (chat-Tells o) single res (machine_of s r) h)
        now count draining w k

  resolution-seen :
      (now : ℕ) (c : Continuation) (res : Resolution) (w : World (Rest (Logged T)))
      → (enqueue_resolution now c res w).0.rest ≡ w.rest
  unfolding enqueue_resolution
  resolution-seen now c res w =
      enqueue_runnable-rest now c.continuation_id (some "p0") none (some res) w

  approve_found-seen :
      (now : ℕ) (token_id : String) (ttl : ℕ) (by : Option String)
      (f : Option (Continuation × ToolCallRecord)) (w : World (Rest (Logged T)))
      → seen_in (approve_found now token_id ttl by f w).0.rest ≡ seen_in w.rest
  unfolding approve_found mint
  approve_found-seen now token_id ttl by none w = refl
  approve_found-seen now token_id ttl by (some (c, rec)) w =
      ap seen_in (resolution-seen now c _ (mint now token_id ttl c rec w))

  settle_found-seen :
      (now : ℕ) (outcome : ResolutionOutcome) (payload : Value) (by : Option String)
      (f : Option (Continuation × ToolCallRecord)) (w : World (Rest (Logged T)))
      → seen_in (settle_found now outcome payload by f w).0.rest ≡ seen_in w.rest
  unfolding settle_found
  settle_found-seen now outcome payload by none w = refl
  settle_found-seen now outcome payload by (some (c, rec)) w =
      ap seen_in (resolution-seen now c _ w)

  timeout-seen :
      (now : ℕ) (on_timeout ref : String) (w : World (Rest (Logged T)))
      → seen_in (timeout now on_timeout ref w).0.rest ≡ seen_in w.rest
  unfolding timeout
  timeout-seen now on_timeout ref w = elim (Bool-cases (str_eq on_timeout "proceed")) [
    | inl e ↦ rw e (settle_found-seen now ResolutionOutcome.result _ none (find ref w.store) w)
    | inr e ↦
        rw e (
          settle_found-seen now ResolutionOutcome.reject _ (some "sla-timeout") (find ref w.store)
            w)
  ]

  exec-Trusts : (op : Op T) (w : World (Rest (Logged T))) → Trusts w.rest → Trusts (exec op w).rest
  unfolding exec changed approve reject deliver_result rebuild_from_ledger open_run run_inline
      start_run create_continuation drive_or_step
  exec-Trusts (work cfg single now count draining) w k =
      work-Trusts cfg single now count draining w k
  exec-Trusts (queue now id priority not_before res) w k =
      rw (enqueue_runnable-rest now id priority not_before res w) k
  exec-Trusts (approval now token_id ttl by ref) w k =
      rw (approve_found-seen now token_id ttl by (find ref w.store) w) k
  exec-Trusts (rejection now by ref) w k =
      rw (settle_found-seen now ResolutionOutcome.reject _ by (find ref w.store) w) k
  exec-Trusts (delivery now payload ref) w k =
      rw (settle_found-seen now ResolutionOutcome.result payload none (find ref w.store) w) k
  exec-Trusts (expiry now on_timeout ref) w k = rw (timeout-seen now on_timeout ref w) k
  exec-Trusts (restart now) w k = rw (rebuild_rows-rest now (recover_rows w.ledger) w) k
  exec-Trusts (creation limit id spec) w k = k
  exec-Trusts (inline limit id spec) w k =
      drive_or_step-Stays noted Tells (Tells-IsKept o) (chat-Tells o) false
        (create_continuation noted limit id spec (machine_of w.store w.rest)) k
  exec-Trusts (meanwhile change) w k = k

  exec_all-Trusts :
      (ops : List (Op T)) (w : World (Rest (Logged T)))
      → Trusts w.rest
      → Trusts (exec_all ops w).rest
  unfolding exec_all
  exec_all-Trusts [] w k = k
  exec_all-Trusts (op ∷ ops) w k = exec_all-Trusts ops (exec op w) (exec-Trusts op w k)

  -- Through whatever is opened, run, queued, approved, rejected, delivered or timed out, with any
  -- workers in either mode and anything else happening to the kernel and outside in between, the tools
  -- that the outside is asked to call, by name and input as its log has them, are just those in the
  -- trace, and each of these was checked when its call was admitted: a token that the call carries
  -- authorised the tool of that name for the subject of the call, or the permission check allowed that
  -- tool with that input, and the budget granted a reservation. Before, nothing was called.
  pub tools_called-IsChecked :
      (ops : List (Op T)) (w : World (Rest (Logged T)))
      → w.rest.trace ≡ []
      → w.rest.outside.log ≡ []
      → let after = (exec_all ops w).rest in
        (after.outside.log ≡ calls_in after.trace) × All IsChecked after.trace
  unfolding calls_in
  tools_called-IsChecked ops w h l =
      let (same, allowed) = exec_all-Trusts ops w (rw (l, h) (refl, tt)) in
      (same, All-IsChecked (exec_all ops w).rest.trace allowed)
