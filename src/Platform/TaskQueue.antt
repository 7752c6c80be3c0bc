-- ===== src/Platform/TaskQueue.antt =====
-- Tasks that one agent gives another: `Task` and `InMemoryTaskQueue` (src/platform/task_queue.py). The
-- queue holds the tasks themselves, changed in place. A deadline is an instant, and the context and
-- the metadata of a task, which no operation reads, are left out. `claim` is here `claim_task`.
pub mod Claims
pub mod Pending
use helios_os.Prelude.{
  ℕ, ◌+◌, String, str_eq, Bool, true, false, not, ◌&&◌, ◌||◌, Option, none, some, List, [], ◌∷◌,
  Dict, get, put, del, values, keep, leb, ltb, length, if◌then◌else◌,
}

pub data TaskStatus : Type 0 where
  pending running completed failed timeout : TaskStatus

unfoldable pub status_eq : TaskStatus → TaskStatus → Bool
status_eq pending pending = true
status_eq running running = true
status_eq completed completed = true
status_eq failed failed = true
status_eq timeout timeout = true
status_eq _ _ = false

pub record Task : Type 0 where
  pub job_id : String
  pub caller_id : String
  pub callee_namespace : String
  pub callee_name : String
  pub callee_id : Option String
  pub task : String
  pub status : TaskStatus
  pub result : Option String
  pub error : Option String
  pub submitted_at : ℕ
  pub started_at : Option ℕ
  pub completed_at : Option ℕ
  pub deadline : Option ℕ
  pub attempts : ℕ
  pub max_attempts : ℕ

-- `is_terminal`
unfoldable pub is_ended : Task → Bool
is_ended t = elim t.status [ pending ↦ false | running ↦ false | _ ↦ true ]

-- `is_expired`
unfoldable pub is_late : ℕ → Task → Bool
is_late now t = elim t.deadline [ none ↦ false | some d ↦ leb d now ]

abbrev pub TaskQueue : Type 0
TaskQueue = Dict Task

unfoldable pub new_task : ℕ → String → String → String → String → String → ℕ → Task
new_task now job_id caller namespace name text timeout_seconds = record {
  job_id = job_id;
  caller_id = caller;
  callee_namespace = namespace;
  callee_name = name;
  callee_id = none;
  task = text;
  status = pending;
  result = none;
  error = none;
  submitted_at = now;
  started_at = none;
  completed_at = none;
  deadline = some (now + timeout_seconds);
  attempts = 0;
  max_attempts = 3;
}

-- `submit`, which draws `job_id`.
unfoldable pub submit : ℕ → String → String → String → String → String → ℕ → TaskQueue → TaskQueue
submit now job_id caller namespace name text timeout_seconds q =
    put job_id (new_task now job_id caller namespace name text timeout_seconds) q

unfoldable pub time_out : ℕ → Task → Task
time_out now t = record t { status = timeout; completed_at = some now }

unfoldable pub expire : ℕ → Task → Task
unfolding time_out
expire now t = record (time_out now t) { error = some "Task deadline exceeded" }

-- `get_task`
unfoldable pub get_task : ℕ → String → TaskQueue → TaskQueue × Option Task
get_task now job_id q = elim (get job_id q) [
  | none ↦ (q, none)
  | some t ↦
      if not (is_ended t) && is_late now t
      then (put job_id (expire now t) q, some (expire now t))
      else (q, some t)
]

-- The loop of `get_pending` and `get_pending_by_name`: of the tasks that are wanted, those that are
-- late time out and the others are listed.
unfoldable pub scan_pending : ℕ → (Task → Bool) → TaskQueue → TaskQueue × List Task
unfolding status_eq
scan_pending now wanted [] = ([], [])
scan_pending now wanted ((k, t) ∷ q) =
    let (q', found) = scan_pending now wanted q in
    if status_eq t.status pending && wanted t
    then if is_late now t then ((k, time_out now t) ∷ q', found) else ((k, t) ∷ q', t ∷ found)
    else ((k, t) ∷ q', found)

unfoldable pub is_callee : String → Task → Bool
is_callee callee_id t = elim t.callee_id [ none ↦ false | some c ↦ str_eq c callee_id ]

unfoldable pub get_pending : ℕ → String → TaskQueue → TaskQueue × List Task
unfolding is_callee
get_pending now callee_id q = scan_pending now (is_callee callee_id) q

unfoldable pub get_pending_by_name : ℕ → String → String → TaskQueue → TaskQueue × List Task
get_pending_by_name now namespace name q =
    scan_pending now (λ t. str_eq t.callee_namespace namespace && str_eq t.callee_name name) q

unfoldable pub start : ℕ → Task → Task
start now t = record t { status = running; started_at = some now; attempts = t.attempts + 1 }

-- `claim`
unfoldable pub claim_task : ℕ → String → TaskQueue → TaskQueue × Option Task
claim_task now job_id q = elim (get job_id q) [
  | none ↦ (q, none)
  | some t ↦
      if status_eq t.status pending
      then (put job_id (start now t) q, some (start now t))
      else (q, none)
]

unfoldable pub complete : ℕ → String → Task → Task
complete now result t = record t {
  status = completed;
  result = some result;
  completed_at = some now;
}

unfoldable pub submit_result : ℕ → String → String → TaskQueue → TaskQueue
submit_result now job_id result q = elim (get job_id q) [
  | none ↦ q
  | some t ↦ put job_id (complete now result t) q
]

-- The assignments of `mark_failed`.
unfoldable pub count_failure : ℕ → String → Task → Task
count_failure now error t =
    let n = t.attempts + 1 in
    if leb t.max_attempts n
    then record t { attempts = n; status = failed; error = some error; completed_at = some now }
    else record t { attempts = n; status = pending; error = some error }

unfoldable pub mark_failed : ℕ → String → String → TaskQueue → TaskQueue
mark_failed now job_id error q = elim (get job_id q) [
  | none ↦ q
  | some t ↦ put job_id (count_failure now error t) q
]

-- `t.is_terminal and t.completed_at and t.completed_at < cutoff`
unfoldable pub is_stale : ℕ → Task → Bool
is_stale cutoff t = is_ended t && elim t.completed_at [ none ↦ false | some c ↦ ltb c cutoff ]

-- The deletions of `cleanup_stale`, each key being there once.
unfoldable pub drop_stale : ℕ → TaskQueue → TaskQueue
unfolding is_stale
drop_stale cutoff [] = []
drop_stale cutoff ((k, t) ∷ q) =
    let rest = drop_stale cutoff q in if is_stale cutoff t then rest else (k, t) ∷ rest

-- `cleanup_stale`, at the cutoff that it computes.
unfoldable pub cleanup_stale : ℕ → TaskQueue → TaskQueue × ℕ
cleanup_stale cutoff q = (drop_stale cutoff q, length (keep (is_stale cutoff) (values q)))

unfoldable pub list_tasks : Option TaskStatus → TaskQueue → List Task
list_tasks none q = values q
list_tasks (some status) q = keep (λ t. status_eq t.status status) (values q)
