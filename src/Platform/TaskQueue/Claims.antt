-- ===== src/Platform/TaskQueue/Claims.antt =====
-- What a run of a task that fails costs of its attempts.
use helios_os.Prelude.{
  ℕ, ◌+◌, String, true, ◌≡◌, some, get, get-put_self, arith, leb, if◌then◌else◌,
}
use helios_os.Platform.TaskQueue.{
  Task, pending, failed, status_eq, TaskQueue, start, claim_task, count_failure, mark_failed,
}

claim_task-pending :
    (now : ℕ) (id : String) (t : Task) (q : TaskQueue)
    → get id q ≡ some t
    → status_eq t.status pending ≡ true
    → get id (claim_task now id q).0 ≡ some (start now t)
unfolding claim_task
claim_task-pending now id t q e h = ground (arith, get-put_self id (start now t) q)

mark_failed-found :
    (now : ℕ) (id error : String) (t : Task) (q : TaskQueue)
    → get id q ≡ some t
    → get id (mark_failed now id error q) ≡ some (count_failure now error t)
unfolding mark_failed
mark_failed-found now id error t q e = ground (arith, get-put_self id (count_failure now error t) q)

-- A task that is claimed and then reported failed has used two attempts, not one: it is pending
-- again exactly when two more than before is below its maximum, and failed for good otherwise.
failed_round_costs_two :
    (now later : ℕ) (id error : String) (t : Task) (q : TaskQueue)
    → get id q ≡ some t
    → status_eq t.status pending ≡ true
    → (u : Task) × (get id (mark_failed later id error (claim_task now id q).0) ≡ some u)
      × (u.attempts ≡ t.attempts + 2)
      × (u.status ≡ (if leb t.max_attempts (t.attempts + 2) then failed else pending))
unfolding count_failure start
failed_round_costs_two now later id error t q e h = (
  count_failure later error (start now t),
  mark_failed-found later id error (start now t) (claim_task now id q).0
      (claim_task-pending now id t q e h),
  ground arith,
  ground arith,
)
