-- ===== src/Platform/TaskQueue/Pending.antt =====
-- What the callee of a task finds: by the callee's id, nothing that was submitted.
use helios_os.Prelude.{
  ℕ, String, str_eq, Bool, not, ◌∙◌, ◌&&◌, ◌≡◌, refl, none, some, List, [], ◌∷◌, get, put, arith,
  Option-cases, Bool-cases, inl, inr,
}
use helios_os.Platform.TaskQueue.{
  Task, pending, TaskQueue, new_task, submit, time_out, expire, status_eq, is_late, is_ended,
  get_task, scan_pending, is_callee, get_pending, get_pending_by_name, start, claim_task, complete,
  submit_result, count_failure, mark_failed, is_stale, drop_stale, cleanup_stale,
}

-- The calls that can change a queue.
pub data Op : Type 0 where
  submit_op : ℕ → String → String → String → String → String → ℕ → Op
  get_op : ℕ → String → Op
  pending_op : ℕ → String → Op
  by_name_op : ℕ → String → String → Op
  claim_op : ℕ → String → Op
  result_op : ℕ → String → String → Op
  fail_op : ℕ → String → String → Op
  cleanup_op : ℕ → Op

unfoldable pub exec : Op → TaskQueue → TaskQueue
exec (submit_op now id caller namespace name text seconds) q =
    submit now id caller namespace name text seconds q
exec (get_op now id) q = (get_task now id q).0
exec (pending_op now callee) q = (get_pending now callee q).0
exec (by_name_op now namespace name) q = (get_pending_by_name now namespace name q).0
exec (claim_op now id) q = (claim_task now id q).0
exec (result_op now id result) q = submit_result now id result q
exec (fail_op now id error) q = mark_failed now id error q
exec (cleanup_op cutoff) q = (cleanup_stale cutoff q).0

unfoldable pub exec_all : List Op → TaskQueue → TaskQueue
exec_all [] q = q
exec_all (o ∷ os) q = exec_all os (exec o q)

-- No task of the queue names its callee by an id.
abbrev pub Anonymous : TaskQueue → Type 0
Anonymous [] = Unit
Anonymous ((k, t) ∷ q) = (t.callee_id ≡ none) × Anonymous q

put-Anonymous :
    (k : String) (t : Task) (q : TaskQueue)
    → t.callee_id ≡ none
    → Anonymous q
    → Anonymous (put k t q)
unfolding put
put-Anonymous k t [] e a = (e, tt)
put-Anonymous k t ((j, u) ∷ q) e (f, a) = elim (Bool-cases (str_eq j k)) [
  | inl h ↦ rw (h, put) (e, a)
  | inr h ↦ rw (h, put) (f, put-Anonymous k t q e a)
]

get-Anonymous :
    (k : String) (t : Task) (q : TaskQueue) → get k q ≡ some t → Anonymous q → t.callee_id ≡ none
unfolding get
get-Anonymous k t [] e a = cc
get-Anonymous k t ((j, u) ∷ q) e (f, a) = ground (arith, f, get-Anonymous k t q)

scan-Anonymous :
    (now : ℕ) (wanted : Task → Bool) (q : TaskQueue)
    → Anonymous q
    → Anonymous (scan_pending now wanted q).0
unfolding scan_pending time_out
scan-Anonymous now wanted [] a = tt
scan-Anonymous now wanted ((k, t) ∷ q) (f, a) =
    let rest = scan-Anonymous now wanted q a in
    elim (Bool-cases (status_eq t.status pending && wanted t)) [
      | inr h ↦ rw (h, scan_pending) (f, rest)
      | inl h ↦ elim (Bool-cases (is_late now t)) [
        | inl g ↦ rw (h, scan_pending) (rw g (f, rest))
        | inr g ↦ rw (h, scan_pending) (rw g (f, rest))
      ]
    ]

drop-Anonymous : (cutoff : ℕ) (q : TaskQueue) → Anonymous q → Anonymous (drop_stale cutoff q)
unfolding drop_stale
drop-Anonymous cutoff [] a = tt
drop-Anonymous cutoff ((k, t) ∷ q) (f, a) = elim (Bool-cases (is_stale cutoff t)) [
  | inl h ↦ rw (h, drop_stale) (drop-Anonymous cutoff q a)
  | inr h ↦ rw (h, drop_stale) (f, drop-Anonymous cutoff q a)
]

get_task-Anonymous :
    (now : ℕ) (id : String) (q : TaskQueue) → Anonymous q → Anonymous (get_task now id q).0
unfolding get_task expire
get_task-Anonymous now id q a = elim (Option-cases (get id q)) [
  | inl e ↦ rw (e, get_task) a
  | inr (t, e) ↦ elim (Bool-cases (not (is_ended t) && is_late now t)) [
    | inl h ↦
        rw (e, get_task) (rw h (put-Anonymous id (expire now t) q (get-Anonymous id t q e a) a))
    | inr h ↦ rw (e, get_task) (rw h a)
  ]
]

claim_task-Anonymous :
    (now : ℕ) (id : String) (q : TaskQueue) → Anonymous q → Anonymous (claim_task now id q).0
unfolding claim_task start
claim_task-Anonymous now id q a = elim (Option-cases (get id q)) [
  | inl e ↦ rw (e, claim_task) a
  | inr (t, e) ↦ elim (Bool-cases (status_eq t.status pending)) [
    | inl h ↦
        rw (e, claim_task) (rw h (put-Anonymous id (start now t) q (get-Anonymous id t q e a) a))
    | inr h ↦ rw (e, claim_task) (rw h a)
  ]
]

submit_result-Anonymous :
    (now : ℕ) (id result : String) (q : TaskQueue)
    → Anonymous q
    → Anonymous (submit_result now id result q)
unfolding submit_result complete
submit_result-Anonymous now id result q a = elim (Option-cases (get id q)) [
  | inl e ↦ rw (e, submit_result) a
  | inr (t, e) ↦
      rw (e, submit_result)
        (put-Anonymous id (complete now result t) q (get-Anonymous id t q e a) a)
]

count_failure-callee_id :
    (now : ℕ) (error : String) (t : Task) → (count_failure now error t).callee_id ≡ t.callee_id
unfolding count_failure
count_failure-callee_id now error t = ground arith

mark_failed-Anonymous :
    (now : ℕ) (id error : String) (q : TaskQueue)
    → Anonymous q
    → Anonymous (mark_failed now id error q)
unfolding mark_failed
mark_failed-Anonymous now id error q a = elim (Option-cases (get id q)) [
  | inl e ↦ rw (e, mark_failed) a
  | inr (t, e) ↦
      rw (e, mark_failed)
        (put-Anonymous id (count_failure now error t) q
          (count_failure-callee_id now error t ∙ get-Anonymous id t q e a) a)
]

exec-Anonymous : (o : Op) (q : TaskQueue) → Anonymous q → Anonymous (exec o q)
unfolding exec submit new_task get_pending get_pending_by_name cleanup_stale
exec-Anonymous (submit_op now id caller namespace name text seconds) q a =
    put-Anonymous id (new_task now id caller namespace name text seconds) q refl a
exec-Anonymous (get_op now id) q a = get_task-Anonymous now id q a
exec-Anonymous (pending_op now callee) q a = scan-Anonymous now (is_callee callee) q a
exec-Anonymous (by_name_op now namespace name) q a =
    scan-Anonymous now (λ t. str_eq t.callee_namespace namespace && str_eq t.callee_name name) q a
exec-Anonymous (claim_op now id) q a = claim_task-Anonymous now id q a
exec-Anonymous (result_op now id result) q a = submit_result-Anonymous now id result q a
exec-Anonymous (fail_op now id error) q a = mark_failed-Anonymous now id error q a
exec-Anonymous (cleanup_op cutoff) q a = drop-Anonymous cutoff q a

exec_all-Anonymous : (os : List Op) (q : TaskQueue) → Anonymous q → Anonymous (exec_all os q)
unfolding exec_all
exec_all-Anonymous [] q a = a
exec_all-Anonymous (o ∷ os) q a = exec_all-Anonymous os (exec o q) (exec-Anonymous o q a)

pending_of-Anonymous :
    (now : ℕ) (callee : String) (q : TaskQueue) → Anonymous q → (get_pending now callee q).1 ≡ []
unfolding get_pending scan_pending is_callee
pending_of-Anonymous now callee [] a = refl
pending_of-Anonymous now callee ((k, t) ∷ q) (f, a) =
    ground (arith, f, pending_of-Anonymous now callee q a)

-- From an empty queue, after any calls, `get_pending` finds no task for any callee id at any time:
-- no call ever gives a task the id of its callee.
pub get_pending_finds_nothing :
    (os : List Op) (now : ℕ) (callee : String) → (get_pending now callee (exec_all os [])).1 ≡ []
get_pending_finds_nothing os now callee =
    pending_of-Anonymous now callee (exec_all os []) (exec_all-Anonymous os [] tt)
