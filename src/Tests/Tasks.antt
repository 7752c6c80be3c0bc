-- ===== src/Tests/Tasks.antt =====
-- The task queue at concrete inputs.
use helios_os.Prelude.{◌≡◌, List, [], ◌∷◌}
use helios_os.Platform.TaskQueue.{get_pending}
use helios_os.Platform.TaskQueue.Pending.{
  Op, submit_op, claim_op, by_name_op, exec_all, get_pending_finds_nothing,
}

abbrev calls : List Op
calls =
    submit_op 1 "j1" "a1" "content" "writer" "draft" 300
    ∷ submit_op 2 "j2" "a1" "content" "writer" "review" 300
    ∷ by_name_op 3 "content" "writer"
    ∷ claim_op 4 "j1"
    ∷ []

get_pending_finds_nothing_example : (get_pending 5 "writer" (exec_all calls [])).1 ≡ []
get_pending_finds_nothing_example = get_pending_finds_nothing calls 5 "writer"
