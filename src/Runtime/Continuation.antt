-- ===== src/Runtime/Continuation.antt =====
-- A suspended run: `Continuation`, `ToolCallRecord` and `MemoryContinuationStore`
-- (src/runtime/continuation.py) and `Resolution` (src/runtime/signals.py). The engine writes
-- three numbers into a continuation's accounting, which are a record here; the time of its making is
-- left out.
pub mod Refinement
pub mod Store
use helios_os.Prelude.{
  ℕ, String, str_eq, Bool, true, false, not, ◌&&◌, Option, none, some, List, [], ◌∷◌, Dict, get,
  put, del, values, keep, ltb, is_some, if◌then◌else◌,
}
use helios_os.Kernel.Json.{Value}

pub data ResolutionOutcome : Type 0 where
  accept reject result : ResolutionOutcome

pub record Resolution : Type 0 where
  pub continuation_id : String
  pub tool_use_id : String
  pub outcome : ResolutionOutcome
  pub capability_token : Option String
  pub result_payload : Value
  pub responded_by : Option String

pub data CallStatus : Type 0 where
  pending authorized executed rejected failed : CallStatus

pub record ToolCallRecord : Type 0 where
  pub tool_use_id : String
  pub name : String
  pub arguments : Value
  pub status : CallStatus
  pub suspend_reason : Option String
  pub external_ref : Option String
  pub capability_token : Option String
  pub result : Value
  pub result_is_error : Bool

pub data RunState : Type 0 where
  running suspended resuming done failed : RunState

unfoldable pub state_eq : RunState → RunState → Bool
state_eq running running = true
state_eq suspended suspended = true
state_eq resuming resuming = true
state_eq done done = true
state_eq failed failed = true
state_eq _ _ = false

-- The keys of `resource_usage`; one that is absent reads as zero.
pub record Usage : Type 0 where
  pub tokens_in : ℕ
  pub tokens_out : ℕ
  pub tool_calls : ℕ

pub record Continuation : Type 0 where
  pub continuation_id : String
  pub pid : String
  pub generation : ℕ
  pub run_id : Option String
  pub session_id : Option String
  pub tenant_id : String
  pub user_id : String
  pub namespace : String
  pub messages : List Value
  pub provider : String
  pub chat_model : String
  pub endpoint : Option String
  pub api_key_ref : Option String
  pub tool_definitions : Option (List Value)
  pub step_index : ℕ
  pub max_turns : ℕ
  pub goal : Option String
  pub status : RunState
  pub suspend_reason : Option String
  pub pending_calls : List ToolCallRecord
  pub resource_usage : Usage
  pub source : String
  pub enqueue_epoch : ℕ
  pub last_error : Option String
  pub final_output : String
  pub updated_at : ℕ

-- `touch`
unfoldable pub touch : ℕ → Continuation → Continuation
touch now c = record c { updated_at = now }

unfoldable pub find_call : String → List ToolCallRecord → Option ToolCallRecord
find_call id [] = none
find_call id (r ∷ rs) = if str_eq r.tool_use_id id then some r else find_call id rs

-- `pending_by_id`
unfoldable pub pending_by_id : String → Continuation → Option ToolCallRecord
unfolding find_call
pending_by_id id c = find_call id c.pending_calls

pub record ContinuationStore : Type 0 where
  pub by_id : Dict Continuation
  pub ref_to_id : Dict String

unfoldable pub save : ℕ → Continuation → ContinuationStore → ContinuationStore
unfolding touch
save now c s = record s { by_id = put c.continuation_id (touch now c) s.by_id }

unfoldable pub load : String → ContinuationStore → Option Continuation
load id s = get id s.by_id

-- `max(matches, key=lambda c: c.updated_at)`: the first of the latest, if there is any.
unfoldable pub latest : List Continuation → Option Continuation
latest [] = none
latest (c ∷ cs) =
    let rest = latest cs in
    elim rest [ none ↦ some c | some d ↦ if ltb c.updated_at d.updated_at then some d else some c ]

-- `status is None or c.status == status`
unfoldable pub in_state : Option RunState → Continuation → Bool
unfolding state_eq
in_state none c = true
in_state (some status) c = state_eq c.status status

unfoldable pub load_for_pid : String → Option RunState → ContinuationStore → Option Continuation
load_for_pid pid status s =
    latest (keep (λ c. str_eq c.pid pid && in_state status c) (values s.by_id))

unfoldable pub in_session : String → Continuation → Bool
in_session session c = elim c.session_id [ none ↦ false | some t ↦ str_eq t session ]

unfoldable pub load_latest_for_session :
    String → Option RunState → ContinuationStore → Option Continuation
unfolding in_session
load_latest_for_session session status s =
    latest (keep (λ c. in_session session c && in_state status c) (values s.by_id))

-- An empty id is no id.
unfoldable pub find_by_external_ref : String → ContinuationStore → Option Continuation
find_by_external_ref ref s = elim (get ref s.ref_to_id) [
  | none ↦ none
  | some id ↦ if str_eq id "" then none else get id s.by_id
]

unfoldable pub index_ref : String → String → ContinuationStore → ContinuationStore
index_ref ref id s = record s { ref_to_id = put ref id s.ref_to_id }

-- The loop of `delete` over a copy of the aliases.
unfoldable pub drop_refs : String → Dict String → Dict String
drop_refs id [] = []
drop_refs id ((ref, cid) ∷ refs) =
    let rest = drop_refs id refs in if str_eq cid id then rest else (ref, cid) ∷ rest

unfoldable pub delete : String → ContinuationStore → ContinuationStore × Bool
delete id s = (
  record { by_id = del id s.by_id; ref_to_id = drop_refs id s.ref_to_id },
  is_some (get id s.by_id),
)

unfoldable pub list_suspended : ContinuationStore → List Continuation
unfolding state_eq
list_suspended s = keep (λ c. state_eq c.status suspended) (values s.by_id)
