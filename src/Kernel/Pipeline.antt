-- ===== src/Kernel/Pipeline.antt =====
-- The syscall pipeline: `Syscall`, `STAGE_ORDER` and `SyscallPipeline`
-- (src/platform/kernel/_syscall.py). A stage is a function of the syscall and of the state of the
-- kernel; the loop and its short-circuits are the code's, for every choice of stages.
pub mod Order
pub mod Refusals
use helios_os.Prelude.{
  ℕ, String, Bool, true, false, not, Option, none, some, List, [], ◌∷◌, ◌++◌, if◌then◌else◌,
}
use helios_os.Kernel.Json.{Value}
use helios_os.Kernel.Decision.{
  KernelDecision, Action, allowed, allowing, denying, stage_crashed, syscall_allowed,
}

-- The keys of `args` that the stages read.
pub record Args : Type 0 where
  pub capability_token : Option String
  pub tool_input : Value
  pub command : String
  pub target_namespace : Option String
  pub callee_namespace : Option String
  pub estimated_cost_usd : Option ℕ
  pub estimated_tokens : Option ℕ
  pub tenant_id : Option String

-- `context` is the tenant that the license stage resolves and the denial that the runner attaches.
pub record Syscall : Type 0 where
  pub verb : String
  pub subject : String
  pub object_name : String
  pub args : Args
  pub tenant : Option String
  pub last_decision : Option KernelDecision
  pub budget_ticket : Option String

pub data StageName : Type 0 where
  identity capability quota policy boundary dispatch audit : StageName

-- `STAGE_ORDER`
abbrev pub stage_order : List StageName
stage_order = identity ∷ capability ∷ quota ∷ policy ∷ boundary ∷ dispatch ∷ audit ∷ []

unfoldable pub is_audit : StageName → Bool
is_audit audit = true
is_audit _ = false

-- A stage continues, decides or raises.
pub data Outcome : Type 0 where
  pass crash : Outcome
  decided : KernelDecision → Outcome

module _ (S : Type 0) where
  abbrev pub Stage : Type 0
  Stage = Syscall → S → Outcome × Syscall × S

  -- `self._stages`: a stage or `None` under each name.
  abbrev pub Stages : Type 0
  Stages = StageName → Option Stage

-- What `run` returns: the decision, the syscall and the state as the stages left them, and the
-- names of the stages that were called, in order.
pub record Run (S : Type 0) : Type 0 where
  pub decision : KernelDecision
  pub call : Syscall
  pub state : S
  pub called : List StageName

module _ {S : Type 0} (stages : Stages S) where
  -- `_run_audit_on_deny`: an audit stage that raises is logged, and what it did stays done.
  unfoldable pub run_audit_on_deny : Syscall → KernelDecision → S → List StageName → Run S
  run_audit_on_deny call d s called = elim (stages audit) [
    | none ↦ record { decision = d; call = call; state = s; called = called }
    | some stage ↦
        let (o, call', s') = stage (record call { last_decision = some d }) s in
        record { decision = d; call = call'; state = s'; called = called ++ audit ∷ [] }
  ]

  -- `KernelDecision.allow(reason="syscall allowed", …)`, with the ticket that quota attached.
  unfoldable pub final_allow : Syscall → KernelDecision
  final_allow call = record (allowing syscall_allowed) { ticket = call.budget_ticket }

  unfoldable pub stop : StageName → Syscall → KernelDecision → S → List StageName → Run S
  stop name call d s called =
      if is_audit name
      then record { decision = d; call = call; state = s; called = called }
      else run_audit_on_deny call d s called

  -- The end of the loop's body: an exception denies, a decision that is not `allow` stops, and
  -- otherwise the loop goes on.
  unfoldable pub after_stage :
      (Syscall → S → List StageName → Run S)
      → StageName
      → Outcome
      → Syscall
      → S
      → List StageName
      → Run S
  after_stage on name pass call s seen = on call s seen
  after_stage on name crash call s seen = record {
    decision = denying stage_crashed;
    call = call;
    state = s;
    called = seen;
  }
  after_stage on name (decided d) call s seen =
      if allowed d then on call s seen else stop name call d s seen

  -- The loop of `run` over the rest of the order.
  unfoldable pub run_from : List StageName → Syscall → S → List StageName → Run S
  run_from [] call s called = record {
    decision = final_allow call;
    call = call;
    state = s;
    called = called;
  }
  run_from (name ∷ names) call s called =
      let on = run_from names in
      elim (stages name) [
        | none ↦ on call s called
        | some stage ↦
            let (o, call', s') = stage call s in
            after_stage on name o call' s' (called ++ name ∷ [])
      ]

  -- `SyscallPipeline.run`
  unfoldable pub run : Syscall → S → Run S
  run call s = run_from stage_order call s []
