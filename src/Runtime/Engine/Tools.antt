-- ===== src/Runtime/Engine/Tools.antt =====
-- One tool call: `_execute_tool` of the engine (src/runtime/engine.py), the retries of
-- src/platform/agentic_loop.py below it, and the budget tickets.
use Prim.Native.String.{◌++◌ as str_append}
use helios_os.Prelude.{ℕ, zero, suc, String, str_eq, true, false, Option, none, some, [], ◌∷◌}
use helios_os.Kernel.Json.{Value, str}
use helios_os.Kernel.Budget
use helios_os.Kernel.Stages.{World}
use helios_os.Runtime.Shaping.{obj}
use helios_os.Runtime.Engine.Machine.{
  Suspend, Attempt, returns, waits, broke, absent, useless, usable, Outside, Admission, ran,
  Machine,
}

-- `_error_result`
unfoldable pub error_result : String → Value
error_result msg = obj (("error", str msg) ∷ [])

-- What `_execute_tool` ends with: a value, or the signal of a tool that must wait.
pub data Executed : Type 0 where
  value : Value → Executed
  suspends : Suspend → Executed

module _ {T : Type 0} (o : Outside T) where
  -- `tool_executor.execute(…)` under its timeout.
  unfoldable pub call_tool :
      Admission → String → Value → Option String → Machine T → Attempt × Machine T
  call_tool adm name input token m =
      let (a, t) = o.attempt name input token m.outside in
      (a, record m { outside = t; trace = ran adm name input ∷ m.trace })

  -- The loop over `range(max_retries + 1)`, with the retries that are left.
  unfoldable pub attempts :
      ℕ → Admission → String → Value → Option String → Machine T → Executed × Machine T
  unfolding call_tool error_result
  attempts zero adm name input token m =
      let (a, m') = call_tool adm name input token m in
      elim a [
        | returns v ↦ (value v, m')
        | waits s ↦ (suspends s, m')
        | broke e ↦ (value (error_result e), m')
      ]
  attempts (suc n) adm name input token m =
      let (a, m') = call_tool adm name input token m in
      elim a [
        | returns v ↦ (value v, m')
        | waits s ↦ (suspends s, m')
        | broke e ↦ attempts n adm name input token m'
      ]

  -- The part of `_execute_tool` past the tests on the executor: the SDK's check, then the attempts.
  unfoldable pub gated_attempts :
      Admission → String → Value → Option String → Machine T → Executed × Machine T
  unfolding error_result
  gated_attempts adm name input token m =
      let (refusal, t) = o.gate name input m.outside in
      let m' : Machine T = record m { outside = t } in
      elim refusal [
        | some e ↦ (value (error_result e), m')
        | none ↦ attempts o.max_retries adm name input token m'
      ]

  -- `_execute_tool`
  unfoldable pub execute_tool :
      Admission → String → Value → Option String → Machine T → Executed × Machine T
  unfolding error_result
  execute_tool adm name input token m = elim o.executor [
    | absent ↦ (
      value
          (error_result (str_append "No tool executor available for tool '" (str_append name "'"))),
      m,
    )
    | useless ↦ (value (error_result "Tool executor has no execute method"), m)
    | usable ↦ gated_attempts adm name input token m
  ]

module _ {T : Type 0} where
  -- A change of the kernel's budgets by a ticket, where there is one.
  unfoldable pub with_ticket : (String → World → World) → Option String → Machine T → Machine T
  with_ticket f none m = m
  with_ticket f (some ticket) m = elim (str_eq ticket "") [
    | true ↦ m
    | false ↦ record m { kernel = f ticket m.kernel }
  ]

  -- `_commit_ticket`: no actual cost is given.
  unfoldable pub commit_ticket : Option String → Machine T → Machine T
  unfolding with_ticket
  commit_ticket ticket m =
      with_ticket (λ t w. record w { budgets = (Budget.commit t none none w.budgets).0 }) ticket m

  -- `_release_ticket`
  unfoldable pub release_ticket : Option String → Machine T → Machine T
  unfolding with_ticket
  release_ticket ticket m =
      with_ticket (λ t w. record w { budgets = (Budget.release t w.budgets).0 }) ticket m
