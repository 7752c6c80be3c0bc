-- ===== src/Runtime/Engine/Checked.antt =====
-- The tools that an engine runs over its whole life, and what it means that a call was checked.
use helios_os.Prelude.{
  String, Bool, true, false, ◌≡◌, Option, none, some, List, [], ◌∷◌, All, or_else,
}
use mathlib.Core.Path.{subst}
use helios_os.Kernel.Budget.{reserve}
use helios_os.Kernel.Stages.Soundness.{ToolChecked, tool_call_allowed}
use helios_os.Runtime.Continuation.{
  RunState, ResolutionOutcome, Resolution, ToolCallRecord, Continuation, load, pending_by_id,
}
use helios_os.Runtime.Engine.Machine.{
  Question, Outside, Event, asked, ran, Machine, Held, keep_cont,
}
use helios_os.Runtime.Engine.Tools.{Executed, value, suspends}
use helios_os.Runtime.Engine.Dispatch.{dispatch_authorized}
use helios_os.Runtime.Engine.Ending.{is_executed}
use helios_os.Runtime.Engine.Drive.{drive_loaded, drive_found, drive}
use helios_os.Runtime.Engine.Resume.{
  after_authorized, resolve_call, with_answers, go_on, stay_parked, park_or_go, after_resolution,
  after_resolve, apply_resolution, resume_call, resume_suspended, resume_loaded, resume_found,
  resume,
}
use helios_os.Runtime.Engine.Kept.{IsAllowed, Seen, seen, IsKept}
use helios_os.Runtime.Engine.Trust.{dispatch_authorized-Holds}
use helios_os.Runtime.Engine.Runs.{run_on-Stays}

module _ {T : Type 0} (o : Outside T) (P : Seen T → Type 0) (kept : IsKept o P)
    (on_chat : (q : Question) (t : T) (es : List Event)
      → P (t, es)
      → P ((o.chat q t).1, asked ∷ es)) where
  abbrev pub Lasts : Machine T → Type 0
  Lasts m = P (seen m)

  drive_loaded-Lasts :
      (s : RunState) (single : Bool) (c : Continuation) (m : Machine T)
      → Lasts m
      → Lasts (drive_loaded o s single c m).0
  unfolding drive_loaded
  drive_loaded-Lasts RunState.done single c m k = k
  drive_loaded-Lasts RunState.failed single c m k = k
  drive_loaded-Lasts RunState.suspended single c m k = k
  drive_loaded-Lasts RunState.running single c m k = run_on-Stays o P kept on_chat single (c, m) k
  drive_loaded-Lasts RunState.resuming single c m k = run_on-Stays o P kept on_chat single (c, m) k

  pub drive-Lasts :
      (single : Bool) (id : String) (m : Machine T) → Lasts m → Lasts (drive o single id m).0
  unfolding drive
  drive-Lasts single id m k = found (load id m.store)
    where
      found : (f : Option Continuation) → Lasts (drive_found o single id f m).0
      found none = unfold drive_found in k
      found (some c) = unfold drive_found in drive_loaded-Lasts c.status single c m k

  go_on-Lasts :
      (single : Bool) (es : List ToolCallRecord) (h : Held T)
      → Lasts h.1
      → Lasts (go_on o single es h).0
  unfolding go_on
  go_on-Lasts single es (c, m) k = run_on-Stays o P kept on_chat single (with_answers o c, m) k

  park_or_go-Lasts :
      (parked single : Bool) (es : List ToolCallRecord) (h : Held T)
      → Lasts h.1
      → Lasts (park_or_go o parked single es h).0
  unfolding park_or_go stay_parked
  park_or_go-Lasts true single es (c, m) k = k
  park_or_go-Lasts false single es h k = go_on-Lasts single es h k

  after_resolution-Lasts :
      (single : Bool) (rec : ToolCallRecord) (h : Held T)
      → Lasts h.1
      → Lasts (after_resolution o single rec h).0
  unfolding after_resolution
  after_resolution-Lasts single rec (c, m) k = park_or_go-Lasts _ single _ (c, m) k

  after_authorized-Lasts :
      (rec : ToolCallRecord) (r : Executed × Machine T)
      → Lasts r.1
      → Lasts (after_authorized o rec r).1
  unfolding after_authorized
  after_authorized-Lasts rec (value v, m) k = k
  after_authorized-Lasts rec (suspends s, m) k = k

  resolve_call-Lasts :
      (x : ResolutionOutcome) (c : Continuation) (rec : ToolCallRecord) (res : Resolution)
      (m : Machine T)
      → Lasts m
      → Lasts (resolve_call o x c rec res m).1
  unfolding resolve_call
  resolve_call-Lasts ResolutionOutcome.reject c rec res m k = k
  resolve_call-Lasts ResolutionOutcome.result c rec res m k = k
  resolve_call-Lasts ResolutionOutcome.accept c rec res m k =
      let rec' : ToolCallRecord = record rec { capability_token = res.capability_token } in
      after_authorized-Lasts rec' (dispatch_authorized o c rec' m)
        (dispatch_authorized-Holds o P kept c rec' m k)

  after_resolve-Lasts :
      (single : Bool) (id : String) (c : Continuation) (r : Option ToolCallRecord × Machine T)
      → Lasts r.1
      → Lasts (after_resolve o single id c r).0
  unfolding after_resolve
  after_resolve-Lasts single id c (none, m) k = k
  after_resolve-Lasts single id c (some rec, m) k = after_resolution-Lasts single rec _ k

  apply_resolution-Lasts :
      (before single : Bool) (rec : ToolCallRecord) (res : Resolution) (h : Held T)
      → Lasts h.1
      → Lasts (apply_resolution o before single rec res h).0
  unfolding apply_resolution
  apply_resolution-Lasts true single rec res h k = after_resolution-Lasts single rec h k
  apply_resolution-Lasts false single rec res (c, m) k =
      after_resolve-Lasts single res.tool_use_id c (resolve_call o res.outcome c rec res m)
        (resolve_call-Lasts res.outcome c rec res m k)

  resume_call-Lasts :
      (found : Option ToolCallRecord) (single : Bool) (res : Resolution) (h : Held T)
      → Lasts h.1
      → Lasts (resume_call o found single res h).0
  unfolding resume_call
  resume_call-Lasts none single res (c, m) k = k
  resume_call-Lasts (some rec) single res h k =
      apply_resolution-Lasts (is_executed rec) single rec res h k

  resume_loaded-Lasts :
      (s : RunState) (single : Bool) (res : Resolution) (c : Continuation) (m : Machine T)
      → Lasts m
      → Lasts (resume_loaded o s single res c m).0
  unfolding resume_loaded resume_suspended
  resume_loaded-Lasts RunState.suspended single res c m k =
      resume_call-Lasts (pending_by_id res.tool_use_id c) single res
        (keep_cont o (record c { status = RunState.resuming }, m)) k
  resume_loaded-Lasts RunState.running single res c m k = k
  resume_loaded-Lasts RunState.resuming single res c m k = k
  resume_loaded-Lasts RunState.done single res c m k = k
  resume_loaded-Lasts RunState.failed single res c m k = k

  pub resume-Lasts :
      (single : Bool) (res : Resolution) (m : Machine T) → Lasts m → Lasts (resume o single res m).0
  unfolding resume
  resume-Lasts single res m k = found (load res.continuation_id m.store)
    where
      found : (f : Option Continuation) → Lasts (resume_found o f single res m).0
      found none = unfold resume_found in k
      found (some c) = unfold resume_found in resume_loaded-Lasts c.status single res c m k

-- The call of a tool with an input was checked: a token that the call carries authorises this tool for
-- this process, or the permission check allows the tool with this input, and the budget granted its
-- reservation.
abbrev pub IsChecked : Event → Type 0
IsChecked asked = Unit
IsChecked (ran adm name input) =
    (adm.call.args.tool_input ≡ input)
    × ToolChecked adm.config adm.call.args adm.call.subject name adm.kernel
    × ((reserve adm.config.agents adm.config.today adm.config.ticket adm.call.subject
          (some (or_else adm.call.args.estimated_cost_usd 0)) adm.call.args.estimated_tokens
          adm.kernel.budgets).1
        ≡ some adm.config.ticket)

allowed-IsChecked : (e : Event) → IsAllowed e → IsChecked e
allowed-IsChecked asked k = tt
allowed-IsChecked (ran adm name input) (tool, same, verb, k) =
    let (checked, granted) = tool_call_allowed adm.config adm.call adm.kernel verb k in
    (
      same,
      subst (λ t. ToolChecked adm.config adm.call.args adm.call.subject t adm.kernel) tool checked,
      granted,
    )

pub All-IsChecked : (es : List Event) → All IsAllowed es → All IsChecked es
All-IsChecked [] k = tt
All-IsChecked (e ∷ es) k = (allowed-IsChecked e k.0, All-IsChecked es k.1)
