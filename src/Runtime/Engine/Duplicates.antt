-- ===== src/Runtime/Engine/Duplicates.antt =====
-- Resolutions that come more than once: of a call that was executed, and of one that was rejected.
use helios_os.Prelude.{String, Bool, true, false, ◌≡◌, refl, ◌∙◌, some, List, [], ◌∷◌, any, arith}
use helios_os.Kernel.Json.{Value}
use helios_os.Runtime.Continuation.{
  CallStatus, RunState, ResolutionOutcome, Resolution, ToolCallRecord, Continuation, load,
  pending_by_id, find_call, touch, save,
}
use helios_os.Runtime.Engine.Machine.{Outside, Machine, Held, keep_cont}
use helios_os.Runtime.Engine.Tools.{Executed, value, suspends}
use helios_os.Runtime.Engine.Dispatch.{dispatch_authorized}
use helios_os.Runtime.Engine.Ending.{is_pending, is_executed}
use helios_os.Runtime.Engine.Resume.{
  set_call, executed_record, approved_record, resolve_call, after_authorized, after_resolve, resume,
  resume_found, resume_loaded, resume_suspended, resume_call, apply_resolution, after_resolution,
  park_or_go, stay_parked,
}

-- A call that does not wait, changed to another that does not, leaves the waiting of the rest.
set_call-pending :
    (id : String) (old new : ToolCallRecord) (rs : List ToolCallRecord)
    → find_call id rs ≡ some old
    → is_pending old ≡ false
    → is_pending new ≡ false
    → any is_pending (set_call id new rs) ≡ any is_pending rs
unfolding find_call set_call any
set_call-pending id old new [] f h k = cc
set_call-pending id old new (r ∷ rs) f h k = ground (arith, set_call-pending id old new rs)

executed_lem : (rec : ToolCallRecord) → rec.status ≡ CallStatus.executed → is_executed rec ≡ true
unfolding is_executed
executed_lem rec e = ground arith

rejected_lem :
    (rec : ToolCallRecord)
    → rec.status ≡ CallStatus.rejected
    → (is_executed rec ≡ false) × (is_pending rec ≡ false)
unfolding is_executed is_pending
rejected_lem rec e = ground arith

module _ {T : Type 0} (o : Outside T) where
  -- A run that is suspended, and of which some call still waits, is held by the store.
  pub record IsParked (res : Resolution) (m : Machine T) (c : Continuation) (rec : ToolCallRecord)
      : Type 0 where
    pub loaded : load res.continuation_id m.store ≡ some c
    pub suspended : c.status ≡ RunState.suspended
    pub found : pending_by_id res.tool_use_id c ≡ some rec
    pub waits_on : any is_pending c.pending_calls ≡ true

  -- The run with its status written as the resumption begins.
  abbrev pub resuming : Continuation → Machine T → Held T
  resuming c m = keep_cont o (record c { status = RunState.resuming }, m)

  resume-begins :
      (single : Bool) (res : Resolution) (m : Machine T) (c : Continuation) (rec : ToolCallRecord)
      → IsParked res m c rec
      → resume o single res m ≡ apply_resolution o (is_executed rec) single rec res (resuming c m)
  unfolding resume resume_found resume_loaded resume_suspended resume_call touch save pending_by_id
  resume-begins single res m c rec p = rw (p.loaded, resume) (begins c.status p.suspended)
    where
      begins :
          (s : RunState)
          → s ≡ RunState.suspended
          → resume_loaded o s single res c m
            ≡ apply_resolution o (is_executed rec) single rec res (resuming c m)
      begins s e = rw e (rw p.found refl)

  -- Of the machine, only the store has changed.
  abbrev pub OnlyStore : Machine T → Machine T → Type 0
  OnlyStore after m =
      (after.trace ≡ m.trace)
      × (after.kernel ≡ m.kernel)
      × (after.table ≡ m.table)
      × (after.outside ≡ m.outside)

  parked-OnlyStore :
      (single : Bool) (rec : ToolCallRecord) (h : Held T)
      → any is_pending h.0.pending_calls ≡ true
      → OnlyStore (after_resolution o single rec h).0 h.1
  unfolding after_resolution park_or_go stay_parked
  parked-OnlyStore single rec (c, m) w = rw w (refl, refl, refl, refl)

  -- A resolution of a call that was executed before calls no tool while other calls wait: the kernel,
  -- the process table, the outside and the trace stay as they are.
  pub second_resolution_runs_nothing :
      (single : Bool) (res : Resolution) (m : Machine T) (c : Continuation) (rec : ToolCallRecord)
      → IsParked res m c rec
      → rec.status ≡ CallStatus.executed
      → OnlyStore (resume o single res m).0 m
  unfolding apply_resolution touch
  second_resolution_runs_nothing single res m c rec p e =
      rw (resume-begins single res m c rec p)
        (rw (executed_lem rec e) (parked-OnlyStore single rec (resuming c m) p.waits_on))

  -- The record of the call as the late approval finds it, with the token that came.
  abbrev pub with_token : Resolution → ToolCallRecord → ToolCallRecord
  with_token res rec = record rec { capability_token = res.capability_token }

  approved-not_pending :
      (v : Value) (rec : ToolCallRecord) → is_pending (approved_record o v rec) ≡ false
  unfolding is_pending approved_record executed_record
  approved-not_pending v rec = ground arith

  resolve-accept :
      (x : ResolutionOutcome) (c : Continuation) (rec : ToolCallRecord) (res : Resolution)
      (m : Machine T)
      → x ≡ ResolutionOutcome.accept
      → resolve_call o x c rec res m
        ≡ after_authorized o (with_token res rec) (dispatch_authorized o c (with_token res rec) m)
  unfolding resolve_call
  resolve-accept x c rec res m e = rw e refl

  after_authorized-value :
      (rec : ToolCallRecord) (v : Value) (r : Executed × Machine T)
      → r.0 ≡ value v
      → after_authorized o rec r ≡ (some (approved_record o v rec), r.1)
  unfolding after_authorized
  after_authorized-value rec v (value w, m) h = cc
  after_authorized-value rec v (suspends s, m) h = absurd (cc)

  -- A call that a human has rejected is dispatched all the same when an approval of it arrives while
  -- another call still waits: what the kernel, the outside and the trace then are is what that
  -- dispatch makes of them.
  pub rejected_call_is_dispatched :
      (single : Bool) (res : Resolution) (m : Machine T) (c : Continuation) (rec : ToolCallRecord)
      (v : Value)
      → IsParked res m c rec
      → rec.status ≡ CallStatus.rejected
      → res.outcome ≡ ResolutionOutcome.accept
      → (dispatch_authorized o (resuming c m).0 (with_token res rec) (resuming c m).1).0 ≡ value v
      → OnlyStore
          (resume o single res m).0
          (dispatch_authorized o (resuming c m).0 (with_token res rec) (resuming c m).1).1
  unfolding pending_by_id apply_resolution after_resolve touch
  rejected_call_is_dispatched single res m c rec v p e a d =
      let rec' = with_token res rec in
      let h = resuming c m in
      let waits : any is_pending
            (set_call res.tool_use_id (approved_record o v rec') c.pending_calls)
          ≡ true =
        set_call-pending res.tool_use_id rec (approved_record o v rec') c.pending_calls p.found
          (rejected_lem rec e).1 (approved-not_pending v rec')
        ∙ p.waits_on in
      rw (resume-begins single res m c rec p) (
        rw (rejected_lem rec e).0 (
          rw
            (resolve-accept res.outcome h.0 rec res h.1 a
              ∙ after_authorized-value rec' v (dispatch_authorized o h.0 rec' h.1) d)
            (parked-OnlyStore single (approved_record o v rec')
              (keep_cont o (
                record h.0 {
                  pending_calls =
                      set_call res.tool_use_id (approved_record o v rec') c.pending_calls;
                },
                (dispatch_authorized o h.0 rec' h.1).1,
              ))
              waits)))
