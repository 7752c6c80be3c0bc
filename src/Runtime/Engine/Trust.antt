-- ===== src/Runtime/Engine/Trust.antt =====
-- What the dispatches of a turn, in whatever order they move, and that of an approved call do to the
-- outside and to the trace (src/runtime/engine.py).
use helios_os.Prelude.{
  ℕ, zero, suc, String, true, ◌≡◌, ◌⊎◌, refl, Option, none, some, List, [], ◌∷◌, map, All, arith,
  inl, inr, Option-cases,
}
use helios_os.Kernel.Decision.{
  KernelDecision, Action, allow, deny, mask, ask_human, rate_limit, allowed,
}
use helios_os.Kernel.Stages.Answers.{is_plain, syscall-plain}
use helios_os.Runtime.Continuation.{ToolCallRecord, Continuation}
use helios_os.Runtime.Response.{text_or_none}
use helios_os.Runtime.Engine.Machine.{Outside, Admission, ran, Machine}
use helios_os.Runtime.Engine.Tools.{Executed, value, suspends, execute_tool, release_ticket}
use helios_os.Runtime.Engine.Dispatch.{
  Progress, waiting, running, ended, tool_call, admission, decision_of, with_admission, captured_of,
  ask_gateway, reference_for, open_suspension, act_on, after_tool, begin, finish, move, move_at,
  run_schedule, end_all, gather, act_authorized, dispatch_authorized,
}
use helios_os.Runtime.Engine.Kept.{
  IsAllowed, Seen, commit_ticket-seen, release_ticket-seen, IsKept, Holds, execute_tool-Holds,
}

module _ {T : Type 0} (o : Outside T) (P : Seen T → Type 0) (kept : IsKept o P) where
  -- A dispatch that waits for its tool was allowed.
  abbrev pub IsReady : Progress → Type 0
  IsReady (running rec ticket adm) = IsAllowed (ran adm rec.name rec.arguments)
  IsReady _ = Unit

  -- What a move keeps.
  abbrev pub Keeps : Progress × Machine T → Type 0
  Keeps r = IsReady r.0 × Holds o P kept r.1

  ask_gateway-Holds :
      (c : Continuation) (rec : ToolCallRecord) (d : KernelDecision) (m : Machine T)
      → Holds o P kept m
      → Holds o P kept (ask_gateway o c rec d m).1
  unfolding ask_gateway
  ask_gateway-Holds c rec d m h = elim (Option-cases o.open_request) [
    | inl e ↦ rw (e, ask_gateway) h
    | inr (ask, e) ↦
        rw (e, ask_gateway)
          (kept.on_request ask e c.continuation_id c.pid c.tenant_id (captured_of o rec d) d
            m.outside m.trace h)
  ]

  reference_for-Holds :
      (c : Continuation) (rec : ToolCallRecord) (d : KernelDecision) (m : Machine T)
      → Holds o P kept m
      → Holds o P kept (reference_for o c rec d m).1
  unfolding reference_for
  reference_for-Holds c rec d m h =
      let m' = (ask_gateway o c rec d m).1 in
      let asked_it = ask_gateway-Holds c rec d m h in
      let fresh = kept.on_ref m'.outside m'.trace asked_it in
      elim (ask_gateway o c rec d m).0
        as (λ x.
          Holds o P kept
            (elim x as (λ _. String × Machine T) [
              | some ref ↦ (ref, m')
              | none ↦
                  ((o.fresh_ref m'.outside).0, record m' { outside = (o.fresh_ref m'.outside).1 })
            ]).1) [ some ref ↦ asked_it | none ↦ fresh ]

  open_suspension-Keeps :
      (c : Continuation) (rec : ToolCallRecord) (d : KernelDecision) (m : Machine T)
      → Holds o P kept m
      → Keeps (open_suspension o c rec d m)
  unfolding open_suspension
  open_suspension-Keeps c rec d m h = (tt, reference_for-Holds c rec d m h)

  act_on-Keeps :
      (x : Action) (c : Continuation) (rec : ToolCallRecord) (adm : Admission) (d : KernelDecision)
      (m : Machine T)
      → (x ≡ allow → IsAllowed (ran adm rec.name rec.arguments))
      → Holds o P kept m
      → Keeps (act_on o x c rec adm d m)
  unfolding act_on
  act_on-Keeps allow c rec adm d m a h = (a refl, h)
  act_on-Keeps deny c rec adm d m a h = (tt, h)
  act_on-Keeps mask c rec adm d m a h = (tt, h)
  act_on-Keeps ask_human c rec adm d m a h = open_suspension-Keeps c rec d m h
  act_on-Keeps rate_limit c rec adm d m a h = (tt, h)

  allow-allowed : (d : KernelDecision) → d.action ≡ allow → allowed d ≡ true
  unfolding allowed
  allow-allowed d e = rw e refl

  begin-Keeps :
      (c : Continuation) (rec : ToolCallRecord) (m : Machine T)
      → Holds o P kept m
      → Keeps (begin o c rec m)
  unfolding begin admission tool_call with_admission
  begin-Keeps c rec m h =
      let adm = admission o c rec.name rec.arguments rec.capability_token m in
      act_on-Keeps _ c rec adm _ _ (λ e. (refl, refl, refl, allow-allowed (decision_of o adm) e))
        (kept.on_syscall m.outside m.trace h)

  after_tool-Keeps :
      (rec : ToolCallRecord) (ticket : Option String) (r : Executed × Machine T)
      → Holds o P kept r.1
      → Keeps (after_tool o rec ticket r)
  unfolding after_tool
  after_tool-Keeps rec ticket (value v, m) h = (tt, rw (commit_ticket-seen ticket m) h)
  after_tool-Keeps rec ticket (suspends s, m) h = (
    tt,
    rw (commit_ticket-seen ticket (release_ticket ticket m)) (rw (release_ticket-seen ticket m) h),
  )

  finish-Keeps :
      (rec : ToolCallRecord) (ticket : Option String) (adm : Admission) (m : Machine T)
      → IsAllowed (ran adm rec.name rec.arguments)
      → Holds o P kept m
      → Keeps (finish o rec ticket adm m)
  unfolding finish
  finish-Keeps rec ticket adm m a h =
      after_tool-Keeps rec ticket _
        (execute_tool-Holds o P kept adm rec.name rec.arguments none m a h)

  move-Keeps :
      (c : Continuation) (p : Progress) (m : Machine T)
      → IsReady p
      → Holds o P kept m
      → Keeps (move o c p m)
  unfolding move
  move-Keeps c (waiting rec) m r h = begin-Keeps c rec m h
  move-Keeps c (running rec ticket adm) m r h = finish-Keeps rec ticket adm m r h
  move-Keeps c (ended rec e) m r h = (tt, h)

  -- What the moves of several dispatches keep.
  abbrev pub KeepAll : List Progress × Machine T → Type 0
  KeepAll r = All IsReady r.0 × Holds o P kept r.1

  move_at-KeepAll :
      (c : Continuation) (i : ℕ) (ps : List Progress) (m : Machine T)
      → All IsReady ps
      → Holds o P kept m
      → KeepAll (move_at o c i ps m)
  unfolding move_at
  move_at-KeepAll c zero [] m r h = (tt, h)
  move_at-KeepAll c (suc i) [] m r h = (tt, h)
  move_at-KeepAll c zero (p ∷ ps) m r h = let (r', h') = move-Keeps c p m r.0 h in ((r', r.1), h')
  move_at-KeepAll c (suc i) (p ∷ ps) m r h =
      let (r', h') = move_at-KeepAll c i ps m r.1 h in ((r.0, r'), h')

  run_schedule-KeepAll :
      (c : Continuation) (is : List ℕ) (ps : List Progress) (m : Machine T)
      → All IsReady ps
      → Holds o P kept m
      → KeepAll (run_schedule o c is ps m)
  unfolding run_schedule
  run_schedule-KeepAll c [] ps m r h = (r, h)
  run_schedule-KeepAll c (i ∷ is) ps m r h =
      let (r', h') = move_at-KeepAll c i ps m r h in run_schedule-KeepAll c is _ _ r' h'

  end_all-KeepAll :
      (c : Continuation) (ps : List Progress) (m : Machine T)
      → All IsReady ps
      → Holds o P kept m
      → KeepAll (end_all o c ps m)
  unfolding end_all
  end_all-KeepAll c [] m r h = (tt, h)
  end_all-KeepAll c (p ∷ ps) m r h =
      let (r1, h1) = move-Keeps c p m r.0 h in
      let (r2, h2) = move-Keeps c (move o c p m).0 (move o c p m).1 r1 h1 in
      let (rs, hs) = end_all-KeepAll c ps _ r.1 h2 in ((r2, rs), hs)

  waiting-IsReady : (records : List ToolCallRecord) → All IsReady (map waiting records)
  waiting-IsReady [] = tt
  waiting-IsReady (r ∷ rs) = (tt, waiting-IsReady rs)

  -- Under every schedule, the tools that a turn runs were allowed.
  pub gather-Holds :
      (c : Continuation) (records : List ToolCallRecord) (m : Machine T)
      → Holds o P kept m
      → Holds o P kept (gather o c records m).1
  unfolding gather
  gather-Holds c records m h =
      let (r, k) =
        run_schedule-KeepAll c (o.schedule m.outside) (map waiting records) m
          (waiting-IsReady records) h in
      (end_all-KeepAll c _ _ r k).1

  act_authorized-Holds :
      (x : Action) (rec : ToolCallRecord) (adm : Admission) (d : KernelDecision) (m : Machine T)
      → ((x ≡ allow) ⊎ (x ≡ mask) → IsAllowed (ran adm rec.name rec.arguments))
      → Holds o P kept m
      → Holds o P kept (act_authorized o x rec adm d m).1
  unfolding act_authorized
  act_authorized-Holds allow rec adm d m a h =
      rw
        (commit_ticket-seen d.ticket
          (execute_tool o adm rec.name rec.arguments (text_or_none rec.capability_token) m).1)
        (execute_tool-Holds o P kept adm rec.name rec.arguments (text_or_none rec.capability_token)
          m (a (inl refl)) h)
  act_authorized-Holds mask rec adm d m a h =
      rw
        (commit_ticket-seen d.ticket
          (execute_tool o adm rec.name rec.arguments (text_or_none rec.capability_token) m).1)
        (execute_tool-Holds o P kept adm rec.name rec.arguments (text_or_none rec.capability_token)
          m (a (inr refl)) h)
  act_authorized-Holds deny rec adm d m a h = h
  act_authorized-Holds ask_human rec adm d m a h = h
  act_authorized-Holds rate_limit rec adm d m a h = h

  plain-allowed :
      (d : KernelDecision)
      → is_plain d ≡ true
      → (d.action ≡ allow) ⊎ (d.action ≡ mask)
      → allowed d ≡ true
  unfolding is_plain allowed
  plain-allowed d h e = ground arith

  -- So was the tool of an approved call.
  pub dispatch_authorized-Holds :
      (c : Continuation) (rec : ToolCallRecord) (m : Machine T)
      → Holds o P kept m
      → Holds o P kept (dispatch_authorized o c rec m).1
  unfolding dispatch_authorized with_admission admission tool_call
  dispatch_authorized-Holds c rec m h =
      let adm = admission o c rec.name rec.arguments rec.capability_token m in
      let plain = syscall-plain adm.config adm.call adm.kernel refl in
      act_authorized-Holds _ rec adm _ _
        (λ e. (refl, refl, refl, plain-allowed (decision_of o adm) plain e))
        (kept.on_syscall m.outside m.trace h)
