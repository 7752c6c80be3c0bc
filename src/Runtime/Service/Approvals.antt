-- ===== src/Runtime/Service/Approvals.antt =====
-- What an approval is good for: the kernel lets the approved call through, and no other tool.
use Prim.Native.String.{◌++◌ as str_append}
use text.Mathlib.Text.{starts_with}
use text.Mathlib.TextPositions.{starts_with-append}
use text.Mathlib.TextLemmas.{append_cancel_left}
use helios_os.Prelude.{
  ℕ, ◌≤◌, String, eq_iff, true, false, ◌≡◌, ◌≢◌, ◌⊎◌, ◌↔◌, refl, sym, ap, ◌∙◌, Option, none, some,
  arith, inl, inr,
}
use helios_os.Kernel.Json.{Value}
use helios_os.Kernel.Capability.{issue, authorize}
use helios_os.Kernel.Capability.Authority.{IsLive, authorize-issue}
use helios_os.Kernel.Pipeline.{Syscall, pass}
use helios_os.Kernel.Stages.{Config, try_token, tool_stage, capability_stage}
use helios_os.Kernel.Stages
use helios_os.Runtime.Continuation.{Resolution, ToolCallRecord, Continuation}
use helios_os.Runtime.Response.{text_or_none}
use helios_os.Runtime.Worker.{World, enqueue_runnable, requeue}
use helios_os.Runtime.Engine.Dispatch.{tool_call}
use helios_os.Runtime.Service.{Rest, find, enqueue_resolution, mint, approve, approve_found}

-- Texts with the same first five characters.
tool_target-injective : (a b : String) → str_append "tool:" a ≡ str_append "tool:" b → a ≡ b
tool_target-injective a b h = append_cancel_left "tool:" a b h

tool_target-ne_star : (a : String) → str_append "tool:" a ≢ "*"
tool_target-ne_star a h =
    let e : true ≡ false =
      sym (starts_with-append "tool:" a) ∙ ap (λ (s : String). starts_with s "tool:") h in
    cc

-- The answer of the token check is that of `authorize`.
try_token-authorize :
    (cfg : Config) (call : Syscall) (token target verb : String) (w : Stages.World)
    → call.args.capability_token ≡ some token
    → token ≢ ""
    → (try_token cfg call target verb w).1
      ≡ (authorize cfg.now cfg.later token call.subject target verb w.tokens).1
unfolding try_token
try_token-authorize cfg call token target verb w e ne = ground (arith, eq_iff token "")

tool_stage-pass :
    (cfg : Config) (call : Syscall) (w : Stages.World)
    → call.verb ≡ "tool.call"
    → (try_token cfg call (str_append "tool:" call.object_name) "tool.call" w).1 ≡ true
    → (capability_stage cfg call w).0 ≡ pass
unfolding capability_stage tool_stage
tool_stage-pass cfg call w v h = ground (arith, eq_iff call.verb "tool.call")

token-kept : (token : String) → token ≢ "" → text_or_none (some token) ≡ some token
unfolding text_or_none
token-kept token ne = ground (arith, eq_iff token "")

module _ {T : Type 0} (now : ℕ) (token_id : String) (ttl : ℕ) (by : Option String) (ref : String)
    (w : World (Rest T)) (c : Continuation) (rec : ToolCallRecord)
    (found : find ref w.store ≡ some (c, rec)) where
  -- The kernel after the approval.
  abbrev pub approved_kernel : Stages.World
  approved_kernel = (approve now token_id ttl by ref w).0.rest.kernel

  enqueue-rest :
      (v : World (Rest T)) (id : String) (res : Option Resolution)
      → (enqueue_runnable now id (some "p0") none res v).rest ≡ v.rest
  unfolding enqueue_runnable requeue
  enqueue-rest v id res = ground arith

  found_tokens :
      (f : Option (Continuation × ToolCallRecord))
      → f ≡ some (c, rec)
      → (approve_found now token_id ttl by f w).0.rest.kernel.tokens
        ≡ (issue now token_id c.pid
            (str_append "tool:" rec.name)
            "tool.call"
            (some ttl)
            w.rest.kernel.tokens).0
  unfolding approve_found enqueue_resolution mint
  found_tokens f e =
      rw e (ap (λ (r : Rest T). r.kernel.tokens) (enqueue-rest (mint now token_id ttl c rec w) _ _))

  approved_tokens :
      approved_kernel.tokens
      ≡ (issue now token_id c.pid
          (str_append "tool:" rec.name)
          "tool.call"
          (some ttl)
          w.rest.kernel.tokens).0
  unfolding approve
  approved_tokens = found_tokens (find ref w.store) found

  -- Once a human has approved a parked call, the kernel's token check passes for a tool of that
  -- process, with whatever input, exactly when it is the approved tool, as long as the token has not
  -- expired; then the capability stage lets the call through without the permission checks.
  pub approval_opens_one_tool :
      (cfg : Config) (name : String) (input : Value)
      → token_id ≢ ""
      → cfg.now ≤ cfg.later
      → IsLive now (some ttl) cfg.later
      → let call = tool_call c name input (some token_id) in
        ((try_token cfg call (str_append "tool:" name) "tool.call" approved_kernel).1 ≡ true
          ↔ (rec.name ≡ name))
        × (rec.name ≡ name → (capability_stage cfg call approved_kernel).0 ≡ pass)
  unfolding tool_call
  approval_opens_one_tool cfg name input named le live =
      let call = tool_call c name input (some token_id) in
      let asks =
        try_token-authorize cfg call token_id (str_append "tool:" name) "tool.call" approved_kernel
          (token-kept token_id named) named
        ∙ ap
            (λ s.
              (authorize cfg.now cfg.later token_id c.pid (str_append "tool:" name) "tool.call"
                s).1)
            approved_tokens in
      let covers =
        authorize-issue now token_id c.pid (str_append "tool:" rec.name) "tool.call" (some ttl)
          w.rest.kernel.tokens cfg.now cfg.later c.pid (str_append "tool:" name) "tool.call" le in
      let opens : rec.name ≡ name
          → (try_token cfg call (str_append "tool:" name) "tool.call" approved_kernel).1 ≡ true =
        λ e. asks ∙ covers.1 (refl, inl (ap (str_append "tool:") e), inr refl, live) in
      (
        (λ h. only_target name (covers.0 (sym asks ∙ h)).1, opens),
        λ e. tool_stage-pass cfg call approved_kernel refl (opens e),
      )
    where
      only_target :
          (name : String)
          → (str_append "tool:" rec.name ≡ str_append "tool:" name)
            ⊎ (str_append "tool:" rec.name ≡ "*")
          → rec.name ≡ name
      only_target name (inl e) = tool_target-injective rec.name name e
      only_target name (inr e) = absurd (tool_target-ne_star rec.name e)
