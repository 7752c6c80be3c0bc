-- ===== src/Runtime/Service/Logged.antt =====
-- An outside that writes down the calls of tools that reach it: beside every tool, its name and its
-- input. It answers as the outside does that it stands for, which never sees the log.
use helios_os.Prelude.{String, ◌≡◌, ap, ◌∙◌, sym, Option, none, some, List, [], ◌∷◌, All}
use helios_os.Kernel.Json.{Value}
use helios_os.Kernel.Decision.{KernelDecision, Captured}
use helios_os.Runtime.Engine.Machine.{Question, Outside, Event, asked, ran}
use helios_os.Runtime.Engine.Kept.{IsAllowed, Seen, IsKept}

pub record Logged (T : Type 0) : Type 0 where
  pub state : T
  pub log : List (String × Value)

-- The gateway's request, where one is wired.
abbrev Request : Type 0 → Type 0
Request T = String → String → String → Captured → KernelDecision → T → Option String × T

abbrev logged_request : {T : Type 0} → Option (Request T) → Option (Request (Logged T))
logged_request none = none
logged_request (some ask) = some (λ id pid tenant captured d l.
    let (ref, t) = ask id pid tenant captured d l.state in (ref, record l { state = t }))

unfoldable pub logged : {T : Type 0} → Outside T → Outside (Logged T)
logged o = record {
  texts = o.texts;
  reason_text = o.reason_text;
  config = λ l. o.config l.state;
  after_syscall = λ l. record l { state = o.after_syscall l.state };
  clock = λ l. o.clock l.state;
  chat = λ q l. let (a, t) = o.chat q l.state in (a, record l { state = t });
  executor = o.executor;
  max_retries = o.max_retries;
  gate = λ name input l.
      let (refusal, t) = o.gate name input l.state in (refusal, record l { state = t });
  attempt = λ name input token l.
      let (a, t) = o.attempt name input token l.state in
      (a, record { state = t; log = (name, input) ∷ l.log });
  open_request = logged_request o.open_request;
  fresh_ref = λ l. let (ref, t) = o.fresh_ref l.state in (ref, record l { state = t });
  schedule = λ l. o.schedule l.state;
}

-- The calls of tools that a trace tells of.
unfoldable pub calls_in : List Event → List (String × Value)
calls_in [] = []
calls_in (asked ∷ es) = calls_in es
calls_in (ran adm name input ∷ es) = (name, input) ∷ calls_in es

-- The trace tells of just the calls that the outside was asked for, and all of them were allowed.
abbrev pub Tells : {T : Type 0} → Seen (Logged T) → Type 0
Tells s = (s.0.log ≡ calls_in s.1) × All IsAllowed s.1

module _ {T : Type 0} (o : Outside T) where
  request-log :
      (r : Option (Request T)) (ask : Request (Logged T))
      → logged_request r ≡ some ask
      → (id pid tenant : String) (captured : Captured) (d : KernelDecision) (l : Logged T)
      → (ask id pid tenant captured d l).1.log ≡ l.log
  request-log none ask e id pid tenant captured d l = cc
  request-log (some f) ask e id pid tenant captured d l =
      ap (λ (r : Option (Request (Logged T))). log_after r) (sym e)
    where
      log_after : Option (Request (Logged T)) → List (String × Value)
      log_after none = l.log
      log_after (some g) = (g id pid tenant captured d l).1.log

  pub Tells-IsKept : IsKept (logged o) Tells
  unfolding logged calls_in
  Tells-IsKept = record {
    on_syscall = λ l es k. k;
    on_gate = λ name input l es k. k;
    on_run = λ adm name input token l es a k.
        (ap (λ (cs : List (String × Value)). (name, input) ∷ cs) k.0, (a, k.1));
    on_request = λ ask e id pid tenant captured d l es k.
        (request-log o.open_request ask e id pid tenant captured d l ∙ k.0, k.1);
    on_ref = λ l es k. k;
  }

  pub chat-Tells :
      (q : Question) (l : Logged T) (es : List Event)
      → Tells (l, es)
      → Tells (((logged o).chat q l).1, asked ∷ es)
  unfolding logged calls_in
  chat-Tells q l es k = (k.0, (tt, k.1))
