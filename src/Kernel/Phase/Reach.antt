-- ===== src/Kernel/Phase/Reach.antt =====
-- Runs of the phase machine: what a process goes through when nothing is forced.
use helios_os.Prelude.{
  ℕ, String, Bool, true, false, ◌≡◌, refl, ap, inl, inr, List, [], ◌∷◌, ◌++◌, arith, Bool-cases,
  if◌then◌else◌,
}
use helios_os.Kernel.Phase.{
  Phase, pending, admitted, starting, running, awaiting_human, awaiting_external, draining, stopped,
  evicted, phase_eq, is_mirrored, status_value_from_phase, phase_from_status_value,
}
use helios_os.Kernel.Process.{AgentProcess, transition}

-- One call of `transition` without `force`.
pub record Request : Type 0 where
  pub target : Phase
  pub reason : String
  pub now : ℕ

unfoldable pub request : AgentProcess → Request → AgentProcess
unfolding transition
request p r = (transition p r.target r.reason false r.now).0

unfoldable pub requests : AgentProcess → List Request → AgentProcess
unfolding request
requests p [] = p
requests p (r ∷ rs) = requests (request p r) rs

request_stopped : (p : AgentProcess) (r : Request) → p.phase ≡ stopped → request p r ≡ p
unfolding request
request_stopped p r h = ground arith

-- A stopped process is left exactly as it is by every sequence of requests that are not forced.
pub stopped_absorbs : (p : AgentProcess) (rs : List Request) → p.phase ≡ stopped → requests p rs ≡ p
unfolding requests
stopped_absorbs p [] h = refl
stopped_absorbs p (r ∷ rs) h = rw (request_stopped p r h) (stopped_absorbs p rs h)

-- The phases that only an admitted and started process may be in.
unfoldable pub is_live : Phase → Bool
is_live running = true
is_live awaiting_human = true
is_live awaiting_external = true
is_live draining = true
is_live _ = false

request_live :
    (p : AgentProcess) (r : Request)
    → is_live p.phase ≡ false
    → is_live (request p r).phase ≡ true
    → p.phase ≡ starting
unfolding request is_live
request_live p r h k = ground arith

-- A prefix of the requests after which the process is in `phase`.
abbrev pub Passes : AgentProcess → List Request → Phase → Type 0
Passes p rs phase =
    (before : List Request) × (after : List Request) × (rs ≡ before ++ after)
    × ((requests p before).phase ≡ phase)

Passes-cons :
    (p : AgentProcess) (r : Request) (rs : List Request) (phase : Phase)
    → Passes (request p r) rs phase
    → Passes p (r ∷ rs) phase
unfolding requests
Passes-cons p r rs phase (before, after, e, h) = (r ∷ before, after, ap (λ l. r ∷ l) e, h)

-- A process that is not live and ends running, waiting or draining, by requests none of which is
-- forced, was in STARTING after some prefix of them.
live-Passes_starting :
    (p : AgentProcess) (rs : List Request)
    → is_live p.phase ≡ false
    → is_live (requests p rs).phase ≡ true
    → Passes p rs starting
unfolding requests
live-Passes_starting p [] h k = absurd (ground arith)
live-Passes_starting p (r ∷ rs) h k = elim (Bool-cases (is_live (request p r).phase)) [
  | inl live ↦ ([], r ∷ rs, refl, request_live p r h live)
  | inr dead ↦ Passes-cons p r rs starting (live-Passes_starting (request p r) rs dead k)
]

request_starting :
    (p : AgentProcess) (r : Request)
    → phase_eq p.phase starting ≡ false
    → phase_eq (request p r).phase starting ≡ true
    → p.phase ≡ admitted
unfolding request
request_starting p r h k = ground arith

-- A process outside STARTING that comes to be there, by requests none of which is forced, was in
-- ADMITTED after some prefix of them.
pub starting-Passes_admitted :
    (p : AgentProcess) (rs : List Request)
    → phase_eq p.phase starting ≡ false
    → phase_eq (requests p rs).phase starting ≡ true
    → Passes p rs admitted
unfolding requests
starting-Passes_admitted p [] h k = absurd (ground arith)
starting-Passes_admitted p (r ∷ rs) h k =
    elim (Bool-cases (phase_eq (request p r).phase starting)) [
      | inl there ↦ ([], r ∷ rs, refl, request_starting p r h there)
      | inr not_yet ↦
          Passes-cons p r rs admitted (starting-Passes_admitted (request p r) rs not_yet k)
    ]

abbrev plain : Phase → Request
plain target = record { target = target; reason = ""; now = 0 }

-- The requests that stop a process cleanly.
unfoldable pub stop_plan : Phase → List Request
stop_plan pending = plain admitted ∷ plain stopped ∷ []
stop_plan stopped = []
stop_plan _ = plain stopped ∷ []

-- From every phase the process can be stopped with no forced transition.
pub stop_reachable : (p : AgentProcess) → (requests p (stop_plan p.phase)).phase ≡ stopped
unfolding requests stop_plan
stop_reachable p = ground arith

-- The older status tells a mirrored phase apart, but for EVICTED, which reads as STOPPED.
pub phase_from_status_value-status_value_from_phase :
    (p : Phase)
    → is_mirrored p ≡ true
    → phase_from_status_value (status_value_from_phase p)
      ≡ (if phase_eq p evicted then stopped else p)
unfolding phase_from_status_value status_value_from_phase is_mirrored phase_eq
phase_from_status_value-status_value_from_phase p h = ground arith
