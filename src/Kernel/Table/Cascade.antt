-- ===== src/Kernel/Table/Cascade.antt =====
-- What `ProcessTable.transition` does to the process, to its children and to the rest.
use helios_os.Prelude.{
  ℕ, String, str_eq, eq_iff, Bool, true, false, ◌&&◌, ◌≡◌, ◌≢◌, refl, ap, ◌∙◌, Option, none, some,
  [], ◌∷◌, ◌++◌, Dict, get, get-put, arith, if◌then◌else◌,
}
use helios_os.Kernel.Phase.{Phase, draining, phase_eq, can_transition, is_terminal, is_mirrored}
use helios_os.Kernel.Process
use helios_os.Kernel.Process.{AgentProcess}
use helios_os.Kernel.Table.{
  Registry, ProcessTable, mirror_child, has_parent, cascade_signal, drain_child, visit_child,
  cascade_to_children, move, cascade_from, transition,
}

abbrev pub map_option {ℓ κ} : {A : Type ℓ} {B : Type κ} → (A → B) → Option A → Option B
map_option f none = none
map_option f (some a) = some (f a)

module _ (pid : String) (phase : Phase) (reason : String) (now : ℕ) where
  get-cascade :
      (j : String) (d : Dict AgentProcess) (r : Option Registry)
      → get j (cascade_to_children pid phase reason now d r).0
        ≡ map_option (visit_child pid phase reason now) (get j d)
  unfolding cascade_to_children get
  get-cascade j [] r = refl
  get-cascade j ((k, c) ∷ d) r =
      ground (arith, get-cascade j d (mirror_child pid c (visit_child pid phase reason now c) r))

  mirror_child_lem :
      (c : AgentProcess) (r : Option Registry)
      → mirror_child pid c (visit_child pid phase reason now c) r ≡ r
  unfolding mirror_child visit_child drain_child is_terminal
  mirror_child_lem c none = ground arith
  mirror_child_lem c (some r) = ground arith

  cascade-registry :
      (d : Dict AgentProcess) (r : Option Registry)
      → (cascade_to_children pid phase reason now d r).1 ≡ r
  unfolding cascade_to_children
  cascade-registry [] r = refl
  cascade-registry ((k, c) ∷ d) r = rw (mirror_child_lem c r) (cascade-registry d r)

drain_child_lem :
    (phase : Phase) (reason : String) (now : ℕ) (c : AgentProcess)
    → ((drain_child phase reason now c).phase ≡ draining)
      × ((drain_child phase reason now c).pending_signals
          ≡ c.pending_signals ++ cascade_signal phase ∷ [])
      × ((drain_child phase reason now c).identity ≡ c.identity)
unfolding drain_child
drain_child_lem phase reason now c = ground arith

-- What a transition does to a process other than the one that it names.
unfoldable pub bystander : String → Phase → String → Bool → ℕ → AgentProcess → AgentProcess
bystander pid phase reason cascade now c =
    if cascade && is_mirrored phase then visit_child pid phase reason now c else c

module _ (pid : String) (phase : Phase) (reason : String) (force cascade : Bool) (now : ℕ) where
  get-cascade_from :
      (t : ProcessTable) (j : String)
      → get j (cascade_from pid phase reason cascade now t).processes
        ≡ map_option (bystander pid phase reason cascade now) (get j t.processes)
  unfolding cascade_from bystander
  get-cascade_from t j = ground (arith, get-cascade pid phase reason now j t.processes t.registry)

  -- After a transition of a process `p` that is in the table, each pid holds what it held, `p` after
  -- its own transition at `pid`, with the cascade then applied where there is one.
  pub get-transition :
      (t : ProcessTable) (j : String) (p : AgentProcess)
      → get pid t.processes ≡ some p
      → get j (transition pid phase reason force cascade now t).0.processes
        ≡ map_option (bystander pid phase reason cascade now) (
            if str_eq pid j
            then some (Process.transition p phase reason force now).0
            else get j t.processes)
  unfolding transition move
  get-transition t j p h =
      rw (h, transition)
        (get-cascade_from (move pid p phase reason force now t) j
          ∙ ap (map_option (bystander pid phase reason cascade now)) (get-put pid j _ t.processes))

  -- A transition of a pid that is not in the table changes nothing and returns nothing.
  pub transition_missing :
      (t : ProcessTable)
      → get pid t.processes ≡ none
      → transition pid phase reason force cascade now t ≡ (t, none)
  unfolding transition
  transition_missing t h = ground arith

  -- A transition into STOPPED, FAILED, QUARANTINED or EVICTED with `cascade` leaves each child that
  -- was not stopped in DRAINING, with one more pending signal, whether the child could legally
  -- drain or not, and whether the parent's own transition was legal or not.
  transition_drains_child :
      (t : ProcessTable) (j : String) (p c : AgentProcess)
      → get pid t.processes ≡ some p
      → get j t.processes ≡ some c
      → pid ≢ j
      → cascade ≡ true
      → is_mirrored phase ≡ true
      → has_parent pid c ≡ true
      → is_terminal c.phase ≡ false
      → (c' : AgentProcess) × (get j (transition pid phase reason force cascade now t).0.processes
          ≡ some c')
        × (c'.phase ≡ draining)
        × (c'.pending_signals ≡ c.pending_signals ++ cascade_signal phase ∷ [])
        × (c'.identity ≡ c.identity)
  unfolding bystander visit_child
  transition_drains_child t j p c hp hc ne hcas hm hpar hterm = (
    drain_child phase reason now c,
    ground (arith, get-transition t j p hp, eq_iff pid j),
    (drain_child_lem phase reason now c).0,
    (drain_child_lem phase reason now c).1,
    (drain_child_lem phase reason now c).2,
  )

  -- A process other than `pid` that is not a child of it keeps its record.
  pub transition_keeps_others :
      (t : ProcessTable) (j : String) (p c : AgentProcess)
      → get pid t.processes ≡ some p
      → get j t.processes ≡ some c
      → pid ≢ j
      → has_parent pid c ≡ false
      → get j (transition pid phase reason force cascade now t).0.processes ≡ some c
  unfolding bystander visit_child
  transition_keeps_others t j p c hp hc ne hpar =
      ground (arith, get-transition t j p hp, eq_iff pid j)

-- A transition that the phase machine refuses leaves the process exactly as it was, and still
-- drains its children: asked to cascade into STOPPED, FAILED, QUARANTINED or EVICTED, it forces
-- each child that was not stopped into DRAINING.
pub refused_transition_drains_child :
    (pid : String) (phase : Phase) (reason : String) (now : ℕ) (t : ProcessTable) (j : String)
    (p c : AgentProcess)
    → get pid t.processes ≡ some p
    → get j t.processes ≡ some c
    → pid ≢ j
    → phase_eq phase p.phase ≡ false
    → can_transition p.phase phase ≡ false
    → is_mirrored phase ≡ true
    → has_parent pid p ≡ false
    → has_parent pid c ≡ true
    → is_terminal c.phase ≡ false
    → (get pid (transition pid phase reason false true now t).0.processes ≡ some p)
      × (c' : AgentProcess) × (get j (transition pid phase reason false true now t).0.processes
          ≡ some c')
      × (c'.phase ≡ draining)
unfolding bystander visit_child Process.transition
refused_transition_drains_child pid phase reason now t j p c hp hc ne same illegal hm hpp hpar
      hterm =
    let drained =
      transition_drains_child pid phase reason false true now t j p c hp hc ne refl hm hpar hterm in
    (
      ground (arith, get-transition pid phase reason false true now t pid p hp, eq_iff pid pid),
      drained.0,
      drained.1,
      drained.2,
    )
