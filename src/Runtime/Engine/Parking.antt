-- ===== src/Runtime/Engine/Parking.antt =====
-- A parked run is found again, and a resolution that comes twice does no harm.
use helios_os.Prelude.{
  ℕ, String, eq_iff, ◌≡◌, ◌≢◌, refl, sym, Option, none, some, List, [], ◌∷◌, All, arith, get,
  get-put, get-put_self, Option-cases, inl, inr,
}
use mathlib.Core.Path.{subst}
use helios_os.Runtime.Continuation.{
  RunState, ToolCallRecord, Continuation, ContinuationStore, touch, save, find_by_external_ref,
  index_ref,
}
use helios_os.Runtime.Response.{text_or_none}
use helios_os.Runtime.Engine.Machine.{Outside, Machine, Held, Kind, keep_cont, transition}
use helios_os.Runtime.Engine.Ending.{first_reason, index_refs, suspend}

-- Every reference that a list of calls carries, where it is not empty.
abbrev pub RefersTo : String → ToolCallRecord → Type 0
RefersTo ref r = text_or_none r.external_ref ≡ some ref

index_refs-by_id :
    (rs : List ToolCallRecord) (id : String) (s : ContinuationStore)
    → (index_refs rs id s).by_id ≡ s.by_id
unfolding index_refs index_ref
index_refs-by_id [] id s = refl
index_refs-by_id (r ∷ rs) id s = elim (Option-cases (text_or_none r.external_ref)) [
  | inl e ↦ rw (e, index_refs) (index_refs-by_id rs id s)
  | inr (ref, e) ↦ rw (e, index_refs) (index_refs-by_id rs id (index_ref ref id s))
]

-- An alias of the run is kept while more are added.
index_refs-keeps :
    (rs : List ToolCallRecord) (id ref : String) (s : ContinuationStore)
    → get ref s.ref_to_id ≡ some id
    → get ref (index_refs rs id s).ref_to_id ≡ some id
unfolding index_refs index_ref
index_refs-keeps [] id ref s h = h
index_refs-keeps (r ∷ rs) id ref s h = elim (Option-cases (text_or_none r.external_ref)) [
  | inl e ↦ rw (e, index_refs) (index_refs-keeps rs id ref s h)
  | inr (j, e) ↦
      rw (e, index_refs)
        (index_refs-keeps rs id ref (index_ref j id s)
          (ground (arith, get-put j ref id s.ref_to_id)))
]

-- Each reference of the calls is an alias of the run.
abbrev pub Finds : String → ContinuationStore → List ToolCallRecord → Type 0
Finds id s rs = All (λ r. (ref : String) → RefersTo ref r → get ref s.ref_to_id ≡ some id) rs

-- The store after the first call's alias.
abbrev with_alias : Option String → String → ContinuationStore → ContinuationStore
with_alias none id s = s
with_alias (some ref) id s = index_ref ref id s

index_refs_step :
    (r : ToolCallRecord) (rs : List ToolCallRecord) (id : String) (s : ContinuationStore)
    → index_refs (r ∷ rs) id s ≡ index_refs rs id (with_alias (text_or_none r.external_ref) id s)
unfolding index_refs
index_refs_step r rs id s = ground arith

index_refs-Finds :
    (rs : List ToolCallRecord) (id : String) (s : ContinuationStore)
    → Finds id (index_refs rs id s) rs
index_refs-Finds [] id s = tt
index_refs-Finds (r ∷ rs) id s =
    subst (λ t. Finds id t (r ∷ rs)) (sym (index_refs_step r rs id s))
      (
        λ ref h.
            index_refs-keeps rs id ref (with_alias (text_or_none r.external_ref) id s)
              (unfold index_ref in (rw h (get-put_self ref id s.ref_to_id))),
        index_refs-Finds rs id (with_alias (text_or_none r.external_ref) id s),
      )

alias-found :
    (id : String) (s : ContinuationStore) (c : Continuation) (ref : String)
    → id ≢ ""
    → get id s.by_id ≡ some c
    → get ref s.ref_to_id ≡ some id
    → find_by_external_ref ref s ≡ some c
unfolding find_by_external_ref
alias-found id s c ref named held h = rw (h, find_by_external_ref) (ground (arith, eq_iff id ""))

-- An alias of a run that the store holds finds it.
All-found :
    (id : String) (s : ContinuationStore) (c : Continuation)
    → id ≢ ""
    → get id s.by_id ≡ some c
    → (rs : List ToolCallRecord) → Finds id s rs
    → All (λ r. (ref : String) → RefersTo ref r → find_by_external_ref ref s ≡ some c) rs
All-found id s c named held [] f = tt
All-found id s c named held (r ∷ rs) f =
    (λ ref h. alias-found id s c ref named held (f.0 ref h), All-found id s c named held rs f.1)

module _ {T : Type 0} (o : Outside T) where
  transition-store :
      (c : Continuation) (k : Kind) (m : Machine T) → (transition o c k m).store ≡ m.store
  unfolding transition
  transition-store c k m = ground arith

  -- The continuation and the store when a run has parked.
  abbrev pub parked_cont : List ToolCallRecord → ℕ → Held T → Continuation
  parked_cont rs n h = (suspend o rs n h).0.0

  abbrev pub parked_store : List ToolCallRecord → ℕ → Held T → ContinuationStore
  parked_store rs n h = (suspend o rs n h).0.1.store

  suspend-store :
      (rs : List ToolCallRecord) (n : ℕ) (c : Continuation) (m : Machine T)
      → Finds c.continuation_id (parked_store rs n (c, m)) rs
        × (get c.continuation_id (parked_store rs n (c, m)).by_id ≡ some (parked_cont rs n (c, m)))
  unfolding suspend keep_cont save
  suspend-store rs n c m =
      let now = o.clock m.outside in
      let kept : Continuation = record c {
        pending_calls = rs;
        status = RunState.suspended;
        suspend_reason = first_reason rs;
      } in
      let saved = save now kept m.store in
      (
        rw (transition-store _ _ _) (index_refs-Finds rs c.continuation_id saved),
        rw (transition-store _ _ _) (
            rw (index_refs-by_id rs c.continuation_id saved)
              (get-put_self c.continuation_id (touch now kept) m.store.by_id)),
      )

  -- When a run parks, every reference that one of its calls carries leads the resume path back to it,
  -- in the state in which it parked; the run's id is not the empty text.
  pub parked_run_found :
      (rs : List ToolCallRecord) (n : ℕ) (c : Continuation) (m : Machine T)
      → c.continuation_id ≢ ""
      → All
          (λ r.
            (ref : String)
            → RefersTo ref r
            → find_by_external_ref ref (parked_store rs n (c, m)) ≡ some (parked_cont rs n (c, m)))
          rs
  parked_run_found rs n c m named =
      let (finds, held) = suspend-store rs n c m in
      All-found c.continuation_id _ _ named held rs finds
