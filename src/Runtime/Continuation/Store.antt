-- ===== src/Runtime/Continuation/Store.antt =====
-- The look-ups of the continuation store.
use helios_os.Prelude.{
  ℕ, ◌≤◌, String, str_eq, eq_iff, Bool, true, false, ◌≡◌, ◌⊎◌, refl, Option, none, some, List, [],
  ◌∷◌, ◌&&◌, values, keep, All, arith, Option-cases, Bool-cases, inl, inr,
}
use helios_os.Runtime.Continuation.{
  RunState, Continuation, ContinuationStore, latest, in_state, load_for_pid,
}

-- The continuation is one of the list.
abbrev pub IsIn : Continuation → List Continuation → Type 0
IsIn c [] = ⊥
IsIn c (d ∷ cs) = (d ≡ c) ⊎ IsIn c cs

-- What `latest` answers of a list with a first element and a rest.
latest_cons :
    (d c : Continuation) (cs : List Continuation)
    → latest (d ∷ cs) ≡ some c
    → ((d ≡ c)
        × ((latest cs ≡ none)
            ⊎ ((x : Continuation) × (latest cs ≡ some x) × (x.updated_at ≤ c.updated_at))))
      ⊎ ((latest cs ≡ some c) × (d.updated_at ≤ c.updated_at))
unfolding latest
latest_cons d c cs h = elim (Option-cases (latest cs)) [
  | inl e ↦ ground (arith, e)
  | inr (x, e) ↦ ground (arith, e)
]

latest-none : (cs : List Continuation) → latest cs ≡ none → cs ≡ []
unfolding latest
latest-none [] h = refl
latest-none (d ∷ cs) h = absurd (ground arith)

latest-IsIn : (cs : List Continuation) (c : Continuation) → latest cs ≡ some c → IsIn c cs
unfolding latest
latest-IsIn [] c h = cc
latest-IsIn (d ∷ cs) c h = elim (latest_cons d c cs h) [
  | inl (e, _) ↦ inl e
  | inr (e, _) ↦ inr (latest-IsIn cs c e)
]

All-weaken :
    (cs : List Continuation) (m n : ℕ)
    → m ≤ n
    → All (λ d. d.updated_at ≤ m) cs
    → All (λ d. d.updated_at ≤ n) cs
All-weaken [] m n l h = tt
All-weaken (d ∷ cs) m n l (h, hs) = (omega arith, All-weaken cs m n l hs)

-- Every one of the list was updated no later than the latest.
latest-bound :
    (cs : List Continuation) (c : Continuation)
    → latest cs ≡ some c
    → All (λ d. d.updated_at ≤ c.updated_at) cs
latest-bound [] c h = tt
latest-bound (d ∷ cs) c h = elim (latest_cons d c cs h) [
  | inl (e, inl n) ↦ rw (latest-none cs n) (rw e (omega arith), tt)
  | inl (e, inr (x, f, l)) ↦
      (rw e (omega arith), All-weaken cs x.updated_at c.updated_at l (latest-bound cs x f))
  | inr (f, l) ↦ (l, latest-bound cs c f)
]

IsIn-keep :
    (p : Continuation → Bool) (cs : List Continuation) (c : Continuation)
    → IsIn c (keep p cs)
    → IsIn c cs × (p c ≡ true)
unfolding keep
IsIn-keep p [] c h = absurd h
IsIn-keep p (d ∷ cs) c h = elim (Bool-cases (p d)) [
  | inl e ↦ elim (rw (e, keep) at h) as (λ _. IsIn c (d ∷ cs) × (p c ≡ true)) [
    | inl f ↦ (inl f, rw f at e)
    | inr g ↦ let (a, b) = IsIn-keep p cs c g in (inr a, b)
  ]
  | inr e ↦ let (a, b) = IsIn-keep p cs c (rw (e, keep) at h) in (inr a, b)
]

keep-bound :
    (p : Continuation → Bool) (cs : List Continuation) (n : ℕ)
    → All (λ d. d.updated_at ≤ n) (keep p cs)
    → All (λ d. (p d ≡ false) ⊎ (d.updated_at ≤ n)) cs
unfolding keep
keep-bound p [] n h = tt
keep-bound p (d ∷ cs) n h = elim (Bool-cases (p d)) [
  | inl e ↦ let (a, b) = rw (e, keep) at h in (inr a, keep-bound p cs n b)
  | inr e ↦ (inl e, keep-bound p cs n (rw (e, keep) at h))
]

-- The continuation that `load_for_pid` finds is one of the store, of that process and in that
-- state, and of all of these it is the one that was updated last.
load_for_pid_latest :
    (pid : String) (status : Option RunState) (s : ContinuationStore) (c : Continuation)
    → load_for_pid pid status s ≡ some c
    → IsIn c (values s.by_id)
      × (c.pid ≡ pid)
      × (in_state status c ≡ true)
      × All
          (λ d. ((str_eq d.pid pid && in_state status d) ≡ false) ⊎ (d.updated_at ≤ c.updated_at))
          (values s.by_id)
unfolding load_for_pid
load_for_pid_latest pid status s c h =
    let wanted = λ (d : Continuation). str_eq d.pid pid && in_state status d in
    let (stored, ok) =
      IsIn-keep wanted (values s.by_id) c (latest-IsIn (keep wanted (values s.by_id)) c h) in
    (
      stored,
      ground (arith, ok, eq_iff c.pid pid),
      ground (arith, ok),
      keep-bound wanted (values s.by_id) c.updated_at
          (latest-bound (keep wanted (values s.by_id)) c h),
    )
