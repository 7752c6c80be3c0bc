-- ===== src/Kernel/Capability/Authority.antt =====
-- A token gives exactly the authority that it names, until it expires or is revoked.
use helios_os.Prelude.{
  ℕ, ◌+◌, ◌<◌, ◌≤◌, String, str_eq, eq_iff, true, false, ◌≡◌, ◌≢◌, ◌⊎◌, ◌↔◌, refl, Option, none,
  some, List, [], ◌∷◌, get, del, get-put, get-put_self, get-del, get-del_self, arith, inl, inr,
  Option-cases, Bool-cases, keep, All, values,
}
use helios_os.Kernel.Capability.{
  CapabilityToken, is_expired, authorizes, CapabilityStore, expiry_of, issue, revoke, authorize,
  purge_expired, list_for_subject,
}

-- The token names the action: its subject, its target or any, its verb or any.
pub record Covers (t : CapabilityToken) (subject target verb : String) : Type 0 where
  pub same_subject : t.subject ≡ subject
  pub same_target : (t.target ≡ target) ⊎ (t.target ≡ "*")
  pub same_verb : (t.verb ≡ "*") ⊎ (t.verb ≡ verb)

authorizes_iff :
    (now : ℕ) (subject target verb : String) (t : CapabilityToken)
    → (authorizes now subject target verb t ≡ true)
      ↔ (Covers t subject target verb × (is_expired now t ≡ false))
unfolding authorizes
authorizes_iff now subject target verb t = (
  λ h. ground (
    arith,
    eq_iff t.subject subject,
    eq_iff t.target target,
    eq_iff t.target "*",
    eq_iff t.verb verb,
    eq_iff t.verb "*",
  ),
  λ (c, e). ground (
    arith,
    eq_iff t.subject subject,
    eq_iff t.target target,
    eq_iff t.target "*",
    eq_iff t.verb verb,
    eq_iff t.verb "*",
  ),
)

is_expired_mono :
    (now later : ℕ) (t : CapabilityToken)
    → now ≤ later
    → is_expired later t ≡ false
    → is_expired now t ≡ false
unfolding is_expired
is_expired_mono now later t le h = ground arith

-- `authorize` says yes exactly when the store holds a token under that id which covers the subject,
-- the target and the verb and has not expired when the decision is made.
pub authorize_iff :
    (now later : ℕ) (token_id subject target verb : String) (store : CapabilityStore)
    → now ≤ later
    → ((authorize now later token_id subject target verb store).1 ≡ true) ↔ (
        (t : CapabilityToken) × (get token_id store ≡ some t)
        × Covers t subject target verb
        × (is_expired later t ≡ false))
unfolding authorize
authorize_iff now later token_id subject target verb store le = (
  λ h. elim (Option-cases (get token_id store)) [
    | inl e ↦ absurd (ground arith)
    | inr (t, e) ↦
        let (c, x) = (authorizes_iff later subject target verb t).0 (ground arith) in (t, e, c, x)
  ],
  λ (t, e, c, x). ground (
    arith,
    (authorizes_iff later subject target verb t).1 (c, x),
    is_expired_mono now later t le x,
  ),
)

-- The instants at which a token issued at `now` with `ttl` has not expired.
abbrev pub IsLive : ℕ → Option ℕ → ℕ → Type 0
IsLive now none later = Unit
IsLive now (some ttl) later = (ttl ≡ 0) ⊎ (later < now + ttl)

module _ (now : ℕ) (token_id subject target verb : String) (ttl : Option ℕ)
    (store : CapabilityStore) where
  abbrev issued : CapabilityStore × CapabilityToken
  issued = issue now token_id subject target verb ttl store

  get-issued : get token_id issued.0 ≡ some issued.1
  unfolding issue
  get-issued = get-put_self token_id _ store

  issued-IsLive : (later : ℕ) → (is_expired later issued.1 ≡ false) ↔ IsLive now ttl later
  unfolding issue expiry_of is_expired
  issued-IsLive later = (λ h. live ttl h, λ h. dead ttl h)
    where
      live :
          (o : Option ℕ)
          → is_expired later (issue now token_id subject target verb o store).1 ≡ false
          → IsLive now o later
      live none h = tt
      live (some n) h = ground arith

      dead :
          (o : Option ℕ)
          → IsLive now o later
          → is_expired later (issue now token_id subject target verb o store).1 ≡ false
      dead none h = refl
      dead (some n) h = ground arith

  -- A token that has just been issued authorises exactly its own subject, its target (any where that
  -- is `*`) and its verb (any where that is `*`), until its time to live has passed; without one, or
  -- with one of zero, it does so for ever.
  pub authorize-issue :
      (first later : ℕ) (s t v : String)
      → first ≤ later
      → ((authorize first later token_id s t v issued.0).1 ≡ true) ↔ (
          (subject ≡ s)
          × ((target ≡ t) ⊎ (target ≡ "*"))
          × ((verb ≡ "*") ⊎ (verb ≡ v))
          × IsLive now ttl later)
  authorize-issue first later s t v le = (
    λ h.
        let (token, found, covers, live) =
          (authorize_iff first later token_id s t v issued.0 le).0 h in
        let same : issued.1 ≡ token = cc (get-issued) in
        let c = rw (← same) at covers in
        let l = rw (← same) at live in
        unfold issue in (c.same_subject, c.same_target, c.same_verb, (issued-IsLive later).0 l),
    λ (a, b, c, l). (authorize_iff first later token_id s t v issued.0 le).1 (
      issued.1,
      get-issued,
      unfold issue in record { same_subject = a; same_target = b; same_verb = c },
      (issued-IsLive later).1 l,
    ),
  )

-- The calls that can change a store.
pub data Op : Type 0 where
  issue_op : ℕ → String → String → String → String → Option ℕ → Op
  revoke_op : String → Op
  authorize_op : ℕ → ℕ → String → String → String → String → Op
  list_op : ℕ → String → Op

unfoldable pub exec : Op → CapabilityStore → CapabilityStore
exec (issue_op now i s t v ttl) store = (issue now i s t v ttl store).0
exec (revoke_op i) store = (revoke i store).0
exec (authorize_op now later i s t v) store = (authorize now later i s t v store).0
exec (list_op now s) store = (list_for_subject now s store).0

unfoldable pub exec_all : List Op → CapabilityStore → CapabilityStore
exec_all [] store = store
exec_all (o ∷ os) store = exec_all os (exec o store)

-- The call mints no token under `id`.
abbrev pub Spares : String → Op → Type 0
Spares id (issue_op now i s t v ttl) = i ≢ id
Spares id _ = Unit

del_keeps_none :
    (k j : String) (store : CapabilityStore) → get j store ≡ none → get j (del k store) ≡ none
del_keeps_none k j store h = ground (arith, get-del k j store)

purge_keeps_none :
    (now : ℕ) (ts : List CapabilityToken) (id : String) (store : CapabilityStore)
    → get id store ≡ none
    → get id (purge_expired now ts store).0 ≡ none
unfolding purge_expired
purge_keeps_none now [] id store h = h
purge_keeps_none now (t ∷ ts) id store h = elim (Bool-cases (is_expired now t)) [
  | inl e ↦ rw e (purge_keeps_none now ts id (del t.id store) (del_keeps_none t.id id store h))
  | inr e ↦ rw e (purge_keeps_none now ts id store h)
]

exec_keeps_none :
    (o : Op) (id : String) (store : CapabilityStore)
    → Spares id o
    → get id store ≡ none
    → get id (exec o store) ≡ none
unfolding exec issue revoke authorize list_for_subject
exec_keeps_none (issue_op now i s t v ttl) id store ne h =
    ground (arith, get-put i id (issue now i s t v ttl store).1 store, eq_iff i id)
exec_keeps_none (revoke_op i) id store ne h = del_keeps_none i id store h
exec_keeps_none (authorize_op now later i s t v) id store ne h =
    ground (arith, del_keeps_none i id store h)
exec_keeps_none (list_op now s) id store ne h =
    purge_keeps_none now (keep (λ t. str_eq t.subject s) (values store)) id store h

exec_all_keeps_none :
    (os : List Op) (id : String) (store : CapabilityStore)
    → All (Spares id) os
    → get id store ≡ none
    → get id (exec_all os store) ≡ none
unfolding exec_all
exec_all_keeps_none [] id store ne h = h
exec_all_keeps_none (o ∷ os) id store ne h =
    exec_all_keeps_none os id (exec o store) ne.1 (exec_keeps_none o id store ne.0 h)

missing_refused :
    (now later : ℕ) (token_id s t v : String) (store : CapabilityStore)
    → get token_id store ≡ none
    → (authorize now later token_id s t v store).1 ≡ false
unfolding authorize
missing_refused now later token_id s t v store h = rw (h, authorize)

expired_dropped :
    (now later : ℕ) (token_id s t v : String) (store : CapabilityStore) (token : CapabilityToken)
    → get token_id store ≡ some token
    → is_expired now token ≡ true
    → get token_id (authorize now later token_id s t v store).0 ≡ none
unfolding authorize
expired_dropped now later token_id s t v store token h e =
    rw (h, authorize) (rw e (get-del_self token_id store))

-- Once a token is revoked it authorises nothing, at any time, after any further calls of which none
-- mints a token under the same id.
pub revoked_never_authorizes :
    (token_id : String) (store : CapabilityStore) (os : List Op) (now later : ℕ) (s t v : String)
    → All (Spares token_id) os
    → (authorize now later token_id s t v (exec_all os (revoke token_id store).0)).1 ≡ false
unfolding revoke
revoked_never_authorizes token_id store os now later s t v spares =
    missing_refused now later token_id s t v _
      (exec_all_keeps_none os token_id (del token_id store) spares (get-del_self token_id store))

-- A call of `authorize` that finds the token expired drops it, so that it stays refused even if the
-- clock were set back.
pub expired_is_dropped :
    (now later : ℕ) (token_id s t v : String) (store : CapabilityStore) (token : CapabilityToken)
    → get token_id store ≡ some token
    → is_expired now token ≡ true
    → (os : List Op) (first second : ℕ) (s' t' v' : String) → All (Spares token_id) os
    → (authorize first second token_id s' t' v'
        (exec_all os (authorize now later token_id s t v store).0)).1
      ≡ false
expired_is_dropped now later token_id s t v store token h e os first second s' t' v' spares =
    missing_refused first second token_id s' t' v' _ (
      exec_all_keeps_none os token_id _ spares
        (expired_dropped now later token_id s t v store token h e))
