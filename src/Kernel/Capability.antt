-- ===== src/Kernel/Capability.antt =====
-- Capability tokens: `CapabilityToken`, `InMemoryCapabilityStore` and `CapabilityManager`
-- (src/platform/kernel/_capabilities.py). The clock and the random ids are arguments; metadata is
-- left out.
pub mod Authority
use helios_os.Prelude.{
  ℕ, ◌+◌, String, str_eq, Bool, true, false, not, ◌&&◌, ◌||◌, Option, none, some, List, [], ◌∷◌,
  Dict, get, put, del, values, keep, leb, is_some, ◌==◌, if◌then◌else◌,
}

-- `expires_at`: absent, a text that is no instant, or an instant.
pub data Expiry : Type 0 where
  never unreadable : Expiry
  at : ℕ → Expiry

pub record CapabilityToken : Type 0 where
  pub id : String
  pub subject : String
  pub target : String
  pub verb : String
  pub issued_at : ℕ
  pub expires_at : Expiry

-- `is_expired`
unfoldable pub is_expired : ℕ → CapabilityToken → Bool
is_expired now t = elim t.expires_at [ at exp ↦ leb exp now | _ ↦ false ]

-- `authorizes`
unfoldable pub authorizes : ℕ → String → String → String → CapabilityToken → Bool
unfolding is_expired
authorizes now subject target verb t =
    if not (str_eq t.subject subject)
    then false
    else if not (str_eq t.target target) && not (str_eq t.target "*")
    then false
    else if not (str_eq t.verb "*") && not (str_eq t.verb verb)
    then false
    else not (is_expired now t)

abbrev pub CapabilityStore : Type 0
CapabilityStore = Dict CapabilityToken

-- `datetime + timedelta(seconds=ttl)` where a positive `ttl_seconds` is given. A negative one is
-- treated as zero is.
unfoldable pub expiry_of : ℕ → Option ℕ → Expiry
expiry_of now none = never
expiry_of now (some ttl) = if ttl == 0 then never else at (now + ttl)

-- `issue`, which mints `token_id`.
unfoldable pub issue :
    ℕ
    → String
    → String
    → String
    → String
    → Option ℕ
    → CapabilityStore
    → CapabilityStore × CapabilityToken
unfolding expiry_of
issue now token_id subject target verb ttl store =
    let token : CapabilityToken = record {
      id = token_id;
      subject = subject;
      target = target;
      verb = verb;
      issued_at = now;
      expires_at = expiry_of now ttl;
    } in
    (put token_id token store, token)

unfoldable pub revoke : String → CapabilityStore → CapabilityStore × Bool
revoke token_id store = (del token_id store, is_some (get token_id store))

-- `authorize`, which reads the clock at `now` to purge, and at `later` to decide.
unfoldable pub authorize :
    ℕ → ℕ → String → String → String → String → CapabilityStore → CapabilityStore × Bool
authorize now later token_id subject target verb store = elim (get token_id store) [
  | none ↦ (store, false)
  | some t ↦
      if is_expired now t
      then (del token_id store, false)
      else (store, authorizes later subject target verb t)
]

-- The loop of `CapabilityManager.list_for_subject`, over the tokens that the store lists.
unfoldable pub purge_expired :
    ℕ → List CapabilityToken → CapabilityStore → CapabilityStore × List CapabilityToken
purge_expired now [] store = (store, [])
purge_expired now (t ∷ ts) store =
    let (s, out) = purge_expired now ts (if is_expired now t then del t.id store else store) in
    (s, if is_expired now t then out else t ∷ out)

unfoldable pub list_for_subject :
    ℕ → String → CapabilityStore → CapabilityStore × List CapabilityToken
unfolding purge_expired
list_for_subject now subject store =
    purge_expired now (keep (λ t. str_eq t.subject subject) (values store)) store
