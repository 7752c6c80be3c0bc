-- ===== src/Runtime/Continuation/Refinement.antt =====
-- The continuation store against what it promises: two maps, from an id to a run and from a reference
-- to an id.
use helios_os.Prelude.{
  ℕ, String, str_eq, eq_iff, ◌≡◌, refl, ap, ◌∙◌, Option, none, some, List, [], ◌∷◌, Dict, get, put,
  get-put, get-del, arith, Bool-cases, inl, inr, if◌then◌else◌,
}
use helios_os.Runtime.Continuation.{
  Continuation, ContinuationStore, touch, save, load, index_ref, delete, drop_refs,
  find_by_external_ref,
}

-- What the store promises, with no order and no representation.
pub record Maps : Type 0 where
  pub runs : String → Option Continuation
  pub ids : String → Option String

abbrev pub no_maps : Maps
no_maps = record { runs = λ id. none; ids = λ ref. none }

abbrev pub no_store : ContinuationStore
no_store = record { by_id = []; ref_to_id = [] }

pub data Op : Type 0 where
  save_op : ℕ → Continuation → Op
  index_op : String → String → Op
  delete_op : String → Op

-- An id that is not `id`.
abbrev other_than : String → Option String → Option String
other_than id none = none
other_than id (some c) = if str_eq c id then none else some c

unfoldable pub spec : Op → Maps → Maps
spec (save_op now c) a = record a {
  runs = λ id. if str_eq c.continuation_id id then some (touch now c) else a.runs id;
}
spec (index_op ref id) a = record a { ids = λ r. if str_eq ref r then some id else a.ids r }
spec (delete_op id) a = record {
  runs = λ j. if str_eq id j then none else a.runs j;
  ids = λ r. other_than id (a.ids r);
}

-- A reference leads to the run under its id, unless the id is empty.
unfoldable pub find_run : String → Maps → Option Continuation
find_run ref a = elim (a.ids ref) [
  | none ↦ none
  | some id ↦ if str_eq id "" then none else a.runs id
]

unfoldable pub exec : Op → ContinuationStore → ContinuationStore
exec (save_op now c) s = save now c s
exec (index_op ref id) s = index_ref ref id s
exec (delete_op id) s = (delete id s).0

unfoldable pub spec_all : List Op → Maps → Maps
spec_all [] a = a
spec_all (o ∷ os) a = spec_all os (spec o a)

unfoldable pub exec_all : List Op → ContinuationStore → ContinuationStore
exec_all [] s = s
exec_all (o ∷ os) s = exec_all os (exec o s)

-- No key stands twice.
abbrev IsDistinct : Dict String → Type 0
IsDistinct [] = Unit
IsDistinct ((k, v) ∷ d) = (get k d ≡ none) × IsDistinct d

put-IsDistinct : (k v : String) (d : Dict String) → IsDistinct d → IsDistinct (put k v d)
unfolding put get
put-IsDistinct k v [] h = (refl, tt)
put-IsDistinct k v ((j, w) ∷ d) (n, h) = elim (Bool-cases (str_eq j k)) [
  | inl e ↦ rw e (n, h)
  | inr e ↦ rw e (ground (arith, get-put k j v d, eq_iff j k, eq_iff k j), put-IsDistinct k v d h)
]

get-drop_refs :
    (id ref : String) (d : Dict String)
    → IsDistinct d
    → get ref (drop_refs id d) ≡ other_than id (get ref d)
unfolding get drop_refs
get-drop_refs id ref [] h = refl
get-drop_refs id ref ((j, w) ∷ d) (n, h) =
    ground (arith, get-drop_refs id ref d h, eq_iff j ref, eq_iff w id)

drop_refs-IsDistinct : (id : String) (d : Dict String) → IsDistinct d → IsDistinct (drop_refs id d)
unfolding drop_refs
drop_refs-IsDistinct id [] h = tt
drop_refs-IsDistinct id ((j, w) ∷ d) (n, h) =
    let k = drop_refs-IsDistinct id d h in
    let m : get j (drop_refs id d) ≡ none = get-drop_refs id j d h ∙ ap (other_than id) n in
    elim (Bool-cases (str_eq w id)) [ inl e ↦ rw e k | inr e ↦ rw e (m, k) ]

-- The store holds what the maps say, and no reference twice.
record Refines (s : ContinuationStore) (a : Maps) : Type 0 where
  same_run : (id : String) → get id s.by_id ≡ a.runs id
  same_id : (ref : String) → get ref s.ref_to_id ≡ a.ids ref
  distinct : IsDistinct s.ref_to_id

exec-Refines :
    (o : Op) (s : ContinuationStore) (a : Maps) → Refines s a → Refines (exec o s) (spec o a)
unfolding exec spec save index_ref delete
exec-Refines (save_op now c) s a r = record {
  same_run =
      λ id. ground (arith, get-put c.continuation_id id (touch now c) s.by_id, r.same_run id);
  same_id = r.same_id;
  distinct = r.distinct;
}
exec-Refines (index_op ref id) s a r = record {
  same_run = r.same_run;
  same_id = λ q. ground (arith, get-put ref q id s.ref_to_id, r.same_id q);
  distinct = put-IsDistinct ref id s.ref_to_id r.distinct;
}
exec-Refines (delete_op id) s a r = record {
  same_run = λ j. ground (arith, get-del id j s.by_id, r.same_run j);
  same_id = λ q. get-drop_refs id q s.ref_to_id r.distinct ∙ ap (other_than id) (r.same_id q);
  distinct = drop_refs-IsDistinct id s.ref_to_id r.distinct;
}

exec_all-Refines :
    (os : List Op) (s : ContinuationStore) (a : Maps)
    → Refines s a
    → Refines (exec_all os s) (spec_all os a)
unfolding exec_all spec_all
exec_all-Refines [] s a r = r
exec_all-Refines (o ∷ os) s a r = exec_all-Refines os (exec o s) (spec o a) (exec-Refines o s a r)

find-Refines :
    (ref : String) (s : ContinuationStore) (a : Maps)
    → Refines s a
    → find_by_external_ref ref s ≡ find_run ref a
unfolding find_by_external_ref find_run
find-Refines ref s a r = rw (r.same_id ref, find_by_external_ref) (at_id (a.ids ref))
  where
    at_id :
        (f : Option String)
        → (elim f [ none ↦ none | some id ↦ if str_eq id "" then none else get id s.by_id ])
          ≡ (elim f [ none ↦ none | some id ↦ if str_eq id "" then none else a.runs id ])
    at_id none = refl
    at_id (some id) = rw (r.same_run id) refl

-- The store implements two maps: after whatever is saved, indexed and deleted from the start, loading
-- an id and finding a reference answer as the maps do, where saving and indexing overwrite one entry
-- and deleting a run also forgets every reference to it, and no other.
pub store_refines_maps :
    (os : List Op) (id ref : String)
    → (load id (exec_all os no_store) ≡ (spec_all os no_maps).runs id)
      × (find_by_external_ref ref (exec_all os no_store) ≡ find_run ref (spec_all os no_maps))
unfolding load get
store_refines_maps os id ref =
    let start : Refines no_store no_maps = record {
      same_run = λ id. refl;
      same_id = λ ref. refl;
      distinct = tt;
    } in
    let r = exec_all-Refines os no_store no_maps start in
    (r.same_run id, find-Refines ref (exec_all os no_store) (spec_all os no_maps) r)
