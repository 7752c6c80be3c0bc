-- ===== src/Prelude/Dicts.antt =====
-- Python's `dict` with string keys, in insertion order: an assignment to a key that is present
-- keeps its place, one to a new key goes to the end.
use Prim.Native.String.{String}
use mathlib.Core.Path.{◌≡◌, refl}
use mathlib.Core.Logic.{◌≢◌}
use mathlib.Core.Option.{Option, none, some}
use mathlib.Core.List.{List, [], ◌∷◌}
use native.Mathlib.Omega.{arith}
use text.Mathlib.Text.{◌==◌}
use text.Mathlib.TextEquality.{eq_iff}
use helios_os.Prelude.Tests.{if◌then◌else◌}

abbrev pub Dict {ℓ} : Type ℓ → Type ℓ
Dict V = List (String × V)

module _ {ℓ} {V : Type ℓ} where
  -- d.get(k)
  unfoldable pub get : String → Dict V → Option V
  get k [] = none
  get k ((j, v) ∷ d) = if j == k then some v else get k d

  -- d[k] = v
  unfoldable pub put : String → V → Dict V → Dict V
  put k v [] = (k, v) ∷ []
  put k v ((j, w) ∷ d) = if j == k then (j, v) ∷ d else (j, w) ∷ put k v d

  -- d.pop(k, None)
  unfoldable pub del : String → Dict V → Dict V
  del k [] = []
  del k ((j, v) ∷ d) = let rest = del k d in if j == k then rest else (j, v) ∷ rest

  -- d.values()
  unfoldable pub values : Dict V → List V
  values [] = []
  values ((j, v) ∷ d) = v ∷ values d

  pub get-put :
      (k j : String) (v : V) (d : Dict V) → get j (put k v d) ≡ (if k == j then some v else get j d)
  unfolding get put
  get-put k j v [] = refl
  get-put k j v ((i, w) ∷ d) = ground (arith, eq_iff k j, eq_iff i k, eq_iff i j, get-put k j v d)

  pub get-del : (k j : String) (d : Dict V) → get j (del k d) ≡ (if k == j then none else get j d)
  unfolding get del
  get-del k j [] = ground arith
  get-del k j ((i, v) ∷ d) = ground (arith, get-del k j d, eq_iff i k, eq_iff i j, eq_iff k j)

  pub get-put_self : (k : String) (v : V) (d : Dict V) → get k (put k v d) ≡ some v
  get-put_self k v d = ground (arith, get-put k k v d, eq_iff k k)

  pub get-put_ne : (k j : String) (v : V) (d : Dict V) → k ≢ j → get j (put k v d) ≡ get j d
  get-put_ne k j v d h = ground (arith, get-put k j v d, eq_iff k j)

  pub get-del_self : (k : String) (d : Dict V) → get k (del k d) ≡ none
  get-del_self k d = ground (arith, get-del k k d, eq_iff k k)

  pub get-del_ne : (k j : String) (d : Dict V) → k ≢ j → get j (del k d) ≡ get j d
  get-del_ne k j d h = ground (arith, get-del k j d, eq_iff k j)

-- What a look-up finds after a change.
pub ruleset dict_laws = (get-put, get-del, get-put_self, get-del_self)
