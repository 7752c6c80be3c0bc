-- ===== src/Prelude/Sums.antt =====
-- Dictionaries with one entry to a key, and sums over their values.
use helios_os.Prelude.Dicts.{Dict, get, put, del, get-put, get-del}
use Prim.Native.Nat.{ℕ, ◌+◌}
use Prim.Native.String.{String}
use mathlib.Core.Path.{◌≡◌, refl}
use mathlib.Core.Option.{none, some}
use mathlib.Core.List.{[], ◌∷◌}
use native.Mathlib.Omega.{arith}
use text.Mathlib.TextEquality.{eq_iff}

module _ {ℓ} {V : Type ℓ} where
  abbrev pub Distinct : Dict V → Type ℓ
  Distinct [] = Unit
  Distinct ((k, v) ∷ d) = (get k d ≡ none) × Distinct d

  pub put-Distinct : (k : String) (v : V) (d : Dict V) → Distinct d → Distinct (put k v d)
  unfolding put get
  put-Distinct k v [] h = (refl, tt)
  put-Distinct k v ((j, w) ∷ d) h =
      ground (arith, put-Distinct k v d h.1, get-put k j v d, eq_iff j k, eq_iff k j)

  pub del-Distinct : (k : String) (d : Dict V) → Distinct d → Distinct (del k d)
  unfolding del
  del-Distinct k [] h = tt
  del-Distinct k ((j, w) ∷ d) h = ground (arith, del-Distinct k d h.1, get-del k j d)

  pub del_missing : (k : String) (d : Dict V) → get k d ≡ none → del k d ≡ d
  unfolding del get
  del_missing k [] h = refl
  del_missing k ((j, w) ∷ d) h = ground (arith, del_missing k d)

  abbrev pub sum_values : (V → ℕ) → Dict V → ℕ
  sum_values f [] = 0
  sum_values f ((k, v) ∷ d) = f v + sum_values f d

  pub sum_values-put :
      (f : V → ℕ) (k : String) (v : V) (d : Dict V)
      → get k d ≡ none
      → sum_values f (put k v d) ≡ sum_values f d + f v
  unfolding put get
  sum_values-put f k v [] h = omega arith
  sum_values-put f k v ((j, w) ∷ d) h = ground (arith, sum_values-put f k v d)

  pub sum_values-del :
      (f : V → ℕ) (k : String) (v : V) (d : Dict V)
      → Distinct d
      → get k d ≡ some v
      → sum_values f (del k d) + f v ≡ sum_values f d
  unfolding del get
  sum_values-del f k v [] u h = cc
  sum_values-del f k v ((j, w) ∷ d) u h =
      ground (arith, sum_values-del f k v d u.1, del_missing k d, eq_iff j k)
