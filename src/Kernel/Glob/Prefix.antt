-- ===== src/Kernel/Glob/Prefix.antt =====
-- What a tool pattern matches.
use Prim.Native.String.{◌++◌}
use text.Mathlib.Text.{starts_with}
use text.Mathlib.TextPositions.{starts_with_of_prefix}
use text.Mathlib.TextLemmas.{cons-append}
use helios_os.Prelude.{
  String, str_eq, eq_iff, true, false, ◌≡◌, ◌↔◌, refl, arith, sym, Bool-cases, inl, inr,
}
use helios_os.Kernel.Glob.{ends_with, rstrip_stars, matches}

rstrip_stars-append : (p : String) → rstrip_stars (p ++ "*") ≡ rstrip_stars p
unfolding rstrip_stars
rstrip_stars-append String.[] = refl
rstrip_stars-append (String.◌∷◌ c s) = rw cons-append (ground (arith, rstrip_stars-append s))

ends_with-append : (p : String) → ends_with (p ++ "*") "*" ≡ true
unfolding ends_with
ends_with-append String.[] = refl
ends_with-append (String.◌∷◌ c s) = rw cons-append (ground (arith, ends_with-append s))

-- A pattern `p*` where `p` itself has no star at its end matches exactly the names that begin
-- with `p`.
pub matches-star :
    (tool p : String) → rstrip_stars p ≡ p → matches tool (p ++ "*") ≡ starts_with tool p
unfolding matches
matches-star tool p h = elim (Bool-cases (str_eq (p ++ "*") tool)) [
  | inl e ↦ rw e (sym (starts_with_of_prefix p tool ("*", (eq_iff (p ++ "*") tool).0 e)))
  | inr e ↦ rw (e, ends_with-append p, rstrip_stars-append p, h)
]

-- A pattern that does not end in a star matches exactly its own name.
pub matches-plain :
    (tool p : String) → ends_with p "*" ≡ false → (matches tool p ≡ true) ↔ (p ≡ tool)
unfolding matches
matches-plain tool p h = ground (arith, eq_iff p tool)
