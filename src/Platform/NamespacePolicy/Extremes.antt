-- ===== src/Platform/NamespacePolicy/Extremes.antt =====
-- The least limit, the strictest level and the sorted set of a list.
use helios_os.Prelude.{
  ℕ, ◌≤◌, String, str_eq, eq_iff, true, false, ◌||◌, ◌≡◌, ◌⊎◌, refl, ap, ◌∙◌, Option, none, some,
  List, [], ◌∷◌, ◌++◌, or_else, contains, arith, Option-cases, inl, inr,
}
use helios_os.Platform.NamespacePolicy.{given, least, strictest, insert_sorted, sorted_set}

-- A limit that is set is no more than another one that is.
abbrev pub AtMost : Option ℕ → Option ℕ → Type 0
AtMost limit none = Unit
AtMost limit (some n) = (m : ℕ) × (limit ≡ some m) × (m ≤ n)

-- The number is one of the list, where it is given.
abbrev pub Among : Option ℕ → List ℕ → Type 0
Among none ns = Unit
Among (some n) [] = ⊥
Among (some n) (m ∷ ms) = (m ≡ n) ⊎ Among (some n) ms

pub least-empty : (ns : List ℕ) → least ns ≡ none → ns ≡ []
unfolding least
least-empty [] h = refl
least-empty (n ∷ ns) h = absurd (ground arith)

pub least-bound : (ns : List ℕ) (k n : ℕ) → least ns ≡ some k → Among (some n) ns → k ≤ n
unfolding least
least-bound [] k n e h = absurd h
least-bound (m ∷ ms) k n e h = elim (Option-cases (least ms)) [
  | inl f ↦ elim (rw (least-empty ms f) at h) as (λ _. k ≤ n) [
    | inl g ↦ ground (arith, f, e)
    | inr g ↦ absurd g
  ]
  | inr (j, f) ↦ elim h as (λ _. k ≤ n) [
    | inl g ↦ ground (arith, f, e)
    | inr g ↦ ground (arith, f, e, least-bound ms j n f g)
  ]
]

pub least-some : (m : ℕ) (ms : List ℕ) → (k : ℕ) × (least (m ∷ ms) ≡ some k)
unfolding least
least-some m ms = elim (Option-cases (least (m ∷ ms))) [ inl e ↦ absurd (ground arith) | inr k ↦ k ]

pub least-AtMost : (n : Option ℕ) (ns : List ℕ) → Among n ns → AtMost (least ns) n
least-AtMost none ns h = tt
least-AtMost (some n) [] h = absurd h
least-AtMost (some n) (m ∷ ms) h =
    let (k, e) = least-some m ms in (k, e, least-bound (m ∷ ms) k n e h)

pub strictest-empty : (rank : String → ℕ) (xs : List String) → strictest rank xs ≡ none → xs ≡ []
unfolding strictest
strictest-empty rank [] h = refl
strictest-empty rank (x ∷ xs) h = absurd (ground arith)

pub strictest-bound :
    (rank : String → ℕ) (x y : String) (xs : List String)
    → strictest rank xs ≡ some y
    → contains x xs ≡ true
    → rank x ≤ rank y
unfolding strictest contains
strictest-bound rank x y [] e h = cc
strictest-bound rank x y (z ∷ zs) e h = elim (Option-cases (strictest rank zs)) [
  | inl f ↦
      let none_left : contains x zs ≡ false = ap (contains x) (strictest-empty rank zs f) in
      ground (arith, f, e, eq_iff z x)
  | inr (w, f) ↦ ground (arith, f, e, eq_iff z x, strictest-bound rank x w zs f)
]

pub contains-insert_sorted :
    (x s : String) (ts : List String)
    → contains x (insert_sorted s ts) ≡ (str_eq s x || contains x ts)
unfolding contains insert_sorted
contains-insert_sorted x s [] = refl
contains-insert_sorted x s (t ∷ ts) =
    ground (arith, contains-insert_sorted x s ts, eq_iff s t, eq_iff s x, eq_iff t x)

pub contains-sorted_set :
    (x : String) (ss : List String) → contains x (sorted_set ss) ≡ contains x ss
unfolding sorted_set contains
contains-sorted_set x [] = refl
contains-sorted_set x (s ∷ ss) =
    contains-insert_sorted x s (sorted_set ss)
    ∙ ap (λ b. str_eq s x || b) (contains-sorted_set x ss)

pub contains-append :
    (x : String) (xs ys : List String) → contains x (xs ++ ys) ≡ (contains x xs || contains x ys)
unfolding contains
contains-append x [] ys = refl
contains-append x (y ∷ xs) ys = ground (arith, contains-append x xs ys)

pub Among-append_left : (n : Option ℕ) (ms ns : List ℕ) → Among n ms → Among n (ms ++ ns)
Among-append_left none ms ns h = tt
Among-append_left (some n) [] ns h = absurd h
Among-append_left (some n) (m ∷ ms) ns (inl e) = inl e
Among-append_left (some n) (m ∷ ms) ns (inr h) = inr (Among-append_left (some n) ms ns h)

pub Among-append_right : (n : Option ℕ) (ms ns : List ℕ) → Among n ns → Among n (ms ++ ns)
Among-append_right none ms ns h = tt
Among-append_right (some n) [] ns h = h
Among-append_right (some n) (m ∷ ms) ns h = inr (Among-append_right (some n) ms ns h)

pub Among-given : (n : Option ℕ) → Among n (given n)
Among-given none = tt
Among-given (some n) = inl refl

pub strictest-AtLeast :
    (rank : String → ℕ) (default x : String) (xs : List String)
    → contains x xs ≡ true
    → rank x ≤ rank (or_else (strictest rank xs) default)
strictest-AtLeast rank default x xs h = elim (Option-cases (strictest rank xs)) [
  | inl e ↦
      let empty : contains x xs ≡ contains x [] = ap (contains x) (strictest-empty rank xs e) in
      absurd (unfold contains in ground (arith, h, empty))
  | inr (y, e) ↦ rw e (strictest-bound rank x y xs e h)
]

pub contains_first : (x : String) (xs : List String) → contains x (x ∷ xs) ≡ true
unfolding contains
contains_first x xs = ground (arith, eq_iff x x)

pub contains_second : (x y : String) (xs : List String) → contains x (y ∷ x ∷ xs) ≡ true
unfolding contains
contains_second x y xs = ground (arith, eq_iff x x)
