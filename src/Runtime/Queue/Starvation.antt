-- ===== src/Runtime/Queue/Starvation.antt =====
-- The starvation guard: work in the lowest lane is served whatever the other lanes hold.
use helios_os.Prelude.{
  ℕ, zero, suc, ◌+◌, ◌-◌, ◌≤◌, ◌<◌, ◌%◌, String, eq_iff, true, false, ◌≡◌, ◌⊎◌, refl, ap, ◌∙◌, List,
  [], ◌∷◌, ◌++◌, ◌==◌, leb, arith, Bool-cases, inl, inr, length, contains, All,
}
use helios_os.Runtime.Queue.{
  Lane, p0, p1, p2, RunnableItem, Delayed, Lanes, Queue, lane, set_lane, append_item, promote,
  promote_due, Taking, take_items, claim_lane, claim_lanes, lane_order, claim,
}
use helios_os.Runtime.Queue.Order.{names, first_of, contents, names-append, claim_by_order, start}

-- The item is at the front of the lowest lane.
abbrev pub IsFront : RunnableItem → Lanes → Type 0
IsFront x ls = (xs : List RunnableItem) × (ls.last ≡ x ∷ xs)

contains_append_right :
    (s : String) (xs ys : List String) → contains s ys ≡ true → contains s (xs ++ ys) ≡ true
unfolding contains
contains_append_right s [] ys h = h
contains_append_right s (x ∷ xs) ys h = ground (arith, contains_append_right s xs ys h)

append_item-IsFront :
    (x y : RunnableItem) (ls : Lanes) → IsFront x ls → IsFront x (append_item y ls)
unfolding append_item
append_item-IsFront x y ls (xs, e) =
    elim y.priority as (λ p. IsFront x (set_lane p (lane p ls ++ y ∷ []) ls)) [
      | p0 ↦ (xs, e)
      | p1 ↦ (xs, e)
      | p2 ↦ (xs ++ y ∷ [], ap (λ s. s ++ y ∷ []) e)
    ]

promote-IsFront :
    (now : ℕ) (x : RunnableItem) (ds : List Delayed) (ls : Lanes)
    → IsFront x ls
    → IsFront x (promote now ds ls).1
unfolding promote
promote-IsFront now x [] ls f = f
promote-IsFront now x (d ∷ ds) ls f = elim (Bool-cases (leb d.due now)) [
  | inl h ↦
      rw (h, promote)
        (promote-IsFront now x ds (append_item d.item ls) (append_item-IsFront x d.item ls f))
  | inr h ↦ rw (h, promote) f
]

-- Taking from a list either takes its first item or leaves the list.
take_items-front :
    (room seq : ℕ) (x : RunnableItem) (xs : List RunnableItem)
    → (contains x.cont_id (names (take_items room seq (x ∷ xs)).0) ≡ true)
      ⊎ ((take_items room seq (x ∷ xs)).1 ≡ x ∷ xs)
unfolding take_items names contains
take_items-front zero seq x xs = inr refl
take_items-front (suc room) seq x xs = inl (ground (arith, eq_iff x.cont_id x.cont_id))

claim_last :
    (n : ℕ) (x : RunnableItem) (t : Taking)
    → IsFront x t.queue.lanes
    → (contains x.cont_id (names (claim_lane n p2 t).out) ≡ true)
      ⊎ IsFront x (claim_lane n p2 t).queue.lanes
unfolding claim_lane set_lane
claim_last n x t (xs, e) =
    let same : lane p2 t.queue.lanes ≡ x ∷ xs = unfold lane in e in
    elim (take_items-front (n - length t.out) t.queue.next_seq x xs) [
      | inl h ↦ inl (
          rw (same, names-append)
            (contains_append_right x.cont_id (names t.out)
              (names (take_items (n - length t.out) t.queue.next_seq (x ∷ xs)).0) h))
      | inr h ↦ inr (xs, rw same h)
    ]

-- The lanes served upwards.
claim_lanes-IsFront :
    (n : ℕ) (x : RunnableItem) (order : List Lane) (q : Queue)
    → order ≡ p0 ∷ p1 ∷ p2 ∷ []
    → IsFront x q.lanes
    → (contains x.cont_id (names (claim_lanes n order (start q)).out) ≡ true)
      ⊎ IsFront x (claim_lanes n order (start q)).queue.lanes
unfolding claim_lanes claim_lane set_lane
claim_lanes-IsFront n x order q e f =
    rw e (claim_last n x (claim_lane n p1 (claim_lane n p0 (start q))) f)

lane_order_up : (guard : ℕ) → guard == 0 ≡ false → lane_order guard ≡ p0 ∷ p1 ∷ p2 ∷ []
unfolding lane_order
lane_order_up guard h = rw h refl

lane_order_down : (guard : ℕ) → guard == 0 ≡ true → lane_order guard ≡ p2 ∷ p1 ∷ p0 ∷ []
unfolding lane_order
lane_order_down guard h = rw h refl

-- Served downwards, the item at the front of the lowest lane comes first.
down_contains :
    (m : ℕ) (x : RunnableItem) (order : List Lane) (ls : Lanes)
    → order ≡ p2 ∷ p1 ∷ p0 ∷ []
    → IsFront x ls
    → contains x.cont_id (first_of (suc m) (contents order ls)) ≡ true
unfolding contents first_of names lane contains
down_contains m x order ls e (xs, f) = rw e (rw f (ground (arith, eq_iff x.cont_id x.cont_id)))

-- A claim of at least one item gives the one at the front of the lowest lane, or leaves it there,
-- and the latter only if it is not the fifth.
claim-IsFront :
    (now m : ℕ) (x : RunnableItem) (q : Queue)
    → IsFront x q.lanes
    → (contains x.cont_id (names (claim now (suc m) q).1) ≡ true)
      ⊎ (((q.starve_guard + 1) % 5 == 0 ≡ false) × IsFront x (claim now (suc m) q).0.lanes)
unfolding claim promote_due
claim-IsFront now m x q f = elim (Bool-cases ((q.starve_guard + 1) % 5 == 0)) [
  | inl h ↦ inl (
      rw (claim_by_order now (suc m) q) (
        down_contains m x (lane_order ((q.starve_guard + 1) % 5)) (promote_due now q).lanes
          (lane_order_down ((q.starve_guard + 1) % 5) h)
          (promote-IsFront now x q.delayed q.lanes f)))
  | inr h ↦
      elim (claim_lanes-IsFront (suc m) x (lane_order ((q.starve_guard + 1) % 5))
        (record (promote_due now q) { starve_guard = (q.starve_guard + 1) % 5 })
        (lane_order_up ((q.starve_guard + 1) % 5) h) (promote-IsFront now x q.delayed q.lanes f)) [
          | inl g ↦ inl g
          | inr g ↦ inr (h, g)
        ]
]

claim_lanes-starve_guard :
    (n : ℕ) (ps : List Lane) (t : Taking)
    → (claim_lanes n ps t).queue.starve_guard ≡ t.queue.starve_guard
unfolding claim_lanes
claim_lanes-starve_guard n [] t = refl
claim_lanes-starve_guard n (p ∷ ps) t =
    claim_lanes-starve_guard n ps (claim_lane n p t) ∙ (unfold claim_lane in refl)

claim-starve_guard :
    (now n : ℕ) (q : Queue) → (claim now n q).0.starve_guard ≡ (q.starve_guard + 1) % 5
unfolding claim promote_due
claim-starve_guard now n q = claim_lanes-starve_guard n _ _

-- What a sequence of claims gives, each at an instant and of a number of items.
unfoldable pub claim_all : List (ℕ × ℕ) → Queue → List String
claim_all [] q = []
claim_all ((now, count) ∷ cs) q = names (claim now count q).1 ++ claim_all cs (claim now count q).0

contains_append_left :
    (s : String) (xs ys : List String) → contains s xs ≡ true → contains s (xs ++ ys) ≡ true
unfolding contains
contains_append_left s [] ys h = cc
contains_append_left s (x ∷ xs) ys h = ground (arith, contains_append_left s xs ys)

guard_step : (g : ℕ) → (g + 1) % 5 == 0 ≡ false → (1 ≤ (g + 1) % 5) × ((g + 1) % 5 < 5)
guard_step g h = (ground arith, ground arith)

guard_next : (g : ℕ) → g < 5 → (g + 1) % 5 == 0 ≡ false → (g + 1) % 5 ≡ g + 1
guard_next g l h = ground arith

claim_all-served :
    (cs : List (ℕ × ℕ)) (x : RunnableItem) (q : Queue)
    → All (λ c. 1 ≤ c.1) cs
    → IsFront x q.lanes
    → q.starve_guard < 5
    → 5 ≤ length cs + q.starve_guard
    → contains x.cont_id (claim_all cs q) ≡ true
unfolding claim_all
claim_all-served [] x q ls f l enough = absurd (omega arith)
claim_all-served ((now, zero) ∷ cs) x q (l, ls) f small enough = absurd (omega arith)
claim_all-served ((now, suc m) ∷ cs) x q (l, ls) f small enough = elim (claim-IsFront now m x q f) [
  | inl h ↦
      contains_append_left x.cont_id (names (claim now (suc m) q).1)
        (claim_all cs (claim now (suc m) q).0) h
  | inr (ne, g) ↦
      let next : (claim now (suc m) q).0.starve_guard ≡ q.starve_guard + 1 =
        claim-starve_guard now (suc m) q ∙ guard_next q.starve_guard small ne in
      contains_append_right x.cont_id (names (claim now (suc m) q).1)
        (claim_all cs (claim now (suc m) q).0)
        (claim_all-served cs x (claim now (suc m) q).0 ls g
          (omega (arith, claim-starve_guard now (suc m) q, (guard_step q.starve_guard ne).1))
          (omega (arith, next)))
]

-- An item at the front of the lowest lane is among what five claims in a row give, each of at least
-- one item, whatever waits in the other lanes and whenever the claims are made.
pub low_lane_served :
    (c1 c2 c3 c4 c5 : ℕ × ℕ) (x : RunnableItem) (q : Queue)
    → All (λ (c : ℕ × ℕ). 1 ≤ c.1) (c1 ∷ c2 ∷ c3 ∷ c4 ∷ c5 ∷ [])
    → IsFront x q.lanes
    → contains x.cont_id (claim_all (c1 ∷ c2 ∷ c3 ∷ c4 ∷ c5 ∷ []) q) ≡ true
unfolding claim_all
low_lane_served (now, zero) c2 c3 c4 c5 x q (l, ls) f = absurd (omega arith)
low_lane_served (now, suc m) c2 c3 c4 c5 x q (l, ls) f = elim (claim-IsFront now m x q f) [
  | inl h ↦
      contains_append_left x.cont_id (names (claim now (suc m) q).1)
        (claim_all (c2 ∷ c3 ∷ c4 ∷ c5 ∷ []) (claim now (suc m) q).0) h
  | inr (ne, g) ↦
      let (some_left, small) = guard_step q.starve_guard ne in
      contains_append_right x.cont_id (names (claim now (suc m) q).1)
        (claim_all (c2 ∷ c3 ∷ c4 ∷ c5 ∷ []) (claim now (suc m) q).0)
        (claim_all-served (c2 ∷ c3 ∷ c4 ∷ c5 ∷ []) x (claim now (suc m) q).0 ls g
          (omega (arith, claim-starve_guard now (suc m) q, small))
          (omega (arith, claim-starve_guard now (suc m) q, some_left)))
]
