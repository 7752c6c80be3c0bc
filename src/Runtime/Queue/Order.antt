-- ===== src/Runtime/Queue/Order.antt =====
-- What a claim serves: the lanes in order, each from its front, and `p2` first at every fifth claim.
use helios_os.Prelude.{
  ℕ, zero, suc, ◌+◌, ◌-◌, ◌≤◌, ◌%◌, String, ◌≡◌, ◌⊎◌, refl, sym, ap, ◌∙◌, List, [], ◌∷◌, ◌++◌, ◌==◌,
  if◌then◌else◌, arith, Bool-cases, inl, inr, length,
}
use mathlib.Core.List.{append-nil, append_assoc}
use helios_os.Runtime.Queue.{
  Lane, p0, p1, p2, RunnableItem, Lanes, Queue, lane, set_lane, promote_due, Taking, take_items,
  claim_lane, claim_lanes, lane_order, claim,
}

-- The continuations of a list of items.
unfoldable pub names : List RunnableItem → List String
names [] = []
names (x ∷ xs) = x.cont_id ∷ names xs

-- The first `n` of a list.
unfoldable pub first_of {ℓ} : {A : Type ℓ} → ℕ → List A → List A
first_of zero xs = []
first_of (suc n) [] = []
first_of (suc n) (x ∷ xs) = x ∷ first_of n xs

-- The continuations in the lanes of a list, in its order.
unfoldable pub contents : List Lane → Lanes → List String
contents [] ls = []
contents (p ∷ ps) ls = names (lane p ls) ++ contents ps ls

pub names-append : (xs ys : List RunnableItem) → names (xs ++ ys) ≡ names xs ++ names ys
unfolding names
names-append [] ys = refl
names-append (x ∷ xs) ys = ap (λ s. x.cont_id ∷ s) (names-append xs ys)

names-take_items :
    (room seq : ℕ) (xs : List RunnableItem)
    → names (take_items room seq xs).0 ≡ first_of room (names xs)
unfolding names take_items first_of
names-take_items zero seq [] = refl
names-take_items (suc room) seq [] = refl
names-take_items zero seq (x ∷ xs) = refl
names-take_items (suc room) seq (x ∷ xs) =
    ap (λ s. x.cont_id ∷ s) (names-take_items room (seq + 1) xs)

length-take_items :
    (room seq : ℕ) (xs : List RunnableItem) → length (take_items room seq xs).0 ≤ room
unfolding take_items
length-take_items zero seq [] = omega arith
length-take_items (suc room) seq [] = omega arith
length-take_items zero seq (x ∷ xs) = omega arith
length-take_items (suc room) seq (x ∷ xs) = omega (arith, length-take_items room (seq + 1) xs)

-- Taking up to `n` in two parts is taking up to `n` of the whole.
first_of-append {ℓ} :
    {A : Type ℓ} (n : ℕ) (xs ys : List A)
    → first_of n (xs ++ ys) ≡ first_of n xs ++ first_of (n - length xs) ys
unfolding first_of
first_of-append zero [] ys =
    let none_left : 0 ≡ 0 - 0 = omega arith in ap (λ k. first_of k ys) none_left
first_of-append (suc n) [] ys =
    let all_left : suc n ≡ suc n - 0 = omega arith in ap (λ k. first_of k ys) all_left
first_of-append zero (x ∷ xs) ys =
    let none_left : 0 ≡ 0 - suc (length xs) = omega arith in ap (λ k. first_of k ys) none_left
first_of-append (suc n) (x ∷ xs) ys =
    ap (λ s. x ∷ s)
      (first_of-append n xs ys ∙ ap (λ k. first_of n xs ++ first_of k ys) (omega arith))

-- What is left of `n` after taking up to `n`.
room-first_of {ℓ} : {A : Type ℓ} (n : ℕ) (xs : List A) → n - length (first_of n xs) ≡ n - length xs
unfolding first_of
room-first_of zero xs = omega arith
room-first_of (suc n) [] = refl
room-first_of (suc n) (x ∷ xs) = omega (arith, room-first_of n xs)

length-names : (xs : List RunnableItem) → length (names xs) ≡ length xs
unfolding names
length-names [] = refl
length-names (x ∷ xs) = ap suc (length-names xs)

-- A turn of the loop goes on taking where the turns before it stopped.
claim_lane-out :
    (n : ℕ) (p : Lane) (t : Taking) (before : List String)
    → names t.out ≡ first_of n before
    → names (claim_lane n p t).out ≡ first_of n (before ++ names (lane p t.queue.lanes))
unfolding claim_lane
claim_lane-out n p t before h =
    let room : n - length t.out ≡ n - length before =
      omega
        (arith, length-names t.out, ap (λ (s : List String). length s) h, room-first_of n before) in
    names-append t.out (take_items (n - length t.out) t.queue.next_seq (lane p t.queue.lanes)).0
    ∙ ap (λ s. names t.out ++ s)
        (names-take_items (n - length t.out) t.queue.next_seq (lane p t.queue.lanes))
    ∙ ap (λ s. s ++ first_of (n - length t.out) (names (lane p t.queue.lanes))) h
    ∙ ap (λ k. first_of n before ++ first_of k (names (lane p t.queue.lanes))) room
    ∙ sym (first_of-append n before (names (lane p t.queue.lanes)))

abbrev pub start : Queue → Taking
start q = record { out = []; queue = q }

first_of-nil {ℓ} : {A : Type ℓ} (n : ℕ) → [] ≡ first_of {A = A} n []
unfolding first_of
first_of-nil zero = refl
first_of-nil (suc n) = refl

claim_lanes-up :
    (n : ℕ) (q : Queue)
    → names (claim_lanes n (p0 ∷ p1 ∷ p2 ∷ []) (start q)).out
      ≡ first_of n (contents (p0 ∷ p1 ∷ p2 ∷ []) q.lanes)
unfolding claim_lanes contents claim_lane set_lane lane names
claim_lanes-up n q =
    let t1 = claim_lane n p0 (start q) in
    let t2 = claim_lane n p1 t1 in
    claim_lane-out n p2 t2 (names q.lanes.first ++ names q.lanes.middle) (
      claim_lane-out n p1 t1 (names q.lanes.first)
        (claim_lane-out n p0 (start q) [] (first_of-nil n)))
    ∙ ap (first_of n) (
        append_assoc (names q.lanes.first) (names q.lanes.middle) (names q.lanes.last)
        ∙ ap (λ s. names q.lanes.first ++ (names q.lanes.middle ++ s))
            (sym (append-nil (names q.lanes.last))))

claim_lanes-down :
    (n : ℕ) (q : Queue)
    → names (claim_lanes n (p2 ∷ p1 ∷ p0 ∷ []) (start q)).out
      ≡ first_of n (contents (p2 ∷ p1 ∷ p0 ∷ []) q.lanes)
unfolding claim_lanes contents claim_lane set_lane lane names
claim_lanes-down n q =
    let t1 = claim_lane n p2 (start q) in
    let t2 = claim_lane n p1 t1 in
    claim_lane-out n p0 t2 (names q.lanes.last ++ names q.lanes.middle) (
      claim_lane-out n p1 t1 (names q.lanes.last)
        (claim_lane-out n p2 (start q) [] (first_of-nil n)))
    ∙ ap (first_of n) (
        append_assoc (names q.lanes.last) (names q.lanes.middle) (names q.lanes.first)
        ∙ ap (λ s. names q.lanes.last ++ (names q.lanes.middle ++ s))
            (sym (append-nil (names q.lanes.first))))

claim_lanes-out :
    (n : ℕ) (order : List Lane) (q : Queue)
    → (order ≡ p0 ∷ p1 ∷ p2 ∷ []) ⊎ (order ≡ p2 ∷ p1 ∷ p0 ∷ [])
    → names (claim_lanes n order (start q)).out ≡ first_of n (contents order q.lanes)
claim_lanes-out n order q (inl e) = rw e (claim_lanes-up n q)
claim_lanes-out n order q (inr e) = rw e (claim_lanes-down n q)

lane_order_cases :
    (guard : ℕ) → (lane_order guard ≡ p0 ∷ p1 ∷ p2 ∷ []) ⊎ (lane_order guard ≡ p2 ∷ p1 ∷ p0 ∷ [])
unfolding lane_order
lane_order_cases guard = elim (Bool-cases (guard == 0)) [
  | inl h ↦ inr (rw h refl)
  | inr h ↦ inl (rw h refl)
]

pub claim_by_order :
    (now count : ℕ) (q : Queue)
    → names (claim now count q).1
      ≡ first_of count (contents (lane_order ((q.starve_guard + 1) % 5)) (promote_due now q).lanes)
unfolding claim promote_due
claim_by_order now count q =
    let guard = (q.starve_guard + 1) % 5 in
    claim_lanes-out count (lane_order guard) (record (promote_due now q) { starve_guard = guard })
      (lane_order_cases guard)

contents_in_order :
    (guard : ℕ) (ls : Lanes)
    → contents (lane_order guard) ls ≡ (
        if guard == 0
        then names ls.last ++ (names ls.middle ++ names ls.first)
        else names ls.first ++ (names ls.middle ++ names ls.last))
unfolding contents lane lane_order
contents_in_order guard ls = elim (Bool-cases (guard == 0)) [
  | inl h ↦ rw h (ap (λ s. names ls.last ++ (names ls.middle ++ s)) (append-nil (names ls.first)))
  | inr h ↦ rw h (ap (λ s. names ls.first ++ (names ls.middle ++ s)) (append-nil (names ls.last)))
]

-- A claim gives the continuations at the front of the lanes, up to `count` of them, where what is
-- due has been promoted first: those of `p0` before those of `p1` before those of `p2`, and in the
-- opposite order at every fifth claim.
pub claim_in_order :
    (now count : ℕ) (q : Queue)
    → names (claim now count q).1
      ≡ first_of count (
          let ls = (promote_due now q).lanes in
          if (q.starve_guard + 1) % 5 == 0
          then names ls.last ++ (names ls.middle ++ names ls.first)
          else names ls.first ++ (names ls.middle ++ names ls.last))
claim_in_order now count q =
    claim_by_order now count q
    ∙ ap (first_of count) (contents_in_order ((q.starve_guard + 1) % 5) (promote_due now q).lanes)
