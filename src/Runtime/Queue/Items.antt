-- ===== src/Runtime/Queue/Items.antt =====
-- How many items of a continuation wait and are in flight, through the calls of the queue.
use helios_os.Prelude.{
  ℕ, zero, suc, ◌+◌, ◌-◌, String, str_eq, ◌≡◌, refl, ap, ◌∙◌, Option, none, some, List, [], ◌∷◌,
  ◌++◌, ◌==◌, leb, arith, Bool-cases, inl, inr, length, if◌then◌else◌,
}
use helios_os.Runtime.Queue.{
  Lane, p0, p1, p2, RunnableItem, Delayed, Lanes, Queue, lane, set_lane, append_item, is_before,
  heap_push, promote, promote_due, enqueue, Taking, with_handle, take_items, fly, claim_lane,
  claim_lanes, claim, drop_handle, land, ack, nack, after, due_of, delay_of,
}

unfoldable pub tally {ℓ} : {A : Type ℓ} → (A → ℕ) → List A → ℕ
tally w [] = 0
tally w (x ∷ xs) = w x + tally w xs

tally-append {ℓ} :
    {A : Type ℓ} (w : A → ℕ) (xs ys : List A) → tally w (xs ++ ys) ≡ tally w xs + tally w ys
unfolding tally
tally-append w [] ys = omega arith
tally-append w (x ∷ xs) ys = omega (arith, tally-append w xs ys)

-- One for an item of the continuation.
abbrev pub is_of : String → RunnableItem → ℕ
is_of c x = if str_eq x.cont_id c then 1 else 0

-- How many items of a continuation wait in the lanes, wait for their time, and are in flight.
unfoldable pub in_lanes : String → Lanes → ℕ
unfolding tally
in_lanes c ls = tally (is_of c) ls.first + tally (is_of c) ls.middle + tally (is_of c) ls.last

unfoldable pub in_delay : String → List Delayed → ℕ
unfolding tally
in_delay c ds = tally (λ d. is_of c d.item) ds

unfoldable pub in_flight : String → List (ℕ × RunnableItem) → ℕ
unfolding tally
in_flight c xs = tally (λ p. is_of c p.1) xs

unfoldable pub total : String → Queue → ℕ
total c q = in_lanes c q.lanes + in_delay c q.delayed + in_flight c q.inflight

module _ (c : String) where
  in_lanes-append_item :
      (x : RunnableItem) (ls : Lanes) → in_lanes c (append_item x ls) ≡ in_lanes c ls + is_of c x
  unfolding in_lanes append_item
  in_lanes-append_item x ls =
      elim x.priority
        as (λ p. in_lanes c (set_lane p (lane p ls ++ x ∷ []) ls) ≡ in_lanes c ls + is_of c x) [
          | p0 ↦ omega (arith, tally-append (is_of c) ls.first (x ∷ []))
          | p1 ↦ omega (arith, tally-append (is_of c) ls.middle (x ∷ []))
          | p2 ↦ omega (arith, tally-append (is_of c) ls.last (x ∷ []))
        ]

  in_delay-heap_push :
      (e : Delayed) (ds : List Delayed)
      → in_delay c (heap_push e ds) ≡ in_delay c ds + is_of c e.item
  unfolding in_delay heap_push
  in_delay-heap_push e [] = omega arith
  in_delay-heap_push e (d ∷ ds) = elim (Bool-cases (is_before e d)) [
    | inl h ↦ rw (h, heap_push) (omega arith)
    | inr h ↦ rw (h, heap_push) (omega (arith, in_delay-heap_push e ds))
  ]

  promote-keeps :
      (now : ℕ) (ds : List Delayed) (ls : Lanes)
      → in_delay c (promote now ds ls).0 + in_lanes c (promote now ds ls).1
        ≡ in_delay c ds + in_lanes c ls
  unfolding promote in_delay
  promote-keeps now [] ls = refl
  promote-keeps now (d ∷ ds) ls = elim (Bool-cases (leb d.due now)) [
    | inl h ↦
        rw (h, promote)
          (omega
            (arith, promote-keeps now ds (append_item d.item ls), in_lanes-append_item d.item ls))
    | inr h ↦ rw (h, promote) refl
  ]

  -- `enqueue` adds its item and nothing else.
  total-enqueue :
      (now : ℕ) (x : RunnableItem) (not_before : Option ℕ) (q : Queue)
      → total c (enqueue now x not_before q) ≡ total c q + is_of c x
  unfolding total enqueue
  total-enqueue now x not_before q = elim (Bool-cases (after not_before now)) [
    | inl h ↦
        rw (h, enqueue)
          (omega (
            arith,
            in_delay-heap_push (record { due = due_of not_before; seq = q.next_seq; item = x })
                q.delayed,
          ))
    | inr h ↦ rw (h, enqueue) (omega (arith, in_lanes-append_item x q.lanes))
  ]

  take_items-keeps :
      (room seq : ℕ) (xs : List RunnableItem)
      → tally (is_of c) (take_items room seq xs).0 + tally (is_of c) (take_items room seq xs).1
        ≡ tally (is_of c) xs
  unfolding take_items tally
  take_items-keeps room seq [] = refl
  take_items-keeps zero seq (x ∷ xs) = omega arith
  take_items-keeps (suc room) seq (x ∷ xs) = omega (arith, take_items-keeps room (seq + 1) xs)

  fly-take_items :
      (room seq : ℕ) (xs : List RunnableItem) (inflight : List (ℕ × RunnableItem))
      → in_flight c (fly (take_items room seq xs).0 inflight)
        ≡ tally (is_of c) (take_items room seq xs).0 + in_flight c inflight
  unfolding take_items tally fly in_flight
  fly-take_items room seq [] inflight = omega arith
  fly-take_items zero seq (x ∷ xs) inflight = omega arith
  fly-take_items (suc room) seq (x ∷ xs) inflight =
      omega (arith, fly-take_items room (seq + 1) xs ((seq, with_handle seq x) ∷ inflight))

  in_lanes-set_lane :
      (p : Lane) (items : List RunnableItem) (ls : Lanes)
      → in_lanes c (set_lane p items ls) + tally (is_of c) (lane p ls)
        ≡ in_lanes c ls + tally (is_of c) items
  unfolding in_lanes set_lane lane
  in_lanes-set_lane p0 items ls = omega arith
  in_lanes-set_lane p1 items ls = omega arith
  in_lanes-set_lane p2 items ls = omega arith

  total-claim_lane :
      (count : ℕ) (p : Lane) (t : Taking) → total c (claim_lane count p t).queue ≡ total c t.queue
  unfolding total claim_lane
  total-claim_lane count p t =
      let room = count - length t.out in
      omega (
        arith,
        in_lanes-set_lane p (take_items room t.queue.next_seq (lane p t.queue.lanes)).1
            t.queue.lanes,
        take_items-keeps room t.queue.next_seq (lane p t.queue.lanes),
        fly-take_items room t.queue.next_seq (lane p t.queue.lanes) t.queue.inflight,
      )

  total-claim_lanes :
      (count : ℕ) (ps : List Lane) (t : Taking)
      → total c (claim_lanes count ps t).queue ≡ total c t.queue
  unfolding claim_lanes
  total-claim_lanes count [] t = refl
  total-claim_lanes count (p ∷ ps) t =
      total-claim_lanes count ps (claim_lane count p t) ∙ total-claim_lane count p t

  total-promote_due : (now : ℕ) (q : Queue) → total c (promote_due now q) ≡ total c q
  unfolding total promote_due
  total-promote_due now q = omega (arith, promote-keeps now q.delayed q.lanes)

  total-claim : (now count : ℕ) (q : Queue) → total c (claim now count q).0 ≡ total c q
  unfolding claim total
  total-claim now count q = total-claim_lanes count _ _ ∙ total-promote_due now q

-- The item in flight under a handle.
unfoldable pub found : ℕ → List (ℕ × RunnableItem) → Option RunnableItem
found h [] = none
found h ((k, x) ∷ xs) = if k == h then some x else found h xs

-- The item is in flight under its own handle.
abbrev pub IsFlying : RunnableItem → Queue → Type 0
IsFlying x q = (h : ℕ) × (x.handle ≡ some h) × (found h q.inflight ≡ some x)

-- The calls on a queue, with the instants at which they run.
pub data Op : Type 0 where
  enqueue_op : ℕ → RunnableItem → Option ℕ → Op
  claim_op : ℕ → ℕ → Op
  ack_op : RunnableItem → Op
  nack_op : ℕ → RunnableItem → ℕ → Op

unfoldable pub exec : Op → Queue → Queue
exec (enqueue_op now x not_before) q = enqueue now x not_before q
exec (claim_op now count) q = (claim now count q).0
exec (ack_op x) q = ack x q
exec (nack_op now x backoff) q = nack now x backoff q

unfoldable pub exec_all : List Op → Queue → Queue
exec_all [] q = q
exec_all (o ∷ os) q = exec_all os (exec o q)

-- Only items in flight are acked and nacked.
abbrev pub Settles : Op → Queue → Type 0
Settles (ack_op x) q = IsFlying x q
Settles (nack_op now x backoff) q = IsFlying x q
Settles _ q = Unit

abbrev pub AllSettle : List Op → Queue → Type 0
AllSettle [] q = Unit
AllSettle (o ∷ os) q = Settles o q × AllSettle os (exec o q)

-- How many items of a continuation the calls put in, and ack.
abbrev pub put_in : String → Op → ℕ
put_in c (enqueue_op now x not_before) = is_of c x
put_in c _ = 0

abbrev pub acked : String → Op → ℕ
acked c (ack_op x) = is_of c x
acked c _ = 0

module _ (c : String) where
  pub drop_handle-found :
      (h : ℕ) (x : RunnableItem) (xs : List (ℕ × RunnableItem))
      → found h xs ≡ some x
      → in_flight c (drop_handle h xs) + is_of c x ≡ in_flight c xs
  unfolding found in_flight drop_handle tally
  drop_handle-found h x [] e = cc
  drop_handle-found h x ((k, y) ∷ xs) e = elim (Bool-cases (k == h)) [
    | inl g ↦
        let is_head : some y ≡ some x = rw (g, found) at e in
        let same : y ≡ x = cc in rw (g, drop_handle) (omega (arith, ap (is_of c) same))
    | inr g ↦ rw (g, drop_handle) (omega (arith, drop_handle-found h x xs (rw (g, found) at e)))
  ]

  pub total-ack :
      (x : RunnableItem) (q : Queue) → IsFlying x q → total c (ack x q) + is_of c x ≡ total c q
  unfolding total ack land
  total-ack x q (h, e, f) = rw (e, land) (omega (arith, drop_handle-found h x q.inflight f))

  pub total-nack :
      (now : ℕ) (x : RunnableItem) (backoff : ℕ) (q : Queue)
      → IsFlying x q
      → total c (nack now x backoff q) ≡ total c q
  unfolding nack
  total-nack now x backoff q f =
      total-enqueue c now (record x { attempt = x.attempt + 1; handle = none })
        (delay_of now backoff) (ack x q)
      ∙ total-ack x q f

  total-exec :
      (o : Op) (q : Queue) → Settles o q → total c (exec o q) + acked c o ≡ total c q + put_in c o
  unfolding exec
  total-exec (enqueue_op now x not_before) q s = omega (arith, total-enqueue c now x not_before q)
  total-exec (claim_op now count) q s = omega (arith, total-claim c now count q)
  total-exec (ack_op x) q s = omega (arith, total-ack x q s)
  total-exec (nack_op now x backoff) q s = omega (arith, total-nack now x backoff q s)

  -- Through every sequence of calls that ack and nack only items in flight, the items of a
  -- continuation that wait or are in flight, with those that were acked, are as many as there were
  -- before with those that were enqueued: none is lost, and none is made up.
  pub exec_all_conserves :
      (os : List Op) (q : Queue)
      → AllSettle os q
      → total c (exec_all os q) + tally (acked c) os ≡ total c q + tally (put_in c) os
  unfolding exec_all tally
  exec_all_conserves [] q s = refl
  exec_all_conserves (o ∷ os) q (s, ss) =
      omega (arith, exec_all_conserves os (exec o q) ss, total-exec o q s)
