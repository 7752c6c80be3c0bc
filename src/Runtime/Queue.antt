-- ===== src/Runtime/Queue.antt =====
-- The queue of runnable work: `RunnableItem` and `InMemoryRunnableQueue` (src/runtime/queue.py).
-- Each method is one step. A priority that is not a lane is normalised by `enqueue` to `p1`, so an
-- item is kept with its lane; `lane_of` is that normalisation. The heap of delayed items is the
-- list in the order in which `heappop` yields it, by due time and then by sequence number.
pub mod Items
pub mod Flights
pub mod Order
pub mod Starvation
use helios_os.Prelude.{
  ℕ, zero, suc, ◌+◌, ◌-◌, ◌%◌, String, str_eq, Bool, true, false, not, ◌&&◌, Option, none, some,
  List, [], ◌∷◌, ◌++◌, ◌==◌, leb, ltb, length, if◌then◌else◌,
}
use helios_os.Runtime.Continuation.{Resolution}

pub data Lane : Type 0 where
  p0 p1 p2 : Lane

-- `if item.priority not in self._lanes: item.priority = "p1"`
unfoldable pub lane_of : String → Lane
lane_of priority = if str_eq priority "p0" then p0 else if str_eq priority "p2" then p2 else p1

pub record RunnableItem : Type 0 where
  pub cont_id : String
  pub tenant_id : String
  pub priority : Lane
  pub enqueue_epoch : ℕ
  pub resolution : Option Resolution
  pub attempt : ℕ
  pub handle : Option ℕ

-- `(due, seq, item)`
pub record Delayed : Type 0 where
  pub due : ℕ
  pub seq : ℕ
  pub item : RunnableItem

pub record Lanes : Type 0 where
  pub first : List RunnableItem
  pub middle : List RunnableItem
  pub last : List RunnableItem

pub record Queue : Type 0 where
  pub lanes : Lanes
  pub delayed : List Delayed
  pub inflight : List (ℕ × RunnableItem)
  pub next_seq : ℕ
  pub starve_guard : ℕ

-- `self._lanes[prio]`
unfoldable pub lane : Lane → Lanes → List RunnableItem
lane p0 ls = ls.first
lane p1 ls = ls.middle
lane p2 ls = ls.last

unfoldable pub set_lane : Lane → List RunnableItem → Lanes → Lanes
set_lane p0 items ls = record ls { first = items }
set_lane p1 items ls = record ls { middle = items }
set_lane p2 items ls = record ls { last = items }

-- `self._lanes[item.priority].append(item)`
unfoldable pub append_item : RunnableItem → Lanes → Lanes
unfolding lane set_lane
append_item item ls = set_lane item.priority (lane item.priority ls ++ item ∷ []) ls

-- The order of `(due, seq, item)` on a heap, where no two sequence numbers are equal.
unfoldable pub is_before : Delayed → Delayed → Bool
is_before a b = if ltb a.due b.due then true else a.due == b.due && ltb a.seq b.seq

-- `heapq.heappush`
unfoldable pub heap_push : Delayed → List Delayed → List Delayed
unfolding is_before
heap_push e [] = e ∷ []
heap_push e (d ∷ ds) = let rest = heap_push e ds in if is_before e d then e ∷ d ∷ ds else d ∷ rest

-- The loop of `_promote_due`.
unfoldable pub promote : ℕ → List Delayed → Lanes → List Delayed × Lanes
promote now [] ls = ([], ls)
promote now (d ∷ ds) ls =
    let rest = promote now ds (append_item d.item ls) in
    if leb d.due now then rest else (d ∷ ds, ls)

-- `_promote_due`
unfoldable pub promote_due : ℕ → Queue → Queue
promote_due now q =
    let (delayed, lanes) = promote now q.delayed q.lanes in
    record q { delayed = delayed; lanes = lanes }

abbrev pub after : Option ℕ → ℕ → Bool
after none now = false
after (some t) now = not (t == 0) && ltb now t

abbrev pub due_of : Option ℕ → ℕ
due_of none = 0
due_of (some t) = t

-- `enqueue(item, not_before=…)` at instant `now`.
unfoldable pub enqueue : ℕ → RunnableItem → Option ℕ → Queue → Queue
enqueue now item not_before q =
    if after not_before now
    then record q {
      delayed =
          heap_push (record { due = due_of not_before; seq = q.next_seq; item = item }) q.delayed;
      next_seq = q.next_seq + 1;
    }
    else record q { lanes = append_item item q.lanes }

-- What the loops of `claim` change.
pub record Taking : Type 0 where
  pub out : List RunnableItem
  pub queue : Queue

abbrev pub with_handle : ℕ → RunnableItem → RunnableItem
with_handle h item = record item { handle = some h }

-- The inner loop of `claim`, over the items of a lane, with `room` more items to take.
unfoldable pub take_items : ℕ → ℕ → List RunnableItem → List RunnableItem × List RunnableItem × ℕ
take_items room seq [] = ([], [], seq)
take_items zero seq (x ∷ xs) = ([], x ∷ xs, seq)
take_items (suc room) seq (x ∷ xs) =
    let (out, rest, seq') = take_items room (seq + 1) xs in (with_handle seq x ∷ out, rest, seq')

unfoldable pub fly : List RunnableItem → List (ℕ × RunnableItem) → List (ℕ × RunnableItem)
fly [] inflight = inflight
fly (x ∷ xs) inflight = elim x.handle [
  | none ↦ fly xs inflight
  | some h ↦ fly xs ((h, x) ∷ inflight)
]

-- One turn of the outer loop.
unfoldable pub claim_lane : ℕ → Lane → Taking → Taking
claim_lane count p t =
    let (out, rest, seq) =
      take_items (count - length t.out) t.queue.next_seq (lane p t.queue.lanes) in
    record {
      out = t.out ++ out;
      queue = record t.queue {
        lanes = set_lane p rest t.queue.lanes;
        inflight = fly out t.queue.inflight;
        next_seq = seq;
      };
    }

unfoldable pub claim_lanes : ℕ → List Lane → Taking → Taking
unfolding claim_lane
claim_lanes count [] t = t
claim_lanes count (p ∷ ps) t = claim_lanes count ps (claim_lane count p t)

-- `order`
unfoldable pub lane_order : ℕ → List Lane
lane_order guard = if guard == 0 then p2 ∷ p1 ∷ p0 ∷ [] else p0 ∷ p1 ∷ p2 ∷ []

-- `claim(count=…)`
unfoldable pub claim : ℕ → ℕ → Queue → Queue × List RunnableItem
unfolding lane_order
claim now count q =
    let q' = promote_due now q in
    let guard = (q'.starve_guard + 1) % 5 in
    let t =
      claim_lanes count (lane_order guard)
        (record { out = []; queue = record q' { starve_guard = guard } }) in
    (t.queue, t.out)

unfoldable pub drop_handle : ℕ → List (ℕ × RunnableItem) → List (ℕ × RunnableItem)
drop_handle h [] = []
drop_handle h ((k, x) ∷ xs) = let rest = drop_handle h xs in if k == h then xs else (k, x) ∷ rest

-- `self._inflight.pop(item.handle, None)`
unfoldable pub land : RunnableItem → List (ℕ × RunnableItem) → List (ℕ × RunnableItem)
land item inflight = elim item.handle [ none ↦ inflight | some h ↦ drop_handle h inflight ]

unfoldable pub ack : RunnableItem → Queue → Queue
ack item q = record q { inflight = land item q.inflight }

-- `now + backoff_s if backoff_s else None`
abbrev pub delay_of : ℕ → ℕ → Option ℕ
delay_of now backoff = if backoff == 0 then none else some (now + backoff)

-- `nack(item, backoff_s=…)`, where both readings of the clock give `now`.
unfoldable pub nack : ℕ → RunnableItem → ℕ → Queue → Queue
nack now item backoff q =
    enqueue now (record item { attempt = item.attempt + 1; handle = none }) (delay_of now backoff)
      (ack item q)

-- `depth`
unfoldable pub depth : Queue → ℕ
depth q = length q.lanes.first + length q.lanes.middle + length q.lanes.last + length q.delayed
