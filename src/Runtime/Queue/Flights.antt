-- ===== src/Runtime/Queue/Flights.antt =====
-- What an ack and a nack do to what waits and to what is in flight (src/runtime/queue.py).
use helios_os.Prelude.{
  ℕ, ◌+◌, String, ◌≡◌, refl, ap, ◌∙◌, Option, none, arith, Bool-cases, inl, inr,
}
use helios_os.Runtime.Queue.{RunnableItem, Queue, enqueue, land, ack, nack, after, delay_of}
use helios_os.Runtime.Queue.Items.{
  is_of, in_lanes, in_delay, in_flight, total, IsFlying, drop_handle-found, total-nack,
}

-- How many wait, in the lanes or for their time.
unfoldable pub waiting : String → Queue → ℕ
waiting c q = in_lanes c q.lanes + in_delay c q.delayed

module _ (c : String) where
  in_flight-ack :
      (x : RunnableItem) (q : Queue)
      → IsFlying x q
      → in_flight c (ack x q).inflight + is_of c x ≡ in_flight c q.inflight
  unfolding ack land
  in_flight-ack x q (h, e, f) = rw (e, land) (drop_handle-found c h x q.inflight f)

  enqueue-inflight :
      (now : ℕ) (x : RunnableItem) (not_before : Option ℕ) (q : Queue)
      → (enqueue now x not_before q).inflight ≡ q.inflight
  unfolding enqueue
  enqueue-inflight now x not_before q = elim (Bool-cases (after not_before now)) [
    | inl h ↦ rw (h, enqueue) refl
    | inr h ↦ rw (h, enqueue) refl
  ]

  -- An item that is acked is in flight no more, and nothing is put in the lanes for it.
  pub ack_settles :
      (x : RunnableItem) (q : Queue)
      → IsFlying x q
      → (waiting c (ack x q) ≡ waiting c q)
        × (in_flight c (ack x q).inflight + is_of c x ≡ in_flight c q.inflight)
  unfolding waiting
  ack_settles x q f = (unfold ack in refl, in_flight-ack x q f)

  -- An item that is nacked is in flight no more and waits.
  pub nack_settles :
      (now : ℕ) (x : RunnableItem) (backoff : ℕ) (q : Queue)
      → IsFlying x q
      → (waiting c (nack now x backoff q) ≡ waiting c q + is_of c x)
        × (in_flight c (nack now x backoff q).inflight + is_of c x ≡ in_flight c q.inflight)
  unfolding waiting nack total
  nack_settles now x backoff q f =
      let again = record x { attempt = x.attempt + 1; handle = none } in
      let stays = enqueue-inflight now again (delay_of now backoff) (ack x q) in
      let lands = in_flight-ack x q f in
      (
        omega (arith, total-nack c now x backoff q f, ap (in_flight c) stays, lands),
        ap (λ xs. in_flight c xs + is_of c x) stays ∙ lands,
      )
