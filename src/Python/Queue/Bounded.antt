-- ===== src/Python/Queue/Bounded.antt =====
-- `BoundedQueue` of crates/taunicorn-python/src/channel.rs: one definition per method.
use taunicorn.Prelude.{ℕ, Bool, true, ◌||◌, ◌⊎◌, inl, inr, ◌==◌, ltb, if◌then◌else◌}
use taunicorn.Python.Exceptions.{
  Exception, queue_closed, queue_full, queue_empty, queue_busy, value_error,
}
use taunicorn.Python.Queue.{
  Put, accepted, no_room, disconnected, Got, received, nothing_yet, finished, Reply, nothing, item,
  flag, raised, looking, unwatched, Woken, shut_down, answered, Task, ret, look, cancel,
  sender_closed, try_send as channel_try_send, try_lock, lock, unlock, close_receiver,
  try_recv as channel_try_recv, await_send, await_recv,
}

unfoldable pub closed_error : {A : Type 0} → Reply A
closed_error = raised queue_closed

unfoldable pub recv_error : {A : Type 0} → Got A → Reply A
unfolding closed_error
recv_error (received a) = item a
recv_error nothing_yet = raised queue_empty
recv_error finished = closed_error

-- The test of the constructor, `max_permits` being tokio's `Semaphore::MAX_PERMITS`: an error, or a
-- capacity for tokio's channel.
unfoldable pub new : ℕ → ℕ → Exception ⊎ ℕ
new max_permits capacity =
    if capacity == 0 || ltb max_permits capacity then inl value_error else inr capacity

module _ {A : Type 0} where
  -- `tx.send(item)` fails only for a channel that is closed.
  unfoldable pub after_send : Woken Put → Task A
  unfolding closed_error
  after_send shut_down = ret closed_error
  after_send (answered accepted) = ret nothing
  after_send (answered no_room) = ret closed_error
  after_send (answered disconnected) = ret closed_error

  unfoldable pub send : A → Task A
  unfolding after_send
  send a = await_send looking a after_send

  -- `item.ok_or_else(closed_error)`, and the drop of the guard.
  unfoldable pub after_recv : Woken (Got A) → Task A
  unfolding closed_error
  after_recv (answered (received a)) = unlock (ret (item a))
  after_recv (answered nothing_yet) = unlock (ret closed_error)
  after_recv (answered finished) = unlock (ret closed_error)
  after_recv shut_down = unlock (ret closed_error)

  -- The branches of the `select!` of `recv`.
  unfoldable pub woken_recv : Woken (Got A) → Task A
  unfolding after_recv
  woken_recv shut_down = close_receiver (await_recv unwatched after_recv)
  woken_recv (answered g) = after_recv (answered g)

  unfoldable pub recv : Task A
  unfolding woken_recv
  recv = lock (await_recv looking woken_recv)

  unfoldable pub after_try_send : Put → Task A
  unfolding closed_error
  after_try_send accepted = ret nothing
  after_try_send no_room = ret (raised queue_full)
  after_try_send disconnected = ret closed_error

  -- `shutdown.is_cancelled() || tx.is_closed()`, for the code that goes on with the answer.
  unfoldable pub if_closed : (Bool → Task A) → Task A
  if_closed go = look (λ shut. if shut then go true else sender_closed go)

  unfoldable pub is_closed : Task A
  unfolding if_closed
  is_closed = if_closed (λ closed. ret (flag closed))

  unfoldable pub try_send : A → Task A
  unfolding if_closed after_try_send closed_error
  try_send a =
      if_closed (λ closed. if closed then ret closed_error else channel_try_send a after_try_send)

  unfoldable pub received_now : Task A
  unfolding recv_error
  received_now = channel_try_recv (λ g. unlock (ret (recv_error g)))

  unfoldable pub try_recv : Task A
  unfolding received_now
  try_recv = try_lock (λ locked.
      if locked
      then look (λ shut. if shut then close_receiver received_now else received_now)
      else ret (raised queue_busy))

  unfoldable pub close : Task A
  close =
      cancel
        (try_lock (λ locked. if locked then close_receiver (unlock (ret nothing)) else ret nothing))
