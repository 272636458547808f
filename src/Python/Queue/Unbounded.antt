-- ===== src/Python/Queue/Unbounded.antt =====
-- `UnboundedQueue` of crates/taunicorn-python/src/channel.rs: one definition per method. Its channel
-- has room for every item.
use taunicorn.Prelude.{Bool, true, false, if◌then◌else◌}
use taunicorn.Python.Exceptions.{queue_busy}
use taunicorn.Python.Queue.{
  Got, nothing, flag, raised, looking, unwatched, Woken, shut_down, answered, Task, ret, look,
  cancel, push, try_lock, lock, unlock, close_receiver, await_recv,
}
use taunicorn.Python.Queue.Bounded.{closed_error, after_recv, if_closed, received_now}

module _ {A : Type 0} where
  -- `tx.send(item).map_err(|_| closed_error())`
  unfoldable pub after_push : Bool → Task A
  unfolding closed_error
  after_push true = ret nothing
  after_push false = ret closed_error

  unfoldable pub send : A → Task A
  unfolding after_push closed_error
  send a = look (λ shut. if shut then ret closed_error else push a after_push)

  unfoldable pub woken_recv : Woken (Got A) → Task A
  unfolding after_recv
  woken_recv shut_down = close_receiver (await_recv unwatched after_recv)
  woken_recv (answered g) = after_recv (answered g)

  unfoldable pub recv : Task A
  unfolding woken_recv
  recv = lock (await_recv looking woken_recv)

  unfoldable pub is_closed : Task A
  unfolding if_closed
  is_closed = if_closed (λ closed. ret (flag closed))

  unfoldable pub try_send : A → Task A
  unfolding if_closed after_push closed_error
  try_send a = if_closed (λ closed. if closed then ret closed_error else push a after_push)

  unfoldable pub try_recv : Task A
  unfolding received_now
  try_recv = try_lock (λ locked.
      if locked
      then look (λ shut. if shut then close_receiver received_now else received_now)
      else ret (raised queue_busy))

  unfoldable pub close : Task A
  close =
      cancel
        (try_lock (λ locked. if locked then close_receiver (unlock (ret nothing)) else ret nothing))
