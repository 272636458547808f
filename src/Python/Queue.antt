-- ===== src/Python/Queue.antt =====
-- The queues of crates/taunicorn-python/src/channel.rs. A call of a queue is a tree of the steps that
-- other calls can come between: one access to the cancellation token, to the receiver's mutex or to
-- the channel at a time. The channel itself is tokio's, a parameter.
pub mod Bounded
pub mod Unbounded
pub mod Calls
pub mod System
pub mod Fifo
pub mod Rules
pub mod Steps
pub mod Promises
pub mod Runs
pub mod Closing
pub mod Draining
use taunicorn.Prelude.{ℕ, ◌≡◌, Bool, List}
use taunicorn.Python.Exceptions.{Exception}

-- How the channel answers a send: the item is in, there is no room (an awaited send stays pending),
-- or the receiver has closed the channel.
pub data Put : Type 0 where
  accepted no_room disconnected : Put

-- How it answers a receive: an item, none yet (an awaited receive stays pending), or none any more.
pub data Got (A : Type 0) : Type 0 where
  received : A → Got A
  nothing_yet finished : Got A

-- tokio's channel: its sender's and its receiver's operations. A pending send is known by a number.
pub record Channel (A : Type 0) : Type 1 where
  pub State : Type 0
  pub try_send : A → State → State × Put
  -- The send of a channel without a bound: false if the receiver has closed it.
  pub push : A → State → State × Bool
  pub poll_send : ℕ → A → State → State × Put
  pub drop_send : ℕ → State → State
  pub try_recv : State → State × Got A
  pub poll_recv : State → State × Got A
  pub close : State → State
  pub is_closed : State → Bool

-- What a call gives to Python. `dropped` is no value: the future was dropped at an await.
pub data Reply (A : Type 0) : Type 0 where
  nothing : Reply A
  item : A → Reply A
  flag : Bool → Reply A
  raised : Exception → Reply A
  dropped : Reply A

-- A poll of `select! { biased; _ = shutdown.cancelled(), … }` first looks at the token and then polls
-- the channel; `unwatched` is an await of the channel alone.
pub data Stage : Type 0 where
  looking polling unwatched : Stage

-- The answer of an await: of the token's branch or of the channel's.
pub data Woken (X : Type 0) : Type 0 where
  shut_down : Woken X
  answered : X → Woken X

pub data Task (A : Type 0) : Type 0 where
  ret : Reply A → Task A
  -- `shutdown.is_cancelled()` and `shutdown.cancel()`
  look : (Bool → Task A) → Task A
  cancel : Task A → Task A
  -- `tx.is_closed()`, `tx.try_send(item)`, `tx.send(item)` of a channel without a bound
  sender_closed : (Bool → Task A) → Task A
  try_send : A → (Put → Task A) → Task A
  push : A → (Bool → Task A) → Task A
  -- `rx.try_lock()`, `rx.lock().await`, and the drop of the guard
  try_lock : (Bool → Task A) → Task A
  lock : Task A → Task A
  unlock : Task A → Task A
  -- `rx.close()`, `rx.try_recv()`
  close_receiver : Task A → Task A
  try_recv : (Got A → Task A) → Task A
  -- `tx.send(item)` and `rx.recv()` in an await
  await_send : Stage → A → (Woken Put → Task A) → Task A
  await_recv : Stage → (Woken (Got A) → Task A) → Task A
