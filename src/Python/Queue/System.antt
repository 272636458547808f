-- ===== src/Python/Queue/System.antt =====
-- Any number of calls on one queue of crates/taunicorn-python/src/channel.rs, interleaved step by
-- step: a schedule says which call makes its next step, and which future is dropped.
use taunicorn.Prelude.{
  ℕ, Bool, true, false, not, Option, none, some, List, [], ◌∷◌, ◌++◌, ◌==◌, if◌then◌else◌,
}
use taunicorn.Python.Queue.{
  Put, accepted, no_room, disconnected, Got, received, nothing_yet, finished, Channel, dropped,
  looking, polling, unwatched, Woken, shut_down, answered, Task, ret, look, cancel, sender_closed,
  try_send, push, try_lock, lock, unlock, close_receiver, try_recv, await_send, await_recv,
}

-- What a step did to the items: one was put in, or taken out.
pub data Event (A : Type 0) : Type 0 where
  put take : A → Event A

abbrev pub put_event : {A : Type 0} → A → Put → Option (Event A)
put_event a accepted = some (put a)
put_event a no_room = none
put_event a disconnected = none

abbrev pub pushed : Bool → Put
pushed true = accepted
pushed false = disconnected

abbrev pub take_event : {A : Type 0} → Got A → Option (Event A)
take_event (received a) = some (take a)
take_event nothing_yet = none
take_event finished = none

pub data Move : Type 0 where
  step abandon : ℕ → Move

module _ {A : Type 0} (c : Channel A) where
  -- The fields `tx` and `rx`, `shutdown`, and whether the receiver's mutex is locked.
  pub record Queue : Type 0 where
    pub channel : c.State
    pub shutdown : Bool
    pub locked : Bool

  pub record After : Type 0 where
    pub queue : Queue
    pub task : Task A
    pub event : Option (Event A)

  abbrev pub silent : Queue → Task A → After
  silent q t = record { queue = q; task = t; event = none }

  abbrev pub on_channel : Queue → c.State → Queue
  on_channel q s = record q { channel = s }

  -- The end of a poll of the channel.
  abbrev pub polled_send : A → (Woken Put → Task A) → Put → Task A
  polled_send a k no_room = await_send looking a k
  polled_send a k accepted = k (answered accepted)
  polled_send a k disconnected = k (answered disconnected)

  abbrev pub polled_recv : Bool → (Woken (Got A) → Task A) → Got A → Task A
  polled_recv watched k nothing_yet = await_recv (if watched then looking else unwatched) k
  polled_recv watched k (received a) = k (answered (received a))
  polled_recv watched k finished = k (answered finished)

  abbrev pub receive_poll : Bool → (Woken (Got A) → Task A) → Queue → After
  receive_poll watched k q =
      let r = c.poll_recv q.channel in
      record { queue = on_channel q r.0; task = polled_recv watched k r.1; event = take_event r.1 }

  -- One step of the call with number `i`; a call that has ended, or waits for the mutex, stays.
  unfoldable pub advance : ℕ → Task A → Queue → After
  advance i (ret r) q = silent q (ret r)
  advance i (look k) q = silent q (k q.shutdown)
  advance i (cancel t) q = silent (record q { shutdown = true }) t
  advance i (sender_closed k) q = silent q (k (c.is_closed q.channel))
  advance i (try_send a k) q =
      let r = c.try_send a q.channel in
      record { queue = on_channel q r.0; task = k r.1; event = put_event a r.1 }
  advance i (push a k) q =
      let r = c.push a q.channel in
      record { queue = on_channel q r.0; task = k r.1; event = put_event a (pushed r.1) }
  advance i (try_lock k) q = silent (record q { locked = true }) (k (not q.locked))
  advance i (lock t) q = silent (record q { locked = true }) (if q.locked then lock t else t)
  advance i (unlock t) q = silent (record q { locked = false }) t
  advance i (close_receiver t) q = silent (on_channel q (c.close q.channel)) t
  advance i (try_recv k) q =
      let r = c.try_recv q.channel in
      record { queue = on_channel q r.0; task = k r.1; event = take_event r.1 }
  advance i (await_send looking a k) q =
      if q.shutdown
      then silent (on_channel q (c.drop_send i q.channel)) (k shut_down)
      else silent q (await_send polling a k)
  advance i (await_send polling a k) q =
      let r = c.poll_send i a q.channel in
      record { queue = on_channel q r.0; task = polled_send a k r.1; event = put_event a r.1 }
  advance i (await_send unwatched a k) q =
      let r = c.poll_send i a q.channel in
      record { queue = on_channel q r.0; task = polled_send a k r.1; event = put_event a r.1 }
  advance i (await_recv looking k) q =
      if q.shutdown then silent q (k shut_down) else silent q (await_recv polling k)
  advance i (await_recv polling k) q = receive_poll true k q
  advance i (await_recv unwatched k) q = receive_poll false k q

  -- A future that is dropped at an await: a pending send is withdrawn, a guard is dropped.
  unfoldable pub abandoned : ℕ → Task A → Queue → After
  abandoned i (lock t) q = silent q (ret dropped)
  abandoned i (await_send p a k) q = silent (on_channel q (c.drop_send i q.channel)) (ret dropped)
  abandoned i (await_recv p k) q = silent (record q { locked = false }) (ret dropped)
  abandoned i (ret r) q = silent q (ret r)
  abandoned i (look k) q = silent q (look k)
  abandoned i (cancel t) q = silent q (cancel t)
  abandoned i (sender_closed k) q = silent q (sender_closed k)
  abandoned i (try_send a k) q = silent q (try_send a k)
  abandoned i (push a k) q = silent q (push a k)
  abandoned i (try_lock k) q = silent q (try_lock k)
  abandoned i (unlock t) q = silent q (unlock t)
  abandoned i (close_receiver t) q = silent q (close_receiver t)
  abandoned i (try_recv k) q = silent q (try_recv k)

  pub record System : Type 0 where
    pub queue : Queue
    pub tasks : ℕ → Task A
    -- All events so far, each with the call that caused it.
    pub history : List (ℕ × Event A)

  abbrev pub logged : ℕ → Option (Event A) → List (ℕ × Event A) → List (ℕ × Event A)
  logged i none h = h
  logged i (some e) h = h ++ (i, e) ∷ []

  abbrev pub settle : ℕ → After → System → System
  settle i r s = record {
    queue = r.queue;
    tasks = λ j. if i == j then r.task else s.tasks j;
    history = logged i r.event s.history;
  }

  unfoldable pub move : Move → System → System
  move (step i) s = settle i (advance i (s.tasks i) s.queue) s
  move (abandon i) s = settle i (abandoned i (s.tasks i) s.queue) s

  unfoldable pub run : List Move → System → System
  run [] s = s
  run (m ∷ ms) s = run ms (move m s)
