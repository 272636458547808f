-- ===== src/Python/Queue/Rules.antt =====
-- Rules about a call of a queue (crates/taunicorn-python/src/channel.rs) that hold whatever the
-- other calls do between its steps.
use taunicorn.Prelude.{◌≡◌, Bool, true, false, Option, none, some, List, [], ◌∷◌, ◌++◌}
use taunicorn.Python.Queue.{
  accepted, no_room, disconnected, received, nothing_yet, finished, Channel, Reply, dropped,
  looking, polling, unwatched, shut_down, answered, Task, ret, look, cancel, sender_closed,
  try_send, push, try_lock, lock, unlock, close_receiver, try_recv, await_send, await_recv,
}
use taunicorn.Python.Queue.System
use taunicorn.Python.Queue.System.{
  Event, put, take, put_event, pushed, take_event, Queue, advance, abandoned,
}
use taunicorn.Python.Queue.Fifo.{ChannelLaws}

module _ {A : Type 0} (w : Bool → Reply A → List (Event A) → Type 0) where
  -- However the call's steps are answered, it ends with a reply that `w` admits for what the call
  -- has put in and taken out. The Boolean says that the call knows the token to be cancelled; only
  -- then may it close the receiver.
  abbrev pub Obeys : Bool → List (Event A) → Task A → Type 0
  Obeys known log (ret r) = w known r log
  Obeys known log (look k) = Obeys true log (k true) × (known ≡ false → Obeys false log (k false))
  Obeys known log (cancel t) = Obeys true log t
  Obeys known log (sender_closed k) = Obeys true log (k true) × Obeys known log (k false)
  Obeys known log (try_send a k) =
      Obeys known (log ++ put a ∷ []) (k accepted)
      × Obeys known log (k no_room)
      × Obeys true log (k disconnected)
  Obeys known log (push a k) = Obeys known (log ++ put a ∷ []) (k true) × Obeys true log (k false)
  Obeys known log (try_lock k) = Obeys known log (k true) × Obeys known log (k false)
  Obeys known log (lock t) = w known dropped log × Obeys known log t
  Obeys known log (unlock t) = Obeys known log t
  Obeys known log (close_receiver t) = (known ≡ true) × Obeys known log t
  Obeys known log (try_recv k) =
      ((a : A) → Obeys known (log ++ take a ∷ []) (k (received a)))
      × Obeys known log (k nothing_yet)
      × Obeys true log (k finished)
  Obeys known log (await_send looking a k) =
      w known dropped log
      × Obeys true log (k shut_down)
      × (known ≡ false
          → Obeys false (log ++ put a ∷ []) (k (answered accepted))
            × Obeys true log (k (answered disconnected)))
  Obeys known log (await_send polling a k) =
      w false dropped log
      × Obeys true log (k shut_down)
      × (known ≡ false)
      × Obeys false (log ++ put a ∷ []) (k (answered accepted))
      × Obeys true log (k (answered disconnected))
  Obeys known log (await_send unwatched a k) = ⊥
  Obeys known log (await_recv looking k) =
      w known dropped log
      × Obeys true log (k shut_down)
      × (known ≡ false
          → ((a : A) → Obeys false (log ++ take a ∷ []) (k (answered (received a))))
            × Obeys true log (k (answered finished)))
  Obeys known log (await_recv polling k) =
      w false dropped log
      × Obeys true log (k shut_down)
      × (known ≡ false)
      × ((a : A) → Obeys false (log ++ take a ∷ []) (k (answered (received a))))
      × Obeys true log (k (answered finished))
  Obeys known log (await_recv unwatched k) =
      w known dropped log
      × ((a : A) → Obeys known (log ++ take a ∷ []) (k (answered (received a))))
      × Obeys true log (k (answered finished))

  abbrev pub extended : List (Event A) → Option (Event A) → List (Event A)
  extended log none = log
  extended log (some e) = log ++ e ∷ []

  module _ {c : Channel A} (l : ChannelLaws c) where
    -- A receiver is closed only when the token is cancelled.
    abbrev pub Cancelled : Queue c → Type 0
    Cancelled q = c.is_closed q.channel ≡ true → q.shutdown ≡ true

    -- The call goes on by its rules, and no token is taken back.
    pub record Goes (log : List (Event A)) (q : Queue c) (r : System.After c) : Type 0 where
      pub knows : Bool
      pub rightly : knows ≡ true → r.queue.shutdown ≡ true
      pub obeys : Obeys knows (extended log r.event) r.task
      pub only : Cancelled r.queue
      pub forever : q.shutdown ≡ true → r.queue.shutdown ≡ true
