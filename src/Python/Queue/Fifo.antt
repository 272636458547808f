-- ===== src/Python/Queue/Fifo.antt =====
-- What tokio promises of a channel, and the order in which the queues of
-- crates/taunicorn-python/src/channel.rs hand on their items.
use taunicorn.Prelude.{
  ℕ, ◌≡◌, ◌≢◌, sym, subst, Bool, true, false, List, [], ◌∷◌, ◌++◌, if◌then◌else◌,
}
use taunicorn.Python.Queue.{
  Put, accepted, no_room, disconnected, Got, received, nothing_yet, finished, Channel, looking,
  polling, unwatched, Task, ret, look, cancel, sender_closed, try_send, push, try_lock, lock,
  unlock, close_receiver, try_recv, await_send, await_recv,
}
use taunicorn.Python.Queue.System
use taunicorn.Python.Queue.System.{
  Event, put, take, put_event, pushed, take_event, Move, step, abandon, Queue, System, advance,
  abandoned, move, run,
}

-- The buffer before and after a send, and a receive, by the answer.
abbrev pub Puts : {A : Type 0} → List A → A → List A → Put → Type 0
Puts old a new accepted = new ≡ old ++ a ∷ []
Puts old a new no_room = new ≡ old
Puts old a new disconnected = new ≡ old

abbrev pub Takes : {A : Type 0} → List A → List A → Got A → Type 0
Takes old new (received a) = old ≡ a ∷ new
Takes old new nothing_yet = (new ≡ old) × (old ≡ [])
Takes old new finished = (new ≡ old) × (old ≡ [])

-- tokio's channel, by its buffer, the room that pending sends have been promised, and whether the
-- receiver has closed it.
pub record ChannelLaws {A : Type 0} (c : Channel A) : Type 0 where
  pub items : c.State → List A
  pub promised : c.State → ℕ
  -- A send appends its item or leaves the buffer, a receive takes the first item.
  pub try_send_items :
      (a : A) (s : c.State) → Puts (items s) a (items (c.try_send a s).0) (c.try_send a s).1
  pub push_items :
      (a : A) (s : c.State) → Puts (items s) a (items (c.push a s).0) (pushed (c.push a s).1)
  pub poll_send_items :
      (i : ℕ) (a : A) (s : c.State)
      → Puts (items s) a (items (c.poll_send i a s).0) (c.poll_send i a s).1
  pub drop_send_items : (i : ℕ) (s : c.State) → items (c.drop_send i s) ≡ items s
  pub try_recv_items : (s : c.State) → Takes (items s) (items (c.try_recv s).0) (c.try_recv s).1
  pub poll_recv_items : (s : c.State) → Takes (items s) (items (c.poll_recv s).0) (c.poll_recv s).1
  pub close_items : (s : c.State) → items (c.close s) ≡ items s
  pub close_promised : (s : c.State) → promised (c.close s) ≡ promised s
  -- Only `close` closes, and for good.
  pub try_send_closed : (a : A) (s : c.State) → c.is_closed (c.try_send a s).0 ≡ c.is_closed s
  pub push_closed : (a : A) (s : c.State) → c.is_closed (c.push a s).0 ≡ c.is_closed s
  pub poll_send_closed :
      (i : ℕ) (a : A) (s : c.State) → c.is_closed (c.poll_send i a s).0 ≡ c.is_closed s
  pub drop_send_closed : (i : ℕ) (s : c.State) → c.is_closed (c.drop_send i s) ≡ c.is_closed s
  pub try_recv_closed : (s : c.State) → c.is_closed (c.try_recv s).0 ≡ c.is_closed s
  pub poll_recv_closed : (s : c.State) → c.is_closed (c.poll_recv s).0 ≡ c.is_closed s
  pub close_closed : (s : c.State) → c.is_closed (c.close s) ≡ true
  -- An open channel refuses nothing, and a closed one has an end: when its buffer is empty and no
  -- pending send has been promised room.
  pub try_send_open :
      (a : A) (s : c.State) → (c.try_send a s).1 ≡ disconnected → c.is_closed s ≡ true
  pub push_open : (a : A) (s : c.State) → (c.push a s).1 ≡ false → c.is_closed s ≡ true
  pub poll_send_open :
      (i : ℕ) (a : A) (s : c.State) → (c.poll_send i a s).1 ≡ disconnected → c.is_closed s ≡ true
  pub try_recv_open : (s : c.State) → (c.try_recv s).1 ≡ finished → c.is_closed s ≡ true
  pub poll_recv_open : (s : c.State) → (c.poll_recv s).1 ≡ finished → c.is_closed s ≡ true
  pub poll_recv_ends :
      (s : c.State) → c.is_closed s ≡ true → promised s ≡ 0 → (c.poll_recv s).1 ≢ nothing_yet
  pub poll_recv_promised :
      (s : c.State) → c.is_closed s ≡ true → promised s ≡ 0 → promised (c.poll_recv s).0 ≡ 0

-- The abstract queue: an item goes in at the back and comes out at the front.
pub data Fifo {A : Type 0} : List A → List (ℕ × Event A) → List A → Type 0 where
  unchanged : (items : List A) → Fifo items [] items
  enqueued :
      {old items : List A} {h : List (ℕ × Event A)} (i : ℕ) (a : A)
      → Fifo old h items
      → Fifo old (h ++ (i, put a) ∷ []) (items ++ a ∷ [])
  dequeued :
      {old items : List A} {h : List (ℕ × Event A)} (i : ℕ) (a : A) (rest : List A)
      → items ≡ a ∷ rest
      → Fifo old h items
      → Fifo old (h ++ (i, take a) ∷ []) rest

module _ {A : Type 0} {c : Channel A} (l : ChannelLaws c) (start : List A) where
  abbrev pub Ordered : List (ℕ × Event A) → c.State → Type 0
  Ordered h s = Fifo start h (l.items s)

  module _ (i : ℕ) (h : List (ℕ × Event A)) where
    same-Ordered : (s t : c.State) → l.items t ≡ l.items s → Ordered h s → Ordered h t
    same-Ordered s t e o = subst (λ x. Fifo start h x) (sym e) o

    put-Ordered :
        (a : A) (s t : c.State) (p : Put)
        → Puts (l.items s) a (l.items t) p
        → Ordered h s
        → Ordered (System.logged c i (put_event a p) h) t
    put-Ordered a s t accepted e o =
        subst (λ x. Fifo start (h ++ (i, put a) ∷ []) x) (sym e) (enqueued i a o)
    put-Ordered a s t no_room e o = same-Ordered s t e o
    put-Ordered a s t disconnected e o = same-Ordered s t e o

    take-Ordered :
        (s t : c.State) (g : Got A)
        → Takes (l.items s) (l.items t) g
        → Ordered h s
        → Ordered (System.logged c i (take_event g) h) t
    take-Ordered s t (received a) e o = dequeued i a (l.items t) e o
    take-Ordered s t nothing_yet e o = same-Ordered s t e.0 o
    take-Ordered s t finished e o = same-Ordered s t e.0 o

    -- What a step leaves, whatever it then goes on with.
    abbrev Kept : System.After c → Type 0
    Kept r = Ordered (System.logged c i r.event h) r.queue.channel

    if-Kept : (b : Bool) (x y : System.After c) → Kept x → Kept y → Kept (if b then x else y)
    if-Kept true x y p q = p
    if-Kept false x y p q = q

    advance-Ordered : (t : Task A) (q : Queue c) → Ordered h q.channel → Kept (advance c i t q)
    unfolding advance
    advance-Ordered (ret r) q o = o
    advance-Ordered (look k) q o = o
    advance-Ordered (cancel t) q o = o
    advance-Ordered (sender_closed k) q o = o
    advance-Ordered (try_send a k) q o =
        let r = c.try_send a q.channel in
        put-Ordered a q.channel r.0 r.1 (l.try_send_items a q.channel) o
    advance-Ordered (push a k) q o =
        let r = c.push a q.channel in
        put-Ordered a q.channel r.0 (pushed r.1) (l.push_items a q.channel) o
    advance-Ordered (try_lock k) q o = o
    advance-Ordered (lock t) q o = o
    advance-Ordered (unlock t) q o = o
    advance-Ordered (close_receiver t) q o =
        same-Ordered q.channel (c.close q.channel) (l.close_items q.channel) o
    advance-Ordered (try_recv k) q o =
        let r = c.try_recv q.channel in
        take-Ordered q.channel r.0 r.1 (l.try_recv_items q.channel) o
    advance-Ordered (await_send looking a k) q o =
        if-Kept q.shutdown _ _
          (same-Ordered q.channel (c.drop_send i q.channel) (l.drop_send_items i q.channel) o) o
    advance-Ordered (await_send polling a k) q o =
        let r = c.poll_send i a q.channel in
        put-Ordered a q.channel r.0 r.1 (l.poll_send_items i a q.channel) o
    advance-Ordered (await_send unwatched a k) q o =
        let r = c.poll_send i a q.channel in
        put-Ordered a q.channel r.0 r.1 (l.poll_send_items i a q.channel) o
    advance-Ordered (await_recv looking k) q o = if-Kept q.shutdown _ _ o o
    advance-Ordered (await_recv polling k) q o =
        let r = c.poll_recv q.channel in
        take-Ordered q.channel r.0 r.1 (l.poll_recv_items q.channel) o
    advance-Ordered (await_recv unwatched k) q o =
        let r = c.poll_recv q.channel in
        take-Ordered q.channel r.0 r.1 (l.poll_recv_items q.channel) o

    abandoned-Ordered : (t : Task A) (q : Queue c) → Ordered h q.channel → Kept (abandoned c i t q)
    unfolding abandoned
    abandoned-Ordered (ret r) q o = o
    abandoned-Ordered (look k) q o = o
    abandoned-Ordered (cancel t) q o = o
    abandoned-Ordered (sender_closed k) q o = o
    abandoned-Ordered (try_send a k) q o = o
    abandoned-Ordered (push a k) q o = o
    abandoned-Ordered (try_lock k) q o = o
    abandoned-Ordered (lock t) q o = o
    abandoned-Ordered (unlock t) q o = o
    abandoned-Ordered (close_receiver t) q o = o
    abandoned-Ordered (try_recv k) q o = o
    abandoned-Ordered (await_send p a k) q o =
        same-Ordered q.channel (c.drop_send i q.channel) (l.drop_send_items i q.channel) o
    abandoned-Ordered (await_recv p k) q o = o

  pub run-Fifo :
      (ms : List Move) (s : System c)
      → Ordered s.history s.queue.channel
      → Ordered (run c ms s).history (run c ms s).queue.channel
  unfolding run move
  run-Fifo [] s o = o
  run-Fifo (step i ∷ ms) s o =
      run-Fifo ms (move c (step i) s) (advance-Ordered i s.history (s.tasks i) s.queue o)
  run-Fifo (abandon i ∷ ms) s o =
      run-Fifo ms (move c (abandon i) s) (abandoned-Ordered i s.history (s.tasks i) s.queue o)
