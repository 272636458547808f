-- ===== src/Tests/Queues.antt =====
-- The queues of crates/taunicorn-python/src/channel.rs over a channel that is a list.
use taunicorn.Prelude.{
  ℕ, zero, suc, ◌≡◌, ◌≢◌, refl, Bool, true, false, List, [], ◌∷◌, ◌++◌, length, ltb, if◌then◌else◌,
}
use taunicorn.Python.Queue.{
  Channel, Put, accepted, no_room, disconnected, Got, received, nothing_yet, finished, nothing,
  raised, ret,
}
use taunicorn.Python.Exceptions.{queue_closed}
use taunicorn.Python.Queue.Bounded
use taunicorn.Python.Queue.Calls.{bounded, Call, send, try_send, recv, close, perform}
use taunicorn.Python.Queue.System.{Move, step, advance, move, run, pushed}
use taunicorn.Python.Queue.Fifo.{ChannelLaws, Puts, Takes, Fifo}
use taunicorn.Python.Queue.Promises.{begin, reached, calls-Fifo, Post}
use taunicorn.Python.Queue.Runs.{own}
use taunicorn.Python.Queue.Closing.{closed-Refuses, Refuses}
use taunicorn.Python.Queue.Draining.{alone, receives, replies, close_then_drain}

record Items : Type 0 where
  buffer : List ℕ
  shut : Bool
  limit : ℕ

abbrev put_in : ℕ → Items → Items × Put
put_in a s =
    if s.shut
    then (s, disconnected)
    else if ltb (length s.buffer) s.limit
    then (record s { buffer = s.buffer ++ a ∷ [] }, accepted)
    else (s, no_room)

abbrev push_in : ℕ → Items → Items × Bool
push_in a s = if s.shut then (s, false) else (record s { buffer = s.buffer ++ a ∷ [] }, true)

abbrev take_first : List ℕ → Items → Items × Got ℕ
take_first [] s = (s, if s.shut then finished else nothing_yet)
take_first (a ∷ xs) s = (record s { buffer = xs }, received a)

abbrev take_out : Items → Items × Got ℕ
take_out s = take_first s.buffer s

abbrev list_channel : Channel ℕ
list_channel = record {
  State = Items;
  try_send = put_in;
  push = push_in;
  poll_send = λ i. put_in;
  drop_send = λ i s. s;
  try_recv = take_out;
  poll_recv = take_out;
  close = λ s. record s { shut = true };
  is_closed = λ s. s.shut;
}

abbrev made : List ℕ → Bool → ℕ → Items
made xs b n = record { buffer = xs; shut = b; limit = n }

-- The laws, for a state that is written out.
put_items :
    (a : ℕ) (xs : List ℕ) (b : Bool) (n : ℕ)
    → let r = put_in a (made xs b n) in
      Puts xs a r.0.buffer r.1 × (r.0.shut ≡ b) × (r.1 ≡ disconnected → b ≡ true)
put_items a xs true n = (refl, refl, λ e. refl)
put_items a xs false n = at (ltb (length xs) n)
  where
    at :
        (d : Bool)
        → let r : Items × Put =
            if d then (made (xs ++ a ∷ []) false n, accepted) else (made xs false n, no_room) in
          Puts xs a r.0.buffer r.1 × (r.0.shut ≡ false) × (r.1 ≡ disconnected → false ≡ true)
    at true = (refl, refl, λ e. cc)
    at false = (refl, refl, λ e. cc)

push_items :
    (a : ℕ) (xs : List ℕ) (b : Bool) (n : ℕ)
    → let r = push_in a (made xs b n) in
      Puts xs a r.0.buffer (pushed r.1) × (r.0.shut ≡ b) × (r.1 ≡ false → b ≡ true)
push_items a xs true n = (refl, refl, λ e. refl)
push_items a xs false n = (refl, refl, λ e. cc)

take_items :
    (xs : List ℕ) (b : Bool) (n : ℕ)
    → let r = take_out (made xs b n) in
      Takes xs r.0.buffer r.1
      × (r.0.shut ≡ b)
      × (r.1 ≡ finished → b ≡ true)
      × (b ≡ true → r.1 ≢ nothing_yet)
take_items [] true n = ((refl, refl), refl, (λ e. refl), λ f e. cc)
take_items [] false n = ((refl, refl), refl, (λ e. cc), λ f e. cc)
take_items (x ∷ xs) b n = (refl, refl, (λ e. cc), λ f e. cc)

abbrev list_channel_laws : ChannelLaws list_channel
list_channel_laws = record {
  items = λ s. s.buffer;
  promised = λ s. 0;
  try_send_items = λ a s. (put_items a s.buffer s.shut s.limit).0;
  push_items = λ a s. (push_items a s.buffer s.shut s.limit).0;
  poll_send_items = λ i a s. (put_items a s.buffer s.shut s.limit).0;
  drop_send_items = λ i s. refl;
  try_recv_items = λ s. (take_items s.buffer s.shut s.limit).0;
  poll_recv_items = λ s. (take_items s.buffer s.shut s.limit).0;
  close_items = λ s. refl;
  close_promised = λ s. refl;
  try_send_closed = λ a s. (put_items a s.buffer s.shut s.limit).1;
  push_closed = λ a s. (push_items a s.buffer s.shut s.limit).1;
  poll_send_closed = λ i a s. (put_items a s.buffer s.shut s.limit).1;
  drop_send_closed = λ i s. refl;
  try_recv_closed = λ s. (take_items s.buffer s.shut s.limit).1;
  poll_recv_closed = λ s. (take_items s.buffer s.shut s.limit).1;
  close_closed = λ s. refl;
  try_send_open = λ a s. (put_items a s.buffer s.shut s.limit).2;
  push_open = λ a s. (push_items a s.buffer s.shut s.limit).2;
  poll_send_open = λ i a s. (put_items a s.buffer s.shut s.limit).2;
  try_recv_open = λ s. (take_items s.buffer s.shut s.limit).2;
  poll_recv_open = λ s. (take_items s.buffer s.shut s.limit).2;
  poll_recv_ends = λ s f p. (take_items s.buffer s.shut s.limit).3 f;
  poll_recv_promised = λ s f p. refl;
}

-- A queue for one item: a receive waits, two sends come, a third call closes the queue, and a send
-- comes too late.
abbrev some_calls : ℕ → Call ℕ
some_calls n = elim n [
  | zero ↦ recv
  | suc m ↦ elim m [
    | zero ↦ send 7
    | suc m' ↦ elim m' [ zero ↦ send 8 | suc m'' ↦ elim m'' [ zero ↦ close | _ ↦ try_send 9 ] ]
  ]
]

abbrev some_moves : List Move
some_moves =
    step 0
    ∷ step 0
    ∷ step 0
    ∷ step 1
    ∷ step 2
    ∷ step 1
    ∷ step 2
    ∷ step 0
    ∷ step 0
    ∷ step 0
    ∷ step 2
    ∷ step 2
    ∷ step 3
    ∷ step 3
    ∷ step 3
    ∷ step 3
    ∷ []

abbrev one_item : Items
one_item = made [] false 1

calls-Fifo_example :
    Fifo []
      (reached bounded some_calls list_channel_laws one_item refl some_moves).history
      (reached bounded some_calls list_channel_laws one_item refl some_moves).queue.channel.buffer
    × Post bounded
        (some_calls 2)
        (reached bounded some_calls list_channel_laws one_item refl some_moves).queue.shutdown
        nothing
        (own 2 (reached bounded some_calls list_channel_laws one_item refl some_moves).history)
unfolding run move advance begin perform Bounded.send Bounded.recv Bounded.close Bounded.after_recv
calls-Fifo_example =
    calls-Fifo bounded some_calls list_channel_laws one_item refl some_moves 2 nothing refl

-- Then the late send makes its steps.
closed-Refuses_example : Refuses {A = ℕ} true (raised queue_closed) (
    own 4
      (run list_channel
        (step 4 ∷ step 4 ∷ [])
        (reached bounded some_calls list_channel_laws one_item refl some_moves)).history)
unfolding run move advance begin perform Bounded.send Bounded.recv Bounded.close Bounded.after_recv
    Bounded.try_send
closed-Refuses_example =
    closed-Refuses bounded some_calls list_channel_laws one_item refl some_moves 4 refl refl refl
      refl (step 4 ∷ step 4 ∷ []) (raised queue_closed) refl

close_then_drain_example :
    let s = made (5 ∷ 6 ∷ []) false 2 in
    let q =
      (alone list_channel 3 4
        (perform bounded close)
        (record { channel = s; shutdown = false; locked = false })).1 in
    ((alone list_channel 3 4
        (perform bounded close)
        (record { channel = s; shutdown = false; locked = false })).0
      ≡ ret nothing)
    × (receives list_channel 3 bounded 3 q
        ≡ replies list_channel 3 list_channel_laws bounded (5 ∷ 6 ∷ []))
    × (alone list_channel 3 2
          (perform bounded close)
          (record { channel = s; shutdown = false; locked = true })
        ≡ (ret nothing, record { channel = s; shutdown = true; locked = true }))
close_then_drain_example =
    close_then_drain list_channel 3 list_channel_laws bounded (made (5 ∷ 6 ∷ []) false 2) false refl
