-- ===== src/Python/Queue/Draining.antt =====
-- How a queue of crates/taunicorn-python/src/channel.rs is emptied after it was closed.
use taunicorn.Prelude.{
  ℕ, zero, suc, ◌≡◌, ◌≢◌, refl, sym, ◌∙◌, ap, subst, Bool, true, false, List, [], ◌∷◌, length,
}
use taunicorn.Python.Exceptions.{queue_closed}
use taunicorn.Python.Queue.{
  Channel, Got, received, nothing_yet, finished, Task, Reply, nothing, item, raised, ret,
}
use taunicorn.Python.Queue.Bounded
use taunicorn.Python.Queue.Unbounded
use taunicorn.Python.Queue.Calls.{Kind, bounded, unbounded, recv, close, perform}
use taunicorn.Python.Queue.System.{Queue, advance}
use taunicorn.Python.Queue.System
use taunicorn.Python.Queue.Fifo.{ChannelLaws, Takes}

module _ {A : Type 0} (c : Channel A) (i : ℕ) where
  -- A call that makes some steps with no other call between them.
  unfoldable pub alone : ℕ → Task A → Queue c → Task A × Queue c
  alone zero t q = (t, q)
  alone (suc n) t q = alone n (advance c i t q).task (advance c i t q).queue

  -- One receive after the other, with five steps for each: what they come to.
  unfoldable pub receives : Kind → ℕ → Queue c → List (Task A)
  unfolding alone
  receives k zero q = []
  receives k (suc n) q =
      (alone 5 (perform k recv) q).0 ∷ receives k n (alone 5 (perform k recv) q).1

  abbrev pub shut_queue : c.State → Queue c
  shut_queue s = record { channel = s; shutdown = true; locked = false }

  abbrev pub outcome : Got A → Reply A
  outcome (received a) = item a
  outcome nothing_yet = raised queue_closed
  outcome finished = raised queue_closed

  abbrev next : c.State → c.State
  next s = (c.poll_recv (c.close s)).0

  receive_ends :
      (s : c.State) (g : Got A)
      → g ≢ nothing_yet
      → alone 1
          (System.polled_recv c false Bounded.after_recv g)
          (record { channel = s; shutdown = true; locked = true })
        ≡ (ret (outcome g), shut_queue s)
  unfolding alone advance Bounded.after_recv
  receive_ends s (received a) n = refl
  receive_ends s nothing_yet n = absurd (n refl)
  receive_ends s finished n = refl

  receive_once :
      (k : Kind) (s : c.State)
      → (c.poll_recv (c.close s)).1 ≢ nothing_yet
      → alone 5 (perform k recv) (shut_queue s)
        ≡ (ret (outcome (c.poll_recv (c.close s)).1), shut_queue (next s))
  unfolding alone advance perform Bounded.recv Unbounded.recv
  receive_once bounded s n = receive_ends (next s) (c.poll_recv (c.close s)).1 n
  receive_once unbounded s n = receive_ends (next s) (c.poll_recv (c.close s)).1 n

  closes :
      (s : c.State) (b : Bool) (k : Kind)
      → ((alone 4 (perform k close) (record { channel = s; shutdown = b; locked = false })).0
          ≡ ret nothing)
        × ((alone 4 (perform k close) (record { channel = s; shutdown = b; locked = false })).1
            ≡ shut_queue (c.close s))
        × (alone 2 (perform k close) (record { channel = s; shutdown = b; locked = true })
            ≡ (ret nothing, record { channel = s; shutdown = true; locked = true }))
  unfolding alone advance perform Bounded.close Unbounded.close
  closes s b bounded = (refl, refl, refl)
  closes s b unbounded = (refl, refl, refl)

  module _ (l : ChannelLaws c) (k : Kind) where
    abbrev pub replies : List A → List (Task A)
    replies [] = ret (raised queue_closed) ∷ []
    replies (a ∷ xs) = ret (item a) ∷ replies xs

    receives_first :
        (n : ℕ) (s : c.State)
        → (c.poll_recv (c.close s)).1 ≢ nothing_yet
        → receives k (suc n) (shut_queue s)
          ≡ ret (outcome (c.poll_recv (c.close s)).1) ∷ receives k n (shut_queue (next s))
    unfolding receives
    receives_first n s h = ap (λ p. p.0 ∷ receives k n p.1) (receive_once k s h)

    receives_none :
        (t : c.State) (g : Got A)
        → g ≢ nothing_yet
        → Takes [] (l.items t) g
        → ret (outcome g) ∷ receives k 0 (shut_queue t) ≡ replies []
    unfolding receives
    receives_none t (received a) n h = cc
    receives_none t nothing_yet n h = absurd (n refl)
    receives_none t finished n h = refl

    receives_more :
        (x : A) (xs : List A) (t : c.State) (g : Got A)
        → g ≢ nothing_yet
        → Takes (x ∷ xs) (l.items t) g
        → (l.items t ≡ xs → receives k (suc (length xs)) (shut_queue t) ≡ replies xs)
        → ret (outcome g) ∷ receives k (suc (length xs)) (shut_queue t) ≡ replies (x ∷ xs)
    receives_more x xs t (received a) n h again =
        let same : a ≡ x = cc in
        let rest : receives k (suc (length xs)) (shut_queue t) ≡ replies xs = again (cc) in
        (λ i. ret (item (same i)) ∷ rest i)
    receives_more x xs t nothing_yet n h again = absurd (n refl)
    receives_more x xs t finished n h again = cc (h.1)

    module _ (s : c.State) (p : l.promised s ≡ 0) where
      ends : (c.poll_recv (c.close s)).1 ≢ nothing_yet
      ends = l.poll_recv_ends (c.close s) (l.close_closed s) (l.close_promised s ∙ p)

      none_promised : l.promised (next s) ≡ 0
      none_promised = l.poll_recv_promised (c.close s) (l.close_closed s) (l.close_promised s ∙ p)

      takes :
          (xs : List A) → l.items s ≡ xs → Takes xs (l.items (next s)) (c.poll_recv (c.close s)).1
      takes xs e =
          subst (λ ys. Takes ys (l.items (next s)) (c.poll_recv (c.close s)).1)
            (l.close_items s ∙ e) (l.poll_recv_items (c.close s))

    -- What a closed queue still hands out, by what it holds.
    receives_all :
        (xs : List A) (s : c.State)
        → l.items s ≡ xs
        → l.promised s ≡ 0
        → receives k (suc (length xs)) (shut_queue s) ≡ replies xs
    receives_all [] s e p =
        receives_first 0 s (ends s p)
        ∙ receives_none (next s) (c.poll_recv (c.close s)).1 (ends s p) (takes s p [] e)
    receives_all (x ∷ xs) s e p =
        receives_first (suc (length xs)) s (ends s p)
        ∙ receives_more x xs (next s) (c.poll_recv (c.close s)).1 (ends s p) (takes s p (x ∷ xs) e)
            (λ h. receives_all xs (next s) h (none_promised s p))

    -- A close never waits. If no receive holds the mutex, it returns after four of its steps, and
    -- then one receive after the other gets all that the channel held, in order, and the next one
    -- `QueueClosed`; each returns after five steps, where no pending send has been promised room. If
    -- a receive holds the mutex, the close returns after two steps and only cancels the token.
    pub close_then_drain :
        (s : c.State) (b : Bool)
        → l.promised s ≡ 0
        → let q =
            (alone 4 (perform k close) (record { channel = s; shutdown = b; locked = false })).1 in
          ((alone 4 (perform k close) (record { channel = s; shutdown = b; locked = false })).0
            ≡ ret nothing)
          × (receives k (suc (length (l.items s))) q ≡ replies (l.items s))
          × (alone 2 (perform k close) (record { channel = s; shutdown = b; locked = true })
              ≡ (ret nothing, record { channel = s; shutdown = true; locked = true }))
    close_then_drain s b p = (
      (closes s b k).0,
      subst (λ q. receives k (suc (length (l.items s))) q ≡ replies (l.items s))
          (sym (closes s b k).1)
          (receives_all (l.items s) (c.close s) (l.close_items s) (l.close_promised s ∙ p)),
      (closes s b k).2,
    )
