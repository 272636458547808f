-- ===== src/Python/Queue/Promises.antt =====
-- What each call of a queue of crates/taunicorn-python/src/channel.rs promises, among any other
-- calls.
use taunicorn.Prelude.{ℕ, ◌≡◌, refl, subst, Bool, true, false, List, [], ◌∷◌}
use taunicorn.Python.Exceptions.{Exception, queue_closed, queue_full, queue_empty, queue_busy}
use taunicorn.Python.Queue.{Channel, Task, Reply, nothing, item, flag, raised, dropped, ret}
use taunicorn.Python.Queue.Bounded
use taunicorn.Python.Queue.Unbounded
use taunicorn.Python.Queue.Calls.{
  Kind, bounded, unbounded, Call, send, try_send, recv, try_recv, close, is_closed, perform,
}
use taunicorn.Python.Queue.System.{Event, put, take, Move, System, run}
use taunicorn.Python.Queue.Fifo.{ChannelLaws, Fifo, unchanged, run-Fifo}
use taunicorn.Python.Queue.Rules.{Obeys}
use taunicorn.Python.Queue.Runs.{own, Upholds, run-Upholds}

abbrev pub is_closed_error : Exception → Bool
is_closed_error queue_closed = true
is_closed_error _ = false

-- The exceptions of each call.
abbrev pub raises : {A : Type 0} → Kind → Call A → Exception → Bool
raises k (send a) queue_closed = true
raises bounded (try_send a) queue_full = true
raises k (try_send a) queue_closed = true
raises k recv queue_closed = true
raises k try_recv queue_closed = true
raises k try_recv queue_empty = true
raises k try_recv queue_busy = true
raises _ _ _ = false

-- Whether the future has an await where it can be dropped.
abbrev pub awaits : {A : Type 0} → Kind → Call A → Bool
awaits bounded (send a) = true
awaits bounded recv = true
awaits unbounded recv = true
awaits _ _ = false

-- What a reply of a call says: of the items that the call has put in and taken out, and, where
-- `known` is true, of the token.
abbrev pub Post : {A : Type 0} → Kind → Call A → Bool → Reply A → List (Event A) → Type 0
Post k (send a) known nothing log = log ≡ put a ∷ []
Post k (try_send a) known nothing log = log ≡ put a ∷ []
Post k close known nothing log = (log ≡ []) × (known ≡ true)
Post k recv known nothing log = ⊥
Post k try_recv known nothing log = ⊥
Post k is_closed known nothing log = ⊥
Post k recv known (item a) log = log ≡ take a ∷ []
Post k try_recv known (item a) log = log ≡ take a ∷ []
Post k close known (item a) log = ⊥
Post k (send b) known (item a) log = ⊥
Post k (try_send b) known (item a) log = ⊥
Post k is_closed known (item a) log = ⊥
Post k is_closed known (flag b) log = (log ≡ []) × (b ≡ true → known ≡ true)
Post k close known (flag b) log = ⊥
Post k (send a) known (flag b) log = ⊥
Post k (try_send a) known (flag b) log = ⊥
Post k recv known (flag b) log = ⊥
Post k try_recv known (flag b) log = ⊥
Post k call known (raised e) log =
    (raises k call e ≡ true) × (log ≡ []) × (is_closed_error e ≡ true → known ≡ true)
Post k call known dropped log = (awaits k call ≡ true) × (log ≡ [])

module _ {A : Type 0} where
  call-Obeys : (k : Kind) (c : Call A) → Obeys (Post k c) false [] (perform k c)
  unfolding perform Bounded.send Bounded.try_send Bounded.recv Bounded.try_recv Bounded.close
      Bounded.is_closed Unbounded.send Unbounded.try_send Unbounded.recv Unbounded.try_recv
      Unbounded.close Unbounded.is_closed
  call-Obeys bounded (send a) =
      ((refl, refl), (refl, refl, λ e. e), λ _. (refl, (refl, refl, λ e. e)))
  call-Obeys bounded (try_send a) = (
    (refl, refl, λ e. e),
    λ _. ((refl, refl, λ e. e), (refl, (refl, refl, λ e. cc), (refl, refl, λ e. e))),
  )
  call-Obeys bounded recv = (
    (refl, refl),
    (
      (refl, refl),
      (refl, ((refl, refl), (λ a. refl), (refl, refl, λ e. e))),
      λ _. ((λ a. refl), (refl, refl, λ e. e)),
    ),
  )
  call-Obeys bounded try_recv = (
    (
      (refl, ((λ a. refl), (refl, refl, λ e. cc), (refl, refl, λ e. e))),
      λ _. ((λ a. refl), (refl, refl, λ e. cc), (refl, refl, λ e. e)),
    ),
    (refl, refl, λ e. cc),
  )
  call-Obeys bounded close = ((refl, (refl, refl)), (refl, refl))
  call-Obeys bounded is_closed = ((refl, λ e. e), λ _. ((refl, λ e. refl), (refl, λ e. e)))
  call-Obeys unbounded (send a) = ((refl, refl, λ e. e), λ _. (refl, (refl, refl, λ e. e)))
  call-Obeys unbounded (try_send a) =
      ((refl, refl, λ e. e), λ _. ((refl, refl, λ e. e), (refl, (refl, refl, λ e. e))))
  call-Obeys unbounded recv = (
    (refl, refl),
    (
      (refl, refl),
      (refl, ((refl, refl), (λ a. refl), (refl, refl, λ e. e))),
      λ _. ((λ a. refl), (refl, refl, λ e. e)),
    ),
  )
  call-Obeys unbounded try_recv = (
    (
      (refl, ((λ a. refl), (refl, refl, λ e. cc), (refl, refl, λ e. e))),
      λ _. ((λ a. refl), (refl, refl, λ e. cc), (refl, refl, λ e. e)),
    ),
    (refl, refl, λ e. cc),
  )
  call-Obeys unbounded close = ((refl, (refl, refl)), (refl, refl))
  call-Obeys unbounded is_closed = ((refl, λ e. e), λ _. ((refl, λ e. refl), (refl, λ e. e)))

  -- What is said of a token that is not cancelled holds of one that is.
  known-Post :
      (k : Kind) (c : Call A) (known known' : Bool) (r : Reply A) (log : List (Event A))
      → (known ≡ true → known' ≡ true)
      → Post k c known r log
      → Post k c known' r log
  known-Post k (send a) b b' nothing log f p = p
  known-Post k (try_send a) b b' nothing log f p = p
  known-Post k close b b' nothing log f p = (p.0, f p.1)
  known-Post k recv b b' (item a) log f p = p
  known-Post k try_recv b b' (item a) log f p = p
  known-Post k is_closed b b' (flag x) log f p = (p.0, λ e. f (p.1 e))
  known-Post k c b b' (raised e) log f p = (p.0, p.1, λ x. f (p.2 x))
  known-Post k c b b' dropped log f p = p
  known-Post k recv b b' nothing log f p = absurd p
  known-Post k try_recv b b' nothing log f p = absurd p
  known-Post k is_closed b b' nothing log f p = absurd p
  known-Post k (send x) b b' (item a) log f p = absurd p
  known-Post k (try_send x) b b' (item a) log f p = absurd p
  known-Post k close b b' (item a) log f p = absurd p
  known-Post k is_closed b b' (item a) log f p = absurd p
  known-Post k (send x) b b' (flag a) log f p = absurd p
  known-Post k (try_send x) b b' (flag a) log f p = absurd p
  known-Post k close b b' (flag a) log f p = absurd p
  known-Post k recv b b' (flag a) log f p = absurd p
  known-Post k try_recv b b' (flag a) log f p = absurd p

-- A queue on a channel, with calls that have not begun.
unfoldable pub begin : {A : Type 0} (c : Channel A) → c.State → (ℕ → Task A) → System c
begin c s tasks = record {
  queue = record { channel = s; shutdown = false; locked = false };
  tasks = tasks;
  history = [];
}

module _ {A : Type 0} (k : Kind) (calls : ℕ → Call A) {c : Channel A} (l : ChannelLaws c)
    (s : c.State) (new : c.is_closed s ≡ false) (ms : List Move) where
  abbrev pub reached : System c
  reached = run c ms (begin c s (λ j. perform k (calls j)))

  pub reached-Upholds : Upholds (λ j. Post k (calls j)) l reached
  unfolding begin
  reached-Upholds =
      run-Upholds (λ j. Post k (calls j)) l ms (begin c s (λ j. perform k (calls j)))
        (record {
          only = λ e. cc;
          each = λ j. record { knows = false; rightly = λ e. e; obeys = call-Obeys k (calls j) };
        })

  -- However any number of calls on a new queue interleave, and whichever futures are dropped: the
  -- items were put in and taken out as an abstract first-in first-out queue does it, and the reply
  -- of each call says what it did there. A send that returns has put in its item once; a receive
  -- that returns an item has taken out this one and nothing else; a call that raises or is dropped
  -- has moved nothing; and `QueueClosed` is raised only after a close.
  pub calls-Fifo :
      (j : ℕ) (r : Reply A)
      → reached.tasks j ≡ ret r
      → Fifo (l.items s) reached.history (l.items reached.queue.channel)
        × Post k (calls j) reached.queue.shutdown r (own j reached.history)
  unfolding begin
  calls-Fifo j r e =
      let f = reached-Upholds.each j in
      (
        run-Fifo l (l.items s) ms (begin c s (λ j. perform k (calls j))) (unchanged (l.items s)),
        known-Post k (calls j) f.knows reached.queue.shutdown r (own j reached.history) f.rightly
            (subst (λ t. Obeys (Post k (calls j)) f.knows (own j reached.history) t) e f.obeys),
      )
