-- ===== src/Python/Queue/Closing.antt =====
-- What closing a queue of crates/taunicorn-python/src/channel.rs does to the calls that come later.
use taunicorn.Prelude.{ℕ, ◌≡◌, refl, sym, subst, Bool, true, false, List, [], ◌==◌, ==_iff}
use taunicorn.Python.Exceptions.{queue_closed}
use taunicorn.Python.Queue.{Channel, Reply, nothing, item, flag, raised, dropped, ret}
use taunicorn.Python.Queue.Bounded
use taunicorn.Python.Queue.Unbounded
use taunicorn.Python.Queue.Calls.{
  Kind, bounded, unbounded, Call, send, try_send, recv, try_recv, close, is_closed, perform,
}
use taunicorn.Python.Queue.System.{Event, Move, System, run}
use taunicorn.Python.Queue.Fifo.{ChannelLaws}
use taunicorn.Python.Queue.Rules.{Obeys}
use taunicorn.Python.Queue.Runs.{own, Upholds, run-Upholds}
use taunicorn.Python.Queue.Promises.{Post, reached, reached-Upholds}

abbrev pub is_sending : {A : Type 0} → Call A → Bool
is_sending (send a) = true
is_sending (try_send a) = true
is_sending _ = false

-- A reply of a send that is refused.
abbrev pub Refuses : {A : Type 0} → Bool → Reply A → List (Event A) → Type 0
Refuses known (raised e) log = (e ≡ queue_closed) × (log ≡ [])
Refuses known dropped log = log ≡ []
Refuses known nothing log = ⊥
Refuses known (item a) log = ⊥
Refuses known (flag b) log = ⊥

-- What a call promises: to be refused, or the usual.
abbrev Chosen : {A : Type 0} → Kind → Bool → Call A → Bool → Reply A → List (Event A) → Type 0
Chosen k true c known r log = Refuses known r log
Chosen k false c known r log = Post k c known r log

any-Refuses :
    {A : Type 0} (b : Bool) (r : Reply A) (log : List (Event A))
    → Refuses b r log
    → Refuses true r log
any-Refuses b (raised e) log p = p
any-Refuses b dropped log p = p
any-Refuses b nothing log p = absurd p
any-Refuses b (item a) log p = absurd p
any-Refuses b (flag a) log p = absurd p

module _ {A : Type 0} where
  sending-Obeys :
      (k : Kind) (c : Call A) → is_sending c ≡ true → Obeys Refuses true [] (perform k c)
  unfolding perform Bounded.send Bounded.try_send Unbounded.send Unbounded.try_send
  sending-Obeys bounded (send a) e = (refl, (refl, refl), λ f. cc)
  sending-Obeys bounded (try_send a) e = ((refl, refl), λ f. cc)
  sending-Obeys unbounded (send a) e = ((refl, refl), λ f. cc)
  sending-Obeys unbounded (try_send a) e = ((refl, refl), λ f. cc)
  sending-Obeys k recv e = cc
  sending-Obeys k try_recv e = cc
  sending-Obeys k close e = cc
  sending-Obeys k is_closed e = cc

module _ {A : Type 0} (k : Kind) (calls : ℕ → Call A) {c : Channel A} (l : ChannelLaws c)
    (s : c.State) (new : c.is_closed s ≡ false) (ms : List Move) (j : ℕ) where
  abbrev Promise : ℕ → Bool → Reply A → List (Event A) → Type 0
  Promise i = Chosen k (j == i) (calls i)

  module _ (shut : (reached k calls l s new ms).queue.shutdown ≡ true)
      (sends : is_sending (calls j) ≡ true)
      (idle : (reached k calls l s new ms).tasks j ≡ perform k (calls j))
      (unmoved : own j (reached k calls l s new ms).history ≡ []) where
    abbrev here : System c
    here = reached k calls l s new ms

    at_call :
        (i : ℕ) (b : Bool)
        → (j == i) ≡ b
        → (knows : Bool) × (knows ≡ true → here.queue.shutdown ≡ true)
          × Obeys (Chosen k b (calls i)) knows (own i here.history) (here.tasks i)
    at_call i true e =
        subst
          (λ n.
            (knows : Bool) × (knows ≡ true → here.queue.shutdown ≡ true)
            × Obeys (Chosen k true (calls n)) knows (own n here.history) (here.tasks n))
          ((==_iff j i).0 e)
          (
            true,
            (λ _. shut),
            subst (λ t. Obeys Refuses true (own j here.history) t) (sym idle)
                (subst (λ log. Obeys Refuses true log (perform k (calls j))) (sym unmoved)
                  (sending-Obeys k (calls j) sends)),
          )
    at_call i false e =
        let f = (reached-Upholds k calls l s new ms).each i in (f.knows, f.rightly, f.obeys)

    from_here : Upholds Promise l here
    from_here = record {
      only = (reached-Upholds k calls l s new ms).only;
      each = λ i.
          let p = at_call i (j == i) refl in record { knows = p.0; rightly = p.1; obeys = p.2 };
    }

    -- A send that begins after a close: whatever the other calls do, and however they are
    -- interleaved with it, it puts in nothing, and it raises `QueueClosed` unless it is dropped.
    pub closed-Refuses :
        (ns : List Move) (r : Reply A)
        → (run c ns (reached k calls l s new ms)).tasks j ≡ ret r
        → Refuses true r (own j (run c ns (reached k calls l s new ms)).history)
    closed-Refuses ns r e =
        let f = (run-Upholds Promise l ns here from_here).each j in
        let log = own j (run c ns here).history in
        any-Refuses f.knows r log (
          subst (λ b. Chosen k b (calls j) f.knows r log) ((==_iff j j).1 refl)
            (subst (λ t. Obeys (Promise j) f.knows log t) e f.obeys))
