-- ===== src/Python/Queue/Steps.antt =====
-- Each step of a call of a queue (crates/taunicorn-python/src/channel.rs) keeps its rules.
use taunicorn.Prelude.{
  ℕ, ◌≡◌, refl, sym, ◌∙◌, subst, Bool, true, false, not, Bool-cases, inl, inr, List, [], ◌∷◌, ◌++◌,
  if◌then◌else◌,
}
use taunicorn.Python.Queue.{
  Put, accepted, no_room, disconnected, Got, received, nothing_yet, finished, Channel, Reply,
  dropped, looking, polling, unwatched, Woken, shut_down, Task, ret, look, cancel, sender_closed,
  try_send, push, try_lock, lock, unlock, close_receiver, try_recv, await_send, await_recv,
}
use taunicorn.Python.Queue.System
use taunicorn.Python.Queue.System.{
  Event, put, take, put_event, pushed, take_event, Queue, advance, abandoned,
}
use taunicorn.Python.Queue.Fifo.{ChannelLaws}
use taunicorn.Python.Queue.Rules.{Obeys, Cancelled, Goes}

module _ {A : Type 0} (w : Bool → Reply A → List (Event A) → Type 0) {c : Channel A}
    (l : ChannelLaws c) where
  -- The answers of a channel, and what is known after them.
  module _ (i : ℕ) (log : List (Event A)) (q : Queue c) (only : Cancelled w l q) where
    -- A channel that answers that it is closed shows that the token is cancelled.
    module _ (known : Bool) (rightly : known ≡ true → q.shutdown ≡ true) (s : c.State)
        (closed : c.is_closed s ≡ c.is_closed q.channel) where
      still : Cancelled w l (record q { channel = s })
      still e = only (sym closed ∙ e)

      put-Goes :
          (a : A) (k : Put → Task A) (p : Put)
          → (p ≡ disconnected → c.is_closed q.channel ≡ true)
          → Obeys w known (log ++ put a ∷ []) (k accepted)
          → Obeys w known log (k no_room)
          → Obeys w true log (k disconnected)
          → Goes w l log q
              (record { queue = System.on_channel c q s; task = k p; event = put_event a p })
      put-Goes a k accepted shut o n d = record {
        knows = known;
        rightly = rightly;
        obeys = o;
        only = still;
        forever = λ e. e;
      }
      put-Goes a k no_room shut o n d = record {
        knows = known;
        rightly = rightly;
        obeys = n;
        only = still;
        forever = λ e. e;
      }
      put-Goes a k disconnected shut o n d = record {
        knows = true;
        rightly = λ _. only (shut refl);
        obeys = d;
        only = still;
        forever = λ e. e;
      }

      push-Goes :
          (a : A) (k : Bool → Task A) (b : Bool)
          → (b ≡ false → c.is_closed q.channel ≡ true)
          → Obeys w known log (push a k)
          → Goes w l log q (record {
            queue = System.on_channel c q s;
            task = k b;
            event = put_event a (pushed b);
          })
      push-Goes a k true shut (o, d) = record {
        knows = known;
        rightly = rightly;
        obeys = o;
        only = still;
        forever = λ e. e;
      }
      push-Goes a k false shut (o, d) = record {
        knows = true;
        rightly = λ _. only (shut refl);
        obeys = d;
        only = still;
        forever = λ e. e;
      }

      take-Goes :
          (k : Got A → Task A) (g : Got A)
          → (g ≡ finished → c.is_closed q.channel ≡ true)
          → ((a : A) → Obeys w known (log ++ take a ∷ []) (k (received a)))
          → Obeys w known log (k nothing_yet)
          → Obeys w true log (k finished)
          → Goes w l log q
              (record { queue = System.on_channel c q s; task = k g; event = take_event g })
      take-Goes k (received a) shut o n d = record {
        knows = known;
        rightly = rightly;
        obeys = o a;
        only = still;
        forever = λ e. e;
      }
      take-Goes k nothing_yet shut o n d = record {
        knows = known;
        rightly = rightly;
        obeys = n;
        only = still;
        forever = λ e. e;
      }
      take-Goes k finished shut o n d = record {
        knows = true;
        rightly = λ _. only (shut refl);
        obeys = d;
        only = still;
        forever = λ e. e;
      }

      on-Goes :
          (t : Task A)
          → Obeys w known log t
          → Goes w l log q (System.silent c (System.on_channel c q s) t)
      on-Goes t o = record {
        knows = known;
        rightly = rightly;
        obeys = o;
        only = still;
        forever = λ e. e;
      }

    -- A look at the token.
    look-Goes :
        (known : Bool)
        → (known ≡ true → q.shutdown ≡ true)
        → (b : Bool) → q.shutdown ≡ b
        → (after : Bool → System.After c) → (q.shutdown ≡ true → Goes w l log q (after true))
        → (q.shutdown ≡ false → known ≡ false → Goes w l log q (after false))
        → Goes w l log q (after b)
    look-Goes known rightly true e after p r = p e
    look-Goes true rightly false e after p r =
        absurd (let f : false ≡ true = sym e ∙ rightly refl in cc)
    look-Goes false rightly false e after p r = r e refl

    module _ (known : Bool) (rightly : known ≡ true → q.shutdown ≡ true) where
      abbrev pub Step : Task A → Type 0
      Step t = Obeys w known log t → Goes w l log q (advance c i t q)

      send-Step : (a : A) (k : Woken Put → Task A) → Step (await_send looking a k)
      unfolding advance
      send-Step a k (gone, shut, go) =
          look-Goes known rightly q.shutdown refl
            (λ b.
              if b
              then System.silent c (System.on_channel c q (c.drop_send i q.channel)) (k shut_down)
              else System.silent c q (await_send polling a k))
            (λ e.
              on-Goes true (λ _. e) (c.drop_send i q.channel) (l.drop_send_closed i q.channel)
                (k shut_down) shut)
            (λ _ e.
              on-Goes false (λ f. cc) q.channel refl (await_send polling a k)
                (subst (λ b. w b dropped log) e gone, shut, refl, (go e).0, (go e).1))

      recv-Step : (k : Woken (Got A) → Task A) → Step (await_recv looking k)
      unfolding advance
      recv-Step k (gone, shut, go) =
          look-Goes known rightly q.shutdown refl
            (λ b.
              if b
              then System.silent c q (k shut_down)
              else System.silent c q (await_recv polling k))
            (λ e. on-Goes true (λ _. e) q.channel refl (k shut_down) shut)
            (λ _ e.
              on-Goes false (λ f. cc) q.channel refl (await_recv polling k)
                (subst (λ b. w b dropped log) e gone, shut, refl, (go e).0, (go e).1))

      -- A step that only the mutex sees.
      locked-Goes :
          (locked : Bool) (t : Task A)
          → Obeys w known log t
          → Goes w l log q (System.silent c (record q { locked = locked }) t)
      locked-Goes locked t o = record {
        knows = known;
        rightly = rightly;
        obeys = o;
        only = only;
        forever = λ e. e;
      }

      lock-Goes :
          (b : Bool) (t : Task A)
          → Obeys w known log (lock t)
          → Goes w l log q (System.silent c (record q { locked = true }) (if b then lock t else t))
      lock-Goes true t o = locked-Goes true (lock t) o
      lock-Goes false t o = locked-Goes true t o.1

      try_lock-Goes :
          (b : Bool) (k : Bool → Task A)
          → Obeys w known log (try_lock k)
          → Goes w l log q (System.silent c (record q { locked = true }) (k (not b)))
      try_lock-Goes true k o = locked-Goes true (k false) o.1
      try_lock-Goes false k o = locked-Goes true (k true) o.0

      pub advance-Goes : (t : Task A) → Step t
      unfolding advance
      advance-Goes (ret r) o = on-Goes known rightly q.channel refl (ret r) o
      advance-Goes (look k) o =
          look-Goes known rightly q.shutdown refl (λ b. System.silent c q (k b))
            (λ e. on-Goes true (λ _. e) q.channel refl (k true) o.0)
            (λ _ e. on-Goes false (λ f. cc) q.channel refl (k false) (o.1 e))
      advance-Goes (cancel t) o = record {
        knows = true;
        rightly = λ _. refl;
        obeys = o;
        only = λ _. refl;
        forever = λ _. refl;
      }
      advance-Goes (sender_closed k) o = elim (Bool-cases (c.is_closed q.channel)) [
        | inl e ↦
            subst (λ b. Goes w l log q (System.silent c q (k b))) (sym e)
              (on-Goes true (λ _. only e) q.channel refl (k true) o.0)
        | inr e ↦
            subst (λ b. Goes w l log q (System.silent c q (k b))) (sym e)
              (on-Goes known rightly q.channel refl (k false) o.1)
      ]
      advance-Goes (try_send a k) o =
          let s = (c.try_send a q.channel).0 in
          put-Goes known rightly s (l.try_send_closed a q.channel) a k (c.try_send a q.channel).1
            (l.try_send_open a q.channel) o.0 o.1 o.2
      advance-Goes (push a k) o =
          push-Goes known rightly (c.push a q.channel).0 (l.push_closed a q.channel) a k
            (c.push a q.channel).1 (l.push_open a q.channel) o
      advance-Goes (try_lock k) o = try_lock-Goes q.locked k o
      advance-Goes (lock t) o = lock-Goes q.locked t o
      advance-Goes (unlock t) o = locked-Goes false t o
      advance-Goes (close_receiver t) o = record {
        knows = known;
        rightly = rightly;
        obeys = o.1;
        only = λ _. rightly o.0;
        forever = λ e. e;
      }
      advance-Goes (try_recv k) o =
          let s = (c.try_recv q.channel).0 in
          take-Goes known rightly s (l.try_recv_closed q.channel) k (c.try_recv q.channel).1
            (l.try_recv_open q.channel) o.0 o.1 o.2
      advance-Goes (await_send looking a k) o = send-Step a k o
      advance-Goes (await_send polling a k) (gone, shut, e, go, end) =
          put-Goes false (λ f. cc) (c.poll_send i a q.channel).0 (l.poll_send_closed i a q.channel)
            a (System.polled_send c a k) (c.poll_send i a q.channel).1
            (l.poll_send_open i a q.channel) go (gone, shut, λ _. (go, end)) end
      advance-Goes (await_send unwatched a k) o = absurd o
      advance-Goes (await_recv looking k) o = recv-Step k o
      advance-Goes (await_recv polling k) (gone, shut, e, go, end) =
          take-Goes false (λ f. cc) (c.poll_recv q.channel).0 (l.poll_recv_closed q.channel)
            (System.polled_recv c true k) (c.poll_recv q.channel).1 (l.poll_recv_open q.channel) go
            (gone, shut, λ _. (go, end)) end
      advance-Goes (await_recv unwatched k) (gone, go, end) =
          take-Goes known rightly (c.poll_recv q.channel).0 (l.poll_recv_closed q.channel)
            (System.polled_recv c false k) (c.poll_recv q.channel).1 (l.poll_recv_open q.channel) go
            (gone, go, end) end

      pub abandoned-Goes : (t : Task A) → Obeys w known log t → Goes w l log q (abandoned c i t q)
      unfolding abandoned
      abandoned-Goes (ret r) o = on-Goes known rightly q.channel refl (ret r) o
      abandoned-Goes (look k) o = on-Goes known rightly q.channel refl (look k) o
      abandoned-Goes (cancel t) o = on-Goes known rightly q.channel refl (cancel t) o
      abandoned-Goes (sender_closed k) o = on-Goes known rightly q.channel refl (sender_closed k) o
      abandoned-Goes (try_send a k) o = on-Goes known rightly q.channel refl (try_send a k) o
      abandoned-Goes (push a k) o = on-Goes known rightly q.channel refl (push a k) o
      abandoned-Goes (try_lock k) o = on-Goes known rightly q.channel refl (try_lock k) o
      abandoned-Goes (lock t) o = on-Goes known rightly q.channel refl (ret dropped) o.0
      abandoned-Goes (unlock t) o = on-Goes known rightly q.channel refl (unlock t) o
      abandoned-Goes (close_receiver t) o =
          on-Goes known rightly q.channel refl (close_receiver t) o
      abandoned-Goes (try_recv k) o = on-Goes known rightly q.channel refl (try_recv k) o
      abandoned-Goes (await_send looking a k) o =
          on-Goes known rightly (c.drop_send i q.channel) (l.drop_send_closed i q.channel)
            (ret dropped) o.0
      abandoned-Goes (await_send polling a k) o =
          on-Goes known rightly (c.drop_send i q.channel) (l.drop_send_closed i q.channel)
            (ret dropped) (subst (λ b. w b dropped log) (sym o.2) o.0)
      abandoned-Goes (await_send unwatched a k) o = absurd o
      abandoned-Goes (await_recv looking k) o = locked-Goes false (ret dropped) o.0
      abandoned-Goes (await_recv polling k) o =
          locked-Goes false (ret dropped) (subst (λ b. w b dropped log) (sym o.2) o.0)
      abandoned-Goes (await_recv unwatched k) o = locked-Goes false (ret dropped) o.0
