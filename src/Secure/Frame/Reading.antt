-- ===== src/Secure/Frame/Reading.antt =====
-- The loop of `read_exact` (crates/taunicorn/src/security.rs) over an ordered stream.
use taunicorn.Prelude.{
  ℕ, zero, suc, ◌+◌, ◌-◌, ◌^◌, ◌≤◌, ◌<◌, ◌≡◌, ◌≢◌, refl, subst, sym, ap, ◌∙◌, true, inl, inr, List,
  [], ◌++◌, append_assoc, append-nil, length, take, drop, replicate, ltb, arith, Bool-cases,
  length-append, length-take, length-drop, length-replicate, take-append, take-length,
  take-append-take, drop-drop,
}
use taunicorn.Outcome.{Outcome, ok, err, dropped, waiting, fuel_out}
use taunicorn.Outcome.Action.{continue}
use taunicorn.Stream.{ByteStream, StreamLaws, Received, ReceiveResult, data_read, end_of_stream}
use taunicorn.Secure.Frame.{advance, read_exact_loop, read_exact}

module _ {S : Type 0} (t : ByteStream S) (l : StreamLaws t) where
  open l use {pending, CanReceive, receive_some}

  -- A read that took the next `k` bytes and put them behind `front`.
  pub record Took (k : ℕ) (front : List ℕ) (s : S) (r : Outcome (List ℕ) × S) : Type 0 where
    pub result : r.0 ≡ ok (front ++ take k (pending s))
    pub rest : pending r.1 ≡ drop k (pending s)
    pub ready : CanReceive r.1

  -- One round: the offset moves by what was read, and the buffer is filled so far.
  round :
      (fuel size : ℕ) (result : List ℕ) (offset : ℕ) (s : S)
      → ltb offset size ≡ true
      → size < 2 ^ 64
      → length result ≡ size
      → (r : Received pending CanReceive
          (drop offset result)
          s
          (t.receive (drop offset result) s).0
          (t.receive (drop offset result) s).1)
      → read_exact_loop t (suc fuel) size result offset s
        ≡ read_exact_loop t fuel size
            (take offset result ++ (take r.count (pending s) ++ drop r.count (drop offset result)))
            (offset + r.count)
            (t.receive (drop offset result) s).1
  unfolding read_exact_loop
  round fuel size result offset s more small sized r =
      ground (arith, r.result, r.some_read, r.fits, length-drop offset result)

  finished :
      (fuel size : ℕ) (result : List ℕ) (offset : ℕ) (s : S)
      → size ≤ offset
      → read_exact_loop t fuel size result offset s ≡ (ok result, s)
  unfolding read_exact_loop
  finished zero size result offset s h = ground arith
  finished (suc fuel) size result offset s h = ground arith

  Took-finished :
      (k size : ℕ) (result : List ℕ) (offset : ℕ) (s : S)
      → CanReceive s
      → k ≡ 0
      → length result ≤ offset
      → Took k (take offset result) s (ok result, s)
  Took-finished k size result offset s can e le =
      let full : take offset result ≡ result = take-length offset result le in
      record { result = rw (e, full) (ap ok (sym (append-nil result))); rest = rw e; ready = can }

  -- A read of `c` bytes, then of the `k` bytes behind them.
  Took-next :
      (c k m : ℕ) (front front' : List ℕ) (s s' : S) (r : Outcome (List ℕ) × S)
      → c + k ≡ m
      → front' ≡ front ++ take c (pending s)
      → pending s' ≡ drop c (pending s)
      → Took k front' s' r
      → Took m front s r
  Took-next c k m front front' s s' r e f p took = record {
    result =
        took.result
        ∙ ap ok (
            rw (f, p, ← e)
              (append_assoc front (take c (pending s)) (take k (drop c (pending s)))
                ∙ ap (λ x. front ++ x) (take-append-take c k (pending s))));
    rest = took.rest ∙ rw (p, ← e) (drop-drop c k (pending s));
    ready = took.ready;
  }

  -- What the buffer holds up to the new offset.
  filled :
      (result : List ℕ) (offset c : ℕ) (p : List ℕ)
      → offset + c ≤ length result
      → c ≤ length p
      → take (offset + c) (take offset result ++ (take c p ++ drop c (drop offset result)))
        ≡ take offset result ++ take c p
  filled result offset c p h k =
      let e : length (take offset result ++ take c p) ≡ offset + c = omega (
        arith,
        length-append (take offset result) (take c p),
        length-take offset result,
        length-take c p,
      ) in
      ap (take (offset + c)) (sym (append_assoc (take offset result) (take c p) _))
      ∙ take-append (take offset result ++ take c p) _ (offset + c) (sym e)

  length-filled :
      (result : List ℕ) (offset c : ℕ) (p : List ℕ)
      → offset + c ≤ length result
      → c ≤ length p
      → length (take offset result ++ (take c p ++ drop c (drop offset result))) ≡ length result
  length-filled result offset c p h k = omega (
    arith,
    length-append (take offset result) (take c p ++ drop c (drop offset result)),
    length-append (take c p) (drop c (drop offset result)),
    length-take offset result,
    length-take c p,
    length-drop c (drop offset result),
    length-drop offset result,
  )

  loop_takes :
      (fuel size : ℕ) (result : List ℕ) (offset : ℕ) (s : S)
      → CanReceive s
      → size < 2 ^ 64
      → length result ≡ size
      → offset ≤ size
      → size - offset ≤ fuel
      → size - offset ≤ length (pending s)
      → Took (size - offset) (take offset result) s (read_exact_loop t fuel size result offset s)
  loop_takes zero size result offset s can small sized le enough avail =
      rw (finished zero size result offset s (omega arith))
        (Took-finished (size - offset) size result offset s can (omega arith) (omega arith))
  loop_takes (suc fuel) size result offset s can small sized le enough avail =
      elim (Bool-cases (ltb offset size)) [
        | inl more ↦
            let r =
              receive_some (drop offset result) s can (ground (arith, length-drop offset result))
                (ground arith) in
            let room : offset + r.count ≤ length result =
              ground (arith, r.fits, length-drop offset result) in
            let p = pending s in
            rw (round fuel size result offset s more small sized r) (
              Took-next r.count (size - (offset + r.count)) (size - offset) (take offset result) _ s
                _ _ (omega arith) (filled result offset r.count p room r.available) r.rest
                (loop_takes fuel size _ (offset + r.count) _ r.ready small
                  (length-filled result offset r.count p room r.available ∙ sized) (omega arith)
                  (omega (arith, r.some_read)) (rw r.rest (omega (arith, length-drop r.count p)))))
        | inr done ↦
            rw (finished (suc fuel) size result offset s (ground arith))
              (Took-finished (size - offset) size result offset s can (ground arith) (ground arith))
      ]

  -- On an ordered stream with `size` bytes pending, `read_exact` returns these bytes, whatever
  -- the sizes of the transport's reads, and leaves the bytes behind them pending. The size is
  -- below 2 ^ 64.
  pub read_exact_takes :
      (size : ℕ) (s : S)
      → CanReceive s
      → size < 2 ^ 64
      → size ≤ length (pending s)
      → Took size [] s (read_exact t size s)
  unfolding read_exact
  read_exact_takes size s can small avail =
      let e : size - 0 ≡ size = omega arith in
      subst (λ k. Took k [] s (read_exact_loop t size size (replicate size 0) 0 s)) e
        (loop_takes size size (replicate size 0) 0 s can small (length-replicate size 0)
          (omega arith) (omega arith) (omega arith))

going_on :
    {S : Type 0} (t : ByteStream S) (fuel size : ℕ) (result : List ℕ) (offset : ℕ) (s : S)
    → ltb offset size ≡ true
    → read_exact_loop t (suc fuel) size result offset s
      ≡ continue
          (t.receive (drop offset result) s).0
          (λ (x, rest).
            continue
              (advance t offset x)
              (read_exact_loop t fuel size (take offset result ++ rest)))
          (t.receive (drop offset result) s).1
unfolding read_exact_loop
going_on t fuel size result offset s more = ground arith

-- Whatever the transport does, the read loop ends by its own test: it has no need of more rounds
-- than the frame has bytes.
module _ {S : Type 0} (t : ByteStream S)
    (never : (buf : List ℕ) (s : S) → (t.receive buf s).0 ≢ fuel_out) where
  step_result : (offset : ℕ) (r : ReceiveResult) → (o : ℕ) → advance t offset r ≡ ok o → offset < o
  unfolding advance
  step_result offset (data_read n) o e = ground arith
  step_result offset end_of_stream o e = cc

  advance-ne-fuel_out : (offset : ℕ) (r : ReceiveResult) → advance t offset r ≢ fuel_out
  unfolding advance
  advance-ne-fuel_out offset (data_read n) e = ground arith
  advance-ne-fuel_out offset end_of_stream e = cc

  -- The rest of a round, once the receive and the match on its result are known.
  module _ (size offset : ℕ) (go : List ℕ → ℕ → S → Outcome (List ℕ) × S)
      (ends : (result : List ℕ) (o : ℕ) (s : S) → offset < o → (go result o s).0 ≢ fuel_out) where
    matched :
        (r : Outcome ℕ) (result : List ℕ) (s : S)
        → r ≢ fuel_out
        → ((o : ℕ) → r ≡ ok o → offset < o)
        → (continue r (go result) s).0 ≢ fuel_out
    matched (ok o) result s ne up = ends result o s (up o refl)
    matched (err e) result s ne up = λ p. cc
    matched dropped result s ne up = λ p. cc
    matched waiting result s ne up = λ p. cc
    matched fuel_out result s ne up = λ p. ne refl

    received :
        (r : Outcome (ReceiveResult × List ℕ)) (front : List ℕ) (s : S)
        → r ≢ fuel_out
        → (continue r (λ (x, rest). continue (advance t offset x) (go (front ++ rest))) s).0
          ≢ fuel_out
    received (ok (x, rest)) front s ne =
        matched (advance t offset x) (front ++ rest) s (advance-ne-fuel_out offset x)
          (step_result offset x)
    received (err e) front s ne = λ p. cc
    received dropped front s ne = λ p. cc
    received waiting front s ne = λ p. cc
    received fuel_out front s ne = λ p. ne refl

  loop-ne-fuel_out :
      (fuel size : ℕ) (result : List ℕ) (offset : ℕ) (s : S)
      → size - offset ≤ fuel
      → (read_exact_loop t fuel size result offset s).0 ≢ fuel_out
  loop-ne-fuel_out zero size result offset s h = unfold read_exact_loop in λ e. ground arith
  loop-ne-fuel_out (suc fuel) size result offset s h = elim (Bool-cases (ltb offset size)) [
    | inl more ↦ rw (going_on t fuel size result offset s more) (
        received size offset (λ b o s'. read_exact_loop t fuel size b o s')
          (λ b o s' up. loop-ne-fuel_out fuel size b o s' (omega arith))
          (t.receive (drop offset result) s).0 (take offset result) _ (never _ _))
    | inr done ↦ λ e. unfold read_exact_loop in ground arith
  ]

  -- A read of any size returns a result of the code, whatever the transport does: the loop ends
  -- by its own test.
  pub read_exact-ne-fuel_out : (size : ℕ) (s : S) → (read_exact t size s).0 ≢ fuel_out
  unfolding read_exact
  read_exact-ne-fuel_out size s = loop-ne-fuel_out size size (replicate size 0) 0 s (omega arith)
