-- ===== src/Secure/Session/Transfer.antt =====
-- Runs of encrypted messages (crates/taunicorn/src/security.rs): what one end sends, the other
-- receives, in order, and the two ends stay in step.
use taunicorn.Prelude.{
  ℕ, zero, suc, ◌+◌, ◌^◌, ◌≤◌, ◌<◌, ◌≡◌, refl, sym, ap, ◌∙◌, subst, List, [], ◌∷◌, ◌++◌, append-nil,
  append_assoc, length, arith, append-cancel, length-append, All,
}
use taunicorn.Bytes.{be_bytes, length-be_bytes}
use taunicorn.Outcome.{ok}
use taunicorn.Outcome.Action.{Action, pure, ◌>>=◌, ◌>>◌}
use taunicorn.Stream.{ByteStream, StreamLaws}
use taunicorn.Secure.{DirectionState, IsKeyed, max_frame_size}
use taunicorn.Secure.Crypto.{Crypto, CryptoLaws}
use taunicorn.Secure.Messages.{make_aad, make_nonce}
use taunicorn.Secure.Frame.Transfer.{write_frame-Wrote, read_frame-ReadOne}
use taunicorn.Secure.Session.{SecureConnection, send, receive}
use taunicorn.Secure.Session.Sequence.{next}
use taunicorn.Secure.Session.Message.{Message, frame_of, length-frame_of, send_eq, receive_eq}

-- The receiving end expects what the sending end will send next.
pub record InStep {S R : Type 0} (s : SecureConnection S) (r : SecureConnection R) : Type 0 where
  pub state : r.receive_state ≡ s.send_state
  pub hash : r.transcript_hash ≡ s.transcript_hash

abbrev pub Fits : List ℕ → Type 0
Fits plaintext = length plaintext + 25 ≤ max_frame_size

-- A caller's sends and receives, one after the other.
unfoldable pub send_all :
    (c : Crypto) {S : Type 0} (t : ByteStream S)
    → List (List ℕ)
    → Action (SecureConnection S) (Unit {0})
send_all c t [] = pure tt
send_all c t (m ∷ ms) = send c t m >> send_all c t ms

unfoldable pub receive_all :
    (c : Crypto) {S : Type 0} (t : ByteStream S) → ℕ → Action (SecureConnection S) (List (List ℕ))
receive_all c t zero = pure []
receive_all c t (suc n) = do m ← receive c t; ms ← receive_all c t n; pure (m ∷ ms)

module _ (c : Crypto) (laws : CryptoLaws c) {S R : Type 0} (t : ByteStream S) (l : StreamLaws t)
    (u : ByteStream R) (m : StreamLaws u) where
  -- What one message does at the two ends.
  record One (plaintext : List ℕ) (s : SecureConnection S) : Type 0 where
    wire : List ℕ
    sends : (send c t plaintext s).0 ≡ ok tt
    sent : l.sent (send c t plaintext s).1.connection ≡ l.sent s.connection ++ wire
    can : l.CanSend (send c t plaintext s).1.connection
    after : (send c t plaintext s).1.send_state ≡ next s.send_state
    hash : (send c t plaintext s).1.transcript_hash ≡ s.transcript_hash
    receives :
        (r : SecureConnection R) (rest : List ℕ)
        → InStep s r
        → m.CanReceive r.connection
        → m.pending r.connection ≡ wire ++ rest
        → ((receive c u r).0 ≡ ok plaintext)
          × (m.pending (receive c u r).1.connection ≡ rest)
          × m.CanReceive (receive c u r).1.connection
          × InStep (send c t plaintext s).1 (receive c u r).1

  nonce_size :
      (d : DirectionState)
      → length d.nonce_prefix ≡ 4
      → length (make_nonce d.nonce_prefix (be_bytes 8 d.sequence)) ≡ 12
  unfolding make_nonce
  nonce_size d h =
      omega
        (arith, length-append d.nonce_prefix (be_bytes 8 d.sequence), length-be_bytes 8 d.sequence)

  aad_size :
      (d : DirectionState) (hash : List ℕ)
      → length hash ≡ 32
      → length (make_aad d.direction (be_bytes 8 d.sequence) hash) < 2 ^ 32
  unfolding make_aad
  aad_size d hash h =
      omega (arith, length-append (be_bytes 8 d.sequence) hash, length-be_bytes 8 d.sequence)

  one :
      (plaintext : List ℕ) (s : SecureConnection S)
      → l.CanSend s.connection
      → IsKeyed s.send_state s.transcript_hash
      → Fits plaintext
      → s.send_state.sequence + 1 < 2 ^ 64
      → One plaintext s
  one plaintext s can keyed fits unexhausted =
      let d = s.send_state in
      let n = be_bytes 8 d.sequence in
      let (ct, e) =
        laws.encrypt_total d.cipher (make_nonce d.nonce_prefix n)
          (make_aad d.direction n s.transcript_hash) plaintext keyed.key (nonce_size d keyed.prefix)
          (aad_size d s.transcript_hash keyed.digest) (omega arith) in
      let msg : Message c d s.transcript_hash plaintext ct = record {
        fits = fits;
        unexhausted = unexhausted;
        encrypted = e;
      } in
      let size = length-frame_of c laws msg in
      let w =
        write_frame-Wrote t l (frame_of c d ct) s.connection can (omega arith) (omega arith) in
      let q = send_eq c laws msg t s refl refl w.result in
      record {
        wire = be_bytes 4 (length (frame_of c d ct)) ++ frame_of c d ct;
        sends = ap (λ x. x.0) q;
        sent = ap (λ x. l.sent x.1.connection) q ∙ w.bytes;
        can = subst (λ x. l.CanSend x.1.connection) (sym q) w.ready;
        after = ap (λ x. x.1.send_state) q;
        hash = ap (λ x. x.1.transcript_hash) q;
        receives = λ r rest step ready p.
            let read =
              read_frame-ReadOne u m (frame_of c d ct) rest r.connection ready (omega arith)
                (omega arith) (p ∙ append_assoc _ (frame_of c d ct) rest) in
            let v = receive_eq c laws msg u r step.state step.hash read.result in
            (
              ap (λ x. x.0) v,
              ap (λ x. m.pending x.1.connection) v ∙ read.bytes,
              subst (λ x. m.CanReceive x.1.connection) (sym v) read.ready,
              record {
                state =
                    ap (λ x. x.1.receive_state) v
                    ∙ ap next step.state
                    ∙ sym (ap (λ x. x.1.send_state) q);
                hash =
                    ap (λ x. x.1.transcript_hash) v
                    ∙ step.hash
                    ∙ sym (ap (λ x. x.1.transcript_hash) q);
              },
            );
      }

  -- The same for a run of messages: the bytes on the wire, and what a reader makes of them.
  record Run (messages : List (List ℕ)) (s : SecureConnection S) : Type 0 where
    wire : List ℕ
    sends : (send_all c t messages s).0 ≡ ok tt
    sent : l.sent (send_all c t messages s).1.connection ≡ l.sent s.connection ++ wire
    receives :
        (r : SecureConnection R) (rest : List ℕ)
        → InStep s r
        → m.CanReceive r.connection
        → m.pending r.connection ≡ wire ++ rest
        → ((receive_all c u (length messages) r).0 ≡ ok messages)
          × (m.pending (receive_all c u (length messages) r).1.connection ≡ rest)
          × InStep (send_all c t messages s).1 (receive_all c u (length messages) r).1

  runs :
      (messages : List (List ℕ)) (s : SecureConnection S)
      → l.CanSend s.connection
      → IsKeyed s.send_state s.transcript_hash
      → All Fits messages
      → s.send_state.sequence + length messages < 2 ^ 64
      → Run messages s
  unfolding send_all receive_all
  runs [] s can keyed fits room = record {
    wire = [];
    sends = refl;
    sent = sym (append-nil (l.sent s.connection));
    receives = λ r rest step ready p. (refl, p, step);
  }
  runs (x ∷ xs) s can keyed (fit, fits) room =
      let o = one x s can keyed fit (omega arith) in
      let s' = (send c t x s).1 in
      let tail =
        runs xs s' o.can
          (subst (λ d. IsKeyed d s'.transcript_hash) (sym o.after)
            (record {
              key = keyed.key;
              prefix = keyed.prefix;
              digest = ap length o.hash ∙ keyed.digest;
            }))
          fits (ground (arith, o.after)) in
      let q : send_all c t (x ∷ xs) s ≡ send_all c t xs s' = ground (arith, o.sends) in
      record {
        wire = o.wire ++ tail.wire;
        sends = ap (λ y. y.0) q ∙ tail.sends;
        sent =
            ap (λ y. l.sent y.1.connection) q
            ∙ tail.sent
            ∙ ap (λ y. y ++ tail.wire) o.sent
            ∙ append_assoc (l.sent s.connection) o.wire tail.wire;
        receives = λ r rest step ready p.
            let (a, b, can', step') =
              o.receives r (tail.wire ++ rest) step ready
                (p ∙ append_assoc o.wire tail.wire rest) in
            let (a', b', step2) = tail.receives (receive c u r).1 rest step' can' b in
            let v : receive_all c u (suc (length xs)) r
                ≡ (ok (x ∷ xs), (receive_all c u (length xs) (receive c u r).1).1) =
              ground (arith, a, a') in
            (
              ap (λ y. y.0) v,
              ap (λ y. m.pending y.1.connection) v ∙ b',
              subst (λ y. InStep y.1 (receive_all c u (suc (length xs)) r).1) (sym q)
                  (subst (λ y. InStep (send_all c t xs s').1 y.1) (sym v) step2),
            );
      }

  -- Over two ordered streams and between two ends in step: messages that fit, sent one after the
  -- other, are received one after the other, unchanged and in order, once their bytes have
  -- arrived; then the two ends are in step again, and what stood behind the messages is still to
  -- be read. It needs sequence numbers for all of them, and a key, a nonce prefix and a transcript
  -- hash of 32, 4 and 32 bytes, as the handshake derives them.
  pub conversation :
      (messages : List (List ℕ)) (wire rest : List ℕ) (s : SecureConnection S)
      (r : SecureConnection R)
      → l.CanSend s.connection
      → m.CanReceive r.connection
      → InStep s r
      → IsKeyed s.send_state s.transcript_hash
      → All Fits messages
      → s.send_state.sequence + length messages < 2 ^ 64
      → l.sent (send_all c t messages s).1.connection ≡ l.sent s.connection ++ wire
      → m.pending r.connection ≡ wire ++ rest
      → ((send_all c t messages s).0 ≡ ok tt)
        × ((receive_all c u (length messages) r).0 ≡ ok messages)
        × (m.pending (receive_all c u (length messages) r).1.connection ≡ rest)
        × InStep (send_all c t messages s).1 (receive_all c u (length messages) r).1
  conversation messages wire rest s r can ready step keyed fits room w p =
      let run = runs messages s can keyed fits room in
      let same =
        (append-cancel (l.sent s.connection) (l.sent s.connection) refl (sym w ∙ run.sent)).1 in
      let (got, left, step') = run.receives r rest step ready (p ∙ ap (λ x. x ++ rest) same) in
      (run.sends, got, left, step')
