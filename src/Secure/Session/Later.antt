-- ===== src/Secure/Session/Later.antt =====
-- What a call of an encrypted session (crates/taunicorn/src/security.rs) rules out for all later ones.
use taunicorn.Prelude.{
  ℕ, ◌+◌, ◌^◌, ◌≤◌, ◌<◌, ◌≡◌, refl, sym, ap, ◌∙◌, subst, Bool, true, false, List, arith,
  if◌then◌else◌,
}
use taunicorn.Outcome.{ok, err, invalid_sequence}
use taunicorn.Stream.{ByteStream}
use taunicorn.Secure.{DirectionState}
use taunicorn.Secure.Crypto.{Crypto}
use taunicorn.Secure.Frame.{read_frame}
use taunicorn.Secure.Session.{SecureConnection, send, receive}
use taunicorn.Secure.Session.Sequence.{
  is_ok, next, send_sequence, receive_sequence, IsAuthentic, receive_sound, other_sequence_refused,
}

module _ (c : Crypto) {S : Type 0} (t : ByteStream S) where
  -- Later on: after any sends and receives, whatever they return, and any changes of the connection
  -- underneath.
  pub data After (s : SecureConnection S) : SecureConnection S → Type 0 where
    at_once : After s s
    sends :
        {u : SecureConnection S} (plaintext : List ℕ) → After s u → After s (send c t plaintext u).1
    receives : {u : SecureConnection S} → After s u → After s (receive c t u).1
    changes :
        {u : SecureConnection S} (connection : S)
        → After s u
        → After s (record u { connection = connection })

  -- The numbers never go back, and the prefix stays.
  record IsBeyond (s u : SecureConnection S) : Type 0 where
    received : s.receive_state.sequence ≤ u.receive_state.sequence
    sent : s.send_state.sequence ≤ u.send_state.sequence
    bounded : s.send_state.sequence < 2 ^ 64 → u.send_state.sequence < 2 ^ 64
    same_prefix : u.send_state.nonce_prefix ≡ s.send_state.nonce_prefix

  send_bounded :
      (plaintext : List ℕ) (s : SecureConnection S)
      → is_ok (send c t plaintext s).0 ≡ true
      → s.send_state.sequence + 1 < 2 ^ 64
  unfolding send
  send_bounded plaintext s e = ground arith

  -- A state that moved by one, or did not.
  module _ (d e : DirectionState) where
    moved-sequence : (b : Bool) → e ≡ (if b then next d else d) → d.sequence ≤ e.sequence
    moved-sequence true h = omega (arith, ap (λ x. x.sequence) h)
    moved-sequence false h = omega (arith, ap (λ x. x.sequence) h)

    moved-prefix : (b : Bool) → e ≡ (if b then next d else d) → e.nonce_prefix ≡ d.nonce_prefix
    moved-prefix true h = ap (λ x. x.nonce_prefix) h
    moved-prefix false h = ap (λ x. x.nonce_prefix) h

    moved-bounded :
        (b : Bool)
        → e ≡ (if b then next d else d)
        → (b ≡ true → d.sequence + 1 < 2 ^ 64)
        → d.sequence < 2 ^ 64
        → e.sequence < 2 ^ 64
    moved-bounded true h f g = omega (arith, ap (λ x. x.sequence) h, f refl)
    moved-bounded false h f g = omega (arith, ap (λ x. x.sequence) h)

  After-IsBeyond : {s u : SecureConnection S} → After s u → IsBeyond s u
  After-IsBeyond at_once = record {
    received = omega arith;
    sent = omega arith;
    bounded = λ h. h;
    same_prefix = refl;
  }
  After-IsBeyond (sends {u} plaintext a) =
      let o = After-IsBeyond a in
      let v = (send c t plaintext u).1 in
      let b = is_ok (send c t plaintext u).0 in
      let (m, r, _) = send_sequence c t plaintext u in
      record {
        received = omega (arith, o.received, ap (λ x. x.sequence) r);
        sent = omega (arith, o.sent, moved-sequence u.send_state v.send_state b m);
        bounded = λ h.
            moved-bounded u.send_state v.send_state b m (send_bounded plaintext u) (o.bounded h);
        same_prefix = moved-prefix u.send_state v.send_state b m ∙ o.same_prefix;
      }
  After-IsBeyond (receives {u} a) =
      let o = After-IsBeyond a in
      let v = (receive c t u).1 in
      let (m, r, _) = receive_sequence c t u in
      record {
        received = omega (
          arith,
          o.received,
          moved-sequence u.receive_state v.receive_state (is_ok (receive c t u).0) m,
        );
        sent = omega (arith, o.sent, ap (λ x. x.sequence) r);
        bounded = λ h. omega (arith, o.bounded h, ap (λ x. x.sequence) r);
        same_prefix = ap (λ x. x.nonce_prefix) r ∙ o.same_prefix;
      }
  After-IsBeyond (changes connection a) =
      let o = After-IsBeyond a in
      record {
        received = o.received;
        sent = o.sent;
        bounded = o.bounded;
        same_prefix = o.same_prefix;
      }

  -- A frame that a receive has taken its plaintext from is refused ever after: whatever sends and
  -- receives come in between and whatever they return, a receive that reads the same frame again
  -- fails with the number that it expects and the frame's, and both directions keep their state.
  pub replay_refused :
      (plaintext frame : List ℕ) (s u : SecureConnection S)
      → (receive c t s).0 ≡ ok plaintext
      → (read_frame t s.connection).0 ≡ ok frame
      → After (receive c t s).1 u
      → (read_frame t u.connection).0 ≡ ok frame
      → receive c t u ≡ (
        err (invalid_sequence u.receive_state.sequence s.receive_state.sequence),
        record u { connection = (read_frame t u.connection).1 },
      )
  replay_refused plaintext frame s u got read after again =
      let (other, read', authentic) = receive_sound c t plaintext s got in
      let same : other ≡ frame = cc (sym read' ∙ read) in
      let a = subst (IsAuthentic c t s plaintext) same authentic in
      let more : (receive c t s).1.receive_state ≡ next s.receive_state =
        (receive_sequence c t s).0
        ∙ ap (λ r. if is_ok r then next s.receive_state else s.receive_state) got in
      let beyond = (After-IsBeyond after).received in
      other_sequence_refused c t frame u again a.long_enough a.right_version
        (λ e. omega (arith, e, a.right_sequence, beyond, ap (λ x. x.sequence) more))
      ∙ ap
          (λ n. (
            err (invalid_sequence u.receive_state.sequence n),
            record u { connection = (read_frame t u.connection).1 },
          ))
          a.right_sequence
