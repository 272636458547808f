-- ===== src/Secure/Handshake/Sound.antt =====
-- What a handshake that returns a secure connection has done (crates/taunicorn/src/security.rs).
use taunicorn.Prelude.{
  ℕ, ◌≡◌, sym, ap, subst, ◌∙◌, not, Option, none, some, List, bytes_eq, bytes_eq→eq, if◌then◌else◌,
  arith,
}
use taunicorn.Outcome.{ok, invalid_server_confirmation, invalid_client_confirmation}
use taunicorn.Outcome.Chains.{first_call, passed, passed_last}
use taunicorn.Outcome.Action.{Action, lift}
use taunicorn.Stream.{ByteStream}
use taunicorn.Secure.{ClientHello, ServerHello, client_finished, server_finished}
use taunicorn.Secure.Crypto.{Crypto}
use taunicorn.Secure.Wire.{decode_server_hello, encode_client_hello, encode_server_hello}
use taunicorn.Secure.Frame.{read_frame, write_frame}
use taunicorn.Secure.Session.{SecureConnection, send, receive}
use taunicorn.Secure.Session.Sequence.{is_ok, next, send_sequence, receive_sequence}
use taunicorn.Secure.Establish.{
  Established, random_handshake_nonce, client_offer, client_establish, server_accept, server_offer,
  server_establish,
}
use taunicorn.Secure.Handshake.{confirm, confirm_client, confirm_server, client, server}

abbrev start : {S : Type 0} → Established → S → SecureConnection S
start e connection = record {
  connection = connection;
  receive_state = e.receive_state;
  send_state = e.send_state;
  transcript_hash = e.transcript_hash;
}

-- A secure connection is returned as the key confirmation has left it.
confirmed :
    {S : Type 0} (e : Established) (exchange : Action (SecureConnection S) (Unit {0})) (s : S)
    (secure : SecureConnection S)
    → (confirm e exchange s).0 ≡ ok secure
    → ((exchange (start e s)).0 ≡ ok tt) × ((exchange (start e s)).1 ≡ secure)
confirmed e exchange s secure h = ground arith

-- The states after a key confirmation: each direction has carried one message.
record Confirmed {S : Type 0} (x y : SecureConnection S) : Type 0 where
  receive_state : y.receive_state ≡ next x.receive_state
  send_state : y.send_state ≡ next x.send_state
  transcript_hash : y.transcript_hash ≡ x.transcript_hash

module _ (c : Crypto) {S : Type 0} (t : ByteStream S) where
  sent_one :
      (m : List ℕ) (x : SecureConnection S)
      → (send c t m x).0 ≡ ok tt
      → ((send c t m x).1.send_state ≡ next x.send_state)
        × ((send c t m x).1.receive_state ≡ x.receive_state)
        × ((send c t m x).1.transcript_hash ≡ x.transcript_hash)
  sent_one m x e =
      let (a, b, d) = send_sequence c t m x in
      (a ∙ ap (λ r. if is_ok r then next x.send_state else x.send_state) e, b, d)

  received_one :
      (m : List ℕ) (x : SecureConnection S)
      → (receive c t x).0 ≡ ok m
      → ((receive c t x).1.receive_state ≡ next x.receive_state)
        × ((receive c t x).1.send_state ≡ x.send_state)
        × ((receive c t x).1.transcript_hash ≡ x.transcript_hash)
  received_one m x e =
      let (a, b, d) = receive_sequence c t x in
      (a ∙ ap (λ r. if is_ok r then next x.receive_state else x.receive_state) e, b, d)

  client-Confirmed :
      (x : SecureConnection S)
      → (confirm_client c t x).0 ≡ ok tt
      → ((receive c t x).0 ≡ ok server_finished) × Confirmed x (confirm_client c t x).1
  unfolding confirm_client
  client-Confirmed x e =
      let (m, p, q, e) = first_call (receive c t) _ x e in
      let (b, z) =
        passed (not (bytes_eq m server_finished)) invalid_server_confirmation
          (send c t client_finished) (receive c t x).1 e in
      let (ra, rb, rc) = received_one m x p in
      let (sa, sb, sc) = sent_one client_finished (receive c t x).1 (sym (ap (λ r. r.0) z) ∙ e) in
      let w = q ∙ z in
      (
        p ∙ ap ok (bytes_eq→eq m server_finished (ground arith)),
        record {
          receive_state = ap (λ r. r.1.receive_state) w ∙ sb ∙ ra;
          send_state = ap (λ r. r.1.send_state) w ∙ sa ∙ ap next rb;
          transcript_hash = ap (λ r. r.1.transcript_hash) w ∙ sc ∙ rc;
        },
      )

  server-Confirmed :
      (x : SecureConnection S)
      → (confirm_server c t x).0 ≡ ok tt
      → ((receive c t (send c t server_finished x).1).0 ≡ ok client_finished)
        × Confirmed x (confirm_server c t x).1
  unfolding confirm_server
  server-Confirmed x e =
      let (_, p, q, e) = first_call (send c t server_finished) _ x e in
      let y = (send c t server_finished x).1 in
      let (m, p', q', e) = first_call (receive c t) _ y e in
      let (b, z) =
        passed_last (not (bytes_eq m client_finished)) invalid_client_confirmation (receive c t y).1
          e in
      let (sa, sb, sc) = sent_one server_finished x p in
      let (ra, rb, rc) = received_one m y p' in
      let w = q ∙ q' ∙ z in
      (
        p' ∙ ap ok (bytes_eq→eq m client_finished (ground arith)),
        record {
          receive_state = ap (λ r. r.1.receive_state) w ∙ ra ∙ ap next sb;
          send_state = ap (λ r. r.1.send_state) w ∙ rb ∙ sa;
          transcript_hash = ap (λ r. r.1.transcript_hash) w ∙ rc ∙ sc;
        },
      )

  -- What a client that returns `secure` has done.
  pub record ClientDone (private pinned ephemeral : List ℕ) (drawn : Option (List ℕ))
      (secure : SecureConnection S) : Type 0 where
    pub nonce : List ℕ
    pub hello : ServerHello
    pub established : Established
    pub before : S
    pub nonce_drawn : drawn ≡ some nonce
    pub agreed :
        client_establish c (client_offer c private pinned ephemeral nonce) pinned ephemeral hello
        ≡ ok established
    pub heard : (receive c t (start established before)).0 ≡ ok server_finished
    pub receive_state : secure.receive_state ≡ next established.receive_state
    pub send_state : secure.send_state ≡ next established.send_state
    pub transcript_hash : secure.transcript_hash ≡ established.transcript_hash

  drawn_nonce :
      (drawn : Option (List ℕ)) (nonce : List ℕ)
      → random_handshake_nonce drawn ≡ ok nonce
      → drawn ≡ some nonce
  unfolding random_handshake_nonce
  drawn_nonce none nonce e = absurd (cc e)
  drawn_nonce (some n) nonce e = cc e

  -- A client that returns a secure connection has drawn a nonce, has accepted a server hello by all of
  -- the client's checks, and has then received the server's confirmation under the derived keys; each
  -- direction has carried one message, and the transcript hash is the derived one.
  pub client_sound :
      (private pinned ephemeral : List ℕ) (drawn : Option (List ℕ)) (s : S)
      (secure : SecureConnection S)
      → (client c t private pinned ephemeral drawn s).0 ≡ ok secure
      → ClientDone private pinned ephemeral drawn secure
  unfolding client
  client_sound private pinned ephemeral drawn s secure e =
      let (nonce, p, _, e) = first_call (lift (random_handshake_nonce drawn)) _ s e in
      let offer = client_offer c private pinned ephemeral nonce in
      let (_, _, _, e) = first_call (write_frame t (encode_client_hello offer)) _ s e in
      let s1 = (write_frame t (encode_client_hello offer) s).1 in
      let (frame, _, _, e) = first_call (read_frame t) _ s1 e in
      let s2 = (read_frame t s1).1 in
      let (hello, _, _, e) = first_call (lift (decode_server_hello frame)) _ s2 e in
      let (x, a, _, e) =
        first_call (lift (client_establish c offer pinned ephemeral hello)) _ s2 e in
      let (done', same) = confirmed x (confirm_client c t) s2 secure e in
      let (heard, k) = client-Confirmed (start x s2) done' in
      let k' = subst (Confirmed (start x s2)) same k in
      record {
        nonce = nonce;
        hello = hello;
        established = x;
        before = s2;
        nonce_drawn = drawn_nonce drawn nonce p;
        agreed = a;
        heard = heard;
        receive_state = k'.receive_state;
        send_state = k'.send_state;
        transcript_hash = k'.transcript_hash;
      }

  -- What a server that returns `secure` has done.
  pub record ServerDone (pinned private ephemeral : List ℕ) (drawn : Option (List ℕ))
      (secure : SecureConnection S) : Type 0 where
    pub frame : List ℕ
    pub hello : ClientHello
    pub nonce : List ℕ
    pub established : Established
    pub before : S
    pub accepted : server_accept c private pinned frame ≡ ok hello
    pub nonce_drawn : drawn ≡ some nonce
    pub agreed :
        server_establish c hello ephemeral (server_offer c private hello ephemeral nonce)
        ≡ ok established
    pub heard :
        (receive c t (send c t server_finished (start established before)).1).0 ≡ ok client_finished
    pub receive_state : secure.receive_state ≡ next established.receive_state
    pub send_state : secure.send_state ≡ next established.send_state
    pub transcript_hash : secure.transcript_hash ≡ established.transcript_hash

  -- A server that returns a secure connection has accepted a client hello by all of the server's
  -- checks, has derived its keys from that hello and its own, and has then received the client's
  -- confirmation under these keys; each direction has carried one message, and the transcript hash is
  -- the derived one.
  pub server_sound :
      (pinned private ephemeral : List ℕ) (drawn : Option (List ℕ)) (s : S)
      (secure : SecureConnection S)
      → (server c t pinned private ephemeral drawn s).0 ≡ ok secure
      → ServerDone pinned private ephemeral drawn secure
  unfolding server
  server_sound pinned private ephemeral drawn s secure e =
      let (frame, _, _, e) = first_call (read_frame t) _ s e in
      let s1 = (read_frame t s).1 in
      let (hello, h, _, e) = first_call (lift (server_accept c private pinned frame)) _ s1 e in
      let (nonce, p, _, e) = first_call (lift (random_handshake_nonce drawn)) _ s1 e in
      let offer = server_offer c private hello ephemeral nonce in
      let (_, _, _, e) = first_call (write_frame t (encode_server_hello offer)) _ s1 e in
      let s2 = (write_frame t (encode_server_hello offer) s1).1 in
      let (x, a, _, e) = first_call (lift (server_establish c hello ephemeral offer)) _ s2 e in
      let (done', same) = confirmed x (confirm_server c t) s2 secure e in
      let (heard, k) = server-Confirmed (start x s2) done' in
      let k' = subst (Confirmed (start x s2)) same k in
      record {
        frame = frame;
        hello = hello;
        nonce = nonce;
        established = x;
        before = s2;
        accepted = h;
        nonce_drawn = drawn_nonce drawn nonce p;
        agreed = a;
        heard = heard;
        receive_state = k'.receive_state;
        send_state = k'.send_state;
        transcript_hash = k'.transcript_hash;
      }
