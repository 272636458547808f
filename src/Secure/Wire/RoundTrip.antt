-- ===== src/Secure/Wire/RoundTrip.antt =====
-- The hello frames: what is encoded is decoded back, and what is decoded was encoded.
use taunicorn.Prelude.{
  ℕ, ◌+◌, ◌-◌, ◌^◌, ◌≤◌, ◌<◌, ◌≡◌, ap, ◌∙◌, List, ◌∷◌, ◌++◌, length, take, drop, arith,
  length-append, take-append, drop-append, drop-drop, length-take, length-drop, sym, take-length,
}
use taunicorn.Outcome.{ok, err, hello_type}
use taunicorn.Secure.{ClientHello, ServerHello}
use taunicorn.Secure.Wire.{
  take_array, decode_client_hello, decode_server_hello, encode_client_hello, encode_server_hello,
}

-- A field that lies inside the frame is read, and the offset moves behind it.
pub take_array_inside :
    (n : ℕ) (frame : List ℕ) (offset : ℕ)
    → offset + n ≤ length frame
    → length frame < 2 ^ 64
    → take_array n frame offset ≡ ok (take n (drop offset frame), offset + n)
unfolding take_array
take_array_inside n frame offset h small = ground (
  arith,
  length-take n (drop offset frame),
  length-drop offset frame,
  ap (λ k. take k (drop offset frame)) width,
)
  where
    width : offset + n - offset ≡ n
    width = omega arith

-- The frame of a hello, and the fields at the decoder's offsets.
module _ (t v : ℕ) (i e n s : List ℕ) where
  abbrev frame : List ℕ
  frame = t ∷ v ∷ (i ++ (e ++ (n ++ s)))

  module _ (hi : length i ≡ 32) (he : length e ≡ 32) (hn : length n ≡ 32) (hs : length s ≡ 64) where
    length-frame : length frame ≡ 162
    length-frame =
        omega (arith, length-append i (e ++ (n ++ s)), length-append e (n ++ s), length-append n s)

    at_identity : take_array 32 frame 2 ≡ ok (i, 34)
    at_identity =
        take_array_inside 32 frame 2 (omega (arith, length-frame)) (omega (arith, length-frame))
        ∙ ap (λ l. ok (l, 34)) (take-append i (e ++ (n ++ s)) 32 (sym hi))

    after_identity : drop 34 frame ≡ e ++ (n ++ s)
    after_identity = drop-append i (e ++ (n ++ s)) 32 (sym hi)

    at_ephemeral : take_array 32 frame 34 ≡ ok (e, 66)
    at_ephemeral =
        take_array_inside 32 frame 34 (omega (arith, length-frame)) (omega (arith, length-frame))
        ∙ ap (λ l. ok (take 32 l, 66)) after_identity
        ∙ ap (λ l. ok (l, 66)) (take-append e (n ++ s) 32 (sym he))

    after_ephemeral : drop 66 frame ≡ n ++ s
    after_ephemeral =
        sym (drop-drop 34 32 frame)
        ∙ ap (drop 32) after_identity
        ∙ drop-append e (n ++ s) 32 (sym he)

    at_nonce : take_array 32 frame 66 ≡ ok (n, 98)
    at_nonce =
        take_array_inside 32 frame 66 (omega (arith, length-frame)) (omega (arith, length-frame))
        ∙ ap (λ l. ok (take 32 l, 98)) after_ephemeral
        ∙ ap (λ l. ok (l, 98)) (take-append n s 32 (sym hn))

    after_nonce : drop 98 frame ≡ s
    after_nonce =
        sym (drop-drop 66 32 frame) ∙ ap (drop 32) after_ephemeral ∙ drop-append n s 32 (sym hn)

    at_signature : take_array 64 frame 98 ≡ ok (s, 162)
    at_signature =
        take_array_inside 64 frame 98 (omega (arith, length-frame)) (omega (arith, length-frame))
        ∙ ap (λ l. ok (take 64 l, 162)) after_nonce
        ∙ ap (λ l. ok (l, 162)) (take-length 64 s (omega arith))

pub record IsSizedClient (h : ClientHello) : Type 0 where
  pub identity : length h.identity_public_key ≡ 32
  pub ephemeral : length h.ephemeral_public_key ≡ 32
  pub nonce : length h.nonce ≡ 32
  pub signature : length h.signature ≡ 64

pub record IsSizedServer (h : ServerHello) : Type 0 where
  pub identity : length h.identity_public_key ≡ 32
  pub ephemeral : length h.ephemeral_public_key ≡ 32
  pub nonce : length h.nonce ≡ 32
  pub signature : length h.signature ≡ 64

module _ (i e n s : List ℕ) (hi : length i ≡ 32) (he : length e ≡ 32) (hn : length n ≡ 32)
    (hs : length s ≡ 64) where
  pub client_round_trip :
      let h : ClientHello = record {
        identity_public_key = i;
        ephemeral_public_key = e;
        nonce = n;
        signature = s;
      } in
      decode_client_hello (encode_client_hello h) ≡ ok h
  unfolding decode_client_hello encode_client_hello
  client_round_trip = ground (
    arith,
    length-frame 1 2 i e n s hi he hn hs,
    at_identity 1 2 i e n s hi he hn hs,
    at_ephemeral 1 2 i e n s hi he hn hs,
    at_nonce 1 2 i e n s hi he hn hs,
    at_signature 1 2 i e n s hi he hn hs,
  )

  pub server_round_trip :
      let h : ServerHello = record {
        identity_public_key = i;
        ephemeral_public_key = e;
        nonce = n;
        signature = s;
      } in
      decode_server_hello (encode_server_hello h) ≡ ok h
  unfolding decode_server_hello encode_server_hello
  server_round_trip = ground (
    arith,
    length-frame 2 2 i e n s hi he hn hs,
    at_identity 2 2 i e n s hi he hn hs,
    at_ephemeral 2 2 i e n s hi he hn hs,
    at_nonce 2 2 i e n s hi he hn hs,
    at_signature 2 2 i e n s hi he hn hs,
  )

-- Each hello whose fields have their sizes is read back from its frame by the decoder of its side.
pub decode-encode_hello :
    (c : ClientHello) (s : ServerHello)
    → IsSizedClient c
    → IsSizedServer s
    → (decode_client_hello (encode_client_hello c) ≡ ok c)
      × (decode_server_hello (encode_server_hello s) ≡ ok s)
decode-encode_hello c s z y = (
  client_round_trip _ _ _ _ z.identity z.ephemeral z.nonce z.signature,
  server_round_trip _ _ _ _ y.identity y.ephemeral y.nonce y.signature,
)

-- A hello whose fields have their sizes is never read as one of the other side: the decoder
-- refuses its type.
pub decode_other_side :
    (c : ClientHello) (s : ServerHello)
    → IsSizedClient c
    → IsSizedServer s
    → (decode_server_hello (encode_client_hello c) ≡ err hello_type)
      × (decode_client_hello (encode_server_hello s) ≡ err hello_type)
unfolding decode_client_hello encode_client_hello decode_server_hello encode_server_hello
decode_other_side c s z y = (
  ground (arith, length-frame 1 2 _ _ _ _ z.identity z.ephemeral z.nonce z.signature),
  ground (arith, length-frame 2 2 _ _ _ _ y.identity y.ephemeral y.nonce y.signature),
)
