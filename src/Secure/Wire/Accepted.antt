-- ===== src/Secure/Wire/Accepted.antt =====
-- The hello frames that the decoders accept are those that the encoders write.
use taunicorn.Prelude.{
  ℕ, ◌+◌, ◌≤◌, ◌≡◌, ap, ◌∙◌, List, [], ◌∷◌, ◌++◌, length, take, drop, arith, drop-drop, length-take,
  length-drop, sym, take-append-drop, take-length, Bool, true, false, not, ◌==◌,
}
use taunicorn.Outcome.{
  Error, ok, ◌>>◌, bail_if, hello_type, hello_version, hello_size as bad_hello_size,
}
use taunicorn.Secure.{ClientHello, ServerHello, hello_size, client_hello, server_hello, version}
use taunicorn.Secure.Wire.{
  byte_at, take_array, decode_client_hello, decode_server_hello, encode_client_hello,
  encode_server_hello,
}
use taunicorn.Secure.Wire.RoundTrip.{take_array_inside, IsSizedClient, IsSizedServer}

-- The four fields behind the header, put back together.
rejoin :
    (rest : List ℕ)
    → length rest ≡ 160
    → take 32 rest ++ (take 32 (drop 32 rest) ++ (take 32 (drop 64 rest) ++ take 64 (drop 96 rest)))
      ≡ rest
rejoin rest h =
    ap (λ l. take 32 rest ++ (take 32 (drop 32 rest) ++ l)) tail_two
    ∙ ap (λ l. take 32 rest ++ l) (join 32)
    ∙ take-append-drop 32 rest
  where
    join : (m : ℕ) → take 32 (drop m rest) ++ drop (m + 32) rest ≡ drop m rest
    join m =
        ap (λ l. take 32 (drop m rest) ++ l) (sym (drop-drop m 32 rest))
        ∙ take-append-drop 32 (drop m rest)

    tail_two : take 32 (drop 64 rest) ++ take 64 (drop 96 rest) ≡ drop 64 rest
    tail_two =
        ap (λ l. take 32 (drop 64 rest) ++ l)
          (take-length 64 (drop 96 rest) (omega (arith, length-drop 96 rest)))
        ∙ join 64

-- Three tests that have let the value pass.
three_bails :
    {A : Type 0} (p q r : Bool) (x y z : Error) {v w : A}
    → (bail_if p x >> (bail_if q y >> (bail_if r z >> ok v))) ≡ ok w
    → w ≡ v
three_bails false false false x y z e = cc
three_bails false false true x y z e = cc
three_bails false true r x y z e = cc
three_bails true q r x y z e = cc

-- What an accepted frame looks like, for the two decoders.
module _ (a b : ℕ) (rest : List ℕ) where
  abbrev accepted : List ℕ
  accepted = a ∷ b ∷ rest

  abbrev Fields : List ℕ → List ℕ → List ℕ → List ℕ → Type 0
  Fields i e n s =
      (length rest ≡ 160)
      × (i ≡ take 32 rest)
      × (e ≡ take 32 (drop 32 rest))
      × (n ≡ take 32 (drop 64 rest))
      × (s ≡ take 64 (drop 96 rest))

  module _ (h : length rest ≡ 160) where
    inside :
        (offset n : ℕ)
        → offset + n ≤ 162
        → take_array n accepted offset ≡ ok (take n (drop offset accepted), offset + n)
    inside offset n le = take_array_inside n accepted offset (omega arith) (omega arith)

    first : take_array 32 accepted 2 ≡ ok (take 32 rest, 34)
    first = inside 2 32 (omega arith)

    second : take_array 32 accepted 34 ≡ ok (take 32 (drop 32 rest), 66)
    second = inside 34 32 (omega arith)

    third : take_array 32 accepted 66 ≡ ok (take 32 (drop 64 rest), 98)
    third = inside 66 32 (omega arith)

    fourth : take_array 64 accepted 98 ≡ ok (take 64 (drop 96 rest), 162)
    fourth = inside 98 64 (omega arith)

  client_header :
      (h : ClientHello)
      → decode_client_hello accepted ≡ ok h
      → (length rest ≡ 160) × (a ≡ 1) × (b ≡ 2)
  unfolding decode_client_hello
  client_header h e = ground arith

  server_header :
      (h : ServerHello)
      → decode_server_hello accepted ≡ ok h
      → (length rest ≡ 160) × (a ≡ 2) × (b ≡ 2)
  unfolding decode_server_hello
  server_header h e = ground arith

  client-Fields :
      (h : ClientHello)
      → decode_client_hello accepted ≡ ok h
      → (a ≡ 1) × (b ≡ 2) × Fields h.identity_public_key h.ephemeral_public_key h.nonce h.signature
  unfolding decode_client_hello
  client-Fields h e =
      let (z, p, q) = client_header h e in
      let t =
        three_bails (not (length accepted == hello_size)) (not (byte_at accepted 0 == client_hello))
          (not (byte_at accepted 1 == version)) (bad_hello_size (length accepted)) hello_type
          (hello_version (byte_at accepted 1)) (simp (first z, second z, third z, fourth z) at e) in
      (
        p,
        q,
        (
          z,
          ap (λ x. x.identity_public_key) t,
          ap (λ x. x.ephemeral_public_key) t,
          ap (λ x. x.nonce) t,
          ap (λ x. x.signature) t,
        ),
      )

  server-Fields :
      (h : ServerHello)
      → decode_server_hello accepted ≡ ok h
      → (a ≡ 2) × (b ≡ 2) × Fields h.identity_public_key h.ephemeral_public_key h.nonce h.signature
  unfolding decode_server_hello
  server-Fields h e =
      let (z, p, q) = server_header h e in
      let t =
        three_bails (not (length accepted == hello_size)) (not (byte_at accepted 0 == server_hello))
          (not (byte_at accepted 1 == version)) (bad_hello_size (length accepted)) hello_type
          (hello_version (byte_at accepted 1)) (simp (first z, second z, third z, fourth z) at e) in
      (
        p,
        q,
        (
          z,
          ap (λ x. x.identity_public_key) t,
          ap (λ x. x.ephemeral_public_key) t,
          ap (λ x. x.nonce) t,
          ap (λ x. x.signature) t,
        ),
      )

  sizes :
      length rest ≡ 160
      → (length (take 32 rest) ≡ 32)
        × (length (take 32 (drop 32 rest)) ≡ 32)
        × (length (take 32 (drop 64 rest)) ≡ 32)
        × (length (take 64 (drop 96 rest)) ≡ 64)
  sizes h = omega (
    arith,
    length-take 32 rest,
    length-take 32 (drop 32 rest),
    length-take 32 (drop 64 rest),
    length-take 64 (drop 96 rest),
    length-drop 32 rest,
    length-drop 64 rest,
    length-drop 96 rest,
  )

-- What the client decoder accepts is the frame of a hello with fields of the right sizes, and it
-- returns that hello.
pub decode_client_hello_sound :
    (frame : List ℕ) (h : ClientHello)
    → decode_client_hello frame ≡ ok h
    → (encode_client_hello h ≡ frame) × IsSizedClient h
decode_client_hello_sound [] h e = unfold decode_client_hello in cc
decode_client_hello_sound (a ∷ []) h e = unfold decode_client_hello in cc
decode_client_hello_sound (a ∷ b ∷ rest) h e =
    let (p, q, f) = client-Fields a b rest h e in
    (unfold encode_client_hello in ground (arith, rejoin rest), ground (arith, sizes a b rest))

-- What the server decoder accepts is the frame of a hello with fields of the right sizes, and it
-- returns that hello.
pub decode_server_hello_sound :
    (frame : List ℕ) (h : ServerHello)
    → decode_server_hello frame ≡ ok h
    → (encode_server_hello h ≡ frame) × IsSizedServer h
decode_server_hello_sound [] h e = unfold decode_server_hello in cc
decode_server_hello_sound (a ∷ []) h e = unfold decode_server_hello in cc
decode_server_hello_sound (a ∷ b ∷ rest) h e =
    let (p, q, f) = server-Fields a b rest h e in
    (unfold encode_server_hello in ground (arith, rejoin rest), ground (arith, sizes a b rest))
