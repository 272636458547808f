-- ===== src/Tests/Toy.antt =====
-- Parameters to run the model on: a toy cryptography that satisfies the laws, and a pipe that hands
-- out three bytes at a time.
use Prim.Native.Nat.{min}
use taunicorn.Prelude.{
  ℕ, ◌+◌, ◌-◌, ◌<◌, ◌≡◌, refl, sym, ap, ◌∙◌, not, none, some, List, [], ◌∷◌, ◌++◌, length, take,
  drop, replicate, is_empty, bytes_eq, bytes_eq_refl, arith, ◌==◌, if◌then◌else◌, length-append,
  length-take, length-replicate, take-append, drop-append,
}
use taunicorn.Outcome.{ok}
use taunicorn.Stream.{data_read, end_of_stream, ByteStream, Received, StreamLaws}
use taunicorn.Secure.Crypto.{Crypto, CryptoLaws}

abbrev pub pad : ℕ → List ℕ → List ℕ
pad n xs = take n (xs ++ replicate n 0)

length-pad : (n : ℕ) (xs : List ℕ) → length (pad n xs) ≡ n
length-pad n xs = omega (
  arith,
  length-take n (xs ++ replicate n 0),
  length-append xs (replicate n 0),
  length-replicate {A = ℕ} n 0,
)

abbrev pub total : List ℕ → ℕ
total [] = 0
total (x ∷ xs) = x + total xs

-- The tag of a ciphertext.
abbrev pub tag : List ℕ → List ℕ → List ℕ → List ℕ
tag k n a = pad 16 (total k ∷ total n ∷ total a ∷ [])

abbrev pub toy : Crypto
toy = record {
  verifying_key = λ k. pad 32 k;
  sign = λ k m. pad 64 (pad 32 k ++ m);
  is_key = λ k. length k == 32;
  is_signature = λ s. length s == 64;
  verify = λ k m s. bytes_eq s (pad 64 (k ++ m));
  x25519_public = λ x. pad 32 x;
  diffie_hellman = λ x p. (total (pad 32 x) + total p) ∷ [];
  was_contributory = λ s. not (bytes_eq s (0 ∷ []));
  hkdf = λ salt secret info n. some (pad n (secret ++ salt));
  sha256 = λ m. pad 32 m;
  encrypt = λ k n a m. some (m ++ tag k n a);
  decrypt = λ k n a ct.
      if bytes_eq (drop (length ct - 16) ct) (tag k n a)
      then some (take (length ct - 16) ct)
      else none;
}

decrypt-encrypt_toy : (k n a m : List ℕ) → toy.decrypt k n a (m ++ tag k n a) ≡ some m
decrypt-encrypt_toy k n a m =
    let e : length (m ++ tag k n a) - 16 ≡ length m =
      omega
        (arith, length-append m (tag k n a), length-pad 16 (total k ∷ total n ∷ total a ∷ [])) in
    rw
      (
        e,
        drop-append m (tag k n a) (length m) refl,
        take-append m (tag k n a) (length m) refl,
        bytes_eq_refl (tag k n a),
      )
      refl

some-injective : {A : Type 0} {a b : A} → some a ≡ some b → a ≡ b
some-injective e = cc e

pub toy_laws : CryptoLaws toy
toy_laws = record {
  key_size = λ k _. length-pad 32 k;
  key_accepted = λ k _. ground (arith, length-pad 32 k);
  signature_size = λ k m _. length-pad 64 (pad 32 k ++ m);
  signature_accepted = λ k m _. ground (arith, length-pad 64 (pad 32 k ++ m));
  verify-sign = λ k m _. bytes_eq_refl (pad 64 (pad 32 k ++ m));
  public_size = λ x _. length-pad 32 x;
  dh_comm = λ x y _ _. ap (λ n. n ∷ []) (omega arith);
  digest_size = length-pad 32;
  hkdf_output =
      λ salt secret info n _. (pad n (secret ++ salt), refl, length-pad n (secret ++ salt));
  decrypt-encrypt =
      λ k n a m ct e. ap (toy.decrypt k n a) (sym (some-injective e)) ∙ decrypt-encrypt_toy k n a m;
  ciphertext_size = λ k n a m ct e.
      ap length (sym (some-injective e))
      ∙ omega
          (arith, length-append m (tag k n a), length-pad 16 (total k ∷ total n ∷ total a ∷ []));
  encrypt_total = λ k n a m _ _ _ _. (m ++ tag k n a, refl);
}

-- What was sent into the pipe, and what will come out of it.
pub record Pipe : Type 0 where
  pub sent : List ℕ
  pub pending : List ℕ

abbrev piece : List ℕ → List ℕ → ℕ
piece buf pending = min 3 (min (length buf) (length pending))

abbrev pub pipe : ByteStream Pipe
pipe = record {
  send = λ bytes s. (ok tt, record s { sent = s.sent ++ bytes });
  receive = λ buf s.
      let n = piece buf s.pending in
      if is_empty buf
      then (ok (data_read 0, buf), s)
      else if is_empty s.pending
      then (ok (end_of_stream, buf), s)
      else (
        ok (data_read n, take n s.pending ++ drop n buf),
        record s { pending = drop n s.pending },
      );
}

pub pipe_receives :
    (buf : List ℕ) (s : Pipe)
    → 0 < length buf
    → 0 < length s.pending
    → Received (λ p. p.pending) (λ _. Unit) buf s (pipe.receive buf s).0 (pipe.receive buf s).1
pipe_receives buf s room some' = record {
  count = piece buf s.pending;
  some_read = ground arith;
  fits = omega arith;
  available = omega arith;
  result = ground arith;
  rest = ground arith;
  ready = tt;
}

abbrev pub pipe_laws : StreamLaws pipe
pipe_laws = record {
  sent = λ s. s.sent;
  pending = λ s. s.pending;
  CanSend = λ s. Unit;
  CanReceive = λ s. Unit;
  send_ok = λ bytes s h. refl;
  send_appends = λ bytes s h. refl;
  send_keeps = λ bytes s h. tt;
  receive_some = λ buf s h room some'. pipe_receives buf s room some';
}

abbrev pub empty_pipe : Pipe
empty_pipe = record { sent = []; pending = [] }

abbrev pub holding : List ℕ → Pipe
holding bytes = record { sent = []; pending = bytes }
