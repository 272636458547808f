-- ===== src/Secure/Crypto.antt =====
-- The cryptography that crates/taunicorn/src/security.rs calls: ed25519_dalek, x25519_dalek, hkdf,
-- sha2 and chacha20poly1305, as a record of operations on byte strings, and what the secure layer
-- relies on as a record of laws.
use taunicorn.Prelude.{ℕ, ◌+◌, ◌*◌, ◌^◌, ◌≤◌, ◌<◌, ◌≡◌, Bool, true, Option, some, List, length}

pub record Crypto : Type 0 where
  -- SigningKey::from_bytes(key).verifying_key().to_bytes()
  pub verifying_key : List ℕ → List ℕ
  -- SigningKey::from_bytes(key).sign(message).to_bytes()
  pub sign : List ℕ → List ℕ → List ℕ
  -- VerifyingKey::from_bytes(key).is_ok()
  pub is_key : List ℕ → Bool
  -- Signature::try_from(signature).is_ok()
  pub is_signature : List ℕ → Bool
  -- verifying_key.verify(message, signature).is_ok()
  pub verify : List ℕ → List ℕ → List ℕ → Bool
  -- X25519PublicKey::from(&secret).to_bytes()
  pub x25519_public : List ℕ → List ℕ
  -- secret.diffie_hellman(&public).as_bytes()
  pub diffie_hellman : List ℕ → List ℕ → List ℕ
  pub was_contributory : List ℕ → Bool
  -- Hkdf::<Sha256>::new(Some(salt), secret).expand(info, output), for an output of that size
  pub hkdf : List ℕ → List ℕ → List ℕ → ℕ → Option (List ℕ)
  -- the digest of what `update` was given, one piece after the other
  pub sha256 : List ℕ → List ℕ
  -- cipher of `key`: encrypt(nonce, Payload { msg, aad }), key, nonce, aad and msg in this order
  pub encrypt : List ℕ → List ℕ → List ℕ → List ℕ → Option (List ℕ)
  pub decrypt : List ℕ → List ℕ → List ℕ → List ℕ → Option (List ℕ)

-- The documented behaviour that an honest exchange rests on: keys are arrays of 32 bytes, HKDF-SHA256
-- gives at most 255 blocks of 32 bytes, and the cipher takes a key of 32 bytes and a nonce of 12, with
-- texts far below its limits.
pub record CryptoLaws (c : Crypto) : Type 0 where
  pub key_size : (k : List ℕ) → length k ≡ 32 → length (c.verifying_key k) ≡ 32
  pub key_accepted : (k : List ℕ) → length k ≡ 32 → c.is_key (c.verifying_key k) ≡ true
  pub signature_size : (k m : List ℕ) → length k ≡ 32 → length (c.sign k m) ≡ 64
  pub signature_accepted : (k m : List ℕ) → length k ≡ 32 → c.is_signature (c.sign k m) ≡ true
  pub verify-sign :
      (k m : List ℕ) → length k ≡ 32 → c.verify (c.verifying_key k) m (c.sign k m) ≡ true
  pub public_size : (x : List ℕ) → length x ≡ 32 → length (c.x25519_public x) ≡ 32
  pub dh_comm :
      (x y : List ℕ)
      → length x ≡ 32
      → length y ≡ 32
      → c.diffie_hellman x (c.x25519_public y) ≡ c.diffie_hellman y (c.x25519_public x)
  pub digest_size : (m : List ℕ) → length (c.sha256 m) ≡ 32
  pub hkdf_output :
      (salt secret info : List ℕ) (n : ℕ)
      → n ≤ 255 * 32
      → (out : List ℕ) × (c.hkdf salt secret info n ≡ some out) × (length out ≡ n)
  pub decrypt-encrypt :
      (k n a m ct : List ℕ) → c.encrypt k n a m ≡ some ct → c.decrypt k n a ct ≡ some m
  pub ciphertext_size :
      (k n a m ct : List ℕ) → c.encrypt k n a m ≡ some ct → length ct ≡ length m + 16
  pub encrypt_total :
      (k n a m : List ℕ)
      → length k ≡ 32
      → length n ≡ 12
      → length a < 2 ^ 32
      → length m < 2 ^ 32
      → (ct : List ℕ) × (c.encrypt k n a m ≡ some ct)
