-- ===== src/Outcome.antt =====
-- The results of the fallible functions of crates/taunicorn/src/lib.rs and security.rs. The crate
-- reports every failure as an `anyhow::Error` with a text; here each text is a constructor, with
-- the values that the text prints.
pub mod Action
pub mod Chains
use taunicorn.Prelude.{ℕ, ◌≡◌, refl, Bool, true, false, List}

-- The text of an error of the operating system.
abbrev pub IoError : Type 0
IoError = List ℕ

pub data Error : Type 0 where
  -- lib.rs
  endpoint_empty name_empty : Error
  name_rejected : IoError → Error
  server_is_stopped server_poisoned server_is_paused server_was_stopped accept_timed_out : Error
  connection_is_closed connection_was_closed connection_poisoned connection_is_paused : Error
  receive_is_shut_down receive_was_shut_down send_is_shut_down : Error
  write_returned_zero timeout_before_progress read_timed_out connect_timed_out : Error
  -- "... after {written} of {} bytes ..."
  closed_after zero_after timeout_after : ℕ → ℕ → Error
  failed_after : ℕ → ℕ → IoError → Error
  io_failed : IoError → Error
  -- security.rs
  zero_length_frame zero_length_read closed_in_frame receive_offset_overflow : Error
  frame_too_large frame_too_short length_not_u32 : ℕ → Error
  invalid_length_header invalid_sequence_encoding : Error
  unsupported_version : ℕ → Error
  invalid_sequence : ℕ → ℕ → Error
  authentication_failed encryption_failed send_exhausted receive_exhausted : Error
  hello_size hello_version : ℕ → Error
  hello_type offset_overflow field_exceeds_frame invalid_field : Error
  server_identity_mismatch client_identity_mismatch : Error
  invalid_identity_key invalid_signature_encoding verification_failed : Error
  non_contributory invalid_cipher_key hkdf_failed randomness_failed : Error
  invalid_server_confirmation invalid_client_confirmation : Error

-- `dropped` is no value of the code: the caller dropped the future at an await. `waiting`: the
-- future is still pending. `fuel_out`: a bound of the model was too small.
pub data Outcome {ℓ} (A : Type ℓ) : Type ℓ where
  ok : A → Outcome A
  err : Error → Outcome A
  dropped waiting fuel_out : Outcome A

-- `?`
infixl 5 ◌>>=◌ ◌>>◌
abbrev pub ◌>>=◌ {ℓ κ} : {A : Type ℓ} {B : Type κ} → Outcome A → (A → Outcome B) → Outcome B
ok a >>= f = f a
err e >>= f = err e
dropped >>= f = dropped
waiting >>= f = waiting
fuel_out >>= f = fuel_out

abbrev pub ◌>>◌ {ℓ} : {B : Type ℓ} → Outcome (Unit {0}) → Outcome B → Outcome B
m >> k = m >>= λ _. k

-- `if b { return Err(e) }`
abbrev pub bail_if : Bool → Error → Outcome (Unit {0})
bail_if true e = err e
bail_if false e = ok tt

-- A chain that ends well has a first part that does.
pub before_ok {κ ℓ} :
    {B : Type κ} {A : Type ℓ} {last : B} (first : Outcome A) (rest : A → Outcome B)
    → (first >>= rest) ≡ ok last
    → (value : A) × (first ≡ ok value) × (rest value ≡ ok last)
before_ok (ok value) rest e = (value, refl, e)
before_ok (err x) rest e = cc
before_ok dropped rest e = cc
before_ok waiting rest e = cc
before_ok fuel_out rest e = cc
