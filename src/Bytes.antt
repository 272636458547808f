-- ===== src/Bytes.antt =====
-- Big-endian integers as bytes: `to_be_bytes` and `from_be_bytes` of Rust's u32 and u64.
use taunicorn.Prelude.{
  ℕ, zero, suc, ◌+◌, ◌*◌, ◌/◌, ◌%◌, ◌^◌, ◌<◌, ◌≡◌, refl, ap, ◌∙◌, List, [], ◌∷◌, ◌++◌, arith,
  length, length-append,
}

abbrev pub IsByte : ℕ → Type 0
IsByte b = b < 256

-- The `k` lowest bytes of `v`, the highest first.
unfoldable pub be_bytes : ℕ → ℕ → List ℕ
be_bytes zero v = []
be_bytes (suc k) v = be_bytes k (v / 256) ++ (v % 256 ∷ [])

unfoldable pub from_be_bytes_acc : ℕ → List ℕ → ℕ
from_be_bytes_acc acc [] = acc
from_be_bytes_acc acc (b ∷ bs) = from_be_bytes_acc (acc * 256 + b) bs

unfoldable pub from_be_bytes : List ℕ → ℕ
from_be_bytes = from_be_bytes_acc 0

pub length-be_bytes : (k v : ℕ) → length (be_bytes k v) ≡ k
unfolding be_bytes
length-be_bytes zero v = refl
length-be_bytes (suc k) v =
    omega (arith, length-append (be_bytes k (v / 256)) (v % 256 ∷ []), length-be_bytes k (v / 256))

acc-append :
    (acc : ℕ) (xs : List ℕ) (b : ℕ)
    → from_be_bytes_acc acc (xs ++ (b ∷ [])) ≡ from_be_bytes_acc acc xs * 256 + b
unfolding from_be_bytes_acc
acc-append acc [] b = refl
acc-append acc (x ∷ xs) b = acc-append (acc * 256 + x) xs b

-- Reading back the `k` bytes of a number below 256 ^ k gives the number.
pub from_be_bytes-be_bytes : (k v : ℕ) → v < 256 ^ k → from_be_bytes (be_bytes k v) ≡ v
unfolding from_be_bytes be_bytes from_be_bytes_acc
from_be_bytes-be_bytes zero v h = omega (arith)
from_be_bytes-be_bytes (suc k) v h =
    acc-append 0 (be_bytes k (v / 256)) (v % 256)
    ∙ omega (arith, from_be_bytes-be_bytes k (v / 256) (omega arith))

-- Distinct numbers below 256 ^ k have distinct bytes.
pub be_bytes-injective :
    (k v w : ℕ) → v < 256 ^ k → w < 256 ^ k → be_bytes k v ≡ be_bytes k w → v ≡ w
be_bytes-injective k v w hv hw e =
    omega (arith, from_be_bytes-be_bytes k v hv, from_be_bytes-be_bytes k w hw, ap from_be_bytes e)
