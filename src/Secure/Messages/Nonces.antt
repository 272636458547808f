-- ===== src/Secure/Messages/Nonces.antt =====
-- Nonces and associated data: distinct sequence numbers and directions give distinct values.
use taunicorn.Prelude.{ℕ, ◌^◌, ◌<◌, ◌≡◌, sym, ◌∙◌, List, ◌++◌, length, append-cancel}
use taunicorn.Bytes.{be_bytes, be_bytes-injective, length-be_bytes}
use taunicorn.Secure.Messages.{make_aad, make_nonce}

-- For prefixes of one length and sequence numbers of 64 bits, equal nonces come from equal
-- prefixes and equal sequence numbers.
pub make_nonce-injective :
    (prefix prefix' : List ℕ) (v w : ℕ)
    → length prefix ≡ length prefix'
    → v < 2 ^ 64
    → w < 2 ^ 64
    → make_nonce prefix (be_bytes 8 v) ≡ make_nonce prefix' (be_bytes 8 w)
    → (prefix ≡ prefix') × (v ≡ w)
unfolding make_nonce
make_nonce-injective prefix prefix' v w l hv hw e =
    let (p, q) = append-cancel prefix prefix' l e in (p, be_bytes-injective 8 v w hv hw q)

-- For sequence numbers of 64 bits, equal associated data come from one direction, one sequence
-- number and one transcript hash.
pub make_aad-injective :
    (d d' v w : ℕ) (h h' : List ℕ)
    → v < 2 ^ 64
    → w < 2 ^ 64
    → make_aad d (be_bytes 8 v) h ≡ make_aad d' (be_bytes 8 w) h'
    → (d ≡ d') × (v ≡ w) × (h ≡ h')
unfolding make_aad
make_aad-injective d d' v w h h' hv hw e =
    let t : be_bytes 8 v ++ h ≡ be_bytes 8 w ++ h' = cc e in
    let (p, q) =
      append-cancel (be_bytes 8 v) (be_bytes 8 w) (length-be_bytes 8 v ∙ sym (length-be_bytes 8 w))
        t in
    (cc e, be_bytes-injective 8 v w hv hw p, q)
