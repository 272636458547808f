-- ===== src/Secure/Messages/Binding.antt =====
-- The signed messages and the transcript bind every value that they are built from.
use taunicorn.Prelude.{
  ℕ, ◌≡◌, ◌≢◌, sym, ap, ◌∙◌, ◌⊎◌, inl, inr, List, ◌++◌, length, append-cancel, arith,
}
use taunicorn.Secure.Wire.{byte_at}
use taunicorn.Secure.Messages.{client_signature_message, server_signature_message, transcript}

-- The values of a handshake: ephemeral public keys, identities and nonces of both sides.
pub record Parts : Type 0 where
  pub client_ephemeral : List ℕ
  pub client_identity : List ℕ
  pub client_nonce : List ℕ
  pub server_ephemeral : List ℕ
  pub server_identity : List ℕ
  pub server_nonce : List ℕ

pub record IsSized (p : Parts) : Type 0 where
  pub client_ephemeral : length p.client_ephemeral ≡ 32
  pub client_identity : length p.client_identity ≡ 32
  pub client_nonce : length p.client_nonce ≡ 32
  pub server_ephemeral : length p.server_ephemeral ≡ 32
  pub server_identity : length p.server_identity ≡ 32
  pub server_nonce : length p.server_nonce ≡ 32

abbrev pub server_message : Parts → List ℕ
server_message p =
    server_signature_message p.client_ephemeral p.client_identity p.client_nonce p.server_ephemeral
      p.server_identity p.server_nonce

abbrev pub client_message : Parts → List ℕ
client_message p =
    client_signature_message p.client_ephemeral p.client_identity p.client_nonce p.server_identity

abbrev pub transcript_of : Parts → List ℕ
transcript_of p =
    transcript p.client_ephemeral p.client_identity p.client_nonce p.server_ephemeral
      p.server_identity p.server_nonce

abbrev body : Parts → List ℕ
body p =
    p.client_identity
    ++ (p.server_identity
        ++ (p.client_ephemeral ++ (p.server_ephemeral ++ (p.client_nonce ++ p.server_nonce))))

module _ (p q : Parts) (hp : IsSized p) (hq : IsSized q) where
  body-injective : body p ≡ body q → p ≡ q
  body-injective e =
      let (ci, e) = append-cancel _ _ (hp.client_identity ∙ sym hq.client_identity) e in
      let (si, e) = append-cancel _ _ (hp.server_identity ∙ sym hq.server_identity) e in
      let (ce, e) = append-cancel _ _ (hp.client_ephemeral ∙ sym hq.client_ephemeral) e in
      let (se, e) = append-cancel _ _ (hp.server_ephemeral ∙ sym hq.server_ephemeral) e in
      let (cn, sn) = append-cancel _ _ (hp.client_nonce ∙ sym hq.client_nonce) e in
      λ i. record {
        client_ephemeral = ce i;
        client_identity = ci i;
        client_nonce = cn i;
        server_ephemeral = se i;
        server_identity = si i;
        server_nonce = sn i;
      }

  -- A server signature, and the transcript, stand for one set of handshake values: with fields of
  -- the protocol's sizes, equal messages of either kind are built from equal values.
  pub handshake_binding :
      (server_message p ≡ server_message q) ⊎ (transcript_of p ≡ transcript_of q) → p ≡ q
  unfolding server_signature_message transcript
  handshake_binding (inl e) = body-injective (cc e)
  handshake_binding (inr e) = body-injective (cc e)

  -- A client signature is for one server: with fields of the protocol's sizes, equal messages
  -- name the same identities, the same ephemeral key and the same nonce.
  pub client_binding :
      client_message p ≡ client_message q
      → (p.client_identity ≡ q.client_identity)
        × (p.server_identity ≡ q.server_identity)
        × (p.client_ephemeral ≡ q.client_ephemeral)
        × (p.client_nonce ≡ q.client_nonce)
  unfolding client_signature_message
  client_binding e =
      let (ci, e) = append-cancel _ _ (hp.client_identity ∙ sym hq.client_identity) (cc e) in
      let (si, e) = append-cancel _ _ (hp.server_identity ∙ sym hq.server_identity) e in
      let (ce, cn) = append-cancel _ _ (hp.client_ephemeral ∙ sym hq.client_ephemeral) e in
      (ci, si, ce, cn)

-- The byte at which the three labels differ.
abbrev sixth : List ℕ → ℕ
sixth l = byte_at l 5

-- The three kinds of message are never equal, whatever they are built from: a signature of one
-- side does not pass for one of the other, nor for a transcript.
pub domain_separation :
    (p q : Parts)
    → (client_message p ≢ server_message q)
      × (client_message p ≢ transcript_of q)
      × (server_message p ≢ transcript_of q)
unfolding client_signature_message server_signature_message transcript
domain_separation p q = (
  λ e. absurd (omega (arith, ap sixth e)),
  λ e. absurd (omega (arith, ap sixth e)),
  λ e. absurd (omega (arith, ap sixth e)),
)
