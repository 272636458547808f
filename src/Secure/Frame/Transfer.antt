-- ===== src/Secure/Frame/Transfer.antt =====
-- Frames over an ordered stream (crates/taunicorn/src/security.rs): what `write_frame` sends and
-- what `read_frame` makes of the bytes that arrive.
use taunicorn.Prelude.{
  ℕ, ◌^◌, ◌≤◌, ◌<◌, ◌≡◌, refl, sym, ap, ◌∙◌, subst, ◌⊎◌, List, ◌∷◌, append_assoc, [], ◌++◌, length,
  take, drop, arith, length-append, take-append, drop-append, append-cancel, ◌==◌, ltb,
  if◌then◌else◌,
}
use taunicorn.Bytes.{be_bytes, length-be_bytes, from_be_bytes-be_bytes}
use taunicorn.Outcome.{ok, err, zero_length_frame, frame_too_large}
use taunicorn.Stream.{ByteStream, StreamLaws}
use taunicorn.Secure.{max_frame_size}
use taunicorn.Secure.Frame.{read_exact, read_frame, write_frame}
use taunicorn.Secure.Frame.Reading.{Took, read_exact_takes}

module _ {S : Type 0} (t : ByteStream S) (l : StreamLaws t) where
  open l use {sent, pending, CanSend, CanReceive, send_ok, send_appends, send_keeps}

  -- A payload that fits is sent in one piece behind its length.
  pub record Wrote (payload : List ℕ) (s : S) : Type 0 where
    pub result : (write_frame t payload s).0 ≡ ok tt
    pub bytes :
        sent (write_frame t payload s).1 ≡ sent s ++ (be_bytes 4 (length payload) ++ payload)
    pub ready : CanSend (write_frame t payload s).1

  pub write_frame-Wrote :
      (payload : List ℕ) (s : S)
      → CanSend s
      → 0 < length payload
      → length payload ≤ max_frame_size
      → Wrote payload s
  unfolding write_frame
  write_frame-Wrote payload s can nonempty fits =
      let b : List ℕ = be_bytes 4 (length payload) ++ payload in
      record {
        result = ground (arith, send_ok b s can);
        bytes = ground (arith, send_appends b s can);
        ready = ground (arith, send_keeps b s can);
      }

  -- What `read_frame` does with four pending header bytes that spell `size`.
  module _ (size : ℕ) (more : List ℕ) (s : S) (can : CanReceive s) (small : size < 2 ^ 32)
      (p : pending s ≡ be_bytes 4 size ++ more) where
    abbrev header : Took t l 4 [] s (read_exact t 4 s)
    header =
        read_exact_takes t l 4 s can (omega arith)
          (omega (arith, ap length p, length-append (be_bytes 4 size) more, length-be_bytes 4 size))

    header_bytes : (read_exact t 4 s).0 ≡ ok (be_bytes 4 size)
    header_bytes =
        header.result
        ∙ ap ok
            (ap (take 4) p ∙ take-append (be_bytes 4 size) more 4 (sym (length-be_bytes 4 size)))

    header_rest : pending (read_exact t 4 s).1 ≡ more
    header_rest =
        header.rest
        ∙ ap (drop 4) p
        ∙ drop-append (be_bytes 4 size) more 4 (sym (length-be_bytes 4 size))

    read_frame_header : read_frame t s ≡ (
        if size == 0
        then (err zero_length_frame, (read_exact t 4 s).1)
        else if ltb max_frame_size size
        then (err (frame_too_large size), (read_exact t 4 s).1)
        else read_exact t size (read_exact t 4 s).1)
    unfolding read_frame
    read_frame_header =
        ground (arith, header_bytes, length-be_bytes 4 size, from_be_bytes-be_bytes 4 size)

    -- A header of no bytes, or of more than the limit, ends the read.
    read_frame_refuses :
        (size ≡ 0) ⊎ (max_frame_size < size)
        → (read_frame t s).0 ≡ err (if size == 0 then zero_length_frame else frame_too_large size)
    read_frame_refuses h = rw read_frame_header (ground arith)

  -- The next frame of what is pending.
  pub record ReadOne (payload rest : List ℕ) (s : S) : Type 0 where
    pub result : (read_frame t s).0 ≡ ok payload
    pub bytes : pending (read_frame t s).1 ≡ rest
    pub ready : CanReceive (read_frame t s).1

  pub read_frame-ReadOne :
      (payload rest : List ℕ) (s : S)
      → CanReceive s
      → 0 < length payload
      → length payload ≤ max_frame_size
      → pending s ≡ be_bytes 4 (length payload) ++ (payload ++ rest)
      → ReadOne payload rest s
  read_frame-ReadOne payload rest s can nonempty fits p =
      let n = length payload in
      let more = payload ++ rest in
      let small : n < 2 ^ 32 = omega arith in
      let behind = header_rest n more s can small p in
      let took =
        read_exact_takes t l n (read_exact t 4 s).1 (header n more s can small p).ready
          (omega arith) (omega (arith, ap length behind, length-append payload rest)) in
      let whole : read_frame t s ≡ read_exact t n (read_exact t 4 s).1 =
        read_frame_header n more s can small p ∙ ground arith in
      record {
        result =
            ap (λ r. r.0) whole
            ∙ took.result
            ∙ ap ok (ap (take n) behind ∙ take-append payload rest n refl);
        bytes =
            ap (λ r. pending r.1) whole
            ∙ took.rest
            ∙ ap (drop n) behind
            ∙ drop-append payload rest n refl;
        ready = subst (λ r. CanReceive r.1) (sym whole) took.ready;
      }

-- Over two ordered streams, a frame of 1 byte to the limit, once its bytes have arrived: the
-- write succeeds, the read returns the payload, and what stood behind the frame is what is still
-- to be read.
pub frame_transfer :
    {S R : Type 0} (t : ByteStream S) (l : StreamLaws t) (u : ByteStream R) (m : StreamLaws u)
    (payload wire rest : List ℕ) (s : S) (r : R)
    → l.CanSend s
    → m.CanReceive r
    → 0 < length payload
    → length payload ≤ max_frame_size
    → l.sent (write_frame t payload s).1 ≡ l.sent s ++ wire
    → m.pending r ≡ wire ++ rest
    → ((write_frame t payload s).0 ≡ ok tt)
      × ((read_frame u r).0 ≡ ok payload)
      × (m.pending (read_frame u r).1 ≡ rest)
frame_transfer t l u m payload wire rest s r can_send can_receive nonempty fits w p =
    let wrote = write_frame-Wrote t l payload s can_send nonempty fits in
    let e = (append-cancel (l.sent s) (l.sent s) refl (sym w ∙ wrote.bytes)).1 in
    let one =
      read_frame-ReadOne u m payload rest r can_receive nonempty fits
        (p ∙ ap (λ x. x ++ rest) e ∙ append_assoc (be_bytes 4 (length payload)) payload rest) in
    (wrote.result, one.result, one.bytes)

-- `write_frame` refuses an empty payload and one above the limit, and then touches nothing.
pub write_frame_refuses :
    {S : Type 0} (t : ByteStream S) (payload : List ℕ) (s : S)
    → (length payload ≡ 0) ⊎ (max_frame_size < length payload)
    → write_frame t payload s ≡ (
      err (if length payload == 0 then zero_length_frame else frame_too_large (length payload)),
      s,
    )
unfolding write_frame
write_frame_refuses t [] s h = refl
write_frame_refuses t (b ∷ payload) s h = ground arith
