-- ===== src/Secure/Frame.antt =====
-- The length-prefixed frames of crates/taunicorn/src/security.rs: `read_exact`, `read_frame` and
-- `write_frame`.
pub mod Reading
pub mod Transfer
use taunicorn.Prelude.{
  ℕ, zero, suc, ◌+◌, ◌^◌, List, ◌++◌, length, take, drop, replicate, is_empty, ltb, ◌==◌,
  if◌then◌else◌,
}
use taunicorn.Bytes.{be_bytes, from_be_bytes}
use taunicorn.Outcome.{
  Outcome, ok, err, fuel_out, zero_length_frame, zero_length_read, closed_in_frame,
  receive_offset_overflow, frame_too_large, length_not_u32, invalid_length_header,
}
use taunicorn.Outcome.Action.{Action, pure, lift, ◌>>=◌, ◌>>◌, continue, bail_if}
use taunicorn.Stream.{ByteStream, ReceiveResult, data_read, end_of_stream}
use taunicorn.Secure.{max_frame_size, frame_length_size}
use taunicorn.Secure.Wire.{checked_add, ok_or, to_array}

module _ {S : Type 0} (t : ByteStream S) where
  -- The arms of the match on what one receive returned.
  unfoldable pub advance : ℕ → ReceiveResult → Outcome ℕ
  advance offset (data_read received) =
      if received == 0
      then err zero_length_read
      else ok_or (checked_add offset received) receive_offset_overflow
  advance offset end_of_stream = err closed_in_frame

  -- The loop, on the buffer and the offset. Each round that goes on has read a byte at least, so
  -- `size` rounds are enough.
  unfoldable pub read_exact_loop : ℕ → ℕ → List ℕ → ℕ → Action S (List ℕ)
  unfolding advance
  read_exact_loop zero size result offset s =
      if ltb offset size then (fuel_out, s) else (ok result, s)
  read_exact_loop (suc fuel) size result offset s =
      if ltb offset size
      then continue (t.receive (drop offset result) s).0
          (λ (received, rest).
            continue (advance offset received)
              λ offset'. read_exact_loop fuel size (take offset result ++ rest) offset')
          (t.receive (drop offset result) s).1
      else (ok result, s)

  unfoldable pub read_exact : ℕ → Action S (List ℕ)
  unfolding read_exact_loop
  read_exact size = read_exact_loop size size (replicate size 0) 0

  unfoldable pub read_frame : Action S (List ℕ)
  read_frame = do
    header ← read_exact frame_length_size
    size_bytes ← lift (to_array frame_length_size header invalid_length_header)
    let size = from_be_bytes size_bytes
    bail_if (size == 0) zero_length_frame
    bail_if (ltb max_frame_size size) (frame_too_large size)
    read_exact size

  unfoldable pub write_frame : List ℕ → Action S (Unit {0})
  write_frame payload = do
    bail_if (is_empty payload) zero_length_frame
    bail_if (ltb max_frame_size (length payload)) (frame_too_large (length payload))
    size ← lift (
        if ltb (length payload) (2 ^ 32)
        then ok (length payload)
        else err (length_not_u32 (length payload)))
    t.send (be_bytes frame_length_size size ++ payload)
