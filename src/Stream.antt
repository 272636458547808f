-- ===== src/Stream.antt =====
-- What the secure layer uses of a connection: `Connection::send` and `Connection::receive`
-- (crates/taunicorn/src/lib.rs), and what it relies on them for.
use taunicorn.Prelude.{ℕ, ◌≤◌, ◌<◌, ◌≡◌, List, ◌++◌, length, take, drop}
use taunicorn.Outcome.{Outcome, ok}
use taunicorn.Outcome.Action.{Action}

-- `ReceiveResult` of lib.rs.
pub data ReceiveResult : Type 0 where
  data_read : ℕ → ReceiveResult
  end_of_stream : ReceiveResult

-- `receive` is given the buffer and returns it as it left it.
pub record ByteStream (S : Type 0) : Type 0 where
  pub send : List ℕ → Action S (Unit {0})
  pub receive : List ℕ → Action S (ReceiveResult × List ℕ)

-- One receive into `buf` takes the `n` next bytes of what is pending.
pub record Received {S : Type 0} (pending : S → List ℕ) (Ready : S → Type 0) (buf : List ℕ) (s : S)
    (r : Outcome (ReceiveResult × List ℕ)) (s' : S) : Type 0 where
  pub count : ℕ
  pub some_read : 0 < count
  pub fits : count ≤ length buf
  pub available : count ≤ length (pending s)
  pub result : r ≡ ok (data_read count, take count (pending s) ++ drop count buf)
  pub rest : pending s' ≡ drop count (pending s)
  pub ready : Ready s'

-- An ordered byte stream: `sent` is what was handed over so far, `pending` what will be read.
-- `CanSend` and `CanReceive` say that no failure of the transport intervenes.
pub record StreamLaws {S : Type 0} (t : ByteStream S) : Type 1 where
  pub sent : S → List ℕ
  pub pending : S → List ℕ
  pub CanSend : S → Type 0
  pub CanReceive : S → Type 0
  pub send_ok : (bytes : List ℕ) (s : S) → CanSend s → (t.send bytes s).0 ≡ ok tt
  pub send_appends :
      (bytes : List ℕ) (s : S) → CanSend s → sent (t.send bytes s).1 ≡ sent s ++ bytes
  pub send_keeps : (bytes : List ℕ) (s : S) → CanSend s → CanSend (t.send bytes s).1
  pub receive_some :
      (buf : List ℕ) (s : S)
      → CanReceive s
      → 0 < length buf
      → 0 < length (pending s)
      → Received pending CanReceive buf s (t.receive buf s).0 (t.receive buf s).1
