-- ===== src/Python/Session.antt =====
-- `SecureSession` and the calls of `PySecureConnection` of crates/taunicorn-python/src/security.rs,
-- for one of its two directions: a gate, any number of calls of `send`, or of `receive`, step by
-- step, and the token that both directions share. The other direction, `close`, `abort` and the
-- callbacks of Python futures cancel the token; the connection below may close at any time.
pub mod Limits
pub mod Orderly
pub mod Terminal
pub mod Cancelled
use taunicorn.Prelude.{
  ℕ, ◌≡◌, Bool, true, false, ◌||◌, Option, none, some, List, [], ◌∷◌, ◌==◌, if◌then◌else◌,
}

-- How a call ends: it returns, it raises `closed_error`, it raises what the connection below reports,
-- or its future was dropped.
pub data End : Type 0 where
  returned session_closed failed dropped : End

-- Where a call stands. `waiting` looks at the token and then, in `locking`, asks for the gate. With
-- the gate it tests the session (`gated`) and arms the guard (`armed`). The first poll of the second
-- `select!` looks at the token, and from `entering` on it polls the connection below; another thread
-- may cancel the token between the two. `inside` is the await of the connection below. `unguarding` drops the guard, which cancels the token; `releasing` frees the gate.
pub data Phase : Type 0 where
  waiting locking gated armed entering inside : Phase
  unguarding releasing done : End → Phase

-- What the connection below has seen of a call: it began a frame, and it completed or tore it.
pub data Event : Type 0 where
  begun completed torn : ℕ → Event

pub record SecureSession : Type 0 where
  -- The token, and whether the connection below is closed.
  pub cancelled : Bool
  pub closed : Bool
  -- The call that has the gate.
  pub gate : Option ℕ
  pub phases : ℕ → Phase
  -- The latest first.
  pub log : List Event

unfoldable pub is_closed : SecureSession → Bool
is_closed s = s.cancelled || s.closed

abbrev pub at : ℕ → Phase → SecureSession → SecureSession
at i p s = record s { phases = λ j. if i == j then p else s.phases j }

abbrev pub logged : Event → SecureSession → SecureSession
logged e s = record s { log = e ∷ s.log }

-- One poll of the first `select!`: the token, and then the gate.
unfoldable pub look : ℕ → SecureSession → SecureSession
look i s = at i (if s.cancelled then done session_closed else locking) s

unfoldable pub ask : ℕ → SecureSession → SecureSession
ask i s = elim (s.gate) [ none ↦ at i gated (record s { gate = some i }) | some j ↦ at i waiting s ]

-- `session.ensure_open()?`, and the guard.
unfoldable pub ensure_open : ℕ → SecureSession → SecureSession
unfolding is_closed
ensure_open i s = at i (if is_closed s then releasing session_closed else armed) s

-- The first poll of the second `select!`: the token, and then the connection below.
unfoldable pub first_poll : ℕ → SecureSession → SecureSession
first_poll i s = at i (if s.cancelled then unguarding session_closed else entering) s

unfoldable pub begin : ℕ → SecureSession → SecureSession
begin i s = at i inside (logged (begun i) s)

-- The frame is done: the guard is disarmed. Or it is not, and the guard stays.
unfoldable pub complete : ℕ → SecureSession → SecureSession
complete i s = at i (releasing returned) (logged (completed i) s)

unfoldable pub tear : ℕ → End → SecureSession → SecureSession
tear i e s = at i (unguarding e) (logged (torn i) s)

-- `bytes_to_python(&plaintext)?` fails after a complete receive.
unfoldable pub not_converted : ℕ → SecureSession → SecureSession
not_converted i s = at i (unguarding failed) (logged (completed i) s)

unfoldable pub drop_guard : ℕ → End → SecureSession → SecureSession
drop_guard i e s = at i (releasing e) (record s { cancelled = true })

unfoldable pub release : ℕ → End → SecureSession → SecureSession
release i e s = at i (done e) (record s { gate = none })

-- What happens next.
pub data Step : SecureSession → SecureSession → Type 0 where
  looks : (s : SecureSession) (i : ℕ) → s.phases i ≡ waiting → Step s (look i s)
  asks : (s : SecureSession) (i : ℕ) → s.phases i ≡ locking → Step s (ask i s)
  leaves : (s : SecureSession) (i : ℕ) → s.phases i ≡ waiting → Step s (at i (done dropped) s)
  checks : (s : SecureSession) (i : ℕ) → s.phases i ≡ gated → Step s (ensure_open i s)
  enters : (s : SecureSession) (i : ℕ) → s.phases i ≡ armed → Step s (first_poll i s)
  begins_frame : (s : SecureSession) (i : ℕ) → s.phases i ≡ entering → Step s (begin i s)
  completes : (s : SecureSession) (i : ℕ) → s.phases i ≡ inside → Step s (complete i s)
  converts_not : (s : SecureSession) (i : ℕ) → s.phases i ≡ inside → Step s (not_converted i s)
  fails : (s : SecureSession) (i : ℕ) → s.phases i ≡ inside → Step s (tear i failed s)
  is_dropped : (s : SecureSession) (i : ℕ) → s.phases i ≡ inside → Step s (tear i dropped s)
  -- A later poll of the second `select!` finds the token cancelled.
  interrupted :
      (s : SecureSession) (i : ℕ)
      → s.phases i ≡ inside
      → s.cancelled ≡ true
      → Step s (tear i session_closed s)
  unguards :
      (s : SecureSession) (i : ℕ) (e : End) → s.phases i ≡ unguarding e → Step s (drop_guard i e s)
  releases :
      (s : SecureSession) (i : ℕ) (e : End) → s.phases i ≡ releasing e → Step s (release i e s)
  cancels : (s : SecureSession) → Step s (record s { cancelled = true })
  closes : (s : SecureSession) → Step s (record s { closed = true })

pub data Reach (s : SecureSession) : SecureSession → Type 0 where
  here : Reach s s
  next : {t u : SecureSession} → Reach s t → Step t u → Reach s u

-- `SecureSession::new`, with the calls that will come.
unfoldable pub new : SecureSession
new = record { cancelled = false; closed = false; gate = none; phases = λ i. waiting; log = [] }
