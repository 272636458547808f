-- ===== src/Connection/Parts.antt =====
-- The parts of the calls of a connection (crates/taunicorn/src/lib.rs) that take no gate.
use taunicorn.Prelude.{
  refl, ℕ, zero, suc, ◌+◌, Bool, true, false, Option, none, some, List, [], ◌∷◌, length, drop, ltb,
  arith,
}
use taunicorn.Outcome.{fuel_out, connection_is_closed}
use taunicorn.Endpoint.{Io, done, failed}
use taunicorn.Connection.Prog.{
  close_token, read_shutdown_token, Select, Race, won, cancelled, elapsed, gone, Prog, ret, write,
  ◌>>◌, pure, store, bail_if,
}
use taunicorn.Connection.Flags
use taunicorn.Connection.Flags.{
  set_paused, set_read_shutdown, set_write_shutdown, set_peer_sent_eof,
}
use taunicorn.Connection.Calls.{
  clone_of, take_handle, stream, ensure_common_io_available, ensure_read_available,
  ensure_write_available, cancel, fail_connection, after_read, after_write_once, write_round,
  write_loop, after_sync,
}
use taunicorn.Connection.Calm.{Calm, calm_refl, bind-Calm, if-Calm, bail-Calm}

abbrev discard : Prog (Unit {0})
discard = do store (cancel close_token); store (cancel read_shutdown_token); store take_handle

module _ (io : Bool) where
  clone-Calm : (x : Bool × Option ℕ) → Calm io (clone_of x)
  clone-Calm (true, h) = tt
  clone-Calm (false, none) = tt
  clone-Calm (false, some h) = tt

  pub stream-Calm : Calm io stream
  unfolding stream Flags.is_closed
  stream-Calm = (
    calm_refl,
    λ s.
        bind-Calm io (bail_if s.closed connection_is_closed) _ (bail-Calm io _ _)
          λ _. (calm_refl, λ t. clone-Calm (t.poisoned, t.stream)),
  )

  pub common-Calm : Calm io ensure_common_io_available
  unfolding ensure_common_io_available Flags.is_closed Flags.is_paused
  common-Calm = (
    calm_refl,
    λ s.
        bind-Calm io (bail_if s.closed connection_is_closed) _ (bail-Calm io _ _)
          λ _. (calm_refl, λ t. bail-Calm io _ _),
  )

  pub ensure_read-Calm : Calm io ensure_read_available
  unfolding ensure_read_available Flags.is_read_shutdown
  ensure_read-Calm =
      bind-Calm io ensure_common_io_available _ common-Calm λ _. (calm_refl, λ t. bail-Calm io _ _)

  pub ensure_write-Calm : Calm io ensure_write_available
  unfolding ensure_write_available Flags.is_write_shutdown
  ensure_write-Calm =
      bind-Calm io ensure_common_io_available _ common-Calm λ _. (calm_refl, λ t. bail-Calm io _ _)

  pub discard-Calm : Calm io discard
  discard-Calm = (λ s. ground arith, λ s. (λ t. ground arith, λ t. (λ u. ground arith, λ u. tt)))

  pub flags_close-Calm : Calm io Flags.close
  unfolding Flags.close
  flags_close-Calm = (
    λ s. ground arith,
    λ s. (λ t. ground arith, λ t. (λ u. ground arith, λ u. (λ v. ground arith, λ v. tt))),
  )

  pub fail_connection-Calm : Calm io fail_connection
  unfolding fail_connection
  fail_connection-Calm =
      bind-Calm io Flags.close _ flags_close-Calm
        λ first. if-Calm io first discard (pure tt) discard-Calm tt

  pub after_read-Calm : (buffer : List ℕ) (x : Io (List ℕ)) → Calm io (after_read buffer x)
  unfolding after_read
  after_read-Calm buffer (done []) = (λ s. ground arith, λ s. tt)
  after_read-Calm buffer (done (b ∷ bytes)) = tt
  after_read-Calm buffer (failed e) = bind-Calm io fail_connection _ fail_connection-Calm λ _. tt

  pub after_write_once-Calm : (x : Io ℕ) → Calm io (after_write_once x)
  unfolding after_write_once
  after_write_once-Calm (done zero) = bind-Calm io fail_connection _ fail_connection-Calm λ _. tt
  after_write_once-Calm (done (suc n)) = tt
  after_write_once-Calm (failed e) = bind-Calm io fail_connection _ fail_connection-Calm λ _. tt

  pub after_sync-Calm : (x : Io (Unit {0})) → Calm io (after_sync x)
  unfolding after_sync
  after_sync-Calm (done y) = tt
  after_sync-Calm (failed e) = bind-Calm io fail_connection _ fail_connection-Calm λ _. tt

pub write_round-Calm :
    (written total : ℕ) (go : ℕ → Prog (Unit {0})) (x : Race (Io ℕ))
    → ((n : ℕ) → Calm true (go n))
    → Calm true (write_round written total go x)
unfolding write_round
write_round-Calm written total go (won (done zero)) h =
    bind-Calm true fail_connection _ (fail_connection-Calm true) λ _. tt
write_round-Calm written total go (won (done (suc n))) h = h (written + suc n)
write_round-Calm written total go (won (failed e)) h =
    bind-Calm true fail_connection _ (fail_connection-Calm true) λ _. tt
write_round-Calm written total go (cancelled t) h = tt
write_round-Calm written total go elapsed h =
    bind-Calm true fail_connection _ (fail_connection-Calm true) λ _. tt
write_round-Calm written total go gone h = tt

pub write_loop-Calm :
    (q : Select) (fuel : ℕ) (bytes : List ℕ) (written : ℕ)
    → Calm true (write_loop q fuel bytes written)
unfolding write_loop
write_loop-Calm q zero bytes written =
    if-Calm true (ltb written (length bytes)) (ret fuel_out) (pure tt) tt tt
write_loop-Calm q (suc fuel) bytes written =
    if-Calm true (ltb written (length bytes))
      (write (drop written bytes) q
        (write_round written (length bytes) (λ w. write_loop q fuel bytes w)))
      (pure tt)
      (
        refl,
        λ x.
            write_round-Calm written (length bytes) (λ w. write_loop q fuel bytes w) x
              (λ n. write_loop-Calm q fuel bytes n),
      )
      tt
