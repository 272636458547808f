-- ===== src/Endpoint.antt =====
-- `Endpoint` and `get_async_socket_name` of crates/taunicorn/src/lib.rs. A name is the list of its
-- bytes.
use taunicorn.Prelude.{ℕ, List, is_empty}
use taunicorn.Outcome.{
  IoError, Outcome, ok, err, ◌>>◌, bail_if, endpoint_empty, name_empty, io_failed,
}

pub record Endpoint : Type 0 where
  pub name : List ℕ

-- `Endpoint::new`
unfoldable pub new : List ℕ → Outcome Endpoint
new name = do bail_if (is_empty name) endpoint_empty; ok (record { name = name })

-- `From<String>` and `From<&str>` make an endpoint with no test.
unfoldable pub from : List ℕ → Endpoint
from value = record { name = value }

-- What a call of the socket library returns.
pub data Io {ℓ} (A : Type ℓ) : Type ℓ where
  done : A → Io A
  failed : IoError → Io A

-- `map_err(|e| anyhow!(std::io::Error::other(e)))`
unfoldable pub or_io_error {ℓ} : {A : Type ℓ} → Io A → Outcome A
or_io_error (done a) = ok a
or_io_error (failed e) = err (io_failed e)

-- `to_ns_name` belongs to the socket library.
unfoldable pub get_async_socket_name : (List ℕ → Io (List ℕ)) → List ℕ → Outcome (List ℕ)
get_async_socket_name to_ns_name name = do
  bail_if (is_empty name) name_empty
  or_io_error (to_ns_name name)
