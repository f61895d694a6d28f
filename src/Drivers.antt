-- ===== src/Drivers.antt =====
-- driver_client.c and driver_server.c: the two programs; and test_parse.c.
mod Tests
pub mod Serving
pub mod Asking
pub mod Together
pub mod Losses
pub mod Users
pub mod User
use ghetto_subscriber_valida.Prelude.{
  ℕ, ◌%◌, List, [], ◌∷◌, Bool, true, false, not, Option, none, some, Outcome, ok, ◌>>=◌,
  if◌then◌else◌,
}
use ghetto_subscriber_valida.Prelude.Int.{ℤ}
use ghetto_subscriber_valida.Host.{ByteOrder}
use ghetto_subscriber_valida.CString.{strtol}
use ghetto_subscriber_valida.SortSearch.{SortSearch}
use ghetto_subscriber_valida.Database.{ClientInfo, Database, Mpc, parse_database_file}
use ghetto_subscriber_valida.Server.{
  Address, Server, Effect, Event, default_port, server_init, server_run,
}
use ghetto_subscriber_valida.Client.{Client, Progress, returned, waiting, client_init}
use ghetto_subscriber_valida.Shell.{Line, Output, loop}
use ghetto_subscriber_valida.Commands.{AddrInfo, CommandEnv, Report, commands, n_commands, invoke}

-- How a program ends: with an exit code, or not yet.
pub data Ending : Type 0 where
  exit : ℕ → Ending
  running : Ending

abbrev pub ending : Progress → Ending
ending returned = exit 0
ending waiting = running

-- `main` of the client, over the lines of its input. `echo` is false at the start.
module _ (host : ByteOrder) (getaddrinfo : List ℕ → List ℕ → AddrInfo) (socket bind : ℤ)
    (interactive : Bool) where
  -- The shell on a client that has been set up.
  unfoldable pub start_shell :
      List (Line CommandEnv) → Bool × Client → Outcome (Ending × List (Output Report))
  start_shell lines (done, cl) =
      if not done
      then ok (exit 1, [])
      else (loop (invoke host getaddrinfo) commands n_commands interactive false lines cl
          >>= λ (progress, cl', out). ok (ending progress, out))

  unfoldable pub client_main :
      List (List ℕ) → List (Line CommandEnv) → Outcome (Ending × List (Output Report))
  unfolding start_shell
  client_main (program ∷ id ∷ []) lines =
      start_shell lines (client_init socket bind none (strtol id % 256))
  client_main argv lines = ok (exit 1, [])

-- `main` of the server, over the events that come.
module _ (host : ByteOrder) (mpc : Mpc) (std : SortSearch ClientInfo) (socket bind : ℤ) where
  abbrev pub default_address : Address
  default_address = record { ip = 0; port = default_port }

  -- `server_run` on a server that has been set up.
  unfoldable pub start_server : List Event → Bool × Server → Outcome (Ending × List Effect)
  start_server events (done, serv) =
      if not done
      then ok (exit 1, [])
      else (server_run host std events serv >>= λ (ended, serv', effects).
          ok (if ended then exit 0 else running, effects))

  -- The server and the buffer of the parser hold anything at the start.
  unfoldable pub server_main :
      List (List ℕ) → List Event → Server → List ℕ → Outcome (Ending × List Effect)
  unfolding start_server
  server_main (program ∷ filename ∷ []) events serv curr_str =
      server_init mpc std socket bind serv (some default_address) filename curr_str
      >>= start_server events
  server_main argv events serv curr_str = ok (exit 1, [])

-- `main` of test_parse.c, which does not look at the result of the parser. The database and the buffer of
-- the parser hold anything at the start.
unfoldable pub test_parse_main :
    Mpc → SortSearch ClientInfo → List (List ℕ) → Database → List ℕ → Outcome Ending
test_parse_main mpc std (program ∷ filename ∷ []) db curr_str =
    parse_database_file mpc std curr_str filename db >>= λ result. ok (exit 0)
test_parse_main mpc std argv db curr_str = ok (exit 1)
