-- ===== src/Server/Init.antt =====
-- `server_init`, from the results of its calls to the server that `server_run` starts from.
use ghetto_subscriber_valida.Prelude.{
  ℕ, ◌<◌, ◌≡◌, refl, List, length, map, true, false, Option, none, some, ok, arith, [],
}
use ghetto_subscriber_valida.Prelude.Int.{ℤ, pos, ltb_ℤ, is_minus_one}
use ghetto_subscriber_valida.SortSearch.{SortSearch}
use ghetto_subscriber_valida.Database.{
  ClientInfo, AstNode, Mpc, buf_size, max_entries, str_to_entry,
}
use ghetto_subscriber_valida.Database.Order.{InWindow}
use ghetto_subscriber_valida.Database.Lines.{lines, IsShaped}
use ghetto_subscriber_valida.Database.Init.{Loads, parse_database_file-Loads}
use ghetto_subscriber_valida.Packet.Decode.{IsBytes}
use ghetto_subscriber_valida.Server.{Server, Address, default_port, server_init}
use ghetto_subscriber_valida.Server.Frames.{IsReady}

abbrev pub address_of : Option Address → Address
address_of none = record { ip = 0; port = default_port }
address_of (some a) = a

-- The arrays of a server have their declared sizes, and bytes in them.
pub record HasArrays (serv : Server) : Type 0 where
  pub recv_size : length serv.recv_buf ≡ buf_size
  pub recv_bytes : IsBytes serv.recv_buf
  pub send_size : length serv.send_buf ≡ buf_size
  pub capacity : length serv.db.entries ≡ max_entries

-- When `socket` and `bind` succeed and the file can be loaded, `server_init` returns true: the server
-- has the address asked for, or any address and the default port, it is ready, it expects sequence number 0
-- of each client, and its database is the file's, sorted for `lookup`.
pub server_init-Loads :
    (mpc : Mpc) (std : SortSearch ClientInfo) (socket bind : ℤ) (serv : Server)
    (addr : Option Address) (base : ℕ) (filename curr_str : List ℕ) (nodes : List AstNode)
    → ltb_ℤ socket (pos 0) ≡ false
    → is_minus_one bind ≡ false
    → mpc.grammar_ok ≡ true
    → mpc.parse_contents filename ≡ some nodes
    → IsShaped 0 nodes
    → length (lines [] nodes) < max_entries
    → InWindow base (map str_to_entry (lines [] nodes))
    → length curr_str ≡ buf_size
    → HasArrays serv
    → (serv' : Server) × (server_init mpc std socket bind serv addr filename curr_str
        ≡ ok (true, serv'))
      × (serv'.addr ≡ address_of addr)
      × IsReady serv'
      × ((id : ℕ) → serv'.expect_recv id ≡ 0)
      × Loads base nodes serv'.db
unfolding server_init
server_init-Loads mpc std socket bind serv addr base filename curr_str nodes s b g p shape few w c
      h =
    let (db, run, loads) =
      parse_database_file-Loads mpc std base curr_str filename serv.db nodes g p shape few w c
        h.capacity in
    let serv' : Server = record serv {
      sock_fd = socket;
      addr = address_of addr;
      expect_recv = λ id. 0;
      db = db;
    } in
    (
      serv',
      rw (s, b, run) refl,
      refl,
      record {
        recv_size = h.recv_size;
        recv_bytes = h.recv_bytes;
        send_size = h.send_size;
        expected = λ id. omega arith;
      },
      λ id. refl,
      loads,
    )
