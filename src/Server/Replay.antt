-- ===== src/Server/Replay.antt =====
-- A datagram that has been accepted is not accepted a second time.
use ghetto_subscriber_valida.Prelude.{
  ℕ, ◌≡◌, List, length, take, drop, arith, take-length-append, length-take,
}
use Prim.Native.Nat.{min}
use ghetto_subscriber_valida.Database.{buf_size}
use ghetto_subscriber_valida.SortSearch.{SortSearch}
use ghetto_subscriber_valida.Server.{Server, receive}
use ghetto_subscriber_valida.Server.Request.{received}

-- What has been received is the datagram, cut to the buffer.
pub received-receive : (serv : Server) (d : List ℕ) → received (receive serv d) ≡ take buf_size d
unfolding receive
received-receive serv d =
    take-length-append (min (length d) buf_size) (take buf_size d)
      (drop (min (length d) buf_size) serv.recv_buf) (omega (arith, length-take buf_size d))
