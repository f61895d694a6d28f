-- ===== src/Server.antt =====
-- server.c and server.h: the server's state, its handlers and its loop.
pub mod Acks
pub mod Request
pub mod Tests
pub mod Check
pub mod Access
pub mod Frames
pub mod Handle
pub mod Init
pub mod Process
pub mod Printing
pub mod Replay
pub mod Refusal
pub mod Run
use ghetto_subscriber_valida.Prelude.{
  ℕ, ◌+◌, ◌%◌, List, [], ◌∷◌, ◌++◌, Bool, true, false, not, ltb, ◌==◌, if◌then◌else◌, Option, none,
  some, Outcome, ok, fault, ◌>>=◌, length, take, drop, get_or, replicate,
}
use Prim.Native.Nat.{min}
use ghetto_subscriber_valida.Prelude.Int.{ℤ, pos, ltb_ℤ, is_minus_one}
use ghetto_subscriber_valida.Host.{ByteOrder, load32, ntohl}
use ghetto_subscriber_valida.RawIterator.{rit_init, rit_read, rit_skip}
use ghetto_subscriber_valida.SortSearch.{SortSearch}
use ghetto_subscriber_valida.Database.{
  ClientInfo, Database, Mpc, buf_size, lookup, parse_database_file,
}
use ghetto_subscriber_valida.Packet.{
  PacketInfo, seq_num, data_len, set_data_info, set_ack_info, set_reject_info, flatten,
  interpret_packet, ack, reject, acc_per, acc_ok, not_paid, not_exist, out_of_seq, bad_len,
  dup_pack, bad_type, byte_size, short_size,
}

-- A `struct sockaddr_in`, its numbers in host order.
pub record Address : Type 0 where
  pub ip : ℕ
  pub port : ℕ

abbrev pub default_port : ℕ
default_port = 4321

-- The server. A `client_id` is a byte and `expect_recv` has 256 elements, so the array is a function.
pub record Server : Type 0 where
  pub expect_recv : ℕ → ℕ
  pub sock_fd : ℤ
  pub addr : Address
  pub send_buf : List ℕ
  pub recv_buf : List ℕ
  pub last_recvd_len : ℕ
  pub db : Database

abbrev pub update : (ℕ → ℕ) → ℕ → ℕ → ℕ → ℕ
update f i v j = if i == j then v else f j

-- What the server does to the world: a datagram handed to `sendto`, whose failure it only reports,
-- and the call of `alert_reject`.
pub data Effect : Type 0 where
  sent : Address → List ℕ → Effect
  alert : PacketInfo → ℕ → Effect

-- What the local variables hold before they are written: nothing in C says.
pub record Garbage : Type 0 where
  pub received : PacketInfo
  pub ack_pi : PacketInfo
  pub reject_pi : PacketInfo
  pub reply_pi : PacketInfo
  pub key : ClientInfo

abbrev pub subscriber_num_size : ℕ
subscriber_num_size = 4

-- Where the payload of a request begins.
abbrev pub payload_offset : ℕ
payload_offset = short_size + byte_size + short_size + byte_size + byte_size

-- The checks of `server_check_packet` behind `interpret_packet`. The pointers `payload_end` and
-- `expected_payload_end` are equal when the offsets are, and the one below takes 2 from the length.
unfoldable pub check_fields : Server → ℕ → PacketInfo → ℕ
check_fields serv code pi =
    if not (pi.type == acc_per)
    then bad_type
    else if not (payload_offset + data_len pi + short_size == serv.last_recvd_len)
    then bad_len
    else if code == 0
    then (if not (seq_num pi == serv.expect_recv pi.id)
        then (if ltb (serv.expect_recv pi.id) (seq_num pi) then out_of_seq else dup_pack)
        else code)
    else code

-- The type of the reply to a request, from the result of `lookup`.
unfoldable pub reply_type : Option ClientInfo → ℕ → ℕ
reply_type none ttype = not_exist
reply_type (some e) ttype =
    if not (e.ttype == ttype) then not_exist else if not e.paid then not_paid else acc_ok

module _ (host : ByteOrder) where
  unfoldable pub server_check_packet : Server → PacketInfo → Outcome (ℕ × PacketInfo)
  unfolding check_fields
  server_check_packet serv pi₀ = do
    (code, pi) ← interpret_packet host serv.recv_buf pi₀ buf_size
    ok (check_fields serv code pi, pi)

  -- The common end of the three senders: `flatten` into `send_buf`, and `sendto`.
  unfoldable pub send_packet : Server → Address → PacketInfo → Outcome (Server × List Effect)
  send_packet serv ret pi = do
    (flattened_len, out) ← flatten host pi serv.send_buf buf_size
    ok (record serv { send_buf = out }, sent ret (take flattened_len out) ∷ [])

  unfoldable pub server_send_ack :
      Server → ℕ → Address → PacketInfo → Outcome (Server × List Effect)
  unfolding send_packet
  server_send_ack serv id ret pi =
      send_packet serv ret (set_ack_info (serv.expect_recv id) (record pi { type = ack; id = id }))

  unfoldable pub server_send_reject :
      Server → PacketInfo → Address → ℕ → PacketInfo → Outcome (Server × List Effect)
  unfolding send_packet
  server_send_reject serv bad_pi ret code pi =
      send_packet serv ret
        (set_reject_info host code (seq_num bad_pi) (record pi { type = reject; id = bad_pi.id }))

  module _ (std : SortSearch ClientInfo) where
    -- The request is read from `recv_buf` itself, whatever the length of its payload.
    unfoldable pub server_handle_req :
        Server → Address → PacketInfo → PacketInfo → ClientInfo → Outcome (Server × List Effect)
    unfolding send_packet rit_init rit_skip reply_type lookup
    server_handle_req serv ret pi reply_pi key = do
      let rit = rit_skip payload_offset (rit_init serv.recv_buf buf_size)
      (ttype, rit₁) ← rit_read byte_size rit
      (num, rit₂) ← rit_read subscriber_num_size rit₁
      let found = lookup std key serv.db (ntohl host (load32 host num))
      let type = reply_type found (get_or ttype 0 0)
      send_packet serv ret (
          set_data_info (seq_num pi) (data_len pi) pi.cont.payload
            (record reply_pi { type = type; id = pi.id }))

    -- The branch for a packet that is accepted: ACK, next sequence number, reply.
    unfoldable pub accept_packet :
        Server → Address → PacketInfo → Garbage → Outcome (Server × List Effect)
    accept_packet serv ret pi g = do
      (serv₁, acked) ← server_send_ack serv pi.id ret g.ack_pi
      let next = (serv₁.expect_recv pi.id + 1) % 256
      let serv₂ : Server = record serv₁ { expect_recv = update serv₁.expect_recv pi.id next }
      (serv₃, replied) ← server_handle_req serv₂ ret pi g.reply_pi g.key
      ok (serv₃, acked ++ replied)

    unfoldable pub server_process_packet :
        Server → Address → Garbage → Outcome (Server × List Effect)
    server_process_packet serv ret g = do
      (code, pi) ← server_check_packet serv g.received
      if not (code == 0)
          then (server_send_reject serv pi ret code g.reject_pi >>= λ (serv₁, rejected).
              ok (serv₁, alert pi code ∷ rejected))
          else accept_packet serv ret pi g

-- The characters that %s prints: those before the first NUL, which is looked for past the end of the
-- array if there is none inside.
unfoldable pub print_string : List ℕ → Outcome (List ℕ)
print_string [] = fault
print_string (c ∷ cs) =
    let rest = print_string cs in if c == 0 then ok [] else (rest >>= λ more. ok (c ∷ more))

-- `server_process_packet` with the one of its diagnostics that reads memory: the payload of a request
-- that is accepted, as a string. The first part of the result is what is printed.
module _ (host : ByteOrder) (std : SortSearch ClientInfo) where
  unfoldable pub server_process_packet_printing :
      Server → Address → Garbage → Outcome (List ℕ × Server × List Effect)
  server_process_packet_printing serv ret g = do
    (code, pi) ← server_check_packet host serv g.received
    if not (code == 0)
        then (server_send_reject host serv pi ret code g.reject_pi >>= λ (serv₁, rejected).
            ok ([], serv₁, alert pi code ∷ rejected))
        else (print_string pi.cont.payload >>= λ printed.
            (accept_packet host std serv ret pi g >>= λ (serv₁, effects).
            ok (printed, serv₁, effects)))

-- What `recvfrom` comes to: -1, or a datagram.
pub data Event : Type 0 where
  failed : Event
  datagram : Address → List ℕ → Garbage → Event

-- A received datagram is cut to the buffer; the bytes behind it stay as they were.
unfoldable pub receive : Server → List ℕ → Server
receive serv d = record serv {
  recv_buf = take buf_size d ++ drop (min (length d) buf_size) serv.recv_buf;
  send_buf = replicate buf_size 0;
  last_recvd_len = min (length d) buf_size;
}

-- `server_run` over the events that come: whether the loop has ended, by an empty datagram, and the
-- server and its effects then.
module _ (host : ByteOrder) (std : SortSearch ClientInfo) where
  unfoldable pub server_run : List Event → Server → Outcome (Bool × Server × List Effect)
  server_run [] serv = ok (false, serv, [])
  server_run (failed ∷ events) serv = server_run events serv
  server_run (datagram ret d g ∷ events) serv =
      if length d == 0
      then ok (true, serv, [])
      else (server_process_packet host std (receive serv d) ret g >>= λ (serv₁, effects).
          (server_run events serv₁ >>= λ (ended, serv₂, more). ok (ended, serv₂, effects ++ more)))

-- `server_init`. The results of `socket` and `bind` are arguments.
module _ (mpc : Mpc) (std : SortSearch ClientInfo) (socket bind : ℤ) where
  unfoldable pub server_init : Server → Option Address → List ℕ → List ℕ → Outcome (Bool × Server)
  server_init serv addr filename curr_str =
      let serv₁ : Server = record serv { sock_fd = socket } in
      let serv₂ : Server = record serv₁ {
        addr = elim addr [ none ↦ record { ip = 0; port = default_port } | some a ↦ a ];
      } in
      let serv₃ : Server = record serv₂ { expect_recv = λ id. 0 } in
      if ltb_ℤ socket (pos 0)
      then ok (false, serv₁)
      else if is_minus_one bind
      then ok (false, serv₂)
      else (parse_database_file mpc std curr_str filename serv₃.db >>= λ (done, db).
          ok (done, record serv₃ { db = db }))
