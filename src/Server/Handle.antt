-- ===== src/Server/Handle.antt =====
-- `server_handle_req`, and the branch of `server_process_packet` for an accepted packet.
use ghetto_subscriber_valida.Prelude.{
  ℕ, ◌+◌, ◌*◌, ◌%◌, ◌≤◌, ◌<◌, ◌≡◌, ◌∙◌, refl, List, [], ◌∷◌, arith, length, take, ok, Option, none,
  some,
}
use ghetto_subscriber_valida.Host.{ByteOrder, IsByte, ntohl-load32}
use ghetto_subscriber_valida.RawIterator.Laws.{
  filled, ◌!◌, length-filled, rit_read_one, rit_read_four,
}
use ghetto_subscriber_valida.SortSearch.{SortSearch}
use ghetto_subscriber_valida.Database.{ClientInfo, buf_size, lookup}
use ghetto_subscriber_valida.Packet.{
  PacketInfo, with_payload, layout, data_len, seq_num, set_data_info,
}
use ghetto_subscriber_valida.Packet.Decode.{byte-at}
use ghetto_subscriber_valida.Server.{
  Server, Address, sent, Garbage, update, reply_type, server_handle_req, accept_packet,
}
use ghetto_subscriber_valida.Server.Frames.{
  IsReady, delivered, ack_frame, data_frame, send_ack-frame, send_reply-frame,
}

-- What the request asks for, in the bytes behind its header: a technology and a number in network order.
abbrev pub asked_tech : Server → ℕ
asked_tech serv = serv.recv_buf ! 7

abbrev pub asked_number : Server → ℕ
asked_number serv =
    16777216 * serv.recv_buf ! 8
    + 65536 * serv.recv_buf ! 9
    + 256 * serv.recv_buf ! 10
    + serv.recv_buf ! 11

reply_type-layout : (r : Option ClientInfo) (ttype : ℕ) → layout (reply_type r ttype) ≡ with_payload
unfolding layout reply_type
reply_type-layout none ttype = refl
reply_type-layout (some e) ttype = ground arith

-- The type of the reply to a request, from the entry that `lookup` finds.
abbrev pub verdict : SortSearch ClientInfo → ClientInfo → Server → ℕ
verdict std key serv = reply_type (lookup std key serv.db (asked_number serv)) (asked_tech serv)

module _ (host : ByteOrder) (std : SortSearch ClientInfo) (serv : Server) (ret : Address)
    (ready : IsReady serv) where
  handle_req-delivered :
      (pi reply_pi : PacketInfo) (key : ClientInfo)
      → data_len pi ≤ length pi.cont.payload
      → IsByte (data_len pi)
      → server_handle_req host std serv ret pi reply_pi key
        ≡ delivered serv ret (
            data_frame
              (verdict std key serv)
              pi.id
              (seq_num pi)
              (take (data_len pi) pi.cont.payload))
  unfolding server_handle_req
  handle_req-delivered pi reply_pi key l b =
      rw
        (
          rit_read_one serv.recv_buf 7 buf_size (omega (arith, ready.recv_size)) (omega arith),
          rit_read_four serv.recv_buf 8 buf_size (omega (arith, ready.recv_size)) (omega arith),
          ntohl-load32 (serv.recv_buf ! 8) (serv.recv_buf ! 9) (serv.recv_buf ! 10)
              (serv.recv_buf ! 11) (byte-at serv.recv_buf 8 ready.recv_bytes)
              (byte-at serv.recv_buf 9 ready.recv_bytes) (byte-at serv.recv_buf 10 ready.recv_bytes)
              (byte-at serv.recv_buf 11 ready.recv_bytes) host,
        )
        (send_reply-frame host serv ret ready
          (set_data_info (seq_num pi) (data_len pi) pi.cont.payload
            (record reply_pi { type = verdict std key serv; id = pi.id }))
          (reply_type-layout (lookup std key serv.db (asked_number serv)) (asked_tech serv)) l b)

pub IsReady-filled :
    (serv : Server) (frame : List ℕ)
    → IsReady serv
    → length frame ≤ buf_size
    → IsReady (record serv { send_buf = filled frame serv.send_buf })
IsReady-filled serv frame r h = record {
  recv_size = r.recv_size;
  recv_bytes = r.recv_bytes;
  send_size = length-filled frame serv.send_buf (omega (arith, r.send_size)) ∙ r.send_size;
  expected = r.expected;
}

pub IsReady-update :
    (serv : Server) (id n : ℕ)
    → IsReady serv
    → n < 256
    → IsReady (record serv { expect_recv = update serv.expect_recv id n })
IsReady-update serv id n r h = record {
  recv_size = r.recv_size;
  recv_bytes = r.recv_bytes;
  send_size = r.send_size;
  expected = λ j. ground (arith, r.expected j);
}

-- The server after the ACK and the new sequence number of an accepted request.
abbrev pub acked : Server → ℕ → Server
acked serv id = record serv { send_buf = filled (ack_frame id (serv.expect_recv id)) serv.send_buf }

abbrev pub stepped : Server → ℕ → Server
stepped serv id = record (acked serv id) {
  expect_recv = update serv.expect_recv id ((serv.expect_recv id + 1) % 256);
}

pub stepped-IsReady : (serv : Server) (id : ℕ) → IsReady serv → IsReady (stepped serv id)
stepped-IsReady serv id ready =
    IsReady-update (acked serv id) id ((serv.expect_recv id + 1) % 256)
      (IsReady-filled serv (ack_frame id (serv.expect_recv id)) ready (omega arith)) (omega arith)

abbrev pub reply : SortSearch ClientInfo → ClientInfo → Server → PacketInfo → List ℕ
reply std key serv pi =
    data_frame (verdict std key serv) pi.id (seq_num pi) (take (data_len pi) pi.cont.payload)

-- The branch for an accepted packet sends an ACK and a reply, in this order.
pub accept_packet-sent :
    (host : ByteOrder) (std : SortSearch ClientInfo) (serv : Server) (ret : Address) (g : Garbage)
    (pi : PacketInfo)
    → IsReady serv
    → data_len pi ≤ length pi.cont.payload
    → IsByte (data_len pi)
    → accept_packet host std serv ret pi g
      ≡ ok (
        record (stepped serv pi.id) {
          send_buf = filled (reply std g.key serv pi) (stepped serv pi.id).send_buf;
        },
        sent ret (ack_frame pi.id (serv.expect_recv pi.id))
            ∷ sent ret (reply std g.key serv pi)
            ∷ [],
      )
unfolding accept_packet
accept_packet-sent host std serv ret g pi ready l b =
    rw
      (
        send_ack-frame host serv ret ready pi.id g.ack_pi,
        handle_req-delivered host std (stepped serv pi.id) ret (stepped-IsReady serv pi.id ready) pi
            g.reply_pi g.key l b,
      )
      refl
