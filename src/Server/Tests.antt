-- ===== src/Server/Tests.antt =====
-- server.c on a concrete server.
use ghetto_subscriber_valida.Prelude.{
  ℕ, ◌^◌, ◌≡◌, ◌↔◌, ◌⊎◌, ◌∙◌, List, [], ◌∷◌, take, replicate, true, ok, arith, length-replicate,
  All-replicate, take_all,
}
use ghetto_subscriber_valida.Prelude.Int.{pos}
use ghetto_subscriber_valida.Host.{ByteOrder, IsByte}
use ghetto_subscriber_valida.SortSearch.Reference.{reference}
use ghetto_subscriber_valida.Database.{ClientInfo, Database, buf_size}
use ghetto_subscriber_valida.Database.Order.{Within, All-InWindow}
use mathlib.Core.List.{not-mem-nil}
use ghetto_subscriber_valida.Database.Tests.{first_info, old_db}
use ghetto_subscriber_valida.Database.Lookup.{IsSearchable, filled_entries}
use ghetto_subscriber_valida.Packet.{PacketInfo, acc_per, data_len, seq_num}
use ghetto_subscriber_valida.Packet.Decode.{IsBytes}
use ghetto_subscriber_valida.Server.{
  Server, Address, Effect, sent, update, Garbage, receive, server_check_packet,
  server_process_packet,
}
use ghetto_subscriber_valida.Server.Frames.{IsReady, ack_frame, data_frame}
use ghetto_subscriber_valida.Server.Check.{server_check_packet-accepts, server_check_packet-request}
use ghetto_subscriber_valida.Server.Request.{IsRequest}
use ghetto_subscriber_valida.Server.Handle.{asked_number, asked_tech, verdict}
use ghetto_subscriber_valida.Server.Process.{Accepted, Rejected}
use ghetto_subscriber_valida.Server.{server_process_packet_printing}
use ghetto_subscriber_valida.Server.Printing.{PrintsAnd, server_process_packet_printing-answers}
use ghetto_subscriber_valida.Server.Access.{Decides, verdict-Decides}
use ghetto_subscriber_valida.Server.Replay.{received-receive}
use ghetto_subscriber_valida.Server.Acks.{receive-IsReady}
use ghetto_subscriber_valida.Server.Init.{HasArrays}

abbrev pub somewhere : Address
somewhere = record { ip = 2130706433; port = 5000 }

abbrev pub info : ClientInfo
info = record { number = 4085546805; ttype = 4; paid = true }

abbrev one_db : Database
one_db = record { entries = info ∷ replicate 4095 info; n_filled = 1 }

abbrev zeros : List ℕ
zeros = replicate 8192 0

abbrev pub idle : Server
idle = record {
  expect_recv = λ id. 9;
  sock_fd = pos 3;
  addr = somewhere;
  send_buf = zeros;
  recv_buf = zeros;
  last_recvd_len = 0;
  db = one_db;
}

abbrev blank_pi : PacketInfo
blank_pi = record {
  type = 0;
  id = 0;
  cont = record { b0 = 0; b1 = 0; b2 = 0; b3 = 0; b4 = 0; payload = [] };
}

abbrev pub garbage : Garbage
garbage = record {
  received = blank_pi;
  ack_pi = blank_pi;
  reject_pi = blank_pi;
  reply_pi = blank_pi;
  key = info;
}

pub idle-IsReady : IsReady idle
idle-IsReady = record {
  recv_size = length-replicate {A = ℕ} 8192 0;
  recv_bytes = All-replicate IsByte 8192 0 (omega arith);
  send_size = length-replicate {A = ℕ} 8192 0;
  expected = λ id. omega arith;
}

-- The request of client 3 for technology 4 of subscriber 408-554-6805, as packet number 9.
abbrev question : List ℕ
question = 4 ∷ 243 ∷ 132 ∷ 127 ∷ 53 ∷ []

abbrev request_bytes : List ℕ
request_bytes = data_frame acc_per 3 9 question

request_bytes-IsBytes : IsBytes request_bytes
request_bytes-IsBytes = ground arith

abbrev asked : Server
asked = receive idle request_bytes

asked-IsReady : IsReady asked
asked-IsReady = receive-IsReady idle request_bytes idle-IsReady request_bytes-IsBytes

asked-IsRequest : IsRequest asked 3 9 question
unfolding receive
asked-IsRequest = (
  received-receive idle request_bytes ∙ take_all buf_size request_bytes (omega arith),
  omega arith,
)

server_check_packet-request_example :
    (pi : PacketInfo) × (server_check_packet ByteOrder.little asked blank_pi ≡ ok (0, pi))
    × (pi.type ≡ acc_per)
    × (pi.id ≡ 3)
    × (seq_num pi ≡ 9)
    × (take (data_len pi) pi.cont.payload ≡ question)
unfolding receive
server_check_packet-request_example =
    server_check_packet-request ByteOrder.little asked blank_pi asked-IsReady 3 9 question
      asked-IsRequest

server_check_packet-accepts_example :
    (r : ℕ × PacketInfo) × (server_check_packet ByteOrder.little asked blank_pi ≡ ok r)
    × ((r.0 ≡ 0) ↔ ((id : ℕ) × (payload : List ℕ) × IsRequest asked id 9 payload))
unfolding receive
server_check_packet-accepts_example =
    server_check_packet-accepts ByteOrder.little asked blank_pi asked-IsReady

server_process_packet_printing-answers_example :
    (out : Server × List Effect) × (server_process_packet ByteOrder.little reference asked somewhere
        garbage
      ≡ ok out)
    × IsReady out.0
    × (out.0.db ≡ asked.db)
    × ((Rejected asked somewhere out
          × (server_process_packet_printing ByteOrder.little reference asked somewhere garbage
              ≡ ok ([], out.0, out.1)))
        ⊎ (Accepted reference info asked somewhere out
            × PrintsAnd ByteOrder.little reference asked somewhere garbage out))
server_process_packet_printing-answers_example =
    server_process_packet_printing-answers ByteOrder.little reference asked somewhere garbage
      asked-IsReady

-- The server and its answers when the request has been accepted.
abbrev answered : Server × List Effect
answered = (
  record asked { expect_recv = update asked.expect_recv 3 10 },
  sent somewhere (ack_frame 3 9)
      ∷ sent somewhere (data_frame (verdict reference info asked) 3 9 question)
      ∷ [],
)

pub one_db-IsSearchable : IsSearchable (2 ^ 31) one_db
one_db-IsSearchable = record {
  window = All-InWindow (2 ^ 31) (info ∷ []) (ground arith);
  sorted = (λ y m. absurd (not-mem-nil m), tt);
}

asked-Within : Within (2 ^ 31) (asked_number asked)
unfolding receive
asked-Within = ground arith

verdict-Decides_example :
    Decides
      (filled_entries asked.db)
      (asked_number asked)
      (asked_tech asked)
      (verdict reference info asked)
unfolding receive
verdict-Decides_example =
    verdict-Decides reference info (2 ^ 31) asked one_db-IsSearchable asked-Within

abbrev pub fresh : Server
fresh = record idle { db = old_db }

pub fresh-HasArrays : HasArrays fresh
fresh-HasArrays = record {
  recv_size = idle-IsReady.recv_size;
  recv_bytes = idle-IsReady.recv_bytes;
  send_size = idle-IsReady.send_size;
  capacity = length-replicate 4096 first_info;
}
