-- ===== src/Client/Tests.antt =====
-- client.c on a concrete client.
use ghetto_subscriber_valida.Prelude.{
  ℕ, ◌≡◌, refl, List, [], ◌∷◌, Option, none, some, ok, replicate, length-replicate, set, All, arith,
}
use ghetto_subscriber_valida.Prelude.Int.{pos, ◌-ℤ◌}
use ghetto_subscriber_valida.Host.{ByteOrder}
use ghetto_subscriber_valida.Database.{buf_size}
use ghetto_subscriber_valida.Packet.{PacketInfo, layout, acc_per}
use ghetto_subscriber_valida.Packet.Wire.{wire}
use ghetto_subscriber_valida.Recv.{nothing, datagram}
use ghetto_subscriber_valida.BusyWait.{Timeval, timersub, timer_greater}
use ghetto_subscriber_valida.Server.{Address}
use ghetto_subscriber_valida.Server.Frames.{ack_frame}
use ghetto_subscriber_valida.Client.Answers.{Meets, arrives, late, retry}
use ghetto_subscriber_valida.Client.Protocol.{Dialogue, listen, Hears, HoldBytes}
use ghetto_subscriber_valida.Client.Send.{
  IsQuiet, CanSend, tries_of, client_send_packet-listen, client_send_packet-returned,
}
use ghetto_subscriber_valida.Client.Replies.{client_send_packet-waiting}
use ghetto_subscriber_valida.Client.{
  Client, Action, sent, Answer, returned, waiting, max_seq_num, client_send_packet,
}

abbrev pub somewhere : Address
somewhere = record { ip = 2130706433; port = 4321 }

abbrev pub seconds : ℕ → Timeval
seconds n = record { tv_sec = pos n; tv_usec = 0 }

-- Client 3 as `client_init` leaves it.
abbrev pub client_three : Client
client_three = record {
  tries = replicate max_seq_num 0;
  sock_fd = pos 3;
  addr = somewhere;
  timeout = seconds 1;
  send_buf = replicate buf_size 0;
  recv_buf = replicate buf_size 0;
  id = 3;
  last_recvd_len = 0;
}

abbrev pub packet : ℕ → PacketInfo
packet seq = record {
  type = acc_per;
  id = 3;
  cont = record {
    b0 = seq;
    b1 = 5;
    b2 = 0;
    b3 = 0;
    b4 = 0;
    payload = 4 ∷ 243 ∷ 132 ∷ 127 ∷ 53 ∷ [];
  };
}

-- A wait that begins at second 10: a failed try, and then, within the time, a datagram.
abbrev pub answer_of : List ℕ → Answer
answer_of d = record {
  start = seconds 10;
  polls =
      record { attempt = nothing; now = seconds 11 }
      ∷ record { attempt = datagram d; now = seconds 11 }
      ∷ [];
}

-- A wait in which no datagram comes for two seconds.
abbrev pub silence : Answer
silence = record {
  start = seconds 10;
  polls =
      record { attempt = nothing; now = seconds 11 }
      ∷ record { attempt = nothing; now = seconds 12 }
      ∷ [];
}

pub Meets-answer_of : (d : List ℕ) → Meets (seconds 1) (seconds 10) (answer_of d).polls (some d)
unfolding timersub timer_greater ◌-ℤ◌
Meets-answer_of d = retry _ _ _ refl refl (arrives _ _ d refl)

pub Meets-silence : Meets (seconds 1) (seconds 10) silence.polls none
unfolding timersub timer_greater ◌-ℤ◌
Meets-silence = retry _ _ _ refl refl (late _ _ refl refl)

pub packet-CanSend : (seq : ℕ) → CanSend ByteOrder.little (packet seq) (pos 14) client_three
unfolding layout
packet-CanSend seq = record {
  sendable = record { known = λ k. cc; has_payload = λ k. omega arith };
  short = λ k. omega arith;
  delivered = refl;
  has_room = length-replicate {A = ℕ} 8192 0;
}

-- An ACK comes, and then nothing more.
abbrev waits : List Answer
waits = answer_of (ack_frame 3 9) ∷ silence ∷ silence ∷ silence ∷ []

abbrev brought : List (Option (List ℕ))
brought = some (ack_frame 3 9) ∷ none ∷ none ∷ none ∷ []

brought-HoldBytes : HoldBytes brought
brought-HoldBytes = ground arith

waits-Hears : Hears (seconds 1) waits brought
waits-Hears =
    (Meets-answer_of (ack_frame 3 9), (Meets-silence, (Meets-silence, (Meets-silence, tt))))

client_send_packet-listen_example :
    let r : Dialogue = listen ByteOrder.little (tries_of client_three (packet 9)) brought in
    (cl' : Client) × (client_send_packet ByteOrder.little
        (packet 9)
        somewhere
        (pos 14)
        waits
        client_three
      ≡ ok (r.0, cl', sent somewhere (wire ByteOrder.little (packet 9)) ∷ r.2))
    × All IsQuiet r.2
    × (cl'.tries ≡ set client_three.tries 9 r.1)
client_send_packet-listen_example =
    client_send_packet-listen ByteOrder.little (packet 9) somewhere (pos 14) client_three
      (packet-CanSend 9) waits brought (omega arith) brought-HoldBytes waits-Hears

client_send_packet-returned_example :
    (cl' : Client) × (actions : List Action) × (client_send_packet ByteOrder.little
        (packet 9)
        somewhere
        (pos 14)
        waits
        client_three
      ≡ ok (returned, cl', actions))
client_send_packet-returned_example =
    client_send_packet-returned ByteOrder.little (packet 9) somewhere (pos 14) client_three
      (packet-CanSend 9) waits brought (omega arith) brought-HoldBytes waits-Hears (omega arith)

client_send_packet-waiting_example :
    (cl' : Client) × (client_send_packet ByteOrder.little
        (packet 9)
        somewhere
        (pos 14)
        (answer_of (ack_frame 3 9) ∷ answer_of (ack_frame 3 9) ∷ [])
        client_three
      ≡ ok (waiting, cl', sent somewhere (wire ByteOrder.little (packet 9)) ∷ []))
client_send_packet-waiting_example =
    client_send_packet-waiting ByteOrder.little (packet 9) somewhere (pos 14) client_three
      (answer_of (ack_frame 3 9) ∷ answer_of (ack_frame 3 9) ∷ []) 2 3 9 (packet-CanSend 9)
      (omega arith) (omega arith) (omega arith) (omega arith)
      (Meets-answer_of (ack_frame 3 9), (Meets-answer_of (ack_frame 3 9), tt))
