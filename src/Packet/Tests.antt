-- ===== src/Packet/Tests.antt =====
-- packet.c on concrete packets.
use ghetto_subscriber_valida.Prelude.{
  ℕ, ◌<◌, ◌≡◌, refl, List, [], ◌∷◌, length, replicate, ok, ◌>>=◌, arith, length-replicate,
  All-replicate, All-append, ap, ◌∙◌,
}
use ghetto_subscriber_valida.Host.{ByteOrder, IsByte}
use ghetto_subscriber_valida.Packet.{
  PacketInfo, layout, acc_per, byte_size, flatten, interpret_packet,
}
use ghetto_subscriber_valida.Packet.Wire.{wire, IsSendable}
use ghetto_subscriber_valida.Packet.Decode.{IsBytes, decode, interpret_packet-decode}
use ghetto_subscriber_valida.Packet.RoundTrip.{IsTyped, SamePacket, flatten-interpret}
use ghetto_subscriber_valida.Packet.Range.{urange}
use ghetto_subscriber_valida.Packet.Typed.{interpret_packet-IsTyped}
use ghetto_subscriber_valida.Packet.Accepted.{interpret-flatten}

-- The request of client 3 for technology 4 of subscriber 408-554-6805, as packet number 9.
abbrev request_pi : PacketInfo
request_pi = record {
  type = acc_per;
  id = 3;
  cont = record { b0 = 9; b1 = 5; b2 = 0; b3 = 0; b4 = 0; payload = 4 ∷ 243 ∷ 132 ∷ 127 ∷ 53 ∷ [] };
}

abbrev blank_pi : PacketInfo
blank_pi = record {
  type = 0;
  id = 0;
  cont = record { b0 = 0; b1 = 0; b2 = 0; b3 = 0; b4 = 0; payload = [] };
}

abbrev zeros : List ℕ
zeros = replicate 300 0

zeros-length : length zeros ≡ 300
zeros-length = length-replicate {A = ℕ} 300 0

zeros-IsBytes : IsBytes zeros
zeros-IsBytes = All-replicate IsByte 300 0 (omega arith)

request_pi-IsSendable : IsSendable request_pi
unfolding layout
request_pi-IsSendable = record { known = λ e. cc; has_payload = λ e. omega arith }

request_pi-IsTyped : IsTyped ByteOrder.little request_pi
unfolding layout
request_pi-IsTyped = record {
  type_fits = omega arith;
  id_fits = omega arith;
  seq_fits = omega arith;
  len_fits = omega arith;
  reject_seq_fits = omega arith;
  code_fits = λ e. absurd (cc);
  payload_fits = (omega arith, (omega arith, (omega arith, (omega arith, (omega arith, tt)))));
}

-- The bytes on the wire.
request_bytes :
    wire ByteOrder.little request_pi
    ≡ 255 ∷ 255 ∷ 3 ∷ 255 ∷ 248 ∷ 9 ∷ 5 ∷ 4 ∷ 243 ∷ 132 ∷ 127 ∷ 53 ∷ 255 ∷ 255 ∷ []
unfolding layout
request_bytes = refl

interpret_packet-decode_example :
    interpret_packet ByteOrder.big zeros blank_pi 300 ≡ ok (decode ByteOrder.big zeros blank_pi)
interpret_packet-decode_example =
    interpret_packet-decode ByteOrder.big zeros 300 zeros-IsBytes (omega (arith, zeros-length))
      (omega arith) blank_pi

flatten-interpret_example :
    (received : PacketInfo) × ((flatten ByteOrder.little request_pi zeros 300 >>= λ (n, out).
    interpret_packet ByteOrder.big out blank_pi 300)
      ≡ ok (0, received))
    × SamePacket ByteOrder.little ByteOrder.big request_pi received
flatten-interpret_example =
    flatten-interpret ByteOrder.little ByteOrder.big request_pi blank_pi zeros 300
      request_pi-IsTyped request_pi-IsSendable zeros-IsBytes (omega arith)
      (omega (arith, zeros-length))

-- A buffer in which that request has been received.
abbrev request_buf : List ℕ
request_buf = 255 ∷ 255 ∷ 3 ∷ 255 ∷ 248 ∷ 9 ∷ 5 ∷ 4 ∷ 243 ∷ 132 ∷ 127 ∷ 53 ∷ 255 ∷ 255 ∷ zeros

request_buf-IsBytes : IsBytes request_buf
request_buf-IsBytes =
    All-append IsByte
      (255 ∷ 255 ∷ 3 ∷ 255 ∷ 248 ∷ 9 ∷ 5 ∷ 4 ∷ 243 ∷ 132 ∷ 127 ∷ 53 ∷ 255 ∷ 255 ∷ []) zeros
      (ground arith) zeros-IsBytes

blank_pi-IsTyped : IsTyped ByteOrder.big blank_pi
unfolding layout
blank_pi-IsTyped = record {
  type_fits = omega arith;
  id_fits = omega arith;
  seq_fits = omega arith;
  len_fits = omega arith;
  reject_seq_fits = omega arith;
  code_fits = λ e. absurd (cc);
  payload_fits = tt;
}

interpret_packet-IsTyped_example :
    (code : ℕ) × (pi' : PacketInfo) × (interpret_packet ByteOrder.big request_buf blank_pi 300
      ≡ ok (code, pi'))
    × (code < 65536)
    × IsTyped ByteOrder.big pi'
    × (pi'.id < urange byte_size)
interpret_packet-IsTyped_example =
    interpret_packet-IsTyped ByteOrder.big request_buf 300 blank_pi request_buf-IsBytes
      (omega (arith, zeros-length)) (omega arith) blank_pi-IsTyped

abbrev received_pi : PacketInfo
received_pi = (decode ByteOrder.big request_buf blank_pi).1

request_buf-decode : decode ByteOrder.big request_buf blank_pi ≡ (0, received_pi)
unfolding layout
request_buf-decode = refl

request_buf-interpret :
    interpret_packet ByteOrder.big request_buf blank_pi 300 ≡ ok (0, received_pi)
request_buf-interpret =
    interpret_packet-decode ByteOrder.big request_buf 300 request_buf-IsBytes
      (omega (arith, zeros-length)) (omega arith) blank_pi
    ∙ ap ok request_buf-decode

interpret-flatten_example :
    flatten ByteOrder.big received_pi request_buf 300
    ≡ ok (length (wire ByteOrder.big received_pi), request_buf)
interpret-flatten_example =
    interpret-flatten ByteOrder.big request_buf blank_pi received_pi 300 request_buf-IsBytes
      (omega arith) (omega (arith, zeros-length)) request_buf-interpret
