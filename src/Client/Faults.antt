-- ===== src/Client/Faults.antt =====
-- When `client_send_packet` leaves the array of tries.
use ghetto_subscriber_valida.Prelude.{ℕ, ◌<◌, ◌≡◌, ◌↔◌, List, false, fault, arith}
use native.Mathlib.Decide.{ℕ_discrete}
use ghetto_subscriber_valida.Prelude.Int.{ℤ, is_minus_one}
use ghetto_subscriber_valida.Host.{ByteOrder, IsByte}
use ghetto_subscriber_valida.BusyWait.{Timeval}
use ghetto_subscriber_valida.Packet.{PacketInfo, with_payload, layout, seq_num, data_len}
use ghetto_subscriber_valida.Packet.Wire.{IsSendable}
use ghetto_subscriber_valida.Server.{Address}
use ghetto_subscriber_valida.Client.{Client, Answer, client_send_packet}
use ghetto_subscriber_valida.Client.Send.{client_send_packet-fault}
use ghetto_subscriber_valida.Client.Usable.{IsUsable, Settles, client_send_packet-IsUsable}

-- On a client that can send, for a packet that can be sent, whose sequence number is a byte, which `sendto`
-- takes, and for waits that bring a final answer or run out of time as often as there are tries:
-- `client_send_packet` leaves an array exactly if the sequence number is 255.
pub client_send_packet-fault_iff :
    (host : ByteOrder) (pi : PacketInfo) (id : ℕ) (timeout : Timeval) (cl : Client) (dest : Address)
    (sendto : ℤ) (answers : List Answer)
    → IsUsable id timeout cl
    → IsSendable pi
    → (layout pi.type ≡ with_payload → IsByte (data_len pi))
    → is_minus_one sendto ≡ false
    → Settles host timeout answers
    → seq_num pi < 256
    → (client_send_packet host pi dest sendto answers cl ≡ fault) ↔ (seq_num pi ≡ 255)
client_send_packet-fault_iff host pi id timeout cl dest sendto answers usable sendable short
      delivered settles byte =
    (
      λ e. elim (ℕ_discrete (seq_num pi) 255) [
        | yes same ↦ same
        | no ne ↦
            let (_, _, run, _) =
              client_send_packet-IsUsable host pi id timeout cl usable dest sendto answers sendable
                short (omega (arith, byte, ne)) settles in
            absurd (cc (run, e))
      ],
      λ same.
          client_send_packet-fault host pi dest sendto cl
            (record {
              sendable = sendable;
              short = short;
              delivered = delivered;
              has_room = usable.send_size;
            })
            answers (omega (arith, usable.tries_size, same)),
    )
