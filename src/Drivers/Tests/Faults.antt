-- ===== src/Drivers/Tests/Faults.antt =====
-- The client's faults and aborts on concrete input.
use ghetto_subscriber_valida.Prelude.{ℕ, ◌≡◌, ◌↔◌, fault, refl, aborted, List, [], ◌∷◌, arith}
use ghetto_subscriber_valida.Prelude.Int.{pos}
use ghetto_subscriber_valida.Host.{ByteOrder}
use ghetto_subscriber_valida.CString.{codes, strtoul}
use ghetto_subscriber_valida.Packet.{seq_num}
use ghetto_subscriber_valida.Server.Tests.{somewhere}
use ghetto_subscriber_valida.Client.{client_send_packet}
use ghetto_subscriber_valida.Client.Faults.{client_send_packet-fault_iff}
use ghetto_subscriber_valida.Client.Tests.{packet, packet-CanSend, silence}
use ghetto_subscriber_valida.Commands.{AddrInfo, resolved, send_req, strict_strtoul}
use ghetto_subscriber_valida.Commands.Tests.{env_of}
use ghetto_subscriber_valida.Drivers.Asking.{one_second, client_init-IsUsable}
use ghetto_subscriber_valida.Commands.Family.{IsOther, send_req-aborted_iff}
use ghetto_subscriber_valida.Drivers.Tests.{three_silences-Settles, client}

client_send_packet-fault_iff_example :
    (client_send_packet ByteOrder.little
        (packet 255)
        somewhere
        (pos 14)
        (silence ∷ silence ∷ silence ∷ [])
        client
      ≡ fault)
    ↔ (seq_num (packet 255) ≡ 255)
client_send_packet-fault_iff_example =
    client_send_packet-fault_iff ByteOrder.little (packet 255) 3 one_second client somewhere
      (pos 14) (silence ∷ silence ∷ silence ∷ [])
      (client_init-IsUsable (pos 3) (pos 0) 3 refl refl).1 (packet-CanSend 255).sendable
      (packet-CanSend 255).short refl three_silences-Settles (omega arith)

-- A resolver that answers with an address of IPv6.
abbrev resolve_six : List ℕ → List ℕ → AddrInfo
resolve_six node service = resolved 28 somewhere

send_req-aborted_iff_example :
    (send_req ByteOrder.little resolve_six
        (env_of (silence ∷ silence ∷ silence ∷ []))
        (codes "send_req"
          ∷ codes "::1"
          ∷ codes "4321"
          ∷ codes "9"
          ∷ codes "4085546805"
          ∷ codes "04"
          ∷ [])
        client
      ≡ aborted)
    ↔ IsOther (resolve_six (codes "::1") (codes "4321"))
unfolding strtoul strict_strtoul
send_req-aborted_iff_example =
    send_req-aborted_iff ByteOrder.little resolve_six (env_of (silence ∷ silence ∷ silence ∷ [])) 3
      one_second client (codes "send_req") (codes "::1") (codes "4321") (codes "9")
      (codes "4085546805") (codes "04") refl three_silences-Settles
      (client_init-IsUsable (pos 3) (pos 0) 3 refl refl).1 (omega arith)
