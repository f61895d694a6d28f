-- ===== src/Server/Frames.antt =====
-- The packets that the server sends, byte by byte, and the buffers that it needs for them.
use ghetto_subscriber_valida.Prelude.{
  ℕ, ◌/◌, ◌%◌, ◌≤◌, ◌<◌, ◌≡◌, ◌∙◌, ap, refl, List, [], ◌∷◌, ◌++◌, arith, length, take, drop,
  Outcome, ok, take-length-append, length-take,
}
use ghetto_subscriber_valida.Host.{ByteOrder, IsByte}
use ghetto_subscriber_valida.RawIterator.Laws.{filled}
use ghetto_subscriber_valida.Database.{buf_size}
use ghetto_subscriber_valida.Packet.{PacketInfo, with_payload, layout, data_len, seq_num, reject}
use ghetto_subscriber_valida.Packet.Wire.{wire, IsSendable, flatten-wire}
use ghetto_subscriber_valida.Packet.Decode.{IsBytes}
use ghetto_subscriber_valida.Packet.RoundTrip.{length-wire-le, reject_code-set_reject_info}
use ghetto_subscriber_valida.Server.{
  Server, Address, Effect, sent, send_packet, server_send_ack, server_send_reject,
}

-- The buffers have the size of their arrays and hold bytes, and the sequence numbers are bytes.
pub record IsReady (serv : Server) : Type 0 where
  pub recv_size : length serv.recv_buf ≡ buf_size
  pub recv_bytes : IsBytes serv.recv_buf
  pub send_size : length serv.send_buf ≡ buf_size
  pub expected : (id : ℕ) → serv.expect_recv id < 256

-- The frames of packet.h: two flag bytes, the client, the type, what the type carries, two flag bytes.
abbrev pub ack_frame : ℕ → ℕ → List ℕ
ack_frame id seq = 255 ∷ 255 ∷ id ∷ 255 ∷ 0xF2 ∷ seq ∷ 255 ∷ 255 ∷ []

abbrev pub reject_frame : ℕ → ℕ → ℕ → List ℕ
reject_frame id code seq =
    255 ∷ 255 ∷ id ∷ 255 ∷ 0xF3 ∷ (code / 256 % 256) ∷ (code % 256) ∷ seq ∷ 255 ∷ 255 ∷ []

abbrev pub data_frame : ℕ → ℕ → ℕ → List ℕ → List ℕ
data_frame type id seq payload =
    255
    ∷ 255
    ∷ id
    ∷ (type / 256 % 256)
    ∷ (type % 256)
    ∷ seq
    ∷ length payload
    ∷ (payload ++ (255 ∷ 255 ∷ []))

-- A frame handed to `sendto` from the start of `send_buf`; nothing else of the server changes.
abbrev pub delivered : Server → Address → List ℕ → Outcome (Server × List Effect)
delivered serv ret frame =
    ok (record serv { send_buf = filled frame serv.send_buf }, sent ret frame ∷ [])

-- The wire format of a reply to a request.
pub wire-data_frame :
    (host : ByteOrder) (pi : PacketInfo)
    → layout pi.type ≡ with_payload
    → data_len pi ≤ length pi.cont.payload
    → wire host pi ≡ data_frame pi.type pi.id (seq_num pi) (take (data_len pi) pi.cont.payload)
wire-data_frame host pi e l = rw e (ground (arith, length-take (data_len pi) pi.cont.payload))

module _ (host : ByteOrder) (serv : Server) (ret : Address) (ready : IsReady serv) where
  -- A packet that can be sent is sent as its wire format.
  send_packet-wire :
      (pi : PacketInfo)
      → IsSendable pi
      → (layout pi.type ≡ with_payload → IsByte (data_len pi))
      → send_packet host serv ret pi ≡ delivered serv ret (wire host pi)
  unfolding send_packet
  send_packet-wire pi v b = ground (
    arith,
    flatten-wire host pi serv.send_buf buf_size (omega (arith, ready.send_size)) v,
    length-wire-le host pi (layout pi.type) b,
    take-length-append (length (wire host pi)) (wire host pi)
        (drop (length (wire host pi)) serv.send_buf) refl,
  )

  pub send_ack-frame :
      (id : ℕ) (pi : PacketInfo)
      → server_send_ack host serv id ret pi
        ≡ delivered serv ret (ack_frame id (serv.expect_recv id))
  unfolding server_send_ack layout
  send_ack-frame id pi =
      send_packet-wire _ (record { known = λ k. cc; has_payload = λ k. absurd (cc) })
        (λ k. absurd (cc))

  pub send_reject-frame :
      (bad pi : PacketInfo) (code : ℕ)
      → code < 65536
      → server_send_reject host serv bad ret code pi
        ≡ delivered serv ret (reject_frame bad.id code (seq_num bad))
  unfolding server_send_reject layout
  send_reject-frame bad pi code h =
      send_packet-wire _ (record { known = λ k. cc; has_payload = λ k. absurd (cc) })
        (λ k. absurd (cc))
      ∙ ap (λ c. delivered serv ret (reject_frame bad.id c (seq_num bad)))
          (reject_code-set_reject_info host code (seq_num bad)
            (record pi { type = reject; id = bad.id }) h)

  -- A reply to a request repeats its client, sequence number and payload under another type.
  pub send_reply-frame :
      (q : PacketInfo)
      → layout q.type ≡ with_payload
      → data_len q ≤ length q.cont.payload
      → IsByte (data_len q)
      → send_packet host serv ret q
        ≡ delivered serv ret (data_frame q.type q.id (seq_num q) (take (data_len q) q.cont.payload))
  send_reply-frame q e l b =
      send_packet-wire q (record { known = λ k. cc; has_payload = λ k. l }) (λ k. b)
      ∙ ap (delivered serv ret) (wire-data_frame host q e l)
