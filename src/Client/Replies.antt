-- ===== src/Client/Replies.antt =====
-- How the client takes the server's frames.
use ghetto_subscriber_valida.Prelude.{
  ℕ, zero, suc, ◌<◌, ◌≡◌, ◌∙◌, refl, ap, [], ◌∷◌, Option, some, ok, length, replicate, arith,
  lt→ltb, List,
}
use ghetto_subscriber_valida.Host.{ByteOrder}
use ghetto_subscriber_valida.Packet.{PacketInfo, seq_num, layout, acc_ok, not_paid, not_exist}
use ghetto_subscriber_valida.Packet.Alerts.{alert_reply}
use ghetto_subscriber_valida.Packet.Decode.{decode}
use ghetto_subscriber_valida.Server.Frames.{ack_frame, data_frame}
use Prim.Native.String.{String}
use ghetto_subscriber_valida.Prelude.Int.{ℤ}
use ghetto_subscriber_valida.Server.{Address}
use ghetto_subscriber_valida.Packet.Wire.{wire}
use ghetto_subscriber_valida.Client.Send.{CanSend, tries_of, client_send_packet-listen}
use ghetto_subscriber_valida.Client.Protocol.{heard, Dialogue, react, listen, Hears, HoldBytes}
use ghetto_subscriber_valida.Client.{
  Client, Answer, sent, client_send_packet, replied, returned, waiting, max_tries, zero_pi,
  client_handle_reply,
}

module _ (host : ByteOrder) where
  pub react-ack_frame :
      (id s tries : ℕ) (rest : Dialogue)
      → react host (decode host (heard (ack_frame id s)) zero_pi) tries rest ≡ rest
  unfolding client_handle_reply layout
  react-ack_frame id s tries rest = refl

  -- Any number of ACKs keeps the client waiting, and takes none of its tries.
  listen-ack_frame :
      (tries id s n : ℕ)
      → tries < max_tries
      → listen host tries (replicate n (some (ack_frame id s))) ≡ (waiting, tries, [])
  unfolding listen
  listen-ack_frame tries id s zero h = ground arith
  listen-ack_frame tries id s (suc n) h =
      rw (lt→ltb tries max_tries h) (react-ack_frame id s tries _ ∙ listen-ack_frame tries id s n h)

  HoldBytes-ack_frame :
      (id s n : ℕ) → id < 256 → s < 256 → HoldBytes (replicate n (some (ack_frame id s)))
  HoldBytes-ack_frame id s zero h k = tt
  HoldBytes-ack_frame id s (suc n) h k = (ground arith, HoldBytes-ack_frame id s n h k)

  -- The text for a type of reply.
  abbrev pub reply_text : ℕ → String
  reply_text type = alert_reply (record zero_pi { type = type })

  module _ (id s a b c d e tries : ℕ) (rest : Dialogue) where
    abbrev pub Final : ℕ → Type 0
    Final type =
        react host (decode host (heard (data_frame type id s (a ∷ b ∷ c ∷ d ∷ e ∷ []))) zero_pi)
          tries rest
        ≡ (returned, tries, replied (reply_text type) ∷ [])

    -- A reply of the server to a request, with a payload of 5 bytes, is final.
    pub react-acc_ok : Final acc_ok
    unfolding client_handle_reply layout alert_reply
    react-acc_ok = refl

    pub react-not_paid : Final not_paid
    unfolding client_handle_reply layout alert_reply
    react-not_paid = refl

    pub react-not_exist : Final not_exist
    unfolding client_handle_reply layout alert_reply
    react-not_exist = refl

-- A peer that only acknowledges keeps `client_send_packet` waiting for ever, whatever the time limit: after
-- any number of ACKs it still waits, and has sent the packet once.
pub client_send_packet-waiting :
    (host : ByteOrder) (pi : PacketInfo) (dest : Address) (sendto : ℤ) (cl : Client)
    (answers : List Answer) (n id s : ℕ)
    → CanSend host pi sendto cl
    → seq_num pi < length cl.tries
    → tries_of cl pi < max_tries
    → id < 256
    → s < 256
    → Hears cl.timeout answers (replicate n (some (ack_frame id s)))
    → (cl' : Client) × (client_send_packet host pi dest sendto answers cl
        ≡ ok (waiting, cl', sent dest (wire host pi) ∷ []))
client_send_packet-waiting host pi dest sendto cl answers n id s can room t hi hs m =
    let os : List (Option (List ℕ)) = replicate n (some (ack_frame id s)) in
    let (cl', run, _, _) =
      client_send_packet-listen host pi dest sendto cl can answers os room
        (HoldBytes-ack_frame host id s n hi hs) m in
    (
      cl',
      run
          ∙ ap (λ (r : Dialogue). ok (r.0, cl', sent dest (wire host pi) ∷ r.2))
              (listen-ack_frame host (tries_of cl pi) id s n t),
    )
