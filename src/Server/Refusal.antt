-- ===== src/Server/Refusal.antt =====
-- What the server does with an access request that has not the sequence number expected of its client.
use ghetto_subscriber_valida.Prelude.{
  ℕ, ◌≡◌, ◌≢◌, refl, List, [], ◌∷◌, ok, false, ltb, ◌==◌, if◌then◌else◌, arith,
}
use ghetto_subscriber_valida.Host.{ByteOrder}
use ghetto_subscriber_valida.RawIterator.Laws.{filled}
use ghetto_subscriber_valida.SortSearch.{SortSearch}
use ghetto_subscriber_valida.Database.{ClientInfo}
use ghetto_subscriber_valida.Packet.{PacketInfo, out_of_seq, dup_pack}
use ghetto_subscriber_valida.Server.{
  Server, Address, Effect, sent, alert, Garbage, server_process_packet,
}
use ghetto_subscriber_valida.Server.Frames.{IsReady, reject_frame, send_reject-frame}
use ghetto_subscriber_valida.Server.Handle.{IsReady-filled}
use ghetto_subscriber_valida.Server.Request.{IsRequest}
use ghetto_subscriber_valida.Server.Check.{server_check_packet-request}

-- The code for a sequence number where another is expected.
abbrev pub refusal : ℕ → ℕ → ℕ
refusal expected seq = if ltb expected seq then out_of_seq else dup_pack

-- On a server that is ready a well-formed access request with another sequence number than the one expected
-- is answered by one REJECT, with its client, its number and the code for it, and changes nothing but
-- `send_buf`.
pub request-refused :
    (host : ByteOrder) (std : SortSearch ClientInfo) (serv : Server) (ret : Address) (g : Garbage)
    (id seq : ℕ) (payload : List ℕ)
    → IsReady serv
    → IsRequest serv id seq payload
    → seq ≢ serv.expect_recv id
    → let code : ℕ = refusal (serv.expect_recv id) seq in
      (out : Server × List Effect) × (pi : PacketInfo) × (server_process_packet host std serv ret g
        ≡ ok out)
      × IsReady out.0
      × (out.0.db ≡ serv.db)
      × (out.0.expect_recv ≡ serv.expect_recv)
      × (out.1 ≡ alert pi code ∷ sent ret (reject_frame id code seq) ∷ [])
unfolding server_process_packet
request-refused host std serv ret g id seq payload ready r ne =
    let code : ℕ = refusal (serv.expect_recv id) seq in
    let frame : List ℕ = reject_frame id code seq in
    let (pi, checked, _, who, number, _) =
      server_check_packet-request host serv g.received ready id seq payload r in
    let other : (seq == serv.expect_recv id) ≡ false = ground arith in
    let bad : (code == 0) ≡ false = ground arith in
    let send = send_reject-frame host serv ret ready pi g.reject_pi code (ground arith) in
    (
      (record serv { send_buf = filled frame serv.send_buf }, alert pi code ∷ sent ret frame ∷ []),
      pi,
      rw (checked, other, bad, send, who, number) refl,
      IsReady-filled serv frame ready (omega arith),
      refl,
      refl,
      refl,
    )
