-- ===== src/Server/Process.antt =====
-- What `server_process_packet` does with a datagram.
use ghetto_subscriber_valida.Prelude.{
  ℕ, ◌+◌, ◌%◌, ◌≤◌, ◌<◌, ◌≡◌, ◌≢◌, ◌⊎◌, inl, inr, ◌∙◌, ap, refl, subst, List, [], ◌∷◌, arith,
  length, take, ok, ◌==◌, false, length-append, length-take,
}
use ghetto_subscriber_valida.Host.{ByteOrder}
use ghetto_subscriber_valida.RawIterator.Laws.{filled}
use native.Mathlib.Decide.{ℕ_discrete}
use ghetto_subscriber_valida.SortSearch.{SortSearch}
use ghetto_subscriber_valida.Database.{ClientInfo, buf_size}
use ghetto_subscriber_valida.Packet.{PacketInfo, data_len, seq_num}
use ghetto_subscriber_valida.Packet.Typed.{decode-code-lt}
use ghetto_subscriber_valida.Server.{
  Server, Address, Effect, sent, alert, Garbage, update, check_fields, server_process_packet,
}
use ghetto_subscriber_valida.Server.Frames.{
  IsReady, ack_frame, reject_frame, data_frame, send_reject-frame,
}
use ghetto_subscriber_valida.Server.Handle.{
  verdict, IsReady-filled, stepped, stepped-IsReady, reply, accept_packet-sent,
}
use ghetto_subscriber_valida.Server.Check.{
  decoded, check_fields-zero, accepted-payload, accepted-IsRequest, check_fields-request,
  server_check_packet-decode,
}
use ghetto_subscriber_valida.Server.Request.{IsRequest}

-- A datagram that is accepted: it is a request with the sequence number expected of its client, it is
-- answered by an ACK for that number and then a reply under the same number with the same payload, and the
-- number expected of that client, and of no other, goes up by one, round 256.
pub record Accepted (std : SortSearch ClientInfo) (key : ClientInfo) (serv : Server) (ret : Address)
    (out : Server × List Effect) : Type 0 where
  pub id : ℕ
  pub payload : List ℕ
  pub request : IsRequest serv id (serv.expect_recv id) payload
  pub answered :
      out.1
      ≡ sent ret (ack_frame id (serv.expect_recv id))
        ∷ sent ret (data_frame (verdict std key serv) id (serv.expect_recv id) payload)
        ∷ []
  pub counted : out.0.expect_recv ≡ update serv.expect_recv id ((serv.expect_recv id + 1) % 256)

-- A datagram that is not accepted: it is no such request, it is answered by one REJECT, and no sequence
-- number changes.
pub record Rejected (serv : Server) (ret : Address) (out : Server × List Effect) : Type 0 where
  pub bad_pi : PacketInfo
  pub code : ℕ
  pub nonzero : code ≢ 0
  pub no_request : (id : ℕ) (payload : List ℕ) → IsRequest serv id (serv.expect_recv id) payload → ⊥
  pub answered :
      out.1 ≡ alert bad_pi code ∷ sent ret (reject_frame bad_pi.id code (seq_num bad_pi)) ∷ []
  pub kept : out.0.expect_recv ≡ serv.expect_recv

pub check_fields-lt :
    (serv : Server) (code : ℕ) (pi : PacketInfo) → code < 65536 → check_fields serv code pi < 65536
unfolding check_fields
check_fields-lt serv code pi h = ground arith

module _ (host : ByteOrder) (std : SortSearch ClientInfo) (serv : Server) (ret : Address)
    (g : Garbage) (ready : IsReady serv) where
  abbrev pub code : ℕ
  code =
      check_fields serv (decoded host serv g.received ready).0
        (decoded host serv g.received ready).1

  abbrev pub pi : PacketInfo
  pi = (decoded host serv g.received ready).1

  -- What `server_process_packet` comes to, with this of its result.
  abbrev pub Answers : (Server × List Effect → Type 0) → Type 0
  Answers P =
      (out : Server × List Effect) × (server_process_packet host std serv ret g ≡ ok out)
      × IsReady out.0
      × (out.0.db ≡ serv.db)
      × P out

  pub server_process_packet-Accepted : code ≡ 0 → Answers (Accepted std g.key serv ret)
  unfolding server_process_packet
  server_process_packet-Accepted z =
      let checks = check_fields-zero host serv g.received ready z in
      let seq : seq_num pi ≡ serv.expect_recv pi.id = checks.3 in
      let payload : List ℕ = take (data_len pi) pi.cont.payload in
      let (l, b) = accepted-payload host serv g.received ready z in
      let frame : List ℕ = reply std g.key serv pi in
      let short : length frame ≤ buf_size = omega (
        arith,
        length-take (data_len pi) pi.cont.payload,
        length-append payload (255 ∷ 255 ∷ []),
      ) in
      (
        (
          record (stepped serv pi.id) { send_buf = filled frame (stepped serv pi.id).send_buf },
          sent ret (ack_frame pi.id (serv.expect_recv pi.id)) ∷ sent ret frame ∷ [],
        ),
        rw (server_check_packet-decode host serv g.received ready, z)
            (accept_packet-sent host std serv ret g pi ready l b),
        IsReady-filled (stepped serv pi.id) frame (stepped-IsReady serv pi.id ready) short,
        refl,
        record {
          id = pi.id;
          payload = payload;
          request =
              subst (λ s. IsRequest serv pi.id s payload) seq
                (accepted-IsRequest host serv g.received ready z);
          answered =
              ap
                (λ s.
                  sent ret (ack_frame pi.id (serv.expect_recv pi.id))
                  ∷ sent ret (data_frame (verdict std g.key serv) pi.id s payload)
                  ∷ [])
                seq;
          counted = refl;
        },
      )

  pub server_process_packet-Rejected : code ≢ 0 → Answers (Rejected serv ret)
  unfolding server_process_packet
  server_process_packet-Rejected nz =
      let no : (code == 0) ≡ false = ground arith in
      let small : code < 65536 =
        check_fields-lt serv _ pi (decode-code-lt host serv.recv_buf g.received) in
      (
        (
          record serv { send_buf = filled (reject_frame pi.id code (seq_num pi)) serv.send_buf },
          alert pi code ∷ sent ret (reject_frame pi.id code (seq_num pi)) ∷ [],
        ),
        rw
            (
              server_check_packet-decode host serv g.received ready,
              no,
              send_reject-frame host serv ret ready pi g.reject_pi code small,
            )
            refl,
        IsReady-filled serv (reject_frame pi.id code (seq_num pi)) ready (omega arith),
        refl,
        record {
          bad_pi = pi;
          code = code;
          nonzero = nz;
          no_request = λ id payload r. nz (
              check_fields-request host serv g.received ready id (serv.expect_recv id) payload r
              ∙ ground arith);
          answered = refl;
          kept = refl;
        },
      )

-- On a server that is ready `server_process_packet` always returns: no assertion fails and no access
-- leaves a buffer, whatever the datagram. The server stays ready and keeps its database, and the datagram
-- has either been accepted or been rejected.
pub server_process_packet-answers :
    (host : ByteOrder) (std : SortSearch ClientInfo) (serv : Server) (ret : Address) (g : Garbage)
    → IsReady serv
    → (out : Server × List Effect) × (server_process_packet host std serv ret g ≡ ok out)
      × IsReady out.0
      × (out.0.db ≡ serv.db)
      × (Accepted std g.key serv ret out ⊎ Rejected serv ret out)
unfolding server_process_packet
server_process_packet-answers host std serv ret g ready =
    elim (ℕ_discrete (code host std serv ret g ready) 0) [
      | yes z ↦
          let (out, run, again, same_db, a) =
            server_process_packet-Accepted host std serv ret g ready z in
          (out, run, again, same_db, inl a)
      | no nz ↦
          let (out, run, again, same_db, r) =
            server_process_packet-Rejected host std serv ret g ready nz in
          (out, run, again, same_db, inr r)
    ]
