-- ===== src/Server/Check.antt =====
-- Which datagrams `server_check_packet` accepts.
use ghetto_subscriber_valida.Prelude.{
  ℕ, ◌+◌, ◌≤◌, ◌≡◌, ◌↔◌, ◌∙◌, ap, sym, subst, List, [], ◌∷◌, ◌++◌, arith, length, take, drop, ok,
  length-append, length-take, take-append-drop, All-take, if◌then◌else◌, ltb, ◌==◌,
}
use ghetto_subscriber_valida.Host.{ByteOrder, IsByte}
use ghetto_subscriber_valida.Database.{buf_size}
use ghetto_subscriber_valida.Packet.{
  PacketInfo, with_payload, layout, data_len, seq_num, acc_per, out_of_seq, dup_pack,
}
use ghetto_subscriber_valida.Packet.Decode.{IsBytes, decode, interpret_packet-decode}
use ghetto_subscriber_valida.Packet.Accepted.{decode-Begins}
use ghetto_subscriber_valida.Server.{Server, check_fields, server_check_packet}
use ghetto_subscriber_valida.Server.Frames.{IsReady, data_frame}
use ghetto_subscriber_valida.Server.Request.{
  Begins-frame, Decodes, IsRequest, layout-acc_per, request-Decodes,
}

module _ (host : ByteOrder) (serv : Server) (pi₀ : PacketInfo) (ready : IsReady serv) where
  abbrev pub decoded : ℕ × PacketInfo
  decoded = decode host serv.recv_buf pi₀

  -- `server_check_packet` always returns.
  pub server_check_packet-decode :
      server_check_packet host serv pi₀ ≡ ok (check_fields serv decoded.0 decoded.1, decoded.1)
  unfolding server_check_packet
  server_check_packet-decode = rw (
      interpret_packet-decode host serv.recv_buf buf_size ready.recv_bytes
        (omega (arith, ready.recv_size)) (omega arith) pi₀)

  -- A code of 0 says that each check has passed.
  pub check_fields-zero :
      check_fields serv decoded.0 decoded.1 ≡ 0
      → (decoded.0 ≡ 0)
        × (decoded.1.type ≡ acc_per)
        × (9 + data_len decoded.1 ≡ serv.last_recvd_len)
        × (seq_num decoded.1 ≡ serv.expect_recv decoded.1.id)
  unfolding check_fields
  check_fields-zero h = ground arith

  pub accepted-IsRequest :
      check_fields serv decoded.0 decoded.1 ≡ 0
      → IsRequest serv decoded.1.id
          (seq_num decoded.1)
          (take (data_len decoded.1) decoded.1.cont.payload)
  accepted-IsRequest h =
      let z = check_fields-zero h in
      Begins-frame host serv.recv_buf serv.last_recvd_len decoded.1
        (decode-Begins host serv.recv_buf pi₀ ready.recv_bytes (omega (arith, ready.recv_size)) z.0)
        z.1 z.2

  -- The payload of an accepted request lies inside `recv_buf`.
  pub accepted-payload :
      check_fields serv decoded.0 decoded.1 ≡ 0
      → (data_len decoded.1 ≤ length decoded.1.cont.payload) × IsByte (data_len decoded.1)
  accepted-payload h =
      let z = check_fields-zero h in
      let b =
        decode-Begins host serv.recv_buf pi₀ ready.recv_bytes (omega (arith, ready.recv_size))
          z.0 in
      let l : layout decoded.1.type ≡ with_payload = ap layout z.1 ∙ layout-acc_per in
      (b.1.has_payload l, b.2 l)

  request-decoded :
      (id seq : ℕ) (payload : List ℕ)
      → IsRequest serv id seq payload
      → Decodes host pi₀ id seq payload serv.recv_buf × (9 + length payload ≡ serv.last_recvd_len)
  request-decoded id seq payload r =
      let whole : data_frame acc_per id seq payload ++ drop serv.last_recvd_len serv.recv_buf
          ≡ serv.recv_buf =
        ap (λ f. f ++ drop serv.last_recvd_len serv.recv_buf) (sym r.0)
        ∙ take-append-drop serv.last_recvd_len serv.recv_buf in
      let bytes : IsBytes (data_frame acc_per id seq payload) =
        subst IsBytes r.0 (All-take IsByte serv.last_recvd_len serv.recv_buf ready.recv_bytes) in
      (
        subst (Decodes host pi₀ id seq payload) whole (
            request-Decodes host pi₀ id seq payload (drop serv.last_recvd_len serv.recv_buf) bytes
              r.1),
        omega (
          arith,
          ap (λ (f : List ℕ). length f) r.0,
          r.1,
          length-take serv.last_recvd_len serv.recv_buf,
          length-append payload (255 ∷ 255 ∷ []),
          ready.recv_size,
        ),
      )

  pub check_fields-request :
      (id seq : ℕ) (payload : List ℕ)
      → IsRequest serv id seq payload
      → check_fields serv decoded.0 decoded.1 ≡ (
          if seq == serv.expect_recv id
          then 0
          else if ltb (serv.expect_recv id) seq
          then out_of_seq
          else dup_pack)
  unfolding check_fields
  check_fields-request id seq payload r =
      let d = request-decoded id seq payload r in
      ground (arith, d.0, d.1, ap serv.expect_recv d.0.2)

  -- On a server that is ready a well-formed access request is interpreted as such, and its code depends
  -- on its sequence number alone: 0 if it is the one expected of its client, OUT_OF_SEQ if it is above
  -- that, and DUP_PACK if it is below.
  pub server_check_packet-request :
      (id seq : ℕ) (payload : List ℕ)
      → IsRequest serv id seq payload
      → (pi : PacketInfo) × (server_check_packet host serv pi₀
          ≡ ok (
            if seq == serv.expect_recv id
                then 0
                else if ltb (serv.expect_recv id) seq
                then out_of_seq
                else dup_pack,
            pi,
          ))
        × (pi.type ≡ acc_per)
        × (pi.id ≡ id)
        × (seq_num pi ≡ seq)
        × (take (data_len pi) pi.cont.payload ≡ payload)
  server_check_packet-request id seq payload r =
      let d = request-decoded id seq payload r in
      (
        decoded.1,
        server_check_packet-decode
            ∙ ap (λ c. ok (c, decoded.1)) (check_fields-request id seq payload r),
        d.0.1,
        d.0.2,
        d.0.3,
        ap (λ n. take n decoded.1.cont.payload) d.0.4 ∙ d.0.5,
      )

  -- On a server that is ready `server_check_packet` always returns, and its code is 0 exactly if the
  -- datagram received, and not a byte less or more, is an access request whose sequence number is the
  -- one expected of its client.
  pub server_check_packet-accepts :
      (r : ℕ × PacketInfo) × (server_check_packet host serv pi₀ ≡ ok r)
      × ((r.0 ≡ 0)
          ↔ ((id : ℕ) × (payload : List ℕ) × IsRequest serv id (serv.expect_recv id) payload))
  server_check_packet-accepts = (
    (check_fields serv decoded.0 decoded.1, decoded.1),
    server_check_packet-decode,
    (
      λ h.
          let q : PacketInfo = decoded.1 in
          let sent : List ℕ = take (data_len q) q.cont.payload in
          (
            q.id,
            sent,
            subst (λ s. IsRequest serv q.id s sent) (check_fields-zero h).3 (accepted-IsRequest h),
          ),
      λ (id, payload, r). check_fields-request id (serv.expect_recv id) payload r ∙ ground arith,
    ),
  )
