-- ===== src/Server/Request.antt =====
-- Access requests, as datagrams and as decoded packets.
use ghetto_subscriber_valida.Prelude.{
  ℕ, ◌+◌, ◌<◌, ◌≡◌, ◌∙◌, ap, sym, refl, List, [], ◌∷◌, ◌++◌, arith, length, take, drop,
  take-length-append, length-append, length-take, take_all, All-append_left,
}
use ghetto_subscriber_valida.Host.{ByteOrder, IsByte}
use ghetto_subscriber_valida.Packet.{PacketInfo, with_payload, layout, data_len, seq_num, acc_per}
use ghetto_subscriber_valida.Packet.Wire.{wire}
use ghetto_subscriber_valida.Packet.Decode.{IsBytes, decode}
use ghetto_subscriber_valida.Packet.RoundTrip.{IsTyped, decode-wire}
use ghetto_subscriber_valida.Packet.Accepted.{Begins}
use ghetto_subscriber_valida.Server.{Server}
use ghetto_subscriber_valida.Server.Frames.{data_frame, wire-data_frame}

-- The datagram that the server has received last.
abbrev pub received : Server → List ℕ
received serv = take serv.last_recvd_len serv.recv_buf

-- That datagram is an access request with these fields.
abbrev pub IsRequest : Server → ℕ → ℕ → List ℕ → Type 0
IsRequest serv id seq payload =
    (received serv ≡ data_frame acc_per id seq payload) × (length payload < 256)

pub layout-acc_per : layout acc_per ≡ with_payload
unfolding layout
layout-acc_per = refl

pub Begins-frame :
    (host : ByteOrder) (buf : List ℕ) (n : ℕ) (q : PacketInfo)
    → Begins host buf q
    → q.type ≡ acc_per
    → 9 + data_len q ≡ n
    → (take n buf ≡ data_frame acc_per q.id (seq_num q) (take (data_len q) q.cont.payload))
      × (length (take (data_len q) q.cont.payload) < 256)
Begins-frame host buf n q b t e =
    let l : layout q.type ≡ with_payload = ap layout t ∙ layout-acc_per in
    let sent : List ℕ = take (data_len q) q.cont.payload in
    let size : length sent ≡ data_len q =
      omega (arith, length-take (data_len q) q.cont.payload, b.1.has_payload l) in
    let w : wire host q ≡ data_frame acc_per q.id (seq_num q) sent =
      wire-data_frame host q l (b.1.has_payload l)
      ∙ ap (λ k. data_frame k q.id (seq_num q) sent) t in
    let long : n ≡ length (wire host q) =
      omega
        (arith, e, size, ap (λ (f : List ℕ). length f) w, length-append sent (255 ∷ 255 ∷ [])) in
    (
      ap (take n) (sym b.0)
          ∙ take-length-append n (wire host q) (drop (length (wire host q)) buf) long
          ∙ w,
      omega (arith, size, b.2 l),
    )

-- A request as a packet in memory.
abbrev request : ℕ → ℕ → List ℕ → PacketInfo
request id seq payload = record {
  type = acc_per;
  id = id;
  cont = record { b0 = seq; b1 = length payload; b2 = 0; b3 = 0; b4 = 0; payload = payload };
}

request-IsTyped :
    (host : ByteOrder) (id seq : ℕ) (payload : List ℕ)
    → IsBytes (data_frame acc_per id seq payload)
    → length payload < 256
    → IsTyped host (request id seq payload)
unfolding layout
request-IsTyped host id seq payload b l = record {
  type_fits = omega arith;
  id_fits = omega (arith, b);
  seq_fits = omega (arith, b);
  len_fits = l;
  reject_seq_fits = omega arith;
  code_fits = λ e. absurd (cc);
  payload_fits = All-append_left IsByte payload (255 ∷ 255 ∷ []) b.1.1.1.1.1.1.1;
}

-- What is decoded of a buffer that begins with a request.
abbrev pub Decodes : ByteOrder → PacketInfo → ℕ → ℕ → List ℕ → List ℕ → Type 0
Decodes host pi₀ id seq payload buf =
    ((decode host buf pi₀).0 ≡ 0)
    × ((decode host buf pi₀).1.type ≡ acc_per)
    × ((decode host buf pi₀).1.id ≡ id)
    × (seq_num (decode host buf pi₀).1 ≡ seq)
    × (data_len (decode host buf pi₀).1 ≡ length payload)
    × (take (length payload) (decode host buf pi₀).1.cont.payload ≡ payload)

pub request-Decodes :
    (host : ByteOrder) (pi₀ : PacketInfo) (id seq : ℕ) (payload rest : List ℕ)
    → IsBytes (data_frame acc_per id seq payload)
    → length payload < 256
    → Decodes host pi₀ id seq payload (data_frame acc_per id seq payload ++ rest)
unfolding layout
request-Decodes host pi₀ id seq payload rest b l =
    let q : PacketInfo = request id seq payload in
    let whole : take (length payload) payload ≡ payload =
      take_all (length payload) payload (omega arith) in
    let d =
      decode-wire host host q pi₀ rest (request-IsTyped host id seq payload b l)
        (record { known = λ k. cc; has_payload = λ k. omega arith }) in
    let d' = rw whole at d in (d'.0, refl, refl, refl, refl, sym d'.1.2.2)
