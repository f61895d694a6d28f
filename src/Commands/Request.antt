-- ===== src/Commands/Request.antt =====
-- What `send_req` sends for the arguments that a user gives.
use ghetto_subscriber_valida.Prelude.{
  ℕ, ◌%◌, ◌≤◌, ◌<◌, ◌≡◌, refl, subst, List, [], ◌∷◌, false, Option, some, ok, length, All, arith,
}
use ghetto_subscriber_valida.Prelude.Int.{is_minus_one}
use ghetto_subscriber_valida.Host.{ByteOrder, be32}
use ghetto_subscriber_valida.CString.Laws.{IsDigit, decimal}
use ghetto_subscriber_valida.Server.{Address}
use ghetto_subscriber_valida.Prelude.{get_or, set}
use ghetto_subscriber_valida.Database.{buf_size}
use ghetto_subscriber_valida.Packet.{PacketInfo, with_payload, layout, set_data_info, acc_per}
use ghetto_subscriber_valida.Packet.Wire.{wire}
use ghetto_subscriber_valida.Server.Frames.{data_frame, wire-data_frame}
use ghetto_subscriber_valida.Client.{Client, sent}
use ghetto_subscriber_valida.Client.Protocol.{Dialogue, listen, Hears, HoldBytes}
use ghetto_subscriber_valida.Client.Send.{CanSend, client_send_packet-Follows}
use ghetto_subscriber_valida.Client.Rounds.{Follows}
use ghetto_subscriber_valida.RawIterator.Laws.{filled}
use ghetto_subscriber_valida.Commands.{
  sending_to, acted, acted_all, AddrInfo, resolved, CommandEnv, parse_ip_args, send_parsed, send_to,
  send_req, request_size, sockaddr_in_size,
}
use ghetto_subscriber_valida.Commands.Digits.{
  build_payload-lem, number_of, parse_client_info-digits, strict_strtoul-decimal,
}

-- The access request for what the user's digits say.
abbrev pub request_frame : ℕ → ℕ → List ℕ → List ℕ → List ℕ
request_frame id seq num_str tech_str =
    data_frame acc_per id seq (decimal 0 tech_str ∷ be32 (number_of num_str))

-- Arguments of `send_req` that are an address, a sequence number, ten digits and two digits.
pub record AreArguments (getaddrinfo : List ℕ → List ℕ → AddrInfo)
    (node service seq num_str tech_str : List ℕ) (dest : Address) : Type 0 where
  pub found : getaddrinfo node service ≡ resolved sockaddr_in_size dest
  pub seq_digits : All IsDigit seq
  pub seq_some : 0 < length seq
  pub seq_short : length seq ≤ 18
  pub num_digits : All IsDigit num_str
  pub num_ten : length num_str ≡ 10
  pub tech_digits : All IsDigit tech_str
  pub tech_two : length tech_str ≡ 2

-- A client and an environment in which the request can be sent.
pub record CanRequest (env : CommandEnv) (cl : Client) (seq : ℕ) : Type 0 where
  pub delivered : is_minus_one env.sendto ≡ false
  pub payload_size : length env.payload ≡ request_size
  pub has_room : length cl.send_buf ≡ buf_size
  pub has_tries : seq < length cl.tries

-- The packet that `send_req` builds.
abbrev pub request_pi : PacketInfo → ℕ → ℕ → ℕ → ℕ → PacketInfo
request_pi pi id seq number ttype =
    set_data_info seq request_size (ttype ∷ be32 number) (record pi { type = acc_per; id = id })

layout-acc_per : layout acc_per ≡ with_payload
unfolding layout
layout-acc_per = refl

request_pi-CanSend :
    (host : ByteOrder) (env : CommandEnv) (cl : Client) (seq number ttype : ℕ)
    → CanRequest env cl seq
    → CanSend host (request_pi env.pi cl.id seq number ttype) env.sendto cl
unfolding layout
request_pi-CanSend host env cl seq number ttype can = record {
  sendable = record { known = λ k. cc; has_payload = λ k. omega arith };
  short = λ k. omega arith;
  delivered = can.delivered;
  has_room = can.has_room;
}

wire-request_pi :
    (host : ByteOrder) (pi : PacketInfo) (id seq number ttype : ℕ)
    → wire host (request_pi pi id seq number ttype)
      ≡ data_frame acc_per id seq (ttype ∷ be32 number)
wire-request_pi host pi id seq number ttype =
    wire-data_frame host (request_pi pi id seq number ttype) layout-acc_per (omega arith)

parse_ip_args-digits :
    (getaddrinfo : List ℕ → List ℕ → AddrInfo) (node service seq num_str tech_str : List ℕ)
    (dest : Address)
    → AreArguments getaddrinfo node service seq num_str tech_str dest
    → parse_ip_args getaddrinfo node service seq ≡ ok (some (dest, decimal 0 seq % 256), [])
unfolding parse_ip_args
parse_ip_args-digits getaddrinfo node service seq num_str tech_str dest args =
    rw
      (
        args.found,
        parse_ip_args,
        strict_strtoul-decimal seq args.seq_digits args.seq_some args.seq_short,
      )
      refl

send_to-digits :
    (host : ByteOrder) (getaddrinfo : List ℕ → List ℕ → AddrInfo) (env : CommandEnv) (cl : Client)
    (dest : Address) (n : ℕ) (node service seq num_str tech_str : List ℕ)
    → AreArguments getaddrinfo node service seq num_str tech_str dest
    → send_to host getaddrinfo env dest n num_str tech_str cl
      ≡ send_parsed host getaddrinfo env dest n (number_of num_str) (decimal 0 tech_str) cl
unfolding send_to
send_to-digits host getaddrinfo env cl dest n node service seq num_str tech_str args =
    rw
      (
        parse_client_info-digits num_str tech_str args.num_digits args.tech_digits args.num_ten
            args.tech_two,
        send_to,
      )
      refl

send_req-digits :
    (host : ByteOrder) (getaddrinfo : List ℕ → List ℕ → AddrInfo) (env : CommandEnv) (cl : Client)
    (dest : Address) (name node service seq num_str tech_str : List ℕ)
    → AreArguments getaddrinfo node service seq num_str tech_str dest
    → send_req host getaddrinfo env (name ∷ node ∷ service ∷ seq ∷ num_str ∷ tech_str ∷ []) cl
      ≡ send_parsed host getaddrinfo env dest
          (decimal 0 seq % 256)
          (number_of num_str)
          (decimal 0 tech_str)
          cl
unfolding send_req
send_req-digits host getaddrinfo env cl dest name node service seq num_str tech_str args =
    rw (parse_ip_args-digits getaddrinfo node service seq num_str tech_str dest args) (
      send_to-digits host getaddrinfo env cl dest (decimal 0 seq % 256) node service seq num_str
        tech_str args)

-- The whole client after a request: besides what the loop leaves, only `send_buf` has changed.
pub send_req-Follows :
    (host : ByteOrder) (getaddrinfo : List ℕ → List ℕ → AddrInfo) (env : CommandEnv) (cl : Client)
    (name node service seq num_str tech_str : List ℕ) (dest : Address) (os : List (Option (List ℕ)))
    → AreArguments getaddrinfo node service seq num_str tech_str dest
    → CanRequest env cl (decimal 0 seq % 256)
    → HoldBytes os
    → Hears cl.timeout env.answers os
    → let r : Dialogue = listen host (get_or cl.tries (decimal 0 seq % 256) 0) os in
      (cl' : Client) × (send_req host getaddrinfo env
          (name ∷ node ∷ service ∷ seq ∷ num_str ∷ tech_str ∷ [])
          cl
        ≡ ok (
          r.0,
          cl',
          sending_to dest
              ∷ acted (sent dest (request_frame cl.id (decimal 0 seq % 256) num_str tech_str))
              ∷ acted_all r.2,
        ))
      × Follows
          (decimal 0 seq % 256)
          (record cl {
            send_buf =
                filled (request_frame cl.id (decimal 0 seq % 256) num_str tech_str) cl.send_buf;
          })
          cl'
          r
unfolding send_parsed
send_req-Follows host getaddrinfo env cl name node service seq num_str tech_str dest os args can b
      m =
    let n : ℕ = decimal 0 seq % 256 in
    let pi : PacketInfo = request_pi env.pi cl.id n (number_of num_str) (decimal 0 tech_str) in
    let (cl', run, f) =
      client_send_packet-Follows host pi dest env.sendto cl
        (request_pi-CanSend host env cl n (number_of num_str) (decimal 0 tech_str) can) env.answers
        os can.has_tries b m in
    (
      cl',
      rw
          (
            send_req-digits host getaddrinfo env cl dest name node service seq num_str tech_str
                args,
            send_parsed,
            build_payload-lem host env.payload (number_of num_str) (decimal 0 tech_str)
                can.payload_size,
            run,
            wire-request_pi host env.pi cl.id n (number_of num_str) (decimal 0 tech_str),
          )
          refl,
      subst
          (λ w.
            Follows n (record cl { send_buf = filled w cl.send_buf }) cl'
              (listen host (get_or cl.tries n 0) os))
          (wire-request_pi host env.pi cl.id n (number_of num_str) (decimal 0 tech_str)) f,
    )

-- For such arguments `send_req` sends one datagram to the address, the access request with the client's
-- ID, the sequence number modulo 256, and the technology and the number that the digits denote; and
-- then it follows the protocol of the client.
pub send_req-listen :
    (host : ByteOrder) (getaddrinfo : List ℕ → List ℕ → AddrInfo) (env : CommandEnv) (cl : Client)
    (name node service seq num_str tech_str : List ℕ) (dest : Address) (os : List (Option (List ℕ)))
    → AreArguments getaddrinfo node service seq num_str tech_str dest
    → CanRequest env cl (decimal 0 seq % 256)
    → HoldBytes os
    → Hears cl.timeout env.answers os
    → let r : Dialogue = listen host (get_or cl.tries (decimal 0 seq % 256) 0) os in
      (cl' : Client) × (send_req host getaddrinfo env
          (name ∷ node ∷ service ∷ seq ∷ num_str ∷ tech_str ∷ [])
          cl
        ≡ ok (
          r.0,
          cl',
          sending_to dest
              ∷ acted (sent dest (request_frame cl.id (decimal 0 seq % 256) num_str tech_str))
              ∷ acted_all r.2,
        ))
      × (cl'.tries ≡ set cl.tries (decimal 0 seq % 256) r.1)
send_req-listen host getaddrinfo env cl name node service seq num_str tech_str dest os args can b
      m =
    let (cl', run, f) =
      send_req-Follows host getaddrinfo env cl name node service seq num_str tech_str dest os args
        can b m in
    (cl', run, f.counted)
