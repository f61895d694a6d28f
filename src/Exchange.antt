-- ===== src/Exchange.antt =====
-- One exchange between the two programs: client_commands.c's `send_req` with client.c, and server.c's
-- `server_process_packet` on what it sends.
mod Tests
pub mod Protocol
pub mod Handled
pub mod Shown
pub mod Asking
pub mod Losses
pub mod Noise
pub mod Scraps
pub mod Talk
pub mod Users
pub mod Late
pub mod Exhausted
pub mod Served
pub mod Turns
pub mod Conversation
pub mod User
use ghetto_subscriber_valida.Prelude.{
  ℕ, ◌+◌, ◌%◌, ◌≤◌, ◌<◌, ◌≡◌, ◌∙◌, refl, sym, ap, subst, List, [], ◌∷◌, Option, none, some, Outcome,
  ok, length, get_or, set, All, true, lt→ltb, arith,
}
use ghetto_subscriber_valida.Host.{ByteOrder, be32}
use ghetto_subscriber_valida.CString.Laws.{IsDigit, decimal, decimal-lt}
use ghetto_subscriber_valida.SortSearch.{SortSearch}
use ghetto_subscriber_valida.Database.{ClientInfo}
use ghetto_subscriber_valida.Database.Order.{Within}
use ghetto_subscriber_valida.Database.Lookup.{IsSearchable, filled_entries}
use ghetto_subscriber_valida.Packet.{acc_ok, not_paid, not_exist}
use ghetto_subscriber_valida.Server.{
  Server, Address, Effect, Garbage, receive, update, server_process_packet,
}
use ghetto_subscriber_valida.Server.Frames.{IsReady, ack_frame, data_frame}
use ghetto_subscriber_valida.Server.Handle.{verdict}
use ghetto_subscriber_valida.Server.Access.{Decides, granted, unpaid, other_tech, absent}
use ghetto_subscriber_valida.Client.{Client, sent, replied, Progress, returned, waiting, max_tries}
use ghetto_subscriber_valida.RawIterator.Laws.{filled}
use ghetto_subscriber_valida.Client.Rounds.{Follows}
use ghetto_subscriber_valida.Client.Protocol.{Dialogue, listen, Hears, HoldBytes}
use ghetto_subscriber_valida.Client.Replies.{
  react-ack_frame, react-acc_ok, react-not_paid, react-not_exist, reply_text, Final,
}
use ghetto_subscriber_valida.Commands.{AddrInfo, CommandEnv, sending_to, acted, acted_all, send_req}
use ghetto_subscriber_valida.Commands.Request.{
  request_frame, AreArguments, CanRequest, send_req-Follows,
}
use ghetto_subscriber_valida.Commands.Digits.{number_of}
use Served.{question, asked, answer, request_frame-IsBytes, request-answered}

-- The datagrams of the server's answer, as the client hears them.
abbrev pub heard_answer : ℕ → ℕ → ℕ → List ℕ → List (Option (List ℕ))
heard_answer type id seq payload =
    some (ack_frame id seq) ∷ some (data_frame type id seq payload) ∷ []

module _ (host : ByteOrder) (tries id seq a b c d e : ℕ) (room : tries < max_tries) where
  abbrev IsFinal : ℕ → Type 0
  IsFinal type =
      listen host tries (heard_answer type id seq (a ∷ b ∷ c ∷ d ∷ e ∷ []))
      ≡ (returned, tries, replied (reply_text host type) ∷ [])

  listen-Final :
      (type : ℕ) → Final host id seq a b c d e tries (waiting, tries, []) type → IsFinal type
  unfolding listen
  listen-Final type f = rw (lt→ltb tries max_tries room) (react-ack_frame host id seq tries _ ∙ f)

  -- An answer of the server, whatever it decides, is final for the client.
  listen-Decides :
      (xs : List ClientInfo) (num ttype type : ℕ) → Decides xs num ttype type → IsFinal type
  listen-Decides xs num ttype type (granted _ _ _ _ _ t) =
      subst IsFinal (sym t) (listen-Final acc_ok (react-acc_ok host id seq a b c d e tries _))
  listen-Decides xs num ttype type (unpaid _ _ _ _ _ t) =
      subst IsFinal (sym t) (listen-Final not_paid (react-not_paid host id seq a b c d e tries _))
  listen-Decides xs num ttype type (other_tech _ _ _ _ t) =
      subst IsFinal (sym t) (listen-Final not_exist (react-not_exist host id seq a b c d e tries _))
  listen-Decides xs num ttype type (absent _ t) =
      subst IsFinal (sym t) (listen-Final not_exist (react-not_exist host id seq a b c d e tries _))

-- A client and a server between which a request and its answer can pass: the client's ID is a byte, the
-- sequence number is the one that the server expects of it, and the client has tries left for it.
pub record CanExchange (cl : Client) (serv : Server) (base n : ℕ) (num_str : List ℕ) : Type 0 where
  pub ready : IsReady serv
  pub searchable : IsSearchable base serv.db
  pub within : Within base (number_of num_str)
  pub known : cl.id < 256
  pub expected : n ≡ serv.expect_recv cl.id
  pub room : get_or cl.tries n 0 < max_tries

-- The server's answer to the request for some digits, as the client hears it.
abbrev pub answer_to :
    SortSearch ClientInfo → ClientInfo → Server → ℕ → List ℕ → List ℕ → List (Option (List ℕ))
answer_to std key serv id num_str tech_str =
    heard_answer (verdict std key (asked num_str tech_str id (serv.expect_recv id) serv)) id
      (serv.expect_recv id) (question num_str tech_str)

HoldBytes-answer_to :
    (std : SortSearch ClientInfo) (key : ClientInfo) (serv : Server) (id : ℕ)
    (num_str tech_str : List ℕ)
    → IsReady serv
    → id < 256
    → All IsDigit tech_str
    → length tech_str ≡ 2
    → HoldBytes (answer_to std key serv id num_str tech_str)
HoldBytes-answer_to std key serv id num_str tech_str ready h dt lt =
    ground (arith, ready.expected id, decimal-lt 0 tech_str 2 dt lt)

-- What an exchange does to the two programs and between them, in full.
pub send_req-answered :
    (chost shost : ByteOrder) (getaddrinfo : List ℕ → List ℕ → AddrInfo) (env : CommandEnv)
    (cl : Client) (name node service seq num_str tech_str : List ℕ) (dest ret : Address)
    (std : SortSearch ClientInfo) (serv : Server) (g : Garbage) (base : ℕ)
    → AreArguments getaddrinfo node service seq num_str tech_str dest
    → CanRequest env cl (decimal 0 seq % 256)
    → CanExchange cl serv base (decimal 0 seq % 256) num_str
    → Hears cl.timeout env.answers (answer_to std g.key serv cl.id num_str tech_str)
    → let frame : List ℕ = request_frame cl.id (decimal 0 seq % 256) num_str tech_str in
      let type : ℕ =
        verdict std g.key (asked num_str tech_str cl.id (serv.expect_recv cl.id) serv) in
      (out : Server × List Effect) × (cl' : Client) × (server_process_packet shost std
          (receive serv frame)
          ret
          g
        ≡ ok out)
      × IsReady out.0
      × (out.0.db ≡ serv.db)
      × (out.0.expect_recv ≡ update serv.expect_recv cl.id ((serv.expect_recv cl.id + 1) % 256))
      × (out.1 ≡ answer serv ret cl.id num_str tech_str type)
      × Decides (filled_entries serv.db) (number_of num_str) (decimal 0 tech_str) type
      × (send_req chost getaddrinfo env (name ∷ node ∷ service ∷ seq ∷ num_str ∷ tech_str ∷ []) cl
          ≡ ok (
            returned,
            cl',
            sending_to dest
                ∷ acted (sent dest frame)
                ∷ acted (replied (reply_text chost type))
                ∷ [],
          ))
      × Follows
          (decimal 0 seq % 256)
          (record cl { send_buf = filled frame cl.send_buf })
          cl'
          (returned, get_or cl.tries (decimal 0 seq % 256) 0, replied (reply_text chost type) ∷ [])
send_req-answered chost shost getaddrinfo env cl name node service seq num_str tech_str dest ret std
      serv g base args can ex m =
    let n : ℕ = decimal 0 seq % 256 in
    let type : ℕ = verdict std g.key (asked num_str tech_str cl.id (serv.expect_recv cl.id) serv) in
    let (out, run, again, same_db, counted, answered, decided) =
      request-answered shost std serv ret g cl.id num_str tech_str base ex.ready ex.searchable
        ex.within ex.known args.tech_digits args.tech_two in
    let (cl', ran, f) =
      send_req-Follows chost getaddrinfo env cl name node service seq num_str tech_str dest
        (answer_to std g.key serv cl.id num_str tech_str) args can
        (HoldBytes-answer_to std g.key serv cl.id num_str tech_str ex.ready ex.known
          args.tech_digits args.tech_two)
        m in
    let final : listen chost (get_or cl.tries n 0) (answer_to std g.key serv cl.id num_str tech_str)
        ≡ (returned, get_or cl.tries n 0, replied (reply_text chost type) ∷ []) =
      listen-Decides chost (get_or cl.tries n 0) cl.id (serv.expect_recv cl.id) _ _ _ _ _ ex.room
        (filled_entries serv.db) (number_of num_str) (decimal 0 tech_str) type decided in
    (
      out,
      cl',
      subst
          (λ s.
            server_process_packet shost std (asked num_str tech_str cl.id s serv) ret g ≡ ok out)
          (sym ex.expected) run,
      again,
      same_db,
      counted,
      answered,
      decided,
      ran
          ∙ ap
              (λ (r : Dialogue). ok (
                r.0,
                cl',
                sending_to dest
                    ∷ acted (sent dest (request_frame cl.id n num_str tech_str))
                    ∷ acted_all r.2,
              ))
              final,
      subst
          (Follows n
            (record cl { send_buf = filled (request_frame cl.id n num_str tech_str) cl.send_buf })
            cl')
          final f,
    )

-- For an address and digits, with the sequence number that the server expects of this client and tries
-- left for it, a server that is ready and searchable, and a number in its stretch: the server accepts the
-- request of `send_req`, with an ACK and a reply whose type says of its entries what was asked; and if the
-- waits of the client bring these two datagrams, `send_req` returns, having sent the request once and
-- printed one text, that of the type. The two programs may run on hosts of different byte order.
pub send_req-server_process_packet :
    (chost shost : ByteOrder) (getaddrinfo : List ℕ → List ℕ → AddrInfo) (env : CommandEnv)
    (cl : Client) (name node service seq num_str tech_str : List ℕ) (dest ret : Address)
    (std : SortSearch ClientInfo) (serv : Server) (g : Garbage) (base : ℕ)
    → AreArguments getaddrinfo node service seq num_str tech_str dest
    → CanRequest env cl (decimal 0 seq % 256)
    → CanExchange cl serv base (decimal 0 seq % 256) num_str
    → Hears cl.timeout env.answers (answer_to std g.key serv cl.id num_str tech_str)
    → let frame : List ℕ = request_frame cl.id (decimal 0 seq % 256) num_str tech_str in
      (type : ℕ) × (out : Server × List Effect) × (cl' : Client) × (server_process_packet shost std
          (receive serv frame)
          ret
          g
        ≡ ok out)
      × (out.1 ≡ answer serv ret cl.id num_str tech_str type)
      × Decides (filled_entries serv.db) (number_of num_str) (decimal 0 tech_str) type
      × (send_req chost getaddrinfo env (name ∷ node ∷ service ∷ seq ∷ num_str ∷ tech_str ∷ []) cl
          ≡ ok (
            returned,
            cl',
            sending_to dest
                ∷ acted (sent dest frame)
                ∷ acted (replied (reply_text chost type))
                ∷ [],
          ))
send_req-server_process_packet chost shost getaddrinfo env cl name node service seq num_str tech_str
      dest ret std serv g base args can ex m =
    let type : ℕ = verdict std g.key (asked num_str tech_str cl.id (serv.expect_recv cl.id) serv) in
    let (out, cl', run, _, _, _, answered, decided, ran, _) =
      send_req-answered chost shost getaddrinfo env cl name node service seq num_str tech_str dest
        ret std serv g base args can ex m in
    (type, out, cl', run, answered, decided, ran)
