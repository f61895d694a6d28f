-- ===== src/Exchange/Turns.antt =====
-- A request of the client's user and its answer, as one turn of the two programs.
use ghetto_subscriber_valida.Prelude.{
  ℕ, ◌+◌, ◌%◌, ◌<◌, ◌≡◌, ◌∙◌, sym, ap, subst, List, [], ◌∷◌, false, Option, some, ok, length,
  get_or, All-get_or, arith,
}
use ghetto_subscriber_valida.Prelude.Int.{ℤ, is_minus_one}
use ghetto_subscriber_valida.Host.{ByteOrder}
use ghetto_subscriber_valida.CString.{codes}
use ghetto_subscriber_valida.CString.Laws.{decimal}
use ghetto_subscriber_valida.SortSearch.{SortSearch}
use ghetto_subscriber_valida.BusyWait.{Timeval}
use ghetto_subscriber_valida.Database.{ClientInfo}
use ghetto_subscriber_valida.Database.Order.{Within}
use ghetto_subscriber_valida.Database.Lookup.{IsSearchable, filled_entries}
use ghetto_subscriber_valida.Packet.{PacketInfo}
use ghetto_subscriber_valida.Server.{
  Server, Address, Effect, sent, alert, Garbage, receive, update, server_process_packet,
}
use ghetto_subscriber_valida.Server.Frames.{IsReady}
use ghetto_subscriber_valida.Server.Handle.{verdict}
use ghetto_subscriber_valida.Exchange.Served.{asked, answer}
use mathlib.Core.List.{Perm}
use ghetto_subscriber_valida.Server.Access.{Decides, Decides-Perm}
use ghetto_subscriber_valida.Client.{
  Client, Action, Answer, returned, replied, max_seq_num, max_tries,
}
use ghetto_subscriber_valida.Client.Protocol.{Hears}
use ghetto_subscriber_valida.Client.Replies.{reply_text}
use ghetto_subscriber_valida.Client.Usable.{IsUsable, Follows-IsUsable}
use ghetto_subscriber_valida.Commands.{
  Report, AddrInfo, CommandEnv, sending_to, acted, send_req, request_size,
}
use ghetto_subscriber_valida.Commands.Request.{request_frame, AreArguments, CanRequest}
use ghetto_subscriber_valida.Commands.Digits.{number_of}
use ghetto_subscriber_valida.Exchange.{CanExchange, answer_to, send_req-answered}

-- The ID of a client, the line that its user types for a request and the words of it, and what the two
-- programs meet while they deal with it.
pub record Turn : Type 0 where
  pub who : ℕ
  pub input : List ℕ
  pub node : List ℕ
  pub service : List ℕ
  pub seq : List ℕ
  pub num_str : List ℕ
  pub tech_str : List ℕ
  pub dest : Address
  pub sendto : ℤ
  pub payload : List ℕ
  pub pi : PacketInfo
  pub ret : Address
  pub garbage : Garbage

-- The request of a turn.
abbrev pub frame_of : Turn → List ℕ
frame_of t = request_frame t.who (decimal 0 t.seq % 256) t.num_str t.tech_str

-- The tokens of the request.
abbrev pub argv_of : Turn → List (List ℕ)
argv_of t = codes "send_req" ∷ t.node ∷ t.service ∷ t.seq ∷ t.num_str ∷ t.tech_str ∷ []

-- What `send_req` meets when the waits bring these datagrams.
abbrev pub env_of :
    (List (Option (List ℕ)) → List Answer) → Turn → List (Option (List ℕ)) → CommandEnv
env_of network t os = record {
  sendto = t.sendto;
  answers = network os;
  payload = t.payload;
  pi = t.pi;
}

-- What `send_req` reports of a request that is answered by a type.
abbrev pub reports_of : ByteOrder → Turn → ℕ → List Report
reports_of host t type =
    sending_to t.dest
    ∷ acted (Action.sent t.dest (frame_of t))
    ∷ acted (replied (reply_text host type))
    ∷ []

-- The datagrams among what the server does.
abbrev pub datagrams : List Effect → List (Option (List ℕ))
datagrams [] = []
datagrams (sent ret frame ∷ effects) = some frame ∷ datagrams effects
datagrams (alert pi code ∷ effects) = datagrams effects

-- The client and the server agree on the next sequence number, and the database is these entries, in some
-- order.
pub record InStep (entries : List ClientInfo) (base id : ℕ) (timeout : Timeval) (next : ℕ)
    (cl : Client) (serv : Server) : Type 0 where
  pub usable : IsUsable id timeout cl
  pub ready : IsReady serv
  pub searchable : IsSearchable base serv.db
  pub holds : Perm (filled_entries serv.db) entries
  pub expected : serv.expect_recv id ≡ next

module _ (getaddrinfo : List ℕ → List ℕ → AddrInfo) where
  -- A turn in which the user asks, with a sequence number, for digits, and the request is delivered.
  pub record Asks (base n : ℕ) (t : Turn) : Type 0 where
    pub arguments : AreArguments getaddrinfo t.node t.service t.seq t.num_str t.tech_str t.dest
    pub numbered : decimal 0 t.seq % 256 ≡ n
    pub room : n < max_seq_num
    pub within : Within base (number_of t.num_str)
    pub delivered : is_minus_one t.sendto ≡ false
    pub payload_size : length t.payload ≡ request_size

-- The network makes of the datagrams that one side sends the waits of the other.
module _ (chost shost : ByteOrder) (getaddrinfo : List ℕ → List ℕ → AddrInfo)
    (std : SortSearch ClientInfo) (network : List (Option (List ℕ)) → List Answer) where
  -- A request and its answer: the server handles the frame that `send_req` sends, the waits of `send_req`
  -- bring what the server sends, and `send_req` returns with the text for a type that says of these
  -- entries what was asked.
  pub record Exchanges (entries : List ClientInfo) (t : Turn) (cl : Client) (serv : Server)
      (cl' : Client) (serv' : Server) : Type 0 where
    pub type : ℕ
    pub effects : List Effect
    pub served :
        server_process_packet shost std (receive serv (frame_of t)) t.ret t.garbage
        ≡ ok (serv', effects)
    pub decided : Decides entries (number_of t.num_str) (decimal 0 t.tech_str) type
    pub answered :
        send_req chost getaddrinfo (env_of network t (datagrams effects)) (argv_of t) cl
        ≡ ok (returned, cl', reports_of chost t type)

  module _ (base : ℕ) (timeout : Timeval)
      (delivers : (os : List (Option (List ℕ))) → Hears timeout (network os) os) where
    -- One turn keeps the two programs in step, and changes no other sequence number.
    pub Exchanges-InStep :
        (entries : List ClientInfo) (t : Turn) (n : ℕ) (cl : Client) (serv : Server)
        → t.who < 256
        → Asks getaddrinfo base n t
        → InStep entries base t.who timeout n cl serv
        → (cl' : Client) × (serv' : Server) × Exchanges entries t cl serv cl' serv'
          × InStep entries base t.who timeout (n + 1) cl' serv'
          × ((i : ℕ) → serv'.expect_recv i ≡ update serv.expect_recv t.who (n + 1) i)
    Exchanges-InStep entries t n cl serv known asks step =
        let usable = step.usable in
        let g : Garbage = t.garbage in
        let seq : ℕ = decimal 0 t.seq % 256 in
        let type : ℕ =
          verdict std g.key (asked t.num_str t.tech_str cl.id (serv.expect_recv cl.id) serv) in
        let heard : List (Option (List ℕ)) = answer_to std g.key serv cl.id t.num_str t.tech_str in
        let env : CommandEnv = env_of network t heard in
        let expect : serv.expect_recv cl.id ≡ n =
          ap serv.expect_recv usable.same_id ∙ step.expected in
        let can : CanRequest env cl seq = record {
          delivered = asks.delivered;
          payload_size = asks.payload_size;
          has_room = usable.send_size;
          has_tries = omega (arith, usable.tries_size, asks.numbered, asks.room);
        } in
        let ex : CanExchange cl serv base seq t.num_str = record {
          ready = step.ready;
          searchable = step.searchable;
          within = asks.within;
          known = omega (arith, usable.same_id, known);
          expected = asks.numbered ∙ sym expect;
          room = All-get_or (λ k. k < max_tries) cl.tries seq 0 usable.tries_left (omega arith);
        } in
        let (out, cl', run, ready, same_db, counted, answered, decided, ran, f) =
          send_req-answered chost shost getaddrinfo env cl (codes "send_req") t.node t.service t.seq
            t.num_str t.tech_str t.dest t.ret std serv g base asks.arguments can ex
            (subst (λ limit. Hears limit (network heard) heard) (sym usable.same_timeout)
              (delivers heard)) in
        (
          cl',
          out.0,
          record {
            type = type;
            effects = answer serv t.ret cl.id t.num_str t.tech_str type;
            served =
                subst
                  (λ i.
                    server_process_packet shost std
                      (receive serv (request_frame i seq t.num_str t.tech_str)) t.ret g
                    ≡ ok (out.0, answer serv t.ret cl.id t.num_str t.tech_str type))
                  usable.same_id (run ∙ ap (λ effects. ok (out.0, effects)) answered);
            decided = Decides-Perm (filled_entries serv.db) entries _ _ type step.holds decided;
            answered =
                subst
                  (λ i.
                    send_req chost getaddrinfo env
                      (codes "send_req" ∷ t.node ∷ t.service ∷ t.seq ∷ t.num_str ∷ t.tech_str ∷ [])
                      cl
                    ≡ ok (
                      returned,
                      cl',
                      sending_to t.dest
                          ∷ acted (Action.sent t.dest (request_frame i seq t.num_str t.tech_str))
                          ∷ acted (replied (reply_text chost type))
                          ∷ [],
                    ))
                  usable.same_id ran;
          },
          record {
            usable =
                Follows-IsUsable t.who timeout cl cl' seq
                  (request_frame cl.id seq t.num_str t.tech_str)
                  (returned, get_or cl.tries seq 0, replied (reply_text chost type) ∷ []) usable
                  (omega arith) ex.room f;
            ready = ready;
            searchable = subst (IsSearchable base) (sym same_db) step.searchable;
            holds = subst (λ db. Perm (filled_entries db) entries) (sym same_db) step.holds;
            expected =
                ground (arith, ap (λ h. h t.who) counted, usable.same_id, step.expected, asks.room);
          },
          λ i. ground (arith, ap (λ h. h i) counted, usable.same_id, step.expected, asks.room),
        )
