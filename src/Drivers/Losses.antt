-- ===== src/Drivers/Losses.antt =====
-- The two programs from what they set up at their start, over a network that may lose datagrams.
pub mod Tests
use ghetto_subscriber_valida.Prelude.{
  ℕ, ◌≤◌, ◌≡◌, refl, sym, subst, List, [], ◌∷◌, map, true, false, Option, none, some, ok, length,
  arith,
}
use ghetto_subscriber_valida.Prelude.Int.{ℤ, pos, ltb_ℤ}
use ghetto_subscriber_valida.Host.{ByteOrder}
use ghetto_subscriber_valida.SortSearch.{SortSearch}
use ghetto_subscriber_valida.Database.{ClientInfo, AstNode, Mpc, buf_size, str_to_entry}
use ghetto_subscriber_valida.Database.Lines.{lines}
use ghetto_subscriber_valida.Server.{Server, Effect, server_init}
use ghetto_subscriber_valida.Server.Init.{HasArrays, server_init-Loads}
use ghetto_subscriber_valida.Client.{Client, Answer, client_init, max_seq_num}
use ghetto_subscriber_valida.Client.Protocol.{Hears}
use ghetto_subscriber_valida.Commands.{AddrInfo}
use ghetto_subscriber_valida.Exchange.Turns.{Turn}
use ghetto_subscriber_valida.Exchange.Protocol.{Fate, View, Protocol, decisions, Protocol-once}
use ghetto_subscriber_valida.Exchange.Talk.{
  Happening, Talk, AllRequest, arrivals, requests, Talk-Protocol,
}
use ghetto_subscriber_valida.Exchange.Exhausted.{Protocol-bounds, AllRequest-HaveRoom}
use ghetto_subscriber_valida.Drivers.{default_address, running, start_server, server_main}
use ghetto_subscriber_valida.Drivers.Serving.{CanServe}
use ghetto_subscriber_valida.Drivers.Asking.{one_second, client_init-IsUsable}

-- If the server program can start on a file and the clients' sockets are bound; if the users ask, in any
-- order among them, at addresses that resolve and that `sendto` reaches, with any sequence numbers that
-- are below 255 modulo 256, for ten and two digits whose number lies in the stretch of the file's; if
-- what else comes to the server is no access request, but a failure of `recvfrom` or any other bytes, at
-- least one; if each request reaches the server or is lost; and of the server's answer the reply or the
-- REJECT reaches the client, or it is lost and the client's waits run out of time three times, and an ACK
-- before it may be lost as well, and bytes that are no packet may come to the client first: then every
-- `send_req` returns, and what the users are shown follows the abstract protocol with the lines of the
-- file and a table of zeros. What the server does is what its `main` does with what arrives, after which
-- it is still running.
pub server_main-Protocol :
    (chost : ℕ → ByteOrder) (shost : ByteOrder) (getaddrinfo : List ℕ → List ℕ → AddrInfo)
    (mpc : Mpc) (std : SortSearch ClientInfo) (network : List (Option (List ℕ)) → List Answer)
    (socket bind : ℤ) (sockets binds : ℕ → ℤ) (base : ℕ) (program filename curr_str : List ℕ)
    (nodes : List AstNode) (serv : Server) (ts : List Happening)
    → CanServe mpc socket bind base filename nodes
    → length curr_str ≡ buf_size
    → HasArrays serv
    → ((id : ℕ) → ltb_ℤ (sockets id) (pos 0) ≡ false)
    → ((id : ℕ) → ltb_ℤ (binds id) (pos 0) ≡ false)
    → ((os : List (Option (List ℕ))) → Hears one_second (network os) os)
    → AllRequest getaddrinfo base ts
    → let cls : ℕ → Client = λ id. (client_init (sockets id) (binds id) none id).1 in
      (serv₁ : Server) × (views : List View) × (effects : List Effect) × (cls' : ℕ → Client)
      × (serv' : Server) × (next : ℕ → ℕ) × (server_init mpc std socket bind serv
            (some (default_address shost mpc std socket bind))
            filename
            curr_str
          ≡ ok (true, serv₁))
      × Talk chost shost getaddrinfo std network ts cls serv₁ views effects cls' serv'
      × (server_main shost mpc std socket bind (program ∷ filename ∷ []) (arrivals ts) serv curr_str
          ≡ ok (running, effects))
      × Protocol (map str_to_entry (lines [] nodes)) (λ id. 0) (requests ts) views next
      × ((id : ℕ) → serv'.expect_recv id ≡ next id)
unfolding server_main start_server
server_main-Protocol chost shost getaddrinfo mpc std network socket bind sockets binds base program
      filename curr_str nodes serv ts can c h s b delivers asks =
    let entries : List ClientInfo = map str_to_entry (lines [] nodes) in
    let cls : ℕ → Client = λ id. (client_init (sockets id) (binds id) none id).1 in
    let (serv₁, init, _, ready, zeros, loads) =
      server_init-Loads mpc std socket bind serv (some (default_address shost mpc std socket bind))
        base filename curr_str nodes can.socket_ok can.bind_ok can.grammar can.parsed can.shaped
        can.few can.window c h in
    let (views, effects, next, cls', serv', talk, run, follows, _, serves) =
      Talk-Protocol chost shost getaddrinfo std network entries base one_second delivers ts
        (λ id. 0) cls serv₁ asks
        (λ id. (client_init-IsUsable (sockets id) (binds id) id (s id) (b id)).1)
        (record {
          ready = ready;
          searchable = loads.searchable;
          holds = loads.entries_kept;
          expected = zeros;
        }) in
    (
      serv₁,
      views,
      effects,
      cls',
      serv',
      next,
      init,
      talk,
      rw (init, run) refl,
      follows,
      serves.expected,
    )

-- If the server program can start on a file and the clients' sockets are bound; if the users ask, in any
-- order among them, at addresses that resolve and that `sendto` reaches, with any sequence numbers that
-- are below 255 modulo 256, as often as they like, for ten and two digits whose number lies in the
-- stretch of the file's; if what else comes to the server is no access request, but a failure of
-- `recvfrom` or any other bytes, at least one; if each request reaches the server or is lost; and of the
-- server's answer the reply or the REJECT reaches the client, or it is lost and the client's waits run
-- out of time three times, and an ACK before it may be lost as well, and bytes that are no packet may
-- come to the client first: then every `send_req` returns; the user of a client is told at most once for
-- each sequence number what the file says of a request; and the number that the server expects of a
-- client never passes 255.
pub server_main-decisions :
    (chost : ℕ → ByteOrder) (shost : ByteOrder) (getaddrinfo : List ℕ → List ℕ → AddrInfo)
    (mpc : Mpc) (std : SortSearch ClientInfo) (network : List (Option (List ℕ)) → List Answer)
    (socket bind : ℤ) (sockets binds : ℕ → ℤ) (base : ℕ) (program filename curr_str : List ℕ)
    (nodes : List AstNode) (serv : Server) (ts : List Happening)
    → CanServe mpc socket bind base filename nodes
    → length curr_str ≡ buf_size
    → HasArrays serv
    → ((id : ℕ) → ltb_ℤ (sockets id) (pos 0) ≡ false)
    → ((id : ℕ) → ltb_ℤ (binds id) (pos 0) ≡ false)
    → ((os : List (Option (List ℕ))) → Hears one_second (network os) os)
    → AllRequest getaddrinfo base ts
    → let cls : ℕ → Client = λ id. (client_init (sockets id) (binds id) none id).1 in
      (serv₁ : Server) × (views : List View) × (effects : List Effect) × (cls' : ℕ → Client)
      × (serv' : Server) × (server_init mpc std socket bind serv
            (some (default_address shost mpc std socket bind))
            filename
            curr_str
          ≡ ok (true, serv₁))
      × Talk chost shost getaddrinfo std network ts cls serv₁ views effects cls' serv'
      × ((id seq : ℕ) → decisions id seq (requests ts) views ≤ 1)
      × ((id : ℕ) → serv'.expect_recv id ≤ max_seq_num)
server_main-decisions chost shost getaddrinfo mpc std network socket bind sockets binds base program
      filename curr_str nodes serv ts can c h s b delivers asks =
    let entries : List ClientInfo = map str_to_entry (lines [] nodes) in
    let (serv₁, views, effects, cls', serv', next, init, talk, _, follows, expected) =
      server_main-Protocol chost shost getaddrinfo mpc std network socket bind sockets binds base
        program filename curr_str nodes serv ts can c h s b delivers asks in
    (
      serv₁,
      views,
      effects,
      cls',
      serv',
      init,
      talk,
      λ id seq. Protocol-once entries (λ i. 0) (requests ts) views next id seq follows,
      λ id.
          subst (λ n. n ≤ max_seq_num) (sym (expected id))
            (Protocol-bounds entries id (λ i. 0) (requests ts) views next follows
              (AllRequest-HaveRoom getaddrinfo base ts asks) (omega arith)).1,
    )
